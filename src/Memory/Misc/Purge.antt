-- ===== src/Memory/Misc/Purge.antt =====
-- What a purge leaves: `purge` of crates/core/src/repo/memory/misc.rs.
use check_trung_video.Base.{
  ℕ, ◌==◌, List, [], ◌∷◌, Bool, false, not, ◌&&◌, some, ◌≡◌, arith, any, In, here, there,
  Bool-cases, Option-cases, inl, inr, ap, unwrap_or, subst, ◌∙◌,
}
use check_trung_video.Base.Int
use check_trung_video.Base.Int.{ℤ}
use check_trung_video.Base.BTreeMap
use check_trung_video.Base.BTreeMap.{get-retain, get-map_values, get-In-values}
use check_trung_video.Model.Records.{Ts, FileRecord, Group}
use check_trung_video.Memory.{Store}
use check_trung_video.Memory.Inv.{Inv}
use check_trung_video.Memory.Misc.{purge, het_han, is_purged_id, purged_group}

not-any :
    (p : FileRecord → Bool) (xs : List FileRecord) {r : FileRecord}
    → any p xs ≡ false
    → In r xs
    → p r ≡ false
not-any p [] h n = elim n [ ]
not-any p (x ∷ xs) h here = ground arith
not-any p (x ∷ xs) {r} h (there n) = not-any p xs {r = r} (ground arith) n

kept-pointer :
    (cutoff : Ts) (rows : List FileRecord) (g : Group) (f : ℕ)
    → (purged_group cutoff rows g).canonical_file_id ≡ some f
    → is_purged_id cutoff rows f ≡ false
kept-pointer cutoff rows g f h = elim (Option-cases g.canonical_file_id) [
  | inl e ↦ cc (rw e at h)
  | inr (c, e) ↦ elim (Bool-cases (is_purged_id cutoff rows c)) [
    | inl t ↦ cc (rw (e, t) at h)
    | inr n ↦ subst (λ x. is_purged_id cutoff rows x ≡ false) (ap (unwrap_or c) (rw (e, n) at h)) n
  ]
]

kept-alive :
    (cutoff : Ts) (r : FileRecord) (f : ℕ)
    → r.id ≡ f
    → (het_han cutoff r && r.id == f) ≡ false
    → BTreeMap.keep_if (λ x. not (het_han cutoff x)) (some r) ≡ some r
kept-alive cutoff r f i h = ground arith

-- A purge leaves no group with a pointer to a row that it deleted: if a group still names a canonical
-- and the store had a row of that id, the row is still there, unchanged.
pub purge-canonical :
    (s : Store) (now retention_ms : ℤ) (k f : ℕ) (g : Group) (r : FileRecord)
    → Inv s
    → BTreeMap.get k (purge s now retention_ms).1.groups ≡ some g
    → g.canonical_file_id ≡ some f
    → BTreeMap.get f s.files ≡ some r
    → BTreeMap.get f (purge s now retention_ms).1.files ≡ some r
unfolding purge
purge-canonical s now retention_ms k f g r inv hg hc hr =
    let cutoff : ℤ = Int.saturating_sub now retention_ms in
    let rows = BTreeMap.values s.files in
    let m = get-map_values k (purged_group cutoff rows) s.groups in
    elim (Option-cases (BTreeMap.get k s.groups)) [
      | inl e ↦ cc (rw (m, e) at hg)
      | inr (g0, e) ↦
          let same : purged_group cutoff rows g0 ≡ g = ap (unwrap_or g) (rw (m, e) at hg) in
          let named : (purged_group cutoff rows g0).canonical_file_id ≡ some f =
            ap (λ (x : Group). x.canonical_file_id) same ∙ hc in
          let n = kept-pointer cutoff rows g0 f named in
          let alive =
            not-any (λ (x : FileRecord). het_han cutoff x && x.id == f) rows {r = r}
              (unfold is_purged_id in n) (get-In-values s.files f hr) in
          rw (get-retain f (λ x. not (het_han cutoff x)) s.files inv.files_sorted, hr)
            (kept-alive cutoff r f (inv.file_id f r hr) alive)
    ]
