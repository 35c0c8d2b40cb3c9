-- ===== src/Memory/Presence/Frame.antt =====
-- What a batch of the presence scan can touch: crates/core/src/repo/memory/watch.rs.
use check_trung_video.Base.{
  ℕ, List, [], ◌∷◌, Option, none, some, Result, ok, err, Bool-cases, inl, inr, ◌⊎◌, ◌≡◌, refl, ap,
  ◌∙◌,
}
use check_trung_video.Base.BTreeMap.{BTreeMap}
use check_trung_video.Model.RootKind.{RootKind}
use check_trung_video.Model.Records.{Ts, FileKey, FileLoc, FileRecord, Group, Identity}
use check_trung_video.Memory.{Store, Phien, RepoError, bo_goc_khi_roi_nhom, file_by_key, root_kind}
use check_trung_video.Memory.Queue.{contains_file_key, upsert_existing}
use check_trung_video.Memory.Presence.{Seen, seen_loop, restore_seen, add_seen}

-- The store `s` with other rows, groups and keys seen in the session `p`
abbrev pub Framed : Phien → Store → Store → Type 0
Framed p s s' =
    (files : BTreeMap FileRecord) × (groups : BTreeMap Group) × (seen : List FileKey) × (s'
      ≡ record s { files = files; groups = groups; phien = some (record p { seen = seen }) })

-- Other rows and groups only
abbrev pub Reshaped : Store → Store → Type 0
Reshaped s s' =
    (files : BTreeMap FileRecord) × (groups : BTreeMap Group) × (s'
      ≡ record s { files = files; groups = groups })

pub Reshaped-Framed :
    (p : Phien) (s s' s'' : Store) → Framed p s s' → Reshaped s' s'' → Framed p s s''
Reshaped-Framed p s s' s'' (fs, gs, q, e) (fs', gs', e') =
    (fs', gs', q, e' ∙ ap (λ (x : Store). record x { files = fs'; groups = gs' }) e)

pub bo_goc-Reshaped :
    (id : ℕ) (a b : Option ℕ) (s : Store) → Reshaped s (bo_goc_khi_roi_nhom id a b s)
unfolding bo_goc_khi_roi_nhom
bo_goc-Reshaped id none none s = (s.files, s.groups, refl)
bo_goc-Reshaped id none (some g) s = (s.files, s.groups, refl)
bo_goc-Reshaped id (some g) none s = (s.files, _, refl)
bo_goc-Reshaped id (some g) (some g') s = (s.files, s.groups, refl)

pub upsert_existing-Reshaped :
    (s : Store) (k : ℕ) (row : FileRecord) (id : Identity) (loc : Option FileLoc) (kind : RootKind)
    (ready_at : Ts) (priority : ℕ) (now : Ts)
    → Reshaped s (upsert_existing (s, k, row) id loc kind ready_at priority now)
unfolding upsert_existing
upsert_existing-Reshaped s k row id loc kind ready_at priority now =
    let (fs, gs, e) = bo_goc-Reshaped _ _ _ _ in (fs, gs, e)

pub restore_seen-Reshaped :
    (o : Option (ℕ × FileRecord)) (s : Store) (e : Seen) (kind : RootKind) (now : Ts)
    → Reshaped s (restore_seen o s e kind now).1
restore_seen-Reshaped none s e kind now = (s.files, s.groups, refl)
restore_seen-Reshaped (some (k, r)) s e kind now =
    upsert_existing-Reshaped s k r _ _ kind now r.priority now

pub add_seen-Framed :
    (p : Phien) (key : FileKey) (s s' : Store) → Framed p s s' → Framed p s (add_seen key s')
add_seen-Framed p key s s' (fs, gs, q, e) = (fs, gs, key ∷ q, ap (add_seen key) e)

pub Result-cases :
    (r : Result RepoError RootKind)
    → ((e : RepoError) × (r ≡ err e)) ⊎ ((k : RootKind) × (r ≡ ok k))
Result-cases (err e) = inl (e, refl)
Result-cases (ok k) = inr (k, refl)

-- The loop touches rows, groups and the keys seen.
pub seen_loop-Framed :
    (p : Phien) (s : Store) (now : Ts) (entries : List Seen) (dang_missing : List FileKey)
    (restored : ℕ) (s' : Store)
    → Framed p s s'
    → Framed p s (seen_loop s' dang_missing restored now entries).1
unfolding seen_loop
seen_loop-Framed p s now [] keys n s' f = f
seen_loop-Framed p s now (e ∷ entries) keys n s' f =
    let t : Store = add_seen e.key s' in
    let g = add_seen-Framed p e.key s s' f in
    elim (Bool-cases (contains_file_key e.key keys)) [
      | inr c ↦ rw (seen_loop, c) (seen_loop-Framed p s now entries keys n t g)
      | inl c ↦ elim (Result-cases (root_kind t e.loc.root_id)) [
        | inl (x, q) ↦ rw (seen_loop, c, q) g
        | inr (kind, q) ↦
            rw (seen_loop, c, q)
              (seen_loop-Framed p s now entries _ _ _ (
                Reshaped-Framed p s t _ g
                  (restore_seen-Reshaped (file_by_key t e.key) t e kind now)))
      ]
    ]
