-- ===== src/Memory/Inv/Queue.antt =====
-- The operations of crates/core/src/repo/memory/queue.rs keep the invariant of the store.
use check_trung_video.Base.{
  ℕ, ◌+◌, ◌≡◌, refl, arith, true, false, Option, none, some, List, [], ◌∷◌, Result, ok, err, map,
  In, here, there, Option-cases, Bool-cases, inl, inr,
}
use check_trung_video.Base.BTreeMap
use check_trung_video.Base.BTreeMap.{BTreeMap}
use check_trung_video.Model.RootKind.{RootKind}
use check_trung_video.Model.Records.{Ts, FileKey, FileLoc, FileRecord, Identity, key_eq}
use check_trung_video.Model.Transition.{ScanRow}
use check_trung_video.Rules.{decide_upsert, apply_upsert, new_row}
use check_trung_video.Memory.{
  Store, RepoError, root_kind, file_by_key, bo_goc_khi_roi_nhom, drop_canonical,
}
use check_trung_video.Memory.Queue.{
  UpsertResult, upsert_existing, upsert_at, upsert_pending, with_kind, scan_insert, scan_loop,
  scan_row, check_roots, scan_phase_b, phase_b_row, is_waiting, contains_file_key, file_keys,
}
use check_trung_video.Memory.Inv.{Inv, IsUpdate}
use check_trung_video.Memory.Inv.Rules.{
  same-IsUpdate, insert-Inv, with_row-Inv, with_row, row_at, modify_group-Inv, update_where-Inv,
}

bo_goc-Inv :
    (s : Store) (row_id : ℕ) (truoc sau : Option ℕ)
    → Inv s
    → Inv (bo_goc_khi_roi_nhom row_id truoc sau s)
unfolding bo_goc_khi_roi_nhom
bo_goc-Inv s row_id (some g) none h = modify_group-Inv s h g (drop_canonical row_id) (λ x. refl)
bo_goc-Inv s row_id none none h = h
bo_goc-Inv s row_id none (some b) h = h
bo_goc-Inv s row_id (some a) (some b) h = h

module _ (s : Store) (k : ℕ) (row : FileRecord) (id : Identity) (loc : Option FileLoc)
    (kind : RootKind) (ready_at : Ts) (priority : ℕ) (now : Ts) where
  upserted-IsUpdate :
      Inv s
      → BTreeMap.get k s.files ≡ some row
      → IsUpdate s row (apply_upsert row (decide_upsert row id kind ready_at priority) id loc now)
  unfolding apply_upsert decide_upsert
  upserted-IsUpdate h at = record {
    same_id = refl;
    same_key = refl;
    grouped = λ g e. h.group_exists k row g at (ground arith);
  }

  pub upsert_existing-Inv :
      Inv s
      → BTreeMap.get k s.files ≡ some row
      → Inv (upsert_existing (s, k, row) id loc kind ready_at priority now)
  unfolding upsert_existing
  upsert_existing-Inv h at =
      let row' : FileRecord =
        apply_upsert row (decide_upsert row id kind ready_at priority) id loc now in
      bo_goc-Inv (record s { files = BTreeMap.insert k row' s.files }) row.id row.group_id
        row'.group_id (insert-Inv s h k row row' at (upserted-IsUpdate h at))

-- What `file_by_key` answers.
pub file_by_key-some :
    (s : Store) (key : FileKey) {k : ℕ} {r : FileRecord}
    → Inv s
    → file_by_key s key ≡ some (k, r)
    → (BTreeMap.get k s.files ≡ some r) × (key_eq r.key key ≡ true)
file_by_key-some s key h e =
    BTreeMap.find_entry-some (λ (f : FileRecord). key_eq f.key key) s.files h.files_sorted e

pub file_by_key-none :
    (s : Store) (key : FileKey) (k : ℕ) (r : FileRecord)
    → file_by_key s key ≡ none
    → BTreeMap.get k s.files ≡ some r
    → key_eq r.key key ≡ false
file_by_key-none s key k r e at =
    BTreeMap.find_entry-none (λ (f : FileRecord). key_eq f.key key) s.files k e at

upsert_at-Inv :
    (found : Option (ℕ × FileRecord)) (s : Store) (id : Identity) (loc : FileLoc) (kind : RootKind)
    (ready_at : Ts) (priority : ℕ) (now : Ts)
    → Inv s
    → file_by_key s id.key ≡ found
    → Inv (upsert_at found s id loc kind ready_at priority now).1
upsert_at-Inv (some (k, row)) s id loc kind ready_at priority now h e =
    upsert_existing-Inv s k row id (some loc) kind ready_at priority now h
      (file_by_key-some s id.key h e).0
upsert_at-Inv none s id loc kind ready_at priority now h e =
    unfold new_row in
    with_row-Inv s h s.next_id (omega arith) (new_row (s.next_id + 1) id loc ready_at priority now)
      refl (λ g eg. cc eg) (λ k r at. file_by_key-none s id.key k r e at)

with_kind-Inv :
    (s : Store) (r : Result RepoError RootKind) (f : RootKind → UpsertResult × Store)
    → Inv s
    → ((kind : RootKind) → Inv (f kind).1)
    → Inv (with_kind s r f).1
with_kind-Inv s (err e) f h k = h
with_kind-Inv s (ok kind) f h k = k kind

pub upsert_pending-Inv :
    (s : Store) (id : Identity) (loc : FileLoc) (ready_at : Ts) (priority : ℕ) (now : Ts)
    → Inv s
    → Inv (upsert_pending s id loc ready_at priority now).1
unfolding upsert_pending
upsert_pending-Inv s id loc ready_at priority now h =
    with_kind-Inv s (root_kind s loc.root_id)
      (λ kind. upsert_at (file_by_key s id.key) s id loc kind ready_at priority now) h
      λ kind. upsert_at-Inv (file_by_key s id.key) s id loc kind ready_at priority now h refl

-- Every key of the store stands in the list.
abbrev Covers : Store → List FileKey → Type 0
Covers s keys =
    (k : ℕ) (r : FileRecord) → BTreeMap.get k s.files ≡ some r → contains_file_key r.key keys ≡ true

key_eq→≡ : (a b : FileKey) → key_eq a b ≡ true → a ≡ b
key_eq→≡ a b e = ground arith

key_eq_refl : (a : FileKey) → key_eq a a ≡ true
key_eq_refl a = ground arith

uncovered :
    (a b : FileKey) (keys : List FileKey)
    → contains_file_key a keys ≡ true
    → contains_file_key b keys ≡ false
    → key_eq a b ≡ false
uncovered a b keys c f = elim (Bool-cases (key_eq a b)) [
  | inl t ↦ let e = key_eq→≡ a b t in cc (rw e at c)
  | inr n ↦ n
]

module _ (s : Store) (r : ScanRow) (now : Ts) (da_co : List FileKey) (h : Inv s)
    (c : Covers s da_co) where
  abbrev added : Store
  added = with_row s h s.next_id (omega arith) (scan_row (s.next_id + 1) r now)

  scan_row-Inv : contains_file_key r.id.key da_co ≡ false → Inv added
  scan_row-Inv f =
      unfold new_row in
      with_row-Inv s h s.next_id (omega arith) (scan_row (s.next_id + 1) r now) refl (λ g eg. cc eg)
        (λ k x at. uncovered x.key r.id.key da_co (c k x at) f)

  Covers-row : Covers added (r.id.key ∷ da_co)
  Covers-row k x e =
      elim (row_at s h s.next_id (omega arith) (scan_row (s.next_id + 1) r now) k x e) [
        | inl (ek, er) ↦ rw er (unfold new_row in rw key_eq_refl)
        | inr old ↦ ground (arith, c k x old)
      ]

scan_loop-Inv :
    (s : Store) (da_co : List FileKey) (n : ℕ) (now : Ts) (rows : List ScanRow)
    → Inv s
    → Covers s da_co
    → Inv (scan_loop s da_co n now rows).1
unfolding scan_loop
scan_loop-Inv s da_co n now [] h c = h
scan_loop-Inv s da_co n now (r ∷ rows) h c = elim (Bool-cases (contains_file_key r.id.key da_co)) [
  | inl t ↦ rw (t, scan_loop) (scan_loop-Inv s da_co n now rows h c)
  | inr f ↦
      rw (f, scan_loop)
        (scan_loop-Inv (with_row s h s.next_id (omega arith) (scan_row (s.next_id + 1) r now))
          (r.id.key ∷ da_co) (n + 1) now rows (scan_row-Inv s r now da_co h c f)
          (Covers-row s r now da_co h c))
]

-- `map` and `any` over the values: the keys of the store are covered by its own list.
any-map :
    (key : FileKey) (rs : List FileRecord) {r : FileRecord}
    → In r rs
    → key_eq r.key key ≡ true
    → contains_file_key key (map (λ (f : FileRecord). f.key) rs) ≡ true
any-map key [] m e = elim m [ ]
any-map key (x ∷ rs) here e = rw e
any-map key (x ∷ rs) {r} (there m) e = let ih = any-map key rs {r = r} m e in ground arith

Covers-file_keys : (s : Store) → Covers s (file_keys s)
Covers-file_keys s k r at =
    any-map r.key (BTreeMap.values s.files) {r = r} (BTreeMap.get-In-values s.files k at)
      (key_eq_refl r.key)

pub scan_insert-Inv :
    (s : Store) (rows : List ScanRow) (now : Ts) → Inv s → Inv (scan_insert s rows now).1
unfolding scan_insert
scan_insert-Inv s rows now h = elim (Option-cases (check_roots s rows)) [
  | inl none_ ↦
      rw (none_, scan_insert) (scan_loop-Inv s (file_keys s) 0 now rows h (Covers-file_keys s))
  | inr (e, some_) ↦ rw (some_, scan_insert) h
]

pub scan_phase_b-Inv :
    (s : Store) (root_id : ℕ) (now : Ts) → Inv s → Inv (scan_phase_b s root_id now).1
unfolding scan_phase_b
scan_phase_b-Inv s root_id now h =
    update_where-Inv s h (is_waiting root_id) (phase_b_row s.files now) λ k r at t.
      unfold phase_b_row in
      same-IsUpdate s h k r (phase_b_row s.files now r) at (ground arith) (ground arith)
        (ground arith)
