-- ===== src/Memory/Queue/Inserted.antt =====
-- What `scan_insert` of crates/core/src/repo/memory/queue.rs leaves in the store.
use check_trung_video.Base.{
  ℕ, ◌+◌, ◌≤◌, List, [], ◌∷◌, true, some, ok, err, map, In, here, there, Option-cases, Bool-cases,
  inl, inr, ◌≡◌, refl, arith,
}
use check_trung_video.Base.BTreeMap
use check_trung_video.Base.BTreeMap.{get-insert, In-values-get}
use check_trung_video.Model.Records.{Ts, FileKey, FileRecord, key_eq}
use check_trung_video.Model.Transition.{ScanRow}
use check_trung_video.Rules.{new_row}
use check_trung_video.Memory.{Store, RepoError}
use check_trung_video.Memory.Inv.{Inv}
use check_trung_video.Memory.Queue.{
  check_roots, contains_file_key, scan_row, scan_loop, file_keys, scan_insert,
}

-- A row of the store has the key.
abbrev pub HasKey : FileKey → Store → Type 0
HasKey k s =
    (j : ℕ) × (r : FileRecord) × (BTreeMap.get j s.files ≡ some r) × (key_eq r.key k ≡ true)

-- No row has an id that was not allocated.
abbrev IsFresh : Store → Type 0
IsFresh s = (j : ℕ) (r : FileRecord) → BTreeMap.get j s.files ≡ some r → j ≤ s.next_id

abbrev IsSound : Store → List FileKey → Type 0
IsSound s keys = (k : FileKey) → contains_file_key k keys ≡ true → HasKey k s

abbrev with_scan_row : Store → ScanRow → Ts → Store
with_scan_row s r now = record s {
  next_id = s.next_id + 1;
  files = BTreeMap.insert (s.next_id + 1) (scan_row (s.next_id + 1) r now) s.files;
}

module _ (s : Store) (r : ScanRow) (now : Ts) (h : IsFresh s) where
  get-old :
      (j : ℕ) {x : FileRecord}
      → BTreeMap.get j s.files ≡ some x
      → BTreeMap.get j (with_scan_row s r now).files ≡ some x
  get-old j {x} e =
      let b = h j x e in
      let g = get-insert (s.next_id + 1) j (scan_row (s.next_id + 1) r now) s.files in ground arith

  get-new :
      BTreeMap.get (s.next_id + 1) (with_scan_row s r now).files
      ≡ some (scan_row (s.next_id + 1) r now)
  get-new =
      let g = get-insert (s.next_id + 1) (s.next_id + 1) (scan_row (s.next_id + 1) r now) s.files in
      ground arith

  row-IsFresh : IsFresh (with_scan_row s r now)
  row-IsFresh j x e =
      let g = get-insert (s.next_id + 1) j (scan_row (s.next_id + 1) r now) s.files in
      let o = h j x in ground arith

  row-HasKey : (k : FileKey) → HasKey k s → HasKey k (with_scan_row s r now)
  row-HasKey k (j, x, e, q) = (j, x, get-old j {x = x} e, q)

  row-IsSound :
      (keys : List FileKey) → IsSound s keys → IsSound (with_scan_row s r now) (r.id.key ∷ keys)
  row-IsSound keys c k t = elim (Bool-cases (key_eq r.id.key k)) [
    | inl y ↦ (s.next_id + 1, scan_row (s.next_id + 1) r now, get-new, unfold new_row in y)
    | inr n ↦ row-HasKey k (c k (rw n at t))
  ]

scan_loop-keeps :
    (s : Store) (da_co : List FileKey) (n : ℕ) (now : Ts) (rows : List ScanRow) (k : FileKey)
    → IsFresh s
    → HasKey k s
    → HasKey k (scan_loop s da_co n now rows).1
unfolding scan_loop
scan_loop-keeps s da_co n now [] k h x = x
scan_loop-keeps s da_co n now (r ∷ rows) k h x =
    elim (Bool-cases (contains_file_key r.id.key da_co)) [
      | inl t ↦ rw (t, scan_loop) (scan_loop-keeps s da_co n now rows k h x)
      | inr f ↦
          rw (f, scan_loop)
            (scan_loop-keeps (with_scan_row s r now) (r.id.key ∷ da_co) (n + 1) now rows k
              (row-IsFresh s r now h) (row-HasKey s r now h k x))
    ]

key_eq_refl : (a : FileKey) → key_eq a a ≡ true
key_eq_refl a = ground arith

scan_loop-In :
    (s : Store) (da_co : List FileKey) (n : ℕ) (now : Ts) (rows : List ScanRow) {r : ScanRow}
    → IsFresh s
    → IsSound s da_co
    → In r rows
    → HasKey r.id.key (scan_loop s da_co n now rows).1
unfolding scan_loop
scan_loop-In s da_co n now [] h c m = elim m [ ]
scan_loop-In s da_co n now (x ∷ rows) h c here =
    elim (Bool-cases (contains_file_key x.id.key da_co)) [
      | inl t ↦ rw (t, scan_loop) (scan_loop-keeps s da_co n now rows x.id.key h (c x.id.key t))
      | inr f ↦
          rw (f, scan_loop)
            (scan_loop-keeps (with_scan_row s x now) (x.id.key ∷ da_co) (n + 1) now rows x.id.key
              (row-IsFresh s x now h)
              (row-IsSound s x now h da_co c x.id.key (rw key_eq_refl refl)))
    ]
scan_loop-In s da_co n now (x ∷ rows) {r} h c (there m) =
    elim (Bool-cases (contains_file_key x.id.key da_co)) [
      | inl t ↦ rw (t, scan_loop) (scan_loop-In s da_co n now rows {r = r} h c m)
      | inr f ↦
          rw (f, scan_loop)
            (scan_loop-In (with_scan_row s x now) (x.id.key ∷ da_co) (n + 1) now rows {r = r}
              (row-IsFresh s x now h) (row-IsSound s x now h da_co c) m)
    ]

-- A key among those of some rows is the key of one of them.
keys_of :
    (k : FileKey) (rs : List FileRecord)
    → contains_file_key k (map (λ (f : FileRecord). f.key) rs) ≡ true
    → (x : FileRecord) × In x rs × (key_eq x.key k ≡ true)
keys_of k [] h = cc h
keys_of k (x ∷ rs) h = elim (Bool-cases (key_eq x.key k)) [
  | inl t ↦ (x, here, t)
  | inr f ↦ let (y, m, q) = keys_of k rs (rw f at h) in (y, there m, q)
]

file_keys-IsSound : (s : Store) → Inv s → IsSound s (file_keys s)
file_keys-IsSound s h k t =
    let (x, m, q) = keys_of k (BTreeMap.values s.files) t in
    let (j, e) = In-values-get s.files {v = x} h.files_sorted m in (j, x, e, q)

-- After a scan that is inserted without an error, every row of the batch has a row of its key in the
-- store: it was there before, or was inserted.
pub scan_insert-In :
    (s : Store) (rows : List ScanRow) (now : Ts) {n : ℕ} {r : ScanRow}
    → Inv s
    → (scan_insert s rows now).0 ≡ ok n
    → In r rows
    → HasKey r.id.key (scan_insert s rows now).1
unfolding scan_insert
scan_insert-In s rows now {r = r} h e m = elim (Option-cases (check_roots s rows)) [
  | inl q ↦
      rw (q, scan_insert)
        (scan_loop-In s (file_keys s) 0 now rows {r = r} h.file_allocated (file_keys-IsSound s h) m)
  | inr (x, q) ↦ cc (rw (q, scan_insert) at e)
]

-- A scan that fails changes nothing.
pub scan_insert-err :
    (s : Store) (rows : List ScanRow) (now : Ts) {x : RepoError}
    → (scan_insert s rows now).0 ≡ err x
    → (scan_insert s rows now).1 ≡ s
unfolding scan_insert
scan_insert-err s rows now e = elim (Option-cases (check_roots s rows)) [
  | inl q ↦ cc (rw (q, scan_insert) at e)
  | inr (y, q) ↦ rw (q, scan_insert) refl
]
