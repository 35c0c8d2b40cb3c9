-- ===== src/Memory/Queue.antt =====
-- The work queue: crates/core/src/repo/memory/queue.rs.
pub mod Ready
pub mod Order
pub mod Inserted
use check_trung_video.Base.{
  ℕ, suc, ◌+◌, ◌==◌, ltb, List, [], ◌∷◌, Bool, true, false, not, ◌&&◌, ◌||◌, Option, none, some,
  Result, ok, err, any, filter, min_by, map, is_none, is_some, if◌then◌else◌, length, unwrap_or,
  opt_eq,
}
use check_trung_video.Base.Int
use check_trung_video.Base.Int.{ℤ}
use check_trung_video.Base.BTreeMap
use check_trung_video.Base.BTreeMap.{BTreeMap}
use check_trung_video.Model.State
use check_trung_video.Model.State.{State, settling, sized, distinct, missing, gone}
use check_trung_video.Model.RootKind.{RootKind}
use check_trung_video.Model.Records.{Ts, FileKey, FileLoc, FileRecord, Identity, key_eq}
use check_trung_video.Model.Transition.{ScanRow}
use check_trung_video.Rules.{decide_upsert, apply_upsert, new_row, is_ready}
use check_trung_video.Memory.{Store, RepoError, root_kind, file_by_key, bo_goc_khi_roi_nhom}

pub record UpsertResult : Type 0 where
  pub id : ℕ
  pub dropped_as_self_event : Bool

-- The row of the key is there: it is changed by the rule.
unfoldable pub upsert_existing :
    (Store × ℕ × FileRecord) → Identity → Option FileLoc → RootKind → Ts → ℕ → Ts → Store
unfolding bo_goc_khi_roi_nhom
upsert_existing (s, k, row) id loc kind ready_at priority now =
    let row' : FileRecord =
      apply_upsert row (decide_upsert row id kind ready_at priority) id loc now in
    bo_goc_khi_roi_nhom row.id row.group_id row'.group_id
      (record s { files = BTreeMap.insert k row' s.files })

abbrev pub upsert_at :
    Option (ℕ × FileRecord)
    → Store
    → Identity
    → FileLoc
    → RootKind
    → Ts
    → ℕ
    → Ts
    → UpsertResult × Store
upsert_at (some (k, row)) s id loc kind ready_at priority now =
    let state : State = (decide_upsert row id kind ready_at priority).state in
    (
      record { id = row.id; dropped_as_self_event = not (State.is_queued state) },
      upsert_existing (s, k, row) id (some loc) kind ready_at priority now,
    )
upsert_at none s id loc kind ready_at priority now =
    let nid : ℕ = s.next_id + 1 in
    (
      record { id = nid; dropped_as_self_event = false },
      record s {
        next_id = nid;
        files = BTreeMap.insert nid (new_row nid id loc ready_at priority now) s.files;
      },
    )

abbrev pub with_kind :
    {A : Type 0}
    → Store
    → Result RepoError RootKind
    → (RootKind → A × Store)
    → Result RepoError A × Store
with_kind s (err e) f = (err e, s)
with_kind s (ok kind) f = let (a, s') = f kind in (ok a, s')

unfoldable pub upsert_pending :
    Store → Identity → FileLoc → Ts → ℕ → Ts → Result RepoError UpsertResult × Store
unfolding upsert_existing root_kind
upsert_pending s id loc ready_at priority now =
    with_kind s (root_kind s loc.root_id)
      λ kind. upsert_at (file_by_key s id.key) s id loc kind ready_at priority now

-- The first error of the roots of the rows.
unfoldable pub check_roots : Store → List ScanRow → Option RepoError
unfolding root_kind
check_roots s [] = none
check_roots s (r ∷ rows) =
    let rest = check_roots s rows in
    elim (root_kind s r.loc.root_id) [ err e ↦ some e | ok kind ↦ rest ]

abbrev pub contains_file_key : FileKey → List FileKey → Bool
contains_file_key k seen = any (λ j. key_eq j k) seen

-- The row that a row of the scan becomes.
abbrev pub scan_row : ℕ → ScanRow → Ts → FileRecord
scan_row nid r now = record (new_row nid r.id r.loc now r.priority now) {
  state = r.state;
  ready_at = r.ready_at;
}

-- The loop of `scan_insert`: the keys that are there, the rows left and the rows inserted.
unfoldable pub scan_loop : Store → List FileKey → ℕ → Ts → List ScanRow → ℕ × Store
scan_loop s da_co n now [] = (n, s)
scan_loop s da_co n now (r ∷ rows) = elim (contains_file_key r.id.key da_co) [
  | true ↦ scan_loop s da_co n now rows
  | false ↦
      let nid : ℕ = s.next_id + 1 in
      scan_loop
        (record s { next_id = nid; files = BTreeMap.insert nid (scan_row nid r now) s.files })
        (r.id.key ∷ da_co) (n + 1) now rows
]

abbrev pub file_keys : Store → List FileKey
file_keys s = map (λ (f : FileRecord). f.key) (BTreeMap.values s.files)

-- Either every row of the batch has a known root, or nothing is inserted.
unfoldable pub scan_insert : Store → List ScanRow → Ts → Result RepoError ℕ × Store
unfolding check_roots scan_loop BTreeMap.values
scan_insert s rows now = elim (check_roots s rows) [
  | some e ↦ (err e, s)
  | none ↦ let (n, s') = scan_loop s (file_keys s) 0 now rows in (ok n, s')
]

abbrev pub is_dead : State → Bool
is_dead missing = true
is_dead gone = true
is_dead _ = false

-- `dem`: the living rows with the domain and the size, in all roots
unfoldable pub count_same_size : BTreeMap FileRecord → FileRecord → ℕ
unfolding BTreeMap.count_where
count_same_size files r =
    BTreeMap.count_where
      (λ (f : FileRecord).
        not (is_dead f.state) && (f.domain_id == r.domain_id && f.size == r.size))
      files

-- A row that waits for phase B.
unfoldable pub is_waiting : ℕ → FileRecord → Bool
is_waiting root_id r = r.loc.root_id == root_id && State.eq r.state sized && is_none r.ready_at

-- The counts are taken before the loop, which changes neither size nor domain.
unfoldable pub phase_b_row : BTreeMap FileRecord → Ts → FileRecord → FileRecord
unfolding count_same_size
phase_b_row files now r =
    if ltb 1 (count_same_size files r)
    then record r { ready_at = some now; updated_at = now }
    else record r { state = distinct; updated_at = now }

unfoldable pub scan_phase_b : Store → ℕ → Ts → (ℕ × ℕ) × Store
unfolding is_waiting phase_b_row BTreeMap.update_where BTreeMap.count_where count_same_size
scan_phase_b s root_id now = (
  (
    BTreeMap.count_where (λ r. is_waiting root_id r && ltb 1 (count_same_size s.files r)) s.files,
    BTreeMap.count_where (λ r. is_waiting root_id r && not (ltb 1 (count_same_size s.files r)))
        s.files,
  ),
  record s { files = BTreeMap.update_where (is_waiting root_id) (phase_b_row s.files now) s.files },
)

-- `None` comes before every `Some`.
abbrev pub opt_lt : Option Ts → Option Ts → Bool
opt_lt none none = false
opt_lt none (some b) = true
opt_lt (some a) none = false
opt_lt (some a) (some b) = Int.lt a b

-- `(priority, ready_at, id)` in lexicographic order
unfoldable pub queue_less : FileRecord → FileRecord → Bool
queue_less a b =
    ltb a.priority b.priority
    || (a.priority == b.priority
        && (opt_lt a.ready_at b.ready_at || (opt_eq Int.eq a.ready_at b.ready_at && ltb a.id b.id)))

unfoldable pub next_ready : Store → Ts → Bool → ℤ → Option FileRecord
unfolding is_ready BTreeMap.values min_by queue_less
next_ready s now allow_heavy max_wait_ms =
    min_by queue_less
      (filter (λ r. is_ready r now allow_heavy max_wait_ms) (BTreeMap.values s.files))

-- A real-time row that is settling and is not parked.
unfoldable pub is_pending : FileRecord → Bool
is_pending r = r.priority == 0 && State.eq r.state settling && is_some r.ready_at

-- The pending rows, counted for each owner.
unfoldable pub count_uids : List FileRecord → BTreeMap ℕ → BTreeMap ℕ
unfolding is_pending BTreeMap.insert BTreeMap.get
count_uids [] m = m
count_uids (r ∷ rs) m = count_uids rs (
    if is_pending r
    then BTreeMap.insert r.owner_uid (unwrap_or 0 (BTreeMap.get r.owner_uid m) + 1) m
    else m)

unfoldable pub pending_counts : Store → ℕ × List (ℕ × ℕ)
unfolding count_uids is_pending BTreeMap.values BTreeMap.count_where
pending_counts s =
    (BTreeMap.count_where is_pending s.files, count_uids (BTreeMap.values s.files) [])
