-- ===== src/Model/Transition.antt =====
-- The records that travel between the pipeline and the store: crates/core/src/repo/types.rs.
-- A builder method has the name of the field that it sets.
use check_trung_video.Base.{ℕ, String, List, [], ◌∷◌, ◌++◌, Option, none, some, Bool}
use check_trung_video.Base.Int.{ℤ, pos}
use check_trung_video.Model.State.{State}
use check_trung_video.Model.JournalState.{JournalState}
use check_trung_video.Model.EventMethod.{EventMethod}
use check_trung_video.Model.EventResult.{EventResult}
use check_trung_video.Model.Records.{Ts, Digest, FileKey, FileLoc, Fingerprint, Identity}

-- `none` leaves a column alone, `some none` sets it to NULL.
pub record Patch : Type 0 where
  pub ready_at : Option (Option Ts)
  pub priority : Option ℕ
  pub attempts : Option ℕ
  pub heavy_wait_since : Option (Option Ts)
  pub last_error : Option (Option String)
  pub skip_reason : Option (Option String)
  pub identity : Option Identity
  pub enq : Option (Option Fingerprint)
  pub magic_ok : Option Bool
  pub sparse_hash : Option (Option Digest)
  pub hash_version : Option ℕ
  pub full_hash : Option (Option Digest)
  pub group_id : Option (Option ℕ)
  pub prev_state : Option (Option State)
  pub duration_ms : Option (Option ℕ)

abbrev pub empty_patch : Patch
empty_patch = record {
  ready_at = none;
  priority = none;
  attempts = none;
  heavy_wait_since = none;
  last_error = none;
  skip_reason = none;
  identity = none;
  enq = none;
  magic_ok = none;
  sparse_hash = none;
  hash_version = none;
  full_hash = none;
  group_id = none;
  prev_state = none;
  duration_ms = none;
}

abbrev pub ready_at : Option Ts → Patch → Patch
ready_at v p = record p { ready_at = some v }

abbrev pub priority : ℕ → Patch → Patch
priority v p = record p { priority = some v }

abbrev pub attempts : ℕ → Patch → Patch
attempts v p = record p { attempts = some v }

abbrev pub identity : Identity → Patch → Patch
identity v p = record p { identity = some v }

abbrev pub enq : Option Fingerprint → Patch → Patch
enq v p = record p { enq = some v }

abbrev pub magic_ok : Bool → Patch → Patch
magic_ok v p = record p { magic_ok = some v }

abbrev pub sparse_hash : Option Digest → Patch → Patch
sparse_hash v p = record p { sparse_hash = some v }

abbrev pub hash_version : ℕ → Patch → Patch
hash_version v p = record p { hash_version = some v }

abbrev pub full_hash : Option Digest → Patch → Patch
full_hash v p = record p { full_hash = some v }

abbrev pub group_id : Option ℕ → Patch → Patch
group_id v p = record p { group_id = some v }

abbrev pub prev_state : Option State → Patch → Patch
prev_state v p = record p { prev_state = some v }

abbrev pub skip_reason : Option String → Patch → Patch
skip_reason v p = record p { skip_reason = some v }

abbrev pub last_error : Option String → Patch → Patch
last_error v p = record p { last_error = some v }

abbrev pub heavy_wait_since : Option Ts → Patch → Patch
heavy_wait_since v p = record p { heavy_wait_since = some v }

abbrev pub duration_ms : Option ℕ → Patch → Patch
duration_ms v p = record p { duration_ms = some v }

-- An operation on `content_groups` that comes with a transition.
pub data GroupOp : Type 0 where
  create : (canonical : ℕ) (sparse_hash : Digest) (hash_version : ℕ) → GroupOp
  join : ℕ → GroupOp
  set_canonical : (group file : ℕ) → GroupOp
  leave : ℕ → GroupOp
  verified : (group : ℕ) (full_hash : Option Digest) → GroupOp

-- A row of the ledger `dedup_events`.
pub record DedupEvent : Type 0 where
  pub ts : Ts
  pub src : Option FileKey
  pub src_uid : Option ℕ
  pub src_path : Option String
  pub dst : Option FileKey
  pub dst_uid : Option ℕ
  pub dst_path : Option String
  pub size : Option ℕ
  pub method : EventMethod
  pub result : EventResult
  pub bytes_shared : ℤ
  pub errno : Option ℤ
  pub skip_reason : Option String
  pub note : Option String
  pub duration_ms : Option ℕ

-- `DedupEvent::new`
abbrev pub new_event : Ts → EventMethod → EventResult → DedupEvent
new_event ts method result = record {
  ts = ts;
  src = none;
  src_uid = none;
  src_path = none;
  dst = none;
  dst_uid = none;
  dst_path = none;
  size = none;
  method = method;
  result = result;
  bytes_shared = pos 0;
  errno = none;
  skip_reason = none;
  note = none;
  duration_ms = none;
}

-- A row of the initial scan.
pub record ScanRow : Type 0 where
  pub id : Identity
  pub loc : FileLoc
  pub state : State
  pub ready_at : Option Ts
  pub priority : ℕ

pub record EventFilter : Type 0 where
  pub uid : Option ℕ
  pub since : Option Ts
  pub limit : Option ℕ

-- A row of `dedup_journal`.
pub record JournalRow : Type 0 where
  pub id : Option ℕ
  pub method : EventMethod
  pub group_id : Option ℕ
  pub src_file_id : ℕ
  pub dst_file_id : ℕ
  pub state : JournalState
  pub src : Option FileKey
  pub src_size : Option ℕ
  pub src_mtime_ns : Option ℤ
  pub src_ctime_ns : Option ℤ
  pub dst : FileKey
  pub dst_size : ℕ
  pub dst_mtime_ns : ℤ
  pub dst_atime_ns : ℤ
  pub dst_ctime_ns : ℤ
  pub started_at : Ts
  pub updated_at : Ts
  pub error : Option String

pub record GroupNote : Type 0 where
  pub group_id : ℕ
  pub handled_at : Ts
  pub note : String
  pub by_device_id : Option String

-- A change of another row in the same transaction: id, `from`, `to` and patch.
pub record Other : Type 0 where
  pub id : ℕ
  pub from : State
  pub to : State
  pub patch : Patch

-- A whole change of state, applied in one transaction.
pub record Transition : Type 0 where
  pub id : ℕ
  pub from : State
  pub to : State
  pub patch : Patch
  pub now : Ts
  pub group : Option GroupOp
  pub event : Option DedupEvent
  pub journal : Option (ℕ × JournalState)
  pub others : List Other

-- `Transition::new`
abbrev pub new_transition : ℕ → State → State → Patch → Ts → Transition
new_transition id from to patch now = record {
  id = id;
  from = from;
  to = to;
  patch = patch;
  now = now;
  group = none;
  event = none;
  journal = none;
  others = [];
}

abbrev pub with_group : GroupOp → Transition → Transition
with_group op t = record t { group = some op }

abbrev pub with_event : DedupEvent → Transition → Transition
with_event ev t = record t { event = some ev }

abbrev pub with_journal : ℕ → JournalState → Transition → Transition
with_journal id st t = record t { journal = some (id, st) }

abbrev pub with_other : ℕ → State → State → Patch → Transition → Transition
with_other id from to patch t = record t {
  others = t.others ++ record { id = id; from = from; to = to; patch = patch } ∷ [];
}
