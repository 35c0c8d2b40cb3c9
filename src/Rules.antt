-- ===== src/Rules.antt =====
-- The pure rules of the queue: crates/core/src/repo/rules.rs.
pub mod Upsert
use check_trung_video.Base.{
  ℕ, String, List, [], ◌∷◌, Bool, true, false, not, ◌&&◌, ◌||◌, Option, none, some, min, leb,
  if◌then◌else◌, str_eq, is_some_and,
}
use check_trung_video.Base.Int
use check_trung_video.Base.Int.{ℤ}
use check_trung_video.Model.State
use check_trung_video.Model.State.{State, settling, sized, missing}
use check_trung_video.Model.RootKind.{RootKind}
use check_trung_video.Model.Records.{
  Ts, Digest, FileLoc, Identity, FileRecord, matches, identity_fingerprint, row_fingerprint,
}
use check_trung_video.StateTable.{restore_target}

-- The new values of the columns that an upsert writes when the row exists.
pub record UpsertDecision : Type 0 where
  pub state : State
  pub prev_state : Option State
  pub ready_at : Option Ts
  pub priority : ℕ
  pub heavy_wait_since : Option Ts
  pub attempts : ℕ
  pub sparse_hash : Option Digest
  pub full_hash : Option Digest
  pub magic_ok : Option Bool
  pub group_id : Option ℕ
  pub skip_reason : Option String
  pub fp_same : Bool

-- `skip_reason.as_deref() == Some("user_undo")`
unfoldable pub is_user_undo : FileRecord → Bool
is_user_undo row = is_some_and (λ s. str_eq s "user_undo") row.skip_reason

abbrev pub was_missing : FileRecord → Bool
was_missing row = State.eq row.state missing

unfoldable pub decide_upsert : FileRecord → Identity → RootKind → Ts → ℕ → UpsertDecision
decide_upsert existing incoming kind ready_at priority =
    let fp_same : Bool = matches (row_fingerprint existing) (identity_fingerprint incoming) kind in
    let queued : Bool = State.is_queued existing.state in
    let user_undo : Bool = is_user_undo existing in
    let state : State =
      if was_missing existing && fp_same
      then restore_target existing.prev_state
      else if fp_same || user_undo
      then existing.state
      else settling in
    let prev_state : Option State =
      if fp_same || queued then existing.prev_state else some existing.state in
    let new_ready_at : Option Ts =
      if was_missing existing && fp_same
      then (if State.is_queued state then some ready_at else none)
      else if fp_same && not queued
      then existing.ready_at
      else some ready_at in
    record {
      state = state;
      prev_state = prev_state;
      ready_at = new_ready_at;
      priority = min existing.priority priority;
      heavy_wait_since = if fp_same then existing.heavy_wait_since else none;
      attempts = if fp_same then existing.attempts else 0;
      sparse_hash = if fp_same then existing.sparse_hash else none;
      full_hash = if fp_same then existing.full_hash else none;
      magic_ok = if fp_same then existing.magic_ok else none;
      group_id = if fp_same then existing.group_id else none;
      skip_reason = if fp_same || user_undo then existing.skip_reason else none;
      fp_same = fp_same;
    }

abbrev new_loc : Option FileLoc → FileLoc → FileLoc
new_loc none old = old
new_loc (some loc) old = loc

-- The decision written to the row, in the columns that every branch writes.
unfoldable pub apply_upsert :
    FileRecord → UpsertDecision → Identity → Option FileLoc → Ts → FileRecord
apply_upsert row d incoming loc now = record row {
  loc = new_loc loc row.loc;
  owner_uid = incoming.uid;
  mode = incoming.mode;
  enq = some (identity_fingerprint incoming);
  last_seen_at = now;
  updated_at = now;
  state = d.state;
  prev_state = d.prev_state;
  ready_at = d.ready_at;
  priority = d.priority;
  heavy_wait_since = d.heavy_wait_since;
  attempts = d.attempts;
  sparse_hash = d.sparse_hash;
  full_hash = d.full_hash;
  magic_ok = d.magic_ok;
  group_id = d.group_id;
  skip_reason = d.skip_reason;
}

-- A row for a file that is seen for the first time.
unfoldable pub new_row : ℕ → Identity → FileLoc → Ts → ℕ → Ts → FileRecord
new_row id incoming loc ready_at priority now = record {
  id = id;
  key = incoming.key;
  domain_id = incoming.domain_id;
  loc = loc;
  owner_uid = incoming.uid;
  mode = incoming.mode;
  size = incoming.size;
  mtime_ns = incoming.mtime_ns;
  ctime_ns = incoming.ctime_ns;
  nlink = incoming.nlink;
  state = settling;
  prev_state = none;
  ready_at = some ready_at;
  priority = priority;
  heavy_wait_since = none;
  attempts = 0;
  last_error = none;
  skip_reason = none;
  enq = some (identity_fingerprint incoming);
  magic_ok = none;
  sparse_hash = none;
  hash_version = none;
  full_hash = none;
  duration_ms = none;
  probe_status = none;
  group_id = none;
  first_seen_at = now;
  last_seen_at = now;
  updated_at = now;
}

abbrev pub is_light : State → Bool
is_light settling = true
is_light sized = true
is_light _ = false

-- Whether `next_ready` may choose the row.
unfoldable pub is_ready : FileRecord → Ts → Bool → ℤ → Bool
is_ready row now allow_heavy max_wait_ms =
    State.is_queued row.state
    && is_some_and
        (λ ready_at.
          not (Int.lt now ready_at)
          && (allow_heavy
              || is_light row.state
              || is_some_and (λ t. Int.le t (Int.saturating_sub now max_wait_ms))
                  row.heavy_wait_since))
        row.ready_at
