-- ===== src/Memory/Apply.antt =====
-- `apply` of a transition: crates/core/src/repo/memory/apply.rs.
pub mod Moved
pub mod Laws
use Prim.Native.String.{◌++◌ as string_append}
use check_trung_video.Base.{
  ℕ, ◌+◌, ◌==◌, String, List, [], ◌∷◌, ◌++◌, Bool, true, false, not, ◌&&◌, Option, none, some,
  Result, ok, err, is_some, unwrap_or, or_option, opt_eq, if◌then◌else◌,
}
use check_trung_video.Base.BTreeMap
use check_trung_video.Model.State
use check_trung_video.Model.State.{State}
use check_trung_video.Model.JournalState.{JournalState}
use check_trung_video.Model.Records.{Ts, FileRecord, Group, Identity}
use check_trung_video.Model.Transition.{
  Patch, GroupOp, create, join, set_canonical, leave, verified, DedupEvent, JournalRow, Other,
  Transition,
}
use check_trung_video.Memory.{
  Store, RepoError, group_unknown, group_file_unknown, journal_unknown, drop_canonical,
}

-- `heavy_wait_since` goes back to NULL with a change of state unless the patch sets it.
abbrev pub heavy_wait : Option (Option Ts) → Bool → Option Ts → Option Ts
heavy_wait (some v) changes old = v
heavy_wait none true old = none
heavy_wait none false old = old

abbrev pub patch_identity : Option Identity → FileRecord → FileRecord
patch_identity none r = r
patch_identity (some id) r = record r {
  size = id.size;
  mtime_ns = id.mtime_ns;
  ctime_ns = id.ctime_ns;
  nlink = id.nlink;
  owner_uid = id.uid;
  mode = id.mode;
}

unfoldable pub apply_patch : FileRecord → Patch → Bool → FileRecord
apply_patch r p state_changes = record (patch_identity p.identity r) {
  ready_at = unwrap_or r.ready_at p.ready_at;
  priority = unwrap_or r.priority p.priority;
  attempts = unwrap_or r.attempts p.attempts;
  heavy_wait_since = heavy_wait p.heavy_wait_since state_changes r.heavy_wait_since;
  last_error = unwrap_or r.last_error p.last_error;
  skip_reason = unwrap_or r.skip_reason p.skip_reason;
  enq = unwrap_or r.enq p.enq;
  magic_ok = or_option p.magic_ok r.magic_ok;
  sparse_hash = unwrap_or r.sparse_hash p.sparse_hash;
  hash_version = or_option p.hash_version r.hash_version;
  full_hash = unwrap_or r.full_hash p.full_hash;
  group_id = unwrap_or r.group_id p.group_id;
  prev_state = unwrap_or r.prev_state p.prev_state;
  duration_ms = unwrap_or r.duration_ms p.duration_ms;
}

-- A patch may not point to a group that does not exist.
abbrev pub check_group_id : Store → Option (Option ℕ) → Option RepoError
check_group_id s (some (some g)) =
    if BTreeMap.contains_key g s.groups then none else some (group_unknown g)
check_group_id s _ = none

unfoldable pub check_patch : Store → Patch → Option RepoError
check_patch s p = check_group_id s p.group_id

abbrev pub need_group : Store → ℕ → Option RepoError
need_group s g = if BTreeMap.contains_key g s.groups then none else some (group_unknown g)

unfoldable pub check_group_op : Store → ℕ → GroupOp → Option RepoError
check_group_op s row_id (create canonical h v) =
    if BTreeMap.contains_key row_id s.files && BTreeMap.contains_key canonical s.files
    then none
    else some group_file_unknown
check_group_op s row_id (join g) = need_group s g
check_group_op s row_id (leave g) = need_group s g
check_group_op s row_id (set_canonical g file) = need_group s g
check_group_op s row_id (verified g h) = need_group s g

abbrev pub set_group : Option ℕ → FileRecord → FileRecord
set_group g r = record r { group_id = g }

abbrev pub create_group : Option FileRecord → Store → ℕ → ℕ → ℕ → ℕ → Ts → Store
create_group none s row_id canonical h v now = s
create_group (some row) s row_id canonical h v now =
    let gid : ℕ = s.next_id + 1 in
    let group : Group = record {
      id = gid;
      domain_id = row.domain_id;
      size = row.size;
      sparse_hash = h;
      hash_version = v;
      full_hash = none;
      canonical_file_id = some canonical;
      verified_at = none;
      created_at = now;
    } in
    record s {
      next_id = gid;
      groups = BTreeMap.insert gid group s.groups;
      files =
          BTreeMap.modify canonical (set_group (some gid))
            (BTreeMap.modify row_id (set_group (some gid)) s.files);
    }

unfoldable pub apply_group_op : Store → ℕ → GroupOp → Ts → Store
apply_group_op s row_id (create canonical h v) now =
    create_group (BTreeMap.get row_id s.files) s row_id canonical h v now
apply_group_op s row_id (join g) now = record s {
  files = BTreeMap.modify row_id (set_group (some g)) s.files;
}
apply_group_op s row_id (set_canonical group file) now = record s {
  groups =
      BTreeMap.modify group (λ (g : Group). record g { canonical_file_id = some file }) s.groups;
  files = BTreeMap.modify file (set_group (some group)) s.files;
}
apply_group_op s row_id (leave g) now = record s {
  files = BTreeMap.modify row_id (set_group none) s.files;
  groups = BTreeMap.modify g (drop_canonical row_id) s.groups;
}
apply_group_op s row_id (verified group full_hash) now = record s {
  groups =
      BTreeMap.modify group
        (λ (g : Group). record g {
          verified_at = or_option g.verified_at (some now);
          full_hash = or_option g.full_hash full_hash;
        })
        s.groups;
}

-- The row after a transition whose `from` it had.
unfoldable pub move_row : State → State → Patch → Ts → FileRecord → FileRecord
unfolding apply_patch
move_row from to patch now r = record (apply_patch r patch (not (State.eq from to))) {
  state = to;
  updated_at = now;
}

-- `Some(r) if r.state == t.from`
abbrev pub cas : State → Option FileRecord → Bool
cas from none = false
cas from (some r) = State.eq r.state from

-- A row of `others` that has moved on is passed over.
unfoldable pub apply_others : List Other → Ts → Store → Store
unfolding move_row
apply_others [] now s = s
apply_others (o ∷ os) now s = apply_others os now (record s {
  files =
      BTreeMap.modify o.id
        (λ r. if State.eq r.state o.from then move_row o.from o.to o.patch now r else r) s.files;
})

abbrev pub apply_group : Option GroupOp → ℕ → Ts → Store → Store
apply_group none id now s = s
apply_group (some op) id now s = apply_group_op s id op now

-- The changes of a transition whose test has passed.
unfoldable pub apply_changes : Store → Transition → Store
unfolding move_row apply_others apply_group_op
apply_changes s t = apply_group t.group t.id t.now (
    apply_others t.others t.now
      (record s { files = BTreeMap.modify t.id (move_row t.from t.to t.patch t.now) s.files }))

abbrev pub raced_note : Option String → Option String
raced_note (some n) = some (string_append n " | state_raced")
raced_note none = some "state_raced"

-- The event is written to the ledger also when the test has failed, and then says so.
abbrev pub record_event : Bool → Option DedupEvent → Store → Store
record_event applied none s = s
record_event true (some ev) s = record s { events = s.events ++ ev ∷ [] }
record_event false (some ev) s = record s {
  events = s.events ++ record ev { note = raced_note ev.note } ∷ [];
}

abbrev pub close_journal : Option (ℕ × JournalState) → Ts → Store → Store
close_journal none now s = s
close_journal (some (jid, st)) now s = record s {
  journal =
      BTreeMap.modify jid (λ (j : JournalRow). record j { state = st; updated_at = now }) s.journal;
}

abbrev pub check_journal : Store → Option (ℕ × JournalState) → Option RepoError
check_journal s none = none
check_journal s (some (jid, st)) =
    if BTreeMap.contains_key jid s.journal then none else some (journal_unknown jid)

abbrev pub check_group : Store → ℕ → Option GroupOp → Option RepoError
check_group s id none = none
check_group s id (some op) = check_group_op s id op

unfoldable pub check_others : Store → List Other → Option RepoError
unfolding check_patch
check_others s [] = none
check_others s (o ∷ os) = or_option (check_patch s o.patch) (check_others s os)

-- Whatever can fail is checked before anything is written.
unfoldable pub check_all : Store → Transition → Option RepoError
unfolding check_patch check_group_op check_others
check_all s t = or_option (check_journal s t.journal) (
    or_option (check_group s t.id t.group)
      (or_option (check_patch s t.patch) (check_others s t.others)))

-- Whether the row of the transition still has its `from`.
unfoldable pub passes : Store → Transition → Bool
passes s t = cas t.from (BTreeMap.get t.id s.files)

abbrev pub apply_checked : Option RepoError → Store → Transition → Result RepoError Bool × Store
apply_checked (some e) s t = (err e, s)
apply_checked none s t =
    let applied = passes s t in
    (
      ok applied,
      close_journal t.journal t.now
          (record_event applied t.event (if applied then apply_changes s t else s)),
    )

unfoldable pub apply : Store → Transition → Result RepoError Bool × Store
unfolding check_all passes apply_changes
apply s t = apply_checked (check_all s t) s t
