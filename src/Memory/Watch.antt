-- ===== src/Memory/Watch.antt =====
-- Changes from the watcher: the first half of crates/core/src/repo/memory/watch.rs.
pub mod Return
use check_trung_video.Base.{
  ℕ, ◌==◌, List, [], Bool, true, false, not, ◌&&◌, Option, none, some, Result, ok, err, is_some,
  if◌then◌else◌,
}
use check_trung_video.Base.BTreeMap
use check_trung_video.Model.State
use check_trung_video.Model.State.{State, missing}
use check_trung_video.Model.RootKind.{RootKind}
use check_trung_video.Model.Records.{
  Ts, FileKey, FileLoc, FileRecord, Identity, key_eq, loc_eq, path_eq, path_starts_with,
}
use check_trung_video.Memory.{Store, RepoError, rename_unknown, root_kind, file_by_key}
use check_trung_video.Memory.Queue.{is_dead, upsert_existing}

-- A row that is off the disk goes missing and remembers its state.
unfoldable pub set_missing : Ts → FileRecord → FileRecord
set_missing now r = if is_dead r.state then r else record r {
  prev_state = some r.state;
  state = missing;
  ready_at = none;
  heavy_wait_since = none;
  updated_at = now;
}

unfoldable pub under_dir : FileLoc → FileRecord → Bool
under_dir dir r = r.loc.root_id == dir.root_id && path_starts_with r.loc.rel_path dir.rel_path

-- Another row at the new place of a rename.
unfoldable pub is_overwritten : FileKey → FileLoc → FileRecord → Bool
is_overwritten key new_loc r = loc_eq r.loc new_loc && not (key_eq r.key key)

abbrev pub move_entry : Option (ℕ × FileRecord) → FileLoc → Ts → Store → Store
move_entry none new_loc now s = s
move_entry (some (k, r)) new_loc now s = record s {
  files = BTreeMap.insert k (record r { loc = new_loc; updated_at = now }) s.files;
}

unfoldable pub rename : Store → FileKey → FileLoc → Ts → Result RepoError (Unit {0}) × Store
unfolding set_missing is_overwritten BTreeMap.update_where BTreeMap.find_entry BTreeMap.insert
    path_eq
rename s key new_loc now =
    if is_some (file_by_key s key)
    then (let s' : Store = record s {
      files = BTreeMap.update_where (is_overwritten key new_loc) (set_missing now) s.files;
    } in
        (ok tt, move_entry (file_by_key s' key) new_loc now s'))
    else (err rename_unknown, s)

-- Every row at the place goes missing.
unfoldable pub mark_missing : Store → FileLoc → Ts → Store
unfolding set_missing BTreeMap.update_where path_eq
mark_missing s loc now = record s {
  files = BTreeMap.update_where (λ (r : FileRecord). loc_eq r.loc loc) (set_missing now) s.files;
}

unfoldable pub is_live_under : FileLoc → FileRecord → Bool
unfolding under_dir
is_live_under dir r = under_dir dir r && not (is_dead r.state)

unfoldable pub mark_missing_prefix : Store → FileLoc → Ts → ℕ × Store
unfolding set_missing is_live_under BTreeMap.update_where BTreeMap.count_where path_starts_with
mark_missing_prefix s dir now = (
  BTreeMap.count_where (is_live_under dir) s.files,
  record s { files = BTreeMap.update_where (is_live_under dir) (set_missing now) s.files },
)

-- Only a missing row is restored.
abbrev pub restore_entry : Store → (ℕ × FileRecord) → Identity → RootKind → Ts → Store
restore_entry s (k, row) id kind now =
    if State.eq row.state missing
    then upsert_existing (s, k, row) id none kind now row.priority now
    else s

abbrev pub restore_kind :
    Result RepoError RootKind
    → Store
    → (ℕ × FileRecord)
    → Identity
    → Ts
    → Result RepoError (Unit {0}) × Store
restore_kind (err e) s entry id now = (err e, s)
restore_kind (ok kind) s entry id now = (ok tt, restore_entry s entry id kind now)

abbrev pub restore_found :
    Option (ℕ × FileRecord) → Store → Identity → Ts → Result RepoError (Unit {0}) × Store
restore_found none s id now = (ok tt, s)
restore_found (some (k, row)) s id now =
    restore_kind (root_kind s row.loc.root_id) s (k, row) id now

unfoldable pub restore_or_reset :
    Store → FileKey → Identity → Ts → Result RepoError (Unit {0}) × Store
unfolding upsert_existing root_kind BTreeMap.find_entry
restore_or_reset s key id now = restore_found (file_by_key s key) s id now
