-- ===== src/Memory/Inv/Watch.antt =====
-- The operations of the watcher in crates/core/src/repo/memory/watch.rs keep the invariant.
use check_trung_video.Base.{
  ℕ, ◌≡◌, refl, arith, Option, none, some, is_some, Result, ok, err, Bool-cases, inl, inr,
}
use check_trung_video.Base.BTreeMap
use check_trung_video.Model.State
use check_trung_video.Model.State.{missing}
use check_trung_video.Model.RootKind.{RootKind}
use check_trung_video.Model.Records.{Ts, FileKey, FileLoc, FileRecord, Identity, loc_eq}
use check_trung_video.Memory.{Store, RepoError, file_by_key, root_kind}
use check_trung_video.Memory.Watch.{
  set_missing, rename, is_overwritten, move_entry, mark_missing, mark_missing_prefix, is_live_under,
  restore_or_reset, restore_found, restore_kind, restore_entry,
}
use check_trung_video.Memory.Inv.{Inv, IsUpdate}
use check_trung_video.Memory.Inv.Rules.{same-IsUpdate, update_where-Inv, insert-Inv}
use check_trung_video.Memory.Inv.Queue.{upsert_existing-Inv, file_by_key-some}

module _ (s : Store) (h : Inv s) where
  pub set_missing-IsUpdate :
      (k : ℕ) (r : FileRecord) (now : Ts)
      → BTreeMap.get k s.files ≡ some r
      → IsUpdate s r (set_missing now r)
  unfolding set_missing
  set_missing-IsUpdate k r now at =
      same-IsUpdate s h k r (set_missing now r) at (ground arith) (ground arith) (ground arith)

  pub mark_missing-Inv : (loc : FileLoc) (now : Ts) → Inv (mark_missing s loc now)
  unfolding mark_missing
  mark_missing-Inv loc now =
      update_where-Inv s h (λ (r : FileRecord). loc_eq r.loc loc) (set_missing now)
        λ k r at t. set_missing-IsUpdate k r now at

  pub mark_missing_prefix-Inv : (dir : FileLoc) (now : Ts) → Inv (mark_missing_prefix s dir now).1
  unfolding mark_missing_prefix
  mark_missing_prefix-Inv dir now =
      update_where-Inv s h (is_live_under dir) (set_missing now)
        λ k r at t. set_missing-IsUpdate k r now at

  overwritten-Inv :
      (key : FileKey) (new_loc : FileLoc) (now : Ts)
      → Inv (record s {
        files = BTreeMap.update_where (is_overwritten key new_loc) (set_missing now) s.files;
      })
  overwritten-Inv key new_loc now =
      update_where-Inv s h (is_overwritten key new_loc) (set_missing now)
        λ k r at t. set_missing-IsUpdate k r now at

move_entry-Inv :
    (s : Store) (key : FileKey) (found : Option (ℕ × FileRecord)) (new_loc : FileLoc) (now : Ts)
    → Inv s
    → file_by_key s key ≡ found
    → Inv (move_entry found new_loc now s)
move_entry-Inv s key none new_loc now h e = h
move_entry-Inv s key (some (k, r)) new_loc now h e =
    let at = (file_by_key-some s key h e).0 in
    insert-Inv s h k r (record r { loc = new_loc; updated_at = now }) at
      (same-IsUpdate s h k r (record r { loc = new_loc; updated_at = now }) at refl refl refl)

pub rename-Inv :
    (s : Store) (key : FileKey) (new_loc : FileLoc) (now : Ts)
    → Inv s
    → Inv (rename s key new_loc now).1
unfolding rename
rename-Inv s key new_loc now h = elim (Bool-cases (is_some (file_by_key s key))) [
  | inl t ↦
      let s' : Store = record s {
        files = BTreeMap.update_where (is_overwritten key new_loc) (set_missing now) s.files;
      } in
      rw (t, rename)
        (move_entry-Inv s' key (file_by_key s' key) new_loc now
          (overwritten-Inv s h key new_loc now) refl)
  | inr f ↦ rw (f, rename) h
]

restore_entry-Inv :
    (s : Store) (k : ℕ) (row : FileRecord) (id : Identity) (kind : RootKind) (now : Ts)
    → Inv s
    → BTreeMap.get k s.files ≡ some row
    → Inv (restore_entry s (k, row) id kind now)
restore_entry-Inv s k row id kind now h at = elim (Bool-cases (State.eq row.state missing)) [
  | inl t ↦ rw t (upsert_existing-Inv s k row id none kind now row.priority now h at)
  | inr f ↦ rw f h
]

restore_found-Inv :
    (found : Option (ℕ × FileRecord)) (s : Store) (key : FileKey) (id : Identity) (now : Ts)
    → Inv s
    → file_by_key s key ≡ found
    → Inv (restore_found found s id now).1
restore_found-Inv none s key id now h e = h
restore_found-Inv (some (k, row)) s key id now h e = kinds (root_kind s row.loc.root_id)
  where
    kinds : (r : Result RepoError RootKind) → Inv (restore_kind r s (k, row) id now).1
    kinds (err x) = h
    kinds (ok kind) = restore_entry-Inv s k row id kind now h (file_by_key-some s key h e).0

pub restore_or_reset-Inv :
    (s : Store) (key : FileKey) (id : Identity) (now : Ts)
    → Inv s
    → Inv (restore_or_reset s key id now).1
unfolding restore_or_reset
restore_or_reset-Inv s key id now h = restore_found-Inv (file_by_key s key) s key id now h refl
