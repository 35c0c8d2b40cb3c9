-- ===== src/Memory/Reach.antt =====
-- Every state that the store of crates/core/src/repo/memory can be brought to by its operations.
use check_trung_video.Base.{ℕ, String, List, [], ◌∷◌, Bool, refl, arith}
use check_trung_video.Base.BTreeMap
use check_trung_video.Base.Int.{ℤ}
use check_trung_video.Model.JournalState.{JournalState}
use check_trung_video.Model.Records.{
  Ts, DomainId, FileKey, FileLoc, Identity, Volume, Root, ScanProgress,
}
use check_trung_video.Model.Transition.{JournalRow, DedupEvent, GroupNote, ScanRow, Transition}
use check_trung_video.Memory.{Store, empty_store}
use check_trung_video.Memory.Queue
use check_trung_video.Memory.Apply
use check_trung_video.Memory.Misc
use check_trung_video.Memory.Watch
use check_trung_video.Memory.Prefix
use check_trung_video.Memory.Prefix.{rename_prefix-Inv}
use check_trung_video.Memory.Presence
use check_trung_video.Memory.Presence.{Seen}
use check_trung_video.Memory.Meta
use check_trung_video.Memory.Inv.{Inv}
use check_trung_video.Memory.Inv.Rules.{other_fields-Inv}
use check_trung_video.Memory.Inv.Queue.{upsert_pending-Inv, scan_insert-Inv, scan_phase_b-Inv}
use check_trung_video.Memory.Inv.Apply.{apply-Inv}
use check_trung_video.Memory.Inv.Watch.{
  rename-Inv, mark_missing-Inv, mark_missing_prefix-Inv, restore_or_reset-Inv,
}
use check_trung_video.Memory.Inv.Presence.{
  presence_begin-Inv, presence_abort-Inv, presence_seen-Inv, presence_finish-Inv,
  presence_expire-Inv,
}
use check_trung_video.Memory.Inv.Misc.{
  journal_begin-Inv, journal_update-Inv, volume_upsert-Inv, root_upsert-Inv, park_domain-Inv,
  unpark_domain-Inv, requeue_verified-Inv, purge-Inv,
}

-- A call of the repository that may write.
pub data Call : Type 0 where
  upsert_pending : Identity → FileLoc → Ts → ℕ → Ts → Call
  scan_insert : List ScanRow → Ts → Call
  scan_phase_b : ℕ → Ts → Call
  apply : Transition → Call
  rename : FileKey → FileLoc → Ts → Call
  rename_prefix : FileLoc → FileLoc → Ts → Call
  mark_missing : FileLoc → Ts → Call
  mark_missing_prefix : FileLoc → Ts → Call
  restore_or_reset : FileKey → Identity → Ts → Call
  presence_begin : ℕ → Call
  presence_abort : Call
  presence_seen : List Seen → Ts → Call
  presence_finish : ℕ → Ts → Call
  presence_expire : ℕ → Ts → Ts → Call
  journal_begin : JournalRow → Call
  journal_update : ℕ → JournalState → Bool → Ts → Call
  volume_upsert : Volume → Call
  root_upsert : Root → Ts → Call
  scan_progress_set : ScanProgress → Call
  park_domain : DomainId → String → Ts → Call
  unpark_domain : DomainId → Ts → Call
  requeue_verified : List FileLoc → Ts → Call
  meta_set : String → String → Call
  group_note_set : GroupNote → Call
  record_event : DedupEvent → Call
  purge : Ts → ℤ → Call

-- The store after the call, also when the call fails.
unfoldable pub execute : Call → Store → Store
execute (upsert_pending id loc ready_at priority now) s =
    (Queue.upsert_pending s id loc ready_at priority now).1
execute (scan_insert rows now) s = (Queue.scan_insert s rows now).1
execute (scan_phase_b root_id now) s = (Queue.scan_phase_b s root_id now).1
execute (apply t) s = (Apply.apply s t).1
execute (rename key loc now) s = (Watch.rename s key loc now).1
execute (rename_prefix old_dir new_dir now) s = (Prefix.rename_prefix s old_dir new_dir now).1
execute (mark_missing loc now) s = Watch.mark_missing s loc now
execute (mark_missing_prefix dir now) s = (Watch.mark_missing_prefix s dir now).1
execute (restore_or_reset key id now) s = (Watch.restore_or_reset s key id now).1
execute (presence_begin root_id) s = (Presence.presence_begin s root_id).1
execute presence_abort s = Presence.presence_abort s
execute (presence_seen entries now) s = (Presence.presence_seen s entries now).1
execute (presence_finish root_id scan_id) s = (Presence.presence_finish s root_id scan_id).1
execute (presence_expire root_id cutoff now) s = (Presence.presence_expire s root_id cutoff now).1
execute (journal_begin j) s = (Misc.journal_begin s j).1
execute (journal_update id st durable now) s = (Misc.journal_update s id st durable now).1
execute (volume_upsert v) s = (Misc.volume_upsert s v).1
execute (root_upsert r now) s = (Misc.root_upsert s r now).1
execute (scan_progress_set p) s = Meta.scan_progress_set s p
execute (park_domain domain error now) s = (Misc.park_domain s domain error now).1
execute (unpark_domain domain now) s = (Misc.unpark_domain s domain now).1
execute (requeue_verified allow now) s = (Misc.requeue_verified s allow now).1
execute (meta_set k v) s = Meta.meta_set s k v
execute (group_note_set n) s = (Meta.group_note_set s n).1
execute (record_event ev) s = Meta.record_event s ev
execute (purge now retention_ms) s = (Misc.purge s now retention_ms).1

group_note_set-Inv : (s : Store) (n : GroupNote) → Inv s → Inv (Meta.group_note_set s n).1
unfolding Meta.group_note_set
group_note_set-Inv s n h =
    other_fields-Inv s (Meta.group_note_set s n).1 (ground arith) (ground arith) (ground arith) h

pub execute-Inv : (c : Call) (s : Store) → Inv s → Inv (execute c s)
unfolding execute
execute-Inv (upsert_pending id loc ready_at priority now) s =
    upsert_pending-Inv s id loc ready_at priority now
execute-Inv (scan_insert rows now) s = scan_insert-Inv s rows now
execute-Inv (scan_phase_b root_id now) s = scan_phase_b-Inv s root_id now
execute-Inv (apply t) s = apply-Inv s t
execute-Inv (rename key loc now) s = rename-Inv s key loc now
execute-Inv (rename_prefix old_dir new_dir now) s = rename_prefix-Inv s old_dir new_dir now
execute-Inv (mark_missing loc now) s = λ h. mark_missing-Inv s h loc now
execute-Inv (mark_missing_prefix dir now) s = λ h. mark_missing_prefix-Inv s h dir now
execute-Inv (restore_or_reset key id now) s = restore_or_reset-Inv s key id now
execute-Inv (presence_begin root_id) s = presence_begin-Inv s root_id
execute-Inv presence_abort s = presence_abort-Inv s
execute-Inv (presence_seen entries now) s = presence_seen-Inv s entries now
execute-Inv (presence_finish root_id scan_id) s = presence_finish-Inv s root_id scan_id
execute-Inv (presence_expire root_id cutoff now) s = presence_expire-Inv s root_id cutoff now
execute-Inv (journal_begin j) s = journal_begin-Inv s j
execute-Inv (journal_update id st durable now) s = journal_update-Inv s id st durable now
execute-Inv (volume_upsert v) s = volume_upsert-Inv s v
execute-Inv (root_upsert r now) s = root_upsert-Inv s r now
execute-Inv (scan_progress_set p) s =
    unfold Meta.scan_progress_set in
    other_fields-Inv s (Meta.scan_progress_set s p) refl refl (omega arith)
execute-Inv (park_domain domain error now) s = λ h. park_domain-Inv s h domain error now
execute-Inv (unpark_domain domain now) s = λ h. unpark_domain-Inv s h domain now
execute-Inv (requeue_verified allow now) s = λ h. requeue_verified-Inv s h allow now
execute-Inv (meta_set k v) s =
    unfold Meta.meta_set in other_fields-Inv s (Meta.meta_set s k v) refl refl (omega arith)
execute-Inv (group_note_set n) s = group_note_set-Inv s n
execute-Inv (record_event ev) s =
    unfold Meta.record_event in other_fields-Inv s (Meta.record_event s ev) refl refl (omega arith)
execute-Inv (purge now retention_ms) s = λ h. purge-Inv s h now retention_ms

unfoldable pub run : List Call → Store → Store
unfolding execute
run [] s = s
run (c ∷ cs) s = run cs (execute c s)

run_from-Inv : (cs : List Call) (s : Store) → Inv s → Inv (run cs s)
unfolding run
run_from-Inv [] s h = h
run_from-Inv (c ∷ cs) s h = run_from-Inv cs (execute c s) (execute-Inv c s h)

pub empty_store-Inv : Inv empty_store
unfolding BTreeMap.get
empty_store-Inv = record {
  files_sorted = tt;
  groups_sorted = tt;
  file_id = λ k r e. cc e;
  file_allocated = λ k r e. cc e;
  group_id = λ k g e. cc e;
  group_allocated = λ k g e. cc e;
  group_exists = λ k r g e. cc e;
  key_unique = λ j k a b e. cc e;
}

-- After any calls, failing ones included, from the empty store: ids are the keys of the rows and
-- groups and were allocated, every row's group exists, and no two rows have the same file key.
pub run-Inv : (cs : List Call) → Inv (run cs empty_store)
run-Inv cs = run_from-Inv cs empty_store empty_store-Inv
