-- ===== src/RuleExamples.antt =====
-- Concrete rows, journals and times at which the theorems on the rules are applied.
use check_trung_video.Base.{
  In, ◌↔◌, ◌⊎◌, List, [], ◌∷◌, ◌++◌, true, false, not, Option, none, some, ◌≡◌, ◌≢◌, refl,
  if◌then◌else◌, inl, is_none, ◌&&◌,
}
use check_trung_video.Base.Int
use check_trung_video.Base.Int.{ℤ, pos, ◌≤ℤ◌}
use check_trung_video.Base.BTreeMap
use check_trung_video.Model.State
use check_trung_video.Model.State.{
  State, settling, sized, hashed, verified, deduped, distinct, canonical, missing, gone,
}
use check_trung_video.Model.RootKind.{local}
use check_trung_video.Model.EventMethod
use check_trung_video.Model.JournalState.{cloned}
use check_trung_video.Model.Records.{FileRecord, Group, Identity, matches}
use check_trung_video.Model.Transition.{JournalRow, empty_patch, new_transition, with_group, create}
use check_trung_video.StateTable.{is_valid}
use check_trung_video.StateTable.Lifecycle.{start, step, Unverified-not_shared}
use check_trung_video.Rules.{decide_upsert, new_row}
use check_trung_video.Memory.{Store, root_unknown, empty_store}
use check_trung_video.Memory.Reach
use check_trung_video.Memory.Reach.{Call, run, run-Inv}
use check_trung_video.Memory.Queue.{next_ready, queue_less}
use check_trung_video.Memory.Apply
use check_trung_video.Memory.Apply.{move_row, set_group, raced_note, check_all, passes}
use check_trung_video.Memory.Watch.{set_missing}
use check_trung_video.Memory.Watch.Return.{decide_upsert-set_missing}
use check_trung_video.Memory.Presence.{Seen, presence_seen, presence_finish}
use check_trung_video.Memory.Presence.Session.{
  IsLost, WentMissing, presence_seen-err, presence_finish-rows,
}
use check_trung_video.Memory.Misc.{purge}
use check_trung_video.Memory.Misc.Purge.{purge-canonical}
use check_trung_video.Memory.Queue
use check_trung_video.Memory.Misc
use check_trung_video.Recovery.{decide, journal_state}
use check_trung_video.Recovery.Safety.{
  JustCloned, decide-restore, is_cloned, is_same_inode, decide-keeps,
}
use check_trung_video.Scheduler.{reconcile, LanCuoi, ChuKy, den_han}
use check_trung_video.Scheduler.Due.{Wanted, ascending, den_han-Wanted}
use check_trung_video.Examples.{id_of, row_one, row_in, calls, store_one}

Unverified-not_shared_example : (sized ≢ verified) × (sized ≢ deduped)
unfolding is_valid
Unverified-not_shared_example =
    Unverified-not_shared settling sized (inl refl) (step start refl (λ e. cc e) (λ e. cc e))

decide_upsert-set_missing_example :
    ((decide_upsert
        (set_missing (pos 20) (row_in distinct))
        (id_of 1 (pos 5))
        local
        (pos 30)
        0).state
      ≡ distinct)
    × ((decide_upsert
          (set_missing (pos 20) (row_in distinct))
          (id_of 1 (pos 5))
          local
          (pos 30)
          0).ready_at
        ≡ (if State.is_queued distinct then some (pos 30) else none))
    × ((decide_upsert
          (set_missing (pos 20) (row_in distinct))
          (id_of 1 (pos 5))
          local
          (pos 30)
          0).sparse_hash
        ≡ row_one.sparse_hash)
    × ((decide_upsert
          (set_missing (pos 20) (row_in distinct))
          (id_of 1 (pos 5))
          local
          (pos 30)
          0).full_hash
        ≡ row_one.full_hash)
    × ((decide_upsert
          (set_missing (pos 20) (row_in distinct))
          (id_of 1 (pos 5))
          local
          (pos 30)
          0).group_id
        ≡ row_one.group_id)
    × ((decide_upsert
          (set_missing (pos 20) (row_in distinct))
          (id_of 1 (pos 5))
          local
          (pos 30)
          0).attempts
        ≡ row_one.attempts)
unfolding new_row matches
decide_upsert-set_missing_example =
    decide_upsert-set_missing (row_in distinct) (id_of 1 (pos 5)) local (pos 20) (pos 30) 0 refl
      refl

abbrev store_scanning : Store
store_scanning = record store_one { phien = some (record { root_id = 1; seen = [] }) }

presence_finish-rows_example :
    ((presence_finish store_scanning 1 (pos 50)).1.phien ≡ none)
    × ((r' : FileRecord) × (BTreeMap.get 2 (presence_finish store_scanning 1 (pos 50)).1.files
          ≡ some r')
        × ((IsLost 1 [] (pos 50) row_one × WentMissing (pos 50) row_one r')
            ⊎ ((¬ IsLost 1 [] (pos 50) row_one) × (r' ≡ row_one))))
unfolding run new_row Queue.upsert_pending BTreeMap.get Misc.root_upsert
presence_finish-rows_example =
    presence_finish-rows store_scanning (record { root_id = 1; seen = [] }) (pos 50) 2 row_one refl
      refl

-- The row 2 gone missing, in a session of its root.
abbrev store_missing : Store
store_missing = record store_scanning { files = (2, set_missing (pos 20) row_one) ∷ [] }

-- The file of the row that is missing, seen in a root that the store does not know.
abbrev seen_one : Seen
seen_one = record {
  key = row_one.key;
  fp = record { size = 4_096; mtime_ns = pos 5; ctime_ns = pos 5 };
  loc = record row_one.loc { root_id = 8 };
}

presence_seen-err_example : (presence_seen store_missing (seen_one ∷ []) (pos 50)).1 ≡ store_missing
unfolding presence_seen new_row set_missing BTreeMap.get run Queue.upsert_pending Misc.root_upsert
presence_seen-err_example =
    presence_seen-err store_missing (seen_one ∷ []) (pos 50) (root_unknown 8) refl

-- A group of which row 2 is the canonical.
abbrev more_calls : List Call
more_calls =
    calls
    ++ Reach.apply
        (with_group (create 2 77 1) (new_transition 2 settling canonical empty_patch (pos 20)))
      ∷ []

abbrev group_of_two : Group
group_of_two = record {
  id = 3;
  domain_id = 9;
  size = 4096;
  sparse_hash = 77;
  hash_version = 1;
  full_hash = none;
  canonical_file_id = some 2;
  verified_at = none;
  created_at = pos 20;
}

abbrev row_two : FileRecord
row_two = record row_one { state = canonical; updated_at = pos 20; group_id = some 3 }

purge-canonical_example :
    BTreeMap.get 2 (purge (run more_calls empty_store) (pos 50) (pos 10)).1.files ≡ some row_two
unfolding run purge new_row BTreeMap.get Apply.apply Queue.upsert_pending Misc.root_upsert
    BTreeMap.modify
purge-canonical_example =
    purge-canonical (run more_calls empty_store) (pos 50) (pos 10) 3 2 group_of_two row_two
      (run-Inv more_calls) refl refl refl

abbrev journal_one : JournalRow
journal_one = record {
  id = some 1;
  method = EventMethod.verified_clone;
  group_id = some 3;
  src_file_id = 1;
  dst_file_id = 2;
  state = cloned;
  src = none;
  src_size = none;
  src_mtime_ns = none;
  src_ctime_ns = none;
  dst = record { sub_id = 7; ino = 1 };
  dst_size = 4096;
  dst_mtime_ns = pos 5;
  dst_atime_ns = pos 5;
  dst_ctime_ns = pos 5;
  started_at = pos 1;
  updated_at = pos 2;
  error = none;
}

abbrev found : Option Identity
found = some (id_of 1 (pos 2_500_000))

decide-restore_example :
    (cloned ≡ cloned)
    × (pos 5 ≡ pos 5)
    × (pos 5 ≡ pos 5)
    × JustCloned journal_one found (pos 9_000_000)
unfolding decide Int.saturating_mul
decide-restore_example =
    decide-restore journal_one found (pos 9_000_000) {a = pos 5} {m = pos 5} refl

decide-keeps_example :
    is_none (journal_state (decide journal_one none (pos 9_000_000)))
    ≡ (is_cloned journal_one.state && not (is_same_inode journal_one.dst none))
decide-keeps_example = decide-keeps journal_one none (pos 9_000_000) refl

abbrev periods : ChuKy
periods = record {
  reconcile_interval = pos 21_600_000;
  presence_interval = pos 604_800_000;
  remote_scan_interval = pos 86_400_000;
}

abbrev never : LanCuoi
never = record {
  lay_mau = none;
  checkpoint = some (pos 5);
  don_dep = none;
  reconcile = none;
  presence = none;
  quet_remote = none;
}

den_han-Wanted_example :
    (In reconcile (den_han periods never (pos 100) false (pos 5_000) true)
      ↔ Wanted periods never (pos 100) false (pos 5_000) true reconcile)
    × (ascending (den_han periods never (pos 100) false (pos 5_000) true) ≡ true)
den_han-Wanted_example = den_han-Wanted periods never (pos 100) false (pos 5_000) true reconcile
