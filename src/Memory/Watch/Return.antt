-- ===== src/Memory/Watch/Return.antt =====
-- A file that goes missing and comes back: `set_missing` of crates/core/src/repo/memory/watch.rs and
-- `decide_upsert` of crates/core/src/repo/rules.rs.
use check_trung_video.Base.{ℕ, true, false, none, some, ◌≡◌, refl, arith, if◌then◌else◌}
use check_trung_video.Model.State
use check_trung_video.Model.State.{
  State, settling, sized, hashed, verified, deduped, distinct, canonical, skipped, failed, missing,
  gone,
}
use check_trung_video.Model.RootKind.{RootKind}
use check_trung_video.Model.Records.{
  Ts, FileRecord, Identity, matches, identity_fingerprint, row_fingerprint,
}
use check_trung_video.StateTable.{restore_target}
use check_trung_video.StateTable.Lifecycle.{restore_target-valid}
use check_trung_video.Rules.{decide_upsert}
use check_trung_video.Memory.Queue.{is_dead}
use check_trung_video.Memory.Watch.{set_missing}

restore-living : (st : State) → is_dead st ≡ false → restore_target (some st) ≡ st
restore-living st h = ground (arith, (restore_target-valid (some st) st).3 refl)

-- A living row that went missing, and whose file is then seen again with the same fingerprint, comes
-- back to the very state that it had, with its hashes, its group and its attempts; it is due again
-- only if that state stands in the queue.
pub decide_upsert-set_missing :
    (row : FileRecord) (incoming : Identity) (kind : RootKind) (lost ready_at : Ts) (priority : ℕ)
    → is_dead row.state ≡ false
    → matches (row_fingerprint row) (identity_fingerprint incoming) kind ≡ true
    → let d = decide_upsert (set_missing lost row) incoming kind ready_at priority in
      (d.state ≡ row.state)
      × (d.ready_at ≡ (if State.is_queued row.state then some ready_at else none))
      × (d.sparse_hash ≡ row.sparse_hash)
      × (d.full_hash ≡ row.full_hash)
      × (d.group_id ≡ row.group_id)
      × (d.attempts ≡ row.attempts)
unfolding set_missing decide_upsert
decide_upsert-set_missing row incoming kind lost ready_at priority h m =
    rw (h, m, restore-living row.state h) (refl, refl, refl, refl, refl, refl)
