-- ===== src/Rules/Upsert.antt =====
-- What an upsert does to a row: `decide_upsert` and `apply_upsert` of crates/core/src/repo/rules.rs.
use check_trung_video.Base.{ℕ, true, false, none, some, ◌≡◌, ◌≢◌, arith, ◌⊎◌, if◌then◌else◌}
use check_trung_video.Model.State
use check_trung_video.Model.State.{
  State, settling, sized, hashed, verified, deduped, distinct, canonical, skipped, failed, missing,
  gone,
}
use check_trung_video.Model.RootKind.{RootKind}
use check_trung_video.Model.Records.{
  Ts, Identity, FileRecord, matches, identity_fingerprint, row_fingerprint,
}
use check_trung_video.StateTable.{is_valid}
use check_trung_video.StateTable.Lifecycle.{is_valid-lifecycle, restore_target-valid}
use check_trung_video.Rules.{UpsertDecision, decide_upsert, is_user_undo}

module _ (row : FileRecord) (incoming : Identity) (kind : RootKind) (ready_at : Ts)
    (priority : ℕ) where
  abbrev decision : UpsertDecision
  decision = decide_upsert row incoming kind ready_at priority

  -- Except for a row that is `gone`, an upsert leaves the state alone or changes it by a rule of the
  -- table.
  pub decide_upsert-valid :
      row.state ≢ gone → (decision.state ≡ row.state) ⊎ (is_valid row.state decision.state ≡ true)
  unfolding decide_upsert
  decide_upsert-valid h =
      ground (arith, is_valid-lifecycle row.state, restore_target-valid row.prev_state settling)

  -- A `gone` row whose fingerprint has changed goes back to `settling` unless the user undid it,
  -- which no rule of the table allows.
  pub decide_upsert-gone :
      row.state ≡ gone
      → matches (row_fingerprint row) (identity_fingerprint incoming) kind ≡ false
      → is_user_undo row ≡ false
      → (decision.state ≡ settling) × (is_valid row.state decision.state ≡ false)
  unfolding decide_upsert is_valid
  decide_upsert-gone g f u = ground arith

  -- With the fingerprint unchanged, a row that is not missing keeps its state, and what is known of
  -- its content, its group and its retries; it is woken only if it stands in the queue.
  pub decide_upsert-same :
      matches (row_fingerprint row) (identity_fingerprint incoming) kind ≡ true
      → row.state ≢ missing
      → (decision.state ≡ row.state)
        × (decision.prev_state ≡ row.prev_state)
        × (decision.ready_at ≡ (if State.is_queued row.state then some ready_at else row.ready_at))
        × (decision.attempts ≡ row.attempts)
        × (decision.heavy_wait_since ≡ row.heavy_wait_since)
        × (decision.sparse_hash ≡ row.sparse_hash)
        × (decision.full_hash ≡ row.full_hash)
        × (decision.magic_ok ≡ row.magic_ok)
        × (decision.group_id ≡ row.group_id)
        × (decision.skip_reason ≡ row.skip_reason)
  unfolding decide_upsert
  decide_upsert-same m h = ground arith

  -- With the fingerprint changed, the row is due at `ready_at` and nothing that was known of the old
  -- content survives: no hash, no magic, no group and no attempts. The state is `settling`, unless
  -- the user undid the row: that mark and the state then stay. A state outside the queue is
  -- remembered.
  pub decide_upsert-changed :
      matches (row_fingerprint row) (identity_fingerprint incoming) kind ≡ false
      → (decision.state ≡ (if is_user_undo row then row.state else settling))
        × (decision.skip_reason ≡ (if is_user_undo row then row.skip_reason else none))
        × (decision.prev_state
            ≡ (if State.is_queued row.state then row.prev_state else some row.state))
        × (decision.ready_at ≡ some ready_at)
        × (decision.attempts ≡ 0)
        × (decision.sparse_hash ≡ none)
        × (decision.full_hash ≡ none)
        × (decision.magic_ok ≡ none)
        × (decision.group_id ≡ none)
  unfolding decide_upsert
  decide_upsert-changed m = ground arith
