-- ===== src/Pipeline/Requeue.antt =====
-- The two decisions that several steps share: `patch_bo_qua` and `quay_ve_settling` of
-- crates/core/src/pipeline/sized.rs.
use check_trung_video.Base.{none, some, false}
use check_trung_video.Base.Int
use check_trung_video.Model.State.{settling}
use check_trung_video.Model.SkipReason
use check_trung_video.Model.SkipReason.{SkipReason}
use check_trung_video.Model.Records.{FileRecord}
use check_trung_video.Model.Transition
use check_trung_video.Model.Transition.{Patch, empty_patch, new_transition}
use check_trung_video.Pipeline.Ctx.{StepCtx, StepOutcome, apply}

abbrev pub patch_bo_qua : SkipReason → Patch
patch_bo_qua ly_do =
    Transition.ready_at none (Transition.skip_reason (some (SkipReason.as_str ly_do)) empty_patch)

-- The content has changed: back to the start, without an attempt being counted.
abbrev pub quay_ve_settling : StepCtx → FileRecord → StepOutcome
quay_ve_settling ctx rec = apply (
    new_transition rec.id rec.state settling
      (Transition.ready_at (some (Int.add_i64 ctx.now ctx.settle_delay)) (
        Transition.group_id none (
          Transition.magic_ok false
            (Transition.full_hash none (Transition.sparse_hash none empty_patch)))))
      ctx.now)
