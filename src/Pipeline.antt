-- ===== src/Pipeline.antt =====
-- `step`: crates/core/src/pipeline/mod.rs.
pub mod Ctx
pub mod Errno
pub mod Requeue
pub mod Settle
pub mod Group
pub mod Sized
pub mod Verify
pub mod Lawful
pub mod Heavy
use check_trung_video.Base.{ok}
use check_trung_video.Model.State.{State, settling, sized, hashed}
use check_trung_video.Model.Records.{FileRecord}
use Ctx.{StepCtx, noop, Step}
use Settle.{settle_buoc}
use Sized.{sized_buoc}
use Verify.{verify_buoc}

abbrev pub step_in : State → StepCtx → FileRecord → Step
step_in settling ctx rec = settle_buoc ctx rec
step_in sized ctx rec = sized_buoc ctx rec
step_in hashed ctx rec = verify_buoc ctx rec
step_in _ ctx rec = ok noop

unfoldable pub step : StepCtx → FileRecord → Step
unfolding settle_buoc sized_buoc verify_buoc
step ctx rec = step_in rec.state ctx rec
