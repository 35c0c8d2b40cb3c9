-- ===== src/Pipeline/Lawful/OfStep.antt =====
-- The answers of `step`: crates/core/src/pipeline/mod.rs.
use check_trung_video.Base.{ok, ◌≡◌, subst, refl}
use check_trung_video.Model.State.{State, settling, sized, hashed}
use check_trung_video.Model.Records.{FileRecord}
use check_trung_video.Model.Transition.{Transition}
use check_trung_video.Pipeline.{step, step_in}
use check_trung_video.Pipeline.Ctx.{StepCtx, apply}
use check_trung_video.Pipeline.Lawful.{IsOwn, IsOwnStep}
use check_trung_video.Pipeline.Lawful.OfSettle.{settle-own}
use check_trung_video.Pipeline.Lawful.OfSized.{sized-own}
use check_trung_video.Pipeline.Lawful.OfVerify.{verify-own}

step_in-own :
    (st : State) (ctx : StepCtx) (rec : FileRecord)
    → rec.state ≡ st
    → IsOwnStep rec.id st (step_in st ctx rec)
step_in-own settling ctx rec h = settle-own ctx rec
step_in-own sized ctx rec h = sized-own ctx rec h
step_in-own hashed ctx rec h = verify-own ctx rec h
step_in-own _ ctx rec h = tt

pub step-IsOwnStep : (ctx : StepCtx) (rec : FileRecord) → IsOwnStep rec.id rec.state (step ctx rec)
unfolding step
step-IsOwnStep ctx rec = step_in-own rec.state ctx rec refl

-- A transition that a step answers is one of the row given, starts from the state that the row has,
-- sets the time at which the row is due next, and ends in the same state, in one that the table
-- allows, or goes from `hashed` back to `sized`.
pub step-IsOwn :
    (ctx : StepCtx) (rec : FileRecord) (t : Transition)
    → step ctx rec ≡ ok (apply t)
    → IsOwn rec.id rec.state t
step-IsOwn ctx rec t h = subst (IsOwnStep rec.id rec.state) h (step-IsOwnStep ctx rec)
