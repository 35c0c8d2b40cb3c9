-- ===== src/Worker.antt =====
-- The loop of the worker: crates/core/src/worker.rs.
--
-- A round is given the context that the world shows it and the store that the round before left; the
-- context of round n and the answer of the stop flag before round n are functions of n.
pub mod Progress
use check_trung_video.Base.{
  ℕ, zero, suc, ◌+◌, ltb, leb, String, Bool, true, false, Option, none, some, Result, ok, err,
  if◌then◌else◌,
}
use check_trung_video.Base.Int
use check_trung_video.Base.Int.{ℤ, pos}
use check_trung_video.StateTable.{backoff_ms, max_attempts}
use check_trung_video.Model.State.{State, failed}
use check_trung_video.Model.Records.{Ts, FileRecord}
use check_trung_video.Model.Transition
use check_trung_video.Model.Transition.{empty_patch, new_transition}
use check_trung_video.Memory.{Store, RepoError}
use check_trung_video.Memory.Queue.{next_ready}
use check_trung_video.Memory.Apply
use check_trung_video.Pipeline.{step}
use check_trung_video.Pipeline.Ctx.{StepCtx, StepOutcome, apply, defer, noop, Step}

pub data KetQua : Type 0 where
  da_lam hang_doi_rong dung : KetQua

-- The row is put off, in the state that it has.
abbrev pub hoan : StepCtx → FileRecord → Ts → Transition.Transition
hoan ctx rec until =
    new_transition rec.id rec.state rec.state
      (Transition.ready_at (some (Int.max_int until ctx.now)) empty_patch) ctx.now

abbrev pub fail_state : FileRecord → ℕ → State
fail_state rec attempts = if leb max_attempts attempts then failed else rec.state

abbrev pub fail_ready : StepCtx → ℕ → Option Ts
fail_ready ctx attempts =
    if leb max_attempts attempts then none else some (Int.add_i64 ctx.now (backoff_ms attempts))

-- A passing error is counted; after `max_attempts` the row is given up.
abbrev pub that_bai : StepCtx → FileRecord → String → Transition.Transition
that_bai ctx rec e =
    let attempts = rec.attempts + 1 in
    new_transition rec.id rec.state (fail_state rec attempts)
      (Transition.ready_at (fail_ready ctx attempts)
        (Transition.last_error (some e) (Transition.attempts attempts empty_patch)))
      ctx.now

-- The transition that the worker writes for the answer of a step.
unfoldable pub written : StepCtx → FileRecord → Step → Transition.Transition
written ctx rec (ok (apply t)) = t
written ctx rec (ok (defer until reason)) = hoan ctx rec until
written ctx rec (ok noop) = hoan ctx rec (Int.add_i64 ctx.now (pos 60_000))
written ctx rec (err e) = that_bai ctx rec e

abbrev pub done : Result RepoError Bool × Store → Result RepoError KetQua × Store
done (err e, s) = (err e, s)
done (ok b, s) = (ok da_lam, s)

abbrev pub round_of : StepCtx → Option FileRecord → Result RepoError KetQua × Store
round_of ctx none = (ok hang_doi_rong, ctx.store)
round_of ctx (some rec) = done (Apply.apply ctx.store (written ctx rec (step ctx rec)))

unfoldable pub mot_vong : StepCtx → ℤ → Result RepoError KetQua × Store
unfolding written next_ready Apply.apply step
mot_vong ctx max_wait_ms = round_of ctx (next_ready ctx.store ctx.now ctx.allow_heavy max_wait_ms)

-- What is done after a round: `rest` are the rounds to come.
abbrev pub after_round :
    Result RepoError KetQua × Store
    → ℕ
    → (Store → Option (Result RepoError ℕ × Store))
    → Option (Result RepoError ℕ × Store)
after_round (err e, s) n rest = some (err e, s)
after_round (ok da_lam, s) n rest = rest s
after_round (ok hang_doi_rong, s) n rest = some (ok n, s)
after_round (ok dung, s) n rest = some (ok n, s)

-- The loop, after `n` rounds. The bound on its turns is not the source's: without enough of them
-- there is no answer.
unfoldable pub chay_from :
    (ℕ → StepCtx)
    → ℤ
    → (ℕ → Bool)
    → (gioi_han fuel n : ℕ) → Store
    → Option (Result RepoError ℕ × Store)
unfolding mot_vong
chay_from ctx max_wait_ms stop gioi_han zero n s = none
chay_from ctx max_wait_ms stop gioi_han (suc fuel) n s =
    let rest : Option (Result RepoError ℕ × Store) =
      after_round (mot_vong (record (ctx n) { store = s }) max_wait_ms) n
        (chay_from ctx max_wait_ms stop gioi_han fuel (n + 1)) in
    if ltb n gioi_han then (if stop n then some (ok n, s) else rest) else some (ok n, s)

-- One turn more than `gioi_han`, for the last test.
unfoldable pub chay :
    (ℕ → StepCtx) → ℤ → (ℕ → Bool) → (gioi_han : ℕ) → Store → Option (Result RepoError ℕ × Store)
unfolding chay_from
chay ctx max_wait_ms stop gioi_han s = chay_from ctx max_wait_ms stop gioi_han (suc gioi_han) 0 s
