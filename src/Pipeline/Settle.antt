-- ===== src/Pipeline/Settle.antt =====
-- The step of a settling row: crates/core/src/pipeline/settle.rs.
use check_trung_video.Base.{
  ltb, String, Bool, true, false, not, none, some, Result, ok, err, is_some_and, if◌then◌else◌,
}
use check_trung_video.Base.Int
use check_trung_video.Base.Int.{ℤ, pos}
use check_trung_video.Model.State.{settling, sized, skipped, missing}
use check_trung_video.Model.SkipReason
use check_trung_video.Model.SkipReason.{
  SkipReason, hardlink, special_mode, bad_magic, suspect_partial,
}
use check_trung_video.Model.Records.{
  Ts, FileRecord, Identity, fingerprint_eq, identity_fingerprint, has_special_mode,
}
use check_trung_video.Model.Transition
use check_trung_video.Model.Transition.{Patch, empty_patch, new_transition}
use check_trung_video.Pipeline.Ctx.{
  FsError, not_found, other, OpenedFile, StepCtx, StepOutcome, apply, defer, Step,
}

abbrev pub mat_tich : FileRecord → Ts → StepOutcome
mat_tich rec now = apply (
    new_transition rec.id settling missing
      (Transition.ready_at none (Transition.prev_state (some settling) empty_patch)) now)

abbrev pub bo_qua : FileRecord → Identity → SkipReason → Ts → StepOutcome
bo_qua rec id ly_do now = apply (
    new_transition rec.id settling skipped
      (Transition.ready_at none (
        Transition.skip_reason (some (SkipReason.as_str ly_do))
          (Transition.identity id empty_patch)))
      now)

-- Steps 5 and 6, when the magic bytes are good.
abbrev pub finish : StepCtx → FileRecord → Identity → Result String Bool → Step
finish ctx rec id (err e) = err e
finish ctx rec id (ok true) = ok (
    apply (
      new_transition rec.id settling settling
        (Transition.ready_at (some (Int.add_i64 ctx.now (pos 86_400_000))) (
          Transition.skip_reason (some (SkipReason.as_str suspect_partial))
            (Transition.magic_ok true (Transition.identity id empty_patch))))
        ctx.now))
finish ctx rec id (ok false) = ok (
    apply (
      new_transition rec.id settling sized
        (Transition.ready_at (some ctx.now) (
          Transition.skip_reason none (
            Transition.magic_ok true (
              Transition.enq (some (identity_fingerprint id))
                (Transition.identity id empty_patch)))))
        ctx.now))

-- Step 4.
abbrev pub check_magic : StepCtx → FileRecord → OpenedFile → Result String Bool → Step
check_magic ctx rec f (err e) = err e
check_magic ctx rec f (ok false) = ok (bo_qua rec f.identity bad_magic ctx.now)
check_magic ctx rec f (ok true) = finish ctx rec f.identity f.has_hole

-- Step 3: the file is open.
abbrev pub check_open : StepCtx → FileRecord → Result FsError OpenedFile → Step
check_open ctx rec (err not_found) = ok (mat_tich rec ctx.now)
check_open ctx rec (err (other k e)) = err e
check_open ctx rec (ok f) =
    if ltb 1 f.identity.nlink
    then ok (bo_qua rec f.identity hardlink ctx.now)
    else if has_special_mode f.identity
    then ok (bo_qua rec f.identity special_mode ctx.now)
    else check_magic ctx rec f (f.cho_qua rec.loc)

-- Step 2: the age of the last write.
abbrev pub check_age : StepCtx → FileRecord → Identity → Step
check_age ctx rec id =
    let mtime_ms : ℤ = Int.div_const id.mtime_ns 1_000_000 in
    if Int.lt (Int.sub_i64 ctx.now mtime_ms) ctx.settle_delay
    then ok (defer (Int.add_i64 mtime_ms ctx.settle_delay) "chưa đủ settle_delay")
    else check_open ctx rec (ctx.fs.open_file rec.loc)

-- The snapshot of the queue differs from the file.
abbrev pub still_written : FileRecord → Identity → Bool
still_written rec id = is_some_and (λ e. not (fingerprint_eq e (identity_fingerprint id))) rec.enq

-- Step 1: the file is there.
abbrev pub check_stat : StepCtx → FileRecord → Result FsError Identity → Step
check_stat ctx rec (err not_found) = ok (mat_tich rec ctx.now)
check_stat ctx rec (err (other k e)) = err e
check_stat ctx rec (ok id) =
    if still_written rec id
    then ok (
        apply (
          new_transition rec.id settling settling
            (Transition.ready_at (some (Int.add_i64 ctx.now ctx.settle_delay))
              (Transition.enq (some (identity_fingerprint id)) empty_patch))
            ctx.now))
    else check_age ctx rec id

unfoldable pub settle_buoc : StepCtx → FileRecord → Step
settle_buoc ctx rec = check_stat ctx rec (ctx.fs.statx rec.loc)
