-- ===== src/Pipeline/Lawful/OfSettle.antt =====
-- The answers of crates/core/src/pipeline/settle.rs.
use check_trung_video.Base.{ltb, String, Bool, true, false, Result, ok, err, refl}
use check_trung_video.Base.Int
use check_trung_video.Model.State.{settling}
use check_trung_video.Model.Records.{FileRecord, Identity, has_special_mode}
use check_trung_video.Pipeline.Ctx.{FsError, not_found, other, OpenedFile, StepCtx}
use check_trung_video.Pipeline.Settle
use check_trung_video.Pipeline.Settle.{settle_buoc}
use check_trung_video.Pipeline.Lawful.{allowed, IsOwnStep, if-IsOwnStep}

module _ (ctx : StepCtx) (rec : FileRecord) where
  finish-own :
      (id : Identity) (r : Result String Bool)
      → IsOwnStep rec.id settling (Settle.finish ctx rec id r)
  unfolding allowed
  finish-own id (err e) = tt
  finish-own id (ok true) = (refl, refl, refl, refl)
  finish-own id (ok false) = (refl, refl, refl, refl)

  check_magic-own :
      (f : OpenedFile) (r : Result String Bool)
      → IsOwnStep rec.id settling (Settle.check_magic ctx rec f r)
  unfolding allowed
  check_magic-own f (err e) = tt
  check_magic-own f (ok false) = (refl, refl, refl, refl)
  check_magic-own f (ok true) = finish-own f.identity f.has_hole

  check_open-own :
      (r : Result FsError OpenedFile) → IsOwnStep rec.id settling (Settle.check_open ctx rec r)
  unfolding allowed
  check_open-own (err not_found) = (refl, refl, refl, refl)
  check_open-own (err (other k e)) = tt
  check_open-own (ok f) =
      if-IsOwnStep rec.id settling (ltb 1 f.identity.nlink) _ _ (refl, refl, refl, refl)
        (if-IsOwnStep rec.id settling (has_special_mode f.identity) _ _ (refl, refl, refl, refl)
          (check_magic-own f (f.cho_qua rec.loc)))

  check_stat-own :
      (r : Result FsError Identity) → IsOwnStep rec.id settling (Settle.check_stat ctx rec r)
  unfolding allowed
  check_stat-own (err not_found) = (refl, refl, refl, refl)
  check_stat-own (err (other k e)) = tt
  check_stat-own (ok id) =
      if-IsOwnStep rec.id settling (Settle.still_written rec id) _ _ (refl, refl, refl, refl)
        (if-IsOwnStep rec.id settling
          (Int.lt (Int.sub_i64 ctx.now (Int.div_const id.mtime_ns 1_000_000)) ctx.settle_delay) _ _
          tt (check_open-own (ctx.fs.open_file rec.loc)))

  pub settle-own : IsOwnStep rec.id settling (settle_buoc ctx rec)
  unfolding settle_buoc allowed
  settle-own = check_stat-own (ctx.fs.statx rec.loc)
