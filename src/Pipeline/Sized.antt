-- ===== src/Pipeline/Sized.antt =====
-- The step of a sized row: crates/core/src/pipeline/sized.rs.
use check_trung_video.Base.{
  String, Bool, true, false, not, Option, none, some, Result, ok, err, is_none, unwrap_or,
  if◌then◌else◌,
}
use check_trung_video.Base.Int
use check_trung_video.Base.Int.{pos}
use check_trung_video.Model.State.{sized, skipped, missing}
use check_trung_video.Model.SkipReason
use check_trung_video.Model.SkipReason.{bad_magic}
use check_trung_video.Model.Records.{
  Digest, FileRecord, Identity, fingerprint_eq, identity_fingerprint, row_fingerprint,
}
use check_trung_video.Model.Transition
use check_trung_video.Model.Transition.{empty_patch, new_transition}
use check_trung_video.Pipeline.Ctx.{
  FsError, not_found, other, OpenedFile, StepCtx, StepOutcome, apply, Step, hash_version_value,
  hen_khung_nang,
}
use check_trung_video.Pipeline.Requeue.{quay_ve_settling}
use check_trung_video.Pipeline.Group.{xep_cho, magic_verdict}

abbrev pub sized_mat_tich : StepCtx → FileRecord → StepOutcome
sized_mat_tich ctx rec = apply (
    new_transition rec.id sized missing
      (Transition.ready_at none (Transition.prev_state (some sized) empty_patch)) ctx.now)

-- The beginning of the wait is noted once.
unfoldable pub cho_khung_gio : StepCtx → FileRecord → StepOutcome
unfolding hen_khung_nang
cho_khung_gio ctx rec =
    if is_none rec.heavy_wait_since
    then apply (
        new_transition rec.id sized sized
          (Transition.ready_at
            (some (unwrap_or (Int.add_i64 ctx.now (pos 60_000)) ctx.next_heavy_at))
            (Transition.heavy_wait_since (some ctx.now) empty_patch))
          ctx.now)
    else hen_khung_nang ctx "chờ khung giờ nặng để hash"

-- The file again, after its content has been read.
abbrev pub keep_hash : StepCtx → FileRecord → OpenedFile → Digest → Result String Identity → Step
keep_hash ctx rec f h (err e) = err e
keep_hash ctx rec f h (ok id) =
    if not (fingerprint_eq (identity_fingerprint id) (identity_fingerprint f.identity))
    then ok (quay_ve_settling ctx rec)
    else ok (
        apply (
          new_transition rec.id sized sized
            (Transition.ready_at (some ctx.now) (
              Transition.heavy_wait_since none (
                Transition.magic_ok true (
                  Transition.hash_version hash_version_value
                    (Transition.sparse_hash (some h) empty_patch)))))
            ctx.now))

abbrev pub read_hash : StepCtx → FileRecord → OpenedFile → Result String Digest → Step
read_hash ctx rec f (err e) = err e
read_hash ctx rec f (ok h) = keep_hash ctx rec f h f.refresh_identity

abbrev pub judge_magic : StepCtx → FileRecord → OpenedFile → Result String Bool → Step
judge_magic ctx rec f (err e) = err e
judge_magic ctx rec f (ok false) = ok (
    apply (
      new_transition rec.id sized skipped
        (Transition.ready_at none (
          Transition.skip_reason (some (SkipReason.as_str bad_magic))
            (Transition.magic_ok false empty_patch)))
        ctx.now))
judge_magic ctx rec f (ok true) = read_hash ctx rec f (f.sparse_hash f.identity.size)

abbrev pub hash_opened : StepCtx → FileRecord → Result FsError OpenedFile → Step
hash_opened ctx rec (err not_found) = ok (sized_mat_tich ctx rec)
hash_opened ctx rec (err (other k e)) = err e
hash_opened ctx rec (ok f) =
    if not (fingerprint_eq (identity_fingerprint f.identity) (row_fingerprint rec))
    then ok (quay_ve_settling ctx rec)
    else judge_magic ctx rec f (magic_verdict rec f)

unfoldable pub tinh_hash : StepCtx → FileRecord → Step
unfolding cho_khung_gio fingerprint_eq
tinh_hash ctx rec =
    if not ctx.allow_heavy
    then ok (cho_khung_gio ctx rec)
    else hash_opened ctx rec (ctx.fs.open_file rec.loc)

-- The hash is believed only if the file has not changed since.
abbrev pub trust_hash : StepCtx → FileRecord → Digest → Result FsError Identity → Step
trust_hash ctx rec h (err not_found) = ok (sized_mat_tich ctx rec)
trust_hash ctx rec h (err (other k e)) = err e
trust_hash ctx rec h (ok id) =
    if not (fingerprint_eq (identity_fingerprint id) (row_fingerprint rec))
    then ok (quay_ve_settling ctx rec)
    else xep_cho ctx rec h

abbrev pub by_hash : StepCtx → FileRecord → Option Digest → Step
by_hash ctx rec (some h) = trust_hash ctx rec h (ctx.fs.statx rec.loc)
by_hash ctx rec none = tinh_hash ctx rec

unfoldable pub sized_buoc : StepCtx → FileRecord → Step
unfolding tinh_hash xep_cho
sized_buoc ctx rec = by_hash ctx rec rec.sparse_hash
