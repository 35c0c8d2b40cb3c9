-- ===== src/Pipeline/Verify/Outcome.antt =====
-- The decisions of the step of a hashed row: crates/core/src/pipeline/verify.rs.
use Prim.Native.String.{◌++◌ as string_append}
use check_trung_video.Base.{
  ℕ, ◌+◌, ◌*◌, ltb, leb, String, str_eq, Bool, true, false, Option, none, some, find, min, is_none,
  unwrap_or, if◌then◌else◌,
}
use check_trung_video.Base.Int
use check_trung_video.Base.Int.{ℤ, pos}
use check_trung_video.StateTable.{backoff_ms, max_unstable_attempts}
use check_trung_video.Model.State.{
  State, settling, sized, hashed, verified, deduped, canonical, skipped, failed, missing,
}
use check_trung_video.Model.SkipReason
use check_trung_video.Model.SkipReason.{SkipReason, unstable, unsupported}
use check_trung_video.Model.EventMethod.{EventMethod, fideduperange, verified_clone, dry_run}
use check_trung_video.Model.EventResult.{EventResult}
use check_trung_video.Model.Records.{Digest, FileRecord, Group, Identity}
use check_trung_video.Model.Transition
use check_trung_video.Model.Transition.{
  Patch, DedupEvent, create, set_canonical, leave, empty_patch, new_transition, new_event,
  with_group, with_event, with_other,
}
use check_trung_video.Memory.Lookup.{groups_by_key}
use check_trung_video.Pipeline.Ctx.{
  DedupeError, errno, StepCtx, StepOutcome, apply, defer, hash_version_value, hen_khung_nang,
}
use check_trung_video.Pipeline.Requeue.{patch_bo_qua}
use check_trung_video.Pipeline.Errno.{
  ChinhSach, thu_lai_ngay, backoff, backoff_va_canh_bao, park_domain, cap_khong_duoc,
  fingerprint_doi, dung, chinh_sach, ghi_event, tang_attempts,
}
use check_trung_video.Pipeline.Errno

abbrev pub method_cua : StepCtx → EventMethod
method_cua ctx =
    if str_eq ctx.deduper.name "fideduperange"
    then fideduperange
    else if str_eq ctx.deduper.name "verified_clone"
    then verified_clone
    else dry_run

-- `i64::try_from(n).unwrap_or(i64::MAX)`
abbrev pub to_i64 : ℕ → ℤ
to_i64 n = pos (min n (9_223_372_036_854_775_807))

-- The final state of a row that is the same as the canonical.
abbrev pub ket_thuc : StepCtx → State
ket_thuc ctx = if ctx.deduper.shares_extents then deduped else verified

unfoldable pub giong_nhau : StepCtx → FileRecord → FileRecord → ℕ → ℕ → Identity → StepOutcome
giong_nhau ctx rec c g bytes_shared id_b =
    let ev : DedupEvent = record (new_event ctx.now (method_cua ctx) EventResult.same) {
      src = some c.key;
      dst = some rec.key;
      src_uid = some c.owner_uid;
      dst_uid = some rec.owner_uid;
      size = some rec.size;
      bytes_shared = to_i64 bytes_shared;
    } in
    apply (
      with_event ev (
        with_group (Transition.verified g none) (
          new_transition rec.id hashed (ket_thuc ctx)
            (Transition.attempts 0
              (Transition.ready_at none (Transition.identity id_b empty_patch)))
            ctx.now)))

-- Without a next group the row opens a group of its own.
abbrev pub next_group : StepCtx → FileRecord → Digest → DedupEvent → Option Group → StepOutcome
next_group ctx rec h ev (some g) = apply (
    with_event ev (
      new_transition rec.id hashed hashed
        (Transition.ready_at (some ctx.now) (Transition.group_id (some g.id) empty_patch)) ctx.now))
next_group ctx rec h ev none = apply (
    with_event ev (
      with_group (create rec.id h hash_version_value) (
        new_transition rec.id hashed canonical
          (Transition.ready_at none (Transition.group_id none empty_patch)) ctx.now)))

abbrev pub is_after : ℕ → Group → Bool
is_after g x = ltb g x.id

-- Only a group with a larger id is tried next.
unfoldable pub khac_nhau : StepCtx → FileRecord → FileRecord → ℕ → ℕ → Digest → StepOutcome
unfolding groups_by_key
khac_nhau ctx rec c g at_offset h =
    let ev : DedupEvent = record (new_event ctx.now (method_cua ctx) EventResult.differs) {
      src = some c.key;
      dst = some rec.key;
      size = some rec.size;
      note = some (string_append "khác nhau tại offset " (ctx.display_number at_offset));
    } in
    next_group ctx rec h ev (find (is_after g) (groups_by_key ctx.store rec.domain_id rec.size h))

abbrev pub errno_of : DedupeError → Option ℤ
errno_of (errno n) = some n
errno_of _ = none

abbrev pub error_event : StepCtx → FileRecord → FileRecord → DedupeError → DedupEvent
error_event ctx rec c e = record (new_event ctx.now (method_cua ctx) EventResult.error) {
  src = some c.key;
  dst = some rec.key;
  size = some rec.size;
  note = some (ctx.display_error e);
  errno = errno_of e;
}

abbrev pub noted : Bool → DedupEvent → Transition.Transition → StepOutcome
noted true ev t = apply (with_event ev t)
noted false ev t = apply t

abbrev pub hashed_to : StepCtx → FileRecord → State → Patch → Transition.Transition
hashed_to ctx rec to patch = new_transition rec.id hashed to patch ctx.now

-- 24 hours when the file has changed too often.
abbrev pub unstable_delay : ℕ → ℤ
unstable_delay attempts =
    if leb max_unstable_attempts attempts then pos (24 * 3_600_000) else backoff_ms attempts

abbrev pub unstable_reason : ℕ → Option String
unstable_reason attempts =
    if leb max_unstable_attempts attempts then some (SkipReason.as_str unstable) else none

-- `text` is what the error displays, `n` the number of attempts.
abbrev pub by_policy : ChinhSach → StepCtx → FileRecord → ℕ → String → DedupEvent → StepOutcome
by_policy dung ctx rec n text ev = defer (Int.add_i64 ctx.now (pos 60_000)) "bị dừng giữa chừng"
by_policy thu_lai_ngay ctx rec n text ev = defer ctx.now "tín hiệu, thử lại ngay"
by_policy fingerprint_doi ctx rec n text ev = noted (ghi_event fingerprint_doi) ev (
    hashed_to ctx rec settling (
      Transition.ready_at (some (Int.add_i64 ctx.now (unstable_delay n))) (
        Transition.group_id none (
          Transition.sparse_hash none
            (Transition.skip_reason (unstable_reason n) (Transition.attempts n empty_patch))))))
by_policy backoff ctx rec n text ev = noted (ghi_event backoff) ev (
    hashed_to ctx rec hashed (
      Transition.ready_at (some (Int.add_i64 ctx.now (backoff_ms n)))
        (Transition.last_error (some text) (Transition.attempts n empty_patch))))
by_policy backoff_va_canh_bao ctx rec n text ev = noted (ghi_event backoff_va_canh_bao) ev (
    hashed_to ctx rec hashed (
      Transition.ready_at (some (Int.add_i64 ctx.now (backoff_ms n)))
        (Transition.last_error (some text) (Transition.attempts n empty_patch))))
by_policy park_domain ctx rec n text ev = noted (ghi_event park_domain) ev (
    hashed_to ctx rec hashed (
      Transition.ready_at none (
        Transition.skip_reason (some (SkipReason.as_str unsupported))
          (Transition.last_error (some text) empty_patch))))
by_policy (cap_khong_duoc r) ctx rec n text ev = noted (ghi_event (cap_khong_duoc r)) ev (
    hashed_to ctx rec sized (
      Transition.ready_at (some ctx.now) (
        Transition.skip_reason (some (SkipReason.as_str r))
          (Transition.group_id none empty_patch))))
by_policy Errno.that_bai ctx rec n text ev = noted (ghi_event Errno.that_bai) ev (
    hashed_to ctx rec failed
      (Transition.ready_at none (Transition.last_error (some text) empty_patch)))

unfoldable pub xu_ly_loi : StepCtx → FileRecord → FileRecord → DedupeError → StepOutcome
unfolding chinh_sach
xu_ly_loi ctx rec c e =
    let cs = chinh_sach e in
    by_policy cs ctx rec (if tang_attempts cs then rec.attempts + 1 else rec.attempts)
      (ctx.display_error e) (error_event ctx rec c e)

unfoldable pub cho_khung_gio : StepCtx → FileRecord → StepOutcome
unfolding hen_khung_nang
cho_khung_gio ctx rec =
    if is_none rec.heavy_wait_since
    then apply (
        hashed_to ctx rec hashed (
          Transition.ready_at
            (some (unwrap_or (Int.add_i64 ctx.now (pos 60_000)) ctx.next_heavy_at))
            (Transition.heavy_wait_since (some ctx.now) empty_patch)))
    else hen_khung_nang ctx "chờ khung giờ nặng để verify"

abbrev pub roi_nhom : StepCtx → FileRecord → ℕ → StepOutcome
roi_nhom ctx rec g = apply (
    with_group (leave g) (
      hashed_to ctx rec sized
        (Transition.ready_at (some ctx.now) (Transition.group_id none empty_patch))))

abbrev pub goc_mat_tich : StepCtx → FileRecord → FileRecord → ℕ → StepOutcome
goc_mat_tich ctx rec c g = apply (
    with_other c.id c.state missing
      (Transition.ready_at none (Transition.prev_state (some c.state) empty_patch))
      (with_group (set_canonical g rec.id)
        (hashed_to ctx rec canonical (Transition.ready_at none empty_patch))))

abbrev pub goc_da_doi : StepCtx → FileRecord → FileRecord → ℕ → StepOutcome
goc_da_doi ctx rec c g = apply (
    with_other c.id c.state settling
      (Transition.ready_at (some (Int.add_i64 ctx.now ctx.settle_delay))
        (Transition.group_id none (Transition.sparse_hash none empty_patch)))
      (with_group (set_canonical g rec.id)
        (hashed_to ctx rec canonical (Transition.ready_at none empty_patch))))

abbrev pub park : StepCtx → FileRecord → SkipReason → StepOutcome
park ctx rec r = apply (hashed_to ctx rec hashed (patch_bo_qua r))

abbrev pub bo_qua : StepCtx → FileRecord → SkipReason → StepOutcome
bo_qua ctx rec r = apply (hashed_to ctx rec skipped (patch_bo_qua r))

abbrev pub that_bai : StepCtx → FileRecord → String → StepOutcome
that_bai ctx rec vi_sao = apply (
    hashed_to ctx rec failed
      (Transition.ready_at none (Transition.last_error (some vi_sao) empty_patch)))
