-- ===== src/Pipeline/Verify.antt =====
-- The step of a hashed row: crates/core/src/pipeline/verify.rs.
pub mod Outcome
pub mod Differs
use check_trung_video.Base.{
  ℕ, ltb, ◌==◌, String, Bool, true, false, not, ◌&&◌, Option, none, some, Result, ok, err,
  if◌then◌else◌, opt_bind, find, unwrap_or,
}
use check_trung_video.Model.State.{State, sized, hashed, canonical, missing}
use check_trung_video.Model.SkipReason.{hardlink, special_mode, too_large}
use check_trung_video.Model.Records.{
  Digest, FileRecord, Group, Identity, fingerprint_eq, identity_fingerprint, row_fingerprint,
  has_special_mode, key_eq,
}
use check_trung_video.Model.Transition
use check_trung_video.Model.Transition.{set_canonical, empty_patch, new_transition, with_group}
use check_trung_video.Memory.Lookup.{group_get, group_members}
use check_trung_video.Pipeline.Ctx.{
  FsError, not_found, other, OpenedFile, DedupeOutcome, same, differs, DedupeError, StepCtx,
  StepOutcome, apply, Step,
}
use check_trung_video.Pipeline.Requeue.{quay_ve_settling}
use Outcome.{
  giong_nhau, khac_nhau, xu_ly_loi, cho_khung_gio, roi_nhom, goc_mat_tich, goc_da_doi, park, bo_qua,
  that_bai,
}

-- The table for the answer of the deduper.
abbrev pub settle_answer :
    StepCtx
    → FileRecord
    → FileRecord
    → ℕ
    → Identity
    → Result DedupeError DedupeOutcome
    → StepOutcome
settle_answer ctx rec c g id_b (ok (same bytes_shared)) = giong_nhau ctx rec c g bytes_shared id_b
settle_answer ctx rec c g id_b (ok (differs at_offset)) =
    khac_nhau ctx rec c g at_offset (unwrap_or 0 rec.sparse_hash)
settle_answer ctx rec c g id_b (err e) = xu_ly_loi ctx rec c e

-- Step 0 on the two open files, then the deduper.
unfoldable pub compare_opened :
    StepCtx → FileRecord → FileRecord → ℕ → OpenedFile → OpenedFile → StepOutcome
unfolding fingerprint_eq has_special_mode giong_nhau khac_nhau xu_ly_loi
compare_opened ctx rec c g a b =
    if not (fingerprint_eq (identity_fingerprint b.identity) (row_fingerprint rec))
    then quay_ve_settling ctx rec
    else if not (fingerprint_eq (identity_fingerprint a.identity) (row_fingerprint c))
    then goc_da_doi ctx rec c g
    else if ltb 1 b.identity.nlink
    then bo_qua ctx rec hardlink
    else if has_special_mode b.identity
    then bo_qua ctx rec special_mode
    else if key_eq a.identity.key b.identity.key
    then that_bai ctx rec "A và B là cùng một inode"
    else if not (a.identity.size == b.identity.size)
    then that_bai ctx rec "kích thước A và B khác nhau"
    else settle_answer ctx rec c g b.identity (ctx.deduper.dedupe a b b.identity.size)

abbrev pub open_dst :
    StepCtx → FileRecord → FileRecord → ℕ → OpenedFile → Result FsError OpenedFile → Step
open_dst ctx rec c g a (err not_found) = ok (
    apply (
      new_transition rec.id hashed missing
        (Transition.ready_at none (Transition.prev_state (some hashed) empty_patch)) ctx.now))
open_dst ctx rec c g a (err (other k e)) = err e
open_dst ctx rec c g a (ok b) = ok (compare_opened ctx rec c g a b)

abbrev pub open_src : StepCtx → FileRecord → FileRecord → ℕ → Result FsError OpenedFile → Step
open_src ctx rec c g (err not_found) = ok (goc_mat_tich ctx rec c g)
open_src ctx rec c g (err (other k e)) = err e
open_src ctx rec c g (ok a) =
    open_dst ctx rec c g a
      (if ctx.deduper.dest_needs_write then ctx.fs.open_rw rec.loc else ctx.fs.open_file rec.loc)

unfoldable pub xac_minh : StepCtx → FileRecord → FileRecord → ℕ → Step
unfolding compare_opened
xac_minh ctx rec c g = open_src ctx rec c g (ctx.fs.open_file c.loc)

-- The canonical of the group, if the group has one among its members.
abbrev pub with_canonical : StepCtx → FileRecord → ℕ → Option FileRecord → Step
with_canonical ctx rec g none = ok (
    apply (
      with_group (set_canonical g rec.id)
        (new_transition rec.id hashed canonical (Transition.ready_at none empty_patch) ctx.now)))
with_canonical ctx rec g (some c) =
    if c.id == rec.id
    then ok (
        apply
          (new_transition rec.id hashed canonical (Transition.ready_at none empty_patch) ctx.now))
    else if ltb 0 ctx.verify_max_size && ltb ctx.verify_max_size rec.size
    then ok (park ctx rec too_large)
    else xac_minh ctx rec c g

abbrev pub in_found_group : StepCtx → FileRecord → ℕ → Option Group → Step
in_found_group ctx rec g none = ok (roi_nhom ctx rec g)
in_found_group ctx rec g (some group) = with_canonical ctx rec g (
    opt_bind group.canonical_file_id
      (λ id. find (λ (m : FileRecord). m.id == id) (group_members ctx.store g)))

abbrev pub in_group : StepCtx → FileRecord → Option ℕ → Step
in_group ctx rec none = ok (
    apply
      (new_transition rec.id hashed sized (Transition.ready_at (some ctx.now) empty_patch) ctx.now))
in_group ctx rec (some g) =
    if not ctx.allow_heavy
    then ok (cho_khung_gio ctx rec)
    else in_found_group ctx rec g (group_get ctx.store g)

unfoldable pub verify_buoc : StepCtx → FileRecord → Step
unfolding group_get group_members xac_minh
verify_buoc ctx rec = in_group ctx rec rec.group_id
