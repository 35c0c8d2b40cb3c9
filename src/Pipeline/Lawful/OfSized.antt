-- ===== src/Pipeline/Lawful/OfSized.antt =====
-- The answers of crates/core/src/pipeline/sized.rs.
use check_trung_video.Base.{
  is_none, String, Bool, true, false, not, Option, none, some, Result, ok, err, ◌≡◌, refl,
}
use check_trung_video.Model.State.{sized}
use check_trung_video.Model.Records.{
  FileRecord, Identity, Digest, fingerprint_eq, identity_fingerprint, row_fingerprint,
}
use check_trung_video.Pipeline.Ctx.{FsError, not_found, other, OpenedFile, StepCtx, hen_khung_nang}
use check_trung_video.Pipeline.Requeue.{quay_ve_settling}
use check_trung_video.Pipeline.Group
use check_trung_video.Pipeline.Sized
use check_trung_video.Pipeline.Sized.{sized_buoc}
use check_trung_video.Pipeline.Lawful.{
  allowed, IsOwnOutcome, IsOwnStep, if-IsOwnStep, if-IsOwnOutcome,
}
use check_trung_video.Pipeline.Lawful.OfGroup.{xep_cho-own}

module _ (ctx : StepCtx) (rec : FileRecord) (at : rec.state ≡ sized) where
  quay_ve_settling-own : IsOwnOutcome rec.id sized (quay_ve_settling ctx rec)
  unfolding allowed
  quay_ve_settling-own = (refl, at, refl, refl)

  cho_khung_gio-own : IsOwnOutcome rec.id sized (Sized.cho_khung_gio ctx rec)
  unfolding Sized.cho_khung_gio allowed hen_khung_nang
  cho_khung_gio-own =
      if-IsOwnOutcome rec.id sized (is_none rec.heavy_wait_since) _ _ (refl, refl, refl, refl) tt

  keep_hash-own :
      (f : OpenedFile) (h : Digest) (r : Result String Identity)
      → IsOwnStep rec.id sized (Sized.keep_hash ctx rec f h r)
  unfolding allowed
  keep_hash-own f h (err e) = tt
  keep_hash-own f h (ok id) =
      if-IsOwnStep rec.id sized
        (not (fingerprint_eq (identity_fingerprint id) (identity_fingerprint f.identity))) _ _
        quay_ve_settling-own (refl, refl, refl, refl)

  read_hash-own :
      (f : OpenedFile) (r : Result String Digest)
      → IsOwnStep rec.id sized (Sized.read_hash ctx rec f r)
  read_hash-own f (err e) = tt
  read_hash-own f (ok h) = keep_hash-own f h f.refresh_identity

  judge_magic-own :
      (f : OpenedFile) (r : Result String Bool)
      → IsOwnStep rec.id sized (Sized.judge_magic ctx rec f r)
  unfolding allowed
  judge_magic-own f (err e) = tt
  judge_magic-own f (ok false) = (refl, refl, refl, refl)
  judge_magic-own f (ok true) = read_hash-own f (f.sparse_hash f.identity.size)

  hash_opened-own :
      (r : Result FsError OpenedFile) → IsOwnStep rec.id sized (Sized.hash_opened ctx rec r)
  unfolding allowed
  hash_opened-own (err not_found) = (refl, refl, refl, refl)
  hash_opened-own (err (other k e)) = tt
  hash_opened-own (ok f) =
      if-IsOwnStep rec.id sized
        (not (fingerprint_eq (identity_fingerprint f.identity) (row_fingerprint rec))) _ _
        quay_ve_settling-own (judge_magic-own f (Group.magic_verdict rec f))

  trust_hash-own :
      (h : Digest) (r : Result FsError Identity)
      → IsOwnStep rec.id sized (Sized.trust_hash ctx rec h r)
  unfolding allowed
  trust_hash-own h (err not_found) = (refl, refl, refl, refl)
  trust_hash-own h (err (other k e)) = tt
  trust_hash-own h (ok id) =
      if-IsOwnStep rec.id sized
        (not (fingerprint_eq (identity_fingerprint id) (row_fingerprint rec))) _ _
        quay_ve_settling-own (xep_cho-own ctx rec h)

  by_hash-own : (o : Option Digest) → IsOwnStep rec.id sized (Sized.by_hash ctx rec o)
  unfolding Sized.tinh_hash
  by_hash-own (some h) = trust_hash-own h (ctx.fs.statx rec.loc)
  by_hash-own none =
      if-IsOwnStep rec.id sized (not ctx.allow_heavy) _ _ cho_khung_gio-own
        (hash_opened-own (ctx.fs.open_file rec.loc))

  pub sized-own : IsOwnStep rec.id sized (sized_buoc ctx rec)
  unfolding sized_buoc
  sized-own = by_hash-own rec.sparse_hash
