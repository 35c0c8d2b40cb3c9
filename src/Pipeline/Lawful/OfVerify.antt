-- ===== src/Pipeline/Lawful/OfVerify.antt =====
-- The answers of crates/core/src/pipeline/verify.rs.
use check_trung_video.Base.{
  ℕ, is_none, ltb, ◌==◌, String, not, ◌&&◌, Option, none, some, Result, ok, err, ◌≡◌, refl,
}
use check_trung_video.Model.State.{hashed}
use check_trung_video.Model.Records.{
  FileRecord, Identity, Digest, Group as GroupRow, has_special_mode, fingerprint_eq,
  identity_fingerprint, row_fingerprint, key_eq,
}
use check_trung_video.Model.Transition.{DedupEvent}
use check_trung_video.Pipeline.Ctx.{
  FsError, not_found, other, OpenedFile, DedupeError, DedupeOutcome, same, differs, StepCtx,
  hen_khung_nang,
}
use check_trung_video.Pipeline.Errno.{ChinhSach, dung, thu_lai_ngay}
use check_trung_video.Pipeline.Verify
use check_trung_video.Pipeline.Verify.{verify_buoc}
use check_trung_video.Pipeline.Verify.Outcome
use check_trung_video.Pipeline.Lawful.{
  allowed, IsOwnOutcome, IsOwnStep, if-IsOwnStep, if-IsOwnOutcome, allowed-ket_thuc,
}

module _ (ctx : StepCtx) (rec : FileRecord) (at : rec.state ≡ hashed) where
  giong_nhau-own :
      (c : FileRecord) (g n : ℕ) (id_b : Identity)
      → IsOwnOutcome rec.id hashed (Outcome.giong_nhau ctx rec c g n id_b)
  unfolding Outcome.giong_nhau allowed
  giong_nhau-own c g n id_b = (refl, refl, allowed-ket_thuc ctx.deduper.shares_extents, refl)

  next_group-own :
      (h : Digest) (ev : DedupEvent) (o : Option GroupRow)
      → IsOwnOutcome rec.id hashed (Outcome.next_group ctx rec h ev o)
  unfolding allowed
  next_group-own h ev none = (refl, refl, refl, refl)
  next_group-own h ev (some g) = (refl, refl, refl, refl)

  by_policy-own :
      (cs : ChinhSach) (n : ℕ) (text : String) (ev : DedupEvent)
      → IsOwnOutcome rec.id hashed (Outcome.by_policy cs ctx rec n text ev)
  unfolding allowed
  by_policy-own dung n text ev = tt
  by_policy-own thu_lai_ngay n text ev = tt
  by_policy-own _ n text ev = (refl, refl, refl, refl)

  settle_answer-own :
      (c : FileRecord) (g : ℕ) (id_b : Identity) (r : Result DedupeError DedupeOutcome)
      → IsOwnOutcome rec.id hashed (Verify.settle_answer ctx rec c g id_b r)
  unfolding Outcome.khac_nhau Outcome.xu_ly_loi
  settle_answer-own c g id_b (ok (same n)) = giong_nhau-own c g n id_b
  settle_answer-own c g id_b (ok (differs n)) = next_group-own _ _ _
  settle_answer-own c g id_b (err e) = by_policy-own _ _ _ _

  compare_opened-own :
      (c : FileRecord) (g : ℕ) (a b : OpenedFile)
      → IsOwnOutcome rec.id hashed (Verify.compare_opened ctx rec c g a b)
  unfolding Verify.compare_opened allowed
  compare_opened-own c g a b =
      if-IsOwnOutcome rec.id hashed
        (not (fingerprint_eq (identity_fingerprint b.identity) (row_fingerprint rec))) _ _
        (refl, at, refl, refl)
        (if-IsOwnOutcome rec.id hashed
          (not (fingerprint_eq (identity_fingerprint a.identity) (row_fingerprint c))) _ _
          (refl, refl, refl, refl)
          (if-IsOwnOutcome rec.id hashed (ltb 1 b.identity.nlink) _ _ (refl, refl, refl, refl)
            (if-IsOwnOutcome rec.id hashed (has_special_mode b.identity) _ _
              (refl, refl, refl, refl)
              (if-IsOwnOutcome rec.id hashed (key_eq a.identity.key b.identity.key) _ _
                (refl, refl, refl, refl)
                (if-IsOwnOutcome rec.id hashed (not (a.identity.size == b.identity.size)) _ _
                  (refl, refl, refl, refl)
                  (settle_answer-own c g b.identity (ctx.deduper.dedupe a b b.identity.size)))))))

  open_dst-own :
      (c : FileRecord) (g : ℕ) (a : OpenedFile) (r : Result FsError OpenedFile)
      → IsOwnStep rec.id hashed (Verify.open_dst ctx rec c g a r)
  unfolding allowed
  open_dst-own c g a (err not_found) = (refl, refl, refl, refl)
  open_dst-own c g a (err (other k e)) = tt
  open_dst-own c g a (ok b) = compare_opened-own c g a b

  open_src-own :
      (c : FileRecord) (g : ℕ) (r : Result FsError OpenedFile)
      → IsOwnStep rec.id hashed (Verify.open_src ctx rec c g r)
  unfolding allowed
  open_src-own c g (err not_found) = (refl, refl, refl, refl)
  open_src-own c g (err (other k e)) = tt
  open_src-own c g (ok a) = open_dst-own c g a _

  with_canonical-own :
      (g : ℕ) (o : Option FileRecord) → IsOwnStep rec.id hashed (Verify.with_canonical ctx rec g o)
  unfolding allowed Verify.xac_minh
  with_canonical-own g none = (refl, refl, refl, refl)
  with_canonical-own g (some c) =
      if-IsOwnStep rec.id hashed (c.id == rec.id) _ _ (refl, refl, refl, refl)
        (if-IsOwnStep rec.id hashed (ltb 0 ctx.verify_max_size && ltb ctx.verify_max_size rec.size)
          _ _ (refl, refl, refl, refl) (open_src-own c g (ctx.fs.open_file c.loc)))

  in_found_group-own :
      (g : ℕ) (o : Option GroupRow) → IsOwnStep rec.id hashed (Verify.in_found_group ctx rec g o)
  unfolding allowed
  in_found_group-own g none = (refl, refl, refl, refl)
  in_found_group-own g (some group) = with_canonical-own g _

  cho_khung_gio-own : IsOwnOutcome rec.id hashed (Outcome.cho_khung_gio ctx rec)
  unfolding Outcome.cho_khung_gio allowed hen_khung_nang
  cho_khung_gio-own =
      if-IsOwnOutcome rec.id hashed (is_none rec.heavy_wait_since) _ _ (refl, refl, refl, refl) tt

  in_group-own : (o : Option ℕ) → IsOwnStep rec.id hashed (Verify.in_group ctx rec o)
  unfolding allowed
  in_group-own none = (refl, refl, refl, refl)
  in_group-own (some g) =
      if-IsOwnStep rec.id hashed (not ctx.allow_heavy) _ _ cho_khung_gio-own
        (in_found_group-own g _)

  pub verify-own : IsOwnStep rec.id hashed (verify_buoc ctx rec)
  unfolding verify_buoc
  verify-own = in_group-own rec.group_id
