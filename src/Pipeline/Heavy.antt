-- ===== src/Pipeline/Heavy.antt =====
-- Work outside the heavy window: crates/core/src/pipeline.
use check_trung_video.Base.{
  ℕ, List, [], ◌∷◌, false, Option, none, some, Result, ok, err, ◌≡◌, ◌≢◌, ap, refl, find, filter,
}
use check_trung_video.Base.Int
use check_trung_video.Model.State.{State, settling, sized, hashed}
use check_trung_video.Model.Records.{FileRecord, FileLoc, Identity, Digest, Group as GroupRow, Ts}
use check_trung_video.Model.Transition.{Transition}
use check_trung_video.Pipeline.{step, step_in}
use check_trung_video.Pipeline.Ctx.{
  FsError, not_found, other, OpenedFile, StepCtx, Step, hen_khung_nang,
}
use check_trung_video.Pipeline.Group
use check_trung_video.Pipeline.Sized
use check_trung_video.Pipeline.Sized.{sized_buoc}
use check_trung_video.Pipeline.Verify
use check_trung_video.Pipeline.Verify.{verify_buoc}
use check_trung_video.Pipeline.Verify.Outcome
use check_trung_video.Pipeline.Ctx.{Deduper}
use check_trung_video.Memory.Lookup.{candidates, pending_same_size, groups_by_key}

-- The context with other answers to every opening of a file, and another deduper.
abbrev pub with_files :
    (FileLoc → Result FsError OpenedFile)
    → (FileLoc → Result FsError OpenedFile)
    → Deduper
    → StepCtx
    → StepCtx
with_files open_file open_rw deduper ctx = record ctx {
  fs = record ctx.fs { open_file = open_file; open_rw = open_rw };
  deduper = deduper;
}

module _ (open_file open_rw : FileLoc → Result FsError OpenedFile) (deduper : Deduper)
    (ctx : StepCtx) (rec : FileRecord) where
  abbrev other_ctx : StepCtx
  other_ctx = with_files open_file open_rw deduper ctx

  with_hashed-light :
      (cs : List FileRecord) (t : Transition)
      → Group.with_hashed other_ctx cs t ≡ Group.with_hashed ctx cs t
  unfolding Group.with_hashed
  with_hashed-light [] t = refl
  with_hashed-light (c ∷ cs) t = with_hashed-light cs _

  with_members-light :
      (goc : ℕ) (cs : List FileRecord) (t : Transition)
      → Group.with_members other_ctx goc cs t ≡ Group.with_members ctx goc cs t
  unfolding Group.with_members
  with_members-light goc [] t = refl
  with_members-light goc (c ∷ cs) t = with_members-light goc cs _

  place_hashed-light :
      (h : Digest) (cs : List FileRecord)
      → Group.place_hashed other_ctx rec h cs ≡ Group.place_hashed ctx rec h cs
  unfolding Group.place_hashed Group.tao_nhom
  place_hashed-light h [] = refl
  place_hashed-light h (c ∷ cs) =
      rw
        (
          with_hashed-light (c ∷ cs),
          with_members-light (Group.chon_canonical rec (c ∷ cs)) (c ∷ cs),
        )
        refl

  module _ (light : ctx.allow_heavy ≡ false) where
    place-light :
        (h : Digest) (cs : List FileRecord) (o : Option FileRecord)
        → Group.place other_ctx rec h cs o ≡ Group.place ctx rec h cs o
    unfolding hen_khung_nang
    place-light h cs none = rw (place_hashed-light h (filter (Group.same_hash h) cs)) refl
    place-light h cs (some c) = rw light refl

    wait-light :
        (o : Option Ts) (rest : Step)
        → Group.wait_for_peer other_ctx o rest ≡ Group.wait_for_peer ctx o rest
    wait-light none rest = refl
    wait-light (some den) rest = refl

    join-light :
        (g : ℕ) (o : Option FileRecord)
        → Group.join_group other_ctx rec g o ≡ Group.join_group ctx rec g o
    join-light g none = refl
    join-light g (some c) = refl

    tim_ung_vien-light :
        (h : Digest) → Group.tim_ung_vien other_ctx rec h ≡ Group.tim_ung_vien ctx rec h
    unfolding Group.tim_ung_vien
    tim_ung_vien-light h =
        let cands =
          candidates ctx.store rec ctx.scope
            (Int.saturating_mul (Int.sub_i64 ctx.now ctx.settle_delay) 1_000_000)
            ctx.max_size_group in
        rw (place-light h cands (find Group.without_hash cands)) (
          wait-light (pending_same_size ctx.store rec ctx.scope)
            (Group.place ctx rec h cands (find Group.without_hash cands)))

    place_in-light :
        (h : Digest) (gs : List GroupRow)
        → Group.place_in other_ctx rec h gs ≡ Group.place_in ctx rec h gs
    place_in-light h [] = tim_ung_vien-light h
    place_in-light h (g ∷ gs) = ap ok (join-light g.id (Group.canonical_of ctx.store g))

    trust_hash-light :
        (h : Digest) (r : Result FsError Identity)
        → Sized.trust_hash other_ctx rec h r ≡ Sized.trust_hash ctx rec h r
    unfolding Group.xep_cho
    trust_hash-light h (err not_found) = refl
    trust_hash-light h (err (other k e)) = refl
    trust_hash-light h (ok id) =
        rw (place_in-light h (groups_by_key ctx.store rec.domain_id rec.size h)) refl

    by_hash-light : (o : Option Digest) → Sized.by_hash other_ctx rec o ≡ Sized.by_hash ctx rec o
    unfolding Sized.tinh_hash Sized.cho_khung_gio hen_khung_nang
    by_hash-light (some h) = trust_hash-light h (ctx.fs.statx rec.loc)
    by_hash-light none = rw light refl

    in_group-light : (o : Option ℕ) → Verify.in_group other_ctx rec o ≡ Verify.in_group ctx rec o
    unfolding Outcome.cho_khung_gio hen_khung_nang
    in_group-light none = refl
    in_group-light (some g) = rw light refl

    step_in-light : (st : State) → st ≢ settling → step_in st other_ctx rec ≡ step_in st ctx rec
    unfolding sized_buoc verify_buoc
    step_in-light settling n = elim (n refl) [ ]
    step_in-light sized n = by_hash-light rec.sparse_hash
    step_in-light hashed n = in_group-light rec.group_id
    step_in-light _ n = refl

    -- Outside the heavy window the step of a row that has settled depends on no file that is opened
    -- and on no comparison: with any other answers of `open` and any other deduper it is the same.
    pub step-light : rec.state ≢ settling → step other_ctx rec ≡ step ctx rec
    unfolding step
    step-light n = step_in-light rec.state n
