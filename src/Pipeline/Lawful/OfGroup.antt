-- ===== src/Pipeline/Lawful/OfGroup.antt =====
-- The answers of crates/core/src/pipeline/group.rs.
use check_trung_video.Base.{
  ℕ, ltb, ◌==◌, String, List, [], ◌∷◌, Bool, true, false, not, Option, none, some, Result, ok, err,
  refl, find, filter,
}
use check_trung_video.Base.Int
use check_trung_video.Model.State.{State, sized}
use check_trung_video.Model.Records.{
  FileRecord, Digest, Group as GroupRow, Ts, fingerprint_eq, identity_fingerprint, row_fingerprint,
}
use check_trung_video.Model.Transition.{Transition}
use check_trung_video.Pipeline.Ctx.{
  FsError, not_found, other, OpenedFile, StepCtx, Step, hen_khung_nang,
}
use check_trung_video.Pipeline.Group
use check_trung_video.Pipeline.Lawful.{
  allowed, IsOwn, IsOwnOutcome, IsOwnStep, if-IsOwn, if-IsOwnStep, if-IsOwnOutcome,
}
use check_trung_video.Memory.Lookup.{candidates, pending_same_size, groups_by_key}

module _ (ctx : StepCtx) (id : ℕ) (from : State) where
  with_hashed-IsOwn :
      (cs : List FileRecord) (t : Transition)
      → IsOwn id from t
      → IsOwn id from (Group.with_hashed ctx cs t)
  unfolding Group.with_hashed
  with_hashed-IsOwn [] t h = h
  with_hashed-IsOwn (c ∷ cs) t h = with_hashed-IsOwn cs _ h

  with_members-IsOwn :
      (goc : ℕ) (cs : List FileRecord) (t : Transition)
      → IsOwn id from t
      → IsOwn id from (Group.with_members ctx goc cs t)
  unfolding Group.with_members
  with_members-IsOwn goc [] t h = h
  with_members-IsOwn goc (c ∷ cs) t h =
      with_members-IsOwn goc cs _ (if-IsOwn id from (c.id == goc) _ _ h h)

module _ (ctx : StepCtx) (rec : FileRecord) where
  tao_nhom-own :
      (cs : List FileRecord) (h : Digest) → IsOwnOutcome rec.id sized (Group.tao_nhom ctx rec cs h)
  unfolding Group.tao_nhom allowed
  tao_nhom-own cs h =
      if-IsOwnOutcome rec.id sized (Group.chon_canonical rec cs == rec.id) _ _
        (with_hashed-IsOwn ctx rec.id sized cs _ (refl, refl, refl, refl))
        (with_members-IsOwn ctx rec.id sized (Group.chon_canonical rec cs) cs _
          (refl, refl, refl, refl))

  place_hashed-own :
      (h : Digest) (cs : List FileRecord)
      → IsOwnOutcome rec.id sized (Group.place_hashed ctx rec h cs)
  unfolding Group.place_hashed allowed
  place_hashed-own h [] = (refl, refl, refl, refl)
  place_hashed-own h (c ∷ cs) = tao_nhom-own (c ∷ cs) h

  hash_candidate-own :
      (c : FileRecord) (r : Result String Digest)
      → IsOwnStep rec.id sized (Group.hash_candidate ctx rec c r)
  unfolding allowed
  hash_candidate-own c (err e) = tt
  hash_candidate-own c (ok h) = (refl, refl, refl, refl)

  judge_candidate-own :
      (c : FileRecord) (f : OpenedFile) (r : Result String Bool)
      → IsOwnStep rec.id sized (Group.judge_candidate ctx rec c f r)
  unfolding allowed
  judge_candidate-own c f (err e) = tt
  judge_candidate-own c f (ok false) = (refl, refl, refl, refl)
  judge_candidate-own c f (ok true) = hash_candidate-own c (f.sparse_hash f.identity.size)

  open_candidate-own :
      (c : FileRecord) (r : Result FsError OpenedFile)
      → IsOwnStep rec.id sized (Group.open_candidate ctx rec c r)
  unfolding allowed
  open_candidate-own c (err not_found) = (refl, refl, refl, refl)
  open_candidate-own c (err (other k e)) = tt
  open_candidate-own c (ok f) =
      if-IsOwnStep rec.id sized
        (not (fingerprint_eq (identity_fingerprint f.identity) (row_fingerprint c))) _ _
        (refl, refl, refl, refl)
        (if-IsOwnStep rec.id sized (ltb 1 f.identity.nlink) _ _ (refl, refl, refl, refl)
          (judge_candidate-own c f (Group.magic_verdict c f)))

  place-own :
      (h : Digest) (cs : List FileRecord) (o : Option FileRecord)
      → IsOwnStep rec.id sized (Group.place ctx rec h cs o)
  unfolding Group.backfill hen_khung_nang
  place-own h cs none = place_hashed-own h (filter (Group.same_hash h) cs)
  place-own h cs (some c) =
      if-IsOwnStep rec.id sized (not ctx.allow_heavy) _ _ tt
        (open_candidate-own c (ctx.fs.open_file c.loc))

  wait_for_peer-own :
      (o : Option Ts) (rest : Step)
      → IsOwnStep rec.id sized rest
      → IsOwnStep rec.id sized (Group.wait_for_peer ctx o rest)
  wait_for_peer-own none rest h = h
  wait_for_peer-own (some den) rest h = if-IsOwnStep rec.id sized (Int.lt ctx.now den) _ _ tt h

  tim_ung_vien-own : (h : Digest) → IsOwnStep rec.id sized (Group.tim_ung_vien ctx rec h)
  unfolding Group.tim_ung_vien
  tim_ung_vien-own h =
      let cands =
        candidates ctx.store rec ctx.scope
          (Int.saturating_mul (Int.sub_i64 ctx.now ctx.settle_delay) 1_000_000)
          ctx.max_size_group in
      wait_for_peer-own (pending_same_size ctx.store rec ctx.scope)
        (Group.place ctx rec h cands (find Group.without_hash cands))
        (place-own h cands (find Group.without_hash cands))

  join_group-own :
      (g : ℕ) (o : Option FileRecord) → IsOwnOutcome rec.id sized (Group.join_group ctx rec g o)
  unfolding allowed
  join_group-own g none = (refl, refl, refl, refl)
  join_group-own g (some c) =
      if-IsOwnOutcome rec.id sized (Group.is_lost c.state) _ _ (refl, refl, refl, refl)
        (if-IsOwnOutcome rec.id sized (c.id == rec.id) _ _ (refl, refl, refl, refl)
          (refl, refl, refl, refl))

  place_in-own :
      (h : Digest) (gs : List GroupRow) → IsOwnStep rec.id sized (Group.place_in ctx rec h gs)
  place_in-own h [] = tim_ung_vien-own h
  place_in-own h (g ∷ gs) = join_group-own g.id (Group.canonical_of ctx.store g)

  pub xep_cho-own : (h : Digest) → IsOwnStep rec.id sized (Group.xep_cho ctx rec h)
  unfolding Group.xep_cho
  xep_cho-own h = place_in-own h (groups_by_key ctx.store rec.domain_id rec.size h)
