-- ===== src/Pipeline/Group.antt =====
-- Placing a row in a group: crates/core/src/pipeline/group.rs.
use check_trung_video.Base.{
  ℕ, ltb, ◌==◌, String, List, [], ◌∷◌, Bool, true, false, not, ◌&&◌, ◌||◌, Option, none, some,
  Result, ok, err, find, filter, sort_by, is_none, opt_bind, opt_eq, if◌then◌else◌,
}
use check_trung_video.Base.Int
use check_trung_video.Base.Int.{ℤ}
use check_trung_video.Model.State
use check_trung_video.Model.State.{
  State, settling, sized, hashed, deduped, distinct, canonical, skipped, missing,
}
use check_trung_video.Model.SkipReason.{SkipReason, hardlink, bad_magic}
use check_trung_video.Model.Records.{
  Ts, Digest, FileRecord, Group, Identity, fingerprint_eq, identity_fingerprint, row_fingerprint,
}
use check_trung_video.Model.Transition
use check_trung_video.Model.Transition.{
  Patch, GroupOp, create, set_canonical, empty_patch, new_transition, with_group, with_other,
}
use check_trung_video.Memory.{Store}
use check_trung_video.Memory.Lookup.{candidates, pending_same_size, groups_by_key, group_members}
use check_trung_video.Pipeline.Ctx.{
  FsError, not_found, other, OpenedFile, StepCtx, StepOutcome, apply, defer, Step,
  hash_version_value, hen_khung_nang,
}
use check_trung_video.Pipeline.Requeue.{patch_bo_qua}

-- What is to be done with a candidate that has been opened.
pub data ViecCanLam : Type 0 where
  mat_tich : ViecCanLam
  da_doi : Identity → ViecCanLam
  bo_qua : SkipReason → ViecCanLam
  co_hash : Digest → ViecCanLam

abbrev pub viec_state : FileRecord → ViecCanLam → State
viec_state c mat_tich = missing
viec_state c (da_doi id) = settling
viec_state c (bo_qua r) = skipped
viec_state c (co_hash h) = c.state

abbrev pub viec_patch : StepCtx → FileRecord → ViecCanLam → Patch
viec_patch ctx c mat_tich =
    Transition.ready_at none (Transition.prev_state (some c.state) empty_patch)
viec_patch ctx c (da_doi id) = Transition.ready_at (some (Int.add_i64 ctx.now ctx.settle_delay)) (
    Transition.group_id none (
      Transition.full_hash none (Transition.sparse_hash none (Transition.identity id empty_patch))))
viec_patch ctx c (bo_qua r) = patch_bo_qua r
viec_patch ctx c (co_hash h) =
    Transition.magic_ok true
      (Transition.hash_version hash_version_value (Transition.sparse_hash (some h) empty_patch))

-- The candidate is changed in the transition of the row, which is tried again at once.
abbrev pub sua_ung_vien : StepCtx → FileRecord → FileRecord → ViecCanLam → StepOutcome
sua_ung_vien ctx rec c viec = apply (
    with_other c.id c.state (viec_state c viec) (viec_patch ctx c viec) (
      new_transition rec.id sized sized
        (Transition.heavy_wait_since none (Transition.ready_at (some ctx.now) empty_patch))
        ctx.now))

abbrev pub hash_candidate : StepCtx → FileRecord → FileRecord → Result String Digest → Step
hash_candidate ctx rec c (err e) = err e
hash_candidate ctx rec c (ok h) = ok (sua_ung_vien ctx rec c (co_hash h))

-- The verdict on the magic bytes, which are read only if they have not been judged before.
abbrev pub magic_verdict : FileRecord → OpenedFile → Result String Bool
magic_verdict r f = if is_none r.magic_ok then f.cho_qua r.loc else ok true

abbrev pub judge_candidate :
    StepCtx → FileRecord → FileRecord → OpenedFile → Result String Bool → Step
judge_candidate ctx rec c f (err e) = err e
judge_candidate ctx rec c f (ok false) = ok (sua_ung_vien ctx rec c (bo_qua bad_magic))
judge_candidate ctx rec c f (ok true) = hash_candidate ctx rec c (f.sparse_hash f.identity.size)

abbrev pub open_candidate : StepCtx → FileRecord → FileRecord → Result FsError OpenedFile → Step
open_candidate ctx rec c (err not_found) = ok (sua_ung_vien ctx rec c mat_tich)
open_candidate ctx rec c (err (other k e)) = err e
open_candidate ctx rec c (ok f) =
    if not (fingerprint_eq (identity_fingerprint f.identity) (row_fingerprint c))
    then ok (sua_ung_vien ctx rec c (da_doi f.identity))
    else if ltb 1 f.identity.nlink
    then ok (sua_ung_vien ctx rec c (bo_qua hardlink))
    else judge_candidate ctx rec c f (magic_verdict c f)

-- One candidate is read in each round.
unfoldable pub backfill : StepCtx → FileRecord → FileRecord → Step
unfolding fingerprint_eq
backfill ctx rec c = open_candidate ctx rec c (ctx.fs.open_file c.loc)

-- Lexicographic: mtime, first seen, inode, id
unfoldable pub older : FileRecord → FileRecord → Bool
older a b =
    Int.lt a.mtime_ns b.mtime_ns
    || (Int.eq a.mtime_ns b.mtime_ns
        && (Int.lt a.first_seen_at b.first_seen_at
            || (Int.eq a.first_seen_at b.first_seen_at
                && (ltb a.key.ino b.key.ino || (a.key.ino == b.key.ino && ltb a.id b.id)))))

unfoldable pub oldest_from : FileRecord → List FileRecord → FileRecord
unfolding older
oldest_from best [] = best
oldest_from best (c ∷ cs) = elim (older c best) [
  | true ↦ oldest_from c cs
  | false ↦ oldest_from best cs
]

unfoldable pub chon_canonical : FileRecord → List FileRecord → ℕ
unfolding oldest_from
chon_canonical rec trung = (oldest_from rec trung).id

-- The changes of the candidates of a new group with the canonical `goc`.
unfoldable pub with_members :
    StepCtx → ℕ → List FileRecord → Transition.Transition → Transition.Transition
with_members ctx goc [] t = t
with_members ctx goc (c ∷ cs) t = with_members ctx goc cs (
    if c.id == goc
    then with_other c.id c.state canonical (Transition.ready_at none empty_patch) t
    else with_other c.id c.state hashed (Transition.ready_at (some ctx.now) empty_patch) t)

-- The candidates of a new group whose canonical is the row itself.
unfoldable pub with_hashed :
    StepCtx → List FileRecord → Transition.Transition → Transition.Transition
with_hashed ctx [] t = t
with_hashed ctx (c ∷ cs) t =
    with_hashed ctx cs
      (with_other c.id c.state hashed (Transition.ready_at (some ctx.now) empty_patch) t)

unfoldable pub tao_nhom : StepCtx → FileRecord → List FileRecord → Digest → StepOutcome
unfolding chon_canonical with_members with_hashed
tao_nhom ctx rec trung h =
    let goc = chon_canonical rec trung in
    let tao : GroupOp = create goc h hash_version_value in
    if goc == rec.id
    then apply (
        with_hashed ctx trung (
          with_group tao
            (new_transition rec.id sized canonical (Transition.ready_at none empty_patch) ctx.now)))
    else apply (
        with_members ctx goc trung (
          with_group tao (
            new_transition rec.id sized hashed (Transition.ready_at (some ctx.now) empty_patch)
              ctx.now)))

abbrev pub same_hash : Digest → FileRecord → Bool
same_hash h c = opt_eq ◌==◌ c.sparse_hash (some h)

-- Every candidate has a hash.
unfoldable pub place_hashed : StepCtx → FileRecord → Digest → List FileRecord → StepOutcome
unfolding tao_nhom
place_hashed ctx rec h [] =
    apply (new_transition rec.id sized distinct (Transition.ready_at none empty_patch) ctx.now)
place_hashed ctx rec h (c ∷ cs) = tao_nhom ctx rec (c ∷ cs) h

abbrev pub place : StepCtx → FileRecord → Digest → List FileRecord → Option FileRecord → Step
place ctx rec h cands none = ok (place_hashed ctx rec h (filter (same_hash h) cands))
place ctx rec h cands (some c) =
    if not ctx.allow_heavy
    then ok (hen_khung_nang ctx "chờ khung giờ để backfill hash ứng viên")
    else backfill ctx rec c

abbrev pub without_hash : FileRecord → Bool
without_hash c = is_none c.sparse_hash

-- A row of the same size that is still settling, and its time to come, are waited for.
abbrev pub wait_for_peer : StepCtx → Option Ts → Step → Step
wait_for_peer ctx none rest = rest
wait_for_peer ctx (some den) rest =
    if Int.lt ctx.now den then ok (defer den "chờ file cùng kích thước ổn định") else rest

unfoldable pub tim_ung_vien : StepCtx → FileRecord → Digest → Step
unfolding candidates pending_same_size
tim_ung_vien ctx rec h =
    let settled_before_ns : ℤ =
      Int.saturating_mul (Int.sub_i64 ctx.now ctx.settle_delay) 1_000_000 in
    let cands = candidates ctx.store rec ctx.scope settled_before_ns ctx.max_size_group in
    wait_for_peer ctx (pending_same_size ctx.store rec ctx.scope)
      (place ctx rec h cands (find without_hash cands))

abbrev pub take_canonical : StepCtx → FileRecord → ℕ → StepOutcome
take_canonical ctx rec g = apply (
    with_group (set_canonical g rec.id) (
      new_transition rec.id sized canonical
        (Transition.ready_at none (Transition.group_id (some g) empty_patch)) ctx.now))

-- The group's canonical, if it is a member.
unfoldable pub canonical_of : Store → Group → Option FileRecord
unfolding group_members
canonical_of s g =
    opt_bind g.canonical_file_id
      (λ id. find (λ (m : FileRecord). m.id == id) (group_members s g.id))

abbrev pub is_lost : State → Bool
is_lost missing = true
is_lost State.gone = true
is_lost _ = false

abbrev pub join_group : StepCtx → FileRecord → ℕ → Option FileRecord → StepOutcome
join_group ctx rec g none = take_canonical ctx rec g
join_group ctx rec g (some c) =
    if is_lost c.state
    then take_canonical ctx rec g
    else if c.id == rec.id
    then apply (
        new_transition rec.id sized canonical
          (Transition.ready_at none (Transition.group_id (some g) empty_patch)) ctx.now)
    else apply (
        new_transition rec.id sized hashed
          (Transition.ready_at (some ctx.now) (Transition.group_id (some g) empty_patch)) ctx.now)

-- Only the first group is looked at.
abbrev pub place_in : StepCtx → FileRecord → Digest → List Group → Step
place_in ctx rec h [] = tim_ung_vien ctx rec h
place_in ctx rec h (g ∷ gs) = ok (join_group ctx rec g.id (canonical_of ctx.store g))

unfoldable pub xep_cho : StepCtx → FileRecord → Digest → Step
unfolding tim_ung_vien canonical_of groups_by_key
xep_cho ctx rec h = place_in ctx rec h (groups_by_key ctx.store rec.domain_id rec.size h)

abbrev first : List FileRecord → Option ℕ
first [] = none
first (m ∷ ms) = some m.id

abbrev is_deduped : FileRecord → Bool
is_deduped m = State.eq m.state deduped

unfoldable pub bau_lai_canonical : Store → ℕ → Option ℕ
unfolding group_members older sort_by
bau_lai_canonical s g = first (sort_by older (filter is_deduped (group_members s g)))
