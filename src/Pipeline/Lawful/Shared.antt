-- ===== src/Pipeline/Lawful/Shared.antt =====
-- When a row counts as a proved duplicate: crates/core/src/pipeline/verify.rs.
use check_trung_video.Base.{
  ℕ, is_none, ltb, ◌==◌, String, Bool, true, false, not, ◌&&◌, Option, none, some, Result, ok, err,
  ◌≡◌, subst, refl, arith, sym, ap, ◌∙◌, find, find-some, filter, filter-In, opt_eq, opt_bind,
  ==_iff, if◌then◌else◌, inl, inr, ◌⊎◌,
}
use check_trung_video.Base.BTreeMap
use check_trung_video.Memory.Lookup.{group_get, group_members}
use check_trung_video.Model.State.{State, settling, sized, hashed}
use check_trung_video.Model.Records.{
  FileRecord, Digest, Group as GroupRow, has_special_mode, fingerprint_eq, identity_fingerprint,
  row_fingerprint, key_eq,
}
use check_trung_video.Model.Transition.{Transition, DedupEvent}
use check_trung_video.StateTable.{is_valid}
use check_trung_video.Pipeline.{step, step_in}
use check_trung_video.Pipeline.Ctx.{
  FsError, not_found, other, OpenedFile, DedupeError, DedupeOutcome, same, differs, StepCtx,
  StepOutcome, apply, defer, noop, Step, hen_khung_nang,
}
use check_trung_video.Pipeline.Errno.{ChinhSach, dung, thu_lai_ngay}
use check_trung_video.Pipeline.Settle.{settle_buoc}
use check_trung_video.Pipeline.Sized.{sized_buoc}
use check_trung_video.Pipeline.Verify
use check_trung_video.Pipeline.Verify.{verify_buoc}
use check_trung_video.Pipeline.Verify.Outcome
use check_trung_video.Pipeline.Lawful.{allowed, IsOwnStep}
use check_trung_video.Pipeline.Lawful.OfStep.{step-IsOwnStep}
use check_trung_video.Pipeline.Lawful.Compared.{
  says_same, open_row, IsCanonicalOf, Compared, known-IsUnchanged, links_le, same_size, member_of,
}

module _ (ctx : StepCtx) (rec : FileRecord) where
  -- A transition to such a state rests on a comparison, and is to `deduped` only if the deduper
  -- shares the extents.
  abbrev IsProved : Transition → Type 0
  IsProved t = says_same t.to ≡ true → Compared ctx rec × (t.to ≡ Outcome.ket_thuc ctx)

  abbrev IsProvedOutcome : StepOutcome → Type 0
  IsProvedOutcome (apply t) = IsProved t
  IsProvedOutcome _ = Unit

  abbrev IsProvedStep : Step → Type 0
  IsProvedStep (ok o) = IsProvedOutcome o
  IsProvedStep (err e) = Unit

  if-IsProvedStep :
      (b : Bool) (x y : Step) → IsProvedStep x → IsProvedStep y → IsProvedStep (if b then x else y)
  if-IsProvedStep true x y p q = p
  if-IsProvedStep false x y p q = q

  if-IsProvedOutcome :
      (b : Bool) (x y : StepOutcome)
      → IsProvedOutcome x
      → (b ≡ false → IsProvedOutcome y)
      → IsProvedOutcome (if b then x else y)
  if-IsProvedOutcome true x y p q = p
  if-IsProvedOutcome false x y p q = q refl

  next_group-proved :
      (h : Digest) (ev : DedupEvent) (o : Option GroupRow)
      → IsProvedOutcome (Outcome.next_group ctx rec h ev o)
  next_group-proved h ev none = λ e. cc e
  next_group-proved h ev (some g) = λ e. cc e

  by_policy-proved :
      (cs : ChinhSach) (n : ℕ) (text : String) (ev : DedupEvent)
      → IsProvedOutcome (Outcome.by_policy cs ctx rec n text ev)
  by_policy-proved dung n text ev = tt
  by_policy-proved thu_lai_ngay n text ev = tt
  by_policy-proved _ n text ev = λ e. cc e

  module _ (c : FileRecord) (g : ℕ) (a b : OpenedFile) where
    settle_answer-proved :
        (r : Result DedupeError DedupeOutcome)
        → ((n : ℕ) → r ≡ ok (same n) → Compared ctx rec)
        → IsProvedOutcome (Verify.settle_answer ctx rec c g b.identity r)
    unfolding Outcome.giong_nhau Outcome.khac_nhau Outcome.xu_ly_loi
    settle_answer-proved (ok (same n)) k = λ e. (k n refl, refl)
    settle_answer-proved (ok (differs n)) k = next_group-proved _ _ _
    settle_answer-proved (err e) k = by_policy-proved _ _ _ _

    compare_opened-proved :
        IsCanonicalOf ctx rec c
        → ctx.fs.open_file c.loc ≡ ok a
        → open_row ctx rec ≡ ok b
        → IsProvedOutcome (Verify.compare_opened ctx rec c g a b)
    unfolding Verify.compare_opened
    compare_opened-proved co oa ob =
        if-IsProvedOutcome
          (not (fingerprint_eq (identity_fingerprint b.identity) (row_fingerprint rec))) _ _
          (λ e. cc e)
          (λ kb.
            if-IsProvedOutcome
              (not (fingerprint_eq (identity_fingerprint a.identity) (row_fingerprint c))) _ _
              (λ e. cc e)
              (λ ka.
                if-IsProvedOutcome (ltb 1 b.identity.nlink) _ _ (λ e. cc e)
                  (λ l.
                    if-IsProvedOutcome (has_special_mode b.identity) _ _ (λ e. cc e)
                      (λ m.
                        if-IsProvedOutcome (key_eq a.identity.key b.identity.key) _ _ (λ e. cc e)
                          (λ w.
                            if-IsProvedOutcome (not (a.identity.size == b.identity.size)) _ _
                              (λ e. cc e)
                              (λ z.
                                settle_answer-proved (ctx.deduper.dedupe a b b.identity.size)
                                  (λ n r. record {
                                    c = c;
                                    canonical_of = co;
                                    a = a;
                                    b = b;
                                    bytes_shared = n;
                                    opened_a = oa;
                                    opened_b = ob;
                                    known_a = known-IsUnchanged a c ka;
                                    known_b = known-IsUnchanged b rec kb;
                                    one_link = links_le _ l;
                                    plain_mode = m;
                                    two_files = w;
                                    one_size = same_size _ _ z;
                                    answer = r;
                                  })))))))

  open_dst-proved :
      (c : FileRecord) (g : ℕ) (a : OpenedFile) (r : Result FsError OpenedFile)
      → IsCanonicalOf ctx rec c
      → ctx.fs.open_file c.loc ≡ ok a
      → open_row ctx rec ≡ r
      → IsProvedStep (Verify.open_dst ctx rec c g a r)
  open_dst-proved c g a (err not_found) co oa ob = λ e. cc e
  open_dst-proved c g a (err (other k x)) co oa ob = tt
  open_dst-proved c g a (ok b) co oa ob = compare_opened-proved c g a b co oa ob

  open_src-proved :
      (c : FileRecord) (g : ℕ) (r : Result FsError OpenedFile)
      → IsCanonicalOf ctx rec c
      → ctx.fs.open_file c.loc ≡ r
      → IsProvedStep (Verify.open_src ctx rec c g r)
  open_src-proved c g (err not_found) co oa = λ e. cc e
  open_src-proved c g (err (other k x)) co oa = tt
  open_src-proved c g (ok a) co oa = open_dst-proved c g a (open_row ctx rec) co oa refl

  with_canonical-proved :
      (g : ℕ) (o : Option FileRecord)
      → ((c : FileRecord) → o ≡ some c → IsCanonicalOf ctx rec c)
      → IsProvedStep (Verify.with_canonical ctx rec g o)
  unfolding Verify.xac_minh
  with_canonical-proved g none k = λ e. cc e
  with_canonical-proved g (some c) k =
      if-IsProvedStep (c.id == rec.id) _ _ (λ e. cc e)
        (if-IsProvedStep (ltb 0 ctx.verify_max_size && ltb ctx.verify_max_size rec.size) _ _
          (λ e. cc e) (open_src-proved c g (ctx.fs.open_file c.loc) (k c refl) refl))

  canonical-found :
      (g : ℕ) (group : GroupRow) (o : Option ℕ) (c : FileRecord)
      → rec.group_id ≡ some g
      → BTreeMap.get g ctx.store.groups ≡ some group
      → group.canonical_file_id ≡ o
      → opt_bind o (λ id. find (λ (m : FileRecord). m.id == id) (group_members ctx.store g))
        ≡ some c
      → IsCanonicalOf ctx rec c
  unfolding group_members
  canonical-found g group none c i s n e = cc e
  canonical-found g group (some id) c i s n e =
      let members = BTreeMap.values ctx.store.files in
      let is_member : FileRecord → Bool = λ r. opt_eq ◌==◌ r.group_id (some g) in
      let (q, m) =
        find-some (λ (m : FileRecord). m.id == id) (filter is_member members) {a = c} e in
      let (p, v) = filter-In is_member members m in
      record {
        g = g;
        group = group;
        in_group = i;
        group_stored = s;
        named = n ∙ ap some (sym ((==_iff c.id id).0 q));
        member = member_of c.group_id g p;
        stored = v;
      }

  in_found_group-proved :
      (g : ℕ) (o : Option GroupRow)
      → rec.group_id ≡ some g
      → BTreeMap.get g ctx.store.groups ≡ o
      → IsProvedStep (Verify.in_found_group ctx rec g o)
  in_found_group-proved g none i s = λ e. cc e
  in_found_group-proved g (some group) i s =
      with_canonical-proved g _ (λ c. canonical-found g group group.canonical_file_id c i s refl)

  wait-proved :
      (b : Bool) (t : Transition) (o : StepOutcome)
      → IsProved t
      → IsProvedOutcome o
      → IsProvedOutcome (if b then apply t else o)
  wait-proved true t o p q = p
  wait-proved false t o p q = q

  in_group-proved : (o : Option ℕ) → rec.group_id ≡ o → IsProvedStep (Verify.in_group ctx rec o)
  unfolding Outcome.cho_khung_gio hen_khung_nang group_get
  in_group-proved none i = λ e. cc e
  in_group-proved (some g) i =
      if-IsProvedStep (not ctx.allow_heavy) _ _
        (wait-proved (is_none rec.heavy_wait_since) _ _ (λ e. cc e) tt)
        (in_found_group-proved g _ i refl)

  verify-proved : IsProvedStep (verify_buoc ctx rec)
  unfolding verify_buoc
  verify-proved = in_group-proved rec.group_id refl

-- Before `hashed` no allowed change says that the content is the same.
says_same-early :
    (from to : State)
    → (from ≡ settling) ⊎ (from ≡ sized)
    → allowed from to ≡ true
    → says_same to ≡ false
unfolding allowed is_valid
says_same-early from to o h = ground arith

early-proved :
    (ctx : StepCtx) (rec : FileRecord) (s : Step)
    → (rec.state ≡ settling) ⊎ (rec.state ≡ sized)
    → IsOwnStep rec.id rec.state s
    → IsProvedStep ctx rec s
early-proved ctx rec (err e) o h = tt
early-proved ctx rec (ok (apply t)) o h = λ e. cc (e, says_same-early rec.state t.to o h.2)
early-proved ctx rec (ok (defer until reason)) o h = tt
early-proved ctx rec (ok noop) o h = tt

step_in-proved :
    (st : State) (ctx : StepCtx) (rec : FileRecord)
    → rec.state ≡ st
    → IsOwnStep rec.id rec.state (step_in st ctx rec)
    → IsProvedStep ctx rec (step_in st ctx rec)
step_in-proved settling ctx rec e h = early-proved ctx rec (settle_buoc ctx rec) (inl e) h
step_in-proved sized ctx rec e h = early-proved ctx rec (sized_buoc ctx rec) (inr e) h
step_in-proved hashed ctx rec e h = verify-proved ctx rec
step_in-proved _ ctx rec e h = tt

step-IsProvedStep : (ctx : StepCtx) (rec : FileRecord) → IsProvedStep ctx rec (step ctx rec)
unfolding step
step-IsProvedStep ctx rec =
    step_in-proved rec.state ctx rec refl (unfold step in step-IsOwnStep ctx rec)

-- Whenever a step answers a transition to `verified` or `deduped`, the row is in a group that is in
-- the store, and the store has a row in that group that the group names as its canonical; the files
-- of both rows were opened, have the sizes and the times that the store has for their rows, are two
-- inodes of one size, the row's file has one link and no special mode, and the deduper answered that
-- they are the same; and the state is `deduped` exactly when the deduper shares extents.
pub step-Compared :
    (ctx : StepCtx) (rec : FileRecord) (t : Transition)
    → step ctx rec ≡ ok (apply t)
    → says_same t.to ≡ true
    → Compared ctx rec × (t.to ≡ Outcome.ket_thuc ctx)
step-Compared ctx rec t h = subst (IsProvedStep ctx rec) h (step-IsProvedStep ctx rec)
