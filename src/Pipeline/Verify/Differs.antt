-- ===== src/Pipeline/Verify/Differs.antt =====
-- The row after an answer of the deduper that is not `same`: crates/core/src/pipeline/verify.rs.
use check_trung_video.Base.{
  ℕ, ◌<◌, ◌≤◌, ◌==◌, Bool, List, [], ◌∷◌, ◌&&◌, Bool-cases, ==-refl, unwrap_or, ap, ◌∙◌, false, ltb,
  true, false, some, find, find-some, find-none, filter-In, In-filter, ◌≡◌, refl, arith,
  Option-cases, inl, inr, filter, sym, subst, ◌⊎◌,
}
use check_trung_video.Base.BTreeMap
use check_trung_video.Base.BTreeMap.{BTreeMap, In-values-get, get-In-values}
use check_trung_video.Model.State.{hashed, canonical}
use check_trung_video.Model.Records.{Digest, FileRecord, Group}
use check_trung_video.Model.Transition.{Transition, create}
use check_trung_video.Memory.Inv.{Inv}
use check_trung_video.Memory.Lookup.{groups_by_key, has_group_key}
use check_trung_video.Pipeline.Ctx.{StepCtx, apply}
use check_trung_video.Pipeline.Verify.Outcome.{khac_nhau, is_after}

ltb-less : (a b : ℕ) → ltb a b ≡ true → a < b
ltb-less a b h = ground arith

-- The row stays `hashed`, with that group of the same key whose id is the next one above `g`.
pub IsNext : StepCtx → FileRecord → ℕ → Digest → Transition → Type 0
IsNext ctx rec g h t =
    (t.to ≡ hashed)
    × ((x : Group) × (t.patch.group_id ≡ some (some x.id))
        × (g < x.id)
        × (has_group_key rec.domain_id rec.size h x ≡ true)
        × (BTreeMap.get x.id ctx.store.groups ≡ some x)
        × ((y : Group)
            → BTreeMap.get y.id ctx.store.groups ≡ some y
            → has_group_key rec.domain_id rec.size h y ≡ true
            → g < y.id
            → x.id ≤ y.id))

-- The row becomes the canonical of a new group, and no group of the same key has an id above `g`.
pub IsOwnGroup : StepCtx → FileRecord → ℕ → Digest → Transition → Type 0
IsOwnGroup ctx rec g h t =
    (t.to ≡ canonical)
    × (t.group ≡ some (create rec.id h 1))
    × ((x : Group)
        → BTreeMap.get x.id ctx.store.groups ≡ some x
        → has_group_key rec.domain_id rec.size h x ≡ true
        → ltb g x.id ≡ false)

find-taken :
    (p : Group → Bool) (g : ℕ) (v : Group) (xs : List Group)
    → (p v && is_after g v) ≡ true
    → find (is_after g) (filter p (v ∷ xs)) ≡ some v
find-taken p g v xs c = ground arith

find-passed :
    (p : Group → Bool) (g : ℕ) (v : Group) (xs : List Group)
    → (p v && is_after g v) ≡ false
    → find (is_after g) (filter p (v ∷ xs)) ≡ find (is_after g) (filter p xs)
find-passed p g v xs c = ground arith

passed :
    (p : Group → Bool) (g : ℕ) (v : Group) → p v ≡ true → g < v.id → (p v && is_after g v) ≡ true
passed p g v t l = ground arith

-- The key of the first entry is the least.
get-least :
    (k : ℕ) (v : Group) (m : BTreeMap Group) {w : Group}
    → BTreeMap.Above k m
    → (j : ℕ) → BTreeMap.get j ((k, v) ∷ m) ≡ some w
    → k ≤ j
unfolding BTreeMap.get
get-least k v m a j q = ground (arith, BTreeMap.get-Above k j m)

get-tail :
    (k : ℕ) (v : Group) (m : BTreeMap Group)
    → BTreeMap.Above k m
    → (j : ℕ) {w : Group} → BTreeMap.get j m ≡ some w
    → BTreeMap.get j ((k, v) ∷ m) ≡ some w
unfolding BTreeMap.get
get-tail k v m a j q = ground (arith, BTreeMap.get-Above k j m)

-- In a sorted map of groups that stand at their ids, the first one after `g` has the least id.
find-least :
    (p : Group → Bool) (g : ℕ) (m : BTreeMap Group) {x : Group}
    → BTreeMap.IsSorted m
    → ((k : ℕ) (y : Group) → BTreeMap.get k m ≡ some y → y.id ≡ k)
    → find (is_after g) (filter p (BTreeMap.values m)) ≡ some x
    → (y : Group) → BTreeMap.get y.id m ≡ some y
    → p y ≡ true
    → g < y.id
    → x.id ≤ y.id
unfolding BTreeMap.values BTreeMap.get
find-least p g [] s i e y q t l = cc q
find-least p g ((k, v) ∷ m) {x} (a, s) i e y q t l = elim (Bool-cases (p v && is_after g v)) [
  | inl c ↦
      subst (λ (z : Group). z.id ≤ y.id) (ap (unwrap_or v) (sym (find-taken p g v _ c) ∙ e))
        (subst (λ n. n ≤ y.id) (sym (i k v (rw (==-refl k) refl))) (get-least k v m a y.id q))
  | inr c ↦ elim (Bool-cases (k == y.id)) [
    | inl h ↦ cc (
      c,
      passed p g v (ap p (ap (unwrap_or v) (rw h at q)) ∙ t)
          (subst (λ (z : Group). g < z.id) (sym (ap (unwrap_or v) (rw h at q))) l),
    )
    | inr h ↦
        find-least p g m {x = x} s (λ j w r. i j w (get-tail k v m a j {w = w} r))
          (sym (find-passed p g v _ c) ∙ e) y (rw h at q) t l
  ]
]

-- After the answer that the row differs from the canonical of the group `g`, the row stays `hashed`
-- with the group of the same key whose id is the next above `g`; and if there is none above `g` it
-- becomes the canonical of a new group. In either case the transition is of that row.
pub khac_nhau-IsNext :
    (ctx : StepCtx) (rec c : FileRecord) (g at_offset : ℕ) (h : Digest)
    → Inv ctx.store
    → (t : Transition) × (khac_nhau ctx rec c g at_offset h ≡ apply t)
      × (t.id ≡ rec.id)
      × (IsNext ctx rec g h t ⊎ IsOwnGroup ctx rec g h t)
unfolding khac_nhau groups_by_key IsNext IsOwnGroup
khac_nhau-IsNext ctx rec c g at_offset h inv =
    let all = BTreeMap.values ctx.store.groups in
    let key = has_group_key rec.domain_id rec.size h in
    elim (Option-cases (find (is_after g) (filter key all))) [
      | inl e ↦ rw e (
        _,
        refl,
        refl,
        inr (
          refl,
          refl,
          λ x q k.
              find-none (is_after g) (filter key all) {a = x} e
                (In-filter key all k (get-In-values ctx.store.groups x.id q)),
        ),
      )
      | inr (x, e) ↦
          let f = find-some (is_after g) (filter key all) {a = x} e in
          let m = filter-In key all f.1 in
          let w = In-values-get ctx.store.groups inv.groups_sorted m.1 in
          rw e (
            _,
            refl,
            refl,
            inl (
              refl,
              (
                x,
                refl,
                ltb-less g x.id f.0,
                m.0,
                subst (λ k. BTreeMap.get k ctx.store.groups ≡ some x) (sym (inv.group_id w.0 x w.1))
                    w.1,
                find-least key g ctx.store.groups inv.groups_sorted inv.group_id e,
              ),
            ),
          )
    ]
