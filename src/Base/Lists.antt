-- ===== src/Base/Lists.antt =====
-- Lists measured by native numbers, with Boolean tests.
use Prim.Native.Nat.{ℕ, zero, suc}
use mathlib.Core.Path.{◌≡◌, ap, subst}
use mathlib.Core.Logic.{inl, inr}
use mathlib.Core.Bool.{Bool, true, false, ◌||◌}
use mathlib.Core.Option.{Option, none, some}
use mathlib.Core.List.{List, [], ◌∷◌}
use native.Mathlib.Omega.{arith}
use check_trung_video.Base.Tests.{if◌then◌else◌, Bool-cases, unwrap_or}

module _ {ℓ} {A : Type ℓ} where
  abbrev pub length : List A → ℕ
  length [] = 0
  length (x ∷ xs) = suc (length xs)

  abbrev pub take : ℕ → List A → List A
  take zero xs = []
  take (suc n) [] = []
  take (suc n) (x ∷ xs) = x ∷ take n xs

  abbrev pub any : (A → Bool) → List A → Bool
  any p [] = false
  any p (x ∷ xs) = p x || any p xs

  abbrev pub find : (A → Bool) → List A → Option A
  find p [] = none
  find p (x ∷ xs) = if p x then some x else find p xs

  abbrev pub filter : (A → Bool) → List A → List A
  filter p [] = []
  filter p (x ∷ xs) = let rest = filter p xs in if p x then x ∷ rest else rest

  -- The first of the smallest elements.
  unfoldable pub min_by : (A → A → Bool) → List A → Option A
  min_by less [] = none
  min_by less (x ∷ xs) = elim (min_by less xs) [
    | none ↦ some x
    | some y ↦ if less y x then some y else some x
  ]

  unfoldable pub insert_sorted : (A → A → Bool) → A → List A → List A
  insert_sorted less x [] = x ∷ []
  insert_sorted less x (y ∷ ys) =
      let rest = y ∷ insert_sorted less x ys in if less y x then rest else x ∷ y ∷ ys

  -- A stable sort.
  unfoldable pub sort_by : (A → A → Bool) → List A → List A
  unfolding insert_sorted
  sort_by less [] = []
  sort_by less (x ∷ xs) = insert_sorted less x (sort_by less xs)

  -- Where an element stands, as a type that can be matched.
  pub data In (a : A) : List A → Type ℓ where
    here : {xs : List A} → In a (a ∷ xs)
    there : {x : A} {xs : List A} → In a xs → In a (x ∷ xs)

  -- A predicate of every element, which computes to a tuple.
  abbrev pub All {κ} : (A → Type κ) → List A → Type κ
  All P [] = Unit
  All P (x ∷ xs) = P x × All P xs

pub All-at {ℓ κ} : {A : Type ℓ} (P : A → Type κ) (xs : List A) {a : A} → All P xs → In a xs → P a
All-at P [] hs m = elim m [ ]
All-at P (x ∷ xs) (h, hs) here = h
All-at P (x ∷ xs) (h, hs) (there m) = All-at P xs hs m

module _ {ℓ} {A : Type ℓ} (p : A → Bool) where
  find-head :
      (x : A) (xs : List A) {a : A} → p x ≡ true → some x ≡ some a → (p a ≡ true) × In a (x ∷ xs)
  find-head x xs t e =
      let q = ap (unwrap_or x) e in (subst (λ y. p y ≡ true) q t, subst (λ y. In y (x ∷ xs)) q here)

  -- What `find` returns passes the test and stands in the list.
  pub find-some : (xs : List A) {a : A} → find p xs ≡ some a → (p a ≡ true) × In a xs
  find-some [] h = cc h
  find-some (x ∷ xs) {a} h = elim (Bool-cases (p x)) [
    | inl t ↦ find-head x xs t (rw t at h)
    | inr f ↦ let r = find-some xs {a = a} (rw f at h) in (r.0, there r.1)
  ]

  pub find-none : (xs : List A) {a : A} → find p xs ≡ none → In a xs → p a ≡ false
  find-none [] h m = elim m [ ]
  find-none (x ∷ xs) h here = ground arith
  find-none (x ∷ xs) {a} h (there m) = elim (Bool-cases (p x)) [
    | inl t ↦ cc (rw t at h)
    | inr f ↦ find-none xs {a = a} (rw f at h) m
  ]

  filter-kept :
      (x : A) (xs : List A) {a : A}
      → (In a (filter p xs) → (p a ≡ true) × In a xs)
      → p x ≡ true
      → In a (x ∷ filter p xs)
      → (p a ≡ true) × In a (x ∷ xs)
  filter-kept x xs ih t here = (t, here)
  filter-kept x xs ih t (there n) = let r = ih n in (r.0, there r.1)

  pub filter-In : (xs : List A) {a : A} → In a (filter p xs) → (p a ≡ true) × In a xs
  filter-In [] m = elim m [ ]
  filter-In (x ∷ xs) {a} m = elim (Bool-cases (p x)) [
    | inl t ↦ filter-kept x xs (λ n. filter-In xs {a = a} n) t (rw t at m)
    | inr f ↦ let r = filter-In xs {a = a} (rw f at m) in (r.0, there r.1)
  ]

  pub In-filter : (xs : List A) {a : A} → p a ≡ true → In a xs → In a (filter p xs)
  In-filter [] t m = elim m [ ]
  In-filter (x ∷ xs) t here = rw t here
  In-filter (x ∷ xs) {a} t (there m) = elim (Bool-cases (p x)) [
    | inl e ↦ rw e (there (In-filter xs {a = a} t m))
    | inr e ↦ rw e (In-filter xs {a = a} t m)
  ]
