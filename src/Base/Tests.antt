-- ===== src/Base/Tests.antt =====
-- Boolean tests on numbers and options, and the conditional.
use Prim.Native.Nat.{ℕ, compare, Ordering}
use mathlib.Core.Path.{◌≡◌, refl}
use mathlib.Core.Logic.{◌↔◌, ◌⊎◌, inl, inr}
use mathlib.Core.Bool.{Bool, true, false}
use mathlib.Core.Option.{Option, none, some}
use native.Mathlib.Omega.{arith}

abbrev pub ltb : ℕ → ℕ → Bool
ltb a b = elim (compare a b) [ Ordering.lt ↦ true | _ ↦ false ]

abbrev pub leb : ℕ → ℕ → Bool
leb a b = elim (compare a b) [ Ordering.gt ↦ false | _ ↦ true ]

infix 50 ◌==◌
abbrev pub ◌==◌ : ℕ → ℕ → Bool
a == b = elim (compare a b) [ Ordering.eq ↦ true | _ ↦ false ]

infix 1 if◌then◌else◌
abbrev pub if◌then◌else◌ {ℓ} : {A : Type ℓ} → Bool → A → A → A
if true then x else y = x
if false then x else y = y

pub ==_iff : (a b : ℕ) → ((a == b) ≡ true) ↔ (a ≡ b)
==_iff a b = ground arith

pub ==-refl : (a : ℕ) → (a == a) ≡ true
==-refl a = ground arith

-- To split on a computed value and keep the equation.
pub Bool-cases : (b : Bool) → (b ≡ true) ⊎ (b ≡ false)
Bool-cases true = inl refl
Bool-cases false = inr refl

pub Option-cases {ℓ} : {A : Type ℓ} (o : Option A) → (o ≡ none) ⊎ ((a : A) × (o ≡ some a))
Option-cases none = inl refl
Option-cases (some a) = inr (a, refl)

module _ {ℓ} {A : Type ℓ} where
  abbrev pub is_some : Option A → Bool
  is_some none = false
  is_some (some _) = true

  abbrev pub is_none : Option A → Bool
  is_none none = true
  is_none (some _) = false

  abbrev pub unwrap_or : A → Option A → A
  unwrap_or d none = d
  unwrap_or d (some a) = a

  -- `a.or(b)`
  abbrev pub or_option : Option A → Option A → Option A
  or_option none b = b
  or_option (some a) b = some a

  -- `is_some_and`
  abbrev pub is_some_and : (A → Bool) → Option A → Bool
  is_some_and p none = false
  is_some_and p (some a) = p a

  -- `is_none_or`
  abbrev pub is_none_or : (A → Bool) → Option A → Bool
  is_none_or p none = true
  is_none_or p (some a) = p a

  -- `==` of options, by that of the elements
  abbrev pub opt_eq : (A → A → Bool) → Option A → Option A → Bool
  opt_eq eq none none = true
  opt_eq eq (some a) (some b) = eq a b
  opt_eq eq _ _ = false

module _ {ℓ κ} {A : Type ℓ} {B : Type κ} where
  abbrev pub opt_map : (A → B) → Option A → Option B
  opt_map f none = none
  opt_map f (some a) = some (f a)

  abbrev pub opt_bind : Option A → (A → Option B) → Option B
  opt_bind none f = none
  opt_bind (some a) f = f a
