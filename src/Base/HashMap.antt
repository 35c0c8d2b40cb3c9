-- ===== src/Base/HashMap.antt =====
-- `HashMap<K, V>` as the list of its entries, for a test `same` of keys.
pub mod Ordered
pub mod TakeOut
pub mod Agreed
use Prim.Native.Nat.{ℕ, suc}
use mathlib.Core.Path.{◌≡◌, refl, ap}
use mathlib.Core.Logic.{inl, inr}
use mathlib.Core.Bool.{Bool, true, false}
use mathlib.Core.Option.{Option, none, some}
use mathlib.Core.List.{List, [], ◌∷◌}
use native.Mathlib.Omega.{arith}
use check_trung_video.Base.Tests.{if◌then◌else◌, Bool-cases, is_some, opt_map}

abbrev pub HashMap {ℓ κ} : Type ℓ → Type κ → Type (ℓ ⊔ κ)
HashMap K V = List (K × V)

module _ {ℓ κ} {K : Type ℓ} {V : Type κ} (same : K → K → Bool) where
  unfoldable pub get : K → HashMap K V → Option V
  get k [] = none
  get k ((i, v) ∷ m) = if same i k then some v else get k m

  unfoldable pub insert : K → V → HashMap K V → HashMap K V
  insert k v [] = (k, v) ∷ []
  insert k v ((i, w) ∷ m) = if same i k then (k, v) ∷ m else (i, w) ∷ insert k v m

  unfoldable pub remove : K → HashMap K V → HashMap K V
  remove k [] = []
  remove k ((i, w) ∷ m) = let rest = remove k m in if same i k then rest else (i, w) ∷ rest

  -- `m.retain(|_, v| p(v))`
  unfoldable pub retain : (V → Bool) → HashMap K V → HashMap K V
  retain p [] = []
  retain p ((i, w) ∷ m) = let rest = retain p m in if p w then (i, w) ∷ rest else rest

-- A test of keys that decides their equality.
pub record KeyTest {ℓ} (K : Type ℓ) : Type ℓ where
  pub same : K → K → Bool
  pub same_refl : (a : K) → same a a ≡ true
  pub same→≡ : (a b : K) → same a b ≡ true → a ≡ b

module _ {ℓ} {K : Type ℓ} (e : KeyTest K) where
  pub same_left : (i k j : K) → e.same k j ≡ true → e.same i k ≡ e.same i j
  same_left i k j h = ap (e.same i) (e.same→≡ k j h)

  pub same_right : (i k j : K) → e.same i k ≡ true → e.same i j ≡ e.same k j
  same_right i k j h = ap (λ x. e.same x j) (e.same→≡ i k h)

  pub same_sym : (a b : K) → e.same a b ≡ e.same b a
  same_sym a b =
      ground
        (arith, same_left a a b, same_right a b a, same_right b a b, e.same_refl a, e.same_refl b)

-- The laws of a map with such a test.
module _ {ℓ κ} {K : Type ℓ} {V : Type κ} (e : KeyTest K) where
  pub get-insert :
      (k j : K) (v : V) (m : HashMap K V)
      → get e.same j (insert e.same k v m) ≡ (if e.same k j then some v else get e.same j m)
  unfolding get insert
  get-insert k j v [] = refl
  get-insert k j v ((i, w) ∷ m) =
      ground (arith, get-insert k j v m, same_left e i k j, same_right e i k j)

  pub get-remove :
      (k j : K) (m : HashMap K V)
      → get e.same j (remove e.same k m) ≡ (if e.same k j then none else get e.same j m)
  unfolding get remove
  get-remove k j [] = ground arith
  get-remove k j ((i, w) ∷ m) =
      ground (arith, get-remove k j m, same_left e i k j, same_right e i k j)

  -- Equal keys have equal values.
  pub get-same : (k j : K) (m : HashMap K V) → e.same k j ≡ true → get e.same k m ≡ get e.same j m
  get-same k j m h = ap (λ x. get e.same x m) (e.same→≡ k j h)
