-- ===== src/Base/HashMap/Agreed.antt =====
-- The operations keep the list of the keys and the map in agreement.
use mathlib.Core.Path.{◌≡◌, refl}
use mathlib.Core.Bool.{Bool, true, false}
use mathlib.Core.Option.{none}
use mathlib.Core.List.{List, [], ◌∷◌, ◌++◌}
use native.Mathlib.Omega.{arith}
use check_trung_video.Base.Tests.{if◌then◌else◌, is_some}
use check_trung_video.Base.HashMap.{
  HashMap, KeyTest, get, insert, remove, get-insert, get-remove, get-same,
}
use check_trung_video.Base.HashMap.Ordered.{
  contains, without, view, Agree, contains-push, push-NoDup, contains-without, without-NoDup,
  contains-same,
}
use check_trung_video.Base.HashMap.TakeOut.{
  left_keys, left_map, get-left_map, contains-left_keys, left_keys-NoDup,
}

pub empty-Agree {ℓ κ} : {K : Type ℓ} (V : Type κ) (e : KeyTest K) → Agree {V = V} e.same [] []
unfolding Agree get
empty-Agree V e = (tt, λ j. refl)

module _ {ℓ κ} {K : Type ℓ} {V : Type κ} (e : KeyTest K) where
  pub push-Agree :
      (k : K) (v : V) (ts : List K) (m : HashMap K V)
      → Agree e.same ts m
      → is_some (get e.same k m) ≡ false
      → Agree e.same (ts ++ (k ∷ [])) (insert e.same k v m)
  unfolding Agree
  push-Agree k v ts m (d, h) n = (
    push-NoDup e k ts d (ground (arith, h k)),
    λ j. ground (arith, h j, contains-push e k j ts, get-insert e k j v m),
  )

  pub update-Agree :
      (k : K) (v : V) (ts : List K) (m : HashMap K V)
      → Agree e.same ts m
      → is_some (get e.same k m) ≡ true
      → Agree e.same ts (insert e.same k v m)
  unfolding Agree
  update-Agree k v ts m (d, h) n =
      (d, λ j. ground (arith, h j, h k, contains-same e k j ts, get-insert e k j v m))

  pub without-Agree :
      (k : K) (ts : List K) (m : HashMap K V)
      → Agree e.same ts m
      → Agree e.same (without e.same k ts) (remove e.same k m)
  unfolding Agree
  without-Agree k ts m (d, h) = (
    without-NoDup e k ts d,
    λ j. ground (arith, h j, contains-without e k j ts, get-remove e k j m),
  )

  pub take_out-Agree :
      (stale : V → Bool) (ts : List K) (m : HashMap K V)
      → Agree e.same ts m
      → Agree e.same (left_keys e stale ts m) (left_map e stale ts m)
  unfolding Agree
  take_out-Agree stale ts m (d, h) = (
    left_keys-NoDup e stale ts m d,
    λ j. ground (arith, h j, get-left_map e stale j ts m, contains-left_keys e stale j ts m d),
  )

  -- The value of a key is found among the entries.
  pub get-view :
      (k : K) (ts : List K) (m : HashMap K V)
      → get e.same k (view e.same ts m) ≡ (if contains e.same k ts then get e.same k m else none)
  unfolding get view
  get-view k [] m = refl
  get-view k (t ∷ ts) m = ground (arith, get-view k ts m, get-same e t k m)

  pub Agree-get :
      (k : K) (ts : List K) (m : HashMap K V)
      → Agree e.same ts m
      → get e.same k (view e.same ts m) ≡ get e.same k m
  unfolding Agree
  Agree-get k ts m (d, h) = ground (arith, get-view k ts m, h k)
