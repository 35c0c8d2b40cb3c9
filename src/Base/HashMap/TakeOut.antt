-- ===== src/Base/HashMap/TakeOut.antt =====
-- What `take_out` leaves and what it takes, and that the list and the map stay in agreement.
use mathlib.Core.Path.{◌≡◌, refl}
use mathlib.Core.Bool.{Bool, not, ◌&&◌}
use mathlib.Core.Option.{none}
use mathlib.Core.List.{List, [], ◌∷◌, map}
use native.Mathlib.Omega.{arith}
use check_trung_video.Base.Tests.{if◌then◌else◌, is_some_and}
use check_trung_video.Base.Lists.{filter}
use check_trung_video.Base.HashMap.{HashMap, KeyTest, get, remove, get-remove, get-same}
use check_trung_video.Base.HashMap.Ordered.{
  contains, take_out, view, NoDup, view-remove, contains-same,
}

module _ {ℓ κ} {K : Type ℓ} {V : Type κ} (e : KeyTest K) (stale : V → Bool) where
  abbrev pub left_keys : List K → HashMap K V → List K
  left_keys ts m = (take_out e.same stale ts m).0

  abbrev pub taken : List K → HashMap K V → List V
  taken ts m = (take_out e.same stale ts m).1

  abbrev pub left_map : List K → HashMap K V → HashMap K V
  left_map ts m = (take_out e.same stale ts m).2

  pub get-left_map :
      (j : K) (ts : List K) (m : HashMap K V)
      → get e.same j (left_map ts m) ≡ (
          if contains e.same j ts && is_some_and stale (get e.same j m)
          then none
          else get e.same j m)
  unfolding take_out
  get-left_map j [] m = refl
  get-left_map j (t ∷ ts) m = ground (
    arith,
    get-left_map j ts m,
    get-left_map j ts (remove e.same t m),
    get-remove e t j m,
    get-same e t j m,
  )

  pub contains-left_keys :
      (j : K) (ts : List K) (m : HashMap K V)
      → NoDup e.same ts
      → contains e.same j (left_keys ts m)
        ≡ (contains e.same j ts && is_some_and (λ v. not (stale v)) (get e.same j m))
  unfolding take_out
  contains-left_keys j [] m d = refl
  contains-left_keys j (t ∷ ts) m (a, d) = ground (
    arith,
    contains-left_keys j ts m d,
    contains-left_keys j ts (remove e.same t m) d,
    get-remove e t j m,
    get-same e t j m,
    contains-same e t j ts,
  )

  pub left_keys-NoDup :
      (ts : List K) (m : HashMap K V) → NoDup e.same ts → NoDup e.same (left_keys ts m)
  unfolding take_out
  left_keys-NoDup [] m d = tt
  left_keys-NoDup (t ∷ ts) m (a, d) = ground (
    arith,
    left_keys-NoDup ts m d,
    left_keys-NoDup ts (remove e.same t m) d,
    contains-left_keys t ts m d,
    a,
  )

  -- The entries that are not stale stay, in their order.
  pub take_out-view :
      (ts : List K) (m : HashMap K V)
      → NoDup e.same ts
      → view e.same (left_keys ts m) (left_map ts m)
        ≡ filter (λ p. not (stale p.1)) (view e.same ts m)
  unfolding take_out view
  take_out-view [] m d = refl
  take_out-view (t ∷ ts) m (a, d) = ground (
    arith,
    take_out-view ts m d,
    take_out-view ts (remove e.same t m) d,
    get-left_map t ts m,
    view-remove e t ts m a,
    a,
  )

  -- The values of the stale entries go, in their order.
  pub taken-view :
      (ts : List K) (m : HashMap K V)
      → NoDup e.same ts
      → taken ts m ≡ map (λ p. p.1) (filter (λ p. stale p.1) (view e.same ts m))
  unfolding take_out view
  taken-view [] m d = refl
  taken-view (t ∷ ts) m (a, d) =
      ground
        (arith, taken-view ts m d, taken-view ts (remove e.same t m) d, view-remove e t ts m a, a)
