-- ===== src/Base/HashMap/Ordered.antt =====
-- A map beside the list of its keys in the order of their arrival: what the list and the map say
-- together, and the loop that takes entries out of both.
use mathlib.Core.Path.{◌≡◌, refl, ap, ◌∙◌}
use mathlib.Core.Bool.{Bool, true, false, not, ◌||◌}
use mathlib.Core.Option.{none, some}
use mathlib.Core.List.{List, [], ◌∷◌, ◌++◌}
use native.Mathlib.Omega.{arith}
use check_trung_video.Base.Tests.{if◌then◌else◌, is_some}
use check_trung_video.Base.Lists.{any, filter}
use check_trung_video.Base.HashMap.{
  HashMap, KeyTest, get, insert, remove, same_sym, same_left, same_right, get-insert, get-remove,
  get-same,
}

module _ {ℓ} {K : Type ℓ} (same : K → K → Bool) where
  abbrev pub contains : K → List K → Bool
  contains k ts = any (λ t. same t k) ts

  -- `ts.retain(|t| *t != k)`
  abbrev pub without : K → List K → List K
  without k ts = filter (λ t. not (same t k)) ts

  abbrev pub NoDup : List K → Type 0
  NoDup [] = Unit
  NoDup (t ∷ ts) = (contains t ts ≡ false) × NoDup ts

module _ {ℓ κ} {K : Type ℓ} {V : Type κ} (same : K → K → Bool) where
  -- Takes the entries that are stale out of the map, in the order of the keys: the keys that stay,
  -- the values that go, and the map left. A key that is not in the map is dropped.
  unfoldable pub take_out : (V → Bool) → List K → HashMap K V → List K × List V × HashMap K V
  take_out stale [] m = ([], [], m)
  take_out stale (t ∷ ts) m = elim (get same t m) [
    | none ↦ take_out stale ts m
    | some v ↦ elim (stale v) [
      | true ↦ let (giu, ra, m') = take_out stale ts (remove same t m) in (giu, v ∷ ra, m')
      | false ↦ let (giu, ra, m') = take_out stale ts m in (t ∷ giu, ra, m')
    ]
  ]

  -- The entries in the order of the keys.
  unfoldable pub view : List K → HashMap K V → List (K × V)
  view [] m = []
  view (t ∷ ts) m =
      let rest = view ts m in elim (get same t m) [ none ↦ rest | some v ↦ (t, v) ∷ rest ]

  -- The list has each key of the map once, and no other.
  unfoldable pub Agree : List K → HashMap K V → Type ℓ
  Agree ts m = NoDup same ts × ((k : K) → is_some (get same k m) ≡ contains same k ts)

  abbrev pub replace : K → V → List (K × V) → List (K × V)
  replace k v [] = []
  replace k v ((i, w) ∷ ps) = (i, if same i k then v else w) ∷ replace k v ps

  abbrev pub drop_key : K → List (K × V) → List (K × V)
  drop_key k ps = filter (λ p. not (same p.0 k)) ps

module _ {ℓ} {K : Type ℓ} (e : KeyTest K) where
  pub contains-same :
      (k j : K) (ts : List K) → e.same k j ≡ true → contains e.same k ts ≡ contains e.same j ts
  contains-same k j ts h = ap (λ x. contains e.same x ts) (e.same→≡ k j h)

  pub contains-without :
      (k j : K) (ts : List K)
      → contains e.same j (without e.same k ts)
        ≡ (if e.same k j then false else contains e.same j ts)
  contains-without k j [] = ground arith
  contains-without k j (t ∷ ts) =
      ground (arith, contains-without k j ts, same_right e t k j, same_left e t k j, same_sym e t k)

  pub without-NoDup : (k : K) (ts : List K) → NoDup e.same ts → NoDup e.same (without e.same k ts)
  without-NoDup k [] d = tt
  without-NoDup k (t ∷ ts) (a, d) = ground (arith, without-NoDup k ts d, contains-without k t ts, a)

  pub contains-push :
      (k j : K) (ts : List K)
      → contains e.same j (ts ++ (k ∷ [])) ≡ (e.same k j || contains e.same j ts)
  contains-push k j [] = refl
  contains-push k j (t ∷ ts) = ground (arith, contains-push k j ts)

  pub push-NoDup :
      (k : K) (ts : List K)
      → NoDup e.same ts
      → contains e.same k ts ≡ false
      → NoDup e.same (ts ++ (k ∷ []))
  push-NoDup k [] d n = (refl, tt)
  push-NoDup k (t ∷ ts) (a, d) n =
      ground (arith, push-NoDup k ts d, contains-push k t ts, same_sym e t k, a)

module _ {ℓ κ} {K : Type ℓ} {V : Type κ} (e : KeyTest K) where
  -- A new value of a key outside the list is not seen.
  pub view-insert_new :
      (k : K) (v : V) (ts : List K) (m : HashMap K V)
      → contains e.same k ts ≡ false
      → view e.same ts (insert e.same k v m) ≡ view e.same ts m
  unfolding view
  view-insert_new k v [] m h = refl
  view-insert_new k v (t ∷ ts) m h =
      ground (arith, view-insert_new k v ts m, get-insert e k t v m, same_sym e t k)

  pub view-insert_old :
      (k : K) (v : V) (ts : List K) (m : HashMap K V)
      → is_some (get e.same k m) ≡ true
      → view e.same ts (insert e.same k v m) ≡ replace e.same k v (view e.same ts m)
  unfolding view
  view-insert_old k v [] m h = refl
  view-insert_old k v (t ∷ ts) m h =
      ground
        (arith, view-insert_old k v ts m h, get-insert e k t v m, same_sym e t k, get-same e t k m)

  pub view-push :
      (k : K) {v : V} (ts : List K) (m : HashMap K V)
      → get e.same k m ≡ some v
      → view e.same (ts ++ (k ∷ [])) m ≡ view e.same ts m ++ ((k, v) ∷ [])
  unfolding view
  view-push k {v} [] m h = ground arith
  view-push k {v} (t ∷ ts) m h = ground (arith, view-push k {v = v} ts m h)

  pub view-without :
      (k : K) (ts : List K) (m : HashMap K V)
      → view e.same (without e.same k ts) (remove e.same k m) ≡ drop_key e.same k (view e.same ts m)
  unfolding view
  view-without k [] m = refl
  view-without k (t ∷ ts) m =
      ground (arith, view-without k ts m, get-remove e k t m, same_sym e t k)

  -- A key that the list does not have can be removed.
  pub view-remove :
      (k : K) (ts : List K) (m : HashMap K V)
      → contains e.same k ts ≡ false
      → view e.same ts (remove e.same k m) ≡ view e.same ts m
  unfolding view
  view-remove k [] m h = refl
  view-remove k (t ∷ ts) m h =
      ground (arith, view-remove k ts m, get-remove e k t m, same_sym e t k)

  -- An entry with a new key comes last.
  pub view-push_insert :
      (k : K) (v : V) (ts : List K) (m : HashMap K V)
      → contains e.same k ts ≡ false
      → view e.same (ts ++ (k ∷ [])) (insert e.same k v m) ≡ view e.same ts m ++ ((k, v) ∷ [])
  view-push_insert k v ts m h =
      view-push k {v = v} ts (insert e.same k v m)
        (ground (arith, get-insert e k k v m, e.same_refl k))
      ∙ ap (λ x. x ++ ((k, v) ∷ [])) (view-insert_new k v ts m h)
