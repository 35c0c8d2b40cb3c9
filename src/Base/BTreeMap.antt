-- ===== src/Base/BTreeMap.antt =====
-- `BTreeMap<i64, V>` as the list of its entries in the order of the keys.
use check_trung_video.Base.Tests.{ltb, ◌==◌, if◌then◌else◌, Bool-cases, is_some, opt_map, unwrap_or}
use check_trung_video.Base.Lists.{In, here, there}
use Prim.Native.Nat.{ℕ, suc, ◌≤◌, ◌<◌}
use mathlib.Core.Path.{◌≡◌, refl, ap, subst}
use mathlib.Core.Logic.{inl, inr}
use mathlib.Core.Bool.{Bool, true, false}
use mathlib.Core.Option.{Option, none, some}
use mathlib.Core.List.{List, [], ◌∷◌}
use native.Mathlib.Omega.{arith}

abbrev pub BTreeMap {ℓ} : Type ℓ → Type ℓ
BTreeMap V = List (ℕ × V)

module _ {ℓ} {V : Type ℓ} where
  unfoldable pub get : ℕ → BTreeMap V → Option V
  get k [] = none
  get k ((i, v) ∷ m) = if i == k then some v else get k m

  abbrev pub contains_key : ℕ → BTreeMap V → Bool
  contains_key k m = is_some (get k m)

  unfoldable pub insert : ℕ → V → BTreeMap V → BTreeMap V
  insert k v [] = (k, v) ∷ []
  insert k v ((i, w) ∷ m) =
      if ltb k i then (k, v) ∷ (i, w) ∷ m else if i == k then (k, v) ∷ m else (i, w) ∷ insert k v m

  -- `if let Some(v) = m.get_mut(&k) { *v = f(v) }`
  unfoldable pub modify : ℕ → (V → V) → BTreeMap V → BTreeMap V
  modify k f [] = []
  modify k f ((i, v) ∷ m) = (i, if i == k then f v else v) ∷ modify k f m

  -- `for v in m.values_mut() { *v = f(v) }`
  unfoldable pub map_values : (V → V) → BTreeMap V → BTreeMap V
  map_values f [] = []
  map_values f ((i, v) ∷ m) = (i, f v) ∷ map_values f m

  -- `m.retain(|_, v| p(v))`
  unfoldable pub retain : (V → Bool) → BTreeMap V → BTreeMap V
  retain p [] = []
  retain p ((i, v) ∷ m) = let rest = retain p m in if p v then (i, v) ∷ rest else rest

  unfoldable pub values : BTreeMap V → List V
  values [] = []
  values ((i, v) ∷ m) = v ∷ values m

  -- The first entry whose value passes the test, as `values_mut().find(p)` meets it.
  unfoldable pub find_entry : (V → Bool) → BTreeMap V → Option (ℕ × V)
  find_entry p [] = none
  find_entry p ((i, v) ∷ m) = if p v then some (i, v) else find_entry p m

  -- `for v in m.values_mut() { if p(v) { *v = f(v); n += 1 } }`: the map and `n`
  unfoldable pub update_where : (V → Bool) → (V → V) → BTreeMap V → BTreeMap V
  unfolding map_values
  update_where p f m = map_values (λ v. if p v then f v else v) m

  unfoldable pub count_where : (V → Bool) → BTreeMap V → ℕ
  count_where p [] = 0
  count_where p ((i, v) ∷ m) = let n = count_where p m in if p v then suc n else n

  pub get-insert :
      (k j : ℕ) (v : V) (m : BTreeMap V)
      → get j (insert k v m) ≡ (if k == j then some v else get j m)
  unfolding get insert
  get-insert k j v [] = refl
  get-insert k j v ((i, w) ∷ m) = ground (arith, get-insert k j v m)

  pub get-modify :
      (k j : ℕ) (f : V → V) (m : BTreeMap V)
      → get j (modify k f m) ≡ (if k == j then opt_map f (get j m) else get j m)
  unfolding get modify
  get-modify k j f [] = ground arith
  get-modify k j f ((i, w) ∷ m) = ground (arith, get-modify k j f m)

  pub get-map_values :
      (j : ℕ) (f : V → V) (m : BTreeMap V) → get j (map_values f m) ≡ opt_map f (get j m)
  unfolding get map_values
  get-map_values j f [] = refl
  get-map_values j f ((i, w) ∷ m) = ground (arith, get-map_values j f m)

  -- Every key of the map is above `k`.
  abbrev pub Above : ℕ → BTreeMap V → Type 0
  Above k [] = Unit
  Above k ((i, v) ∷ m) = (k < i) × Above k m

  abbrev pub IsSorted : BTreeMap V → Type 0
  IsSorted [] = Unit
  IsSorted ((i, v) ∷ m) = Above i m × IsSorted m

  pub Above-trans : (j k : ℕ) (m : BTreeMap V) → j ≤ k → Above k m → Above j m
  Above-trans j k [] h a = tt
  Above-trans j k ((i, v) ∷ m) h (a, as') = (omega arith, Above-trans j k m h as')

  Above-insert : (j k : ℕ) (v : V) (m : BTreeMap V) → j < k → Above j m → Above j (insert k v m)
  unfolding insert
  Above-insert j k v [] h a = (h, tt)
  Above-insert j k v ((i, w) ∷ m) h (a, as') = let ih = Above-insert j k v m h as' in ground arith

  pub insert-IsSorted : (k : ℕ) (v : V) (m : BTreeMap V) → IsSorted m → IsSorted (insert k v m)
  unfolding insert
  insert-IsSorted k v [] h = (tt, tt)
  insert-IsSorted k v ((i, w) ∷ m) (a, h) =
      ground (arith, insert-IsSorted k v m h, Above-insert i k v m, Above-trans k i m)

  Above-modify : (j k : ℕ) (f : V → V) (m : BTreeMap V) → Above j m → Above j (modify k f m)
  unfolding modify
  Above-modify j k f [] a = tt
  Above-modify j k f ((i, w) ∷ m) (a, as') = (a, Above-modify j k f m as')

  pub modify-IsSorted : (k : ℕ) (f : V → V) (m : BTreeMap V) → IsSorted m → IsSorted (modify k f m)
  unfolding modify
  modify-IsSorted k f [] h = tt
  modify-IsSorted k f ((i, w) ∷ m) (a, h) = (Above-modify i k f m a, modify-IsSorted k f m h)

  Above-map_values : (j : ℕ) (f : V → V) (m : BTreeMap V) → Above j m → Above j (map_values f m)
  unfolding map_values
  Above-map_values j f [] a = tt
  Above-map_values j f ((i, w) ∷ m) (a, as') = (a, Above-map_values j f m as')

  pub map_values-IsSorted : (f : V → V) (m : BTreeMap V) → IsSorted m → IsSorted (map_values f m)
  unfolding map_values
  map_values-IsSorted f [] h = tt
  map_values-IsSorted f ((i, w) ∷ m) (a, h) = (Above-map_values i f m a, map_values-IsSorted f m h)

  Above-retain : (j : ℕ) (p : V → Bool) (m : BTreeMap V) → Above j m → Above j (retain p m)
  unfolding retain
  Above-retain j p [] a = tt
  Above-retain j p ((i, w) ∷ m) (a, as') = let ih = Above-retain j p m as' in ground arith

  pub retain-IsSorted : (p : V → Bool) (m : BTreeMap V) → IsSorted m → IsSorted (retain p m)
  unfolding retain
  retain-IsSorted p [] h = tt
  retain-IsSorted p ((i, w) ∷ m) (a, h) =
      ground (arith, retain-IsSorted p m h, Above-retain i p m a)

  -- A key below all keys is absent.
  pub get-Above : (k j : ℕ) (m : BTreeMap V) → j ≤ k → Above k m → get j m ≡ none
  unfolding get
  get-Above k j [] h a = refl
  get-Above k j ((i, v) ∷ m) h (a, as') = ground (arith, get-Above k j m h as')

  abbrev pub keep_if : (V → Bool) → Option V → Option V
  keep_if p none = none
  keep_if p (some v) = if p v then some v else none

  pub get-retain :
      (j : ℕ) (p : V → Bool) (m : BTreeMap V)
      → IsSorted m
      → get j (retain p m) ≡ keep_if p (get j m)
  unfolding get retain
  get-retain j p [] h = refl
  get-retain j p ((i, v) ∷ m) (a, h) = ground (arith, get-retain j p m h, get-Above i j m)

  pub get-update_where :
      (j : ℕ) (p : V → Bool) (f : V → V) (m : BTreeMap V)
      → get j (update_where p f m) ≡ opt_map (λ v. if p v then f v else v) (get j m)
  unfolding update_where
  get-update_where j p f m = get-map_values j (λ v. if p v then f v else v) m

  pub update_where-IsSorted :
      (p : V → Bool) (f : V → V) (m : BTreeMap V) → IsSorted m → IsSorted (update_where p f m)
  unfolding update_where
  update_where-IsSorted p f m h = map_values-IsSorted (λ v. if p v then f v else v) m h

  -- In a sorted map an entry that is found is the entry of its key.
  pub find_entry-some :
      (p : V → Bool) (m : BTreeMap V) {k : ℕ} {v : V}
      → IsSorted m
      → find_entry p m ≡ some (k, v)
      → (get k m ≡ some v) × (p v ≡ true)
  unfolding get find_entry
  find_entry-some p [] h e = cc e
  find_entry-some p ((i, w) ∷ m) {k} {v} (a, h) e =
      ground (arith, find_entry-some p m {k = k} {v = v} h, get-Above i k m)

  pub find_entry-none :
      (p : V → Bool) (m : BTreeMap V) (k : ℕ) {v : V}
      → find_entry p m ≡ none
      → get k m ≡ some v
      → p v ≡ false
  unfolding get find_entry
  find_entry-none p [] k e g = cc g
  find_entry-none p ((i, w) ∷ m) k {v} e g = ground (arith, find_entry-none p m k {v = v})

  -- The value of a key stands among the values.
  pub get-In-values : (m : BTreeMap V) (k : ℕ) {v : V} → get k m ≡ some v → In v (values m)
  unfolding get values
  get-In-values [] k g = cc g
  get-In-values ((i, w) ∷ m) k {v} g = elim (Bool-cases (i == k)) [
    | inl t ↦ subst (λ x. In x (w ∷ values m)) (ap (unwrap_or w) (rw t at g)) here
    | inr f ↦ there (get-In-values m k {v = v} (rw f at g))
  ]

  -- In a sorted map every value stands at a key.
  pub In-values-get :
      (m : BTreeMap V) {v : V} → IsSorted m → In v (values m) → (k : ℕ) × (get k m ≡ some v)
  unfolding get values
  In-values-get [] h n = elim n [ ]
  In-values-get ((i, w) ∷ m) h here = (i, ground arith)
  In-values-get ((i, w) ∷ m) {v} (a, h) (there n) =
      let (k, e) = In-values-get m {v = v} h n in (k, ground (arith, get-Above i k m))
