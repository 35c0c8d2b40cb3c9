-- ===== src/Memory/Queue/Order.antt =====
-- Which row `next_ready` picks: crates/core/src/repo/memory/queue.rs.
use check_trung_video.Base.{
  ℕ, List, [], ◌∷◌, Bool, true, false, none, some, In, here, there, min_by, filter, filter-In,
  In-filter, ◌≡◌, refl, arith, Option-cases, Bool-cases, inl, inr, if◌then◌else◌, subst, ap,
  unwrap_or, sym, ◌≤◌, ◌<◌, ◌⊎◌,
}
use check_trung_video.Base.Int
use check_trung_video.Base.Int.{ℤ, ◌<ℤ◌}
use check_trung_video.Base.BTreeMap
use check_trung_video.Base.BTreeMap.{In-values-get, get-In-values}
use check_trung_video.Model.Records.{Ts, FileRecord}
use check_trung_video.Rules.{is_ready}
use check_trung_video.Memory.{Store}
use check_trung_video.Memory.Inv.{Inv}
use check_trung_video.Memory.Queue.{next_ready, queue_less}

queue_less-asym : (a b : FileRecord) → queue_less a b ≡ true → queue_less b a ≡ false
unfolding queue_less
queue_less-asym a b h = ground arith

queue_less-negtrans :
    (a b c : FileRecord) → queue_less a b ≡ false → queue_less b c ≡ false → queue_less a c ≡ false
unfolding queue_less
queue_less-negtrans a b c h k = ground arith

-- `m` stands in the list and no element is less.
IsLeast : FileRecord → List FileRecord → Type 0
IsLeast m xs = In m xs × ((x : FileRecord) → In x xs → queue_less x m ≡ false)

queue_less_irrefl : (x : FileRecord) → queue_less x x ≡ false
unfolding queue_less
queue_less_irrefl x = ground arith

-- No element of `xs` is before `x`, if `y` is the least of `xs` and not before `x`.
below-cons :
    (x : FileRecord) (xs : List FileRecord) (m : FileRecord)
    → queue_less x m ≡ false
    → ((z : FileRecord) → In z xs → queue_less z m ≡ false)
    → (z : FileRecord) → In z (x ∷ xs)
    → queue_less z m ≡ false
below-cons x xs m h l z here = h
below-cons x xs m h l z (there n) = l z n

IsLeast-cons :
    (x : FileRecord) (xs : List FileRecord) (y m : FileRecord)
    → IsLeast y xs
    → (if queue_less y x then some y else some x) ≡ some m
    → IsLeast m (x ∷ xs)
unfolding IsLeast
IsLeast-cons x xs y m (n, l) h = elim (Bool-cases (queue_less y x)) [
  | inl t ↦
      subst (λ v. In v (x ∷ xs) × ((z : FileRecord) → In z (x ∷ xs) → queue_less z v ≡ false))
        (ap (unwrap_or x) (rw t at h)) (there n, below-cons x xs y (queue_less-asym y x t) l)
  | inr f ↦
      subst (λ v. In v (x ∷ xs) × ((z : FileRecord) → In z (x ∷ xs) → queue_less z v ≡ false))
        (ap (unwrap_or x) (rw f at h))
        (here, below-cons x xs x (queue_less_irrefl x) (λ z i. queue_less-negtrans z y x (l z i) f))
]

IsLeast-one : (x m : FileRecord) → some x ≡ some m → IsLeast m (x ∷ [])
unfolding IsLeast
IsLeast-one x m h =
    subst (λ v. In v (x ∷ []) × ((z : FileRecord) → In z (x ∷ []) → queue_less z v ≡ false))
      (ap (unwrap_or x) h) (here, below-cons x [] x (queue_less_irrefl x) (λ z i. elim i [ ]))

min_by-nil : (xs : List FileRecord) → min_by queue_less xs ≡ none → xs ≡ []
unfolding min_by
min_by-nil [] h = refl
min_by-nil (x ∷ xs) h = elim (Option-cases (min_by queue_less xs)) [
  | inl e ↦ cc (rw e at h)
  | inr (y, e) ↦ elim (Bool-cases (queue_less y x)) [
    | inl t ↦ cc (rw (e, t) at h)
    | inr f ↦ cc (rw (e, f) at h)
  ]
]

min_by-IsLeast :
    (xs : List FileRecord) (m : FileRecord) → min_by queue_less xs ≡ some m → IsLeast m xs
unfolding min_by IsLeast
min_by-IsLeast [] m h = cc h
min_by-IsLeast (x ∷ xs) m h = elim (Option-cases (min_by queue_less xs)) [
  | inl e ↦ subst (λ v. IsLeast m (x ∷ v)) (sym (min_by-nil xs e)) (IsLeast-one x m (rw e at h))
  | inr (y, e) ↦ IsLeast-cons x xs y m (min_by-IsLeast xs y e) (rw e at h)
]

next_ready-parts :
    (s : Store) (now : Ts) (allow_heavy : Bool) (max_wait_ms : ℤ)
    → Inv s
    → ((m : FileRecord)
        → next_ready s now allow_heavy max_wait_ms ≡ some m
        → (BTreeMap.get m.id s.files ≡ some m)
          × (is_ready m now allow_heavy max_wait_ms ≡ true)
          × ((k : ℕ) (r : FileRecord)
              → BTreeMap.get k s.files ≡ some r
              → is_ready r now allow_heavy max_wait_ms ≡ true
              → queue_less r m ≡ false))
      × (next_ready s now allow_heavy max_wait_ms ≡ none
          → (k : ℕ) (r : FileRecord) → BTreeMap.get k s.files ≡ some r
          → is_ready r now allow_heavy max_wait_ms ≡ false)
unfolding next_ready IsLeast
next_ready-parts s now allow_heavy max_wait_ms inv =
    let ready : FileRecord → Bool = λ r. is_ready r now allow_heavy max_wait_ms in
    (
      λ m h.
          let l = min_by-IsLeast (filter ready (BTreeMap.values s.files)) m h in
          let f = filter-In ready (BTreeMap.values s.files) l.0 in
          let g = In-values-get s.files inv.files_sorted f.1 in
          (
            subst (λ k. BTreeMap.get k s.files ≡ some m) (sym (inv.file_id g.0 m g.1)) g.1,
            f.0,
            λ k r e t.
                l.1 r (In-filter ready (BTreeMap.values s.files) t (get-In-values s.files k e)),
          ),
      λ h k r e. elim (Bool-cases (ready r)) [
        | inl t ↦
            elim (subst (λ v. In r v) (min_by-nil (filter ready (BTreeMap.values s.files)) h)
              (In-filter ready (BTreeMap.values s.files) t (get-In-values s.files k e))) [ ]
        | inr f ↦ f
      ],
    )

pub next_ready-stored :
    (s : Store) (now : Ts) (allow_heavy : Bool) (max_wait_ms : ℤ) (m : FileRecord)
    → Inv s
    → next_ready s now allow_heavy max_wait_ms ≡ some m
    → BTreeMap.get m.id s.files ≡ some m
next_ready-stored s now allow_heavy max_wait_ms m inv h =
    ((next_ready-parts s now allow_heavy max_wait_ms inv).0 m h).0

-- Smaller number of priority, then earlier time, then smaller id
abbrev pub ComesFirst : (p p' : ℕ) (t t' : Ts) (id id' : ℕ) → Type 0
ComesFirst p p' t t' id id' = (p < p') ⊎ ((p ≡ p') × ((t <ℤ t') ⊎ ((t ≡ t') × (id ≤ id'))))

-- If no row is picked, no row of the store is ready.
pub next_ready-none :
    (s : Store) (now : Ts) (allow_heavy : Bool) (max_wait_ms : ℤ) (k : ℕ) (r : FileRecord)
    → Inv s
    → next_ready s now allow_heavy max_wait_ms ≡ none
    → BTreeMap.get k s.files ≡ some r
    → is_ready r now allow_heavy max_wait_ms ≡ false
next_ready-none s now allow_heavy max_wait_ms k r inv h =
    (next_ready-parts s now allow_heavy max_wait_ms inv).1 h k r
