-- ===== src/StateTable/Lifecycle.antt =====
-- What the table of crates/core/src/state.rs lets a row do in its life.
use check_trung_video.Base.{
  ◌≡◌, ◌≢◌, refl, Option, none, some, Bool, true, false, List, [], ◌∷◌, arith, All, All-at, In,
  is_some, any, find, opt_map, ◌&&◌, Bool-cases, inl, inr, ◌⊎◌,
}
use check_trung_video.Model.State
use check_trung_video.Model.State.{
  State, settling, sized, hashed, verified, deduped, distinct, canonical, skipped, failed, missing,
  gone,
}
use check_trung_video.StateTable.{TransitionRule, rules, is_valid, reason_for, restore_target}

is_some-find {ℓ κ} :
    {A : Type ℓ} {B : Type κ} (f : A → B) (p : A → Bool) (xs : List A)
    → is_some (opt_map f (find p xs)) ≡ any p xs
is_some-find f p [] = refl
is_some-find f p (x ∷ xs) = elim (Bool-cases (p x)) [
  | inl t ↦ rw t
  | inr e ↦ rw e (is_some-find f p xs)
]

All-reasons : All (λ (r : TransitionRule). reason_for r.from r.to ≡ some r.reason) rules
unfolding rules reason_for
All-reasons = ground arith

-- Every rule of the table is the one that `reason_for` answers for its two states, so no two rules
-- join the same states; and a change has a reason exactly when it is valid.
pub reason_for-rules :
    ((r : TransitionRule) → In r rules → reason_for r.from r.to ≡ some r.reason)
    × ((from to : State) → is_some (reason_for from to) ≡ is_valid from to)
unfolding reason_for is_valid
reason_for-rules = (
  λ r m.
      All-at (λ (q : TransitionRule). reason_for q.from q.to ≡ some q.reason) rules All-reasons m,
  λ from to.
      is_some-find (λ (r : TransitionRule). r.reason)
        (λ (r : TransitionRule). State.eq r.from from && State.eq r.to to) rules,
)

-- `gone` is left by no valid change and entered from `missing` alone; every other state but
-- `settling` may go back to `settling`; and every state but `missing` and `gone` may go missing.
pub is_valid-lifecycle :
    (s : State)
    → (is_valid gone s ≡ false)
      × (is_valid s gone ≡ State.eq s missing)
      × (s ≢ settling → s ≢ gone → is_valid s settling ≡ true)
      × (s ≢ missing → s ≢ gone → is_valid s missing ≡ true)
unfolding is_valid
is_valid-lifecycle s = ground arith

-- A missing row is restored by a valid change, to a state that is neither `missing` nor `gone`; and
-- every remembered state but those two is restored as it was.
pub restore_target-valid :
    (prev : Option State) (p : State)
    → (is_valid missing (restore_target prev) ≡ true)
      × (restore_target prev ≢ missing)
      × (restore_target prev ≢ gone)
      × (prev ≡ some p → p ≢ missing → p ≢ gone → restore_target prev ≡ p)
unfolding restore_target
restore_target-valid none p = ground arith
restore_target-valid (some settling) p = ground arith
restore_target-valid (some _) p = ground arith

-- Valid changes one after another, none of which enters `hashed` or `missing`.
pub data Unverified (s : State) : State → Type 0 where
  start : Unverified s s
  step :
      {t u : State}
      → Unverified s t
      → is_valid t u ≡ true
      → u ≢ hashed
      → u ≢ missing
      → Unverified s u

abbrev IsVerifiedState : State → Type 0
IsVerifiedState verified = Unit
IsVerifiedState deduped = Unit
IsVerifiedState hashed = Unit
IsVerifiedState missing = Unit
IsVerifiedState _ = ⊥

Unverified-step :
    (t u : State)
    → ¬ IsVerifiedState t
    → is_valid t u ≡ true
    → u ≢ hashed
    → u ≢ missing
    → ¬ IsVerifiedState u
unfolding is_valid
Unverified-step t u n v h m = ground arith

Unverified-closed : {s u : State} → ¬ IsVerifiedState s → Unverified s u → ¬ IsVerifiedState u
Unverified-closed n start = n
Unverified-closed n (step {t} {u} w v h m) = Unverified-step t u (Unverified-closed n w) v h m

-- By the table a row that starts in `settling` or `sized` is neither `verified` nor `deduped` as
-- long as it has not been `hashed` or `missing`.
pub Unverified-not_shared :
    (s u : State) → (s ≡ settling) ⊎ (s ≡ sized) → Unverified s u → (u ≢ verified) × (u ≢ deduped)
Unverified-not_shared s u o w =
    let n : ¬ IsVerifiedState s = ground arith in
    let k : ¬ IsVerifiedState u = Unverified-closed n w in (λ e. k (rw e tt), λ e. k (rw e tt))
