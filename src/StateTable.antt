-- ===== src/StateTable.antt =====
-- The table of state changes: crates/core/src/state.rs.
pub mod Lifecycle
pub mod Backoff
use check_trung_video.Base.{
  ℕ, ◌*◌, ◌-◌, ◌^◌, min, List, [], ◌∷◌, Bool, true, false, not, ◌&&◌, Option, none, some, any, find,
  opt_map, if◌then◌else◌,
}
use check_trung_video.Base.Int.{ℤ, pos}
use check_trung_video.Model.State
use check_trung_video.Model.State.{
  State, settling, sized, hashed, verified, deduped, distinct, canonical, skipped, failed, missing,
  gone,
}

abbrev pub max_attempts : ℕ
max_attempts = 8

abbrev pub max_unstable_attempts : ℕ
max_unstable_attempts = 5

pub data Reason : Type 0 where
  settled rejected no_match matched became_canonical promoted shared dry_run_same : Reason
  next_group requeued changed vanished restored expired failed_reason user_undo : Reason

pub record TransitionRule : Type 0 where
  pub from : State
  pub to : State
  pub reason : Reason

abbrev pub rule : State → State → Reason → TransitionRule
rule from to reason = record { from = from; to = to; reason = reason }

unfoldable pub rules : List TransitionRule
rules =
    rule settling sized settled
    ∷ rule settling skipped rejected
    ∷ rule sized skipped rejected
    ∷ rule sized distinct no_match
    ∷ rule sized hashed matched
    ∷ rule sized canonical became_canonical
    ∷ rule hashed deduped shared
    ∷ rule hashed verified dry_run_same
    ∷ rule hashed hashed next_group
    ∷ rule hashed canonical became_canonical
    ∷ rule hashed skipped rejected
    ∷ rule hashed failed failed_reason
    ∷ rule verified hashed requeued
    ∷ rule distinct canonical became_canonical
    ∷ rule deduped canonical promoted
    ∷ rule deduped skipped user_undo
    ∷ rule canonical skipped user_undo
    ∷ rule sized settling changed
    ∷ rule hashed settling changed
    ∷ rule verified settling changed
    ∷ rule deduped settling changed
    ∷ rule distinct settling changed
    ∷ rule canonical settling changed
    ∷ rule skipped settling changed
    ∷ rule failed settling changed
    ∷ rule missing settling changed
    ∷ rule settling missing vanished
    ∷ rule sized missing vanished
    ∷ rule hashed missing vanished
    ∷ rule verified missing vanished
    ∷ rule deduped missing vanished
    ∷ rule distinct missing vanished
    ∷ rule canonical missing vanished
    ∷ rule skipped missing vanished
    ∷ rule failed missing vanished
    ∷ rule missing sized restored
    ∷ rule missing hashed restored
    ∷ rule missing verified restored
    ∷ rule missing deduped restored
    ∷ rule missing distinct restored
    ∷ rule missing canonical restored
    ∷ rule missing skipped restored
    ∷ rule missing failed restored
    ∷ rule missing gone expired
    ∷ []

abbrev matches_rule : State → State → TransitionRule → Bool
matches_rule from to r = State.eq r.from from && State.eq r.to to

unfoldable pub is_valid : State → State → Bool
unfolding rules
is_valid from to = any (matches_rule from to) rules

-- the reason of the first rule that fits
unfoldable pub reason_for : State → State → Option Reason
unfolding rules
reason_for from to = opt_map (λ (r : TransitionRule). r.reason) (find (matches_rule from to) rules)

abbrev pub base_ms : ℕ
base_ms = 15 * 60 * 1000

abbrev pub max_ms : ℕ
max_ms = 24 * 60 * 60 * 1000

-- 15 minutes times 2^attempts, at most 24 hours; the product saturates at the bound of `i64`
unfoldable pub backoff_ms : ℕ → ℤ
backoff_ms attempts =
    let shift = min attempts 16 in pos (min (min (base_ms * 2 ^ shift) (2 ^ 63 - 1)) max_ms)

-- The state that a missing row returns to when it is seen again.
unfoldable pub restore_target : Option State → State
unfolding is_valid
restore_target none = settling
restore_target (some p) =
    if not (State.eq p missing) && not (State.eq p gone) && is_valid missing p then p else settling
