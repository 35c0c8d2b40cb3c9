-- ===== src/StateTable/Backoff.antt =====
-- The delay before a retry: `backoff_ms` of crates/core/src/state.rs.
use check_trung_video.Base.{
  ℕ, zero, suc, ◌+◌, ◌*◌, ◌-◌, ◌^◌, ◌≤◌, ◌≡◌, refl, min, arith, leb, if◌then◌else◌, ap, Bool-cases,
  inl, inr,
}
use check_trung_video.Base.Int.{pos, ◌≤ℤ◌}
use check_trung_video.StateTable.{backoff_ms, max_ms, base_ms}
use native.Mathlib.Nat.{pow-suc}
use native.Mathlib.Numerals.{towards_suc}

pow-pos : (k : ℕ) → 1 ≤ 2 ^ k
pow-pos zero = omega arith
pow-pos (suc k) = rw pow-suc (omega (arith, pow-pos k))

pow-seven : (k : ℕ) → 128 ≤ 2 ^ (k + 7)
pow-seven k = simp towards_suc (omega (arith, pow-pos k))

backoff_small : (n : ℕ) → n ≤ 6 → backoff_ms n ≡ pos (base_ms * 2 ^ n)
unfolding backoff_ms
backoff_small zero h = refl
backoff_small (suc zero) h = refl
backoff_small (suc (suc zero)) h = refl
backoff_small (suc (suc (suc zero))) h = refl
backoff_small (suc (suc (suc (suc zero)))) h = refl
backoff_small (suc (suc (suc (suc (suc zero))))) h = refl
backoff_small (suc (suc (suc (suc (suc (suc zero)))))) h = refl
backoff_small (suc (suc (suc (suc (suc (suc (suc n))))))) h = absurd (omega arith)

large_power : (p : ℕ) → 128 ≤ p → min (min (base_ms * p) (2 ^ 63 - 1)) max_ms ≡ max_ms
large_power p h = omega arith

backoff_large : (n : ℕ) → 7 ≤ n → backoff_ms n ≡ pos max_ms
unfolding backoff_ms
backoff_large n h =
    let e : min n 16 ≡ min n 16 - 7 + 7 = omega arith in
    rw e (ap pos (large_power (2 ^ (min n 16 - 7 + 7)) (pow-seven (min n 16 - 7))))

-- The delay is 15 minutes doubled for each of the first six attempts, and 24 hours from the seventh
-- on, for every count of attempts: neither the shift nor the product goes wrong.
pub backoff_ms_lem :
    (n : ℕ) → backoff_ms n ≡ (if leb n 6 then pos (base_ms * 2 ^ n) else pos max_ms)
backoff_ms_lem n = elim (Bool-cases (leb n 6)) [
  | inl t ↦ rw t (backoff_small n (ground arith))
  | inr f ↦ rw f (backoff_large n (ground arith))
]

pow-le : (m k : ℕ) → m ≤ k → 2 ^ m ≤ 2 ^ k
pow-le zero k h = omega (arith, pow-pos k)
pow-le (suc m) zero h = absurd (omega arith)
pow-le (suc m) (suc k) h = simp pow-suc (omega (arith, pow-le m k (omega arith)))

-- More attempts never shorten the delay, and it lies between 15 minutes and 24 hours.
pub backoff_ms-bounds :
    (a b : ℕ)
    → a ≤ b
    → (pos base_ms ≤ℤ backoff_ms a) × (backoff_ms a ≤ℤ backoff_ms b) × (backoff_ms b ≤ℤ pos max_ms)
unfolding backoff_ms
backoff_ms-bounds a b h =
    omega (arith, pow-pos (min a 16), pow-le (min a 16) (min b 16) (omega arith))
