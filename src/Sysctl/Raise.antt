-- ===== src/Sysctl/Raise.antt =====
-- The loop of crates/core/src/sysctl.rs that looks for a proposal ends, and how large it is at least.
use check_trung_video.Base.{
  ℕ, zero, suc, ◌*◌, ◌/◌, ◌^◌, ◌≤◌, ◌-◌, min, max, ltb, leb, ◌==◌, true, false, some, opt_map,
  Bool-cases, inl, inr, ◌≡◌, refl, ap, ◌∙◌, arith,
}
use check_trung_video.Sysctl.{
  u64_max, watch_toi_thieu, saturating_mul, thieu_watch, gap_doi, can_nang,
}

-- The number after so many doublings, without a bound.
unfoldable doubled : ℕ → ℕ → ℕ
doubled d zero = d
doubled d (suc fuel) = doubled (d * 2) fuel

doubled_le : (fuel d e : ℕ) → d ≤ e → doubled d fuel ≤ doubled e fuel
unfolding doubled
doubled_le zero d e h = h
doubled_le (suc fuel) d e h = doubled_le fuel (d * 2) (e * 2) (omega arith)

doubled-grows : (fuel d : ℕ) → d ≤ doubled d fuel
unfolding doubled
doubled-grows zero d = omega arith
doubled-grows (suc fuel) d = omega (arith, doubled-grows fuel (d * 2))

gap_doi-stop : (fuel d can : ℕ) → ltb d can ≡ false → gap_doi (suc fuel) d can ≡ some d
unfolding gap_doi
gap_doi-stop fuel d can f = rw f refl

gap_doi-next :
    (fuel d can : ℕ)
    → ltb d can ≡ true
    → (saturating_mul d 2 == d) ≡ false
    → gap_doi (suc fuel) d can ≡ gap_doi fuel (saturating_mul d 2) can
unfolding gap_doi
gap_doi-next fuel d can t q = rw (t, q) refl

-- A number below another one grows when it is doubled.
step_grows :
    (d can : ℕ)
    → can ≤ u64_max
    → 1 ≤ d
    → ltb d can ≡ true
    → ((saturating_mul d 2 == d) ≡ false) × (1 ≤ saturating_mul d 2) × (d ≤ saturating_mul d 2)
unfolding saturating_mul
step_grows d can b p t = ground arith

step-reaches :
    (fuel d can : ℕ)
    → can ≤ u64_max
    → can ≤ doubled (d * 2) fuel
    → can ≤ doubled (saturating_mul d 2) fuel
unfolding saturating_mul
step-reaches fuel d can b h = elim (Bool-cases (leb (d * 2) u64_max)) [
  | inl t ↦ rw t h
  | inr f ↦ rw f (omega (arith, doubled-grows fuel u64_max))
]

-- With rounds enough to reach `can` by doubling, the loop ends at a number that is not below it.
gap_doi-ends :
    (fuel d can : ℕ)
    → can ≤ u64_max
    → 1 ≤ d
    → can ≤ doubled d fuel
    → (v : ℕ) × (gap_doi (suc fuel) d can ≡ some v) × (can ≤ v) × (d ≤ v)
unfolding doubled
gap_doi-ends zero d can b p h = (d, gap_doi-stop zero d can (ground arith), h, omega arith)
gap_doi-ends (suc fuel) d can b p h = elim (Bool-cases (ltb d can)) [
  | inr f ↦ (d, gap_doi-stop (suc fuel) d can f, ground arith, omega arith)
  | inl t ↦
      let g = step_grows d can b p t in
      let (v, e, le, up) =
        gap_doi-ends fuel (saturating_mul d 2) can b g.1 (step-reaches fuel d can b h) in
      (v, gap_doi-next (suc fuel) d can t g.0 ∙ e, le, omega (arith, g.2, up))
]

doubled_64 : doubled watch_toi_thieu 51 ≡ 2 ^ 64
unfolding doubled
doubled_64 = refl

saturating-min : (n : ℕ) → saturating_mul n 12 ≡ min (n * 12) (2 ^ 64 - 1)
unfolding saturating_mul
saturating-min n = ground arith

need-bound : (n : ℕ) → saturating_mul n 12 / 10 ≤ u64_max
unfolding saturating_mul
need-bound n = ground arith

-- Where the watches do not suffice, the loop of doublings ends and a number is proposed. It is not
-- below the present limit, nor below 8192, nor below a tenth, rounded down, of twelve times the
-- number of directories or of 2^64 - 1, whichever of these two is the smaller.
pub can_nang-ends :
    (so_thu_muc gioi_han : ℕ)
    → thieu_watch so_thu_muc gioi_han ≡ true
    → (v : ℕ) × (can_nang so_thu_muc gioi_han ≡ some v)
      × (gioi_han ≤ v)
      × (8_192 ≤ v)
      × (min (so_thu_muc * 12) (2 ^ 64 - 1) / 10 ≤ v)
unfolding can_nang
can_nang-ends so_thu_muc gioi_han h =
    let can = saturating_mul so_thu_muc 12 / 10 in
    let b = need-bound so_thu_muc in
    let (v, e, le, base) =
      gap_doi-ends 51 watch_toi_thieu can b (omega arith) (omega (arith, b, doubled_64)) in
    (
      max v gioi_han,
      rw h (ap (opt_map (λ v. max v gioi_han)) e),
      omega arith,
      omega (arith, base),
      omega (arith, le, saturating-min so_thu_muc),
    )
