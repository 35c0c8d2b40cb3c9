-- ===== src/Base/Int.antt =====
-- `i64`: the integers over the native numbers, with wrapping and saturating operations.
use Prim.Native.Nat.{ℕ, suc, ◌+◌, ◌-◌, ◌*◌, ◌^◌, ◌/◌, ◌≤◌, ◌<◌}
use mathlib.Core.Path.{◌≡◌}
use mathlib.Core.Bool.{Bool, true}
use native.Mathlib.Omega.{arith}
use check_trung_video.Base.Tests.{ltb, leb as leb_nat, ◌==◌, if◌then◌else◌}

-- `negsuc n` is -(n + 1).
pub data ℤ : Type 0 where
  pos : ℕ → ℤ
  negsuc : ℕ → ℤ

abbrev pub pos_part : ℤ → ℕ
pos_part (pos n) = n
pos_part (negsuc n) = 0

abbrev pub neg_part : ℤ → ℕ
neg_part (pos n) = 0
neg_part (negsuc n) = suc n

-- a - b, as an integer.
abbrev pub sub_ℕ : ℕ → ℕ → ℤ
sub_ℕ a b = if leb_nat b a then pos (a - b) else negsuc (b - a - 1)

infixl 65 ◌+ℤ◌ ◌-ℤ◌
infix 50 ◌≤ℤ◌ ◌<ℤ◌
unfoldable pub ◌+ℤ◌ : ℤ → ℤ → ℤ
a +ℤ b = sub_ℕ (pos_part a + pos_part b) (neg_part a + neg_part b)

unfoldable pub ◌-ℤ◌ : ℤ → ℤ → ℤ
a -ℤ b = sub_ℕ (pos_part a + neg_part b) (neg_part a + pos_part b)

abbrev pub ◌≤ℤ◌ : ℤ → ℤ → Type 0
a ≤ℤ b = pos_part a + neg_part b ≤ pos_part b + neg_part a

abbrev pub ◌<ℤ◌ : ℤ → ℤ → Type 0
a <ℤ b = pos_part a + neg_part b < pos_part b + neg_part a

-- `a <= b`
abbrev pub le : ℤ → ℤ → Bool
le a b = leb_nat (pos_part a + neg_part b) (pos_part b + neg_part a)

-- `a < b`
abbrev pub lt : ℤ → ℤ → Bool
lt a b = ltb (pos_part a + neg_part b) (pos_part b + neg_part a)

-- `a == b`
abbrev pub eq : ℤ → ℤ → Bool
eq a b = pos_part a + neg_part b == pos_part b + neg_part a

-- The bounds of `i64`, as numbers: -2^63 and 2^63 - 1.
abbrev pub i64_min : ℤ
i64_min = negsuc (2 ^ 63 - 1)

abbrev pub i64_max : ℤ
i64_max = pos (2 ^ 63 - 1)

abbrev pub InI64 : ℤ → Type 0
InI64 a = (i64_min ≤ℤ a) × (a ≤ℤ i64_max)

-- The value of an `i64` sum or difference, which is off by 2^64 at most.
unfoldable pub wrap_i64 : ℤ → ℤ
wrap_i64 a =
    if lt a i64_min then a +ℤ pos (2 ^ 64) else if lt i64_max a then a -ℤ pos (2 ^ 64) else a

-- `a + b` and `a - b` of a release build
unfoldable pub add_i64 : ℤ → ℤ → ℤ
unfolding wrap_i64
add_i64 a b = wrap_i64 (a +ℤ b)

unfoldable pub sub_i64 : ℤ → ℤ → ℤ
unfolding wrap_i64
sub_i64 a b = wrap_i64 (a -ℤ b)

unfoldable pub clamp_i64 : ℤ → ℤ
clamp_i64 a = if lt a i64_min then i64_min else if lt i64_max a then i64_max else a

-- `a.saturating_add(b)`
unfoldable pub saturating_add : ℤ → ℤ → ℤ
unfolding clamp_i64
saturating_add a b = clamp_i64 (a +ℤ b)

-- `a.saturating_sub(b)`
unfoldable pub saturating_sub : ℤ → ℤ → ℤ
unfolding clamp_i64
saturating_sub a b = clamp_i64 (a -ℤ b)

-- `a / k` and the exact `a * k`, for a positive constant `k`; division cuts towards 0
unfoldable pub div_const : ℤ → ℕ → ℤ
div_const (pos n) k = pos (n / k)
div_const (negsuc n) k = sub_ℕ 0 (suc n / k)

unfoldable pub mul_const : ℤ → ℕ → ℤ
mul_const (pos n) k = pos (n * k)
mul_const (negsuc n) k = sub_ℕ 0 (suc n * k)

-- `a.saturating_mul(k)`
unfoldable pub saturating_mul : ℤ → ℕ → ℤ
unfolding clamp_i64 mul_const
saturating_mul a k = clamp_i64 (mul_const a k)

abbrev pub max_int : ℤ → ℤ → ℤ
max_int a b = if le a b then b else a

abbrev pub min_int : ℤ → ℤ → ℤ
min_int a b = if le a b then a else b

-- With the parts of a sum known, `omega` works with the operations shut.
pub +ℤ_parts :
    (a b : ℤ)
    → pos_part (a +ℤ b) + neg_part a + neg_part b ≡ neg_part (a +ℤ b) + pos_part a + pos_part b
unfolding ◌+ℤ◌
+ℤ_parts a b = ground arith

pub -ℤ_parts :
    (a b : ℤ)
    → pos_part (a -ℤ b) + neg_part a + pos_part b ≡ neg_part (a -ℤ b) + pos_part a + neg_part b
unfolding ◌-ℤ◌
-ℤ_parts a b = ground arith

pub eq_of_parts : (a b : ℤ) → pos_part a + neg_part b ≡ pos_part b + neg_part a → a ≡ b
eq_of_parts a b h = ground arith

pub eq_refl : (a : ℤ) → eq a a ≡ true
eq_refl a = ground arith

pub eq→≡ : (a b : ℤ) → eq a b ≡ true → a ≡ b
eq→≡ a b h = ground arith

-- A sum that fits does not wrap.
pub add_i64_lem : (a b : ℤ) → InI64 (a +ℤ b) → add_i64 a b ≡ a +ℤ b
unfolding add_i64
add_i64_lem a b h = ground arith

pub sub_i64_lem : (a b : ℤ) → InI64 (a -ℤ b) → sub_i64 a b ≡ a -ℤ b
unfolding sub_i64
sub_i64_lem a b h = ground arith
