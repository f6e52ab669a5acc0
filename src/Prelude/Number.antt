-- ===== src/Prelude/Number.antt =====
-- Numbers of the host language. The standard rounds the exact result of an operation to the nearest
-- double; the code meets whole numbers, so `round` takes the exact whole result to the whole number
-- that the double stands for (an overflow to infinity is any unsafe one).
use Prim.Native.Nat.{ℕ, ◌/◌, ◌≤◌, ◌<◌}
use mathlib.Core.Path.{◌≡◌, refl}
use mathlib.Core.Bool.{Bool}
use native.Mathlib.Omega.{arith}
use twenty_four.Prelude.Tests.{leb, if◌then◌else◌}
use twenty_four.Prelude.Int.{ℤ, pos, negsuc, pos_part, abs, ◌≤ℤ◌}

-- A value of type `number`: `fractional` is one that `Number.isInteger` refuses.
pub data Number : Type 0 where
  whole : ℤ → Number
  fractional : Number

-- `Number.MAX_SAFE_INTEGER`, 2^53 - 1
abbrev pub max_safe : ℕ
max_safe = 9_007_199_254_740_991

-- `Number.isSafeInteger` of a whole number
abbrev pub is_safe : ℤ → Bool
is_safe x = leb (abs x) max_safe

-- Rounding is exact up to 2^53, and monotone. `floor_div a b` is `Math.floor(a / b)`: up to 2^53 the
-- quotient of doubles never reaches a whole number that the exact quotient is below.
pub record Float64 : Type 0 where
  pub round : ℤ → ℤ
  pub round_exact : (x : ℤ) → abs x ≤ 9_007_199_254_740_992 → round x ≡ x
  pub round_mono : (x y : ℤ) → x ≤ℤ y → round x ≤ℤ round y
  pub floor_div : ℤ → ℤ → ℤ
  pub floor_div_exact :
      (a b : ℕ) → a ≤ 9_007_199_254_740_992 → 0 < b → floor_div (pos a) (pos b) ≡ pos (a / b)

module _ ⦃f : Float64⦄ where
  open f use {round, round_exact, round_mono}

  pub round-safe : (x : ℤ) → abs x ≤ max_safe → round x ≡ x
  round-safe x h = round_exact x (omega arith)

  -- A result past the safe range is rounded to a number past the safe range.
  pub is_safe-round : (x : ℤ) → is_safe (round x) ≡ is_safe x
  is_safe-round (pos n) = ground (
    arith,
    round_exact (pos n),
    round_mono (pos 9_007_199_254_740_992) (pos n),
    round_exact (pos 9_007_199_254_740_992),
  )
  is_safe-round (negsuc n) = ground (
    arith,
    round_exact (negsuc n),
    round_mono (negsuc n) (negsuc 9_007_199_254_740_991),
    round_exact (negsuc 9_007_199_254_740_991),
  )

  pub round-past : (x : ℤ) → pos 9_007_199_254_740_992 ≤ℤ x → pos 9_007_199_254_740_992 ≤ℤ round x
  round-past x h =
      rw (round_exact (pos 9_007_199_254_740_992) (omega arith)) at
        (round_mono (pos 9_007_199_254_740_992) x h)

-- The laws can be met: a coarse rounding, which takes all that is past 2^53 to 2^53.
abbrev pub saturate : ℤ → ℤ
saturate (pos n) = if leb n 9_007_199_254_740_992 then pos n else pos 9_007_199_254_740_992
saturate (negsuc n) = if leb n 9_007_199_254_740_991 then negsuc n else negsuc 9_007_199_254_740_991

pub saturate_exact : (x : ℤ) → abs x ≤ 9_007_199_254_740_992 → saturate x ≡ x
saturate_exact x h = ground arith

pub saturate_mono : (x y : ℤ) → x ≤ℤ y → saturate x ≤ℤ saturate y
saturate_mono x y h = ground arith

abbrev pub coarse : Float64
coarse = record {
  round = saturate;
  round_exact = saturate_exact;
  round_mono = saturate_mono;
  floor_div = λ a b. pos (pos_part a / pos_part b);
  floor_div_exact = λ a b _ _. refl;
}
