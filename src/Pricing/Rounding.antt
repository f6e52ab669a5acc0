-- ===== src/Pricing/Rounding.antt =====
-- The rounding rule of packages/money/src/pricing.ts: the nearest whole number, a half away from zero.
use native.Mathlib.Decide.{dec_lt}
use twenty_four.Prelude.{ℕ, ◌+◌, ◌*◌, ◌/◌, ◌≤◌, ◌<◌, ◌≡◌, ◌≢◌, ◌⊎◌, inl, inr, arith, refl}
use twenty_four.Prelude.Int.{ℤ, pos, abs, ltb_ℤ, ◌-ℤ◌, abs-signed, signed, ltb_ℤ-signed}
use twenty_four.Prelude.Results.{ok, err}
use twenty_four.Pricing.{div_round_half_up, differ, tax_rate}

-- The quotient on magnitudes, between the half below (excluded) and the half above.
pub half_up_bounds :
    (a b : ℕ)
    → 0 < b
    → (2 * a < (2 * ((a + b / 2) / b) + 1) * b) × (2 * ((a + b / 2) / b) * b ≤ 2 * a + b)
half_up_bounds a b h = grind arith

abs_pos : (d : ℤ) → d ≢ pos 0 → 0 < abs d
abs_pos d h = ground arith

-- A zero denominator throws `tax_rate` for every numerator. For a denominator that is not zero the
-- quotient exists, is within half a denominator of the exact one, and a tie goes away from zero; it
-- has the sign of the exact quotient, or is zero.
pub div_round_half_up_nearest :
    (n d : ℤ)
    → d ≢ pos 0
    → (div_round_half_up n (pos 0) ≡ err tax_rate)
      × (q : ℤ) × (div_round_half_up n d ≡ ok q)
      × (2 * abs n < (2 * abs q + 1) * abs d)
      × (2 * abs q * abs d ≤ 2 * abs n + abs d)
      × ((abs q ≡ 0) ⊎ (ltb_ℤ q (pos 0) ≡ differ (ltb_ℤ n (pos 0)) (ltb_ℤ d (pos 0))))
unfolding div_round_half_up ◌-ℤ◌
div_round_half_up_nearest n d h =
    let negative = differ (ltb_ℤ n (pos 0)) (ltb_ℤ d (pos 0)) in
    let q = (abs n + abs d / 2) / abs d in
    let positive : 0 < abs d = abs_pos d h in
    let (below, above) = half_up_bounds (abs n) (abs d) positive in
    let size = abs-signed negative q in
    (
      refl,
      signed negative (pos q),
      ground arith,
      rw size below,
      rw size above,
      elim (dec_lt 0 q) [
        | yes p ↦ inr (ltb_ℤ-signed negative q p)
        | no p ↦ inl (rw size (omega arith))
      ],
    )

-- The case that pricing meets: nothing is negative.
pub div_round_half_up-pos :
    (a b : ℕ) → 0 < b → div_round_half_up (pos a) (pos b) ≡ ok (pos ((a + b / 2) / b))
unfolding div_round_half_up
div_round_half_up-pos a b h = ground arith
