-- ===== src/Prelude/FloatSum.antt =====
-- Running totals in doubles, as in `total += x` over a list of whole numbers.
use Prim.Native.Nat.{◌+◌}
use mathlib.Core.Path.{◌≡◌, subst}
use mathlib.Core.Logic.{◌⊎◌, inl, inr}
use mathlib.Core.List.{List, [], ◌∷◌}
use native.Mathlib.Omega.{arith}
use native.Mathlib.Decide.{dec_le}
use twenty_four.Prelude.Lists.{All}
use twenty_four.Prelude.Int.{
  ℤ, pos, ◌+ℤ◌, ◌≤ℤ◌, pos_part, neg_part, int_laws, neg_part_of_nonneg, zero-+ℤ,
}
use twenty_four.Prelude.Number.{Float64, max_safe, round-safe, round-past}

+ℤ_assoc : (t m n : ℤ) → t +ℤ m +ℤ n ≡ t +ℤ (m +ℤ n)
+ℤ_assoc t m n = omega int_laws

-- What a running total comes to: the exact sum, unless both are past the safe range.
abbrev pub Returns : ℤ → ℤ → Type 0
Returns r exact =
    (r ≡ exact) ⊎ ((pos 9_007_199_254_740_992 ≤ℤ r) × (pos 9_007_199_254_740_992 ≤ℤ exact))

Returns-next : (r t m n : ℤ) {u : ℤ} → u ≡ t +ℤ m → Returns r (u +ℤ n) → Returns r (t +ℤ (m +ℤ n))
Returns-next r t m n e h = rw (e, +ℤ_assoc t m n) at h

module _ {ℓ} {A : Type ℓ} (weight : A → ℤ) where
  -- The exact sum.
  abbrev pub sum_by : List A → ℤ
  sum_by [] = pos 0
  sum_by (x ∷ xs) = weight x +ℤ sum_by xs

  abbrev pub AllNonneg : List A → Type 0
  AllNonneg = All λ x. pos 0 ≤ℤ weight x

  pub sum_by-nonneg : (xs : List A) → AllNonneg xs → pos 0 ≤ℤ sum_by xs
  sum_by-nonneg [] h = omega arith
  sum_by-nonneg (x ∷ xs) h = omega (int_laws, sum_by-nonneg xs h.1)

module _ {ℓ} {A : Type ℓ} ⦃f : Float64⦄ (weight : A → ℤ) where
  open f use {round}

  -- The running total.
  abbrev pub float_sum_by : ℤ → List A → ℤ
  float_sum_by t [] = t
  float_sum_by t (x ∷ xs) = float_sum_by (round (t +ℤ weight x)) xs

  -- Past the safe range it stays there, since nothing is negative.
  float_sum_by-past :
      (t : ℤ) (xs : List A)
      → AllNonneg weight xs
      → pos 9_007_199_254_740_992 ≤ℤ t
      → pos 9_007_199_254_740_992 ≤ℤ float_sum_by t xs
  float_sum_by-past t [] h past = past
  float_sum_by-past t (x ∷ xs) (hx, hs) past =
      float_sum_by-past (round (t +ℤ weight x)) xs hs (round-past (t +ℤ weight x) (omega int_laws))

  pub float_sum_by-Returns :
      (t : ℤ) (xs : List A)
      → AllNonneg weight xs
      → pos 0 ≤ℤ t
      → t ≤ℤ pos max_safe
      → Returns (float_sum_by t xs) (t +ℤ sum_by weight xs)
  float_sum_by-Returns t [] h low high = inl (omega int_laws)
  float_sum_by-Returns t (x ∷ xs) (hx, hs) low high =
      let next : ℤ = t +ℤ weight x in
      let nonneg : pos 0 ≤ℤ next = omega int_laws in
      elim (dec_le (pos_part next + 0) (max_safe + neg_part next)) [
        | yes fits ↦
            let same : round next ≡ next =
              round-safe next (omega (int_laws, neg_part_of_nonneg next)) in
            Returns-next _ t (weight x) (sum_by weight xs) same
              (float_sum_by-Returns (round next) xs hs (rw same nonneg) (rw same (omega arith)))
        | no past ↦ inr (
          float_sum_by-past (round next) xs hs (round-past next (omega int_laws)),
          omega (int_laws, sum_by-nonneg weight xs hs),
        )
      ]

  pub float_sum_by-from_zero :
      (xs : List A) → AllNonneg weight xs → Returns (float_sum_by (pos 0) xs) (sum_by weight xs)
  float_sum_by-from_zero xs h =
      subst (Returns (float_sum_by (pos 0) xs)) (zero-+ℤ (sum_by weight xs))
        (float_sum_by-Returns (pos 0) xs h (omega arith) (omega arith))
