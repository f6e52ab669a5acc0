-- ===== src/Till/Allocate.antt =====
-- packages/mock/src/store.ts, `allocate`: an amount split in proportion to weights.
pub mod Sum
use twenty_four.Prelude.{
  ℕ, zero, suc, ◌+◌, ◌-◌, ◌*◌, ◌/◌, ◌%◌, ◌^◌, ◌≤◌, ◌<◌, String, ◌≡◌, refl, sym, ap, ◌∙◌, subst, ◌≢◌,
  ◌↔◌, ◌⊎◌, inl, inr, Bool, true, false, not, ◌&&◌, ◌||◌, Option, none, some, List, [], ◌∷◌, ◌++◌,
  map, arith, ltb, leb, nat_eq, if◌then◌else◌, Bool-cases, Option-cases, length, length-append,
  take, drop, replicate, take-append-drop, length-drop, length-replicate, All, All-append, All-take,
  All-drop, All-replicate, select, find, exists, includes, includes-append, includes-select,
  All-includes,
}
use twenty_four.Prelude.Int.{
  ℤ, pos, negsuc, pos_part, neg_part, sub_ℕ, ◌+ℤ◌, ◌-ℤ◌, ◌*ℤ◌, abs, ◌≤ℤ◌, ltb_ℤ, eqb_ℤ, +ℤ_parts,
  -ℤ_parts, eq_of_parts, int_laws, +ℤ_pos, *ℤ_pos, -ℤ_pos, zero-+ℤ, neg_part_of_nonneg, signed,
  abs-signed, ltb_ℤ-signed, differ, +ℤ-zero,
}
use twenty_four.Prelude.Number.{
  Number, whole, fractional, max_safe, is_safe, Float64, round-safe, is_safe-round, round-past,
  coarse,
}
use twenty_four.Prelude.FloatSum.{float_sum_by}

abbrev pub min_ℤ : ℤ → ℤ → ℤ
min_ℤ a b = if ltb_ℤ b a then b else a

abbrev pub max_ℤ : ℤ → ℤ → ℤ
max_ℤ a b = if ltb_ℤ a b then b else a

abbrev pub itself : ℤ → ℤ
itself x = x

-- The loop that looks for the first of the largest weights: where it is, its weight, and how many
-- weights have been seen.
unfoldable pub largest_from : ℕ → ℤ → ℕ → List ℤ → ℕ
largest_from best weight seen [] = best
largest_from best weight seen (w ∷ ws) =
    let later = largest_from seen w (suc seen) ws in
    let kept = largest_from best weight (suc seen) ws in if ltb_ℤ weight w then later else kept

unfoldable pub largest : List ℤ → ℕ
largest [] = 0
largest (w ∷ ws) = largest_from 0 w 1 ws

-- `shares[index] = shares[index] + remainder`
unfoldable pub add_at : (ℤ → ℤ) → ℕ → List ℤ → List ℤ
add_at more n [] = []
add_at more zero (x ∷ xs) = more x ∷ xs
add_at more (suc n) (x ∷ xs) = x ∷ add_at more n xs

module _ ⦃f : Float64⦄ where
  open f use {round, floor_div}

  abbrev pub running : List ℤ → ℤ
  running xs = float_sum_by itself (pos 0) xs

  unfoldable pub shares_of : ℤ → ℤ → List ℤ → List ℤ
  shares_of capped total weights = map (λ w. floor_div (round (capped *ℤ w)) total) weights

  -- The remainder goes to the largest part.
  unfoldable pub topped_up : List ℤ → List ℤ → ℤ → List ℤ
  topped_up weights shares capped =
      let remainder = round (capped -ℤ running shares) in
      if ltb_ℤ (pos 0) remainder
      then add_at (λ x. round (x +ℤ remainder)) (largest weights) shares
      else shares

  unfoldable pub split : List ℤ → ℤ → ℤ → List ℤ
  split weights total amount =
      if not (ltb_ℤ (pos 0) total) || not (ltb_ℤ (pos 0) amount)
      then map (λ _. pos 0) weights
      else topped_up weights (shares_of (min_ℤ amount total) total weights) (min_ℤ amount total)

  unfoldable pub allocate : List ℤ → ℤ → List ℤ
  allocate weights amount = split weights (running weights) amount
