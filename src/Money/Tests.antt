-- ===== src/Money/Tests.antt =====
-- Runs of packages/money/src/money.ts, and its theorems at concrete amounts.
use twenty_four.Prelude.{◌≡◌, refl, true, false, none, [], ◌∷◌, arith}
use twenty_four.Prelude.Int.{ℤ, pos, negsuc, ◌+ℤ◌}
use twenty_four.Prelude.Number.{fractional, coarse}
use twenty_four.Prelude.Results.{ok, err, ◌>>=◌}
use twenty_four.Money.{
  Money, is_known_currency, exponent_of, add_money, subtract_money, negate_money, sum_money, unsafe,
  compare_money, is_zero, is_negative, is_positive, multiply_money, count_not_whole,
  assert_same_currency,
}
use twenty_four.Money.Exact.{add_money-exact, subtract-eq-add-negate, sum_money-exact}

abbrev huf : ℤ → Money
huf n = record { minor = n; currency = "HUF" }

abbrev bdt : ℤ → Money
bdt n = record { minor = n; currency = "BDT" }

-- What every object inherits passes for a currency.
prototype_is_known : is_known_currency "toString" ≡ true
unfolding is_known_currency exponent_of
prototype_is_known = refl

others_are_unknown : is_known_currency "CHF" ≡ false
unfolding is_known_currency exponent_of
others_are_unknown = refl

no_fraction_of_a_count : multiply_money ⦃f = coarse⦄ (huf (pos 3)) fractional ≡ err count_not_whole
unfolding multiply_money
no_fraction_of_a_count = refl

signs :
    (is_zero (huf (pos 0)) ≡ true)
    × (is_negative (huf (negsuc 4)) ≡ true)
    × (is_positive (huf (negsuc 4)) ≡ false)
    × (compare_money (huf (negsuc 4)) (huf (pos 1)) ≡ ok (negsuc 0))
unfolding is_zero is_negative is_positive compare_money assert_same_currency
signs = (refl, refl, refl, refl)

add_money-exact_example :
    add_money ⦃f = coarse⦄ (huf (pos 9_007_199_254_740_991)) (huf (pos 1)) ≡ err unsafe
unfolding ◌+ℤ◌
add_money-exact_example =
    add_money-exact ⦃f = coarse⦄ (huf (pos 9_007_199_254_740_991)) (huf (pos 1))

subtract-eq-add-negate_example :
    subtract_money ⦃f = coarse⦄ (huf (pos 100)) (bdt (pos 30))
    ≡ (negate_money ⦃f = coarse⦄ (bdt (pos 30)) >>= add_money ⦃f = coarse⦄ (huf (pos 100)))
subtract-eq-add-negate_example =
    subtract-eq-add-negate ⦃f = coarse⦄ (huf (pos 100)) (bdt (pos 30)) refl

sum_money-exact_example :
    sum_money ⦃f = coarse⦄ (huf (pos 100) ∷ huf (pos 250) ∷ []) none ≡ ok (huf (pos 350))
unfolding ◌+ℤ◌
sum_money-exact_example =
    sum_money-exact ⦃f = coarse⦄ (huf (pos 100)) (huf (pos 250) ∷ []) none
      ((refl, omega arith), ((refl, omega arith), tt))
