-- ===== src/Pricing/Tests.antt =====
-- Runs of packages/money/src/pricing.ts, and its theorems at concrete sales.
use twenty_four.Prelude.{
  ℕ, ◌+◌, ◌*◌, ◌≤◌, ◌<◌, ◌≡◌, refl, ◌⊎◌, Bool, true, false, none, some, List, [], ◌∷◌, arith,
}
use twenty_four.Prelude.Int.{ℤ, pos, negsuc, ◌+ℤ◌, ◌-ℤ◌, ◌*ℤ◌, abs, ltb_ℤ, eqb_ℤ, int_laws}
use twenty_four.Prelude.Number.{whole, coarse}
use twenty_four.Prelude.Results.{ok, err, traverse}
use twenty_four.Money.{Money, is_known_currency, exponent_of, money, to_minor}
use twenty_four.Pricing.{
  Line, Amounts, Band, discount_high, tax_rate, price_line, line_figures, check_quantity,
  check_rate, check_discount, split_tax, div_round_half_up, as_amounts, to_safe, total_loop,
  total_of, lift_money, add_to_bucket, buckets_loop, insert_band, sort_bands, band_of,
  tax_breakdown,
}
use twenty_four.Pricing.Rounding.{div_round_half_up_nearest}
use twenty_four.Pricing.LineFigures.{IsPriceable, figures, amounts_in}
use twenty_four.Pricing.PriceLine.{price_line-exact, price_line-eq-ok, gross_fits}
use twenty_four.Pricing.Totals.{
  IsConsistent, price_line-IsConsistent, total_of-exact, gross_minor, net_minor, tax_minor,
}
use twenty_four.Pricing.RateSums.{band_sum, line_sum}
use twenty_four.Pricing.Breakdown.{tax_breakdown-sums}
use twenty_four.Pricing.Ascending.{IsAscending, tax_breakdown-IsAscending}

abbrev huf : ℤ → Money
huf n = record { minor = n; currency = "HUF" }

-- Two coffees at 635 with 27% inside, 70 off.
abbrev coffees : Line
coffees = record {
  quantity = whole (pos 2);
  unit_price = huf (pos 635);
  tax_basis_points = whole (pos 2700);
  tax_included = true;
  discount = some (huf (pos 70));
}

-- A cake at 1000 with 5% on top.
abbrev cake : Line
cake = record {
  quantity = whole (pos 1);
  unit_price = huf (pos 1000);
  tax_basis_points = whole (pos 500);
  tax_included = false;
  discount = none;
}

abbrev coffees_cost : Amounts
coffees_cost = record { gross = huf (pos 1200); net = huf (pos 945); tax = huf (pos 255) }

abbrev cake_cost : Amounts
cake_cost = record { gross = huf (pos 1050); net = huf (pos 1000); tax = huf (pos 50) }

coffees_priced : price_line ⦃f = coarse⦄ coffees ≡ ok coffees_cost
unfolding price_line line_figures check_quantity check_rate check_discount split_tax
    div_round_half_up as_amounts to_safe ◌+ℤ◌ ◌-ℤ◌ ◌*ℤ◌ exponent_of
coffees_priced = refl

cake_priced : price_line ⦃f = coarse⦄ cake ≡ ok cake_cost
unfolding price_line line_figures check_quantity check_rate check_discount split_tax
    div_round_half_up as_amounts to_safe ◌+ℤ◌ ◌-ℤ◌ ◌*ℤ◌ exponent_of
cake_priced = refl

-- A line at a negative price is refused as over-discounted, whether or not it has a discount.
negative_price :
    price_line ⦃f = coarse⦄ (record cake { unit_price = huf (negsuc 99) }) ≡ err discount_high
unfolding price_line line_figures check_quantity check_rate check_discount ◌*ℤ◌ exponent_of
negative_price = refl

priced_list :
    traverse (price_line ⦃f = coarse⦄) (coffees ∷ cake ∷ []) ≡ ok (coffees_cost ∷ cake_cost ∷ [])
unfolding traverse
priced_list = rw (coffees_priced, cake_priced)

abbrev bands : List Band
bands =
    record { basis_points = pos 500; sums = cake_cost }
    ∷ record { basis_points = pos 2700; sums = coffees_cost }
    ∷ []

broken_down : tax_breakdown ⦃f = coarse⦄ (coffees ∷ cake ∷ []) ≡ ok bands
unfolding tax_breakdown buckets_loop add_to_bucket sort_bands insert_band band_of total_of
    total_loop lift_money money to_minor is_known_currency exponent_of traverse ◌+ℤ◌
broken_down = rw (coffees_priced, cake_priced)

coffees-IsPriceable : IsPriceable coffees 2 2700 1200
unfolding exponent_of check_discount ◌+ℤ◌ ◌*ℤ◌
coffees-IsPriceable = record {
  known = refl;
  counted = refl;
  positive = omega arith;
  rated = refl;
  in_range = omega arith;
  off = pos 70;
  discounted = (refl, omega int_laws, refl);
  subject = refl;
}

cost-IsConsistent : IsConsistent "HUF" coffees_cost
cost-IsConsistent = price_line-IsConsistent ⦃f = coarse⦄ coffees coffees_priced

div_round_half_up_nearest_example :
    (div_round_half_up (negsuc 24) (pos 0) ≡ err tax_rate)
    × (q : ℤ) × (div_round_half_up (negsuc 24) (pos 10) ≡ ok q)
    × (50 < (2 * abs q + 1) * 10)
    × (2 * abs q * 10 ≤ 60)
    × ((abs q ≡ 0) ⊎ (ltb_ℤ q (pos 0) ≡ true))
div_round_half_up_nearest_example = div_round_half_up_nearest (negsuc 24) (pos 10) (λ e. cc)

price_line-exact_example : price_line ⦃f = coarse⦄ coffees ≡ ok coffees_cost
price_line-exact_example = price_line-exact ⦃f = coarse⦄ coffees 2 2700 1200 coffees-IsPriceable

price_line-eq-ok_example :
    (q : ℕ) × (r : ℕ) × (s : ℕ) × IsPriceable coffees q r s
    × (gross_fits (figures true s r) ≡ true)
    × (coffees_cost ≡ amounts_in "HUF" (figures true s r))
price_line-eq-ok_example = price_line-eq-ok ⦃f = coarse⦄ coffees coffees_priced

price_line-IsConsistent_example : IsConsistent "HUF" coffees_cost
price_line-IsConsistent_example = price_line-IsConsistent ⦃f = coarse⦄ coffees coffees_priced

total_of-exact_example :
    total_of ⦃f = coarse⦄ (coffees_cost ∷ cake_cost ∷ [])
    ≡ ok (record { gross = huf (pos 2250); net = huf (pos 1945); tax = huf (pos 305) })
unfolding ◌+ℤ◌ is_known_currency exponent_of
total_of-exact_example =
    total_of-exact ⦃f = coarse⦄ coffees_cost (cake_cost ∷ []) refl
      (cost-IsConsistent, (price_line-IsConsistent ⦃f = coarse⦄ cake cake_priced, tt))

abbrev at_five : ℤ → Bool
at_five r = eqb_ℤ r (pos 500)

tax_breakdown-sums_example :
    (band_sum gross_minor at_five bands
      ≡ line_sum gross_minor at_five (coffees ∷ cake ∷ []) (coffees_cost ∷ cake_cost ∷ []))
    × (band_sum net_minor at_five bands
        ≡ line_sum net_minor at_five (coffees ∷ cake ∷ []) (coffees_cost ∷ cake_cost ∷ []))
    × (band_sum tax_minor at_five bands
        ≡ line_sum tax_minor at_five (coffees ∷ cake ∷ []) (coffees_cost ∷ cake_cost ∷ []))
tax_breakdown-sums_example =
    tax_breakdown-sums ⦃f = coarse⦄ (coffees ∷ cake ∷ []) priced_list broken_down at_five

tax_breakdown-IsAscending_example : IsAscending bands
tax_breakdown-IsAscending_example =
    tax_breakdown-IsAscending ⦃f = coarse⦄ (coffees ∷ cake ∷ []) broken_down
