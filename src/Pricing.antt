-- ===== src/Pricing.antt =====
-- packages/money/src/pricing.ts: from catalog prices to the exact figures of a sale. `bigint` is ℤ
-- without bounds; a figure leaves as a double, so it is rounded and then checked.
pub mod Rounding
pub mod LineFigures
pub mod PriceLine
pub mod Totals
pub mod RateSums
pub mod Breakdown
pub mod Ascending
mod Tests
use twenty_four.Prelude.{
  ℕ, zero, suc, ◌+◌, ◌-◌, ◌*◌, ◌/◌, ◌%◌, ◌^◌, ◌≤◌, ◌<◌, String, ◌≡◌, refl, sym, ap, ◌∙◌, ◌≢◌, ◌↔◌,
  ◌⊎◌, inl, inr, Bool, true, false, not, ◌&&◌, ◌||◌, Option, none, some, List, [], ◌∷◌, ◌++◌, map,
  arith, ltb, leb, nat_eq, if◌then◌else◌, Bool-cases, Option-cases, length, length-append, take,
  drop, replicate, take-append-drop, length-drop, length-replicate, All, All-append, All-take,
  All-drop, All-replicate, select, find, exists, includes, includes-append, includes-select,
  All-includes,
}
use twenty_four.Prelude.Int.{
  ℤ, pos, negsuc, pos_part, neg_part, sub_ℕ, ◌+ℤ◌, ◌-ℤ◌, ◌*ℤ◌, abs, ◌≤ℤ◌, ltb_ℤ, eqb_ℤ, +ℤ_parts,
  -ℤ_parts, eq_of_parts, int_laws, +ℤ_pos, *ℤ_pos, -ℤ_pos, zero-+ℤ, neg_part_of_nonneg, signed,
  abs-signed, ltb_ℤ-signed, differ,
}
use twenty_four.Prelude.Equality.{Eq, ◌==◌, eq_ℕ, eq_String, by_index, eq_of_==, ==_refl}
use twenty_four.Prelude.Number.{
  Number, whole, fractional, max_safe, is_safe, Float64, round-safe, is_safe-round, round-past,
  coarse,
}
use twenty_four.Prelude.Results.{
  Result, ok, err, ◌>>=◌, ◌>>◌, throw_if, traverse, >>=-eq-ok, throw_if-eq-ok,
}
use twenty_four.Money.{Money, MoneyError, exponent_of, money}

-- `PricingErrorCode`, and what `money` throws through `totalOf`.
pub data PricingError : Type 0 where
  currency_error mismatch quantity_error tax_rate discount_high discount_negative empty :
      PricingError
  of_money : MoneyError → PricingError

abbrev pub Prices : Type 0 → Type 0
Prices = Result PricingError

pub record Line : Type 0 where
  pub quantity : Number
  pub unit_price : Money
  pub tax_basis_points : Number
  pub tax_included : Bool
  pub discount : Option Money

pub record Amounts : Type 0 where
  pub gross : Money
  pub net : Money
  pub tax : Money

pub record Figures : Type 0 where
  pub gross_of : ℤ
  pub net_of : ℤ
  pub tax_of : ℤ

-- `-q` when the signs of numerator and denominator differ.
unfoldable pub div_round_half_up : ℤ → ℤ → Prices ℤ
div_round_half_up numerator denominator =
    let negative = differ (ltb_ℤ numerator (pos 0)) (ltb_ℤ denominator (pos 0)) in
    let quotient = (abs numerator + abs denominator / 2) / abs denominator in
    if eqb_ℤ denominator (pos 0) then err tax_rate else ok (signed negative (pos quotient))

-- `quantity` as a positive whole number
unfoldable pub check_quantity : Number → Prices ℤ
check_quantity fractional = err quantity_error
check_quantity (whole q) = if ltb_ℤ (pos 0) q then ok q else err quantity_error

unfoldable pub check_rate : Number → Prices ℤ
check_rate fractional = err tax_rate
check_rate (whole r) = if ltb_ℤ r (pos 0) || ltb_ℤ (pos 100_000) r then err tax_rate else ok r

-- the discount in minor units, 0 when there is none
unfoldable pub check_discount : String → Option Money → Prices ℤ
check_discount currency none = ok (pos 0)
check_discount currency (some d) = do
  throw_if (not (d.currency == currency)) mismatch
  throw_if (ltb_ℤ d.minor (pos 0)) discount_negative
  ok d.minor

-- The two ways to split what is subject to tax.
unfoldable pub split_tax : Bool → ℤ → ℤ → Prices Figures
split_tax true subject rate = do
  net ← div_round_half_up (subject *ℤ pos 10_000) (pos 10_000 +ℤ rate)
  ok (record { gross_of = subject; net_of = net; tax_of = subject -ℤ net })
split_tax false subject rate = do
  tax ← div_round_half_up (subject *ℤ rate) (pos 10_000)
  ok (record { gross_of = subject +ℤ tax; net_of = subject; tax_of = tax })

abbrev pub is_none {ℓ} : {A : Type ℓ} → Option A → Bool
is_none none = true
is_none (some _) = false

-- The figures of a line before they become doubles.
unfoldable pub line_figures : Line → Prices Figures
line_figures line = do
  throw_if (is_none (exponent_of line.unit_price.currency)) currency_error
  quantity ← check_quantity line.quantity
  rate ← check_rate line.tax_basis_points
  discount ← check_discount line.unit_price.currency line.discount
  let base = line.unit_price.minor *ℤ quantity
  throw_if (ltb_ℤ base discount) discount_high
  split_tax line.tax_included (base -ℤ discount) rate

unfoldable pub lift_money : {A : Type 0} → Result MoneyError A → Prices A
lift_money (ok a) = ok a
lift_money (err e) = err (of_money e)

-- One row of the tax summary; its three sums are those of the lines at its rate.
pub record Band : Type 0 where
  pub basis_points : ℤ
  pub sums : Amounts

abbrev pub rate_of : Number → ℤ
rate_of (whole r) = r
rate_of fractional = pos 0

-- The map of `taxBreakdown`, in insertion order. (A rate that is no whole number throws before it
-- becomes a key.)
unfoldable pub add_to_bucket : ℤ → Amounts → List (ℤ × List Amounts) → List (ℤ × List Amounts)
add_to_bucket rate a [] = (rate, a ∷ []) ∷ []
add_to_bucket rate a ((key, bucket) ∷ rest) =
    if eqb_ℤ key rate
    then (key, bucket ++ (a ∷ [])) ∷ rest
    else (key, bucket) ∷ add_to_bucket rate a rest

-- `.sort((a, b) => a[0] - b[0])`
unfoldable pub insert_band : ℤ × List Amounts → List (ℤ × List Amounts) → List (ℤ × List Amounts)
insert_band b [] = b ∷ []
insert_band b (c ∷ rest) = if ltb_ℤ c.0 b.0 then c ∷ insert_band b rest else b ∷ c ∷ rest

unfoldable pub sort_bands : List (ℤ × List Amounts) → List (ℤ × List Amounts)
sort_bands [] = []
sort_bands (b ∷ rest) = insert_band b (sort_bands rest)

module _ ⦃f : Float64⦄ where
  open f use {round}

  unfoldable pub to_safe : ℤ → Prices ℤ
  to_safe value = if is_safe (round value) then ok (round value) else err currency_error

  -- The end of `priceLine`: each figure becomes a double, and is checked.
  unfoldable pub as_amounts : String → Figures → Prices Amounts
  as_amounts currency figures = do
    gross ← to_safe figures.gross_of
    net ← to_safe figures.net_of
    tax ← to_safe figures.tax_of
    ok (record {
      gross = record { minor = gross; currency = currency };
      net = record { minor = net; currency = currency };
      tax = record { minor = tax; currency = currency };
    })

  unfoldable pub price_line : Line → Prices Amounts
  price_line line = do figures ← line_figures line; as_amounts line.unit_price.currency figures

  -- `gross += …; net += …; tax += …`
  abbrev pub add_amounts : Figures → Amounts → Figures
  add_amounts t a = record {
    gross_of = round (t.gross_of +ℤ a.gross.minor);
    net_of = round (t.net_of +ℤ a.net.minor);
    tax_of = round (t.tax_of +ℤ a.tax.minor);
  }

  -- The loop of `totalOf`: three running doubles.
  unfoldable pub total_loop : String → Figures → List Amounts → Prices Figures
  total_loop currency t [] = ok t
  total_loop currency t (a ∷ rest) = do
    throw_if
        (not (a.gross.currency == currency)
          || not (a.net.currency == currency)
          || not (a.tax.currency == currency))
        mismatch
    total_loop currency (add_amounts t a) rest

  unfoldable pub total_of : List Amounts → Prices Amounts
  total_of [] = err empty
  total_of (a ∷ rest) = do
    let currency = a.gross.currency
    t ← total_loop currency (record { gross_of = pos 0; net_of = pos 0; tax_of = pos 0 }) (a ∷ rest)
    gross ← lift_money (money (whole t.gross_of) currency)
    net ← lift_money (money (whole t.net_of) currency)
    tax ← lift_money (money (whole t.tax_of) currency)
    ok (record { gross = gross; net = net; tax = tax })

  pub price_lines : List Line → Prices (List Amounts × Amounts)
  price_lines lines = do
    priced ← traverse price_line lines
    total ← total_of priced
    ok (priced, total)

  unfoldable pub buckets_loop :
      List (ℤ × List Amounts) → List Line → Prices (List (ℤ × List Amounts))
  buckets_loop buckets [] = ok buckets
  buckets_loop buckets (line ∷ lines) = do
    amounts ← price_line line
    buckets_loop (add_to_bucket (rate_of line.tax_basis_points) amounts buckets) lines

  unfoldable pub band_of : ℤ × List Amounts → Prices Band
  band_of (rate, amounts) = do
    summed ← total_of amounts
    ok (record { basis_points = rate; sums = summed })

  unfoldable pub tax_breakdown : List Line → Prices (List Band)
  tax_breakdown lines = do buckets ← buckets_loop [] lines; traverse band_of (sort_bands buckets)
