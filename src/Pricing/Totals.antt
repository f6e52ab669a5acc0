-- ===== src/Pricing/Totals.antt =====
-- `totalOf` of packages/money/src/pricing.ts: the total of priced lines is their exact sum.
use twenty_four.Prelude.{
  ℕ, ◌-◌, String, ◌≡◌, refl, sym, ap, inl, inr, Bool, true, false, List, [], ◌∷◌, arith,
  if◌then◌else◌, All,
}
use twenty_four.Prelude.Int.{ℤ, pos, ◌+ℤ◌, ◌≤ℤ◌, int_laws, +ℤ_pos}
use twenty_four.Prelude.Number.{whole, is_safe, Float64}
use twenty_four.Prelude.Results.{ok, err}
use twenty_four.Prelude.Equality.{◌==◌, eq_ℕ, eq_String, ==_refl}
use twenty_four.Prelude.FloatSum.{
  Returns, sum_by, AllNonneg, float_sum_by, float_sum_by-from_zero, sum_by-nonneg,
}
use twenty_four.Money.{unsafe, is_known_currency, money, to_minor}
use twenty_four.Pricing.{
  Line, Amounts, Figures, price_line, total_loop, total_of, of_money, lift_money, add_amounts,
}
use twenty_four.Pricing.LineFigures.{figures, amounts_in, net_of_gross, net_of_gross-le, tax_of_net}
use twenty_four.Pricing.PriceLine.{price_line-eq-ok, gross_fits}

abbrev pub gross_minor : Amounts → ℤ
gross_minor a = a.gross.minor

abbrev pub net_minor : Amounts → ℤ
net_minor a = a.net.minor

abbrev pub tax_minor : Amounts → ℤ
tax_minor a = a.tax.minor

-- Amounts that add up: one currency, nothing negative, and the gross is the net and the tax.
pub record IsConsistent (currency : String) (a : Amounts) : Type 0 where
  pub gross_in : a.gross.currency ≡ currency
  pub net_in : a.net.currency ≡ currency
  pub tax_in : a.tax.currency ≡ currency
  pub net_nonneg : pos 0 ≤ℤ a.net.minor
  pub tax_nonneg : pos 0 ≤ℤ a.tax.minor
  pub adds_up : a.gross.minor ≡ a.net.minor +ℤ a.tax.minor

amounts_in-IsConsistent :
    (currency : String) (b : Bool) (s r : ℕ)
    → IsConsistent currency (amounts_in currency (figures b s r))
amounts_in-IsConsistent currency true s r = record {
  gross_in = refl;
  net_in = refl;
  tax_in = refl;
  net_nonneg = omega arith;
  tax_nonneg = omega arith;
  adds_up =
      rw (+ℤ_pos (net_of_gross s r) (s - net_of_gross s r))
        (ap pos (omega (arith, net_of_gross-le s r)));
}
amounts_in-IsConsistent currency false s r = record {
  gross_in = refl;
  net_in = refl;
  tax_in = refl;
  net_nonneg = omega arith;
  tax_nonneg = omega arith;
  adds_up = sym (+ℤ_pos s (tax_of_net s r));
}

-- The exact sums of a list of amounts.
abbrev pub sums : List Amounts → Figures
sums xs = record {
  gross_of = sum_by gross_minor xs;
  net_of = sum_by net_minor xs;
  tax_of = sum_by tax_minor xs;
}

abbrev pub AllConsistent : String → List Amounts → Type 0
AllConsistent currency = All (IsConsistent currency)

same_currency : {a b : String} → a ≡ b → (a == b) ≡ true
same_currency {a} {b} e = rw e (==_refl b)

abbrev pub zero_figures : Figures
zero_figures = record { gross_of = pos 0; net_of = pos 0; tax_of = pos 0 }

AllConsistent-nonneg :
    (currency : String) (xs : List Amounts)
    → AllConsistent currency xs
    → AllNonneg gross_minor xs × AllNonneg net_minor xs × AllNonneg tax_minor xs
AllConsistent-nonneg currency [] h = (tt, tt, tt)
AllConsistent-nonneg currency (a ∷ xs) (c, cs) =
    let (g, n, t) = AllConsistent-nonneg currency xs cs in
    (
      ((rw c.adds_up (omega (int_laws, c.net_nonneg, c.tax_nonneg))), g),
      (c.net_nonneg, n),
      (c.tax_nonneg, t),
    )

-- The sums add up as the amounts do.
pub sums-add_up :
    (currency : String) (xs : List Amounts)
    → AllConsistent currency xs
    → sum_by gross_minor xs ≡ sum_by net_minor xs +ℤ sum_by tax_minor xs
sums-add_up currency [] h = omega int_laws
sums-add_up currency (a ∷ xs) (c, cs) = rw (c.adds_up, sums-add_up currency xs cs) (omega int_laws)

fits_of_sum :
    (g n t : ℤ)
    → pos 0 ≤ℤ n
    → pos 0 ≤ℤ t
    → g ≡ n +ℤ t
    → is_safe g ≡ true
    → (is_safe n ≡ true) × (is_safe t ≡ true)
unfolding ◌+ℤ◌
fits_of_sum g n t hn ht e h = ground arith

sums_fit :
    (currency : String) (xs : List Amounts)
    → AllConsistent currency xs
    → is_safe (sum_by gross_minor xs) ≡ true
    → (is_safe (sum_by net_minor xs) ≡ true) × (is_safe (sum_by tax_minor xs) ≡ true)
sums_fit currency xs h =
    let (_, n, t) = AllConsistent-nonneg currency xs h in
    fits_of_sum _ _ _ (sum_by-nonneg net_minor xs n) (sum_by-nonneg tax_minor xs t)
      (sums-add_up currency xs h)

-- An amount leaves through `money`: it is the exact sum, or both are past the safe range.
lift_money_of_Returns :
    (r exact : ℤ) (currency : String)
    → is_known_currency currency ≡ true
    → Returns r exact
    → lift_money (money (whole r) currency) ≡ (
        if is_safe exact
        then ok (record { minor = exact; currency = currency })
        else err (of_money unsafe))
unfolding lift_money money to_minor
lift_money_of_Returns r exact currency known (inl same) = rw (known, same) (ground arith)
lift_money_of_Returns r exact currency known (inr past) = rw known (ground arith)

module _ ⦃f : Float64⦄ where
  -- Every line that is priced adds up in its own currency: neither its net nor its tax is negative, and
  -- its gross is exactly their sum.
  pub price_line-IsConsistent :
      (line : Line) {a : Amounts} → price_line line ≡ ok a → IsConsistent line.unit_price.currency a
  price_line-IsConsistent line h =
      let (q, r, s, _, _, same) = price_line-eq-ok line h in
      rw same (amounts_in-IsConsistent line.unit_price.currency line.tax_included s r)

  total_loop-float_sum :
      (currency : String) (t : Figures) (xs : List Amounts)
      → AllConsistent currency xs
      → total_loop currency t xs
        ≡ ok (record {
          gross_of = float_sum_by gross_minor t.gross_of xs;
          net_of = float_sum_by net_minor t.net_of xs;
          tax_of = float_sum_by tax_minor t.tax_of xs;
        })
  unfolding total_loop
  total_loop-float_sum currency t [] h = refl
  total_loop-float_sum currency t (a ∷ xs) (c, cs) =
      rw (same_currency c.gross_in, same_currency c.net_in, same_currency c.tax_in)
        (total_loop-float_sum currency (add_amounts t a) xs cs)

  -- The total of consistent amounts in a known currency is their exact sum, figure by figure, unless
  -- the exact gross is outside the safe integers, which throws.
  pub total_of-exact :
      (a : Amounts) (xs : List Amounts)
      → is_known_currency a.gross.currency ≡ true
      → AllConsistent a.gross.currency (a ∷ xs)
      → total_of (a ∷ xs) ≡ (
          if gross_fits (sums (a ∷ xs))
          then ok (amounts_in a.gross.currency (sums (a ∷ xs)))
          else err (of_money unsafe))
  unfolding total_of
  total_of-exact a xs known h =
      let currency = a.gross.currency in
      let all = a ∷ xs in
      let (gross_n, net_n, tax_n) = AllConsistent-nonneg currency all h in
      rw
        (
          total_loop-float_sum currency zero_figures all h,
          lift_money_of_Returns _ _ currency known (float_sum_by-from_zero gross_minor all gross_n),
          lift_money_of_Returns _ _ currency known (float_sum_by-from_zero net_minor all net_n),
          lift_money_of_Returns _ _ currency known (float_sum_by-from_zero tax_minor all tax_n),
        )
        (ground (arith, sums_fit currency all h))
