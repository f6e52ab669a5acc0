-- ===== src/Pricing/PriceLine.antt =====
-- `priceLine` of packages/money/src/pricing.ts: which lines it prices, and what it charges.
use twenty_four.Prelude.{
  ℕ, String, ◌≡◌, refl, inl, inr, Bool, true, false, arith, if◌then◌else◌, Bool-cases,
}
use twenty_four.Prelude.Int.{ℤ}
use twenty_four.Prelude.Number.{is_safe, Float64, round-safe, is_safe-round}
use twenty_four.Prelude.Results.{ok, err, >>=-eq-ok}
use twenty_four.Pricing.{
  Line, Amounts, Figures, currency_error, line_figures, price_line, to_safe, as_amounts,
}
use twenty_four.Pricing.LineFigures.{
  IsPriceable, figures, amounts_in, net_of_gross-le, line_figures-eq, line_figures-eq-ok,
}

-- The larger figure decides whether all three fit a double.
abbrev pub gross_fits : Figures → Bool
gross_fits t = is_safe t.gross_of

figures_fit :
    (included : Bool) (s r : ℕ)
    → let t = figures included s r in
      gross_fits t ≡ true → (is_safe t.net_of ≡ true) × (is_safe t.tax_of ≡ true)
figures_fit true s r h = ground (arith, net_of_gross-le s r)
figures_fit false s r h = ground arith

pub inverted :
    {A E : Type 0} (b : Bool) (x : A) (e : E) {a : A}
    → (if b then ok x else err e) ≡ ok a
    → (b ≡ true) × (a ≡ x)
inverted true x e h = (refl, cc)
inverted false x e h = cc

module _ ⦃f : Float64⦄ where
  open f use {round}

  to_safe-eq : (n : ℤ) → to_safe n ≡ (if is_safe n then ok n else err currency_error)
  unfolding to_safe
  to_safe-eq n = elim (Bool-cases (is_safe n)) [
    | inl e ↦ ground (arith, is_safe-round n, round-safe n)
    | inr e ↦ ground (arith, is_safe-round n)
  ]

  -- The three conversions at the end of `priceLine`.
  price_figures :
      (currency : String) (t : Figures)
      → (gross_fits t ≡ true → (is_safe t.net_of ≡ true) × (is_safe t.tax_of ≡ true))
      → as_amounts currency t
        ≡ (if gross_fits t then ok (amounts_in currency t) else err currency_error)
  unfolding as_amounts
  price_figures currency t fit =
      rw (to_safe-eq t.gross_of, to_safe-eq t.net_of, to_safe-eq t.tax_of) (ground (arith, fit))

  priced :
      (line : Line) {a : Amounts}
      → price_line line ≡ ok a
      → (t : Figures) × (line_figures line ≡ ok t) × (as_amounts line.unit_price.currency t ≡ ok a)
  unfolding price_line
  priced line h = >>=-eq-ok (line_figures line) _ h

  -- A line that can be priced, `q` units with `s` subject to tax at `r` basis points, costs exactly the
  -- figures over ℕ: with the tax inside the price the gross is `s`, the net is `s * 10000 / (10000 + r)`
  -- rounded once and the tax is the rest; with the tax on top the net is `s`, the tax is
  -- `s * r / 10000` rounded once and the gross is their sum. It throws `currency` exactly when the
  -- gross is outside the safe integers.
  pub price_line-exact :
      (line : Line) (q r s : ℕ)
      → IsPriceable line q r s
      → price_line line ≡ (
          let t = figures line.tax_included s r in
          if gross_fits t then ok (amounts_in line.unit_price.currency t) else err currency_error)
  unfolding price_line
  price_line-exact line q r s p = rw (line_figures-eq line q r s p) (
      price_figures line.unit_price.currency (figures line.tax_included s r)
        (figures_fit line.tax_included s r))

  -- Every line that is priced can be priced: its quantity is a positive whole number, its rate is a
  -- whole number from 0 to 100000, its currency is known, its discount is in that currency, not
  -- negative and no more than the line, and its gross is a safe integer.
  pub price_line-eq-ok :
      (line : Line) {a : Amounts}
      → price_line line ≡ ok a
      → (q : ℕ) × (r : ℕ) × (s : ℕ) × IsPriceable line q r s
        × (gross_fits (figures line.tax_included s r) ≡ true)
        × (a ≡ amounts_in line.unit_price.currency (figures line.tax_included s r))
  price_line-eq-ok line h =
      let (_, ef, _) = priced line h in
      let (q, r, s, p) = line_figures-eq-ok line ef in
      let (fits, same) = inverted _ _ _ (rw (price_line-exact line q r s p) at h) in
      (q, r, s, p, fits, same)
