-- ===== src/Pricing/Breakdown.antt =====
-- `taxBreakdown` of packages/money/src/pricing.ts: the bands of a receipt's tax summary account for
-- every line once, rate by rate.
use mathlib.Core.Path.{subst}
use twenty_four.Prelude.{
  String, ◌≡◌, refl, sym, inl, inr, Bool, true, false, not, ◌||◌, List, [], ◌∷◌, arith, Bool-cases,
  All, All-append,
}
use twenty_four.Prelude.Int.{ℤ, ltb_ℤ, eqb_ℤ, zero-+ℤ}
use twenty_four.Prelude.Number.{Float64}
use twenty_four.Prelude.Results.{
  ok, throw_if, traverse, >>=-eq-ok, throw_if-eq-ok, traverse-nil-eq-ok, traverse-cons-eq-ok,
  ok-injective,
}
use twenty_four.Prelude.Equality.{◌==◌, eq_ℕ, eq_String, eq_of_==}
use twenty_four.Prelude.FloatSum.{sum_by}
use twenty_four.Money.{is_known_currency, exponent_of}
use twenty_four.Pricing.{
  Line, Amounts, Figures, Band, rate_of, price_line, total_loop, total_of, add_to_bucket,
  buckets_loop, insert_band, sort_bands, band_of, tax_breakdown, add_amounts, mismatch, is_none,
}
use twenty_four.Pricing.LineFigures.{amounts_in}
use twenty_four.Pricing.PriceLine.{price_line-eq-ok, inverted}
use twenty_four.Pricing.Totals.{
  IsConsistent, AllConsistent, price_line-IsConsistent, total_of-exact, sums, gross_minor,
  net_minor, tax_minor, zero_figures,
}
use twenty_four.Pricing.RateSums.{
  Buckets, bucket_sum, band_sum, line_sum, bucket_sum-loop, bucket_sum-sort,
}

-- Amounts that a priced line has.
abbrev pub IsSound : Amounts → Type 0
IsSound a = IsConsistent a.gross.currency a × (is_known_currency a.gross.currency ≡ true)

abbrev AllSound : Buckets → Type 0
AllSound = All λ b. All IsSound b.1

first_of_three : (a b c : Bool) → (not a || not b || not c) ≡ false → a ≡ true
first_of_three a b c h = ground arith

known_of_some : (c : String) → is_none (exponent_of c) ≡ false → is_known_currency c ≡ true
unfolding is_known_currency
known_of_some c h = ground arith

add_to_bucket-AllSound :
    (rate : ℤ) (a : Amounts) (bs : Buckets)
    → IsSound a
    → AllSound bs
    → AllSound (add_to_bucket rate a bs)
unfolding add_to_bucket
add_to_bucket-AllSound rate a [] ha h = ((ha, tt), tt)
add_to_bucket-AllSound rate a ((key, bucket) ∷ rest) ha (hb, hs) =
    elim (Bool-cases (eqb_ℤ key rate)) [
      | inl e ↦ rw e (All-append IsSound bucket (a ∷ []) hb (ha, tt), hs)
      | inr e ↦ rw e (hb, add_to_bucket-AllSound rate a rest ha hs)
    ]

insert_band-AllSound :
    (b : ℤ × List Amounts) (bs : Buckets)
    → All IsSound b.1
    → AllSound bs
    → AllSound (insert_band b bs)
unfolding insert_band
insert_band-AllSound b [] hb h = (hb, tt)
insert_band-AllSound b (c ∷ rest) hb (hc, hs) = elim (Bool-cases (ltb_ℤ c.0 b.0)) [
  | inl e ↦ rw e (hc, insert_band-AllSound b rest hb hs)
  | inr e ↦ rw e (hb, (hc, hs))
]

sort_bands-AllSound : (bs : Buckets) → AllSound bs → AllSound (sort_bands bs)
unfolding sort_bands
sort_bands-AllSound [] h = tt
sort_bands-AllSound (b ∷ bs) (hb, hs) =
    insert_band-AllSound b (sort_bands bs) hb (sort_bands-AllSound bs hs)

module _ ⦃f : Float64⦄ where
  price_line-IsSound : (line : Line) {a : Amounts} → price_line line ≡ ok a → IsSound a
  price_line-IsSound line {a} h =
      let (q, r, s, p, _, same) = price_line-eq-ok line h in
      let c = price_line-IsConsistent line h in
      (
        subst (λ k. IsConsistent k a) (sym c.gross_in) c,
        subst (λ k. is_known_currency k ≡ true) (sym c.gross_in)
            (known_of_some line.unit_price.currency p.known),
      )

  buckets_loop-AllSound :
      (bs : Buckets) (lines : List Line) {bs' : Buckets}
      → AllSound bs
      → buckets_loop bs lines ≡ ok bs'
      → AllSound bs'
  unfolding buckets_loop
  buckets_loop-AllSound bs [] h e = rw (← ok-injective e) h
  buckets_loop-AllSound bs (line ∷ lines) h e =
      let (a, ea, rest) = >>=-eq-ok (price_line line) _ e in
      buckets_loop-AllSound (add_to_bucket (rate_of line.tax_basis_points) a bs) lines
        (add_to_bucket-AllSound (rate_of line.tax_basis_points) a bs (price_line-IsSound line ea) h)
        rest

  -- A loop that ends has seen one currency.
  total_loop-AllConsistent :
      (currency : String) (t : Figures) (xs : List Amounts) {r : Figures}
      → All IsSound xs
      → total_loop currency t xs ≡ ok r
      → AllConsistent currency xs
  unfolding total_loop
  total_loop-AllConsistent currency t [] h e = tt
  total_loop-AllConsistent currency t (a ∷ xs) ((c, _), hs) e =
      let differs =
        not (a.gross.currency == currency)
        || not (a.net.currency == currency)
        || not (a.tax.currency == currency) in
      let (_, same, rest) = >>=-eq-ok (throw_if differs mismatch) _ e in
      let in_currency =
        eq_of_== a.gross.currency currency
          (first_of_three _ _ _ (throw_if-eq-ok differs mismatch same)) in
      (
        subst (λ k. IsConsistent k a) in_currency c,
        total_loop-AllConsistent currency (add_amounts t a) xs hs rest,
      )

  total_of-eq-ok :
      (xs : List Amounts) {t : Amounts}
      → All IsSound xs
      → total_of xs ≡ ok t
      → (c : String) × (t ≡ amounts_in c (sums xs))
  unfolding total_of
  total_of-eq-ok [] h e = cc
  total_of-eq-ok (a ∷ xs) h e =
      let (_, loop, _) = >>=-eq-ok (total_loop a.gross.currency zero_figures (a ∷ xs)) _ e in
      let all = total_loop-AllConsistent a.gross.currency zero_figures (a ∷ xs) h loop in
      (a.gross.currency, (inverted _ _ _ (rw (total_of-exact a xs h.0.1 all) at e)).1)

-- A figure of the total is the sum of that figure.
abbrev IsAdditive : (Amounts → ℤ) → Type 0
IsAdditive w = (c : String) (xs : List Amounts) → w (amounts_in c (sums xs)) ≡ sum_by w xs

module _ ⦃f : Float64⦄ (w : Amounts → ℤ) (p : ℤ → Bool) (additive : IsAdditive w) where
  band_sum-traverse :
      (bs : Buckets) {bands : List Band}
      → AllSound bs
      → traverse band_of bs ≡ ok bands
      → band_sum w p bands ≡ bucket_sum w p bs
  unfolding band_of
  band_sum-traverse [] h e = rw (traverse-nil-eq-ok band_of e)
  band_sum-traverse ((rate, xs) ∷ bs) (hb, hs) e =
      let (band, rest, eb, er, same) = traverse-cons-eq-ok band_of (rate, xs) bs e in
      let (t, et, last) = >>=-eq-ok (total_of xs) _ eb in
      let (c, exact) = total_of-eq-ok xs hb et in
      rw (same, ← ok-injective last, exact, additive c xs, band_sum-traverse bs hs er)

  band_sum-eq-line_sum :
      (lines : List Line) {priced : List Amounts} {bands : List Band}
      → traverse price_line lines ≡ ok priced
      → tax_breakdown lines ≡ ok bands
      → band_sum w p bands ≡ line_sum w p lines priced
  unfolding tax_breakdown
  band_sum-eq-line_sum lines et eb =
      let (bs, loop, bands_e) = >>=-eq-ok (buckets_loop [] lines) _ eb in
      let sound = sort_bands-AllSound bs (buckets_loop-AllSound [] lines tt loop) in
      rw
        (
          band_sum-traverse (sort_bands bs) sound bands_e,
          bucket_sum-sort w p bs,
          bucket_sum-loop w p [] lines loop et,
        )
        (zero-+ℤ (line_sum w p lines _))

module _ ⦃f : Float64⦄ where
  -- Whatever rates one asks for, the bands at those rates and the lines at those rates come to the same
  -- gross, the same net and the same tax. At one rate this says what that band holds; at all rates
  -- that no money is lost or counted twice.
  pub tax_breakdown-sums :
      (lines : List Line) {priced : List Amounts} {bands : List Band}
      → traverse price_line lines ≡ ok priced
      → tax_breakdown lines ≡ ok bands
      → (p : ℤ → Bool)
      → (band_sum gross_minor p bands ≡ line_sum gross_minor p lines priced)
        × (band_sum net_minor p bands ≡ line_sum net_minor p lines priced)
        × (band_sum tax_minor p bands ≡ line_sum tax_minor p lines priced)
  tax_breakdown-sums lines et eb p = (
    band_sum-eq-line_sum gross_minor p (λ c xs. refl) lines et eb,
    band_sum-eq-line_sum net_minor p (λ c xs. refl) lines et eb,
    band_sum-eq-line_sum tax_minor p (λ c xs. refl) lines et eb,
  )
