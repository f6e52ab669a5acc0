-- ===== src/Pricing/LineFigures.antt =====
-- What `priceLine` of packages/money/src/pricing.ts comes to before its figures become doubles.
use twenty_four.Prelude.Number.{fractional}
use twenty_four.Prelude.Int.{
  ℤ, pos, negsuc, pos_part, ◌+ℤ◌, ◌-ℤ◌, ◌*ℤ◌, ◌≤ℤ◌, ltb_ℤ, int_laws, +ℤ_pos, *ℤ_pos, -ℤ_pos,
}
use twenty_four.Prelude.Results.{ok, ok-injective, throw_if, >>=-eq-ok, >>-eq-ok, throw_if-eq-ok}
use twenty_four.Pricing.{
  Figures, split_tax, Line, line_figures, Amounts, check_quantity, is_none, exponent_of, check_rate,
  whole, Number, currency_error, check_discount, discount_high, mismatch, discount_negative,
}
use twenty_four.Money.{Money}
use twenty_four.Prelude.Equality.{eq_String, ◌==◌, eq_of_==, ==_refl}
use twenty_four.Pricing.Rounding.{div_round_half_up-pos}
use twenty_four.Prelude.{
  none, some, Option, ℕ, ◌+◌, ◌-◌, ◌*◌, ◌/◌, ◌≤◌, ◌<◌, String, ◌≡◌, refl, sym, Bool, true, false,
  arith, not,
}

-- The figures of `s` subject to tax at `r` basis points, over ℕ.
abbrev pub net_of_gross : ℕ → ℕ → ℕ
net_of_gross s r = (s * 10_000 + (10_000 + r) / 2) / (10_000 + r)

abbrev pub tax_of_net : ℕ → ℕ → ℕ
tax_of_net s r = (s * r + 10_000 / 2) / 10_000

abbrev pub figures : Bool → ℕ → ℕ → Figures
figures true s r = record {
  gross_of = pos s;
  net_of = pos (net_of_gross s r);
  tax_of = pos (s - net_of_gross s r);
}
figures false s r = record {
  gross_of = pos (s + tax_of_net s r);
  net_of = pos s;
  tax_of = pos (tax_of_net s r);
}

-- Tax that is inside a price never exceeds it.
pub net_of_gross-le : (s r : ℕ) → net_of_gross s r ≤ s
net_of_gross-le s r = grind arith

split_tax-pos : (b : Bool) (s r : ℕ) → split_tax b (pos s) (pos r) ≡ ok (figures b s r)
unfolding split_tax
split_tax-pos true s r = rw (
  *ℤ_pos s 10_000,
  +ℤ_pos 10_000 r,
  div_round_half_up-pos (s * 10_000) (10_000 + r) (omega arith),
  -ℤ_pos s (net_of_gross s r) (net_of_gross-le s r),
)
split_tax-pos false s r =
    rw (*ℤ_pos s r, div_round_half_up-pos (s * r) 10_000 (omega arith), +ℤ_pos s (tax_of_net s r))

-- What comes off a line: nothing without a discount, and else the discount, which is in the line's
-- currency and not negative.
abbrev pub IsOff : String → Option Money → ℤ → Type 0
IsOff currency none off = off ≡ pos 0
IsOff currency (some d) off = (d.currency ≡ currency) × (pos 0 ≤ℤ d.minor) × (off ≡ d.minor)

-- A line that can be priced: `q` units at `r` basis points, with `s` subject to tax once a discount
-- that is not negative is off.
pub record IsPriceable (line : Line) (q r s : ℕ) : Type 0 where
  pub known : is_none (exponent_of line.unit_price.currency) ≡ false
  pub counted : line.quantity ≡ whole (pos q)
  pub positive : 0 < q
  pub rated : line.tax_basis_points ≡ whole (pos r)
  pub in_range : r ≤ 100_000
  pub off : ℤ
  pub discounted : IsOff line.unit_price.currency line.discount off
  pub subject : line.unit_price.minor *ℤ pos q ≡ off +ℤ pos s

abbrev pub amounts_in : String → Figures → Amounts
amounts_in currency t = record {
  gross = record { minor = t.gross_of; currency = currency };
  net = record { minor = t.net_of; currency = currency };
  tax = record { minor = t.tax_of; currency = currency };
}

test_false : (a b : ℤ) → b ≤ℤ a → ltb_ℤ a b ≡ false
test_false a b h = ground arith

check_quantity-eq-ok :
    (n : Number) {v : ℤ}
    → check_quantity n ≡ ok v
    → (q : ℕ) × (n ≡ whole (pos q)) × (0 < q) × (v ≡ pos q)
unfolding check_quantity
check_quantity-eq-ok fractional h = cc
check_quantity-eq-ok (whole (pos q)) h = (q, refl, ground arith, ground arith)
check_quantity-eq-ok (whole (negsuc q)) h = absurd (ground arith)

check_rate-eq-ok :
    (n : Number) {v : ℤ}
    → check_rate n ≡ ok v
    → (r : ℕ) × (n ≡ whole (pos r)) × (r ≤ 100_000) × (v ≡ pos r)
unfolding check_rate
check_rate-eq-ok fractional h = cc
check_rate-eq-ok (whole (pos r)) h = (r, refl, ground arith, ground arith)
check_rate-eq-ok (whole (negsuc r)) h = absurd (ground arith)

check_discount-eq :
    (currency : String) (d : Option Money) {off : ℤ}
    → IsOff currency d off
    → check_discount currency d ≡ ok off
unfolding check_discount
check_discount-eq currency none h = rw h refl
check_discount-eq currency (some d) h =
    rw (h.0, h.2, ==_refl currency, test_false d.minor (pos 0) h.1) refl

check_discount-eq-ok :
    (currency : String) (d : Option Money) {off : ℤ}
    → check_discount currency d ≡ ok off
    → IsOff currency d off
unfolding check_discount
check_discount-eq-ok currency none h = ground arith
check_discount-eq-ok currency (some d) h =
    let (same, h1) = >>-eq-ok (not (d.currency == currency)) mismatch _ h in
    let (positive, h2) = >>-eq-ok (ltb_ℤ d.minor (pos 0)) discount_negative _ h1 in
    (eq_of_== d.currency currency (ground arith), ground arith, sym (ok-injective h2))

subject_of_base :
    (base off : ℤ) → ltb_ℤ base off ≡ false → base ≡ off +ℤ pos (pos_part (base -ℤ off))
unfolding ◌+ℤ◌ ◌-ℤ◌
subject_of_base base off h = ground arith

subject_parts :
    (base off : ℤ) (s : ℕ) → base ≡ off +ℤ pos s → (ltb_ℤ base off ≡ false) × (base -ℤ off ≡ pos s)
subject_parts base off s e = rw e (test_false (off +ℤ pos s) off (omega int_laws), omega int_laws)

pub line_figures-eq :
    (line : Line) (q r s : ℕ)
    → IsPriceable line q r s
    → line_figures line ≡ ok (figures line.tax_included s r)
unfolding line_figures check_quantity check_rate
line_figures-eq line q r s p =
    let split = split_tax-pos line.tax_included s r in
    let base = subject_parts (line.unit_price.minor *ℤ pos q) p.off s p.subject in
    rw
      (
        p.known,
        p.counted,
        p.rated,
        check_discount-eq line.unit_price.currency line.discount p.discounted,
      )
      (ground (arith, split, base, p.positive, p.in_range))

pub line_figures-eq-ok :
    (line : Line) {t : Figures}
    → line_figures line ≡ ok t
    → (q : ℕ) × (r : ℕ) × (s : ℕ) × IsPriceable line q r s
unfolding line_figures
line_figures-eq-ok line h =
    let (_, known, h1) =
      >>=-eq-ok (throw_if (is_none (exponent_of line.unit_price.currency)) currency_error) _ h in
    let (q', eq, h2) = >>=-eq-ok (check_quantity line.quantity) _ h1 in
    let (r', er, h3) = >>=-eq-ok (check_rate line.tax_basis_points) _ h2 in
    let (off, ed, h4) = >>=-eq-ok (check_discount line.unit_price.currency line.discount) _ h3 in
    let base = line.unit_price.minor *ℤ q' in
    let (_, fits, _) = >>=-eq-ok (throw_if (ltb_ℤ base off) discount_high) _ h4 in
    let (q, eq', q_pos, vq) = check_quantity-eq-ok line.quantity eq in
    let (r, er', r_le, vr) = check_rate-eq-ok line.tax_basis_points er in
    (
      q,
      r,
      pos_part (base -ℤ off),
      record {
        known = throw_if-eq-ok _ _ known;
        counted = eq';
        positive = q_pos;
        rated = er';
        in_range = r_le;
        off = off;
        discounted = check_discount-eq-ok line.unit_price.currency line.discount ed;
        subject = rw (← vq) (subject_of_base base off (throw_if-eq-ok _ _ fits));
      },
    )
