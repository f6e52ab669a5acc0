-- ===== src/Money/Exact.antt =====
-- The arithmetic of packages/money/src/money.ts against the integers.
use twenty_four.Prelude.FloatSum.{Returns, sum_by, AllNonneg, float_sum_by, float_sum_by-from_zero}
use twenty_four.Prelude.{
  ◌≡◌, refl, sym, true, Option, List, [], ◌∷◌, arith, String, if◌then◌else◌, All, Bool-cases, inl,
  inr,
}
use twenty_four.Prelude.Int.{ℤ, pos, ◌+ℤ◌, ◌-ℤ◌, ◌≤ℤ◌, int_laws}
use twenty_four.Prelude.Equality.{◌==◌, eq_String, ==_refl}
use twenty_four.Prelude.Number.{whole, is_safe, Float64, is_safe-round, round-safe}
use twenty_four.Prelude.Results.{ok, err, ◌>>=◌}
use twenty_four.Money.{
  Money, Throws, unsafe, in_currency, currency_mismatch, to_minor, add_money, subtract_money,
  negate_money, sum_loop, sum_money, assert_same_currency,
}

-- An exact whole amount as the code returns it: refused outside the safe integers.
abbrev pub checked : ℤ → String → Throws Money
checked n currency =
    if is_safe n then ok (record { minor = n; currency = currency }) else err unsafe

module _ ⦃f : Float64⦄ where
  open f use {round, round_exact, round_mono}

  -- Rounding never shows: what leaves a single operation is exact, or is refused.
  pub to_minor-round :
      (n : ℤ) → to_minor (whole (round n)) ≡ (if is_safe n then ok n else err unsafe)
  unfolding to_minor
  to_minor-round n = elim (Bool-cases (is_safe n)) [
    | inl e ↦ ground (arith, is_safe-round n, round-safe n)
    | inr e ↦ ground (arith, is_safe-round n)
  ]

  -- Adding two amounts gives the exact sum in their currency, or throws: `currency_mismatch` when the
  -- currencies differ, otherwise `unsafe` when the exact sum is outside the safe integers. Never is
  -- a rounded sum returned.
  pub add_money-exact :
      (a b : Money)
      → add_money a b ≡ (
          if a.currency == b.currency
          then checked (a.minor +ℤ b.minor) a.currency
          else err currency_mismatch)
  unfolding add_money assert_same_currency
  add_money-exact a b = rw (to_minor-round (a.minor +ℤ b.minor)) (ground arith)

  pub subtract_money-exact :
      (a b : Money)
      → subtract_money a b ≡ (
          if a.currency == b.currency
          then checked (a.minor -ℤ b.minor) a.currency
          else err currency_mismatch)
  unfolding subtract_money assert_same_currency
  subtract_money-exact a b = rw (to_minor-round (a.minor -ℤ b.minor)) (ground arith)

  negate_money-exact :
      (b : Money)
      → is_safe b.minor ≡ true
      → negate_money b ≡ ok (record { minor = pos 0 -ℤ b.minor; currency = b.currency })
  unfolding negate_money to_minor ◌-ℤ◌
  negate_money-exact b h = ground arith

  sub-eq-add_negation : (m n : ℤ) → m -ℤ n ≡ m +ℤ (pos 0 -ℤ n)
  sub-eq-add_negation m n = omega int_laws

  -- Taking an amount away is adding its negation, on every branch: for every safe amount taken away,
  -- the two return the same amount or throw the same error.
  pub subtract-eq-add-negate :
      (a b : Money) → is_safe b.minor ≡ true → subtract_money a b ≡ (negate_money b >>= add_money a)
  subtract-eq-add-negate a b safe =
      rw (negate_money-exact b safe, subtract_money-exact a b, sub-eq-add_negation a.minor b.minor)
        (sym (add_money-exact a (record { minor = pos 0 -ℤ b.minor; currency = b.currency })))

-- Every amount of the list is in this currency and not negative.
abbrev pub IsTakings : String → List Money → Type 0
IsTakings currency = All λ v. (v.currency ≡ currency) × (pos 0 ≤ℤ v.minor)

IsTakings-nonneg :
    (currency : String) (vs : List Money) → IsTakings currency vs → AllNonneg Money.minor vs
IsTakings-nonneg currency [] h = tt
IsTakings-nonneg currency (v ∷ vs) (hv, hs) = (hv.1, IsTakings-nonneg currency vs hs)

-- Both are refused, or they are one number.
checked_of_Returns :
    (r exact : ℤ) (currency : String)
    → Returns r exact
    → in_currency (to_minor (whole r)) currency ≡ checked exact currency
unfolding to_minor
checked_of_Returns r exact currency (inl same) = rw same (ground arith)
checked_of_Returns r exact currency (inr past) = ground arith

module _ ⦃f : Float64⦄ where
  open f use {round}

  assert_same_currency_ok :
      (a b : Money) → b.currency ≡ a.currency → assert_same_currency a b ≡ ok tt
  unfolding assert_same_currency
  assert_same_currency_ok a b same = rw (same, ==_refl a.currency)

  -- In one currency the loop adds doubles up, and throws nothing.
  sum_loop-float_sum :
      (first : Money) (t : ℤ) (vs : List Money)
      → IsTakings first.currency vs
      → sum_loop first t vs ≡ ok (float_sum_by Money.minor t vs)
  unfolding sum_loop
  sum_loop-float_sum first t [] h = refl
  sum_loop-float_sum first t (v ∷ vs) (hv, hs) =
      rw (assert_same_currency_ok first v hv.0)
        (sum_loop-float_sum first (round (t +ℤ v.minor)) vs hs)

  -- Summing amounts of one currency, none of them negative, gives their exact sum when that is a safe
  -- integer, and throws `unsafe` when it is not: the running total in doubles loses nothing unseen.
  pub sum_money-exact :
      (v : Money) (vs : List Money) (default : Option String)
      → IsTakings v.currency (v ∷ vs)
      → sum_money (v ∷ vs) default ≡ checked (sum_by Money.minor (v ∷ vs)) v.currency
  unfolding sum_money
  sum_money-exact v vs default h = rw (sum_loop-float_sum v (pos 0) (v ∷ vs) h) (
      checked_of_Returns _ (sum_by Money.minor (v ∷ vs)) v.currency
        (float_sum_by-from_zero Money.minor (v ∷ vs) (IsTakings-nonneg v.currency (v ∷ vs) h)))
