-- ===== src/Money.antt =====
-- packages/money/src/currency.ts and money.ts: an amount is a whole count of a currency's smallest
-- unit, and every operation that would leave the safe integers, or mix currencies, throws. A message
-- is a constructor here.
mod Currency
pub mod Text
pub mod Exact
mod Tests
pub use Currency.{Places, inherited, places, object_prototype}
unfoldable pub use Currency.{exponent_of, is_known_currency}
use twenty_four.Prelude.{
  ℕ, String, ◌≡◌, Bool, true, false, not, Option, none, some, List, [], ◌∷◌, ◌||◌, arith,
  if◌then◌else◌,
}
use twenty_four.Prelude.Int.{ℤ, pos, ◌+ℤ◌, ◌-ℤ◌, ◌*ℤ◌, ltb_ℤ, eqb_ℤ}
use twenty_four.Prelude.Equality.{◌==◌, eq_String}
use twenty_four.Prelude.Number.{Number, whole, fractional, is_safe, Float64}
use twenty_four.Prelude.Results.{Result, ok, err, ◌>>=◌, ◌>>◌, throw_if}

pub data MoneyError : Type 0 where
  not_whole unsafe unknown_currency : MoneyError
  not_text not_integer_text not_object missing_currency : MoneyError
  currency_mismatch count_not_whole nothing_to_sum : MoneyError
  no_amount bad_amount too_precise too_large : MoneyError

pub record Money : Type 0 where
  pub minor : ℤ
  pub currency : String

abbrev pub Throws : Type 0 → Type 0
Throws = Result MoneyError

-- `minor(value)`: the brand that every amount carries.
unfoldable pub to_minor : Number → Throws ℤ
to_minor fractional = err not_whole
to_minor (whole n) = if is_safe n then ok n else err unsafe

unfoldable pub money : Number → String → Throws Money
money value currency = do
  throw_if (not (is_known_currency currency)) unknown_currency
  m ← to_minor value
  ok (record { minor = m; currency = currency })

unfoldable pub zero_money : String → Throws Money
zero_money = money (whole (pos 0))

unfoldable pub assert_same_currency : Money → Money → Throws (Unit {0})
assert_same_currency a b = throw_if (not (a.currency == b.currency)) currency_mismatch

abbrev pub in_currency : Throws ℤ → String → Throws Money
in_currency m currency = m >>= λ n. ok (record { minor = n; currency = currency })

unfoldable pub compare_money : Money → Money → Throws ℤ
compare_money a b = do
  assert_same_currency a b
  ok (if ltb_ℤ a.minor b.minor then ℤ.negsuc 0 else if ltb_ℤ b.minor a.minor then pos 1 else pos 0)

unfoldable pub is_zero : Money → Bool
is_zero a = eqb_ℤ a.minor (pos 0)

unfoldable pub is_negative : Money → Bool
is_negative a = ltb_ℤ a.minor (pos 0)

unfoldable pub is_positive : Money → Bool
is_positive a = ltb_ℤ (pos 0) a.minor

module _ ⦃f : Float64⦄ where
  open f use {round}

  unfoldable pub add_money : Money → Money → Throws Money
  add_money a b = do
    assert_same_currency a b
    in_currency (to_minor (whole (round (a.minor +ℤ b.minor)))) a.currency

  unfoldable pub subtract_money : Money → Money → Throws Money
  subtract_money a b = do
    assert_same_currency a b
    in_currency (to_minor (whole (round (a.minor -ℤ b.minor)))) a.currency

  unfoldable pub negate_money : Money → Throws Money
  negate_money a = in_currency (to_minor (whole (pos 0 -ℤ a.minor))) a.currency

  unfoldable pub multiply_money : Money → Number → Throws Money
  multiply_money a fractional = err count_not_whole
  multiply_money a (whole count) =
      in_currency (to_minor (whole (round (a.minor *ℤ count)))) a.currency

  -- The loop of `sumMoney`; the total is a double, and is checked only at the end.
  unfoldable pub sum_loop : Money → ℤ → List Money → Throws ℤ
  sum_loop first total [] = ok total
  sum_loop first total (v ∷ vs) = do
    assert_same_currency first v
    sum_loop first (round (total +ℤ v.minor)) vs

  unfoldable pub sum_money : List Money → Option String → Throws Money
  sum_money [] none = err nothing_to_sum
  sum_money [] (some currency) = if currency == "" then err nothing_to_sum else zero_money currency
  sum_money (v ∷ vs) _ = do
    total ← sum_loop v (pos 0) (v ∷ vs)
    in_currency (to_minor (whole total)) v.currency
