-- ===== src/Money/Text/Tests.antt =====
-- Runs of the parsers of packages/money/src/money.ts, and their theorems at concrete amounts.
use twenty_four.Prelude.{◌≡◌, refl}
use twenty_four.Prelude.Int.{pos, negsuc}
use twenty_four.Prelude.Number.{coarse}
use twenty_four.Prelude.Results.{ok, err, ◌>>=◌}
use twenty_four.Prelude.Decimal.{codes, digits, value}
use twenty_four.Money.{
  Money, is_known_currency, exponent_of, money, to_minor, no_amount, too_precise, bad_amount,
}
use twenty_four.Money.Text.{
  serialise_money, parse_money, to_decimal_string, parse_decimal_input, clean, is_space,
  replace_comma, is_no_amount, sign_and_rest, decimal_shape, all_digits, parse_unsigned,
  break_at_dot,
}
use twenty_four.Money.Text.RoundTrip.{parse-serialise, decimal-round_trip}

abbrev change : Money
change = record { minor = negsuc 4; currency = "BDT" }

shown : to_decimal_string change ≡ ok (codes "-0.05")
unfolding to_decimal_string exponent_of digits
shown = refl

typed_with_a_comma :
    parse_decimal_input ⦃f = coarse⦄ (codes "1 270,5") "BDT"
    ≡ ok (record { minor = pos 127_050; currency = "BDT" })
unfolding parse_decimal_input exponent_of clean is_space replace_comma is_no_amount sign_and_rest
    decimal_shape all_digits parse_unsigned break_at_dot value money to_minor is_known_currency
typed_with_a_comma = refl

refused :
    (parse_decimal_input ⦃f = coarse⦄ (codes "11.505") "BDT" ≡ err too_precise)
    × (parse_decimal_input ⦃f = coarse⦄ (codes "free") "HUF" ≡ err bad_amount)
    × (parse_decimal_input ⦃f = coarse⦄ (codes " ") "HUF" ≡ err no_amount)
unfolding parse_decimal_input exponent_of clean is_space replace_comma is_no_amount sign_and_rest
    decimal_shape all_digits parse_unsigned break_at_dot value money to_minor is_known_currency
refused = (refl, refl, refl)

-- A lone point is no amount that was typed, and it is read as zero.
lone_point :
    parse_decimal_input ⦃f = coarse⦄ (codes ".") "HUF"
    ≡ ok (record { minor = pos 0; currency = "HUF" })
unfolding parse_decimal_input exponent_of clean is_space replace_comma is_no_amount sign_and_rest
    decimal_shape all_digits parse_unsigned break_at_dot value money to_minor is_known_currency
lone_point = refl

parse-serialise_example : parse_money ⦃f = coarse⦄ (serialise_money change) ≡ ok change
unfolding is_known_currency exponent_of
parse-serialise_example = parse-serialise ⦃f = coarse⦄ change refl refl

decimal-round_trip_example :
    (to_decimal_string change >>= λ t. parse_decimal_input ⦃f = coarse⦄ t "BDT") ≡ ok change
unfolding exponent_of
decimal-round_trip_example = decimal-round_trip ⦃f = coarse⦄ change 2 refl refl
