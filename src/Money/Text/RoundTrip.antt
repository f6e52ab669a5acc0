-- ===== src/Money/Text/RoundTrip.antt =====
-- What packages/money/src/money.ts prints it reads back: the wire form, and a receipt's decimals.
use mathlib.Core.List.{append-nil}
use twenty_four.Prelude.{
  ℕ, zero, suc, ◌+◌, ◌-◌, ◌≤◌, String, ◌≡◌, refl, ◌≢◌, true, not, some, [], ◌∷◌, ◌++◌, arith,
  if◌then◌else◌, length, length-append, take, drop, replicate, length-drop, length-replicate, All,
  All-append, All-take, All-drop, All-replicate,
}
use twenty_four.Prelude.Int.{ℤ, pos, abs, ltb_ℤ, signed}
use twenty_four.Prelude.Number.{whole, is_safe, Float64, round-safe}
use twenty_four.Prelude.Decimal.{
  Text, IsDigit, digits, value, value-digits, All-digits, digits-ne-nil,
}
use twenty_four.Prelude.Equality.{eq_String}
use twenty_four.Prelude.Results.{ok, err, ◌>>=◌}
use twenty_four.Money.{
  Money, exponent_of, is_known_currency, Places, places, money, to_minor, too_large,
}
use twenty_four.Money.Text.{
  serialise_money, parse_money, parse_decimal_input, place_point, to_decimal_string, dot,
  is_integer_text, break_at_dot, decimal_shape, sign_text, integer_text, number_of, parse_minor,
  Scalar, parse_unsigned, pad_start,
}
use twenty_four.Money.Text.Plain.{
  IsPlain, All-IsPlain, trim-plain, clean-plain, some_digits_lem, StartsWithDigit,
  StartsWithDigit-of_All, sign_and_rest-sign_text, signed-abs, break_at_dot_lem, break_at_dot_none,
  decimal_shape_whole, decimal_shape_point, is_no_amount-sign_text, fit_fraction_exact,
  known-ne-empty, All-IsPlain-sign_text, take-ne-nil, known_of_places, All-IsPlain-point,
  value_of_split,
}

module _ ⦃f : Float64⦄ where
  open f use {round}

  pub number_of-integer_text : (n : ℤ) → is_safe n ≡ true → number_of (integer_text n) ≡ n
  unfolding integer_text number_of
  number_of-integer_text n safe =
      let ds : Text = digits (abs n) in
      rw
        (
          sign_and_rest-sign_text n ds (
              rw append-nil at
                (StartsWithDigit-of_All ds [] (All-digits (abs n)) (digits-ne-nil (abs n)))),
          value-digits (abs n),
          round-safe (pos (abs n)) (ground arith),
        )
        (signed-abs n)

  parse_minor-integer_text :
      (n : ℤ) → is_safe n ≡ true → parse_minor (Scalar.text (integer_text n)) ≡ ok n
  unfolding parse_minor integer_text is_integer_text number_of to_minor
  parse_minor-integer_text n safe =
      let ds : Text = digits (abs n) in
      rw (
        trim-plain (sign_text n ++ ds)
            (All-IsPlain-sign_text n ds (All-IsPlain ds (All-digits (abs n)))),
        sign_and_rest-sign_text n ds (
            rw append-nil at
              (StartsWithDigit-of_All ds [] (All-digits (abs n)) (digits-ne-nil (abs n)))),
        some_digits_lem ds (All-digits (abs n)) (digits-ne-nil (abs n)),
        value-digits (abs n),
        round-safe (pos (abs n)) (ground arith),
        signed-abs n,
        safe,
      )

  -- An amount in a known currency survives the wire: what `serialise_money` writes, `parse_money`
  -- reads as the same amount, for every safe integer, negative ones included.
  pub parse-serialise :
      (m : Money)
      → is_known_currency m.currency ≡ true
      → is_safe m.minor ≡ true
      → parse_money (serialise_money m) ≡ ok m
  unfolding parse_money serialise_money
  parse-serialise m known safe =
      rw (known, parse_minor-integer_text m.minor safe, known-ne-empty m.currency known)

  -- What stands in front of the digits goes, and the parser comes to the number itself.
  parse_decimal_input-sign_text :
      (n : ℤ) (u : Text) (currency : String) (p : Places)
      → exponent_of currency ≡ some p
      → StartsWithDigit u
      → All IsPlain u
      → decimal_shape u ≡ true
      → parse_decimal_input (sign_text n ++ u) currency
        ≡ parse_unsigned p (ltb_ℤ n (pos 0)) u currency
  unfolding parse_decimal_input
  parse_decimal_input-sign_text n u currency p known head plain shape = ground (
    arith,
    known,
    clean-plain (sign_text n ++ u) (All-IsPlain-sign_text n u plain),
    sign_and_rest-sign_text n u head,
    is_no_amount-sign_text n u head,
    shape,
  )

  -- A number that stands for a safe amount, split at the point or not.
  parse_unsigned-value :
      (n : ℤ) (currency : String) (w : Text)
      → is_known_currency currency ≡ true
      → is_safe n ≡ true
      → value 0 w ≡ abs n
      → (if not (is_safe (round (pos (value 0 w))))
          then err too_large
          else money (whole (signed (ltb_ℤ n (pos 0)) (round (pos (value 0 w))))) currency)
        ≡ ok (record { minor = n; currency = currency })
  unfolding money to_minor
  parse_unsigned-value n currency w known safe e =
      rw (e, round-safe (pos (abs n)) (ground arith), known, signed-abs n, safe) (ground arith)

  parse_unsigned-point :
      (e : ℕ) (n : ℤ) (w r : Text) (currency : String)
      → is_known_currency currency ≡ true
      → is_safe n ≡ true
      → All IsDigit w
      → All IsDigit r
      → w ≢ []
      → length r ≡ e
      → value 0 (w ++ r) ≡ abs n
      → parse_unsigned (places e) (ltb_ℤ n (pos 0)) (w ++ dot ∷ r) currency
        ≡ ok (record { minor = n; currency = currency })
  unfolding parse_unsigned
  parse_unsigned-point e n [] r currency known safe hw hr ne len v = absurd (ne refl)
  parse_unsigned-point e n (c ∷ cs) r currency known safe hw hr ne len v = ground (
    arith,
    break_at_dot_lem (c ∷ cs) r hw,
    break_at_dot_none r hr,
    fit_fraction_exact e r len,
    parse_unsigned-value n currency ((c ∷ cs) ++ r) known safe v,
  )

  parse_unsigned-whole :
      (n : ℤ) (w : Text) (currency : String)
      → is_known_currency currency ≡ true
      → is_safe n ≡ true
      → All IsDigit w
      → w ≢ []
      → value 0 w ≡ abs n
      → parse_unsigned (places 0) (ltb_ℤ n (pos 0)) w currency
        ≡ ok (record { minor = n; currency = currency })
  unfolding parse_unsigned break_at_dot
  parse_unsigned-whole n [] currency known safe hw ne v = absurd (ne refl)
  parse_unsigned-whole n (c ∷ cs) currency known safe hw ne v = ground (
    arith,
    break_at_dot_none (c ∷ cs) hw,
    append-nil cs,
    parse_unsigned-value n currency (c ∷ cs) known safe v,
  )

  parse-whole :
      (n : ℤ) (currency : String)
      → exponent_of currency ≡ some (places 0)
      → is_safe n ≡ true
      → parse_decimal_input (sign_text n ++ digits (abs n)) currency
        ≡ ok (record { minor = n; currency = currency })
  parse-whole n currency known safe =
      let ds : Text = digits (abs n) in
      let all : All IsDigit ds = All-digits (abs n) in
      let ne : ds ≢ [] = digits-ne-nil (abs n) in
      rw
        (parse_decimal_input-sign_text n ds currency (places 0) known
          (rw append-nil at (StartsWithDigit-of_All ds [] all ne)) (All-IsPlain ds all)
          (decimal_shape_whole ds all))
        (parse_unsigned-whole n ds currency (known_of_places currency known) safe all ne
          (value-digits (abs n)))

  -- What `place_point` prints for a number of `e` places, split where it put the point.
  parse-place_point :
      (e : ℕ) (n : ℤ) (currency : String)
      → exponent_of currency ≡ some (places e)
      → is_safe n ≡ true
      → parse_decimal_input (sign_text n ++ place_point e (digits (abs n))) currency
        ≡ ok (record { minor = n; currency = currency })
  parse-place_point e n currency known safe =
      let ds : Text = digits (abs n) in
      let padded : Text = pad_start (e + 1) ds in
      let k : ℕ = length padded - e in
      let w : Text = take k padded in
      let r : Text = drop k padded in
      let all : All IsDigit padded =
        All-append IsDigit (replicate (e + 1 - length ds) 48) ds
          (All-replicate IsDigit (e + 1 - length ds) 48 refl) (All-digits (abs n)) in
      let long : e + 1 ≤ length padded = omega (
        arith,
        length-append {0} (replicate (e + 1 - length ds) 48) ds,
        length-replicate {A = ℕ} (e + 1 - length ds) 48,
      ) in
      let hw : All IsDigit w = All-take IsDigit k padded all in
      let hr : All IsDigit r = All-drop IsDigit k padded all in
      let ne : w ≢ [] = take-ne-nil k padded (omega arith) (omega arith) in
      rw
        (parse_decimal_input-sign_text n (w ++ dot ∷ r) currency (places e) known
          (StartsWithDigit-of_All w (dot ∷ r) hw ne) (All-IsPlain-point w r hw hr)
          (decimal_shape_point w r hw hr))
        (parse_unsigned-point e n w r currency (known_of_places currency known) safe hw hr ne
          (omega (arith, length-drop {0} k padded))
          (rw (value_of_split (e + 1) k ds) (value-digits (abs n))))

  -- What a receipt shows is what a price field reads: for a currency with a known number of decimal
  -- places, the decimal string of any safe amount, negative ones included, parses to that amount.
  pub decimal-round_trip :
      (m : Money) (e : ℕ)
      → exponent_of m.currency ≡ some (places e)
      → is_safe m.minor ≡ true
      → (to_decimal_string m >>= λ t. parse_decimal_input t m.currency) ≡ ok m
  unfolding to_decimal_string
  decimal-round_trip m zero known safe = ground (arith, parse-whole m.minor m.currency known safe)
  decimal-round_trip m (suc e) known safe =
      ground (arith, parse-place_point (suc e) m.minor m.currency known safe)
