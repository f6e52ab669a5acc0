-- ===== src/Money/Text.antt =====
-- packages/money/src/money.ts, where text comes in and goes out: the wire form of an amount, the
-- decimal string of a receipt, and what a merchant types into a price field.
mod Plain
pub mod RoundTrip
mod Tests
use twenty_four.Prelude.{
  ℕ, zero, suc, ◌+◌, ◌-◌, String, Bool, true, false, not, Option, none, some, [], ◌∷◌, ◌++◌, ◌&&◌,
  ◌||◌, if◌then◌else◌, leb, ltb, nat_eq, length, take, drop, replicate, select,
}
use twenty_four.Prelude.Int.{ℤ, pos, ◌-ℤ◌, abs, ltb_ℤ, signed}
use twenty_four.Prelude.Equality.{◌==◌, eq_String}
use twenty_four.Prelude.Number.{Number, whole, is_safe, Float64}
use twenty_four.Prelude.Decimal.{Text, is_digit, digits, value}
use twenty_four.Prelude.Results.{ok, err, ◌>>◌, throw_if}
use twenty_four.Money.{
  unknown_currency, not_text, not_integer_text, not_object, missing_currency, no_amount, bad_amount,
  too_precise, too_large, Money, Throws, to_minor, money, in_currency, Places, places, inherited,
  exponent_of, is_known_currency,
}

-- A value of type `unknown` that came from JSON, as far as the parsers tell such values apart.
-- `other` is any that is neither a number nor a string.
pub data Scalar : Type 0 where
  number : Number → Scalar
  text : Text → Scalar
  other : Scalar

-- An object's fields `minor` and `currency`; `none` is a currency that is absent or no string.
pub data Unknown : Type 0 where
  scalar : Scalar → Unknown
  object : Scalar → Option String → Unknown

-- `\s`, and what `trim` removes
pub is_space : ℕ → Bool
is_space c =
    (leb 9 c && leb c 13)
    || nat_eq c 32
    || nat_eq c 0xa0
    || nat_eq c 0x1680
    || (leb 0x2000 c && leb c 0x200a)
    || nat_eq c 0x2028
    || nat_eq c 0x2029
    || nat_eq c 0x202f
    || nat_eq c 0x205f
    || nat_eq c 0x3000
    || nat_eq c 0xfeff

abbrev pub minus : ℕ
minus = 45

abbrev pub dot : ℕ
dot = 46

abbrev pub comma : ℕ
comma = 44

pub trim_start : Text → Text
trim_start [] = []
trim_start (c ∷ cs) = let rest = trim_start cs in if is_space c then rest else c ∷ cs

pub trim_end : Text → Text
trim_end [] = []
trim_end (c ∷ cs) =
    let rest = trim_end cs in
    elim rest [ [] ↦ if is_space c then [] else c ∷ [] | d ∷ ds ↦ c ∷ d ∷ ds ]

pub trim : Text → Text
trim cs = trim_end (trim_start cs)

pub all_digits : Text → Bool
all_digits [] = true
all_digits (c ∷ cs) = is_digit c && all_digits cs

-- `\d+`
pub some_digits : Text → Bool
some_digits [] = false
some_digits (c ∷ cs) = all_digits (c ∷ cs)

-- a leading `-`, and what follows it
pub sign_and_rest : Text → Bool × Text
sign_and_rest [] = (false, [])
sign_and_rest (c ∷ cs) = if nat_eq c minus then (true, cs) else (false, c ∷ cs)

-- `/^-?\d+$/`
pub is_integer_text : Text → Bool
is_integer_text cs = some_digits (sign_and_rest cs).1

-- what comes before the first dot, and what comes behind it
pub break_at_dot : Text → Text × Text
break_at_dot [] = ([], [])
break_at_dot (c ∷ cs) =
    let rest = break_at_dot cs in if nat_eq c dot then ([], cs) else (c ∷ rest.0, rest.1)

-- `/^\d*(\.\d*)?$/`
pub decimal_shape : Text → Bool
decimal_shape [] = true
decimal_shape (c ∷ cs) =
    let rest = decimal_shape cs in
    if nat_eq c dot then all_digits cs else if is_digit c then rest else false

-- `.replace(',', '.')`, which replaces the first
pub replace_comma : Text → Text
replace_comma [] = []
replace_comma (c ∷ cs) =
    let rest = replace_comma cs in if nat_eq c comma then dot ∷ cs else c ∷ rest

-- `digits.padStart(width, '0')` and `.padEnd`
abbrev pub pad_start : ℕ → Text → Text
pad_start width cs = replicate (width - length cs) 48 ++ cs

abbrev pub pad_end : ℕ → Text → Text
pad_end width cs = cs ++ replicate (width - length cs) 48

-- The sign, the whole part and the fraction of an amount with `e` decimal places.
abbrev pub place_point : ℕ → Text → Text
place_point e ds =
    let padded = pad_start (e + 1) ds in
    let n = length padded - e in take n padded ++ dot ∷ drop n padded

abbrev pub sign_text : ℤ → Text
sign_text n = if ltb_ℤ n (pos 0) then minus ∷ [] else []

-- `String(value)` of a whole number
pub integer_text : ℤ → Text
integer_text n = sign_text n ++ digits (abs n)

pub serialise_money : Money → Unknown
serialise_money m = object (Scalar.text (integer_text m.minor)) (some m.currency)

-- With an inherited entry for its exponent the padding and both slices are by `NaN`, which is 0.
pub to_decimal_string : Money → Throws Text
to_decimal_string m = elim (exponent_of m.currency) [
  | none ↦ err unknown_currency
  | some inherited ↦ ok (sign_text m.minor ++ dot ∷ digits (abs m.minor))
  | some (places zero) ↦ ok (sign_text m.minor ++ digits (abs m.minor))
  | some (places (suc e)) ↦ ok (sign_text m.minor ++ place_point (suc e) (digits (abs m.minor)))
]

-- A fraction against an exponent: what is missing at its end, or `none` when it is too long.
abbrev pub fit_fraction : Places → Text → Option Text
fit_fraction inherited fraction = some fraction
fit_fraction (places e) fraction =
    if ltb e (length fraction) then none else some (pad_end e fraction)

abbrev pub or_zero : Text → Text
or_zero [] = 48 ∷ []
or_zero (c ∷ cs) = c ∷ cs

-- the text with its spaces off and its first comma a dot
pub clean : Text → Text
clean input = replace_comma (select (λ c. not (is_space c)) input)

pub is_no_amount : Text → Bool
is_no_amount [] = true
is_no_amount (c ∷ []) = nat_eq c minus
is_no_amount _ = false

module _ ⦃f : Float64⦄ where
  open f use {round}

  -- `Number(text)` of an optional sign and digits
  pub number_of : Text → ℤ
  number_of cs = let (negative, ds) = sign_and_rest cs in signed negative (round (pos (value 0 ds)))

  pub parse_minor : Scalar → Throws ℤ
  parse_minor (number n) = to_minor n
  parse_minor other = err not_text
  parse_minor (Scalar.text cs) =
      let t = trim cs in
      do throw_if (not (is_integer_text t)) not_integer_text; to_minor (whole (number_of t))

  pub parse_money : Unknown → Throws Money
  parse_money (scalar _) = err not_object
  parse_money (object _ none) = err missing_currency
  parse_money (object m (some currency)) =
      if currency == ""
      then err missing_currency
      else if not (is_known_currency currency)
      then err unknown_currency
      else in_currency (parse_minor m) currency

  -- `parseDecimalInput` once the exponent is known and the sign is off
  pub parse_unsigned : Places → Bool → Text → String → Throws Money
  parse_unsigned e negative unsigned currency =
      let (whole_raw, behind) = break_at_dot unsigned in
      elim (fit_fraction e (break_at_dot behind).0) [
        | none ↦ err too_precise
        | some fraction ↦
            let combined = round (pos (value 0 (or_zero whole_raw ++ fraction))) in
            if not (is_safe combined)
            then err too_large
            else money (whole (signed negative combined)) currency
      ]

  pub parse_decimal_input : Text → String → Throws Money
  parse_decimal_input input currency = elim (exponent_of currency) [
    | none ↦ err unknown_currency
    | some e ↦
        let cleaned = clean input in
        let (negative, unsigned) = sign_and_rest cleaned in
        do
          throw_if (is_no_amount cleaned) no_amount
          throw_if (not (decimal_shape unsigned)) bad_amount
          parse_unsigned e negative unsigned currency
  ]
