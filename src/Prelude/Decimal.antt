-- ===== src/Prelude/Decimal.antt =====
-- Decimal numerals: `String(n)` of a whole number that is not negative, and `Number(text)` of a run
-- of digits before it is rounded. Text is a list of UTF-16 code units.
use Prim.Native.Nat.{ℕ, zero, suc, ◌+◌, ◌-◌, ◌*◌, ◌/◌, ◌%◌, ◌<◌}
use Prim.Native.Char.{code}
use Prim.Native.String.{String}
use mathlib.Core.Path.{◌≡◌, refl}
use mathlib.Core.Logic.{◌≢◌}
use mathlib.Core.Bool.{Bool, true, ◌&&◌}
use mathlib.Core.List.{List, [], ◌∷◌, ◌++◌}
use native.Mathlib.Omega.{arith}
use twenty_four.Prelude.Tests.{ltb, leb, if◌then◌else◌}
use twenty_four.Prelude.Lists.{All, All-append, replicate}

abbrev pub Text : Type 0
Text = List ℕ

abbrev pub codes : String → Text
codes String.[] = []
codes (String.◌∷◌ c s) = code c ∷ codes s

-- `\d`
abbrev pub is_digit : ℕ → Bool
is_digit c = leb 48 c && leb c 57

abbrev pub IsDigit : ℕ → Type 0
IsDigit c = is_digit c ≡ true

digits_fuel : ℕ → ℕ → Text
digits_fuel zero n = []
digits_fuel (suc f) n =
    let rest = digits_fuel f (n / 10) ++ ((48 + n % 10) ∷ []) in
    if ltb n 10 then (48 + n) ∷ [] else rest

-- One more than the number is fuel enough: each round divides it by ten.
unfoldable pub digits : ℕ → Text
unfolding digits_fuel
digits n = digits_fuel (suc n) n

-- The number that a run of digits stands for, behind what has been read.
unfoldable pub value : ℕ → Text → ℕ
value acc [] = acc
value acc (c ∷ cs) = value (acc * 10 + (c - 48)) cs

pub value-append : (acc : ℕ) (xs ys : Text) → value acc (xs ++ ys) ≡ value (value acc xs) ys
unfolding value
value-append acc [] ys = refl
value-append acc (x ∷ xs) ys = value-append (acc * 10 + (x - 48)) xs ys

pub value-zeros : (k : ℕ) (cs : Text) → value 0 (replicate k 48 ++ cs) ≡ value 0 cs
unfolding value
value-zeros zero cs = refl
value-zeros (suc k) cs = value-zeros k cs

value-digits_fuel : (f n : ℕ) → n < f → value 0 (digits_fuel f n) ≡ n
unfolding digits_fuel value
value-digits_fuel zero n h = absurd (omega arith)
value-digits_fuel (suc f) n h = ground (
  arith,
  value-append 0 (digits_fuel f (n / 10)) ((48 + n % 10) ∷ []),
  value-digits_fuel f (n / 10),
)

pub value-digits : (n : ℕ) → value 0 (digits n) ≡ n
unfolding digits
value-digits n = value-digits_fuel (suc n) n (omega arith)

All-digits_fuel : (f n : ℕ) → All IsDigit (digits_fuel f n)
unfolding digits_fuel
All-digits_fuel zero n = tt
All-digits_fuel (suc f) n = ground (
  arith,
  All-digits_fuel f (n / 10),
  All-append IsDigit (digits_fuel f (n / 10)) ((48 + n % 10) ∷ []),
)

pub All-digits : (n : ℕ) → All IsDigit (digits n)
unfolding digits
All-digits n = All-digits_fuel (suc n) n

append_one-ne-nil : (xs : Text) (c : ℕ) → xs ++ (c ∷ []) ≢ []
append_one-ne-nil [] c h = cc
append_one-ne-nil (x ∷ xs) c h = cc

pub digits-ne-nil : (n : ℕ) → digits n ≢ []
unfolding digits
digits-ne-nil n = ground (arith, append_one-ne-nil (digits_fuel n (n / 10)) (48 + n % 10))
