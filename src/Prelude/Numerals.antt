-- ===== src/Prelude/Numerals.antt =====
-- Numbers inside texts, as in `${tenant}-order-${n}`.
pub mod Injective
use Prim.Native.Nat.{ℕ, zero, suc, ◌-◌}
use Prim.Native.String
use Prim.Native.String.{String}
use mathlib.Core.List.{List, [], ◌∷◌, ◌++◌}
use twenty_four.Prelude.Lists.{length, replicate}
use twenty_four.Prelude.Decimal.{Text, digits}

abbrev pub digit_text : ℕ → List String → String
digit_text n [] = ""
digit_text zero (t ∷ ts) = t
digit_text (suc n) (t ∷ ts) = digit_text n ts

-- The code unit of a digit, as a text.
abbrev pub digit_of : ℕ → String
digit_of c = digit_text (c - 48) ("0" ∷ "1" ∷ "2" ∷ "3" ∷ "4" ∷ "5" ∷ "6" ∷ "7" ∷ "8" ∷ "9" ∷ [])

abbrev pub join : Text → String
join [] = ""
join (c ∷ cs) = String.◌++◌ (digit_of c) (join cs)

-- `${n}`
abbrev pub number_text : ℕ → String
number_text n = join (digits n)

-- `String(n).padStart(width, '0')`
abbrev pub padded : ℕ → ℕ → String
padded width n = join (replicate (width - length (digits n)) 48 ++ digits n)

-- One text behind another.
infixr 65 ◌&◌
abbrev pub ◌&◌ : String → String → String
◌&◌ = String.◌++◌
