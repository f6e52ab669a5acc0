-- ===== src/Money/Currency.antt =====
-- packages/money/src/currency.ts. The table is an object literal, so a lookup and the operator `in`
-- also find what every object inherits from `Object.prototype`.
use twenty_four.Prelude.{
  ℕ, String, Bool, true, false, Option, none, some, List, [], ◌∷◌, includes, if◌then◌else◌,
}
use twenty_four.Prelude.Equality.{◌==◌, eq_String}

-- What `EXPONENT[currency]` holds: a number of decimal places, or something inherited, which no
-- arithmetic turns into a number.
pub data Places : Type 0 where
  places : ℕ → Places
  inherited : Places

abbrev pub object_prototype : List String
object_prototype =
    "constructor" ∷ "__defineGetter__" ∷ "__defineSetter__" ∷ "hasOwnProperty" ∷ "__lookupGetter__"
    ∷ "__lookupSetter__" ∷ "isPrototypeOf" ∷ "propertyIsEnumerable" ∷ "toString" ∷ "valueOf"
    ∷ "__proto__" ∷ "toLocaleString" ∷ []

-- `EXPONENT`
exponent : String → Option ℕ
exponent c =
    if c == "HUF"
    then some 0
    else if c == "BDT"
    then some 2
    else if c == "EUR"
    then some 2
    else if c == "USD"
    then some 2
    else if c == "GBP"
    then some 2
    else none

unfoldable pub exponent_of : String → Option Places
unfolding exponent
exponent_of c = elim (exponent c) [
  | some e ↦ some (places e)
  | none ↦ if includes object_prototype c then some inherited else none
]

unfoldable pub is_known_currency : String → Bool
is_known_currency c = elim (exponent_of c) [ some _ ↦ true | none ↦ false ]
