-- ===== src/Money/Text/Plain.antt =====
-- The text of an amount passes through the parsers of packages/money/src/money.ts: what each of their
-- steps does with a sign, digits and a point.
use mathlib.Core.List.{append-nil}
use twenty_four.Prelude.{
  ℕ, zero, suc, ◌-◌, ◌≤◌, ◌<◌, String, ◌≡◌, refl, ◌≢◌, inl, inr, true, false, not, some, List, [],
  ◌∷◌, ◌++◌, arith, nat_eq, Bool-cases, length, take, drop, take-append-drop, All, All-append,
  select,
}
use twenty_four.Prelude.Int.{ℤ, pos, negsuc, ◌-ℤ◌, abs, ltb_ℤ, signed}
use twenty_four.Prelude.Decimal.{Text, IsDigit, value, value-zeros}
use twenty_four.Prelude.Equality.{◌==◌, eq_String, eq_of_==}
use twenty_four.Money.{exponent_of, is_known_currency, Places, places}
use twenty_four.Money.Text.{
  is_space, comma, dot, trim, trim_start, trim_end, all_digits, some_digits, sign_and_rest,
  break_at_dot, decimal_shape, replace_comma, clean, sign_text, is_no_amount, fit_fraction,
  pad_start,
}

-- A character that no step of the parsers takes away or replaces.
abbrev pub IsPlain : ℕ → Type 0
IsPlain c = (is_space c ≡ false) × (nat_eq c comma ≡ false)

pub IsDigit-IsPlain : (c : ℕ) → IsDigit c → IsPlain c
unfolding is_space
IsDigit-IsPlain c h = ground arith

pub All-IsPlain : (cs : Text) → All IsDigit cs → All IsPlain cs
All-IsPlain [] h = tt
All-IsPlain (c ∷ cs) (h, hs) = (IsDigit-IsPlain c h, All-IsPlain cs hs)

pub sign_text-IsPlain : (n : ℤ) → All IsPlain (sign_text n)
unfolding is_space
sign_text-IsPlain (pos n) = ground arith
sign_text-IsPlain (negsuc n) = ground arith

pub trim_start-plain : (cs : Text) → All IsPlain cs → trim_start cs ≡ cs
unfolding trim_start
trim_start-plain [] h = refl
trim_start-plain (c ∷ cs) ((p, _), _) = rw p

pub trim_end-plain : (cs : Text) → All IsPlain cs → trim_end cs ≡ cs
unfolding trim_end
trim_end-plain [] h = refl
trim_end-plain (c ∷ []) ((p, _), _) = rw p
trim_end-plain (c ∷ d ∷ ds) (_, hs) = rw (trim_end-plain (d ∷ ds) hs)

pub trim-plain : (cs : Text) → All IsPlain cs → trim cs ≡ cs
unfolding trim
trim-plain cs h = rw (trim_start-plain cs h, trim_end-plain cs h)

pub replace_comma-plain : (cs : Text) → All IsPlain cs → replace_comma cs ≡ cs
unfolding replace_comma
replace_comma-plain [] h = refl
replace_comma-plain (c ∷ cs) ((_, q), hs) = rw (q, replace_comma-plain cs hs)

pub select-plain : (cs : Text) → All IsPlain cs → select (λ c. not (is_space c)) cs ≡ cs
select-plain [] h = refl
select-plain (c ∷ cs) ((p, _), hs) = rw (p, select-plain cs hs)

pub clean-plain : (cs : Text) → All IsPlain cs → clean cs ≡ cs
unfolding clean
clean-plain cs h = rw (select-plain cs h, replace_comma-plain cs h)

pub all_digits_lem : (cs : Text) → All IsDigit cs → all_digits cs ≡ true
unfolding all_digits
all_digits_lem [] h = refl
all_digits_lem (c ∷ cs) (h, hs) = rw (h, all_digits_lem cs hs)

pub some_digits_lem : (cs : Text) → All IsDigit cs → cs ≢ [] → some_digits cs ≡ true
unfolding some_digits
some_digits_lem [] h ne = absurd (ne refl)
some_digits_lem (c ∷ cs) h ne = all_digits_lem (c ∷ cs) h

-- A text whose first character is a digit.
abbrev pub StartsWithDigit : Text → Type 0
StartsWithDigit [] = ⊥
StartsWithDigit (c ∷ cs) = IsDigit c

pub StartsWithDigit-of_All : (cs ds : Text) → All IsDigit cs → cs ≢ [] → StartsWithDigit (cs ++ ds)
StartsWithDigit-of_All [] ds h ne = absurd (ne refl)
StartsWithDigit-of_All (c ∷ cs) ds h ne = h.0

-- The sign comes off as it was put on.
pub sign_and_rest-sign_text :
    (n : ℤ) (cs : Text)
    → StartsWithDigit cs
    → sign_and_rest (sign_text n ++ cs) ≡ (ltb_ℤ n (pos 0), cs)
unfolding sign_and_rest
sign_and_rest-sign_text n [] h = elim h [ ]
sign_and_rest-sign_text (pos n) (c ∷ cs) h = ground arith
sign_and_rest-sign_text (negsuc n) (c ∷ cs) h = ground arith

pub signed-abs : (n : ℤ) → signed (ltb_ℤ n (pos 0)) (pos (abs n)) ≡ n
unfolding ◌-ℤ◌
signed-abs n = ground arith

pub break_at_dot_lem : (w r : Text) → All IsDigit w → break_at_dot (w ++ dot ∷ r) ≡ (w, r)
unfolding break_at_dot
break_at_dot_lem [] r h = refl
break_at_dot_lem (c ∷ cs) r (h, hs) = ground (arith, break_at_dot_lem cs r hs)

pub break_at_dot_none : (w : Text) → All IsDigit w → break_at_dot w ≡ (w, [])
unfolding break_at_dot
break_at_dot_none [] h = refl
break_at_dot_none (c ∷ cs) (h, hs) = ground (arith, break_at_dot_none cs hs)

pub decimal_shape_whole : (w : Text) → All IsDigit w → decimal_shape w ≡ true
unfolding decimal_shape
decimal_shape_whole [] h = refl
decimal_shape_whole (c ∷ cs) (h, hs) = ground (arith, decimal_shape_whole cs hs)

pub decimal_shape_point :
    (w r : Text) → All IsDigit w → All IsDigit r → decimal_shape (w ++ dot ∷ r) ≡ true
unfolding decimal_shape
decimal_shape_point [] r h k = all_digits_lem r k
decimal_shape_point (c ∷ cs) r (h, hs) k = ground (arith, decimal_shape_point cs r hs k)

pub is_no_amount-sign_text :
    (n : ℤ) (u : Text) → StartsWithDigit u → is_no_amount (sign_text n ++ u) ≡ false
unfolding is_no_amount
is_no_amount-sign_text n [] h = elim h [ ]
is_no_amount-sign_text (pos n) (c ∷ []) h = ground arith
is_no_amount-sign_text (pos n) (c ∷ d ∷ ds) h = ground arith
is_no_amount-sign_text (negsuc n) (c ∷ cs) h = ground arith

pub sub_self_lem : (e : ℕ) → e - e ≡ 0
sub_self_lem e = omega arith

pub fit_fraction_exact : (e : ℕ) (r : Text) → length r ≡ e → fit_fraction (places e) r ≡ some r
fit_fraction_exact e r len = rw (len, sub_self_lem e, append-nil) (ground arith)

pub empty_unknown : ¬ (is_known_currency "" ≡ true)
unfolding is_known_currency exponent_of
empty_unknown h = cc

pub known-ne-empty : (c : String) → is_known_currency c ≡ true → (c == "") ≡ false
known-ne-empty c known = elim (Bool-cases (c == "")) [
  | inl e ↦ absurd (empty_unknown (rw (eq_of_== c "" e) at known))
  | inr e ↦ e
]

pub All-IsPlain-sign_text : (n : ℤ) (cs : Text) → All IsPlain cs → All IsPlain (sign_text n ++ cs)
All-IsPlain-sign_text n cs h = All-append IsPlain (sign_text n) cs (sign_text-IsPlain n) h

pub take-ne-nil {ℓ} : {A : Type ℓ} (k : ℕ) (xs : List A) → 0 < k → k ≤ length xs → take k xs ≢ []
take-ne-nil zero xs p h = absurd (omega arith)
take-ne-nil (suc k) [] p h = absurd (omega arith)
take-ne-nil (suc k) (x ∷ xs) p h = λ e. cc

-- A currency with an exponent is known.
pub known_of_places :
    (c : String) {p : Places} → exponent_of c ≡ some p → is_known_currency c ≡ true
unfolding is_known_currency
known_of_places c h = ground arith

pub All-IsPlain-point : (w r : Text) → All IsDigit w → All IsDigit r → All IsPlain (w ++ dot ∷ r)
unfolding is_space
All-IsPlain-point w r hw hr =
    All-append IsPlain w (dot ∷ r) (All-IsPlain w hw) ((refl, refl), All-IsPlain r hr)

pub value_of_split :
    (e k : ℕ) (ds : Text)
    → value 0 (take k (pad_start e ds) ++ drop k (pad_start e ds)) ≡ value 0 ds
value_of_split e k ds = rw (take-append-drop k (pad_start e ds), value-zeros)
