-- ===== src/Prelude/Numerals/Injective.antt =====
-- Different numbers make different texts.
use Prim.Native.Nat.{ℕ, zero, suc, ◌+◌, ◌-◌, ◌≤◌, ◌<◌}
use Prim.Native.String.{String}
use Prim.Native.String.append
use mathlib.Core.Path.{◌≡◌, refl, sym, ap, ◌∙◌}
use mathlib.Core.List.{[], ◌∷◌, ◌++◌}
use native.Mathlib.Omega.{arith}
use twenty_four.Prelude.Lists.{All}
use twenty_four.Prelude.Decimal.{Text, codes, digits, value, value-digits, IsDigit, All-digits}
use twenty_four.Prelude.Numerals.{digit_text, digit_of, join, number_text, ◌&◌}

codes-& : (s t : String) → codes (s & t) ≡ codes s ++ codes t
codes-& String.[] t = rw (append.nil t) refl
codes-& (String.◌∷◌ c s) t = rw (append.cons c s t, codes-& s t) refl

codes-digit_text :
    (k : ℕ)
    → k < 10
    → codes (digit_text k ("0" ∷ "1" ∷ "2" ∷ "3" ∷ "4" ∷ "5" ∷ "6" ∷ "7" ∷ "8" ∷ "9" ∷ []))
      ≡ (48 + k) ∷ []
codes-digit_text zero h = refl
codes-digit_text (suc zero) h = refl
codes-digit_text (suc (suc zero)) h = refl
codes-digit_text (suc (suc (suc zero))) h = refl
codes-digit_text (suc (suc (suc (suc zero)))) h = refl
codes-digit_text (suc (suc (suc (suc (suc zero))))) h = refl
codes-digit_text (suc (suc (suc (suc (suc (suc zero)))))) h = refl
codes-digit_text (suc (suc (suc (suc (suc (suc (suc zero))))))) h = refl
codes-digit_text (suc (suc (suc (suc (suc (suc (suc (suc zero)))))))) h = refl
codes-digit_text (suc (suc (suc (suc (suc (suc (suc (suc (suc zero))))))))) h = refl
codes-digit_text (suc (suc (suc (suc (suc (suc (suc (suc (suc (suc k)))))))))) h =
    absurd (omega arith)

digit_range : (c : ℕ) → IsDigit c → (48 ≤ c) × (c - 48 < 10)
digit_range c h = ground arith

back_up : (c : ℕ) → 48 ≤ c → 48 + (c - 48) ≡ c
back_up c h = omega arith

codes-join : (ds : Text) → All IsDigit ds → codes (join ds) ≡ ds
codes-join [] h = refl
codes-join (d ∷ ds) h =
    let (low, high) = digit_range d h.0 in
    codes-& (digit_of d) (join ds)
    ∙ ap (λ x. x ++ codes (join ds)) (codes-digit_text (d - 48) high)
    ∙ ap (λ x. x ∷ codes (join ds)) (back_up d low)
    ∙ ap (λ x. d ∷ x) (codes-join ds h.1)

-- What a number's text says is the number.
value-number_text : (n : ℕ) → value 0 (codes (number_text n)) ≡ n
value-number_text n = ap (value 0) (codes-join (digits n) (All-digits n)) ∙ value-digits n

pub number_text-injective : (m n : ℕ) → number_text m ≡ number_text n → m ≡ n
number_text-injective m n e =
    sym (value-number_text m) ∙ ap (λ t. value 0 (codes t)) e ∙ value-number_text n

&-cancel : (s t u : String) → s & t ≡ s & u → t ≡ u
&-cancel String.[] t u e = sym (append.nil t) ∙ e ∙ append.nil u
&-cancel (String.◌∷◌ c s) t u e = &-cancel s t u (cc (append.cons c s t, append.cons c s u, e))

pub tagged-injective :
    (tenant tag : String) (m n : ℕ)
    → tenant & tag & number_text m ≡ tenant & tag & number_text n
    → m ≡ n
tagged-injective tenant tag m n e =
    number_text-injective m n (&-cancel tag _ _ (&-cancel tenant _ _ e))
