-- ===== src/Prelude/Equality.antt =====
-- Equality as the code tests it (`===` on strings and numbers), as an interface: an instance is a
-- test that decides `≡`.
use Prim.Native.Nat.{ℕ}
use Prim.Native.String.{String}
use mathlib.Core.Path.{◌≡◌, refl}
use mathlib.Core.Logic.{◌↔◌}
use mathlib.Core.Bool.{Bool, true}
use native.Mathlib.Omega.{arith}
use text.Mathlib.Text.{◌==◌ as str_eq}
use text.Mathlib.TextEquality.{eq_iff}
use twenty_four.Prelude.Tests.{nat_eq}

-- The test finds a value equal to itself, and finds nothing else equal.
pub record Eq {ℓ} (T : Type ℓ) : Type ℓ where
  pub test : T → T → Bool
  pub agrees : (x : T) → test x x ≡ true
  pub sound : (x y : T) → test x y ≡ true → x ≡ y

infix 50 ◌==◌
abbrev pub ◌==◌ {ℓ} : {T : Type ℓ} ⦃d : Eq T⦄ → T → T → Bool
◌==◌ ⦃d⦄ x y = d.test x y

pub nat_eq_iff : (a b : ℕ) → (nat_eq a b ≡ true) ↔ (a ≡ b)
nat_eq_iff a b = ground arith

instance abbrev pub eq_String : Eq String
eq_String = record {
  test = str_eq;
  agrees = λ s. (eq_iff s s).1 refl;
  sound = λ s t. (eq_iff s t).0;
}

instance abbrev pub eq_ℕ : Eq ℕ
eq_ℕ = record {
  test = nat_eq;
  agrees = λ n. (nat_eq_iff n n).1 refl;
  sound = λ n k. (nat_eq_iff n k).0;
}

module _ {ℓ} {T : Type ℓ} ⦃d : Eq T⦄ where
  pub eq_of_== : (x y : T) → (x == y) ≡ true → x ≡ y
  eq_of_== = d.sound

  pub ==_refl : (x : T) → (x == x) ≡ true
  ==_refl = d.agrees

-- An enumeration is compared by the positions of its members.
pub by_index {ℓ} :
    {A : Type ℓ} (index : A → ℕ) (of_index : ℕ → A)
    → ((a : A) → of_index (index a) ≡ a)
    → (a b : A) → (nat_eq (index a) (index b) ≡ true) ↔ (a ≡ b)
by_index index of_index back a b = (
  λ h. cc (back a, back b, (nat_eq_iff (index a) (index b)).0 h),
  λ h. (nat_eq_iff (index a) (index b)).1 (cc),
)
