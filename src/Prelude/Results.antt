-- ===== src/Prelude/Results.antt =====
-- Code that throws: a result, or the error that was thrown.
use mathlib.Core.Path.{◌≡◌, refl}
use mathlib.Core.Bool.{Bool, true, false}
use mathlib.Core.List.{List, [], ◌∷◌}

pub data Result {ε ℓ} (E : Type ε) (A : Type ℓ) : Type (ℓ ⊔ ε) where
  ok : A → Result E A
  err : E → Result E A

-- What comes after a statement that may throw: first one that returns something, then one that does
-- not. Both compute as soon as it is known what the statement did.
infixl 5 ◌>>=◌ ◌>>◌
abbrev pub ◌>>=◌ {ε ℓ κ} :
    {E : Type ε} {A : Type ℓ} {B : Type κ} → Result E A → (A → Result E B) → Result E B
err thrown >>= next = err thrown
ok value >>= next = next value

abbrev pub ◌>>◌ {ε κ} : {E : Type ε} {B : Type κ} → Result E (Unit {0}) → Result E B → Result E B
statement >> next = statement >>= λ _. next

-- `if (c) throw e`
abbrev pub throw_if {μ} : {E : Type μ} → Bool → E → Result E (Unit {0})
throw_if true e = err e
throw_if false e = ok tt

-- `xs.map(f)` where `f` may throw.
unfoldable pub traverse {ℓ κ μ} :
    {A : Type ℓ} {B : Type κ} {E : Type μ} → (A → Result E B) → List A → Result E (List B)
traverse f [] = ok []
traverse f (x ∷ xs) = do y ← f x; ys ← traverse f xs; ok (y ∷ ys)

-- Where the whole succeeds, so did the first statement, and what it returned went on.
pub >>=-eq-ok {ε ℓ κ} :
    {E : Type ε} {A : Type ℓ} {B : Type κ} (first : Result E A) (next : A → Result E B) {r : B}
    → (first >>= next) ≡ ok r
    → (value : A) × (first ≡ ok value) × (next value ≡ ok r)
>>=-eq-ok (err thrown) next h = cc
>>=-eq-ok (ok value) next h = (value, refl, h)

pub throw_if-eq-ok {μ} :
    {E : Type μ} (b : Bool) (e : E) {u : Unit {0}} → throw_if b e ≡ ok u → b ≡ false
throw_if-eq-ok true e h = cc
throw_if-eq-ok false e h = refl

-- A guard that lets the code go on.
pub >>-eq-ok {ℓ μ} :
    {B : Type ℓ} {E : Type μ} (b : Bool) (e : E) (m : Result E B) {r : B}
    → (throw_if b e >> m) ≡ ok r
    → (b ≡ false) × (m ≡ ok r)
>>-eq-ok true e m h = cc
>>-eq-ok false e m h = (refl, h)

module _ {ℓ κ μ} {A : Type ℓ} {B : Type κ} {E : Type μ} where
  pub traverse-nil-eq-ok : (f : A → Result E B) {ys : List B} → traverse f [] ≡ ok ys → ys ≡ []
  unfolding traverse
  traverse-nil-eq-ok f h = cc

  pub traverse-cons-eq-ok :
      (f : A → Result E B) (x : A) (xs : List A) {zs : List B}
      → traverse f (x ∷ xs) ≡ ok zs
      → (y : B) × (ys : List B) × (f x ≡ ok y) × (traverse f xs ≡ ok ys) × (zs ≡ y ∷ ys)
  unfolding traverse
  traverse-cons-eq-ok f x xs h =
      let (y, ey, rest) = >>=-eq-ok (f x) _ h in
      let (ys, eys, last) = >>=-eq-ok (traverse f xs) _ rest in (y, ys, ey, eys, cc)

pub ok-injective {ℓ μ} :
    {A : Type ℓ} {E : Type μ} {a b : A} → Path (Result E A) (ok a) (ok b) → a ≡ b
ok-injective h = cc
