-- ===== src/Prelude/Stateful.antt =====
-- Methods of an object: each returns or throws, and leaves a state either way.
use mathlib.Core.Path.{◌≡◌, refl}
use mathlib.Core.Bool.{Bool, true, false}
use twenty_four.Prelude.Results.{Result, ok, err}

-- A call: what it returned or threw, and the state that it left.
abbrev pub Call : Type 0 → Type 0 → Type 0 → Type 0
Call S E A = Result E A × S

module _ {S E : Type 0} where
  unfoldable pub go_on : {A B : Type 0} → Call S E A → (A → S → Call S E B) → Call S E B
  go_on (ok a, s) k = k a s
  go_on (err e, s) k = (err e, s)

  abbrev pub pure : {A : Type 0} → A → S → Call S E A
  pure a s = (ok a, s)

  -- What only looks at the state.
  abbrev pub reads : {A : Type 0} → (S → Result E A) → S → Call S E A
  reads f s = (f s, s)

  -- An assignment.
  abbrev pub modify : (S → S) → S → Call S E (Unit {0})
  modify f s = (ok tt, f s)

  -- `if (c) { ... }`
  unfoldable pub when : Bool → (S → Call S E (Unit {0})) → S → Call S E (Unit {0})
  when true m = m
  when false m = pure tt

  -- The state that a call leaves, whether it returned or threw.
  abbrev pub after : {A : Type 0} → Call S E A → S
  after r = r.1

  infixl 5 ◌>>=◌ ◌>>◌
  abbrev pub ◌>>=◌ : {A B : Type 0} → (S → Call S E A) → (A → S → Call S E B) → S → Call S E B
  ◌>>=◌ m k s = go_on (m s) k

  abbrev pub ◌>>◌ : {B : Type 0} → (S → Call S E (Unit {0})) → (S → Call S E B) → S → Call S E B
  m >> k = m >>= λ _. k

  -- A call that returns: both of its parts have.
  pub go_on-ok :
      {A B : Type 0} {b : B} (r : Call S E A) (k : A → S → Call S E B)
      → (go_on r k).0 ≡ ok b
      → (a : A) × (r.0 ≡ ok a) × ((k a r.1).0 ≡ ok b)
  unfolding go_on
  go_on-ok (ok a, s) k h = (a, refl, h)
  go_on-ok (err e, s) k h = cc

  -- A property of the state that a call leaves, whether it returned or threw.
  pub record Leaves {A : Type 0} (P : S → Type 0) (r : Call S E A) : Type 0 where
    pub holds : P r.1

  pub leaves : {A : Type 0} {P : S → Type 0} {r : Call S E A} → P r.1 → Leaves P r
  leaves h = record { holds = h }

  -- One call after another: the property must hold where the first throws, and of what the second does
  -- with what the first returned.
  pub next :
      {A B : Type 0} {P : S → Type 0} {r : Call S E A} (k : A → S → Call S E B)
      → P r.1
      → ((a : A) → r.0 ≡ ok a → Leaves P (k a r.1))
      → Leaves P (go_on r k)
  unfolding go_on
  next {r = (ok a, s)} k h after = after a refl
  next {r = (err e, s)} k h after = leaves h

  -- After a call that returns, only what comes next matters.
  pub past :
      {A B : Type 0} {P : S → Type 0} (a : A) (s : S) (k : A → S → Call S E B)
      → Leaves P (k a s)
      → Leaves P (go_on (ok a, s) k)
  unfolding go_on
  past a s k h = h

  -- What a call leaves that is done after another, as what both leave one by one.
  pub then_leaves :
      {A B : Type 0} {P Q : S → Type 0} {r : Call S E A} (k : A → S → Call S E B)
      → Leaves P r
      → ((s : S) → P s → Q s)
      → ((a : A) → P r.1 → Leaves Q (k a r.1))
      → Leaves Q (go_on r k)
  then_leaves k h both after = next k (both _ h.holds) (λ a _. after a h.holds)

  pub past_eq :
      {A B : Type 0} {P : S → Type 0} {r : Call S E A} (a : A) (s : S) (k : A → S → Call S E B)
      → r ≡ (ok a, s)
      → Leaves P (k a s)
      → Leaves P (go_on r k)
  past_eq a s k e h = rw e (past a s k h)
