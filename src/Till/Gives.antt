-- ===== src/Till/Gives.antt =====
-- What a call of the store returns and leaves, together, where it returns.
use twenty_four.Prelude.{◌≡◌, refl, subst}
use twenty_four.Prelude.Equality.{eq_ℕ}
use twenty_four.Prelude.Results.{ok, err, ok-injective}
use twenty_four.Till.Data.{Till}
use twenty_four.Till.Method.{Method, Throws, go_on}
use twenty_four.Till.Floor.{Ends, IsLike, kept_orders}

pub record Gives {A : Type 0} (P : A → Till → Type 0) (r : Throws A × Till) : Type 0 where
  pub on_ok : (a : A) → r.0 ≡ ok a → P a r.1

pub gives : {A : Type 0} {P : A → Till → Type 0} (a : A) (t : Till) → P a t → Gives P (ok a, t)
gives {P = P} a t h = record { on_ok = λ b same. subst (λ x. P x t) (ok-injective same) h }

-- One call after another.
pub go_on-Gives :
    {A B : Type 0} {P : B → Till → Type 0} {r : Throws A × Till} (k : A → Method B)
    → ((a : A) → r.0 ≡ ok a → Gives P (k a r.1))
    → Gives P (go_on r k)
unfolding go_on
go_on-Gives {r = (ok a, s)} k after = after a refl
go_on-Gives {r = (err e, s)} k after = record { on_ok = λ b h. cc }

-- A call that leaves the sales alone, and another.
pub calm-Gives :
    {A B : Type 0} {P : B → Till → Type 0} {r : Throws A × Till} (k : A → Method B) (s : Till)
    → Ends (IsLike s) r
    → ((a : A) (t : Till) → t.orders ≡ s.orders → Gives P (k a t))
    → Gives P (go_on r k)
unfolding go_on
calm-Gives {r = (ok a, t)} k s same after = after a t (kept_orders same)
calm-Gives {r = (err e, t)} k s same after = record { on_ok = λ b h. cc }
