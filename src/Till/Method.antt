-- ===== src/Till/Method.antt =====
-- Methods of the store: each returns or throws, and leaves a state either way.
use twenty_four.Prelude.{ℕ, String, Option, none, some}
use twenty_four.Prelude.Equality.{eq_ℕ, eq_String}
use twenty_four.Prelude.Results.{Result, ok, err}
use twenty_four.Money.{MoneyError}
use twenty_four.Pricing.{PricingError}
use twenty_four.Till.Data.{Till}
unfoldable pub use twenty_four.Prelude.Stateful.{go_on, when}
pub use twenty_four.Prelude.Stateful.{pure, reads, modify, after, ◌>>=◌, ◌>>◌, go_on-ok}

pub data Thrown : Type 0 where
  refused : (status : ℕ) (code : String) → Thrown
  from_money : MoneyError → Thrown
  from_pricing : PricingError → Thrown

abbrev pub Throws : Type 0 → Type 0
Throws = Result Thrown

-- What `money` and the pricing module throw goes through.
abbrev pub by_money : {A : Type 0} → Result MoneyError A → Throws A
by_money (ok a) = ok a
by_money (err e) = err (from_money e)

abbrev pub by_pricing : {A : Type 0} → Result PricingError A → Throws A
by_pricing (ok a) = ok a
by_pricing (err e) = err (from_pricing e)

-- `if (!found) throw ...`
abbrev pub require {ℓ} : {A : Type ℓ} → Option A → Thrown → Result Thrown A
require none e = err e
require (some a) e = ok a

abbrev pub map_ok : {A B : Type 0} → (A → B) → Throws A → Throws B
map_ok f (ok a) = ok (f a)
map_ok f (err e) = err e

abbrev pub Method : Type 0 → Type 0
Method A = Till → Throws A × Till
