-- ===== src/Till/Sale.antt =====
-- packages/mock/src/store.ts: `placeOrder`, and what a sale and a parked sale share.
use twenty_four.Prelude.{ℕ, ◌+◌, String, Option, none, some, List, [], ◌∷◌, if◌then◌else◌, find}
use twenty_four.Prelude.Equality.{◌==◌, eq_ℕ, eq_String}
use twenty_four.Prelude.Number.{Float64}
use twenty_four.Prelude.Numerals.{◌&◌, number_text, padded}
use twenty_four.Prelude.Results.{ok}
use twenty_four.Money.{Money, zero_money}
use twenty_four.Pricing.{Amounts}
use twenty_four.Till.Data.{
  Order, OrderLine, paid, Tender, receipt, Clock, Till, Customer, PlaceOrderInput,
}
use twenty_four.Till.Method.{Method, by_money, reads, modify, pure, ◌>>=◌, ◌>>◌}
use twenty_four.Till.Price.{priced}
use twenty_four.Till.Stock.{minus, move_stock}
use twenty_four.Till.Tenders.{require_covering, build_tenders, record_payments, issue_document}

abbrev pub or_else {ℓ} : {A : Type ℓ} → Option A → A → A
or_else none fallback = fallback
or_else (some value) fallback = value

abbrev pub or_option : Option String → Option String → Option String
or_option none fallback = fallback
or_option (some value) fallback = some value

abbrev name_of : Option Customer → Option String
name_of none = none
name_of (some c) = some c.name

-- The customer that an id finds; an empty id finds none.
abbrev pub customer_name : Option String → Till → Option String
customer_name none s = none
customer_name (some id) s = if id == "" then none else name_of (find (λ c. c.id == id) s.customers)

abbrev pub order_id : String → ℕ → String
order_id tenant n = tenant & "-order-" & number_text n

abbrev pub order_number : Clock → ℕ → String
order_number now n = now.day & "-" & padded 4 n

abbrev pub next_order : Method (Unit {0})
next_order = modify λ s. record s { order_counter = s.order_counter + 1 }

abbrev pub sold_order :
    Clock → PlaceOrderInput → List OrderLine → Amounts → List Tender → Money → Till → Order
sold_order now input lines total tenders nothing s = record {
  id = order_id s.tenant_id s.order_counter;
  number = order_number now s.order_counter;
  placed_at = now.iso;
  status = paid;
  customer_id = input.customer_id;
  customer_name = customer_name input.customer_id s;
  discount_code = input.discount_code;
  discount = none;
  lines = lines;
  amounts = total;
  tenders = tenders;
  staff_id = or_option input.staff_id s.first_staff;
  note = or_else input.note "";
  table_id = none;
  refunded_total = nothing;
  refunded_line_ids = [];
}

-- The stock moves, and the order joins the others.
abbrev pub with_sale : Order → Till → Till
with_sale order s = record s {
  stock = move_stock minus order.lines s.stock;
  orders = order ∷ s.orders;
}

module _ ⦃f : Float64⦄ where
  unfoldable pub place_order : Clock → PlaceOrderInput → Method Order
  place_order now input = do
    (lines, total) ← reads λ s. priced s input.lines
    require_covering input.tenders total.gross
    next_order
    tenders ← build_tenders total.gross.minor input.tenders
    nothing ← reads λ s. by_money (zero_money s.currency)
    order ← reads λ s. ok (sold_order now input lines total tenders nothing s)
    modify (with_sale order)
    record_payments order
    issue_document now order receipt order.amounts
    pure order
