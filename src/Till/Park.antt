-- ===== src/Till/Park.antt =====
-- packages/mock/src/store.ts: `parkOrder`, `updateParkedOrder`, `discardParkedOrder` and
-- `settleParkedOrder`.
use twenty_four.Prelude.{
  String, not, Option, none, some, List, [], ◌∷◌, map, if◌then◌else◌, select, find,
}
use twenty_four.Prelude.Equality.{◌==◌, eq_ℕ, eq_String}
use twenty_four.Prelude.Number.{Float64}
use twenty_four.Prelude.Results.{ok, err}
use twenty_four.Money.{Money, zero_money}
use twenty_four.Pricing.{Amounts}
use twenty_four.Till.Data.{
  Order, OrderLine, parked, paid, is_parked, Tender, TenderInput, DiningTable, receipt, Clock, Till,
  ParkOrderInput,
}
use twenty_four.Till.Method.{Method, Throws, refused, by_money, reads, modify, pure, ◌>>=◌, ◌>>◌}
use twenty_four.Till.Price.{priced}
use twenty_four.Till.Stock.{minus, plus, move_stock, reserve_stock}
use twenty_four.Till.Tables.{attach_table, put_order, same}
use twenty_four.Till.Tenders.{require_covering, build_tenders, record_payments, issue_document}
use twenty_four.Till.Sale.{or_else, or_option, customer_name, order_id, order_number, next_order}

abbrev pub parked_order : Clock → ParkOrderInput → List OrderLine → Amounts → Money → Till → Order
parked_order now input lines total nothing s = record {
  id = order_id s.tenant_id s.order_counter;
  number = order_number now s.order_counter;
  placed_at = now.iso;
  status = parked;
  customer_id = input.customer_id;
  customer_name = customer_name input.customer_id s;
  discount_code = none;
  discount = none;
  lines = lines;
  amounts = total;
  tenders = [];
  staff_id = or_option input.staff_id s.first_staff;
  note = or_else input.note "";
  table_id = none;
  refunded_total = nothing;
  refunded_line_ids = [];
}

-- What the order holds is reserved, and the order joins the others.
abbrev pub with_parked : Order → Till → Till
with_parked order s = record s {
  stock = reserve_stock plus order.lines s.stock;
  orders = order ∷ s.orders;
}

abbrev check_parked : Order → Throws Order
check_parked order = if is_parked order.status then ok order else err (refused 409 "not_parked")

abbrev pub parked_of : Option Order → Throws Order
parked_of none = err (refused 404 "not_found")
parked_of (some order) = check_parked order

abbrev pub require_parked : String → Till → Throws Order
require_parked id s = parked_of (find (λ o. o.id == id) s.orders)

-- `tableId !== undefined ? tableId : existing`
abbrev table_after : Option (Option String) → Option String → Option String
table_after none existing = existing
table_after (some table_id) existing = table_id

-- A customer that is not mentioned stays.
abbrev customer_after : Option String → Option String → Option String
customer_after none existing = existing
customer_after (some id) existing = some id

abbrev customer_name_after : Option String → Option String → Till → Option String
customer_name_after none existing s = existing
customer_name_after (some id) existing s = customer_name (some id) s

abbrev pub replaced_order : ParkOrderInput → List OrderLine → Amounts → Order → Till → Order
replaced_order input lines total existing s = record existing {
  lines = lines;
  amounts = total;
  note = or_else input.note existing.note;
  customer_id = customer_after input.customer_id existing.customer_id;
  customer_name = customer_name_after input.customer_id existing.customer_name s;
}

-- What the tab held is released, and what it holds now is taken.
abbrev pub with_replaced : String → Order → Order → Till → Till
with_replaced id existing updated s = record s {
  stock = reserve_stock plus updated.lines (reserve_stock minus existing.lines s.stock);
  orders = put_order id updated s.orders;
}

abbrev pub with_released : Order → Till → Till
with_released order s = record s { stock = reserve_stock minus order.lines s.stock }

abbrev pub without_order : String → Till → Till
without_order id s = record s { orders = select (λ o. not (o.id == id)) s.orders }

abbrev pub settled_order : Clock → List Tender → Order → Order
settled_order now tenders existing = record existing {
  status = paid;
  placed_at = now.iso;
  tenders = tenders;
  table_id = none;
}

abbrev pub cleared : String → DiningTable → DiningTable
cleared id t = if same t.order_id (some id) then record t { order_id = none } else t

abbrev pub with_settled : String → Order → Till → Till
with_settled id settled s = record s {
  orders = put_order id settled s.orders;
  tables = map (cleared id) s.tables;
}

-- Both halves together: the reservation goes, and so does the stock.
abbrev pub with_taken : Order → Till → Till
with_taken order s = record s {
  stock = move_stock minus order.lines (reserve_stock minus order.lines s.stock);
}

module _ ⦃f : Float64⦄ where
  unfoldable pub park_order : Clock → ParkOrderInput → Method Order
  park_order now input = do
    (lines, total) ← reads λ s. priced s input.lines
    next_order
    nothing ← reads λ s. by_money (zero_money s.currency)
    order ← reads λ s. ok (parked_order now input lines total nothing s)
    modify (with_parked order)
    attach_table order (or_else input.table_id none)

  unfoldable pub update_parked_order : String → ParkOrderInput → Method Order
  update_parked_order id input = do
    existing ← reads (require_parked id)
    (lines, total) ← reads λ s. priced s input.lines
    updated ← reads λ s. ok (replaced_order input lines total existing s)
    modify (with_replaced id existing updated)
    attach_table updated (table_after input.table_id existing.table_id)

  unfoldable pub settle_parked_order : Clock → String → List TenderInput → Method Order
  settle_parked_order now id inputs = do
    existing ← reads (require_parked id)
    require_covering inputs existing.amounts.gross
    modify (with_taken existing)
    tenders ← build_tenders existing.amounts.gross.minor inputs
    let settled = settled_order now tenders existing
    modify (with_settled id settled)
    record_payments settled
    issue_document now settled receipt settled.amounts
    pure settled

unfoldable pub discard_parked_order : String → Method (Unit {0})
discard_parked_order id = do
  order ← reads (require_parked id)
  modify (with_released order)
  _ ← attach_table order none
  modify (without_order id)
