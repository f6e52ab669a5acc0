-- ===== src/Till/Tables.antt =====
-- packages/mock/src/store.ts: `attachTable`.
use twenty_four.Prelude.{
  String, Bool, true, false, not, Option, none, some, List, map, if◌then◌else◌, find,
}
use twenty_four.Prelude.Equality.{◌==◌, eq_ℕ, eq_String}
use twenty_four.Prelude.Results.{ok, err, throw_if}
use twenty_four.Till.Data.{Order, DiningTable, TableStatus, free, ordered, Till}
use twenty_four.Till.Method.{Method, Throws, refused, reads, modify, pure, ◌>>◌}

-- `===` on values that may be null
abbrev pub same : Option String → Option String → Bool
same none none = true
same (some a) (some b) = a == b
same _ _ = false

abbrev after_order : TableStatus → TableStatus
after_order free = ordered
after_order status = status

abbrev is_taken : Order → Option String → Bool
is_taken order none = false
is_taken order (some id) = not (id == order.id)

abbrev check_found : Order → Option DiningTable → Throws (Unit {0})
check_found order none = err (refused 404 "not_found")
check_found order (some table) =
    throw_if (is_taken order table.order_id) (refused 409 "table_occupied")

unfoldable pub check_table : Order → Option String → Till → Throws (Unit {0})
check_table order none s = ok tt
check_table order (some id) s = check_found order (find (λ t. t.id == id) s.tables)

unfoldable pub attached : Order → Option String → DiningTable → DiningTable
attached order table_id t =
    if same order.table_id (some t.id)
    then record t { order_id = none }
    else if same table_id (some t.id)
    then record t { order_id = some order.id; status = after_order t.status }
    else t

-- `this.orders.map((entry) => (entry.id === id ? updated : entry))`
abbrev pub put_order : String → Order → List Order → List Order
put_order id updated = map λ o. if o.id == id then updated else o

unfoldable pub attach_table : Order → Option String → Method Order
attach_table order table_id s =
    if same order.table_id table_id
    then pure order s
    else (do
      reads (check_table order table_id)
      let updated = record order { table_id = table_id }
      modify λ s. record s {
        tables = map (attached order table_id) s.tables;
        orders = put_order order.id updated s.orders;
      }
      pure updated)
        s
