-- ===== src/Till/Correct.antt =====
-- packages/mock/src/store.ts: `voidOrder` and `refundOrder`.
use twenty_four.Prelude.{
  String, Bool, not, Option, none, some, List, [], ◌∷◌, ◌++◌, map, nat_eq, if◌then◌else◌, length,
  select, find, exists, includes,
}
use twenty_four.Prelude.Equality.{◌==◌, eq_ℕ, eq_String}
use twenty_four.Prelude.Int.{◌+ℤ◌}
use twenty_four.Prelude.Number.{whole, Float64}
use twenty_four.Prelude.Results.{ok, err}
use twenty_four.Money.{Money, money}
use twenty_four.Till.Data.{
  Order, OrderLine, OrderStatus, refunded, partly_refunded, voided, is_parked, is_voided,
  credit_note, Clock, Till,
}
use twenty_four.Till.Method.{
  Method, Throws, refused, by_money, reads, modify, pure, when, ◌>>=◌, ◌>>◌, map_ok,
}
use twenty_four.Till.Price.{total_lines}
use twenty_four.Till.Stock.{plus, move_stock}
use twenty_four.Till.Tables.{put_order}
use twenty_four.Till.Tenders.{issue_document, refund_payments}

abbrev check_sale : Order → Throws Order
check_sale order = if is_parked order.status then err (refused 409 "not_a_sale") else ok order

abbrev pub sale_of : Option Order → Throws Order
sale_of none = err (refused 404 "not_found")
sale_of (some order) = check_sale order

abbrev pub require_sale : String → Till → Throws Order
require_sale id s = sale_of (find (λ o. o.id == id) s.orders)

abbrev pub voided_order : Order → Order
voided_order order = record order { status = voided }

abbrev pub with_void : String → Order → Till → Till
with_void id order s = record s {
  stock = move_stock plus order.lines s.stock;
  orders = put_order id (voided_order order) s.orders;
}

-- A sale that is voided already is returned as it is.
unfoldable pub void_order : String → Method Order
void_order id = do
  order ← reads (require_sale id)
  when (not (is_voided order.status)) (modify (with_void id order))
  pure (voided_order order)

abbrev pub is_on : List OrderLine → String → Bool
is_on lines id = exists (λ l. l.id == id) lines

-- The lines that are asked for must be on the sale, and not back already.
abbrev pub check_lines : Order → Option (List String) → Throws (Unit {0})
check_lines order none = ok tt
check_lines order (some ids) =
    if exists (λ id. not (is_on order.lines id)) ids
    then err (refused 422 "unknown_line")
    else if exists (λ id. includes order.refunded_line_ids id) ids
    then err (refused 409 "already_refunded")
    else ok tt

abbrev is_returning : Order → Option (List String) → OrderLine → Bool
is_returning order none l = not (includes order.refunded_line_ids l.id)
is_returning order (some ids) l = includes ids l.id

unfoldable pub returning : Order → Option (List String) → List OrderLine
returning order ids = select (is_returning order ids) order.lines

abbrev pub check_some : List OrderLine → Throws (Unit {0})
check_some [] = err (refused 409 "already_refunded")
check_some (l ∷ ls) = ok tt

abbrev pub line_ids : List OrderLine → List String
line_ids = map (λ l. l.id)

abbrev status_after : List String → List OrderLine → OrderStatus
status_after ids lines = if nat_eq (length ids) (length lines) then refunded else partly_refunded

abbrev pub refunded_order : List OrderLine → Money → Order → Order
refunded_order back total order =
    let ids = order.refunded_line_ids ++ line_ids back in
    record order {
      status = status_after ids order.lines;
      refunded_total = total;
      refunded_line_ids = ids;
    }

abbrev pub back_once : Order → Option (List String) → Throws (Unit {0}) → Throws Order
back_once order ids (err e) = err e
back_once order ids (ok _) = map_ok (λ _. order) (check_some (returning order ids))

abbrev pub checked_refund : Option (List String) → Throws Order → Throws Order
checked_refund ids (err e) = err e
checked_refund ids (ok order) =
    if is_voided order.status
    then err (refused 409 "voided")
    else back_once order ids (check_lines order ids)

-- Everything that a refund asks before it changes anything.
abbrev pub check_refund : String → Option (List String) → Till → Throws Order
check_refund id ids s = checked_refund ids (require_sale id s)

abbrev pub with_returned : List OrderLine → Till → Till
with_returned back s = record s { stock = move_stock plus back s.stock }

module _ ⦃f : Float64⦄ where
  open f use {round}

  unfoldable pub refund_order : Clock → String → Option (List String) → Method Order
  refund_order now id ids = do
    order ← reads (check_refund id ids)
    let back = returning order ids
    modify (with_returned back)
    amounts ← reads λ _. total_lines back
    total ← reads λ s.
        by_money
          (money (whole (round (order.refunded_total.minor +ℤ amounts.gross.minor))) s.currency)
    let updated = refunded_order back total order
    modify λ s. record s { orders = put_order id updated s.orders }
    refund_payments updated amounts.gross
    issue_document now updated credit_note amounts
    pure updated
