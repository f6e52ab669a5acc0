-- ===== src/Till/Tests.antt =====
-- Runs of the till of packages/mock/src/store.ts, and its theorems at concrete calls.
use twenty_four.Prelude.{ℕ, ◌≡◌, refl, true, none, some, List, [], ◌∷◌, arith}
use twenty_four.Prelude.Equality.{eq_ℕ, eq_String}
use twenty_four.Prelude.Int.{pos, ◌+ℤ◌, ◌-ℤ◌, ◌*ℤ◌}
use twenty_four.Prelude.Number.{whole, coarse}
use twenty_four.Prelude.FloatSum.{sum_by}
use twenty_four.Prelude.Results.{ok}
use twenty_four.Money.{Money, is_known_currency, exponent_of, money, to_minor}
use twenty_four.Pricing.{Amounts, total_of, total_loop}
use twenty_four.Pricing.{lift_money, total_loop, total_of, Amounts}
use twenty_four.Till.Tenders.{refund_shares, refund_share, issue_document, refund_payment}
use twenty_four.Till.Stock.{move_stock}
use twenty_four.Prelude.Results.{traverse}
use twenty_four.Money.{sum_money, sum_loop, assert_same_currency, zero_money}
use twenty_four.Till.Data.{parked}
use twenty_four.Till.Tenders.{require_covering, build_tender, record_tenders, record_tender}
use twenty_four.Till.Stock.{reserve_stock}
use twenty_four.Till.Park.{settle_parked_order}
use twenty_four.Till.Settled.{
  Settled, settle_parked_order-Settled, settle_parked_order-paid_in_full,
}
use twenty_four.Prelude.FloatSum.{sum_by}
use twenty_four.Till.Correct.{refund_order, returning}
use twenty_four.Till.Refunded.{Refunded, refund_order-Refunded}
use twenty_four.Prelude.Results.{ok, traverse}
use twenty_four.Till.Method.{go_on, when, after}
use twenty_four.Till.Data.{
  Till, CatalogItem, Clock, WireMoney, OrderLineInput, TenderInput, ParkOrderInput, cash, card,
  Tender, Order, OrderLine, paid, refunded,
}
use twenty_four.Till.Method.{after, go_on}
use twenty_four.Till.Allocate.{
  itself, allocate, topped_up, split, shares_of, largest, largest_from, add_at,
}
use twenty_four.Prelude.Decimal.{digits}
use twenty_four.Till.Allocate.Sum.{allocate-sum}
use twenty_four.Till.Tenders.{build_tenders, build_tender}
use twenty_four.Till.Tendered.{build_tenders-sum}
use twenty_four.Till.Park.{park_order, discard_parked_order}
use twenty_four.Till.Floor.{floor}
use twenty_four.Till.Sound.{Sound}
use twenty_four.Till.Steps.{Reach-Sound, here, then_step, parks, discards}

abbrev huf : ℕ → Money
huf n = record { minor = pos n; currency = "HUF" }

abbrev tea : CatalogItem
tea = record {
  id = "tea";
  name = "Tea";
  unit_price = huf 500;
  tax_basis_points = whole (pos 2700);
  tax_included = true;
}

abbrev morning : Till
morning = record {
  tenant_id = "t";
  currency = "HUF";
  user_name = "Eva";
  items = tea ∷ [];
  customers = [];
  first_staff = none;
  tables = [];
  orders = [];
  payments = [];
  documents = [];
  stock = record { item_id = "tea"; on_hand = pos 10; reserved = 0 } ∷ [];
  days = [];
  order_counter = 0;
  payment_counter = 0;
  document_counter = 0;
}

abbrev noon : Clock
noon = record { iso = "2026-09-06T12:00:00.000Z"; day = "20260906"; year = "2026" }

abbrev wire : ℕ → WireMoney
wire n = record { minor = whole (pos n); currency = "HUF" }

abbrev two_teas : OrderLineInput
two_teas = record { item_id = "tea"; quantity = whole (pos 2); discount = none }

abbrev tab : ParkOrderInput
tab = record {
  lines = two_teas ∷ [];
  note = none;
  staff_id = none;
  customer_id = none;
  table_id = none;
}

abbrev in_cash : ℕ → TenderInput
in_cash n = record { method = cash; amount = wire n; tendered = none }

abbrev by_card : ℕ → TenderInput
by_card n = record { method = card; amount = wire n; tendered = none }

-- A tab that is opened and then discarded.
Reach-Sound_example : Sound (
    floor
      (after (discard_parked_order "t-order-1" (after (park_order ⦃f = coarse⦄ noon tab morning)))))
Reach-Sound_example =
    Reach-Sound ⦃f = coarse⦄ (then_step (then_step here (parks noon tab)) (discards "t-order-1"))
      (record { below_next = record { numbered = tt; distinct = tt; reserves = (refl, tt) } })

-- Three payments of 100 and a refund of 299: the last crowns all go to the first one, which gets 101.
uneven_shares :
    allocate ⦃f = coarse⦄ (pos 100 ∷ pos 100 ∷ pos 100 ∷ []) (pos 299)
    ≡ pos 101 ∷ pos 99 ∷ pos 99 ∷ []
unfolding allocate topped_up split shares_of largest largest_from add_at ◌+ℤ◌ ◌-ℤ◌ ◌*ℤ◌
uneven_shares = refl

allocate-sum_example :
    sum_by itself (allocate ⦃f = coarse⦄ (pos 100 ∷ pos 100 ∷ pos 100 ∷ []) (pos 299)) ≡ pos 299
allocate-sum_example =
    allocate-sum ⦃f = coarse⦄ (100 ∷ 100 ∷ 100 ∷ []) 299 (omega arith) (omega arith)

-- 1000 due, 400 by card and 700 in cash: 400 and 600 are taken.
abbrev split_bill : List Tender
split_bill =
    record {
      id = "t-tender-1";
      method = card;
      amount = huf 400;
      tendered = none;
      change = none;
      reference = some "ref-1";
    }
    ∷ record {
      id = "t-tender-2";
      method = cash;
      amount = huf 600;
      tendered = none;
      change = none;
      reference = none;
    }
    ∷ []

split_bill_taken :
    (build_tenders ⦃f = coarse⦄ (pos 1_000) (by_card 400 ∷ in_cash 700 ∷ []) morning).0
    ≡ ok split_bill
unfolding build_tenders build_tender go_on ◌+ℤ◌ ◌-ℤ◌ ◌*ℤ◌ exponent_of money to_minor
    is_known_currency digits
split_bill_taken = refl

build_tenders-sum_example : sum_by (λ t. t.amount.minor) split_bill ≡ pos 1_000
build_tenders-sum_example =
    build_tenders-sum ⦃f = coarse⦄ (by_card 400 ∷ in_cash 700 ∷ []) 1_000 morning split_bill
      (omega arith) (refl, (refl, tt)) split_bill_taken

abbrev two_cost : Amounts
two_cost = record { gross = huf 1_000; net = huf 787; tax = huf 213 }

abbrev sold_teas : OrderLine
sold_teas = record {
  id = "line-1";
  item_id = "tea";
  name = "Tea";
  quantity = 2;
  unit_price = huf 500;
  tax_basis_points = whole (pos 2700);
  tax_included = true;
  discount = none;
  amounts = two_cost;
}

abbrev sale : Order
sale = record {
  id = "t-order-1";
  number = "20260906-0001";
  placed_at = "2026-09-06T12:00:00.000Z";
  status = paid;
  customer_id = none;
  customer_name = none;
  discount_code = none;
  discount = none;
  lines = sold_teas ∷ [];
  amounts = two_cost;
  tenders = split_bill;
  staff_id = none;
  note = "";
  table_id = none;
  refunded_total = huf 0;
  refunded_line_ids = [];
}

abbrev evening : Till
evening = record morning { orders = sale ∷ []; order_counter = 1; payment_counter = 2 }

abbrev refunded_sale : Order
refunded_sale = record sale {
  status = refunded;
  refunded_total = huf 1_000;
  refunded_line_ids = "line-1" ∷ [];
}

sale_refunded : (refund_order ⦃f = coarse⦄ noon "t-order-1" none evening).0 ≡ ok refunded_sale
unfolding refund_order go_on when returning total_of total_loop lift_money money is_known_currency
    exponent_of to_minor ◌+ℤ◌ ◌-ℤ◌ ◌*ℤ◌ refund_shares allocate split topped_up shares_of
    refund_share digits traverse add_at largest largest_from move_stock issue_document
    refund_payment
sale_refunded = refl

refund_order-Refunded_example :
    Refunded ⦃f = coarse⦄ evening
      (after (refund_order ⦃f = coarse⦄ noon "t-order-1" none evening))
      "t-order-1"
      none
      refunded_sale
refund_order-Refunded_example =
    refund_order-Refunded ⦃f = coarse⦄ noon "t-order-1" none evening refunded_sale sale_refunded

abbrev waiting : Order
waiting = record sale { status = parked; tenders = [] }

abbrev lunch : Till
lunch = record morning { orders = waiting ∷ []; order_counter = 1 }

abbrev settled_tab : Order
settled_tab = record waiting {
  status = paid;
  placed_at = "2026-09-06T12:00:00.000Z";
  tenders = split_bill;
}

tab_settled :
    (settle_parked_order ⦃f = coarse⦄ noon "t-order-1" (by_card 400 ∷ in_cash 700 ∷ []) lunch).0
    ≡ ok settled_tab
unfolding settle_parked_order go_on when require_covering build_tenders build_tender money to_minor
    is_known_currency exponent_of digits traverse sum_money sum_loop assert_same_currency ◌+ℤ◌ ◌-ℤ◌
    move_stock reserve_stock record_tenders record_tender zero_money issue_document
tab_settled = refl

settle_parked_order-Settled_example :
    Settled ⦃f = coarse⦄ lunch
      (after
        (settle_parked_order ⦃f = coarse⦄ noon "t-order-1" (by_card 400 ∷ in_cash 700 ∷ []) lunch))
      "t-order-1"
      settled_tab
settle_parked_order-Settled_example =
    settle_parked_order-Settled ⦃f = coarse⦄ noon "t-order-1" (by_card 400 ∷ in_cash 700 ∷ []) lunch
      settled_tab tab_settled

settle_parked_order-paid_in_full_example :
    sum_by (λ t. t.amount.minor) settled_tab.tenders ≡ pos 1_000
settle_parked_order-paid_in_full_example =
    settle_parked_order-paid_in_full ⦃f = coarse⦄ noon "t-order-1" "HUF"
      (by_card 400 ∷ in_cash 700 ∷ []) lunch settled_tab waiting 1_000 refl refl (omega arith)
      ((refl, refl), ((refl, refl), tt)) tab_settled
