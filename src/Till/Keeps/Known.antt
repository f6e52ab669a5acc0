-- ===== src/Till/Keeps/Known.antt =====
-- packages/mock/src/store.ts: what is known of an order where the guards of a call have let it through.
use twenty_four.Prelude.{
  String, ◌≡◌, ap, subst, inl, inr, true, false, Option, none, some, List, arith, Bool-cases,
}
use twenty_four.Prelude.Equality.{eq_ℕ, eq_String}
use twenty_four.Prelude.Results.{ok, err}
use twenty_four.Till.Data.{Order, is_parked}
use twenty_four.Till.Method.{Throws, map_ok}
use twenty_four.Till.Park.{parked_of}
use twenty_four.Till.Correct.{
  returning, sale_of, checked_refund, back_once, check_lines, check_some,
}

pub parked_of-ok :
    (o : Option Order) {e : Order} → parked_of o ≡ ok e → (o ≡ some e) × (is_parked e.status ≡ true)
parked_of-ok none h = cc
parked_of-ok (some order) {e} h = elim (Bool-cases (is_parked order.status)) [
  | inl tab ↦
      let same_one : order ≡ e = ground (arith, tab, h) in
      (ap some same_one, subst (λ o. is_parked o.status ≡ true) same_one tab)
  | inr sale ↦ ground (arith, sale, h)
]

pub sale_of-ok :
    (o : Option Order) {e : Order} → sale_of o ≡ ok e → (o ≡ some e) × (is_parked e.status ≡ false)
sale_of-ok none h = cc
sale_of-ok (some order) {e} h = elim (Bool-cases (is_parked order.status)) [
  | inl tab ↦ ground (arith, tab, h)
  | inr sale ↦
      let same_one : order ≡ e = ground (arith, sale, h) in
      (ap some same_one, subst (λ o. is_parked o.status ≡ false) same_one sale)
]

pub map_ok-ok :
    (order : Order) (c : Throws (Unit {0})) {e : Order} → map_ok (λ _. order) c ≡ ok e → order ≡ e
map_ok-ok order (ok _) h = cc
map_ok-ok order (err x) h = cc

pub back_once-ok :
    (order : Order) (ids : Option (List String)) (c : Throws (Unit {0})) {e : Order}
    → back_once order ids c ≡ ok e
    → order ≡ e
back_once-ok order ids (err x) h = cc
back_once-ok order ids (ok _) h = map_ok-ok order (check_some (returning order ids)) h

pub checked_refund-ok :
    (ids : Option (List String)) (o : Throws Order) {e : Order}
    → checked_refund ids o ≡ ok e
    → o ≡ ok e
checked_refund-ok ids (err x) h = cc
checked_refund-ok ids (ok order) h =
    ground (arith, back_once-ok order ids (check_lines order ids), h)
