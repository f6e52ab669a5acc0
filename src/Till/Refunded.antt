-- ===== src/Till/Refunded.antt =====
-- packages/mock/src/store.ts, `refundOrder`: a line goes back once.
use twenty_four.Prelude.{
  String, ◌≡◌, refl, ap, ◌∙◌, subst, ◌≢◌, inl, inr, Bool, true, false, not, Option, none, some,
  List, [], ◌∷◌, ◌++◌, map, arith, if◌then◌else◌, Bool-cases, All, select, find, exists, includes,
}
use twenty_four.Prelude.Equality.{◌==◌, eq_ℕ, eq_String, eq_of_==}
use twenty_four.Prelude.Int.{ℤ, ◌+ℤ◌}
use twenty_four.Prelude.Number.{whole, is_safe, Float64, round-safe, is_safe-round}
use twenty_four.Prelude.Results.{ok, err, ok-injective}
use twenty_four.Pricing.{Amounts}
use twenty_four.Till.Data.{Order, OrderLine, Till, Clock, is_voided, is_parked, credit_note}
use twenty_four.Till.Method.{Throws, map_ok, by_money}
use twenty_four.Till.Price.{total_lines}
use twenty_four.Till.Correct.{
  refund_order, checked_refund, back_once, check_lines, check_some, returning, line_ids,
  require_sale, refunded_order,
}
use twenty_four.Money.{Money, money, to_minor}
use twenty_four.Till.Tables.{put_order}
use twenty_four.Till.Floor.{refund_shares-Quiet, issue_document-Quiet}
use twenty_four.Till.Gives.{Gives, gives, go_on-Gives, calm-Gives}
use twenty_four.Till.Keeps.Known.{sale_of-ok}
use twenty_four.Till.Tendered.{money-minor}

-- The line is not among those that went back before.
abbrev pub IsNew : Order → OrderLine → Type 0
IsNew order l = includes order.refunded_line_ids l.id ≡ false

pub record Returns (order : Order) (back : List OrderLine) : Type 0 where
  pub not_voided : is_voided order.status ≡ false
  pub some_line : back ≢ []
  pub once : All (IsNew order) back

exists-false :
    (p : String → Bool) (ids : List String) (id : String)
    → exists p ids ≡ false
    → includes ids id ≡ true
    → p id ≡ false
exists-false p [] id h i = cc
exists-false p (x ∷ xs) id h i = elim (Bool-cases (id == x)) [
  | inl same ↦ ground (arith, h, eq_of_== id x same)
  | inr other ↦ exists-false p xs id (ground (arith, h)) (ground (arith, i, other))
]

-- What is selected passes the test.
All-selected :
    (P : OrderLine → Type 0) (p : OrderLine → Bool) (ls : List OrderLine)
    → ((l : OrderLine) → p l ≡ true → P l)
    → All P (select p ls)
All-selected P p [] h = tt
All-selected P p (l ∷ ls) h = elim (Bool-cases (p l)) [
  | inl kept ↦ rw kept (h l kept, All-selected P p ls h)
  | inr out ↦ rw out (All-selected P p ls h)
]

of_not : (b : Bool) → not b ≡ true → b ≡ false
of_not true h = cc
of_not false h = refl

returning-IsNew :
    (order : Order) (ids : Option (List String))
    → check_lines order ids ≡ ok tt
    → All (IsNew order) (returning order ids)
unfolding returning
returning-IsNew order none h = All-selected (IsNew order) _ order.lines (λ l kept. of_not _ kept)
returning-IsNew order (some ids) h = All-selected (IsNew order) _ order.lines (λ l asked.
    exists-false (λ id. includes order.refunded_line_ids id) ids l.id (ground (arith, h)) asked)

check_some-ok : (back : List OrderLine) → check_some back ≡ ok tt → back ≢ []
check_some-ok [] h = cc
check_some-ok (l ∷ ls) h = λ e. cc

map_ok-both :
    (order : Order) (c : Throws (Unit {0})) {e : Order}
    → map_ok (λ _. order) c ≡ ok e
    → (order ≡ e) × (c ≡ ok tt)
map_ok-both order (ok u) h = (ok-injective h, refl)
map_ok-both order (err x) h = cc

back_once-Returns :
    (order : Order) (ids : Option (List String)) (c : Throws (Unit {0})) {e : Order}
    → check_lines order ids ≡ c
    → is_voided order.status ≡ false
    → back_once order ids c ≡ ok e
    → (order ≡ e) × Returns order (returning order ids)
back_once-Returns order ids (err x) known live h = cc
back_once-Returns order ids (ok u) known live h =
    let (same, some_back) = map_ok-both order (check_some (returning order ids)) h in
    (
      same,
      record {
        not_voided = live;
        some_line = check_some-ok (returning order ids) some_back;
        once = returning-IsNew order ids known;
      },
    )

checked_refund-Returns :
    (ids : Option (List String)) (o : Throws Order) {e : Order}
    → checked_refund ids o ≡ ok e
    → (o ≡ ok e) × Returns e (returning e ids)
checked_refund-Returns ids (err x) h = cc
checked_refund-Returns ids (ok order) {e} h = elim (Bool-cases (is_voided order.status)) [
  | inl gone ↦ ground (arith, gone, h)
  | inr live ↦
      let (same, back) =
        back_once-Returns order ids (check_lines order ids) refl live (rw live at h) in
      (ap ok same, subst (λ o. Returns o (returning o ids)) same back)
]

module _ ⦃f : Float64⦄ where
  open f use {round}

  -- A rounded number that makes an amount of money was safe before, and so is not rounded at all.
  money-round :
      (n : ℤ) (c : String) {m : Money} → by_money (money (whole (round n)) c) ≡ ok m → m.minor ≡ n
  unfolding money to_minor
  money-round n c h = elim (Bool-cases (is_safe n)) [
    | inl safe ↦ money-minor (round n) c h ∙ round-safe n (ground (arith, safe))
    | inr past ↦ ground (arith, is_safe-round n, past, h)
  ]

  -- What a refund that returns `o` makes of the till `s`, which it leaves as `t`.
  pub record Refunded (s t : Till) (id : String) (ids : Option (List String)) (o : Order)
      : Type 0 where
    pub before : Order
    pub amounts : Amounts
    pub found : find (λ x. x.id == id) s.orders ≡ some before
    pub was_sale : is_parked before.status ≡ false
    pub back : Returns before (returning before ids)
    pub cost : total_lines (returning before ids) ≡ ok amounts
    pub listed : o.refunded_line_ids ≡ before.refunded_line_ids ++ line_ids (returning before ids)
    pub total : o.refunded_total.minor ≡ before.refunded_total.minor +ℤ amounts.gross.minor
    pub same_sale : (o.id ≡ before.id) × (o.lines ≡ before.lines) × (o.tenders ≡ before.tenders)
    pub stored : t.orders ≡ map (λ x. if x.id == id then o else x) s.orders

  refunded_order-Refunded :
      (s t : Till) (id : String) (ids : Option (List String)) (order : Order) (amounts : Amounts)
      (total : Money) (currency : String)
      → checked_refund ids (require_sale id s) ≡ ok order
      → total_lines (returning order ids) ≡ ok amounts
      → by_money
          (money (whole (round (order.refunded_total.minor +ℤ amounts.gross.minor))) currency)
        ≡ ok total
      → t.orders ≡ put_order id (refunded_order (returning order ids) total order) s.orders
      → Refunded s t id ids (refunded_order (returning order ids) total order)
  refunded_order-Refunded s t id ids order amounts total currency checked cost paid stored =
      let (known, back) = checked_refund-Returns ids (require_sale id s) checked in
      let (found, was_sale) = sale_of-ok (find (λ x. x.id == id) s.orders) known in
      record {
        before = order;
        amounts = amounts;
        found = found;
        was_sale = was_sale;
        back = back;
        cost = cost;
        listed = refl;
        total = money-round (order.refunded_total.minor +ℤ amounts.gross.minor) _ paid;
        same_sale = (refl, refl, refl);
        stored = stored;
      }

  -- A refund that returns was of a sale that is there, neither parked nor voided. It gives back at least
  -- one line and none that went back before. The sale that it returns lists those lines too, its
  -- refunded total is exactly what it was and their gross total, and its id, lines and tenders are
  -- as they were. It takes the place of the old one in the list of sales that the call leaves, in which
  -- every other sale is as it was.
  pub refund_order-Refunded :
      (now : Clock) (id : String) (ids : Option (List String)) (s : Till) (o : Order)
      → (refund_order now id ids s).0 ≡ ok o
      → Refunded s (refund_order now id ids s).1 id ids o
  unfolding refund_order
  refund_order-Refunded now id ids s o h =
      let run : Gives (λ x t. Refunded s t id ids x) (refund_order now id ids s) =
        go_on-Gives _ (λ order checked. go_on-Gives _ (λ _ _. go_on-Gives _ (λ amounts cost.
          go_on-Gives _ (λ total paid. go_on-Gives _ (λ _ _.
            calm-Gives _ _ (refund_shares-Quiet order.tenders _ _) (λ _ t e.
              calm-Gives _ _ (issue_document-Quiet now _ credit_note amounts t) (λ _ u e2.
                gives _ _ (
                  refunded_order-Refunded s u id ids order amounts total _ checked cost paid
                    (e2 ∙ e))))))))) in
      run.on_ok o h
