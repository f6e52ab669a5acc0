-- ===== src/Till/Keeps.antt =====
-- Each call of the till keeps the floor sound, whether it returns or throws.
pub mod Known
pub mod Counts
use twenty_four.Money.{Money}
use twenty_four.Prelude.{
  ◌+◌, String, ◌≡◌, refl, sym, ap, ◌∙◌, subst, inl, inr, true, false, not, Option, none, some, List,
  [], ◌∷◌, map, arith, Bool-cases, select,
}
use twenty_four.Prelude.Equality.{◌==◌, eq_ℕ, eq_String, ==_refl}
use twenty_four.Prelude.Number.{Float64}
use twenty_four.Prelude.Results.{ok, err, ok-injective}
use twenty_four.Till.Data.{
  Order, OrderLine, is_parked, is_voided, Till, Clock, PlaceOrderInput, ParkOrderInput, TenderInput,
  DocumentKind, receipt, credit_note,
}
use twenty_four.Till.Method.{Throws, go_on, when, map_ok, pure, ◌>>=◌, modify}
use twenty_four.Till.Stock.{minus, plus, move_stock, reserve_stock}
use twenty_four.Till.Tables.{put_order, attach_table, check_table, attached, same}
use twenty_four.Till.Tenders.{record_payments, issue_document}
use twenty_four.Till.Sale.{place_order, order_id, with_sale}
use twenty_four.Till.Park.{
  park_order, update_parked_order, discard_parked_order, settle_parked_order, with_parked,
  with_replaced, with_released, with_taken, with_settled, settled_order, cleared, parked_of,
  without_order,
}
use twenty_four.Till.Correct.{
  void_order, refund_order, require_sale, refunded_order, returning, voided_order, sale_of,
  checked_refund, back_once, check_lines, check_some,
}
use twenty_four.Till.Floor.{
  Floor, floor, Ends, IsLike, ends, next, past, quiet, calm, require_covering-Quiet,
  build_tenders-Quiet, record_tenders-Quiet, issue_document-Quiet, refund_shares-Quiet, EndsOk,
  next_ok, past_ok,
}
use twenty_four.Till.Held.{
  count, held, held_by, Reserves, Reserves-ext, move_stock-Reserves, reserve_stock-plus, find_order,
  held-put_order,
}
use twenty_four.Till.Sound.{
  Sound, SoundBelow, counted, free_next, joined, replaced, removed, restocked, Reserves-released,
  Reserves-put, find_order-id,
}
use twenty_four.Till.Keeps.Known.{
  parked_of-ok, sale_of-ok, map_ok-ok, back_once-ok, checked_refund-ok,
}
use twenty_four.Till.Keeps.Counts.{
  sold_holds_nothing, refunded_order-sale, tab_holds, sale_joined, tab_joined, tab_replaced,
  find-head, find-put_order, sale_replaced, tab_settled,
}

-- A call that leaves the floor alone keeps it sound.
pub unchanged-Sound :
    {A : Type 0} {r : Throws A × Till} (s : Till)
    → Ends (IsLike s) r
    → Sound (floor s)
    → Ends Sound r
unchanged-Sound s e h = ends (subst Sound (sym e.holds.same) h)

-- To put an order on a table changes no count.
attach_table-Sound :
    (order : Order) (table_id : Option String) (s : Till)
    → Sound (floor s)
    → find_order order.id s.orders ≡ some order
    → Ends Sound (attach_table order table_id s)
unfolding attach_table
attach_table-Sound order table_id s h found = elim (Bool-cases (same order.table_id table_id)) [
  | inl there ↦ rw there (ends h)
  | inr moving ↦ rw moving (
      let moved =
        replaced (floor s) order.id (record order { table_id = table_id }) s.stock
          (map (attached order table_id) s.tables) h refl
          (Reserves-ext _ _ s.stock
            (λ i. omega (
              arith,
              held-put_order i order.id order (record order { table_id = table_id }) s.orders
                  h.below_next.distinct found,
            ))
            h.below_next.reserves) in
      next _ h (λ _ _. next _ moved (λ _ _. ends moved)))
]

written-Quiet :
    (now : Clock) (order : Order) (kind : DocumentKind) (s : Till)
    → Ends (IsLike s) (
        go_on
          (record_payments order s)
          (λ _. issue_document now order kind order.amounts >>= λ _. pure order))
written-Quiet now order kind s = quiet _ _ (record_tenders-Quiet order order.tenders s) (λ _ t.
    quiet _ _ (issue_document-Quiet now order kind order.amounts t) (λ _ u. calm _ _ _ refl))

returns : {A : Type 0} {P : Floor → Type 0} (r : Throws A × Till) → Ends P r → EndsOk P r
returns r e = record { on_ok = λ _ _. e.holds }

module _ ⦃f : Float64⦄ where
  pub place_order-Sound :
      (now : Clock) (input : PlaceOrderInput) (s : Till)
      → Sound (floor s)
      → Ends Sound (place_order now input s)
  unfolding place_order
  place_order-Sound now input s h = next _ h (λ p _.
      past _ s (require_covering-Quiet input.tenders p.1.gross s) h (λ _ t e.
        let free = counted (floor t) (subst Sound (sym e) h) in
        let h1 = free_next _ free in
        next _ h1 (λ _ _.
          past _ _ (build_tenders-Quiet p.1.gross.minor input.tenders _) h1 (λ tenders u e2.
            let free2 = subst (λ g. SoundBelow g.order_counter g) (sym e2) free in
            let h2 = free_next (floor u) free2 in
            next _ h2 (λ nothing _. next _ h2 (λ order made.
              let is_made = ok-injective made in
              let h3 =
                sale_joined u order free2 (sym (ap (λ o. o.id) is_made))
                  (sym (ap (λ o. is_parked o.status) is_made)) in
              next _ h3 (λ _ _. unchanged-Sound _ (written-Quiet now order receipt _) h3)))))))

  pub park_order-Sound :
      (now : Clock) (input : ParkOrderInput) (s : Till)
      → Sound (floor s)
      → Ends Sound (park_order now input s)
  unfolding park_order
  park_order-Sound now input s h = next _ h (λ p _.
      let free = counted (floor s) h in
      let h1 = free_next _ free in
      next _ h1 (λ _ _. next _ h1 (λ nothing _. next _ h1 (λ order made.
        let is_made = ok-injective made in
        let h3 =
          tab_joined (record s { order_counter = s.order_counter + 1 }) order free
            (sym (ap (λ o. o.id) is_made)) (sym (ap (λ o. is_parked o.status) is_made)) in
        next _ h3 (λ _ _. attach_table-Sound order _ _ h3 (find-head order s.orders))))))

  pub update_parked_order-Sound :
      (id : String) (input : ParkOrderInput) (s : Till)
      → Sound (floor s)
      → Ends Sound (update_parked_order id input s)
  unfolding update_parked_order
  update_parked_order-Sound id input s h = next _ h (λ existing known.
      let (found, tab) = parked_of-ok (find_order id s.orders) known in
      next _ h (λ p _. next _ h (λ updated made.
        let is_made = ok-injective made in
        let same_id = sym (ap (λ o. o.id) is_made) ∙ find_order-id id s.orders existing found in
        let h3 =
          tab_replaced s id existing updated h found tab same_id
            (sym (ap (λ o. is_parked o.status) is_made) ∙ tab) in
        next _ h3 (λ _ _. attach_table-Sound updated _ _ h3 (
          subst (λ i. find_order i (put_order id updated s.orders) ≡ some updated) (sym same_id)
            (find-put_order id existing updated s.orders same_id found))))))

  -- Between the release of what the tab held and its settlement the counts do not agree: this is about
  -- the call that returns.
  pub settle_parked_order-Sound :
      (now : Clock) (id : String) (inputs : List TenderInput) (s : Till)
      → Sound (floor s)
      → EndsOk Sound (settle_parked_order now id inputs s)
  unfolding settle_parked_order
  settle_parked_order-Sound now id inputs s h = next_ok _ (λ existing known.
      let (found, tab) = parked_of-ok (find_order id s.orders) known in
      past_ok _ s (require_covering-Quiet inputs existing.amounts.gross s) (λ _ t e.
        next_ok _ (λ _ _.
          past_ok _ _ (build_tenders-Quiet existing.amounts.gross.minor inputs _) (λ tenders u e2.
            let settled = settled_order now tenders existing in
            let h3 =
              tab_settled s t u id existing settled h found tab e e2
                (find_order-id id s.orders existing found) refl in
            next_ok _
              (λ _ _. returns _ (unchanged-Sound _ (written-Quiet now settled receipt _) h3))))))

  pub refund_order-Sound :
      (now : Clock) (id : String) (ids : Option (List String)) (s : Till)
      → Sound (floor s)
      → Ends Sound (refund_order now id ids s)
  unfolding refund_order
  refund_order-Sound now id ids s h = next _ h (λ order known.
      let (found, sale) =
        sale_of-ok (find_order id s.orders) (checked_refund-ok ids (require_sale id s) known) in
      let h1 =
        restocked (floor s) (move_stock plus (returning order ids) s.stock) h
          (move_stock-Reserves _ plus (returning order ids) s.stock h.below_next.reserves) in
      next _ h1 (λ _ _. next _ h1 (λ amounts _. next _ h1 (λ total _.
        let updated = refunded_order (returning order ids) total order in
        let h2 =
          sale_replaced (record s { stock = move_stock plus (returning order ids) s.stock }) id
            order updated h1 found sale (find_order-id id s.orders order found)
            (refunded_order-sale (returning order ids) total order) in
        next _ h2 (λ _ _.
          unchanged-Sound _
            (quiet _ _ (refund_shares-Quiet _ _ _) (λ _ t.
              quiet _ _ (issue_document-Quiet now updated credit_note amounts t)
                (λ _ u. calm _ _ _ refl)))
            h2)))))

pub void_order-Sound : (id : String) (s : Till) → Sound (floor s) → Ends Sound (void_order id s)
unfolding void_order when
void_order-Sound id s h = next _ h (λ order known.
    let (found, sale) = sale_of-ok (find_order id s.orders) known in
    elim (Bool-cases (is_voided order.status)) [
      | inl gone ↦ rw gone (next _ h (λ _ _. ends h))
      | inr live ↦ rw live (
          let h1 =
            sale_replaced (record s { stock = move_stock plus order.lines s.stock }) id order
              (voided_order order)
              (restocked (floor s) _ h
                (move_stock-Reserves _ plus order.lines s.stock h.below_next.reserves))
              found sale (find_order-id id s.orders order found) refl in
          next _ h1 (λ _ _. ends h1))
    ])

select-put_order :
    (id : String) (u : Order) (os : List Order)
    → u.id ≡ id
    → select (λ o. not (o.id == id)) (put_order id u os) ≡ select (λ o. not (o.id == id)) os
select-put_order id u [] e = refl
select-put_order id u (o ∷ os) e = elim (Bool-cases (o.id == id)) [
  | inl here ↦ rw (here, e, ==_refl id, select-put_order id u os e) refl
  | inr other ↦ rw (other, other, select-put_order id u os e) refl
]

-- The two calls in the middle of a discard neither throw nor leave anything of the order behind.
discarded :
    (id : String) (s : Till) (order : Order)
    → Sound (floor s)
    → order.id ≡ id
    → Reserves
        (λ i. held i (select (λ o. not (o.id == id)) s.orders))
        (reserve_stock minus order.lines s.stock)
    → Ends Sound (
        go_on
          (modify (with_released order) s)
          (λ _. attach_table order none >>= λ _. modify (without_order id)))
unfolding go_on attach_table check_table
discarded id s order h same_id all = elim (Bool-cases (same order.table_id none)) [
  | inl nowhere ↦ rw nowhere (ends (removed (floor s) id _ s.tables h all))
  | inr seated ↦ rw seated (
      ends (
        subst
          (λ os. Sound (record (floor s) {
            orders = os;
            stock = reserve_stock minus order.lines s.stock;
            tables = map (attached order none) s.tables;
          }))
          (sym (
            subst
              (λ i.
                select (λ o. not (o.id == id))
                  (put_order i (record order { table_id = none }) s.orders)
                ≡ select (λ o. not (o.id == id)) s.orders)
              (sym same_id)
              (select-put_order id (record order { table_id = none }) s.orders same_id)))
          (removed (floor s) id _ _ h all)))
]

pub discard_parked_order-Sound :
    (id : String) (s : Till) → Sound (floor s) → Ends Sound (discard_parked_order id s)
unfolding discard_parked_order
discard_parked_order-Sound id s h = next _ h (λ order known.
    let (found, tab) = parked_of-ok (find_order id s.orders) known in
    discarded id s order h (find_order-id id s.orders order found)
      (Reserves-released (floor s) id order h found tab))
