-- ===== src/Till/Keeps/Counts.antt =====
-- packages/mock/src/store.ts: the changes that a call makes to orders and stock keep the floor sound.
use twenty_four.Money.{Money}
use twenty_four.Prelude.{
  String, ◌≡◌, refl, sym, subst, inl, inr, true, false, some, List, [], ◌∷◌, map, arith, Bool-cases,
}
use twenty_four.Prelude.Equality.{◌==◌, eq_ℕ, eq_String, ==_refl}
use twenty_four.Till.Data.{Order, OrderLine, is_parked, Till}
use twenty_four.Till.Stock.{minus, plus, move_stock, reserve_stock}
use twenty_four.Till.Tables.{put_order}
use twenty_four.Till.Sale.{order_id, with_sale}
use twenty_four.Till.Park.{with_parked, with_replaced, with_taken, with_settled, cleared}
use twenty_four.Till.Correct.{refunded_order}
use twenty_four.Till.Floor.{floor}
use twenty_four.Till.Held.{
  count, held_by, Reserves-ext, move_stock-Reserves, reserve_stock-plus, find_order, held-put_order,
}
use twenty_four.Till.Sound.{Sound, SoundBelow, joined, replaced, Reserves-released, Reserves-put}

-- What is not parked holds nothing.
pub sold_holds_nothing : (i : String) (o : Order) → is_parked o.status ≡ false → held_by i o ≡ 0
sold_holds_nothing i o sale = rw sale refl

pub refunded_order-sale :
    (back : List OrderLine) (total : Money) (order : Order)
    → is_parked (refunded_order back total order).status ≡ false
refunded_order-sale back total order = ground arith

pub tab_holds : (i : String) (o : Order) → is_parked o.status ≡ true → held_by i o ≡ count i o.lines
tab_holds i o tab = rw tab refl

-- A paid order with the free number joins the others.
pub sale_joined :
    (u : Till) (order : Order)
    → SoundBelow u.order_counter (floor u)
    → order.id ≡ order_id u.tenant_id u.order_counter
    → is_parked order.status ≡ false
    → Sound (floor (with_sale order u))
sale_joined u order free id_is sale =
    joined (floor u) order (move_stock minus order.lines u.stock) free id_is (
      Reserves-ext _ _ _ (λ i. omega (arith, sold_holds_nothing i order sale))
        (move_stock-Reserves _ minus order.lines u.stock free.reserves))

pub tab_joined :
    (u : Till) (order : Order)
    → SoundBelow u.order_counter (floor u)
    → order.id ≡ order_id u.tenant_id u.order_counter
    → is_parked order.status ≡ true
    → Sound (floor (with_parked order u))
tab_joined u order free id_is tab =
    joined (floor u) order (reserve_stock plus order.lines u.stock) free id_is (
      Reserves-ext _ _ _ (λ i. omega (arith, tab_holds i order tab))
        (reserve_stock-plus _ order.lines u.stock free.reserves))

pub tab_replaced :
    (s : Till) (id : String) (existing updated : Order)
    → Sound (floor s)
    → find_order id s.orders ≡ some existing
    → is_parked existing.status ≡ true
    → updated.id ≡ id
    → is_parked updated.status ≡ true
    → Sound (floor (with_replaced id existing updated s))
tab_replaced s id existing updated h found tab same_id still_tab =
    replaced (floor s) id updated _ s.tables h same_id (
      Reserves-put (floor s) id existing updated _ h found (
        Reserves-ext _ _ _ (λ i. omega (arith, tab_holds i updated still_tab))
          (reserve_stock-plus _ updated.lines _
            (Reserves-released (floor s) id existing h found tab))))

pub find-head : (o : Order) (os : List Order) → find_order o.id (o ∷ os) ≡ some o
find-head o os = rw (==_refl o.id) refl

pub find-put_order :
    (id : String) (e u : Order) (os : List Order)
    → u.id ≡ id
    → find_order id os ≡ some e
    → find_order id (put_order id u os) ≡ some u
find-put_order id e u [] same_id f = cc
find-put_order id e u (o ∷ os) same_id f = elim (Bool-cases (o.id == id)) [
  | inl here ↦ rw (here, same_id, ==_refl id) refl
  | inr other ↦ rw (other, other) (find-put_order id e u os same_id (cc (f, other)))
]

-- A sale takes the place of a sale, whatever has become of the counts on hand.
pub sale_replaced :
    (s : Till) (id : String) (order updated : Order)
    → Sound (floor s)
    → find_order id s.orders ≡ some order
    → is_parked order.status ≡ false
    → updated.id ≡ id
    → is_parked updated.status ≡ false
    → Sound (floor (record s { orders = put_order id updated s.orders }))
sale_replaced s id order updated h found sale same_id still_sale =
    replaced (floor s) id updated s.stock s.tables h same_id (
      Reserves-ext _ _ _
        (λ i. omega (
          arith,
          held-put_order i id order updated s.orders h.below_next.distinct found,
          sold_holds_nothing i order sale,
          sold_holds_nothing i updated still_sale,
        ))
        h.below_next.reserves)

-- A settled tab: its reservation is gone, and so is the stock.
pub tab_settled :
    (s t u : Till) (id : String) (existing settled : Order)
    → Sound (floor s)
    → find_order id s.orders ≡ some existing
    → is_parked existing.status ≡ true
    → floor t ≡ floor s
    → floor u ≡ floor (with_taken existing t)
    → settled.id ≡ id
    → is_parked settled.status ≡ false
    → Sound (floor (with_settled id settled u))
tab_settled s t u id existing settled h found tab e e2 same_id sale =
    subst
      (λ g.
        Sound
          (record g { orders = put_order id settled g.orders; tables = map (cleared id) g.tables }))
      (sym e2)
      (subst
        (λ g. Sound (record g {
          orders = put_order id settled g.orders;
          tables = map (cleared id) g.tables;
          stock = move_stock minus existing.lines (reserve_stock minus existing.lines g.stock);
        }))
        (sym e)
        (replaced (floor s) id settled _ _ h same_id (
          Reserves-put (floor s) id existing settled _ h found (
            Reserves-ext _ _ _ (λ i. omega (arith, sold_holds_nothing i settled sale))
              (move_stock-Reserves _ minus existing.lines _
                (Reserves-released (floor s) id existing h found tab))))))
