-- ===== src/Till/Sound.antt =====
-- The invariant of the floor: order ids come from the counter and are distinct, and what is reserved of
-- an item is exactly what the parked sales hold of it.
use twenty_four.Prelude.{
  ℕ, ◌+◌, ◌<◌, String, ◌≡◌, refl, sym, ◌∙◌, subst, ◌≢◌, inl, inr, Bool, true, false, not, some,
  List, [], ◌∷◌, arith, Bool-cases, All, select, All-weaken, All-select,
}
use twenty_four.Prelude.Equality.{◌==◌, eq_ℕ, eq_String, eq_of_==}
use twenty_four.Prelude.Numerals.Injective.{tagged-injective}
use twenty_four.Till.Data.{Order, StockRow, DiningTable, is_parked}
use twenty_four.Till.Stock.{minus, reserve_stock}
use twenty_four.Till.Tables.{put_order}
use twenty_four.Till.Sale.{order_id}
use twenty_four.Till.Floor.{Floor}
use twenty_four.Till.Held.{
  count, held, held_by, Reserves, Reserves-ext, reserve_stock-minus, Distinct, find_order,
  held-put_order, held-select,
}

-- The id of an order, numbered below a bound.
abbrev pub Numbered : String → ℕ → Order → Type 0
Numbered tenant bound o = (k : ℕ) × (o.id ≡ order_id tenant k) × (k < bound)

-- The bound is the first number that no order has yet.
pub record SoundBelow (bound : ℕ) (g : Floor) : Type 0 where
  pub numbered : All (Numbered g.tenant_id bound) g.orders
  pub distinct : Distinct g.orders
  pub reserves : Reserves (λ i. held i g.orders) g.stock

pub record Sound (g : Floor) : Type 0 where
  pub below_next : SoundBelow (g.order_counter + 1) g

-- The counter goes up, and its number is free.
pub counted :
    (g : Floor)
    → Sound g
    → SoundBelow (g.order_counter + 1) (record g { order_counter = g.order_counter + 1 })
counted g h = record {
  numbered = h.below_next.numbered;
  distinct = h.below_next.distinct;
  reserves = h.below_next.reserves;
}

pub free_next : (g : Floor) → SoundBelow g.order_counter g → Sound g
free_next g h = record {
  below_next = record {
    numbered = All-weaken g.orders (λ o n. (n.0, n.1, omega (arith, n.2))) h.numbered;
    distinct = h.distinct;
    reserves = h.reserves;
  };
}

apart_of_ne : (a b : String) → a ≢ b → (a == b) ≡ false
apart_of_ne a b h = elim (Bool-cases (a == b)) [
  | inl same ↦ absurd (h (eq_of_== a b same))
  | inr other ↦ other
]

free_id :
    (tenant : String) (n : ℕ) (o : Order)
    → Numbered tenant n o
    → (o.id == order_id tenant n) ≡ false
free_id tenant n o (k, e, low) =
    apart_of_ne o.id (order_id tenant n)
      (λ same. omega (arith, tagged-injective tenant "-order-" k n (sym e ∙ same), low))

-- An order with the free number joins the others; the stock makes room for what it holds.
pub joined :
    (g : Floor) (o : Order) (rows : List StockRow)
    → SoundBelow g.order_counter g
    → o.id ≡ order_id g.tenant_id g.order_counter
    → Reserves (λ i. held i (o ∷ g.orders)) rows
    → Sound (record g { orders = o ∷ g.orders; stock = rows })
joined g o rows h e all = record {
  below_next = record {
    numbered = ((g.order_counter, e, omega arith), (free_next g h).below_next.numbered);
    distinct = (
      All-weaken g.orders
          (λ p n.
            subst (λ i. (p.id == i) ≡ false) (sym e) (free_id g.tenant_id g.order_counter p n))
          h.numbered,
      h.distinct,
    );
    reserves = all;
  };
}

-- An order of a known id is replaced.
All-put_order :
    (P : String → Type 0) (id : String) (u : Order) (os : List Order)
    → u.id ≡ id
    → All (λ o. P o.id) os
    → All (λ o. P o.id) (put_order id u os)
All-put_order P id u [] e h = tt
All-put_order P id u (o ∷ os) e h = elim (Bool-cases (o.id == id)) [
  | inl same ↦ rw same (subst P (eq_of_== o.id id same ∙ sym e) h.0, All-put_order P id u os e h.1)
  | inr other ↦ rw other (h.0, All-put_order P id u os e h.1)
]

Distinct-put_order :
    (id : String) (u : Order) (os : List Order)
    → u.id ≡ id
    → Distinct os
    → Distinct (put_order id u os)
Distinct-put_order id u [] e d = tt
Distinct-put_order id u (o ∷ os) e d = elim (Bool-cases (o.id == id)) [
  | inl same ↦ rw same (
    subst (λ i. All (λ p. (p.id == i) ≡ false) (put_order id u os)) (eq_of_== o.id id same ∙ sym e)
        (All-put_order (λ i. (i == o.id) ≡ false) id u os e d.0),
    Distinct-put_order id u os e d.1,
  )
  | inr other ↦
      rw other
        (All-put_order (λ i. (i == o.id) ≡ false) id u os e d.0, Distinct-put_order id u os e d.1)
]

pub replaced :
    (g : Floor) (id : String) (u : Order) (rows : List StockRow) (tables : List DiningTable)
    → Sound g
    → u.id ≡ id
    → Reserves (λ i. held i (put_order id u g.orders)) rows
    → Sound (record g { orders = put_order id u g.orders; stock = rows; tables = tables })
replaced g id u rows tables h e all = record {
  below_next = record {
    numbered =
        All-put_order (λ i. (k : ℕ) × (i ≡ order_id g.tenant_id k) × (k < g.order_counter + 1)) id u
          g.orders e h.below_next.numbered;
    distinct = Distinct-put_order id u g.orders e h.below_next.distinct;
    reserves = all;
  };
}

Distinct-select : (p : Order → Bool) (os : List Order) → Distinct os → Distinct (select p os)
Distinct-select p [] d = tt
Distinct-select p (o ∷ os) d = elim (Bool-cases (p o)) [
  | inl kept ↦ rw kept (All-select _ p os d.0, Distinct-select p os d.1)
  | inr out ↦ rw out (Distinct-select p os d.1)
]

-- An order leaves, and the stock forgets what it held.
pub removed :
    (g : Floor) (id : String) (rows : List StockRow) (tables : List DiningTable)
    → Sound g
    → Reserves (λ i. held i (select (λ o. not (o.id == id)) g.orders)) rows
    → Sound (record g {
      orders = select (λ o. not (o.id == id)) g.orders;
      stock = rows;
      tables = tables;
    })
removed g id rows tables h all = record {
  below_next = record {
    numbered = All-select _ _ g.orders h.below_next.numbered;
    distinct = Distinct-select _ g.orders h.below_next.distinct;
    reserves = all;
  };
}

-- Only the counts on hand change.
pub restocked :
    (g : Floor) (rows : List StockRow)
    → Sound g
    → Reserves (λ i. held i g.orders) rows
    → Sound (record g { stock = rows })
restocked g rows h all = record {
  below_next = record {
    numbered = h.below_next.numbered;
    distinct = h.below_next.distinct;
    reserves = all;
  };
}

-- A parked order: what is reserved without it, and what is reserved with another in its place.
pub Reserves-released :
    (g : Floor) (id : String) (e : Order)
    → Sound g
    → find_order id g.orders ≡ some e
    → is_parked e.status ≡ true
    → Reserves
        (λ i. held i (select (λ o. not (o.id == id)) g.orders))
        (reserve_stock minus e.lines g.stock)
Reserves-released g id e h found open_tab = reserve_stock-minus _ e.lines g.stock (
    Reserves-ext _ _ g.stock
      (λ i. held_here i (held-select i id e g.orders h.below_next.distinct found))
      h.below_next.reserves)
  where
    held_by_parked : (i : String) → held_by i e ≡ count i e.lines
    held_by_parked i = rw open_tab refl

    held_here :
        (i : String)
        → held i (select (λ o. not (o.id == id)) g.orders) + held_by i e ≡ held i g.orders
        → held i g.orders ≡ count i e.lines + held i (select (λ o. not (o.id == id)) g.orders)
    held_here i eq = omega (arith, held_by_parked i, eq)

pub Reserves-put :
    (g : Floor) (id : String) (e u : Order) (rows : List StockRow)
    → Sound g
    → find_order id g.orders ≡ some e
    → Reserves (λ i. held_by i u + held i (select (λ o. not (o.id == id)) g.orders)) rows
    → Reserves (λ i. held i (put_order id u g.orders)) rows
Reserves-put g id e u rows h found all =
    Reserves-ext _ _ rows
      (λ i. omega (
        arith,
        held-put_order i id e u g.orders h.below_next.distinct found,
        held-select i id e g.orders h.below_next.distinct found,
      ))
      all

pub find_order-id :
    (id : String) (os : List Order) (e : Order) → find_order id os ≡ some e → e.id ≡ id
find_order-id id [] e f = cc
find_order-id id (o ∷ os) e f = elim (Bool-cases (o.id == id)) [
  | inl same ↦ ground (arith, eq_of_== o.id id same)
  | inr other ↦ find_order-id id os e (cc (f, other))
]
