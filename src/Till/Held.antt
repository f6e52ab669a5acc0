-- ===== src/Till/Held.antt =====
-- What parked sales hold of each item, and what a change of the orders or of the reservations does to
-- that count.
use twenty_four.Prelude.{
  ℕ, ◌+◌, ◌-◌, String, ◌≡◌, refl, sym, ap, ◌∙◌, subst, inl, inr, true, false, not, Option, some,
  List, [], ◌∷◌, arith, if◌then◌else◌, Bool-cases, All, select, find, All-map,
}
use twenty_four.Prelude.Equality.{◌==◌, eq_ℕ, eq_String, eq_of_==}
use twenty_four.Till.Data.{Order, OrderLine, StockRow, is_parked}
use twenty_four.Till.Stock.{Sign, minus, plus, move_stock, reserve_stock, held_after, moved, on_one}
use twenty_four.Till.Tables.{put_order}

-- How many of an item the lines name.
abbrev pub count : String → List OrderLine → ℕ
count item [] = 0
count item (l ∷ ls) = (if item == l.item_id then l.quantity else 0) + count item ls

abbrev pub held_by : String → Order → ℕ
held_by item o = if is_parked o.status then count item o.lines else 0

abbrev pub held : String → List Order → ℕ
held item [] = 0
held item (o ∷ os) = held_by item o + held item os

-- Every row reserves what a function of its item says.
abbrev pub Reserves : (String → ℕ) → List StockRow → Type 0
Reserves h = All λ r. r.reserved ≡ h r.item_id

pub Reserves-ext :
    (g h : String → ℕ) (rows : List StockRow)
    → ((i : String) → g i ≡ h i)
    → Reserves g rows
    → Reserves h rows
Reserves-ext g h [] same all = tt
Reserves-ext g h (r ∷ rows) same all = (all.0 ∙ same r.item_id, Reserves-ext g h rows same all.1)

-- One line at one row.
move_row-reserved :
    (h : String → ℕ) (sign : Sign) (l : OrderLine) (r : StockRow)
    → r.reserved ≡ h r.item_id
    → (on_one (λ r. record r { on_hand = moved sign r.on_hand l.quantity }) l.item_id r).reserved
      ≡ h (on_one (λ r. record r { on_hand = moved sign r.on_hand l.quantity }) l.item_id r).item_id
move_row-reserved h sign l r e = elim (Bool-cases (r.item_id == l.item_id)) [
  | inl same ↦ rw same e
  | inr other ↦ rw other e
]

pub move_stock-Reserves :
    (h : String → ℕ) (sign : Sign) (ls : List OrderLine) (rows : List StockRow)
    → Reserves h rows
    → Reserves h (move_stock sign ls rows)
unfolding move_stock
move_stock-Reserves h sign [] rows all = all
move_stock-Reserves h sign (l ∷ ls) rows all =
    move_stock-Reserves h sign ls _ (All-map _ _ _ rows (move_row-reserved h sign l) all)

-- The count of one line more.
abbrev and_line : (String → ℕ) → OrderLine → String → ℕ
and_line h l i = (if i == l.item_id then l.quantity else 0) + h i

abbrev held_row : Sign → OrderLine → StockRow → StockRow
held_row sign l =
    on_one (λ r. record r { reserved = held_after sign r.reserved l.quantity }) l.item_id

held_row-item_id :
    (sign : Sign) (l : OrderLine) (r : StockRow) → (held_row sign l r).item_id ≡ r.item_id
held_row-item_id sign l r = elim (Bool-cases (r.item_id == l.item_id)) [
  | inl same ↦ rw same refl
  | inr other ↦ rw other refl
]

held_row-reserved :
    (sign : Sign) (l : OrderLine) (r : StockRow)
    → (held_row sign l r).reserved
      ≡ held_after sign r.reserved (if r.item_id == l.item_id then l.quantity else 0)
held_row-reserved minus l r = elim (Bool-cases (r.item_id == l.item_id)) [
  | inl same ↦ rw same refl
  | inr other ↦ rw other (omega arith)
]
held_row-reserved plus l r = elim (Bool-cases (r.item_id == l.item_id)) [
  | inl same ↦ rw same refl
  | inr other ↦ rw other (omega arith)
]

reserve_row-plus :
    (h : String → ℕ) (l : OrderLine) (r : StockRow)
    → r.reserved ≡ h r.item_id
    → (held_row plus l r).reserved ≡ and_line h l (held_row plus l r).item_id
reserve_row-plus h l r e =
    let more : r.reserved + (if r.item_id == l.item_id then l.quantity else 0)
        ≡ and_line h l r.item_id =
      omega (arith, e) in
    held_row-reserved plus l r ∙ more ∙ ap (and_line h l) (sym (held_row-item_id plus l r))

reserve_row-minus :
    (h : String → ℕ) (l : OrderLine) (r : StockRow)
    → r.reserved ≡ and_line h l r.item_id
    → (held_row minus l r).reserved ≡ h (held_row minus l r).item_id
reserve_row-minus h l r e =
    let less : r.reserved - (if r.item_id == l.item_id then l.quantity else 0) ≡ h r.item_id =
      omega (arith, e) in
    held_row-reserved minus l r ∙ less ∙ ap h (sym (held_row-item_id minus l r))

pub reserve_stock-plus :
    (h : String → ℕ) (ls : List OrderLine) (rows : List StockRow)
    → Reserves h rows
    → Reserves (λ i. count i ls + h i) (reserve_stock plus ls rows)
unfolding reserve_stock
reserve_stock-plus h [] rows all = Reserves-ext _ _ rows (λ i. omega arith) all
reserve_stock-plus h (l ∷ ls) rows all =
    Reserves-ext _ _ _ (λ i. omega arith)
      (reserve_stock-plus (and_line h l) ls _
        (All-map _ _ (held_row plus l) rows (reserve_row-plus h l) all))

pub reserve_stock-minus :
    (h : String → ℕ) (ls : List OrderLine) (rows : List StockRow)
    → Reserves (λ i. count i ls + h i) rows
    → Reserves h (reserve_stock minus ls rows)
unfolding reserve_stock
reserve_stock-minus h [] rows all = Reserves-ext _ _ rows (λ i. omega arith) all
reserve_stock-minus h (l ∷ ls) rows all = reserve_stock-minus h ls _ (
    All-map _ _ (held_row minus l) rows (reserve_row-minus (λ i. count i ls + h i) l)
      (Reserves-ext _ _ rows (λ i. omega arith) all))

-- No two orders have one id.
abbrev pub Distinct : List Order → Type 0
Distinct [] = Unit
Distinct (o ∷ os) = All (λ p. (p.id == o.id) ≡ false) os × Distinct os

abbrev pub find_order : String → List Order → Option Order
find_order id = find λ o. o.id == id

put_absent :
    (id : String) (u : Order) (os : List Order)
    → All (λ p. (p.id == id) ≡ false) os
    → put_order id u os ≡ os
put_absent id u [] h = refl
put_absent id u (o ∷ os) h = rw (h.0, put_absent id u os h.1) refl

select_absent :
    (id : String) (os : List Order)
    → All (λ p. (p.id == id) ≡ false) os
    → select (λ o. not (o.id == id)) os ≡ os
select_absent id [] h = refl
select_absent id (o ∷ os) h = rw (h.0, select_absent id os h.1) refl

found_here :
    (id : String) (o e : Order) (os : List Order)
    → Distinct (o ∷ os)
    → find_order id (o ∷ os) ≡ some e
    → (o.id == id) ≡ true
    → (o ≡ e) × All (λ p. (p.id == id) ≡ false) os
found_here id o e os d f same =
    (cc (f, same), subst (λ i. All (λ p. (p.id == i) ≡ false) os) (eq_of_== o.id id same) d.0)

-- To replace the order of an id is to give back what it held and to take what the new one holds.
pub held-put_order :
    (item id : String) (e u : Order) (os : List Order)
    → Distinct os
    → find_order id os ≡ some e
    → held item (put_order id u os) + held_by item e ≡ held item os + held_by item u
held-put_order item id e u [] d f = cc
held-put_order item id e u (o ∷ os) d f = elim (Bool-cases (o.id == id)) [
  | inl same ↦
      let (here, absent) = found_here id o e os d f same in
      rw (same, put_absent id u os absent, sym here) (omega arith)
  | inr other ↦ rw other (omega (arith, held-put_order item id e u os d.1 (cc (f, other))))
]

pub held-select :
    (item id : String) (e : Order) (os : List Order)
    → Distinct os
    → find_order id os ≡ some e
    → held item (select (λ o. not (o.id == id)) os) + held_by item e ≡ held item os
held-select item id e [] d f = cc
held-select item id e (o ∷ os) d f = elim (Bool-cases (o.id == id)) [
  | inl same ↦
      let (here, absent) = found_here id o e os d f same in
      rw (same, select_absent id os absent, sym here) (omega arith)
  | inr other ↦ rw other (omega (arith, held-select item id e os d.1 (cc (f, other))))
]
