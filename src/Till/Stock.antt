-- ===== src/Till/Stock.antt =====
-- packages/mock/src/store.ts: `moveStock`, `reserveStock` and `adjustStock`.
use twenty_four.Prelude.Results.{throw_if}
use twenty_four.Prelude.{ℕ, ◌+◌, ◌-◌, String, Bool, List, [], ◌∷◌, map, if◌then◌else◌, find}
use twenty_four.Prelude.Equality.{◌==◌, eq_ℕ, eq_String}
use twenty_four.Prelude.Int.{ℤ, pos, ◌+ℤ◌, ◌-ℤ◌}
use twenty_four.Till.Data.{OrderLine, StockRow}
use twenty_four.Till.Method.{Method, refused, require, reads, modify, ◌>>=◌, ◌>>◌}

-- The sign of a movement: stock leaves, or comes back.
pub data Sign : Type 0 where
  minus plus : Sign

abbrev pub moved : Sign → ℤ → ℕ → ℤ
moved minus n q = n -ℤ pos q
moved plus n q = n +ℤ pos q

-- `Math.max(0, reserved - quantity)` is the subtraction of ℕ.
abbrev pub held_after : Sign → ℕ → ℕ → ℕ
held_after minus n q = n - q
held_after plus n q = n + q

-- A change of the row that an item has, if it has one.
abbrev pub on_one : (StockRow → StockRow) → String → StockRow → StockRow
on_one change id r = if r.item_id == id then change r else r

abbrev pub on_row : (StockRow → StockRow) → String → List StockRow → List StockRow
on_row change id = map (on_one change id)

unfoldable pub move_stock : Sign → List OrderLine → List StockRow → List StockRow
move_stock sign [] rows = rows
move_stock sign (l ∷ ls) rows =
    move_stock sign ls
      (on_row (λ r. record r { on_hand = moved sign r.on_hand l.quantity }) l.item_id rows)

unfoldable pub reserve_stock : Sign → List OrderLine → List StockRow → List StockRow
reserve_stock sign [] rows = rows
reserve_stock sign (l ∷ ls) rows =
    reserve_stock sign ls
      (on_row (λ r. record r { reserved = held_after sign r.reserved l.quantity }) l.item_id rows)

-- The item is looked up for its name once the row has been changed.
unfoldable pub adjust_stock : (blank : String → Bool) → String → ℤ → String → Method StockRow
adjust_stock blank item_id delta reason = do
  reads λ _. throw_if (blank reason) (refused 422 "reason_required")
  row ← reads λ s. require (find (λ r. r.item_id == item_id) s.stock) (refused 404 "not_found")
  modify λ s. record s {
    stock = on_row (λ r. record r { on_hand = r.on_hand +ℤ delta }) item_id s.stock;
  }
  _ ← reads λ s. require (find (λ i. i.id == item_id) s.items) (refused 404 "not_found")
  reads λ s. require (find (λ r. r.item_id == item_id) s.stock) (refused 404 "not_found")
