-- ===== src/Cart.antt =====
-- apps/pos/src/cart.ts: the cart of the point of sale, and the request that Till.tsx makes of it. The
-- state that React keeps is a record; a quantity is a whole number, and a sum
-- of quantities is rounded to a double.
pub mod Charged
pub mod Merged
mod Tests
use twenty_four.Prelude.{
  ℕ, zero, suc, ◌+◌, ◌-◌, ◌*◌, ◌/◌, ◌%◌, ◌^◌, ◌≤◌, ◌<◌, String, ◌≡◌, refl, sym, ap, ◌∙◌, subst, ◌≢◌,
  ◌↔◌, ◌⊎◌, inl, inr, Bool, true, false, not, ◌&&◌, ◌||◌, Option, none, some, List, [], ◌∷◌, ◌++◌,
  map, arith, ltb, leb, nat_eq, if◌then◌else◌, Bool-cases, Option-cases, length, length-append,
  take, drop, replicate, take-append-drop, length-drop, length-replicate, All, All-append, All-take,
  All-drop, All-replicate, select, find, exists, includes, includes-append, includes-select,
  All-includes, All-map, All-weaken, All-select,
}
use twenty_four.Prelude.Equality.{Eq, ◌==◌, eq_ℕ, eq_String, by_index, eq_of_==, ==_refl}
use twenty_four.Prelude.Int.{
  ℤ, pos, negsuc, pos_part, neg_part, sub_ℕ, ◌+ℤ◌, ◌-ℤ◌, ◌*ℤ◌, abs, ◌≤ℤ◌, ltb_ℤ, eqb_ℤ, +ℤ_parts,
  -ℤ_parts, eq_of_parts, int_laws, +ℤ_pos, *ℤ_pos, -ℤ_pos, zero-+ℤ, neg_part_of_nonneg, signed,
  abs-signed, ltb_ℤ-signed, differ, +ℤ-zero,
}
use twenty_four.Prelude.Number.{Number, whole, Float64}
use twenty_four.Prelude.FloatSum.{float_sum_by}
use twenty_four.Prelude.Numerals.{◌&◌, number_text}
use twenty_four.Prelude.Results.{ok, err, traverse, ◌>>=◌}
use twenty_four.Money.{Money, zero_money}
use twenty_four.Money.Text.{integer_text, number_of}
use twenty_four.Pricing.{Line, Amounts, Band, price_line, total_of, tax_breakdown}
use twenty_four.Till.Data.{CatalogItem, Order, OrderLine, OrderLineInput, WireMoney}
use twenty_four.Till.Method.{Throws, by_money, by_pricing}

pub record CartLine : Type 0 where
  pub key : String
  pub item : CatalogItem
  pub quantity : ℤ
  pub discount : Option Money

pub record Cart : Type 0 where
  pub lines : List CartLine
  pub note : String

abbrev pub is_whole_price : Option Money → Bool
is_whole_price none = true
is_whole_price (some m) = false

-- The line that another piece of an item joins.
abbrev pub takes : CatalogItem → CartLine → Bool
takes item line = line.item.id == item.id && is_whole_price line.discount

abbrev new_line : CatalogItem → ℕ → CartLine
new_line item n = record {
  key = item.id & "-" & number_text n;
  item = item;
  quantity = pos 1;
  discount = none;
}

module _ ⦃f : Float64⦄ where
  open f use {round}

  abbrev pub one_more : String → CartLine → CartLine
  one_more key line =
      if line.key == key then record line { quantity = round (line.quantity +ℤ pos 1) } else line

  abbrev pub joined_to : CatalogItem → List CartLine → Option CartLine → List CartLine
  joined_to item lines none = lines ++ (new_line item (length lines) ∷ [])
  joined_to item lines (some existing) = map (one_more existing.key) lines

  unfoldable pub add : CatalogItem → Cart → Cart
  add item cart = record cart { lines = joined_to item cart.lines (find (takes item) cart.lines) }

abbrev pub is_line : String → CartLine → Bool
is_line key line = line.key == key

abbrev pub with_quantity : String → ℤ → CartLine → CartLine
with_quantity key quantity line =
    if is_line key line then record line { quantity = quantity } else line

unfoldable pub set_quantity : String → ℤ → Cart → Cart
set_quantity key quantity cart = record cart {
  lines =
      if ltb_ℤ (pos 0) quantity
      then map (with_quantity key quantity) cart.lines
      else select (λ l. not (is_line key l)) cart.lines;
}

unfoldable pub remove : String → Cart → Cart
remove key cart = record cart { lines = select (λ l. not (is_line key l)) cart.lines }

abbrev pub clear : Cart → Cart
clear cart = record { lines = []; note = "" }

abbrev pub load : List CartLine → String → Cart → Cart
load lines note cart = record { lines = lines; note = note }

abbrev pub pricing_line : CartLine → Line
pricing_line l = record {
  quantity = whole l.quantity;
  unit_price = l.item.unit_price;
  tax_basis_points = l.item.tax_basis_points;
  tax_included = l.item.tax_included;
  discount = l.discount;
}

-- What the screen shows of the cart.
pub record Priced : Type 0 where
  pub per_line : List Amounts
  pub total : Amounts
  pub bands : List Band
  pub count : ℤ

module _ ⦃f : Float64⦄ where
  abbrev pub cart_total : String → List Amounts → Throws Amounts
  cart_total currency [] = do
    nothing ← by_money (zero_money currency)
    ok (record { gross = nothing; net = nothing; tax = nothing })
  cart_total currency (a ∷ rest) = by_pricing (total_of (a ∷ rest))

  unfoldable pub priced_cart : String → Cart → Throws Priced
  priced_cart currency cart = do
    let lines = map pricing_line cart.lines
    per_line ← by_pricing (traverse price_line lines)
    total ← cart_total currency per_line
    bands ← by_pricing (tax_breakdown lines)
    ok (record {
      per_line = per_line;
      total = total;
      bands = bands;
      count = float_sum_by (λ l. l.quantity) (pos 0) cart.lines;
    })

module _ ⦃f : Float64⦄ where
  -- The request holds the text of the amount, which the store reads by `Number`.
  abbrev pub wire_of : Option Money → Option WireMoney
  wire_of none = none
  wire_of (some m) =
      some (record { minor = whole (number_of (integer_text m.minor)); currency = m.currency })

  abbrev pub line_input : CartLine → OrderLineInput
  line_input l = record {
    item_id = l.item.id;
    quantity = whole l.quantity;
    discount = wire_of l.discount;
  }

abbrev rebuilt : ℕ → OrderLine → CatalogItem → CartLine
rebuilt index line item = record {
  key = item.id & "-" & number_text index;
  item = item;
  quantity = pos line.quantity;
  discount = line.discount;
}

-- The lines that could be rebuilt, and the names of the others.
abbrev pub sorted :
    ℕ → OrderLine → Option CatalogItem → List CartLine × List String → List CartLine × List String
sorted index line none (lines, missing) = (lines, line.name ∷ missing)
sorted index line (some item) (lines, missing) = (rebuilt index line item ∷ lines, missing)

unfoldable pub cart_lines_from : ℕ → List OrderLine → List CatalogItem → List CartLine × List String
cart_lines_from index [] items = ([], [])
cart_lines_from index (line ∷ rest) items =
    sorted index line (find (λ i. i.id == line.item_id) items)
      (cart_lines_from (index + 1) rest items)

abbrev pub cart_lines_from_order : Order → List CatalogItem → List CartLine × List String
cart_lines_from_order order = cart_lines_from 0 order.lines
