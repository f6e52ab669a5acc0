-- ===== src/Cart/Merged.antt =====
-- apps/pos/src/cart.ts: pieces of an item at its whole price stand on one line, and no line is empty.
use twenty_four.Prelude.{String, ◌≡◌, true, false, List, [], ◌∷◌, All}
use twenty_four.Prelude.Equality.{eq_ℕ, eq_String}
use twenty_four.Prelude.Int.{ℤ, pos, ltb_ℤ}
use twenty_four.Prelude.Number.{Float64}
use twenty_four.Till.Data.{CatalogItem}
use twenty_four.Cart.{Cart, CartLine, add, set_quantity, remove, clear, takes, is_whole_price}

-- A line at the whole price is the only one of its item.
abbrev pub IsMerged : List CartLine → Type 0
IsMerged [] = Unit
IsMerged (l ∷ ls) =
    (is_whole_price l.discount ≡ true → All (λ m. takes l.item m ≡ false) ls) × IsMerged ls

abbrev pub IsPositive : CartLine → Type 0
IsPositive l = ltb_ℤ (pos 0) l.quantity ≡ true

pub record Tidy (cart : Cart) : Type 0 where
  pub merged : IsMerged cart.lines
  pub positive : All IsPositive cart.lines

-- What a cashier may do to the lines of a cart, other than to load a parked sale.
pub data Touch : Type 0 where
  adds : CatalogItem → Touch
  sets : (key : String) (quantity : ℤ) → Touch
  removes : (key : String) → Touch
  clears : Touch

module _ ⦃f : Float64⦄ where
  abbrev pub touched : Touch → Cart → Cart
  touched (adds item) = add item
  touched (sets key quantity) = set_quantity key quantity
  touched (removes key) = remove key
  touched clears = clear

  abbrev pub all_touched : List Touch → Cart → Cart
  all_touched [] cart = cart
  all_touched (t ∷ ts) cart = all_touched ts (touched t cart)
