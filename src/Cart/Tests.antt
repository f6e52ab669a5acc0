-- ===== src/Cart/Tests.antt =====
-- Runs of the cart of apps/pos/src/cart.ts, and its theorems at concrete carts.
use twenty_four.Prelude.{ℕ, ◌≡◌, refl, true, none, some, [], ◌∷◌, map}
use twenty_four.Prelude.Equality.{eq_ℕ, eq_String}
use twenty_four.Prelude.Int.{pos, ◌+ℤ◌, ◌-ℤ◌, ◌*ℤ◌}
use twenty_four.Prelude.Number.{whole, coarse}
use twenty_four.Prelude.Decimal.{digits}
use twenty_four.Prelude.Results.{ok, traverse}
use twenty_four.Money.{Money, is_known_currency, exponent_of, money, to_minor}
use twenty_four.Pricing.{
  Amounts, price_line, line_figures, check_quantity, check_rate, check_discount, split_tax,
  div_round_half_up, as_amounts, to_safe, total_loop, total_of, add_to_bucket, buckets_loop,
  insert_band, sort_bands, band_of, tax_breakdown, lift_money,
}
use twenty_four.Till.Data.{Till, CatalogItem}
use twenty_four.Till.Method.{map_ok}
use twenty_four.Till.Price.{priced}
use twenty_four.Cart.{Cart, CartLine, line_input, Priced, priced_cart, add, remove}
use twenty_four.Cart.Charged.{priced_cart-charged, total_part}

abbrev huf : ℕ → Money
huf n = record { minor = pos n; currency = "HUF" }

abbrev tea : CatalogItem
tea = record {
  id = "tea";
  name = "Tea";
  unit_price = huf 635;
  tax_basis_points = whole (pos 2700);
  tax_included = true;
}

abbrev counter : Till
counter = record {
  tenant_id = "t";
  currency = "HUF";
  user_name = "Eva";
  items = tea ∷ [];
  customers = [];
  first_staff = none;
  tables = [];
  orders = [];
  payments = [];
  documents = [];
  stock = [];
  days = [];
  order_counter = 0;
  payment_counter = 0;
  document_counter = 0;
}

abbrev teas : CartLine
teas = record { key = "tea-0"; item = tea; quantity = pos 2; discount = some (huf 70) }

abbrev empty : Cart
empty = record { lines = []; note = "" }

abbrev shown_teas : Priced
shown_teas =
    let cost : Amounts = record { gross = huf 1200; net = huf 945; tax = huf 255 } in
    record {
      per_line = cost ∷ [];
      total = cost;
      bands = record { basis_points = pos 2700; sums = cost } ∷ [];
      count = pos 2;
    }

teas_shown :
    priced_cart ⦃f = coarse⦄ "HUF" (record { lines = teas ∷ []; note = "" }) ≡ ok shown_teas
unfolding priced_cart traverse price_line line_figures check_quantity check_rate check_discount
    split_tax div_round_half_up as_amounts to_safe total_loop total_of add_to_bucket buckets_loop
    insert_band sort_bands band_of tax_breakdown lift_money money is_known_currency exponent_of
    to_minor digits ◌+ℤ◌ ◌-ℤ◌ ◌*ℤ◌
teas_shown = refl

priced_cart-charged_example :
    map_ok total_part (priced ⦃f = coarse⦄ counter (map (line_input ⦃f = coarse⦄) (teas ∷ [])))
    ≡ ok shown_teas.total
unfolding money is_known_currency exponent_of to_minor
priced_cart-charged_example =
    priced_cart-charged ⦃f = coarse⦄ counter "HUF" "" teas [] shown_teas ((refl, refl), tt)
      teas_shown

abbrev coffee : CatalogItem
coffee = record {
  id = "coffee";
  name = "Coffee";
  unit_price = huf 800;
  tax_basis_points = whole (pos 2700);
  tax_included = true;
}

-- A parked sale of a tea, a coffee and a tea, the teas at a discount, is loaded; the coffee goes, and
-- another tea comes: it gets the key of the second tea.
abbrev loaded : Cart
loaded = record {
  lines =
      record { key = "tea-0"; item = tea; quantity = pos 1; discount = some (huf 70) }
      ∷ record { key = "coffee-1"; item = coffee; quantity = pos 1; discount = none }
      ∷ record { key = "tea-2"; item = tea; quantity = pos 1; discount = some (huf 70) }
      ∷ [];
  note = "";
}

key_taken :
    map (λ l. l.key) (add ⦃f = coarse⦄ tea (remove "coffee-1" loaded)).lines
    ≡ "tea-0" ∷ "tea-2" ∷ "tea-2" ∷ []
unfolding add remove digits
key_taken = refl
