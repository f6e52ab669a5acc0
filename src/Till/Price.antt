-- ===== src/Till/Price.antt =====
-- packages/mock/src/store.ts: `getItem` and `priceOrderLines`.
use twenty_four.Prelude.{ℕ, ◌+◌, String, Option, none, some, List, [], ◌∷◌, map, find}
use twenty_four.Prelude.Equality.{◌==◌, eq_ℕ, eq_String}
use twenty_four.Prelude.Int.{abs}
use twenty_four.Prelude.Number.{Number, whole, fractional, Float64}
use twenty_four.Prelude.Numerals.{◌&◌, number_text}
use twenty_four.Prelude.Results.{ok, err, ◌>>=◌}
use twenty_four.Money.{Money, money}
use twenty_four.Pricing.{Line, Amounts, price_line, total_of}
use twenty_four.Till.Data.{CatalogItem, OrderLine, Till, OrderLineInput, WireMoney}
use twenty_four.Till.Method.{Throws, refused, by_money, by_pricing, require}

abbrev pub get_item : Till → String → Throws CatalogItem
get_item s id = require (find (λ i. i.id == id) s.items) (refused 404 "not_found")

-- `money(Number(wire.minor), wire.currency)`
abbrev pub read_money : WireMoney → Throws Money
read_money w = by_money (money w.minor w.currency)

abbrev pub read_optional : Option WireMoney → Throws (Option Money)
read_optional none = ok none
read_optional (some w) = do m ← read_money w; ok (some m)

-- A quantity that `priceLine` accepts is a positive whole number.
abbrev pub count_of : Number → ℕ
count_of (whole n) = abs n
count_of fractional = 0

abbrev order_line : ℕ → CatalogItem → OrderLineInput → Option Money → Amounts → OrderLine
order_line index item input discount amounts = record {
  id = "line-" & number_text (index + 1);
  item_id = item.id;
  name = item.name;
  quantity = count_of input.quantity;
  unit_price = item.unit_price;
  tax_basis_points = item.tax_basis_points;
  tax_included = item.tax_included;
  discount = discount;
  amounts = amounts;
}

module _ ⦃f : Float64⦄ where
  unfoldable pub price_input : Till → ℕ → OrderLineInput → Throws OrderLine
  price_input s index input = do
    item ← get_item s input.item_id
    discount ← read_optional input.discount
    let line : Line = record {
      quantity = input.quantity;
      unit_price = item.unit_price;
      tax_basis_points = item.tax_basis_points;
      tax_included = item.tax_included;
      discount = discount;
    }
    amounts ← by_pricing (price_line line)
    ok (order_line index item input discount amounts)

  unfoldable pub price_from : Till → ℕ → List OrderLineInput → Throws (List OrderLine)
  price_from s index [] = ok []
  price_from s index (input ∷ inputs) = do
    line ← price_input s index input
    lines ← price_from s (index + 1) inputs
    ok (line ∷ lines)

  abbrev pub price_order_lines : Till → List OrderLineInput → Throws (List OrderLine)
  price_order_lines s [] = err (refused 422 "empty_order")
  price_order_lines s (input ∷ inputs) = price_from s 0 (input ∷ inputs)

  -- `totalOf(priced.map((entry) => entry.amounts))`
  abbrev pub total_lines : List OrderLine → Throws Amounts
  total_lines lines = by_pricing (total_of (map (λ l. l.amounts) lines))

  -- What a sale and a parked sale begin with.
  abbrev pub priced : Till → List OrderLineInput → Throws (List OrderLine × Amounts)
  priced s inputs = do
    lines ← price_order_lines s inputs
    total ← total_lines lines
    ok (lines, total)
