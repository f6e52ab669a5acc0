-- ===== src/Cart/Charged.antt =====
-- apps/pos/src/cart.ts and packages/mock/src/store.ts: the total that the screen shows is the one that
-- the store charges.
use twenty_four.Prelude.{
  ℕ, ◌+◌, arith, true, String, ◌≡◌, refl, sym, ap, ◌∙◌, subst, Option, none, some, List, [], ◌∷◌,
  map, All,
}
use twenty_four.Prelude.Equality.{eq_ℕ, eq_String}
use twenty_four.Prelude.Number.{whole, is_safe, Float64}
use twenty_four.Prelude.Results.{
  Result, ok, err, traverse, ◌>>=◌, >>=-eq-ok, ok-injective, traverse-cons-eq-ok,
}
use twenty_four.Money.{Money, money, to_minor}
use twenty_four.Money.Text.RoundTrip.{number_of-integer_text}
use twenty_four.Prelude.Int.{ℤ}
use twenty_four.Pricing.{Amounts, price_line, total_of, tax_breakdown, PricingError}
use twenty_four.Till.Data.{Till, OrderLine}
use twenty_four.Till.Method.{Throws, by_pricing, map_ok}
use twenty_four.Till.Price.{get_item, read_optional, price_input, price_from, total_lines, priced}
use twenty_four.Cart.{CartLine, pricing_line, line_input, wire_of, cart_total, priced_cart, Priced}

-- The discount is an amount that `money` has made.
abbrev pub IsMade : Option Money → Type 0
IsMade none = Unit
IsMade (some m) = money (whole m.minor) m.currency ≡ ok m

-- The line holds the item that the store has under its id.
abbrev pub IsListed : Till → CartLine → Type 0
IsListed s l = (get_item s l.item.id ≡ ok l.item) × IsMade l.discount

abbrev amounts_of : List OrderLine → List Amounts
amounts_of = map λ l. l.amounts

map_ok-back :
    (r : Throws Amounts) (g : Amounts → OrderLine)
    → ((a : Amounts) → (g a).amounts ≡ a)
    → map_ok (λ x. x.amounts) (r >>= λ a. ok (g a)) ≡ r
map_ok-back (ok a) g h = ap ok (h a)
map_ok-back (err e) g h = refl

-- One line and the rest, as the store prices them and as the cart does.
map_ok-cons :
    (x : Throws OrderLine) (y : Throws (List OrderLine)) (p : Result PricingError Amounts)
    (q : Result PricingError (List Amounts))
    → map_ok (λ l. l.amounts) x ≡ by_pricing p
    → map_ok amounts_of y ≡ by_pricing q
    → map_ok amounts_of (x >>= λ l. y >>= λ ls. ok (l ∷ ls))
      ≡ by_pricing (p >>= λ a. q >>= λ rest. ok (a ∷ rest))
map_ok-cons (ok l) (ok ls) (ok a) (ok rest) h k = ap ok (cc (ok-injective h, ok-injective k))
map_ok-cons (ok l) (ok ls) (ok a) (err e) h k = cc
map_ok-cons (ok l) (err e) (ok a) (ok rest) h k = cc
map_ok-cons (ok l) (err e) (ok a) (err d) h k = k
map_ok-cons (ok l) y (err e) q h k = cc
map_ok-cons (err e) y (ok a) q h k = cc
map_ok-cons (err e) y (err d) q h k = ap (map_ok (λ a. a ∷ [])) h

abbrev pub total_part : List OrderLine × Amounts → Amounts
total_part p = p.1

by_pricing-ok : {A : Type 0} {a : A} (r : Result PricingError A) → by_pricing r ≡ ok a → r ≡ ok a
by_pricing-ok (ok b) h = ap ok (ok-injective h)
by_pricing-ok (err e) h = cc

made_safe : (n : ℤ) (c : String) {m : Money} → money (whole n) c ≡ ok m → is_safe n ≡ true
unfolding money to_minor
made_safe n c h = ground (arith, h)

module _ ⦃f : Float64⦄ where
  read_optional-wire_of : (d : Option Money) → IsMade d → read_optional (wire_of d) ≡ ok d
  read_optional-wire_of none h = refl
  read_optional-wire_of (some m) h =
      rw (number_of-integer_text m.minor (made_safe m.minor m.currency h), h) refl

  price_input-line_input :
      (s : Till) (n : ℕ) (l : CartLine)
      → IsListed s l
      → map_ok (λ x. x.amounts) (price_input s n (line_input l))
        ≡ by_pricing (price_line (pricing_line l))
  unfolding price_input
  price_input-line_input s n l (listed, made) =
      rw (listed, read_optional-wire_of l.discount made)
        (map_ok-back (by_pricing (price_line (pricing_line l))) _ (λ a. refl))

  price_from-line_input :
      (s : Till) (n : ℕ) (ls : List CartLine)
      → All (IsListed s) ls
      → map_ok amounts_of (price_from s n (map line_input ls))
        ≡ by_pricing (traverse price_line (map pricing_line ls))
  unfolding price_from traverse
  price_from-line_input s n [] h = refl
  price_from-line_input s n (l ∷ ls) (listed, rest) =
      map_ok-cons _ _ _ _ (price_input-line_input s n l listed)
        (price_from-line_input s (n + 1) ls rest)

  total_back :
      (x : Throws (List OrderLine)) (rest : List Amounts) (t : Amounts)
      → map_ok amounts_of x ≡ ok rest
      → by_pricing (total_of rest) ≡ ok t
      → map_ok total_part (x >>= λ lines. total_lines lines >>= λ total. ok (lines, total)) ≡ ok t
  total_back (err e) rest t h k = cc
  total_back (ok lines) rest t h k =
      rw (subst (λ a. by_pricing (total_of a) ≡ ok t) (sym (ok-injective h)) k) refl

  -- The total that the screen shows is what the store charges for the request, where the cart is not
  -- empty and each of its lines holds the store's item under its id and a discount that is an amount.
  pub priced_cart-charged :
      (s : Till) (currency note : String) (l : CartLine) (ls : List CartLine) (shown : Priced)
      → All (IsListed s) (l ∷ ls)
      → priced_cart currency (record { lines = l ∷ ls; note = note }) ≡ ok shown
      → map_ok total_part (priced s (map line_input (l ∷ ls))) ≡ ok shown.total
  unfolding priced_cart
  priced_cart-charged s currency note l ls shown listed h =
      let (per_line, each, h1) =
        >>=-eq-ok (by_pricing (traverse price_line (map pricing_line (l ∷ ls)))) _ h in
      let (total, summed, h2) = >>=-eq-ok (cart_total currency per_line) _ h1 in
      let (bands, _, last) =
        >>=-eq-ok (by_pricing (tax_breakdown (map pricing_line (l ∷ ls)))) _ h2 in
      let (a, rest, _, _, made) =
        traverse-cons-eq-ok price_line (pricing_line l) (map pricing_line ls)
          (by_pricing-ok _ each) in
      total_back (price_from s 0 (map line_input (l ∷ ls))) per_line shown.total
        (price_from-line_input s 0 (l ∷ ls) listed ∙ each)
        (subst (λ x. cart_total currency x ≡ ok total → by_pricing (total_of x) ≡ ok total)
            (sym made) (λ e. e) summed
          ∙ ap ok (ap (λ p. p.total) (ok-injective last)))
