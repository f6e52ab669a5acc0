-- ===== src/Till/Steps.antt =====
-- The calls that a till may get, in any order, and what holds after any number of them.
use twenty_four.Prelude.{ℕ, String, ◌≡◌, inl, inr, Bool, Option, List, Bool-cases, All-map}
use twenty_four.Prelude.Equality.{◌==◌, eq_ℕ, eq_String}
use twenty_four.Prelude.Int.{ℤ, ◌+ℤ◌}
use twenty_four.Prelude.Number.{Float64}
use twenty_four.Prelude.Results.{ok}
use twenty_four.Till.Data.{
  Order, StockRow, Till, Clock, PlaceOrderInput, ParkOrderInput, TenderInput,
}
use twenty_four.Till.Method.{after}
use twenty_four.Till.Stock.{on_one, adjust_stock}
use twenty_four.Till.Sale.{place_order}
use twenty_four.Till.Park.{
  park_order, update_parked_order, discard_parked_order, settle_parked_order,
}
use twenty_four.Till.Correct.{void_order, refund_order}
use twenty_four.Till.Floor.{floor, Ends, ends, next}
use twenty_four.Till.Held.{held}
use twenty_four.Till.Sound.{Sound, restocked}
use twenty_four.Till.Keeps.{
  place_order-Sound, park_order-Sound, update_parked_order-Sound, settle_parked_order-Sound,
  refund_order-Sound, void_order-Sound, discard_parked_order-Sound,
}

adjust_row-reserved :
    (h : String → ℕ) (item : String) (delta : ℤ) (r : StockRow)
    → r.reserved ≡ h r.item_id
    → (on_one (λ q. record q { on_hand = q.on_hand +ℤ delta }) item r).reserved
      ≡ h (on_one (λ q. record q { on_hand = q.on_hand +ℤ delta }) item r).item_id
adjust_row-reserved h item delta r e = elim (Bool-cases (r.item_id == item)) [
  | inl same ↦ rw same e
  | inr other ↦ rw other e
]

adjust_stock-Sound :
    (blank : String → Bool) (item : String) (delta : ℤ) (why : String) (s : Till)
    → Sound (floor s)
    → Ends Sound (adjust_stock blank item delta why s)
unfolding adjust_stock
adjust_stock-Sound blank item delta why s h = next _ h (λ _ _. next _ h (λ _ _.
    let h1 = restocked (floor s) _ h (
      All-map _ _ _ s.stock (adjust_row-reserved (λ i. held i s.orders) item delta)
        h.below_next.reserves) in
    next _ h1 (λ _ _. next _ h1 (λ _ _. ends h1))))

module _ ⦃f : Float64⦄ where
  -- A call and the state that it leaves. A call that throws counts too, except a settlement: it throws
  -- after it has moved the stock where a tender says that it was handed an amount that is none.
  pub data Step (s : Till) : Till → Type 0 where
    places : (now : Clock) (input : PlaceOrderInput) → Step s (after (place_order now input s))
    parks : (now : Clock) (input : ParkOrderInput) → Step s (after (park_order now input s))
    updates :
        (id : String) (input : ParkOrderInput) → Step s (after (update_parked_order id input s))
    discards : (id : String) → Step s (after (discard_parked_order id s))
    settles :
        (now : Clock) (id : String) (inputs : List TenderInput) (o : Order)
        → (settle_parked_order now id inputs s).0 ≡ ok o
        → Step s (after (settle_parked_order now id inputs s))
    voids : (id : String) → Step s (after (void_order id s))
    refunds :
        (now : Clock) (id : String) (ids : Option (List String))
        → Step s (after (refund_order now id ids s))
    adjusts :
        (blank : String → Bool) (item : String) (delta : ℤ) (why : String)
        → Step s (after (adjust_stock blank item delta why s))

  pub data Reach (s : Till) : Till → Type 0 where
    here : Reach s s
    then_step : {t u : Till} → Reach s t → Step t u → Reach s u

  Step-Sound : {s t : Till} → Step s t → Sound (floor s) → Sound (floor t)
  Step-Sound {s} (places now input) h = (place_order-Sound now input s h).holds
  Step-Sound {s} (parks now input) h = (park_order-Sound now input s h).holds
  Step-Sound {s} (updates id input) h = (update_parked_order-Sound id input s h).holds
  Step-Sound {s} (discards id) h = (discard_parked_order-Sound id s h).holds
  Step-Sound {s} (settles now id inputs o e) h =
      (settle_parked_order-Sound now id inputs s h).on_ok o e
  Step-Sound {s} (voids id) h = (void_order-Sound id s h).holds
  Step-Sound {s} (refunds now id ids) h = (refund_order-Sound now id ids s h).holds
  Step-Sound {s} (adjusts blank item delta why) h =
      (adjust_stock-Sound blank item delta why s h).holds

  -- After any calls, in any order and whether they return or throw (a settlement must return), order ids
  -- are distinct and come from the counter, and what is reserved of every item is exactly what the
  -- parked sales hold of it, if that was so before.
  pub Reach-Sound : {s t : Till} → Reach s t → Sound (floor s) → Sound (floor t)
  Reach-Sound here h = h
  Reach-Sound (then_step r step) h = Step-Sound step (Reach-Sound r h)
