-- ===== src/Till/Floor.antt =====
-- The part of the till that sales and parked sales share, and the calls that leave it alone: those
-- that take money and write documents.
use twenty_four.Prelude.{
  ℕ, String, ◌≡◌, refl, sym, ap, ◌∙◌, subst, Bool, true, false, List, [], ◌∷◌,
}
use twenty_four.Prelude.Int.{ℤ}
use twenty_four.Prelude.Number.{Float64}
use twenty_four.Prelude.Results.{ok, err}
use twenty_four.Money.{Money}
use twenty_four.Pricing.{Amounts}
use twenty_four.Till.Data.{
  Order, DiningTable, StockRow, Till, TenderInput, Tender, Clock, DocumentKind,
}
use twenty_four.Till.Method.{Method, Throws, go_on, when, after}
use twenty_four.Till.Tenders.{
  require_covering, build_tender, build_tenders, record_tender, record_tenders, issue_document,
  refund_share, refund_shares,
}

pub record Floor : Type 0 where
  pub tenant_id : String
  pub order_counter : ℕ
  pub orders : List Order
  pub stock : List StockRow
  pub tables : List DiningTable

abbrev pub floor : Till → Floor
floor s = record {
  tenant_id = s.tenant_id;
  order_counter = s.order_counter;
  orders = s.orders;
  stock = s.stock;
  tables = s.tables;
}

-- A property of the floor that a call leaves, whether it returned or threw.
pub record Ends {A : Type 0} (P : Floor → Type 0) (r : Throws A × Till) : Type 0 where
  pub holds : P (floor r.1)

pub record IsLike (s : Till) (g : Floor) : Type 0 where
  pub same : g ≡ floor s

pub ends : {A : Type 0} {P : Floor → Type 0} {r : Throws A × Till} → P (floor r.1) → Ends P r
ends h = record { holds = h }

-- A call that leaves the floor as it was.
pub calm :
    {A : Type 0} (x : Throws A) (t s : Till) → floor t ≡ floor s → Ends {A = A} (IsLike s) (x, t)
calm x t s e = record { holds = record { same = e } }

-- It leaves the sales as they were.
pub kept_orders :
    {A : Type 0} {s : Till} {r : Throws A × Till} → Ends (IsLike s) r → r.1.orders ≡ s.orders
kept_orders e = ap Floor.orders e.holds.same

-- One call after another: the property must hold where the first throws, and of what the second does
-- with what the first returned.
pub next :
    {A B : Type 0} {P : Floor → Type 0} {r : Throws A × Till} (k : A → Method B)
    → P (floor r.1)
    → ((a : A) → r.0 ≡ ok a → Ends P (k a r.1))
    → Ends P (go_on r k)
unfolding go_on
next {r = (ok a, s)} k h after = after a refl
next {r = (err e, s)} k h after = ends h

-- A call that leaves the floor alone, and another.
pub past :
    {A B : Type 0} {P : Floor → Type 0} {r : Throws A × Till} (k : A → Method B) (s : Till)
    → Ends (IsLike s) r
    → P (floor s)
    → ((a : A) (t : Till) → floor t ≡ floor s → Ends P (k a t))
    → Ends P (go_on r k)
unfolding go_on
past {r = (ok a, t)} k s same h after = after a t same.holds.same
past {P = P} {r = (err e, t)} k s same h after = ends (subst P (sym same.holds.same) h)

-- A property of the floor that a call leaves where it returns.
pub record EndsOk {A : Type 0} (P : Floor → Type 0) (r : Throws A × Till) : Type 0 where
  pub on_ok : (a : A) → r.0 ≡ ok a → P (floor r.1)

pub ends_ok : {A : Type 0} {P : Floor → Type 0} {r : Throws A × Till} → P (floor r.1) → EndsOk P r
ends_ok h = record { on_ok = λ _ _. h }

pub next_ok :
    {A B : Type 0} {P : Floor → Type 0} {r : Throws A × Till} (k : A → Method B)
    → ((a : A) → r.0 ≡ ok a → EndsOk P (k a r.1))
    → EndsOk P (go_on r k)
unfolding go_on
next_ok {r = (ok a, s)} k after = after a refl
next_ok {r = (err e, s)} k after = record { on_ok = λ b h. cc }

pub past_ok :
    {A B : Type 0} {P : Floor → Type 0} {r : Throws A × Till} (k : A → Method B) (s : Till)
    → Ends (IsLike s) r
    → ((a : A) (t : Till) → floor t ≡ floor s → EndsOk P (k a t))
    → EndsOk P (go_on r k)
unfolding go_on
past_ok {r = (ok a, t)} k s same after = after a t same.holds.same
past_ok {r = (err e, t)} k s same after = record { on_ok = λ b h. cc }

-- Two calls that leave it alone.
pub quiet :
    {A B : Type 0} {r : Throws A × Till} (k : A → Method B) (s : Till)
    → Ends (IsLike s) r
    → ((a : A) (t : Till) → Ends (IsLike t) (k a t))
    → Ends (IsLike s) (go_on r k)
unfolding go_on
quiet {r = (ok a, t)} k s first after =
    ends (record { same = (after a t).holds.same ∙ first.holds.same })
quiet {r = (err e, t)} k s first after = ends first.holds

abbrev pub Quiet : {A : Type 0} → Method A → Type 0
Quiet m = (s : Till) → Ends (IsLike s) (m s)

Quiet-when : (b : Bool) (m : Method (Unit {0})) → Quiet m → Quiet (when b m)
unfolding when
Quiet-when true m q s = q s
Quiet-when false m q s = calm _ _ _ refl

record_tender-Quiet : (order : Order) (t : Tender) → Quiet (record_tender order t)
unfolding record_tender
record_tender-Quiet order t s = quiet _ _ (calm _ _ _ refl) (λ _ u. calm _ _ _ refl)

pub record_tenders-Quiet : (order : Order) (ts : List Tender) → Quiet (record_tenders order ts)
unfolding record_tenders
record_tenders-Quiet order [] s = calm _ _ _ refl
record_tenders-Quiet order (t ∷ ts) s =
    quiet _ _ (Quiet-when _ _ (record_tender-Quiet order t) s)
      (λ _ u. record_tenders-Quiet order ts u)

pub issue_document-Quiet :
    (now : Clock) (order : Order) (kind : DocumentKind) (a : Amounts)
    → Quiet (issue_document now order kind a)
unfolding issue_document
issue_document-Quiet now order kind a s = calm _ _ _ refl

module _ ⦃f : Float64⦄ where
  pub require_covering-Quiet :
      (ts : List TenderInput) (due : Money) → Quiet (require_covering ts due)
  unfolding require_covering
  require_covering-Quiet ts due s =
      quiet _ _ (calm _ _ _ refl) (λ _ t. quiet _ _ (calm _ _ _ refl) (λ _ u. calm _ _ _ refl))

  build_tender-Quiet : (due : ℤ) (t : TenderInput) → Quiet (build_tender due t)
  unfolding build_tender
  build_tender-Quiet due t s = quiet _ _ (calm _ _ _ refl) (λ _ s1.
      quiet _ _ (calm _ _ _ refl) (λ _ s2. quiet _ _ (calm _ _ _ refl) (λ _ s3.
        quiet _ _ (calm _ _ _ refl) (λ _ s4.
          quiet _ _ (calm _ _ _ refl)
            (λ _ s5. quiet _ _ (calm _ _ _ refl) (λ _ s6. calm _ _ _ refl))))))

  pub build_tenders-Quiet : (due : ℤ) (ts : List TenderInput) → Quiet (build_tenders due ts)
  unfolding build_tenders
  build_tenders-Quiet due [] s = calm _ _ _ refl
  build_tenders-Quiet due (t ∷ ts) s =
      quiet _ _ (build_tender-Quiet due t s)
        (λ one s1. quiet _ _ (build_tenders-Quiet one.1 ts s1) (λ _ s2. calm _ _ _ refl))

  refund_share-Quiet : (t : Tender) (share : ℤ) → Quiet (refund_share t share)
  unfolding refund_share
  refund_share-Quiet t share s = quiet _ _ (calm _ _ _ refl) (λ _ u. calm _ _ _ refl)

  pub refund_shares-Quiet : (ts : List Tender) (shares : List ℤ) → Quiet (refund_shares ts shares)
  unfolding refund_shares
  refund_shares-Quiet [] shares s = calm _ _ _ refl
  refund_shares-Quiet (t ∷ ts) [] s = calm _ _ _ refl
  refund_shares-Quiet (t ∷ ts) (x ∷ xs) s =
      quiet _ _ (Quiet-when _ _ (refund_share-Quiet t x) s) (λ _ u. refund_shares-Quiet ts xs u)
