-- ===== src/Till/Tenders.antt =====
-- packages/mock/src/store.ts: `requireCoveringTender`, `buildTenders`, `recordPayments`,
-- `refundPayments` and `issueDocument`.
use twenty_four.Prelude.{
  ℕ, ◌+◌, String, Bool, not, Option, none, some, List, [], ◌∷◌, map, if◌then◌else◌,
}
use twenty_four.Prelude.Equality.{◌==◌, eq_ℕ, eq_String}
use twenty_four.Prelude.Int.{ℤ, pos, ◌+ℤ◌, ◌-ℤ◌, ltb_ℤ}
use twenty_four.Prelude.Number.{whole, Float64}
use twenty_four.Prelude.Numerals.{◌&◌, number_text, padded}
use twenty_four.Prelude.Results.{ok, traverse, throw_if}
use twenty_four.Money.{Money, money, zero_money, sum_money}
use twenty_four.Pricing.{Amounts}
use twenty_four.Till.Allocate.{min_ℤ, max_ℤ, allocate}
use twenty_four.Till.Data.{
  Order, Tender, TenderInput, is_cash, Payment, PaymentStatus, captured, given_back, DocumentKind,
  receipt, credit_note, ReportingStatus, not_required, queued, FiscalDocument, Clock, Till,
}
use twenty_four.Till.Method.{
  map_ok, Method, Throws, refused, by_money, reads, modify, pure, ◌>>=◌, ◌>>◌, when,
}
use twenty_four.Till.Price.{read_money, read_optional}

-- What of an amount goes to what is still owed.
abbrev pub applied_to : ℤ → Money → ℤ
applied_to remaining amount = min_ℤ amount.minor (max_ℤ remaining (pos 0))

module _ ⦃f : Float64⦄ where
  open f use {round}

  unfoldable pub require_covering : List TenderInput → Money → Method (Unit {0})
  require_covering tenders due = do
    amounts ← reads λ _. traverse (λ t. read_money t.amount) tenders
    tendered ← reads λ s. by_money (sum_money amounts (some s.currency))
    reads λ _. throw_if (ltb_ℤ tendered.minor due.minor) (refused 422 "insufficient_tender")

  abbrev pub change_of : Option Money → ℤ → String → Throws (Option Money)
  change_of none applied currency = ok none
  change_of (some tendered) applied currency =
      if ltb_ℤ applied tendered.minor
      then map_ok some (by_money (money (whole (round (tendered.minor -ℤ applied))) currency))
      else ok none

  abbrev pub tender_of : String → ℕ → TenderInput → Money → Option Money → Option Money → Tender
  tender_of tenant n input amount tendered change = record {
    id = tenant & "-tender-" & number_text n;
    method = input.method;
    amount = amount;
    tendered = tendered;
    change = change;
    reference = if is_cash input.method then none else some ("ref-" & number_text n);
  }

  unfoldable pub build_tender : ℤ → TenderInput → Method (Tender × ℤ)
  build_tender remaining input = do
    amount ← reads λ _. read_money input.amount
    let applied : ℤ = applied_to remaining amount
    tendered ← reads λ _. read_optional input.tendered
    change ← reads λ s. change_of tendered applied s.currency
    modify λ s. record s { payment_counter = s.payment_counter + 1 }
    taken ← reads λ s. by_money (money (whole applied) s.currency)
    tender ← reads λ s. ok (tender_of s.tenant_id s.payment_counter input taken tendered change)
    pure (tender, round (remaining -ℤ applied))

  unfoldable pub build_tenders : ℤ → List TenderInput → Method (List Tender)
  build_tenders remaining [] = pure []
  build_tenders remaining (input ∷ inputs) = do
    one ← build_tender remaining input
    others ← build_tenders one.1 inputs
    pure (one.0 ∷ others)

abbrev payment_id : String → String → String
payment_id tenant tender = tenant & "-payment-" & tender

abbrev payment_of : String → Order → Money → Tender → Payment
payment_of tenant order nothing t = record {
  id = payment_id tenant t.id;
  order_id = order.id;
  amount = t.amount;
  refunded_part = nothing;
  method = t.method;
  status = captured;
  created_at = order.placed_at;
  provider_reference = t.reference;
}

unfoldable pub record_tender : Order → Tender → Method (Unit {0})
record_tender order t = do
  nothing ← reads λ s. by_money (zero_money s.currency)
  modify λ s. record s { payments = payment_of s.tenant_id order nothing t ∷ s.payments }

-- A payment for each tender that is no cash, the last one first.
unfoldable pub record_tenders : Order → List Tender → Method (Unit {0})
record_tenders order [] = pure tt
record_tenders order (t ∷ ts) = do
  when (not (is_cash t.method)) (record_tender order t)
  record_tenders order ts

abbrev pub record_payments : Order → Method (Unit {0})
record_payments order = record_tenders order order.tenders

abbrev reporting_of : DocumentKind → ReportingStatus
reporting_of receipt = not_required
reporting_of credit_note = queued

abbrev document_of : String → ℕ → Clock → Order → DocumentKind → Amounts → FiscalDocument
document_of tenant n now order kind amounts = record {
  id = tenant & "-doc-" & number_text n;
  number = now.year & "/" & padded 5 n;
  kind = kind;
  issued_at = order.placed_at;
  order_id = order.id;
  amounts = amounts;
  customer_name = none;
  reporting_status = reporting_of kind;
  artifact_url = "/api/documents/" & tenant & "-doc-" & number_text n & "/artifact";
  corrected_by = none;
  corrects = none;
}

abbrev with_document : Clock → Order → DocumentKind → Amounts → Till → Till
with_document now order kind amounts s =
    let n = s.document_counter + 1 in
    record s {
      document_counter = n;
      documents = document_of s.tenant_id n now order kind amounts ∷ s.documents;
    }

unfoldable pub issue_document : Clock → Order → DocumentKind → Amounts → Method (Unit {0})
issue_document now order kind amounts = modify (with_document now order kind amounts)

module _ ⦃f : Float64⦄ where
  open f use {round}

  abbrev settled_status : PaymentStatus → Bool → PaymentStatus
  settled_status old full = if full then given_back else old

  -- One payment that a share goes back to.
  unfoldable pub refund_payment : String → ℤ → String → Payment → Throws Payment
  refund_payment id share currency p =
      if p.id == id
      then map_ok
          (λ m. record p {
            refunded_part = m;
            status = settled_status p.status (not (ltb_ℤ m.minor p.amount.minor));
          })
          (by_money (money (whole (round (p.refunded_part.minor +ℤ share))) currency))
      else ok p

  unfoldable pub refund_share : Tender → ℤ → Method (Unit {0})
  refund_share t share = do
    payments ←
        reads
          λ s. traverse (refund_payment (payment_id s.tenant_id t.id) share s.currency) s.payments
    modify λ s. record s { payments = payments }

  unfoldable pub refund_shares : List Tender → List ℤ → Method (Unit {0})
  refund_shares [] shares = pure tt
  refund_shares (t ∷ ts) [] = pure tt
  refund_shares (t ∷ ts) (share ∷ shares) = do
    when (ltb_ℤ (pos 0) share) (refund_share t share)
    refund_shares ts shares

  abbrev pub refund_payments : Order → Money → Method (Unit {0})
  refund_payments order amount =
      refund_shares order.tenders (allocate (map (λ t. t.amount.minor) order.tenders) amount.minor)
