-- ===== src/Till/Settled.antt =====
-- packages/mock/src/store.ts, `settleParkedOrder`: a tab that is settled is paid, to the last minor unit.
use twenty_four.Prelude.{
  ℕ, ◌≤◌, String, ◌≡◌, refl, sym, ap, ◌∙◌, subst, inl, inr, true, some, List, [], ◌∷◌, map, arith,
  if◌then◌else◌, Bool-cases, All, find, All-weaken,
}
use twenty_four.Prelude.Equality.{◌==◌, eq_ℕ, eq_String}
use twenty_four.Prelude.Int.{ℤ, pos, ltb_ℤ, +ℤ_pos}
use twenty_four.Prelude.Number.{whole, max_safe, Float64}
use twenty_four.Prelude.FloatSum.{sum_by}
use twenty_four.Prelude.Results.{
  ok, traverse, throw_if-eq-ok, traverse-nil-eq-ok, traverse-cons-eq-ok, ok-injective,
}
use twenty_four.Money.{Money, money, to_minor, sum_money, zero_money}
use twenty_four.Money.Exact.{IsTakings, checked, sum_money-exact}
use twenty_four.Till.Data.{
  Order, Tender, TenderInput, paid, receipt, is_parked, WireMoney, Till, Clock,
}
use twenty_four.Till.Method.{go_on-ok, by_money}
use twenty_four.Till.Price.{read_money}
use twenty_four.Till.Allocate.Sum.{sum, least}
use twenty_four.Till.Tenders.{require_covering, build_tenders}
use twenty_four.Till.Park.{settle_parked_order, require_parked, settled_order}
use twenty_four.Till.Floor.{
  require_covering-Quiet, build_tenders-Quiet, record_tenders-Quiet, issue_document-Quiet,
}
use twenty_four.Till.Tables.{put_order}
use twenty_four.Till.Gives.{Gives, gives, go_on-Gives, calm-Gives}
use twenty_four.Till.Keeps.Known.{parked_of-ok}
use twenty_four.Till.Tendered.{money-minor, read_money-minor, offered, IsOffer, build_tenders-sum}

money-currency :
    (n : ℤ) (c : String) {m : Money} → by_money (money (whole n) c) ≡ ok m → m.currency ≡ c
unfolding money to_minor
money-currency n c h = ground arith

-- An offer of no less than zero, in this currency.
abbrev pub IsOfferIn : String → TenderInput → Type 0
IsOfferIn currency t = IsOffer t × (t.amount.currency ≡ currency)

read_money-currency :
    {m : Money} (w : WireMoney) (n : ℕ)
    → w.minor ≡ whole (pos n)
    → read_money w ≡ ok m
    → m.currency ≡ w.currency
read_money-currency {m} w n e h =
    money-currency (pos n) w.currency (subst (λ x. by_money (money x w.currency) ≡ ok m) e h)

-- What the offers read as: amounts of one currency, with the sum of the offers.
offers_read :
    (currency : String) (inputs : List TenderInput) (amounts : List Money)
    → All (IsOfferIn currency) inputs
    → traverse (λ t. read_money t.amount) inputs ≡ ok amounts
    → IsTakings currency amounts × (sum_by Money.minor amounts ≡ pos (sum (map offered inputs)))
offers_read currency [] amounts offers h =
    let none_read = traverse-nil-eq-ok (λ t. read_money t.amount) h in rw none_read (tt, refl)
offers_read currency (t ∷ ts) amounts ((offer, own), offers) h =
    let (m, ms, one, more, made) = traverse-cons-eq-ok (λ x. read_money x.amount) t ts h in
    let (takings, total) = offers_read currency ts ms offers more in
    let n : (m.minor ≡ pos (offered t)) = read_money-minor t.amount (offered t) offer one in
    rw made (
      ((read_money-currency t.amount (offered t) offer one ∙ own, rw n (omega arith)), takings),
      rw (n, total) (+ℤ_pos (offered t) (sum (map offered ts))),
    )

checked-minor : (n : ℤ) (c : String) {m : Money} → by_money (checked n c) ≡ ok m → m.minor ≡ n
checked-minor n c h = ground arith

module _ ⦃f : Float64⦄ where
  sum_money-minor :
      {t : Money} (currency default : String) (amounts : List Money)
      → IsTakings currency amounts
      → by_money (sum_money amounts (some default)) ≡ ok t
      → t.minor ≡ sum_by Money.minor amounts
  unfolding sum_money zero_money
  sum_money-minor {t} currency default [] takings h = elim (Bool-cases (default == "")) [
    | inl blank ↦ ground (arith, blank, h)
    | inr named ↦ money-minor (pos 0) default (rw named at h)
  ]
  sum_money-minor {t} currency default (v ∷ vs) takings h =
      let own = subst (λ c. IsTakings c (v ∷ vs)) (sym takings.0.0) takings in
      checked-minor (sum_by Money.minor (v ∷ vs)) v.currency
        (subst (λ r. by_money r ≡ ok t) (sum_money-exact v vs (some default) own) h)

  require_covering-ok :
      {u : Unit {0}} (currency : String) (due : ℕ) (d : Money) (inputs : List TenderInput)
      (s : Till)
      → d.minor ≡ pos due
      → All (IsOfferIn currency) inputs
      → (require_covering inputs d s).0 ≡ ok u
      → due ≤ sum (map offered inputs)
  unfolding require_covering
  require_covering-ok currency due d inputs s exact offers h =
      let (amounts, read, h1) = go_on-ok _ _ h in
      let (total, summed, last) = go_on-ok _ _ h1 in
      let (takings, sums) = offers_read currency inputs amounts offers read in
      let enough = throw_if-eq-ok (ltb_ℤ total.minor d.minor) _ last in
      let minor = sum_money-minor currency s.currency amounts takings summed ∙ sums in
      ground (arith, exact, minor, enough)

  build_tenders-owed :
      (d : ℤ) (due : ℕ) (currency : String) (inputs : List TenderInput) (s : Till)
      (tenders : List Tender)
      → d ≡ pos due
      → due ≤ max_safe
      → All (IsOfferIn currency) inputs
      → (build_tenders d inputs s).0 ≡ ok tenders
      → sum_by (λ t. t.amount.minor) tenders ≡ pos (least due (sum (map offered inputs)))
  build_tenders-owed d due currency inputs s tenders owed low offers h =
      build_tenders-sum inputs due s tenders low (All-weaken inputs (λ t offer. offer.0) offers)
        (subst (λ x. (build_tenders x inputs s).0 ≡ ok tenders) owed h)

  least-covered : (due n : ℕ) → due ≤ n → least due n ≡ due
  least-covered due n h = ground (arith, h)

  -- What a settlement that returns `o` makes of the till `s`, which it leaves as `t`.
  pub record Settled (s t : Till) (id : String) (o : Order) : Type 0 where
    pub tab : Order
    pub found : find (λ x. x.id == id) s.orders ≡ some tab
    pub was_parked : is_parked tab.status ≡ true
    pub status_paid : o.status ≡ paid
    pub same_sale :
        (o.id ≡ tab.id)
        × (o.number ≡ tab.number)
        × (o.lines ≡ tab.lines)
        × (o.amounts ≡ tab.amounts)
    pub stored : t.orders ≡ map (λ x. if x.id == id then o else x) s.orders

  settled_order-Settled :
      (s t : Till) (id : String) (now : Clock) (tenders : List Tender) (tab : Order)
      → require_parked id s ≡ ok tab
      → t.orders ≡ put_order id (settled_order now tenders tab) s.orders
      → Settled s t id (settled_order now tenders tab)
  settled_order-Settled s t id now tenders tab known stored =
      let (found, was_parked) = parked_of-ok (find (λ x. x.id == id) s.orders) known in
      record {
        tab = tab;
        found = found;
        was_parked = was_parked;
        status_paid = refl;
        same_sale = (refl, refl, refl, refl);
        stored = stored;
      }

  -- A settlement that returns was of a sale that is there and parked. The sale that it returns is paid,
  -- keeps its id, number, lines and amounts, and takes the place of the parked one in the list
  -- of sales that the call leaves, in which every other sale is as it was.
  pub settle_parked_order-Settled :
      (now : Clock) (id : String) (inputs : List TenderInput) (s : Till) (o : Order)
      → (settle_parked_order now id inputs s).0 ≡ ok o
      → Settled s (settle_parked_order now id inputs s).1 id o
  unfolding settle_parked_order
  settle_parked_order-Settled now id inputs s o h =
      let run : Gives (λ x t. Settled s t id x) (settle_parked_order now id inputs s) =
        go_on-Gives _ (λ tab known.
          calm-Gives _ s (require_covering-Quiet inputs tab.amounts.gross s) (λ _ t asked.
            go_on-Gives _ (λ _ _.
              calm-Gives _ _ (build_tenders-Quiet tab.amounts.gross.minor inputs _)
                (λ tenders u built.
                  let settled = settled_order now tenders tab in
                  go_on-Gives _ (λ _ _.
                    calm-Gives _ _ (record_tenders-Quiet settled tenders _) (λ _ v written.
                      calm-Gives _ _ (issue_document-Quiet now settled receipt tab.amounts v)
                        (λ _ w issued. gives _ _ (
                          settled_order-Settled s w id now tenders tab known (
                            issued ∙ written ∙ ap (put_order id settled) (built ∙ asked)))))))))) in
      run.on_ok o h

  -- If a parked sale comes to an amount that is a safe integer and not negative, and the tenders are
  -- offers in one currency, none of them negative, then where its settlement returns, what is
  -- recorded of the tenders adds up to exactly that amount.
  pub settle_parked_order-paid_in_full :
      (now : Clock) (id currency : String) (inputs : List TenderInput) (s : Till) (o tab : Order)
      (due : ℕ)
      → require_parked id s ≡ ok tab
      → tab.amounts.gross.minor ≡ pos due
      → due ≤ max_safe
      → All (IsOfferIn currency) inputs
      → (settle_parked_order now id inputs s).0 ≡ ok o
      → sum_by (λ t. t.amount.minor) o.tenders ≡ pos due
  unfolding settle_parked_order
  settle_parked_order-paid_in_full now id currency inputs s o tab due found gross low offers h =
      let (existing, known, h1) = go_on-ok _ _ h in
      let (_, covered, h2) = go_on-ok _ _ h1 in
      let (_, _, h3) = go_on-ok _ _ h2 in
      let (tenders, built, h4) = go_on-ok _ _ h3 in
      let (_, _, h5) = go_on-ok _ _ h4 in
      let (_, _, h6) = go_on-ok _ _ h5 in
      let (_, _, last) = go_on-ok _ _ h6 in
      let one : (existing ≡ tab) = ok-injective (sym known ∙ found) in
      let owed = ap (λ x. x.amounts.gross.minor) one ∙ gross in
      let updated : (settled_order now tenders existing ≡ o) = ok-injective last in
      let enough =
        require_covering-ok currency due existing.amounts.gross inputs s owed offers covered in
      let sums = build_tenders-owed _ due currency inputs _ tenders owed low offers built in
      sym (ap (λ x. sum_by (λ t. t.amount.minor) x.tenders) updated)
      ∙ sums
      ∙ ap pos (least-covered due (sum (map offered inputs)) enough)
