-- ===== src/Till/Tendered.antt =====
-- packages/mock/src/store.ts: what `requireCoveringTender` and `buildTenders` make of the money handed
-- over.
use twenty_four.Prelude.{
  ℕ, ◌+◌, ◌-◌, ◌≤◌, String, ◌≡◌, sym, ap, ◌∙◌, subst, List, [], ◌∷◌, map, arith, All,
}
use twenty_four.Prelude.Equality.{eq_ℕ, eq_String}
use twenty_four.Prelude.Int.{ℤ, pos, ◌+ℤ◌, ◌-ℤ◌, +ℤ_pos, -ℤ_pos}
use twenty_four.Prelude.Number.{whole, max_safe, Float64}
use twenty_four.Prelude.Results.{ok, ok-injective}
use twenty_four.Prelude.FloatSum.{sum_by}
use twenty_four.Money.{Money, money, to_minor}
use twenty_four.Till.Data.{Tender, TenderInput, WireMoney, Till}
use twenty_four.Till.Method.{go_on-ok, go_on-ok, by_money}
use twenty_four.Till.Price.{read_money, count_of}
use twenty_four.Till.Allocate.Sum.{least, sum}
use twenty_four.Till.Tenders.{build_tender, applied_to, build_tenders}

pub money-minor :
    (n : ℤ) (c : String) {m : Money} → by_money (money (whole n) c) ≡ ok m → m.minor ≡ n
unfolding money to_minor
money-minor n c h = ground arith

-- The amount handed over, where it is not negative.
abbrev pub offered : TenderInput → ℕ
offered t = count_of t.amount.minor

abbrev pub IsOffer : TenderInput → Type 0
IsOffer t = t.amount.minor ≡ whole (pos (offered t))

applied_to-pos : (r n : ℕ) (a : Money) → a.minor ≡ pos n → applied_to (pos r) a ≡ pos (least r n)
applied_to-pos r n a h = ground (arith, h)

pub read_money-minor :
    {m : Money} (w : WireMoney) (n : ℕ)
    → w.minor ≡ whole (pos n)
    → read_money w ≡ ok m
    → m.minor ≡ pos n
read_money-minor {m} w n e h =
    money-minor (pos n) w.currency (subst (λ x. by_money (money x w.currency) ≡ ok m) e h)

module _ ⦃f : Float64⦄ where
  open f use {round, round_exact}

  round_rest :
      (due n : ℕ) → due ≤ max_safe → round (pos due -ℤ pos (least due n)) ≡ pos (due - least due n)
  round_rest due n low =
      ground (arith, low, round_exact (pos (due - least due n)), -ℤ_pos due (least due n))

  -- One tender: it records what is applied, and what is left to pay goes down by as much.
  build_tender-applied :
      {tender : Tender} {rest : ℤ} (due : ℕ) (t : TenderInput) (s : Till)
      → due ≤ max_safe
      → IsOffer t
      → (build_tender (pos due) t s).0 ≡ ok (tender, rest)
      → (tender.amount.minor ≡ pos (least due (offered t)))
        × (rest ≡ pos (due - least due (offered t)))
  unfolding build_tender
  build_tender-applied {tender} {rest} due t s low offer h =
      let (amount, read, h1) = go_on-ok _ _ h in
      let (tendered, _, h2) = go_on-ok _ _ h1 in
      let (change, _, h3) = go_on-ok _ _ h2 in
      let (_, _, h4) = go_on-ok _ _ h3 in
      let (taken, got, h5) = go_on-ok _ _ h4 in
      let (one, made, last) = go_on-ok _ _ h5 in
      let applied : (applied_to (pos due) amount ≡ pos (least due (offered t))) =
        applied_to-pos due (offered t) amount (read_money-minor t.amount (offered t) offer read) in
      let same : (one.amount ≡ tender.amount) = ap (λ x. x.0.amount) (ok-injective last) in
      let kept : (taken ≡ one.amount) = ap (λ x. x.amount) (ok-injective made) in
      let exact = money-minor (applied_to (pos due) amount) _ got in
      let left = ap (λ x. x.1) (ok-injective last) in
      (
        sym (ap (λ x. x.minor) (kept ∙ same)) ∙ exact ∙ applied,
        sym left ∙ ap (λ x. round (pos due -ℤ x)) applied ∙ round_rest due (offered t) low,
      )

  least-zero : (due : ℕ) → least due 0 ≡ 0
  least-zero due = ground arith

  least-rest : (due a b : ℕ) → least due a + least (due - least due a) b ≡ least due (a + b)
  least-rest due a b = ground arith

  least-low : (due a : ℕ) → due ≤ max_safe → due - least due a ≤ max_safe
  least-low due a h = omega (arith, h)

  -- For offers of no less than zero, the tenders that are recorded add up to what is due or to what is
  -- offered, whichever is less: covering offers pay exactly what is due.
  pub build_tenders-sum :
      (inputs : List TenderInput) (due : ℕ) (s : Till) (tenders : List Tender)
      → due ≤ max_safe
      → All IsOffer inputs
      → (build_tenders (pos due) inputs s).0 ≡ ok tenders
      → sum_by (λ t. t.amount.minor) tenders ≡ pos (least due (sum (map offered inputs)))
  unfolding build_tenders
  build_tenders-sum [] due s tenders low offers h =
      ap (sum_by (λ t. t.amount.minor)) (sym (ok-injective h)) ∙ ap pos (sym (least-zero due))
  build_tenders-sum (t ∷ ts) due s tenders low (offer, offers) h =
      let ((tender, rest), built, h1) = go_on-ok _ _ h in
      let (others, more, last) = go_on-ok _ _ h1 in
      let (applied, left) = build_tender-applied due t s low offer built in
      let a = least due (offered t) in
      let b = sum (map offered ts) in
      let later = build_tenders-sum ts (due - a) _ others (least-low due (offered t) low) offers (
        subst (λ x. (build_tenders x ts (build_tender (pos due) t s).1).0 ≡ ok others) left more) in
      ap (sum_by (λ t. t.amount.minor)) (sym (ok-injective last))
      ∙ ap (λ x. x +ℤ sum_by (λ t. t.amount.minor) others) applied
      ∙ ap (λ x. pos a +ℤ x) later
      ∙ +ℤ_pos a (least (due - a) b)
      ∙ ap pos (least-rest due (offered t) b)
