-- ===== src/Pricing/Ascending.antt =====
-- The order of the bands of `taxBreakdown` in packages/money/src/pricing.ts.
use mathlib.Core.Path.{subst}
use twenty_four.Prelude.{◌≡◌, sym, ap, inl, inr, true, false, List, [], ◌∷◌, arith, Bool-cases, All}
use twenty_four.Prelude.Int.{ℤ, ltb_ℤ, eqb_ℤ}
use twenty_four.Prelude.Number.{Float64}
use twenty_four.Prelude.Results.{
  ok, traverse, >>=-eq-ok, traverse-nil-eq-ok, traverse-cons-eq-ok, ok-injective,
}
use twenty_four.Pricing.{
  Line, Amounts, Band, rate_of, price_line, total_of, add_to_bucket, buckets_loop, insert_band,
  sort_bands, band_of, tax_breakdown,
}
use twenty_four.Pricing.RateSums.{Buckets}

-- No later bucket has this key.
abbrev IsNewKey : ℤ → Buckets → Type 0
IsNewKey key = All λ b. eqb_ℤ b.0 key ≡ false

abbrev HasDistinctKeys : Buckets → Type 0
HasDistinctKeys [] = Unit
HasDistinctKeys (b ∷ bs) = IsNewKey b.0 bs × HasDistinctKeys bs

abbrev IsAbove : ℤ → Buckets → Type 0
IsAbove key = All λ b. ltb_ℤ key b.0 ≡ true

abbrev IsSorted : Buckets → Type 0
IsSorted [] = Unit
IsSorted (b ∷ bs) = IsAbove b.0 bs × IsSorted bs

-- Each rate is lower than every later one: the bands ascend, and no rate has two.
abbrev pub IsAscending : List Band → Type 0
IsAscending [] = Unit
IsAscending (b ∷ bs) = All (λ c. ltb_ℤ b.basis_points c.basis_points ≡ true) bs × IsAscending bs

add_to_bucket-IsNewKey :
    (key rate : ℤ) (a : Amounts) (bs : Buckets)
    → eqb_ℤ rate key ≡ false
    → IsNewKey key bs
    → IsNewKey key (add_to_bucket rate a bs)
unfolding add_to_bucket
add_to_bucket-IsNewKey key rate a [] ne h = (ne, tt)
add_to_bucket-IsNewKey key rate a ((k, bucket) ∷ rest) ne (hk, hs) =
    elim (Bool-cases (eqb_ℤ k rate)) [
      | inl e ↦ rw e (hk, hs)
      | inr e ↦ rw e (hk, add_to_bucket-IsNewKey key rate a rest ne hs)
    ]

eqb_ℤ-flip : (a b : ℤ) → eqb_ℤ a b ≡ false → eqb_ℤ b a ≡ false
eqb_ℤ-flip a b h = ground arith

add_to_bucket-HasDistinctKeys :
    (rate : ℤ) (a : Amounts) (bs : Buckets)
    → HasDistinctKeys bs
    → HasDistinctKeys (add_to_bucket rate a bs)
unfolding add_to_bucket
add_to_bucket-HasDistinctKeys rate a [] h = (tt, tt)
add_to_bucket-HasDistinctKeys rate a ((k, bucket) ∷ rest) (hk, hs) =
    elim (Bool-cases (eqb_ℤ k rate)) [
      | inl e ↦ rw e (hk, hs)
      | inr e ↦ rw e (
        add_to_bucket-IsNewKey k rate a rest (eqb_ℤ-flip k rate e) hk,
        add_to_bucket-HasDistinctKeys rate a rest hs,
      )
    ]

All-insert_band :
    (P : ℤ × List Amounts → Type 0) (b : ℤ × List Amounts) (bs : Buckets)
    → P b
    → All P bs
    → All P (insert_band b bs)
unfolding insert_band
All-insert_band P b [] pb h = (pb, tt)
All-insert_band P b (c ∷ rest) pb (hc, hs) = elim (Bool-cases (ltb_ℤ c.0 b.0)) [
  | inl e ↦ rw e (hc, All-insert_band P b rest pb hs)
  | inr e ↦ rw e (pb, (hc, hs))
]

All-sort_bands : (P : ℤ × List Amounts → Type 0) (bs : Buckets) → All P bs → All P (sort_bands bs)
unfolding sort_bands
All-sort_bands P [] h = tt
All-sort_bands P (b ∷ bs) (hb, hs) = All-insert_band P b (sort_bands bs) hb (All-sort_bands P bs hs)

ltb_ℤ_trans : (a b c : ℤ) → ltb_ℤ a b ≡ true → ltb_ℤ b c ≡ true → ltb_ℤ a c ≡ true
ltb_ℤ_trans a b c h k = ground arith

ltb_ℤ_of_others : (a b : ℤ) → ltb_ℤ a b ≡ false → eqb_ℤ a b ≡ false → ltb_ℤ b a ≡ true
ltb_ℤ_of_others a b h k = ground arith

IsAbove-trans : (a b : ℤ) (bs : Buckets) → ltb_ℤ a b ≡ true → IsAbove b bs → IsAbove a bs
IsAbove-trans a b [] h k = tt
IsAbove-trans a b (c ∷ cs) h (kc, ks) = (ltb_ℤ_trans a b c.0 h kc, IsAbove-trans a b cs h ks)

insert_band-IsSorted :
    (b : ℤ × List Amounts) (bs : Buckets)
    → IsNewKey b.0 bs
    → IsSorted bs
    → IsSorted (insert_band b bs)
unfolding insert_band
insert_band-IsSorted b [] new h = (tt, tt)
insert_band-IsSorted b (c ∷ rest) (nc, ns) (hc, hs) = elim (Bool-cases (ltb_ℤ c.0 b.0)) [
  | inl e ↦
      rw e
        (All-insert_band (λ d. ltb_ℤ c.0 d.0 ≡ true) b rest e hc, insert_band-IsSorted b rest ns hs)
  | inr e ↦
      let below = ltb_ℤ_of_others c.0 b.0 e nc in
      rw e ((below, IsAbove-trans b.0 c.0 rest below hc), (hc, hs))
]

sort_bands-IsSorted : (bs : Buckets) → HasDistinctKeys bs → IsSorted (sort_bands bs)
unfolding sort_bands
sort_bands-IsSorted [] h = tt
sort_bands-IsSorted (b ∷ bs) (hb, hs) =
    insert_band-IsSorted b (sort_bands bs) (All-sort_bands (λ c. eqb_ℤ c.0 b.0 ≡ false) bs hb)
      (sort_bands-IsSorted bs hs)

module _ ⦃f : Float64⦄ where
  buckets_loop-HasDistinctKeys :
      (bs : Buckets) (lines : List Line) {bs' : Buckets}
      → HasDistinctKeys bs
      → buckets_loop bs lines ≡ ok bs'
      → HasDistinctKeys bs'
  unfolding buckets_loop
  buckets_loop-HasDistinctKeys bs [] h e = rw (← ok-injective e) h
  buckets_loop-HasDistinctKeys bs (line ∷ lines) h e =
      let (a, ea, rest) = >>=-eq-ok (price_line line) _ e in
      let rate = rate_of line.tax_basis_points in
      buckets_loop-HasDistinctKeys (add_to_bucket rate a bs) lines
        (add_to_bucket-HasDistinctKeys rate a bs h) rest

  band_of-rate :
      (b : ℤ × List Amounts) {band : Band} → band_of b ≡ ok band → band.basis_points ≡ b.0
  unfolding band_of
  band_of-rate (rate, xs) e =
      let (t, _, last) = >>=-eq-ok (total_of xs) _ e in
      ap Band.basis_points (sym (ok-injective last))

  traverse-above :
      (key : ℤ) (bs : Buckets) {bands : List Band}
      → IsAbove key bs
      → traverse band_of bs ≡ ok bands
      → All (λ c. ltb_ℤ key c.basis_points ≡ true) bands
  traverse-above key [] h e = rw (traverse-nil-eq-ok band_of e) tt
  traverse-above key (b ∷ bs) (hb, hs) e =
      let (band, rest, eb, er, same) = traverse-cons-eq-ok band_of b bs e in
      rw same
        (subst (λ k. ltb_ℤ key k ≡ true) (sym (band_of-rate b eb)) hb, traverse-above key bs hs er)

  traverse-IsAscending :
      (bs : Buckets) {bands : List Band}
      → IsSorted bs
      → traverse band_of bs ≡ ok bands
      → IsAscending bands
  traverse-IsAscending [] h e = rw (traverse-nil-eq-ok band_of e) tt
  traverse-IsAscending (b ∷ bs) (hb, hs) e =
      let (band, rest, eb, er, same) = traverse-cons-eq-ok band_of b bs e in
      let above = traverse-above b.0 bs hb er in
      rw same (
        subst (λ k. All (λ c. ltb_ℤ k c.basis_points ≡ true) rest) (sym (band_of-rate b eb)) above,
        traverse-IsAscending bs hs er,
      )

  -- The bands come in strictly ascending order of their rates, so no rate has two of them.
  pub tax_breakdown-IsAscending :
      (lines : List Line) {bands : List Band} → tax_breakdown lines ≡ ok bands → IsAscending bands
  unfolding tax_breakdown
  tax_breakdown-IsAscending lines e =
      let (bs, loop, bands_e) = >>=-eq-ok (buckets_loop [] lines) _ e in
      traverse-IsAscending (sort_bands bs)
        (sort_bands-IsSorted bs (buckets_loop-HasDistinctKeys [] lines tt loop)) bands_e
