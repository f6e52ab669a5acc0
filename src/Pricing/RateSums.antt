-- ===== src/Pricing/RateSums.antt =====
-- Sums over the part of a sale at chosen tax rates, through the map and the sort of `taxBreakdown`
-- in packages/money/src/pricing.ts.
use twenty_four.Prelude.{
  ◌≡◌, refl, inl, inr, Bool, true, List, [], ◌∷◌, ◌++◌, arith, if◌then◌else◌, Bool-cases,
}
use twenty_four.Prelude.Int.{ℤ, pos, ◌+ℤ◌, ltb_ℤ, eqb_ℤ, int_laws, +ℤ-zero}
use twenty_four.Prelude.Number.{Float64}
use twenty_four.Prelude.Results.{ok, traverse, >>=-eq-ok, traverse-cons-eq-ok, ok-injective}
use twenty_four.Prelude.Equality.{eq_ℕ, eq_String}
use twenty_four.Prelude.FloatSum.{sum_by}
use twenty_four.Pricing.{
  Line, Amounts, Band, rate_of, price_line, add_to_bucket, buckets_loop, insert_band, sort_bands,
}

abbrev pub Buckets : Type 0
Buckets = List (ℤ × List Amounts)

-- The sums of what a test on the rate selects: of buckets, of bands, of priced lines.
module _ (w : Amounts → ℤ) (p : ℤ → Bool) where
  abbrev pub at_rate : ℤ → ℤ → ℤ
  at_rate rate n = if p rate then n else pos 0

  abbrev pub bucket_sum : Buckets → ℤ
  bucket_sum [] = pos 0
  bucket_sum ((rate, as') ∷ bs) = at_rate rate (sum_by w as') +ℤ bucket_sum bs

  abbrev pub band_sum : List Band → ℤ
  band_sum [] = pos 0
  band_sum (b ∷ bs) = at_rate b.basis_points (w b.sums) +ℤ band_sum bs

  abbrev pub line_sum : List Line → List Amounts → ℤ
  line_sum [] priced = pos 0
  line_sum (line ∷ lines) [] = pos 0
  line_sum (line ∷ lines) (a ∷ rest) =
      at_rate (rate_of line.tax_basis_points) (w a) +ℤ line_sum lines rest

  sum_by-append_one :
      (xs : List Amounts) (a : Amounts) → sum_by w (xs ++ (a ∷ [])) ≡ sum_by w xs +ℤ w a
  sum_by-append_one [] a = omega int_laws
  sum_by-append_one (x ∷ xs) a = rw (sum_by-append_one xs a) (omega int_laws)

  eq_of_eqb_ℤ : (a b : ℤ) → eqb_ℤ a b ≡ true → a ≡ b
  eq_of_eqb_ℤ a b h = ground arith

  at_rate-add : (rate m n : ℤ) → at_rate rate (m +ℤ n) ≡ at_rate rate m +ℤ at_rate rate n
  at_rate-add rate m n = elim (Bool-cases (p rate)) [ inl e ↦ rw e | inr e ↦ rw e (omega int_laws) ]

  bucket_sum-add :
      (rate : ℤ) (a : Amounts) (bs : Buckets)
      → bucket_sum (add_to_bucket rate a bs) ≡ bucket_sum bs +ℤ at_rate rate (w a)
  unfolding add_to_bucket
  bucket_sum-add rate a [] = rw (+ℤ-zero (w a)) (omega int_laws)
  bucket_sum-add rate a ((key, bucket) ∷ rest) = elim (Bool-cases (eqb_ℤ key rate)) [
    | inl e ↦
        rw
          (
            e,
            eq_of_eqb_ℤ key rate e,
            sum_by-append_one bucket a,
            at_rate-add rate (sum_by w bucket) (w a),
          )
          (omega int_laws)
    | inr e ↦ rw (e, bucket_sum-add rate a rest) (omega int_laws)
  ]

  bucket_sum-insert :
      (b : ℤ × List Amounts) (bs : Buckets) → bucket_sum (insert_band b bs) ≡ bucket_sum (b ∷ bs)
  unfolding insert_band
  bucket_sum-insert b [] = refl
  bucket_sum-insert b (c ∷ rest) = elim (Bool-cases (ltb_ℤ c.0 b.0)) [
    | inl e ↦ rw (e, bucket_sum-insert b rest) (omega int_laws)
    | inr e ↦ rw e
  ]

  pub bucket_sum-sort : (bs : Buckets) → bucket_sum (sort_bands bs) ≡ bucket_sum bs
  unfolding sort_bands
  bucket_sum-sort [] = refl
  bucket_sum-sort (b ∷ bs) = rw (bucket_sum-insert b (sort_bands bs), bucket_sum-sort bs)

  module _ ⦃f : Float64⦄ where
    pub bucket_sum-loop :
        (bs : Buckets) (lines : List Line) {bs' : Buckets} {priced : List Amounts}
        → buckets_loop bs lines ≡ ok bs'
        → traverse price_line lines ≡ ok priced
        → bucket_sum bs' ≡ bucket_sum bs +ℤ line_sum lines priced
    unfolding buckets_loop
    bucket_sum-loop bs [] h t = rw (← ok-injective h) (omega int_laws)
    bucket_sum-loop bs (line ∷ lines) h t =
        let (a, rest, ea, et, same) = traverse-cons-eq-ok price_line line lines t in
        let (a', ea', h') = >>=-eq-ok (price_line line) _ h in
        let e : a' ≡ a = cc in
        rw
          (
            same,
            bucket_sum-loop (add_to_bucket (rate_of line.tax_basis_points) a' bs) lines h' et,
            bucket_sum-add (rate_of line.tax_basis_points) a' bs,
            e,
          )
          (omega int_laws)
