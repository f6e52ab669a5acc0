-- ===== src/Till/Allocate/Sum.antt =====
-- packages/mock/src/store.ts, `allocate`: the shares add up to what is split.
use native.Mathlib.Decide.{dec_lt}
use twenty_four.Prelude.{
  ℕ, zero, suc, ◌+◌, ◌-◌, ◌*◌, ◌/◌, ◌≤◌, ◌<◌, ◌≡◌, refl, ap, ◌∙◌, ◌⊎◌, inl, inr, Bool, true, false,
  not, ◌||◌, List, [], ◌∷◌, map, arith, ltb, if◌then◌else◌, Bool-cases, length,
}
use twenty_four.Prelude.Int.{ℤ, pos, ◌+ℤ◌, ◌-ℤ◌, ◌*ℤ◌, ltb_ℤ, +ℤ_pos, *ℤ_pos, -ℤ_pos}
use twenty_four.Prelude.Number.{Float64}
use twenty_four.Prelude.FloatSum.{float_sum_by, sum_by}
use twenty_four.Till.Allocate.{
  min_ℤ, itself, largest_from, largest, add_at, running, shares_of, allocate, topped_up, split,
}

abbrev pub sum : List ℕ → ℕ
sum [] = 0
sum (x ∷ xs) = x + sum xs

abbrev pub least : ℕ → ℕ → ℕ
least a b = if ltb b a then b else a

-- The shares before the remainder.
abbrev floors : ℕ → ℕ → List ℕ → List ℕ
floors c t = map λ w. c * w / t

floors_below : (c t : ℕ) (ws : List ℕ) → 0 < t → sum (floors c t ws) * t ≤ c * sum ws
floors_below c t [] h = omega arith
floors_below c t (w ∷ ws) h = grind (arith, floors_below c t ws h)

floors_fit : (c t : ℕ) (ws : List ℕ) → 0 < t → sum ws ≡ t → sum (floors c t ws) ≤ c
floors_fit c t ws h e = grind (arith, floors_below c t ws h, e)

largest_from-lt :
    (best : ℕ) (weight : ℤ) (seen : ℕ) (ws : List ℤ)
    → best < seen
    → largest_from best weight seen ws < seen + length ws
unfolding largest_from
largest_from-lt best weight seen [] h = omega (arith, h)
largest_from-lt best weight seen (w ∷ ws) h = elim (Bool-cases (ltb_ℤ weight w)) [
  | inl more ↦ rw more (omega (arith, largest_from-lt seen w (suc seen) ws (omega arith)))
  | inr less ↦ rw less (omega (arith, largest_from-lt best weight (suc seen) ws (omega (arith, h))))
]

largest-lt : (w : ℤ) (ws : List ℤ) → largest (w ∷ ws) < length (w ∷ ws)
unfolding largest
largest-lt w ws = omega (arith, largest_from-lt 0 w 1 ws (omega arith))

length-map : (f : ℕ → ℕ) (ws : List ℕ) → length (map f ws) ≡ length ws
length-map f [] = refl
length-map f (w ∷ ws) = omega (arith, length-map f ws)

plus_zero : (n : ℕ) → n + 0 ≡ n
plus_zero n = omega arith

ltb_ℤ-pos : (n : ℕ) → 0 < n → ltb_ℤ (pos 0) (pos n) ≡ true
ltb_ℤ-pos n h = ground (arith, h)

min_ℤ-pos : (a b : ℕ) → min_ℤ (pos a) (pos b) ≡ pos (least a b)
min_ℤ-pos a b = ground arith

||-true : (b : Bool) → (b || true) ≡ true
||-true true = refl
||-true false = refl

length-map_pos : (ws : List ℕ) → length (map pos ws) ≡ length ws
length-map_pos [] = refl
length-map_pos (w ∷ ws) = omega (arith, length-map_pos ws)

sum_by-map_pos : (xs : List ℕ) → sum_by itself (map pos xs) ≡ pos (sum xs)
sum_by-map_pos [] = refl
sum_by-map_pos (x ∷ xs) = rw (sum_by-map_pos xs) (+ℤ_pos x (sum xs))

sum_by-zeros : (ws : List ℕ) → sum_by itself (map (λ _. pos 0) (map pos ws)) ≡ pos 0
sum_by-zeros [] = refl
sum_by-zeros (w ∷ ws) = rw (sum_by-zeros ws) (+ℤ_pos 0 0)

module _ ⦃f : Float64⦄ where
  open f use {round, round_exact, floor_div, floor_div_exact}

  running_from :
      (t : ℕ) (ws : List ℕ)
      → t + sum ws ≤ 9_007_199_254_740_992
      → float_sum_by itself (pos t) (map pos ws) ≡ pos (t + sum ws)
  running_from t [] h = ap pos (omega arith)
  running_from t (w ∷ ws) h =
      let here : round (pos t +ℤ pos w) ≡ pos (t + w) =
        ap round (+ℤ_pos t w) ∙ round_exact (pos (t + w)) (omega (arith, h)) in
      ap (λ z. float_sum_by itself z (map pos ws)) here
      ∙ running_from (t + w) ws (omega (arith, h))
      ∙ ap pos (omega arith)

  running-exact :
      (ws : List ℕ) → sum ws ≤ 9_007_199_254_740_992 → running (map pos ws) ≡ pos (sum ws)
  running-exact ws h = running_from 0 ws (omega (arith, h)) ∙ ap pos (omega arith)

  shares_of-exact :
      (c t : ℕ) (ws : List ℕ)
      → 0 < t
      → c * sum ws ≤ 9_007_199_254_740_992
      → shares_of (pos c) (pos t) (map pos ws) ≡ map pos (floors c t ws)
  unfolding shares_of
  shares_of-exact c t [] h small = refl
  shares_of-exact c t (w ∷ ws) h small =
      let here : floor_div (round (pos c *ℤ pos w)) (pos t) ≡ pos (c * w / t) =
        ap (λ x. floor_div x (pos t))
          (ap round (*ℤ_pos c w) ∙ round_exact (pos (c * w)) (grind (arith, small)))
        ∙ floor_div_exact (c * w) t (grind (arith, small)) h in
      rw (here, shares_of-exact c t ws h (grind (arith, small))) refl

  sum_by-add_at :
      (k r : ℕ) (xs : List ℕ)
      → k < length xs
      → sum xs + r ≤ 9_007_199_254_740_992
      → sum_by itself (add_at (λ x. round (x +ℤ pos r)) k (map pos xs)) ≡ pos (sum xs + r)
  unfolding add_at
  sum_by-add_at k r [] low small = absurd (omega (arith, low))
  sum_by-add_at zero r (x ∷ xs) low small =
      let here : round (pos x +ℤ pos r) ≡ pos (x + r) =
        ap round (+ℤ_pos x r) ∙ round_exact (pos (x + r)) (omega (arith, small)) in
      rw (here, sum_by-map_pos xs, +ℤ_pos (x + r) (sum xs)) (ap pos (omega arith))
  sum_by-add_at (suc k) r (x ∷ xs) low small =
      rw (sum_by-add_at k r xs (omega (arith, low)) (omega (arith, small)), +ℤ_pos x (sum xs + r))
        (ap pos (omega arith))

  topped_up-sum :
      (w : ℕ) (ws xs : List ℕ) (c : ℕ)
      → length xs ≡ length (w ∷ ws)
      → sum xs ≤ c
      → c ≤ 9_007_199_254_740_992
      → sum_by itself (topped_up (map pos (w ∷ ws)) (map pos xs) (pos c)) ≡ pos c
  unfolding topped_up
  topped_up-sum w ws xs c same low high =
      let left : round (pos c -ℤ running (map pos xs)) ≡ pos (c - sum xs) =
        ap (λ x. round (pos c -ℤ x)) (running-exact xs (omega (arith, low, high)))
        ∙ ap round (-ℤ_pos c (sum xs) low)
        ∙ round_exact (pos (c - sum xs)) (omega (arith, high)) in
      let inside : largest (map pos (w ∷ ws)) < length xs =
        omega (arith, largest-lt (pos w) (map pos ws), length-map_pos ws, same) in
      elim (Bool-cases (ltb 0 (c - sum xs))) [
        | inl some_left ↦
            rw (left, plus_zero 0, plus_zero (c - sum xs), some_left)
              (sum_by-add_at (largest (map pos (w ∷ ws))) (c - sum xs) xs inside
                  (omega (arith, low, high))
                ∙ ap pos (omega (arith, low)))
        | inr none_left ↦
            rw (left, plus_zero 0, plus_zero (c - sum xs), none_left)
              (sum_by-map_pos xs ∙ ap pos (ground (arith, low, none_left)))
      ]

  split-sum :
      (w : ℕ) (ws : List ℕ) (n : ℕ)
      → 0 < sum (w ∷ ws)
      → 0 < n
      → least n (sum (w ∷ ws)) * sum (w ∷ ws) ≤ 9_007_199_254_740_992
      → sum_by itself (
          topped_up
            (map pos (w ∷ ws))
            (shares_of (pos (least n (sum (w ∷ ws)))) (pos (sum (w ∷ ws))) (map pos (w ∷ ws)))
            (pos (least n (sum (w ∷ ws)))))
        ≡ pos (least n (sum (w ∷ ws)))
  split-sum w ws n some_weight some_amount small =
      let c = least n (sum (w ∷ ws)) in
      let t = sum (w ∷ ws) in
      rw (shares_of-exact c t (w ∷ ws) some_weight small) (
        topped_up-sum w ws (floors c t (w ∷ ws)) c (length-map (λ x. c * x / t) (w ∷ ws))
          (floors_fit c t (w ∷ ws) some_weight refl) (grind (arith, some_weight, small)))

  split-eq :
      (ws : List ℤ) (t n : ℕ)
      → 0 < t
      → 0 < n
      → split ws (pos t) (pos n)
        ≡ topped_up ws (shares_of (pos (least n t)) (pos t) ws) (pos (least n t))
  unfolding split
  split-eq ws t n some_weight some_amount =
      rw (ltb_ℤ-pos t some_weight, ltb_ℤ-pos n some_amount, min_ℤ-pos n t) refl

  split-nil : (n : ℕ) → sum_by itself (split [] (running []) (pos n)) ≡ pos (least n 0)
  unfolding split
  split-nil n = ap pos (ground arith)

  split-zero :
      (ws : List ℤ) (t n : ℕ) → (t ≡ 0) ⊎ (n ≡ 0) → split ws (pos t) (pos n) ≡ map (λ _. pos 0) ws
  unfolding split
  split-zero ws t n (inl e) = rw e refl
  split-zero ws t n (inr e) = rw (e, ||-true (not (ltb_ℤ (pos 0) (pos t)))) refl

  -- An amount that is not negative, split in proportion to weights that are not negative: the shares
  -- add up to the amount, or to the sum of the weights where that is less, as long as that sum and its
  -- product with what is split are within 2^53.
  pub allocate-sum :
      (ws : List ℕ) (n : ℕ)
      → sum ws ≤ 9_007_199_254_740_992
      → least n (sum ws) * sum ws ≤ 9_007_199_254_740_992
      → sum_by itself (allocate (map pos ws) (pos n)) ≡ pos (least n (sum ws))
  unfolding allocate
  allocate-sum [] n low small = split-nil n
  allocate-sum (w ∷ ws) n low small =
      ap (λ t. sum_by itself (split (map pos (w ∷ ws)) t (pos n))) (running-exact (w ∷ ws) low)
      ∙ elim (dec_lt 0 (sum (w ∷ ws))) [
        | yes some_weight ↦ elim (dec_lt 0 n) [
          | yes some_amount ↦
              ap (sum_by itself)
                (split-eq (map pos (w ∷ ws)) (sum (w ∷ ws)) n some_weight some_amount)
              ∙ split-sum w ws n some_weight some_amount small
          | no nothing ↦
              ap (sum_by itself)
                (split-zero (map pos (w ∷ ws)) (sum (w ∷ ws)) n (inr (omega (arith, nothing))))
              ∙ sum_by-zeros (w ∷ ws)
              ∙ ap pos (ground (arith, nothing))
        ]
        | no weightless ↦
            ap (sum_by itself)
              (split-zero (map pos (w ∷ ws)) (sum (w ∷ ws)) n (inl (omega (arith, weightless))))
            ∙ sum_by-zeros (w ∷ ws)
            ∙ ap pos (ground (arith, weightless))
      ]
