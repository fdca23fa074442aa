-- ===== src/Money/Allocate/Total.antt =====
-- The parts of `allocate` sum to the whole.
use native.Mathlib.Nat.{div-add-mod, le_of_mul-le-mul_right}
use achichiz_back_end.Prelude.{
  All, All-map, Bool-cases, List, [], arith, inl, inr, length, length-map, length-replicate, map,
  ok, ok-injective, refl, replicate, suc, sum_by, sym, zero, ℕ, ◌*◌, ◌+◌, ◌-◌, ◌/◌, ◌<◌, ◌==◌, ◌∙◌,
  ◌∷◌, ◌≡◌, ◌≤◌,
}
use achichiz_back_end.Prelude.Sorting.{sort, sort-All, sort-length}
use achichiz_back_end.Money.{max_safe_integer, sum}
use achichiz_back_end.Money.Allocate.{
  Entry, allocate, allocate_evenly, allocate_weighted, by_frac, entries, floor_share,
}
use achichiz_back_end.Money.Allocate.Handing.{hand_out-sum, spread-sum}

-- The floors and the fractional parts make up the exact quotients.
pub floors_and_fracs :
    (total weight_total i : ℕ) (weights : List ℕ)
    → weight_total * sum (map (floor_share total weight_total) weights)
        + sum_by (λ e. e.frac) (entries total weight_total i weights)
      ≡ total * sum weights
unfolding sum floor_share entries
floors_and_fracs total weight_total i [] = omega arith
floors_and_fracs total weight_total i (w ∷ ws) =
    omega
      (arith, div-add-mod (total * w) weight_total, floors_and_fracs total weight_total (i + 1) ws)

pub floors-le :
    (total : ℕ) (weights : List ℕ)
    → 0 < sum weights
    → sum (map (floor_share total (sum weights)) weights) ≤ total
floors-le total weights h =
    let weight_total = sum weights in
    let floors = sum (map (floor_share total weight_total) weights) in
    let small : floors * weight_total ≤ total * weight_total =
      omega (arith, floors_and_fracs total weight_total 0 weights) in
    le_of_mul-le-mul_right small h

pub entries-All :
    (total weight_total i n : ℕ) (weights : List ℕ)
    → i + length weights ≤ n
    → All (λ e. e.i < n) (entries total weight_total i weights)
unfolding entries
entries-All total weight_total i n [] h = tt
entries-All total weight_total i n (w ∷ ws) h =
    (omega arith, entries-All total weight_total (i + 1) n ws (omega arith))

pub entries-length :
    (total weight_total i : ℕ) (weights : List ℕ)
    → length (entries total weight_total i weights) ≡ length weights
unfolding entries
entries-length total weight_total i [] = refl
entries-length total weight_total i (w ∷ ws) =
    omega (arith, entries-length total weight_total (i + 1) ws)

abbrev SumsTo : ℕ → List ℕ → List ℕ → Type 0
SumsTo total weights out = (sum out ≡ total) × (length out ≡ length weights)

pub length-pos : (weights : List ℕ) → 0 < sum weights → 0 < length weights
unfolding sum
length-pos [] h = h
length-pos (w ∷ ws) h = omega arith

allocate_weighted-sum :
    (total : ℕ) (weights : List ℕ)
    → 0 < sum weights
    → SumsTo total weights (allocate_weighted total weights)
unfolding allocate_weighted
allocate_weighted-sum total weights h =
    let weight_total = sum weights in
    let floors = map (floor_share total weight_total) weights in
    let es = sort by_frac (entries total weight_total 0 weights) in
    let order = map (λ (e : Entry). e.i) es in
    let count : length floors ≡ length weights =
      length-map weights (floor_share total weight_total) in
    let sizes : length order ≡ length weights = omega (
      arith,
      length-map es (λ (e : Entry). e.i),
      sort-length by_frac (entries total weight_total 0 weights),
      entries-length total weight_total 0 weights,
    ) in
    let inside : All (λ i. i < length floors) order =
      All-map (λ i. i < length floors) (λ (e : Entry). e.i) es
        (sort-All by_frac (λ (e : Entry). e.i < length floors)
          (entries total weight_total 0 weights)
          (entries-All total weight_total 0 (length floors) weights (omega arith))) in
    let start : 0 < length order = omega (arith, length-pos weights h) in
    omega (
      arith,
      hand_out-sum order 0 (total - sum floors) floors inside start,
      floors-le total weights h,
    )

sum-replicate : (n base : ℕ) → sum (replicate n base) ≡ base * n
unfolding sum
sum-replicate zero base = omega arith
sum-replicate (suc n) base = omega (arith, sum-replicate n base)

allocate_evenly-sum :
    (total : ℕ) (weights : List ℕ)
    → 0 < length weights
    → SumsTo total weights (allocate_evenly total (length weights))
unfolding allocate_evenly
allocate_evenly-sum total weights h =
    let n = length weights in
    let base = total / n in
    omega (
      arith,
      length-replicate n base,
      sum-replicate n base,
      div-add-mod total n,
      spread-sum 0 (total - base * n) (replicate n base) (omega (arith, length-replicate n base)),
    )

-- A whole that is a safe integer is shared out over at least one weight without an error, and the
-- parts, one for each weight, sum exactly to the whole.
pub allocate-sum :
    (total : ℕ) (weights : List ℕ)
    → total ≤ max_safe_integer
    → 0 < length weights
    → (out : List ℕ) × (allocate total weights ≡ ok out)
      × (sum out ≡ total)
      × (length out ≡ length weights)
unfolding allocate
allocate-sum total weights small some_weight = elim (Bool-cases (sum weights == 0)) [
  | inl e ↦
      let (s, l) = allocate_evenly-sum total weights some_weight in
      (allocate_evenly total (length weights), ground arith, s, l)
  | inr e ↦
      let (s, l) = allocate_weighted-sum total weights (ground arith) in
      (allocate_weighted total weights, ground arith, s, l)
]

allocate-safe :
    (total : ℕ) (weights : List ℕ) {out : List ℕ}
    → allocate total weights ≡ ok out
    → total ≤ max_safe_integer
unfolding allocate
allocate-safe total weights e = ground arith

-- The same of a result that is at hand.
pub allocate-sum_of_ok :
    (total : ℕ) (weights out : List ℕ)
    → 0 < length weights
    → allocate total weights ≡ ok out
    → (sum out ≡ total) × (length out ≡ length weights)
allocate-sum_of_ok total weights out some_weight e =
    let (found, same, s, l) =
      allocate-sum total weights (allocate-safe total weights e) some_weight in
    let here : found ≡ out = ok-injective (sym same ∙ e) in rw (← here) (s, l)
