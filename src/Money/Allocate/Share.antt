-- ===== src/Money/Allocate/Share.antt =====
-- Each part of `allocate` is its exact quotient, rounded one way or the other.
use native.Mathlib.Nat.{
  div-add-mod, mod-lt, mod-eq_of_lt, le_of_mul-le-mul_right, lt_of_mul-lt-mul_right, mul-le-mul,
  le_refl,
}
use achichiz_back_end.Prelude.{
  All, All-both, All-take, Distinct, Distinct-take, List, [], ap, arith, drop, drop-eq-cons, get_or,
  get_or-map, get_or-set_ne, get_or-set_self, inl, inr, length, length-map, map, ok, refl, suc,
  sum_by, sym, take, take-map, zero, ℕ, ℕ_discrete, ◌%◌, ◌*◌, ◌+◌, ◌-◌, ◌/◌, ◌<◌, ◌∙◌, ◌∷◌, ◌≡◌,
  ◌≢◌, ◌≤◌, ◌⊎◌,
}
use achichiz_back_end.Prelude.Sorting.{sort, sort-All, sort-Distinct, sort-sum}
use achichiz_back_end.Money.{sum}
use achichiz_back_end.Money.Allocate.{
  Entry, allocate, allocate_weighted, bump, by_frac, entries, floor_share, hand_out,
}
use achichiz_back_end.Money.Allocate.Handing.{bump-length}
use achichiz_back_end.Money.Allocate.Total.{floors-le, floors_and_fracs}
use achichiz_back_end.Money.Allocate.Order.{
  entries-Distinct, entries-IsSorted, entries-frac, entries-small, first-positive, sum_frac-le,
}

-- The loop without its index: one paisa for each place of a list.
bump_all : List ℕ → List ℕ → List ℕ
bump_all [] out = out
bump_all (i ∷ is) out = bump_all is (bump out i)

-- While the index does not wrap, the loop walks down the order.
hand_out-eq-bump_all :
    (order : List ℕ) (k remainder : ℕ) (out : List ℕ)
    → k + remainder ≤ length order
    → hand_out order k remainder out ≡ bump_all (take remainder (drop k order)) out
unfolding hand_out bump_all
hand_out-eq-bump_all order k zero out h = refl
hand_out-eq-bump_all order k (suc zero) out h = rw (drop-eq-cons 0 order k (omega arith)) refl
hand_out-eq-bump_all order k (suc (suc r)) out h =
    let next : (k + 1) % length order ≡ suc k = mod-eq_of_lt (omega arith) ∙ omega arith in
    rw (drop-eq-cons 0 order k (omega arith)) (
      rw next
        (hand_out-eq-bump_all order (suc k) (suc r) (bump out (get_or order k 0)) (omega arith)))

bump-ne : (out : List ℕ) (i j : ℕ) → i ≢ j → get_or (bump out i) j 0 ≡ get_or out j 0
unfolding bump
bump-ne out i j h = get_or-set_ne 0 out i j (get_or out i 0 + 1) h

bump_self : (out : List ℕ) (i : ℕ) → i < length out → get_or (bump out i) i 0 ≡ get_or out i 0 + 1
unfolding bump
bump_self out i h = get_or-set_self 0 out i (get_or out i 0 + 1) h

bump_all-ne :
    (es : List Entry) (out : List ℕ) (j : ℕ)
    → All (λ e. j ≢ e.i) es
    → get_or (bump_all (map (λ e. e.i) es) out) j 0 ≡ get_or out j 0
unfolding bump_all
bump_all-ne [] out j h = refl
bump_all-ne (e ∷ es) out j (h, hs) =
    bump_all-ne es (bump out e.i) j hs ∙ bump-ne out e.i j (λ p. h (sym p))

-- What the loop does to one place: nothing, or one paisa where the fraction is not zero.
abbrev IsRounded : ℕ → ℕ → ℕ → Type 0
IsRounded frac before after = (after ≡ before) ⊎ ((after ≡ before + 1) × (0 < frac))

bump_all-IsRounded :
    (frac : ℕ → ℕ) (es : List Entry) (out : List ℕ) (j : ℕ)
    → Distinct (λ e. e.i) es
    → All (λ e. 0 < frac e.i) es
    → j < length out
    → IsRounded (frac j) (get_or out j 0) (get_or (bump_all (map (λ e. e.i) es) out) j 0)
unfolding bump_all
bump_all-IsRounded frac [] out j d p h = inl refl
bump_all-IsRounded frac (e ∷ es) out j (d, ds) (p, ps) h = elim (ℕ_discrete e.i j) [
  | yes same ↦
      let later = bump_all-ne es (bump out e.i) j (rw (← same) d) in
      let now : get_or (bump out e.i) j 0 ≡ get_or out j 0 + 1 = rw same (bump_self out j h) in
      inr (later ∙ now, rw same at p)
  | no other ↦
      let rest = bump_all-IsRounded frac es (bump out e.i) j ds ps (rw (bump-length out e.i) h) in
      rw (bump-ne out e.i j other) at rest
]

-- The fractional parts sum to as many wholes as the floors leave over.
fracs-eq-left :
    (total : ℕ) (weights : List ℕ)
    → 0 < sum weights
    → sum_by (λ e. e.frac) (sort by_frac (entries total (sum weights) 0 weights))
      ≡ (total - sum (map (floor_share total (sum weights)) weights)) * sum weights
fracs-eq-left total weights h =
    let weight_total = sum weights in
    let floored = sum (map (floor_share total weight_total) weights) in
    let raw = entries total weight_total 0 weights in
    let whole : total - floored + floored ≡ total = omega (arith, floors-le total weights h) in
    omega (
      arith,
      sort-sum by_frac (λ (e : Entry). e.frac) raw,
      floors_and_fracs total weight_total 0 weights,
      ap (λ (t : ℕ). t * weight_total) whole,
    )

-- Each place holds its floor, or one more where the quotient is not whole.
weighted-IsRounded :
    (total : ℕ) (weights : List ℕ) (j : ℕ)
    → 0 < sum weights
    → j < length weights
    → IsRounded
        (total * get_or weights j 0 % sum weights)
        (floor_share total (sum weights) (get_or weights j 0))
        (get_or (allocate_weighted total weights) j 0)
unfolding allocate_weighted
weighted-IsRounded total weights j h lt =
    let weight_total = sum weights in
    let floors = map (floor_share total weight_total) weights in
    let raw = entries total weight_total 0 weights in
    let es = sort by_frac raw in
    let order = map (λ (e : Entry). e.i) es in
    let left : ℕ = total - sum floors in
    let frac = λ (i : ℕ). total * get_or weights i 0 % weight_total in
    let small : All (λ e. e.frac < weight_total) es =
      sort-All by_frac (λ e. e.frac < weight_total) raw
        (entries-small total weight_total 0 weights h) in
    let fracs : sum_by (λ (e : Entry). e.frac) es ≡ left * weight_total =
      fracs-eq-left total weights h in
    let bounded : left * weight_total ≤ length es * weight_total =
      rw (← fracs) (sum_frac-le weight_total es small) in
    let few : left ≤ length es = le_of_mul-le-mul_right bounded h in
    let positive : All (λ e. 0 < frac e.i) (take left es) =
      All-both (λ e. e.frac ≡ frac e.i) (λ e. 0 < e.frac) (λ e. 0 < frac e.i) (take left es)
        (λ e same pos. rw (← same) pos)
        (All-take _ left es (sort-All by_frac _ raw (entries-frac total weight_total weights)))
        (first-positive weight_total left es (entries-IsSorted raw) small (omega (arith, fracs))) in
    let placed =
      bump_all-IsRounded frac (take left es) floors j
        (Distinct-take (λ e. e.i) left es
          (sort-Distinct by_frac (λ e. e.i) raw (entries-Distinct total weight_total 0 weights)))
        positive (omega (arith, length-map weights (floor_share total weight_total))) in
    let walk =
      hand_out-eq-bump_all order 0 left floors
        (omega (arith, few, length-map es (λ (e : Entry). e.i))) in
    rw (walk, take-map (λ (e : Entry). e.i) left es)
      (rw (get_or-map (floor_share total weight_total) weights j 0 0 lt) at placed)

-- With weights that are not all zero, each part differs by less than one paisa from the exact
-- quotient of the whole, `total * w / weightTotal`.
pub allocate-share :
    (total : ℕ) (weights out : List ℕ) (j : ℕ)
    → 0 < sum weights
    → j < length weights
    → allocate total weights ≡ ok out
    → (get_or out j 0 * sum weights < total * get_or weights j 0 + sum weights)
      × (total * get_or weights j 0 < get_or out j 0 * sum weights + sum weights)
unfolding allocate floor_share
allocate-share total weights out j h lt e =
    let w = get_or weights j 0 in
    let same : allocate_weighted total weights ≡ out = ground arith in
    let rest : total * w % sum weights < sum weights = mod-lt (total * w) h in
    let exact = div-add-mod (total * w) (sum weights) in
    let rounded = rw same at (weighted-IsRounded total weights j h lt) in
    let scaled = λ (k : ℕ) (p : get_or out j 0 ≡ total * w / sum weights + k).
      ap (λ (t : ℕ). t * sum weights) p in
    elim rounded [
      | inl p ↦ omega (arith, exact, scaled 0 (omega arith))
      | inr (p, pos) ↦ omega (arith, exact, scaled 1 (omega arith))
    ]

-- If the weights sum to the whole or more, no part exceeds its weight; a weight of zero gets none.
pub allocate-le-weight :
    (total : ℕ) (weights out : List ℕ) (j : ℕ)
    → 0 < sum weights
    → total ≤ sum weights
    → j < length weights
    → allocate total weights ≡ ok out
    → get_or out j 0 ≤ get_or weights j 0
allocate-le-weight total weights out j h small lt e =
    let w = get_or weights j 0 in
    let near = (allocate-share total weights out j h lt e).0 in
    let capped : total * w ≤ sum weights * w = mul-le-mul small (le_refl w) in
    let below : get_or out j 0 * sum weights < (w + 1) * sum weights = omega arith in
    let strict : get_or out j 0 < w + 1 = lt_of_mul-lt-mul_right (sum weights) below in omega arith
