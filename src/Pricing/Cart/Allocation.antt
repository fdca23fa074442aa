-- ===== src/Pricing/Cart/Allocation.antt =====
-- The discount of an order, line by line: what is allocated to a line never exceeds its value.
use achichiz_back_end.Prelude.{
  >>=-eq-ok, All, Bool-cases, List, Option, [], ap, arith, get_or, inl, inr, length, length-map,
  ltb, map, none, ok, ok-injective, refl, some, suc, sum_by, ℕ, ◌+◌, ◌<◌, ◌∙◌, ◌∷◌, ◌≡◌, ◌≤◌,
}
use achichiz_back_end.Money.{sum}
use achichiz_back_end.Money.Allocate.{allocate}
use achichiz_back_end.Pricing.{CouponRow, PricedLineInput, from_paise-eq-ok, line_value}
use achichiz_back_end.Pricing.Coupon.Cover.{Covers, line_weight}
use achichiz_back_end.Pricing.Cart.{
  allocations, discount_of, eligible_ids_of, evaluate_input, line_weights,
}
use achichiz_back_end.Money.Allocate.Total.{allocate-sum_of_ok, length-pos}
use achichiz_back_end.Money.Allocate.Share.{allocate-le-weight}
use achichiz_back_end.Pricing.Coupon.{CouponEvaluation, evaluate_coupon}
use achichiz_back_end.Pricing.Coupon.Bounds.{evaluate_coupon-IsBounded}

-- Each part is at most the value of its line, and there are no parts without lines.
abbrev pub FitsLines : List ℕ → List PricedLineInput → Type 0
FitsLines [] [] = Unit
FitsLines [] (l ∷ ls) = ⊥
FitsLines (a ∷ rest) [] = ⊥
FitsLines (a ∷ rest) (l ∷ ls) = (a ≤ line_value l) × FitsLines rest ls

FitsLines-of_le :
    (out : List ℕ) (lines : List PricedLineInput) (ids : List ℕ)
    → length out ≡ length lines
    → ((j : ℕ) → j < length lines → get_or out j 0 ≤ get_or (line_weights ids lines) j 0)
    → FitsLines out lines
unfolding line_weights
FitsLines-of_le [] [] ids e h = tt
FitsLines-of_le [] (l ∷ ls) ids e h = omega arith
FitsLines-of_le (a ∷ out) [] ids e h = omega arith
FitsLines-of_le (a ∷ out) (l ∷ ls) ids e h = (
  ground (arith, h 0),
  FitsLines-of_le out ls ids (omega arith) (λ j lt. h (suc j) (omega arith)),
)

pub line_weights-sum :
    (ids : List ℕ) (lines : List PricedLineInput)
    → sum (line_weights ids lines) ≡ sum_by (line_weight ids) lines
unfolding line_weights sum
line_weights-sum ids [] = refl
line_weights-sum ids (l ∷ ls) = ap (◌+◌ (line_weight ids l)) (line_weights-sum ids ls)

line_weights-length :
    (ids : List ℕ) (lines : List PricedLineInput) → length (line_weights ids lines) ≡ length lines
unfolding line_weights
line_weights-length ids lines = length-map lines _

zeros-FitsLines : (lines : List PricedLineInput) → FitsLines (map (λ _. 0) lines) lines
zeros-FitsLines [] = tt
zeros-FitsLines (l ∷ ls) = (omega arith, zeros-FitsLines ls)

zeros-sum : (lines : List PricedLineInput) → sum (map (λ _. 0) lines) ≡ 0
unfolding sum
zeros-sum [] = refl
zeros-sum (l ∷ ls) = omega (arith, zeros-sum ls)

abbrev pub IsAllocated : ℕ → List PricedLineInput → List ℕ → Type 0
IsAllocated discount lines out = (sum out ≡ discount) × FitsLines out lines

-- A discount that the weights cover is allocated in full, within the value of each line.
allocate-IsAllocated :
    (discount : ℕ) (ids : List ℕ) (lines : List PricedLineInput) {out : List ℕ}
    → 0 < discount
    → Covers ids lines discount
    → allocate discount (line_weights ids lines) ≡ ok out
    → IsAllocated discount lines out
allocate-IsAllocated discount ids lines {out} h covered e =
    let weights = line_weights ids lines in
    let value = line_weights-sum ids lines in
    let count : length weights ≡ length lines = line_weights-length ids lines in
    let positive : 0 < sum weights = omega arith in
    let (total, parts) = allocate-sum_of_ok discount weights out (length-pos weights positive) e in
    (
      total,
      FitsLines-of_le out lines ids (parts ∙ count) (λ j lt.
          allocate-le-weight discount weights out j positive (omega arith) (omega arith) e),
    )

-- Whatever coupon was evaluated, the discount is allocated in full, and within each line.
pub allocations-IsAllocated :
    (evaluation : Option CouponEvaluation) (lines : List PricedLineInput) {out : List ℕ}
    → Covers (eligible_ids_of evaluation) lines (discount_of evaluation)
    → allocations evaluation lines ≡ ok out
    → IsAllocated (discount_of evaluation) lines out
unfolding allocations
allocations-IsAllocated evaluation lines covered e =
    let discount = discount_of evaluation in
    elim (Bool-cases (ltb 0 discount)) [
      | inl some_discount ↦
          allocate-IsAllocated discount (eligible_ids_of evaluation) lines (ground arith) covered
            (from_paise-eq-ok _ (rw some_discount at e))
      | inr nothing ↦
          rw (← ok-injective (rw nothing at e))
            (ground (arith, zeros-sum lines), zeros-FitsLines lines)
    ]

-- An evaluation that `priceCart` makes names lines that cover its discount.
pub evaluate_input-Covers :
    (coupon : Option CouponRow) (lines : List PricedLineInput) (merchandise orders : ℕ)
    {evaluation : Option CouponEvaluation}
    → All (λ l. 0 < l.quantity) lines
    → evaluate_input coupon lines merchandise orders ≡ ok evaluation
    → Covers (eligible_ids_of evaluation) lines (discount_of evaluation)
unfolding evaluate_input
evaluate_input-Covers none lines merchandise orders q e = rw (← ok-injective e) (omega arith)
evaluate_input-Covers (some coupon) lines merchandise orders q e =
    let (ev, found, last) = >>=-eq-ok (evaluate_coupon coupon lines merchandise orders) _ e in
    rw (← ok-injective last) (evaluate_coupon-IsBounded coupon lines merchandise orders q found).1
