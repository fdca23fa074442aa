-- ===== src/Pricing/Cart/Acceptance.antt =====
-- Which carts are priced at all.
use achichiz_back_end.Prelude.{
  ◌>>=◌, Bool, Bool-cases, List, Option, Result, [], arith, err, inl, inr, leb, le→leb, ltb, ltb→lt,
  map, ok, refl, sum_by, true, ℕ, ◌-◌, ◌<◌, ◌∷◌, ◌≡◌, ◌≤◌,
}
use achichiz_back_end.Money.{assert_paise, max_safe_integer, sum}
use achichiz_back_end.Money.Allocate.Total.{allocate-sum, length-pos}
use achichiz_back_end.Pricing.{PricedLineInput, PricingInput, line_value}
use achichiz_back_end.Pricing.Tax.{split_inclusive_tax}
use achichiz_back_end.Pricing.Coupon.{CouponEvaluation}
use achichiz_back_end.Pricing.Coupon.Cover.{Covers, line_weight}
use achichiz_back_end.Pricing.Cart.{
  PriceBreakdown, allocations, check_lines, discount_of, eligible_ids_of, evaluate_input,
  line_weights, price_cart, price_line, price_lines,
}
use achichiz_back_end.Pricing.Cart.Allocation.{evaluate_input-Covers, line_weights-sum}
use achichiz_back_end.Pricing.Cart.Invariants.{check_lines-positive}

-- The computation returns a result.
abbrev Returns {ℓ κ} : {E : Type ℓ} {A : Type κ} → Result E A → Type (ℓ ⊔ κ)
Returns {A = A} m = (a : A) × (m ≡ ok a)

bind-Returns {ℓ κ ι} :
    {E : Type ℓ} {A : Type κ} {B : Type ι} (m : Result E A) (f : A → Result E B)
    → Returns m
    → ((a : A) → m ≡ ok a → Returns (f a))
    → Returns (m >>= f)
bind-Returns (ok a) f h k = k a refl
bind-Returns (err _) f (a, e) k = cc

sum_by-line_weight-le :
    (ids : List ℕ) (lines : List PricedLineInput)
    → sum_by (line_weight ids) lines ≤ sum_by line_value lines
sum_by-line_weight-le ids [] = omega arith
sum_by-line_weight-le ids (l ∷ ls) = ground (arith, sum_by-line_weight-le ids ls)

allocations-Returns :
    (evaluation : Option CouponEvaluation) (lines : List PricedLineInput)
    → Covers (eligible_ids_of evaluation) lines (discount_of evaluation)
    → sum_by line_value lines ≤ max_safe_integer
    → Returns (allocations evaluation lines)
unfolding allocations
allocations-Returns evaluation lines covered small =
    let discount = discount_of evaluation in
    let ids = eligible_ids_of evaluation in
    let weights = line_weights ids lines in
    elim (Bool-cases (ltb 0 discount)) [
      | inl some_discount ↦
          let below = sum_by-line_weight-le ids lines in
          let positive : 0 < sum weights =
            omega (arith, line_weights-sum ids lines, ltb→lt 0 discount some_discount) in
          let (out, e, _, _) =
            allocate-sum discount weights (omega arith) (length-pos weights positive) in
          (out, rw (some_discount, e) refl)
      | inr nothing ↦ (map (λ _. 0) lines, rw nothing refl)
    ]

price_line-Returns :
    (is_interstate : Bool) (l : PricedLineInput) (alloc : ℕ)
    → line_value l ≤ max_safe_integer
    → Returns (price_line is_interstate l alloc)
unfolding price_line split_inclusive_tax assert_paise
price_line-Returns is_interstate l alloc h =
    let safe : leb (line_value l - alloc) max_safe_integer ≡ true = le→leb _ _ (omega arith) in
    bind-Returns
      (split_inclusive_tax (line_value l - alloc) l.gst_rate_bp l.cess_rate_bp is_interstate) _
      (rw safe (_, refl)) (λ tax e. (_, refl))

price_lines-Returns :
    (is_interstate : Bool) (lines : List PricedLineInput) (allocated : List ℕ)
    → sum_by line_value lines ≤ max_safe_integer
    → Returns (price_lines is_interstate lines allocated)
unfolding price_lines
price_lines-Returns is_interstate [] allocated h = ([], refl)
price_lines-Returns is_interstate (l ∷ ls) [] h =
    bind-Returns (price_line is_interstate l 0) _
      (price_line-Returns is_interstate l 0 (omega arith))
      (λ first e.
        bind-Returns (price_lines is_interstate ls []) _
          (price_lines-Returns is_interstate ls [] (omega arith)) (λ rest d. (_, refl)))
price_lines-Returns is_interstate (l ∷ ls) (a ∷ as') h =
    bind-Returns (price_line is_interstate l a) _
      (price_line-Returns is_interstate l a (omega arith))
      (λ first e.
        bind-Returns (price_lines is_interstate ls as') _
          (price_lines-Returns is_interstate ls as' (omega arith)) (λ rest d. (_, refl)))

-- A cart whose lines pass the checks, worth at most 2^53 - 1 paise in all, is priced whenever its
-- coupon is accepted or it has none.
pub price_cart-accepted :
    (input : PricingInput) {evaluation : Option CouponEvaluation}
    → check_lines input.lines ≡ ok tt
    → sum_by line_value input.lines ≤ max_safe_integer
    → evaluate_input input.coupon input.lines
        (sum_by line_value input.lines)
        input.customer_order_count
      ≡ ok evaluation
    → (b : PriceBreakdown) × (price_cart input ≡ ok b)
unfolding price_cart
price_cart-accepted input {evaluation} checked small evaluated =
    let covered =
      evaluate_input-Covers input.coupon input.lines _ input.customer_order_count
        (check_lines-positive input.lines checked) evaluated in
    let allocated = allocations-Returns evaluation input.lines covered small in
    rw (checked, evaluated)
      (bind-Returns (allocations evaluation input.lines) _ allocated (λ out e.
        bind-Returns (price_lines input.is_interstate input.lines out) _
          (price_lines-Returns input.is_interstate input.lines out small) (λ priced d. (_, refl))))
