-- ===== src/Pricing/Coupon/Bounds.antt =====
-- What a coupon takes off is bounded: by the goods it applies to, by the lines that carry it, and
-- by its own cap.
use achichiz_back_end.Prelude.{
  >>=-eq-ok, All, Bool, Bool-cases, List, Option, Option-cases, arith, filter, find?, if◌then◌else◌,
  inl, inr, leb, length, ltb, map, min, none, not, ok, ok-injective, require, require-eq-ok, some,
  sum_by, ℕ, ◌&&◌, ◌+◌, ◌<◌, ◌==◌, ◌>>◌, ◌≡◌, ◌≤◌,
}
use achichiz_back_end.Pricing.{
  CouponRow, DiscountType, PricedLineInput, bogo, coupon_first_order_only, coupon_min_not_met,
  coupon_not_applicable, flat, free_gift, free_shipping, line_value, percent,
}
use achichiz_back_end.Pricing.Coupon.{
  CouponEvaluation, Discount, bogo_discount, capped, discount_for, evaluate_coupon, free_units,
  gift_discount, gift_line_discount, is_first_order, is_free_shipping, line_is_eligible,
  settle_coupon,
}
use achichiz_back_end.Pricing.Coupon.Cover.{
  Covers, eligible_ids-cover, free_units-cover, gift-cover,
}

capped-le : (coupon : CouponRow) (d : ℕ) → capped coupon d ≤ d
capped-le coupon d = ground arith

-- The cap of a coupon where it is set to more than 0, else `other`.
abbrev pub cap_or : CouponRow → ℕ → ℕ
cap_or coupon other = elim coupon.max_discount_paise [
  | none ↦ other
  | some cap_paise ↦ if ltb 0 cap_paise then cap_paise else other
]

abbrev pub WithinCap : CouponRow → ℕ → Type 0
WithinCap coupon amount = amount ≤ cap_or coupon amount

capped-WithinCap : (coupon : CouponRow) (d : ℕ) → WithinCap coupon (capped coupon d)
capped-WithinCap coupon d = ground arith

WithinCap-of_le : (coupon : CouponRow) (a b : ℕ) → a ≤ b → WithinCap coupon b → WithinCap coupon a
WithinCap-of_le coupon a b h cap = ground arith

-- A discount before the clamp: its lines cover it, up to the value of the eligible lines.
abbrev IsCarried : CouponRow → List PricedLineInput → ℕ → Discount → Type 0
IsCarried coupon lines eligible_value d =
    Covers d.line_ids lines (min d.amount eligible_value) × WithinCap coupon d.amount

module _ (coupon : CouponRow) (p : PricedLineInput → Bool) (lines : List PricedLineInput) where
  abbrev eligible : List PricedLineInput
  eligible = filter p lines

  abbrev ids : List ℕ
  ids = map (λ (l : PricedLineInput). l.line_id) eligible

  capped-IsCarried :
      (amount : ℕ)
      → IsCarried coupon lines
          (sum_by line_value eligible)
          (record { amount = capped coupon amount; line_ids = ids })
  capped-IsCarried amount =
      (omega (arith, eligible_ids-cover p lines), capped-WithinCap coupon amount)

  bogo-IsCarried :
      {d : Discount}
      → bogo_discount coupon eligible ids ≡ ok d
      → IsCarried coupon lines (sum_by line_value eligible) d
  unfolding bogo_discount
  bogo-IsCarried {d} e =
      let free = free_units coupon eligible in
      let amount = capped coupon (sum_by (λ u. u.price) free) in
      let same : d.amount ≡ amount = ground arith in
      (
        ground (arith, eligible_ids-cover p lines, free_units-cover coupon p lines),
        rw same (capped-WithinCap coupon (sum_by (λ u. u.price) free)),
      )

  gift-IsCarried :
      (variant : Option ℕ) {d : Discount}
      → All (λ l. 0 < l.quantity) lines
      → gift_discount variant coupon lines eligible ids ≡ ok d
      → IsCarried coupon lines (sum_by line_value eligible) d
  unfolding gift_discount
  gift-IsCarried none q e = rw (← ok-injective e) (capped-IsCarried _)
  gift-IsCarried (some variant) q e =
      elim (Option-cases (find? (λ (l : PricedLineInput). l.variant_id == variant) lines)) [
        | inl missing ↦ cc (rw (missing, gift_line_discount) at e)
        | inr (gift, found) ↦
            let price = gift.unit_price_paise + gift.add_ons_paise in
            rw (← ok-injective (rw (found, gift_line_discount) at e)) (
              omega (arith, capped-le coupon price, gift-cover _ lines gift q found),
              capped-WithinCap coupon price,
            )
      ]

  discount_for-IsCarried :
      (type : DiscountType) {d : Discount}
      → All (λ l. 0 < l.quantity) lines
      → discount_for type coupon lines eligible ids ≡ ok d
      → IsCarried coupon lines (sum_by line_value eligible) d
  unfolding discount_for
  discount_for-IsCarried percent q e = rw (← ok-injective e) (capped-IsCarried _)
  discount_for-IsCarried flat q e = rw (← ok-injective e) (capped-IsCarried _)
  discount_for-IsCarried bogo q e = bogo-IsCarried e
  discount_for-IsCarried free_gift q e = gift-IsCarried coupon.free_gift_variant_id q e
  discount_for-IsCarried free_shipping q e = rw (← ok-injective e) (omega arith, omega arith)

-- The three bounds on an evaluation.
abbrev pub IsBounded : CouponRow → List PricedLineInput → CouponEvaluation → Type 0
IsBounded coupon lines ev =
    (ev.discount_paise ≤ sum_by line_value (filter (line_is_eligible coupon) lines))
    × Covers ev.eligible_line_ids lines ev.discount_paise
    × WithinCap coupon ev.discount_paise

settle_coupon-IsBounded :
    (coupon : CouponRow) (lines : List PricedLineInput) {ev : CouponEvaluation}
    → All (λ l. 0 < l.quantity) lines
    → settle_coupon coupon lines (filter (line_is_eligible coupon) lines) ≡ ok ev
    → IsBounded coupon lines ev
unfolding settle_coupon
settle_coupon-IsBounded coupon lines q e =
    let p = line_is_eligible coupon in
    elim (Bool-cases (is_free_shipping coupon.discount_type)) [
      | inl free ↦ rw (← ok-injective (rw free at e)) (omega arith, omega arith, omega arith)
      | inr paid ↦
          let (d, found, last) =
            >>=-eq-ok
              (discount_for coupon.discount_type coupon lines (eligible coupon p lines)
                (ids coupon p lines))
              _ (rw paid at e) in
          let (carried, cap) = discount_for-IsCarried coupon p lines coupon.discount_type q found in
          rw (← ok-injective last)
            (omega arith, carried, WithinCap-of_le coupon _ _ (omega arith) cap)
    ]

-- An evaluated coupon takes off no more than the value of the goods that it applies to, nor than
-- the value of the lines that it names, nor than its cap where that is above 0. This wants at least
-- one unit on every line.
pub evaluate_coupon-IsBounded :
    (coupon : CouponRow) (lines : List PricedLineInput) (merchandise orders : ℕ)
    {ev : CouponEvaluation}
    → All (λ l. 0 < l.quantity) lines
    → evaluate_coupon coupon lines merchandise orders ≡ ok ev
    → IsBounded coupon lines ev
unfolding evaluate_coupon
evaluate_coupon-IsBounded coupon lines merchandise orders q e =
    let some_eligible = ltb 0 (length (filter (line_is_eligible coupon) lines)) in
    let settled = settle_coupon coupon lines (filter (line_is_eligible coupon) lines) in
    let sellable = require some_eligible coupon_not_applicable >> settled in
    let few = coupon_min_not_met coupon.min_order_paise merchandise in
    let (_, e₁) =
      require-eq-ok (not (is_first_order coupon.applies_to && ltb 0 orders)) coupon_first_order_only
        (require (leb coupon.min_order_paise merchandise) few >> sellable) e in
    let (_, e₂) = require-eq-ok (leb coupon.min_order_paise merchandise) few sellable e₁ in
    let (_, e₃) = require-eq-ok some_eligible coupon_not_applicable settled e₂ in
    settle_coupon-IsBounded coupon lines q e₃
