-- ===== src/Pricing/Coupon.antt =====
-- `evaluateCoupon`: what a coupon is worth on a cart, and the lines that it is allocated across.
pub mod Cover
pub mod Bounds
use achichiz_back_end.Prelude.{
  Bool, List, Option, Result, [], any, err, false, filter, find?, if◌then◌else◌, leb, length, ltb,
  map, max, min, none, not, ok, replicate, require, some, sum_by, take, true, ℕ, ◌&&◌, ◌*◌, ◌++◌,
  ◌+◌, ◌/◌, ◌==◌, ◌>>=◌, ◌>>◌, ◌∷◌,
}
use achichiz_back_end.Prelude.Sorting.{sort}
use achichiz_back_end.Money.{round_div}
use achichiz_back_end.Pricing.{
  AppliesTo, CouponRow, DiscountType, PricedLineInput, PricingError, all, bogo, collections,
  coupon_bogo_min_items, coupon_first_order_only, coupon_free_gift_required, coupon_min_not_met,
  coupon_not_applicable, first_order, flat, free_gift, free_shipping, includes, line_value, or_else,
  percent, products,
}

unfoldable pub line_is_eligible : CouponRow → PricedLineInput → Bool
unfolding includes
line_is_eligible coupon line =
    if includes coupon.excluded_product_ids line.product_id
    then false
    else if any (includes coupon.excluded_collection_ids) line.collection_ids
    then false
    else elim coupon.applies_to [
      | products ↦ includes coupon.scope_product_ids line.product_id
      | collections ↦ any (includes coupon.scope_collection_ids) line.collection_ids
      | all ↦ true
      | first_order ↦ true
    ]

pub record CouponEvaluation : Type 0 where
  pub discount_paise : ℕ
  pub free_shipping : Bool
  pub eligible_line_ids : List ℕ

-- A discount before the final clamp, with the lines that carry it.
pub record Discount : Type 0 where
  pub amount : ℕ
  pub line_ids : List ℕ

-- `maxDiscountPaise !== null && maxDiscountPaise > 0` caps the discount.
abbrev pub capped : CouponRow → ℕ → ℕ
capped coupon discount = elim coupon.max_discount_paise [
  | none ↦ discount
  | some cap_paise ↦ if ltb 0 cap_paise then min discount cap_paise else discount
]

-- One unit of an eligible line, for the cheapest-first order of a bogo.
pub record PricedUnit : Type 0 where
  pub line_id : ℕ
  pub price : ℕ

pub units_of : List PricedLineInput → List PricedUnit
units_of [] = []
units_of (l ∷ ls) =
    replicate l.quantity
      (record { line_id = l.line_id; price = l.unit_price_paise + l.add_ons_paise })
    ++ units_of ls

pub by_price : PricedUnit → PricedUnit → Bool
by_price a b = leb a.price b.price

-- `Array.from(new Set(ids))`: the first of each id.
pub distinct_ids : List ℕ → List ℕ
distinct_ids [] = []
distinct_ids (x ∷ xs) = x ∷ filter (λ y. not (y == x)) (distinct_ids xs)

abbrev pub set_size : CouponRow → ℕ
set_size coupon = max 1 (or_else coupon.bogo_buy_qty 1) + max 1 (or_else coupon.bogo_get_qty 1)

-- The units that a bogo gives away, the cheapest ones.
pub free_units : CouponRow → List PricedLineInput → List PricedUnit
unfolding sort units_of by_price
free_units coupon eligible =
    let sets = sum_by (λ l. l.quantity) eligible / set_size coupon in
    take (sets * max 1 (or_else coupon.bogo_get_qty 1)) (sort by_price (units_of eligible))

pub bogo_discount : CouponRow → List PricedLineInput → List ℕ → Result PricingError Discount
unfolding free_units distinct_ids
bogo_discount coupon eligible eligible_ids =
    if ltb (sum_by (λ l. l.quantity) eligible) (set_size coupon)
    then err (coupon_bogo_min_items (set_size coupon))
    else let free = free_units coupon eligible in
      let free_line_ids = distinct_ids (map (λ (u : PricedUnit). u.line_id) free) in
      ok (record {
        amount = capped coupon (sum_by (λ u. u.price) free);
        line_ids = if ltb 0 (length free_line_ids) then free_line_ids else eligible_ids;
      })

-- `eligible[0] ? eligible[0].unitPricePaise + eligible[0].addOnsPaise : 0`.
abbrev first_unit_price : List PricedLineInput → ℕ
first_unit_price [] = 0
first_unit_price (l ∷ _) = l.unit_price_paise + l.add_ons_paise

-- The line that the cart must hold, as `lines.find` gives it.
pub gift_line_discount : CouponRow → Option PricedLineInput → Result PricingError Discount
gift_line_discount coupon none = err coupon_free_gift_required
gift_line_discount coupon (some gift) = ok (record {
  amount = capped coupon (gift.unit_price_paise + gift.add_ons_paise);
  line_ids = gift.line_id ∷ [];
})

-- By `coupon.freeGiftVariantId`: the promotional line, or else a complimentary amount.
pub gift_discount :
    Option ℕ
    → CouponRow
    → List PricedLineInput
    → List PricedLineInput
    → List ℕ
    → Result PricingError Discount
unfolding gift_line_discount
gift_discount (some variant) coupon lines eligible eligible_ids =
    gift_line_discount coupon (find? (λ l. l.variant_id == variant) lines)
gift_discount none coupon lines eligible eligible_ids = ok (record {
  amount = capped coupon (or_else coupon.discount_paise (first_unit_price eligible));
  line_ids = eligible_ids;
})

-- The ladder over `discountType`, but for `free_shipping`, which returns before it.
pub discount_for :
    DiscountType
    → CouponRow
    → List PricedLineInput
    → List PricedLineInput
    → List ℕ
    → Result PricingError Discount
unfolding bogo_discount gift_discount round_div
discount_for percent coupon lines eligible eligible_ids = ok (record {
  amount =
      capped coupon (round_div (sum_by line_value eligible * or_else coupon.discount_bp 0) 10_000);
  line_ids = eligible_ids;
})
discount_for flat coupon lines eligible eligible_ids =
    ok
      (record { amount = capped coupon (or_else coupon.discount_paise 0); line_ids = eligible_ids })
discount_for bogo coupon lines eligible eligible_ids = bogo_discount coupon eligible eligible_ids
discount_for free_gift coupon lines eligible eligible_ids =
    gift_discount coupon.free_gift_variant_id coupon lines eligible eligible_ids
discount_for free_shipping coupon lines eligible eligible_ids =
    ok (record { amount = 0; line_ids = eligible_ids })

abbrev pub is_first_order : AppliesTo → Bool
is_first_order first_order = true
is_first_order _ = false

abbrev pub is_free_shipping : DiscountType → Bool
is_free_shipping free_shipping = true
is_free_shipping _ = false

-- What follows the checks. The clamp is `Math.max(0, Math.min(discount, eligibleValue))`, of amounts
-- that are not negative.
pub settle_coupon :
    CouponRow → List PricedLineInput → List PricedLineInput → Result PricingError CouponEvaluation
unfolding discount_for
settle_coupon coupon lines eligible =
    let eligible_ids = map (λ (l : PricedLineInput). l.line_id) eligible in
    if is_free_shipping coupon.discount_type
    then ok (record { discount_paise = 0; free_shipping = true; eligible_line_ids = eligible_ids })
    else do
      d ← discount_for coupon.discount_type coupon lines eligible eligible_ids
      ok (record {
        discount_paise = min d.amount (sum_by line_value eligible);
        free_shipping = false;
        eligible_line_ids = d.line_ids;
      })

unfoldable pub evaluate_coupon :
    CouponRow → List PricedLineInput → ℕ → ℕ → Result PricingError CouponEvaluation
unfolding line_is_eligible settle_coupon
evaluate_coupon coupon lines merchandise_paise customer_order_count = do
  let eligible = filter (line_is_eligible coupon) lines
  require (not (is_first_order coupon.applies_to && ltb 0 customer_order_count))
      coupon_first_order_only
  require (leb coupon.min_order_paise merchandise_paise)
      (coupon_min_not_met coupon.min_order_paise merchandise_paise)
  require (ltb 0 (length eligible)) coupon_not_applicable
  settle_coupon coupon lines eligible
