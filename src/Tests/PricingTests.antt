-- ===== src/Tests/PricingTests.antt =====
-- A concrete cart, and its parts.
use achichiz_back_end.Prelude.{
  List, Result, [], arith, err, false, get_or, length, none, ok, refl, some, ℕ, ◌*◌, ◌+◌, ◌<◌, ◌∷◌,
  ◌≡◌,
}
use achichiz_back_end.Prelude.Int.{negsuc, pos, ◌*ℤ◌, ◌-ℤ◌}
use achichiz_back_end.Money.{round_div, sum}
use achichiz_back_end.Money.Allocate.{allocate}
use achichiz_back_end.Money.Allocate.Total.{allocate-sum}
use achichiz_back_end.Money.Allocate.Share.{allocate-share}
use achichiz_back_end.Pricing.{
  CouponRow, PricedLineInput, PricingInput, all, percent, scheduled, upi,
}
use achichiz_back_end.Pricing.Tax.{TaxSplit, split_inclusive_tax, split_inclusive_tax-negative}
use achichiz_back_end.Pricing.Coupon.{CouponEvaluation, evaluate_coupon}
use achichiz_back_end.Pricing.Coupon.Bounds.{IsBounded, evaluate_coupon-IsBounded}
use achichiz_back_end.Pricing.Cart.{
  PriceBreakdown, breakdown, check_lines, evaluate_input, price_cart,
}
use achichiz_back_end.Pricing.Cart.Acceptance.{price_cart-accepted}
use achichiz_back_end.Pricing.Cart.Invariants.{IsConsistent, price_cart-IsConsistent}

abbrev weights : List ℕ
weights = 1 ∷ 1 ∷ 1 ∷ []

allocate-sum_example :
    (out : List ℕ) × (allocate 100 weights ≡ ok out)
    × (sum out ≡ 100)
    × (length out ≡ length weights)
allocate-sum_example = allocate-sum 100 weights (omega arith) (omega arith)

allocate-share_example :
    (get_or (34 ∷ 33 ∷ 33 ∷ []) 0 0 * sum weights < 100 * get_or weights 0 0 + sum weights)
    × (100 * get_or weights 0 0 < get_or (34 ∷ 33 ∷ 33 ∷ []) 0 0 * sum weights + sum weights)
unfolding allocate sum
allocate-share_example =
    allocate-share 100 weights (34 ∷ 33 ∷ 33 ∷ []) 0 (omega arith) (omega arith) refl

-- Two units at 499.00 with an add-on of 1.00, at 12% GST, and one at 250.50 at 18%.
abbrev cart_lines : List PricedLineInput
cart_lines =
    (record {
      line_id = 1;
      variant_id = 11;
      product_id = 21;
      collection_ids = 31 ∷ [];
      quantity = 2;
      unit_price_paise = 49_900;
      add_ons_paise = 100;
      gst_rate_bp = 1200;
      cess_rate_bp = 0;
    })
    ∷ (record {
      line_id = 2;
      variant_id = 12;
      product_id = 22;
      collection_ids = [];
      quantity = 1;
      unit_price_paise = 25_050;
      add_ons_paise = 0;
      gst_rate_bp = 1800;
      cess_rate_bp = 0;
    })
    ∷ []

-- Ten percent off, at most 100.00.
abbrev ten_percent : CouponRow
ten_percent = record {
  id = 5;
  code = "TEN";
  discount_type = percent;
  discount_bp = some 1000;
  discount_paise = none;
  max_discount_paise = some 10_000;
  min_order_paise = 50_000;
  applies_to = all;
  scope_product_ids = [];
  scope_collection_ids = [];
  excluded_product_ids = [];
  excluded_collection_ids = [];
  bogo_buy_qty = none;
  bogo_get_qty = none;
  free_gift_variant_id = none;
}

abbrev evaluated : CouponEvaluation
evaluated = record {
  discount_paise = 10_000;
  free_shipping = false;
  eligible_line_ids = 1 ∷ 2 ∷ [];
}

evaluate_coupon-IsBounded_example : IsBounded ten_percent cart_lines evaluated
unfolding evaluate_coupon
evaluate_coupon-IsBounded_example =
    evaluate_coupon-IsBounded ten_percent cart_lines 125_050 0 {ev = evaluated}
      (omega arith, (omega arith, tt)) refl

abbrev cart : PricingInput
cart = record {
  lines = cart_lines;
  coupon = some ten_percent;
  delivery_type = scheduled;
  payment_method = upi;
  shipping = record {
    free_threshold_paise = 99_900;
    flat_fee_paise = 9_900;
    zone_base_fee_paise = some 4_900;
    surcharges = none;
  };
  is_interstate = false;
  customer_order_count = 0;
}

abbrev value_or {ℓ κ} : {E : Type ℓ} {A : Type κ} → A → Result E A → A
value_or a (ok b) = b
value_or a (err _) = a

-- 112.00 with 12% of GST within a state.
abbrev split : TaxSplit
split = record {
  taxable_paise = pos 10_000;
  cgst_paise = pos 600;
  sgst_paise = pos 600;
  igst_paise = pos 0;
  cess_paise = pos 0;
}

abbrev one_paisa : TaxSplit
one_paisa = record {
  taxable_paise = pos 1;
  cgst_paise = pos 0;
  sgst_paise = pos 0;
  igst_paise = negsuc 0;
  cess_paise = pos 1;
}

split_inclusive_tax-negative_example : one_paisa.igst_paise ≡ negsuc 0
unfolding split_inclusive_tax ◌-ℤ◌ ◌*ℤ◌ round_div
split_inclusive_tax-negative_example =
    split_inclusive_tax-negative 0 6000 {t = one_paisa} (omega arith) (omega arith) refl

price_cart-accepted_example : (b : PriceBreakdown) × (price_cart cart ≡ ok b)
unfolding evaluate_input evaluate_coupon check_lines sum round_div
price_cart-accepted_example =
    price_cart-accepted cart {evaluation = some evaluated} refl (omega arith) refl

-- What the cart costs.
abbrev priced_cart : PriceBreakdown
priced_cart = value_or (breakdown cart none []) (price_cart cart)

price_cart-IsConsistent_example : IsConsistent cart priced_cart
unfolding price_cart evaluate_coupon split_inclusive_tax sum round_div ◌-ℤ◌ ◌*ℤ◌
price_cart-IsConsistent_example = price_cart-IsConsistent cart {b = priced_cart} refl
