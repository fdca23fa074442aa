-- ===== src/Pricing/Shipping.antt =====
-- `computeShipping` and `roundOffFor`.
use achichiz_back_end.Prelude.{
  Bool, Option, arith, if◌then◌else◌, leb, ltb, none, some, true, ℕ, ◌*◌, ◌+◌, ◌-◌, ◌||◌, ◌≡◌, ◌≤◌,
  ◌⊎◌,
}
use achichiz_back_end.Prelude.Int.{neg_part, negsuc, pos, pos_part, ℤ, ◌+ℤ◌, ◌-ℤ◌, ◌≤ℤ◌}
use achichiz_back_end.Money.{round_div}
use achichiz_back_end.Pricing.{
  DeliveryType, ShippingConfig, delivery_surcharge_paise, or_else, standard,
}

-- `config.surcharges?.[deliveryType]`.
abbrev surcharge_of : ShippingConfig → DeliveryType → Option ℕ
surcharge_of config delivery_type = elim config.surcharges [
  | none ↦ none
  | some by_type ↦ by_type delivery_type
]

-- The base fee of a paid delivery: a zone that nobody has priced carries 0.
abbrev base_fee : ShippingConfig → ℕ
base_fee config = elim config.zone_base_fee_paise [
  | none ↦ config.flat_fee_paise
  | some zone_fee ↦ if ltb 0 zone_fee then zone_fee else config.flat_fee_paise
]

-- `Math.max(0, dynamicFee - standardFee)` is the truncated difference.
unfoldable pub compute_shipping : ℕ → DeliveryType → ShippingConfig → Bool → ℕ
unfolding delivery_surcharge_paise
compute_shipping subtotal_after_discount delivery_type config free_shipping_coupon =
    let is_free = leb config.free_threshold_paise subtotal_after_discount || free_shipping_coupon in
    elim (surcharge_of config delivery_type) [
      | some dynamic_fee ↦
          if is_free then dynamic_fee - or_else (surcharge_of config standard) 0 else dynamic_fee
      | none ↦ (if is_free then 0 else base_fee config) + delivery_surcharge_paise delivery_type
    ]

-- `Math.round(rawTotal / 100) * 100 - rawTotal`.
unfoldable pub round_off_for : ℕ → ℤ
unfolding round_div
round_off_for raw_total = pos (round_div raw_total 100 * 100) -ℤ pos raw_total

-- A larger subtotal never raises the fee, with or without a coupon, and with the same subtotal a
-- free-shipping coupon never raises it.
compute_shipping_antitone :
    (a b : ℕ) (delivery_type : DeliveryType) (config : ShippingConfig) (coupon : Bool)
    → a ≤ b
    → (compute_shipping b delivery_type config coupon
        ≤ compute_shipping a delivery_type config coupon)
      × (compute_shipping a delivery_type config true
          ≤ compute_shipping a delivery_type config coupon)
unfolding compute_shipping
compute_shipping_antitone a b delivery_type config coupon h = ground arith

-- Standard delivery is free of charge at the threshold or above, and with a free-shipping coupon.
pub compute_shipping-standard :
    (subtotal : ℕ) (config : ShippingConfig) (coupon : Bool)
    → (config.free_threshold_paise ≤ subtotal) ⊎ (coupon ≡ true)
    → compute_shipping subtotal standard config coupon ≡ 0
unfolding compute_shipping
compute_shipping-standard subtotal config coupon h = ground arith

-- The rounded total is a whole number of rupees, at most fifty paise from the raw total.
round_off_for_bounds :
    (raw_total : ℕ)
    → (rupees : ℕ) × (pos raw_total +ℤ round_off_for raw_total ≡ pos (rupees * 100))
      × (negsuc 48 ≤ℤ round_off_for raw_total)
      × (round_off_for raw_total ≤ℤ pos 50)
unfolding round_off_for ◌+ℤ◌ ◌-ℤ◌
round_off_for_bounds raw_total = (round_div raw_total 100, ground arith, ground arith, ground arith)

pub round_off_for_small :
    (raw_total : ℕ) → pos_part (round_off_for raw_total) + neg_part (round_off_for raw_total) ≤ 50
unfolding round_off_for ◌-ℤ◌
round_off_for_small raw_total = ground arith
