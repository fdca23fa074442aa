-- ===== src/Pricing.antt =====
-- The pricing engine, src/modules/checkout/checkout.pricing.ts: its inputs, outputs and errors.
-- Prices, quantities and rates are the non-negative integers of the catalogue; a tax or a round-off
-- can be negative and is a ℤ. An id is the number that its UUID spells.
pub mod Tax
pub mod Shipping
pub mod Coupon
pub mod Cart
use achichiz_back_end.Prelude.{
  Bool, List, Option, Result, any, ap, err, false, none, ok, ok-injective, some, true, ℕ, ◌*◌, ◌+◌,
  ◌==◌, ◌≡◌,
}
use achichiz_back_end.Money.{PaiseError}
use Prim.Native.String.{String}

pub data DeliveryType : Type 0 where
  standard scheduled same_day midnight international : DeliveryType

pub data PaymentMethod : Type 0 where
  upi credit_card debit_card net_banking wallet cod : PaymentMethod

unfoldable pub is_prepaid : PaymentMethod → Bool
is_prepaid cod = false
is_prepaid _ = true

-- `DELIVERY_SURCHARGE_PAISE`.
unfoldable pub delivery_surcharge_paise : DeliveryType → ℕ
delivery_surcharge_paise standard = 0
delivery_surcharge_paise scheduled = 24_900
delivery_surcharge_paise same_day = 49_900
delivery_surcharge_paise midnight = 49_900
delivery_surcharge_paise international = 0

pub record PricedLineInput : Type 0 where
  pub line_id : ℕ
  pub variant_id : ℕ
  pub product_id : ℕ
  pub collection_ids : List ℕ
  pub quantity : ℕ
  pub unit_price_paise : ℕ
  pub add_ons_paise : ℕ
  pub gst_rate_bp : ℕ
  pub cess_rate_bp : ℕ

pub data DiscountType : Type 0 where
  percent flat free_shipping bogo free_gift : DiscountType

pub data AppliesTo : Type 0 where
  all collections products first_order : AppliesTo

pub record CouponRow : Type 0 where
  pub id : ℕ
  pub code : String
  pub discount_type : DiscountType
  pub discount_bp : Option ℕ
  pub discount_paise : Option ℕ
  pub max_discount_paise : Option ℕ
  pub min_order_paise : ℕ
  pub applies_to : AppliesTo
  pub scope_product_ids : List ℕ
  pub scope_collection_ids : List ℕ
  pub excluded_product_ids : List ℕ
  pub excluded_collection_ids : List ℕ
  pub bogo_buy_qty : Option ℕ
  pub bogo_get_qty : Option ℕ
  pub free_gift_variant_id : Option ℕ

pub record ShippingConfig : Type 0 where
  pub free_threshold_paise : ℕ
  pub flat_fee_paise : ℕ
  pub zone_base_fee_paise : Option ℕ
  -- `none` where the settings hold no surcharges, or none for a type.
  pub surcharges : Option (DeliveryType → Option ℕ)

pub record PricingInput : Type 0 where
  pub lines : List PricedLineInput
  pub coupon : Option CouponRow
  pub delivery_type : DeliveryType
  pub payment_method : PaymentMethod
  pub shipping : ShippingConfig
  pub is_interstate : Bool
  pub customer_order_count : ℕ

-- What `priceCart` throws: an `UnprocessableError` by its code, with the context that it carries,
-- or the `TypeError` of `assertPaise`.
pub data PricingError : Type 0 where
  invalid_quantity : ℕ → PricingError
  coupon_first_order_only coupon_not_applicable coupon_free_gift_required : PricingError
  coupon_min_not_met : ℕ → ℕ → PricingError
  coupon_bogo_min_items : ℕ → PricingError
  type_error : PaiseError → PricingError

-- A `PaiseError` thrown inside the engine.
abbrev pub from_paise {ℓ} : {A : Type ℓ} → Result PaiseError A → Result PricingError A
from_paise (ok a) = ok a
from_paise (err e) = err (type_error e)

pub from_paise-eq-ok {ℓ} :
    {A : Type ℓ} (r : Result PaiseError A) {a : A} → from_paise r ≡ ok a → r ≡ ok a
from_paise-eq-ok (ok a) e = ap ok (ok-injective e)
from_paise-eq-ok (err _) e = cc

-- `a ?? b`.
abbrev pub or_else : Option ℕ → ℕ → ℕ
or_else none b = b
or_else (some a) b = a

-- `xs.includes(x)` over ids.
pub includes : List ℕ → ℕ → Bool
includes xs x = any (λ y. y == x) xs

-- `line.quantity * (line.unitPricePaise + line.addOnsPaise)`.
abbrev pub line_value : PricedLineInput → ℕ
line_value l = l.quantity * (l.unit_price_paise + l.add_ons_paise)
