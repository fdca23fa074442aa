-- ===== src/Pricing/Cart.antt =====
-- `priceCart` and `assertInvariants`: the whole computation, in the order of the source.
pub mod Allocation
pub mod Invariants
pub mod Acceptance
use achichiz_back_end.Prelude.{
  Bool, List, Option, Result, [], false, if◌then◌else◌, leb, ltb, map, none, ok, require, some,
  sum_by, ℕ, ◌&&◌, ◌+◌, ◌-◌, ◌==◌, ◌>>=◌, ◌>>◌, ◌∷◌,
}
use achichiz_back_end.Prelude.Int.{neg_part, pos, pos_part, ℤ, ◌+ℤ◌}
use achichiz_back_end.Money.{assert_paise, max_safe_integer}
use achichiz_back_end.Money.Allocate.{allocate}
use achichiz_back_end.Pricing.{
  CouponRow, PricedLineInput, PricingError, PricingInput, free_shipping, from_paise, includes,
  invalid_quantity, line_value,
}
use achichiz_back_end.Pricing.Tax.{TaxSplit, split_inclusive_tax, tax_total}
use achichiz_back_end.Pricing.Shipping.{compute_shipping, round_off_for}
use achichiz_back_end.Pricing.Coupon.{CouponEvaluation, evaluate_coupon}
use Prim.Native.String.{String}

pub record PricedLine : Type 0 where
  pub line_id : ℕ
  pub variant_id : ℕ
  pub quantity : ℕ
  pub unit_price_paise : ℕ
  pub add_ons_paise : ℕ
  pub line_total_paise : ℕ
  pub allocated_order_discount_paise : ℕ
  pub gross_paise : ℕ
  pub gst_rate_bp : ℕ
  pub tax : TaxSplit

pub record PriceBreakdown : Type 0 where
  pub lines : List PricedLine
  pub item_count : ℕ
  pub merchandise_paise : ℕ
  pub coupon_code : Option String
  pub coupon_discount_paise : ℕ
  pub subtotal_paise : ℕ
  pub shipping_paise : ℕ
  pub cod_fee_paise : ℕ
  pub tax : TaxSplit
  pub round_off_paise : ℤ
  pub total_paise : ℤ
  pub is_interstate : Bool

-- The checks of the first loop, line by line. `Number.isSafeInteger` is the bound.
unfoldable pub check_lines : List PricedLineInput → Result PricingError (Unit {0})
unfolding assert_paise
check_lines [] = ok tt
check_lines (l ∷ ls) = do
  require (leb l.quantity max_safe_integer && ltb 0 l.quantity) (invalid_quantity l.line_id)
  _ ← from_paise (assert_paise l.unit_price_paise)
  _ ← from_paise (assert_paise l.add_ons_paise)
  check_lines ls

-- `coupon === null ? null : evaluateCoupon(…)`.
unfoldable pub evaluate_input :
    Option CouponRow → List PricedLineInput → ℕ → ℕ → Result PricingError (Option CouponEvaluation)
unfolding evaluate_coupon
evaluate_input none lines merchandise orders = ok none
evaluate_input (some coupon) lines merchandise orders = do
  ev ← evaluate_coupon coupon lines merchandise orders
  ok (some ev)

abbrev pub discount_of : Option CouponEvaluation → ℕ
discount_of none = 0
discount_of (some ev) = ev.discount_paise

abbrev pub eligible_ids_of : Option CouponEvaluation → List ℕ
eligible_ids_of none = []
eligible_ids_of (some ev) = ev.eligible_line_ids

abbrev pub ships_free : Option CouponEvaluation → Bool
ships_free none = false
ships_free (some ev) = ev.free_shipping

-- Ineligible lines get weight 0.
pub line_weights : List ℕ → List PricedLineInput → List ℕ
unfolding includes
line_weights ids lines = map (λ l. if includes ids l.line_id then line_value l else 0) lines

pub allocations : Option CouponEvaluation → List PricedLineInput → Result PricingError (List ℕ)
unfolding allocate line_weights
allocations evaluation lines =
    if ltb 0 (discount_of evaluation)
    then from_paise
        (allocate (discount_of evaluation) (line_weights (eligible_ids_of evaluation) lines))
    else ok (map (λ _. 0) lines)

-- One line. The difference is exact: no line is allocated more than its value.
pub price_line : Bool → PricedLineInput → ℕ → Result PricingError PricedLine
unfolding split_inclusive_tax
price_line is_interstate l alloc = do
  let gross = line_value l - alloc
  tax ← split_inclusive_tax gross l.gst_rate_bp l.cess_rate_bp is_interstate
  ok (record {
    line_id = l.line_id;
    variant_id = l.variant_id;
    quantity = l.quantity;
    unit_price_paise = l.unit_price_paise;
    add_ons_paise = l.add_ons_paise;
    line_total_paise = line_value l;
    allocated_order_discount_paise = alloc;
    gross_paise = gross;
    gst_rate_bp = l.gst_rate_bp;
    tax = tax;
  })

-- `lines.map((l, i) => …)` with `allocated[i] ?? 0`.
pub price_lines : Bool → List PricedLineInput → List ℕ → Result PricingError (List PricedLine)
unfolding price_line
price_lines is_interstate [] allocated = ok []
price_lines is_interstate (l ∷ ls) [] = do
  first ← price_line is_interstate l 0
  rest ← price_lines is_interstate ls []
  ok (first ∷ rest)
price_lines is_interstate (l ∷ ls) (a ∷ rest_allocated) = do
  first ← price_line is_interstate l a
  rest ← price_lines is_interstate ls rest_allocated
  ok (first ∷ rest)

-- `reduce` of one tax column.
abbrev pub tax_column : (TaxSplit → ℤ) → List PricedLine → ℤ
tax_column part [] = pos 0
tax_column part (l ∷ ls) = part l.tax +ℤ tax_column part ls

abbrev pub tax_rollup : List PricedLine → TaxSplit
tax_rollup lines = record {
  taxable_paise = tax_column (λ t. t.taxable_paise) lines;
  cgst_paise = tax_column (λ t. t.cgst_paise) lines;
  sgst_paise = tax_column (λ t. t.sgst_paise) lines;
  igst_paise = tax_column (λ t. t.igst_paise) lines;
  cess_paise = tax_column (λ t. t.cess_paise) lines;
}

-- The record that `priceCart` returns.
pub breakdown : PricingInput → Option CouponEvaluation → List PricedLine → PriceBreakdown
unfolding compute_shipping round_off_for
breakdown input evaluation priced =
    let subtotal = sum_by (λ (l : PricedLine). l.gross_paise) priced in
    let shipping =
      compute_shipping subtotal input.delivery_type input.shipping (ships_free evaluation) in
    let raw_total = subtotal + shipping + 0 in
    record {
      lines = priced;
      item_count = sum_by (λ l. l.quantity) input.lines;
      merchandise_paise = sum_by line_value input.lines;
      coupon_code = elim input.coupon [ none ↦ none | some coupon ↦ some coupon.code ];
      coupon_discount_paise = discount_of evaluation;
      subtotal_paise = subtotal;
      shipping_paise = shipping;
      cod_fee_paise = 0;
      tax = tax_rollup priced;
      round_off_paise = round_off_for raw_total;
      total_paise = pos raw_total +ℤ round_off_for raw_total;
      is_interstate = input.is_interstate;
    }

unfoldable pub price_cart : PricingInput → Result PricingError PriceBreakdown
unfolding check_lines evaluate_input allocations price_lines breakdown
price_cart input = do
  check_lines input.lines
  evaluation ←
      evaluate_input input.coupon input.lines (sum_by line_value input.lines)
        input.customer_order_count
  allocated ← allocations evaluation input.lines
  priced ← price_lines input.is_interstate input.lines allocated
  ok (breakdown input evaluation priced)

-- The errors of `assertInvariants`, by the invariant that is violated.
pub data InvariantError : Type 0 where
  i1_violated i2_violated i3_violated i4_violated round_off_outside : InvariantError

abbrev pub equal_ℤ : ℤ → ℤ → Bool
equal_ℤ a b = pos_part a + neg_part b == pos_part b + neg_part a

unfoldable pub assert_invariants : PriceBreakdown → Result InvariantError (Unit {0})
assert_invariants b = do
  let sum_gross = sum_by (λ (l : PricedLine). l.gross_paise) b.lines
  let sum_alloc = sum_by (λ (l : PricedLine). l.allocated_order_discount_paise) b.lines
  let sum_tax = tax_column tax_total b.lines
  require (b.subtotal_paise == sum_gross) i1_violated
  require (b.coupon_discount_paise == sum_alloc) i2_violated
  require
      (equal_ℤ b.total_paise
        (pos b.subtotal_paise +ℤ pos b.shipping_paise +ℤ pos b.cod_fee_paise +ℤ b.round_off_paise))
      i3_violated
  require (equal_ℤ (tax_total b.tax) sum_tax) i4_violated
  require (leb (pos_part b.round_off_paise + neg_part b.round_off_paise) 50) round_off_outside
  ok tt
