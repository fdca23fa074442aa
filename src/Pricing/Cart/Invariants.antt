-- ===== src/Pricing/Cart/Invariants.antt =====
-- The invariants I1 to I4 and the round-off bound hold of every cart that is priced.
use achichiz_back_end.Prelude.{
  >>=-eq-ok, All, Bool, List, Option, [], ap, arith, ok, ok-injective, refl, sum_by, sym, true, ℕ,
  ◌+◌, ◌-◌, ◌<◌, ◌∙◌, ◌∷◌, ◌≡◌, ◌≤◌,
}
use achichiz_back_end.Prelude.Int.{+ℤ_parts, eq_of_parts, neg_part, pos, pos-add, pos_part, ℤ, ◌+ℤ◌}
use achichiz_back_end.Money.{sum}
use achichiz_back_end.Pricing.{PricedLineInput, PricingInput, line_value}
use achichiz_back_end.Pricing.Coupon.{CouponEvaluation}
use achichiz_back_end.Pricing.Tax.{split_inclusive_tax, split_inclusive_tax-sum, tax_total}
use achichiz_back_end.Pricing.Cart.{
  PriceBreakdown, PricedLine, allocations, assert_invariants, breakdown, check_lines, discount_of,
  equal_ℤ, evaluate_input, price_cart, price_line, price_lines, tax_column, tax_rollup,
}
use achichiz_back_end.Pricing.Cart.Allocation.{
  FitsLines, allocations-IsAllocated, evaluate_input-Covers,
}
use achichiz_back_end.Pricing.Shipping.{round_off_for_small}

pub check_lines-positive :
    (lines : List PricedLineInput) {u : Unit {0}}
    → check_lines lines ≡ ok u
    → All (λ l. 0 < l.quantity) lines
unfolding check_lines
check_lines-positive [] e = tt
check_lines-positive (l ∷ ls) e = ground (arith, check_lines-positive ls)

-- A priced line: nothing is lost between its value, its discount and its gross amount, and its tax
-- parts sum to the gross amount.
abbrev IsPricedLine : PricedLine → Type 0
IsPricedLine l =
    (l.gross_paise + l.allocated_order_discount_paise ≡ l.line_total_paise)
    × (tax_total l.tax ≡ pos l.gross_paise)

abbrev PricesLines : List PricedLineInput → List ℕ → List PricedLine → Type 0
PricesLines lines allocated priced =
    All IsPricedLine priced
    × (sum_by (λ l. l.allocated_order_discount_paise) priced ≡ sum allocated)
    × (sum_by (λ l. l.line_total_paise) priced ≡ sum_by line_value lines)

price_line-IsPricedLine :
    (is_interstate : Bool) (l : PricedLineInput) (alloc : ℕ) {out : PricedLine}
    → alloc ≤ line_value l
    → price_line is_interstate l alloc ≡ ok out
    → IsPricedLine out
      × (out.allocated_order_discount_paise ≡ alloc)
      × (out.line_total_paise ≡ line_value l)
unfolding price_line
price_line-IsPricedLine is_interstate l alloc fits e =
    let (tax, split, last) =
      >>=-eq-ok
        (split_inclusive_tax (line_value l - alloc) l.gst_rate_bp l.cess_rate_bp is_interstate) _
        e in
    rw (← ok-injective last)
      ((omega arith, (split_inclusive_tax-sum _ _ _ is_interstate split).0), refl, refl)

price_lines-PricesLines :
    (is_interstate : Bool) (lines : List PricedLineInput) (allocated : List ℕ)
    {out : List PricedLine}
    → FitsLines allocated lines
    → price_lines is_interstate lines allocated ≡ ok out
    → PricesLines lines allocated out
unfolding price_lines sum
price_lines-PricesLines is_interstate [] [] fits e = rw (← ok-injective e) (tt, refl, refl)
price_lines-PricesLines is_interstate [] (a ∷ allocated) fits e = absurd fits
price_lines-PricesLines is_interstate (l ∷ ls) [] fits e = absurd fits
price_lines-PricesLines is_interstate (l ∷ ls) (a ∷ allocated) (fit, fits) e =
    let (first, one, e₁) = >>=-eq-ok (price_line is_interstate l a) _ e in
    let (rest, others, e₂) = >>=-eq-ok (price_lines is_interstate ls allocated) _ e₁ in
    let (priced, one_alloc, one_total) = price_line-IsPricedLine is_interstate l a fit one in
    let (more, all_alloc, all_total) =
      price_lines-PricesLines is_interstate ls allocated fits others in
    rw (← ok-injective e₂)
      ((priced, more), omega (arith, one_alloc, all_alloc), omega (arith, one_total, all_total))

tax_column-total :
    (lines : List PricedLine)
    → All IsPricedLine lines
    → tax_column tax_total lines ≡ pos (sum_by (λ l. l.gross_paise) lines)
tax_column-total [] h = refl
tax_column-total (l ∷ ls) (h, hs) = rw (h.1, tax_column-total ls hs) (pos-add _ _)

tax_rollup-total :
    (lines : List PricedLine) → tax_total (tax_rollup lines) ≡ tax_column tax_total lines
tax_rollup-total [] = unfold ◌+ℤ◌ in refl
tax_rollup-total (l ∷ ls) = omega (
  +ℤ_parts,
  eq_of_parts,
  arith,
  ap pos_part (tax_rollup-total ls),
  ap neg_part (tax_rollup-total ls),
)

gross-sum :
    (lines : List PricedLine)
    → All IsPricedLine lines
    → sum_by (λ l. l.gross_paise) lines + sum_by (λ l. l.allocated_order_discount_paise) lines
      ≡ sum_by (λ l. l.line_total_paise) lines
gross-sum [] h = refl
gross-sum (l ∷ ls) (h, hs) = omega (arith, h.0, gross-sum ls hs)

-- What a priced cart satisfies: the checks of `assertInvariants` pass, subtotal and discount make up
-- the merchandise, and the tax columns make up the subtotal.
abbrev pub IsConsistent : PricingInput → PriceBreakdown → Type 0
IsConsistent input b =
    (assert_invariants b ≡ ok tt)
    × (b.subtotal_paise + b.coupon_discount_paise ≡ sum_by line_value input.lines)
    × (tax_total b.tax ≡ pos b.subtotal_paise)

equal_ℤ_of_eq : (a b : ℤ) → a ≡ b → equal_ℤ a b ≡ true
equal_ℤ_of_eq a b e = ground (arith, ap pos_part e, ap neg_part e)

-- The checks pass on a breakdown whose equations hold.
assert_invariants-ok :
    (b : PriceBreakdown)
    → b.subtotal_paise ≡ sum_by (λ l. l.gross_paise) b.lines
    → b.coupon_discount_paise ≡ sum_by (λ l. l.allocated_order_discount_paise) b.lines
    → b.total_paise
      ≡ pos b.subtotal_paise +ℤ pos b.shipping_paise +ℤ pos b.cod_fee_paise +ℤ b.round_off_paise
    → tax_total b.tax ≡ tax_column tax_total b.lines
    → pos_part b.round_off_paise + neg_part b.round_off_paise ≤ 50
    → assert_invariants b ≡ ok tt
unfolding assert_invariants
assert_invariants-ok b i₁ i₂ i₃ i₄ small =
    ground (arith, equal_ℤ_of_eq _ _ i₃, equal_ℤ_of_eq _ _ i₄)

breakdown-IsConsistent :
    (input : PricingInput) (evaluation : Option CouponEvaluation) (allocated : List ℕ)
    (priced : List PricedLine)
    → sum allocated ≡ discount_of evaluation
    → PricesLines input.lines allocated priced
    → IsConsistent input (breakdown input evaluation priced)
unfolding breakdown
breakdown-IsConsistent input evaluation allocated priced total (good, allocs, totals) =
    let taxes = tax_rollup-total priced ∙ tax_column-total priced good in
    (
      assert_invariants-ok _ refl (sym total ∙ sym allocs) (simp pos-add) (tax_rollup-total priced)
          (round_off_for_small _),
      omega (arith, gross-sum priced good),
      taxes,
    )

-- If a cart can be priced, then on the result the checks I1 to I4 and the bound on the round-off
-- pass, the subtotal and the discount make up the value of the merchandise to the paisa, and the
-- tax columns of the order make up its subtotal.
pub price_cart-IsConsistent :
    (input : PricingInput) {b : PriceBreakdown} → price_cart input ≡ ok b → IsConsistent input b
unfolding price_cart
price_cart-IsConsistent input e =
    let merchandise = sum_by line_value input.lines in
    let (u, checked, e₁) = >>=-eq-ok (check_lines input.lines) _ e in
    let (evaluation, evaluated, e₂) =
      >>=-eq-ok (evaluate_input input.coupon input.lines merchandise input.customer_order_count) _
        e₁ in
    let (allocated, alloc, e₃) = >>=-eq-ok (allocations evaluation input.lines) _ e₂ in
    let (priced, pricing, e₄) =
      >>=-eq-ok (price_lines input.is_interstate input.lines allocated) _ e₃ in
    let covered =
      evaluate_input-Covers input.coupon input.lines merchandise input.customer_order_count
        (check_lines-positive input.lines checked) evaluated in
    let (total, fits) = allocations-IsAllocated evaluation input.lines covered alloc in
    rw (← ok-injective e₄) (
      breakdown-IsConsistent input evaluation allocated priced total
        (price_lines-PricesLines input.is_interstate input.lines allocated fits pricing))
