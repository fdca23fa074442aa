-- ===== src/Pricing/Tax.antt =====
-- `splitInclusiveTax`: the GST and the cess inside a gross amount.
use native.Mathlib.Nat.{mul-le-mul, le_refl, lt_of_mul-lt-mul_right, div-eq_of_lt-le}
use achichiz_back_end.Prelude.{
  Bool, Result, arith, false, if◌then◌else◌, ltb, ok, refl, then_ok, true, ℕ, ◌*◌, ◌+◌, ◌/◌, ◌<◌,
  ◌>>=◌, ◌≡◌, ◌≤◌,
}
use achichiz_back_end.Prelude.Int.{int_laws, negsuc, pos, ℤ, ◌*ℤ◌, ◌+ℤ◌, ◌-ℤ◌, ◌≤ℤ◌}
use achichiz_back_end.Money.{assert_paise, round_div, round_div_nearest}
use achichiz_back_end.Pricing.{PricingError, from_paise}

pub record TaxSplit : Type 0 where
  pub taxable_paise : ℤ
  pub cgst_paise : ℤ
  pub sgst_paise : ℤ
  pub igst_paise : ℤ
  pub cess_paise : ℤ

-- `Math.floor(n / 2)`.
abbrev pub floor_half : ℤ → ℤ
floor_half (pos n) = pos (n / 2)
floor_half (negsuc n) = negsuc (n / 2)

abbrev inclusive_taxable : ℕ → ℕ → ℕ → ℕ
inclusive_taxable gross gst_rate_bp cess_rate_bp =
    round_div (gross * 10_000) (10_000 + (gst_rate_bp + cess_rate_bp))

abbrev cess_on : ℕ → ℕ → ℕ
cess_on taxable cess_rate_bp =
    if ltb 0 cess_rate_bp then round_div (taxable * cess_rate_bp) 10_000 else 0

-- Across states: all of the tax is IGST.
interstate_split : ℕ → ℕ → ℕ → TaxSplit
interstate_split gross taxable cess = record {
  taxable_paise = pos taxable;
  cgst_paise = pos 0;
  sgst_paise = pos 0;
  igst_paise = pos gross -ℤ pos taxable -ℤ pos cess;
  cess_paise = pos cess;
}

-- Within a state: two equal halves, and the odd paisa goes to the taxable value.
intrastate_split : ℕ → ℕ → ℕ → TaxSplit
intrastate_split gross taxable cess =
    let half = floor_half (pos gross -ℤ pos taxable -ℤ pos cess) in
    record {
      taxable_paise = pos gross -ℤ pos cess -ℤ pos 2 *ℤ half;
      cgst_paise = half;
      sgst_paise = half;
      igst_paise = pos 0;
      cess_paise = pos cess;
    }

unfoldable pub split_inclusive_tax : ℕ → ℕ → ℕ → Bool → Result PricingError TaxSplit
unfolding assert_paise interstate_split intrastate_split
split_inclusive_tax gross gst_rate_bp cess_rate_bp is_interstate = do
  _ ← from_paise (assert_paise gross)
  let taxable = inclusive_taxable gross gst_rate_bp cess_rate_bp
  let cess = cess_on taxable cess_rate_bp
  ok (
      if is_interstate
      then interstate_split gross taxable cess
      else intrastate_split gross taxable cess)

-- The five parts together.
abbrev pub tax_total : TaxSplit → ℤ
tax_total t = t.taxable_paise +ℤ t.cgst_paise +ℤ t.sgst_paise +ℤ t.igst_paise +ℤ t.cess_paise

twice_lem : (h : ℤ) → pos 2 *ℤ h ≡ h +ℤ h
unfolding ◌*ℤ◌ ◌+ℤ◌
twice_lem h = ground arith

interstate_split-total :
    (gross taxable cess : ℕ) → tax_total (interstate_split gross taxable cess) ≡ pos gross
unfolding interstate_split
interstate_split-total gross taxable cess = omega int_laws

intrastate_split-total :
    (gross taxable cess : ℕ) → tax_total (intrastate_split gross taxable cess) ≡ pos gross
unfolding intrastate_split
intrastate_split-total gross taxable cess = rw twice_lem (omega int_laws)

split_inclusive_tax-value :
    (gross gst_rate_bp cess_rate_bp : ℕ) (is_interstate : Bool) {t : TaxSplit}
    → split_inclusive_tax gross gst_rate_bp cess_rate_bp is_interstate ≡ ok t
    → let taxable = inclusive_taxable gross gst_rate_bp cess_rate_bp in
      let cess = cess_on taxable cess_rate_bp in
      t ≡ (
        if is_interstate
        then interstate_split gross taxable cess
        else intrastate_split gross taxable cess)
unfolding split_inclusive_tax
split_inclusive_tax-value gross gst cess is_interstate e =
    then_ok (from_paise (assert_paise gross)) e

-- Within and across states the parts of a split sum to the gross amount. Within a state the two
-- halves of the tax are equal and there is no IGST; across states there is no CGST and no SGST.
pub split_inclusive_tax-sum :
    (gross gst_rate_bp cess_rate_bp : ℕ) (is_interstate : Bool) {t : TaxSplit}
    → split_inclusive_tax gross gst_rate_bp cess_rate_bp is_interstate ≡ ok t
    → (tax_total t ≡ pos gross)
      × (t.cgst_paise ≡ t.sgst_paise)
      × ((if is_interstate then t.cgst_paise else t.igst_paise) ≡ pos 0)
unfolding interstate_split intrastate_split
split_inclusive_tax-sum gross gst cess true e =
    rw (split_inclusive_tax-value gross gst cess true e) (interstate_split-total _ _ _, refl, refl)
split_inclusive_tax-sum gross gst cess false e =
    rw (split_inclusive_tax-value gross gst cess false e) (intrastate_split-total _ _ _, refl, refl)

-- The taxable value never exceeds the gross amount.
pub inclusive_taxable-le :
    (gross gst_rate_bp cess_rate_bp : ℕ) → inclusive_taxable gross gst_rate_bp cess_rate_bp ≤ gross
inclusive_taxable-le gross gst cess =
    let d = 10_000 + (gst + cess) in
    let q = inclusive_taxable gross gst cess in
    let near = (round_div_nearest (gross * 10_000) d (omega arith)).0 in
    let wide : gross * 10_000 ≤ gross * d = mul-le-mul (le_refl gross) (omega arith) in
    let scaled : 2 * q * d < (2 * gross + 2) * d = omega arith in
    let below : 2 * q < 2 * gross + 2 = lt_of_mul-lt-mul_right d scaled in omega arith

abbrev pub IsNonneg : TaxSplit → Type 0
IsNonneg t =
    (pos 0 ≤ℤ t.taxable_paise)
    × (pos 0 ≤ℤ t.cgst_paise)
    × (pos 0 ≤ℤ t.sgst_paise)
    × (pos 0 ≤ℤ t.igst_paise)
    × (pos 0 ≤ℤ t.cess_paise)

intrastate_split-IsNonneg :
    (gross taxable : ℕ) → taxable ≤ gross → IsNonneg (intrastate_split gross taxable 0)
unfolding intrastate_split ◌-ℤ◌ ◌*ℤ◌
intrastate_split-IsNonneg gross taxable h = ground arith

interstate_split-IsNonneg :
    (gross taxable : ℕ) → taxable ≤ gross → IsNonneg (interstate_split gross taxable 0)
unfolding interstate_split ◌-ℤ◌
interstate_split-IsNonneg gross taxable h = ground arith

-- Where no cess is due, no part of a split is negative, whatever the gross amount and the GST rate.
split_inclusive_tax-IsNonneg :
    (gross gst_rate_bp : ℕ) (is_interstate : Bool) {t : TaxSplit}
    → split_inclusive_tax gross gst_rate_bp 0 is_interstate ≡ ok t
    → IsNonneg t
split_inclusive_tax-IsNonneg gross gst true e =
    rw (split_inclusive_tax-value gross gst 0 true e)
      (interstate_split-IsNonneg gross _ (inclusive_taxable-le gross gst 0))
split_inclusive_tax-IsNonneg gross gst false e =
    rw (split_inclusive_tax-value gross gst 0 false e)
      (intrastate_split-IsNonneg gross _ (inclusive_taxable-le gross gst 0))

round_div-one : (n d : ℕ) → 0 < d → d ≤ 2 * n → 2 * n < 3 * d → round_div n d ≡ 1
unfolding round_div
round_div-one n d h low high = div-eq_of_lt-le (2 * d) (omega arith) (omega arith)

cess_on-one : (cess : ℕ) → 5000 ≤ cess → cess ≤ 10_000 → cess_on 1 cess ≡ 1
cess_on-one cess low high =
    ground (arith, round_div-one (1 * cess) 10_000 (omega arith) (omega arith) (omega arith))

-- A gross amount of one paisa at a cess of half or more, where the two rates together are at most
-- the whole, is given an IGST of minus one paisa: both roundings go up.
pub split_inclusive_tax-negative :
    (gst_rate_bp cess_rate_bp : ℕ) {t : TaxSplit}
    → 5000 ≤ cess_rate_bp
    → gst_rate_bp + cess_rate_bp ≤ 10_000
    → split_inclusive_tax 1 gst_rate_bp cess_rate_bp true ≡ ok t
    → t.igst_paise ≡ negsuc 0
unfolding interstate_split
split_inclusive_tax-negative gst cess high fits e =
    let taxed : inclusive_taxable 1 gst cess ≡ 1 =
      round_div-one 10_000 (10_000 + (gst + cess)) (omega arith) (omega arith) (omega arith) in
    let cessed : cess_on 1 cess ≡ 1 = cess_on-one cess high (omega arith) in
    rw (split_inclusive_tax-value 1 gst cess true e) (rw (taxed, cessed) (unfold ◌-ℤ◌ in refl))
