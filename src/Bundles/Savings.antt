-- ===== src/Bundles/Savings.antt =====
-- `bundleSavingsPaise` of src/modules/admin-bundles/admin-bundles.availability.ts.
use native.Mathlib.Nat.{div-add-mod, mod-lt}
use achichiz_back_end.Prelude.{
  Bool-cases, List, ap, arith, if◌then◌else◌, inl, inr, ltb, ltb→lt, refl, suc, sum_by, zero, ℕ,
  ◌*◌, ◌+◌, ◌-◌, ◌/◌, ◌<◌, ◌≡◌, ◌≤◌,
}
use achichiz_back_end.Prelude.Int.{int_laws, neg_part, negsuc, pos, pos_part, ℤ, ◌*ℤ◌, ◌+ℤ◌, ◌-ℤ◌}
use achichiz_back_end.Money.{round_div, round_div_nearest}

pub record PricedComponent : Type 0 where
  pub quantity : ℕ
  pub unit_price_paise : ℕ

pub record BundleSavings : Type 0 where
  pub component_total_paise : ℕ
  pub savings_paise : ℤ
  pub savings_bp : ℤ

abbrev pub component_total : PricedComponent → ℕ
component_total c = c.quantity * c.unit_price_paise

-- -n.
abbrev pub negated : ℕ → ℤ
negated zero = pos 0
negated (suc n) = negsuc n

-- `Math.round(a / d)`: a half goes up, so below zero towards zero.
unfoldable pub round_ratio : ℤ → ℕ → ℤ
unfolding round_div
round_ratio (pos n) d = pos (round_div n d)
round_ratio (negsuc m) d = negated ((2 * suc m + (d - 1)) / (2 * d))

unfoldable pub bundle_savings_paise : List PricedComponent → ℕ → BundleSavings
unfolding ◌-ℤ◌ ◌*ℤ◌ round_ratio
bundle_savings_paise components bundle_price_paise =
    let total = sum_by component_total components in
    let savings = pos total -ℤ pos bundle_price_paise in
    record {
      component_total_paise = total;
      savings_paise = savings;
      savings_bp = if ltb 0 total then round_ratio (savings *ℤ pos 10_000) total else pos 0;
    }

pos_part-negated : (n : ℕ) → (pos_part (negated n) ≡ 0) × (neg_part (negated n) ≡ n)
pos_part-negated zero = (refl, refl)
pos_part-negated (suc n) = (refl, refl)

-- The nearest whole number, a half going up.
abbrev pub IsNearest : ℤ → ℕ → ℤ → Type 0
IsNearest a d q =
    (2 * (pos_part q * d) + 2 * neg_part a ≤ 2 * pos_part a + 2 * (neg_part q * d) + d)
    × (2 * pos_part a + 2 * (neg_part q * d) + d < 2 * (pos_part q * d) + 2 * d + 2 * neg_part a)

round_ratio-IsNearest : (a : ℤ) (d : ℕ) → 0 < d → IsNearest a d (round_ratio a d)
unfolding round_ratio
round_ratio-IsNearest (pos n) d h =
    let bounds = round_div_nearest n d h in (omega arith, omega arith)
round_ratio-IsNearest (negsuc m) d h =
    let q = (2 * suc m + (d - 1)) / (2 * d) in
    let (no_pos, size) = pos_part-negated q in
    let rest = mod-lt (2 * suc m + (d - 1)) {m = 2 * d} (omega arith) in
    let whole = div-add-mod (2 * suc m + (d - 1)) (2 * d) in
    let scaled = ap (λ (k : ℕ). k * d) size in
    let nothing = ap (λ (k : ℕ). k * d) no_pos in (omega arith, omega arith)

-- The savings of a bundle are what its parts cost less its price, negative where it costs more, and
-- the share of the parts' cost is the nearest whole number of basis points, a half going up; parts
-- that cost nothing save nothing in proportion.
pub bundle_savings_paise-IsNearest :
    (components : List PricedComponent) (bundle_price_paise : ℕ)
    → let s = bundle_savings_paise components bundle_price_paise in
      (s.savings_paise +ℤ pos bundle_price_paise ≡ pos s.component_total_paise)
      × (if ltb 0 s.component_total_paise
          then IsNearest (s.savings_paise *ℤ pos 10_000) s.component_total_paise s.savings_bp
          else s.savings_bp ≡ pos 0)
unfolding bundle_savings_paise
bundle_savings_paise-IsNearest components price =
    let total = sum_by component_total components in
    (
      omega int_laws,
      elim (Bool-cases (ltb 0 total)) [
        | inl positive ↦ rw positive (round_ratio-IsNearest _ total (ltb→lt 0 total positive))
        | inr nothing ↦ rw nothing refl
      ],
    )
