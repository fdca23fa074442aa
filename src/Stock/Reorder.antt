-- ===== src/Stock/Reorder.antt =====
-- The reorder formula and the rounding to a supplier's minimum order quantity.
use native.Mathlib.Nat.{div-add-mod, mod-lt}
use achichiz_back_end.Prelude.{
  Bool, arith, if◌then◌else◌, max, refl, true, ℕ, ◌%◌, ◌*◌, ◌+◌, ◌-◌, ◌/◌, ◌<◌, ◌↔◌, ◌≡◌, ◌≤◌,
}
use achichiz_back_end.Prelude.Int.{int_laws, pos, pos_part, ℤ, ◌+ℤ◌, ◌-ℤ◌, ◌≤ℤ◌}
use achichiz_back_end.Stock.{geb_ℤ}

-- `Math.ceil(n / d)`.
unfoldable pub ceil_div : ℕ → ℕ → ℕ
ceil_div n d = (n + (d - 1)) / d

-- `moq` and the reorder levels are the non-negative integers of their columns.
pub record ReorderInputs : Type 0 where
  pub on_hand_qty : ℤ
  pub reserved_qty : ℤ
  pub incoming_qty : ℤ
  pub reorder_point : ℤ
  pub reorder_qty : ℤ
  pub moq : ℕ

pub record ReorderSuggestion : Type 0 where
  pub inventory_position : ℤ
  pub target_level : ℤ
  pub shortfall_qty : ℕ
  pub suggested_qty : ℕ
  pub should_reorder : Bool

-- `Math.max(0, target - position)` is the positive part of the difference.
unfoldable pub reorder_suggestion : ReorderInputs → ReorderSuggestion
reorder_suggestion input =
    let moq = max 1 input.moq in
    let position = input.on_hand_qty -ℤ input.reserved_qty +ℤ input.incoming_qty in
    let target = input.reorder_point +ℤ input.reorder_qty in
    let shortfall = pos_part (target -ℤ position) in
    let reorder = geb_ℤ input.reorder_point position in
    record {
      inventory_position = position;
      target_level = target;
      shortfall_qty = shortfall;
      suggested_qty = if reorder then ceil_div (max shortfall 1) moq * moq else 0;
      should_reorder = reorder;
    }

unfoldable pub round_up_to_moq : ℕ → ℕ → ℕ
unfolding ceil_div
round_up_to_moq quantity moq = let unit = max 1 moq in ceil_div (max 1 quantity) unit * unit

-- A rounding up to whole units covers what is needed and exceeds it by less than one unit.
pub ceil_div_bounds : (n d : ℕ) → 0 < d → (n ≤ ceil_div n d * d) × (ceil_div n d * d < n + d)
unfolding ceil_div
ceil_div_bounds n d h =
    let rest : (n + (d - 1)) % d < d = mod-lt (n + (d - 1)) h in
    omega (arith, div-add-mod (n + (d - 1)) d)

-- The rounded quantity is a whole number of units, covers what was asked for, and is the smallest
-- such: it exceeds the larger of 1 and the quantity by less than one unit.
pub round_up_to_moq_bounds :
    (quantity moq : ℕ)
    → (units : ℕ) × (round_up_to_moq quantity moq ≡ units * max 1 moq)
      × (max 1 quantity ≤ round_up_to_moq quantity moq)
      × (round_up_to_moq quantity moq < max 1 quantity + max 1 moq)
unfolding round_up_to_moq
round_up_to_moq_bounds quantity moq =
    let bounds = ceil_div_bounds (max 1 quantity) (max 1 moq) (omega arith) in
    (ceil_div (max 1 quantity) (max 1 moq), refl, bounds.0, bounds.1)

-- The suggestion is made exactly where the position does not exceed the reorder point, and nothing
-- is ordered otherwise.
pub reorder_suggestion-should_reorder :
    (input : ReorderInputs)
    → let s = reorder_suggestion input in
      ((s.should_reorder ≡ true) ↔ (s.inventory_position ≤ℤ input.reorder_point))
      × ((if s.should_reorder then 0 else s.suggested_qty) ≡ 0)
unfolding reorder_suggestion
reorder_suggestion-should_reorder input = (ground arith, ground arith)

-- A suggested order brings the position to the target level or above, and the order is less than one
-- unit of the supplier above the larger of 1 and the shortfall.
reorder_suggestion-suggested_qty :
    (input : ReorderInputs)
    → (reorder_suggestion input).should_reorder ≡ true
    → let s = reorder_suggestion input in
      (0 < s.suggested_qty)
      × (s.target_level ≤ℤ s.inventory_position +ℤ pos s.suggested_qty)
      × (s.suggested_qty < max s.shortfall_qty 1 + max 1 input.moq)
unfolding reorder_suggestion
reorder_suggestion-suggested_qty input e =
    let position = input.on_hand_qty -ℤ input.reserved_qty +ℤ input.incoming_qty in
    let target = input.reorder_point +ℤ input.reorder_qty in
    let bounds =
      ceil_div_bounds (max (pos_part (target -ℤ position)) 1) (max 1 input.moq) (omega arith) in
    rw e (omega (arith, bounds.0), omega (int_laws, bounds.0), bounds.1)
