-- ===== src/Stock.antt =====
-- The arithmetic of the stock ledger, src/modules/admin-inventory/admin-inventory.stock.ts.
pub mod Checks
pub mod Reorder
pub mod Ledger
use achichiz_back_end.Prelude.{Bool, Result, err, if◌then◌else◌, not, ok}
use achichiz_back_end.Prelude.Int.{ltb_ℤ, pos, ℤ, ◌+ℤ◌, ◌-ℤ◌}

pub record StockPosition : Type 0 where
  pub on_hand_qty : ℤ
  pub reserved_qty : ℤ

unfoldable pub available_of : StockPosition → ℤ
unfolding ◌-ℤ◌
available_of position = position.on_hand_qty -ℤ position.reserved_qty

-- `a >= b`.
abbrev pub geb_ℤ : ℤ → ℤ → Bool
geb_ℤ a b = not (ltb_ℤ a b)

-- `insufficient_stock`, with the position, what is available and what was asked for.
pub data StockError : Type 0 where
  insufficient_stock : StockPosition → ℤ → ℤ → StockError

unfoldable pub assert_sufficient_stock : StockPosition → ℤ → Result StockError (Unit {0})
unfolding available_of ◌+ℤ◌
assert_sufficient_stock position quantity_delta =
    if geb_ℤ quantity_delta (pos 0)
    then ok tt
    else if geb_ℤ (available_of position +ℤ quantity_delta) (pos 0)
    then ok tt
    else err (insufficient_stock position (available_of position) quantity_delta)

unfoldable pub balance_after : StockPosition → ℤ → ℤ
unfolding ◌+ℤ◌
balance_after position quantity_delta = position.on_hand_qty +ℤ quantity_delta

unfoldable pub assert_reservable : StockPosition → ℤ → Result StockError (Unit {0})
unfolding available_of
assert_reservable position quantity =
    if geb_ℤ (available_of position) quantity
    then ok tt
    else err (insufficient_stock position (available_of position) quantity)

unfoldable pub apply_reservation : StockPosition → ℤ → StockPosition
unfolding ◌+ℤ◌
apply_reservation position quantity = record position {
  reserved_qty = position.reserved_qty +ℤ quantity;
}

pub data StockState : Type 0 where
  in_stock low out : StockState

unfoldable pub stock_state : StockPosition → ℤ → StockState
unfolding available_of
stock_state position reorder_point =
    if geb_ℤ (pos 0) (available_of position)
    then out
    else if geb_ℤ reorder_point (available_of position)
    then low
    else in_stock
