-- ===== src/Stock/Checks.antt =====
-- The two guards say exactly what keeps a position sound.
use achichiz_back_end.Prelude.{arith, ok, refl, ◌↔◌, ◌≡◌}
use achichiz_back_end.Prelude.Int.{pos, sub_add, ℤ, ◌+ℤ◌, ◌-ℤ◌, ◌≤ℤ◌}
use achichiz_back_end.Stock.{
  StockPosition, apply_reservation, assert_reservable, assert_sufficient_stock, available_of,
  balance_after, out, stock_state,
}

-- Nothing is promised that is not there.
pub record IsSound (p : StockPosition) : Type 0 where
  pub reserved_nonneg : pos 0 ≤ℤ p.reserved_qty
  pub covered : p.reserved_qty ≤ℤ p.on_hand_qty

-- On a sound position the guard on a change passes exactly when the position after it is sound.
pub assert_sufficient_stock_iff :
    (p : StockPosition) (delta : ℤ)
    → IsSound p
    → (assert_sufficient_stock p delta ≡ ok tt)
      ↔ IsSound (record p { on_hand_qty = balance_after p delta })
unfolding assert_sufficient_stock balance_after ◌+ℤ◌ ◌-ℤ◌
assert_sufficient_stock_iff p delta h = ground arith

-- On a sound position the guard on a hold of a quantity that is not negative passes exactly when
-- the position after it is sound; the hold leaves what is on hand alone and takes its quantity off
-- what is available.
assert_reservable_iff :
    (p : StockPosition) (quantity : ℤ)
    → IsSound p
    → pos 0 ≤ℤ quantity
    → ((assert_reservable p quantity ≡ ok tt) ↔ IsSound (apply_reservation p quantity))
      × ((apply_reservation p quantity).on_hand_qty ≡ p.on_hand_qty)
      × (available_of (apply_reservation p quantity) ≡ available_of p -ℤ quantity)
unfolding assert_reservable apply_reservation ◌+ℤ◌ ◌-ℤ◌
assert_reservable_iff p quantity h q =
    (ground arith, refl, sub_add p.on_hand_qty p.reserved_qty quantity)

-- The storefront is told `out` exactly when nothing can be sold.
pub stock_state-out_iff :
    (p : StockPosition) (reorder_point : ℤ)
    → (stock_state p reorder_point ≡ out) ↔ (p.on_hand_qty ≤ℤ p.reserved_qty)
unfolding stock_state
stock_state-out_iff p reorder_point = ground arith
