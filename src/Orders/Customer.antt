-- ===== src/Orders/Customer.antt =====
-- What a customer may do to an order, src/modules/orders/orders.state.ts.
use achichiz_back_end.Prelude.{Bool, List, Result, [], any, err, if◌then◌else◌, ok, ◌∷◌}
use achichiz_back_end.Orders.{
  OrderStatus, cancelled, confirmed, in_production, packed, paid, pending_payment,
  personalisation_pending, quality_check, ready_to_ship, refund_initiated, same_status,
}

-- `CUSTOMER_CANCELLABLE_STATUSES`.
abbrev pub customer_cancellable_statuses : List OrderStatus
customer_cancellable_statuses =
    pending_payment ∷ paid ∷ confirmed ∷ in_production ∷ personalisation_pending ∷ quality_check
    ∷ packed ∷ ready_to_ship ∷ []

unfoldable pub can_customer_cancel : OrderStatus → Bool
can_customer_cancel status = any (same_status status) customer_cancellable_statuses

-- `order_not_cancellable`, with the status.
pub data CancelError : Type 0 where
  order_not_cancellable : OrderStatus → CancelError

unfoldable pub assert_customer_cancellable : OrderStatus → Result CancelError (Unit {0})
unfolding can_customer_cancel
assert_customer_cancellable status =
    if can_customer_cancel status then ok tt else err (order_not_cancellable status)

-- `ORDER_PAYMENT_STATUSES`.
pub data OrderPaymentStatus : Type 0 where
  pending payment_paid failed partially_refunded payment_refunded cod_due : OrderPaymentStatus

unfoldable pub cancellation_target_for : OrderPaymentStatus → OrderStatus
cancellation_target_for payment_paid = refund_initiated
cancellation_target_for partially_refunded = refund_initiated
cancellation_target_for _ = cancelled
