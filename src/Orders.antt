-- ===== src/Orders.antt =====
-- The life of an order: what its customer may do (src/modules/orders/orders.state.ts), and what the
-- staff may do (src/modules/admin-orders/admin-orders.state.ts).
pub mod Customer
pub mod Tracking
pub mod Staff
pub mod Lifecycle
pub mod Requests
use achichiz_back_end.Prelude.{Bool, false, true}

pub data OrderStatus : Type 0 where
  pending_payment paid confirmed in_production personalisation_pending : OrderStatus
  quality_check packed ready_to_ship shipped out_for_delivery delivered : OrderStatus
  failed_delivery rto cancelled refund_initiated refunded : OrderStatus

abbrev pub same_status : OrderStatus → OrderStatus → Bool
same_status pending_payment pending_payment = true
same_status paid paid = true
same_status confirmed confirmed = true
same_status in_production in_production = true
same_status personalisation_pending personalisation_pending = true
same_status quality_check quality_check = true
same_status packed packed = true
same_status ready_to_ship ready_to_ship = true
same_status shipped shipped = true
same_status out_for_delivery out_for_delivery = true
same_status delivered delivered = true
same_status failed_delivery failed_delivery = true
same_status rto rto = true
same_status cancelled cancelled = true
same_status refund_initiated refund_initiated = true
same_status refunded refunded = true
same_status _ _ = false
