-- ===== src/Orders/Staff.antt =====
-- The transition table of the staff, src/modules/admin-orders/admin-orders.state.ts. The texts of
-- `sideEffects` are left out; `action` is absent exactly on the edges that are `systemOnly`.
use Prim.Native.String.{String}
use achichiz_back_end.Prelude.{
  Bool, List, Option, Result, [], any, err, false, filter, find?, if◌then◌else◌, map, none, not, ok,
  some, true, ◌&&◌, ◌∷◌,
}
use achichiz_back_end.Rbac.{Action, ModuleKey, Permissions, cancel, edit, orders, refund}
use achichiz_back_end.Orders.{
  OrderStatus, cancelled, confirmed, delivered, failed_delivery, in_production, out_for_delivery,
  packed, paid, pending_payment, personalisation_pending, quality_check, ready_to_ship,
  refund_initiated, refunded, rto, same_status, shipped,
}

pub record TransitionEdge : Type 0 where
  pub to : OrderStatus
  pub action : Option Action
  pub system_only : Bool
  pub label : String
  pub event_type : String

abbrev pub by_staff : OrderStatus → Action → String → String → TransitionEdge
by_staff to action label event_type = record {
  to = to;
  action = some action;
  system_only = false;
  label = label;
  event_type = event_type;
}

abbrev pub by_system : OrderStatus → String → String → TransitionEdge
by_system to label event_type = record {
  to = to;
  action = none;
  system_only = true;
  label = label;
  event_type = event_type;
}

-- `PRE_SHIPMENT`.
abbrev pub pre_shipment : List OrderStatus
pre_shipment =
    pending_payment ∷ paid ∷ confirmed ∷ in_production ∷ personalisation_pending ∷ quality_check
    ∷ packed ∷ ready_to_ship ∷ []

abbrev pub cancel_edge : TransitionEdge
cancel_edge = by_staff cancelled cancel "Cancelled" "order.cancelled"

abbrev pub refund_edge : TransitionEdge
refund_edge = by_staff refund_initiated refund "Refund initiated" "refund.initiated"

-- `STAFF_TRANSITIONS`.
unfoldable pub edges_from : OrderStatus → List TransitionEdge
edges_from pending_payment = by_system paid "Payment captured" "payment.captured" ∷ cancel_edge ∷ []
edges_from paid =
    by_staff confirmed edit "Confirmed" "order.confirmed" ∷ cancel_edge ∷ refund_edge ∷ []
edges_from confirmed =
    by_staff in_production edit "In production" "order.in_production"
    ∷ by_staff personalisation_pending edit "Awaiting personalisation"
        "order.personalisation_pending"
    ∷ by_staff quality_check edit "In quality check" "order.quality_check"
    ∷ by_staff packed edit "Packed" "order.packed"
    ∷ by_staff ready_to_ship edit "Ready to ship" "order.ready_to_ship"
    ∷ cancel_edge
    ∷ refund_edge
    ∷ []
edges_from in_production =
    by_staff personalisation_pending edit "Awaiting personalisation" "order.personalisation_pending"
    ∷ by_staff quality_check edit "In quality check" "order.quality_check"
    ∷ by_staff packed edit "Packed" "order.packed"
    ∷ by_staff ready_to_ship edit "Ready to ship" "order.ready_to_ship"
    ∷ cancel_edge
    ∷ []
edges_from personalisation_pending =
    by_staff quality_check edit "In quality check" "order.quality_check"
    ∷ by_staff in_production edit "Back to production" "order.in_production"
    ∷ cancel_edge
    ∷ []
edges_from quality_check =
    by_staff packed edit "Packed" "order.packed"
    ∷ by_staff in_production edit "Failed QC — back to production" "order.in_production"
    ∷ cancel_edge
    ∷ []
edges_from packed =
    by_staff ready_to_ship edit "Ready to ship" "order.ready_to_ship" ∷ cancel_edge ∷ []
edges_from ready_to_ship = by_staff shipped edit "Shipped" "order.shipped" ∷ cancel_edge ∷ []
edges_from shipped =
    by_system out_for_delivery "Out for delivery" "shipment.out_for_delivery"
    ∷ by_staff delivered edit "Delivered" "order.delivered"
    ∷ by_staff rto edit "Return to origin" "order.rto"
    ∷ []
edges_from out_for_delivery =
    by_system delivered "Delivered" "shipment.delivered"
    ∷ by_system failed_delivery "Delivery failed" "shipment.failed"
    ∷ []
edges_from delivered = refund_edge ∷ []
edges_from failed_delivery =
    by_staff out_for_delivery edit "Reattempt scheduled" "shipment.reattempt_scheduled"
    ∷ by_staff rto edit "Return to origin" "order.rto"
    ∷ []
edges_from rto = refund_edge ∷ []
edges_from cancelled = []
edges_from refund_initiated = by_system refunded "Refund settled" "refund.processed" ∷ []
edges_from refunded = []

unfoldable pub may_click : Permissions → TransitionEdge → Bool
may_click permissions edge = elim edge.action [
  | some action ↦ not edge.system_only && permissions orders action
  | none ↦ false
]

unfoldable pub staff_edges_from : OrderStatus → Permissions → List TransitionEdge
unfolding edges_from may_click
staff_edges_from status permissions = filter (may_click permissions) (edges_from status)

unfoldable pub can_staff_cancel : OrderStatus → Bool
can_staff_cancel status = any (same_status status) pre_shipment

pub data TransitionError : Type 0 where
  -- 422, with the statuses that are legal instead.
  illegal_transition : List OrderStatus → TransitionError
  -- 422.
  system_driven_transition : TransitionError
  -- 403, with the permission that is required.
  forbidden : ModuleKey → Action → TransitionError

-- The guards on an edge that the table has.
unfoldable pub authorise : Permissions → TransitionEdge → Result TransitionError TransitionEdge
authorise permissions edge = elim edge.action [
  | some action ↦
      if edge.system_only
      then err system_driven_transition
      else if permissions orders action
      then ok edge
      else err (forbidden orders action)
  | none ↦ err system_driven_transition
]

unfoldable pub assert_staff_transition :
    OrderStatus → OrderStatus → Permissions → Result TransitionError TransitionEdge
unfolding edges_from authorise
assert_staff_transition from to permissions =
    elim (find? (λ (e : TransitionEdge). same_status e.to to) (edges_from from)) [
      | some edge ↦ authorise permissions edge
      | none ↦ err (illegal_transition (map (λ e. e.to) (edges_from from)))
    ]

-- `order_not_cancellable`, with the status.
pub data StaffCancelError : Type 0 where
  staff_order_not_cancellable : OrderStatus → StaffCancelError

unfoldable pub assert_staff_cancellable : OrderStatus → Result StaffCancelError (Unit {0})
unfolding can_staff_cancel
assert_staff_cancellable status =
    if can_staff_cancel status then ok tt else err (staff_order_not_cancellable status)
