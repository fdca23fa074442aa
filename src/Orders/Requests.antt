-- ===== src/Orders/Requests.antt =====
-- Who may send money back: `assertMayRefund`, and which status `transitionOrder` and `cancelOrder` of
-- src/modules/admin-orders/admin-orders.service.ts write. What else the two write is left out.
use achichiz_back_end.Prelude.{Result, arith, err, if◌then◌else◌, ok, true, ◌↔◌, ◌≡◌, ◌⊎◌}
use achichiz_back_end.Rbac.{
  Permissions, Role, cancel, finance_manager, orders, permissions_for_role, refund, super_admin,
}
use achichiz_back_end.Orders.{OrderStatus, cancelled, refund_initiated, same_status}
use achichiz_back_end.Orders.Customer.{
  OrderPaymentStatus, cancellation_target_for, partially_refunded, payment_paid,
}
use achichiz_back_end.Orders.Staff.{
  StaffCancelError, TransitionError, assert_staff_cancellable, assert_staff_transition,
  can_staff_cancel, forbidden,
}

pub data RequestError : Type 0 where
  -- 422, from the table or a guard on it.
  refused_transition : TransitionError → RequestError
  refused_cancel : StaffCancelError → RequestError
  use_refund_endpoint : RequestError

unfoldable pub assert_may_refund : Permissions → Result TransitionError (Unit {0})
assert_may_refund permissions =
    if permissions orders refund then ok tt else err (forbidden orders refund)

-- `cancelOrder`: its own check of the permission, then the status that it writes.
unfoldable pub cancel_target :
    Permissions → OrderStatus → OrderPaymentStatus → Result RequestError OrderStatus
cancel_target permissions status payment_status =
    if permissions orders cancel
    then elim (assert_staff_cancellable status) [
      | ok _ ↦ ok (cancellation_target_for payment_status)
      | err e ↦ err (refused_cancel e)
    ]
    else err (refused_transition (forbidden orders cancel))

-- `transitionOrder`: the two targets that it hands on, then the table.
unfoldable pub transition_target :
    Permissions → OrderStatus → OrderPaymentStatus → OrderStatus → Result RequestError OrderStatus
transition_target permissions status payment_status to =
    if same_status to cancelled
    then cancel_target permissions status payment_status
    else if same_status to refund_initiated
    then err use_refund_endpoint
    else elim (assert_staff_transition status to permissions) [
      | ok _ ↦ ok to
      | err e ↦ err (refused_transition e)
    ]

-- With the permissions of the matrix, the permission check of the refund endpoint passes for a
-- Finance Manager and a Super Admin, and for no other role.
pub assert_may_refund_iff :
    (role : Role)
    → (assert_may_refund (permissions_for_role role) ≡ ok tt)
      ↔ ((role ≡ finance_manager) ⊎ (role ≡ super_admin))
unfolding assert_may_refund permissions_for_role
assert_may_refund_iff role = ground arith

-- A request of the staff for a new status makes the order `refund_initiated` exactly when it asks for a
-- cancellation, the staff member may cancel orders, the order can still be cancelled, and its payment
-- reads as paid or as refunded in part. A request for `refund_initiated` itself never does.
pub transition_target-refund_initiated :
    (permissions : Permissions) (status : OrderStatus) (payment_status : OrderPaymentStatus)
    (to : OrderStatus)
    → (transition_target permissions status payment_status to ≡ ok refund_initiated) ↔ (
        (to ≡ cancelled)
        × (permissions orders cancel ≡ true)
        × (can_staff_cancel status ≡ true)
        × ((payment_status ≡ payment_paid) ⊎ (payment_status ≡ partially_refunded)))
unfolding transition_target cancel_target assert_staff_cancellable cancellation_target_for
transition_target-refund_initiated permissions status payment_status to = ground arith
