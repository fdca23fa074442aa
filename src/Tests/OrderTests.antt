-- ===== src/Tests/OrderTests.antt =====
-- Concrete orders.
use achichiz_back_end.Prelude.{
  List, [], any, false, none, ok, refl, some, true, ◌↔◌, ◌∷◌, ◌≡◌, ◌≢◌, ◌⊎◌,
}
use achichiz_back_end.Rbac.{
  cancel, finance_manager, order_manager, orders, permissions_for_role, super_admin,
}
use achichiz_back_end.Orders.{
  cancelled, delivered, out_for_delivery, packed, paid, refund_initiated, same_status, shipped,
}
use achichiz_back_end.Orders.Customer.{can_customer_cancel, partially_refunded, payment_paid}
use achichiz_back_end.Orders.Staff.{
  TransitionEdge, assert_staff_transition, can_staff_cancel, edges_from, staff_edges_from,
}
use achichiz_back_end.Orders.Requests.{
  assert_may_refund, assert_may_refund_iff, transition_target, transition_target-refund_initiated,
}
use achichiz_back_end.Orders.Lifecycle.{
  Steps-dispatched, accepted, assert_staff_transition-staff_edges_from, dispatched, reported, stop,
  then_,
}
use achichiz_back_end.Orders.Tracking.{
  TrackedOrder, TrackingEventInput, order_packed, order_shipped, shipment_dispatched,
}

assert_staff_transition-staff_edges_from_example :
    accepted (assert_staff_transition paid refund_initiated (permissions_for_role order_manager))
    ≡ any
        (λ (e : TransitionEdge). same_status e.to refund_initiated)
        (staff_edges_from paid (permissions_for_role order_manager))
assert_staff_transition-staff_edges_from_example =
    assert_staff_transition-staff_edges_from paid refund_initiated
      (permissions_for_role order_manager)

assert_may_refund_iff_example :
    (assert_may_refund (permissions_for_role order_manager) ≡ ok tt)
    ↔ ((order_manager ≡ finance_manager) ⊎ (order_manager ≡ super_admin))
assert_may_refund_iff_example = assert_may_refund_iff order_manager

-- An Order Manager who cancels a paid order starts a refund, though the refund endpoint is closed.
transition_target-refund_initiated_example :
    (transition_target (permissions_for_role order_manager) packed payment_paid cancelled
      ≡ ok refund_initiated)
    ↔ ((cancelled ≡ cancelled)
        × (permissions_for_role order_manager orders cancel ≡ true)
        × (can_staff_cancel packed ≡ true)
        × ((payment_paid ≡ payment_paid) ⊎ (payment_paid ≡ partially_refunded)))
transition_target-refund_initiated_example =
    transition_target-refund_initiated (permissions_for_role order_manager) packed payment_paid
      cancelled

Steps-dispatched_example :
    (dispatched delivered ≡ true)
    × (can_customer_cancel delivered ≡ false)
    × (delivered ≢ cancelled)
unfolding edges_from
Steps-dispatched_example =
    Steps-dispatched {s = shipped} {t = delivered}
      (then_ {t = out_for_delivery} (reported refl) (then_ (reported refl) stop)) refl

abbrev tracked : TrackedOrder
tracked = record { status = shipped; placed_at = 100; shipped_at = some 400; delivered_at = none }

-- The dispatch was recorded twice, the earlier time last.
abbrev events : List TrackingEventInput
events =
    (record { event_type = shipment_dispatched; occurred_at = 350 })
    ∷ (record { event_type = order_packed; occurred_at = 250 })
    ∷ (record { event_type = order_shipped; occurred_at = 300 })
    ∷ []
