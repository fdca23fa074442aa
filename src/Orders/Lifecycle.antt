-- ===== src/Orders/Lifecycle.antt =====
-- What the guards of the two order machines let happen, alone and in sequence.
use achichiz_back_end.Prelude.{
  Bool, Result, any, arith, check_passed, err, false, inl, inr, map, ok, refl, true, ◌&&◌, ◌||◌,
  ◌↔◌, ◌≡◌, ◌≢◌, ◌⊎◌,
}
use achichiz_back_end.Rbac.{Permissions}
use achichiz_back_end.Orders.{
  OrderStatus, cancelled, delivered, failed_delivery, out_for_delivery, paid, pending_payment,
  refund_initiated, refunded, rto, same_status, shipped,
}
use achichiz_back_end.Orders.Customer.{
  OrderPaymentStatus, assert_customer_cancellable, can_customer_cancel, cancellation_target_for,
}
use achichiz_back_end.Orders.Staff.{
  TransitionEdge, assert_staff_cancellable, assert_staff_transition, can_staff_cancel, edges_from,
  illegal_transition, staff_edges_from,
}

-- The customer, the staff's cancel button and the table agree on what can be cancelled: the two
-- tests give the same answer, which is whether the table has an edge to `cancelled`.
can_staff_cancel-can_customer_cancel :
    (s : OrderStatus)
    → (can_staff_cancel s ≡ can_customer_cancel s)
      × (can_staff_cancel s
          ≡ any (λ (e : TransitionEdge). same_status e.to cancelled) (edges_from s))
unfolding can_staff_cancel can_customer_cancel edges_from
can_staff_cancel-can_customer_cancel pending_payment = (refl, refl)
can_staff_cancel-can_customer_cancel _ = (refl, refl)

abbrev pub accepted {ℓ κ} : {E : Type ℓ} {A : Type κ} → Result E A → Bool
accepted (ok _) = true
accepted (err _) = false

-- A transition is accepted exactly when its target is among the edges that the staff member is
-- offered.
pub assert_staff_transition-staff_edges_from :
    (s t : OrderStatus) (permissions : Permissions)
    → accepted (assert_staff_transition s t permissions)
      ≡ any (λ (e : TransitionEdge). same_status e.to t) (staff_edges_from s permissions)
unfolding assert_staff_transition staff_edges_from
assert_staff_transition-staff_edges_from pending_payment t permissions = ground arith
assert_staff_transition-staff_edges_from _ t permissions = ground arith

-- A transition that the table does not have is refused as illegal whatever the permissions are, and
-- none that the table has is refused so.
assert_staff_transition-illegal_iff :
    (s t : OrderStatus) (permissions : Permissions)
    → (assert_staff_transition s t permissions
        ≡ err (illegal_transition (map (λ e. e.to) (edges_from s))))
      ↔ (any (λ (e : TransitionEdge). same_status e.to t) (edges_from s) ≡ false)
unfolding assert_staff_transition
assert_staff_transition-illegal_iff pending_payment t permissions = ground arith
assert_staff_transition-illegal_iff _ t permissions = ground arith

-- Whatever the permissions, no request of the staff makes an order paid, failed in delivery or
-- refunded: those are reported.
assert_staff_transition-reported :
    (s t : OrderStatus) (permissions : Permissions) {e : TransitionEdge}
    → assert_staff_transition s t permissions ≡ ok e
    → (t ≢ paid) × (t ≢ failed_delivery) × (t ≢ refunded)
unfolding assert_staff_transition
assert_staff_transition-reported pending_payment t permissions h = ground arith
assert_staff_transition-reported _ t permissions h = ground arith

-- One change of an order's status: an edge that the staff takes, one that is reported along the
-- table's system edges, the two cancellations (`cancelMyOrder`, `cancelOrder`), and the two steps of
-- a refund in src/modules/payments/payments.service.ts (`refundOrder`, and the gateway's confirmation
-- of a full refund).
pub data Step : OrderStatus → OrderStatus → Type 0 where
  taken :
      {s t : OrderStatus} {e : TransitionEdge} (permissions : Permissions)
      → assert_staff_transition s t permissions ≡ ok e
      → Step s t
  reported :
      {s t : OrderStatus}
      → any (λ (e : TransitionEdge). e.system_only && same_status e.to t) (edges_from s) ≡ true
      → Step s t
  cancelled_by_customer :
      {s : OrderStatus} (p : OrderPaymentStatus)
      → assert_customer_cancellable s ≡ ok tt
      → Step s (cancellation_target_for p)
  cancelled_by_staff :
      {s : OrderStatus} (p : OrderPaymentStatus)
      → assert_staff_cancellable s ≡ ok tt
      → Step s (cancellation_target_for p)
  refund_started : {s : OrderStatus} → s ≢ refunded → Step s refund_initiated
  refund_settled :
      {s : OrderStatus}
      → same_status s refund_initiated || same_status s cancelled ≡ true
      → Step s refunded

-- An order's history.
pub data Steps : OrderStatus → OrderStatus → Type 0 where
  stop : {s : OrderStatus} → Steps s s
  then_ : {s t u : OrderStatus} → Step s t → Steps t u → Steps s u

-- The courier has had the parcel, or the money is on its way back.
abbrev pub dispatched : OrderStatus → Bool
dispatched shipped = true
dispatched out_for_delivery = true
dispatched delivered = true
dispatched failed_delivery = true
dispatched rto = true
dispatched refund_initiated = true
dispatched refunded = true
dispatched _ = false

taken-dispatched :
    (s t : OrderStatus) (permissions : Permissions) {e : TransitionEdge}
    → assert_staff_transition s t permissions ≡ ok e
    → dispatched s ≡ true
    → dispatched t ≡ true
unfolding assert_staff_transition
taken-dispatched pending_payment t permissions h d = ground arith
taken-dispatched _ t permissions h d = ground arith

reported-dispatched :
    (s t : OrderStatus)
    → any (λ (e : TransitionEdge). e.system_only && same_status e.to t) (edges_from s) ≡ true
    → dispatched s ≡ true
    → dispatched t ≡ true
unfolding edges_from
reported-dispatched pending_payment t h d = ground arith
reported-dispatched _ t h d = ground arith

cancelled-dispatched :
    (s t : OrderStatus)
    → (can_customer_cancel s ≡ true) ⊎ (can_staff_cancel s ≡ true)
    → dispatched s ≡ true
    → dispatched t ≡ true
unfolding can_customer_cancel can_staff_cancel
cancelled-dispatched pending_payment t h d = ground arith
cancelled-dispatched _ t h d = ground arith

Step-dispatched : {s t : OrderStatus} → Step s t → dispatched s ≡ true → dispatched t ≡ true
unfolding assert_customer_cancellable assert_staff_cancellable
Step-dispatched {s} {t} (taken permissions h) d = taken-dispatched s t permissions h d
Step-dispatched {s} {t} (reported h) d = reported-dispatched s t h d
Step-dispatched {s} (cancelled_by_customer p h) d =
    cancelled-dispatched s (cancellation_target_for p)
      (inl (check_passed (can_customer_cancel s) _ h)) d
Step-dispatched {s} (cancelled_by_staff p h) d =
    cancelled-dispatched s (cancellation_target_for p) (inr (check_passed (can_staff_cancel s) _ h))
      d
Step-dispatched (refund_started h) d = refl
Step-dispatched (refund_settled h) d = refl

dispatched-not_cancelled :
    (t : OrderStatus)
    → dispatched t ≡ true
    → (dispatched t ≡ true) × (can_customer_cancel t ≡ false) × (t ≢ cancelled)
unfolding can_customer_cancel
dispatched-not_cancelled pending_payment d = ground arith
dispatched-not_cancelled _ d = ground arith

-- By any sequence of the steps, an order that was shipped, or whose refund has begun, is never
-- cancelled afterwards, and never again in a state from which it could be.
pub Steps-dispatched :
    {s t : OrderStatus}
    → Steps s t
    → dispatched s ≡ true
    → (dispatched t ≡ true) × (can_customer_cancel t ≡ false) × (t ≢ cancelled)
Steps-dispatched {s} stop d = dispatched-not_cancelled s d
Steps-dispatched (then_ step rest) d = Steps-dispatched rest (Step-dispatched step d)
