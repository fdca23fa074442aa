-- ===== src/Payments/Redelivery.antt =====
-- An event of the gateway that is delivered again, after others.
use mathlib.Core.Path.{subst}
use achichiz_back_end.Prelude.{
  All, Bool-cases, List, Option-cases, [], arith, false, inl, inr, sym, true, ℕ, ◌∷◌, ◌≡◌,
}
use achichiz_back_end.Payments.{Store, update_order}
use achichiz_back_end.Payments.Balance.{IsBalanced}
use achichiz_back_end.Payments.Captures.{
  Capture, Failure, apply_payment_captured, apply_payment_failed, fail_in_transaction,
}
use achichiz_back_end.Payments.Captured.{apply_payment_captured-IsBalanced}
use achichiz_back_end.Payments.Refunds.{
  RefundEvent, apply_refund_failed, apply_refund_processed, find_refund_by_gateway_id, is_over,
}
use achichiz_back_end.Payments.Replay.{
  IsRecorded, apply_payment_captured-IsRecorded, apply_payment_captured-IsTaken,
  recorded-apply_payment_captured,
}
use achichiz_back_end.Payments.RefundReplay.{
  IsCompleted, apply_refund_processed-IsApplied, apply_refund_processed-IsCompleted,
  completed-apply_refund_processed,
}
use achichiz_back_end.Payments.RefundKept.{apply_refund_processed-keeps}
use achichiz_back_end.Payments.Kept.{
  apply_payment_captured-keeps, apply_refund_processed-IsBalanced,
}
use achichiz_back_end.Payments.Webhooks.{
  GatewayEvent, acknowledged, dispatch, dispatch_all, incomplete, is_payment_failed,
  is_refund_failed, payment_captured, payment_failed, refund_failed_event, refund_processed,
}

-- A refund that failed leaves the payments and the orders.
apply_refund_failed-payments :
    (key : ℕ) (s : Store) → (apply_refund_failed key s).1.payments ≡ s.payments
unfolding apply_refund_failed
apply_refund_failed-payments key s = ground arith

apply_refund_failed-IsBalanced :
    (otherwise : ℕ → ℕ) (key : ℕ) (s : Store)
    → IsBalanced otherwise s
    → IsBalanced otherwise ((apply_refund_failed key s).1)
unfolding apply_refund_failed
apply_refund_failed-IsBalanced otherwise key s h =
    elim (Option-cases (find_refund_by_gateway_id key s.refunds)) [
      | inl missing ↦ rw (apply_refund_failed, missing) h
      | inr (row, there) ↦ elim (Bool-cases (is_over row.status)) [
        | inl over ↦ rw (apply_refund_failed, there, over) h
        | inr open_row ↦
            rw (apply_refund_failed, there, open_row)
              (record {
                distinct = h.distinct;
                bounded = h.bounded;
                keyed = h.keyed;
                paid_up = h.paid_up;
              })
      ]
    ]

-- A payment that failed leaves the refunds.
apply_payment_failed-refunds :
    (f : Failure) (s : Store) → (apply_payment_failed f s).1.refunds ≡ s.refunds
unfolding apply_payment_failed fail_in_transaction update_order
apply_payment_failed-refunds f s = ground arith

dispatch-IsRecorded :
    (otherwise : ℕ → ℕ) (key : ℕ) (event : GatewayEvent) (s : Store)
    → is_payment_failed event ≡ false
    → IsBalanced otherwise s
    → IsRecorded key s.payments
    → IsBalanced otherwise ((dispatch event s).1) × IsRecorded key ((dispatch event s).1.payments)
unfolding dispatch
dispatch-IsRecorded otherwise key (payment_captured c) s e h r = (
  apply_payment_captured-IsBalanced otherwise c s h,
  apply_payment_captured-keeps otherwise c key s h r,
)
dispatch-IsRecorded otherwise key (payment_failed f) s e h r = cc
dispatch-IsRecorded otherwise key (refund_processed event) s e h r = (
  apply_refund_processed-IsBalanced otherwise event s h,
  elim (apply_refund_processed-IsApplied event s) [
    | inl (_, kept) ↦ rw kept r
    | inr applied ↦ subst (IsRecorded key) (sym applied.payments) r
  ],
)
dispatch-IsRecorded otherwise key (refund_failed_event refund) s e h r = (
  apply_refund_failed-IsBalanced otherwise refund s h,
  subst (IsRecorded key) (sym (apply_refund_failed-payments refund s)) r,
)
dispatch-IsRecorded otherwise key incomplete s e h r = (h, r)
dispatch-IsRecorded otherwise key acknowledged s e h r = (h, r)

dispatch_all-IsRecorded :
    (otherwise : ℕ → ℕ) (key : ℕ) (events : List GatewayEvent) (s : Store)
    → All (λ (e : GatewayEvent). is_payment_failed e ≡ false) events
    → IsBalanced otherwise s
    → IsRecorded key s.payments
    → IsRecorded key ((dispatch_all events s).payments)
unfolding dispatch_all
dispatch_all-IsRecorded otherwise key [] s _ h r = r
dispatch_all-IsRecorded otherwise key (event ∷ events) s (e, es) h r =
    let (balanced, recorded) = dispatch-IsRecorded otherwise key event s e h r in
    dispatch_all-IsRecorded otherwise key events ((dispatch event s).1) es balanced recorded

-- In a balanced store, a capture that changed something changes nothing, and says so, when it is
-- delivered again after any other events of the gateway, of which none reports a failed payment.
pub apply_payment_captured-dispatch_all :
    (otherwise : ℕ → ℕ) (c : Capture) (events : List GatewayEvent) (s : Store)
    → IsBalanced otherwise s
    → All (λ (e : GatewayEvent). is_payment_failed e ≡ false) events
    → (apply_payment_captured c s).0.changed ≡ true
    → let later = dispatch_all events ((apply_payment_captured c s).1) in
      ((apply_payment_captured c later).1 ≡ later)
      × ((apply_payment_captured c later).0.changed ≡ false)
apply_payment_captured-dispatch_all otherwise c events s h none_failed changed =
    recorded-apply_payment_captured c (dispatch_all events ((apply_payment_captured c s).1)) (
      dispatch_all-IsRecorded otherwise c.gateway_payment_id events _ none_failed
        (apply_payment_captured-IsBalanced otherwise c s h)
        (apply_payment_captured-IsRecorded c s changed))

dispatch-IsCompleted :
    (key : ℕ) (event : GatewayEvent) (s : Store)
    → is_refund_failed event ≡ false
    → IsCompleted key s.refunds
    → IsCompleted key ((dispatch event s).1.refunds)
unfolding dispatch
dispatch-IsCompleted key (payment_captured c) s e r = elim (apply_payment_captured-IsTaken c s) [
  | inl (_, kept) ↦ rw kept r
  | inr taken ↦ subst (IsCompleted key) (sym taken.refunds) r
]
dispatch-IsCompleted key (payment_failed f) s e r =
    subst (IsCompleted key) (sym (apply_payment_failed-refunds f s)) r
dispatch-IsCompleted key (refund_processed event) s e r = apply_refund_processed-keeps event key s r
dispatch-IsCompleted key (refund_failed_event refund) s e r = cc
dispatch-IsCompleted key incomplete s e r = r
dispatch-IsCompleted key acknowledged s e r = r

dispatch_all-IsCompleted :
    (key : ℕ) (events : List GatewayEvent) (s : Store)
    → All (λ (e : GatewayEvent). is_refund_failed e ≡ false) events
    → IsCompleted key s.refunds
    → IsCompleted key ((dispatch_all events s).refunds)
unfolding dispatch_all
dispatch_all-IsCompleted key [] s _ r = r
dispatch_all-IsCompleted key (event ∷ events) s (e, es) r =
    dispatch_all-IsCompleted key events ((dispatch event s).1) es
      (dispatch-IsCompleted key event s e r)

-- The confirmation of a refund that changed something changes nothing, and says so, when it is
-- delivered again after any other events of the gateway, of which none reports a failed refund.
pub apply_refund_processed-dispatch_all :
    (event : RefundEvent) (events : List GatewayEvent) (s : Store)
    → All (λ (e : GatewayEvent). is_refund_failed e ≡ false) events
    → (apply_refund_processed event s).0.changed ≡ true
    → let later = dispatch_all events ((apply_refund_processed event s).1) in
      ((apply_refund_processed event later).1 ≡ later)
      × ((apply_refund_processed event later).0.changed ≡ false)
apply_refund_processed-dispatch_all event events s none_failed changed =
    completed-apply_refund_processed event
      (dispatch_all events ((apply_refund_processed event s).1))
      (dispatch_all-IsCompleted event.gateway_refund_id events _ none_failed
        (apply_refund_processed-IsCompleted event s changed))
