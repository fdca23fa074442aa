-- ===== src/Payments/Kept.antt =====
-- What the confirmations of the gateway keep of what other confirmations wrote.
use mathlib.Core.Option.{some-injective}
use mathlib.Core.Path.{subst}
use achichiz_back_end.Prelude.{
  ==_iff, All-implies, Bool-cases, Option, Option-cases, ap, arith, false, inl, inr, none, refl,
  some, suc, sym, true, ℕ, ◌<◌, ◌==◌, ◌∙◌, ◌≡◌,
}
use achichiz_back_end.Payments.{
  Order, Payment, Refund, Store, find_payment_by_gateway_payment_id, first_of, has_gateway_order_id,
  has_gateway_payment_id, update_order,
}
use achichiz_back_end.Payments.Captures.{
  Capture, apply_payment_captured, capture_row, claim_row, differs, find_session, record_capture,
}
use achichiz_back_end.Payments.Balance.{IsBalanced, first_of-update_apart}
use achichiz_back_end.Payments.Rows.{first_of-passes}
use achichiz_back_end.Payments.Refunds.{
  RefundEvent, apply_refund_processed, completed_row, find_refund_by_gateway_id, record_refund,
  refund_processed_in_transaction, take_back,
}
use achichiz_back_end.Payments.Replay.{
  IsRecorded, apply_payment_captured-IsTaken, find_session-new, known_row,
  recorded-apply_payment_captured,
}

other_key :
    (key other : ℕ) (p : Payment)
    → (other == key) ≡ false
    → has_gateway_payment_id other p ≡ true
    → has_gateway_payment_id key p ≡ false
other_key key other p differs e = ground arith

-- Another capture leaves the row of a gateway's payment the one that is found.
record_capture-apart :
    (otherwise : ℕ → ℕ) (c : Capture) (key amount : ℕ) (session : Payment) (s : Store)
    (fresh : Option Payment)
    → IsBalanced otherwise s
    → (c.gateway_payment_id == key) ≡ false
    → known_row c s ≡ fresh
    → find_session fresh c.gateway_order_id s.payments ≡ some session
    → find_payment_by_gateway_payment_id key ((record_capture c amount session fresh s).1.payments)
      ≡ find_payment_by_gateway_payment_id key s.payments
unfolding record_capture find_payment_by_gateway_payment_id first_of
record_capture-apart otherwise c key amount session s (some fresh) h differs known e =
    let apart : has_gateway_payment_id key fresh ≡ false =
      other_key key c.gateway_payment_id fresh differs
        (first_of-passes (has_gateway_payment_id c.gateway_payment_id) s.payments known) in
    first_of-update_apart (has_gateway_payment_id key) (has_gateway_payment_id c.gateway_payment_id)
      (capture_row amount) s.payments h.distinct known apart apart
record_capture-apart otherwise c key amount session s none h differs missing e =
    let (order_key, there) = find_session-new c.gateway_order_id s.payments e in
    elim (Option-cases session.gateway_payment_id) [
      | inl open_session ↦
          rw (record_capture, open_session)
            (first_of-update_apart (has_gateway_payment_id key) (has_gateway_order_id order_key)
              (claim_row c.gateway_payment_id amount) s.payments h.distinct there
              (ground (arith, open_session)) (ground (arith, differs)))
      | inr (other, used) ↦ rw (record_capture, used, first_of, differs) refl
    ]

pub apply_payment_captured-keeps :
    (otherwise : ℕ → ℕ) (c : Capture) (key : ℕ) (s : Store)
    → IsBalanced otherwise s
    → IsRecorded key s.payments
    → IsRecorded key ((apply_payment_captured c s).1.payments)
apply_payment_captured-keeps otherwise c key s h r =
    elim (Bool-cases (c.gateway_payment_id == key)) [
      | inl same ↦
          let own = (==_iff c.gateway_payment_id key).0 same in
          let (kept, _) =
            recorded-apply_payment_captured c s
              (subst (λ k. IsRecorded k s.payments) (sym own) r) in
          rw kept r
      | inr differs ↦ elim (apply_payment_captured-IsTaken c s) [
        | inl (_, kept) ↦ rw kept r
        | inr taken ↦ record {
          row = r.row;
          there =
              ap (find_payment_by_gateway_payment_id key) taken.payments
              ∙ record_capture-apart otherwise c key taken.amount taken.session s (known_row c s) h
                  differs refl taken.found
              ∙ r.there;
          done = r.done;
        }
      ]
    ]

-- An order that was paid as much.
update_order-IsBalanced :
    (otherwise : ℕ → ℕ) (order_id : ℕ) (order after : Order) (s : Store)
    → s.orders order_id ≡ some order
    → after.amount_paid_paise ≡ order.amount_paid_paise
    → IsBalanced otherwise s
    → IsBalanced otherwise (update_order order_id after s)
unfolding update_order
update_order-IsBalanced otherwise order_id order after s there amount h = record {
  distinct = h.distinct;
  bounded = h.bounded;
  keyed = h.keyed;
  paid_up = λ o order' e. elim (Bool-cases (o == order_id)) [
    | inl own ↦
        let now : after ≡ order' = some-injective _ _ (rw own at e) in
        let same : o ≡ order_id = ground arith in
        let before = h.paid_up o order (rw same there) in
        let paid : order'.amount_paid_paise ≡ after.amount_paid_paise =
          ap (λ (x : Order). x.amount_paid_paise) (sym now) in
        omega arith
    | inr other ↦ h.paid_up o order' (rw other at e)
  ];
}

record_refund-IsBalanced :
    (otherwise : ℕ → ℕ) (event : RefundEvent) (order_id payment_id : ℕ) (fresh : Option Refund)
    (s : Store)
    → IsBalanced otherwise s
    → IsBalanced otherwise (record_refund event order_id payment_id fresh s)
unfolding record_refund
record_refund-IsBalanced otherwise event order_id payment_id (some fresh) s h = record {
  distinct = h.distinct;
  bounded = h.bounded;
  keyed = h.keyed;
  paid_up = h.paid_up;
}
record_refund-IsBalanced otherwise event order_id payment_id none s h = record {
  distinct = h.distinct;
  bounded =
      All-implies (λ (p : Payment). p.id < s.next_id) (λ (p : Payment). p.id < suc s.next_id)
        s.payments (λ p b. omega arith) h.bounded;
  keyed = h.keyed;
  paid_up = h.paid_up;
}

record_refund-orders :
    (event : RefundEvent) (order_id payment_id : ℕ) (fresh : Option Refund) (s : Store)
    → (record_refund event order_id payment_id fresh s).orders ≡ s.orders
unfolding record_refund
record_refund-orders event order_id payment_id (some fresh) s = refl
record_refund-orders event order_id payment_id none s = refl

pub apply_refund_processed-IsBalanced :
    (otherwise : ℕ → ℕ) (event : RefundEvent) (s : Store)
    → IsBalanced otherwise s
    → IsBalanced otherwise ((apply_refund_processed event s).1)
unfolding apply_refund_processed refund_processed_in_transaction
apply_refund_processed-IsBalanced otherwise event s h =
    let known = find_refund_by_gateway_id event.gateway_refund_id s.refunds in
    elim (Option-cases (find_payment_by_gateway_payment_id event.gateway_payment_id s.payments)) [
      | inl unknown ↦ rw (apply_refund_processed, unknown) h
      | inr (payment, there) ↦ elim (Option-cases (completed_row known)) [
        | inr (row, done) ↦ rw (apply_refund_processed, there, done) h
        | inl undone ↦ elim (Option-cases (s.orders payment.order_id)) [
          | inl missing ↦
              rw (apply_refund_processed, there, undone, refund_processed_in_transaction, missing) h
          | inr (order, order_there) ↦
              rw
                (
                  apply_refund_processed, there, undone, refund_processed_in_transaction,
                  order_there, undone,
                )
                (update_order-IsBalanced otherwise payment.order_id order
                  (take_back event.amount_paise order)
                  (record_refund event payment.order_id payment.id known s)
                  (ap (λ (orders : ℕ → Option Order). orders payment.order_id)
                      (record_refund-orders event payment.order_id payment.id known s)
                    ∙ order_there)
                  refl
                  (record_refund-IsBalanced otherwise event payment.order_id payment.id known s h))
        ]
      ]
    ]
