-- ===== src/Payments/Captured.antt =====
-- A capture credits the order with what it records.
use achichiz_back_end.Prelude.{Bool-cases, Option-cases, inl, inr, refl, some, ℕ, ◌≡◌}
use achichiz_back_end.Prelude.Int.{pos_part}
use achichiz_back_end.Payments.{
  ApplyOutcome, Order, Payment, Store, find_payment_by_gateway_payment_id, update_order,
}
use achichiz_back_end.Payments.Captures.{
  AmountIssue, Capture, apply_payment_captured, capture_amount_issue, capture_in_transaction,
  captured_row, credit, fatal, find_session, fully_paid, mark_cart_converted, mismatch, no_issue,
  record_capture,
}
use achichiz_back_end.Payments.Balance.{IsBalanced}
use achichiz_back_end.Payments.Settlement.{credited-IsBalanced, record_capture-RowsAfter}

-- The cart's table has no part in it.
mark_cart_converted-IsBalanced :
    (otherwise : ℕ → ℕ) (order_id amount : ℕ) (order : Order) (s : Store)
    → IsBalanced otherwise s
    → IsBalanced otherwise (mark_cart_converted order_id amount order s)
mark_cart_converted-IsBalanced otherwise order_id amount order s h =
    elim (Option-cases order.cart_id) [
      | inl none_there ↦ rw none_there h
      | inr (cart, from) ↦ elim (Bool-cases (fully_paid amount order)) [
        | inl full ↦
            rw (from, full)
              (record {
                distinct = h.distinct;
                bounded = h.bounded;
                keyed = h.keyed;
                paid_up = h.paid_up;
              })
        | inr partial ↦ rw (from, partial) h
      ]
    ]

module _ (otherwise : ℕ → ℕ) (c : Capture) (s : Store) (h : IsBalanced otherwise s) where
  capture_in_transaction-IsBalanced :
      (amount : ℕ) (session : Payment)
      → find_session
          (find_payment_by_gateway_payment_id c.gateway_payment_id s.payments)
          c.gateway_order_id
          s.payments
        ≡ some session
      → IsBalanced otherwise ((capture_in_transaction c amount session s).1)
  unfolding capture_in_transaction
  capture_in_transaction-IsBalanced amount session e =
      elim (Option-cases (s.orders session.order_id)) [
        | inl missing ↦ rw (capture_in_transaction, missing) h
        | inr (order, there) ↦
            let fresh = find_payment_by_gateway_payment_id c.gateway_payment_id s.payments in
            elim (Option-cases (captured_row fresh)) [
              | inr (row, done) ↦ rw (capture_in_transaction, there, done) h
              | inl undone ↦
                  rw (capture_in_transaction, there, undone)
                    (let recorded = (record_capture c amount session fresh s).1 in
                      mark_cart_converted-IsBalanced otherwise session.order_id amount order
                        (update_order session.order_id (credit amount order) recorded)
                        (credited-IsBalanced otherwise s h amount session order recorded
                          (record_capture-RowsAfter otherwise s h c amount session fresh refl undone
                            e)
                          there))
            ]
      ]

  by_issue-IsBalanced :
      (issue : AmountIssue) (o : ApplyOutcome) (done : ApplyOutcome × Store)
      → IsBalanced otherwise done.1
      → IsBalanced otherwise (
          (elim issue as (λ _. ApplyOutcome × Store) [
            | fatal ↦ (o, s)
            | mismatch ↦ done
            | no_issue ↦ done
          ]).1)
  by_issue-IsBalanced fatal o done d = h
  by_issue-IsBalanced mismatch o done d = d
  by_issue-IsBalanced no_issue o done d = d

  -- Every capture, whatever it carries, keeps a balanced store balanced: an order was paid what
  -- its captured rows sum up to, beside what came in otherwise.
  pub apply_payment_captured-IsBalanced : IsBalanced otherwise ((apply_payment_captured c s).1)
  unfolding apply_payment_captured
  apply_payment_captured-IsBalanced =
      let known = find_payment_by_gateway_payment_id c.gateway_payment_id s.payments in
      elim (Option-cases (captured_row known)) [
        | inr (row, done) ↦ rw (apply_payment_captured, done) h
        | inl undone ↦ elim (Option-cases (find_session known c.gateway_order_id s.payments)) [
          | inl missing ↦ rw (apply_payment_captured, undone, missing) h
          | inr (session, there) ↦
              rw (apply_payment_captured, undone, there)
                (by_issue-IsBalanced
                  (capture_amount_issue c.amount_paise (some session.amount_paise)) _ _
                  (capture_in_transaction-IsBalanced (pos_part c.amount_paise) session there))
        ]
      ]
