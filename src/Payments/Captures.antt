-- ===== src/Payments/Captures.antt =====
-- `applyPaymentCaptured` and `applyPaymentFailed` of src/modules/payments/payments.service.ts.
use achichiz_back_end.Prelude.{
  Bool, List, Option, false, if◌then◌else◌, leb, ltb, none, not, some, suc, true, ℕ, ◌&&◌, ◌+◌,
  ◌==◌, ◌||◌, ◌∷◌,
}
use achichiz_back_end.Prelude.Int.{negsuc, pos, pos_part, ℤ}
use achichiz_back_end.Money.{max_safe_integer}
use achichiz_back_end.Orders.{paid, pending_payment, same_status}
use achichiz_back_end.Payments.{
  ApplyOutcome, Order, Payment, Store, authorised, captured, cod_due, created, failed,
  find_payment_by_gateway_order_id, find_payment_by_gateway_payment_id, is_captured, nothing_to_do,
  partially_refunded, payment_cancelled, payment_refunded, settlement_failed, settlement_paid,
  settlement_pending, settlement_refunded, update_order, update_payment,
}

-- `captureAmountIssue`: an amount that is `fatal`, one that differs from the expected one, or none.
pub data AmountIssue : Type 0 where
  fatal mismatch no_issue : AmountIssue

abbrev pub differs : ℕ → Option ℕ → Bool
differs amount none = false
differs amount (some expected) = ltb 0 expected && not (amount == expected)

unfoldable pub capture_amount_issue : ℤ → Option ℕ → AmountIssue
capture_amount_issue (negsuc n) expected = fatal
capture_amount_issue (pos amount) expected =
    if (amount == 0) || ltb max_safe_integer amount
    then fatal
    else if differs amount expected
    then mismatch
    else no_issue

pub record Capture : Type 0 where
  pub gateway_payment_id : ℕ
  pub gateway_order_id : Option ℕ
  pub amount_paise : ℤ

abbrev pub outcome_of : ℕ → ℕ → Bool → ApplyOutcome
outcome_of order_id payment_id changed = record {
  order_id = some order_id;
  payment_id = some payment_id;
  changed = changed;
  is_deferred = false;
}

-- A row that is found and captured.
abbrev pub captured_row : Option Payment → Option Payment
captured_row none = none
captured_row (some p) = if is_captured p then some p else none

-- `known ?? findPaymentByGatewayOrderId(gatewayOrderId)`.
unfoldable pub find_session : Option Payment → Option ℕ → List Payment → Option Payment
find_session (some known) key ps = some known
find_session none none ps = none
find_session none (some key) ps = find_payment_by_gateway_order_id key ps

abbrev pub capture_row : ℕ → Payment → Payment
capture_row amount p = record p { status = captured; amount_paise = amount }

abbrev pub claim_row : ℕ → ℕ → Payment → Payment
claim_row gateway_payment_id amount p = record p {
  gateway_payment_id = some gateway_payment_id;
  status = captured;
  amount_paise = amount;
}

abbrev pub inserted_row : Capture → ℕ → ℕ → ℕ → Payment
inserted_row c amount order_id id = record {
  id = id;
  order_id = order_id;
  is_razorpay = true;
  gateway_payment_id = some c.gateway_payment_id;
  gateway_order_id = c.gateway_order_id;
  amount_paise = amount;
  status = captured;
}

-- The three ways to record the capture, with the row's identifier.
unfoldable pub record_capture : Capture → ℕ → Payment → Option Payment → Store → ℕ × Store
record_capture c amount session (some fresh) s =
    (fresh.id, record s { payments = update_payment fresh.id (capture_row amount) s.payments })
record_capture c amount session none s = elim session.gateway_payment_id [
  | none ↦ (
    session.id,
    record s {
      payments = update_payment session.id (claim_row c.gateway_payment_id amount) s.payments;
    },
  )
  | some _ ↦ (
    s.next_id,
    record s {
      payments = inserted_row c amount session.order_id s.next_id ∷ s.payments;
      next_id = suc s.next_id;
    },
  )
]

abbrev pub fully_paid : ℕ → Order → Bool
fully_paid amount order = leb order.total_paise (order.amount_paid_paise + amount)

abbrev pub credit : ℕ → Order → Order
credit amount order = record order {
  amount_paid_paise = order.amount_paid_paise + amount;
  payment_status = if fully_paid amount order then settlement_paid else settlement_pending;
  status =
      if same_status order.status pending_payment && fully_paid amount order
      then paid
      else order.status;
}

-- `markCartConverted`, where the order came from a cart and is paid.
abbrev pub mark_cart_converted : ℕ → ℕ → Order → Store → Store
mark_cart_converted order_id amount order s = elim order.cart_id [
  | none ↦ s
  | some cart ↦
      if fully_paid amount order then record s { converted = (cart, order_id) ∷ s.converted } else s
]

-- The transaction; `session` is the row that was read before it.
unfoldable pub capture_in_transaction : Capture → ℕ → Payment → Store → ApplyOutcome × Store
capture_in_transaction c amount session s = elim (s.orders session.order_id) [
  | none ↦ (nothing_to_do, s)
  | some order ↦
      let fresh = find_payment_by_gateway_payment_id c.gateway_payment_id s.payments in
      elim (captured_row fresh) [
        | some row ↦ (outcome_of session.order_id row.id false, s)
        | none ↦
            let (payment_id, recorded) = record_capture c amount session fresh s in
            (
              outcome_of session.order_id payment_id true,
              mark_cart_converted session.order_id amount order
                  (update_order session.order_id (credit amount order) recorded),
            )
      ]
]

unfoldable pub apply_payment_captured : Capture → Store → ApplyOutcome × Store
apply_payment_captured c s =
    let known = find_payment_by_gateway_payment_id c.gateway_payment_id s.payments in
    elim (captured_row known) [
      | some row ↦ (outcome_of row.order_id row.id false, s)
      | none ↦ elim (find_session known c.gateway_order_id s.payments) [
        | none ↦ (record nothing_to_do { is_deferred = true }, s)
        | some session ↦ elim (capture_amount_issue c.amount_paise (some session.amount_paise)) [
          | fatal ↦
              (record nothing_to_do { order_id = some session.order_id; is_deferred = true }, s)
          | mismatch ↦ capture_in_transaction c (pos_part c.amount_paise) session s
          | no_issue ↦ capture_in_transaction c (pos_part c.amount_paise) session s
        ]
      ]
    ]

pub record Failure : Type 0 where
  pub gateway_payment_id : ℕ
  pub gateway_order_id : Option ℕ

abbrev pub is_created : Payment → Bool
is_created p = elim p.status [
  | created ↦ true
  | captured ↦ false
  | authorised ↦ false
  | failed ↦ false
  | payment_cancelled ↦ false
  | payment_refunded ↦ false
]

abbrev pub is_failed : Payment → Bool
is_failed p = elim p.status [
  | failed ↦ true
  | captured ↦ false
  | authorised ↦ false
  | created ↦ false
  | payment_cancelled ↦ false
  | payment_refunded ↦ false
]

abbrev pub is_pending : Order → Bool
is_pending order = elim order.payment_status [
  | settlement_pending ↦ true
  | settlement_paid ↦ false
  | settlement_failed ↦ false
  | partially_refunded ↦ false
  | settlement_refunded ↦ false
  | cod_due ↦ false
]

abbrev pub fail_row : ℕ → Payment → Payment
fail_row gateway_payment_id p = record p {
  gateway_payment_id = some gateway_payment_id;
  status = failed;
}

-- A row that is found and stands in the way of a failure.
abbrev pub row_unless : (Payment → Bool) → Option Payment → Option Payment
row_unless test none = none
row_unless test (some p) = if test p then none else some p

-- `fresh ?? session`.
abbrev pub target_of : Option Payment → Payment → Payment
target_of none session = session
target_of (some fresh) session = fresh

abbrev pub mark_failed : Order → Order
mark_failed order =
    if (order.amount_paid_paise == 0) && is_pending order
    then record order { payment_status = settlement_failed }
    else order

unfoldable pub fail_in_transaction : Failure → Payment → Store → ApplyOutcome × Store
fail_in_transaction f session s = elim (s.orders session.order_id) [
  | none ↦ (nothing_to_do, s)
  | some order ↦
      let fresh = find_payment_by_gateway_payment_id f.gateway_payment_id s.payments in
      elim (row_unless is_created fresh) [
        | some row ↦ (outcome_of session.order_id row.id false, s)
        | none ↦
            let target = target_of fresh session in
            (
              outcome_of session.order_id target.id true,
              update_order session.order_id (mark_failed order) (record s {
                payments = update_payment target.id (fail_row f.gateway_payment_id) s.payments;
              }),
            )
      ]
]

unfoldable pub apply_payment_failed : Failure → Store → ApplyOutcome × Store
apply_payment_failed f s =
    let known = find_payment_by_gateway_payment_id f.gateway_payment_id s.payments in
    elim (row_unless (λ (p : Payment). not (is_failed p || is_captured p)) known) [
      | some row ↦ (outcome_of row.order_id row.id false, s)
      | none ↦ elim (find_session known f.gateway_order_id s.payments) [
        | none ↦ (nothing_to_do, s)
        | some session ↦ fail_in_transaction f session s
      ]
    ]
