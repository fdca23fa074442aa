-- ===== src/Payments/Refunds.antt =====
-- `refundOrder`, `applyRefundProcessed` and `applyRefundFailed` of
-- src/modules/payments/payments.service.ts. The gateway is a parameter: what it answers to a call.
use achichiz_back_end.Prelude.{
  Bool, List, Option, Result, err, false, if◌then◌else◌, leb, ltb, max, min, none, ok, some, suc,
  true, ℕ, ◌&&◌, ◌+◌, ◌-◌, ◌==◌, ◌||◌, ◌∷◌,
}
use achichiz_back_end.Orders.{cancelled, refund_initiated, refunded, same_status}
use achichiz_back_end.Payments.{
  ApplyOutcome, Order, Payment, Refund, RefundStatus, Store, completed,
  find_payment_by_gateway_payment_id, first_of, initiated, nothing_to_do, partially_refunded,
  processing, refund_failed, same_key, settlement_refunded, sum_committed_refunds_paise,
  update_order, update_refund,
}
use achichiz_back_end.Payments.Captures.{outcome_of}

-- What may still be refunded; the subtraction stops at 0.
unfoldable pub refundable_after_open : Order → ℕ → ℕ
refundable_after_open order open_refunds =
    order.amount_paid_paise - max order.amount_refunded_paise open_refunds

-- An amount that is not positive is 0.
pub record RefundRequest : Type 0 where
  pub order_id : ℕ
  pub amount_paise : ℕ
  pub idempotency_key : Option ℕ

pub data RefundError : Type 0 where
  invalid_refund_amount order_not_found gateway_refused : RefundError
  refund_exceeds_captured : ℕ → RefundError

pub record RefundAnswer : Type 0 where
  pub refund_id : ℕ
  pub status : RefundStatus
  pub gateway_refund_id : Option ℕ

abbrev pub answer_of : Refund → RefundAnswer
answer_of r = record {
  refund_id = r.id;
  status = r.status;
  gateway_refund_id = r.gateway_refund_id;
}

abbrev pub has_idempotency_key : ℕ → Refund → Bool
has_idempotency_key key r = same_key r.idempotency_key key

abbrev pub has_gateway_refund_id : ℕ → Refund → Bool
has_gateway_refund_id key r = same_key r.gateway_refund_id key

unfoldable pub find_refund_by_idempotency_key : Option ℕ → List Refund → Option Refund
find_refund_by_idempotency_key none rs = none
find_refund_by_idempotency_key (some key) rs = first_of (has_idempotency_key key) rs

unfoldable pub find_refund_by_gateway_id : ℕ → List Refund → Option Refund
find_refund_by_gateway_id key rs = first_of (has_gateway_refund_id key) rs

-- `captured` is the row that `findCapturedPayment` answers.
abbrev pub refund_row : RefundRequest → Option Payment → ℕ → Refund
refund_row request captured_payment id = record {
  id = id;
  order_id = request.order_id;
  payment_id = elim captured_payment [ some p ↦ some p.id | none ↦ none ];
  amount_paise = request.amount_paise;
  status = initiated;
  gateway_refund_id = none;
  idempotency_key = request.idempotency_key;
}

abbrev pub insert_refund : Refund → Store → Store
insert_refund r s = record s { refunds = r ∷ s.refunds; next_id = suc s.next_id }

abbrev pub start_refund : Order → Order
start_refund order =
    if same_status order.status refund_initiated || same_status order.status refunded
    then order
    else record order { status = refund_initiated }

-- The transaction, which an error rolls back: the row, and whether it is an earlier one.
unfoldable pub refund_in_transaction :
    RefundRequest → Option Payment → Store → Result RefundError ((Refund × Bool) × Store)
refund_in_transaction request captured_payment s = elim (s.orders request.order_id) [
  | none ↦ err order_not_found
  | some locked ↦ elim (find_refund_by_idempotency_key request.idempotency_key s.refunds) [
    | some replay ↦ ok ((replay, true), s)
    | none ↦
        let refundable =
          refundable_after_open locked (sum_committed_refunds_paise request.order_id s.refunds) in
        let row = refund_row request captured_payment s.next_id in
        if ltb refundable request.amount_paise
        then err (refund_exceeds_captured refundable)
        else ok (
          (row, false),
          update_order request.order_id (start_refund locked) (insert_refund row s),
        )
  ]
]

abbrev pub process_row : ℕ → Refund → Refund
process_row gateway_refund_id r = record r {
  gateway_refund_id = some gateway_refund_id;
  status = processing;
}

abbrev pub fail_refund_row : Refund → Refund
fail_refund_row r = record r { status = refund_failed }

-- The call of the gateway and the write of its answer; `none` where the call throws.
unfoldable pub send_refund : Option ℕ → Refund → Store → Result RefundError RefundAnswer × Store
send_refund none row s =
    (err gateway_refused, record s { refunds = update_refund row.id fail_refund_row s.refunds })
send_refund (some key) row s = (
  ok (answer_of (process_row key row)),
  record s { refunds = update_refund row.id (process_row key) s.refunds },
)

-- `captured?.gatewayPaymentId`.
abbrev pub gateway_payment_of : Option Payment → Option ℕ
gateway_payment_of none = none
gateway_payment_of (some p) = p.gateway_payment_id

-- What follows the transaction.
unfoldable pub after_transaction :
    Option Payment → Option ℕ → (Refund × Bool) × Store → Result RefundError RefundAnswer × Store
after_transaction captured_payment gateway ((row, true), s) = (ok (answer_of row), s)
after_transaction captured_payment gateway ((row, false), s) =
    elim (gateway_payment_of captured_payment) [
      | none ↦ (ok (answer_of row), s)
      | some _ ↦ send_refund gateway row s
    ]

unfoldable pub refund_order :
    RefundRequest → Option Payment → Option ℕ → Store → Result RefundError RefundAnswer × Store
refund_order request captured_payment gateway s =
    if request.amount_paise == 0
    then (err invalid_refund_amount, s)
    else elim (find_refund_by_idempotency_key request.idempotency_key s.refunds) [
      | some replay ↦ (ok (answer_of replay), s)
      | none ↦ elim (s.orders request.order_id) [
        | none ↦ (err order_not_found, s)
        | some order ↦ elim (refund_in_transaction request captured_payment s) [
          | err e ↦ (err e, s)
          | ok outcome ↦ after_transaction captured_payment gateway outcome
        ]
      ]
    ]

pub record RefundEvent : Type 0 where
  pub gateway_refund_id : ℕ
  pub gateway_payment_id : ℕ
  pub amount_paise : ℕ

abbrev pub is_completed : Refund → Bool
is_completed r = elim r.status [
  | completed ↦ true
  | initiated ↦ false
  | processing ↦ false
  | refund_failed ↦ false
]

-- A row that is found and completed.
abbrev pub completed_row : Option Refund → Option Refund
completed_row none = none
completed_row (some r) = if is_completed r then some r else none

abbrev pub complete_row : Refund → Refund
complete_row r = record r { status = completed }

abbrev pub gateway_row : RefundEvent → ℕ → ℕ → ℕ → Refund
gateway_row event order_id payment_id id = record {
  id = id;
  order_id = order_id;
  payment_id = some payment_id;
  amount_paise = event.amount_paise;
  status = completed;
  gateway_refund_id = some event.gateway_refund_id;
  idempotency_key = none;
}

-- A refund that was made at the gateway gets a row.
unfoldable pub record_refund : RefundEvent → ℕ → ℕ → Option Refund → Store → Store
record_refund event order_id payment_id (some fresh) s = record s {
  refunds = update_refund fresh.id complete_row s.refunds;
}
record_refund event order_id payment_id none s =
    insert_refund (gateway_row event order_id payment_id s.next_id) s

abbrev pub refunded_in_all : ℕ → Order → ℕ
refunded_in_all amount order = min order.amount_paid_paise (order.amount_refunded_paise + amount)

abbrev pub is_fully_refunded : ℕ → Order → Bool
is_fully_refunded amount order =
    leb order.amount_paid_paise (refunded_in_all amount order) && ltb 0 order.amount_paid_paise

abbrev pub take_back : ℕ → Order → Order
take_back amount order = record order {
  amount_refunded_paise = refunded_in_all amount order;
  payment_status =
      if is_fully_refunded amount order then settlement_refunded else partially_refunded;
  status =
      if is_fully_refunded amount order
        && (same_status order.status refund_initiated || same_status order.status cancelled)
      then refunded
      else order.status;
}

unfoldable pub refund_processed_in_transaction :
    RefundEvent → Payment → Store → ApplyOutcome × Store
refund_processed_in_transaction event payment s = elim (s.orders payment.order_id) [
  | none ↦ (record nothing_to_do { payment_id = some payment.id }, s)
  | some order ↦
      let fresh = find_refund_by_gateway_id event.gateway_refund_id s.refunds in
      elim (completed_row fresh) [
        | some _ ↦ (outcome_of payment.order_id payment.id false, s)
        | none ↦ (
          outcome_of payment.order_id payment.id true,
          update_order payment.order_id (take_back event.amount_paise order)
              (record_refund event payment.order_id payment.id fresh s),
        )
      ]
]

unfoldable pub apply_refund_processed : RefundEvent → Store → ApplyOutcome × Store
apply_refund_processed event s =
    elim (find_payment_by_gateway_payment_id event.gateway_payment_id s.payments) [
      | none ↦ (record nothing_to_do { is_deferred = true }, s)
      | some payment ↦
          elim (completed_row (find_refund_by_gateway_id event.gateway_refund_id s.refunds)) [
            | some row ↦ (outcome_of row.order_id payment.id false, s)
            | none ↦ refund_processed_in_transaction event payment s
          ]
    ]

abbrev pub is_over : RefundStatus → Bool
is_over completed = true
is_over refund_failed = true
is_over initiated = false
is_over processing = false

unfoldable pub apply_refund_failed : ℕ → Store → ApplyOutcome × Store
apply_refund_failed gateway_refund_id s =
    elim (find_refund_by_gateway_id gateway_refund_id s.refunds) [
      | none ↦ (record nothing_to_do { is_deferred = true }, s)
      | some row ↦
          if is_over row.status
          then (record nothing_to_do { order_id = some row.order_id }, s)
          else (
            record {
              order_id = some row.order_id;
              payment_id = row.payment_id;
              changed = true;
              is_deferred = false;
            },
            record s { refunds = update_refund row.id fail_refund_row s.refunds },
          )
    ]
