-- ===== src/Tests/PaymentTests.antt =====
-- An order that is paid and refunded.
use mathlib.Core.Option.{some-injective}
use mathlib.Core.Path.{subst}
use achichiz_back_end.Prelude.{
  Bool-cases, List, [], arith, false, if◌then◌else◌, inl, inr, none, ok, refl, some, true, ℕ, ◌+◌,
  ◌==◌, ◌∷◌, ◌≡◌,
}
use achichiz_back_end.Prelude.Int.{pos}
use achichiz_back_end.Orders.{pending_payment}
use achichiz_back_end.Payments.{
  Order, Payment, Store, created, find_payment_by_gateway_order_id,
  find_payment_by_gateway_payment_id, first_of, is_captured, settlement_pending,
  sum_committed_refunds_paise, update_order, update_payment,
}
use achichiz_back_end.Payments.Captures.{
  Capture, Failure, apply_payment_captured, apply_payment_failed, capture_amount_issue,
  capture_in_transaction, claim_row, credit, find_session, record_capture,
}
use achichiz_back_end.Payments.Balance.{IsBalanced, captured_sum}
use achichiz_back_end.Payments.Captured.{apply_payment_captured-IsBalanced}
use achichiz_back_end.Payments.Failed.{apply_payment_failed-IsBalanced, apply_payment_failed-late}
use achichiz_back_end.Payments.Refunds.{
  RefundAnswer, RefundEvent, RefundRequest, after_transaction, answer_of, apply_refund_processed,
  find_refund_by_gateway_id, find_refund_by_idempotency_key, refund_in_transaction, refund_order,
  refund_processed_in_transaction, refund_row, refundable_after_open,
}
use achichiz_back_end.Payments.RefundCap.{IsCovered, refund_order-IsCovered}
use achichiz_back_end.Payments.Webhooks.{
  GatewayEvent, acknowledged, dispatch_all, payment_captured, refund_processed,
}
use achichiz_back_end.Payments.Redelivery.{
  apply_payment_captured-dispatch_all, apply_refund_processed-dispatch_all,
}
use achichiz_back_end.Payments.RefundKeys.{refund_order-replayed}

abbrev unpaid_order : Order
unpaid_order = record {
  total_paise = 500;
  amount_paid_paise = 0;
  amount_refunded_paise = 0;
  status = pending_payment;
  payment_status = settlement_pending;
  cart_id = some 3;
}

-- The row that waits for the payment of the gateway's order 40.
abbrev session_row : Payment
session_row = record {
  id = 1;
  order_id = 7;
  is_razorpay = true;
  gateway_payment_id = none;
  gateway_order_id = some 40;
  amount_paise = 500;
  status = created;
}

abbrev shop_store : Store
shop_store = record {
  orders = λ o. if o == 7 then some unpaid_order else none;
  payments = session_row ∷ [];
  refunds = [];
  next_id = 2;
  converted = [];
}

abbrev payment_in : Capture
payment_in = record { gateway_payment_id = 90; gateway_order_id = some 40; amount_paise = pos 500 }

abbrev nothing_else : ℕ → ℕ
nothing_else o = 0

shop_store-IsBalanced : IsBalanced nothing_else shop_store
unfolding captured_sum
shop_store-IsBalanced = record {
  distinct = (tt, tt);
  bounded = (omega arith, tt);
  keyed = ((λ e. cc), tt);
  paid_up = λ o order e. elim (Bool-cases (o == 7)) [
    | inl here ↦
        subst
          (λ (x : Order). x.amount_paid_paise ≡ nothing_else o + captured_sum o (session_row ∷ []))
          (some-injective _ _ (rw here at e)) (ground arith)
    | inr away ↦ cc (rw away at e)
  ];
}

-- A second payment of the gateway's order 40, a refund of the first, and events of other types.
abbrev in_between : List GatewayEvent
in_between =
    payment_captured
      (record { gateway_payment_id = 91; gateway_order_id = some 40; amount_paise = pos 500 })
    ∷ acknowledged
    ∷ refund_processed
        (record { gateway_refund_id = 60; gateway_payment_id = 90; amount_paise = 300 })
    ∷ []

shop_store-changed : (apply_payment_captured payment_in shop_store).0.changed ≡ true
unfolding apply_payment_captured find_payment_by_gateway_payment_id first_of find_session
    find_payment_by_gateway_order_id capture_amount_issue capture_in_transaction record_capture
shop_store-changed = refl

apply_payment_captured-dispatch_all_example :
    let later = dispatch_all in_between ((apply_payment_captured payment_in shop_store).1) in
    ((apply_payment_captured payment_in later).1 ≡ later)
    × ((apply_payment_captured payment_in later).0.changed ≡ false)
apply_payment_captured-dispatch_all_example =
    apply_payment_captured-dispatch_all nothing_else payment_in in_between shop_store
      shop_store-IsBalanced (refl, (refl, (refl, tt))) shop_store-changed

apply_payment_captured-IsBalanced_example :
    IsBalanced nothing_else ((apply_payment_captured payment_in shop_store).1)
apply_payment_captured-IsBalanced_example =
    apply_payment_captured-IsBalanced nothing_else payment_in shop_store shop_store-IsBalanced

abbrev paid_store : Store
paid_store = record {
  orders = λ o. if o == 7 then some (credit 500 unpaid_order) else none;
  payments = claim_row 90 500 session_row ∷ [];
  refunds = [];
  next_id = 2;
  converted = (3, 7) ∷ [];
}

-- The order is paid, and its cart is converted.
shop_store_paid : (apply_payment_captured payment_in shop_store).1.payments ≡ paid_store.payments
unfolding apply_payment_captured find_payment_by_gateway_payment_id first_of find_session
    find_payment_by_gateway_order_id capture_amount_issue capture_in_transaction record_capture
    update_payment update_order
shop_store_paid = refl

-- Another payment of the gateway's order 40.
abbrev payment_out : Failure
payment_out = record { gateway_payment_id = 89; gateway_order_id = some 40 }

apply_payment_failed-IsBalanced_example :
    IsBalanced nothing_else ((apply_payment_failed payment_out shop_store).1)
unfolding find_session find_payment_by_gateway_order_id first_of
apply_payment_failed-IsBalanced_example =
    apply_payment_failed-IsBalanced nothing_else payment_out shop_store shop_store-IsBalanced
      (λ p e. subst (λ (q : Payment). is_captured q ≡ false) (some-injective _ _ e) refl)

paid_store-IsBalanced : IsBalanced nothing_else paid_store
unfolding captured_sum
paid_store-IsBalanced = record {
  distinct = (tt, tt);
  bounded = (omega arith, tt);
  keyed = ((λ e gone. cc), tt);
  paid_up = λ o order e. elim (Bool-cases (o == 7)) [
    | inl here ↦
        subst
          (λ (x : Order). x.amount_paid_paise ≡ nothing_else o + captured_sum o paid_store.payments)
          (some-injective _ _ (rw here at e)) (ground arith)
    | inr away ↦ cc (rw away at e)
  ];
}

apply_payment_failed-late_example :
    ((order : Order) × ((apply_payment_failed payment_out paid_store).1.orders 7 ≡ some order)
      × (order.amount_paid_paise ≡ 500))
    × (captured_sum 7 ((apply_payment_failed payment_out paid_store).1.payments) + 500
        ≡ captured_sum 7 paid_store.payments)
unfolding find_payment_by_gateway_payment_id find_session find_payment_by_gateway_order_id first_of
apply_payment_failed-late_example =
    apply_payment_failed-late nothing_else payment_out paid_store paid_store-IsBalanced
      (claim_row 90 500 session_row) (credit 500 unpaid_order) refl refl refl refl

abbrev refund_wanted : RefundRequest
refund_wanted = record { order_id = 7; amount_paise = 300; idempotency_key = some 11 }

paid_store-IsCovered : IsCovered paid_store
unfolding sum_committed_refunds_paise
paid_store-IsCovered = record { bounded = tt; covered = λ o order e. omega arith }

refund_order-IsCovered_example :
    IsCovered
      ((refund_order refund_wanted (some (claim_row 90 500 session_row)) (some 60) paid_store).1)
refund_order-IsCovered_example =
    refund_order-IsCovered refund_wanted (some (claim_row 90 500 session_row)) (some 60) paid_store
      paid_store-IsCovered

refund_order-replayed_example :
    ((refund_order refund_wanted none none ((refund_order refund_wanted none none paid_store).1)).1
      ≡ (refund_order refund_wanted none none paid_store).1)
    × ((again : RefundAnswer) × ((refund_order refund_wanted none none
            ((refund_order refund_wanted none none paid_store).1)).0
          ≡ ok again)
        × (again.refund_id ≡ 2))
unfolding refund_order refund_in_transaction after_transaction find_refund_by_idempotency_key
    first_of refundable_after_open sum_committed_refunds_paise update_order
refund_order-replayed_example =
    refund_order-replayed refund_wanted refund_wanted 11 none none none none paid_store
      (answer_of (refund_row refund_wanted none 2)) refl refl refl refl

abbrev refund_done : RefundEvent
refund_done = record { gateway_refund_id = 60; gateway_payment_id = 90; amount_paise = 300 }

paid_store-changed : (apply_refund_processed refund_done paid_store).0.changed ≡ true
unfolding apply_refund_processed find_payment_by_gateway_payment_id first_of
    find_refund_by_gateway_id refund_processed_in_transaction
paid_store-changed = refl

apply_refund_processed-dispatch_all_example :
    let later = dispatch_all in_between ((apply_refund_processed refund_done paid_store).1) in
    ((apply_refund_processed refund_done later).1 ≡ later)
    × ((apply_refund_processed refund_done later).0.changed ≡ false)
apply_refund_processed-dispatch_all_example =
    apply_refund_processed-dispatch_all refund_done in_between paid_store (refl, (refl, (refl, tt)))
      paid_store-changed
