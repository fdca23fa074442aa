-- ===== src/Payments.antt =====
-- Payments and refunds: the tables of src/db/schema/payments.ts, the queries of
-- src/modules/payments/payments.repository.ts and the operations of
-- src/modules/payments/payments.service.ts. Rows stand newest first. An identifier is a number.
-- Gateway references are numbers too. What only describes a row (method, signature, raw payload,
-- notes, dates, the timeline) is left out.
pub mod Captures
pub mod Rows
pub mod Replay
pub mod Balance
pub mod Settlement
pub mod Captured
pub mod Failed
pub mod Refunds
pub mod RefundCap
pub mod RefundReplay
pub mod Kept
pub mod RefundKept
pub mod Redelivery
pub mod Webhooks
pub mod RefundKeys
use achichiz_back_end.Prelude.{
  Bool, List, Option, [], false, if◌then◌else◌, none, some, true, ℕ, ◌&&◌, ◌+◌, ◌==◌, ◌∷◌,
}
use achichiz_back_end.Orders.{OrderStatus}

-- `orders.payment_status`.
pub data SettlementStatus : Type 0 where
  settlement_pending settlement_paid settlement_failed : SettlementStatus
  partially_refunded settlement_refunded cod_due : SettlementStatus

-- `PAYMENT_STATUSES`.
pub data PaymentStatus : Type 0 where
  created authorised captured failed payment_cancelled payment_refunded : PaymentStatus

-- `REFUND_STATUSES`.
pub data RefundStatus : Type 0 where
  initiated processing completed refund_failed : RefundStatus

pub record Order : Type 0 where
  pub total_paise : ℕ
  pub amount_paid_paise : ℕ
  pub amount_refunded_paise : ℕ
  pub status : OrderStatus
  pub payment_status : SettlementStatus
  pub cart_id : Option ℕ

pub record Payment : Type 0 where
  pub id : ℕ
  pub order_id : ℕ
  pub is_razorpay : Bool
  pub gateway_payment_id : Option ℕ
  pub gateway_order_id : Option ℕ
  pub amount_paise : ℕ
  pub status : PaymentStatus

pub record Refund : Type 0 where
  pub id : ℕ
  pub order_id : ℕ
  pub payment_id : Option ℕ
  pub amount_paise : ℕ
  pub status : RefundStatus
  pub gateway_refund_id : Option ℕ
  pub idempotency_key : Option ℕ

-- `next_id` is an identifier that no row has yet. `converted` holds carts with their orders.
pub record Store : Type 0 where
  pub orders : ℕ → Option Order
  pub payments : List Payment
  pub refunds : List Refund
  pub next_id : ℕ
  pub converted : List (ℕ × ℕ)

-- `ApplyOutcome`; `is_deferred` where it carries a reason.
pub record ApplyOutcome : Type 0 where
  pub order_id : Option ℕ
  pub payment_id : Option ℕ
  pub changed : Bool
  pub is_deferred : Bool

abbrev pub nothing_to_do : ApplyOutcome
nothing_to_do = record { order_id = none; payment_id = none; changed = false; is_deferred = false }

abbrev pub same_key : Option ℕ → ℕ → Bool
same_key none key = false
same_key (some own) key = own == key

-- `gateway = 'razorpay'` and the gateway's payment id.
abbrev pub has_gateway_payment_id : ℕ → Payment → Bool
has_gateway_payment_id key p = p.is_razorpay && same_key p.gateway_payment_id key

abbrev pub has_gateway_order_id : ℕ → Payment → Bool
has_gateway_order_id key p = p.is_razorpay && same_key p.gateway_order_id key

-- The first row that passes a test.
unfoldable pub first_of {ℓ} : {A : Type ℓ} → (A → Bool) → List A → Option A
first_of test [] = none
first_of test (x ∷ xs) = let later = first_of test xs in if test x then some x else later

unfoldable pub find_payment_by_gateway_payment_id : ℕ → List Payment → Option Payment
find_payment_by_gateway_payment_id key ps = first_of (has_gateway_payment_id key) ps

unfoldable pub find_payment_by_gateway_order_id : ℕ → List Payment → Option Payment
find_payment_by_gateway_order_id key ps = first_of (has_gateway_order_id key) ps

unfoldable pub update_payment : ℕ → (Payment → Payment) → List Payment → List Payment
update_payment id write [] = []
update_payment id write (p ∷ ps) = (if p.id == id then write p else p) ∷ update_payment id write ps

unfoldable pub update_refund : ℕ → (Refund → Refund) → List Refund → List Refund
update_refund id write [] = []
update_refund id write (r ∷ rs) = (if r.id == id then write r else r) ∷ update_refund id write rs

unfoldable pub update_order : ℕ → Order → Store → Store
update_order id order s = record s { orders = λ j. if j == id then some order else s.orders j }

abbrev pub is_captured : Payment → Bool
is_captured p = elim p.status [
  | captured ↦ true
  | created ↦ false
  | authorised ↦ false
  | failed ↦ false
  | payment_cancelled ↦ false
  | payment_refunded ↦ false
]

-- A refund that is not failed is money that is committed.
abbrev pub is_committed : RefundStatus → Bool
is_committed refund_failed = false
is_committed _ = true

unfoldable pub sum_committed_refunds_paise : ℕ → List Refund → ℕ
sum_committed_refunds_paise order_id [] = 0
sum_committed_refunds_paise order_id (r ∷ rs) =
    let rest = sum_committed_refunds_paise order_id rs in
    if (r.order_id == order_id) && is_committed r.status then r.amount_paise + rest else rest
