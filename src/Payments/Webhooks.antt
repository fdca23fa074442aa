-- ===== src/Payments/Webhooks.antt =====
-- `dispatch` of src/modules/webhooks/webhooks.service.ts: an event of the gateway, and who handles it.
use achichiz_back_end.Prelude.{Bool, List, [], false, true, ℕ, ◌∷◌}
use achichiz_back_end.Payments.{ApplyOutcome, Store, nothing_to_do}
use achichiz_back_end.Payments.Captures.{
  Capture, Failure, apply_payment_captured, apply_payment_failed,
}
use achichiz_back_end.Payments.Refunds.{RefundEvent, apply_refund_failed, apply_refund_processed}

-- An event with what its handler reads; `incomplete` is one whose body lacks that, `acknowledged` one
-- of any other type.
pub data GatewayEvent : Type 0 where
  payment_captured : Capture → GatewayEvent
  payment_failed : Failure → GatewayEvent
  refund_processed : RefundEvent → GatewayEvent
  refund_failed_event : ℕ → GatewayEvent
  incomplete acknowledged : GatewayEvent

unfoldable pub dispatch : GatewayEvent → Store → ApplyOutcome × Store
dispatch (payment_captured c) s = apply_payment_captured c s
dispatch (payment_failed f) s = apply_payment_failed f s
dispatch (refund_processed event) s = apply_refund_processed event s
dispatch (refund_failed_event gateway_refund_id) s = apply_refund_failed gateway_refund_id s
dispatch incomplete s = (record nothing_to_do { is_deferred = true }, s)
dispatch acknowledged s = (nothing_to_do, s)

-- Events one after the other.
unfoldable pub dispatch_all : List GatewayEvent → Store → Store
dispatch_all [] s = s
dispatch_all (event ∷ events) s = dispatch_all events ((dispatch event s).1)

abbrev pub is_payment_failed : GatewayEvent → Bool
is_payment_failed (payment_failed _) = true
is_payment_failed _ = false

abbrev pub is_refund_failed : GatewayEvent → Bool
is_refund_failed (refund_failed_event _) = true
is_refund_failed _ = false
