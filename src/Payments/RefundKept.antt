-- ===== src/Payments/RefundKept.antt =====
-- What the confirmations of the gateway keep of the rows of refunds that are completed.
use mathlib.Core.Option.{some-injective}
use mathlib.Core.Path.{subst}
use achichiz_back_end.Prelude.{
  Bool-cases, List, Option, [], inl, inr, none, refl, some, sym, true, ℕ, ◌==◌, ◌∷◌, ◌≡◌,
}
use achichiz_back_end.Payments.{Refund, Store, first_of, update_refund}
use achichiz_back_end.Payments.Refunds.{
  RefundEvent, apply_refund_processed, complete_row, find_refund_by_gateway_id, gateway_row,
  has_gateway_refund_id, is_completed, record_refund,
}
use achichiz_back_end.Payments.RefundReplay.{
  IsCompleted, apply_refund_processed-IsApplied, known_refund,
}

-- Completing any row, the row of a refund that is completed stays so.
complete_row-keeps :
    (key id : ℕ) (rs : List Refund) {row : Refund}
    → first_of (has_gateway_refund_id key) rs ≡ some row
    → is_completed row ≡ true
    → (after : Refund) × (first_of (has_gateway_refund_id key) (update_refund id complete_row rs)
        ≡ some after)
      × (is_completed after ≡ true)
unfolding first_of update_refund
complete_row-keeps key id [] e done = cc
complete_row-keeps key id (q ∷ rs) {row} e done = elim (Bool-cases (has_gateway_refund_id key q)) [
  | inr fails ↦
      let (after, there, completed_still) = complete_row-keeps key id rs (rw fails at e) done in
      elim (Bool-cases (q.id == id)) [
        | inl same ↦ (after, rw (update_refund, same, first_of, fails) there, completed_still)
        | inr other ↦ (after, rw (update_refund, other, first_of, fails) there, completed_still)
      ]
  | inl passes ↦ elim (Bool-cases (q.id == id)) [
    | inl same ↦ (complete_row q, rw (update_refund, same, first_of, passes) refl, refl)
    | inr other ↦
        let here : q ≡ row = some-injective _ _ (rw passes at e) in
        (q, rw (update_refund, other, first_of, passes) refl, rw here done)
  ]
]

record_refund-keeps :
    (event : RefundEvent) (key order_id payment_id : ℕ) (fresh : Option Refund) (s : Store)
    → IsCompleted key s.refunds
    → IsCompleted key ((record_refund event order_id payment_id fresh s).refunds)
unfolding record_refund find_refund_by_gateway_id first_of
record_refund-keeps event key order_id payment_id (some fresh) s r =
    let (after, there, done) = complete_row-keeps key fresh.id s.refunds r.there r.done in
    record { row = after; there = there; done = done }
record_refund-keeps event key order_id payment_id none s r =
    let row = gateway_row event order_id payment_id s.next_id in
    elim (Bool-cases (has_gateway_refund_id key row)) [
      | inl own ↦ record { row = row; there = rw (first_of, own) refl; done = refl }
      | inr other ↦ record { row = r.row; there = rw (first_of, other) r.there; done = r.done }
    ]

pub apply_refund_processed-keeps :
    (event : RefundEvent) (key : ℕ) (s : Store)
    → IsCompleted key s.refunds
    → IsCompleted key ((apply_refund_processed event s).1.refunds)
apply_refund_processed-keeps event key s r = elim (apply_refund_processed-IsApplied event s) [
  | inl (_, kept) ↦ rw kept r
  | inr applied ↦
      subst (IsCompleted key) (sym applied.refunds) (
        record_refund-keeps event key applied.order_id applied.payment_id (known_refund event s) s
          r)
]
