-- ===== src/Payments/RefundReplay.antt =====
-- What the confirmation of a refund does, and that of one that is completed.
use mathlib.Core.Option.{some-injective}
use mathlib.Core.Path.{subst}
use achichiz_back_end.Prelude.{
  Bool, Bool-cases, List, Option, Option-cases, [], arith, false, inl, inr, none, refl, some, sym,
  true, ℕ, ◌==◌, ◌∙◌, ◌∷◌, ◌≡◌, ◌⊎◌,
}
use achichiz_back_end.Payments.{
  ApplyOutcome, Refund, Store, find_payment_by_gateway_payment_id, first_of, update_order,
  update_refund,
}
use achichiz_back_end.Payments.Replay.{true_not_false}
use achichiz_back_end.Payments.Refunds.{
  RefundEvent, apply_refund_processed, complete_row, completed_row, find_refund_by_gateway_id,
  gateway_row, has_gateway_refund_id, is_completed, record_refund, refund_processed_in_transaction,
}

-- The row that is found is written, and is found again.
first_of-update_refund :
    (test : Refund → Bool) (write : Refund → Refund) (rs : List Refund) {r : Refund}
    → ((q : Refund) → test (write q) ≡ test q)
    → first_of test rs ≡ some r
    → first_of test (update_refund r.id write rs) ≡ some (write r)
unfolding first_of update_refund
first_of-update_refund test write [] keeps e = cc
first_of-update_refund test write (q ∷ rs) {r} keeps e = elim (Bool-cases (test q)) [
  | inl passes ↦
      subst (λ (x : Refund). first_of test (update_refund x.id write (q ∷ rs)) ≡ some (write x))
        (some-injective _ _ (rw passes at e))
        (let own : (q.id == q.id) ≡ true = ground arith in
          rw (update_refund, own, first_of, keeps q, passes) refl)
  | inr fails ↦ elim (Bool-cases (q.id == r.id)) [
    | inl same ↦
        rw (update_refund, same, first_of, keeps q, fails)
          (first_of-update_refund test write rs keeps (rw fails at e))
    | inr other ↦
        rw (update_refund, other, first_of, fails)
          (first_of-update_refund test write rs keeps (rw fails at e))
  ]
]

-- The gateway's refund is on a row that is completed.
pub record IsCompleted (key : ℕ) (rs : List Refund) : Type 0 where
  pub row : Refund
  pub there : find_refund_by_gateway_id key rs ≡ some row
  pub done : is_completed row ≡ true

record_refund-IsCompleted :
    (event : RefundEvent) (order_id payment_id : ℕ) (s : Store) (fresh : Option Refund)
    → find_refund_by_gateway_id event.gateway_refund_id s.refunds ≡ fresh
    → IsCompleted event.gateway_refund_id
        ((record_refund event order_id payment_id fresh s).refunds)
unfolding record_refund find_refund_by_gateway_id first_of
record_refund-IsCompleted event order_id payment_id s none e =
    let own : (event.gateway_refund_id == event.gateway_refund_id) ≡ true = ground arith in
    record {
      row = gateway_row event order_id payment_id s.next_id;
      there = rw own refl;
      done = refl;
    }
record_refund-IsCompleted event order_id payment_id s (some fresh) e = record {
  row = complete_row fresh;
  there =
      first_of-update_refund (has_gateway_refund_id event.gateway_refund_id) complete_row s.refunds
        (λ q. refl) e;
  done = refl;
}

-- What is known of the event's refund.
abbrev pub known_refund : RefundEvent → Store → Option Refund
known_refund event s = find_refund_by_gateway_id event.gateway_refund_id s.refunds

-- The refund is recorded, and no payment changes.
pub record HasRefunded (event : RefundEvent) (s s' : Store) : Type 0 where
  pub order_id : ℕ
  pub payment_id : ℕ
  pub refunds :
      s'.refunds ≡ (record_refund event order_id payment_id (known_refund event s) s).refunds
  pub payments : s'.payments ≡ s.payments

module _ (event : RefundEvent) (s : Store) where
  -- An event: nothing changes, or the refund is recorded.
  abbrev pub IsApplied : ApplyOutcome × Store → Type 0
  IsApplied (o, s') = ((o.changed ≡ false) × (s' ≡ s)) ⊎ HasRefunded event s s'

  record_refund-payments :
      (order_id payment_id : ℕ) (fresh : Option Refund)
      → (record_refund event order_id payment_id fresh s).payments ≡ s.payments
  unfolding record_refund
  record_refund-payments order_id payment_id none = refl
  record_refund-payments order_id payment_id (some fresh) = refl

  pub apply_refund_processed-IsApplied : IsApplied (apply_refund_processed event s)
  unfolding apply_refund_processed refund_processed_in_transaction update_order
  apply_refund_processed-IsApplied =
      let known = known_refund event s in
      elim (Option-cases (find_payment_by_gateway_payment_id event.gateway_payment_id s.payments)) [
        | inl unknown ↦ rw (apply_refund_processed, unknown) (inl (refl, refl))
        | inr (payment, there) ↦ elim (Option-cases (completed_row known)) [
          | inr (row, done) ↦ rw (apply_refund_processed, there, done) (inl (refl, refl))
          | inl undone ↦ elim (Option-cases (s.orders payment.order_id)) [
            | inl missing ↦
                rw (apply_refund_processed, there, undone, refund_processed_in_transaction, missing)
                  (inl (refl, refl))
            | inr (order, order_there) ↦
                rw
                  (
                    apply_refund_processed, there, undone, refund_processed_in_transaction,
                    order_there, undone,
                  )
                  (inr (record {
                    order_id = payment.order_id;
                    payment_id = payment.id;
                    refunds = refl;
                    payments = record_refund-payments payment.order_id payment.id known;
                  }))
          ]
        ]
      ]

  -- A confirmation that changes something is on a completed row afterwards.
  pub apply_refund_processed-IsCompleted :
      (apply_refund_processed event s).0.changed ≡ true
      → IsCompleted event.gateway_refund_id ((apply_refund_processed event s).1.refunds)
  apply_refund_processed-IsCompleted changed = elim apply_refund_processed-IsApplied [
    | inl (unchanged, _) ↦ elim (true_not_false (sym changed ∙ unchanged)) [ ]
    | inr r ↦
        subst (IsCompleted event.gateway_refund_id) (sym r.refunds)
          (record_refund-IsCompleted event r.order_id r.payment_id s (known_refund event s) refl)
  ]

pub completed-apply_refund_processed :
    (event : RefundEvent) (s : Store)
    → IsCompleted event.gateway_refund_id s.refunds
    → ((apply_refund_processed event s).1 ≡ s)
      × ((apply_refund_processed event s).0.changed ≡ false)
unfolding apply_refund_processed
completed-apply_refund_processed event s r =
    elim (Option-cases (find_payment_by_gateway_payment_id event.gateway_payment_id s.payments)) [
      | inl unknown ↦ rw (apply_refund_processed, unknown) (refl, refl)
      | inr (payment, there) ↦
          let done_row : completed_row (find_refund_by_gateway_id event.gateway_refund_id s.refunds)
              ≡ some r.row =
            rw (r.there, r.done) refl in
          rw (apply_refund_processed, there, done_row) (refl, refl)
    ]
