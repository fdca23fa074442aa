-- ===== src/Payments/Replay.antt =====
-- What the delivery of a capture does, and that of one that is recorded.
use mathlib.Core.Path.{subst}
use achichiz_back_end.Prelude.{
  List, Option, Option-cases, arith, false, inl, inr, none, refl, some, sym, true, ℕ, ◌==◌, ◌∙◌,
  ◌≡◌, ◌≢◌, ◌⊎◌,
}
use achichiz_back_end.Payments.{
  ApplyOutcome, Order, Payment, Store, find_payment_by_gateway_order_id,
  find_payment_by_gateway_payment_id, first_of, has_gateway_order_id, has_gateway_payment_id,
  is_captured, update_order,
}
use achichiz_back_end.Payments.Captures.{
  AmountIssue, Capture, apply_payment_captured, capture_amount_issue, capture_in_transaction,
  capture_row, captured_row, claim_row, credit, fatal, find_session, inserted_row,
  mark_cart_converted, mismatch, no_issue, record_capture,
}
use achichiz_back_end.Payments.Rows.{first_of-claim, first_of-update_payment}
use achichiz_back_end.Prelude.Int.{pos_part}

-- The gateway's payment is on a row that is captured.
pub record IsRecorded (key : ℕ) (ps : List Payment) : Type 0 where
  pub row : Payment
  pub there : find_payment_by_gateway_payment_id key ps ≡ some row
  pub done : is_captured row ≡ true

find_session-is_razorpay :
    (key : ℕ) (p : Payment) → has_gateway_order_id key p ≡ true → p.is_razorpay ≡ true
find_session-is_razorpay key p e = ground arith

claim_row-found :
    (key amount : ℕ) (q : Payment)
    → has_gateway_payment_id key (claim_row key amount q) ≡ q.is_razorpay
claim_row-found key amount q = ground arith

-- A session is a row of the gateway that is there.
pub find_session-new :
    (order_key : Option ℕ) (ps : List Payment) {session : Payment}
    → find_session none order_key ps ≡ some session
    → (key : ℕ) × (first_of (has_gateway_order_id key) ps ≡ some session)
unfolding find_session find_payment_by_gateway_order_id
find_session-new none ps e = cc
find_session-new (some key) ps e = (key, e)

-- A payment that is not known is found once its capture is recorded.
record_capture-new :
    (c : Capture) (amount : ℕ) (session : Payment) (s : Store)
    → find_payment_by_gateway_payment_id c.gateway_payment_id s.payments ≡ none
    → find_session none c.gateway_order_id s.payments ≡ some session
    → IsRecorded c.gateway_payment_id ((record_capture c amount session none s).1.payments)
unfolding record_capture find_payment_by_gateway_payment_id first_of
record_capture-new c amount session s missing e =
    let key = c.gateway_payment_id in
    let (order_key, there) = find_session-new c.gateway_order_id s.payments e in
    elim (Option-cases session.gateway_payment_id) [
      | inl open_session ↦
          let (q, row_there) =
            first_of-claim (has_gateway_payment_id key) (claim_row key amount)
              (has_gateway_order_id order_key) s.payments (claim_row-found key amount)
              (find_session-is_razorpay order_key) missing there in
          rw (record_capture, open_session)
            (record { row = claim_row key amount q; there = row_there; done = refl })
      | inr (other, used) ↦
          let own : (key == key) ≡ true = ground arith in
          rw (record_capture, used)
            (record {
              row = inserted_row c amount session.order_id s.next_id;
              there = rw (first_of, own) refl;
              done = refl;
            })
    ]

-- Whichever way the capture is recorded, it is found.
record_capture-IsRecorded :
    (c : Capture) (amount : ℕ) (session : Payment) (s : Store) (fresh : Option Payment)
    → find_payment_by_gateway_payment_id c.gateway_payment_id s.payments ≡ fresh
    → find_session fresh c.gateway_order_id s.payments ≡ some session
    → IsRecorded c.gateway_payment_id ((record_capture c amount session fresh s).1.payments)
unfolding record_capture find_payment_by_gateway_payment_id
record_capture-IsRecorded c amount session s none missing e =
    record_capture-new c amount session s missing e
record_capture-IsRecorded c amount session s (some fresh) known e = record {
  row = capture_row amount fresh;
  there =
      first_of-update_payment (has_gateway_payment_id c.gateway_payment_id) (capture_row amount)
        s.payments (λ q. refl) known;
  done = refl;
}

pub true_not_false : true ≢ false
true_not_false e = cc

mark_cart_converted-rows :
    (order_id amount : ℕ) (order : Order) (s : Store)
    → ((mark_cart_converted order_id amount order s).payments ≡ s.payments)
      × ((mark_cart_converted order_id amount order s).refunds ≡ s.refunds)
mark_cart_converted-rows order_id amount order s = ground arith

record_capture-refunds :
    (c : Capture) (amount : ℕ) (session : Payment) (fresh : Option Payment) (s : Store)
    → ((record_capture c amount session fresh s).1).refunds ≡ s.refunds
unfolding record_capture
record_capture-refunds c amount session fresh s = ground arith

-- What is known of the capture's payment.
abbrev pub known_row : Capture → Store → Option Payment
known_row c s = find_payment_by_gateway_payment_id c.gateway_payment_id s.payments

-- The capture is recorded, and no refund changes.
pub record HasRecorded (c : Capture) (s s' : Store) : Type 0 where
  pub amount : ℕ
  pub session : Payment
  pub found : find_session (known_row c s) c.gateway_order_id s.payments ≡ some session
  pub payments : s'.payments ≡ (record_capture c amount session (known_row c s) s).1.payments
  pub refunds : s'.refunds ≡ s.refunds

module _ (c : Capture) (s : Store) where
  -- A delivery: nothing changes, or the capture is recorded.
  abbrev pub IsTaken : ApplyOutcome × Store → Type 0
  IsTaken (o, s') = ((o.changed ≡ false) × (s' ≡ s)) ⊎ HasRecorded c s s'

  capture_in_transaction-IsTaken :
      (amount : ℕ) (session : Payment)
      → find_session (known_row c s) c.gateway_order_id s.payments ≡ some session
      → IsTaken (capture_in_transaction c amount session s)
  unfolding capture_in_transaction update_order
  capture_in_transaction-IsTaken amount session e =
      elim (Option-cases (s.orders session.order_id)) [
        | inl missing ↦ rw (capture_in_transaction, missing) (inl (refl, refl))
        | inr (order, there) ↦ elim (Option-cases (captured_row (known_row c s))) [
          | inr (row, done) ↦ rw (capture_in_transaction, there, done) (inl (refl, refl))
          | inl undone ↦
              let recorded = (record_capture c amount session (known_row c s) s).1 in
              let (payments, refunds) =
                mark_cart_converted-rows session.order_id amount order
                  (update_order session.order_id (credit amount order) recorded) in
              rw (capture_in_transaction, there, undone)
                (inr (record {
                  amount = amount;
                  session = session;
                  found = e;
                  payments = payments;
                  refunds = refunds ∙ record_capture-refunds c amount session (known_row c s) s;
                }))
        ]
      ]

  by_issue :
      (issue : AmountIssue) (refused done : ApplyOutcome × Store)
      → IsTaken refused
      → IsTaken done
      → IsTaken (elim issue [ fatal ↦ refused | mismatch ↦ done | no_issue ↦ done ])
  by_issue fatal refused done r d = r
  by_issue mismatch refused done r d = d
  by_issue no_issue refused done r d = d

  pub apply_payment_captured-IsTaken : IsTaken (apply_payment_captured c s)
  unfolding apply_payment_captured
  apply_payment_captured-IsTaken = elim (Option-cases (captured_row (known_row c s))) [
    | inr (row, done) ↦ rw (apply_payment_captured, done) (inl (refl, refl))
    | inl undone ↦
        elim (Option-cases (find_session (known_row c s) c.gateway_order_id s.payments)) [
          | inl missing ↦ rw (apply_payment_captured, undone, missing) (inl (refl, refl))
          | inr (session, there) ↦
              rw (apply_payment_captured, undone, there)
                (by_issue (capture_amount_issue c.amount_paise (some session.amount_paise)) _ _
                  (inl (refl, refl))
                  (capture_in_transaction-IsTaken (pos_part c.amount_paise) session there))
        ]
  ]

  -- A capture that changes something is on a captured row afterwards.
  pub apply_payment_captured-IsRecorded :
      (apply_payment_captured c s).0.changed ≡ true
      → IsRecorded c.gateway_payment_id ((apply_payment_captured c s).1.payments)
  apply_payment_captured-IsRecorded changed = elim apply_payment_captured-IsTaken [
    | inl (unchanged, _) ↦ elim (true_not_false (sym changed ∙ unchanged)) [ ]
    | inr r ↦
        subst (IsRecorded c.gateway_payment_id) (sym r.payments)
          (record_capture-IsRecorded c r.amount r.session s (known_row c s) refl r.found)
  ]

pub recorded-apply_payment_captured :
    (c : Capture) (s : Store)
    → IsRecorded c.gateway_payment_id s.payments
    → ((apply_payment_captured c s).1 ≡ s) × ((apply_payment_captured c s).0.changed ≡ false)
unfolding apply_payment_captured
recorded-apply_payment_captured c s r =
    let found_row : captured_row
          (find_payment_by_gateway_payment_id c.gateway_payment_id s.payments)
        ≡ some r.row =
      rw (r.there, r.done) refl in
    rw (apply_payment_captured, found_row) (refl, refl)
