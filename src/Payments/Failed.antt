-- ===== src/Payments/Failed.antt =====
-- A failure keeps the books of an order, unless it comes for a row that another payment captured.
use mathlib.Core.Option.{some-injective}
use achichiz_back_end.Prelude.{
  Bool, Bool-cases, Option, Option-cases, ap, arith, false, inl, inr, none, not, refl, some, sym,
  true, ℕ, ◌+◌, ◌<◌, ◌==◌, ◌||◌, ◌∙◌, ◌≡◌, ◌≢◌,
}
use achichiz_back_end.Payments.{
  Order, Payment, Store, find_payment_by_gateway_payment_id, first_of, has_gateway_order_id,
  has_gateway_payment_id, is_captured, update_order, update_payment,
}
use achichiz_back_end.Payments.Captures.{
  Failure, apply_payment_failed, fail_in_transaction, fail_row, find_session, is_created, is_failed,
  mark_failed, outcome_of, row_unless, target_of,
}
use achichiz_back_end.Payments.Replay.{find_session-new}
use achichiz_back_end.Payments.Balance.{
  All-update_payment, Distinct-update_payment, IsBalanced, captured_sum,
  captured_sum-update_payment, part,
}

update_order-mark_failed :
    (order : Order) → (mark_failed order).amount_paid_paise ≡ order.amount_paid_paise
update_order-mark_failed order = ground arith

module _ (otherwise : ℕ → ℕ) (s : Store) (h : IsBalanced otherwise s) where
  -- The rows that a failure writes.
  failed_rows-sum :
      (test : Payment → Bool) (key : ℕ) (target : Payment)
      → first_of test s.payments ≡ some target
      → (o : ℕ)
      → captured_sum o (update_payment target.id (fail_row key) s.payments) + part o target
        ≡ captured_sum o s.payments
  failed_rows-sum test key target there o =
      let e = captured_sum-update_payment o test (fail_row key) s.payments h.distinct there in
      let gone : part o (fail_row key target) ≡ 0 = ground arith in omega arith

  failed-IsBalanced :
      (test : Payment → Bool) (key : ℕ) (target : Payment) (order_id : ℕ) (order : Order)
      → first_of test s.payments ≡ some target
      → is_captured target ≡ false
      → s.orders order_id ≡ some order
      → IsBalanced otherwise (
          update_order order_id
            (mark_failed order)
            (record s { payments = update_payment target.id (fail_row key) s.payments }))
  unfolding update_order
  failed-IsBalanced test key target order_id order there uncaught found_order = record {
    distinct = Distinct-update_payment target.id (fail_row key) s.payments (λ p. refl) h.distinct;
    bounded =
        All-update_payment target.id (fail_row key) (λ (p : Payment). p.id < s.next_id) s.payments
          (λ p _ b. b) h.bounded;
    keyed =
        All-update_payment target.id (fail_row key)
          (λ (p : Payment). is_captured p ≡ true → p.gateway_payment_id ≢ none) s.payments
          (λ p _ _ done gone. cc) h.keyed;
    paid_up = λ o order' e.
        let sums = failed_rows-sum test key target there o in
        let none_lost : part o target ≡ 0 = rw uncaught (ground arith) in
        elim (Bool-cases (o == order_id)) [
          | inl own ↦
              let now : mark_failed order ≡ order' = some-injective _ _ (rw own at e) in
              let same : o ≡ order_id = ground arith in
              let before = h.paid_up o order (rw same found_order) in
              let amount : order'.amount_paid_paise ≡ order.amount_paid_paise =
                ap (λ (x : Order). x.amount_paid_paise) (sym now)
                ∙ update_order-mark_failed order in
              omega arith
          | inr other ↦ let before = h.paid_up o order' (rw other at e) in omega arith
        ];
  }

-- A failure that nothing stands in the way of.
fail_in_transaction-ok :
    (f : Failure) (s : Store) (session : Payment) (order : Order) (fresh : Option Payment)
    → s.orders session.order_id ≡ some order
    → find_payment_by_gateway_payment_id f.gateway_payment_id s.payments ≡ fresh
    → row_unless is_created fresh ≡ none
    → fail_in_transaction f session s ≡ (
      outcome_of session.order_id ((target_of fresh session).id) true,
      update_order session.order_id (mark_failed order) (record s {
        payments =
            update_payment
              ((target_of fresh session).id)
              (fail_row f.gateway_payment_id)
              s.payments;
      }),
    )
unfolding fail_in_transaction
fail_in_transaction-ok f s session order fresh there known free =
    let free' : row_unless is_created
          (find_payment_by_gateway_payment_id f.gateway_payment_id s.payments)
        ≡ none =
      rw known free in
    rw (fail_in_transaction, there, free', known) refl

created-uncaptured : (p : Payment) → row_unless is_created (some p) ≡ none → is_captured p ≡ false
created-uncaptured p e = ground arith

module _ (otherwise : ℕ → ℕ) (f : Failure) (s : Store) (h : IsBalanced otherwise s) where
  fail_in_transaction-IsBalanced :
      (session : Payment) (fresh : Option Payment)
      → find_payment_by_gateway_payment_id f.gateway_payment_id s.payments ≡ fresh
      → find_session fresh f.gateway_order_id s.payments ≡ some session
      → ((open_session : Payment)
          → find_session none f.gateway_order_id s.payments ≡ some open_session
          → is_captured open_session ≡ false)
      → IsBalanced otherwise ((fail_in_transaction f session s).1)
  unfolding fail_in_transaction find_session find_payment_by_gateway_payment_id
  fail_in_transaction-IsBalanced session none known e uncaught =
      elim (Option-cases (s.orders session.order_id)) [
        | inl missing ↦ rw (fail_in_transaction, missing) h
        | inr (order, there) ↦
            let (order_key, row_there) = find_session-new f.gateway_order_id s.payments e in
            rw (fail_in_transaction-ok f s session order none there known refl) (
              failed-IsBalanced otherwise s h (has_gateway_order_id order_key) f.gateway_payment_id
                session session.order_id order row_there (uncaught session e) there)
      ]
  fail_in_transaction-IsBalanced session (some row) known e uncaught =
      elim (Option-cases (s.orders session.order_id)) [
        | inl missing ↦ rw (fail_in_transaction, missing) h
        | inr (order, there) ↦ elim (Option-cases (row_unless is_created (some row))) [
          | inr (other, stands) ↦ rw (fail_in_transaction, there, known, stands) h
          | inl free ↦ rw (fail_in_transaction-ok f s session order (some row) there known free) (
              failed-IsBalanced otherwise s h (has_gateway_payment_id f.gateway_payment_id)
                f.gateway_payment_id row session.order_id order known (created-uncaptured row free)
                there)
        ]
      ]

  -- A failure keeps a balanced store balanced where the session that the gateway's order leads to
  -- is not captured.
  pub apply_payment_failed-IsBalanced :
      ((open_session : Payment)
        → find_session none f.gateway_order_id s.payments ≡ some open_session
        → is_captured open_session ≡ false)
      → IsBalanced otherwise ((apply_payment_failed f s).1)
  unfolding apply_payment_failed
  apply_payment_failed-IsBalanced uncaught =
      let known = find_payment_by_gateway_payment_id f.gateway_payment_id s.payments in
      elim (Option-cases (row_unless (λ (p : Payment). not (is_failed p || is_captured p)) known)) [
        | inr (row, done) ↦ rw (apply_payment_failed, done) h
        | inl undone ↦ elim (Option-cases (find_session known f.gateway_order_id s.payments)) [
          | inl missing ↦ rw (apply_payment_failed, undone, missing) h
          | inr (session, there) ↦
              rw (apply_payment_failed, undone, there)
                (fail_in_transaction-IsBalanced session known refl there uncaught)
        ]
      ]

  -- In a balanced store, the failure of a payment that is not known, for a gateway order whose
  -- newest row another payment captured: the order still says that it was paid as much, and its
  -- captured rows sum up to less, by the amount of that row.
  pub apply_payment_failed-late :
      (session : Payment) (order : Order)
      → find_payment_by_gateway_payment_id f.gateway_payment_id s.payments ≡ none
      → find_session none f.gateway_order_id s.payments ≡ some session
      → is_captured session ≡ true
      → s.orders session.order_id ≡ some order
      → let s' = (apply_payment_failed f s).1 in
        ((order' : Order) × (s'.orders session.order_id ≡ some order')
          × (order'.amount_paid_paise ≡ order.amount_paid_paise))
        × (captured_sum session.order_id s'.payments + session.amount_paise
            ≡ captured_sum session.order_id s.payments)
  unfolding apply_payment_failed fail_in_transaction update_order
  apply_payment_failed-late session order unknown there done order_there =
      let row_undone : row_unless (λ (p : Payment). not (is_failed p || is_captured p))
            (find_payment_by_gateway_payment_id f.gateway_payment_id s.payments)
          ≡ none =
        rw unknown refl in
      let session_there : find_session
            (find_payment_by_gateway_payment_id f.gateway_payment_id s.payments) f.gateway_order_id
            s.payments
          ≡ some session =
        rw unknown there in
      let (order_key, row_there) = find_session-new f.gateway_order_id s.payments there in
      let sums =
        failed_rows-sum otherwise s h (has_gateway_order_id order_key) f.gateway_payment_id session
          row_there session.order_id in
      let all : part session.order_id session ≡ session.amount_paise = rw done (ground arith) in
      let own : (session.order_id == session.order_id) ≡ true = ground arith in
      rw
        (
          apply_payment_failed,
          row_undone,
          session_there,
          fail_in_transaction-ok f s session order none order_there unknown refl,
        )
        ((mark_failed order, rw own refl, update_order-mark_failed order), rw all at sums)
