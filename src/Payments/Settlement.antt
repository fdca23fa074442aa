-- ===== src/Payments/Settlement.antt =====
-- The rows and the order after a capture is recorded.
use mathlib.Core.Option.{some-injective}
use mathlib.Core.Path.{subst}
use achichiz_back_end.Prelude.{
  All, All-implies, Bool, Bool-cases, Distinct, Option, Option-cases, ap, arith, false,
  if◌then◌else◌, inl, inr, none, refl, some, suc, sym, true, ℕ, ◌+◌, ◌<◌, ◌==◌, ◌∙◌, ◌∷◌, ◌≡◌, ◌≢◌,
}
use achichiz_back_end.Payments.{
  Order, Payment, Store, find_payment_by_gateway_payment_id, first_of, has_gateway_order_id,
  has_gateway_payment_id, is_captured, update_order, update_payment,
}
use achichiz_back_end.Payments.Replay.{find_session-new}
use achichiz_back_end.Payments.Balance.{
  All-first_of, All-update_found, All-update_payment, Distinct-update_payment, IsBalanced,
  captured_sum, captured_sum-update_payment, part,
}
use achichiz_back_end.Payments.Captures.{
  Capture, capture_row, captured_row, claim_row, credit, find_session, inserted_row, record_capture,
}
use achichiz_back_end.Payments.Rows.{first_of-passes}

-- What a capture adds to an order.
abbrev credit_of : ℕ → Payment → ℕ → ℕ
credit_of amount session o = if session.order_id == o then amount else 0

uncaptured : (p : Payment) → captured_row (some p) ≡ none → is_captured p ≡ false
uncaptured p e = ground arith

keyed_row :
    (key : ℕ) (p : Payment) → has_gateway_payment_id key p ≡ true → p.gateway_payment_id ≢ none
keyed_row key p e = ground arith

module _ (otherwise : ℕ → ℕ) (s : Store) (h : IsBalanced otherwise s) where
  -- The rows after a capture is recorded.
  pub record RowsAfter (amount : ℕ) (session : Payment) (s' : Store) : Type 0 where
    pub distinct : Distinct (λ (p : Payment). p.id) s'.payments
    pub bounded : All (λ (p : Payment). p.id < s'.next_id) s'.payments
    pub keyed :
        All (λ (p : Payment). is_captured p ≡ true → p.gateway_payment_id ≢ none) s'.payments
    pub sums :
        (o : ℕ)
        → captured_sum o s'.payments ≡ captured_sum o s.payments + credit_of amount session o
    pub same_orders : s'.orders ≡ s.orders

  -- A row that is not captured is written as captured.
  written-RowsAfter :
      (test : Payment → Bool) (write : Payment → Payment) (session : Payment)
      → first_of test s.payments ≡ some session
      → is_captured session ≡ false
      → ((p : Payment) → (write p).id ≡ p.id)
      → (write session).order_id ≡ session.order_id
      → is_captured (write session) ≡ true
      → (write session).gateway_payment_id ≢ none
      → RowsAfter
          (write session).amount_paise
          session
          (record s { payments = update_payment session.id write s.payments })
  written-RowsAfter test write session there fresh ids order done has_key = record {
    distinct = Distinct-update_payment session.id write s.payments ids h.distinct;
    bounded =
        All-update_payment session.id write (λ (p : Payment). p.id < s.next_id) s.payments
          (λ p _ b. rw (ids p) b) h.bounded;
    keyed =
        All-update_found (λ (p : Payment). is_captured p ≡ true → p.gateway_payment_id ≢ none) test
          write s.payments h.distinct there (λ _. has_key) h.keyed;
    sums = λ o.
        let e = captured_sum-update_payment o test write s.payments h.distinct there in
        let before : part o session ≡ 0 = rw fresh (ground arith) in
        let after : part o (write session) ≡ credit_of (write session).amount_paise session o =
          rw (order, done) (ground arith) in
        omega arith;
    same_orders = refl;
  }

  inserted-RowsAfter :
      (c : Capture) (amount : ℕ) (session : Payment)
      → RowsAfter amount session (record s {
        payments = inserted_row c amount session.order_id s.next_id ∷ s.payments;
        next_id = suc s.next_id;
      })
  unfolding captured_sum
  inserted-RowsAfter c amount session = record {
    distinct = (
      All-implies (λ (p : Payment). p.id < s.next_id) (λ (p : Payment). s.next_id ≢ p.id) s.payments
          (λ p b e. ground arith) h.bounded,
      h.distinct,
    );
    bounded = (
      omega arith,
      All-implies (λ (p : Payment). p.id < s.next_id) (λ (p : Payment). p.id < suc s.next_id)
          s.payments (λ p b. omega arith) h.bounded,
    );
    keyed = ((λ _ gone. cc), h.keyed);
    sums = λ o. ground arith;
    same_orders = refl;
  }

  is_captured-unkeyed :
      (test : Payment → Bool) (session : Payment)
      → first_of test s.payments ≡ some session
      → session.gateway_payment_id ≡ none
      → is_captured session ≡ false
  is_captured-unkeyed test session there unkeyed = elim (Bool-cases (is_captured session)) [
    | inl done ↦
        elim (All-first_of (λ (p : Payment). is_captured p ≡ true → p.gateway_payment_id ≢ none)
          test s.payments h.keyed there done unkeyed) [ ]
    | inr fresh ↦ fresh
  ]

  pub record_capture-RowsAfter :
      (c : Capture) (amount : ℕ) (session : Payment) (fresh : Option Payment)
      → find_payment_by_gateway_payment_id c.gateway_payment_id s.payments ≡ fresh
      → captured_row fresh ≡ none
      → find_session fresh c.gateway_order_id s.payments ≡ some session
      → RowsAfter amount session ((record_capture c amount session fresh s).1)
  unfolding record_capture find_session find_payment_by_gateway_payment_id
  record_capture-RowsAfter c amount session (some row) known undone e =
      let same : row ≡ session = some-injective _ _ e in
      let test = has_gateway_payment_id c.gateway_payment_id in
      subst
        (λ (x : Payment).
          RowsAfter amount x
            (record s { payments = update_payment row.id (capture_row amount) s.payments }))
        same
        (written-RowsAfter test (capture_row amount) row known (uncaptured row undone) (λ p. refl)
          refl refl (keyed_row c.gateway_payment_id row (first_of-passes test s.payments known)))
  record_capture-RowsAfter c amount session none known undone e =
      elim (Option-cases session.gateway_payment_id) [
        | inl unkeyed ↦
            let (order_key, there) = find_session-new c.gateway_order_id s.payments e in
            let test = has_gateway_order_id order_key in
            let write = claim_row c.gateway_payment_id amount in
            let opened : (record_capture c amount session none s).1
                ≡ record s { payments = update_payment session.id write s.payments } =
              rw (record_capture, unkeyed) refl in
            subst (λ x. RowsAfter amount session x) (sym opened)
              (written-RowsAfter test write session there
                (is_captured-unkeyed test session there unkeyed) (λ p. refl) refl refl (λ gone. cc))
        | inr (other, used) ↦
            let added : (record_capture c amount session none s).1 ≡ record s {
              payments = inserted_row c amount session.order_id s.next_id ∷ s.payments;
              next_id = suc s.next_id;
            } =
              rw (record_capture, used) refl in
            subst (λ x. RowsAfter amount session x) (sym added)
              (inserted-RowsAfter c amount session)
      ]

  pub credited-IsBalanced :
      (amount : ℕ) (session : Payment) (order : Order) (s' : Store)
      → RowsAfter amount session s'
      → s.orders session.order_id ≡ some order
      → IsBalanced otherwise (update_order session.order_id (credit amount order) s')
  unfolding update_order
  credited-IsBalanced amount session order s' r there = record {
    distinct = r.distinct;
    bounded = r.bounded;
    keyed = r.keyed;
    paid_up = λ o found_order e. elim (Bool-cases (o == session.order_id)) [
      | inl own ↦
          let now : credit amount order ≡ found_order = some-injective _ _ (rw own at e) in
          let before = h.paid_up session.order_id order there in
          let sums = r.sums session.order_id in
          let same : o ≡ session.order_id = ground arith in
          let all : credit_of amount session session.order_id ≡ amount = ground arith in
          let paid_now : found_order.amount_paid_paise ≡ order.amount_paid_paise + amount =
            ap (λ (x : Order). x.amount_paid_paise) (sym now) in
          rw same (omega arith)
      | inr other ↦
          let was : s.orders o ≡ some found_order =
            ap (λ g. g o) (sym r.same_orders) ∙ (rw other at e) in
          let before = h.paid_up o found_order was in
          let sums = r.sums o in
          let no_credit : credit_of amount session o ≡ 0 = ground arith in omega arith
    ];
  }
