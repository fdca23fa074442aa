-- ===== src/Payments/RefundCap.antt =====
-- The cap on refunds.
use mathlib.Core.Option.{some-injective}
use achichiz_back_end.Prelude.{
  All, All-implies, Bool-cases, List, Option, Option-cases, [], ap, arith, false, if◌then◌else◌,
  inl, inr, ltb, max, none, refl, some, suc, sym, ℕ, ◌&&◌, ◌+◌, ◌-◌, ◌<◌, ◌==◌, ◌∙◌, ◌∷◌, ◌≡◌, ◌≤◌,
}
use achichiz_back_end.Payments.{
  Order, Payment, Refund, Store, is_committed, sum_committed_refunds_paise, update_order,
  update_refund,
}
use achichiz_back_end.Payments.Refunds.{
  RefundRequest, after_transaction, fail_refund_row, find_refund_by_idempotency_key,
  gateway_payment_of, insert_refund, process_row, refund_in_transaction, refund_order, refund_row,
  refundable_after_open, send_refund, start_refund,
}

-- No order has more money committed to refunds than it was paid.
pub record IsCovered (s : Store) : Type 0 where
  pub bounded : All (λ (r : Refund). r.id < s.next_id) s.refunds
  pub covered :
      (o : ℕ) (order : Order)
      → s.orders o ≡ some order
      → sum_committed_refunds_paise o s.refunds ≤ order.amount_paid_paise

le_self : (n : ℕ) → n < n → ⊥
le_self n h = omega arith

abbrev committed_part : ℕ → Refund → ℕ
committed_part o r = if (r.order_id == o) && is_committed r.status then r.amount_paise else 0

sum_committed-cons :
    (o : ℕ) (r : Refund) (rs : List Refund)
    → sum_committed_refunds_paise o (r ∷ rs) ≡ committed_part o r + sum_committed_refunds_paise o rs
unfolding sum_committed_refunds_paise
sum_committed-cons o r rs = ground arith

-- A write that commits no more leaves the sum no higher.
sum_committed-update_refund :
    (o id : ℕ) (write : Refund → Refund) (rs : List Refund)
    → All (λ (r : Refund). r.id ≡ id → committed_part o (write r) ≤ committed_part o r) rs
    → sum_committed_refunds_paise o (update_refund id write rs) ≤ sum_committed_refunds_paise o rs
unfolding update_refund
sum_committed-update_refund o id write [] less = omega arith
sum_committed-update_refund o id write (r ∷ rs) (own, rest) =
    let later = sum_committed-update_refund o id write rs rest in
    let all = sum_committed-cons o r rs in
    elim (Bool-cases (r.id == id)) [
      | inl same ↦
          let less = own (ground arith) in
          let now = sum_committed-cons o (write r) (update_refund id write rs) in
          rw (update_refund, same) (omega arith)
      | inr other ↦
          let now = sum_committed-cons o r (update_refund id write rs) in
          rw (update_refund, other) (omega arith)
    ]

fail_refund_row-less :
    (o : ℕ) (r : Refund) → committed_part o (fail_refund_row r) ≤ committed_part o r
fail_refund_row-less o r = ground arith

fail_refund_row-All :
    (o id : ℕ) (rs : List Refund)
    → All (λ (r : Refund). r.id ≡ id → committed_part o (fail_refund_row r) ≤ committed_part o r) rs
fail_refund_row-All o id [] = tt
fail_refund_row-All o id (r ∷ rs) = ((λ _. fail_refund_row-less o r), fail_refund_row-All o id rs)

process_row-rest :
    (o key id : ℕ) (rs : List Refund)
    → All (λ (r : Refund). r.id < id) rs
    → All (λ (r : Refund). r.id ≡ id → committed_part o (process_row key r) ≤ committed_part o r) rs
process_row-rest o key id rs =
    All-implies (λ (r : Refund). r.id < id)
      (λ (r : Refund). r.id ≡ id → committed_part o (process_row key r) ≤ committed_part o r) rs
      (λ r below same. elim (le_self r.id (omega arith)) [ ])

-- The ids stay below the next one.
update_refund-bounded :
    (id bound : ℕ) (write : Refund → Refund) (rs : List Refund)
    → ((r : Refund) → (write r).id ≡ r.id)
    → All (λ (r : Refund). r.id < bound) rs
    → All (λ (r : Refund). r.id < bound) (update_refund id write rs)
unfolding update_refund
update_refund-bounded id bound write [] keeps h = tt
update_refund-bounded id bound write (r ∷ rs) keeps (h, hs) = (
  elim (Bool-cases (r.id == id)) [
    | inl same ↦ rw same (let k = keeps r in omega arith)
    | inr other ↦ rw other h
  ],
  update_refund-bounded id bound write rs keeps hs,
)

write-IsCovered :
    (id : ℕ) (write : Refund → Refund) (s : Store)
    → ((r : Refund) → (write r).id ≡ r.id)
    → ((o : ℕ)
        → All
            (λ (r : Refund). r.id ≡ id → committed_part o (write r) ≤ committed_part o r)
            s.refunds)
    → IsCovered s
    → IsCovered (record s { refunds = update_refund id write s.refunds })
write-IsCovered id write s keeps less h = record {
  bounded = update_refund-bounded id s.next_id write s.refunds keeps h.bounded;
  covered = λ o order e.
      let now = sum_committed-update_refund o id write s.refunds (less o) in
      let before = h.covered o order e in omega arith;
}

start_refund-paid :
    (order : Order) → (start_refund order).amount_paid_paise ≡ order.amount_paid_paise
start_refund-paid order = ground arith

-- A row within the cap.
inserted-IsCovered :
    (request : RefundRequest) (captured_payment : Option Payment) (s : Store) (order : Order)
    → s.orders request.order_id ≡ some order
    → ltb
        (refundable_after_open order (sum_committed_refunds_paise request.order_id s.refunds))
        request.amount_paise
      ≡ false
    → IsCovered s
    → IsCovered (
        update_order request.order_id
          (start_refund order)
          (insert_refund (refund_row request captured_payment s.next_id) s))
unfolding update_order refundable_after_open
inserted-IsCovered request captured_payment s order there within h = record {
  bounded = (
    omega arith,
    All-implies (λ (r : Refund). r.id < s.next_id) (λ (r : Refund). r.id < suc s.next_id) s.refunds
        (λ r b. omega arith) h.bounded,
  );
  covered = λ o order' e.
      let row = refund_row request captured_payment s.next_id in
      let now = sum_committed-cons o row s.refunds in
      elim (Bool-cases (o == request.order_id)) [
        | inl own ↦
            let same : o ≡ request.order_id = ground arith in
            let current : start_refund order ≡ order' = some-injective _ _ (rw own at e) in
            let paid : order'.amount_paid_paise ≡ order.amount_paid_paise =
              ap (λ (x : Order). x.amount_paid_paise) (sym current) ∙ start_refund-paid order in
            let before = h.covered request.order_id order there in
            let head : committed_part o row ≡ request.amount_paise = ground arith in
            let fits : request.amount_paise
                ≤ order.amount_paid_paise
                  - max order.amount_refunded_paise
                      (sum_committed_refunds_paise request.order_id s.refunds) =
              ground arith in
            let sums : sum_committed_refunds_paise o s.refunds
                ≡ sum_committed_refunds_paise request.order_id s.refunds =
              ap (λ x. sum_committed_refunds_paise x s.refunds) same in
            omega arith
        | inr other ↦
            let before = h.covered o order' (rw other at e) in
            let none_new : committed_part o row ≡ 0 = ground arith in omega arith
      ];
}

-- The store that the transaction leaves, and what follows it.
after_transaction-IsCovered :
    (request : RefundRequest) (captured_payment : Option Payment) (gateway : Option ℕ)
    (order : Order) (s : Store)
    → let row = refund_row request captured_payment s.next_id in
      let started = update_order request.order_id (start_refund order) (insert_refund row s) in
      All (λ (r : Refund). r.id < s.next_id) s.refunds
      → IsCovered started
      → IsCovered ((after_transaction captured_payment gateway ((row, false), started)).1)
unfolding after_transaction send_refund update_order
after_transaction-IsCovered request captured_payment none order s below h =
    elim (Option-cases (gateway_payment_of captured_payment)) [
      | inl unpaid ↦ rw (after_transaction, unpaid) h
      | inr (_, call) ↦
          rw (after_transaction, call)
            (write-IsCovered s.next_id fail_refund_row _ (λ r. refl)
              (λ o.
                fail_refund_row-All o s.next_id
                  (refund_row request captured_payment s.next_id ∷ s.refunds))
              h)
    ]
after_transaction-IsCovered request captured_payment (some key) order s below h =
    elim (Option-cases (gateway_payment_of captured_payment)) [
      | inl unpaid ↦ rw (after_transaction, unpaid) h
      | inr (_, call) ↦
          rw (after_transaction, call)
            (write-IsCovered s.next_id (process_row key) _ (λ r. refl)
              (λ o. ((λ _. omega arith), process_row-rest o key s.next_id s.refunds below)) h)
    ]

-- Where no order has more committed to refunds than it was paid, and the refunds' identifiers are
-- below the next one, this stays so after any request for a refund, whatever row was captured and
-- whatever the gateway answers.
pub refund_order-IsCovered :
    (request : RefundRequest) (captured_payment : Option Payment) (gateway : Option ℕ) (s : Store)
    → IsCovered s
    → IsCovered ((refund_order request captured_payment gateway s).1)
unfolding refund_order refund_in_transaction after_transaction
refund_order-IsCovered request captured_payment gateway s h =
    elim (Bool-cases (request.amount_paise == 0)) [
      | inl nothing ↦ rw (refund_order, nothing) h
      | inr positive ↦
          elim (Option-cases (find_refund_by_idempotency_key request.idempotency_key s.refunds)) [
            | inr (replay, known) ↦ rw (refund_order, positive, known) h
            | inl new ↦ elim (Option-cases (s.orders request.order_id)) [
              | inl missing ↦ rw (refund_order, positive, new, missing) h
              | inr (order, there) ↦
                  elim (Bool-cases (
                    ltb
                      (refundable_after_open order
                        (sum_committed_refunds_paise request.order_id s.refunds))
                      request.amount_paise)) [
                        | inl over ↦
                            rw
                              (
                                refund_order, positive, new, there, refund_in_transaction, there,
                                new, over,
                              )
                              h
                        | inr within ↦
                            rw
                              (
                                refund_order, positive, new, there, refund_in_transaction, there,
                                new, within,
                              )
                              (after_transaction-IsCovered request captured_payment gateway order s
                                h.bounded
                                (inserted-IsCovered request captured_payment s order there within
                                  h))
                      ]
            ]
          ]
    ]
