-- ===== src/Payments/RefundKeys.antt =====
-- The idempotency key of a refund.
use achichiz_back_end.Prelude.{
  Bool, Bool-cases, List, Option, Option-cases, Result, ap, arith, false, inl, inr, ltb, none, ok,
  ok-injective, refl, some, true, ℕ, ◌==◌, ◌∷◌, ◌≡◌,
}
use achichiz_back_end.Payments.{
  Payment, Refund, Store, first_of, sum_committed_refunds_paise, update_order, update_refund,
}
use achichiz_back_end.Payments.Refunds.{
  RefundAnswer, RefundError, RefundRequest, after_transaction, answer_of,
  find_refund_by_idempotency_key, gateway_payment_of, has_idempotency_key, process_row,
  refund_in_transaction, refund_order, refund_row, refundable_after_open, send_refund,
}

-- The key leads to the refund.
record IsKeyed (key id : ℕ) (rs : List Refund) : Type 0 where
  row : Refund
  there : find_refund_by_idempotency_key (some key) rs ≡ some row
  same_id : row.id ≡ id

-- The answer names a refund that the key leads to.
abbrev LeadsTo : ℕ → Result RefundError RefundAnswer × Store → Type 0
LeadsTo key (r, s') =
    (answer : RefundAnswer) → r ≡ ok answer → IsKeyed key answer.refund_id s'.refunds

first_of-head {ℓ} :
    {A : Type ℓ} (test : A → Bool) (x : A) (xs : List A)
    → test x ≡ true
    → first_of test (x ∷ xs) ≡ some x
unfolding first_of
first_of-head test x xs h = rw (first_of, h) refl

module _ (request : RefundRequest) (key : ℕ) (has_key : request.idempotency_key ≡ some key) where
  row_has_key :
      (c : Option Payment) (id : ℕ) → has_idempotency_key key (refund_row request c id) ≡ true
  row_has_key c id = rw has_key (ground arith)

  first_of-sent :
      (sent : ℕ) (r : Refund) (rs : List Refund)
      → has_idempotency_key key r ≡ true
      → first_of (has_idempotency_key key) (update_refund r.id (process_row sent) (r ∷ rs))
        ≡ some (process_row sent r)
  unfolding update_refund
  first_of-sent sent r rs h =
      let own : (r.id == r.id) ≡ true = ground arith in
      rw (update_refund, own) (first_of-head (has_idempotency_key key) (process_row sent r) _ h)

  after_transaction-LeadsTo :
      (c : Option Payment) (gateway : Option ℕ) (s s' : Store)
      → s'.refunds ≡ refund_row request c s.next_id ∷ s.refunds
      → LeadsTo key (after_transaction c gateway ((refund_row request c s.next_id, false), s'))
  unfolding after_transaction send_refund find_refund_by_idempotency_key
  after_transaction-LeadsTo c none s s' rows = elim (Option-cases (gateway_payment_of c)) [
    | inl unpaid ↦
        rw (after_transaction, unpaid)
          (λ answer e. record {
            row = refund_row request c s.next_id;
            there =
                rw rows
                  (first_of-head (has_idempotency_key key) _ s.refunds (row_has_key c s.next_id));
            same_id = ap (λ (a : RefundAnswer). a.refund_id) (ok-injective e);
          })
    | inr (_, call) ↦ rw (after_transaction, call) (λ answer e. cc)
  ]
  after_transaction-LeadsTo c (some sent) s s' rows = elim (Option-cases (gateway_payment_of c)) [
    | inl unpaid ↦
        rw (after_transaction, unpaid)
          (λ answer e. record {
            row = refund_row request c s.next_id;
            there =
                rw rows
                  (first_of-head (has_idempotency_key key) _ s.refunds (row_has_key c s.next_id));
            same_id = ap (λ (a : RefundAnswer). a.refund_id) (ok-injective e);
          })
    | inr (_, call) ↦
        rw (after_transaction, call)
          (λ answer e. record {
            row = process_row sent (refund_row request c s.next_id);
            there = rw rows (
                first_of-sent sent (refund_row request c s.next_id) s.refunds
                  (row_has_key c s.next_id));
            same_id = ap (λ (a : RefundAnswer). a.refund_id) (ok-injective e);
          })
  ]

  refund_order-LeadsTo :
      (c : Option Payment) (gateway : Option ℕ) (s : Store)
      → LeadsTo key (refund_order request c gateway s)
  unfolding refund_order refund_in_transaction update_order
  refund_order-LeadsTo c gateway s = elim (Bool-cases (request.amount_paise == 0)) [
    | inl nothing ↦ rw (refund_order, nothing) (λ answer e. cc)
    | inr positive ↦
        elim (Option-cases (find_refund_by_idempotency_key request.idempotency_key s.refunds)) [
          | inr (replay, known) ↦
              rw (refund_order, positive, known)
                (λ answer e. record {
                  row = replay;
                  there = rw has_key at known;
                  same_id = ap (λ (a : RefundAnswer). a.refund_id) (ok-injective e);
                })
          | inl new ↦ elim (Option-cases (s.orders request.order_id)) [
            | inl missing ↦ rw (refund_order, positive, new, missing) (λ answer e. cc)
            | inr (order, there) ↦
                elim (Bool-cases (
                  ltb
                    (refundable_after_open order
                      (sum_committed_refunds_paise request.order_id s.refunds))
                    request.amount_paise)) [
                      | inl over ↦
                          rw
                            (
                              refund_order, positive, new, there, refund_in_transaction, there, new,
                              over,
                            )
                            (λ answer e. cc)
                      | inr within ↦
                          rw
                            (
                              refund_order, positive, new, there, refund_in_transaction, there, new,
                              within,
                            )
                            (after_transaction-LeadsTo c gateway s _ refl)
                    ]
          ]
        ]
  ]

-- Once a request with a key was answered, any request with the key and a positive amount changes
-- nothing and is answered with the same refund, whatever else it asks for.
pub refund_order-replayed :
    (first second : RefundRequest) (key : ℕ) (c c' : Option Payment) (gateway gateway' : Option ℕ)
    (s : Store) (answer : RefundAnswer)
    → first.idempotency_key ≡ some key
    → second.idempotency_key ≡ some key
    → (second.amount_paise == 0) ≡ false
    → (refund_order first c gateway s).0 ≡ ok answer
    → let s' = (refund_order first c gateway s).1 in
      ((refund_order second c' gateway' s').1 ≡ s')
      × ((again : RefundAnswer) × ((refund_order second c' gateway' s').0 ≡ ok again)
          × (again.refund_id ≡ answer.refund_id))
unfolding refund_order
refund_order-replayed first second key c c' gateway gateway' s answer first_key second_key positive
      e =
    let s' = (refund_order first c gateway s).1 in
    let keyed = refund_order-LeadsTo first key first_key c gateway s answer e in
    let known : find_refund_by_idempotency_key second.idempotency_key s'.refunds ≡ some keyed.row =
      rw second_key keyed.there in
    let answered : refund_order second c' gateway' s' ≡ (ok (answer_of keyed.row), s') =
      rw (refund_order, positive, known) refl in
    (ap (λ x. x.1) answered, (answer_of keyed.row, ap (λ x. x.0) answered, keyed.same_id))
