-- ===== src/Payments/Balance.antt =====
-- What an order was paid, and the captured payments of the order.
use mathlib.Core.Option.{some-injective}
use mathlib.Core.Path.{subst}
use achichiz_back_end.Prelude.{
  All, All-implies, Bool, Bool-cases, Distinct, List, [], arith, false, if◌then◌else◌, inl, inr,
  none, refl, some, sym, true, ℕ, ◌&&◌, ◌+◌, ◌<◌, ◌==◌, ◌∙◌, ◌∷◌, ◌≡◌, ◌≢◌,
}
use achichiz_back_end.Payments.{Order, Payment, Store, first_of, is_captured, update_payment}

-- What a row adds to an order.
abbrev pub part : ℕ → Payment → ℕ
part o p = if (p.order_id == o) && is_captured p then p.amount_paise else 0

unfoldable pub captured_sum : ℕ → List Payment → ℕ
captured_sum o [] = 0
captured_sum o (p ∷ ps) = part o p + captured_sum o ps

-- Beside what came in otherwise, an order was paid what its captured rows say; rows have different
-- identifiers, below the next one; and a captured row has its gateway's payment.
pub record IsBalanced (otherwise : ℕ → ℕ) (s : Store) : Type 0 where
  pub distinct : Distinct (λ (p : Payment). p.id) s.payments
  pub bounded : All (λ (p : Payment). p.id < s.next_id) s.payments
  pub keyed : All (λ (p : Payment). is_captured p ≡ true → p.gateway_payment_id ≢ none) s.payments
  pub paid_up :
      (o : ℕ) (order : Order)
      → s.orders o ≡ some order
      → order.amount_paid_paise ≡ otherwise o + captured_sum o s.payments

pub All-first_of {ℓ} :
    {A : Type 0} (P : A → Type ℓ) (test : A → Bool) (xs : List A) {x : A}
    → All P xs
    → first_of test xs ≡ some x
    → P x
unfolding first_of
All-first_of P test [] h e = cc
All-first_of P test (y ∷ xs) (h, hs) e = elim (Bool-cases (test y)) [
  | inl passes ↦ subst P (some-injective _ _ (rw passes at e)) h
  | inr fails ↦ All-first_of P test xs hs (rw fails at e)
]

module _ (id : ℕ) (write : Payment → Payment) where
  -- A write of a row that is not there.
  update_payment-absent :
      (ps : List Payment) → All (λ (p : Payment). id ≢ p.id) ps → update_payment id write ps ≡ ps
  unfolding update_payment
  update_payment-absent [] h = refl
  update_payment-absent (p ∷ ps) (h, hs) =
      let other : (p.id == id) ≡ false = ground arith in
      rw (update_payment, other, update_payment-absent ps hs) refl

  pub All-update_payment {ℓ} :
      (P : Payment → Type ℓ) (ps : List Payment)
      → ((p : Payment) → p.id ≡ id → P p → P (write p))
      → All P ps
      → All P (update_payment id write ps)
  unfolding update_payment
  All-update_payment P [] keeps h = tt
  All-update_payment P (p ∷ ps) keeps (h, hs) = (
    elim (Bool-cases (p.id == id)) [
      | inl same ↦ rw same (keeps p (ground arith) h)
      | inr other ↦ rw other h
    ],
    All-update_payment P ps keeps hs,
  )

  pub Distinct-update_payment :
      (ps : List Payment)
      → ((p : Payment) → (write p).id ≡ p.id)
      → Distinct (λ (p : Payment). p.id) ps
      → Distinct (λ (p : Payment). p.id) (update_payment id write ps)
  unfolding update_payment
  Distinct-update_payment [] keeps d = tt
  Distinct-update_payment (p ∷ ps) keeps (h, d) =
      let same_id : (if p.id == id then write p else p).id ≡ p.id = elim (Bool-cases (p.id == id)) [
        | inl same ↦ rw same (keeps p)
        | inr other ↦ rw other refl
      ] in
      (
        All-update_payment (λ (q : Payment). (if p.id == id then write p else p).id ≢ q.id) ps
            (λ q _ differs e. differs (e ∙ keeps q))
            (All-implies (λ (q : Payment). p.id ≢ q.id)
              (λ (q : Payment). (if p.id == id then write p else p).id ≢ q.id) ps
              (λ q differs e. differs (sym same_id ∙ e)) h),
        Distinct-update_payment ps keeps d,
      )

-- A write of the row that is found is a write of no other.
pub All-update_found {ℓ} :
    (P : Payment → Type ℓ) (test : Payment → Bool) (write : Payment → Payment) (ps : List Payment)
    {p : Payment}
    → Distinct (λ (q : Payment). q.id) ps
    → first_of test ps ≡ some p
    → P (write p)
    → All P ps
    → All P (update_payment p.id write ps)
unfolding update_payment first_of
All-update_found P test write [] d e w h = tt
All-update_found P test write (q ∷ ps) {p} (h, d) e w (first, rest) = elim (Bool-cases (test q)) [
  | inl passes ↦
      let here : q ≡ p = some-injective _ _ (rw passes at e) in
      let own : (q.id == q.id) ≡ true = ground arith in
      subst (λ (x : Payment). P (write x) → All P (update_payment x.id write (q ∷ ps))) here
        (λ now. rw (update_payment, own, update_payment-absent q.id write ps h) (now, rest)) w
  | inr fails ↦
      let there = rw fails at e in
      let other : (q.id == p.id) ≡ false =
        let differs = All-first_of (λ (r : Payment). q.id ≢ r.id) test ps h there in ground arith in
      rw (update_payment, other) (first, All-update_found P test write ps d there w rest)
]

-- A test that the row fails before and after the write finds the row that it found.
pub first_of-update_apart :
    (test found_by : Payment → Bool) (write : Payment → Payment) (ps : List Payment) {p : Payment}
    → Distinct (λ (q : Payment). q.id) ps
    → first_of found_by ps ≡ some p
    → test p ≡ false
    → test (write p) ≡ false
    → first_of test (update_payment p.id write ps) ≡ first_of test ps
unfolding update_payment first_of
first_of-update_apart test found_by write [] d e before after = refl
first_of-update_apart test found_by write (q ∷ ps) {p} (h, d) e before after =
    elim (Bool-cases (found_by q)) [
      | inl passes ↦
          let here : q ≡ p = some-injective _ _ (rw passes at e) in
          let own : (q.id == q.id) ≡ true = ground arith in
          subst
            (λ (x : Payment).
              test x ≡ false
              → test (write x) ≡ false
              → first_of test (update_payment x.id write (q ∷ ps)) ≡ first_of test (q ∷ ps))
            here
            (λ was now.
              rw (update_payment, own, update_payment-absent q.id write ps h, first_of, now, was)
                refl)
            before after
      | inr fails ↦
          let there = rw fails at e in
          let other : (q.id == p.id) ≡ false =
            let differs = All-first_of (λ (r : Payment). q.id ≢ r.id) found_by ps h there in
            ground arith in
          let later = first_of-update_apart test found_by write ps d there before after in
          rw (update_payment, other, first_of, later) refl
    ]

exchange : (a b c : ℕ) → a + b + c ≡ c + b + a
exchange a b c = omega arith

exchange_after : (a u p s w : ℕ) → u + p ≡ s + w → a + u + p ≡ a + s + w
exchange_after a u p s w e = omega arith

-- A write exchanges what the row adds.
pub captured_sum-update_payment :
    (o : ℕ) (test : Payment → Bool) (write : Payment → Payment) (ps : List Payment) {p : Payment}
    → Distinct (λ (q : Payment). q.id) ps
    → first_of test ps ≡ some p
    → captured_sum o (update_payment p.id write ps) + part o p
      ≡ captured_sum o ps + part o (write p)
unfolding captured_sum update_payment first_of
captured_sum-update_payment o test write [] d e = cc
captured_sum-update_payment o test write (q ∷ ps) {p} (h, d) e = elim (Bool-cases (test q)) [
  | inl passes ↦
      subst
        (λ (x : Payment).
          captured_sum o (update_payment x.id write (q ∷ ps)) + part o x
          ≡ captured_sum o (q ∷ ps) + part o (write x))
        (some-injective _ _ (rw passes at e))
        (let own : (q.id == q.id) ≡ true = ground arith in
          rw (update_payment, own, update_payment-absent q.id write ps h, captured_sum)
            (exchange (part o (write q)) (captured_sum o ps) (part o q)))
  | inr fails ↦
      let there = rw fails at e in
      let other : (q.id == p.id) ≡ false =
        let differs = All-first_of (λ (r : Payment). q.id ≢ r.id) test ps h there in ground arith in
      let rest = captured_sum-update_payment o test write ps d there in
      rw (update_payment, other, captured_sum)
        (exchange_after (part o q) (captured_sum o (update_payment p.id write ps)) (part o p)
          (captured_sum o ps) (part o (write p)) rest)
]
