-- ===== src/Payments/Rows.antt =====
-- The rows of a table after one of them is written.
use mathlib.Core.Option.{some-injective}
use mathlib.Core.Path.{subst}
use achichiz_back_end.Prelude.{
  Bool, Bool-cases, List, [], arith, false, inl, inr, none, refl, some, true, ◌==◌, ◌∷◌, ◌≡◌, ◌≢◌,
}
use achichiz_back_end.Payments.{Payment, first_of, update_payment}

-- A row that is found passes the test.
pub first_of-passes {ℓ} :
    {A : Type ℓ} (test : A → Bool) (xs : List A) {x : A} → first_of test xs ≡ some x → test x ≡ true
unfolding first_of
first_of-passes test [] e = cc
first_of-passes test (y ∷ xs) e = elim (Bool-cases (test y)) [
  | inl passes ↦ subst (λ z. test z ≡ true) (some-injective _ _ (rw passes at e)) passes
  | inr fails ↦ first_of-passes test xs (rw fails at e)
]

some_not_none {ℓ} : {A : Type ℓ} {x : A} → some x ≢ none
some_not_none e = cc

module _ (test : Payment → Bool) (write : Payment → Payment) where
  -- The row that is found is written, and is found again.
  pub first_of-update_payment :
      (ps : List Payment) {p : Payment}
      → ((q : Payment) → test (write q) ≡ test q)
      → first_of test ps ≡ some p
      → first_of test (update_payment p.id write ps) ≡ some (write p)
  unfolding first_of update_payment
  first_of-update_payment [] keeps e = cc
  first_of-update_payment (q ∷ ps) {p} keeps e = elim (Bool-cases (test q)) [
    | inl passes ↦
        let here : q ≡ p = some-injective _ _ (rw passes at e) in
        subst (λ (x : Payment). first_of test (update_payment x.id write (q ∷ ps)) ≡ some (write x))
          here
          (let own : (q.id == q.id) ≡ true = ground arith in
            rw (update_payment, own, first_of, keeps q, passes) refl)
    | inr fails ↦ elim (Bool-cases (q.id == p.id)) [
      | inl same ↦
          rw (update_payment, same, first_of, keeps q, fails)
            (first_of-update_payment ps keeps (rw fails at e))
      | inr other ↦
          rw (update_payment, other, first_of, fails)
            (first_of-update_payment ps keeps (rw fails at e))
    ]
  ]

  -- A row found by another test is written so that the first test finds it.
  pub first_of-claim :
      (found_by : Payment → Bool) (ps : List Payment) {p : Payment}
      → ((q : Payment) → test (write q) ≡ q.is_razorpay)
      → ((q : Payment) → found_by q ≡ true → q.is_razorpay ≡ true)
      → first_of test ps ≡ none
      → first_of found_by ps ≡ some p
      → (q : Payment) × (first_of test (update_payment p.id write ps) ≡ some (write q))
  unfolding first_of update_payment
  first_of-claim found_by [] writes ours missing e = cc
  first_of-claim found_by (q ∷ ps) {p} writes ours missing e = elim (Bool-cases (test q)) [
    | inl passes ↦ elim (some_not_none (rw passes at missing)) [ ]
    | inr fails ↦ elim (Bool-cases (q.id == p.id)) [
      | inl same ↦ elim (Bool-cases q.is_razorpay) [
        | inl is_ours ↦ (q, rw (update_payment, same, first_of, writes q, is_ours) refl)
        | inr foreign ↦
            let skipped : found_by q ≡ false = elim (Bool-cases (found_by q)) [
              | inl passes ↦ let is_ours = ours q passes in cc
              | inr fails_too ↦ fails_too
            ] in
            let (r, later) =
              first_of-claim found_by ps writes ours (rw fails at missing) (rw skipped at e) in
            (r, rw (update_payment, same, first_of, writes q, foreign) later)
      ]
      | inr other ↦
          let skipped : found_by q ≡ false = elim (Bool-cases (found_by q)) [
            | inl passes ↦
                let here : q ≡ p = some-injective _ _ (rw passes at e) in
                let own : (q.id == p.id) ≡ true = rw here (ground arith) in cc
            | inr fails_too ↦ fails_too
          ] in
          let (r, later) =
            first_of-claim found_by ps writes ours (rw fails at missing) (rw skipped at e) in
          (r, rw (update_payment, other, first_of, fails) later)
    ]
  ]
