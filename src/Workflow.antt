-- ===== src/Workflow.antt =====
-- What the four document machines of the warehouse share: a status, actions that are accepted or
-- refused, and edges that move stock or do not. Each machine fills the record with its own table.
use achichiz_back_end.Prelude.{
  Bool, List, Result, Result-cases, [], arith, err, if◌then◌else◌, inl, inr, ok, refl, ℕ, ◌+◌, ◌∷◌,
  ◌≡◌,
}

pub record Workflow : Type 1 where
  pub Status : Type 0
  pub Action : Type 0
  pub Error : Type 0
  -- The endpoint of an action: the new status, and whether the edge writes to the stock ledger.
  pub step : Status → Action → Result Error (Status × Bool)
  -- How many stock-moving edges lie behind a document in this status.
  pub moved : Status → ℕ
  pub step_moved :
      (s : Status) (a : Action) {t : Status} {moves : Bool}
      → step s a ≡ ok (t, moves)
      → moved t ≡ moved s + (if moves then 1 else 0)

module _ (w : Workflow) where
  open w use {Status, Action, step, moved, step_moved}

  -- A refused action is a 422 before any write: the document stays as it is.
  pub after : Status → ℕ → Action → Status × ℕ
  after s count a = elim (step s a) [
    | ok (t, moves) ↦ (t, count + (if moves then 1 else 0))
    | err _ ↦ (s, count)
  ]

  -- A list of requests, with the number of stock movements that they cause.
  pub run : Status → ℕ → List Action → Status × ℕ
  run s count [] = (s, count)
  run s count (a ∷ as') = let (t, n) = after s count a in run t n as'

  after-moved :
      (s : Status) (count : ℕ) (a : Action)
      → let (t, n) = after s count a in n + moved s ≡ count + moved t
  unfolding after
  after-moved s count a = elim (Result-cases (step s a)) [
    | inl ((t, moves), e) ↦ rw (e, after) (omega (arith, step_moved s a e))
    | inr (x, e) ↦ rw (e, after) refl
  ]

  -- Whatever is requested, in whatever order, the movements counted are those behind the status.
  pub run-moved :
      (s : Status) (count : ℕ) (as' : List Action)
      → let (t, n) = run s count as' in n + moved s ≡ count + moved t
  unfolding run
  run-moved s count [] = refl
  run-moved s count (a ∷ as') =
      let (t, n) = after s count a in omega (arith, after-moved s count a, run-moved t n as')
