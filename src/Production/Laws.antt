-- ===== src/Production/Laws.antt =====
-- Stock moves once in the life of a production order, at its completion.
use achichiz_back_end.Prelude.{Bool, List, Result, arith, err, if◌then◌else◌, ok, ℕ, ◌+◌, ◌↔◌, ◌≡◌}
use achichiz_back_end.Prelude.Int.{pos, ℤ, ◌+ℤ◌, ◌≤ℤ◌}
use achichiz_back_end.Workflow.{Workflow, run, run-moved}
use achichiz_back_end.Production.{
  ProductionAction, ProductionEdge, ProductionError, ProductionStatus, assert_output_within_plan,
  assert_production_action, completed, draft,
}

abbrev pub edge_result :
    Result ProductionError ProductionEdge → Result ProductionError (ProductionStatus × Bool)
edge_result (ok e) = ok (e.to, e.moves_stock)
edge_result (err x) = err x

abbrev pub moved : ProductionStatus → ℕ
moved completed = 1
moved _ = 0

pub step_moved :
    (s : ProductionStatus) (a : ProductionAction) {t : ProductionStatus} {moves : Bool}
    → edge_result (assert_production_action s a) ≡ ok (t, moves)
    → moved t ≡ moved s + (if moves then 1 else 0)
unfolding assert_production_action
step_moved draft a e = ground arith
step_moved _ a e = ground arith

abbrev production : Workflow
production = record {
  Status = ProductionStatus;
  Action = ProductionAction;
  Error = ProductionError;
  step = λ s a. edge_result (assert_production_action s a);
  moved = moved;
  step_moved = step_moved;
}

-- Any requests to a draft order cause one movement of stock if they leave it completed, and none if
-- they leave it in any other status.
run-production :
    (requests : List ProductionAction)
    → let (status, movements) = run production draft 0 requests in movements ≡ moved status
run-production requests = omega (arith, run-moved production draft 0 requests)

-- The output check passes exactly when neither quantity is negative and together they are within
-- the plan.
assert_output_within_plan_iff :
    (plan_qty produced scrapped : ℤ)
    → (assert_output_within_plan plan_qty produced scrapped ≡ ok tt)
      ↔ ((pos 0 ≤ℤ produced) × (pos 0 ≤ℤ scrapped) × (produced +ℤ scrapped ≤ℤ plan_qty))
unfolding assert_output_within_plan
assert_output_within_plan_iff plan_qty produced scrapped = ground arith
