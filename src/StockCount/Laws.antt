-- ===== src/StockCount/Laws.antt =====
-- A stock count touches the ledger once, at its approval.
use achichiz_back_end.Prelude.{Bool, List, Result, arith, err, if◌then◌else◌, ok, ℕ, ◌+◌, ◌≡◌}
use achichiz_back_end.Workflow.{Workflow, run, run-moved}
use achichiz_back_end.StockCount.{
  CountAction, CountEdge, CountError, StockCountStatus, approved, assert_count_action, draft,
}

abbrev pub edge_result : Result CountError CountEdge → Result CountError (StockCountStatus × Bool)
edge_result (ok e) = ok (e.to, e.moves_stock)
edge_result (err x) = err x

abbrev pub moved : StockCountStatus → ℕ
moved approved = 1
moved _ = 0

pub step_moved :
    (s : StockCountStatus) (a : CountAction) {t : StockCountStatus} {moves : Bool}
    → edge_result (assert_count_action s a) ≡ ok (t, moves)
    → moved t ≡ moved s + (if moves then 1 else 0)
unfolding assert_count_action
step_moved draft a e = ground arith
step_moved _ a e = ground arith

abbrev pub stock_count : Workflow
stock_count = record {
  Status = StockCountStatus;
  Action = CountAction;
  Error = CountError;
  step = λ s a. edge_result (assert_count_action s a);
  moved = moved;
  step_moved = step_moved;
}

-- Any requests to a new count post its variance once if they leave it approved, and never otherwise:
-- approving twice, or before completion, posts nothing.
run-stock_count :
    (requests : List CountAction)
    → let (status, postings) = run stock_count draft 0 requests in postings ≡ moved status
run-stock_count requests = omega (arith, run-moved stock_count draft 0 requests)
