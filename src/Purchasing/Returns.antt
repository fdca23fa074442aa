-- ===== src/Purchasing/Returns.antt =====
-- Purchase returns. All six statuses are stored.
use achichiz_back_end.Prelude.{
  Bool, List, Result, [], arith, err, false, find?, if◌then◌else◌, map, none, ok, some, true, ℕ,
  ◌+◌, ◌∷◌, ◌≡◌,
}
use achichiz_back_end.Workflow.{Workflow, run, run-moved}
use Prim.Native.String.{String}

pub data PurchaseReturnStatus : Type 0 where
  draft pending_approval approved dispatched completed cancelled : PurchaseReturnStatus

pub data ReturnAction : Type 0 where
  approve dispatch complete cancel : ReturnAction

pub record ReturnEdge : Type 0 where
  pub to : PurchaseReturnStatus
  pub action : ReturnAction
  pub label : String
  pub moves_stock : Bool

abbrev pub edge : PurchaseReturnStatus → ReturnAction → String → Bool → ReturnEdge
edge to action label moves_stock = record {
  to = to;
  action = action;
  label = label;
  moves_stock = moves_stock;
}

abbrev pub return_cancel_edge : ReturnEdge
return_cancel_edge = edge cancelled cancel "Cancelled" false

-- `RETURN_TRANSITIONS`.
unfoldable pub return_edges_from : PurchaseReturnStatus → List ReturnEdge
return_edges_from draft = edge approved approve "Approved" false ∷ return_cancel_edge ∷ []
return_edges_from pending_approval =
    edge approved approve "Approved" false ∷ return_cancel_edge ∷ []
return_edges_from approved =
    edge dispatched dispatch "Dispatched to supplier" true ∷ return_cancel_edge ∷ []
return_edges_from dispatched = edge completed complete "Completed" false ∷ []
return_edges_from completed = []
return_edges_from cancelled = []

abbrev pub same_action : ReturnAction → ReturnAction → Bool
same_action approve approve = true
same_action dispatch dispatch = true
same_action complete complete = true
same_action cancel cancel = true
same_action _ _ = false

pub data ReturnError : Type 0 where
  return_dispatched_not_cancellable : ReturnError
  illegal_return_transition : List ReturnAction → ReturnError

pub refusal : PurchaseReturnStatus → ReturnAction → ReturnError
unfolding return_edges_from
refusal dispatched cancel = return_dispatched_not_cancellable
refusal from action = illegal_return_transition (map (λ e. e.action) (return_edges_from from))

unfoldable pub assert_return_action :
    PurchaseReturnStatus → ReturnAction → Result ReturnError ReturnEdge
unfolding return_edges_from refusal
assert_return_action from action =
    elim (find? (λ (e : ReturnEdge). same_action e.action action) (return_edges_from from)) [
      | some found ↦ ok found
      | none ↦ err (refusal from action)
    ]

abbrev pub edge_result :
    Result ReturnError ReturnEdge → Result ReturnError (PurchaseReturnStatus × Bool)
edge_result (ok e) = ok (e.to, e.moves_stock)
edge_result (err x) = err x

-- The goods have left once a return is dispatched.
abbrev pub moved : PurchaseReturnStatus → ℕ
moved dispatched = 1
moved completed = 1
moved _ = 0

pub step_moved :
    (s : PurchaseReturnStatus) (a : ReturnAction) {t : PurchaseReturnStatus} {moves : Bool}
    → edge_result (assert_return_action s a) ≡ ok (t, moves)
    → moved t ≡ moved s + (if moves then 1 else 0)
unfolding assert_return_action
step_moved draft a e = ground arith
step_moved _ a e = ground arith

abbrev pub purchase_return : Workflow
purchase_return = record {
  Status = PurchaseReturnStatus;
  Action = ReturnAction;
  Error = ReturnError;
  step = λ s a. edge_result (assert_return_action s a);
  moved = moved;
  step_moved = step_moved;
}

-- Any requests to a new return move stock once if they leave it dispatched or completed, and never
-- otherwise.
run-purchase_return :
    (requests : List ReturnAction)
    → let (status, movements) = run purchase_return draft 0 requests in movements ≡ moved status
run-purchase_return requests = omega (arith, run-moved purchase_return draft 0 requests)
