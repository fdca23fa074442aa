-- ===== src/StockCount.antt =====
-- The stock-count machine and its arithmetic,
-- src/modules/admin-stock-counts/admin-stock-counts.state.ts.
pub mod Laws
pub mod Variance
use achichiz_back_end.Prelude.{
  Bool, List, Result, [], err, false, find?, if◌then◌else◌, map, none, ok, some, true, ◌∷◌,
}
use Prim.Native.String.{String}

pub data StockCountStatus : Type 0 where
  draft in_progress completed approved cancelled : StockCountStatus

pub data CountAction : Type 0 where
  start submit complete approve cancel : CountAction

pub record CountEdge : Type 0 where
  pub to : StockCountStatus
  pub action : CountAction
  pub label : String
  pub moves_stock : Bool

abbrev pub edge : StockCountStatus → CountAction → String → Bool → CountEdge
edge to action label moves_stock = record {
  to = to;
  action = action;
  label = label;
  moves_stock = moves_stock;
}

abbrev pub cancel_edge : CountEdge
cancel_edge = edge cancelled cancel "Cancelled" false

-- `COUNT_TRANSITIONS`.
unfoldable pub count_edges_from : StockCountStatus → List CountEdge
count_edges_from draft = edge in_progress start "Counting started" false ∷ cancel_edge ∷ []
count_edges_from in_progress = edge completed complete "Counting finished" false ∷ cancel_edge ∷ []
count_edges_from completed = edge approved approve "Approved" true ∷ cancel_edge ∷ []
count_edges_from approved = []
count_edges_from cancelled = []

unfoldable pub is_count_open : StockCountStatus → Bool
is_count_open in_progress = true
is_count_open _ = false

abbrev pub same_action : CountAction → CountAction → Bool
same_action start start = true
same_action submit submit = true
same_action complete complete = true
same_action approve approve = true
same_action cancel cancel = true
same_action _ _ = false

pub data CountError : Type 0 where
  count_not_completed count_already_approved : CountError
  -- With the actions that are legal instead.
  illegal_count_transition : List CountAction → CountError
  count_not_in_progress : StockCountStatus → CountError

pub refusal : StockCountStatus → CountAction → CountError
unfolding count_edges_from
refusal in_progress approve = count_not_completed
refusal approved approve = count_already_approved
refusal from action = illegal_count_transition (map (λ e. e.action) (count_edges_from from))

unfoldable pub assert_count_action : StockCountStatus → CountAction → Result CountError CountEdge
unfolding count_edges_from refusal
assert_count_action from action =
    elim (find? (λ (e : CountEdge). same_action e.action action) (count_edges_from from)) [
      | some found ↦ ok found
      | none ↦ err (refusal from action)
    ]

unfoldable pub assert_count_accepts_items : StockCountStatus → Result CountError (Unit {0})
unfolding is_count_open
assert_count_accepts_items status =
    if is_count_open status then ok tt else err (count_not_in_progress status)
