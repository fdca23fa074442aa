-- ===== src/Production.antt =====
-- The production-order machine, src/modules/admin-production/admin-production.state.ts.
pub mod Laws
use achichiz_back_end.Prelude.{
  Bool, List, Result, [], err, false, find?, map, none, not, ok, require, some, true, ◌>>◌, ◌||◌,
  ◌∷◌,
}
use achichiz_back_end.Prelude.Int.{ltb_ℤ, pos, ℤ, ◌+ℤ◌}
use Prim.Native.String.{String}

pub data ProductionStatus : Type 0 where
  draft planned in_progress completed cancelled : ProductionStatus

pub data ProductionAction : Type 0 where
  plan start complete cancel : ProductionAction

pub record ProductionEdge : Type 0 where
  pub to : ProductionStatus
  pub action : ProductionAction
  pub label : String
  pub moves_stock : Bool

abbrev pub edge : ProductionStatus → ProductionAction → String → Bool → ProductionEdge
edge to action label moves_stock = record {
  to = to;
  action = action;
  label = label;
  moves_stock = moves_stock;
}

abbrev pub cancel_edge : ProductionEdge
cancel_edge = edge cancelled cancel "Cancelled" false

-- `PRODUCTION_TRANSITIONS`.
unfoldable pub production_edges_from : ProductionStatus → List ProductionEdge
production_edges_from draft = edge planned plan "Planned" false ∷ cancel_edge ∷ []
production_edges_from planned = edge in_progress start "In progress" false ∷ cancel_edge ∷ []
production_edges_from in_progress = edge completed complete "Completed" true ∷ cancel_edge ∷ []
production_edges_from completed = []
production_edges_from cancelled = []

unfoldable pub is_production_editable : ProductionStatus → Bool
is_production_editable draft = true
is_production_editable planned = true
is_production_editable _ = false

abbrev pub same_action : ProductionAction → ProductionAction → Bool
same_action plan plan = true
same_action start start = true
same_action complete complete = true
same_action cancel cancel = true
same_action _ _ = false

pub data ProductionError : Type 0 where
  production_not_started production_already_completed : ProductionError
  -- With the actions that are legal instead.
  illegal_production_transition : List ProductionAction → ProductionError
  invalid_production_output production_exceeds_plan : ProductionError

-- The code of a refusal: two cases are explained, the others are reported with what is legal.
pub refusal : ProductionStatus → ProductionAction → ProductionError
unfolding production_edges_from
refusal draft complete = production_not_started
refusal planned complete = production_not_started
refusal completed start = production_already_completed
refusal from action =
    illegal_production_transition (map (λ e. e.action) (production_edges_from from))

unfoldable pub assert_production_action :
    ProductionStatus → ProductionAction → Result ProductionError ProductionEdge
unfolding production_edges_from refusal
assert_production_action from action =
    elim (find? (λ (e : ProductionEdge). same_action e.action action)
      (production_edges_from from)) [ some found ↦ ok found | none ↦ err (refusal from action) ]

-- Quantities as they arrive: the check for a negative one is the source's.
unfoldable pub assert_output_within_plan : ℤ → ℤ → ℤ → Result ProductionError (Unit {0})
unfolding ◌+ℤ◌
assert_output_within_plan planned_qty produced_qty scrapped_qty = do
  require (not (ltb_ℤ produced_qty (pos 0) || ltb_ℤ scrapped_qty (pos 0))) invalid_production_output
  require (not (ltb_ℤ planned_qty (produced_qty +ℤ scrapped_qty))) production_exceeds_plan
  ok tt
