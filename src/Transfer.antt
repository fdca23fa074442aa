-- ===== src/Transfer.antt =====
-- The stock-transfer machine and the location tree,
-- src/modules/admin-warehousing/admin-warehousing.state.ts.
pub mod Laws
pub mod Locations
pub mod Service
use achichiz_back_end.Prelude.{
  Bool, List, Result, [], err, false, find?, map, none, ok, some, true, ◌∷◌,
}
use Prim.Native.String.{String}

pub data StockTransferStatus : Type 0 where
  requested approved in_transit received cancelled : StockTransferStatus

pub data TransferAction : Type 0 where
  approve dispatch receive cancel : TransferAction

pub record TransferEdge : Type 0 where
  pub to : StockTransferStatus
  pub action : TransferAction
  pub label : String
  pub moves_stock : Bool

abbrev pub edge : StockTransferStatus → TransferAction → String → Bool → TransferEdge
edge to action label moves_stock = record {
  to = to;
  action = action;
  label = label;
  moves_stock = moves_stock;
}

abbrev pub cancel_edge : TransferEdge
cancel_edge = edge cancelled cancel "Cancelled" false

-- `TRANSFER_TRANSITIONS`.
unfoldable pub transfer_edges_from : StockTransferStatus → List TransferEdge
transfer_edges_from requested = edge approved approve "Approved" false ∷ cancel_edge ∷ []
transfer_edges_from approved = edge in_transit dispatch "Dispatched" true ∷ cancel_edge ∷ []
transfer_edges_from in_transit = edge received receive "Received" true ∷ []
transfer_edges_from received = []
transfer_edges_from cancelled = []

unfoldable pub is_transfer_editable : StockTransferStatus → Bool
is_transfer_editable requested = true
is_transfer_editable _ = false

abbrev pub same_action : TransferAction → TransferAction → Bool
same_action approve approve = true
same_action dispatch dispatch = true
same_action receive receive = true
same_action cancel cancel = true
same_action _ _ = false

pub data TransferError : Type 0 where
  transfer_in_transit_not_cancellable : TransferError
  -- With the actions that are legal instead.
  illegal_transfer_transition : List TransferAction → TransferError

pub refusal : StockTransferStatus → TransferAction → TransferError
unfolding transfer_edges_from
refusal in_transit cancel = transfer_in_transit_not_cancellable
refusal from action = illegal_transfer_transition (map (λ e. e.action) (transfer_edges_from from))

unfoldable pub assert_transfer_action :
    StockTransferStatus → TransferAction → Result TransferError TransferEdge
unfolding transfer_edges_from refusal
assert_transfer_action from action =
    elim (find? (λ (e : TransferEdge). same_action e.action action) (transfer_edges_from from)) [
      | some found ↦ ok found
      | none ↦ err (refusal from action)
    ]
