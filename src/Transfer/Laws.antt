-- ===== src/Transfer/Laws.antt =====
-- How often stock moves in the life of a transfer.
use achichiz_back_end.Prelude.{
  Bool, List, Result, arith, err, if◌then◌else◌, ok, ℕ, ◌+◌, ◌↔◌, ◌≡◌, ◌≢◌,
}
use achichiz_back_end.Workflow.{Workflow, run, run-moved}
use achichiz_back_end.Transfer.{
  StockTransferStatus, TransferAction, TransferEdge, TransferError, assert_transfer_action, cancel,
  cancel_edge, cancelled, in_transit, received, requested,
}

abbrev pub edge_result :
    Result TransferError TransferEdge → Result TransferError (StockTransferStatus × Bool)
edge_result (ok e) = ok (e.to, e.moves_stock)
edge_result (err x) = err x

-- Stock has left the source once a transfer is in transit, and reached the destination once it is
-- received.
abbrev pub moved : StockTransferStatus → ℕ
moved in_transit = 1
moved received = 2
moved _ = 0

pub step_moved :
    (s : StockTransferStatus) (a : TransferAction) {t : StockTransferStatus} {moves : Bool}
    → edge_result (assert_transfer_action s a) ≡ ok (t, moves)
    → moved t ≡ moved s + (if moves then 1 else 0)
unfolding assert_transfer_action
step_moved requested a e = ground arith
step_moved _ a e = ground arith

abbrev pub transfer : Workflow
transfer = record {
  Status = StockTransferStatus;
  Action = TransferAction;
  Error = TransferError;
  step = λ s a. edge_result (assert_transfer_action s a);
  moved = moved;
  step_moved = step_moved;
}

-- Any requests to a new transfer cause two movements of stock if they leave it received, one if they
-- leave it in transit, and none otherwise: a cancelled transfer has moved nothing.
run-transfer :
    (requests : List TransferAction)
    → let (status, movements) = run transfer requested 0 requests in movements ≡ moved status
run-transfer requests = omega (arith, run-moved transfer requested 0 requests)

-- A transfer can still be cancelled exactly while no stock has moved and it is not cancelled yet.
assert_transfer_action-cancel_iff :
    (s : StockTransferStatus)
    → (assert_transfer_action s cancel ≡ ok cancel_edge) ↔ ((moved s ≡ 0) × (s ≢ cancelled))
unfolding assert_transfer_action
assert_transfer_action-cancel_iff requested = ground arith
assert_transfer_action-cancel_iff _ = ground arith
