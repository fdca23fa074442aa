-- ===== src/Purchasing/Sending/Cancelled.antt =====
-- What sending and cancelling an order change in what is incoming.
use mathlib.Core.Path.{subst}
use achichiz_back_end.Prelude.{
  >>=-eq-ok, List, arith, filter, map, ok, ok-injective, refl, some, sum_by, ℕ, ◌+◌, ◌∙◌, ◌≡◌,
}
use achichiz_back_end.Prelude.Int.{pos}
use achichiz_back_end.Prelude.Sorting.{sort}
use achichiz_back_end.Purchasing.Orders.{
  PoEdge, PoLifecycle, PurchaseOrderStatus, assert_po_action, edge, po_edges_from, po_lifecycle,
  po_persisted_state, send,
}
use achichiz_back_end.Purchasing.Sending.{
  PurchaseOrder, SupplierProduct, adjust_expected, cancel_purchase_order, ensure_expected,
  expected_order, is_outstanding, outstanding, release_expected, send_purchase_order,
  touch_supplier_products,
}
use achichiz_back_end.Transfer.Service.{Warehousing, opposite}
use achichiz_back_end.Transfer.Service.Levels.{incoming_at, on_hand_at}
use achichiz_back_end.Purchasing.Sending.Expected.{
  ensured-lower, ensured-on_hand_at, ensured-raise, owed_all, owed_at, owed_filtered,
}

send-approved :
    (from : PoLifecycle) {edge : PoEdge}
    → assert_po_action from send ≡ ok edge
    → from ≡ PoLifecycle.approved
unfolding assert_po_action po_edges_from
send-approved PoLifecycle.draft e = cc
send-approved PoLifecycle.pending_approval e = cc
send-approved PoLifecycle.approved e = refl
send-approved PoLifecycle.sent e = cc
send-approved PoLifecycle.partially_received e = cc
send-approved PoLifecycle.received e = cc
send-approved PoLifecycle.cancelled e = cc

-- What sending leaves, and that cancelling undoes it.
abbrev IsUndoable :
    (ℕ → ℕ → ℕ)
    → PurchaseOrder
    → Warehousing
    → PurchaseOrder × Warehousing × List SupplierProduct
    → Type 0
IsUndoable level_id po s (sent_po, u, touched) =
    (po_lifecycle sent_po.status sent_po.sent_at ≡ PoLifecycle.sent)
    × ((v q : ℕ)
        → incoming_at v q u ≡ incoming_at v q s + sum_by (owed_at po.warehouse v q) po.lines)
    × ((later : ℕ)
        → (reason : List ℕ)
        → (last : PurchaseOrder) × (x : Warehousing) × (cancel_purchase_order level_id later reason
              sent_po u
            ≡ ok (last, x))
          × ((v q : ℕ) → incoming_at v q x ≡ incoming_at v q s)
          × ((v q : ℕ) → on_hand_at v q x ≡ on_hand_at v q s))

sent-IsUndoable :
    (level_id : ℕ → ℕ → ℕ) (now : ℕ) (po : PurchaseOrder) (s : Warehousing)
    (touched : List SupplierProduct)
    → IsUndoable level_id po s (
      record po { status = PurchaseOrderStatus.sent; sent_at = some now },
      adjust_expected pos po.warehouse
          (sort (expected_order level_id po.warehouse) (map outstanding po.lines))
          (ensure_expected po.warehouse (map outstanding po.lines) s),
      touched,
    )
unfolding cancel_purchase_order release_expected assert_po_action po_edges_from po_lifecycle
sent-IsUndoable level_id now po s touched =
    let w = po.warehouse in
    let le = expected_order level_id w in
    let owed = map outstanding po.lines in
    let left = map outstanding (filter is_outstanding po.lines) in
    let u = adjust_expected pos w (sort le owed) (ensure_expected w owed s) in
    (
      refl,
      λ v q. omega (arith, ensured-raise le w v q owed s, owed_all w v q po.lines),
      λ later reason. (
        _,
        _,
        refl,
        λ v q. omega (
          arith,
          ensured-raise le w v q owed s,
          owed_all w v q po.lines,
          ensured-lower le w v q left u,
          owed_filtered w v q po.lines,
        ),
        λ v q. ensured-on_hand_at opposite le w v q left u ∙ ensured-on_hand_at pos le w v q owed s,
      ),
    )

-- Sending an order raises what is incoming by what is owed on it, and cancelling it right after takes
-- exactly that back, with any reason at any time: of every stockable in every warehouse, as much is
-- incoming as before the order was sent, and as much is on hand. Only an approved order is sent, and
-- it reads as sent afterwards.
pub cancel_purchase_order-send_purchase_order :
    (level_id : ℕ → ℕ → ℕ) (now : ℕ) (po sent_po : PurchaseOrder) (s u : Warehousing)
    (products touched : List SupplierProduct)
    → send_purchase_order level_id now po s products ≡ ok (sent_po, u, touched)
    → (po_lifecycle po.status po.sent_at ≡ PoLifecycle.approved)
      × (po_lifecycle sent_po.status sent_po.sent_at ≡ PoLifecycle.sent)
      × ((v q : ℕ)
          → incoming_at v q u ≡ incoming_at v q s + sum_by (owed_at po.warehouse v q) po.lines)
      × ((later : ℕ)
          → (reason : List ℕ)
          → (last : PurchaseOrder) × (x : Warehousing) × (cancel_purchase_order level_id later
                reason sent_po u
              ≡ ok (last, x))
            × ((v q : ℕ) → incoming_at v q x ≡ incoming_at v q s)
            × ((v q : ℕ) → on_hand_at v q x ≡ on_hand_at v q s))
unfolding send_purchase_order po_persisted_state
cancel_purchase_order-send_purchase_order level_id now po sent_po s u products touched e =
    let (edge, legal, rest) =
      >>=-eq-ok (assert_po_action (po_lifecycle po.status po.sent_at) send) _ e in
    let done = ok-injective rest in
    let (reads, raised, undone) = subst (IsUndoable level_id po s) done (
      sent-IsUndoable level_id now po s
        (touch_supplier_products po.supplier now po.lines products)) in
    (send-approved _ legal, reads, raised, undone)
