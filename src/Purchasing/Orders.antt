-- ===== src/Purchasing/Orders.antt =====
-- Purchase orders. The lifecycle is derived from the stored status and the date of sending.
use achichiz_back_end.Prelude.{
  All, Bool, List, Option, Result, [], arith, err, false, filter, find?, if◌then◌else◌, leb, map,
  none, not, ok, refl, some, sum_by, true, ℕ, ◌↔◌, ◌∷◌, ◌≡◌, ◌≢◌, ◌≤◌, ◌⊎◌,
}
use Prim.Native.String.{String}

pub data PurchaseOrderStatus : Type 0 where
  draft sent partially_received received cancelled : PurchaseOrderStatus

pub data PoLifecycle : Type 0 where
  draft pending_approval approved sent partially_received received cancelled : PoLifecycle

pub data PoAction : Type 0 where
  edit approve send receive cancel : PoAction

pub record PoEdge : Type 0 where
  pub to : PoLifecycle
  pub action : PoAction
  pub label : String
  pub document_driven : Bool

-- `sentAt` is a time, or not there.
unfoldable pub po_lifecycle : PurchaseOrderStatus → Option ℕ → PoLifecycle
po_lifecycle PurchaseOrderStatus.sent (some sent_at) = PoLifecycle.sent
po_lifecycle PurchaseOrderStatus.sent none = PoLifecycle.approved
po_lifecycle PurchaseOrderStatus.draft sent_at = PoLifecycle.draft
po_lifecycle PurchaseOrderStatus.partially_received sent_at = PoLifecycle.partially_received
po_lifecycle PurchaseOrderStatus.received sent_at = PoLifecycle.received
po_lifecycle PurchaseOrderStatus.cancelled sent_at = PoLifecycle.cancelled

-- The two lifecycles that an endpoint writes.
pub data WrittenLifecycle : Type 0 where
  approved sent : WrittenLifecycle

abbrev pub to_lifecycle : WrittenLifecycle → PoLifecycle
to_lifecycle WrittenLifecycle.approved = PoLifecycle.approved
to_lifecycle WrittenLifecycle.sent = PoLifecycle.sent

unfoldable pub po_persisted_state : WrittenLifecycle → ℕ → PurchaseOrderStatus × Option ℕ
po_persisted_state WrittenLifecycle.approved now = (PurchaseOrderStatus.sent, none)
po_persisted_state WrittenLifecycle.sent now = (PurchaseOrderStatus.sent, some now)

abbrev pub edge : PoLifecycle → PoAction → String → Bool → PoEdge
edge to action label document_driven = record {
  to = to;
  action = action;
  label = label;
  document_driven = document_driven;
}

abbrev pub po_cancel_edge : PoEdge
po_cancel_edge = edge PoLifecycle.cancelled cancel "Cancelled" false

-- `PO_TRANSITIONS`.
unfoldable pub po_edges_from : PoLifecycle → List PoEdge
po_edges_from PoLifecycle.draft =
    edge PoLifecycle.approved approve "Approved" false ∷ po_cancel_edge ∷ []
po_edges_from PoLifecycle.pending_approval =
    edge PoLifecycle.approved approve "Approved" false ∷ po_cancel_edge ∷ []
po_edges_from PoLifecycle.approved =
    edge PoLifecycle.sent send "Sent to supplier" false ∷ po_cancel_edge ∷ []
po_edges_from PoLifecycle.sent =
    edge PoLifecycle.partially_received receive "Partially received" true
    ∷ edge PoLifecycle.received receive "Fully received" true
    ∷ po_cancel_edge
    ∷ []
po_edges_from PoLifecycle.partially_received =
    edge PoLifecycle.received receive "Fully received" true ∷ po_cancel_edge ∷ []
po_edges_from PoLifecycle.received = []
po_edges_from PoLifecycle.cancelled = []

unfoldable pub is_po_editable : PoLifecycle → Bool
is_po_editable PoLifecycle.draft = true
is_po_editable PoLifecycle.pending_approval = true
is_po_editable _ = false

unfoldable pub is_po_receivable : PoLifecycle → Bool
is_po_receivable PoLifecycle.sent = true
is_po_receivable PoLifecycle.partially_received = true
is_po_receivable _ = false

abbrev pub same_action : PoAction → PoAction → Bool
same_action edit edit = true
same_action approve approve = true
same_action send send = true
same_action receive receive = true
same_action cancel cancel = true
same_action _ _ = false

pub data PoError : Type 0 where
  document_driven_transition : PoLifecycle → PoError
  po_not_approved : PoError
  illegal_po_transition : List PoAction → PoError

pub refusal : PoLifecycle → PoAction → PoError
unfolding po_edges_from
refusal PoLifecycle.draft send = po_not_approved
refusal from action =
    illegal_po_transition
      (map (λ e. e.action) (filter (λ (e : PoEdge). not e.document_driven) (po_edges_from from)))

unfoldable pub assert_po_action : PoLifecycle → PoAction → Result PoError PoEdge
unfolding po_edges_from refusal
assert_po_action from action =
    elim (find? (λ (e : PoEdge). same_action e.action action) (po_edges_from from)) [
      | some found ↦
          if found.document_driven then err (document_driven_transition found.to) else ok found
      | none ↦ err (refusal from action)
    ]

pub record PoLine : Type 0 where
  pub ordered_qty : ℕ
  pub received_qty : ℕ

unfoldable pub po_status_after_receipt : List PoLine → PurchaseOrderStatus
po_status_after_receipt lines =
    let ordered = sum_by (λ (l : PoLine). l.ordered_qty) lines in
    let received_total = sum_by (λ (l : PoLine). l.received_qty) lines in
    if leb ordered received_total
    then PurchaseOrderStatus.received
    else PurchaseOrderStatus.partially_received

-- Reading back what an endpoint writes gives the lifecycle that was meant.
pub po_lifecycle-persisted :
    (lifecycle : WrittenLifecycle) (now : ℕ)
    → let (status, sent_at) = po_persisted_state lifecycle now in
      po_lifecycle status sent_at ≡ to_lifecycle lifecycle
unfolding po_lifecycle po_persisted_state
po_lifecycle-persisted WrittenLifecycle.approved now = refl
po_lifecycle-persisted WrittenLifecycle.sent now = refl

-- No stored purchase order reads as pending approval, and one reads as approved exactly when its
-- status is `sent` and nothing was sent.
po_lifecycle-approved_iff :
    (status : PurchaseOrderStatus) (sent_at : Option ℕ)
    → (po_lifecycle status sent_at ≢ PoLifecycle.pending_approval)
      × ((po_lifecycle status sent_at ≡ PoLifecycle.approved)
          ↔ ((status ≡ PurchaseOrderStatus.sent) × (sent_at ≡ none)))
unfolding po_lifecycle
po_lifecycle-approved_iff status sent_at = ground arith

-- By hand a purchase order is never received: every action that succeeds leads to `approved`, `sent`
-- or `cancelled`, and whatever can be received refuses to be received by hand.
assert_po_action-by_hand :
    (from : PoLifecycle) (action : PoAction) {e : PoEdge}
    → assert_po_action from action ≡ ok e
    → (e.to ≡ PoLifecycle.approved) ⊎ (e.to ≡ PoLifecycle.sent) ⊎ (e.to ≡ PoLifecycle.cancelled)
unfolding assert_po_action
assert_po_action-by_hand PoLifecycle.draft action h = ground arith
assert_po_action-by_hand _ action h = ground arith

-- Receiving by hand is refused as document-driven exactly from the lifecycles in which a goods
-- receipt may be posted.
pub receive-document_driven_iff :
    (from : PoLifecycle)
    → ((to : PoLifecycle) × (assert_po_action from receive ≡ err (document_driven_transition to)))
      ↔ (is_po_receivable from ≡ true)
unfolding assert_po_action is_po_receivable
receive-document_driven_iff PoLifecycle.draft = ground arith
receive-document_driven_iff PoLifecycle.sent =
    (λ h. refl, λ h. (PoLifecycle.partially_received, refl))
receive-document_driven_iff PoLifecycle.partially_received =
    (λ h. refl, λ h. (PoLifecycle.received, refl))
receive-document_driven_iff _ = ground arith

receipt-step :
    (lines : List PoLine)
    → All (λ l. l.received_qty ≤ l.ordered_qty) lines
    → (sum_by (λ l. l.received_qty) lines ≤ sum_by (λ l. l.ordered_qty) lines)
      × ((sum_by (λ l. l.ordered_qty) lines ≤ sum_by (λ l. l.received_qty) lines)
          ↔ All (λ l. l.received_qty ≡ l.ordered_qty) lines)
receipt-step [] h = (omega arith, (λ _. tt, λ _. omega arith))
receipt-step (l ∷ ls) (h, hs) =
    let (below, there, back) = receipt_parts ls (receipt-step ls hs) in
    (
      omega arith,
      (
        (λ full. (omega arith, there (omega arith))),
        (λ full. let rest = back full.1 in omega (arith, full.0)),
      ),
    )
  where
    receipt_parts :
        (ls : List PoLine)
        → (sum_by (λ l. l.received_qty) ls ≤ sum_by (λ l. l.ordered_qty) ls)
          × ((sum_by (λ l. l.ordered_qty) ls ≤ sum_by (λ l. l.received_qty) ls)
              ↔ All (λ l. l.received_qty ≡ l.ordered_qty) ls)
        → (sum_by (λ l. l.received_qty) ls ≤ sum_by (λ l. l.ordered_qty) ls)
          × ((sum_by (λ l. l.ordered_qty) ls ≤ sum_by (λ l. l.received_qty) ls)
              → All (λ l. l.received_qty ≡ l.ordered_qty) ls)
          × (All (λ l. l.received_qty ≡ l.ordered_qty) ls
              → sum_by (λ l. l.ordered_qty) ls ≤ sum_by (λ l. l.received_qty) ls)
    receipt_parts ls (a, b) = (a, b.0, b.1)

-- Where no line has received more than was ordered, a receipt closes the order exactly when every
-- line has received what was ordered.
po_status_after_receipt_iff :
    (lines : List PoLine)
    → All (λ l. l.received_qty ≤ l.ordered_qty) lines
    → (po_status_after_receipt lines ≡ PurchaseOrderStatus.received)
      ↔ All (λ l. l.received_qty ≡ l.ordered_qty) lines
unfolding po_status_after_receipt
po_status_after_receipt_iff lines h =
    let closed = (receipt-step lines h).1 in
    ((λ e. closed.0 (ground arith)), (λ all_full. let full = closed.1 all_full in ground arith))
