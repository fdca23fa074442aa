-- ===== src/Purchasing/Sending.antt =====
-- What a purchase order expects: sendPurchaseOrder and cancelPurchaseOrder of
-- src/modules/admin-purchasing/admin-purchasing.service.ts. The writes of a level are the copies in
-- admin-purchasing.repository.ts of those in admin-warehousing.repository.ts. The notes are a list of
-- lines.
pub mod Cancelled
pub mod Expected
use achichiz_back_end.Prelude.{
  Bool, List, Option, Result, [], filter, if◌then◌else◌, leb, map, none, not, ok, some, ℕ, ◌&&◌,
  ◌++◌, ◌-◌, ◌==◌, ◌>>=◌, ◌∷◌,
}
use achichiz_back_end.Prelude.Int.{pos, ℤ}
use achichiz_back_end.Prelude.Sorting.{sort}
use achichiz_back_end.Purchasing.Orders.{
  PoError, PurchaseOrderStatus, WrittenLifecycle, assert_po_action, cancel, cancelled, edge,
  po_lifecycle, po_persisted_state, send, sent,
}
use achichiz_back_end.Transfer.Service.{Warehousing, adjust_incoming, ensure_level, opposite}

pub record PurchaseLine : Type 0 where
  pub stockable : ℕ
  pub ordered_qty : ℕ
  pub received_qty : ℕ
  pub unit_cost_paise : ℕ

-- A line of the notes: what was written before, or `[at] Cancelled: reason`.
pub data Note : Type 0 where
  text : List ℕ → Note
  cancelled_note : ℕ → List ℕ → Note

pub record PurchaseOrder : Type 0 where
  pub supplier : ℕ
  pub warehouse : ℕ
  pub status : PurchaseOrderStatus
  pub sent_at : Option ℕ
  pub closed_at : Option ℕ
  pub notes : List Note
  pub lines : List PurchaseLine

-- A row of a supplier's catalogue; its last purchase is a time and what a unit cost.
pub record SupplierProduct : Type 0 where
  pub supplier : ℕ
  pub stockable : ℕ
  pub deleted : Bool
  pub last_purchase : Option (ℕ × ℕ)

abbrev pub touch_product : ℕ → ℕ → PurchaseLine → SupplierProduct → SupplierProduct
touch_product supplier at line row =
    if row.supplier == supplier && row.stockable == line.stockable && not row.deleted
    then record row { last_purchase = some (at, line.unit_cost_paise) }
    else row

unfoldable pub touch_supplier_products :
    ℕ → ℕ → List PurchaseLine → List SupplierProduct → List SupplierProduct
touch_supplier_products supplier at [] products = products
touch_supplier_products supplier at (line ∷ lines) products =
    touch_supplier_products supplier at lines (map (touch_product supplier at line) products)

-- A stockable, and how many units of it.
abbrev pub Expected : Type 0
Expected = ℕ × ℕ

-- `Math.max(0, orderedQty - receivedQty)`.
abbrev pub outstanding : PurchaseLine → Expected
outstanding line = (line.stockable, line.ordered_qty - line.received_qty)

abbrev pub is_outstanding : PurchaseLine → Bool
is_outstanding line = not (line.ordered_qty - line.received_qty == 0)

unfoldable pub ensure_expected : ℕ → List Expected → Warehousing → Warehousing
ensure_expected w [] s = s
ensure_expected w ((r, qty) ∷ rest) s = ensure_expected w rest (ensure_level w r s)

abbrev pub expected_order : (ℕ → ℕ → ℕ) → ℕ → Expected → Expected → Bool
expected_order level_id w a b = leb (level_id w a.0) (level_id w b.0)

-- The loop over the levels; `sign` is what a quantity is as a delta.
unfoldable pub adjust_expected : (ℕ → ℤ) → ℕ → List Expected → Warehousing → Warehousing
adjust_expected sign w [] s = s
adjust_expected sign w ((r, qty) ∷ rest) s =
    adjust_expected sign w rest (adjust_incoming w r (sign qty) s)

unfoldable pub send_purchase_order :
    (ℕ → ℕ → ℕ)
    → ℕ
    → PurchaseOrder
    → Warehousing
    → List SupplierProduct
    → Result PoError (PurchaseOrder × Warehousing × List SupplierProduct)
send_purchase_order level_id now po s products = do
  edge ← assert_po_action (po_lifecycle po.status po.sent_at) send
  let resolved = map outstanding po.lines
  let stocked = ensure_expected po.warehouse resolved s
  let moved =
      adjust_expected pos po.warehouse (sort (expected_order level_id po.warehouse) resolved)
        stocked
  let touched = touch_supplier_products po.supplier now po.lines products
  let (status, sent_at) = po_persisted_state WrittenLifecycle.sent now
  ok (record po { status = status; sent_at = sent_at }, moved, touched)

-- Only an order that was sent has raised what is incoming.
unfoldable pub release_expected : (ℕ → ℕ → ℕ) → PurchaseOrder → Warehousing → Warehousing
release_expected level_id po s = elim po.sent_at [
  | none ↦ s
  | some _ ↦
      let resolved = map outstanding (filter is_outstanding po.lines) in
      adjust_expected opposite po.warehouse (sort (expected_order level_id po.warehouse) resolved)
        (ensure_expected po.warehouse resolved s)
]

unfoldable pub cancel_purchase_order :
    (ℕ → ℕ → ℕ)
    → ℕ
    → List ℕ
    → PurchaseOrder
    → Warehousing
    → Result PoError (PurchaseOrder × Warehousing)
cancel_purchase_order level_id now reason po s = do
  edge ← assert_po_action (po_lifecycle po.status po.sent_at) cancel
  let released = release_expected level_id po s
  let closed = record po {
    status = PurchaseOrderStatus.cancelled;
    closed_at = some now;
    notes = po.notes ++ (cancelled_note now reason ∷ []);
  }
  ok (closed, released)
