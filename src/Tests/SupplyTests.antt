-- ===== src/Tests/SupplyTests.antt =====
-- Tests and witnesses for the minting of codes, the procurement plan, the savings of a bundle and what a
-- purchase order expects.
use achichiz_back_end.Prelude.{
  All, List, Option, [], ap, arith, false, if◌then◌else◌, length, map, none, ok, refl, some, suc,
  sum_by, true, zero, ℕ, ◌%◌, ◌*◌, ◌+◌, ◌==◌, ◌∷◌, ◌≡◌, ◌≤◌,
}
use achichiz_back_end.Prelude.Int.{negsuc, pos, ◌*ℤ◌, ◌-ℤ◌}
use achichiz_back_end.Barcodes.{
  build_ean13, complete_ean13, ean13_check_digit, ean13_weighted_sum, is_digit, is_valid_ean13,
  sum_from,
}
use achichiz_back_end.Barcodes.Mint.{
  AllNew, GivesDigits, IsNew, body_length_for, mint_distinct_ean13, mint_distinct_ean13-Minted,
  mint_ean13, mint_loop,
}
use achichiz_back_end.Planning.Procurement.{
  Orders, Shortage, SupplierTerms, build_procurement_plan, build_procurement_plan-Orders, day_ms,
  ordered_at, short_at,
}
use achichiz_back_end.Prelude.Sorting.{sort}
use achichiz_back_end.Purchasing.Orders.{
  PoLifecycle, PurchaseOrderStatus, assert_po_action, po_edges_from, po_lifecycle,
  po_persisted_state,
}
use achichiz_back_end.Purchasing.Sending.{
  PurchaseOrder, SupplierProduct, adjust_expected, cancel_purchase_order, ensure_expected,
  expected_order, outstanding, send_purchase_order, touch_supplier_products,
}
use achichiz_back_end.Transfer.Service.{
  Warehousing, adjust_incoming, ensure_level, moved_incoming, write_level,
}
use achichiz_back_end.Transfer.Service.Levels.{incoming_at, on_hand_at}
use achichiz_back_end.Bundles.Savings.{bundle_savings_paise, round_ratio}
use achichiz_back_end.Purchasing.Sending.Expected.{owed_at}
use achichiz_back_end.Purchasing.Sending.Cancelled.{cancel_purchase_order-send_purchase_order}

-- The n-th call gives the digit n throughout, for the first ten calls.
abbrev repeated : ℕ → ℕ → List ℕ
repeated n zero = []
repeated n (suc k) = (48 + n % 10) ∷ repeated n k

repeated-GivesDigits : GivesDigits repeated
repeated-GivesDigits n zero = (refl, refl)
repeated-GivesDigits n (suc k) =
    let (count, figures) = repeated-GivesDigits n k in
    let now : is_digit (48 + n % 10) ≡ true = ground arith in (ap suc count, rw (now, figures) refl)

abbrev internal_prefix : List ℕ
internal_prefix = 50 ∷ 57 ∷ []

abbrev first_code : List ℕ
first_code = 50 ∷ 57 ∷ 48 ∷ 48 ∷ 48 ∷ 48 ∷ 48 ∷ 48 ∷ 48 ∷ 48 ∷ 48 ∷ 48 ∷ 49 ∷ []

-- The second draw is taken where the first is excluded.
abbrev second_code : List ℕ
second_code = 50 ∷ 57 ∷ 49 ∷ 49 ∷ 49 ∷ 49 ∷ 49 ∷ 49 ∷ 49 ∷ 49 ∷ 49 ∷ 49 ∷ 49 ∷ []

minted_one :
    mint_distinct_ean13 internal_prefix 1 repeated (first_code ∷ []) 64 ≡ ok (second_code ∷ [])
unfolding mint_distinct_ean13 mint_loop mint_ean13 body_length_for build_ean13 complete_ean13
    ean13_check_digit ean13_weighted_sum sum_from
minted_one = refl

mint_distinct_ean13-Minted_example :
    (length (second_code ∷ []) ≡ 1)
    × AllNew (second_code ∷ [])
    × All (IsNew (first_code ∷ [])) (second_code ∷ [])
    × All (λ (code : List ℕ). is_valid_ean13 code ≡ ok true) (second_code ∷ [])
mint_distinct_ean13-Minted_example =
    mint_distinct_ean13-Minted internal_prefix 1 repeated (first_code ∷ []) 64 repeated-GivesDigits
      (omega arith) refl minted_one

-- A supplier that sells dozens, ten days ahead.
abbrev dozens : ℕ → Option SupplierTerms
dozens v =
    if v == 3
    then some (record {
      supplier_id = some 1;
      moq = 12;
      lead_time_days = some 10;
      unit_cost_paise = some 500;
    })
    else none

abbrev two_shortages : List Shortage
two_shortages =
    record { variant_id = 3; shortage_qty = 13 } ∷ record { variant_id = 2; shortage_qty = 0 } ∷ []

build_procurement_plan-Orders_example :
    let plan = build_procurement_plan two_shortages dozens (some (20 * day_ms)) (12 * day_ms) in
    All (Orders dozens) plan.lines
    × ((v : ℕ) → sum_by (short_at v) two_shortages ≤ sum_by (ordered_at v) plan.lines)
build_procurement_plan-Orders_example =
    build_procurement_plan-Orders dozens (some (20 * day_ms)) (12 * day_ms) two_shortages

-- Parts of 3 paise at a price of 4: a loss of a third, rounded up.
dear_bundle :
    (bundle_savings_paise (record { quantity = 3; unit_price_paise = 1 } ∷ []) 4).savings_bp
    ≡ negsuc 3_332
unfolding bundle_savings_paise ◌-ℤ◌ ◌*ℤ◌ round_ratio
dear_bundle = refl

abbrev approved_order : PurchaseOrder
approved_order = record {
  supplier = 1;
  warehouse = 2;
  status = PurchaseOrderStatus.sent;
  sent_at = none;
  closed_at = none;
  notes = [];
  lines =
      record { stockable = 7; ordered_qty = 5; received_qty = 0; unit_cost_paise = 900 }
      ∷ record { stockable = 8; ordered_qty = 3; received_qty = 3; unit_cost_paise = 100 }
      ∷ [];
}

abbrev empty_warehouses : Warehousing
empty_warehouses = record { levels = λ w r. none; movements = []; transfers = λ i. none }

abbrev supplier_catalogue : List SupplierProduct
supplier_catalogue =
    record { supplier = 1; stockable = 7; deleted = false; last_purchase = none } ∷ []

abbrev sent_result : PurchaseOrder × Warehousing × List SupplierProduct
sent_result = (
  record approved_order { sent_at = some 44 },
  adjust_expected pos 2 (sort (expected_order (λ w r. r) 2) (map outstanding approved_order.lines))
      (ensure_expected 2 (map outstanding approved_order.lines) empty_warehouses),
  record { supplier = 1; stockable = 7; deleted = false; last_purchase = some (44, 900) } ∷ [],
)

sent_order :
    send_purchase_order (λ w r. r) 44 approved_order empty_warehouses supplier_catalogue
    ≡ ok sent_result
unfolding send_purchase_order po_persisted_state assert_po_action po_edges_from po_lifecycle
    touch_supplier_products
sent_order = refl

five_expected : incoming_at 2 7 sent_result.1 ≡ 5
unfolding adjust_expected ensure_expected adjust_incoming ensure_level write_level moved_incoming
    sort
five_expected = refl

cancel_purchase_order-send_purchase_order_example :
    (po_lifecycle approved_order.status approved_order.sent_at ≡ PoLifecycle.approved)
    × (po_lifecycle sent_result.0.status sent_result.0.sent_at ≡ PoLifecycle.sent)
    × ((v q : ℕ)
        → incoming_at v q sent_result.1
          ≡ incoming_at v q empty_warehouses + sum_by (owed_at 2 v q) approved_order.lines)
    × ((later : ℕ)
        → (reason : List ℕ)
        → (last : PurchaseOrder) × (x : Warehousing) × (cancel_purchase_order
              (λ w r. r)
              later
              reason
              sent_result.0
              sent_result.1
            ≡ ok (last, x))
          × ((v q : ℕ) → incoming_at v q x ≡ incoming_at v q empty_warehouses)
          × ((v q : ℕ) → on_hand_at v q x ≡ on_hand_at v q empty_warehouses))
cancel_purchase_order-send_purchase_order_example =
    cancel_purchase_order-send_purchase_order (λ w r. r) 44 approved_order sent_result.0
      empty_warehouses sent_result.1 supplier_catalogue sent_result.2 sent_order
