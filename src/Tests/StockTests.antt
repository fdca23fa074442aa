-- ===== src/Tests/StockTests.antt =====
-- Concrete stock positions, counts and bundles.
use achichiz_back_end.Prelude.{
  All, List, [], arith, false, length, none, ok, refl, set, some, sum_by, true, ℕ, ◌++◌, ◌+◌, ◌<◌,
  ◌↔◌, ◌∷◌, ◌≡◌,
}
use achichiz_back_end.Prelude.Int.{neg_part, negsuc, pos, pos_part, ◌-ℤ◌}
use achichiz_back_end.Stock.{StockPosition, assert_sufficient_stock, balance_after}
use achichiz_back_end.Stock.Checks.{IsSound, assert_sufficient_stock_iff}
use achichiz_back_end.Stock.Reorder.{ReorderInputs}
use achichiz_back_end.StockCount.Variance.{
  CountLine, abs, count_totals, count_totals-postable_variances, items_uncounted,
  postable_variances,
}
use achichiz_back_end.Barcodes.{is_valid_ean13}
use achichiz_back_end.Barcodes.CheckDigit.{is_valid_ean13-set}
use achichiz_back_end.Bundles.{
  BundleComponentStock, Covers, bundle_availability, bundle_availability_iff,
}

-- Ten on hand, of which four are promised.
abbrev shelf : StockPosition
shelf = record { on_hand_qty = pos 10; reserved_qty = pos 4 }

assert_sufficient_stock_iff_example :
    (assert_sufficient_stock shelf (negsuc 6) ≡ ok tt)
    ↔ IsSound (record shelf { on_hand_qty = balance_after shelf (negsuc 6) })
assert_sufficient_stock_iff_example =
    assert_sufficient_stock_iff shelf (negsuc 6)
      (record { reserved_nonneg = omega arith; covered = omega arith })

-- Six available and a reorder point of eight: the target is 28, in boxes of twelve.
abbrev low_shelf : ReorderInputs
low_shelf = record {
  on_hand_qty = pos 10;
  reserved_qty = pos 4;
  incoming_qty = pos 0;
  reorder_point = pos 8;
  reorder_qty = pos 20;
  moq = 12;
}

abbrev counted_lines : List CountLine
counted_lines =
    (record { inventory_level_id = 7; system_qty = pos 10; counted_qty = some (pos 7) })
    ∷ (record { inventory_level_id = 3; system_qty = pos 2; counted_qty = some (pos 7) })
    ∷ (record { inventory_level_id = 4; system_qty = pos 2; counted_qty = none })
    ∷ []

count_totals-postable_variances_example :
    let t = count_totals counted_lines in
    let vs = postable_variances counted_lines in
    (t.items_with_variance ≡ length vs)
    × (t.abs_variance_qty ≡ sum_by (λ v. abs v.variance_qty) vs)
    × (t.net_variance_qty
        ≡ pos (sum_by (λ v. pos_part v.variance_qty) vs)
          -ℤ pos (sum_by (λ v. neg_part v.variance_qty) vs))
    × (t.items_counted + items_uncounted counted_lines ≡ length counted_lines)
count_totals-postable_variances_example = count_totals-postable_variances counted_lines

-- A bottle and two pens.
abbrev gift_set : List BundleComponentStock
gift_set =
    (record { variant_id = 1; required_qty = pos 1; available_qty = pos 5 })
    ∷ (record { variant_id = 2; required_qty = pos 2; available_qty = pos 7 })
    ∷ []

bundle_availability_iff_example : ((bundle_availability gift_set (pos 3)).can_fulfil ≡ true) ↔ (
    (0 < length gift_set)
    × All (Covers (bundle_availability gift_set (pos 3)).requested_qty) gift_set)
bundle_availability_iff_example =
    bundle_availability_iff gift_set (pos 3) (omega arith, (omega arith, tt))

-- 400638133393, whose check digit is 1.
abbrev payload : List ℕ
payload = 52 ∷ 48 ∷ 48 ∷ 54 ∷ 51 ∷ 56 ∷ 49 ∷ 51 ∷ 51 ∷ 51 ∷ 57 ∷ 51 ∷ []

abbrev barcode : List ℕ
barcode = payload ++ (49 ∷ [])

is_valid_ean13-set_example : is_valid_ean13 (set barcode 5 57) ≡ ok false
unfolding is_valid_ean13
is_valid_ean13-set_example = is_valid_ean13-set barcode 5 57 refl (omega arith) refl (omega arith)
