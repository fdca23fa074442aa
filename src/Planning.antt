-- ===== src/Planning.antt =====
-- The planning of bulk orders, src/modules/admin-bulk-orders/admin-bulk-orders.planning.ts: the
-- demand of the recipients (Demand), and its allocation over the warehouses. Quantities are whole
-- numbers; an identifier is the number that it spells, so that an order of identifiers is an order
-- of numbers.
pub mod Demand
pub mod Procurement
pub mod Covered
use achichiz_back_end.Prelude.{
  Bool, List, Result, [], any, err, filter, if◌then◌else◌, leb, ltb, min, not, ok, sum_by, ℕ, ◌+◌,
  ◌-◌, ◌==◌, ◌∷◌,
}
use achichiz_back_end.Prelude.Int.{pos_part, ℤ}
use achichiz_back_end.Prelude.Sorting.{sort}

-- The name of a warehouse is left out.
pub record WarehousePosition : Type 0 where
  pub inventory_level_id : ℕ
  pub warehouse_id : ℕ
  pub available_qty : ℤ

pub record Allocation : Type 0 where
  pub inventory_level_id : ℕ
  pub warehouse_id : ℕ
  pub quantity : ℕ

pub record DemandAllocation : Type 0 where
  pub variant_id : ℕ
  pub required_qty : ℕ
  pub allocated_qty : ℕ
  pub shortage_qty : ℕ
  pub allocations : List Allocation

-- What a position has to give; one that gives nothing is dropped.
abbrev pub available : WarehousePosition → ℕ
available p = pos_part p.available_qty

abbrev pub has_stock : WarehousePosition → Bool
has_stock p = ltb 0 (available p)

-- The most stock first, then the smallest identifier.
abbrev pub by_stock : WarehousePosition → WarehousePosition → Bool
by_stock a b =
    if available a == available b
    then leb a.inventory_level_id b.inventory_level_id
    else ltb (available b) (available a)

abbrev pub by_level : Allocation → Allocation → Bool
by_level a b = leb a.inventory_level_id b.inventory_level_id

abbrev pub allocation_of : WarehousePosition → ℕ → Allocation
allocation_of p quantity = record {
  inventory_level_id = p.inventory_level_id;
  warehouse_id = p.warehouse_id;
  quantity = quantity;
}

-- The loop; what is left over after it is what no position could give.
unfoldable pub take_from : ℕ → List WarehousePosition → List Allocation
take_from remaining [] = []
take_from remaining (p ∷ ps) =
    let quantity = min remaining (available p) in
    let rest = take_from (remaining - quantity) ps in
    if remaining == 0 then [] else if quantity == 0 then rest else allocation_of p quantity ∷ rest

abbrev pub quantity_of : Allocation → ℕ
quantity_of a = a.quantity

unfoldable pub allocate_demand : ℕ → ℤ → List WarehousePosition → DemandAllocation
allocate_demand variant_id required_qty positions =
    let wanted = pos_part required_qty in
    let ranked = sort by_stock (filter has_stock positions) in
    let allocations = sort by_level (take_from wanted ranked) in
    let allocated = sum_by quantity_of allocations in
    record {
      variant_id = variant_id;
      required_qty = wanted;
      allocated_qty = allocated;
      shortage_qty = wanted - allocated;
      allocations = allocations;
    }

pub data BalanceError : Type 0 where
  does_not_balance over_allocates loses_units empty_row : BalanceError

unfoldable pub assert_allocation_balances : DemandAllocation → Result BalanceError (Unit {0})
assert_allocation_balances a =
    let summed = sum_by quantity_of a.allocations in
    if not (summed == a.allocated_qty)
    then err does_not_balance
    else if ltb a.required_qty summed
    then err over_allocates
    else if not (summed + a.shortage_qty == a.required_qty)
    then err loses_units
    else if any (λ (r : Allocation). r.quantity == 0) a.allocations
    then err empty_row
    else ok tt
