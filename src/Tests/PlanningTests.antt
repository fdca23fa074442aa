-- ===== src/Tests/PlanningTests.antt =====
-- A campaign of four rows, and stock in three warehouses.
use achichiz_back_end.Prelude.{List, [], min, none, refl, some, sum_by, ℕ, ◌+◌, ◌∷◌, ◌≡◌, ◌≤◌}
use achichiz_back_end.Prelude.Int.{negsuc, pos}
use achichiz_back_end.Planning.{WarehousePosition, allocate_demand, available}
use achichiz_back_end.Planning.Covered.{allocate_demand_covered, available_at, taken_at}
use achichiz_back_end.Planning.Demand.{
  DemandLine, RecipientDemand, add_demand, aggregate_demand, aggregate_demand_complete, asked_at,
  count_recipients, line_at, recipients_of,
}

abbrev recipients : List RecipientDemand
recipients =
    record { id = 1; variant_id = some 20; quantity = none }
    ∷ record { id = 2; variant_id = none; quantity = none }
    ∷ record { id = 3; variant_id = some 10; quantity = some (pos 5) }
    ∷ record { id = 4; variant_id = some 20; quantity = some (pos 0) }
    ∷ []

abbrev lines_of_recipients : List DemandLine
lines_of_recipients =
    record { variant_id = 20; quantity = 2; recipient_count = 2 }
    ∷ record { variant_id = 10; quantity = 5; recipient_count = 1 }
    ∷ []

recipients_lines : (count_recipients recipients ([], [])).0 ≡ lines_of_recipients
unfolding count_recipients add_demand
recipients_lines = refl

aggregate_demand_complete_example :
    (sum_by recipients_of (aggregate_demand recipients).lines
        + (aggregate_demand recipients).unassigned_recipient_count
      ≡ 4)
    × ((v : ℕ)
        → sum_by (line_at v) (aggregate_demand recipients).lines ≡ sum_by (asked_at v) recipients)
aggregate_demand_complete_example = aggregate_demand_complete recipients

abbrev warehouses : List WarehousePosition
warehouses =
    record { inventory_level_id = 1; warehouse_id = 5; available_qty = pos 4 }
    ∷ record { inventory_level_id = 2; warehouse_id = 6; available_qty = negsuc 0 }
    ∷ record { inventory_level_id = 3; warehouse_id = 7; available_qty = pos 9 }
    ∷ []

allocate_demand_covered_example :
    ((allocate_demand 20 (pos 11) warehouses).allocated_qty ≡ min 11 (sum_by available warehouses))
    × ((id : ℕ)
        → sum_by (taken_at id) (allocate_demand 20 (pos 11) warehouses).allocations
          ≤ sum_by (available_at id) warehouses)
allocate_demand_covered_example = allocate_demand_covered 20 (pos 11) warehouses
