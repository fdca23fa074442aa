-- ===== src/Planning/Covered.antt =====
-- An allocation gives what is asked for or all that there is, from no warehouse more than it has.
use achichiz_back_end.Prelude.{
  All, Bool-cases, List, [], any, ap, arith, false, filter, if◌then◌else◌, inl, inr, ltb, min, ok,
  refl, sum_by, true, ℕ, ◌+◌, ◌-◌, ◌<◌, ◌==◌, ◌∙◌, ◌∷◌, ◌≡◌, ◌≤◌,
}
use achichiz_back_end.Prelude.Int.{pos_part, ℤ}
use achichiz_back_end.Prelude.Sorting.{sort, sort-All, sort-sum}
use achichiz_back_end.Planning.{
  Allocation, WarehousePosition, allocate_demand, assert_allocation_balances, available, by_level,
  by_stock, has_stock, quantity_of, take_from,
}

take_from-sum :
    (remaining : ℕ) (ps : List WarehousePosition)
    → sum_by quantity_of (take_from remaining ps) ≡ min remaining (sum_by available ps)
unfolding take_from
take_from-sum remaining [] = omega arith
take_from-sum remaining (p ∷ ps) =
    let ih = take_from-sum (remaining - min remaining (available p)) ps in ground arith

take_from-All-positive :
    (remaining : ℕ) (ps : List WarehousePosition)
    → All (λ (a : Allocation). 0 < a.quantity) (take_from remaining ps)
unfolding take_from
take_from-All-positive remaining [] = tt
take_from-All-positive remaining (p ∷ ps) =
    let quantity = min remaining (available p) in
    let ih = take_from-All-positive (remaining - quantity) ps in
    elim (Bool-cases (remaining == 0)) [
      | inl done ↦ rw (take_from, done) tt
      | inr more ↦ elim (Bool-cases (quantity == 0)) [
        | inl nothing ↦ rw (take_from, more, nothing) ih
        | inr some_left ↦ rw (take_from, more, some_left) (ground arith, ih)
      ]
    ]

filter-sum :
    (ps : List WarehousePosition) → sum_by available (filter has_stock ps) ≡ sum_by available ps
filter-sum [] = refl
filter-sum (p ∷ ps) = let ih = filter-sum ps in ground arith

any-positive :
    (rows : List Allocation)
    → All (λ (a : Allocation). 0 < a.quantity) rows
    → any (λ (a : Allocation). a.quantity == 0) rows ≡ false
any-positive [] h = refl
any-positive (a ∷ rows) (h, hs) = let ih = any-positive rows hs in ground arith

-- What `assert_allocation_balances` looks at, for rows that sum up to at most what is wanted.
assert_allocation_balances-ok :
    (variant_id wanted : ℕ) (rows : List Allocation)
    → sum_by quantity_of rows ≤ wanted
    → any (λ (a : Allocation). a.quantity == 0) rows ≡ false
    → assert_allocation_balances (record {
      variant_id = variant_id;
      required_qty = wanted;
      allocated_qty = sum_by quantity_of rows;
      shortage_qty = wanted - sum_by quantity_of rows;
      allocations = rows;
    })
      ≡ ok tt
unfolding assert_allocation_balances
assert_allocation_balances-ok variant_id wanted rows within positive =
    let total = sum_by quantity_of rows in
    let same : (total == total) ≡ true = ground arith in
    let under : ltb wanted total ≡ false = ground arith in
    let whole : (total + (wanted - total) == wanted) ≡ true = ground arith in
    rw (assert_allocation_balances, same, under, whole, positive) refl

-- What is allocated is what is required, or all that the warehouses have where that is less.
allocate_demand-allocated_qty :
    (variant_id : ℕ) (required_qty : ℤ) (positions : List WarehousePosition)
    → (allocate_demand variant_id required_qty positions).allocated_qty
      ≡ min (pos_part required_qty) (sum_by available positions)
unfolding allocate_demand
allocate_demand-allocated_qty variant_id required_qty positions =
    let wanted = pos_part required_qty in
    let ranked = sort by_stock (filter has_stock positions) in
    sort-sum by_level quantity_of (take_from wanted ranked)
    ∙ take_from-sum wanted ranked
    ∙ ap (min wanted)
        (sort-sum by_stock available (filter has_stock positions) ∙ filter-sum positions)

-- Every allocation balances: no check of the balance throws.
allocate_demand-assert_allocation_balances :
    (variant_id : ℕ) (required_qty : ℤ) (positions : List WarehousePosition)
    → assert_allocation_balances (allocate_demand variant_id required_qty positions) ≡ ok tt
unfolding assert_allocation_balances allocate_demand
allocate_demand-assert_allocation_balances variant_id required_qty positions =
    let wanted = pos_part required_qty in
    let ranked = sort by_stock (filter has_stock positions) in
    let taken = take_from wanted ranked in
    let total = allocate_demand-allocated_qty variant_id required_qty positions in
    assert_allocation_balances-ok variant_id wanted (sort by_level taken) (omega (arith, total)) (
      any-positive (sort by_level taken) (
        sort-All by_level (λ (r : Allocation). 0 < r.quantity) taken
          (take_from-All-positive wanted ranked)))

-- What a row takes from a level, and what a position has at it.
abbrev pub taken_at : ℕ → Allocation → ℕ
taken_at id a = if a.inventory_level_id == id then a.quantity else 0

abbrev pub available_at : ℕ → WarehousePosition → ℕ
available_at id p = if p.inventory_level_id == id then available p else 0

take_from-at :
    (id remaining : ℕ) (ps : List WarehousePosition)
    → sum_by (taken_at id) (take_from remaining ps) ≤ sum_by (available_at id) ps
unfolding take_from
take_from-at id remaining [] = omega arith
take_from-at id remaining (p ∷ ps) =
    let ih = take_from-at id (remaining - min remaining (available p)) ps in ground arith

filter-at :
    (id : ℕ) (ps : List WarehousePosition)
    → sum_by (available_at id) (filter has_stock ps) ≡ sum_by (available_at id) ps
filter-at id [] = refl
filter-at id (p ∷ ps) = let ih = filter-at id ps in ground arith

-- No level gives more than it has.
allocate_demand-at :
    (variant_id : ℕ) (required_qty : ℤ) (positions : List WarehousePosition) (id : ℕ)
    → sum_by (taken_at id) (allocate_demand variant_id required_qty positions).allocations
      ≤ sum_by (available_at id) positions
unfolding allocate_demand
allocate_demand-at variant_id required_qty positions id =
    let ranked = sort by_stock (filter has_stock positions) in
    let rows = sort-sum by_level (taken_at id) (take_from (pos_part required_qty) ranked) in
    let taken = take_from-at id (pos_part required_qty) ranked in
    let stock = sort-sum by_stock (available_at id) (filter has_stock positions) in
    let dropped = filter-at id positions in omega arith

-- What is allocated is what is required, or all that the warehouses have where that is less, and no
-- level gives more than it has.
pub allocate_demand_covered :
    (variant_id : ℕ) (required_qty : ℤ) (positions : List WarehousePosition)
    → let a = allocate_demand variant_id required_qty positions in
      (a.allocated_qty ≡ min (pos_part required_qty) (sum_by available positions))
      × ((id : ℕ) → sum_by (taken_at id) a.allocations ≤ sum_by (available_at id) positions)
allocate_demand_covered variant_id required_qty positions = (
  allocate_demand-allocated_qty variant_id required_qty positions,
  allocate_demand-at variant_id required_qty positions,
)
