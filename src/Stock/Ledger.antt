-- ===== src/Stock/Ledger.antt =====
-- The stock ledger: the writes of src/modules/admin-inventory/admin-inventory.repository.ts and the
-- operations of src/modules/admin-inventory/admin-inventory.service.ts that call them. The tables are
-- the store: levels by their id, movements and reservations newest first. An operation runs in one
-- transaction that locks its levels, so it sees the rows as they are, and one that throws leaves the
-- store as it was. What only describes a row (notes, labels, actors, dates, the activity log) is
-- left out.
pub mod Invariant
pub mod Operations
pub mod Claims
pub mod Holds
pub mod Release
pub mod Bulk
pub mod Batches
pub mod Histories
use achichiz_back_end.Prelude.{
  Bool, List, Option, Result, [], err, false, find?, if◌then◌else◌, none, ok, some, true, ℕ, ◌+◌,
  ◌==◌, ◌>>=◌, ◌∷◌,
}
use achichiz_back_end.Prelude.Int.{neg_part, pos, pos_part, ℤ, ◌+ℤ◌, ◌-ℤ◌}
use achichiz_back_end.Stock.{
  StockError, StockPosition, assert_reservable, assert_sufficient_stock, available_of,
  balance_after, geb_ℤ,
}

-- `MOVEMENT_TYPES`.
pub data MovementType : Type 0 where
  inbound outbound adjustment transfer_out transfer_in damage return_in production : MovementType
  raw_material_consumption stock_count loss found : MovementType

-- The reasons that an adjustment names; any other text is `stated`.
pub data AdjustmentReason : Type 0 where
  shrinkage expired damaged returned found_again correction stated : AdjustmentReason

pub record Movement : Type 0 where
  pub inventory_level_id : ℕ
  pub movement_type : MovementType
  pub quantity_delta : ℤ
  pub balance_after : ℤ

-- A reservation's quantity is a positive integer of its column.
pub record Reservation : Type 0 where
  pub id : ℕ
  pub inventory_level_id : ℕ
  pub quantity : ℕ
  pub is_released : Bool

abbrev pub Levels : Type 0
Levels = ℕ → Option StockPosition

pub record Ledger : Type 0 where
  pub levels : Levels
  pub movements : List Movement
  pub reservations : List Reservation

pub data LedgerError : Type 0 where
  no_inventory_level not_found duplicate_target unknown_sku reservation_already_released :
      LedgerError
  -- `insufficient_stock`, of the check before the write and of the write itself.
  refused : StockError → LedgerError
  overtaken : LedgerError
  -- The `Error`s that the code calls unreachable.
  ledger_integrity : LedgerError

abbrev pub from_stock {ℓ} : {A : Type ℓ} → Result StockError A → Result LedgerError A
from_stock (ok a) = ok a
from_stock (err e) = err (refused e)

-- One row of the table is written.
unfoldable pub set_level : Levels → ℕ → StockPosition → Levels
set_level levels id position j = if j == id then some position else levels j

-- The conditional `UPDATE` of a level: zero rows where the test fails on the row as it is.
unfoldable pub update_level :
    (StockPosition → Bool)
    → (StockPosition → StockPosition)
    → Ledger
    → ℕ
    → Option (StockPosition × Ledger)
update_level test write l id = elim (l.levels id) [
  | none ↦ none
  | some p ↦
      if test p then some (write p, record l { levels = set_level l.levels id (write p) }) else none
]

-- `on_hand - reserved + delta >= 0`.
abbrev pub can_move : ℤ → StockPosition → Bool
can_move delta p = geb_ℤ (p.on_hand_qty -ℤ p.reserved_qty +ℤ delta) (pos 0)

abbrev pub move_on_hand : ℤ → StockPosition → StockPosition
move_on_hand delta p = record p { on_hand_qty = p.on_hand_qty +ℤ delta }

unfoldable pub apply_on_hand_delta : Ledger → ℕ → ℤ → Option (StockPosition × Ledger)
apply_on_hand_delta l id delta = update_level (can_move delta) (move_on_hand delta) l id

-- `on_hand - reserved >= quantity`.
abbrev pub can_reserve : ℕ → StockPosition → Bool
can_reserve quantity p = geb_ℤ (p.on_hand_qty -ℤ p.reserved_qty) (pos quantity)

abbrev pub add_reserved : ℕ → StockPosition → StockPosition
add_reserved quantity p = record p { reserved_qty = p.reserved_qty +ℤ pos quantity }

unfoldable pub reserve_stock : Ledger → ℕ → ℕ → Option (StockPosition × Ledger)
reserve_stock l id quantity = update_level (can_reserve quantity) (add_reserved quantity) l id

-- `reserved >= quantity`.
abbrev pub can_release : ℕ → StockPosition → Bool
can_release quantity p = geb_ℤ p.reserved_qty (pos quantity)

abbrev pub take_reserved : ℕ → StockPosition → StockPosition
take_reserved quantity p = record p { reserved_qty = p.reserved_qty -ℤ pos quantity }

unfoldable pub release_reserved_qty : Ledger → ℕ → ℕ → Option (StockPosition × Ledger)
release_reserved_qty l id quantity =
    update_level (can_release quantity) (take_reserved quantity) l id

unfoldable pub insert_movement : Movement → Ledger → Ledger
insert_movement m l = record l { movements = m ∷ l.movements }

unfoldable pub insert_reservation : Reservation → Ledger → Ledger
insert_reservation r l = record l { reservations = r ∷ l.reservations }

unfoldable pub find_reservation : ℕ → List Reservation → Option Reservation
find_reservation id rs = find? (λ (r : Reservation). r.id == id) rs

-- `SET released_at WHERE id = … AND released_at IS NULL`; an id is the key of one row.
unfoldable pub mark_released : ℕ → List Reservation → Option (Reservation × List Reservation)
mark_released id [] = none
mark_released id (r ∷ rs) =
    let later = mark_released id rs in
    if r.id == id
    then if r.is_released then none else some (r, (record r { is_released = true }) ∷ rs)
    else elim later [ some (claimed, rest) ↦ some (claimed, r ∷ rest) | none ↦ none ]

pub record AdjustmentResult : Type 0 where
  pub inventory_level_id : ℕ
  pub movement_type : MovementType
  pub quantity_delta : ℤ
  pub on_hand_qty_before : ℤ
  pub on_hand_qty : ℤ
  pub reserved_qty : ℤ
  pub available_qty : ℤ
  pub balance_after : ℤ

abbrev pub same_ℤ : ℤ → ℤ → Bool
same_ℤ a b = pos_part a + neg_part b == pos_part b + neg_part a

-- What follows the conditional write of an adjustment.
unfoldable pub record_movement :
    ℕ
    → StockPosition
    → ℤ
    → MovementType
    → StockPosition × Ledger
    → Result LedgerError (AdjustmentResult × Ledger)
record_movement id before delta type (after, l) =
    if same_ℤ after.on_hand_qty (balance_after before delta)
    then ok (
      record {
        inventory_level_id = id;
        movement_type = type;
        quantity_delta = delta;
        on_hand_qty_before = before.on_hand_qty;
        on_hand_qty = after.on_hand_qty;
        reserved_qty = after.reserved_qty;
        available_qty = available_of after;
        balance_after = after.on_hand_qty;
      },
      insert_movement
          (record {
            inventory_level_id = id;
            movement_type = type;
            quantity_delta = delta;
            balance_after = after.on_hand_qty;
          })
          l,
    )
    else err ledger_integrity

-- `before` is the row that was read under the lock.
unfoldable pub write_adjustment :
    ℕ → StockPosition → ℤ → MovementType → Ledger → Result LedgerError (AdjustmentResult × Ledger)
write_adjustment id before delta type l = do
  _ ← from_stock (assert_sufficient_stock before delta)
  elim (apply_on_hand_delta l id delta) [
    | none ↦ err overtaken
    | some written ↦ record_movement id before delta type written
  ]

-- The reason refines the type `adjustment`, and no other.
unfoldable pub mapped_movement_type : MovementType → AdjustmentReason → MovementType
mapped_movement_type adjustment shrinkage = loss
mapped_movement_type adjustment expired = loss
mapped_movement_type adjustment damaged = damage
mapped_movement_type adjustment returned = return_in
mapped_movement_type adjustment found_again = found
mapped_movement_type type _ = type

-- `level_id` is what `findLevelId` answers for the item and the warehouse, which were looked up
-- before; the write of a unit cost, which is not in the ledger, is left out.
unfoldable pub adjust :
    Option ℕ
    → ℤ
    → MovementType
    → AdjustmentReason
    → Ledger
    → Result LedgerError (AdjustmentResult × Ledger)
adjust none delta type reason l = err no_inventory_level
adjust (some id) delta type reason l = elim (l.levels id) [
  | none ↦ err not_found
  | some before ↦ write_adjustment id before delta (mapped_movement_type type reason) l
]

unfoldable pub create_reservation :
    Option ℕ → ℕ → ℕ → Ledger → Result LedgerError (Reservation × Ledger)
create_reservation none quantity new_id l = err no_inventory_level
create_reservation (some id) quantity new_id l = elim (l.levels id) [
  | none ↦ err not_found
  | some before ↦ from_stock (assert_reservable before (pos quantity)) >>= λ _.
      elim (reserve_stock l id quantity) [
        | none ↦ err overtaken
        | some (after, held) ↦
            let r : Reservation = record {
              id = new_id;
              inventory_level_id = id;
              quantity = quantity;
              is_released = false;
            } in
            ok (r, insert_reservation r held)
      ]
]

-- What follows the claim of a release.
unfoldable pub return_units : Ledger → Reservation × List Reservation → Result LedgerError Ledger
return_units l (claimed, rs) =
    elim (release_reserved_qty (record l { reservations = rs }) claimed.inventory_level_id
      claimed.quantity) [ none ↦ err ledger_integrity | some (after, released) ↦ ok released ]

unfoldable pub release_reservation : ℕ → Ledger → Result LedgerError Ledger
release_reservation id l = elim (find_reservation id l.reservations) [
  | none ↦ err not_found
  | some existing ↦ elim (l.levels existing.inventory_level_id) [
    | none ↦ err not_found
    | some before ↦ elim (mark_released id l.reservations) [
      | none ↦ err reservation_already_released
      | some claimed ↦ return_units l claimed
    ]
  ]
]
