-- ===== src/Stock/Ledger/Bulk.antt =====
-- `bulkAdjust` of src/modules/admin-inventory/admin-inventory.service.ts: a batch of adjustments, all
-- or nothing. What the database is asked before the transaction is an interface.
use achichiz_back_end.Prelude.{
  Bool, List, Option, Result, [], any, err, false, leb, none, not, ok, require, some, ℕ, ◌&&◌, ◌==◌,
  ◌>>=◌, ◌>>◌, ◌||◌, ◌∷◌, ◌≡◌,
}
use achichiz_back_end.Prelude.Int.{ℤ}
use achichiz_back_end.Prelude.Sorting.{sort}
use achichiz_back_end.Stock.Ledger.{
  AdjustmentResult, Ledger, LedgerError, Levels, MovementType, duplicate_target, no_inventory_level,
  not_found, unknown_sku, write_adjustment,
}

pub record BulkLine : Type 0 where
  pub sku : ℕ
  pub warehouse_id : ℕ
  pub quantity_delta : ℤ
  pub movement_type : Option MovementType

pub record Planned : Type 0 where
  pub level_id : ℕ
  pub quantity_delta : ℤ
  pub movement_type : MovementType

-- What `resolveSkus`, `findWarehouse` and `findLevelsForItems` answer. The unique index on the table
-- gives a level one item and one warehouse.
pub record Catalogue : Type 0 where
  pub is_sku : ℕ → Bool
  pub is_warehouse : ℕ → Bool
  pub find_level : ℕ → ℕ → Option ℕ
  pub find_level-injective :
      (sku sku' warehouse warehouse' : ℕ) {id : ℕ}
      → find_level sku warehouse ≡ some id
      → find_level sku' warehouse' ≡ some id
      → (sku ≡ sku') × (warehouse ≡ warehouse')

abbrev pub same_target : BulkLine → BulkLine → Bool
same_target a b = (a.sku == b.sku) && (a.warehouse_id == b.warehouse_id)

-- The first loop.
unfoldable pub has_duplicates : List BulkLine → Bool
has_duplicates [] = false
has_duplicates (line ∷ lines) = any (same_target line) lines || has_duplicates lines

abbrev pub by_level_id : Planned → Planned → Bool
by_level_id a b = leb a.level_id b.level_id

-- The loop over the planned lines; `locked` is what `lockLevels` read.
unfoldable pub write_all :
    Levels → List Planned → Ledger → Result LedgerError (List AdjustmentResult × Ledger)
write_all locked [] l = ok ([], l)
write_all locked (line ∷ lines) l = elim (locked line.level_id) [
  | none ↦ err not_found
  | some before ↦ do
    (result, after) ← write_adjustment line.level_id before line.quantity_delta line.movement_type l
    (results, last) ← write_all locked lines after
    ok (result ∷ results, last)
]

module _ (catalogue : Catalogue) where
  open catalogue use {is_sku, is_warehouse, find_level, find_level-injective}

  -- The lines that have a level; `none` where one has none.
  unfoldable pub plan : MovementType → List BulkLine → Option (List Planned)
  plan type [] = some []
  plan type (line ∷ lines) =
      let rest = plan type lines in
      elim (find_level line.sku line.warehouse_id) [
        | none ↦ none
        | some id ↦ elim rest [
          | none ↦ none
          | some planned ↦ some (
              (record {
                level_id = id;
                quantity_delta = line.quantity_delta;
                movement_type = elim line.movement_type [ some own ↦ own | none ↦ type ];
              })
              ∷ planned)
        ]
      ]

  unfoldable pub bulk_adjust :
      MovementType → List BulkLine → Ledger → Result LedgerError (List AdjustmentResult × Ledger)
  bulk_adjust type lines l = do
    require (not (has_duplicates lines)) duplicate_target
    require (not (any (λ (line : BulkLine). not (is_sku line.sku)) lines)) unknown_sku
    require (not (any (λ (line : BulkLine). not (is_warehouse line.warehouse_id)) lines)) not_found
    elim (plan type lines) [
      | none ↦ err no_inventory_level
      | some planned ↦ write_all l.levels (sort by_level_id planned) l
    ]
