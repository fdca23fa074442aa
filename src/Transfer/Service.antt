-- ===== src/Transfer/Service.antt =====
-- The operations of a stock transfer, src/modules/admin-warehousing/admin-warehousing.service.ts, with
-- the writes of admin-warehousing.repository.ts beside it. A unique index gives each stockable of a
-- warehouse one level, so a level is named by the two, and its id only decides an order. Quantities
-- on the shelf, reserved and incoming are kept at 0 or above by the checks of the table. An
-- operation is one transaction that locks its rows.
pub mod Levels
pub mod Dispatch
pub mod Receive
pub mod Covered
pub mod Journey
use achichiz_back_end.Prelude.{
  Bool, List, Option, Result, [], err, filter, find?, if◌then◌else◌, leb, length, ltb, map, none,
  not, ok, require, some, suc, zero, ℕ, ◌&&◌, ◌+◌, ◌-◌, ◌==◌, ◌>>=◌, ◌>>◌, ◌∷◌,
}
use achichiz_back_end.Prelude.Int.{negsuc, pos, ℤ}
use achichiz_back_end.Prelude.Sorting.{sort}
use achichiz_back_end.Transfer.{
  StockTransferStatus, TransferAction, TransferEdge, TransferError, approve, approved,
  assert_transfer_action, cancel, cancelled, dispatch, edge, in_transit, receive, received,
  requested,
}
use achichiz_back_end.Stock.Ledger

pub record Level : Type 0 where
  pub on_hand_qty : ℕ
  pub reserved_qty : ℕ
  pub incoming_qty : ℕ

-- A variant and a loose hamper item are one kind of number here.
pub record TransferLine : Type 0 where
  pub id : ℕ
  pub stockable : ℕ
  pub sent_qty : ℕ
  pub received_qty : ℕ

pub record StockTransfer : Type 0 where
  pub from_warehouse : ℕ
  pub to_warehouse : ℕ
  pub status : StockTransferStatus
  pub lines : List TransferLine

pub record TransferMovement : Type 0 where
  pub warehouse : ℕ
  pub stockable : ℕ
  pub movement_type : Ledger.MovementType
  pub quantity_delta : ℤ
  pub balance_after : ℕ
  pub reference_id : ℕ

-- The tables: levels and transfers by their key, movements newest first.
pub record Warehousing : Type 0 where
  pub levels : ℕ → ℕ → Option Level
  pub movements : List TransferMovement
  pub transfers : ℕ → Option StockTransfer

pub data ServiceError : Type 0 where
  not_found transfer_same_warehouse transfer_has_no_lines : ServiceError
  unknown_stockable : List ℕ → ServiceError
  -- With the line that is short, refused or unknown.
  insufficient_stock unknown_transfer_line over_receipt : ℕ → ServiceError
  illegal : TransferError → ServiceError
  zero_delta increment_refused : ServiceError

abbrev pub same_level : ℕ → ℕ → ℕ → ℕ → Bool
same_level w r v q = (w == v) && (r == q)

-- One row of the table is written.
unfoldable pub write_level : ℕ → ℕ → Level → Warehousing → Warehousing
write_level w r l s = record s {
  levels = λ v q. if same_level w r v q then some l else s.levels v q;
}

-- `ensureLevel`: a level that was never stocked starts empty.
unfoldable pub ensure_level : ℕ → ℕ → Warehousing → Warehousing
unfolding write_level
ensure_level w r s = elim (s.levels w r) [
  | some _ ↦ s
  | none ↦ write_level w r (record { on_hand_qty = 0; reserved_qty = 0; incoming_qty = 0 }) s
]

-- What a delta makes of a level; a decrement leaves what is reserved.
unfoldable pub moved_level : ℤ → Level → Option Level
moved_level (pos n) l = some (record l { on_hand_qty = l.on_hand_qty + n })
moved_level (negsuc n) l =
    if leb (l.reserved_qty + suc n) l.on_hand_qty
    then some (record l { on_hand_qty = l.on_hand_qty - suc n })
    else none

-- The conditional `UPDATE`: the new quantity, or nothing where no row was written.
unfoldable pub adjust_on_hand :
    ℕ → ℕ → ℤ → Warehousing → Result ServiceError (Option (ℕ × Warehousing))
unfolding moved_level write_level
adjust_on_hand w r (pos zero) s = err zero_delta
adjust_on_hand w r delta s = elim (s.levels w r) [
  | none ↦ ok none
  | some l ↦ elim (moved_level delta l) [
    | none ↦ ok none
    | some m ↦ ok (some (m.on_hand_qty, write_level w r m s))
  ]
]

unfoldable pub moved_incoming : ℤ → ℕ → ℕ
moved_incoming (pos n) q = q + n
moved_incoming (negsuc n) q = q - suc n

unfoldable pub adjust_incoming : ℕ → ℕ → ℤ → Warehousing → Warehousing
unfolding moved_incoming write_level
adjust_incoming w r delta s = elim (s.levels w r) [
  | none ↦ s
  | some l ↦ write_level w r (record l { incoming_qty = moved_incoming delta l.incoming_qty }) s
]

-- `-n`.
abbrev pub opposite : ℕ → ℤ
opposite zero = pos 0
opposite (suc n) = negsuc n

abbrev pub add_movement : TransferMovement → Warehousing → Warehousing
add_movement m s = record s { movements = m ∷ s.movements }

unfoldable pub set_transfer : ℕ → StockTransfer → Warehousing → Warehousing
set_transfer id t s = record s { transfers = λ i. if id == i then some t else s.transfers i }

unfoldable pub lock_or_throw : ℕ → Warehousing → Result ServiceError StockTransfer
lock_or_throw id s = elim (s.transfers id) [ none ↦ err not_found | some t ↦ ok t ]

-- The edge of the machine, or its refusal.
unfoldable pub assert_action :
    StockTransferStatus → TransferAction → Result ServiceError TransferEdge
assert_action status action = elim (assert_transfer_action status action) [
  | ok edge ↦ ok edge
  | err e ↦ err (illegal e)
]

abbrev pub has_lines : StockTransfer → Bool
has_lines t = ltb 0 (length t.lines)

unfoldable pub update_status : ℕ → StockTransfer → StockTransferStatus → Warehousing → Warehousing
unfolding set_transfer
update_status id t status s = set_transfer id (record t { status = status }) s

-- A line as it is asked for: a stockable and a quantity.
abbrev pub new_line : ℕ × ℕ × ℕ → TransferLine
new_line (id, stockable, quantity) = record {
  id = id;
  stockable = stockable;
  sent_qty = quantity;
  received_qty = 0;
}

-- The ids of the transfer and of its lines are the database's. `exists` and `live` are its answers
-- to the look-ups of warehouses and stockables.
unfoldable pub create_transfer :
    (ℕ → Bool)
    → (ℕ → Bool)
    → ℕ
    → ℕ
    → ℕ
    → List (ℕ × ℕ × ℕ)
    → Warehousing
    → Result ServiceError Warehousing
unfolding set_transfer
create_transfer exists live id from to lines s = do
  require (not (from == to)) transfer_same_warehouse
  require (exists from) not_found
  require (exists to) not_found
  let missing = filter (λ (r : ℕ). not (live r)) (map (λ (l : ℕ × ℕ × ℕ). l.1) lines)
  require (not (ltb 0 (length missing))) (unknown_stockable missing)
  ok (
      set_transfer id
        (record {
          from_warehouse = from;
          to_warehouse = to;
          status = requested;
          lines = map new_line lines;
        })
        s)

unfoldable pub approve_transfer : ℕ → Warehousing → Result ServiceError Warehousing
unfolding update_status
approve_transfer id s = do
  t ← lock_or_throw id s
  edge ← assert_action t.status approve
  require (has_lines t) transfer_has_no_lines
  ok (update_status id t approved s)

unfoldable pub cancel_transfer : ℕ → Warehousing → Result ServiceError Warehousing
unfolding update_status
cancel_transfer id s = do
  t ← lock_or_throw id s
  edge ← assert_action t.status cancel
  ok (update_status id t cancelled s)

-- Every line must have a level at the source, before any is written.
unfoldable pub find_levels : ℕ → List TransferLine → Warehousing → Result ServiceError (Unit {0})
find_levels w [] s = ok tt
find_levels w (line ∷ lines) s = elim (s.levels w line.stockable) [
  | none ↦ err (insufficient_stock line.id)
  | some _ ↦ find_levels w lines s
]

unfoldable pub dispatch_line :
    ℕ → StockTransfer → TransferLine → Warehousing → Result ServiceError Warehousing
unfolding adjust_on_hand ensure_level adjust_incoming
dispatch_line id t line s = do
  adjusted ← adjust_on_hand t.from_warehouse line.stockable (opposite line.sent_qty) s
  elim adjusted [
    | none ↦ err (insufficient_stock line.id)
    | some (balance_after, taken) ↦
        let movement : TransferMovement = record {
          warehouse = t.from_warehouse;
          stockable = line.stockable;
          movement_type = Ledger.transfer_out;
          quantity_delta = opposite line.sent_qty;
          balance_after = balance_after;
          reference_id = id;
        } in
        let noted = add_movement movement taken in
        ok (
          adjust_incoming t.to_warehouse line.stockable (pos line.sent_qty)
            (ensure_level t.to_warehouse line.stockable noted))
  ]

unfoldable pub dispatch_lines :
    ℕ → StockTransfer → List TransferLine → Warehousing → Result ServiceError Warehousing
dispatch_lines id t [] s = ok s
dispatch_lines id t (line ∷ lines) s = do
  next ← dispatch_line id t line s
  dispatch_lines id t lines next

-- The level ids are the database's; the lines are taken in their order.
abbrev pub level_order : (ℕ → ℕ → ℕ) → ℕ → TransferLine → TransferLine → Bool
level_order level_id w a b = leb (level_id w a.stockable) (level_id w b.stockable)

unfoldable pub dispatch_transfer : (ℕ → ℕ → ℕ) → ℕ → Warehousing → Result ServiceError Warehousing
unfolding update_status
dispatch_transfer level_id id s = do
  t ← lock_or_throw id s
  edge ← assert_action t.status dispatch
  require (has_lines t) transfer_has_no_lines
  levels ← find_levels t.from_warehouse t.lines s
  moved ← dispatch_lines id t (sort (level_order level_id t.from_warehouse) t.lines) s
  ok (update_status id t in_transit moved)

-- `new Map(entries)`: a later entry of a line replaces an earlier one.
unfoldable pub add_override : ℕ → ℕ → List (ℕ × ℕ) → List (ℕ × ℕ)
add_override id qty [] = (id, qty) ∷ []
add_override id qty ((j, q) ∷ rest) =
    let kept = add_override id qty rest in if j == id then (j, qty) ∷ rest else (j, q) ∷ kept

unfoldable pub override_map : List (ℕ × ℕ) → List (ℕ × ℕ) → List (ℕ × ℕ)
override_map [] entries = entries
override_map ((id, qty) ∷ more) entries = override_map more (add_override id qty entries)

abbrev pub with_id : ℕ → TransferLine → Bool
with_id id line = line.id == id

unfoldable pub check_overrides : List TransferLine → List (ℕ × ℕ) → Result ServiceError (Unit {0})
check_overrides lines [] = ok tt
check_overrides lines ((id, qty) ∷ overrides) = elim (find? (with_id id) lines) [
  | none ↦ err (unknown_transfer_line id)
  | some line ↦
      require (not (ltb line.sent_qty qty)) (over_receipt id) >> check_overrides lines overrides
]

-- `overrides.get(line.id) ?? line.sentQty`.
unfoldable pub received_of : List (ℕ × ℕ) → TransferLine → ℕ
received_of [] line = line.sent_qty
received_of ((id, qty) ∷ overrides) line = if id == line.id then qty else received_of overrides line

abbrev pub ensure_levels : ℕ → List TransferLine → Warehousing → Warehousing
ensure_levels w [] s = s
ensure_levels w (line ∷ lines) s = ensure_levels w lines (ensure_level w line.stockable s)

unfoldable pub receive_line :
    ℕ → ℕ → List (ℕ × ℕ) → TransferLine → Warehousing → Result ServiceError Warehousing
unfolding adjust_on_hand adjust_incoming
receive_line id w overrides line s =
    let received = received_of overrides line in
    let arrived = adjust_incoming w line.stockable (opposite line.sent_qty) s in
    if received == 0
    then ok arrived
    else adjust_on_hand w line.stockable (pos received) arrived >>= λ adjusted. elim adjusted [
      | none ↦ err increment_refused
      | some (balance_after, added) ↦
          let movement : TransferMovement = record {
            warehouse = w;
            stockable = line.stockable;
            movement_type = Ledger.transfer_in;
            quantity_delta = pos received;
            balance_after = balance_after;
            reference_id = id;
          } in
          ok (add_movement movement added)
    ]

unfoldable pub receive_lines :
    ℕ → ℕ → List (ℕ × ℕ) → List TransferLine → Warehousing → Result ServiceError Warehousing
receive_lines id w overrides [] s = ok s
receive_lines id w overrides (line ∷ lines) s = do
  next ← receive_line id w overrides line s
  receive_lines id w overrides lines next

abbrev pub set_received : List (ℕ × ℕ) → TransferLine → TransferLine
set_received overrides line = record line { received_qty = received_of overrides line }

-- The received quantities of the lines are written with the status, one line by one in the loop.
unfoldable pub receive_transfer :
    (ℕ → ℕ → ℕ) → ℕ → List (ℕ × ℕ) → Warehousing → Result ServiceError Warehousing
unfolding update_status
receive_transfer level_id id input s = do
  t ← lock_or_throw id s
  edge ← assert_action t.status receive
  let overrides = override_map input []
  check_overrides t.lines overrides
  let stocked = ensure_levels t.to_warehouse t.lines s
  moved ←
      receive_lines id t.to_warehouse overrides (sort (level_order level_id t.to_warehouse) t.lines)
        stocked
  ok (update_status id (record t { lines = map (set_received overrides) t.lines }) received moved)
