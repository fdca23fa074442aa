-- ===== src/Tests/TransferTests.antt =====
-- Tests and witnesses for the operations of a transfer: ten units of one stockable, three of them
-- reserved, of which two lines send five.
use achichiz_back_end.Prelude.{
  All, List, [], arith, err, if◌then◌else◌, map, none, ok, refl, some, sum_by, ℕ, ◌*◌, ◌+◌, ◌-◌,
  ◌==◌, ◌↔◌, ◌∷◌, ◌≡◌, ◌≤◌,
}
use achichiz_back_end.Transfer.{approved, assert_transfer_action, in_transit, received}
use achichiz_back_end.Transfer.Service.{
  Level, StockTransfer, TransferLine, Warehousing, add_override, assert_action, check_overrides,
  dispatch_transfer, lock_or_throw, over_receipt, override_map, receive_transfer, same_level,
  set_received,
}
use achichiz_back_end.Transfer.Service.Levels.{incoming_at, on_hand_at, reserved_at}
use achichiz_back_end.Transfer.Service.Dispatch.{dispatch_transfer-Sent, sent_at}
use achichiz_back_end.Transfer.Service.Receive.{receive_transfer-Arrived, received_at}
use achichiz_back_end.Transfer.Service.Covered.{HasAll, SendsFrom, dispatch_transfer-ok_iff}
use achichiz_back_end.Transfer.Service.Journey.{
  IsNamedOrFull, IsWithin, receive_transfer-IsWithin, receive_transfer-dispatch_transfer,
}

abbrev transfer_line : ℕ → ℕ → TransferLine
transfer_line id sent = record { id = id; stockable = 7; sent_qty = sent; received_qty = 0 }

abbrev five_units : StockTransfer
five_units = record {
  from_warehouse = 1;
  to_warehouse = 2;
  status = approved;
  lines = transfer_line 11 3 ∷ transfer_line 12 2 ∷ [];
}

abbrev ten_on_hand : Level
ten_on_hand = record { on_hand_qty = 10; reserved_qty = 3; incoming_qty = 0 }

abbrev two_warehouses : StockTransfer → Warehousing
two_warehouses t = record {
  levels = λ w r. if same_level 1 7 w r then some ten_on_hand else none;
  movements = [];
  transfers = λ i. if 5 == i then some t else none;
}

abbrev level_ids : ℕ → ℕ → ℕ
level_ids w r = 100 * w + r

shelf-HasAll : HasAll 1 five_units.lines (two_warehouses five_units)
shelf-HasAll q = ground arith

shelf-reserved :
    (q : ℕ)
    → reserved_at 1 q (two_warehouses five_units) ≤ on_hand_at 1 q (two_warehouses five_units)
shelf-reserved q = ground arith

dispatch_transfer-ok_iff_example :
    ((u : Warehousing) × (dispatch_transfer level_ids 5 (two_warehouses five_units) ≡ ok u)) ↔ (
      All (SendsFrom 1 (two_warehouses five_units)) five_units.lines
      × HasAll 1 five_units.lines (two_warehouses five_units))
dispatch_transfer-ok_iff_example =
    dispatch_transfer-ok_iff level_ids 5 (two_warehouses five_units) five_units refl refl refl
      (omega arith, (omega arith, tt)) shelf-reserved

dispatched : (u : Warehousing) × (dispatch_transfer level_ids 5 (two_warehouses five_units) ≡ ok u)
dispatched =
    dispatch_transfer-ok_iff_example.1
      ((((ten_on_hand, refl), omega arith), (((ten_on_hand, refl), omega arith), tt)), shelf-HasAll)

dispatch_transfer-Sent_example :
    (t : StockTransfer) × ((two_warehouses five_units).transfers 5 ≡ some t)
    × (t.status ≡ approved)
    × (dispatched.0.transfers 5 ≡ some (record t { status = in_transit }))
    × ((v q : ℕ)
        → on_hand_at v q dispatched.0 + sum_by (sent_at t.from_warehouse v q) t.lines
          ≡ on_hand_at v q (two_warehouses five_units))
    × ((v q : ℕ)
        → incoming_at v q dispatched.0
          ≡ incoming_at v q (two_warehouses five_units)
            + sum_by (sent_at t.to_warehouse v q) t.lines)
    × ((v q : ℕ) → reserved_at v q dispatched.0 ≡ reserved_at v q (two_warehouses five_units))
    × ((v q : ℕ)
        → reserved_at v q (two_warehouses five_units) ≤ on_hand_at v q (two_warehouses five_units)
        → reserved_at v q dispatched.0 ≤ on_hand_at v q dispatched.0)
dispatch_transfer-Sent_example =
    dispatch_transfer-Sent level_ids 5 (two_warehouses five_units) dispatched.1

receive_transfer-dispatch_transfer_example :
    (t : StockTransfer) × ((two_warehouses five_units).transfers 5 ≡ some t)
    × (x : Warehousing) × (receive_transfer level_ids 5 [] dispatched.0 ≡ ok x)
    × ((v q : ℕ)
        → on_hand_at v q x + sum_by (sent_at t.from_warehouse v q) t.lines
          ≡ on_hand_at v q (two_warehouses five_units)
            + sum_by (sent_at t.to_warehouse v q) t.lines)
    × ((v q : ℕ) → incoming_at v q x ≡ incoming_at v q (two_warehouses five_units))
    × ((v q : ℕ) → reserved_at v q x ≡ reserved_at v q (two_warehouses five_units))
receive_transfer-dispatch_transfer_example =
    receive_transfer-dispatch_transfer level_ids 5 (two_warehouses five_units) dispatched.1

abbrev on_the_road : StockTransfer
on_the_road = record five_units { status = in_transit }

-- One of three units of the first line arrives.
abbrev short : List (ℕ × ℕ)
short = (11, 2) ∷ (11, 1) ∷ []

receive_transfer-Arrived_example :
    (u : Warehousing) × (receive_transfer level_ids 5 short (two_warehouses on_the_road) ≡ ok u)
    × (u.transfers 5
        ≡ some (record on_the_road {
          status = received;
          lines = map (set_received (override_map short [])) on_the_road.lines;
        }))
    × ((v q : ℕ)
        → on_hand_at v q u
          ≡ on_hand_at v q (two_warehouses on_the_road)
            + sum_by (received_at 2 (override_map short []) v q) on_the_road.lines)
    × ((v q : ℕ)
        → incoming_at v q u
          ≡ incoming_at v q (two_warehouses on_the_road) - sum_by (sent_at 2 v q) on_the_road.lines)
    × ((v q : ℕ) → reserved_at v q u ≡ reserved_at v q (two_warehouses on_the_road))
unfolding check_overrides override_map add_override
receive_transfer-Arrived_example =
    receive_transfer-Arrived level_ids 5 short (two_warehouses on_the_road) on_the_road refl refl
      refl

receive_transfer-IsWithin_example :
    (lines : List TransferLine) × (receive_transfer-Arrived_example.0.transfers 5
      ≡ some (record on_the_road { status = received; lines = lines }))
    × All IsWithin lines
    × All (IsNamedOrFull short) lines
    × (lines ≡ map (set_received (override_map short [])) on_the_road.lines)
receive_transfer-IsWithin_example =
    receive_transfer-IsWithin level_ids 5 short (two_warehouses on_the_road) on_the_road refl
      ((omega arith, tt), (tt, tt)) receive_transfer-Arrived_example.1

-- More than was sent cannot arrive.
too_much :
    receive_transfer level_ids 5 ((12, 3) ∷ []) (two_warehouses on_the_road) ≡ err (over_receipt 12)
unfolding receive_transfer lock_or_throw assert_action assert_transfer_action check_overrides
    override_map add_override
too_much = refl
