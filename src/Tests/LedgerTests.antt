-- ===== src/Tests/LedgerTests.antt =====
-- Runs of the stock ledger.
use mathlib.Core.Option.{some-injective}
use mathlib.Core.Path.{subst}
use achichiz_back_end.Prelude.{
  Bool-cases, List, Option, [], arith, if◌then◌else◌, inl, inr, none, ok, refl, some, ℕ, ◌&&◌, ◌==◌,
  ◌∷◌, ◌≡◌,
}
use achichiz_back_end.Prelude.Int.{negsuc, pos, ℤ, ◌+ℤ◌, ◌-ℤ◌}
use achichiz_back_end.Stock.{
  StockPosition, assert_reservable, assert_sufficient_stock, balance_after,
}
use achichiz_back_end.Stock.Ledger.{
  Ledger, adjust, adjustment, apply_on_hand_delta, create_reservation, damaged, find_reservation,
  inbound, insert_movement, insert_reservation, mark_released, record_movement, release_reservation,
  release_reserved_qty, reserve_stock, return_units, set_level, update_level, write_adjustment,
}
use achichiz_back_end.Stock.Ledger.Invariant.{IsConsistent, IsKept, IsSettled, held, moved}
use achichiz_back_end.Stock.Ledger.Bulk.{BulkLine, Catalogue}
use achichiz_back_end.Stock.Ledger.Holds.{reservation_of, reserved_of}
use achichiz_back_end.Stock.Ledger.Histories.{
  Request, adjusts, adjusts_all, apply, commit, releases, reserves, run, run-IsConsistent,
}
use achichiz_back_end.Stock.Ledger.Release.{release_reservation-create_reservation}

abbrev opening : ℕ → ℤ
opening id = pos 5

abbrev five : StockPosition
five = record { on_hand_qty = pos 5; reserved_qty = pos 0 }

-- One level, of the item 7 in the warehouse 1.
abbrev start : Ledger
start = record {
  levels = λ id. if id == 10 then some five else none;
  movements = [];
  reservations = [];
}

start-IsConsistent : IsConsistent opening start
unfolding moved held ◌+ℤ◌
start-IsConsistent = record {
  kept = λ id p e. elim (Bool-cases (id == 10)) [
    | inl here ↦ subst (IsKept opening start id) (some-injective _ _ (rw here at e)) (record {
      sound = record { reserved_nonneg = omega arith; covered = omega arith };
      balanced = refl;
      claimed = refl;
    })
    | inr away ↦ cc (rw away at e)
  ];
  replays = tt;
  placed = tt;
}

abbrev one_level : ℕ → ℕ → Option ℕ
one_level sku warehouse = if (sku == 7) && (warehouse == 1) then some 10 else none

one_level-injective :
    (sku sku' warehouse warehouse' : ℕ) {id : ℕ}
    → one_level sku warehouse ≡ some id
    → one_level sku' warehouse' ≡ some id
    → (sku ≡ sku') × (warehouse ≡ warehouse')
one_level-injective sku sku' warehouse warehouse' e e' = ground arith

abbrev shop : Catalogue
shop = record {
  is_sku = λ sku. sku == 7;
  is_warehouse = λ warehouse. warehouse == 1;
  find_level = one_level;
  find_level-injective = one_level-injective;
}

abbrev requests : List Request
requests =
    reserves (some 10) 3 1
    ∷ adjusts (some 10) (negsuc 2) adjustment damaged
    ∷ adjusts (some 10) (negsuc 0) adjustment damaged
    ∷ releases 1
    ∷ releases 1
    ∷ []

-- The second adjustment goes through: two units were free.
requests_end :
    (run shop requests start).levels 10
    ≡ some (record { on_hand_qty = pos 4; reserved_qty = pos 0 })
unfolding run commit apply adjust create_reservation release_reservation write_adjustment
    find_reservation assert_reservable reserve_stock update_level insert_reservation set_level
    assert_sufficient_stock apply_on_hand_delta record_movement balance_after insert_movement
    mark_released return_units release_reserved_qty ◌+ℤ◌ ◌-ℤ◌
requests_end = refl

abbrev after_requests : Ledger
after_requests = run shop requests start

-- Two lines write the same level.
abbrev batch : List BulkLine
batch =
    record { sku = 7; warehouse_id = 1; quantity_delta = pos 2; movement_type = none }
    ∷ record { sku = 7; warehouse_id = 1; quantity_delta = pos 3; movement_type = some inbound }
    ∷ []

run-IsConsistent_example :
    IsConsistent opening (run shop requests start)
    × IsSettled opening (apply shop (adjusts_all adjustment batch) (run shop requests start))
run-IsConsistent_example =
    run-IsConsistent shop opening requests (adjusts_all adjustment batch) start start-IsConsistent

-- Three of the five units are held.
start_reserved :
    create_reservation (some 10) 3 1 start
    ≡ ok (reservation_of 10 3 1, reserved_of 10 3 1 five start)
unfolding create_reservation assert_reservable reserve_stock update_level insert_reservation
    set_level ◌+ℤ◌ ◌-ℤ◌
start_reserved = refl

release_reservation-create_reservation_example :
    (l : Ledger) × (release_reservation 1 (reserved_of 10 3 1 five start) ≡ ok l)
    × ((j : ℕ) → l.levels j ≡ start.levels j)
release_reservation-create_reservation_example =
    release_reservation-create_reservation opening start (some 10) 3 1 start-IsConsistent
      start_reserved
