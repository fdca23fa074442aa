-- ===== src/Stock/Ledger/Operations.antt =====
-- Every operation keeps the invariant, and none meets an error that the code calls unreachable.
use mathlib.Core.Option.{some-injective}
use achichiz_back_end.Prelude.{
  >>=-eq-ok, Bool, Bool-cases, Option, Option-cases, Result-cases, ap, arith, err, if◌then◌else◌,
  inl, inr, none, ok, ok-injective, refl, some, sym, true, ℕ, ◌≡◌, ◌⊎◌,
}
use achichiz_back_end.Prelude.Int.{ℤ, ◌+ℤ◌, ◌-ℤ◌}
use achichiz_back_end.Stock.{
  StockError, StockPosition, assert_sufficient_stock, available_of, balance_after,
}
use achichiz_back_end.Stock.Checks.{IsSound}
use achichiz_back_end.Stock.Ledger.{
  AdjustmentReason, AdjustmentResult, Ledger, Movement, MovementType, adjust, apply_on_hand_delta,
  can_move, from_stock, insert_movement, mapped_movement_type, move_on_hand, no_inventory_level,
  not_found, record_movement, refused, same_ℤ, set_level, update_level, write_adjustment,
}
use achichiz_back_end.Stock.Ledger.Invariant.{IsConsistent, IsSettled, movement-IsConsistent}

written :
    (test : StockPosition → Bool) (write : StockPosition → StockPosition) (l : Ledger) (id : ℕ)
    (p : StockPosition) {q : StockPosition} {l' : Ledger}
    → l.levels id ≡ some p
    → ◌≡◌ {A = Option (StockPosition × Ledger)}
        (if test p
          then some (write p, record l { levels = set_level l.levels id (write p) })
          else none)
        (some (q, l'))
    → (p : StockPosition) × (l.levels id ≡ some p)
      × (test p ≡ true)
      × (q ≡ write p)
      × (l' ≡ record l { levels = set_level l.levels id (write p) })
written test write l id p there e = elim (Bool-cases (test p)) [
  | inl passes ↦
      let same = some-injective _ _ (rw passes at e) in
      (p, there, passes, sym (ap (λ x. x.0) same), sym (ap (λ x. x.1) same))
  | inr fails ↦ cc (rw fails at e)
]

-- What a conditional write found and did.
pub update_level-eq-some :
    (test : StockPosition → Bool) (write : StockPosition → StockPosition) (l : Ledger) (id : ℕ)
    {q : StockPosition} {l' : Ledger}
    → update_level test write l id ≡ some (q, l')
    → (p : StockPosition) × (l.levels id ≡ some p)
      × (test p ≡ true)
      × (q ≡ write p)
      × (l' ≡ record l { levels = set_level l.levels id (write p) })
unfolding update_level
update_level-eq-some test write l id e = elim (Option-cases (l.levels id)) [
  | inl missing ↦ cc (rw (update_level, missing) at e)
  | inr (p, there) ↦ written test write l id p there (rw (update_level, there) at e)
]

pub update_level-some :
    (test : StockPosition → Bool) (write : StockPosition → StockPosition) (l : Ledger) (id : ℕ)
    {p : StockPosition}
    → l.levels id ≡ some p
    → test p ≡ true
    → update_level test write l id
      ≡ some (write p, record l { levels = set_level l.levels id (write p) })
unfolding update_level
update_level-some test write l id e t = rw (update_level, e, t) refl

can_move-IsSound :
    (delta : ℤ) (p : StockPosition)
    → IsSound p
    → can_move delta p ≡ true
    → IsSound (move_on_hand delta p)
unfolding ◌+ℤ◌ ◌-ℤ◌
can_move-IsSound delta p h e = ground arith

-- The check before the write and the test of the write are the same.
assert_sufficient_stock-can_move :
    (delta : ℤ) (p : StockPosition)
    → IsSound p
    → assert_sufficient_stock p delta ≡ ok tt
    → can_move delta p ≡ true
unfolding assert_sufficient_stock available_of ◌+ℤ◌ ◌-ℤ◌
assert_sufficient_stock-can_move delta p h e = ground arith

record_movement-value :
    (id : ℕ) (before : StockPosition) (delta : ℤ) (type : MovementType) (q : StockPosition)
    (l : Ledger) {r : AdjustmentResult} {l' : Ledger}
    → record_movement id before delta type (q, l) ≡ ok (r, l')
    → l'
      ≡ insert_movement
          (record {
            inventory_level_id = id;
            movement_type = type;
            quantity_delta = delta;
            balance_after = q.on_hand_qty;
          })
          l
unfolding record_movement
record_movement-value id before delta type q l e =
    elim (Bool-cases (same_ℤ q.on_hand_qty (balance_after before delta))) [
      | inl same ↦ sym (ap (λ x. x.1) (ok-injective (rw same at e)))
      | inr other ↦ cc (rw other at e)
    ]

-- The answer to an adjustment of the row that was read.
abbrev pub result_of : ℕ → StockPosition → ℤ → MovementType → AdjustmentResult
result_of id before delta type = record {
  inventory_level_id = id;
  movement_type = type;
  quantity_delta = delta;
  on_hand_qty_before = before.on_hand_qty;
  on_hand_qty = before.on_hand_qty +ℤ delta;
  reserved_qty = before.reserved_qty;
  available_qty = available_of (move_on_hand delta before);
  balance_after = before.on_hand_qty +ℤ delta;
}

record_movement_ok :
    (id : ℕ) (before : StockPosition) (delta : ℤ) (type : MovementType) (l : Ledger)
    → record_movement id before delta type (move_on_hand delta before, l)
      ≡ ok (
        result_of id before delta type,
        insert_movement
            (record {
              inventory_level_id = id;
              movement_type = type;
              quantity_delta = delta;
              balance_after = before.on_hand_qty +ℤ delta;
            })
            l,
      )
unfolding record_movement balance_after
record_movement_ok id before delta type l =
    let same : same_ℤ (before.on_hand_qty +ℤ delta) (before.on_hand_qty +ℤ delta) ≡ true =
      ground arith in
    rw same refl

module _ (id : ℕ) (before : StockPosition) (delta : ℤ) (type : MovementType) (l : Ledger) where
  -- The movement that is recorded for a row p.
  abbrev pub movement_of : StockPosition → Movement
  movement_of p = record {
    inventory_level_id = id;
    movement_type = type;
    quantity_delta = delta;
    balance_after = p.on_hand_qty +ℤ delta;
  }

  -- Whatever was read before, what is written follows the row as it is.
  write_adjustment-value :
      {r : AdjustmentResult} {l' : Ledger}
      → write_adjustment id before delta type l ≡ ok (r, l')
      → (p : StockPosition) × (l.levels id ≡ some p)
        × (can_move delta p ≡ true)
        × (l'
            ≡ insert_movement
                (movement_of p)
                (record l { levels = set_level l.levels id (move_on_hand delta p) }))
  unfolding write_adjustment apply_on_hand_delta
  write_adjustment-value e =
      let (_, checked, e₁) = >>=-eq-ok (from_stock (assert_sufficient_stock before delta)) _ e in
      elim (Option-cases (apply_on_hand_delta l id delta)) [
        | inl lost ↦ cc (rw lost at e₁)
        | inr ((q, moved_l), done) ↦
            let (p, there, passes, now, then_l) =
              update_level-eq-some (can_move delta) (move_on_hand delta) l id done in
            (
              p,
              there,
              passes,
              rw (now, then_l) at
                  (record_movement-value id before delta type q moved_l (rw done at e₁)),
            )
      ]

  -- On the row that was read: the check refuses, or the row moves and the movement is recorded.
  pub write_adjustment-cases :
      IsSound before
      → l.levels id ≡ some before
      → ((e : StockError) × (assert_sufficient_stock before delta ≡ err e)
          × (write_adjustment id before delta type l ≡ err (refused e)))
        ⊎ (write_adjustment id before delta type l
            ≡ ok (
              result_of id before delta type,
              insert_movement
                  (movement_of before)
                  (record l { levels = set_level l.levels id (move_on_hand delta before) }),
            ))
  unfolding write_adjustment set_level insert_movement apply_on_hand_delta ◌+ℤ◌
  write_adjustment-cases sound there = elim (Result-cases (assert_sufficient_stock before delta)) [
    | inl (done, passes) ↦
        let moves =
          update_level-some (can_move delta) (move_on_hand delta) l id there
            (assert_sufficient_stock-can_move delta before sound passes) in
        inr (
          rw (write_adjustment, passes, apply_on_hand_delta, moves)
            (record_movement_ok id before delta type
              (record l { levels = set_level l.levels id (move_on_hand delta before) })))
    | inr (e, refuses) ↦ inl (e, refuses, rw (write_adjustment, refuses) refl)
  ]

  pub write_adjustment-IsConsistent :
      (opening : ℕ → ℤ) {r : AdjustmentResult} {l' : Ledger}
      → IsConsistent opening l
      → write_adjustment id before delta type l ≡ ok (r, l')
      → IsConsistent opening l'
  write_adjustment-IsConsistent opening h e =
      let (p, there, passes, same) = write_adjustment-value e in
      rw same (
        movement-IsConsistent opening l h id p delta type there
          (can_move-IsSound delta p (h.kept id p there).sound passes))

-- An adjustment of a consistent ledger is settled.
pub adjust-IsSettled :
    (opening : ℕ → ℤ) (level_id : Option ℕ) (delta : ℤ) (type : MovementType)
    (reason : AdjustmentReason) (l : Ledger)
    → IsConsistent opening l
    → IsSettled opening (adjust level_id delta type reason l)
unfolding adjust
adjust-IsSettled opening none delta type reason l h =
    inr (no_inventory_level, refl, (λ e. cc, λ e. cc))
adjust-IsSettled opening (some id) delta type reason l h = elim (Option-cases (l.levels id)) [
  | inl missing ↦ inr (not_found, rw (adjust, missing) refl, (λ e. cc, λ e. cc))
  | inr (before, there) ↦
      let own = mapped_movement_type type reason in
      elim (write_adjustment-cases id before delta own l (h.kept id before there).sound there) [
        | inl (e, refuses, stops) ↦ inr (refused e, rw (adjust, there) stops, (λ e. cc, λ e. cc))
        | inr done ↦
            rw (adjust, there)
              (inl (_, _, done, write_adjustment-IsConsistent id before delta own l opening h done))
      ]
]
