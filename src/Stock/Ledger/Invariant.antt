-- ===== src/Stock/Ledger/Invariant.antt =====
-- The invariant of the ledger, and the two writes that keep it.
use mathlib.Core.Option.{some-injective}
use achichiz_back_end.Prelude.{
  All, All-implies, Bool-cases, List, Result, [], ap, arith, err, false, if◌then◌else◌, inl, inr,
  none, not, ok, refl, some, sym, true, ℕ, ◌&&◌, ◌+◌, ◌==◌, ◌∙◌, ◌∷◌, ◌≡◌, ◌≢◌, ◌⊎◌,
}
use achichiz_back_end.Prelude.Int.{int_laws, neg_part, pos, pos_part, ℤ, ◌+ℤ◌, ◌≤ℤ◌}
use achichiz_back_end.Stock.{StockPosition}
use achichiz_back_end.Stock.Checks.{IsSound}
use achichiz_back_end.Stock.Ledger.{
  Ledger, LedgerError, Levels, Movement, MovementType, Reservation, insert_movement,
  ledger_integrity, move_on_hand, overtaken, set_level,
}

-- The sum of what the movements of a level changed.
unfoldable pub moved : ℕ → List Movement → ℤ
moved id [] = pos 0
moved id (m ∷ ms) =
    let rest = moved id ms in if m.inventory_level_id == id then rest +ℤ m.quantity_delta else rest

-- The sum of the holds on a level that were not released.
unfoldable pub held : ℕ → List Reservation → ℕ
held id [] = 0
held id (r ∷ rs) =
    let rest = held id rs in
    if (r.inventory_level_id == id) && not r.is_released then r.quantity + rest else rest

-- A level that began with `opening` on hand is sound, stands where its movements lead, and reserves
-- what its unreleased holds claim.
pub record IsKept (opening : ℕ → ℤ) (l : Ledger) (id : ℕ) (p : StockPosition) : Type 0 where
  pub sound : IsSound p
  pub balanced : p.on_hand_qty ≡ opening id +ℤ moved id l.movements
  pub claimed : p.reserved_qty ≡ pos (held id l.reservations)

-- Each movement records the balance that a replay of the movements before it leads to.
abbrev pub Replays : (ℕ → ℤ) → List Movement → Type 0
Replays opening [] = Unit
Replays opening (m ∷ ms) =
    (m.balance_after ≡ opening m.inventory_level_id +ℤ moved m.inventory_level_id (m ∷ ms))
    × Replays opening ms

-- Every reservation holds units of a level that is there.
abbrev pub IsPlaced : Levels → List Reservation → Type 0
IsPlaced levels rs = All (λ (r : Reservation). levels r.inventory_level_id ≢ none) rs

pub record IsConsistent (opening : ℕ → ℤ) (l : Ledger) : Type 0 where
  pub kept : (id : ℕ) (p : StockPosition) → l.levels id ≡ some p → IsKept opening l id p
  pub replays : Replays opening l.movements
  pub placed : IsPlaced l.levels l.reservations

-- An error that the code does not call unreachable, nor a race.
abbrev pub IsExpected : LedgerError → Type 0
IsExpected e = (e ≢ overtaken) × (e ≢ ledger_integrity)

-- The operation leaves a consistent ledger, or throws an error that is expected.
abbrev pub IsSettled {ℓ} : {A : Type ℓ} → (ℕ → ℤ) → Result LedgerError (A × Ledger) → Type ℓ
IsSettled {A} opening r =
    ((a : A) × (l : Ledger) × (r ≡ ok (a, l)) × IsConsistent opening l)
    ⊎ ((e : LedgerError) × (r ≡ err e) × IsExpected e)

pub set_level_self :
    (levels : Levels) (id : ℕ) (p : StockPosition) → set_level levels id p id ≡ some p
unfolding set_level
set_level_self levels id p = ground arith

pub set_level_ne :
    (levels : Levels) (id j : ℕ) (p : StockPosition) → j ≢ id → set_level levels id p j ≡ levels j
unfolding set_level
set_level_ne levels id j p h = ground arith

pub moved_self :
    (m : Movement) (ms : List Movement)
    → moved m.inventory_level_id (m ∷ ms) ≡ moved m.inventory_level_id ms +ℤ m.quantity_delta
unfolding moved
moved_self m ms =
    let same : (m.inventory_level_id == m.inventory_level_id) ≡ true = ground arith in rw same refl

pub moved_ne :
    (j : ℕ) (m : Movement) (ms : List Movement)
    → j ≢ m.inventory_level_id
    → moved j (m ∷ ms) ≡ moved j ms
unfolding moved
moved_ne j m ms h = let other : (m.inventory_level_id == j) ≡ false = ground arith in rw other refl

pub set_level_some :
    (levels : Levels) (id j : ℕ) (p : StockPosition)
    → levels j ≢ none
    → set_level levels id p j ≢ none
unfolding set_level
set_level_some levels id j p h = elim (Bool-cases (j == id)) [
  | inl same ↦ rw same (λ gone. cc)
  | inr other ↦ rw other h
]

-- What is found after a write.
pub set_level-cases :
    (levels : Levels) (id j : ℕ) (p q : StockPosition)
    → set_level levels id p j ≡ some q
    → ((j ≡ id) × (p ≡ q)) ⊎ ((j ≢ id) × (levels j ≡ some q))
unfolding set_level
set_level-cases levels id j p q e = elim (Bool-cases (j == id)) [
  | inl same ↦ inl (ground arith, some-injective _ _ (rw same at e))
  | inr other ↦ inr (ground arith, rw other at e)
]

-- A write of a level loses no level.
pub set_level-IsPlaced :
    (levels : Levels) (id : ℕ) (p : StockPosition) (rs : List Reservation)
    → IsPlaced levels rs
    → IsPlaced (set_level levels id p) rs
set_level-IsPlaced levels id p rs =
    All-implies (λ (r : Reservation). levels r.inventory_level_id ≢ none)
      (λ (r : Reservation). set_level levels id p r.inventory_level_id ≢ none) rs
      (λ r. set_level_some levels id r.inventory_level_id p)

module _ (opening : ℕ → ℤ) (l : Ledger) (h : IsConsistent opening l) where
  -- A write of one level whose row is kept again, and which leaves the sums of the others alone.
  write-IsConsistent :
      (id : ℕ) (p : StockPosition) (ms : List Movement) (rs : List Reservation)
      → let l' : Ledger = record {
        levels = set_level l.levels id p;
        movements = ms;
        reservations = rs;
      } in
        IsKept opening l' id p
        → Replays opening ms
        → IsPlaced (set_level l.levels id p) rs
        → ((j : ℕ)
            → j ≢ id
            → (moved j ms ≡ moved j l.movements) × (held j rs ≡ held j l.reservations))
        → IsConsistent opening l'
  write-IsConsistent id p ms rs own replays placed others = record {
    kept = λ j q e. elim (set_level-cases l.levels id j p q e) [
      | inl (same, now) ↦ rw (same, ← now) own
      | inr (other, before) ↦
          let (moves, holds) = others j other in
          let k = h.kept j q before in
          record {
            sound = k.sound;
            balanced = k.balanced ∙ ap (λ m. opening j +ℤ m) (sym moves);
            claimed = k.claimed ∙ ap pos (sym holds);
          }
    ];
    replays = replays;
    placed = placed;
  }

  -- One movement: the level changes by the delta, and the movement is recorded.
  pub movement-IsConsistent :
      (id : ℕ) (p : StockPosition) (delta : ℤ) (type : MovementType)
      → l.levels id ≡ some p
      → IsSound (move_on_hand delta p)
      → IsConsistent opening (
          insert_movement
            (record {
              inventory_level_id = id;
              movement_type = type;
              quantity_delta = delta;
              balance_after = p.on_hand_qty +ℤ delta;
            })
            (record l { levels = set_level l.levels id (move_on_hand delta p) }))
  unfolding insert_movement
  movement-IsConsistent id p delta type e sound =
      let k = h.kept id p e in
      let m : Movement = record {
        inventory_level_id = id;
        movement_type = type;
        quantity_delta = delta;
        balance_after = p.on_hand_qty +ℤ delta;
      } in
      let balanced : p.on_hand_qty +ℤ delta ≡ opening id +ℤ (moved id l.movements +ℤ delta) =
        omega (int_laws, ap pos_part k.balanced, ap neg_part k.balanced) in
      let replayed : p.on_hand_qty +ℤ delta ≡ opening id +ℤ moved id (m ∷ l.movements) =
        balanced ∙ ap (λ x. opening id +ℤ x) (sym (moved_self m l.movements)) in
      write-IsConsistent id (move_on_hand delta p) (m ∷ l.movements) l.reservations
        (record { sound = sound; balanced = replayed; claimed = k.claimed }) (replayed, h.replays)
        (set_level-IsPlaced l.levels id (move_on_hand delta p) l.reservations h.placed)
        (λ j other. (moved_ne j m l.movements other, refl))

  -- A hold of units, or their return: the level's reserved units change with the reservations.
  pub reserved-IsConsistent :
      (id : ℕ) (p : StockPosition) (reserved : ℕ) (rs : List Reservation)
      → l.levels id ≡ some p
      → pos reserved ≤ℤ p.on_hand_qty
      → held id rs ≡ reserved
      → IsPlaced l.levels rs
      → ((j : ℕ) → j ≢ id → held j rs ≡ held j l.reservations)
      → IsConsistent opening (record l {
        levels = set_level l.levels id (record p { reserved_qty = pos reserved });
        reservations = rs;
      })
  reserved-IsConsistent id p reserved rs e covered own placed others =
      let k = h.kept id p e in
      let p' : StockPosition = record p { reserved_qty = pos reserved } in
      write-IsConsistent id p' l.movements rs
        (record {
          sound = record { reserved_nonneg = omega arith; covered = covered };
          balanced = k.balanced;
          claimed = ap pos (sym own);
        })
        h.replays (set_level-IsPlaced l.levels id p' rs placed) (λ j other. (refl, others j other))
