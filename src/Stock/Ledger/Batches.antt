-- ===== src/Stock/Ledger/Batches.antt =====
-- A batch of adjustments writes rows that it read under their locks.
use mathlib.Core.Option.{some-injective}
use mathlib.Core.Path.{subst}
use achichiz_back_end.Prelude.{
  All, All-both, Bool-cases, Distinct, List, Option-cases, [], any, arith, false, inl, inr, not,
  or-eq-false, refl, some, sym, ℕ, ◌∙◌, ◌∷◌, ◌≡◌, ◌≢◌,
}
use achichiz_back_end.Prelude.Int.{ℤ}
use achichiz_back_end.Stock.{StockPosition}
use achichiz_back_end.Stock.Ledger.{
  Ledger, Levels, MovementType, duplicate_target, insert_movement, move_on_hand, no_inventory_level,
  not_found, refused, set_level, unknown_sku,
}
use achichiz_back_end.Stock.Ledger.Invariant.{IsConsistent, IsSettled, set_level_ne}
use achichiz_back_end.Stock.Ledger.Operations.{
  movement_of, result_of, write_adjustment-IsConsistent, write_adjustment-cases,
}
use achichiz_back_end.Stock.Ledger.Bulk.{
  BulkLine, Catalogue, Planned, bulk_adjust, by_level_id, has_duplicates, plan, same_target,
  write_all,
}
use achichiz_back_end.Prelude.Sorting.{sort, sort-All, sort-Distinct}

-- The rows that were read are the rows as they are.
abbrev IsCurrent : Levels → Ledger → List Planned → Type 0
IsCurrent locked l lines =
    All (λ (line : Planned). l.levels line.level_id ≡ locked line.level_id) lines

-- A write of another level leaves them so.
IsCurrent-write :
    (locked : Levels) (l : Ledger) (id : ℕ) (p : StockPosition) (lines : List Planned)
    → All (λ (line : Planned). id ≢ line.level_id) lines
    → IsCurrent locked l lines
    → All (λ (line : Planned). set_level l.levels id p line.level_id ≡ locked line.level_id) lines
IsCurrent-write locked l id p lines =
    All-both (λ (line : Planned). id ≢ line.level_id)
      (λ (line : Planned). l.levels line.level_id ≡ locked line.level_id)
      (λ (line : Planned). set_level l.levels id p line.level_id ≡ locked line.level_id) lines
      (λ line other current.
        set_level_ne l.levels id line.level_id p (λ e. other (sym e)) ∙ current)

All-intro {ℓ κ} : {A : Type ℓ} (P : A → Type κ) (xs : List A) → ((a : A) → P a) → All P xs
All-intro P [] h = tt
All-intro P (x ∷ xs) h = (h x, All-intro P xs h)

module _ (opening : ℕ → ℤ) (locked : Levels) where
  write_all-IsSettled :
      (lines : List Planned) (l : Ledger)
      → IsConsistent opening l
      → Distinct (λ (line : Planned). line.level_id) lines
      → IsCurrent locked l lines
      → IsSettled opening (write_all locked lines l)
  unfolding write_all insert_movement
  write_all-IsSettled [] l h _ _ = inl ([], l, refl, h)
  write_all-IsSettled (line ∷ lines) l h (fresh, distinct) (current, rest) =
      elim (Option-cases (locked line.level_id)) [
        | inl missing ↦ inr (not_found, rw (write_all, missing) refl, (λ e. cc, λ e. cc))
        | inr (before, there) ↦
            let here = current ∙ there in
            let id = line.level_id in
            elim (write_adjustment-cases id before line.quantity_delta line.movement_type l
              (h.kept id before here).sound here) [
                | inl (e, refuses, stops) ↦
                    inr (refused e, rw (write_all, there, stops) refl, (λ e. cc, λ e. cc))
                | inr done ↦
                    let l₁ : Ledger =
                      insert_movement
                        (movement_of id before line.quantity_delta line.movement_type l before)
                        (record l {
                          levels = set_level l.levels id (move_on_hand line.quantity_delta before);
                        }) in
                    let after =
                      write_all-IsSettled lines l₁
                        (write_adjustment-IsConsistent id before line.quantity_delta
                          line.movement_type l opening h done)
                        distinct
                        (IsCurrent-write locked l id (move_on_hand line.quantity_delta before) lines
                          fresh rest) in
                    elim after [
                      | inl (results, l', e, kept) ↦ inl (
                        result_of id before line.quantity_delta line.movement_type ∷ results,
                        l',
                        rw (write_all, there, done, e) refl,
                        kept,
                      )
                      | inr (e, stops, expected) ↦
                          inr (e, rw (write_all, there, done, stops) refl, expected)
                    ]
              ]
      ]

module _ (catalogue : Catalogue) where
  open catalogue use {is_sku, is_warehouse, find_level, find_level-injective}

  -- A line that has another target has another level.
  other_level :
      (a b : BulkLine) (id id' : ℕ)
      → same_target a b ≡ false
      → find_level a.sku a.warehouse_id ≡ some id
      → find_level b.sku b.warehouse_id ≡ some id'
      → id ≢ id'
  other_level a b id id' differs e e' same =
      let (skus, warehouses) =
        find_level-injective a.sku b.sku a.warehouse_id b.warehouse_id e (rw same e') in
      ground arith

  plan-cons :
      (type : MovementType) (line : BulkLine) (lines : List BulkLine) {planned : List Planned}
      → plan catalogue type (line ∷ lines) ≡ some planned
      → (first : Planned) × (rest : List Planned) × (find_level line.sku line.warehouse_id
          ≡ some first.level_id)
        × (plan catalogue type lines ≡ some rest)
        × (first ∷ rest ≡ planned)
  unfolding plan
  plan-cons type line lines e = elim (Option-cases (find_level line.sku line.warehouse_id)) [
    | inl missing ↦ cc (rw (plan, missing) at e)
    | inr (id, there) ↦ elim (Option-cases (plan catalogue type lines)) [
      | inl stops ↦ cc (rw (plan, there, stops) at e)
      | inr (rest, done) ↦ (_, rest, there, done, some-injective _ _ (rw (plan, there, done) at e))
    ]
  ]

  plan-fresh :
      (type : MovementType) (a : BulkLine) (id : ℕ) (lines : List BulkLine) {planned : List Planned}
      → find_level a.sku a.warehouse_id ≡ some id
      → any (same_target a) lines ≡ false
      → plan catalogue type lines ≡ some planned
      → All (λ (line : Planned). id ≢ line.level_id) planned
  unfolding plan
  plan-fresh type a id [] there others e =
      subst (λ ps. All (λ (line : Planned). id ≢ line.level_id) ps) (some-injective _ _ e) tt
  plan-fresh type a id (line ∷ lines) there others e =
      let (first, rest, e₁, e₂, same) = plan-cons type line lines e in
      let (differs, later) = or-eq-false (same_target a line) (any (same_target a) lines) others in
      subst (λ ps. All (λ (line : Planned). id ≢ line.level_id) ps) same
        (
          other_level a line id first.level_id differs there e₁,
          plan-fresh type a id lines there later e₂,
        )

  plan-Distinct :
      (type : MovementType) (lines : List BulkLine) {planned : List Planned}
      → has_duplicates lines ≡ false
      → plan catalogue type lines ≡ some planned
      → Distinct (λ (line : Planned). line.level_id) planned
  unfolding plan has_duplicates
  plan-Distinct type [] none_twice e =
      subst (Distinct (λ (line : Planned). line.level_id)) (some-injective _ _ e) tt
  plan-Distinct type (line ∷ lines) none_twice e =
      let (first, rest, e₁, e₂, same) = plan-cons type line lines e in
      let (fresh, later) =
        or-eq-false (any (same_target line) lines) (has_duplicates lines) none_twice in
      subst (Distinct (λ (line : Planned). line.level_id)) same
        (plan-fresh type line first.level_id lines e₁ fresh e₂, plan-Distinct type lines later e₂)

  -- Every batch on a consistent ledger leaves a consistent ledger, or throws an error that is
  -- neither a lost race nor an integrity error.
  pub bulk_adjust-IsSettled :
      (opening : ℕ → ℤ) (type : MovementType) (lines : List BulkLine) (l : Ledger)
      → IsConsistent opening l
      → IsSettled opening (bulk_adjust catalogue type lines l)
  unfolding bulk_adjust
  bulk_adjust-IsSettled opening type lines l h = elim (Bool-cases (has_duplicates lines)) [
    | inl twice ↦ inr (duplicate_target, rw (bulk_adjust, twice) refl, (λ e. cc, λ e. cc))
    | inr once ↦ elim (Bool-cases (any (λ (line : BulkLine). not (is_sku line.sku)) lines)) [
      | inl unknown ↦ inr (unknown_sku, rw (bulk_adjust, once, unknown) refl, (λ e. cc, λ e. cc))
      | inr known ↦
          elim (Bool-cases
            (any (λ (line : BulkLine). not (is_warehouse line.warehouse_id)) lines)) [
              | inl missing ↦
                  inr (not_found, rw (bulk_adjust, once, known, missing) refl, (λ e. cc, λ e. cc))
              | inr there ↦ elim (Option-cases (plan catalogue type lines)) [
                | inl none_planned ↦ inr (
                  no_inventory_level,
                  rw (bulk_adjust, once, known, there, none_planned) refl,
                  (λ e. cc, λ e. cc),
                )
                | inr (planned, done) ↦
                    rw (bulk_adjust, once, known, there, done)
                      (write_all-IsSettled opening l.levels (sort by_level_id planned) l h
                        (sort-Distinct by_level_id (λ (line : Planned). line.level_id) planned
                          (plan-Distinct type lines once done))
                        (sort-All by_level_id
                          (λ (line : Planned). l.levels line.level_id ≡ l.levels line.level_id)
                          planned
                          (All-intro
                            (λ (line : Planned). l.levels line.level_id ≡ l.levels line.level_id)
                            planned (λ line. refl))))
              ]
            ]
    ]
  ]
