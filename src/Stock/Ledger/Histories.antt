-- ===== src/Stock/Ledger/Histories.antt =====
-- Any sequence of operations on the ledger. An operation that throws leaves the ledger as it was.
use achichiz_back_end.Prelude.{
  List, Option, Option-cases, Result, [], err, inl, inr, ok, refl, ℕ, ◌>>=◌, ◌∷◌,
}
use achichiz_back_end.Prelude.Int.{ℤ}
use achichiz_back_end.Stock.Ledger.{
  AdjustmentReason, AdjustmentResult, Ledger, LedgerError, MovementType, Reservation, adjust,
  create_reservation, find_reservation, not_found, release_reservation,
  reservation_already_released,
}
use achichiz_back_end.Stock.Ledger.Invariant.{IsConsistent, IsSettled}
use achichiz_back_end.Stock.Ledger.Operations.{adjust-IsSettled}
use achichiz_back_end.Stock.Ledger.Holds.{create_reservation-IsSettled, release_reservation-cases}
use achichiz_back_end.Stock.Ledger.Bulk.{BulkLine, Catalogue, bulk_adjust}
use achichiz_back_end.Stock.Ledger.Batches.{bulk_adjust-IsSettled}

-- The requests that write the ledger.
pub data Request : Type 0 where
  adjusts : Option ℕ → ℤ → MovementType → AdjustmentReason → Request
  adjusts_all : MovementType → List BulkLine → Request
  reserves : Option ℕ → ℕ → ℕ → Request
  releases : ℕ → Request

pub data Answer : Type 0 where
  adjusted : AdjustmentResult → Answer
  adjusted_all : List AdjustmentResult → Answer
  held_units : Reservation → Answer
  freed_units : Answer

module _ (catalogue : Catalogue) where
  unfoldable pub apply : Request → Ledger → Result LedgerError (Answer × Ledger)
  apply (adjusts level_id delta type reason) l = do
    (r, l') ← adjust level_id delta type reason l
    ok (adjusted r, l')
  apply (adjusts_all type lines) l = do
    (rs, l') ← bulk_adjust catalogue type lines l
    ok (adjusted_all rs, l')
  apply (reserves level_id quantity new_id) l = do
    (r, l') ← create_reservation level_id quantity new_id l
    ok (held_units r, l')
  apply (releases id) l = do l' ← release_reservation id l; ok (freed_units, l')

  -- The ledger after a request: the transaction commits, or is rolled back.
  unfoldable pub commit : Request → Ledger → Ledger
  commit request l = elim (apply request l) [ ok (_, l') ↦ l' | err _ ↦ l ]

  unfoldable pub run : List Request → Ledger → Ledger
  run [] l = l
  run (request ∷ requests) l = run requests (commit request l)

-- The answer is wrapped.
wrapped-IsSettled {ℓ κ} :
    {A : Type ℓ} {B : Type κ} (opening : ℕ → ℤ) (f : A → B) (r : Result LedgerError (A × Ledger))
    → IsSettled opening r
    → IsSettled opening (r >>= λ (x : A × Ledger). ok (f x.0, x.1))
wrapped-IsSettled opening f r (inl (a, l, e, kept)) = inl (f a, l, rw e refl, kept)
wrapped-IsSettled opening f r (inr (e, stops, expected)) = inr (e, rw stops refl, expected)

module _ (catalogue : Catalogue) (opening : ℕ → ℤ) where
  apply-IsSettled :
      (request : Request) (l : Ledger)
      → IsConsistent opening l
      → IsSettled opening (apply catalogue request l)
  unfolding apply release_reservation
  apply-IsSettled (adjusts level_id delta type reason) l h =
      wrapped-IsSettled opening adjusted (adjust level_id delta type reason l)
        (adjust-IsSettled opening level_id delta type reason l h)
  apply-IsSettled (adjusts_all type lines) l h =
      wrapped-IsSettled opening adjusted_all (bulk_adjust catalogue type lines l)
        (bulk_adjust-IsSettled catalogue opening type lines l h)
  apply-IsSettled (reserves level_id quantity new_id) l h =
      wrapped-IsSettled opening held_units (create_reservation level_id quantity new_id l)
        (create_reservation-IsSettled opening l h level_id quantity new_id)
  apply-IsSettled (releases id) l h = elim (Option-cases (find_reservation id l.reservations)) [
    | inl missing ↦ inr (not_found, rw (release_reservation, missing) refl, (λ e. cc, λ e. cc))
    | inr (r, there) ↦ elim (release_reservation-cases opening l h id r there) [
      | inl (gone, stops) ↦ inr (reservation_already_released, rw stops refl, (λ e. cc, λ e. cc))
      | inr (fresh, (l', done, marked, kept)) ↦ inl (freed_units, l', rw done refl, kept)
    ]
  ]

  commit-IsConsistent :
      (request : Request) (l : Ledger)
      → IsConsistent opening l
      → IsConsistent opening (commit catalogue request l)
  unfolding commit
  commit-IsConsistent request l h = elim (apply-IsSettled request l h) [
    | inl (answer, l', done, kept) ↦ rw (commit, done) kept
    | inr (e, stops, expected) ↦ rw (commit, stops) h
  ]

  -- From a consistent ledger any requests lead to a consistent ledger, and any next request then
  -- leaves a consistent ledger or throws an error that is neither a lost race nor one of the
  -- integrity errors. Consistent: every level is sound, stands where its opening quantity and its
  -- movements lead, and reserves the sum of its unreleased holds; every movement records the
  -- balance of a replay; every reservation has its level.
  pub run-IsConsistent :
      (requests : List Request) (next : Request) (l : Ledger)
      → IsConsistent opening l
      → IsConsistent opening (run catalogue requests l)
        × IsSettled opening (apply catalogue next (run catalogue requests l))
  unfolding run
  run-IsConsistent [] next l h = (h, apply-IsSettled next l h)
  run-IsConsistent (request ∷ requests) next l h =
      run-IsConsistent requests next (commit catalogue request l) (commit-IsConsistent request l h)
