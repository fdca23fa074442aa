-- ===== src/Stock/Ledger/Release.antt =====
-- What a release undoes, and that it is done once.
use mathlib.Core.Path.{subst}
use achichiz_back_end.Prelude.{
  Option, Option-cases, Result, ap, arith, err, inl, inr, none, ok, ok-injective, refl, some, sym,
  true, ℕ, ◌==◌, ◌∙◌, ◌∷◌, ◌≡◌, ◌≢◌,
}
use achichiz_back_end.Prelude.Int.{int_laws, pos, ℤ, ◌+ℤ◌, ◌-ℤ◌, ◌≤ℤ◌}
use achichiz_back_end.Stock.{StockPosition}
use achichiz_back_end.Stock.Ledger.{
  Ledger, Levels, Reservation, add_reserved, can_release, create_reservation, find_reservation,
  mark_released, release_reservation, release_reserved_qty, reservation_already_released,
  return_units, set_level, take_reserved,
}
use achichiz_back_end.Stock.Ledger.Invariant.{IsConsistent, set_level_self}
use achichiz_back_end.Stock.Ledger.Claims.{released_of}
use achichiz_back_end.Stock.Ledger.Holds.{
  create_reservation-cases, release_reservation-cases, reservation_of, reserved_of,
}
use achichiz_back_end.Stock.Ledger.Operations.{update_level-some}

-- On a consistent ledger, once a reservation was released a second release of it is refused.
release_reservation-twice :
    (opening : ℕ → ℤ) (l : Ledger) (id : ℕ) {l' : Ledger}
    → IsConsistent opening l
    → release_reservation id l ≡ ok l'
    → release_reservation id l' ≡ err reservation_already_released
unfolding release_reservation
release_reservation-twice opening l id {l'} h e =
    elim (Option-cases (find_reservation id l.reservations)) [
      | inl missing ↦ cc (rw (release_reservation, missing) at e)
      | inr (r, there) ↦ elim (release_reservation-cases opening l h id r there) [
        | inl (gone, stops) ↦ cc
        | inr (fresh, (l₁, done, marked, kept)) ↦
            elim (release_reservation-cases opening l₁ kept id (released_of r) marked) [
              | inl (gone, stops) ↦
                  subst (λ x. release_reservation id x ≡ err reservation_already_released)
                    (ok-injective (sym done ∙ e)) stops
              | inr (again, _) ↦ cc
            ]
      ]
    ]

take-add_reserved :
    (quantity : ℕ) (p : StockPosition) → take_reserved quantity (add_reserved quantity p) ≡ p
take-add_reserved quantity p =
    let same : p.reserved_qty +ℤ pos quantity -ℤ pos quantity ≡ p.reserved_qty = omega int_laws in
    ap (λ r. record p { reserved_qty = r }) same

set_level-twice :
    (levels : Levels) (id : ℕ) (p q : StockPosition) (j : ℕ)
    → levels id ≡ some q
    → set_level (set_level levels id p) id q j ≡ levels j
unfolding set_level
set_level-twice levels id p q j e = ground arith

release_enough :
    (quantity : ℕ) (p : StockPosition)
    → pos 0 ≤ℤ p.reserved_qty
    → can_release quantity (add_reserved quantity p) ≡ true
unfolding ◌+ℤ◌
release_enough quantity p h = ground arith

err_not_ok {ℓ κ} : {E : Type ℓ} {A : Type κ} {e : E} {a : A} → ◌≢◌ {A = Result E A} (err e) (ok a)
err_not_ok e = cc

-- The release of a reservation that has just been made.
module _ (l : Ledger) (id quantity new_id : ℕ) (before : StockPosition) where
  abbrev pub after_release : Ledger
  after_release = record l {
    levels =
        set_level (set_level l.levels id (add_reserved quantity before)) id
          (take_reserved quantity (add_reserved quantity before));
    reservations = released_of (reservation_of id quantity new_id) ∷ l.reservations;
  }

  pub release_reservation-reserved_of :
      pos 0 ≤ℤ before.reserved_qty
      → release_reservation new_id (reserved_of id quantity new_id before l) ≡ ok after_release
  unfolding release_reservation find_reservation mark_released return_units release_reserved_qty
  release_reservation-reserved_of h =
      let own : (new_id == new_id) ≡ true = ground arith in
      let there = set_level_self l.levels id (add_reserved quantity before) in
      let enough : can_release quantity (add_reserved quantity before) ≡ true =
        release_enough quantity before h in
      let done =
        update_level-some (can_release quantity) (take_reserved quantity)
          (record l {
            levels = set_level l.levels id (add_reserved quantity before);
            reservations = released_of (reservation_of id quantity new_id) ∷ l.reservations;
          })
          id there enough in
      let r = reservation_of id quantity new_id in
      let finds : find_reservation new_id (r ∷ l.reservations) ≡ some r = rw own refl in
      let marks : mark_released new_id (r ∷ l.reservations)
          ≡ some (r, released_of r ∷ l.reservations) =
        rw own refl in
      rw (release_reservation, finds, there, marks, return_units, release_reserved_qty, done) refl

-- On a consistent ledger, a release right after the reservation that it releases succeeds and puts
-- every level back as it was.
pub release_reservation-create_reservation :
    (opening : ℕ → ℤ) (l : Ledger) (level_id : Option ℕ) (quantity new_id : ℕ) {r : Reservation}
    {l' : Ledger}
    → IsConsistent opening l
    → create_reservation level_id quantity new_id l ≡ ok (r, l')
    → (l'' : Ledger) × (release_reservation new_id l' ≡ ok l'')
      × ((j : ℕ) → l''.levels j ≡ l.levels j)
unfolding create_reservation
release_reservation-create_reservation opening l none quantity new_id h e = elim (err_not_ok e) [ ]
release_reservation-create_reservation opening l (some id) quantity new_id {l'} h e =
    elim (Option-cases (l.levels id)) [
      | inl missing ↦ elim (err_not_ok (rw (create_reservation, missing) at e)) [ ]
      | inr (before, there) ↦
          elim (create_reservation-cases opening l h id quantity new_id before there) [
            | inl (_, refuses, stops) ↦ elim (err_not_ok (sym stops ∙ e)) [ ]
            | inr (done, kept) ↦
                let same : reserved_of id quantity new_id before l ≡ l' =
                  ap (λ x. x.1) (ok-injective (sym done ∙ e)) in
                let nonneg = (h.kept id before there).sound.reserved_nonneg in
                (
                  after_release l id quantity new_id before,
                  subst
                      (λ x.
                        release_reservation new_id x
                        ≡ ok (after_release l id quantity new_id before))
                      same (release_reservation-reserved_of l id quantity new_id before nonneg),
                  λ j.
                      set_level-twice l.levels id (add_reserved quantity before)
                        (take_reserved quantity (add_reserved quantity before)) j
                        (there ∙ ap some (sym (take-add_reserved quantity before))),
                )
          ]
    ]
