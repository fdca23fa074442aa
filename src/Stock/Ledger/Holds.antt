-- ===== src/Stock/Ledger/Holds.antt =====
-- Reservations and their release.
use mathlib.Core.Path.{subst}
use achichiz_back_end.Prelude.{
  Bool-cases, List, Option, Option-cases, Result-cases, ap, arith, err, false, inl, inr, none, ok,
  refl, some, sym, true, ℕ, ◌+◌, ◌∙◌, ◌∷◌, ◌≡◌, ◌≢◌, ◌⊎◌,
}
use achichiz_back_end.Prelude.Int.{int_laws, pos, ℤ, ◌+ℤ◌, ◌-ℤ◌, ◌≤ℤ◌}
use achichiz_back_end.Stock.{StockError, StockPosition, assert_reservable, available_of}
use achichiz_back_end.Stock.Ledger.{
  Ledger, Reservation, add_reserved, can_release, can_reserve, create_reservation, find_reservation,
  insert_reservation, no_inventory_level, not_found, refused, release_reservation,
  release_reserved_qty, reservation_already_released, reserve_stock, return_units, set_level,
  take_reserved,
}
use achichiz_back_end.Stock.Ledger.Invariant.{IsConsistent, IsSettled, held, reserved-IsConsistent}
use achichiz_back_end.Stock.Ledger.Operations.{update_level-some}
use achichiz_back_end.Stock.Ledger.Claims.{
  All-find_reservation, Claims, mark_released-Claims, mark_released-closed, mark_released-open,
  released_of,
}

add_sub_pos : (a b : ℕ) → pos (a + b) -ℤ pos a ≡ pos b
add_sub_pos a b = omega int_laws

pub pos_minus : (a b : ℕ) (x : ℤ) → x ≡ pos (a + b) → x -ℤ pos a ≡ pos b
pos_minus a b x e = rw e (add_sub_pos a b)

abbrev pub reservation_of : ℕ → ℕ → ℕ → Reservation
reservation_of id quantity new_id = record {
  id = new_id;
  inventory_level_id = id;
  quantity = quantity;
  is_released = false;
}

-- The ledger after the units are held.
abbrev pub reserved_of : ℕ → ℕ → ℕ → StockPosition → Ledger → Ledger
reserved_of id quantity new_id before l = record l {
  levels = set_level l.levels id (add_reserved quantity before);
  reservations = reservation_of id quantity new_id ∷ l.reservations;
}

pub assert_reservable-can_reserve :
    (quantity : ℕ) (p : StockPosition)
    → assert_reservable p (pos quantity) ≡ ok tt
    → can_reserve quantity p ≡ true
unfolding assert_reservable available_of ◌+ℤ◌ ◌-ℤ◌
assert_reservable-can_reserve quantity p e = ground arith

pos_plus : (a b : ℕ) (x : ℤ) → x ≡ pos b → pos (a + b) ≡ x +ℤ pos a
pos_plus a b x e = rw e (omega int_laws)

can_reserve-covered :
    (quantity units : ℕ) (p : StockPosition)
    → p.reserved_qty ≡ pos units
    → can_reserve quantity p ≡ true
    → pos (quantity + units) ≤ℤ p.on_hand_qty
unfolding ◌-ℤ◌
can_reserve-covered quantity units p e free = let f = rw e at free in ground arith

held-reservation_of :
    (id quantity new_id : ℕ) (rs : List Reservation)
    → (held id (reservation_of id quantity new_id ∷ rs) ≡ quantity + held id rs)
      × ((j : ℕ) → j ≢ id → held j (reservation_of id quantity new_id ∷ rs) ≡ held j rs)
unfolding held
held-reservation_of id quantity new_id rs = (ground arith, λ j other. ground arith)

module _ (opening : ℕ → ℤ) (l : Ledger) (h : IsConsistent opening l) where
  -- The units of a claimed reservation always can be returned.
  return_units-IsConsistent :
      (id : ℕ) (claimed : Reservation) (rest : List Reservation)
      → Claims id l.reservations claimed rest
      → (p : StockPosition) → l.levels claimed.inventory_level_id ≡ some p
      → (l' : Ledger) × (return_units l (claimed, rest) ≡ ok l')
        × (l'.reservations ≡ rest)
        × IsConsistent opening l'
  unfolding return_units release_reserved_qty
  return_units-IsConsistent id claimed rest c p e =
      let at_level = claimed.inventory_level_id in
      let k = h.kept at_level p e in
      let left = held at_level rest in
      let all : p.reserved_qty ≡ pos (claimed.quantity + left) = k.claimed ∙ ap pos c.freed in
      let enough : can_release claimed.quantity p ≡ true = rw all (ground arith) in
      let now : record p { reserved_qty = pos left } ≡ take_reserved claimed.quantity p =
        ap (λ r. record p { reserved_qty = r })
          (sym (pos_minus claimed.quantity left p.reserved_qty all)) in
      let done =
        update_level-some (can_release claimed.quantity) (take_reserved claimed.quantity)
          (record l { reservations = rest }) at_level e enough in
      let covered : pos left ≤ℤ p.on_hand_qty =
        let s = k.sound.covered in let a = rw all at s in ground arith in
      (
        record l {
          levels = set_level l.levels at_level (take_reserved claimed.quantity p);
          reservations = rest;
        },
        rw (return_units, release_reserved_qty, done) refl,
        refl,
        subst
            (λ (q : StockPosition).
              IsConsistent opening
                (record l { levels = set_level l.levels at_level q; reservations = rest }))
            now
            (reserved-IsConsistent opening l h at_level p left rest e covered refl
              (c.placed l.levels h.placed) c.others),
      )

  -- A release of a reservation that is there: it succeeds exactly when no release did before, and
  -- keeps the invariant.
  pub release_reservation-cases :
      (id : ℕ) (r : Reservation)
      → find_reservation id l.reservations ≡ some r
      → ((r.is_released ≡ true) × (release_reservation id l ≡ err reservation_already_released))
        ⊎ ((r.is_released ≡ false)
            × ((l' : Ledger) × (release_reservation id l ≡ ok l')
                × (find_reservation id l'.reservations ≡ some (released_of r))
                × IsConsistent opening l'))
  unfolding release_reservation
  release_reservation-cases id r e = elim (Option-cases (l.levels r.inventory_level_id)) [
    | inl missing ↦
        elim (All-find_reservation (λ (q : Reservation). l.levels q.inventory_level_id ≢ none) id
          l.reservations h.placed e missing) [ ]
    | inr (p, there) ↦ elim (Bool-cases r.is_released) [
      | inl gone ↦ inl (
        gone,
        rw (release_reservation, e, there, mark_released-closed id l.reservations e gone) refl,
      )
      | inr fresh ↦
          let (rest, done) = mark_released-open id l.reservations e fresh in
          let (l', return_done, same, kept) =
            return_units-IsConsistent id r rest (mark_released-Claims id l.reservations done) p
              there in
          inr (
            fresh,
            (
              l',
              rw (release_reservation, e, there, done) return_done,
              rw same ((mark_released-Claims id l.reservations done).marked),
              kept,
            ),
          )
    ]
  ]

  -- A hold that the write allows keeps the invariant.
  pub reserved_of-IsConsistent :
      (id quantity new_id : ℕ) (before : StockPosition)
      → l.levels id ≡ some before
      → can_reserve quantity before ≡ true
      → IsConsistent opening (reserved_of id quantity new_id before l)
  reserved_of-IsConsistent id quantity new_id before there free =
      let (own, others) = held-reservation_of id quantity new_id l.reservations in
      let units = quantity + held id l.reservations in
      let k = h.kept id before there in
      let now : record before { reserved_qty = pos units } ≡ add_reserved quantity before =
        ap (λ r. record before { reserved_qty = r })
          (pos_plus quantity (held id l.reservations) before.reserved_qty k.claimed) in
      let covered : pos units ≤ℤ before.on_hand_qty =
        can_reserve-covered quantity (held id l.reservations) before k.claimed free in
      subst
        (λ (q : StockPosition). IsConsistent opening (record l {
          levels = set_level l.levels id q;
          reservations = reservation_of id quantity new_id ∷ l.reservations;
        }))
        now
        (reserved-IsConsistent opening l h id before units
          (reservation_of id quantity new_id ∷ l.reservations) there covered own
          (λ gone. cc, h.placed) others)

  -- A reservation that is made: the check refuses it, or its units are held and it is recorded.
  pub create_reservation-cases :
      (id quantity new_id : ℕ) (before : StockPosition)
      → l.levels id ≡ some before
      → ((e : StockError) × (assert_reservable before (pos quantity) ≡ err e)
          × (create_reservation (some id) quantity new_id l ≡ err (refused e)))
        ⊎ ((create_reservation (some id) quantity new_id l
              ≡ ok (reservation_of id quantity new_id, reserved_of id quantity new_id before l))
            × IsConsistent opening (reserved_of id quantity new_id before l))
  unfolding create_reservation reserve_stock insert_reservation
  create_reservation-cases id quantity new_id before there =
      elim (Result-cases (assert_reservable before (pos quantity))) [
        | inr (e, refuses) ↦ inl (e, refuses, rw (create_reservation, there, refuses) refl)
        | inl (done, passes) ↦
            let free = assert_reservable-can_reserve quantity before passes in
            let holds =
              update_level-some (can_reserve quantity) (add_reserved quantity) l id there free in
            inr (
              rw (create_reservation, there, passes, reserve_stock, holds) refl,
              reserved_of-IsConsistent id quantity new_id before there free,
            )
      ]

  -- A reservation on a consistent ledger is settled.
  pub create_reservation-IsSettled :
      (level_id : Option ℕ) (quantity new_id : ℕ)
      → IsSettled opening (create_reservation level_id quantity new_id l)
  unfolding create_reservation
  create_reservation-IsSettled none quantity new_id =
      inr (no_inventory_level, refl, (λ e. cc, λ e. cc))
  create_reservation-IsSettled (some id) quantity new_id = elim (Option-cases (l.levels id)) [
    | inl missing ↦ inr (not_found, rw (create_reservation, missing) refl, (λ e. cc, λ e. cc))
    | inr (before, there) ↦ elim (create_reservation-cases id quantity new_id before there) [
      | inl (e, refuses, stops) ↦ inr (refused e, stops, (λ e. cc, λ e. cc))
      | inr (done, kept) ↦ inl (_, _, done, kept)
    ]
  ]
