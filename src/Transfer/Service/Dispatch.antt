-- ===== src/Transfer/Service/Dispatch.antt =====
-- What a dispatch moves.
use mathlib.Core.Path.{subst}
use achichiz_back_end.Prelude.{
  >>=-eq-ok, Bool, Bool-cases, List, Option-cases, [], ap, arith, false, inl, inr, ok, ok-injective,
  refl, require-eq-ok, some, sum_by, sym, true, ℕ, ◌+◌, ◌-◌, ◌==◌, ◌∙◌, ◌∷◌, ◌≡◌, ◌≤◌,
}
use achichiz_back_end.Transfer.Service.{
  Level, StockTransfer, TransferLine, TransferMovement, Warehousing, add_movement, adjust_incoming,
  adjust_on_hand, assert_action, dispatch_line, dispatch_lines, dispatch_transfer, ensure_level,
  find_levels, has_lines, level_order, lock_or_throw, moved_incoming, opposite, same_level,
  set_transfer, update_status, write_level,
}
use achichiz_back_end.Transfer.Service.Levels.{
  IsStocked, adjust_incoming_stocked, adjust_on_hand-down, ensure_level-IsStocked,
  ensure_level-keeps, ensure_level-quantity_at, for_key, incoming_at, on_hand_at, reserved_at,
  same_level-eq, value_of, write_level-IsStocked, write_level-quantity_at,
}
use achichiz_back_end.Prelude.Int.{pos}
use achichiz_back_end.Prelude.Sorting.{sort, sort-sum}
use achichiz_back_end.Transfer.{
  StockTransferStatus, TransferEdge, approved, assert_transfer_action, cancelled, dispatch, edge,
  in_transit, received, requested,
}

-- What a line sends of a stockable from, or to, a warehouse.
abbrev pub sent_at : ℕ → ℕ → ℕ → TransferLine → ℕ
sent_at w v q line = for_key w line.stockable v q line.sent_qty

-- Quantities, and the table of transfers, before and after some lines left one warehouse for another.
pub record Sent (from to : ℕ) (lines : List TransferLine) (s t : Warehousing) : Type 0 where
  pub taken : (v q : ℕ) → on_hand_at v q t + sum_by (sent_at from v q) lines ≡ on_hand_at v q s
  pub expected : (v q : ℕ) → incoming_at v q t ≡ incoming_at v q s + sum_by (sent_at to v q) lines
  pub reserved_kept : (v q : ℕ) → reserved_at v q t ≡ reserved_at v q s
  pub available_kept :
      (v q : ℕ) → reserved_at v q s ≤ on_hand_at v q s → reserved_at v q t ≤ on_hand_at v q t
  pub stocked_kept : (v q : ℕ) → IsStocked v q s → IsStocked v q t
  pub transfers_kept : t.transfers ≡ s.transfers

for_key-sub :
    (w r v q a n : ℕ) → n ≤ a → for_key w r v q (a - n) + for_key w r v q n ≡ for_key w r v q a
for_key-sub w r v q a n h = ground arith

for_key-add : (w r v q a n : ℕ) → for_key w r v q (a + n) ≡ for_key w r v q a + for_key w r v q n
for_key-add w r v q a n = ground arith

for_key_same : (w r v q : ℕ) → same_level w r v q ≡ true → (n : ℕ) → for_key w r v q n ≡ n
for_key_same w r v q same n = rw same refl

for_key_other :
    (w r v q m n : ℕ) → same_level w r v q ≡ false → for_key w r v q m ≡ for_key w r v q n
for_key_other w r v q m n other = rw other refl

ensure_level-transfers : (w r : ℕ) (s : Warehousing) → (ensure_level w r s).transfers ≡ s.transfers
unfolding ensure_level write_level
ensure_level-transfers w r s = ground arith

-- The two writes of a line, in order.
abbrev line_after :
    StockTransfer → TransferLine → TransferMovement → Level → Level → Warehousing → Warehousing
line_after t line movement l m s =
    write_level t.to_warehouse line.stockable
      (record m { incoming_qty = m.incoming_qty + line.sent_qty })
      (ensure_level t.to_warehouse line.stockable (
        add_movement movement (
          write_level t.from_warehouse line.stockable
            (record l { on_hand_qty = l.on_hand_qty - line.sent_qty }) s)))

abbrev noted_after :
    StockTransfer → TransferLine → TransferMovement → Level → Warehousing → Warehousing
noted_after t line movement l s = add_movement movement (
    write_level t.from_warehouse line.stockable
      (record l { on_hand_qty = l.on_hand_qty - line.sent_qty }) s)

line_after-Sent :
    (t : StockTransfer) (line : TransferLine) (movement : TransferMovement) (l m : Level)
    (s : Warehousing)
    → s.levels t.from_warehouse line.stockable ≡ some l
    → l.reserved_qty + line.sent_qty ≤ l.on_hand_qty
    → (ensure_level t.to_warehouse line.stockable (noted_after t line movement l s)).levels
        t.to_warehouse line.stockable
      ≡ some m
    → Sent t.from_warehouse t.to_warehouse (line ∷ []) s (line_after t line movement l m s)
line_after-Sent t line movement l m s found covered stocked = record {
  taken = λ v q.
      let a = write_level-quantity_at (λ x. x.on_hand_qty) from r v q less s found in
      let b = ensure_level-quantity_at (λ x. x.on_hand_qty) refl to r v q noted in
      let c = write_level-quantity_at (λ x. x.on_hand_qty) to r v q more ensured stocked in
      let d = for_key-sub from r v q l.on_hand_qty line.sent_qty (omega arith) in
      omega (arith, a, b, c, d);
  expected = λ v q.
      let a = write_level-quantity_at (λ x. x.incoming_qty) from r v q less s found in
      let b = ensure_level-quantity_at (λ x. x.incoming_qty) refl to r v q noted in
      let c = write_level-quantity_at (λ x. x.incoming_qty) to r v q more ensured stocked in
      let d = for_key-add to r v q m.incoming_qty line.sent_qty in omega (arith, a, b, c, d);
  reserved_kept = λ v q.
      let a = write_level-quantity_at (λ x. x.reserved_qty) from r v q less s found in
      let b = ensure_level-quantity_at (λ x. x.reserved_qty) refl to r v q noted in
      let c = write_level-quantity_at (λ x. x.reserved_qty) to r v q more ensured stocked in
      omega (arith, a, b, c);
  available_kept = λ v q enough. kept v q enough;
  stocked_kept = λ v q h.
      write_level-IsStocked to r v q more ensured
        (ensure_level-keeps to r v q noted (write_level-IsStocked from r v q less s h));
  transfers_kept = unfold write_level in ensure_level-transfers to r noted;
}
  where
    from : ℕ
    from = t.from_warehouse

    to : ℕ
    to = t.to_warehouse

    r : ℕ
    r = line.stockable

    less : Level
    less = record l { on_hand_qty = l.on_hand_qty - line.sent_qty }

    more : Level
    more = record m { incoming_qty = m.incoming_qty + line.sent_qty }

    noted : Warehousing
    noted = noted_after t line movement l s

    ensured : Warehousing
    ensured = ensure_level to r noted

    after : Warehousing
    after = line_after t line movement l m s

    kept :
        (v q : ℕ)
        → reserved_at v q s ≤ on_hand_at v q s
        → reserved_at v q after ≤ on_hand_at v q after
    kept v q enough =
        let a = write_level-quantity_at (λ x. x.on_hand_qty) from r v q less s found in
        let b = ensure_level-quantity_at (λ x. x.on_hand_qty) refl to r v q noted in
        let c = write_level-quantity_at (λ x. x.on_hand_qty) to r v q more ensured stocked in
        let d = write_level-quantity_at (λ x. x.reserved_qty) from r v q less s found in
        let e = ensure_level-quantity_at (λ x. x.reserved_qty) refl to r v q noted in
        let f = write_level-quantity_at (λ x. x.reserved_qty) to r v q more ensured stocked in
        elim (Bool-cases (same_level from r v q)) [
          | inr other ↦
              let g =
                for_key_other from r v q l.on_hand_qty (l.on_hand_qty - line.sent_qty) other in
              omega (arith, a, b, c, d, e, f, g)
          | inl same ↦
              let row = same_level-eq s from r v q same ∙ found in
              let on = ap (value_of (λ x. x.on_hand_qty)) row in
              let held = ap (value_of (λ x. x.reserved_qty)) row in
              let g = for_key_same from r v q same in
              omega (
                arith,
                a,
                b,
                c,
                d,
                e,
                f,
                on,
                held,
                g l.on_hand_qty,
                g (l.on_hand_qty - line.sent_qty),
              )
        ]

taken-Sent :
    (t : StockTransfer) (line : TransferLine) (movement : TransferMovement) (l : Level)
    (s after u : Warehousing)
    → s.levels t.from_warehouse line.stockable ≡ some l
    → l.reserved_qty + line.sent_qty ≤ l.on_hand_qty
    → after
      ≡ write_level t.from_warehouse line.stockable
          (record l { on_hand_qty = l.on_hand_qty - line.sent_qty })
          s
    → adjust_incoming t.to_warehouse line.stockable
        (pos line.sent_qty)
        (ensure_level t.to_warehouse line.stockable (add_movement movement after))
      ≡ u
    → Sent t.from_warehouse t.to_warehouse (line ∷ []) s u
unfolding moved_incoming
taken-Sent t line movement l s after u found covered written e =
    let noted = noted_after t line movement l s in
    let (m, stocked) = ensure_level-IsStocked t.to_warehouse line.stockable noted in
    let now =
      adjust_incoming_stocked t.to_warehouse line.stockable (pos line.sent_qty)
        (ensure_level t.to_warehouse line.stockable noted) stocked in
    let before =
      ap
        (λ (x : Warehousing).
          adjust_incoming t.to_warehouse line.stockable (pos line.sent_qty)
            (ensure_level t.to_warehouse line.stockable (add_movement movement x)))
        written in
    subst (Sent t.from_warehouse t.to_warehouse (line ∷ []) s) (sym now ∙ sym before ∙ e)
      (line_after-Sent t line movement l m s found covered stocked)

pub dispatch_line-Sent :
    (id : ℕ) (t : StockTransfer) (line : TransferLine) (s : Warehousing) {u : Warehousing}
    → dispatch_line id t line s ≡ ok u
    → Sent t.from_warehouse t.to_warehouse (line ∷ []) s u
unfolding dispatch_line
dispatch_line-Sent id t line s {u = u} e =
    let (adjusted, first, rest) =
      >>=-eq-ok (adjust_on_hand t.from_warehouse line.stockable (opposite line.sent_qty) s) _ e in
    elim (Option-cases adjusted) [
      | inl refused ↦ let wrong = rw refused at rest in cc
      | inr ((balance, after), done) ↦
          let (l, found, covered, positive, written, b) =
            adjust_on_hand-down t.from_warehouse line.stockable line.sent_qty s
              (first ∙ ap ok done) in
          taken-Sent t line _ l s after u found covered written (ok-injective (rw done at rest))
    ]

Sent-∷ :
    {from to : ℕ} {line : TransferLine} {lines : List TransferLine} {s u t : Warehousing}
    → Sent from to (line ∷ []) s u
    → Sent from to lines u t
    → Sent from to (line ∷ lines) s t
Sent-∷ first rest = record {
  taken = λ v q. omega (arith, first.taken v q, rest.taken v q);
  expected = λ v q. omega (arith, first.expected v q, rest.expected v q);
  reserved_kept = λ v q. rest.reserved_kept v q ∙ first.reserved_kept v q;
  available_kept = λ v q h. rest.available_kept v q (first.available_kept v q h);
  stocked_kept = λ v q h. rest.stocked_kept v q (first.stocked_kept v q h);
  transfers_kept = rest.transfers_kept ∙ first.transfers_kept;
}

dispatch_lines-Sent :
    (id : ℕ) (t : StockTransfer) (lines : List TransferLine) (s : Warehousing) {u : Warehousing}
    → dispatch_lines id t lines s ≡ ok u
    → Sent t.from_warehouse t.to_warehouse lines s u
unfolding dispatch_lines
dispatch_lines-Sent id t [] s e =
    subst (Sent t.from_warehouse t.to_warehouse [] s) (ok-injective e) (record {
      taken = λ v q. omega arith;
      expected = λ v q. omega arith;
      reserved_kept = λ v q. refl;
      available_kept = λ v q h. h;
      stocked_kept = λ v q h. h;
      transfers_kept = refl;
    })
dispatch_lines-Sent id t (line ∷ lines) s e =
    let (u, first, rest) = >>=-eq-ok (dispatch_line id t line s) _ e in
    Sent-∷ (dispatch_line-Sent id t line s first) (dispatch_lines-Sent id t lines u rest)

-- The quantities do not depend on the order in which the lines are taken.
Sent-sort :
    {from to : ℕ} (le : TransferLine → TransferLine → Bool) {lines : List TransferLine}
    {s t : Warehousing}
    → Sent from to (sort le lines) s t
    → Sent from to lines s t
Sent-sort {from = from} {to = to} le {lines = lines} h = record {
  taken = λ v q. omega (arith, h.taken v q, sort-sum le (sent_at from v q) lines);
  expected = λ v q. omega (arith, h.expected v q, sort-sum le (sent_at to v q) lines);
  reserved_kept = h.reserved_kept;
  available_kept = h.available_kept;
  stocked_kept = h.stocked_kept;
  transfers_kept = h.transfers_kept;
}

pub lock_or_throw-ok :
    (id : ℕ) (s : Warehousing) {t : StockTransfer}
    → lock_or_throw id s ≡ ok t
    → s.transfers id ≡ some t
unfolding lock_or_throw
lock_or_throw-ok id s e = elim (Option-cases (s.transfers id)) [
  | inl missing ↦ let wrong = rw (lock_or_throw, missing) at e in cc
  | inr (t, found) ↦ found ∙ ap some (ok-injective (rw (lock_or_throw, found) at e))
]

pub assert_action-dispatch :
    (status : StockTransferStatus) {edge : TransferEdge}
    → assert_action status dispatch ≡ ok edge
    → status ≡ approved
unfolding assert_action assert_transfer_action
assert_action-dispatch requested e = cc
assert_action-dispatch approved e = refl
assert_action-dispatch in_transit e = cc
assert_action-dispatch received e = cc
assert_action-dispatch cancelled e = cc

-- A dispatch that succeeds finds an approved transfer and leaves it in transit. Of every stockable
-- and in every warehouse, what the lines send is gone from the shelf of the source and is incoming
-- at the destination, and nothing else changes: no quantity elsewhere, no reserved quantity. What is reserved
-- stays on the shelf.
pub dispatch_transfer-Sent :
    (level_id : ℕ → ℕ → ℕ) (id : ℕ) (s : Warehousing) {u : Warehousing}
    → dispatch_transfer level_id id s ≡ ok u
    → (t : StockTransfer) × (s.transfers id ≡ some t)
      × (t.status ≡ approved)
      × (u.transfers id ≡ some (record t { status = in_transit }))
      × ((v q : ℕ)
          → on_hand_at v q u + sum_by (sent_at t.from_warehouse v q) t.lines ≡ on_hand_at v q s)
      × ((v q : ℕ)
          → incoming_at v q u ≡ incoming_at v q s + sum_by (sent_at t.to_warehouse v q) t.lines)
      × ((v q : ℕ) → reserved_at v q u ≡ reserved_at v q s)
      × ((v q : ℕ) → reserved_at v q s ≤ on_hand_at v q s → reserved_at v q u ≤ on_hand_at v q u)
unfolding dispatch_transfer update_status set_transfer
dispatch_transfer-Sent level_id id s e =
    let (t, locked, e1) = >>=-eq-ok (lock_or_throw id s) _ e in
    let (edge, legal, e2) = >>=-eq-ok (assert_action t.status dispatch) _ e1 in
    let (lines, e3) = require-eq-ok (has_lines t) _ _ e2 in
    let (stocked, present, e4) = >>=-eq-ok (find_levels t.from_warehouse t.lines s) _ e3 in
    let (moved, sent, e5) =
      >>=-eq-ok (dispatch_lines id t (sort (level_order level_id t.from_warehouse) t.lines) s) _
        e4 in
    let h =
      Sent-sort (level_order level_id t.from_warehouse) {lines = t.lines}
        (dispatch_lines-Sent id t _ s sent) in
    let now = ok-injective e5 in
    let self : (id == id) ≡ true = ground arith in
    rw (← now) (
      t,
      lock_or_throw-ok id s locked,
      assert_action-dispatch t.status legal,
      rw self refl,
      h.taken,
      h.expected,
      h.reserved_kept,
      h.available_kept,
    )
