-- ===== src/Transfer/Service/Receive.antt =====
-- What a receipt moves.
use achichiz_back_end.Stock.Ledger
use achichiz_back_end.Prelude.{
  ==_iff, All, All-implies, Bool, Bool-cases, List, [], arith, false, if◌then◌else◌, inl, inr, map,
  ok, refl, some, suc, sum_by, true, zero, ℕ, ◌+◌, ◌-◌, ◌<◌, ◌==◌, ◌∙◌, ◌∷◌, ◌≡◌,
}
use achichiz_back_end.Transfer.Service.{
  Level, StockTransfer, TransferLine, TransferMovement, Warehousing, add_movement, assert_action,
  check_overrides, ensure_level, ensure_levels, level_order, lock_or_throw, moved_incoming,
  opposite, override_map, receive_line, receive_lines, receive_transfer, received_of, same_level,
  set_received, set_transfer, update_status, write_level,
}
use achichiz_back_end.Transfer.Service.Levels.{
  IsStocked, adjust_incoming_stocked, adjust_on_hand-up, empty_level, ensure_level-IsStocked,
  ensure_level-keeps, ensure_level-quantity_at, for_key, incoming_at, on_hand_at, quantity_at,
  reserved_at, same_level-eq,
}
use achichiz_back_end.Transfer.Service.Dispatch.{sent_at}
use achichiz_back_end.Prelude.Int.{pos}
use achichiz_back_end.Prelude.Sorting.{sort, sort-All, sort-sum}
use achichiz_back_end.Transfer.{assert_transfer_action, in_transit, received}

-- What arrives of a line.
abbrev pub received_at : ℕ → List (ℕ × ℕ) → ℕ → ℕ → TransferLine → ℕ
received_at w overrides v q line = for_key w line.stockable v q (received_of overrides line)

-- Quantities, and the table of transfers, before and after some lines arrived in a warehouse.
pub record Arrived (w : ℕ) (overrides : List (ℕ × ℕ)) (lines : List TransferLine)
    (s t : Warehousing) : Type 0 where
  pub added :
      (v q : ℕ) → on_hand_at v q t ≡ on_hand_at v q s + sum_by (received_at w overrides v q) lines
  pub cleared : (v q : ℕ) → incoming_at v q t ≡ incoming_at v q s - sum_by (sent_at w v q) lines
  pub reserved_kept : (v q : ℕ) → reserved_at v q t ≡ reserved_at v q s
  pub stocked_kept : (v q : ℕ) → IsStocked v q s → IsStocked v q t
  pub transfers_kept : t.transfers ≡ s.transfers

key_self : (w r : ℕ) → same_level w r w r ≡ true
key_self w r = ground arith

moved_incoming-opposite : (n q : ℕ) → moved_incoming (opposite n) q ≡ q - n
unfolding moved_incoming
moved_incoming-opposite zero q = omega arith
moved_incoming-opposite (suc n) q = refl

-- A line writes its level once, or twice where something arrived.
abbrev arrived_level : TransferLine → Level → Level
arrived_level line l = record l {
  incoming_qty = moved_incoming (opposite line.sent_qty) l.incoming_qty;
}

abbrev added_level : ℕ → Level → Level
added_level n l = record l { on_hand_qty = l.on_hand_qty + n }

one_write :
    (w n : ℕ) (line : TransferLine) (l : Level) (s : Warehousing) (overrides : List (ℕ × ℕ))
    (u : Warehousing)
    → s.levels w line.stockable ≡ some l
    → received_of overrides line ≡ n
    → u.transfers ≡ s.transfers
    → ((v q : ℕ)
        → u.levels v q ≡ (
            if same_level w line.stockable v q
            then some (added_level n (arrived_level line l))
            else s.levels v q))
    → Arrived w overrides (line ∷ []) s u
one_write w n line l s overrides u found got same_transfers rows = record {
  added = λ v q. elim (Bool-cases (same_level w line.stockable v q)) [
    | inl same ↦
        let row = same_level-eq s w line.stockable v q same ∙ found in
        rw (rows v q, same, row, got) (omega arith)
    | inr other ↦ rw (rows v q, other) (omega arith)
  ];
  cleared = λ v q. elim (Bool-cases (same_level w line.stockable v q)) [
    | inl same ↦
        let row = same_level-eq s w line.stockable v q same ∙ found in
        let less = moved_incoming-opposite line.sent_qty l.incoming_qty in
        rw (rows v q, same, row, less) (omega arith)
    | inr other ↦ rw (rows v q, other) (omega arith)
  ];
  reserved_kept = λ v q. elim (Bool-cases (same_level w line.stockable v q)) [
    | inl same ↦
        let row = same_level-eq s w line.stockable v q same ∙ found in rw (rows v q, same, row) refl
    | inr other ↦ rw (rows v q, other) refl
  ];
  stocked_kept = λ v q h. elim (Bool-cases (same_level w line.stockable v q)) [
    | inl same ↦ rw (rows v q, same) (added_level n (arrived_level line l), refl)
    | inr other ↦ rw (rows v q, other) h
  ];
  transfers_kept = same_transfers;
}

if_twice {ℓ} :
    {A : Type ℓ} (b : Bool) (x y z : A)
    → (if b then x else if b then y else z) ≡ (if b then x else z)
if_twice true x y z = refl
if_twice false x y z = refl

add_zero : (l : Level) → added_level 0 l ≡ l
add_zero l = let e : l.on_hand_qty + 0 ≡ l.on_hand_qty = omega arith in rw e refl

-- A line of a stocked level is received, whatever its quantities.
receive_line-Arrived :
    (id w : ℕ) (overrides : List (ℕ × ℕ)) (line : TransferLine) (s : Warehousing)
    → IsStocked w line.stockable s
    → (u : Warehousing) × (receive_line id w overrides line s ≡ ok u)
      × Arrived w overrides (line ∷ []) s u
unfolding receive_line write_level
receive_line-Arrived id w overrides line s (l, found) =
    let r = line.stockable in
    let n = received_of overrides line in
    let first = arrived_level line l in
    let arrived = write_level w r first s in
    let clear = adjust_incoming_stocked w r (opposite line.sent_qty) s found in
    elim (Bool-cases (n == 0)) [
      | inl nothing ↦
          let none_left : n ≡ 0 = (==_iff n 0).0 nothing in
          (
            arrived,
            rw (receive_line, nothing, clear) refl,
            one_write w n line l s overrides arrived found refl refl
                (λ v q. rw (none_left, add_zero first) refl),
          )
      | inr more ↦
          let positive : 0 < n = ground arith in
          let there : arrived.levels w r ≡ some first = rw (key_self w r) refl in
          let up = adjust_on_hand-up w r n arrived there positive in
          let movement : TransferMovement = record {
            warehouse = w;
            stockable = r;
            movement_type = Ledger.transfer_in;
            quantity_delta = pos n;
            balance_after = l.on_hand_qty + n;
            reference_id = id;
          } in
          let u = add_movement movement (write_level w r (added_level n first) arrived) in
          (
            u,
            rw (receive_line, more, clear, up) refl,
            one_write w n line l s overrides u found refl refl
                (λ v q. if_twice (same_level w r v q) _ _ _),
          )
    ]

Arrived-∷ :
    {w : ℕ} {overrides : List (ℕ × ℕ)} {line : TransferLine} {lines : List TransferLine}
    {s u t : Warehousing}
    → Arrived w overrides (line ∷ []) s u
    → Arrived w overrides lines u t
    → Arrived w overrides (line ∷ lines) s t
Arrived-∷ first rest = record {
  added = λ v q. omega (arith, first.added v q, rest.added v q);
  cleared = λ v q. omega (arith, first.cleared v q, rest.cleared v q);
  reserved_kept = λ v q. rest.reserved_kept v q ∙ first.reserved_kept v q;
  stocked_kept = λ v q h. rest.stocked_kept v q (first.stocked_kept v q h);
  transfers_kept = rest.transfers_kept ∙ first.transfers_kept;
}

abbrev StockedLine : ℕ → Warehousing → TransferLine → Type 0
StockedLine w s line = IsStocked w line.stockable s

receive_lines-Arrived :
    (id w : ℕ) (overrides : List (ℕ × ℕ)) (lines : List TransferLine) (s : Warehousing)
    → All (StockedLine w s) lines
    → (u : Warehousing) × (receive_lines id w overrides lines s ≡ ok u)
      × Arrived w overrides lines s u
unfolding receive_lines
receive_lines-Arrived id w overrides [] s h = (
  s,
  refl,
  record {
    added = λ v q. omega arith;
    cleared = λ v q. omega arith;
    reserved_kept = λ v q. refl;
    stocked_kept = λ v q k. k;
    transfers_kept = refl;
  },
)
receive_lines-Arrived id w overrides (line ∷ lines) s (h, hs) =
    let (u, e, first) = receive_line-Arrived id w overrides line s h in
    let later =
      All-implies (StockedLine w s) (StockedLine w u) lines
        (λ x k. first.stocked_kept w x.stockable k) hs in
    let (t, e1, rest) = receive_lines-Arrived id w overrides lines u later in
    (t, rw (receive_lines, e) e1, Arrived-∷ first rest)

-- Making room for the lines changes no quantity.
ensure_levels-quantity_at :
    (field : Level → ℕ)
    → field empty_level ≡ 0
    → (w v q : ℕ) (lines : List TransferLine) (s : Warehousing)
    → quantity_at field v q (ensure_levels w lines s) ≡ quantity_at field v q s
ensure_levels-quantity_at field empty w v q [] s = refl
ensure_levels-quantity_at field empty w v q (line ∷ lines) s =
    ensure_levels-quantity_at field empty w v q lines (ensure_level w line.stockable s)
    ∙ ensure_level-quantity_at field empty w line.stockable v q s

ensure_levels-keeps :
    (w v q : ℕ) (lines : List TransferLine) (s : Warehousing)
    → IsStocked v q s
    → IsStocked v q (ensure_levels w lines s)
ensure_levels-keeps w v q [] s h = h
ensure_levels-keeps w v q (line ∷ lines) s h =
    ensure_levels-keeps w v q lines (ensure_level w line.stockable s)
      (ensure_level-keeps w line.stockable v q s h)

ensure_levels-IsStocked :
    (w : ℕ) (lines : List TransferLine) (s : Warehousing)
    → All (StockedLine w (ensure_levels w lines s)) lines
ensure_levels-IsStocked w [] s = tt
ensure_levels-IsStocked w (line ∷ lines) s = (
  ensure_levels-keeps w w line.stockable lines (ensure_level w line.stockable s)
      (ensure_level-IsStocked w line.stockable s),
  ensure_levels-IsStocked w lines (ensure_level w line.stockable s),
)

-- A receipt of a transfer in transit, whose overrides name lines of it and no more than was sent,
-- succeeds, whatever else the warehouse holds. Of every stockable and in every warehouse, what
-- arrived of the lines is on the shelf of the destination, what they sent is no longer incoming
-- there, and nothing else changes. The transfer is received, with what arrived of each line.
pub receive_transfer-Arrived :
    (level_id : ℕ → ℕ → ℕ) (id : ℕ) (input : List (ℕ × ℕ)) (s : Warehousing) (t : StockTransfer)
    → s.transfers id ≡ some t
    → t.status ≡ in_transit
    → check_overrides t.lines (override_map input []) ≡ ok tt
    → let overrides = override_map input [] in
      (u : Warehousing) × (receive_transfer level_id id input s ≡ ok u)
      × (u.transfers id
          ≡ some (record t { status = received; lines = map (set_received overrides) t.lines }))
      × ((v q : ℕ)
          → on_hand_at v q u
            ≡ on_hand_at v q s + sum_by (received_at t.to_warehouse overrides v q) t.lines)
      × ((v q : ℕ)
          → incoming_at v q u ≡ incoming_at v q s - sum_by (sent_at t.to_warehouse v q) t.lines)
      × ((v q : ℕ) → reserved_at v q u ≡ reserved_at v q s)
unfolding receive_transfer update_status set_transfer lock_or_throw assert_action
    assert_transfer_action
receive_transfer-Arrived level_id id input s t found moving checked =
    let w = t.to_warehouse in
    let overrides = override_map input [] in
    let le = level_order level_id w in
    let ready = ensure_levels w t.lines s in
    let (moved, e, h) =
      receive_lines-Arrived id w overrides (sort le t.lines) ready
        (sort-All le (StockedLine w ready) t.lines (ensure_levels-IsStocked w t.lines s)) in
    let self : (id == id) ≡ true = ground arith in
    (
      update_status id (record t { lines = map (set_received overrides) t.lines }) received moved,
      rw (receive_transfer, lock_or_throw, found, moving, checked, e) refl,
      rw self refl,
      λ v q. omega (
        arith,
        h.added v q,
        ensure_levels-quantity_at (λ x. x.on_hand_qty) refl w v q t.lines s,
        sort-sum le (received_at w overrides v q) t.lines,
      ),
      λ v q. omega (
        arith,
        h.cleared v q,
        ensure_levels-quantity_at (λ x. x.incoming_qty) refl w v q t.lines s,
        sort-sum le (sent_at w v q) t.lines,
      ),
      λ v q.
          h.reserved_kept v q
          ∙ ensure_levels-quantity_at (λ x. x.reserved_qty) refl w v q t.lines s,
    )
