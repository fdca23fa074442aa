-- ===== src/Purchasing/Sending/Expected.antt =====
-- What a list of expected quantities changes in the levels of a warehouse.
use achichiz_back_end.Prelude.{
  All, All-implies, Bool, Bool-cases, List, Option-cases, [], ap, arith, filter, if◌then◌else◌, inl,
  inr, map, refl, suc, sum_by, zero, ℕ, ◌+◌, ◌-◌, ◌∙◌, ◌∷◌, ◌≡◌,
}
use achichiz_back_end.Prelude.Int.{pos, ℤ}
use achichiz_back_end.Prelude.Sorting.{sort, sort-All, sort-sum}
use achichiz_back_end.Purchasing.Sending.{
  Expected, PurchaseLine, adjust_expected, ensure_expected, is_outstanding, outstanding,
}
use achichiz_back_end.Transfer.Service.{
  Level, Warehousing, adjust_incoming, ensure_level, moved_incoming, opposite, same_level,
  write_level,
}
use achichiz_back_end.Transfer.Service.Levels.{
  IsStocked, adjust_incoming_stocked, empty_level, ensure_level-IsStocked, ensure_level-keeps,
  ensure_level-quantity_at, for_key, incoming_at, on_hand_at, quantity_at, same_level-eq,
  write_level-IsStocked,
}

-- What is expected of a stockable in a warehouse.
abbrev pub expected_at : ℕ → ℕ → ℕ → Expected → ℕ
expected_at w v q (r, qty) = for_key w r v q qty

moved-opposite : (n q : ℕ) → moved_incoming (opposite n) q ≡ q - n
unfolding moved_incoming
moved-opposite zero q = omega arith
moved-opposite (suc n) q = refl

adjust_incoming-incoming_at :
    (w r v q : ℕ) (delta : ℤ) (s : Warehousing)
    → IsStocked w r s
    → incoming_at v q (adjust_incoming w r delta s)
      ≡ (if same_level w r v q then moved_incoming delta (incoming_at v q s) else incoming_at v q s)
unfolding write_level
adjust_incoming-incoming_at w r v q delta s (l, found) =
    let now = adjust_incoming_stocked w r delta s found in
    elim (Bool-cases (same_level w r v q)) [
      | inl same ↦ rw (now, same, same_level-eq s w r v q same ∙ found) refl
      | inr other ↦ rw (now, other) refl
    ]

adjust_incoming-on_hand_at :
    (w r v q : ℕ) (delta : ℤ) (s : Warehousing)
    → on_hand_at v q (adjust_incoming w r delta s) ≡ on_hand_at v q s
unfolding adjust_incoming write_level
adjust_incoming-on_hand_at w r v q delta s = elim (Option-cases (s.levels w r)) [
  | inl missing ↦ rw (adjust_incoming, missing) refl
  | inr (l, found) ↦ elim (Bool-cases (same_level w r v q)) [
    | inl same ↦
        rw (adjust_incoming, found, write_level, same, same_level-eq s w r v q same ∙ found) refl
    | inr other ↦ rw (adjust_incoming, found, write_level, other) refl
  ]
]

adjust_incoming-IsStocked :
    (w r v q : ℕ) (delta : ℤ) (s : Warehousing)
    → IsStocked v q s
    → IsStocked v q (adjust_incoming w r delta s)
unfolding adjust_incoming
adjust_incoming-IsStocked w r v q delta s h = elim (Option-cases (s.levels w r)) [
  | inl missing ↦ rw (adjust_incoming, missing) h
  | inr (l, found) ↦ rw (adjust_incoming, found) (write_level-IsStocked w r v q _ s h)
]

abbrev StockedAll : ℕ → Warehousing → Expected → Type 0
StockedAll w s e = IsStocked w e.0 s

raise-incoming_at :
    (w v q : ℕ) (list : List Expected) (s : Warehousing)
    → All (StockedAll w s) list
    → incoming_at v q (adjust_expected pos w list s)
      ≡ incoming_at v q s + sum_by (expected_at w v q) list
unfolding adjust_expected moved_incoming
raise-incoming_at w v q [] s h = omega arith
raise-incoming_at w v q ((r, qty) ∷ rest) s (h, hs) =
    let now = adjust_incoming-incoming_at w r v q (pos qty) s h in
    let later = raise-incoming_at w v q rest (adjust_incoming w r (pos qty) s) (
      All-implies (StockedAll w s) (StockedAll w (adjust_incoming w r (pos qty) s)) rest
        (λ e k. adjust_incoming-IsStocked w r w e.0 (pos qty) s k) hs) in
    ground (arith, now, later)

lower-incoming_at :
    (w v q : ℕ) (list : List Expected) (s : Warehousing)
    → All (StockedAll w s) list
    → incoming_at v q (adjust_expected opposite w list s)
      ≡ incoming_at v q s - sum_by (expected_at w v q) list
unfolding adjust_expected moved_incoming
lower-incoming_at w v q [] s h = omega arith
lower-incoming_at w v q ((r, qty) ∷ rest) s (h, hs) =
    let now = adjust_incoming-incoming_at w r v q (opposite qty) s h in
    let amount = moved-opposite qty (incoming_at v q s) in
    let later = lower-incoming_at w v q rest (adjust_incoming w r (opposite qty) s) (
      All-implies (StockedAll w s) (StockedAll w (adjust_incoming w r (opposite qty) s)) rest
        (λ e k. adjust_incoming-IsStocked w r w e.0 (opposite qty) s k) hs) in
    ground (arith, now, amount, later)

expected-on_hand_at :
    (sign : ℕ → ℤ) (w v q : ℕ) (list : List Expected) (s : Warehousing)
    → on_hand_at v q (adjust_expected sign w list s) ≡ on_hand_at v q s
unfolding adjust_expected
expected-on_hand_at sign w v q [] s = refl
expected-on_hand_at sign w v q ((r, qty) ∷ rest) s =
    expected-on_hand_at sign w v q rest (adjust_incoming w r (sign qty) s)
    ∙ adjust_incoming-on_hand_at w r v q (sign qty) s

ensure_expected-quantity_at :
    (field : Level → ℕ)
    → field empty_level ≡ 0
    → (w v q : ℕ) (list : List Expected) (s : Warehousing)
    → quantity_at field v q (ensure_expected w list s) ≡ quantity_at field v q s
unfolding ensure_expected
ensure_expected-quantity_at field empty w v q [] s = refl
ensure_expected-quantity_at field empty w v q ((r, qty) ∷ rest) s =
    ensure_expected-quantity_at field empty w v q rest (ensure_level w r s)
    ∙ ensure_level-quantity_at field empty w r v q s

ensure_expected-keeps :
    (w v q : ℕ) (list : List Expected) (s : Warehousing)
    → IsStocked v q s
    → IsStocked v q (ensure_expected w list s)
unfolding ensure_expected
ensure_expected-keeps w v q [] s h = h
ensure_expected-keeps w v q ((r, qty) ∷ rest) s h =
    ensure_expected-keeps w v q rest (ensure_level w r s) (ensure_level-keeps w r v q s h)

ensure_expected-All :
    (w : ℕ) (list : List Expected) (s : Warehousing)
    → All (StockedAll w (ensure_expected w list s)) list
unfolding ensure_expected
ensure_expected-All w [] s = tt
ensure_expected-All w ((r, qty) ∷ rest) s = (
  ensure_expected-keeps w w r rest (ensure_level w r s) (ensure_level-IsStocked w r s),
  ensure_expected-All w rest (ensure_level w r s),
)

-- What is still owed on the lines, of a stockable in a warehouse.
abbrev pub owed_at : ℕ → ℕ → ℕ → PurchaseLine → ℕ
owed_at w v q line = expected_at w v q (outstanding line)

pub owed_all :
    (w v q : ℕ) (lines : List PurchaseLine)
    → sum_by (expected_at w v q) (map outstanding lines) ≡ sum_by (owed_at w v q) lines
owed_all w v q [] = refl
owed_all w v q (line ∷ lines) = ap (λ (k : ℕ). owed_at w v q line + k) (owed_all w v q lines)

-- Lines with nothing outstanding add nothing.
pub owed_filtered :
    (w v q : ℕ) (lines : List PurchaseLine)
    → sum_by (expected_at w v q) (map outstanding (filter is_outstanding lines))
      ≡ sum_by (owed_at w v q) lines
owed_filtered w v q [] = refl
owed_filtered w v q (line ∷ lines) =
    let ih = owed_filtered w v q lines in
    elim (Bool-cases (is_outstanding line)) [
      | inl owed ↦ rw owed (ap (λ (k : ℕ). owed_at w v q line + k) ih)
      | inr settled ↦
          let nothing : line.ordered_qty - line.received_qty ≡ 0 = ground arith in
          rw settled (ground (arith, ih, nothing))
    ]

-- The levels that a list needs are made, and the list is added to what they expect.
pub ensured-raise :
    (le : Expected → Expected → Bool) (w v q : ℕ) (list : List Expected) (s : Warehousing)
    → incoming_at v q (adjust_expected pos w (sort le list) (ensure_expected w list s))
      ≡ incoming_at v q s + sum_by (expected_at w v q) list
ensured-raise le w v q list s =
    let stocked = ensure_expected w list s in
    omega (
      arith,
      raise-incoming_at w v q (sort le list) stocked
          (sort-All le (StockedAll w stocked) list (ensure_expected-All w list s)),
      sort-sum le (expected_at w v q) list,
      ensure_expected-quantity_at (λ l. l.incoming_qty) refl w v q list s,
    )

pub ensured-lower :
    (le : Expected → Expected → Bool) (w v q : ℕ) (list : List Expected) (s : Warehousing)
    → incoming_at v q (adjust_expected opposite w (sort le list) (ensure_expected w list s))
      ≡ incoming_at v q s - sum_by (expected_at w v q) list
ensured-lower le w v q list s =
    let stocked = ensure_expected w list s in
    omega (
      arith,
      lower-incoming_at w v q (sort le list) stocked
          (sort-All le (StockedAll w stocked) list (ensure_expected-All w list s)),
      sort-sum le (expected_at w v q) list,
      ensure_expected-quantity_at (λ l. l.incoming_qty) refl w v q list s,
    )

pub ensured-on_hand_at :
    (sign : ℕ → ℤ) (le : Expected → Expected → Bool) (w v q : ℕ) (list : List Expected)
    (s : Warehousing)
    → on_hand_at v q (adjust_expected sign w (sort le list) (ensure_expected w list s))
      ≡ on_hand_at v q s
ensured-on_hand_at sign le w v q list s =
    expected-on_hand_at sign w v q (sort le list) (ensure_expected w list s)
    ∙ ensure_expected-quantity_at (λ l. l.on_hand_qty) refl w v q list s
