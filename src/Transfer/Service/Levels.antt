-- ===== src/Transfer/Service/Levels.antt =====
-- What the writes of a level change in the quantities of all levels.
use achichiz_back_end.Prelude.{
  Bool-cases, Option, Option-cases, ap, arith, if◌then◌else◌, inl, inr, leb, leb→le, none, ok,
  ok-injective, refl, some, suc, sym, true, zero, ℕ, ◌+◌, ◌-◌, ◌<◌, ◌∙◌, ◌≡◌, ◌≤◌,
}
use achichiz_back_end.Prelude.Int.{pos, ℤ}
use achichiz_back_end.Transfer.Service.{
  Level, Warehousing, adjust_incoming, adjust_on_hand, ensure_level, moved_incoming, moved_level,
  opposite, same_level, write_level,
}
use mathlib.Core.Option.{some-injective}

-- A quantity of the level of a stockable in a warehouse, 0 where there is no level.
abbrev pub value_of : (Level → ℕ) → Option Level → ℕ
value_of field none = 0
value_of field (some l) = field l

abbrev pub quantity_at : (Level → ℕ) → ℕ → ℕ → Warehousing → ℕ
quantity_at field v q s = value_of field (s.levels v q)

abbrev pub on_hand_at : ℕ → ℕ → Warehousing → ℕ
on_hand_at = quantity_at (λ l. l.on_hand_qty)

abbrev pub incoming_at : ℕ → ℕ → Warehousing → ℕ
incoming_at = quantity_at (λ l. l.incoming_qty)

abbrev pub reserved_at : ℕ → ℕ → Warehousing → ℕ
reserved_at = quantity_at (λ l. l.reserved_qty)

-- A quantity that one level counts and every other does not.
abbrev pub for_key : ℕ → ℕ → ℕ → ℕ → ℕ → ℕ
for_key w r v q n = if same_level w r v q then n else 0

abbrev pub IsStocked : ℕ → ℕ → Warehousing → Type 0
IsStocked w r s = (l : Level) × (s.levels w r ≡ some l)

pub same_level-eq :
    (s : Warehousing) (w r v q : ℕ) → same_level w r v q ≡ true → s.levels v q ≡ s.levels w r
same_level-eq s w r v q e =
    let a : w ≡ v = ground arith in
    let b : r ≡ q = ground arith in ap (s.levels v) (sym b) ∙ ap (λ (x : ℕ). s.levels x r) (sym a)

-- A write puts the field of the new row in place of that of the old one, and keeps all others.
pub write_level-quantity_at :
    (field : Level → ℕ) (w r v q : ℕ) (l : Level) (s : Warehousing) {old : Level}
    → s.levels w r ≡ some old
    → quantity_at field v q (write_level w r l s) + for_key w r v q (field old)
      ≡ quantity_at field v q s + for_key w r v q (field l)
unfolding write_level
write_level-quantity_at field w r v q l s was = elim (Bool-cases (same_level w r v q)) [
  | inl same ↦ rw (write_level, same, same_level-eq s w r v q same, was) (omega arith)
  | inr other ↦ rw (write_level, other) refl
]

pub write_level-IsStocked :
    (w r v q : ℕ) (l : Level) (s : Warehousing)
    → IsStocked v q s
    → IsStocked v q (write_level w r l s)
unfolding write_level
write_level-IsStocked w r v q l s (old, e) = elim (Bool-cases (same_level w r v q)) [
  | inl same ↦ rw same (l, refl)
  | inr other ↦ rw other (old, e)
]

same_level_refl : (w r : ℕ) → same_level w r w r ≡ true
same_level_refl w r = ground arith

abbrev pub empty_level : Level
empty_level = record { on_hand_qty = 0; reserved_qty = 0; incoming_qty = 0 }

-- An empty level counts as none.
pub ensure_level-quantity_at :
    (field : Level → ℕ)
    → field empty_level ≡ 0
    → (w r v q : ℕ) (s : Warehousing)
    → quantity_at field v q (ensure_level w r s) ≡ quantity_at field v q s
unfolding ensure_level write_level
ensure_level-quantity_at field empty w r v q s = elim (Option-cases (s.levels w r)) [
  | inr (l, e) ↦ rw (ensure_level, e) refl
  | inl e ↦ elim (Bool-cases (same_level w r v q)) [
    | inl same ↦ rw (ensure_level, write_level, e, same, same_level-eq s w r v q same, e) empty
    | inr other ↦ rw (ensure_level, write_level, e, other) refl
  ]
]

pub ensure_level-keeps :
    (w r v q : ℕ) (s : Warehousing) → IsStocked v q s → IsStocked v q (ensure_level w r s)
unfolding ensure_level
ensure_level-keeps w r v q s h = elim (Option-cases (s.levels w r)) [
  | inr (l, e) ↦ rw (ensure_level, e) h
  | inl e ↦ rw (ensure_level, e) (write_level-IsStocked w r v q empty_level s h)
]

pub ensure_level-IsStocked : (w r : ℕ) (s : Warehousing) → IsStocked w r (ensure_level w r s)
unfolding ensure_level write_level
ensure_level-IsStocked w r s = elim (Option-cases (s.levels w r)) [
  | inr (l, e) ↦ rw (ensure_level, e) (l, e)
  | inl e ↦ rw (ensure_level, e, write_level, same_level_refl w r) (empty_level, refl)
]

-- The two writes of a level that is there, as writes of a row.
pub adjust_incoming_stocked :
    (w r : ℕ) (delta : ℤ) (s : Warehousing) {l : Level}
    → s.levels w r ≡ some l
    → adjust_incoming w r delta s
      ≡ write_level w r (record l { incoming_qty = moved_incoming delta l.incoming_qty }) s
unfolding adjust_incoming
adjust_incoming_stocked w r delta s e = rw (adjust_incoming, e) refl

pub adjust_on_hand-down :
    (w r n : ℕ) (s : Warehousing) {b : ℕ} {t : Warehousing}
    → adjust_on_hand w r (opposite n) s ≡ ok (some (b, t))
    → (l : Level) × (s.levels w r ≡ some l)
      × (l.reserved_qty + n ≤ l.on_hand_qty)
      × (0 < n)
      × (t ≡ write_level w r (record l { on_hand_qty = l.on_hand_qty - n }) s)
      × (b ≡ l.on_hand_qty - n)
unfolding adjust_on_hand moved_level
adjust_on_hand-down w r zero s e = cc
adjust_on_hand-down w r (suc n) s {t = t} e = elim (Option-cases (s.levels w r)) [
  | inl missing ↦ let wrong = rw (adjust_on_hand, missing) at e in cc
  | inr (l, found) ↦ elim (Bool-cases (leb (l.reserved_qty + suc n) l.on_hand_qty)) [
    | inr short ↦ let wrong = rw (adjust_on_hand, found, moved_level, short) at e in cc
    | inl covered ↦
        let done =
          some-injective _ _
            (ok-injective (rw (adjust_on_hand, found, moved_level, covered) at e)) in
        (
          l,
          found,
          leb→le _ _ covered,
          omega arith,
          ap (λ (x : ℕ × Warehousing). x.1) (sym done),
          ap (λ (x : ℕ × Warehousing). x.0) (sym done),
        )
  ]
]

pub adjust_on_hand-up :
    (w r n : ℕ) (s : Warehousing) {l : Level}
    → s.levels w r ≡ some l
    → 0 < n
    → adjust_on_hand w r (pos n) s
      ≡ ok (
          some
            (l.on_hand_qty + n, write_level w r (record l { on_hand_qty = l.on_hand_qty + n }) s))
unfolding adjust_on_hand moved_level
adjust_on_hand-up w r zero s found h = absurd (omega arith)
adjust_on_hand-up w r (suc n) s found h = rw (adjust_on_hand, found) refl
