-- ===== src/Bom/Rounding.antt =====
-- Amounts are rounded up, by less than one unit.
use Prim.Native.Nat.{◌/◌}
use achichiz_back_end.Prelude.{
  >>=-eq-ok, All, All-map, Bool-cases, List, [], arith, if◌then◌else◌, inl, inr, ok, ok-injective,
  suc, zero, ℕ, ◌*◌, ◌+◌, ◌-◌, ◌/◌, ◌<◌, ◌∷◌, ◌≡◌, ◌≤◌,
}
use achichiz_back_end.Prelude.Sorting.{sort-All}
use achichiz_back_end.Bom.{
  Accumulator, BomExplosion, BomGraph, ExplodedLine, Uom, by_key, ceil_to, dedusted, explode_bom,
  finish, finish_line, piece, round_requirement, same_unit, scale, start, walk,
}
use native.Mathlib.Nat.{div-mul-le_self, lt-div-mul-add, mul-le-mul_right}

-- One whole piece, or one thousandth of any other unit.
abbrev pub pick_unit : ℕ → Uom → ℕ
pick_unit levels unit = if same_unit unit piece then scale levels else 10_000 * scale (levels - 1)

-- The least number of units that falls short of the exact amount by less than half a millionth of a
-- unit, if at all.
abbrev pub RoundedUp : ℕ → ExplodedLine → Type 0
RoundedUp levels l =
    (2_000_000 * l.raw_qty < (2_000_000 * l.required_qty + 1) * pick_unit levels l.unit)
    × ((2_000_000 * l.required_qty + 1) * pick_unit levels l.unit
        ≤ 2_000_000 * (l.raw_qty + pick_unit levels l.unit))

scale_positive : (levels : ℕ) → 0 < scale levels
unfolding scale
scale_positive zero = omega arith
scale_positive (suc levels) = omega (arith, scale_positive levels)

dedusted_bounds :
    (a b : ℕ)
    → 0 < b
    → (2_000_000 * a < 2 * (dedusted a b * b) + b) × (2 * (dedusted a b * b) ≤ 2_000_000 * a + b)
unfolding dedusted
dedusted_bounds a b positive =
    let whole : 0 < 2 * b = omega arith in
    let under = div-mul-le_self (2_000_000 * a + b) (2 * b) in
    let over = lt-div-mul-add {a = 2_000_000 * a + b} whole in
    (grind (arith, under, over), grind (arith, under, over))

ceil_to_bounds :
    (a b : ℕ)
    → 0 < b
    → (2_000_000 * a < (2_000_000 * ceil_to a b + 1) * b)
      × ((2_000_000 * ceil_to a b + 1) * b ≤ 2_000_000 * (a + b))
unfolding ceil_to
ceil_to_bounds a b positive =
    let (low, high) = dedusted_bounds a b positive in
    let under = div-mul-le_self (dedusted a b + 999_999) 1_000_000 in
    let over = lt-div-mul-add {a = dedusted a b + 999_999} {b = 1_000_000} (omega arith) in
    let c = (dedusted a b + 999_999) / 1_000_000 in
    let least : dedusted a b * b ≤ c * 1_000_000 * b = mul-le-mul_right b (omega (arith, over)) in
    let most : c * 1_000_000 * b ≤ (dedusted a b + 999_999) * b = mul-le-mul_right b under in
    (grind (arith, low, least), grind (arith, high, most, positive))

pick_unit_positive : (levels : ℕ) (unit : Uom) → 0 < pick_unit levels unit
pick_unit_positive levels unit = elim (Bool-cases (same_unit unit piece)) [
  | inl whole ↦ rw whole (scale_positive levels)
  | inr parts ↦ rw parts (omega (arith, scale_positive (levels - 1)))
]

round_requirement_bounds :
    (levels raw : ℕ) (unit : Uom)
    → (2_000_000 * raw
        < (2_000_000 * round_requirement levels raw unit + 1) * pick_unit levels unit)
      × ((2_000_000 * round_requirement levels raw unit + 1) * pick_unit levels unit
          ≤ 2_000_000 * (raw + pick_unit levels unit))
unfolding round_requirement
round_requirement_bounds levels raw unit = elim (Bool-cases (same_unit unit piece)) [
  | inl whole ↦
      rw (round_requirement, whole) (ceil_to_bounds raw (scale levels) (scale_positive levels))
  | inr parts ↦
      rw (round_requirement, parts)
        (ceil_to_bounds raw (10_000 * scale (levels - 1))
          (omega (arith, scale_positive (levels - 1))))
]

finish-All : (levels : ℕ) (into : List Accumulator) → All (RoundedUp levels) (finish levels into)
unfolding finish finish_line
finish-All levels into =
    sort-All by_key (RoundedUp levels) _
      (All-map (RoundedUp levels) (finish_line levels) into (every into))
  where
    every :
        (xs : List Accumulator)
        → All (λ (a : Accumulator). RoundedUp levels (finish_line levels a)) xs
    every [] = tt
    every (a ∷ xs) = (round_requirement_bounds levels a.raw_qty a.unit, every xs)

-- Whatever an explosion gives is rounded up, once: of every raw material and sub-assembly, the least
-- number of units is picked that falls short of the exact amount by less than half a millionth of a
-- unit, if at all. A unit is a whole piece, or a thousandth of any other unit.
pub explode_bom-All :
    (max_depth root quantity : ℕ) (graph : BomGraph) {x : BomExplosion}
    → explode_bom max_depth root quantity graph ≡ ok x
    → All (RoundedUp max_depth) x.leaves × All (RoundedUp max_depth) x.sub_assemblies
unfolding explode_bom
explode_bom-All max_depth root quantity graph e =
    let (s, walked, out) = >>=-eq-ok (walk graph max_depth root quantity 0 (root ∷ []) start) _ e in
    let now = ok-injective out in
    rw (← now) (finish-All max_depth s.leaves, finish-All max_depth s.sub_assemblies)
