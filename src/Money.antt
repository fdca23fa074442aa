-- ===== src/Money.antt =====
-- Integer paise: src/lib/money.ts. A `number` that holds an amount is a native number here; an
-- amount that the source can make negative is a ℤ in the module that computes it.
pub mod Allocate
use native.Mathlib.Nat.{div-add-mod, mod-lt}
use achichiz_back_end.Prelude.{
  List, Result, [], arith, err, if◌then◌else◌, leb, ok, ℕ, ◌%◌, ◌*◌, ◌+◌, ◌-◌, ◌/◌, ◌<◌, ◌^◌, ◌∷◌,
  ◌≤◌,
}

-- `TypeError` of `assertPaise`.
pub data PaiseError : Type 0 where
  not_paise : ℕ → PaiseError

-- `Number.MAX_SAFE_INTEGER`.
abbrev pub max_safe_integer : ℕ
max_safe_integer = 2 ^ 53 - 1

-- A native number is an integer, so what is left of `Number.isSafeInteger` is the bound.
unfoldable pub assert_paise : ℕ → Result PaiseError ℕ
assert_paise value = if leb value max_safe_integer then ok value else err (not_paise value)

-- `Math.round(n / d)` for `n >= 0` and `d > 0`: halves go up.
unfoldable pub round_div : ℕ → ℕ → ℕ
round_div n d = (2 * n + d) / (2 * d)

abbrev pub bp_denominator : ℕ
bp_denominator = 10_000

unfoldable pub apply_basis_points : ℕ → ℕ → ℕ
unfolding round_div
apply_basis_points amount bp = round_div (amount * bp) bp_denominator

unfoldable pub sum : List ℕ → ℕ
sum [] = 0
sum (x ∷ xs) = x + sum xs

-- The rounded quotient is the integer nearest to the exact one, and a half goes up.
pub round_div_nearest :
    (n d : ℕ)
    → 0 < d
    → (2 * (round_div n d * d) ≤ 2 * n + d) × (2 * n + d < 2 * (round_div n d * d) + 2 * d)
unfolding round_div
round_div_nearest n d h =
    let rest : (2 * n + d) % (2 * d) < 2 * d = mod-lt (2 * n + d) (omega arith) in
    omega (arith, div-add-mod (2 * n + d) (2 * d))
