-- ===== src/Money/Allocate/Handing.antt =====
-- The loops of `allocate` that hand out what the rounding left over, one paisa at a time.
use native.Mathlib.Nat.{mod-lt}
use achichiz_back_end.Prelude.{
  All, List, [], arith, get_or, length, length-set, suc, zero, ℕ, ◌%◌, ◌+◌, ◌<◌, ◌∷◌, ◌≡◌,
}
use achichiz_back_end.Money.{sum}
use achichiz_back_end.Money.Allocate.{bump, hand_out, spread}

pub bump-sum : (out : List ℕ) (idx : ℕ) → idx < length out → sum (bump out idx) ≡ sum out + 1
unfolding bump sum
bump-sum [] idx h = elim h [ ]
bump-sum (x ∷ xs) zero h = omega arith
bump-sum (x ∷ xs) (suc idx) h = omega (arith, bump-sum xs idx (omega arith))

pub bump-length : (out : List ℕ) (idx : ℕ) → length (bump out idx) ≡ length out
unfolding bump
bump-length out idx = length-set out idx (get_or out idx 0 + 1)

get_or-lt :
    (order : List ℕ) (n k : ℕ) → All (λ i. i < n) order → k < length order → get_or order k 0 < n
get_or-lt [] n k h lt = elim lt [ ]
get_or-lt (i ∷ is) n zero (h, hs) lt = h
get_or-lt (i ∷ is) n (suc k) (h, hs) lt = get_or-lt is n k hs (omega arith)

-- The loop adds exactly what was left over, and keeps the number of parts.
pub hand_out-sum :
    (order : List ℕ) (k remainder : ℕ) (out : List ℕ)
    → All (λ i. i < length out) order
    → k < length order
    → (sum (hand_out order k remainder out) ≡ sum out + remainder)
      × (length (hand_out order k remainder out) ≡ length out)
unfolding hand_out
hand_out-sum order k zero out h lt = omega arith
hand_out-sum order k (suc remainder) out h lt =
    let idx = get_or order k 0 in
    let same = bump-length out idx in
    omega (
      arith,
      bump-sum out idx (get_or-lt order (length out) k h lt),
      same,
      hand_out-sum order ((k + 1) % length order) remainder (bump out idx) (rw same h)
          (mod-lt (k + 1) (omega arith)),
    )

pub spread-sum :
    (i leftover : ℕ) (out : List ℕ)
    → i < length out
    → (sum (spread i leftover out) ≡ sum out + leftover)
      × (length (spread i leftover out) ≡ length out)
unfolding spread
spread-sum i zero out lt = omega arith
spread-sum i (suc leftover) out lt =
    let same = bump-length out i in
    omega (
      arith,
      bump-sum out i lt,
      same,
      spread-sum ((i + 1) % length out) leftover (bump out i)
          (rw same (mod-lt (i + 1) (omega arith))),
    )
