-- ===== src/Money/Allocate.antt =====
-- `allocate` of src/lib/money.ts: the largest-remainder method. The quotients are exact: a
-- fractional part is its numerator over the sum of the weights.
pub mod Handing
pub mod Total
pub mod Order
pub mod Share
use achichiz_back_end.Prelude.{
  Bool, List, Result, [], get_or, if◌then◌else◌, leb, length, ltb, map, ok, replicate, set, suc,
  true, zero, ℕ, ◌%◌, ◌&&◌, ◌*◌, ◌+◌, ◌-◌, ◌/◌, ◌==◌, ◌>>=◌, ◌∷◌,
}
use achichiz_back_end.Prelude.Sorting.{sort}
use achichiz_back_end.Money.{PaiseError, assert_paise, sum}

-- An element of `order`, before its weight's index is read off.
pub record Entry : Type 0 where
  pub i : ℕ
  pub frac : ℕ

-- `b.frac - a.frac || a.i - b.i`, at most 0.
pub by_frac : Entry → Entry → Bool
by_frac a b = if ltb b.frac a.frac then true else a.frac == b.frac && leb a.i b.i

-- `Math.floor((total * w) / weightTotal)`.
pub floor_share : ℕ → ℕ → ℕ → ℕ
floor_share total weight_total w = total * w / weight_total

-- `exact.map((v, i) => ({ i, frac: v - Math.floor(v) }))`, from index `i` on.
pub entries : ℕ → ℕ → ℕ → List ℕ → List Entry
entries total weight_total i [] = []
entries total weight_total i (w ∷ ws) =
    record { i = i; frac = total * w % weight_total } ∷ entries total weight_total (i + 1) ws

-- `out[idx] = (out[idx] ?? 0) + 1`.
pub bump : List ℕ → ℕ → List ℕ
bump out idx = set out idx (get_or out idx 0 + 1)

-- `for (let k = 0; remainder > 0; k = (k + 1) % order.length, remainder--)`. The index `k` stays
-- below `order.length`, so that the default of `get_or` is not read.
pub hand_out : List ℕ → ℕ → ℕ → List ℕ → List ℕ
unfolding bump
hand_out order k zero out = out
hand_out order k (suc remainder) out =
    hand_out order ((k + 1) % length order) remainder (bump out (get_or order k 0))

-- `for (let i = 0; leftover > 0; i = (i + 1) % out.length, leftover--)`.
pub spread : ℕ → ℕ → List ℕ → List ℕ
unfolding bump
spread i zero out = out
spread i (suc leftover) out = spread ((i + 1) % length out) leftover (bump out i)

-- The branch with nothing to weight by.
pub allocate_evenly : ℕ → ℕ → List ℕ
unfolding spread
allocate_evenly total n = let base = total / n in spread 0 (total - base * n) (replicate n base)

-- The branch with weights; `floors` sum to `total` at most.
pub allocate_weighted : ℕ → List ℕ → List ℕ
unfolding sum floor_share hand_out sort entries by_frac
allocate_weighted total weights =
    let weight_total = sum weights in
    let floors = map (floor_share total weight_total) weights in
    let order = map (λ e. e.i) (sort by_frac (entries total weight_total 0 weights)) in
    hand_out order 0 (total - sum floors) floors

unfoldable pub allocate : ℕ → List ℕ → Result PaiseError (List ℕ)
unfolding assert_paise allocate_evenly allocate_weighted
allocate total weights = do
  _ ← assert_paise total
  let weight_total = sum weights
  if length weights == 0
      then ok []
      else if weight_total == 0
      then ok (allocate_evenly total (length weights))
      else ok (allocate_weighted total weights)
