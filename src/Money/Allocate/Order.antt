-- ===== src/Money/Allocate/Order.antt =====
-- The order in which `allocate` hands out what is left: by the fractional part, largest first.
use native.Mathlib.Nat.{mod-lt}
use achichiz_back_end.Prelude.{
  All, All-implies, Bool-cases, Distinct, List, [], arith, false, get_or, inl, inr, length, ltb,
  refl, suc, sum_by, take, true, zero, ℕ, ◌%◌, ◌*◌, ◌+◌, ◌-◌, ◌<◌, ◌∷◌, ◌≡◌, ◌≢◌, ◌≤◌,
}
use achichiz_back_end.Prelude.Sorting.{IsSorted, sort, sort-IsSorted}
use achichiz_back_end.Money.Allocate.{Entry, by_frac, entries}

by_frac_total : (a b : Entry) → by_frac a b ≡ false → by_frac b a ≡ true
unfolding by_frac
by_frac_total a b h = ground arith

by_frac_trans : (a b c : Entry) → by_frac a b ≡ true → by_frac b c ≡ true → by_frac a c ≡ true
unfolding by_frac
by_frac_trans a b c h k = ground arith

by_frac-le : (a b : Entry) → by_frac a b ≡ true → b.frac ≤ a.frac
unfolding by_frac
by_frac-le a b h = ground arith

pub entries-IsSorted : (es : List Entry) → IsSorted by_frac (sort by_frac es)
entries-IsSorted = sort-IsSorted by_frac by_frac_total by_frac_trans

sum_frac-zero :
    (e : Entry) (es : List Entry)
    → e.frac ≡ 0
    → All (λ f. by_frac e f ≡ true) es
    → sum_by (λ f. f.frac) es ≡ 0
sum_frac-zero e [] z h = refl
sum_frac-zero e (f ∷ es) z (h, hs) = omega (arith, by_frac-le e f h, sum_frac-zero e es z hs)

-- If the fractional parts sum to `r` wholes, the first `r` of them are not zero.
pub first-positive :
    (weight_total r : ℕ) (es : List Entry)
    → IsSorted by_frac es
    → All (λ e. e.frac < weight_total) es
    → r * weight_total ≤ sum_by (λ e. e.frac) es
    → All (λ e. 0 < e.frac) (take r es)
first-positive weight_total zero es s small enough = tt
first-positive weight_total (suc r) [] s small enough = tt
first-positive weight_total (suc r) (e ∷ es) (h, s) (small, smalls) enough =
    (ground (arith, positive), first-positive weight_total r es s smalls (omega arith))
  where
    positive : 0 < e.frac
    positive = elim (Bool-cases (ltb 0 e.frac)) [
      | inl p ↦ ground arith
      | inr p ↦ absurd (ground (arith, sum_frac-zero e es (ground arith) h))
    ]

pub sum_frac-le :
    (weight_total : ℕ) (es : List Entry)
    → All (λ e. e.frac < weight_total) es
    → sum_by (λ e. e.frac) es ≤ length es * weight_total
sum_frac-le weight_total [] h = omega arith
sum_frac-le weight_total (e ∷ es) (h, hs) = omega (arith, sum_frac-le weight_total es hs)

pub entries-small :
    (total weight_total i : ℕ) (weights : List ℕ)
    → 0 < weight_total
    → All (λ e. e.frac < weight_total) (entries total weight_total i weights)
unfolding entries
entries-small total weight_total i [] h = tt
entries-small total weight_total i (w ∷ ws) h =
    (mod-lt (total * w) h, entries-small total weight_total (i + 1) ws h)

entries-after :
    (total weight_total i j : ℕ) (weights : List ℕ)
    → j < i
    → All (λ e. j ≢ e.i) (entries total weight_total i weights)
unfolding entries
entries-after total weight_total i j [] h = tt
entries-after total weight_total i j (w ∷ ws) h =
    (omega arith, entries-after total weight_total (i + 1) j ws (omega arith))

pub entries-Distinct :
    (total weight_total i : ℕ) (weights : List ℕ)
    → Distinct (λ e. e.i) (entries total weight_total i weights)
unfolding entries
entries-Distinct total weight_total i [] = tt
entries-Distinct total weight_total i (w ∷ ws) = (
  entries-after total weight_total (i + 1) i ws (omega arith),
  entries-Distinct total weight_total (i + 1) ws,
)

-- An entry holds the fractional part of the weight that its index names.
abbrev FracAt : ℕ → ℕ → ℕ → List ℕ → Entry → Type 0
FracAt total weight_total i weights e =
    (i ≤ e.i) × (e.frac ≡ total * get_or weights (e.i - i) 0 % weight_total)

FracAt-cons :
    (total weight_total i w : ℕ) (ws : List ℕ) (e : Entry)
    → FracAt total weight_total (i + 1) ws e
    → FracAt total weight_total i (w ∷ ws) e
FracAt-cons total weight_total i w ws e (h, f) =
    let step : e.i - i ≡ suc (e.i - (i + 1)) = omega arith in (omega arith, rw step f)

entries-FracAt :
    (total weight_total i : ℕ) (weights : List ℕ)
    → All (FracAt total weight_total i weights) (entries total weight_total i weights)
unfolding entries
entries-FracAt total weight_total i [] = tt
entries-FracAt total weight_total i (w ∷ ws) =
    let here : i - i ≡ 0 = omega arith in
    (
      (omega arith, rw here),
      All-implies _ _ (entries total weight_total (i + 1) ws)
          (FracAt-cons total weight_total i w ws) (entries-FracAt total weight_total (i + 1) ws),
    )

pub entries-frac :
    (total weight_total : ℕ) (weights : List ℕ)
    → All
        (λ e. e.frac ≡ total * get_or weights e.i 0 % weight_total)
        (entries total weight_total 0 weights)
entries-frac total weight_total weights =
    All-implies _ _ (entries total weight_total 0 weights)
      (λ e h. let whole : e.i - 0 ≡ e.i = omega arith in rw whole at h.1)
      (entries-FracAt total weight_total 0 weights)
