-- ===== src/StockCount/Variance.antt =====
-- The variance of a count, src/modules/admin-stock-counts/admin-stock-counts.state.ts.
use achichiz_back_end.Prelude.{
  Bool, List, Option, Result, [], arith, err, if◌then◌else◌, leb, length, none, ok, refl, some, suc,
  sum_by, ℕ, ◌+◌, ◌-◌, ◌==◌, ◌∷◌, ◌≡◌, ◌≤◌,
}
use achichiz_back_end.Prelude.Int.{+ℤ_parts, int_laws, neg_part, pos, pos_part, ℤ, ◌+ℤ◌, ◌-ℤ◌}
use achichiz_back_end.Prelude.Sorting.{sort, sort-length, sort-sum}
use achichiz_back_end.Stock.{
  StockError, StockPosition, assert_sufficient_stock, available_of, geb_ℤ, insufficient_stock,
}

-- The identifier is the number that the UUID's digits write, so `<` on it is the source's.
pub record CountLine : Type 0 where
  pub inventory_level_id : ℕ
  pub system_qty : ℤ
  pub counted_qty : Option ℤ

unfoldable pub variance_of : CountLine → Option ℤ
variance_of line = elim line.counted_qty [
  | some counted ↦ some (counted -ℤ line.system_qty)
  | none ↦ none
]

-- `CountLine & { varianceQty }`.
pub record PostableVariance : Type 0 where
  pub line : CountLine
  pub variance_qty : ℤ

-- `Math.abs`.
abbrev pub abs : ℤ → ℕ
abs v = pos_part v + neg_part v

-- The two filters, on one line: it was counted, and it differs.
unfoldable pub keep_varying : CountLine → Option ℤ → List PostableVariance → List PostableVariance
keep_varying l none rest = rest
keep_varying l (some v) rest =
    if abs v == 0 then rest else (record { line = l; variance_qty = v }) ∷ rest

unfoldable pub varying : List CountLine → List PostableVariance
unfolding variance_of keep_varying
varying [] = []
varying (l ∷ ls) = keep_varying l (variance_of l) (varying ls)

abbrev pub by_level : PostableVariance → PostableVariance → Bool
by_level a b = leb a.line.inventory_level_id b.line.inventory_level_id

unfoldable pub postable_variances : List CountLine → List PostableVariance
unfolding varying
postable_variances lines = sort by_level (varying lines)

-- What the loop of `countTotals` counts; two further totals are computed from it.
pub record CountTotals : Type 0 where
  pub items_counted : ℕ
  pub items_with_variance : ℕ
  pub net_variance_qty : ℤ
  pub abs_variance_qty : ℕ

-- The body of the loop.
unfoldable pub tally : CountTotals → Option ℤ → CountTotals
tally t none = t
tally t (some v) = record {
  items_counted = t.items_counted + 1;
  items_with_variance = if abs v == 0 then t.items_with_variance else t.items_with_variance + 1;
  net_variance_qty = t.net_variance_qty +ℤ v;
  abs_variance_qty = t.abs_variance_qty + abs v;
}

unfoldable pub tally_all : CountTotals → List CountLine → CountTotals
unfolding tally variance_of
tally_all t [] = t
tally_all t (l ∷ ls) = tally_all (tally t (variance_of l)) ls

abbrev pub no_totals : CountTotals
no_totals = record {
  items_counted = 0;
  items_with_variance = 0;
  net_variance_qty = pos 0;
  abs_variance_qty = 0;
}

unfoldable pub count_totals : List CountLine → CountTotals
unfolding tally_all
count_totals lines = tally_all no_totals lines

-- `itemsUncounted`.
unfoldable pub items_uncounted : List CountLine → ℕ
unfolding count_totals
items_uncounted lines = length lines - (count_totals lines).items_counted

unfoldable pub assert_variance_applies : StockPosition → ℤ → Result StockError (Unit {0})
unfolding available_of ◌+ℤ◌
assert_variance_applies position variance_qty =
    if geb_ℤ variance_qty (pos 0)
    then ok tt
    else if geb_ℤ (available_of position +ℤ variance_qty) (pos 0)
    then ok tt
    else err (insufficient_stock position (available_of position) variance_qty)

-- The guard of a count and the guard of any other withdrawal decide alike.
pub assert_variance_applies-assert_sufficient_stock :
    (position : StockPosition) (delta : ℤ)
    → assert_variance_applies position delta ≡ assert_sufficient_stock position delta
unfolding assert_variance_applies assert_sufficient_stock
assert_variance_applies-assert_sufficient_stock position delta = refl

-- What the totals u add to the totals t, where vs are the lines that vary of n lines.
abbrev Adds : CountTotals → ℕ → List PostableVariance → CountTotals → Type 0
Adds t n vs u =
    (u.items_with_variance ≡ t.items_with_variance + length vs)
    × (u.abs_variance_qty ≡ t.abs_variance_qty + sum_by (λ v. abs v.variance_qty) vs)
    × (pos_part u.net_variance_qty
          + neg_part t.net_variance_qty
          + sum_by (λ v. neg_part v.variance_qty) vs
        ≡ neg_part u.net_variance_qty
          + pos_part t.net_variance_qty
          + sum_by (λ v. pos_part v.variance_qty) vs)
    × (t.items_counted ≤ u.items_counted)
    × (u.items_counted ≤ t.items_counted + n)

tally-keep_varying :
    (t u : CountTotals) (l : CountLine) (o : Option ℤ) (n : ℕ) (vs : List PostableVariance)
    → Adds (tally t o) n vs u
    → Adds t (suc n) (keep_varying l o vs) u
unfolding tally keep_varying
tally-keep_varying t u l none n vs h = ground arith
tally-keep_varying t u l (some v) n vs h = let parts = +ℤ_parts t.net_variance_qty v in ground arith

tally_all-varying :
    (t : CountTotals) (lines : List CountLine)
    → Adds t (length lines) (varying lines) (tally_all t lines)
unfolding tally_all varying
tally_all-varying t [] = ground arith
tally_all-varying t (l ∷ ls) =
    tally-keep_varying t (tally_all (tally t (variance_of l)) ls) l (variance_of l) (length ls)
      (varying ls) (tally_all-varying (tally t (variance_of l)) ls)

-- The totals that a reviewer approves are those of the movements that the approval posts: as many
-- lines vary as there are movements, the absolute variance is the sum of what they move either way,
-- the net variance is what they add less what they take, and counted and uncounted lines make up the
-- scope.
pub count_totals-postable_variances :
    (lines : List CountLine)
    → let t = count_totals lines in
      let vs = postable_variances lines in
      (t.items_with_variance ≡ length vs)
      × (t.abs_variance_qty ≡ sum_by (λ v. abs v.variance_qty) vs)
      × (t.net_variance_qty
          ≡ pos (sum_by (λ v. pos_part v.variance_qty) vs)
            -ℤ pos (sum_by (λ v. neg_part v.variance_qty) vs))
      × (t.items_counted + items_uncounted lines ≡ length lines)
unfolding count_totals postable_variances items_uncounted
count_totals-postable_variances lines =
    let (counted, total, net, _, scope) = tally_all-varying no_totals lines in
    let vs = varying lines in
    (
      omega (arith, counted, sort-length by_level vs),
      omega (arith, total, sort-sum by_level (λ v. abs v.variance_qty) vs),
      omega (
        int_laws,
        net,
        sort-sum by_level (λ v. pos_part v.variance_qty) vs,
        sort-sum by_level (λ v. neg_part v.variance_qty) vs,
      ),
      omega (arith, scope),
    )
