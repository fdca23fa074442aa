-- ===== src/Pricing/Coupon/Cover.antt =====
-- The lines that a coupon names can carry its discount: what they are worth covers the amount.
use native.Mathlib.Nat.{mul-le-mul, le_refl}
use achichiz_back_end.Prelude.{
  All, All-implies, Bool, Bool-cases, List, [], arith, false, filter, find?, if◌then◌else◌, inl,
  inr, map, max, not, refl, replicate, some, suc, sum_by, take, true, zero, ℕ, ◌*◌, ◌++◌, ◌+◌, ◌/◌,
  ◌<◌, ◌==◌, ◌∷◌, ◌≡◌, ◌≤◌,
}
use achichiz_back_end.Prelude.Sorting.{sort, sort-sum}
use achichiz_back_end.Pricing.{CouponRow, PricedLineInput, includes, line_value, or_else}
use achichiz_back_end.Pricing.Coupon.{
  PricedUnit, by_price, distinct_ids, free_units, set_size, units_of,
}

-- The value of a line if its id is among `ids`, else 0: its weight in the allocation.
abbrev pub line_weight : List ℕ → PricedLineInput → ℕ
line_weight ids l = if includes ids l.line_id then line_value l else 0

abbrev pub Covers : List ℕ → List PricedLineInput → ℕ → Type 0
Covers ids lines amount = amount ≤ sum_by (line_weight ids) lines

includes-cons : (y x : ℕ) (ids : List ℕ) → includes ids x ≡ true → includes (y ∷ ids) x ≡ true
unfolding includes
includes-cons y x ids h = ground arith

includes_head : (x : ℕ) (ids : List ℕ) → includes (x ∷ ids) x ≡ true
unfolding includes
includes_head x ids = ground arith

-- Every element's key is among the keys.
All-includes-map {ℓ} :
    {A : Type ℓ} (key : A → ℕ) (xs : List A) → All (λ x. includes (map key xs) (key x) ≡ true) xs
All-includes-map key [] = tt
All-includes-map key (x ∷ xs) = (
  includes_head (key x) (map key xs),
  All-implies _ _ xs (λ y h. includes-cons (key x) (key y) (map key xs) h)
      (All-includes-map key xs),
)

includes-filter-ne :
    (x y : ℕ) (ids : List ℕ)
    → (x == y) ≡ false
    → includes (filter (λ z. not (z == x)) ids) y ≡ includes ids y
unfolding includes
includes-filter-ne x y [] h = refl
includes-filter-ne x y (z ∷ ids) h = ground (arith, includes-filter-ne x y ids h)

includes-distinct_ids :
    (ids : List ℕ) (y : ℕ) → includes ids y ≡ true → includes (distinct_ids ids) y ≡ true
unfolding includes distinct_ids
includes-distinct_ids [] y h = h
includes-distinct_ids (x ∷ ids) y h =
    ground (arith, includes-filter-ne x y (distinct_ids ids), includes-distinct_ids ids y)

-- The eligible lines are covered by any ids that name them all.
pub filter-covered :
    (p : PricedLineInput → Bool) (ids : List ℕ) (lines : List PricedLineInput)
    → All (λ l. includes ids l.line_id ≡ true) (filter p lines)
    → Covers ids lines (sum_by line_value (filter p lines))
filter-covered p ids [] h = omega arith
filter-covered p ids (l ∷ ls) h = elim (Bool-cases (p l)) [
  | inl e ↦ let named = rw e at h in rw e (ground (arith, filter-covered p ids ls named.1))
  | inr e ↦ rw e (ground (arith, filter-covered p ids ls (rw e at h)))
]

pub eligible_ids-cover :
    (p : PricedLineInput → Bool) (lines : List PricedLineInput)
    → let eligible = filter p lines in
      Covers (map (λ l. l.line_id) eligible) lines (sum_by line_value eligible)
eligible_ids-cover p lines =
    filter-covered p _ lines (All-includes-map (λ l. l.line_id) (filter p lines))

-- A sum over a prefix, and over what a filter keeps, is at most the whole sum.
sum_by-take-le {ℓ} :
    {A : Type ℓ} (f : A → ℕ) (n : ℕ) (xs : List A) → sum_by f (take n xs) ≤ sum_by f xs
sum_by-take-le f zero xs = omega arith
sum_by-take-le f (suc n) [] = omega arith
sum_by-take-le f (suc n) (x ∷ xs) = omega (arith, sum_by-take-le f n xs)

sum_by-filter-le {ℓ} :
    {A : Type ℓ} (f : A → ℕ) (p : A → Bool) (xs : List A) → sum_by f (filter p xs) ≤ sum_by f xs
sum_by-filter-le f p [] = omega arith
sum_by-filter-le f p (x ∷ xs) = ground (arith, sum_by-filter-le f p xs)

sum_by-append {ℓ} :
    {A : Type ℓ} (f : A → ℕ) (xs ys : List A) → sum_by f (xs ++ ys) ≡ sum_by f xs + sum_by f ys
sum_by-append f [] ys = omega arith
sum_by-append f (x ∷ xs) ys = omega (arith, sum_by-append f xs ys)

sum_by-replicate {ℓ} : {A : Type ℓ} (f : A → ℕ) (n : ℕ) (a : A) → sum_by f (replicate n a) ≡ n * f a
sum_by-replicate f zero a = omega arith
sum_by-replicate f (suc n) a = omega (arith, sum_by-replicate f n a)

-- The price of a unit if its line is named, else 0.
abbrev unit_weight : List ℕ → PricedUnit → ℕ
unit_weight ids u = if includes ids u.line_id then u.price else 0

units_of-sum :
    (ids : List ℕ) (lines : List PricedLineInput)
    → sum_by (unit_weight ids) (units_of lines) ≡ sum_by (line_weight ids) lines
unfolding units_of
units_of-sum ids [] = refl
units_of-sum ids (l ∷ ls) =
    let u : PricedUnit = record {
      line_id = l.line_id;
      price = l.unit_price_paise + l.add_ons_paise;
    } in
    ground (
      arith,
      sum_by-append (unit_weight ids) (replicate l.quantity u) (units_of ls),
      sum_by-replicate (unit_weight ids) l.quantity u,
      units_of-sum ids ls,
    )

named-sum :
    (ids : List ℕ) (us : List PricedUnit)
    → All (λ u. includes ids u.line_id ≡ true) us
    → sum_by (λ u. u.price) us ≡ sum_by (unit_weight ids) us
named-sum ids [] h = refl
named-sum ids (u ∷ us) (h, hs) = ground (arith, named-sum ids us hs)

-- The free units of a bogo are covered by the lines that they come from.
pub free_units-cover :
    (coupon : CouponRow) (p : PricedLineInput → Bool) (lines : List PricedLineInput)
    → let free = free_units coupon (filter p lines) in
      Covers (distinct_ids (map (λ u. u.line_id) free)) lines (sum_by (λ u. u.price) free)
unfolding free_units
free_units-cover coupon p lines =
    let eligible = filter p lines in
    let units = units_of eligible in
    let given : ℕ =
      sum_by (λ (l : PricedLineInput). l.quantity) eligible
      / set_size coupon
      * max 1 (or_else coupon.bogo_get_qty 1) in
    let free = take given (sort by_price units) in
    let ids = distinct_ids (map (λ (u : PricedUnit). u.line_id) free) in
    omega (
      arith,
      named-sum ids free (
          All-implies _ _ free (λ u h. includes-distinct_ids _ u.line_id h)
            (All-includes-map (λ (u : PricedUnit). u.line_id) free)),
      sum_by-take-le (unit_weight ids) given (sort by_price units),
      sort-sum by_price (unit_weight ids) units,
      units_of-sum ids eligible,
      sum_by-filter-le (line_weight ids) p lines,
    )

-- A gift line that the cart holds covers the price of one unit.
pub gift-cover :
    (p : PricedLineInput → Bool) (lines : List PricedLineInput) (gift : PricedLineInput)
    → All (λ l. 0 < l.quantity) lines
    → find? p lines ≡ some gift
    → Covers (gift.line_id ∷ []) lines (gift.unit_price_paise + gift.add_ons_paise)
gift-cover p [] gift q e = cc
gift-cover p (l ∷ ls) gift (q, qs) e = elim (Bool-cases (p l)) [
  | inl t ↦
      let same : l ≡ gift = ground arith in
      let one : 1 * (gift.unit_price_paise + gift.add_ons_paise) ≤ line_value gift =
        mul-le-mul (rw same at q) (le_refl _) in
      rw same (ground (arith, includes_head gift.line_id [], one))
  | inr f ↦
      let later : find? p ls ≡ some gift = ground arith in
      ground (arith, gift-cover p ls gift qs later)
]
