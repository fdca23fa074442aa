-- ===== src/Bundles.antt =====
-- The availability of a bundle, src/modules/admin-bundles/admin-bundles.availability.ts. Quantities
-- are integers, so `Math.trunc` changes none; `Infinity` is `none`.
pub mod Savings
use native.Mathlib.Nat.{le-div_iff_mul-le}
use achichiz_back_end.Prelude.{
  All, Bool, List, Option, [], arith, false, filter, if◌then◌else◌, leb, leb→le, length, le→leb,
  map, max, min, none, some, true, ℕ, ◌*◌, ◌/◌, ◌<◌, ◌==◌, ◌↔◌, ◌∷◌, ◌≡◌, ◌≤◌,
}
use achichiz_back_end.Prelude.Int.{pos, pos_part, ℤ, ◌*ℤ◌, ◌-ℤ◌}

pub record BundleComponentStock : Type 0 where
  pub variant_id : ℕ
  pub required_qty : ℤ
  pub available_qty : ℤ

pub record BundleComponentAvailability : Type 0 where
  pub variant_id : ℕ
  pub required : ℤ
  pub available : ℤ
  pub shortage : ℕ
  pub fulfillable_qty : ℕ
  pub is_limiting : Bool

pub record BundleAvailability : Type 0 where
  pub requested_qty : ℕ
  pub fulfillable_qty : ℕ
  pub can_fulfil : Bool
  pub components : List BundleComponentAvailability
  pub limiting_variant_ids : List ℕ

-- `Math.max(0, x)` is the positive part.
unfoldable pub component_fulfillable_qty : BundleComponentStock → Option ℕ
component_fulfillable_qty c =
    if pos_part c.required_qty == 0
    then none
    else some (pos_part c.available_qty / pos_part c.required_qty)

-- The quantities that are finite.
abbrev pub finite : List (Option ℕ) → List ℕ
finite [] = []
finite (none ∷ os) = finite os
finite (some n ∷ os) = n ∷ finite os

-- `finite.length === 0 ? 0 : Math.min(...finite)`.
unfoldable pub least : List ℕ → ℕ
least [] = 0
least (n ∷ []) = n
least (n ∷ m ∷ ns) = min n (least (m ∷ ns))

unfoldable pub component_row : ℕ → ℕ → BundleComponentStock → BundleComponentAvailability
unfolding component_fulfillable_qty
component_row wanted fulfillable c = record {
  variant_id = c.variant_id;
  required = c.required_qty;
  available = c.available_qty;
  shortage = pos_part (c.required_qty *ℤ pos wanted -ℤ c.available_qty);
  fulfillable_qty = elim (component_fulfillable_qty c) [ some n ↦ n | none ↦ 0 ];
  is_limiting = elim (component_fulfillable_qty c) [ some n ↦ n == fulfillable | none ↦ false ];
}

unfoldable pub bundle_fulfillable_qty : List BundleComponentStock → ℕ
unfolding component_fulfillable_qty least
bundle_fulfillable_qty components = least (finite (map component_fulfillable_qty components))

unfoldable pub bundle_availability : List BundleComponentStock → ℤ → BundleAvailability
unfolding bundle_fulfillable_qty component_row
bundle_availability [] requested_qty = record {
  requested_qty = max 1 (pos_part requested_qty);
  fulfillable_qty = 0;
  can_fulfil = false;
  components = [];
  limiting_variant_ids = [];
}
bundle_availability (c ∷ cs) requested_qty =
    let wanted = max 1 (pos_part requested_qty) in
    let fulfillable = bundle_fulfillable_qty (c ∷ cs) in
    let rows = map (component_row wanted fulfillable) (c ∷ cs) in
    record {
      requested_qty = wanted;
      fulfillable_qty = fulfillable;
      can_fulfil = leb wanted fulfillable;
      components = rows;
      limiting_variant_ids = map (λ r. r.variant_id) (filter (λ r. r.is_limiting) rows);
    }

-- What n bundles take of a component is there.
abbrev pub Covers : ℕ → BundleComponentStock → Type 0
Covers n c = n * pos_part c.required_qty ≤ pos_part c.available_qty

abbrev pub IsRequired : BundleComponentStock → Type 0
IsRequired c = 0 < pos_part c.required_qty

least_iff : (n : ℕ) (ks : List ℕ) → 0 < length ks → (n ≤ least ks) ↔ All (λ k. n ≤ k) ks
unfolding least
least_iff n [] h = elim h [ ]
least_iff n (m ∷ []) h = ground arith
least_iff n (m ∷ k ∷ ks) h = ground (arith, least_iff n (k ∷ ks) (omega arith))

finite-Covers :
    (n : ℕ) (components : List BundleComponentStock)
    → All IsRequired components
    → (length (finite (map component_fulfillable_qty components)) ≡ length components)
      × (All (λ k. n ≤ k) (finite (map component_fulfillable_qty components))
          ↔ All (Covers n) components)
unfolding component_fulfillable_qty
finite-Covers n [] h = ground arith
finite-Covers n (c ∷ cs) (h, hs) =
    let ih = finite-Covers n cs hs in
    let div = le-div_iff_mul-le {x = n} {y = pos_part c.available_qty} h in ground (arith, ih, div)

-- A bundle whose components each take at least one unit can be made as often as asked for, exactly
-- when it has components and that often takes no more of any of them than there is.
pub bundle_availability_iff :
    (components : List BundleComponentStock) (n : ℤ)
    → All IsRequired components
    → let answer = bundle_availability components n in
      (answer.can_fulfil ≡ true)
      ↔ ((0 < length components) × All (Covers answer.requested_qty) components)
unfolding bundle_availability bundle_fulfillable_qty
bundle_availability_iff [] n h = ground arith
bundle_availability_iff (c ∷ cs) n h =
    let wanted = max 1 (pos_part n) in
    let (same, covers) = finite-Covers wanted (c ∷ cs) h in
    let least =
      least_iff wanted (finite (map component_fulfillable_qty (c ∷ cs))) (omega (arith, same)) in
    (
      (λ e. (omega arith, covers.0 (least.0 (leb→le _ _ e)))),
      (λ (_, all). le→leb _ _ (least.1 (covers.1 all))),
    )
