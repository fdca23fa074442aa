-- ===== src/Bom/Totals.antt =====
-- The amounts of an explosion against the routes of the graph.
use achichiz_back_end.Prelude.{
  ==_iff, >>=-eq-ok, Bool, Bool-cases, List, Result, [], ap, arith, false, if◌then◌else◌, inl, inr,
  leb, length, map, not, ok, ok-injective, refl, require-eq-ok, suc, sum_by, sym, true, zero, ℕ,
  ◌*◌, ◌++◌, ◌+◌, ◌-◌, ◌==◌, ◌∙◌, ◌∷◌, ◌≡◌,
}
use achichiz_back_end.Bom.{
  Accumulator, BomComponent, BomError, BomExplosion, BomGraph, ExplodedLine, Walk, accumulate,
  by_key, explode_bom, finish, finish_line, on_path, is_manufactured, max_bom_nodes, same_unit,
  scale, start, take_component, visit, visit_all, walk, with_waste,
}
use native.Mathlib.Nat.{mul_comm, mul_assoc}
use achichiz_back_end.Prelude.Sorting.{sort-sum}

-- What the entries hold of a material.
abbrev pub entry_at : ℕ → Accumulator → ℕ
entry_at m a = if a.key == m then a.raw_qty else 0

abbrev pub line_at : ℕ → ExplodedLine → ℕ
line_at m l = if l.key == m then l.raw_qty else 0

-- The ways down from a key to a raw material, each as the lines that it goes through.
unfoldable pub routes_via :
    BomGraph → (ℕ → List (List BomComponent)) → ℕ → List BomComponent → List (List BomComponent)
routes_via graph below m [] = []
routes_via graph below m (line ∷ lines) =
    (if is_manufactured graph line.key
      then map (λ r. line ∷ r) (below line.key)
      else if line.key == m
      then (line ∷ []) ∷ []
      else [])
    ++ routes_via graph below m lines

unfoldable pub routes_to : BomGraph → ℕ → ℕ → ℕ → List (List BomComponent)
routes_to graph m zero key = []
routes_to graph m (suc levels) key = routes_via graph (routes_to graph m levels) m (graph key)

-- What one unit at the top needs along a route: the product of its lines, each with its waste.
unfoldable pub route_factor : List BomComponent → ℕ
route_factor [] = 1
route_factor (l ∷ r) = with_waste l.quantity l.waste_pct * route_factor r

-- As a number of units of 1 / 10 ^ (7 * levels).
unfoldable pub route_amount : ℕ → ℕ → List BomComponent → ℕ
route_amount levels multiplier r = multiplier * route_factor r * scale (levels - length r)

sum_by-append :
    (f : List BomComponent → ℕ) (xs ys : List (List BomComponent))
    → sum_by f (xs ++ ys) ≡ sum_by f xs + sum_by f ys
sum_by-append f [] ys = omega arith
sum_by-append f (x ∷ xs) ys = omega (arith, sum_by-append f xs ys)

-- A step down moves the line's factor into the multiplier.
route_amount-cons :
    (levels multiplier : ℕ) (l : BomComponent) (r : List BomComponent)
    → route_amount (suc levels) multiplier (l ∷ r)
      ≡ route_amount levels (with_waste l.quantity l.waste_pct * multiplier) r
unfolding route_amount route_factor
route_amount-cons levels multiplier l r =
    let w = with_waste l.quantity l.waste_pct in
    let less : suc levels - suc (length r) ≡ levels - length r = omega arith in
    rw less (
      ap (λ (k : ℕ). k * scale (levels - length r))
        (sym (mul_assoc multiplier w (route_factor r))
          ∙ ap (λ (k : ℕ). k * route_factor r) (mul_comm multiplier w)))

routes_below :
    (levels multiplier : ℕ) (l : BomComponent) (rs : List (List BomComponent))
    → sum_by (route_amount (suc levels) multiplier) (map (λ r. l ∷ r) rs)
      ≡ sum_by (route_amount levels (with_waste l.quantity l.waste_pct * multiplier)) rs
routes_below levels multiplier l [] = refl
routes_below levels multiplier l (r ∷ rs) =
    omega (arith, routes_below levels multiplier l rs, route_amount-cons levels multiplier l r)

route_here :
    (levels multiplier : ℕ) (l : BomComponent)
    → route_amount (suc levels) multiplier (l ∷ [])
      ≡ with_waste l.quantity l.waste_pct * multiplier * scale levels
unfolding route_amount route_factor
route_here levels multiplier l =
    let w = with_waste l.quantity l.waste_pct * multiplier in
    let whole : levels - 0 ≡ levels = omega arith in
    let once : w * 1 ≡ w = omega arith in
    route_amount-cons levels multiplier l [] ∙ rw (once, whole) refl

pub accumulate-at :
    (m : ℕ) (into : List Accumulator) (line : BomComponent) (qty depth : ℕ) (path : List ℕ)
    {out : List Accumulator}
    → accumulate into line qty depth path ≡ ok out
    → sum_by (entry_at m) out ≡ sum_by (entry_at m) into + (if line.key == m then qty else 0)
unfolding accumulate
accumulate-at m [] line qty depth path e = rw (← ok-injective e) (omega arith)
accumulate-at m (a ∷ into) line qty depth path e = elim (Bool-cases (a.key == line.key)) [
  | inl same ↦
      let (units, out) =
        require-eq-ok (same_unit a.unit line.unit) _ _ (rw (accumulate, same) at e) in
      let now = ok-injective out in rw (← now) (ground (arith, (==_iff a.key line.key).0 same))
  | inr other ↦
      let (rest, step, out) =
        >>=-eq-ok (accumulate into line qty depth path) _ (rw (accumulate, other) at e) in
      let ih = accumulate-at m into line qty depth path step in
      let now = ok-injective out in rw (← now) (omega (arith, ih))
]

-- What the walk of a key adds to the leaves, for a walk with `levels` below.
abbrev pub AddsRoutes :
    BomGraph → ℕ → ℕ → (ℕ → ℕ → ℕ → List ℕ → Walk → Result BomError Walk) → Type 0
AddsRoutes graph m levels below =
    (key multiplier depth : ℕ) (path : List ℕ) (s t : Walk)
    → below key multiplier depth path s ≡ ok t
    → sum_by (entry_at m) t.leaves
      ≡ sum_by (entry_at m) s.leaves
        + sum_by (route_amount levels multiplier) (routes_to graph m levels key)

-- The routes that one line begins.
abbrev pub routes_from :
    BomGraph → (ℕ → List (List BomComponent)) → ℕ → BomComponent → List (List BomComponent)
routes_from graph below m line =
    if is_manufactured graph line.key
    then map (λ r. line ∷ r) (below line.key)
    else if line.key == m
    then (line ∷ []) ∷ []
    else []

module _ (graph : BomGraph) (m levels : ℕ)
    (below : ℕ → ℕ → ℕ → List ℕ → Walk → Result BomError Walk)
    (ih : AddsRoutes graph m levels below) where
  take_component-at :
      (made : Bool) (multiplier depth : ℕ) (path : List ℕ) (line : BomComponent) (s t : Walk)
      → take_component made below levels
          (with_waste line.quantity line.waste_pct * multiplier)
          depth
          path
          line
          s
        ≡ ok t
      → is_manufactured graph line.key ≡ made
      → sum_by (entry_at m) t.leaves
        ≡ sum_by (entry_at m) s.leaves
          + sum_by
              (route_amount (suc levels) multiplier)
              (routes_from graph (routes_to graph m levels) m line)
  unfolding take_component
  take_component-at true multiplier depth path line s t e made =
      let effective = with_waste line.quantity line.waste_pct * multiplier in
      let (into, kept, e1) =
        >>=-eq-ok (accumulate s.sub_assemblies line (effective * scale levels) depth path) _ e in
      let total = ih line.key effective depth path _ t e1 in
      rw made (
        total
        ∙ ap (λ (k : ℕ). sum_by (entry_at m) s.leaves + k)
            (sym (routes_below levels multiplier line (routes_to graph m levels line.key))))
  take_component-at false multiplier depth path line s t e made =
      let effective = with_waste line.quantity line.waste_pct * multiplier in
      let (into, kept, e1) =
        >>=-eq-ok (accumulate s.leaves line (effective * scale levels) depth path) _ e in
      let total = accumulate-at m s.leaves line (effective * scale levels) depth path kept in
      let here = route_here levels multiplier line in
      let now = ok-injective e1 in rw (made, ← now) (ground (arith, total, here))

  visit_all-at :
      (multiplier depth : ℕ) (path : List ℕ) (lines : List BomComponent) (s t : Walk)
      → visit_all graph below levels multiplier depth path lines s ≡ ok t
      → sum_by (entry_at m) t.leaves
        ≡ sum_by (entry_at m) s.leaves
          + sum_by
              (route_amount (suc levels) multiplier)
              (routes_via graph (routes_to graph m levels) m lines)
  unfolding visit_all visit routes_via
  visit_all-at multiplier depth path [] s t e = rw (← ok-injective e) (omega arith)
  visit_all-at multiplier depth path (line ∷ lines) s t e =
      let (u, first, rest) =
        >>=-eq-ok (visit graph below levels multiplier depth path line s) _ e in
      let (small, e1) = require-eq-ok (leb (s.node_count + 1) max_bom_nodes) _ _ first in
      let (fresh, e2) = require-eq-ok (not (on_path line.key path)) _ _ e1 in
      let now = take_component-at _ multiplier _ _ line _ u e2 refl in
      let later = visit_all-at multiplier depth path lines u t rest in
      let joined =
        sum_by-append (route_amount (suc levels) multiplier)
          (routes_from graph (routes_to graph m levels) m line)
          (routes_via graph (routes_to graph m levels) m lines) in
      omega (arith, now, later, joined)

walk-at : (graph : BomGraph) (m levels : ℕ) → AddsRoutes graph m levels (walk graph levels)
unfolding walk routes_to
walk-at graph m zero key multiplier depth path s t e = cc
walk-at graph m (suc levels) key multiplier depth path s t e =
    visit_all-at graph m levels (walk graph levels) (walk-at graph m levels) multiplier depth path
      (graph key) s t e

finish-at :
    (m levels : ℕ) (into : List Accumulator)
    → sum_by (line_at m) (finish levels into) ≡ sum_by (entry_at m) into
unfolding finish finish_line
finish-at m levels into = sort-sum by_key (line_at m) (map (finish_line levels) into) ∙ mapped into
  where
    mapped :
        (xs : List Accumulator)
        → sum_by (line_at m) (map (finish_line levels) xs) ≡ sum_by (entry_at m) xs
    mapped [] = refl
    mapped (x ∷ xs) = ap (λ (k : ℕ). entry_at m x + k) (mapped xs)

-- The amount that an explosion gives of a raw material is the sum, over the ways down to it, of
-- what the way needs: the quantity of the root times every line on the way, each with its waste.
-- A material that two branches share is counted for both.
pub explode_bom-routes_to :
    (max_depth root quantity : ℕ) (graph : BomGraph) (m : ℕ) {x : BomExplosion}
    → explode_bom max_depth root quantity graph ≡ ok x
    → sum_by (line_at m) x.leaves
      ≡ sum_by (route_amount max_depth quantity) (routes_to graph m max_depth root)
unfolding explode_bom
explode_bom-routes_to max_depth root quantity graph m e =
    let (s, walked, out) = >>=-eq-ok (walk graph max_depth root quantity 0 (root ∷ []) start) _ e in
    let total = walk-at graph m max_depth root quantity 0 (root ∷ []) start s walked in
    let now = ok-injective out in
    let sorted = finish-at m max_depth s.leaves in rw (← now) (omega (arith, sorted, total))
