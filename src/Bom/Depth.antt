-- ===== src/Bom/Depth.antt =====
-- A bill of materials that contains itself is refused.
use achichiz_back_end.Prelude.{
  >>=-eq-ok, List, Result, Result-cases, [], arith, err, false, get_elem?, inl, inr, leb, not, ok,
  refl, require-eq-ok, some, suc, sym, true, zero, ℕ, ◌*◌, ◌++◌, ◌+◌, ◌∷◌, ◌≡◌, ◌≤◌,
}
use achichiz_back_end.Bom.{
  BomComponent, BomError, BomGraph, Walk, accumulate, explode_bom, on_path, is_manufactured,
  max_bom_nodes, scale, start, take_component, visit, visit_all, walk, with_waste,
}
use mathlib.Core.Option.{some-injective}
use mathlib.Core.Path.{subst}

-- One key leads down to another along lines.
pub data Reaches (graph : BomGraph) : ℕ → ℕ → Type 0 where
  arrived : {k : ℕ} → Reaches graph k k
  down :
      {k m : ℕ} (i : ℕ) (line : BomComponent)
      → get_elem? (graph k) i ≡ some line
      → Reaches graph line.key m
      → Reaches graph k m

-- There are this many lines, one below the other.
abbrev pub Descends : BomGraph → ℕ → ℕ → Type 0
Descends graph zero k = Unit
Descends graph (suc n) k =
    (i : ℕ) × (line : BomComponent) × (get_elem? (graph k) i ≡ some line)
    × Descends graph n line.key

has_line :
    (graph : BomGraph) (k i : ℕ) {line : BomComponent}
    → get_elem? (graph k) i ≡ some line
    → is_manufactured graph k ≡ true
has_line graph k i e = go (graph k) e
  where
    go :
        (lines : List BomComponent) {line : BomComponent}
        → get_elem? lines i ≡ some line
        → (elim lines [ [] ↦ false | _ ∷ _ ↦ true ]) ≡ true
    go [] e = cc
    go (_ ∷ _) e = refl

module _ (graph : BomGraph) (levels : ℕ)
    (below : ℕ → ℕ → ℕ → List ℕ → Walk → Result BomError Walk) where
  -- A pass over lines that succeeds has walked each of them that is manufactured.
  visit_all-below :
      (multiplier depth : ℕ) (path : List ℕ) (lines : List BomComponent) (s t : Walk) (i : ℕ)
      {line : BomComponent}
      → visit_all graph below levels multiplier depth path lines s ≡ ok t
      → get_elem? lines i ≡ some line
      → is_manufactured graph line.key ≡ true
      → (effective : ℕ) × (d : ℕ) × (p : List ℕ) × (u : Walk) × (v : Walk) × (below line.key
            effective d p u
          ≡ ok v)
  unfolding visit_all visit take_component
  visit_all-below multiplier depth path [] s t i e found made = cc
  visit_all-below multiplier depth path (l ∷ lines) s t zero {line = line} e found made =
      let (u, first, rest) = >>=-eq-ok (visit graph below levels multiplier depth path l s) _ e in
      let (small, e1) = require-eq-ok (leb (s.node_count + 1) max_bom_nodes) _ _ first in
      let (fresh, e2) = require-eq-ok (not (on_path l.key path)) _ _ e1 in
      let same = some-injective _ _ found in
      let l_made : is_manufactured graph l.key ≡ true =
        subst (λ (x : BomComponent). is_manufactured graph x.key ≡ true) (sym same) made in
      let effective = with_waste l.quantity l.waste_pct * multiplier in
      let p = path ++ (l.key ∷ []) in
      let (into, kept, e3) =
        >>=-eq-ok (accumulate s.sub_assemblies l (effective * scale levels) (depth + 1) p) _
          (rw (l_made) at e2) in
      subst
        (λ (x : BomComponent).
          (effective : ℕ) × (d : ℕ) × (p : List ℕ) × (u : Walk) × (v : Walk) × (below x.key
              effective d p u
            ≡ ok v))
        same (effective, depth + 1, p, _, u, e3)
  visit_all-below multiplier depth path (l ∷ lines) s t (suc i) e found made =
      let (u, first, rest) = >>=-eq-ok (visit graph below levels multiplier depth path l s) _ e in
      visit_all-below multiplier depth path lines u t i rest found made

walk-Descends :
    (graph : BomGraph) (levels key multiplier depth : ℕ) (path : List ℕ) (s t : Walk)
    → walk graph levels key multiplier depth path s ≡ ok t
    → Descends graph (suc levels) key
    → ⊥
unfolding walk
walk-Descends graph zero key multiplier depth path s t e d = cc
walk-Descends graph (suc levels) key multiplier depth path s t e
      (i, line, found, (j, next, further, d)) =
    let (effective, dd, p, u, v, e1) =
      visit_all-below graph levels (walk graph levels) multiplier depth path (graph key) s t i e
        found (has_line graph line.key j further) in
    walk-Descends graph levels line.key effective dd p u v e1 (j, next, further, d)

Reaches-Descends :
    (graph : BomGraph) (n : ℕ) {a k : ℕ}
    → Reaches graph a k
    → ((j : ℕ) → j ≤ n → Descends graph j k)
    → (j : ℕ) → j ≤ n
    → Descends graph j a
Reaches-Descends graph n arrived all j le = all j le
Reaches-Descends graph n (down i line found r) all zero le = tt
Reaches-Descends graph n (down i line found r) all (suc j) le =
    (i, line, found, Reaches-Descends graph n r all j (omega arith))

-- A loop goes down as far as one likes.
loop-Descends :
    (graph : BomGraph) (k i : ℕ) (line : BomComponent)
    → get_elem? (graph k) i ≡ some line
    → Reaches graph line.key k
    → (n j : ℕ) → j ≤ n
    → Descends graph j k
loop-Descends graph k i line found r n zero le = tt
loop-Descends graph k i line found r zero (suc j) le = absurd (omega arith)
loop-Descends graph k i line found r (suc n) (suc j) le = (
  i,
  line,
  found,
  Reaches-Descends graph n r (loop-Descends graph k i line found r n) j (omega arith),
)

-- A bill of materials with a loop anywhere below its root is refused: a key that is reached has a
-- line that leads back to it. So the walk ends on every graph, and no amount is given for a bill
-- that contains itself, directly or at any distance.
pub explode_bom-Reaches :
    (max_depth root quantity : ℕ) (graph : BomGraph) (k i : ℕ) (line : BomComponent)
    → Reaches graph root k
    → get_elem? (graph k) i ≡ some line
    → Reaches graph line.key k
    → (e : BomError) × (explode_bom max_depth root quantity graph ≡ err e)
unfolding explode_bom
explode_bom-Reaches max_depth root quantity graph k i line to_k found back =
    elim (Result-cases (explode_bom max_depth root quantity graph)) [
      | inr failed ↦ failed
      | inl (x, e) ↦
          let (s, walked, out) =
            >>=-eq-ok (walk graph max_depth root quantity 0 (root ∷ []) start) _ e in
          absurd (
            walk-Descends graph max_depth root quantity 0 (root ∷ []) start s walked (
              Reaches-Descends graph (suc max_depth) to_k
                (loop-Descends graph k i line found back (suc max_depth)) (suc max_depth)
                (omega arith)))
    ]
