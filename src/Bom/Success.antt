-- ===== src/Bom/Success.antt =====
-- A bill of materials that is well founded, small and agrees on its units is exploded.
use achichiz_back_end.Prelude.{
  ==_iff, All, All-implies, Bool, Bool-cases, List, Result, [], ap, arith, false, if◌then◌else◌,
  inl, inr, leb, le→leb, max, ok, refl, suc, sym, true, zero, ℕ, ◌*◌, ◌++◌, ◌+◌, ◌<◌, ◌==◌, ◌∙◌,
  ◌∷◌, ◌≡◌, ◌≤◌,
}
use achichiz_back_end.Bom.{
  Accumulator, BomComponent, BomError, BomExplosion, BomGraph, Uom, Walk, accumulate, add_path,
  explode_bom, finish, on_path, is_manufactured, max_bom_nodes, same_unit, scale, seen, start,
  take_component, visit, visit_all, walk, with_waste,
}

-- How many lines the walk comes by.
unfoldable pub visits_via : BomGraph → (ℕ → ℕ) → List BomComponent → ℕ
visits_via graph below [] = 0
visits_via graph below (l ∷ lines) =
    1 + (if is_manufactured graph l.key then below l.key else 0) + visits_via graph below lines

unfoldable pub visits : BomGraph → ℕ → ℕ → ℕ
visits graph zero key = 0
visits graph (suc levels) key = visits_via graph (visits graph levels) (graph key)

module _ (graph : BomGraph) (rank : ℕ → ℕ) (unit_of : ℕ → Uom) where
  -- A line leads to a lower rank, and its unit is the one of its key.
  abbrev pub Fits : ℕ → BomComponent → Type 0
  Fits k line = (rank line.key < rank k) × (line.unit ≡ unit_of line.key)

  abbrev pub Agrees : Accumulator → Type 0
  Agrees a = a.unit ≡ unit_of a.key

  same_unit_self : (u : Uom) → same_unit u u ≡ true
  same_unit_self u = ground arith

  accumulate-ok :
      (into : List Accumulator) (line : BomComponent) (qty depth : ℕ) (path : List ℕ)
      → All Agrees into
      → line.unit ≡ unit_of line.key
      → (out : List Accumulator) × (accumulate into line qty depth path ≡ ok out) × All Agrees out
  unfolding accumulate
  accumulate-ok [] line qty depth path h u = (_, refl, (u, tt))
  accumulate-ok (a ∷ into) line qty depth path (g, h) u = elim (Bool-cases (a.key == line.key)) [
    | inl same ↦
        let agree : a.unit ≡ line.unit = g ∙ ap unit_of ((==_iff a.key line.key).0 same) ∙ sym u in
        let test : same_unit a.unit line.unit ≡ true =
          ap (same_unit a.unit) (sym agree) ∙ same_unit_self a.unit in
        (
          record a {
            raw_qty = a.raw_qty + qty;
            depth = max a.depth depth;
            paths = add_path path a.paths;
          }
              ∷ into,
          rw (accumulate, same, test) refl,
          (g, h),
        )
    | inr other ↦
        let (out, e, k) = accumulate-ok into line qty depth path h u in
        (a ∷ out, rw (accumulate, other, e) refl, (g, k))
  ]

  -- What holds of a walk between two visits.
  abbrev pub Sound : Walk → Type 0
  Sound s = All Agrees s.leaves × All Agrees s.sub_assemblies

  -- The walk of a key below a path whose keys are no lower than it.
  abbrev pub Succeeds : ℕ → (ℕ → ℕ) → (ℕ → ℕ → ℕ → List ℕ → Walk → Result BomError Walk) → Type 0
  Succeeds levels count below =
      (key multiplier depth : ℕ) (path : List ℕ) (s : Walk)
      → rank key < levels
      → All (λ p. rank key ≤ rank p) path
      → Sound s
      → s.node_count + count key ≤ max_bom_nodes
      → (t : Walk) × (below key multiplier depth path s ≡ ok t)
        × Sound t
        × (t.node_count ≡ s.node_count + count key)

  module _ (levels : ℕ) (count : ℕ → ℕ) (below : ℕ → ℕ → ℕ → List ℕ → Walk → Result BomError Walk)
      (ih : Succeeds levels count below) where
    take_component-ok :
        (made : Bool) (effective depth : ℕ) (path : List ℕ) (line : BomComponent) (s : Walk)
        → line.unit ≡ unit_of line.key
        → rank line.key < levels
        → All (λ p. rank line.key ≤ rank p) path
        → Sound s
        → s.node_count + (if made then count line.key else 0) ≤ max_bom_nodes
        → (t : Walk) × (take_component made below levels effective depth path line s ≡ ok t)
          × Sound t
          × (t.node_count ≡ s.node_count + (if made then count line.key else 0))
    unfolding take_component
    take_component-ok true effective depth path line s unit lower above (l, a) few =
        let (into, e, k) =
          accumulate-ok s.sub_assemblies line (effective * scale levels) depth path a unit in
        let (t, e1, sound, n) =
          ih line.key effective depth path (record s { sub_assemblies = into }) lower above (l, k)
            few in
        (t, rw (take_component, e) e1, sound, n)
    take_component-ok false effective depth path line s unit lower above (l, a) few =
        let (into, e, k) =
          accumulate-ok s.leaves line (effective * scale levels) depth path l unit in
        (record s { leaves = into }, rw (take_component, e) refl, (k, a), omega arith)

    on_path_lower :
        (key : ℕ) (path : List ℕ) → All (λ p. rank key < rank p) path → on_path key path ≡ false
    on_path_lower key [] h = refl
    on_path_lower key (p ∷ path) (lower, h) =
        let ih = on_path_lower key path h in
        elim (Bool-cases (p == key)) [
          | inl same ↦ absurd (omega (arith, ap rank ((==_iff p key).0 same)))
          | inr other ↦ rw (other, ih) refl
        ]

    All-snoc : (P : ℕ → Type 0) (xs : List ℕ) (x : ℕ) → All P xs → P x → All P (xs ++ (x ∷ []))
    All-snoc P [] x h p = (p, tt)
    All-snoc P (y ∷ ys) x (q, h) p = (q, All-snoc P ys x h p)

    visit_all-ok :
        (k multiplier depth : ℕ) (path : List ℕ) (lines : List BomComponent) (s : Walk)
        → rank k < suc levels
        → All (λ p. rank k ≤ rank p) path
        → All (Fits k) lines
        → Sound s
        → s.node_count + visits_via graph count lines ≤ max_bom_nodes
        → (t : Walk) × (visit_all graph below levels multiplier depth path lines s ≡ ok t)
          × Sound t
          × (t.node_count ≡ s.node_count + visits_via graph count lines)
    unfolding visit_all visit visits_via
    visit_all-ok k multiplier depth path [] s low above fits sound few =
        (s, refl, sound, omega arith)
    visit_all-ok k multiplier depth path (l ∷ lines) s low above ((lower, unit), fits) sound few =
        let fresh = on_path_lower l.key path (All-implies _ _ path (λ p h. omega arith) above) in
        let room : leb (s.node_count + 1) max_bom_nodes ≡ true = le→leb _ _ (omega arith) in
        let p = path ++ (l.key ∷ []) in
        let higher : All (λ p. rank l.key ≤ rank p) p =
          All-snoc _ path l.key (All-implies _ _ path (λ p h. omega arith) above) (omega arith) in
        let (u, e, sound_u, n) =
          take_component-ok (is_manufactured graph l.key)
            (with_waste l.quantity l.waste_pct * multiplier) (depth + 1) p l (seen (depth + 1) s)
            unit (omega arith) higher sound (omega arith) in
        let (t, e1, sound_t, m) =
          visit_all-ok k multiplier depth path lines u low above fits sound_u
            (omega (arith, n, few)) in
        (t, rw (visit_all, visit, room, fresh, e) e1, sound_t, omega (arith, n, m))

  module _ (fits : (k : ℕ) → All (Fits k) (graph k)) where
    walk-ok : (levels : ℕ) → Succeeds levels (visits graph levels) (walk graph levels)
    unfolding walk visits
    walk-ok zero key multiplier depth path s low above sound few = absurd (omega arith)
    walk-ok (suc levels) key multiplier depth path s low above sound few =
        visit_all-ok levels (visits graph levels) (walk graph levels) (walk-ok levels) key
          multiplier depth path (graph key) s low above (fits key) sound few

    -- A bill of materials is exploded where every line leads to a lower rank, the root's rank is below
    -- the depth limit, each key is always required in the same unit, and the walk comes by no more
    -- lines than it may; the count that is given is the number of lines that it comes by.
    pub explode_bom-ok :
        (max_depth root quantity : ℕ)
        → rank root < max_depth
        → visits graph max_depth root ≤ max_bom_nodes
        → (x : BomExplosion) × (explode_bom max_depth root quantity graph ≡ ok x)
          × (x.node_count ≡ visits graph max_depth root)
    unfolding explode_bom
    explode_bom-ok max_depth root quantity low few =
        let (s, e, sound, n) =
          walk-ok max_depth root quantity 0 (root ∷ []) start low (omega arith, tt) (tt, tt)
            (omega arith) in
        (
          record {
            root = root;
            quantity = quantity;
            leaves = finish max_depth s.leaves;
            sub_assemblies = finish max_depth s.sub_assemblies;
            max_depth = s.max_seen_depth;
            node_count = s.node_count;
          },
          rw (explode_bom, e) refl,
          omega (arith, n),
        )
