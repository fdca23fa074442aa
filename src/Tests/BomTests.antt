-- ===== src/Tests/BomTests.antt =====
-- Tests and witnesses for bills of materials: a hamper of a candle and a gift box, which share a
-- ribbon, and the same with a loop.
use achichiz_back_end.Prelude.{
  All, List, Result, [], arith, err, map, ok, refl, suc, sum_by, zero, ℕ, ◌∷◌, ◌≡◌,
}
use achichiz_back_end.Bom.{
  Accumulator, BomComponent, BomError, BomExplosion, BomGraph, Uom, Walk, accumulate, ceil_to,
  dedusted, explode_bom, gram, meter, piece, round_requirement, scale, start, take_component, visit,
  visit_all, walk, with_waste,
}
use achichiz_back_end.Bom.Totals.{explode_bom-routes_to, line_at, route_amount, routes_to}
use achichiz_back_end.Bom.Depth.{Reaches, explode_bom-Reaches}
use achichiz_back_end.Bom.Rounding.{RoundedUp, explode_bom-All}
use achichiz_back_end.Bom.Success.{Fits, explode_bom-ok, visits, visits_via}

abbrev bom_line : ℕ → ℕ → ℕ → Uom → BomComponent
bom_line key quantity waste_pct unit = record {
  key = key;
  quantity = quantity;
  waste_pct = waste_pct;
  unit = unit;
}

abbrev hamper : BomGraph
hamper zero = []
hamper (suc zero) = bom_line 2 1_000 0 piece ∷ bom_line 3 1_000 500 piece ∷ []
hamper (suc (suc zero)) = bom_line 4 500 500 meter ∷ bom_line 5 100_000 500 gram ∷ []
hamper (suc (suc (suc zero))) = bom_line 4 250 0 meter ∷ []
hamper (suc (suc (suc (suc k)))) = []

abbrev hamper_rank : ℕ → ℕ
hamper_rank zero = 0
hamper_rank (suc zero) = 2
hamper_rank (suc (suc zero)) = 1
hamper_rank (suc (suc (suc zero))) = 1
hamper_rank (suc (suc (suc (suc k)))) = 0

abbrev hamper_unit : ℕ → Uom
hamper_unit zero = piece
hamper_unit (suc zero) = piece
hamper_unit (suc (suc zero)) = piece
hamper_unit (suc (suc (suc zero))) = piece
hamper_unit (suc (suc (suc (suc zero)))) = meter
hamper_unit (suc (suc (suc (suc (suc k))))) = gram

hamper-Fits : (k : ℕ) → All (Fits hamper hamper_rank hamper_unit k) (hamper k)
hamper-Fits zero = tt
hamper-Fits (suc zero) = ((omega arith, refl), ((omega arith, refl), tt))
hamper-Fits (suc (suc zero)) = ((omega arith, refl), ((omega arith, refl), tt))
hamper-Fits (suc (suc (suc zero))) = ((omega arith, refl), tt)
hamper-Fits (suc (suc (suc (suc k)))) = tt

hamper-visits : visits hamper 3 1 ≡ 5
unfolding visits visits_via
hamper-visits = refl

explode_bom-ok_example :
    (x : BomExplosion) × (explode_bom 3 1 40 hamper ≡ ok x) × (x.node_count ≡ visits hamper 3 1)
explode_bom-ok_example =
    explode_bom-ok hamper hamper_rank hamper_unit hamper-Fits 3 1 40 (omega arith)
      (omega (arith, hamper-visits))

-- 40 hampers need 31.5 meters of ribbon, and 4.2 kilograms of wax.
required : Result BomError Walk → List (ℕ × ℕ)
required (ok s) = map (λ (a : Accumulator). (a.key, round_requirement 3 a.raw_qty a.unit)) s.leaves
required (err _) = []

hamper-required : required (walk hamper 3 1 40 0 (1 ∷ []) start) ≡ (4, 31_500) ∷ (5, 4_200_000) ∷ []
unfolding required walk visit_all visit take_component accumulate with_waste scale round_requirement
    ceil_to dedusted
hamper-required = refl

explode_bom-routes_to_example :
    sum_by (line_at 4) explode_bom-ok_example.0.leaves
    ≡ sum_by (route_amount 3 40) (routes_to hamper 4 3 1)
explode_bom-routes_to_example = explode_bom-routes_to 3 1 40 hamper 4 explode_bom-ok_example.1

-- 4.901 pieces at 2.02 percent of waste are 5.0000002 pieces, of which 5 are picked.
dust-ceil_to : ceil_to 50_000_002 10_000_000 ≡ 5
unfolding ceil_to dedusted
dust-ceil_to = refl

explode_bom-All_example :
    All (RoundedUp 3) explode_bom-ok_example.0.leaves
    × All (RoundedUp 3) explode_bom-ok_example.0.sub_assemblies
explode_bom-All_example = explode_bom-All 3 1 40 hamper explode_bom-ok_example.1

abbrev looped : BomGraph
looped zero = []
looped (suc zero) = bom_line 2 1_000 0 piece ∷ []
looped (suc (suc zero)) = bom_line 3 1_000 0 piece ∷ []
looped (suc (suc (suc k))) = bom_line 2 1_000 0 piece ∷ []

explode_bom-Reaches_example : (e : BomError) × (explode_bom 10 1 1 looped ≡ err e)
explode_bom-Reaches_example =
    explode_bom-Reaches 10 1 1 looped 2 0 (bom_line 3 1_000 0 piece)
      (Reaches.down 0 (bom_line 2 1_000 0 piece) refl Reaches.arrived) refl
      (Reaches.down 0 (bom_line 2 1_000 0 piece) refl Reaches.arrived)
