-- ===== src/Bom.antt =====
-- The explosion of a bill of materials,
-- src/modules/admin-production/admin-production.bom.ts. The quantities of the lines have three
-- decimals and their wastes two, as their columns do, and amounts are exact: an amount is a number
-- of units of 1 / 10 ^ 7 for each level above it, in place of a float. A key is a number, in the
-- order of the texts.
use achichiz_back_end.Prelude.{
  Bool, List, Result, [], any, err, false, if◌then◌else◌, leb, map, max, not, ok, require, suc,
  true, zero, ℕ, ◌&&◌, ◌*◌, ◌++◌, ◌+◌, ◌-◌, ◌/◌, ◌==◌, ◌>>=◌, ◌>>◌, ◌∷◌,
}
pub mod Totals
pub mod Depth
pub mod Success
pub mod Rounding
use achichiz_back_end.Prelude.Sorting.{sort}

pub data Uom : Type 0 where
  piece gram kg ml litre meter : Uom

-- A line: `quantity` in thousandths, `waste_pct` in hundredths of a percent.
pub record BomComponent : Type 0 where
  pub key : ℕ
  pub quantity : ℕ
  pub waste_pct : ℕ
  pub unit : Uom

-- A key with no lines is a raw material: the code treats an absent entry and an empty one alike.
abbrev pub BomGraph : Type 0
BomGraph = ℕ → List BomComponent

pub record Accumulator : Type 0 where
  pub key : ℕ
  pub unit : Uom
  pub raw_qty : ℕ
  pub depth : ℕ
  pub paths : List (List ℕ)

pub data BomError : Type 0 where
  bom_depth_exceeded : List ℕ → BomError
  bom_too_large : BomError
  bom_cycle_detected : List ℕ → ℕ → BomError
  bom_unit_conflict : ℕ → Uom → Uom → BomError

abbrev pub max_bom_depth : ℕ
max_bom_depth = 10

abbrev pub max_bom_nodes : ℕ
max_bom_nodes = 5_000

-- `quantity * (1 + waste_pct / 100)`, in units of 1 / 10 ^ 7.
unfoldable pub with_waste : ℕ → ℕ → ℕ
with_waste quantity waste_pct = quantity * (10_000 + waste_pct)

-- The units of an amount `levels` levels down.
unfoldable pub scale : ℕ → ℕ
scale zero = 1
scale (suc levels) = 10_000_000 * scale levels

abbrev pub uom_index : Uom → ℕ
uom_index piece = 0
uom_index gram = 1
uom_index kg = 2
uom_index ml = 3
uom_index litre = 4
uom_index meter = 5

abbrev pub same_unit : Uom → Uom → Bool
same_unit a b = uom_index a == uom_index b

abbrev pub on_path : ℕ → List ℕ → Bool
on_path key path = any (λ (k : ℕ). k == key) path

abbrev pub same_path : List ℕ → List ℕ → Bool
same_path [] [] = true
same_path (a ∷ as') (b ∷ bs) = (a == b) && same_path as' bs
same_path _ _ = false

abbrev pub add_path : List ℕ → List (List ℕ) → List (List ℕ)
add_path path paths = if any (same_path path) paths then paths else paths ++ (path ∷ [])

-- The entry of a key in the map: a new one comes last, one that is there is added to.
unfoldable pub accumulate :
    List Accumulator → BomComponent → ℕ → ℕ → List ℕ → Result BomError (List Accumulator)
accumulate [] line qty depth path = ok (
    record { key = line.key; unit = line.unit; raw_qty = qty; depth = depth; paths = path ∷ [] }
    ∷ [])
accumulate (a ∷ into) line qty depth path = elim (a.key == line.key) [
  | true ↦ do
    require (same_unit a.unit line.unit) (bom_unit_conflict line.key a.unit line.unit)
    ok (
        record a {
          raw_qty = a.raw_qty + qty;
          depth = max a.depth depth;
          paths = add_path path a.paths;
        }
        ∷ into)
  | false ↦ do rest ← accumulate into line qty depth path; ok (a ∷ rest)
]

-- What the closures of `explodeBom` share.
pub record Walk : Type 0 where
  pub leaves : List Accumulator
  pub sub_assemblies : List Accumulator
  pub node_count : ℕ
  pub max_seen_depth : ℕ

abbrev pub is_manufactured : BomGraph → ℕ → Bool
is_manufactured graph key = elim (graph key) [ [] ↦ false | _ ∷ _ ↦ true ]

-- A sub-assembly is noted and walked, a raw material picked.
unfoldable pub take_component :
    Bool
    → (ℕ → ℕ → ℕ → List ℕ → Walk → Result BomError Walk)
    → ℕ
    → ℕ
    → ℕ
    → List ℕ
    → BomComponent
    → Walk
    → Result BomError Walk
take_component true walk levels effective depth path line s = do
  into ← accumulate s.sub_assemblies line (effective * scale levels) depth path
  walk line.key effective depth path (record s { sub_assemblies = into })
take_component false walk levels effective depth path line s = do
  into ← accumulate s.leaves line (effective * scale levels) depth path
  ok (record s { leaves = into })

-- The counters of a visit.
abbrev pub seen : ℕ → Walk → Walk
seen depth s = record s {
  node_count = s.node_count + 1;
  max_seen_depth = max s.max_seen_depth depth;
}

unfoldable pub visit :
    BomGraph
    → (ℕ → ℕ → ℕ → List ℕ → Walk → Result BomError Walk)
    → ℕ
    → ℕ
    → ℕ
    → List ℕ
    → BomComponent
    → Walk
    → Result BomError Walk
visit graph walk levels multiplier depth path line s = do
  require (leb (s.node_count + 1) max_bom_nodes) bom_too_large
  require (not (on_path line.key path)) (bom_cycle_detected path line.key)
  take_component (is_manufactured graph line.key) walk levels
      (with_waste line.quantity line.waste_pct * multiplier) (depth + 1) (path ++ (line.key ∷ []))
      line (seen (depth + 1) s)

unfoldable pub visit_all :
    BomGraph
    → (ℕ → ℕ → ℕ → List ℕ → Walk → Result BomError Walk)
    → ℕ
    → ℕ
    → ℕ
    → List ℕ
    → List BomComponent
    → Walk
    → Result BomError Walk
visit_all graph walk levels multiplier depth path [] s = ok s
visit_all graph walk levels multiplier depth path (line ∷ lines) s = do
  t ← visit graph walk levels multiplier depth path line s
  visit_all graph walk levels multiplier depth path lines t

-- `levels` are those that `maxDepth` leaves below this one.
unfoldable pub walk : BomGraph → ℕ → ℕ → ℕ → ℕ → List ℕ → Walk → Result BomError Walk
walk graph zero key multiplier depth path s = err (bom_depth_exceeded path)
walk graph (suc levels) key multiplier depth path s =
    visit_all graph (walk graph levels) levels multiplier depth path (graph key) s

-- `Math.round((a / b) * 1e6)`, where a half is rounded up.
unfoldable pub dedusted : ℕ → ℕ → ℕ
dedusted a b = (2_000_000 * a + b) / (2 * b)

-- `a` in units of `b`, to the nearest millionth of a unit and then up to a whole number.
unfoldable pub ceil_to : ℕ → ℕ → ℕ
ceil_to a b = (dedusted a b + 999_999) / 1_000_000

-- In whole pieces, or in thousandths of any other unit; `levels` is at least one.
unfoldable pub round_requirement : ℕ → ℕ → Uom → ℕ
round_requirement levels raw_qty unit =
    if same_unit unit piece
    then ceil_to raw_qty (scale levels)
    else ceil_to raw_qty (10_000 * scale (levels - 1))

-- An entry of the answer, with the amount exact and as it is picked.
pub record ExplodedLine : Type 0 where
  pub key : ℕ
  pub unit : Uom
  pub raw_qty : ℕ
  pub required_qty : ℕ
  pub depth : ℕ
  pub paths : List (List ℕ)

pub record BomExplosion : Type 0 where
  pub root : ℕ
  pub quantity : ℕ
  pub leaves : List ExplodedLine
  pub sub_assemblies : List ExplodedLine
  pub max_depth : ℕ
  pub node_count : ℕ

unfoldable pub finish_line : ℕ → Accumulator → ExplodedLine
finish_line levels a = record {
  key = a.key;
  unit = a.unit;
  raw_qty = a.raw_qty;
  required_qty = round_requirement levels a.raw_qty a.unit;
  depth = a.depth;
  paths = a.paths;
}

abbrev pub by_key : ExplodedLine → ExplodedLine → Bool
by_key a b = leb a.key b.key

unfoldable pub finish : ℕ → List Accumulator → List ExplodedLine
finish levels accumulators = sort by_key (map (finish_line levels) accumulators)

abbrev pub start : Walk
start = record { leaves = []; sub_assemblies = []; node_count = 0; max_seen_depth = 0 }

-- `maxDepth` is `max_bom_depth` where no option gives another.
unfoldable pub explode_bom : ℕ → ℕ → ℕ → BomGraph → Result BomError BomExplosion
explode_bom max_depth root quantity graph = do
  s ← walk graph max_depth root quantity 0 (root ∷ []) start
  ok (record {
    root = root;
    quantity = quantity;
    leaves = finish max_depth s.leaves;
    sub_assemblies = finish max_depth s.sub_assemblies;
    max_depth = s.max_seen_depth;
    node_count = s.node_count;
  })

-- One level: like `accumulate`, but the depth and the paths stay.
unfoldable pub merge_line : ℕ → BomComponent → List Accumulator → Result BomError (List Accumulator)
merge_line qty line [] = ok (
    record {
      key = line.key;
      unit = line.unit;
      raw_qty = qty;
      depth = 1;
      paths = (line.key ∷ []) ∷ [];
    }
    ∷ [])
merge_line qty line (a ∷ merged) = elim (a.key == line.key) [
  | true ↦ do
    require (same_unit a.unit line.unit) (bom_unit_conflict line.key a.unit line.unit)
    ok (record a { raw_qty = a.raw_qty + qty } ∷ merged)
  | false ↦ do rest ← merge_line qty line merged; ok (a ∷ rest)
]

unfoldable pub merge_lines :
    ℕ → List BomComponent → List Accumulator → Result BomError (List Accumulator)
merge_lines quantity [] merged = ok merged
merge_lines quantity (line ∷ lines) merged = do
  next ← merge_line (with_waste line.quantity line.waste_pct * quantity) line merged
  merge_lines quantity lines next

abbrev pub at_depth_1 : ExplodedLine → ExplodedLine
at_depth_1 l = record l { depth = 1 }

unfoldable pub direct_requirements : ℕ → ℕ → BomGraph → Result BomError (List ExplodedLine)
direct_requirements root quantity graph = do
  merged ← merge_lines quantity (graph root) []
  ok (sort by_key (map (λ a. at_depth_1 (finish_line 1 a)) merged))
