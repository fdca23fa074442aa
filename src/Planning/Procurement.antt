-- ===== src/Planning/Procurement.antt =====
-- `buildProcurementPlan` of src/modules/admin-bulk-orders/admin-bulk-orders.planning.ts: shortfalls as
-- purchase lines. A date is its milliseconds, and an identifier is in the order of its number.
use achichiz_back_end.Prelude.{
  All, All-filter, All-map, Bool, Bool-cases, List, Option, [], any, ap, arith, false, filter,
  if◌then◌else◌, inl, inr, leb, length, ltb, ltb→lt, map, max, none, not, some, sum_by, true, ℕ,
  ◌*◌, ◌+◌, ◌<◌, ◌==◌, ◌∙◌, ◌∷◌, ◌≡◌, ◌≤◌,
}
use achichiz_back_end.Prelude.Int.{ltb_ℤ, pos, ℤ, ◌-ℤ◌}
use achichiz_back_end.Prelude.Sorting.{sort, sort-All, sort-sum}
use achichiz_back_end.Stock.Reorder.{round_up_to_moq, round_up_to_moq_bounds}

-- The name of a supplier is left out.
pub record SupplierTerms : Type 0 where
  pub supplier_id : Option ℕ
  pub moq : ℕ
  pub lead_time_days : Option ℕ
  pub unit_cost_paise : Option ℕ

pub record Shortage : Type 0 where
  pub variant_id : ℕ
  pub shortage_qty : ℕ

pub record ProcurementLine : Type 0 where
  pub variant_id : ℕ
  pub shortage_qty : ℕ
  pub order_qty : ℕ
  pub supplier_id : Option ℕ
  pub lead_time_days : Option ℕ
  pub estimated_cost_paise : Option ℕ
  pub order_by_date : Option ℤ
  pub meets_window : Bool

pub record ProcurementPlan : Type 0 where
  pub lines : List ProcurementLine
  pub total_order_qty : ℕ
  pub estimated_total_paise : Option ℕ
  pub late_line_count : ℕ
  pub longest_lead_time_days : Option ℕ

abbrev pub day_ms : ℕ
day_ms = 86_400_000

-- `x?.field ?? null`, and `?? 1` for the minimum.
abbrev pub chain {ℓ} : {A : Type ℓ} → Option SupplierTerms → (SupplierTerms → Option A) → Option A
chain none field = none
chain (some terms) field = field terms

abbrev pub moq_of : Option SupplierTerms → ℕ
moq_of none = 1
moq_of (some terms) = max 1 terms.moq

-- When to order, where a window and a lead time are known.
abbrev pub order_by : Option ℕ → Option ℕ → Option ℤ
order_by (some window_start) (some days) = some (pos window_start -ℤ pos (days * day_ms))
order_by _ _ = none

abbrev pub is_in_time : Option ℤ → ℕ → Bool
is_in_time none today = true
is_in_time (some date) today = not (ltb_ℤ date (pos today -ℤ pos day_ms))

abbrev pub cost_of : Option ℕ → ℕ → Option ℕ
cost_of none quantity = none
cost_of (some unit_cost) quantity = some (quantity * unit_cost)

unfoldable pub procurement_line :
    (ℕ → Option SupplierTerms) → Option ℕ → ℕ → Shortage → ProcurementLine
procurement_line terms window_start today shortage =
    let supplier = terms shortage.variant_id in
    let order_qty = round_up_to_moq shortage.shortage_qty (moq_of supplier) in
    let lead_time_days = chain supplier (λ t. t.lead_time_days) in
    let date = order_by window_start lead_time_days in
    record {
      variant_id = shortage.variant_id;
      shortage_qty = shortage.shortage_qty;
      order_qty = order_qty;
      supplier_id = chain supplier (λ t. t.supplier_id);
      lead_time_days = lead_time_days;
      estimated_cost_paise = cost_of (chain supplier (λ t. t.unit_cost_paise)) order_qty;
      order_by_date = date;
      meets_window = is_in_time date today;
    }

abbrev pub is_short : Shortage → Bool
is_short s = ltb 0 s.shortage_qty

abbrev pub by_variant_id : ProcurementLine → ProcurementLine → Bool
by_variant_id a b = leb a.variant_id b.variant_id

abbrev pub lacks_cost : ProcurementLine → Bool
lacks_cost l = elim l.estimated_cost_paise [ none ↦ true | some _ ↦ false ]

-- `estimatedCostPaise ?? 0`.
abbrev pub known_cost : ProcurementLine → ℕ
known_cost l = elim l.estimated_cost_paise [ none ↦ 0 | some cost ↦ cost ]

unfoldable pub longest : List ProcurementLine → Option ℕ
longest [] = none
longest (l ∷ lines) = elim l.lead_time_days [
  | none ↦ longest lines
  | some days ↦ elim (longest lines) [ none ↦ some days | some rest ↦ some (max days rest) ]
]

abbrev pub order_qty_of : ProcurementLine → ℕ
order_qty_of l = l.order_qty

unfoldable pub build_procurement_plan :
    List Shortage → (ℕ → Option SupplierTerms) → Option ℕ → ℕ → ProcurementPlan
build_procurement_plan shortages terms window_start today =
    let lines =
      sort by_variant_id
        (map (procurement_line terms window_start today) (filter is_short shortages)) in
    record {
      lines = lines;
      total_order_qty = sum_by order_qty_of lines;
      estimated_total_paise = if any lacks_cost lines then none else some (sum_by known_cost lines);
      late_line_count = length (filter (λ (l : ProcurementLine). not l.meets_window) lines);
      longest_lead_time_days = longest lines;
    }

-- What is ordered of a line covers its shortage, by less than one minimum order above it.
abbrev pub Orders : (ℕ → Option SupplierTerms) → ProcurementLine → Type 0
Orders terms l =
    (l.shortage_qty ≤ l.order_qty)
    × (l.order_qty < l.shortage_qty + moq_of (terms l.variant_id))
    × ((units : ℕ) × (l.order_qty ≡ units * moq_of (terms l.variant_id)))

-- What is short, and what is ordered, of a variant.
abbrev pub short_at : ℕ → Shortage → ℕ
short_at v s = if s.variant_id == v then s.shortage_qty else 0

abbrev pub ordered_at : ℕ → ProcurementLine → ℕ
ordered_at v l = if l.variant_id == v then l.order_qty else 0

moq_positive : (t : Option SupplierTerms) → max 1 (moq_of t) ≡ moq_of t
moq_positive none = omega arith
moq_positive (some t) = omega arith

module _ (terms : ℕ → Option SupplierTerms) (window_start : Option ℕ) (today : ℕ) where
  procurement_line-Orders :
      (s : Shortage)
      → is_short s ≡ true
      → Orders terms (procurement_line terms window_start today s)
  unfolding procurement_line
  procurement_line-Orders s h =
      let (units, whole, covers, under) =
        round_up_to_moq_bounds s.shortage_qty (moq_of (terms s.variant_id)) in
      let unit = moq_positive (terms s.variant_id) in
      let positive = ltb→lt 0 s.shortage_qty h in
      (omega arith, omega arith, (units, whole ∙ ap (λ (k : ℕ). units * k) unit))

  procurement_line-All :
      (shortages : List Shortage)
      → All
          (Orders terms)
          (map (procurement_line terms window_start today) (filter is_short shortages))
  procurement_line-All shortages =
      All-map (Orders terms) (procurement_line terms window_start today) (filter is_short shortages)
        (All-filter _ is_short shortages procurement_line-Orders)

  all_covered :
      (v : ℕ) (shortages : List Shortage)
      → sum_by (short_at v) shortages
        ≤ sum_by
            (ordered_at v)
            (map (procurement_line terms window_start today) (filter is_short shortages))
  unfolding procurement_line
  all_covered v [] = omega arith
  all_covered v (s ∷ shortages) = elim (Bool-cases (is_short s)) [
    | inl short ↦
        let (covers, under, units) = procurement_line-Orders s short in
        let ih = all_covered v shortages in rw short (ground arith)
    | inr enough ↦ let ih = all_covered v shortages in rw enough (ground arith)
  ]

  -- A plan orders, line by line, at least what is short, in whole minimum orders of the supplier and
  -- by less than one more than is needed; of every variant it orders at least all that is short of
  -- it.
  pub build_procurement_plan-Orders :
      (shortages : List Shortage)
      → let plan = build_procurement_plan shortages terms window_start today in
        All (Orders terms) plan.lines
        × ((v : ℕ) → sum_by (short_at v) shortages ≤ sum_by (ordered_at v) plan.lines)
  unfolding build_procurement_plan
  build_procurement_plan-Orders shortages =
      let rows = map (procurement_line terms window_start today) (filter is_short shortages) in
      (
        sort-All by_variant_id (Orders terms) rows (procurement_line-All shortages),
        λ v. omega (arith, all_covered v shortages, sort-sum by_variant_id (ordered_at v) rows),
      )
