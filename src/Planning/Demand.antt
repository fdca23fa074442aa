-- ===== src/Planning/Demand.antt =====
-- `aggregateDemand` of src/modules/admin-bulk-orders/admin-bulk-orders.planning.ts: the recipients of
-- a campaign as totals by variant.
use achichiz_back_end.Prelude.{
  Bool, List, Option, Option-cases, [], arith, if◌then◌else◌, inl, inr, leb, length, length-append,
  max, none, some, sum_by, ℕ, ◌++◌, ◌+◌, ◌==◌, ◌∷◌, ◌≡◌,
}
use achichiz_back_end.Prelude.Int.{pos_part, ℤ}
use achichiz_back_end.Prelude.Sorting.{sort, sort-sum}

pub record RecipientDemand : Type 0 where
  pub id : ℕ
  pub variant_id : Option ℕ
  pub quantity : Option ℤ

pub record DemandLine : Type 0 where
  pub variant_id : ℕ
  pub quantity : ℕ
  pub recipient_count : ℕ

pub record AggregatedDemand : Type 0 where
  pub lines : List DemandLine
  pub total_units : ℕ
  pub unassigned_recipient_count : ℕ
  pub unassigned_recipient_ids : List ℕ

-- `Math.max(1, Math.trunc(quantity ?? 1))`.
abbrev pub units_of : RecipientDemand → ℕ
units_of r = elim r.quantity [ none ↦ 1 | some q ↦ max 1 (pos_part q) ]

-- The map's entry of a variant; a new one comes last.
unfoldable pub add_demand : ℕ → ℕ → List DemandLine → List DemandLine
add_demand variant_id quantity [] =
    record { variant_id = variant_id; quantity = quantity; recipient_count = 1 } ∷ []
add_demand variant_id quantity (l ∷ lines) =
    let rest = add_demand variant_id quantity lines in
    if l.variant_id == variant_id
    then record l { quantity = l.quantity + quantity; recipient_count = l.recipient_count + 1 }
      ∷ lines
    else l ∷ rest

-- One turn of the loop.
abbrev pub count_recipient : RecipientDemand → List DemandLine × List ℕ → List DemandLine × List ℕ
count_recipient r (lines, unassigned) = elim r.variant_id [
  | none ↦ (lines, unassigned ++ (r.id ∷ []))
  | some variant ↦ (add_demand variant (units_of r) lines, unassigned)
]

unfoldable pub count_recipients :
    List RecipientDemand → List DemandLine × List ℕ → List DemandLine × List ℕ
count_recipients [] s = s
count_recipients (r ∷ rs) s = count_recipients rs (count_recipient r s)

abbrev pub by_variant : DemandLine → DemandLine → Bool
by_variant a b = leb a.variant_id b.variant_id

abbrev pub line_units : DemandLine → ℕ
line_units l = l.quantity

unfoldable pub aggregate_demand : List RecipientDemand → AggregatedDemand
aggregate_demand recipients =
    let (by_variants, unassigned) = count_recipients recipients ([], []) in
    let lines = sort by_variant by_variants in
    record {
      lines = lines;
      total_units = sum_by line_units lines;
      unassigned_recipient_count = length unassigned;
      unassigned_recipient_ids = unassigned;
    }

-- What a line holds of a variant, and what a recipient asks of it.
abbrev pub line_at : ℕ → DemandLine → ℕ
line_at v l = if l.variant_id == v then l.quantity else 0

abbrev pub asked_at : ℕ → RecipientDemand → ℕ
asked_at v r = elim r.variant_id [ none ↦ 0 | some own ↦ if own == v then units_of r else 0 ]

abbrev pub recipients_of : DemandLine → ℕ
recipients_of l = l.recipient_count

add_demand-at :
    (v variant quantity : ℕ) (lines : List DemandLine)
    → sum_by (line_at v) (add_demand variant quantity lines)
      ≡ sum_by (line_at v) lines + (if variant == v then quantity else 0)
unfolding add_demand
add_demand-at v variant quantity [] = ground arith
add_demand-at v variant quantity (l ∷ lines) =
    let ih = add_demand-at v variant quantity lines in ground arith

add_demand-recipients :
    (variant quantity : ℕ) (lines : List DemandLine)
    → sum_by recipients_of (add_demand variant quantity lines) ≡ sum_by recipients_of lines + 1
unfolding add_demand
add_demand-recipients variant quantity [] = omega arith
add_demand-recipients variant quantity (l ∷ lines) =
    let ih = add_demand-recipients variant quantity lines in ground arith

count_recipients-at :
    (v : ℕ) (rs : List RecipientDemand) (lines : List DemandLine) (unassigned : List ℕ)
    → sum_by (line_at v) (count_recipients rs (lines, unassigned)).0
      ≡ sum_by (line_at v) lines + sum_by (asked_at v) rs
unfolding count_recipients
count_recipients-at v [] lines unassigned = omega arith
count_recipients-at v (r ∷ rs) lines unassigned = elim (Option-cases r.variant_id) [
  | inl none_chosen ↦
      let ih = count_recipients-at v rs lines (unassigned ++ (r.id ∷ [])) in
      rw none_chosen (omega arith)
  | inr (variant, chosen) ↦
      let ih = count_recipients-at v rs (add_demand variant (units_of r) lines) unassigned in
      let now = add_demand-at v variant (units_of r) lines in rw chosen (omega arith)
]

count_recipients-recipients :
    (rs : List RecipientDemand) (lines : List DemandLine) (unassigned : List ℕ)
    → sum_by recipients_of (count_recipients rs (lines, unassigned)).0
        + length (count_recipients rs (lines, unassigned)).1
      ≡ sum_by recipients_of lines + length unassigned + length rs
unfolding count_recipients
count_recipients-recipients [] lines unassigned = omega arith
count_recipients-recipients (r ∷ rs) lines unassigned = elim (Option-cases r.variant_id) [
  | inl none_chosen ↦
      let ih = count_recipients-recipients rs lines (unassigned ++ (r.id ∷ [])) in
      let longer = length-append unassigned (r.id ∷ []) in rw none_chosen (omega arith)
  | inr (variant, chosen) ↦
      let ih = count_recipients-recipients rs (add_demand variant (units_of r) lines) unassigned in
      let now = add_demand-recipients variant (units_of r) lines in rw chosen (omega arith)
]

-- Every recipient is counted once, on a line or as unassigned, and the lines hold of each variant
-- what its recipients ask for.
pub aggregate_demand_complete :
    (recipients : List RecipientDemand)
    → let a = aggregate_demand recipients in
      (sum_by recipients_of a.lines + a.unassigned_recipient_count ≡ length recipients)
      × ((v : ℕ) → sum_by (line_at v) a.lines ≡ sum_by (asked_at v) recipients)
unfolding aggregate_demand
aggregate_demand_complete recipients =
    let counted = (count_recipients recipients ([], [])).0 in
    let all = count_recipients-recipients recipients [] [] in
    let sorted = sort-sum by_variant recipients_of counted in
    (
      omega arith,
      λ v.
          let kept = sort-sum by_variant (line_at v) counted in
          let asked = count_recipients-at v recipients [] [] in omega arith,
    )
