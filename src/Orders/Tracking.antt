-- ===== src/Orders/Tracking.antt =====
-- The tracker that a customer sees, src/modules/orders/orders.state.ts. Dates are milliseconds; the
-- types of events that prove no stage are one constructor.
use Prim.Native.String.{String}
use achichiz_back_end.Prelude.{
  All, Bool, Bool-cases, List, Option, [], any, arith, false, filter, if◌then◌else◌, inl, inr, ltb,
  map, none, refl, some, tests, true, ℕ, ◌&&◌, ◌==◌, ◌∷◌, ◌≡◌, ◌≤◌, ◌⊎◌,
}
use achichiz_back_end.Orders.{
  OrderStatus, cancelled, delivered, failed_delivery, out_for_delivery, packed, ready_to_ship,
  refund_initiated, refunded, rto, shipped,
}

pub data TrackingStage : Type 0 where
  at_placed at_packed at_shipped at_out_for_delivery at_delivered : TrackingStage

abbrev pub same_stage : TrackingStage → TrackingStage → Bool
same_stage at_placed at_placed = true
same_stage at_packed at_packed = true
same_stage at_shipped at_shipped = true
same_stage at_out_for_delivery at_out_for_delivery = true
same_stage at_delivered at_delivered = true
same_stage _ _ = false

abbrev pub tracking_stages : List TrackingStage
tracking_stages = at_placed ∷ at_packed ∷ at_shipped ∷ at_out_for_delivery ∷ at_delivered ∷ []

unfoldable pub tracking_stage_label : TrackingStage → String
tracking_stage_label at_placed = "Order placed"
tracking_stage_label at_packed = "Packed"
tracking_stage_label at_shipped = "Shipped"
tracking_stage_label at_out_for_delivery = "Out for delivery"
tracking_stage_label at_delivered = "Delivered"

-- `OFF_TRACK_STATUSES`.
unfoldable pub off_track_status : OrderStatus → Option String
off_track_status failed_delivery = some "Delivery attempt failed. We will try again."
off_track_status rto = some "On its way back to us."
off_track_status cancelled = some "Cancelled."
off_track_status refund_initiated = some "Cancelled — refund in progress."
off_track_status refunded = some "Refunded."
off_track_status _ = none

unfoldable pub tracking_stage_for : OrderStatus → Option TrackingStage
tracking_stage_for packed = some at_packed
tracking_stage_for ready_to_ship = some at_packed
tracking_stage_for shipped = some at_shipped
tracking_stage_for out_for_delivery = some at_out_for_delivery
tracking_stage_for delivered = some at_delivered
tracking_stage_for failed_delivery = some at_out_for_delivery
tracking_stage_for rto = none
tracking_stage_for cancelled = none
tracking_stage_for refund_initiated = none
tracking_stage_for refunded = none
tracking_stage_for _ = some at_placed

pub data EventType : Type 0 where
  order_placed order_confirmed payment_captured order_packed order_ready_to_ship : EventType
  order_shipped shipment_dispatched order_out_for_delivery shipment_out_for_delivery : EventType
  order_delivered shipment_delivered other_event : EventType

unfoldable pub stage_for_event : EventType → Option TrackingStage
stage_for_event order_placed = some at_placed
stage_for_event order_confirmed = some at_placed
stage_for_event payment_captured = some at_placed
stage_for_event order_packed = some at_packed
stage_for_event order_ready_to_ship = some at_packed
stage_for_event order_shipped = some at_shipped
stage_for_event shipment_dispatched = some at_shipped
stage_for_event order_out_for_delivery = some at_out_for_delivery
stage_for_event shipment_out_for_delivery = some at_out_for_delivery
stage_for_event order_delivered = some at_delivered
stage_for_event shipment_delivered = some at_delivered
stage_for_event other_event = none

pub record TrackingEventInput : Type 0 where
  pub event_type : EventType
  pub occurred_at : ℕ

pub record TrackingStageView : Type 0 where
  pub id : TrackingStage
  pub label : String
  pub completed_at : Option ℕ
  pub note : Option String

pub record TrackedOrder : Type 0 where
  pub status : OrderStatus
  pub placed_at : ℕ
  pub shipped_at : Option ℕ
  pub delivered_at : Option ℕ

-- The map `earliest`.
abbrev pub Earliest : Type 0
Earliest = TrackingStage → Option ℕ

-- `if (!existing || at < existing)`.
unfoldable pub earlier : Option ℕ → ℕ → Option ℕ
earlier none at = some at
earlier (some existing) at = if ltb at existing then some at else some existing

-- The event proves the stage.
unfoldable pub proves : TrackingStage → TrackingEventInput → Bool
unfolding stage_for_event
proves id event = elim (stage_for_event event.event_type) [
  | some stage ↦ same_stage stage id
  | none ↦ false
]

-- The body of the loop.
unfoldable pub record_event : Earliest → TrackingEventInput → Earliest
unfolding proves earlier
record_event earliest event id =
    if proves id event then earlier (earliest id) event.occurred_at else earliest id

unfoldable pub record_events : Earliest → List TrackingEventInput → Earliest
unfolding record_event
record_events earliest [] = earliest
record_events earliest (event ∷ events) = record_events (record_event earliest event) events

unfoldable pub fallback : TrackedOrder → TrackingStage → Option ℕ
fallback order at_placed = some order.placed_at
fallback order at_packed = none
fallback order at_shipped = order.shipped_at
fallback order at_out_for_delivery = none
fallback order at_delivered = order.delivered_at

-- `earliest.get(id) ?? fallback[id]`.
unfoldable pub completed_at : TrackedOrder → List TrackingEventInput → TrackingStage → Option ℕ
unfolding record_events fallback
completed_at order events id = elim (record_events (λ _. none) events id) [
  | some at ↦ some at
  | none ↦ fallback order id
]

pub record Tracking : Type 0 where
  pub stages : List TrackingStageView
  pub current_stage : Option TrackingStage
  pub status_note : Option String

unfoldable pub build_tracking : TrackedOrder → List TrackingEventInput → Tracking
unfolding completed_at tracking_stage_label tracking_stage_for off_track_status
build_tracking order events = record {
  stages =
      map
        (λ id. record {
          id = id;
          label = tracking_stage_label id;
          completed_at = completed_at order events id;
          note = none;
        })
        tracking_stages;
  current_stage = tracking_stage_for order.status;
  status_note = off_track_status order.status;
}

-- The time t is not after any event of the stage.
abbrev pub IsFirst : TrackingStage → ℕ → List TrackingEventInput → Type 0
IsFirst id t events = All (λ e. t ≤ e.occurred_at) (filter (proves id) events)

IsFirst-cons :
    (id : TrackingStage) (t : ℕ) (e : TrackingEventInput) (es : List TrackingEventInput)
    → (proves id e ≡ true → t ≤ e.occurred_at)
    → IsFirst id t es
    → IsFirst id t (e ∷ es)
IsFirst-cons id t e es h hs = elim (Bool-cases (proves id e)) [
  | inl p ↦ rw p (h p, hs)
  | inr p ↦ rw p hs
]

abbrev pub at_time : TrackingStage → ℕ → List TrackingEventInput → Bool
at_time id t events = any (λ e. proves id e && (e.occurred_at == t)) events

record_event-some :
    (id : TrackingStage) (e : TrackingEventInput) (m : Earliest) (u : ℕ)
    → m id ≡ some u
    → (v : ℕ) × (record_event m e id ≡ some v)
      × (v ≤ u)
      × (proves id e ≡ true → v ≤ e.occurred_at)
      × ((v ≡ u) ⊎ ((proves id e ≡ true) × (e.occurred_at ≡ v)))
unfolding record_event
record_event-some id e m u h = elim (Bool-cases (proves id e)) [
  | inl p ↦ elim (Bool-cases (ltb e.occurred_at u)) [
    | inl l ↦
        (e.occurred_at, rw (p, h, earlier, l) refl, omega tests, λ _. omega arith, inr (p, refl))
    | inr l ↦ (u, rw (p, h, earlier, l) refl, omega arith, λ _. grind arith, inl refl)
  ]
  | inr p ↦ (u, rw (p, h) refl, omega arith, λ q. cc, inl refl)
]

record_events-some :
    (id : TrackingStage) (events : List TrackingEventInput) (m : Earliest) (u : ℕ)
    → m id ≡ some u
    → (t : ℕ) × (record_events m events id ≡ some t)
      × (t ≤ u)
      × IsFirst id t events
      × ((t ≡ u) ⊎ (at_time id t events ≡ true))
unfolding record_events
record_events-some id [] m u h = (u, h, omega arith, tt, inl refl)
record_events-some id (e ∷ es) m u h =
    let (v, hv, below, first, source) = record_event-some id e m u h in
    let (t, ht, below', firsts, source') = record_events-some id es (record_event m e) v hv in
    (t, ht, omega arith, IsFirst-cons id t e es (λ p. omega (arith, first p)) firsts, ground arith)

-- No event proves the stage, or t is the first time at which one does.
record_events-none :
    (id : TrackingStage) (events : List TrackingEventInput) (m : Earliest)
    → m id ≡ none
    → ((any (proves id) events ≡ false) × (record_events m events id ≡ none))
      ⊎ ((t : ℕ) × (record_events m events id ≡ some t)
          × IsFirst id t events
          × (at_time id t events ≡ true))
unfolding record_events record_event earlier
record_events-none id [] m h = inl (refl, h)
record_events-none id (e ∷ es) m h = elim (Bool-cases (proves id e)) [
  | inl p ↦
      let (t, ht, below, firsts, source) =
        record_events-some id es (record_event m e) e.occurred_at (rw (p, h) refl) in
      inr (t, ht, IsFirst-cons id t e es (λ _. below) firsts, ground arith)
  | inr p ↦ elim (record_events-none id es (record_event m e) (rw (p, h) refl)) [
    | inl (unproved, none_yet) ↦ inl (rw (p, unproved) refl, none_yet)
    | inr (t, ht, firsts, source) ↦
        inr (t, ht, IsFirst-cons id t e es (λ q. cc) firsts, ground arith)
  ]
]

-- For each stage of the tracker: where no event proves the stage, its date is that of the order's own
-- column; else it is the time of an event that proves the stage, and no such event is earlier.
completed_at-earliest :
    (order : TrackedOrder) (events : List TrackingEventInput) (id : TrackingStage)
    → ((any (proves id) events ≡ false) × (completed_at order events id ≡ fallback order id))
      ⊎ ((t : ℕ) × (completed_at order events id ≡ some t)
          × IsFirst id t events
          × (at_time id t events ≡ true))
unfolding completed_at
completed_at-earliest order events id = elim (record_events-none id events (λ _. none) refl) [
  | inl (unproved, e) ↦ inl (unproved, rw (completed_at, e) refl)
  | inr (t, e, firsts, source) ↦ inr (t, rw (completed_at, e) refl, firsts, source)
]
