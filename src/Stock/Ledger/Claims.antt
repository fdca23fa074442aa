-- ===== src/Stock/Ledger/Claims.antt =====
-- The claim of a reservation that is to be released.
use mathlib.Core.Option.{some-injective}
use mathlib.Core.Path.{subst}
use achichiz_back_end.Prelude.{
  All, Bool, Bool-cases, List, Option, Option-cases, [], ap, arith, false, if◌then◌else◌, inl, inr,
  none, refl, some, true, ℕ, ◌+◌, ◌==◌, ◌∙◌, ◌∷◌, ◌≡◌, ◌≢◌,
}
use achichiz_back_end.Stock.Ledger.{Levels, Reservation, find_reservation, mark_released}
use achichiz_back_end.Stock.Ledger.Invariant.{IsPlaced, held}

-- The row that is marked.
abbrev pub released_of : Reservation → Reservation
released_of r = record r { is_released = true }

-- A claim of a reservation: it was there and open, and its level alone holds its units no longer.
pub record Claims (id : ℕ) (rs : List Reservation) (claimed : Reservation) (rest : List Reservation)
    : Type 0 where
  pub there : find_reservation id rs ≡ some claimed
  pub marked : find_reservation id rest ≡ some (released_of claimed)
  pub was_open : claimed.is_released ≡ false
  pub freed :
      held claimed.inventory_level_id rs ≡ claimed.quantity + held claimed.inventory_level_id rest
  pub others : (j : ℕ) → j ≢ claimed.inventory_level_id → held j rest ≡ held j rs
  pub placed : (levels : Levels) → IsPlaced levels rs → IsPlaced levels rest

first-Claims :
    (id : ℕ) (r : Reservation) (rs : List Reservation)
    → (r.id == id) ≡ true
    → r.is_released ≡ false
    → Claims id (r ∷ rs) r (released_of r ∷ rs)
unfolding find_reservation held
first-Claims id r rs same fresh = record {
  there = rw same refl;
  marked = rw same refl;
  was_open = fresh;
  freed =
      let own : (r.inventory_level_id == r.inventory_level_id) ≡ true = ground arith in
      rw (own, fresh) refl;
  others = λ j other.
      let no_more : (r.inventory_level_id == j) ≡ false = ground arith in rw no_more refl;
  placed = λ levels h. h;
}

later-Claims :
    (id : ℕ) (r : Reservation) (rs : List Reservation) (claimed : Reservation)
    (rest : List Reservation)
    → (r.id == id) ≡ false
    → Claims id rs claimed rest
    → Claims id (r ∷ rs) claimed (r ∷ rest)
unfolding find_reservation held
later-Claims id r rs claimed rest differs h = record {
  there = rw differs h.there;
  marked = rw differs h.marked;
  was_open = h.was_open;
  freed = let f = h.freed in ground arith;
  others = λ j other. let o = h.others j other in ground arith;
  placed = λ levels (first, rest_placed). (first, h.placed levels rest_placed);
}

unless-eq-some {ℓ} :
    {A : Type ℓ} (test : Bool) {x y : A}
    → ◌≡◌ {A = Option A} (if test then none else some x) (some y)
    → (test ≡ false) × (x ≡ y)
unless-eq-some true e = cc
unless-eq-some false e = (refl, some-injective _ _ e)

unless_some {ℓ} :
    {A : Type ℓ} (test : Bool) {x y : A}
    → test ≡ false
    → x ≡ y
    → ◌≡◌ {A = Option A} (if test then none else some x) (some y)
unless_some true h e = cc
unless_some false h e = ap some e

unless_none {ℓ} :
    {A : Type ℓ} (test : Bool) (x : A)
    → test ≡ true
    → ◌≡◌ {A = Option A} (if test then none else some x) none
unless_none true x h = refl
unless_none false x h = cc

pub mark_released-Claims :
    (id : ℕ) (rs : List Reservation) {claimed : Reservation} {rest : List Reservation}
    → mark_released id rs ≡ some (claimed, rest)
    → Claims id rs claimed rest
unfolding mark_released
mark_released-Claims id [] e = cc
mark_released-Claims id (r ∷ rs) {claimed} {rest} e = elim (Bool-cases (r.id == id)) [
  | inl same ↦
      let (fresh, now) = unless-eq-some r.is_released (rw same at e) in
      subst (λ (x : Reservation × List Reservation). Claims id (r ∷ rs) x.0 x.1) now
        (first-Claims id r rs same fresh)
  | inr differs ↦ elim (Option-cases (mark_released id rs)) [
    | inl nothing ↦ cc (rw (differs, nothing) at e)
    | inr ((c, later), e₁) ↦
        subst (λ (x : Reservation × List Reservation). Claims id (r ∷ rs) x.0 x.1)
          (some-injective _ _ (rw (differs, e₁) at e))
          (later-Claims id r rs c later differs (mark_released-Claims id rs e₁))
  ]
]

-- Whether a claim succeeds is what the row says.
pub mark_released-open :
    (id : ℕ) (rs : List Reservation) {r : Reservation}
    → find_reservation id rs ≡ some r
    → r.is_released ≡ false
    → (rest : List Reservation) × (mark_released id rs ≡ some (r, rest))
unfolding find_reservation mark_released
mark_released-open id [] e fresh = cc
mark_released-open id (r ∷ rs) {r = q} e fresh = elim (Bool-cases (r.id == id)) [
  | inl same ↦
      let here : r ≡ q = some-injective _ _ (rw same at e) in
      let open_here : r.is_released ≡ false =
        ap (λ (x : Reservation). x.is_released) here ∙ fresh in
      (
        released_of r ∷ rs,
        rw same (
            unless_some r.is_released open_here
              (ap (λ (x : Reservation). (x, released_of r ∷ rs)) here)),
      )
  | inr differs ↦
      let (rest, done) = mark_released-open id rs (rw differs at e) fresh in
      (r ∷ rest, rw (differs, done) refl)
]

pub mark_released-closed :
    (id : ℕ) (rs : List Reservation) {r : Reservation}
    → find_reservation id rs ≡ some r
    → r.is_released ≡ true
    → mark_released id rs ≡ none
unfolding find_reservation mark_released
mark_released-closed id [] e gone = cc
mark_released-closed id (r ∷ rs) {r = q} e gone = elim (Bool-cases (r.id == id)) [
  | inl same ↦
      let here : r ≡ q = some-injective _ _ (rw same at e) in
      rw same (unless_none r.is_released _ (ap (λ (x : Reservation). x.is_released) here ∙ gone))
  | inr differs ↦ rw (differs, mark_released-closed id rs (rw differs at e) gone) refl
]

pub All-find_reservation {ℓ} :
    (P : Reservation → Type ℓ) (id : ℕ) (rs : List Reservation) {r : Reservation}
    → All P rs
    → find_reservation id rs ≡ some r
    → P r
unfolding find_reservation
All-find_reservation P id [] h e = cc
All-find_reservation P id (r ∷ rs) (first, rest) e = elim (Bool-cases (r.id == id)) [
  | inl same ↦ subst P (some-injective _ _ (rw same at e)) first
  | inr differs ↦ All-find_reservation P id rs rest (rw differs at e)
]
