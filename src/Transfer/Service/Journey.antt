-- ===== src/Transfer/Service/Journey.antt =====
-- A transfer from its dispatch to its receipt, and what a receipt may say.
use mathlib.Core.Path.{subst}
use mathlib.Core.Option.{some-injective}
use achichiz_back_end.Prelude.{
  ==_iff, >>=-eq-ok, All, All-get_elem?, All-map, Bool, Bool-cases, Distinct, List, Option-cases,
  [], any, ap, arith, false, find?, get_elem?, inl, inr, ltb, map, not, ok, ok-injective,
  or-eq-false, refl, require-eq-ok, some, suc, sum_by, sym, true, zero, ℕ, ◌+◌, ◌==◌, ◌∙◌, ◌∷◌, ◌≡◌,
  ◌≢◌, ◌≤◌, ◌⊎◌,
}
use achichiz_back_end.Transfer.{
  StockTransferStatus, TransferEdge, approved, assert_transfer_action, cancelled, edge, in_transit,
  receive, received, requested,
}
use achichiz_back_end.Transfer.Service.{
  StockTransfer, TransferLine, Warehousing, add_override, assert_action, check_overrides,
  dispatch_transfer, lock_or_throw, override_map, receive_transfer, received_of, set_received,
  with_id,
}
use achichiz_back_end.Transfer.Service.Levels.{incoming_at, on_hand_at, reserved_at}
use achichiz_back_end.Transfer.Service.Dispatch.{dispatch_transfer-Sent, lock_or_throw-ok, sent_at}
use achichiz_back_end.Transfer.Service.Receive.{receive_transfer-Arrived, received_at}

all_received :
    (w v q : ℕ) (lines : List TransferLine)
    → sum_by (received_at w [] v q) lines ≡ sum_by (sent_at w v q) lines
unfolding received_of
all_received w v q [] = refl
all_received w v q (line ∷ lines) =
    ap (λ (k : ℕ). sent_at w v q line + k) (all_received w v q lines)

assert_action-receive :
    (status : StockTransferStatus) {edge : TransferEdge}
    → assert_action status receive ≡ ok edge
    → status ≡ in_transit
unfolding assert_action assert_transfer_action
assert_action-receive requested e = cc
assert_action-receive approved e = cc
assert_action-receive in_transit e = refl
assert_action-receive received e = cc
assert_action-receive cancelled e = cc

-- A transfer that is dispatched can be received in full, and then nothing is lost: of every
-- stockable, what the lines send has left the shelf of the source and is on that of the destination,
-- nothing is incoming that was not before, and no reserved quantity has changed.
pub receive_transfer-dispatch_transfer :
    (level_id : ℕ → ℕ → ℕ) (id : ℕ) (s : Warehousing) {u : Warehousing}
    → dispatch_transfer level_id id s ≡ ok u
    → (t : StockTransfer) × (s.transfers id ≡ some t)
      × (x : Warehousing) × (receive_transfer level_id id [] u ≡ ok x)
      × ((v q : ℕ)
          → on_hand_at v q x + sum_by (sent_at t.from_warehouse v q) t.lines
            ≡ on_hand_at v q s + sum_by (sent_at t.to_warehouse v q) t.lines)
      × ((v q : ℕ) → incoming_at v q x ≡ incoming_at v q s)
      × ((v q : ℕ) → reserved_at v q x ≡ reserved_at v q s)
unfolding check_overrides override_map
receive_transfer-dispatch_transfer level_id id s {u = u} e =
    let (t, found, was, left, taken, expected, reserved, enough) =
      dispatch_transfer-Sent level_id id s e in
    let (x, done, status, added, cleared, kept) =
      receive_transfer-Arrived level_id id [] u (record t { status = in_transit }) left refl refl in
    (
      t,
      found,
      x,
      done,
      λ v q. omega (arith, taken v q, added v q, all_received t.to_warehouse v q t.lines),
      λ v q. omega (arith, expected v q, cleared v q),
      λ v q. kept v q ∙ reserved v q,
    )

abbrev pub id_of : TransferLine → ℕ
id_of line = line.id

-- The line that an id finds is the one that has it.
find_by_id :
    (lines : List TransferLine) (i : ℕ) {line : TransferLine}
    → Distinct id_of lines
    → get_elem? lines i ≡ some line
    → find? (with_id line.id) lines ≡ some line
find_by_id [] i d e = cc
find_by_id (l ∷ lines) zero d e =
    let self : (l.id == l.id) ≡ true = ground arith in
    subst (λ (x : TransferLine). find? (with_id x.id) (l ∷ lines) ≡ some x) (some-injective _ _ e)
      (rw self refl)
find_by_id (l ∷ lines) (suc i) {line = line} (fresh, d) e =
    let apart = All-get_elem? (λ (y : TransferLine). id_of l ≢ id_of y) lines i fresh e in
    let other : (l.id == line.id) ≡ false = ground arith in rw other (find_by_id lines i d e)

received_within :
    (lines : List TransferLine) (overrides : List (ℕ × ℕ)) (line : TransferLine)
    → check_overrides lines overrides ≡ ok tt
    → find? (with_id line.id) lines ≡ some line
    → received_of overrides line ≤ line.sent_qty
unfolding check_overrides received_of
received_within lines [] line e found = omega arith
received_within lines ((id, qty) ∷ overrides) line e found =
    elim (Option-cases (find? (with_id id) lines)) [
      | inl unknown ↦ let wrong = rw (check_overrides, unknown) at e in cc
      | inr (named, here) ↦
          let (within, rest) =
            require-eq-ok (not (ltb named.sent_qty qty)) _ _ (rw (check_overrides, here) at e) in
          elim (Bool-cases (id == line.id)) [
            | inr other ↦ rw (received_of, other) (received_within lines overrides line rest found)
            | inl same ↦
                let one : named ≡ line = some-injective _ _ (
                  sym here
                  ∙ ap (λ (x : ℕ). find? (with_id x) lines) ((==_iff id line.id).0 same)
                  ∙ found) in
                let bound : qty ≤ named.sent_qty = ground arith in
                rw (received_of, same) (subst (λ (x : TransferLine). qty ≤ x.sent_qty) one bound)
          ]
    ]

pointwise {ℓ κ} :
    {A : Type ℓ} (P : A → Type κ) (xs : List A)
    → ((i : ℕ) (x : A) → get_elem? xs i ≡ some x → P x)
    → All P xs
pointwise P [] h = tt
pointwise P (x ∷ xs) h = (h 0 x refl, pointwise P xs (λ i. h (suc i)))

abbrev pub IsWithin : TransferLine → Type 0
IsWithin line = line.received_qty ≤ line.sent_qty

abbrev pub names : ℕ → ℕ × ℕ → Bool
names id (named, qty) = named == id

-- Another override of the same line, or one of another line.
received_of-add_override :
    (id qty : ℕ) (entries : List (ℕ × ℕ)) (line : TransferLine)
    → (id == line.id) ≡ false
    → received_of (add_override id qty entries) line ≡ received_of entries line
unfolding received_of add_override
received_of-add_override id qty [] line other = rw (received_of, other) refl
received_of-add_override id qty ((j, q) ∷ rest) line other =
    let later = received_of-add_override id qty rest line other in
    elim (Bool-cases (j == id)) [
      | inl same ↦
          let apart : (j == line.id) ≡ false = rw ((==_iff j id).0 same) other in
          rw (add_override, same, received_of, apart) refl
      | inr next ↦ rw (add_override, next, received_of, later) refl
    ]

received_of-override_map :
    (input entries : List (ℕ × ℕ)) (line : TransferLine)
    → any (names line.id) input ≡ false
    → received_of (override_map input entries) line ≡ received_of entries line
unfolding override_map
received_of-override_map [] entries line e = refl
received_of-override_map ((id, qty) ∷ more) entries line e =
    let (other, rest) = or-eq-false (id == line.id) (any (names line.id) more) e in
    received_of-override_map more (add_override id qty entries) line rest
    ∙ received_of-add_override id qty entries line other

-- A line that the overrides name, or one that is received in full.
abbrev pub IsNamedOrFull : List (ℕ × ℕ) → TransferLine → Type 0
IsNamedOrFull input line = (any (names line.id) input ≡ true) ⊎ (line.received_qty ≡ line.sent_qty)

set_received-IsNamedOrFull :
    (input : List (ℕ × ℕ)) (line : TransferLine)
    → IsNamedOrFull input (set_received (override_map input []) line)
unfolding received_of
set_received-IsNamedOrFull input line = elim (Bool-cases (any (names line.id) input)) [
  | inl named ↦ inl named
  | inr unnamed ↦ inr (received_of-override_map input [] line unnamed)
]

-- Where the lines have different ids, no receipt that succeeds leaves a line with more received than
-- was sent, whatever the overrides say, and every line that they do not name is received in full.
pub receive_transfer-IsWithin :
    (level_id : ℕ → ℕ → ℕ) (id : ℕ) (input : List (ℕ × ℕ)) (s : Warehousing) (t : StockTransfer)
    {u : Warehousing}
    → s.transfers id ≡ some t
    → Distinct id_of t.lines
    → receive_transfer level_id id input s ≡ ok u
    → (lines : List TransferLine) × (u.transfers id
        ≡ some (record t { status = received; lines = lines }))
      × All IsWithin lines
      × All (IsNamedOrFull input) lines
      × (lines ≡ map (set_received (override_map input [])) t.lines)
unfolding receive_transfer lock_or_throw assert_action assert_transfer_action
receive_transfer-IsWithin level_id id input s t {u = u} found distinct e =
    let (x, locked, e1) = >>=-eq-ok (lock_or_throw id s) _ e in
    let same : x ≡ t = some-injective _ _ (sym (lock_or_throw-ok id s locked) ∙ found) in
    let (edge, legal, e2) = >>=-eq-ok (assert_action x.status receive) _ e1 in
    let (none_wrong, checked, e3) =
      >>=-eq-ok (check_overrides x.lines (override_map input [])) _ e2 in
    let checks =
      subst (λ (y : StockTransfer). check_overrides y.lines (override_map input []) ≡ ok tt) same
        checked in
    let moving : t.status ≡ in_transit =
      assert_action-receive t.status
        (subst (λ (y : StockTransfer). assert_action y.status receive ≡ ok edge) same legal) in
    let (v, done, left, added, cleared, kept) =
      receive_transfer-Arrived level_id id input s t found moving checks in
    let now = ok-injective (sym done ∙ e) in
    (
      map (set_received (override_map input [])) t.lines,
      ap (λ (y : Warehousing). y.transfers id) (sym now) ∙ left,
      All-map IsWithin (set_received (override_map input [])) t.lines (
          pointwise
            (λ (line : TransferLine). received_of (override_map input []) line ≤ line.sent_qty)
            t.lines
            (λ i line at_i.
              received_within t.lines (override_map input []) line checks
                (find_by_id t.lines i distinct at_i))),
      All-map (IsNamedOrFull input) (set_received (override_map input [])) t.lines (
          pointwise
            (λ (line : TransferLine).
              IsNamedOrFull input (set_received (override_map input []) line))
            t.lines (λ i line at_i. set_received-IsNamedOrFull input line)),
      refl,
    )
