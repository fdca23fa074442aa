-- ===== src/Transfer/Service/Covered.antt =====
-- When a dispatch succeeds.
use mathlib.Core.Path.{subst}
use mathlib.Core.Option.{some-injective}
use achichiz_back_end.Prelude.{
  >>=-eq-ok, All, All-implies, List, Option-cases, Result-cases, [], ap, arith, inl, inr, le→leb,
  ok, refl, some, suc, sum_by, sym, true, zero, ℕ, ◌+◌, ◌-◌, ◌<◌, ◌↔◌, ◌∙◌, ◌∷◌, ◌≡◌, ◌≤◌,
}
use achichiz_back_end.Prelude.Sorting.{sort, sort-All, sort-sum}
use achichiz_back_end.Transfer.{
  StockTransferStatus, TransferEdge, approved, assert_transfer_action, cancelled, dispatch, edge,
  in_transit, received, requested,
}
use achichiz_back_end.Transfer.Service.{
  Level, StockTransfer, TransferLine, Warehousing, adjust_on_hand, assert_action, dispatch_line,
  dispatch_lines, dispatch_transfer, find_levels, has_lines, level_order, lock_or_throw,
  moved_level, opposite, update_status, write_level,
}
use achichiz_back_end.Transfer.Service.Levels.{IsStocked, on_hand_at, reserved_at, value_of}
use achichiz_back_end.Transfer.Service.Dispatch.{
  dispatch_line-Sent, dispatch_transfer-Sent, sent_at,
}

-- Each line has a level at the source and sends something, as the tables require of a line.
abbrev pub SendsFrom : ℕ → Warehousing → TransferLine → Type 0
SendsFrom w s line = IsStocked w line.stockable s × (0 < line.sent_qty)

-- Of every stockable, the source has what all lines together send beside what is reserved.
abbrev pub HasAll : ℕ → List TransferLine → Warehousing → Type 0
HasAll w lines s = (q : ℕ) → reserved_at w q s + sum_by (sent_at w w q) lines ≤ on_hand_at w q s

adjust_on_hand-down_ok :
    (w r n : ℕ) (s : Warehousing) {l : Level}
    → s.levels w r ≡ some l
    → 0 < n
    → l.reserved_qty + n ≤ l.on_hand_qty
    → adjust_on_hand w r (opposite n) s
      ≡ ok (
          some
            (l.on_hand_qty - n, write_level w r (record l { on_hand_qty = l.on_hand_qty - n }) s))
unfolding adjust_on_hand moved_level
adjust_on_hand-down_ok w r zero s found h c = absurd (omega arith)
adjust_on_hand-down_ok w r (suc n) s found h c =
    rw (adjust_on_hand, found, moved_level, le→leb _ _ c) refl

sent_self : (w : ℕ) (line : TransferLine) → sent_at w w line.stockable line ≡ line.sent_qty
sent_self w line = ground arith

dispatch_line-ok :
    (id : ℕ) (t : StockTransfer) (line : TransferLine) (s : Warehousing)
    → SendsFrom t.from_warehouse s line
    → reserved_at t.from_warehouse line.stockable s + line.sent_qty
      ≤ on_hand_at t.from_warehouse line.stockable s
    → (u : Warehousing) × (dispatch_line id t line s ≡ ok u)
unfolding dispatch_line
dispatch_line-ok id t line s ((l, found), positive) enough =
    let on = ap (value_of (λ x. x.on_hand_qty)) found in
    let held = ap (value_of (λ x. x.reserved_qty)) found in
    let done =
      adjust_on_hand-down_ok t.from_warehouse line.stockable line.sent_qty s found positive
        (omega (arith, on, held, enough)) in
    elim (Result-cases (dispatch_line id t line s)) [
      | inl fine ↦ fine
      | inr (x, e) ↦ let wrong = rw (dispatch_line, done) at e in cc
    ]

abbrev Stocks : ℕ → Warehousing → Warehousing → Type 0
Stocks w s u = (q : ℕ) → IsStocked w q s → IsStocked w q u

dispatch_lines-ok :
    (id : ℕ) (t : StockTransfer) (lines : List TransferLine) (s : Warehousing)
    → All (SendsFrom t.from_warehouse s) lines
    → HasAll t.from_warehouse lines s
    → (u : Warehousing) × (dispatch_lines id t lines s ≡ ok u)
unfolding dispatch_lines
dispatch_lines-ok id t [] s h enough = (s, refl)
dispatch_lines-ok id t (line ∷ lines) s (h, hs) enough =
    let w = t.from_warehouse in
    let here = enough line.stockable in
    let own = sent_self w line in
    let (u, e) = dispatch_line-ok id t line s h (omega (arith, here, own)) in
    let first = dispatch_line-Sent id t line s e in
    let later =
      All-implies (SendsFrom w s) (SendsFrom w u) lines
        (λ x k. (first.stocked_kept w x.stockable k.0, k.1)) hs in
    let (x, e1) =
      dispatch_lines-ok id t lines u later
        (λ q. omega (arith, enough q, first.taken w q, first.reserved_kept w q)) in
    (x, rw (dispatch_lines, e) e1)

find_levels-ok :
    (w : ℕ) (lines : List TransferLine) (s : Warehousing)
    → All (SendsFrom w s) lines
    → find_levels w lines s ≡ ok tt
unfolding find_levels
find_levels-ok w [] s h = refl
find_levels-ok w (line ∷ lines) s (((l, found), positive), hs) =
    rw (find_levels, found) (find_levels-ok w lines s hs)

find_levels-All :
    (w : ℕ) (lines : List TransferLine) (s : Warehousing)
    → All (λ (x : TransferLine). 0 < x.sent_qty) lines
    → find_levels w lines s ≡ ok tt
    → All (SendsFrom w s) lines
unfolding find_levels
find_levels-All w [] s h e = tt
find_levels-All w (line ∷ lines) s (h, hs) e = elim (Option-cases (s.levels w line.stockable)) [
  | inl missing ↦ let wrong = rw (find_levels, missing) at e in cc
  | inr (l, found) ↦ (((l, found), h), find_levels-All w lines s hs (rw (find_levels, found) at e))
]

dispatch_approved :
    (status : StockTransferStatus)
    → status ≡ approved
    → (edge : TransferEdge) × (assert_action status dispatch ≡ ok edge)
unfolding assert_action assert_transfer_action
dispatch_approved approved e = (_, refl)
dispatch_approved requested e = cc
dispatch_approved in_transit e = cc
dispatch_approved received e = cc
dispatch_approved cancelled e = cc

-- An approved transfer whose lines send something, from a warehouse that has at least what is
-- reserved in it, is dispatched exactly where every line has a level there and the warehouse has, of
-- every stockable, what all lines together send beside what is reserved. The lines may name a
-- stockable more than once, and come in any order.
pub dispatch_transfer-ok_iff :
    (level_id : ℕ → ℕ → ℕ) (id : ℕ) (s : Warehousing) (t : StockTransfer)
    → s.transfers id ≡ some t
    → t.status ≡ approved
    → has_lines t ≡ true
    → All (λ (x : TransferLine). 0 < x.sent_qty) t.lines
    → ((q : ℕ) → reserved_at t.from_warehouse q s ≤ on_hand_at t.from_warehouse q s)
    → ((u : Warehousing) × (dispatch_transfer level_id id s ≡ ok u))
      ↔ (All (SendsFrom t.from_warehouse s) t.lines × HasAll t.from_warehouse t.lines s)
unfolding dispatch_transfer lock_or_throw
dispatch_transfer-ok_iff level_id id s t found legal lines positive sound = (
  λ (u, e).
      let (x, found2, was, left, taken, expected, reserved, enough) =
        dispatch_transfer-Sent level_id id s e in
      let same : x ≡ t = some-injective _ _ (sym found2 ∙ found) in
      let (edge, allowed) = dispatch_approved t.status legal in
      let e1 = rw (dispatch_transfer, lock_or_throw, found, allowed, lines) at e in
      let (nothing, levels, e2) = >>=-eq-ok (find_levels t.from_warehouse t.lines s) _ e1 in
      (
        find_levels-All t.from_warehouse t.lines s positive levels,
        subst
            (λ (y : StockTransfer).
              ((q : ℕ) → reserved_at y.from_warehouse q s ≤ on_hand_at y.from_warehouse q s)
              → HasAll y.from_warehouse y.lines s)
            same
            (λ fine q. omega (
              arith,
              taken x.from_warehouse q,
              reserved x.from_warehouse q,
              enough x.from_warehouse q (fine q),
            ))
            sound,
      ),
  λ (all, has).
      let (edge, allowed) = dispatch_approved t.status legal in
      let le = level_order level_id t.from_warehouse in
      let (u, e) =
        dispatch_lines-ok id t (sort le t.lines) s
          (sort-All le (SendsFrom t.from_warehouse s) t.lines all)
          (λ q.
            omega
              (arith, has q, sort-sum le (sent_at t.from_warehouse t.from_warehouse q) t.lines)) in
      (
        update_status id t in_transit u,
        rw
            (
              dispatch_transfer,
              lock_or_throw,
              found,
              allowed,
              lines,
              find_levels-ok t.from_warehouse t.lines s all,
              e,
            )
            refl,
      ),
)
