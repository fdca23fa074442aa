-- ===== src/Auth/Family.antt =====
-- A token that is presented twice ends the session, for good.
use mathlib.Core.Path.{subst}
use mathlib.Core.Option.{some-injective}
use achichiz_back_end.Prelude.{
  All, All-implies, Bool-cases, Distinct, List, [], any, ap, arith, false, find?, if◌then◌else◌,
  inl, inr, map, none, refl, some, true, ℕ, ◌==◌, ◌∙◌, ◌∷◌, ◌≡◌, ◌≢◌,
}
use achichiz_back_end.Auth.{
  Event, IssuedSession, Session, SessionStore, after_events, closed, decide_refresh, has_hash,
  is_current, issues, logs_out, logs_out_everywhere, loses, read_refresh, refresh, refreshes,
  rehashed, revoke_family, revoke_session, revoke_session_row, rotate, rotate_row, rotate_session,
  write_refresh,
}
use achichiz_back_end.Auth.Rows.{Keeps, after_events-All}
use achichiz_back_end.Auth.Once.{
  Fresh, IsNot, after_events-IsNot, find_hash-none, hash_of, refresh-IsNot, refresh-Rotated,
  write_refresh-Rotated,
}

-- Whatever row the session has, it is revoked.
abbrev pub IsShut : ℕ → Session → Type 0
IsShut id row = row.id ≡ id → row.is_revoked ≡ true

revoke_family-IsShut :
    (id : ℕ) (s : SessionStore)
    → All (IsShut id) (revoke_family id s).sessions × ((revoke_family id s).denied id ≡ true)
unfolding revoke_session revoke_session_row
revoke_family-IsShut id s =
    (shut s.sessions, let self : (id == id) ≡ true = ground arith in rw self refl)
  where
    shut :
        (rows : List Session)
        → All (IsShut id) (map (λ (row : Session). if row.id == id then closed row else row) rows)
    shut [] = tt
    shut (row ∷ rows) = elim (Bool-cases (row.id == id)) [
      | inl own ↦ rw own (λ p. refl, shut rows)
      | inr other ↦ rw other (λ p. ground arith, shut rows)
    ]

find-All :
    (P : Session → Type 0) (h : ℕ) (rows : List Session) {row : Session}
    → All P rows
    → find? (has_hash h) rows ≡ some row
    → P row
find-All P h [] k e = cc
find-All P h (x ∷ rows) (p, k) e = elim (Bool-cases (has_hash h x)) [
  | inl here ↦ subst P (some-injective _ _ (rw here at e)) p
  | inr other ↦ find-All P h rows k (rw other at e)
]

module _ (hash : ℕ → ℕ) where
  -- An event makes no new session under the id.
  abbrev pub IsOther : ℕ → Event hash → Type 0
  IsOther session_id (issues customer_id id token expires_at) = id ≢ session_id
  IsOther session_id (refreshes presented next now) = Unit
  IsOther session_id (logs_out presented) = Unit
  IsOther session_id (logs_out_everywhere presented) = Unit
  IsOther session_id (loses k) = Unit

  IsOther-Keeps :
      (id : ℕ) (e : Event hash) → IsOther id e → Keeps (IsShut id) (λ row p q. refl) hash e
  IsOther-Keeps session_id (issues customer_id id token expires_at) f = λ p. absurd (f p)
  IsOther-Keeps session_id (refreshes presented next now) f = λ row p. p
  IsOther-Keeps session_id (logs_out presented) f = tt
  IsOther-Keeps session_id (logs_out_everywhere presented) f = tt
  IsOther-Keeps session_id (loses k) f = tt

  -- No token gets a session whose rows are revoked.
  shut_out :
      (id presented next now : ℕ) (s t : SessionStore) {issued : IssuedSession}
      → All (IsShut id) s.sessions
      → refresh hash (some presented) next now s ≡ (t, some issued)
      → issued.session_id ≢ id
  shut_out id presented next now s t k e p =
      let (customer, seen, rotated) = refresh-Rotated hash presented next now s t e in
      let row = find-All (IsShut id) (hash presented) s.sessions k seen.found in
      let closed_row = row (seen.its_id ∙ p) in let open_row = seen.is_open in cc

  -- Once a session is revoked, no token gets it, after any events that do not make it anew.
  pub revoke_family-forever :
      (id presented next now : ℕ) (s t : SessionStore) {issued : IssuedSession}
      (events : List (Event hash))
      → All (IsOther id) events
      → refresh hash (some presented) next now (after_events hash events (revoke_family id s))
        ≡ (t, some issued)
      → issued.session_id ≢ id
  revoke_family-forever id presented next now s t events other e =
      shut_out id presented next now (after_events hash events (revoke_family id s)) t
        (after_events-All (IsShut id) (λ row p q. refl) hash events (revoke_family id s)
          (All-implies (IsOther id) _ events (IsOther-Keeps id) other)
          (revoke_family-IsShut id s).0)
        e

  replay_revokes :
      (presented next now id : ℕ) (s : SessionStore)
      → All (IsNot (hash presented)) s.sessions
      → s.spent (hash presented) ≡ some id
      → refresh hash (some presented) next now s ≡ (revoke_family id s, none)
  unfolding refresh read_refresh write_refresh decide_refresh
  replay_revokes presented next now id s k known =
      let missing = find_hash-none (hash presented) s.sessions k in
      rw (refresh, read_refresh, missing, known) refl

  -- A replay ends the session: when a token that was exchanged is presented again, while Redis still
  -- remembers it, the answer is no session, the session's access tokens are denied, and from then
  -- on, whatever happens, no token at all gets that session again.
  pub refresh-replayed :
      (presented next now : ℕ) (s t : SessionStore) {issued : IssuedSession}
      (events : List (Event hash)) (next_again again : ℕ)
      → refresh hash (some presented) next now s ≡ (t, some issued)
      → Distinct hash_of s.sessions
      → hash next ≢ hash presented
      → All (Fresh hash (hash presented)) events
      → (after_events hash events t).spent (hash presented) ≡ some issued.session_id
      → let (u, answer) =
          refresh hash (some presented) next_again again (after_events hash events t) in
        (answer ≡ none)
        × (u.denied issued.session_id ≡ true)
        × ((later : List (Event hash)) (token next_later at_last : ℕ) (v : SessionStore)
              (other : IssuedSession)
            → All (IsOther issued.session_id) later
            → refresh hash (some token) next_later at_last (after_events hash later u)
              ≡ (v, some other)
            → other.session_id ≢ issued.session_id)
  refresh-replayed presented next now s t {issued = issued} events next_again again e distinct apart
        fresh known =
      let id = issued.session_id in
      let before = after_events hash events t in
      let gone =
        after_events-IsNot hash (hash presented) events t fresh
          (refresh-IsNot hash presented next now s t e distinct apart) in
      let replay = replay_revokes presented next_again again id before gone known in
      rw replay (
        refl,
        (revoke_family-IsShut id before).1,
        λ later token next_later at_last v other kept got.
            revoke_family-forever id token next_later at_last before v {issued = other} later kept
              got,
      )

  none_current :
      (id h next : ℕ) (rows : List Session)
      → next ≢ h
      → any (is_current id h) (map (rotate_row id h next) rows) ≡ false
  unfolding rotate_row
  none_current id h next [] apart = refl
  none_current id h next (row ∷ rows) apart =
      let ih = none_current id h next rows apart in
      elim (Bool-cases (is_current id h row)) [
        | inr passed ↦ rw (rotate_row, passed, passed, ih) refl
        | inl taken ↦
            let moved : is_current id h (rehashed next row) ≡ false = ground arith in
            rw (rotate_row, taken, moved, ih) refl
      ]

  overtaken :
      (id customer presented next : ℕ) (s : SessionStore)
      → any (is_current id (hash presented)) s.sessions ≡ false
      → write_refresh hash (rotate id customer) presented next s ≡ (revoke_family id s, none)
  unfolding write_refresh rotate_session
  overtaken id customer presented next s gone = elim (Bool-cases (s.is_usable customer)) [
    | inr blocked ↦ rw (write_refresh, blocked) refl
    | inl usable ↦ rw (write_refresh, usable, rotate_session, gone) refl
  ]

  -- Two requests that read the same token before either wrote: the one that writes second finds that
  -- its row is no longer the current one. It gets no session, and the session is revoked and denied.
  pub write_refresh-raced :
      (id customer presented next next_other : ℕ) (s t : SessionStore) {issued : IssuedSession}
      → write_refresh hash (rotate id customer) presented next s ≡ (t, some issued)
      → hash next ≢ hash presented
      → let (u, answer) = write_refresh hash (rotate id customer) presented next_other t in
        (answer ≡ none) × (u.denied id ≡ true) × All (IsShut id) u.sessions
  write_refresh-raced id customer presented next next_other s t e apart =
      let rotated = write_refresh-Rotated hash id customer presented next s t e in
      let gone =
        ap (any (is_current id (hash presented))) rotated.rows
        ∙ none_current id (hash presented) (hash next) s.sessions apart in
      rw (overtaken id customer presented next_other t gone)
        (refl, (revoke_family-IsShut id t).1, (revoke_family-IsShut id t).0)
