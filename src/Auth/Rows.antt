-- ===== src/Auth/Rows.antt =====
-- What every event keeps of the rows of the sessions.
use achichiz_back_end.Prelude.{
  All, Bool, Bool-cases, List, Option-cases, [], any, false, if◌then◌else◌, inl, inr, map, none,
  refl, some, ℕ, ◌==◌, ◌∷◌, ◌≡◌,
}
use achichiz_back_end.Auth.{
  Event, RefreshOutcome, Session, SessionStore, after_event, after_events, closed,
  find_session_by_hash, is_current, is_open_for, issue_session, issues, logout, logout_everywhere,
  logs_out, logs_out_everywhere, loses, read_refresh, refresh, refreshes, rehashed, reject,
  remember_spent_token, reuse, revoke_all_sessions_for, revoke_family, revoke_session,
  revoke_session_row, revoke_sessions, rotate, rotate_row, rotate_session, write_refresh,
}

module _ (P : Session → Type 0) (when_closed : (row : Session) → P row → P (closed row)) where
  -- A pass that closes some rows.
  close_some :
      (test : Session → Bool) (rows : List Session)
      → All P rows
      → All P (map (λ (row : Session). if test row then closed row else row) rows)
  close_some test [] h = tt
  close_some test (row ∷ rows) (h, hs) = elim (Bool-cases (test row)) [
    | inl taken ↦ rw taken (when_closed row h, close_some test rows hs)
    | inr passed ↦ rw passed (h, close_some test rows hs)
  ]

  pub revoke_family-All :
      (id : ℕ) (s : SessionStore) → All P s.sessions → All P (revoke_family id s).sessions
  unfolding revoke_session revoke_session_row
  revoke_family-All id s h = close_some (λ (row : Session). row.id == id) s.sessions h

  rotate_rows-All :
      (id previous next : ℕ) (rows : List Session)
      → ((row : Session) → P row → P (rehashed next row))
      → All P rows
      → All P (map (rotate_row id previous next) rows)
  unfolding rotate_row
  rotate_rows-All id previous next [] keep h = tt
  rotate_rows-All id previous next (row ∷ rows) keep (h, hs) =
      elim (Bool-cases (is_current id previous row)) [
        | inl taken ↦
            rw (rotate_row, taken) (keep row h, rotate_rows-All id previous next rows keep hs)
        | inr passed ↦ rw (rotate_row, passed) (h, rotate_rows-All id previous next rows keep hs)
      ]

  revoke_sessions-sessions :
      (ids : List ℕ) (s : SessionStore) → (revoke_sessions ids s).sessions ≡ s.sessions
  unfolding revoke_sessions revoke_session
  revoke_sessions-sessions [] s = refl
  revoke_sessions-sessions (id ∷ ids) s = revoke_sessions-sessions ids (revoke_session id s)

  module _ (hash : ℕ → ℕ) where
    -- What an event must keep of the rows that it writes.
    abbrev pub Keeps : Event hash → Type 0
    Keeps (issues customer_id id token expires_at) = P (record {
      id = id;
      customer_id = customer_id;
      refresh_token_hash = hash token;
      expires_at = expires_at;
      is_revoked = false;
    })
    Keeps (refreshes presented next now) = (row : Session) → P row → P (rehashed (hash next) row)
    Keeps (logs_out presented) = Unit
    Keeps (logs_out_everywhere presented) = Unit
    Keeps (loses h) = Unit

    pub write_refresh-All :
        (outcome : RefreshOutcome) (presented next : ℕ) (s : SessionStore)
        → ((row : Session) → P row → P (rehashed (hash next) row))
        → All P s.sessions
        → All P (write_refresh hash outcome presented next s).0.sessions
    unfolding write_refresh rotate_session remember_spent_token
    write_refresh-All (reuse id) presented next s keep h = revoke_family-All id s h
    write_refresh-All (reject reason) presented next s keep h = h
    write_refresh-All (rotate id customer) presented next s keep h =
        elim (Bool-cases (s.is_usable customer)) [
          | inr blocked ↦ rw (write_refresh, blocked) (revoke_family-All id s h)
          | inl usable ↦ elim (Bool-cases (any (is_current id (hash presented)) s.sessions)) [
            | inr overtaken ↦
                rw (write_refresh, usable, rotate_session, overtaken) (revoke_family-All id s h)
            | inl current ↦
                rw (write_refresh, usable, rotate_session, current)
                  (rotate_rows-All id (hash presented) (hash next) s.sessions keep h)
          ]
        ]

    after_event-All :
        (e : Event hash) (s : SessionStore)
        → Keeps e
        → All P s.sessions
        → All P (after_event hash e s).sessions
    unfolding after_event issue_session refresh logout logout_everywhere revoke_all_sessions_for
    after_event-All (issues customer_id id token expires_at) s k h = (k, h)
    after_event-All (refreshes none next now) s k h = h
    after_event-All (refreshes (some presented) next now) s k h =
        write_refresh-All (read_refresh hash presented now s) presented next s k h
    after_event-All (logs_out none) s k h = h
    after_event-All (logs_out (some presented)) s k h =
        elim (Option-cases (find_session_by_hash (hash presented) s)) [
          | inl missing ↦ rw (logout, missing) h
          | inr (row, found) ↦ rw (logout, found) (revoke_family-All row.id s h)
        ]
    after_event-All (logs_out_everywhere none) s k h = h
    after_event-All (logs_out_everywhere (some presented)) s k h =
        elim (Option-cases (find_session_by_hash (hash presented) s)) [
          | inl missing ↦ rw (logout_everywhere, missing) h
          | inr (row, found) ↦
              rw (logout_everywhere, found, revoke_sessions-sessions)
                (close_some (is_open_for row.customer_id) s.sessions h)
        ]
    after_event-All (loses x) s k h = h

    pub after_events-All :
        (events : List (Event hash)) (s : SessionStore)
        → All Keeps events
        → All P s.sessions
        → All P (after_events hash events s).sessions
    unfolding after_events
    after_events-All [] s k h = h
    after_events-All (e ∷ events) s (k, ks) h =
        after_events-All events (after_event hash e s) ks (after_event-All e s k h)
