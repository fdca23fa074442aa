-- ===== src/Auth.antt =====
-- The sessions of a customer: decideRefresh of src/modules/auth/refresh-token.ts, issueSession,
-- refresh, logout and logoutEverywhere of src/modules/auth/auth.service.ts, the writes of
-- auth.repository.ts, and what Redis remembers for refresh-replay-store.ts and session-store.ts.
-- The hash of a token, sha256, is the parameter `hash`. The calls of `refresh` are not one
-- transaction: what it wrote before it throws is there, so it returns the store beside the answer,
-- and it is cut at the point where another request can come between its reads and its write.
pub mod Rows
pub mod Once
pub mod Family
use achichiz_back_end.Prelude.{
  Bool, List, Option, [], any, false, filter, find?, if◌then◌else◌, leb, map, none, not, some, true,
  ℕ, ◌&&◌, ◌==◌, ◌∷◌,
}

pub record Session : Type 0 where
  pub id : ℕ
  pub customer_id : ℕ
  pub refresh_token_hash : ℕ
  pub expires_at : ℕ
  pub is_revoked : Bool

-- `spent` and `denied` are the keys in Redis; `is_usable` is false of a customer that is deleted or
-- blocked.
pub record SessionStore : Type 0 where
  pub sessions : List Session
  pub spent : ℕ → Option ℕ
  pub denied : ℕ → Bool
  pub is_usable : ℕ → Bool

pub data RejectReason : Type 0 where
  unknown revoked expired : RejectReason

pub data RefreshOutcome : Type 0 where
  -- The session, and its customer.
  rotate : ℕ → ℕ → RefreshOutcome
  reuse : ℕ → RefreshOutcome
  reject : RejectReason → RefreshOutcome

-- The access token names the session and the customer.
pub record IssuedSession : Type 0 where
  pub refresh_token : ℕ
  pub session_id : ℕ
  pub customer_id : ℕ

unfoldable pub decide_refresh : Option Session → Option ℕ → ℕ → RefreshOutcome
decide_refresh (some row) spent now =
    if row.is_revoked
    then reject revoked
    else if leb row.expires_at now
    then reject expired
    else rotate row.id row.customer_id
decide_refresh none (some session_id) now = reuse session_id
decide_refresh none none now = reject unknown

abbrev pub has_hash : ℕ → Session → Bool
has_hash h row = row.refresh_token_hash == h

abbrev pub find_session_by_hash : ℕ → SessionStore → Option Session
find_session_by_hash h s = find? (has_hash h) s.sessions

-- The rows that the conditional `UPDATE` of a rotation writes.
abbrev pub is_current : ℕ → ℕ → Session → Bool
is_current session_id previous row =
    (row.id == session_id) && ((row.refresh_token_hash == previous) && not row.is_revoked)

abbrev pub rehashed : ℕ → Session → Session
rehashed h row = record row { refresh_token_hash = h }

unfoldable pub rotate_row : ℕ → ℕ → ℕ → Session → Session
rotate_row session_id previous next row =
    if is_current session_id previous row then rehashed next row else row

-- Nothing where no row was written.
unfoldable pub rotate_session : ℕ → ℕ → ℕ → SessionStore → Option SessionStore
rotate_session session_id previous next s =
    if any (is_current session_id previous) s.sessions
    then some (record s { sessions = map (rotate_row session_id previous next) s.sessions })
    else none

abbrev pub closed : Session → Session
closed row = record row { is_revoked = true }

unfoldable pub revoke_session_row : ℕ → SessionStore → SessionStore
revoke_session_row session_id s = record s {
  sessions = map (λ (row : Session). if row.id == session_id then closed row else row) s.sessions;
}

-- `revokeSession`: the denylist of access tokens.
unfoldable pub revoke_session : ℕ → SessionStore → SessionStore
revoke_session session_id s = record s {
  denied = λ i. if session_id == i then true else s.denied i;
}

unfoldable pub revoke_sessions : List ℕ → SessionStore → SessionStore
revoke_sessions [] s = s
revoke_sessions (id ∷ ids) s = revoke_sessions ids (revoke_session id s)

abbrev pub is_open_for : ℕ → Session → Bool
is_open_for customer_id row = (row.customer_id == customer_id) && not row.is_revoked

-- The new rows, and the ids of those that were written.
unfoldable pub revoke_all_sessions_for : ℕ → SessionStore → List ℕ × SessionStore
revoke_all_sessions_for customer_id s = (
  map (λ (row : Session). row.id) (filter (is_open_for customer_id) s.sessions),
  record s {
    sessions =
        map (λ (row : Session). if is_open_for customer_id row then closed row else row) s.sessions;
  },
)

unfoldable pub remember_spent_token : ℕ → ℕ → SessionStore → SessionStore
remember_spent_token h session_id s = record s {
  spent = λ k. if h == k then some session_id else s.spent k;
}

abbrev pub revoke_family : ℕ → SessionStore → SessionStore
revoke_family session_id s = revoke_session session_id (revoke_session_row session_id s)

module _ (hash : ℕ → ℕ) where
  -- The row and its id are the database's, the token is fresh.
  unfoldable pub issue_session : ℕ → ℕ → ℕ → ℕ → SessionStore → SessionStore × IssuedSession
  issue_session customer_id id token expires_at s = (
    record s {
      sessions =
          record {
            id = id;
            customer_id = customer_id;
            refresh_token_hash = hash token;
            expires_at = expires_at;
            is_revoked = false;
          }
          ∷ s.sessions;
    },
    record { refresh_token = token; session_id = id; customer_id = customer_id },
  )

  -- What the two reads of `refresh` make of a token.
  unfoldable pub read_refresh : ℕ → ℕ → SessionStore → RefreshOutcome
  read_refresh presented now s =
      decide_refresh (find_session_by_hash (hash presented) s) (s.spent (hash presented)) now

  -- The rest of `refresh`, on the store as it is then; no session is the 401.
  unfoldable pub write_refresh :
      RefreshOutcome → ℕ → ℕ → SessionStore → SessionStore × Option IssuedSession
  write_refresh (reuse session_id) presented next s = (revoke_family session_id s, none)
  write_refresh (reject reason) presented next s = (s, none)
  write_refresh (rotate session_id customer_id) presented next s =
      if not (s.is_usable customer_id)
      then (revoke_family session_id s, none)
      else elim (rotate_session session_id (hash presented) (hash next) s) [
        | none ↦ (revoke_family session_id s, none)
        | some rotated ↦ (
          remember_spent_token (hash presented) session_id rotated,
          some
              (record { refresh_token = next; session_id = session_id; customer_id = customer_id }),
        )
      ]

  unfoldable pub refresh : Option ℕ → ℕ → ℕ → SessionStore → SessionStore × Option IssuedSession
  unfolding read_refresh write_refresh
  refresh none next now s = (s, none)
  refresh (some presented) next now s =
      write_refresh (read_refresh presented now s) presented next s

  unfoldable pub logout : Option ℕ → SessionStore → SessionStore
  logout none s = s
  logout (some presented) s = elim (find_session_by_hash (hash presented) s) [
    | none ↦ s
    | some row ↦ revoke_family row.id s
  ]

  unfoldable pub logout_everywhere : Option ℕ → SessionStore → SessionStore
  logout_everywhere none s = s
  logout_everywhere (some presented) s = elim (find_session_by_hash (hash presented) s) [
    | none ↦ s
    | some row ↦
        let (ids, revoked_rows) = revoke_all_sessions_for row.customer_id s in
        revoke_sessions ids revoked_rows
  ]

  -- What can happen to the store: a request, or Redis losing what it remembers of a token.
  pub data Event : Type 0 where
    issues : ℕ → ℕ → ℕ → ℕ → Event
    refreshes : Option ℕ → ℕ → ℕ → Event
    logs_out logs_out_everywhere : Option ℕ → Event
    loses : ℕ → Event

  abbrev pub lose_spent : ℕ → SessionStore → SessionStore
  lose_spent h s = record s { spent = λ k. if h == k then none else s.spent k }

  unfoldable pub after_event : Event → SessionStore → SessionStore
  after_event (issues customer_id id token expires_at) s =
      (issue_session customer_id id token expires_at s).0
  after_event (refreshes presented next now) s = (refresh presented next now s).0
  after_event (logs_out presented) s = logout presented s
  after_event (logs_out_everywhere presented) s = logout_everywhere presented s
  after_event (loses h) s = lose_spent h s

  unfoldable pub after_events : List Event → SessionStore → SessionStore
  after_events [] s = s
  after_events (e ∷ events) s = after_events events (after_event e s)
