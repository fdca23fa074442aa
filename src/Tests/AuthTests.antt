-- ===== src/Tests/AuthTests.antt =====
-- Tests and witnesses for sessions: one session with the token 1, which is exchanged for 2.
use achichiz_back_end.Prelude.{
  All, List, [], arith, false, none, refl, some, true, ℕ, ◌+◌, ◌∷◌, ◌≡◌, ◌≢◌,
}
use achichiz_back_end.Auth.{
  Event, IssuedSession, SessionStore, after_event, after_events, decide_refresh, issue_session,
  issues, logout, logs_out, read_refresh, refresh, refreshes, remember_spent_token, revoke_session,
  revoke_session_row, rotate, rotate_row, rotate_session, write_refresh,
}
use achichiz_back_end.Auth.Once.{Fresh, refresh-once}
use achichiz_back_end.Auth.Family.{IsOther, IsShut, refresh-replayed, write_refresh-raced}

abbrev digest : ℕ → ℕ
digest token = token + 1_000

abbrev one_session : SessionStore
one_session = record {
  sessions =
      record {
        id = 9;
        customer_id = 4;
        refresh_token_hash = 1_001;
        expires_at = 50;
        is_revoked = false;
      }
      ∷ [];
  spent = λ k. none;
  denied = λ k. false;
  is_usable = λ k. true;
}

exchanged : SessionStore
exchanged = (refresh digest (some 1) 2 10 one_session).0

abbrev second : IssuedSession
second = record { refresh_token = 2; session_id = 9; customer_id = 4 }

first-refresh : refresh digest (some 1) 2 10 one_session ≡ (exchanged, some second)
unfolding exchanged refresh read_refresh write_refresh decide_refresh rotate_session rotate_row
    remember_spent_token
first-refresh = refl

-- Another customer signs in, the session is refreshed once more, and somebody signs out.
abbrev some_events : List (Event digest)
some_events = issues 5 10 3 60 ∷ refreshes (some 2) 4 20 ∷ logs_out (some 3) ∷ []

later-Fresh : All (Fresh digest 1_001) some_events
later-Fresh = (omega arith, (omega arith, (tt, tt)))

remembered : (after_events digest some_events exchanged).spent 1_001 ≡ some 9
unfolding exchanged after_events after_event issue_session logout revoke_session revoke_session_row
    refresh read_refresh write_refresh decide_refresh rotate_session rotate_row remember_spent_token
remembered = refl

refresh-once_example :
    (refresh digest (some 1) 6 30 (after_events digest some_events exchanged)).1 ≡ none
refresh-once_example =
    refresh-once digest 1 2 10 one_session exchanged some_events 6 30 first-refresh (tt, tt)
      (omega arith) later-Fresh

refresh-replayed_example :
    let (u, answer) = refresh digest (some 1) 6 30 (after_events digest some_events exchanged) in
    (answer ≡ none)
    × (u.denied 9 ≡ true)
    × ((later : List (Event digest)) (token next_later at_last : ℕ) (v : SessionStore)
          (other : IssuedSession)
        → All (IsOther digest 9) later
        → refresh digest (some token) next_later at_last (after_events digest later u)
          ≡ (v, some other)
        → other.session_id ≢ 9)
refresh-replayed_example =
    refresh-replayed digest 1 2 10 one_session exchanged some_events 6 30 first-refresh (tt, tt)
      (omega arith) later-Fresh remembered

first-write : write_refresh digest (rotate 9 4) 1 2 one_session ≡ (exchanged, some second)
unfolding exchanged refresh read_refresh write_refresh decide_refresh rotate_session rotate_row
    remember_spent_token
first-write = refl

write_refresh-raced_example :
    let (u, answer) = write_refresh digest (rotate 9 4) 1 7 exchanged in
    (answer ≡ none) × (u.denied 9 ≡ true) × All (IsShut 9) u.sessions
write_refresh-raced_example =
    write_refresh-raced digest 9 4 1 2 7 one_session exchanged first-write (omega arith)
