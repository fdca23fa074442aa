-- ===== src/Auth/Once.antt =====
-- A refresh token is spent once.
use mathlib.Core.Path.{subst}
use mathlib.Core.Option.{some-injective}
use achichiz_back_end.Prelude.{
  ==_iff, All, All-implies, Bool-cases, Distinct, List, Option, Option-cases, [], any, ap, arith,
  false, find?, inl, inr, leb, map, none, refl, some, sym, true, ℕ, ◌==◌, ◌∙◌, ◌∷◌, ◌≡◌, ◌≢◌,
}
use achichiz_back_end.Auth.{
  Event, IssuedSession, RefreshOutcome, Session, SessionStore, after_events, decide_refresh,
  find_session_by_hash, has_hash, is_current, issues, logs_out, logs_out_everywhere, loses,
  read_refresh, refresh, refreshes, reject, remember_spent_token, reuse, rotate, rotate_row,
  rotate_session, write_refresh,
}
use achichiz_back_end.Auth.Rows.{Keeps, after_events-All}

abbrev pub hash_of : Session → ℕ
hash_of row = row.refresh_token_hash

abbrev pub IsNot : ℕ → Session → Type 0
IsNot h row = hash_of row ≢ h

-- A column of hashes without repetition has one row for a hash.
only_row :
    (h : ℕ) (rows : List Session) {row : Session}
    → Distinct hash_of rows
    → find? (has_hash h) rows ≡ some row
    → All (λ (x : Session). hash_of x ≡ h → x ≡ row) rows
only_row h [] d e = cc
only_row h (x ∷ rows) {row = row} (fresh, d) e = elim (Bool-cases (has_hash h x)) [
  | inl here ↦
      let same = some-injective _ _ (rw here at e) in
      let own = (==_iff (hash_of x) h).0 here in
      (
        λ p. same,
        All-implies (λ (y : Session). hash_of x ≢ hash_of y) _ rows
            (λ y apart p. absurd (apart (own ∙ sym p))) fresh,
      )
  | inr other ↦
      let apart : hash_of x ≢ h = ground arith in
      (λ p. absurd (apart p), only_row h rows d (rw other at e))
]

pub find_hash-none :
    (h : ℕ) (rows : List Session) → All (IsNot h) rows → find? (has_hash h) rows ≡ none
find_hash-none h [] k = refl
find_hash-none h (x ∷ rows) (apart, k) =
    let other : has_hash h x ≡ false = ground arith in rw other (find_hash-none h rows k)

found_hash :
    (h : ℕ) (rows : List Session) {row : Session}
    → find? (has_hash h) rows ≡ some row
    → hash_of row ≡ h
found_hash h [] e = cc
found_hash h (x ∷ rows) e = elim (Bool-cases (has_hash h x)) [
  | inl here ↦ ap hash_of (sym (some-injective _ _ (rw here at e))) ∙ (==_iff (hash_of x) h).0 here
  | inr other ↦ found_hash h rows (rw other at e)
]

-- What a read that decides to rotate has seen.
pub record Seen (h now : ℕ) (id customer : ℕ) (s : SessionStore) : Type 0 where
  pub row : Session
  pub found : find_session_by_hash h s ≡ some row
  pub is_open : row.is_revoked ≡ false
  pub its_id : row.id ≡ id
  pub its_customer : row.customer_id ≡ customer

decide_refresh-Seen :
    (row : Session) (spent : Option ℕ) (now : ℕ) {id customer : ℕ}
    → decide_refresh (some row) spent now ≡ rotate id customer
    → (row.is_revoked ≡ false) × (row.id ≡ id) × (row.customer_id ≡ customer)
unfolding decide_refresh
decide_refresh-Seen row spent now e = elim (Bool-cases row.is_revoked) [
  | inl shut ↦ let wrong = rw (decide_refresh, shut) at e in cc
  | inr fresh ↦ elim (Bool-cases (leb row.expires_at now)) [
    | inl late ↦ let wrong = rw (decide_refresh, fresh, late) at e in cc
    | inr live ↦ let done = rw (decide_refresh, fresh, live) at e in (fresh, cc, cc)
  ]
]

module _ (hash : ℕ → ℕ) where
  pub read_refresh-Seen :
      (presented now : ℕ) (s : SessionStore) {id customer : ℕ}
      → read_refresh hash presented now s ≡ rotate id customer
      → Seen (hash presented) now id customer s
  unfolding read_refresh decide_refresh
  read_refresh-Seen presented now s e =
      elim (Option-cases (find_session_by_hash (hash presented) s)) [
        | inl missing ↦ elim (Option-cases (s.spent (hash presented))) [
          | inl never ↦ let wrong = rw (read_refresh, missing, never) at e in cc
          | inr (id, known) ↦ let wrong = rw (read_refresh, missing, known) at e in cc
        ]
        | inr (row, found) ↦
            let (fresh, a, b) =
              decide_refresh-Seen row (s.spent (hash presented)) now
                (rw (read_refresh, found) at e) in
            record { row = row; found = found; is_open = fresh; its_id = a; its_customer = b }
      ]

  -- A write that hands out a session has rotated the row.
  pub record Rotated (id h next : ℕ) (s t : SessionStore) (issued : IssuedSession) : Type 0 where
    pub names : issued.session_id ≡ id
    pub rows : t.sessions ≡ map (rotate_row id h next) s.sessions
    pub remembered : t.spent h ≡ some id

  pub write_refresh-Rotated :
      (id customer presented next : ℕ) (s t : SessionStore) {issued : IssuedSession}
      → write_refresh hash (rotate id customer) presented next s ≡ (t, some issued)
      → Rotated id (hash presented) (hash next) s t issued
  unfolding write_refresh rotate_session remember_spent_token
  write_refresh-Rotated id customer presented next s t e =
      elim (Bool-cases (s.is_usable customer)) [
        | inr blocked ↦ let wrong = rw (write_refresh, blocked) at e in cc
        | inl usable ↦ elim (Bool-cases (any (is_current id (hash presented)) s.sessions)) [
          | inr overtaken ↦
              let wrong = rw (write_refresh, usable, rotate_session, overtaken) at e in cc
          | inl current ↦
              let done = rw (write_refresh, usable, rotate_session, current) at e in
              let store = ap (λ (x : SessionStore × Option IssuedSession). x.0) done in
              let answer =
                some-injective _ _ (ap (λ (x : SessionStore × Option IssuedSession). x.1) done) in
              let self : (hash presented == hash presented) ≡ true = ground arith in
              record {
                names = ap (λ (x : IssuedSession). x.session_id) (sym answer);
                rows = ap (λ (x : SessionStore). x.sessions) (sym store);
                remembered =
                    ap (λ (x : SessionStore). x.spent (hash presented)) (sym store) ∙ rw self refl;
              }
        ]
      ]

  pub refresh-Rotated :
      (presented next now : ℕ) (s t : SessionStore) {issued : IssuedSession}
      → refresh hash (some presented) next now s ≡ (t, some issued)
      → (customer : ℕ) × Seen (hash presented) now issued.session_id customer s
        × Rotated issued.session_id (hash presented) (hash next) s t issued
  unfolding refresh write_refresh
  refresh-Rotated presented next now s t {issued = issued} e =
      go (read_refresh hash presented now s) refl e
    where
      go :
          (outcome : RefreshOutcome)
          → read_refresh hash presented now s ≡ outcome
          → write_refresh hash outcome presented next s ≡ (t, some issued)
          → (customer : ℕ) × Seen (hash presented) now issued.session_id customer s
            × Rotated issued.session_id (hash presented) (hash next) s t issued
      go (reuse id) r w = cc
      go (reject reason) r w = cc
      go (rotate id customer) r w =
          let rotated = write_refresh-Rotated id customer presented next s t w in
          subst
            (λ (i : ℕ).
              (c : ℕ) × Seen (hash presented) now i c s
              × Rotated i (hash presented) (hash next) s t issued)
            (sym rotated.names) (customer, read_refresh-Seen presented now s r, rotated)

  rotated_away :
      (id h next : ℕ) (rows : List Session) (row : Session)
      → row.id ≡ id
      → hash_of row ≡ h
      → row.is_revoked ≡ false
      → next ≢ h
      → All (λ (x : Session). hash_of x ≡ h → x ≡ row) rows
      → All (IsNot h) (map (rotate_row id h next) rows)
  unfolding rotate_row
  rotated_away id h next [] row a b c apart only = tt
  rotated_away id h next (x ∷ rows) row a b c apart (o, only) = elim (Bool-cases (has_hash h x)) [
    | inr other ↦
        let passed : is_current id h x ≡ false = ground arith in
        let differs : hash_of x ≢ h = ground arith in
        rw (rotate_row, passed) (differs, rotated_away id h next rows row a b c apart only)
    | inl here ↦
        let same = o ((==_iff (hash_of x) h).0 here) in
        let its_id = ap (λ (y : Session). y.id) same ∙ a in
        let fresh = ap (λ (y : Session). y.is_revoked) same ∙ c in
        let taken : is_current id h x ≡ true = ground arith in
        rw (rotate_row, taken) (apart, rotated_away id h next rows row a b c apart only)
  ]

  abbrev pub Fresh : ℕ → Event hash → Type 0
  Fresh h (issues customer_id id token expires_at) = hash token ≢ h
  Fresh h (refreshes presented next now) = hash next ≢ h
  Fresh h (logs_out presented) = Unit
  Fresh h (logs_out_everywhere presented) = Unit
  Fresh h (loses k) = Unit

  Fresh-Keeps : (h : ℕ) (e : Event hash) → Fresh h e → Keeps (IsNot h) (λ row p. p) hash e
  Fresh-Keeps h (issues customer_id id token expires_at) f = f
  Fresh-Keeps h (refreshes presented next now) f = λ row p. f
  Fresh-Keeps h (logs_out presented) f = tt
  Fresh-Keeps h (logs_out_everywhere presented) f = tt
  Fresh-Keeps h (loses k) f = tt

  -- The store after a refresh has no row with the hash of the token that was presented.
  pub refresh-IsNot :
      (presented next now : ℕ) (s t : SessionStore) {issued : IssuedSession}
      → refresh hash (some presented) next now s ≡ (t, some issued)
      → Distinct hash_of s.sessions
      → hash next ≢ hash presented
      → All (IsNot (hash presented)) t.sessions
  refresh-IsNot presented next now s t {issued = issued} e distinct apart =
      let (customer, seen, rotated) = refresh-Rotated presented next now s t e in
      subst (All (IsNot (hash presented))) (sym rotated.rows) (
        rotated_away issued.session_id (hash presented) (hash next) s.sessions seen.row seen.its_id
          (found_hash (hash presented) s.sessions seen.found) seen.is_open apart
          (only_row (hash presented) s.sessions distinct seen.found))

  pub after_events-IsNot :
      (h : ℕ) (events : List (Event hash)) (s : SessionStore)
      → All (Fresh h) events
      → All (IsNot h) s.sessions
      → All (IsNot h) (after_events hash events s).sessions
  after_events-IsNot h events s fresh k =
      after_events-All (IsNot h) (λ row p. p) hash events s
        (All-implies (Fresh h) _ events (Fresh-Keeps h) fresh) k

  -- A token with no row gets no session.
  pub refresh_unknown :
      (presented next now : ℕ) (s : SessionStore)
      → All (IsNot (hash presented)) s.sessions
      → (refresh hash (some presented) next now s).1 ≡ none
  unfolding refresh read_refresh write_refresh decide_refresh
  refresh_unknown presented next now s k =
      let missing = find_hash-none (hash presented) s.sessions k in
      elim (Option-cases (s.spent (hash presented))) [
        | inl never ↦ rw (refresh, read_refresh, missing, never) refl
        | inr (id, known) ↦ rw (refresh, read_refresh, missing, known) refl
      ]

  -- A refresh token is spent once: after a refresh that succeeded, and any events in any order,
  -- presenting its token again gets no session, also where Redis has lost what it remembered. The
  -- hashes of the table are without repetition, and no token that is made later hashes to the same.
  pub refresh-once :
      (presented next now : ℕ) (s t : SessionStore) {issued : IssuedSession}
      (events : List (Event hash)) (next_again again : ℕ)
      → refresh hash (some presented) next now s ≡ (t, some issued)
      → Distinct hash_of s.sessions
      → hash next ≢ hash presented
      → All (Fresh (hash presented)) events
      → (refresh hash (some presented) next_again again (after_events hash events t)).1 ≡ none
  refresh-once presented next now s t events next_again again e distinct apart fresh =
      refresh_unknown presented next_again again (after_events hash events t) (
        after_events-IsNot (hash presented) events t fresh
          (refresh-IsNot presented next now s t e distinct apart))
