-- ===== src/Repo/Auth/RoundTrip.antt =====
-- A session of a user that is saved and read again.
use tucanbit_tvs.Db
use tucanbit_tvs.Repo.Auth.{
  IpAddress, row_of_session, session_of_row, null_time, nil_uuid, UserSessionRow, get_or,
  null_string, UserSession,
}
use tucanbit_tvs.Repo.Auth.{save_user_session, get_user_session_by_token}
use tucanbit_tvs.Db.Auth.{kept_times}
use mathlib.Core.Option
use tucanbit_tvs.Effects.{◌>>=◌, Env, World, wrap, wrapped}
use tucanbit_tvs.Effects.Calls.{query, execute, stored, stamp_at}
use tucanbit_tvs.Prelude.{
  ◌∷◌, [], refl, Bool, String, ℕ, List, ◌≢◌, Option, find_first, ◌≡◌, if◌then◌else◌, ◌==◌, none,
  Bool-cases, suc, not, some, true, inl, zero, ◌&&◌, ◌++◌, subst, eq_of_==, sym, inr, ◌∙◌, ==-refl,
  ne_test, ap, arith,
}
use tucanbit_tvs.Db.Rows.{Stamp, Db, GoError, Result, ok, err, panic}

find_first-append :
    {A : Type 0} (p : A → Bool) (xs : List A) (y : A)
    → find_first p xs ≡ none
    → p y ≡ true
    → find_first p (xs ++ y ∷ []) ≡ some y
find_first-append p [] y h k = rw k refl
find_first-append p (x ∷ xs) y h k = elim (Bool-cases (p x)) [
  | inl e ↦ absurd (cc (h, e))
  | inr e ↦
      rw e (
        find_first-append p xs y (subst (λ b. (if b then some x else find_first p xs) ≡ none) e h)
          k)
]

stored_inv :
    (row : UserSessionRow) (stamp : Stamp) (db db' : Db)
    → Db.Auth.save_user_session row stamp db ≡ ok db'
    → db'.user_sessions ≡ db.user_sessions ++ kept_times stamp row ∷ []
unfolding Db.Auth.save_user_session
stored_inv row stamp db db' e = ground arith

-- A row that was stored is found by its token.
save-found :
    (row : UserSessionRow) (stamp : Stamp) (db db' : Db)
    → find_first (λ r. r.token == row.token) db.user_sessions ≡ none
    → Db.Auth.save_user_session row stamp db ≡ ok db'
    → find_first (λ r. r.token == row.token) db'.user_sessions ≡ some (kept_times stamp row)
unfolding Db.Auth.save_user_session
save-found row stamp db db' h e = rw (stored_inv row stamp db db' e) (
    find_first-append (λ r. r.token == row.token) db.user_sessions (kept_times stamp row) h
      (==-refl row.token))

null_string-get_or : (s : String) → get_or "" (null_string s) ≡ s
null_string-get_or s = elim (Bool-cases (s == "")) [
  | inl e ↦ rw (e, eq_of_== s "" e) refl
  | inr e ↦ rw e refl
]

user_round_trip :
    (u : String)
    → u ≢ ""
    → get_or nil_uuid (if not (u == nil_uuid) && not (u == "") then some u else none) ≡ u
user_round_trip u n = elim (Bool-cases (u == nil_uuid)) [
  | inl e ↦ rw e (sym (eq_of_== u nil_uuid e))
  | inr e ↦ rw (e, ne_test u "" n) refl
]

-- A time that the database keeps; the zero time is stored as a null.
abbrev pub kept : (ℕ → ℕ) → ℕ → ℕ
kept timestamptz zero = zero
kept timestamptz (suc t) = timestamptz (suc t)

-- The session with the times that the database keeps.
abbrev pub with_kept_times : (ℕ → ℕ) → UserSession → UserSession
with_kept_times timestamptz session = record session {
  expires_at = timestamptz session.expires_at;
  refresh_token_expires_at = kept timestamptz session.refresh_token_expires_at;
  created_at = kept timestamptz session.created_at;
}

null_time-kept :
    (timestamptz : ℕ → ℕ) (t : ℕ)
    → get_or 0 (Option.map timestamptz (null_time t)) ≡ kept timestamptz t
null_time-kept timestamptz zero = refl
null_time-kept timestamptz (suc t) = refl

session_round_trip :
    (parse_ip : String → Option IpAddress) (stamp : Stamp) (session : UserSession)
    → session.ip_address ≡ ""
    → session.user_id ≢ ""
    → session_of_row (kept_times stamp (row_of_session parse_ip session))
      ≡ with_kept_times stamp.timestamptz session
session_round_trip parse_ip stamp session ip n =
    rw
      (
        ip,
        user_round_trip session.user_id n,
        null_string-get_or session.user_agent,
        null_string-get_or session.refresh_token,
        null_time-kept stamp.timestamptz session.refresh_token_expires_at,
        null_time-kept stamp.timestamptz session.created_at,
      )
      refl

reads :
    (env : Env) (w : World) (token : String) (row : UserSessionRow)
    → find_first (λ r. r.token == token) w.db.user_sessions ≡ some row
    → env.db_fault w.tick ≡ none
    → (get_user_session_by_token token env w).0 ≡ ok (session_of_row row)
unfolding get_user_session_by_token Db.Auth.get_user_session_by_token ◌>>=◌ wrap query
reads env w token row h f = rw (f, h) refl

saved_inv :
    (prefix : List String) (fault : Option GoError) (r : Result Db) (w : World)
    → wrapped prefix (stored fault r w).0 ≡ ok tt
    → r ≡ ok (stored fault r w).1.db
saved_inv prefix (some e) r w h = absurd (cc h)
saved_inv prefix none (ok db) w h = refl
saved_inv prefix none (err e) w h = absurd (cc h)
saved_inv prefix none (panic text) w h = absurd (cc h)

-- What a save that returned has left in the table.
row_saved :
    (parse_ip : String → Option IpAddress) (env : Env) (w : World) (session : UserSession)
    → find_first (λ r. r.token == session.token) w.db.user_sessions ≡ none
    → (save_user_session parse_ip session env w).0 ≡ ok tt
    → find_first
        (λ r. r.token == session.token)
        (save_user_session parse_ip session env w).1.db.user_sessions
      ≡ some (kept_times (stamp_at env w) (row_of_session parse_ip session))
unfolding save_user_session wrap execute
row_saved parse_ip env w session new saved =
    save-found (row_of_session parse_ip session) (stamp_at env w) w.db _ new
      (saved_inv ("failed to save user session: " ∷ []) (env.db_fault w.tick) _ w saved)

-- A session of a user without an address that `SaveUserSession` stored under a new token is what
-- `GetUserSessionByToken` returns for this token, with its times as the database keeps them, unless
-- the database fails to answer.
pub get_user_session_by_token-saved :
    (parse_ip : String → Option IpAddress) (env : Env) (w : World) (session : UserSession)
    → session.ip_address ≡ ""
    → session.user_id ≢ ""
    → find_first (λ r. r.token == session.token) w.db.user_sessions ≡ none
    → (save_user_session parse_ip session env w).0 ≡ ok tt
    → env.db_fault (save_user_session parse_ip session env w).1.tick ≡ none
    → (get_user_session_by_token session.token env (save_user_session parse_ip session env w).1).0
      ≡ ok (with_kept_times env.timestamptz session)
get_user_session_by_token-saved parse_ip env w session ip n new saved answers =
    reads env _ session.token _ (row_saved parse_ip env w session new saved) answers
    ∙ ap ok (session_round_trip parse_ip (stamp_at env w) session ip n)
