-- ===== src/Db/Auth.antt =====
-- The statements of internal/repositories/authrepo/gen/auth_queries.sql.go on users and
-- user_sessions, with the constraints of db/schema/schema.sql.
use mathlib.Core.Option
use tucanbit_tvs.Prelude.{
  ◌∷◌, [], String, Option, Bool, leb, true, length, some, if◌then◌else◌, find_first, codes, none,
  any, not, ◌==◌, ◌||◌, ◌++◌,
}
use tucanbit_tvs.Db.Rows.{UserSessionRow, Db, Stamp, Result, UserRow, one_row, err, plain_error, ok}

-- `GetUserByID`
unfoldable pub get_user_by_id : String → Db → Result UserRow
get_user_by_id id db = one_row (find_first (λ r. r.id == id) db.users)

-- `GetUserSessionByToken`
unfoldable pub get_user_session_by_token : String → Db → Result UserSessionRow
get_user_session_by_token token db = one_row (find_first (λ r. r.token == token) db.user_sessions)

-- VARCHAR(255)
abbrev pub fits : String → Bool
fits s = leb (length (codes s)) 255

abbrev pub null_fits : Option String → Bool
null_fits none = true
null_fits (some s) = fits s

-- `REFERENCES users(id)`
abbrev pub references_user : Option String → Db → Bool
references_user none db = true
references_user (some id) db = any (λ r. r.id == id) db.users

-- The columns of type TIMESTAMPTZ.
abbrev pub kept_times : Stamp → UserSessionRow → UserSessionRow
kept_times stamp row = record row {
  expires_at = stamp.timestamptz row.expires_at;
  refresh_token_expires_at = Option.map stamp.timestamptz row.refresh_token_expires_at;
  created_at = Option.map stamp.timestamptz row.created_at;
}

-- `SaveUserSession`
unfoldable pub save_user_session : UserSessionRow → Stamp → Db → Result Db
save_user_session row stamp db =
    if not (fits row.token) || not (null_fits row.refresh_token)
    then err (plain_error "value too long for type character varying(255)")
    else if row.token == ""
    then err (plain_error "new row violates check constraint \"user_sessions_token_check\"")
    else if any (λ r. r.id == row.id) db.user_sessions
    then err (plain_error "duplicate key value violates unique constraint \"user_sessions_pkey\"")
    else if not (references_user row.user_id db)
    then err (plain_error "insert violates foreign key constraint \"user_sessions_user_id_fkey\"")
    else ok (record db { user_sessions = db.user_sessions ++ kept_times stamp row ∷ [] })
