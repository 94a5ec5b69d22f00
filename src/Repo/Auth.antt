-- ===== src/Repo/Auth.antt =====
-- internal/repositories/authrepo/auth_repository_impl.go
pub mod RoundTrip
use tucanbit_tvs.Db.Auth
use tucanbit_tvs.Effects.Calls.{parse_uuid}
use tucanbit_tvs.Effects.{◌>>=◌, Action, wrap, pure}
use tucanbit_tvs.Prelude.{
  ◌∷◌, [], String, Option, ℕ, some, none, concat, suc, if◌then◌else◌, zero, not, ◌==◌, ◌&&◌,
}
use tucanbit_tvs.Db.Rows.{UserRow, UserSessionRow, get_or}
use tucanbit_tvs.Domain.Auth.{User, UserSession}
use tucanbit_tvs.Effects.Calls.{execute, query}
use tucanbit_tvs.Repo.Sessions.{null_string}

-- `uuid.Nil.String()`
abbrev pub nil_uuid : String
nil_uuid = "00000000-0000-0000-0000-000000000000"

abbrev pub user_of_row : UserRow → User
user_of_row row = record {
  id = row.id;
  username = row.username;
  kyc_status = get_or "" row.kyc_status;
  email = get_or "" row.email;
  phone_number = row.phone_number;
  user_type = get_or "" row.user_type;
  status = get_or "" row.status;
  created_at = get_or 0 row.created_at;
  updated_at = get_or 0 row.updated_at;
}

-- `GetUserByID`
unfoldable pub get_user_by_id : String → Action User
get_user_by_id user_id = do
  id ← wrap ("invalid user_id format: " ∷ []) (parse_uuid user_id)
  row ← wrap ("failed to get user: " ∷ []) (query (Auth.get_user_by_id id))
  pure (user_of_row row)

-- What `net.ParseIP` makes of a text: an IPv4 address or another one, with its text.
pub data IpAddress : Type 0 where
  ipv4 : String → IpAddress
  ipv6 : String → IpAddress

-- The network of the one address, as `IPNet.String()` writes it.
abbrev pub inet : Option IpAddress → Option String
inet none = none
inet (some (ipv4 ip)) = some (concat (ip ∷ "/32" ∷ []))
inet (some (ipv6 ip)) = some (concat (ip ∷ "/128" ∷ []))

-- `sql.NullTime{Time: t, Valid: !t.IsZero()}`
abbrev pub null_time : ℕ → Option ℕ
null_time zero = none
null_time (suc t) = some (suc t)

-- `parse_ip` stands for `net.ParseIP`.
module _ (parse_ip : String → Option IpAddress) where
  abbrev pub row_of_session : UserSession → UserSessionRow
  row_of_session session = record {
    id = session.id;
    user_id =
        if not (session.user_id == nil_uuid) && not (session.user_id == "")
        then some session.user_id
        else none;
    token = session.token;
    expires_at = session.expires_at;
    ip_address = if session.ip_address == "" then none else inet (parse_ip session.ip_address);
    user_agent = null_string session.user_agent;
    refresh_token = null_string session.refresh_token;
    refresh_token_expires_at = null_time session.refresh_token_expires_at;
    created_at = null_time session.created_at;
  }

  -- `SaveUserSession`
  unfoldable pub save_user_session : UserSession → Action (Unit {0})
  save_user_session session =
      wrap ("failed to save user session: " ∷ [])
        (execute (Auth.save_user_session (row_of_session session)))

abbrev pub session_of_row : UserSessionRow → UserSession
session_of_row row = record {
  id = row.id;
  user_id = get_or nil_uuid row.user_id;
  token = row.token;
  expires_at = row.expires_at;
  ip_address = get_or "" row.ip_address;
  user_agent = get_or "" row.user_agent;
  refresh_token = get_or "" row.refresh_token;
  refresh_token_expires_at = get_or 0 row.refresh_token_expires_at;
  created_at = get_or 0 row.created_at;
}

-- `GetUserSessionByToken`
unfoldable pub get_user_session_by_token : String → Action UserSession
get_user_session_by_token token = do
  row ← wrap ("failed to get user session: " ∷ []) (query (Auth.get_user_session_by_token token))
  pure (session_of_row row)
