-- ===== src/Tests/ServerWitnesses.antt =====
-- The theorems on authentication and the server at concrete inputs.
use tucanbit_tvs.Db
use tucanbit_tvs.Server.Routes.{route_of}
use tucanbit_tvs.Server.Middleware.{auth_middleware, find_token}
use tucanbit_tvs.Server.Handlers.{handle_web_socket}
use tucanbit_tvs.Effects.{attempt}
use tucanbit_tvs.Effects.Calls.{parse_uuid}
use tucanbit_tvs.Hub.Run.{Event, registered, broadcasted, run, owner, WsClient}
use tucanbit_tvs.Hub.Delivery.{IsForEveryone}
use tucanbit_tvs.Repo.Auth.{save_user_session, get_user_session_by_token}
use tucanbit_tvs.Repo.Auth.RoundTrip.{get_user_session_by_token-saved, with_kept_times}
use tucanbit_tvs.Effects.{◌>>=◌, wrap}
use tucanbit_tvs.Effects.Calls.{time_now, execute}
use tucanbit_tvs.Tests.{test_env, test_world, test_config, test_session}
use tucanbit_tvs.Auth.{AuthLibrary, Token, verify_token, new_claim, epoch}
use tucanbit_tvs.Domain.Auth.{Claim, UserSession}
use tucanbit_tvs.Effects.{Env, World}
use tucanbit_tvs.Prelude.{
  ◌∷◌, [], refl, ℕ, ◌*◌, true, Bool, if◌then◌else◌, ◌≡◌, String, false, not, ◌==◌, none, ◌+◌, ◌&&◌,
  some, eqb, List, All, ◌⊎◌, inr, ◌↔◌,
}
use tucanbit_tvs.Db.Rows.{Result, UserRow, ok, err, panic, plain_error}
use tucanbit_tvs.Exchange.{second}
use tucanbit_tvs.Auth.Tokens.{IsGood, verify_token-IsGood}
use tucanbit_tvs.Server.Request.{Request, Response}
use tucanbit_tvs.Server.Routes.{serve}
use tucanbit_tvs.Server.Sent.{MaySend, serve-MaySend}
use tucanbit_tvs.Server.Quiet.{AtMost}
use tucanbit_tvs.Server.Access.{IsAuthorized, serve-guarded}
use tucanbit_tvs.Hub.Message.{deposit_message}
use tucanbit_tvs.Server.Delivery.{HasToken, Served-delivered, sends, joins, start}
use tucanbit_tvs.Server.Bearer.{Names, find_token-Names}

abbrev day : ℕ
day = 3600 * second * 24

abbrev auth_env : Env
auth_env = record test_env {
  config = record test_config { jwt_secret = "secret" };
  clock = λ n. epoch * second + n;
}

-- The claims that the library below knows.
abbrev known : Claim
known = new_claim "user" true true false (epoch * second + day) (epoch * second + 1)

abbrev same_bool : Bool → Bool → Bool
same_bool true b = b
same_bool false b = not b

-- The claims are the known ones.
abbrev is_known : Claim → Bool
is_known c =
    c.user_id == "user"
    && (same_bool c.is_verified true
        && (same_bool c.email_verified true
            && (same_bool c.phone_verified false
                && (eqb c.expires_at known.expires_at
                    && (eqb c.issued_at known.issued_at
                        && (c.issuer == "tucanbit" && c.subject == "user"))))))

known_or_bad_key : Result String → Result Token
known_or_bad_key (ok secret) = ok (record { valid = true; claims = some known })
known_or_bad_key (err e) = err e
known_or_bad_key (panic text) = panic text

-- A library that signs and parses the known claims alone.
abbrev test_library : AuthLibrary
test_library = record {
  parse_with_claims = λ token key now.
      if token == "signed" then known_or_bad_key (key true) else err (plain_error "not a token");
  signed_string =
      λ secret claim. if is_known claim then ok "signed" else err (plain_error "key is invalid");
  parse_ip = λ s. none;
}

abbrev user_row : UserRow
user_row = record {
  id = "user";
  username = "user";
  kyc_status = none;
  email = none;
  phone_number = "1";
  user_type = none;
  status = none;
  created_at = none;
  updated_at = none;
}

abbrev auth_world : World
auth_world = record test_world { db = record test_world.db { users = user_row ∷ [] } }

-- A text of 260 characters.
abbrev long_token : String
long_token =
    "eyJhbGciOieyJhbGciOieyJhbGciOieyJhbGciOieyJhbGciOieyJhbGciOieyJhbGciOieyJhbGciOieyJhbGciOieyJhbGciOieyJhbGciOieyJhbGciOieyJhbGciOieyJhbGciOieyJhbGciOieyJhbGciOieyJhbGciOieyJhbGciOieyJhbGciOieyJhbGciOieyJhbGciOieyJhbGciOieyJhbGciOieyJhbGciOieyJhbGciOieyJhbGciOi"

abbrev long_library : AuthLibrary
long_library = record test_library { signed_string = λ secret claim. ok long_token }

abbrev uuid : String
uuid = "0b2c6f7e-3d44-4f0a-9a51-7d1c5f8e2a90"

verified : (verify_token test_library "signed" auth_env auth_world).0 ≡ ok known
unfolding verify_token ◌>>=◌ time_now wrap known_or_bad_key
verified = refl

verify_token-IsGood_example :
    ((verify_token test_library "signed" auth_env auth_world).0 ≡ ok known) ↔ (
      ((auth_env.config.jwt_secret == "") ≡ false)
      × IsGood test_library auth_env auth_world "signed" known)
verify_token-IsGood_example = verify_token-IsGood test_library auth_env auth_world "signed" known

abbrev ws_request : Request
ws_request = record {
  method = "GET";
  path = "/tvs/api/v1/status/ws";
  authorization = "Bearer signed";
  token = "";
  api_key_header = "";
  api_key = "any";
  body = ok (deposit_message test_session);
  upgrade = ok 7;
}

abbrev user_client : WsClient
user_client = record { user_id = "user"; conn = 7 }

abbrev accepted : Response
accepted = record { status = 101; message = ""; joined = some user_client }

served : (serve test_library ws_request auth_env auth_world).0 ≡ ok accepted
unfolding serve route_of auth_middleware ◌>>=◌ attempt verify_token time_now wrap known_or_bad_key
    handle_web_socket parse_uuid
served = refl

serve-guarded_example : IsAuthorized test_library auth_env auth_world ws_request user_client
serve-guarded_example =
    serve-guarded test_library auth_env auth_world ws_request accepted user_client served refl

abbrev one_update : List Event
one_update = broadcasted (λ c. true) (deposit_message test_session) ∷ registered user_client ∷ []

Served-delivered_example :
    All
      (λ d. HasToken test_library auth_env (owner d.message) d.conn ⊎ IsForEveryone d.message)
      (run one_update).delivered
Served-delivered_example =
    Served-delivered test_library auth_env one_update
      (sends _ _ (joins auth_world ws_request accepted user_client served refl start))

abbrev user_session : UserSession
user_session = record {
  id = "1";
  user_id = "user";
  token = "signed";
  expires_at = 3600000001234;
  ip_address = "";
  user_agent = "browser";
  refresh_token = "";
  refresh_token_expires_at = 0;
  created_at = 1234;
}

saved : (save_user_session (λ s. none) user_session auth_env auth_world).0 ≡ ok tt
unfolding save_user_session wrap execute Db.Auth.save_user_session
saved = refl

get_user_session_by_token-saved_example :
    (get_user_session_by_token "signed" auth_env
      (save_user_session (λ s. none) user_session auth_env auth_world).1).0
    ≡ ok (with_kept_times auth_env.timestamptz user_session)
get_user_session_by_token-saved_example =
    get_user_session_by_token-saved (λ s. none) auth_env auth_world user_session refl (λ e. cc e)
      refl saved refl

abbrev header_request : Request
header_request = record ws_request { authorization = "Bearer signed"; token = "" }

find_token-Names_example :
    (find_token header_request ≡ inr "signed") ↔ Names header_request "signed"
find_token-Names_example = find_token-Names header_request "signed"

abbrev post_request : Request
post_request = record ws_request { method = "POST"; path = "/tvs/api/es/messages/send" }

serve-MaySend_example :
    AtMost
      (MaySend test_library auth_env auth_world post_request)
      auth_world.sent
      (serve test_library post_request auth_env auth_world).1
serve-MaySend_example = serve-MaySend test_library auth_env auth_world post_request
