-- ===== src/Server/Access.antt =====
-- Who may connect to the service.
use tucanbit_tvs.Server.Request.{Request, Response, reply, AuthContext}
use tucanbit_tvs.Server.Middleware.{
  find_token, auth_middleware, api_key_middleware, on_claims, on_token, on_key, context_of,
  find_api_key,
}
use tucanbit_tvs.Server.Handlers.{
  handle_message, handle_web_socket, test_web_socket, health, checked_user, join, relay,
  relay_message, send_sample, on_user,
}
use tucanbit_tvs.Server.Routes.{
  serve, chain_of, Route, route_of, health_route, message_route, status_route, webhook_route,
  test_route, unknown_route,
}
use tucanbit_tvs.Auth.{AuthLibrary, verify_token}
use tucanbit_tvs.Auth.Tokens.{IsGood, verify_token-IsGood}
use tucanbit_tvs.Domain.Auth.{Claim}
use tucanbit_tvs.Effects.{Env, World, Try, done, error, pure, Action, attempt}
use tucanbit_tvs.Effects.Calls.{parse_uuid}
use tucanbit_tvs.Effects.Returns.{
  Returns, Returns-bind, Returns-any, Returns-pure, Returns-if, Returns-crash, Returns-attempt,
  Ensures, Ensures-bind, Ensures-if, tried_inv,
}
use tucanbit_tvs.Hub.Run.{WsClient}
use tucanbit_tvs.Prelude.{String, ◌≡◌, ℕ, inr, some, refl, Option, ◌⊎◌, ◌==◌, none, subst, inl}
use tucanbit_tvs.Db.Rows.{ok, Result, err, plain_error, panic}
use tucanbit_tvs.Hub.Message.{WsMessage, deposit_message, withdrawal_message, balance_message}

parsed_inv :
    (o : Option String) (u : String)
    → ◌≡◌ {A = Result String}
        (elim o [ none ↦ err (plain_error "invalid UUID") | some v ↦ ok v ])
        (ok u)
    → o ≡ some u
parsed_inv none u h = absurd (cc h)
parsed_inv (some v) u h = cc h

module _ (library : AuthLibrary) (env : Env) (w : World) (request : Request) where
  -- The client is the request's connection under the user of its token, which is good when the
  -- request is served.
  abbrev pub IsAuthorized : WsClient → Type 0
  IsAuthorized client =
      (token : String) × (claims : Claim) × (find_token request ≡ inr token)
      × IsGood library env w token claims
      × (env.parse_uuid claims.user_id ≡ some client.user_id)
      × (request.upgrade ≡ ok client.conn)

  -- Only an authorized client joins.
  abbrev pub IsGuarded : Response → Type 0
  IsGuarded response = (client : WsClient) → response.joined ≡ some client → IsAuthorized client

  reply-IsGuarded : (status : ℕ) (text : String) → Returns env (pure (reply status text)) IsGuarded
  reply-IsGuarded status text = Returns-pure _ (λ client h. absurd (cc h))

  Returns-parse_uuid : (s : String) → Returns env (parse_uuid s) (λ u. env.parse_uuid s ≡ some u)
  unfolding parse_uuid
  Returns-parse_uuid s = record { at = λ v u h. parsed_inv (env.parse_uuid s) u h }

  -- The claims of the request's token.
  abbrev pub OnVerified : String → Try Claim → Type 0
  OnVerified token (error e) = Unit
  OnVerified token (done claims) = IsGood library env w token claims

  abbrev pub OnParsed : String → Try String → Type 0
  OnParsed id (error e) = Unit
  OnParsed id (done user) = env.parse_uuid id ≡ some user

  Returns-join :
      (upgrade : Result ℕ) (user : String)
      → ((conn : ℕ) → upgrade ≡ ok conn → IsAuthorized (record { user_id = user; conn = conn }))
      → Returns env (join upgrade user) IsGuarded
  Returns-join (ok conn) user k =
      Returns-pure _ (λ client h. subst IsAuthorized (cc h) (k conn refl))
  Returns-join (err e) user k = reply-IsGuarded 500 _
  Returns-join (panic text) user k = Returns-crash text

  pub parsed_uuid_inv :
      (id : String) (v : World) (found : Try String)
      → (attempt (parse_uuid id) env v).0 ≡ ok found
      → OnParsed id found
  parsed_uuid_inv id v found h =
      (Returns-attempt {R = OnParsed id} _ (Returns-parse_uuid id) (λ u h. h) (λ e. tt)).at v found
        h

  Returns-parsed :
      (id : String) (next : String → Action Response) (parsed : Try String)
      → ((user : String) → env.parse_uuid id ≡ some user → Returns env (next user) IsGuarded)
      → OnParsed id parsed
      → Returns env (on_user next parsed) IsGuarded
  Returns-parsed id next (error e) k h = reply-IsGuarded 400 _
  Returns-parsed id next (done user) k h = k user h

  Returns-checked_user :
      (id : String) (next : String → Action Response)
      → ((user : String) → env.parse_uuid id ≡ some user → Returns env (next user) IsGuarded)
      → Returns env (checked_user (some id) next) IsGuarded
  Returns-checked_user id next k =
      Returns-bind {Q = OnParsed id} _ _
        (Returns-attempt {R = OnParsed id} _ (Returns-parse_uuid id) (λ u h. h) (λ e. tt))
        (λ parsed h. Returns-parsed id next parsed k h)

  Returns-on_claims :
      (token : String) (next : AuthContext → Action Response) (verified : Try Claim)
      → ((claims : Claim)
          → IsGood library env w token claims
          → Returns env (next (context_of claims)) IsGuarded)
      → OnVerified token verified
      → Returns env (on_claims next verified) IsGuarded
  Returns-on_claims token next (error e) k h = reply-IsGuarded 401 _
  Returns-on_claims token next (done claims) k h = k claims h

  pub verified_inv :
      (token : String) (verified : Try Claim)
      → (attempt (verify_token library token) env w).0 ≡ ok verified
      → OnVerified token verified
  unfolding attempt
  verified_inv token verified h =
      tried_inv (OnVerified token) (verify_token library token env w).0 verified
        (λ claims e. ((verify_token-IsGood library env w token claims).0 e).1) (λ claims good. good)
        (λ e. tt) h

  on_token-IsGuarded :
      (found : String ⊎ String) (next : AuthContext → Action Response)
      → find_token request ≡ found
      → ((token : String) (claims : Claim)
          → find_token request ≡ inr token
          → IsGood library env w token claims
          → Returns env (next (context_of claims)) IsGuarded)
      → Ensures env w (on_token library next found) IsGuarded
  on_token-IsGuarded (inl refusal) next e k = (reply-IsGuarded 401 _).at w
  on_token-IsGuarded (inr token) next e k =
      Ensures-bind _ _ (verified_inv token)
        (λ verified h. Returns-on_claims token next verified (λ claims. k token claims e) h)

  auth_middleware-IsGuarded :
      (next : AuthContext → Action Response)
      → ((token : String) (claims : Claim)
          → find_token request ≡ inr token
          → IsGood library env w token claims
          → Returns env (next (context_of claims)) IsGuarded)
      → Ensures env w (auth_middleware library request next) IsGuarded
  unfolding auth_middleware
  auth_middleware-IsGuarded next k = on_token-IsGuarded (find_token request) next refl k

  Returns-relay :
      {A : Type 0} (message : A → WsMessage) (payload : Option A)
      → Returns env (relay message payload) IsGuarded
  Returns-relay message none = reply-IsGuarded 200 _
  Returns-relay message (some payload) =
      Returns-bind _ _ (Returns-any _) (λ _ _. reply-IsGuarded 200 _)

  Returns-handle_message : (body : Result WsMessage) → Returns env (handle_message body) IsGuarded
  unfolding handle_message relay_message
  Returns-handle_message (err e) = reply-IsGuarded 400 _
  Returns-handle_message (panic text) = Returns-crash text
  Returns-handle_message (ok m) =
      Returns-if (m.kind == "deposit") _ _ (λ _. Returns-relay deposit_message m.deposit)
        (λ _.
          Returns-if (m.kind == "withdrawal") _ _
            (λ _. Returns-relay withdrawal_message m.withdrawal)
            (λ _.
              Returns-if (m.kind == "balance") _ _ (λ _. Returns-relay balance_message m.balance)
                (λ _. reply-IsGuarded 400 _)))

  Returns-on_key :
      {next : Action Response} (checked : Result (Unit {0}))
      → Returns env next IsGuarded
      → Returns env (on_key next checked) IsGuarded
  Returns-on_key (ok _) k = k
  Returns-on_key (err e) k = reply-IsGuarded 401 _
  Returns-on_key (panic text) k = Returns-crash text

  chain-IsGuarded : (route : Route) → Ensures env w (chain_of library request route) IsGuarded
  unfolding health handle_web_socket test_web_socket send_sample api_key_middleware
  chain-IsGuarded health_route =
      (Returns-bind _ _ (Returns-any _) (λ _ _. reply-IsGuarded 200 _)).at w
  chain-IsGuarded message_route =
      (Returns-if (find_api_key request == "") _ _ (λ _. reply-IsGuarded 401 _)
          (λ _. Returns-on_key _ (Returns-handle_message request.body))).at
        w
  chain-IsGuarded status_route = auth_middleware-IsGuarded _ (λ token claims found good.
      Returns-checked_user claims.user_id _ (λ user parsed.
        Returns-join request.upgrade user (λ conn up. (token, claims, found, good, parsed, up))))
  chain-IsGuarded webhook_route = auth_middleware-IsGuarded _ (λ _ _ _ _. reply-IsGuarded 200 _)
  chain-IsGuarded test_route = auth_middleware-IsGuarded _ (λ token claims _ _.
      Returns-checked_user claims.user_id _ (λ user _. Returns-bind _ _ (Returns-any _) (λ _ _.
        Returns-bind _ _ (Returns-any _) (λ _ _.
          Returns-bind _ _ (Returns-any _)
            (λ _ _. Returns-bind _ _ (Returns-any _) (λ _ _. reply-IsGuarded 200 _))))))
  chain-IsGuarded unknown_route = (reply-IsGuarded 404 _).at w

-- Whatever is requested, a client joins the hub only for a request whose token is good while it is
-- served: at the service's readings of the clock the library accepts it under the configured secret
-- and its expiry is not past, and its issuer is the service. The client joins only under the user
-- that this token names.
pub serve-guarded :
    (library : AuthLibrary) (env : Env) (w : World) (request : Request) (response : Response)
    (client : WsClient)
    → (serve library request env w).0 ≡ ok response
    → response.joined ≡ some client
    → IsAuthorized library env w request client
unfolding serve
serve-guarded library env w request response client h j =
    Ensures-if {Q = IsGuarded library env w request} (request.method == "OPTIONS") _ _
      ((reply-IsGuarded library env w request 200 "").at w)
      (chain-IsGuarded library env w request (route_of request.method request.path)) response h
      client j
