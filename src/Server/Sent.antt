-- ===== src/Server/Sent.antt =====
-- What the service hands to the hub's channel Broadcast for a request, of internal/server/handlers
-- and internal/server/middleware.
use tucanbit_tvs.Server.Request.{Request, Response, AuthContext}
use tucanbit_tvs.Server.Middleware.{
  find_token, find_api_key, auth_middleware, api_key_middleware, on_claims, on_token, on_key,
  context_of,
}
use tucanbit_tvs.Server.Handlers.{
  handle_message, handle_web_socket, test_web_socket, health, checked_user, join, relay,
  relay_message, send_sample, on_user,
}
use tucanbit_tvs.Server.Routes.{
  serve, chain_of, Route, route_of, health_route, message_route, status_route, webhook_route,
  test_route, unknown_route,
}
use tucanbit_tvs.Server.Access.{verified_inv, OnVerified, OnParsed, parsed_uuid_inv}
use tucanbit_tvs.Auth.{AuthLibrary, verify_token, verify_api_key}
use tucanbit_tvs.Auth.Tokens.{IsGood}
use tucanbit_tvs.Domain.Auth.{Claim}
use tucanbit_tvs.Hub.Run.{owner}
use tucanbit_tvs.Hub.Message.{WsMessage, deposit_message, withdrawal_message, balance_message}
use tucanbit_tvs.Effects.{◌>>=◌, Env, World, Try, done, error, Action, attempt}
use tucanbit_tvs.Effects.Calls.{parse_uuid, send, time_now, new_uuid}
use tucanbit_tvs.Prelude.{
  String, Bool, true, false, ◌≡◌, refl, inl, inr, ◌⊎◌, some, none, Option, sym, ◌==◌, ◌∙◌,
  if◌then◌else◌, ℕ, ap,
}
use tucanbit_tvs.Db.Rows.{Result, ok, err, panic}
use tucanbit_tvs.Domain.Session.{DepositSession}
use tucanbit_tvs.Domain.Withdrawal.{Withdrawal}
use tucanbit_tvs.Domain.Balance.{Balance}
use tucanbit_tvs.Server.Quiet.{
  AtMost, AtMost-bind, Quiet-attempt, Quiet-parse_uuid, Quiet-verify_token,
}

-- The payload of a posted message, as the handler wraps it.
abbrev pub IsPayloadOf : WsMessage → WsMessage → Type 0
IsPayloadOf body m =
    ((session : DepositSession) × (body.deposit ≡ some session) × (m ≡ deposit_message session))
    ⊎ (((withdrawal : Withdrawal) × (body.withdrawal ≡ some withdrawal)
          × (m ≡ withdrawal_message withdrawal))
        ⊎ ((balance : Balance) × (body.balance ≡ some balance) × (m ≡ balance_message balance)))

module _ (library : AuthLibrary) (env : Env) (w : World) (request : Request) where
  -- The request came with a key that is not empty and with the message's payload in its body.
  abbrev pub IsPosted : WsMessage → Type 0
  IsPosted m =
      ((find_api_key request == "") ≡ false)
      × ((body : WsMessage) × (request.body ≡ ok body) × IsPayloadOf body m)

  -- The request's token is good when it is served, and the message is for the token's user.
  abbrev pub IsOfToken : WsMessage → Type 0
  IsOfToken m =
      (token : String) × (claims : Claim) × (find_token request ≡ inr token)
      × IsGood library env w token claims
      × (env.parse_uuid claims.user_id ≡ some (owner m))

  abbrev pub MaySend : WsMessage → Type 0
  MaySend m = IsPosted m ⊎ IsOfToken m

  -- From the world, at most one message that may be sent.
  abbrev Sends : {A : Type 0} → World → Action A → Type 0
  Sends v m = AtMost MaySend v.sent (m env v).1

  Sends-if :
      (b : Bool) (m n : Action Response) (v : World)
      → Sends v m
      → Sends v n
      → Sends v (if b then m else n)
  Sends-if true m n v km kn = km
  Sends-if false m n v km kn = kn

  -- The second branch is judged with the failed test.
  Sends-tested :
      (b : Bool) (m n : Action Response) (v : World)
      → Sends v m
      → (b ≡ false → Sends v n)
      → Sends v (if b then m else n)
  Sends-tested true m n v km kn = km
  Sends-tested false m n v km kn = kn refl

  Sends-relay :
      {A : Type 0} (message : A → WsMessage) (payload : Option A) (v : World)
      → ((a : A) → payload ≡ some a → MaySend (message a))
      → Sends v (relay message payload)
  unfolding send ◌>>=◌
  Sends-relay message none v k = inl refl
  Sends-relay message (some a) v k = inr (message a, refl, k a refl)

  Sends-relay_message :
      (body : WsMessage) (v : World)
      → ((find_api_key request == "") ≡ false)
      → request.body ≡ ok body
      → Sends v (relay_message body)
  unfolding relay_message
  Sends-relay_message body v key e =
      Sends-if (body.kind == "deposit") _ _ v
        (Sends-relay deposit_message body.deposit v (λ s p. inl (key, (body, e, inl (s, p, refl)))))
        (Sends-if (body.kind == "withdrawal") _ _ v
          (Sends-relay withdrawal_message body.withdrawal v
            (λ s p. inl (key, (body, e, inr (inl (s, p, refl))))))
          (Sends-if (body.kind == "balance") _ _ v
            (Sends-relay balance_message body.balance v
              (λ s p. inl (key, (body, e, inr (inr (s, p, refl))))))
            (inl refl)))

  Sends-handle_message :
      (body : Result WsMessage) (v : World)
      → ((find_api_key request == "") ≡ false)
      → request.body ≡ body
      → Sends v (handle_message body)
  unfolding handle_message
  Sends-handle_message (ok body) v key e = Sends-relay_message body v key e
  Sends-handle_message (err e') v key e = inl refl
  Sends-handle_message (panic text) v key e = inl refl

  Sends-on_key :
      (checked : Result (Unit {0})) (v : World)
      → ((find_api_key request == "") ≡ false)
      → Sends v (on_key (handle_message request.body) checked)
  Sends-on_key (ok _) v key = Sends-handle_message request.body v key refl
  Sends-on_key (err e) v key = inl refl
  Sends-on_key (panic text) v key = inl refl

  Sends-api_key_middleware :
      (v : World) → Sends v (api_key_middleware request (handle_message request.body))
  unfolding api_key_middleware
  Sends-api_key_middleware v =
      Sends-tested (find_api_key request == "") _ _ v (inl refl)
        (Sends-on_key (verify_api_key (find_api_key request)) v)

  Sends-join : (upgrade : Result ℕ) (user : String) (v : World) → Sends v (join upgrade user)
  Sends-join (ok conn) user v = inl refl
  Sends-join (err e) user v = inl refl
  Sends-join (panic text) user v = inl refl

  Sends-send_sample :
      (user : String) (v : World)
      → ((m : WsMessage) → owner m ≡ user → MaySend m)
      → Sends v (send_sample user)
  unfolding send_sample send ◌>>=◌ new_uuid time_now owner
  Sends-send_sample user v k = inr (_, refl, k _ refl)

  Sends-on_user :
      (id : String) (next : String → Action Response) (parsed : Try String) (v : World)
      → ((user : String) → env.parse_uuid id ≡ some user → Sends v (next user))
      → OnParsed library env w request id parsed
      → Sends v (on_user next parsed)
  Sends-on_user id next (error e) v k h = inl refl
  Sends-on_user id next (done user) v k h = k user h

  Sends-checked_user :
      (id : String) (next : String → Action Response) (v : World)
      → ((user : String) (u : World) → env.parse_uuid id ≡ some user → Sends u (next user))
      → Sends v (checked_user (some id) next)
  Sends-checked_user id next v k =
      AtMost-bind env MaySend (attempt (parse_uuid id)) (on_user next) v
        (Quiet-attempt _ (Quiet-parse_uuid id))
        (λ parsed u e.
          Sends-on_user id next parsed u (λ user. k user u)
            (parsed_uuid_inv library env w request id v parsed e))

  Sends-on_claims :
      (token : String) (next : AuthContext → Action Response) (verified : Try Claim) (v : World)
      → ((claims : Claim) → IsGood library env w token claims → Sends v (next (context_of claims)))
      → OnVerified library env w request token verified
      → Sends v (on_claims next verified)
  Sends-on_claims token next (error e) v k h = inl refl
  Sends-on_claims token next (done claims) v k h = k claims h

  -- What follows the middleware, for a token that is good.
  abbrev AfterToken : (AuthContext → Action Response) → Type 0
  AfterToken next =
      (token : String) (claims : Claim) (v : World)
      → find_token request ≡ inr token
      → IsGood library env w token claims
      → Sends v (next (context_of claims))

  Sends-on_token :
      (found : String ⊎ String) (next : AuthContext → Action Response)
      → find_token request ≡ found
      → AfterToken next
      → Sends w (on_token library next found)
  Sends-on_token (inl refusal) next e k = inl refl
  Sends-on_token (inr token) next e k =
      AtMost-bind env MaySend (attempt (verify_token library token)) (on_claims next) w
        (Quiet-attempt _ (Quiet-verify_token library token))
        (λ verified v h.
          Sends-on_claims token next verified v (λ claims. k token claims v e)
            (verified_inv library env w request token verified h))

  Sends-auth_middleware :
      (next : AuthContext → Action Response)
      → AfterToken next
      → Sends w (auth_middleware library request next)
  unfolding auth_middleware
  Sends-auth_middleware next k = Sends-on_token (find_token request) next refl k

  Sends-chain : (route : Route) → Sends w (chain_of library request route)
  unfolding health handle_web_socket test_web_socket ◌>>=◌ time_now
  Sends-chain health_route = inl refl
  Sends-chain message_route = Sends-api_key_middleware w
  Sends-chain status_route = Sends-auth_middleware _ (λ token claims v found good.
      Sends-checked_user claims.user_id _ v (λ user u e. Sends-join request.upgrade user u))
  Sends-chain webhook_route = Sends-auth_middleware _ (λ token claims v found good. inl refl)
  Sends-chain test_route = Sends-auth_middleware _ (λ token claims v found good.
      Sends-checked_user claims.user_id _ v (λ user u e.
        Sends-send_sample user u
          (λ m same. inr (token, claims, found, good, e ∙ ap some (sym same)))))
  Sends-chain unknown_route = inl refl

-- Whatever is requested and however it ends, the service hands at most one message to the hub. It is
-- the payload of the request's body, which came with a key that is not empty, or it is for the user
-- of the request's token, which is good while the request is served.
pub serve-MaySend :
    (library : AuthLibrary) (env : Env) (w : World) (request : Request)
    → AtMost (MaySend library env w request) w.sent (serve library request env w).1
unfolding serve
serve-MaySend library env w request =
    Sends-if library env w request (request.method == "OPTIONS") _ _ w (inl refl)
      (Sends-chain library env w request (route_of request.method request.path))
