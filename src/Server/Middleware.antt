-- ===== src/Server/Middleware.antt =====
-- internal/server/middleware/middleware.go
use tucanbit_tvs.Server.Request.{Request, Response, reply, AuthContext}
use tucanbit_tvs.Auth.{AuthLibrary, verify_token, verify_api_key}
use tucanbit_tvs.Domain.Auth.{Claim}
use tucanbit_tvs.Effects.{◌>>=◌, Action, Try, error, pure, done, attempt, crash}
use Prim.Native.Char.{Char, code}
use tucanbit_tvs.Prelude.{
  [], List, Option, some, ◌∷◌, ◌⊎◌, if◌then◌else◌, eqb, ◌==◌, inl, not, none, inr,
}
use Prim.Native.String.{String, ◌∷◌}
use tucanbit_tvs.Db.Rows.{Result, ok, err, panic}

-- The next part of a text that starts with the character.
abbrev pub cons_first : Char → List String → List String
cons_first c [] = []
cons_first c (part ∷ parts) = String.◌∷◌ c part ∷ parts

-- `strings.Split(s, " ")`
unfoldable pub split_spaces : String → List String
split_spaces String.[] = "" ∷ []
split_spaces (String.◌∷◌ c s) =
    let rest = split_spaces s in if eqb (code c) 32 then "" ∷ rest else cons_first c rest

-- Two parts, of which the first is `Bearer`.
abbrev pub bearer : List String → Option String
bearer (scheme ∷ token ∷ []) = if scheme == "Bearer" then some token else none
bearer _ = none

abbrev pub or_format_error : Option String → String ⊎ String
or_format_error none = inl "Invalid Authorization header format, expected 'Bearer <token>'"
or_format_error (some token) = inr token

-- The token of the request, or the text of the refusal.
unfoldable pub find_token : Request → String ⊎ String
unfolding split_spaces
find_token request =
    if not (request.authorization == "")
    then or_format_error (bearer (split_spaces request.authorization))
    else if request.token == ""
    then inl "Authorization token required via Authorization header or token query parameter"
    else inr request.token

abbrev pub context_of : Claim → AuthContext
context_of claims = record {
  user_id = some claims.user_id;
  is_verified = claims.is_verified;
  email_verified = claims.email_verified;
  phone_verified = claims.phone_verified;
}

-- What follows `VerifyToken`.
abbrev pub on_claims : (AuthContext → Action Response) → Try Claim → Action Response
on_claims next (error e) = pure (reply 401 e.message)
on_claims next (done claims) = next (context_of claims)

abbrev pub on_token :
    AuthLibrary → (AuthContext → Action Response) → String ⊎ String → Action Response
on_token library next (inl refusal) = pure (reply 401 refusal)
on_token library next (inr token) = attempt (verify_token library token) >>= on_claims next

-- `AuthMiddleware`
unfoldable pub auth_middleware :
    AuthLibrary → Request → (AuthContext → Action Response) → Action Response
unfolding find_token
auth_middleware library request next = on_token library next (find_token request)

abbrev pub on_key : Action Response → Result (Unit {0}) → Action Response
on_key next (ok _) = next
on_key next (err e) = pure (reply 401 e.message)
on_key next (panic text) = crash text

-- The key of the request, empty when it is missing.
abbrev pub find_api_key : Request → String
find_api_key request =
    if not (request.api_key_header == "") then request.api_key_header else request.api_key

-- `APIKeyMiddleware`
unfoldable pub api_key_middleware : Request → Action Response → Action Response
unfolding verify_api_key
api_key_middleware request next =
    if find_api_key request == ""
    then pure (reply 401 "API key required via X-API-Key header or api_key query parameter")
    else on_key next (verify_api_key (find_api_key request))
