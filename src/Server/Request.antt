-- ===== src/Server/Request.antt =====
-- A request as the handlers of internal/server read it, and what they answer.
use tucanbit_tvs.Hub.Message.{WsMessage}
use tucanbit_tvs.Hub.Run.{WsClient}
use tucanbit_tvs.Prelude.{String, ℕ, Option, none, Bool}
use tucanbit_tvs.Db.Rows.{Result}

pub record Request : Type 0 where
  pub method : String
  pub path : String
  -- the header Authorization and the query parameter token, empty when missing
  pub authorization : String
  pub token : String
  -- the header X-API-Key and the query parameter api_key, empty when missing
  pub api_key_header : String
  pub api_key : String
  -- what `c.BindJSON` makes of the body
  pub body : Result WsMessage
  -- what `upgrader.Upgrade` makes of the connection
  pub upgrade : Result ℕ

-- The status with its text, and the client that is sent to the hub's channel Register.
pub record Response : Type 0 where
  pub status : ℕ
  pub message : String
  pub joined : Option WsClient

abbrev pub reply : ℕ → String → Response
reply status message = record { status = status; message = message; joined = none }

-- What `AuthMiddleware` sets in the context.
pub record AuthContext : Type 0 where
  pub user_id : Option String
  pub is_verified : Bool
  pub email_verified : Bool
  pub phone_verified : Bool
