-- ===== src/Server/Handlers.antt =====
-- internal/server/handlers: message.go, session_status.go and health.go.
use tucanbit_tvs.Server.Request.{Request, Response, reply, AuthContext}
use tucanbit_tvs.Hub.Message.{WsMessage, deposit_message, withdrawal_message, balance_message}
use tucanbit_tvs.Effects.{◌>>=◌, ◌>>◌, Action, pure, crash, attempt, error, done, Try}
use tucanbit_tvs.Effects.Calls.{parse_uuid, new_uuid, time_now, send}
use tucanbit_tvs.Prelude.{◌∷◌, [], Option, String, if◌then◌else◌, ℕ, some, ◌==◌, none, concat}
use tucanbit_tvs.Db.Rows.{Result, err, panic, ok}
use tucanbit_tvs.Domain.Session.{DepositSession, SessionStatus}
use tucanbit_tvs.Float.{of_int}
use tucanbit_tvs.Prelude.Int.{pos}

-- The answer of a handler that writes none.
abbrev pub no_content : Response
no_content = reply 200 ""

-- The payload of a message is sent to the hub; without a payload nothing happens.
abbrev pub relay : {A : Type 0} → (A → WsMessage) → Option A → Action Response
relay message none = pure no_content
relay message (some payload) = send (message payload) >> pure no_content

-- The switch on the type of the message.
unfoldable pub relay_message : WsMessage → Action Response
relay_message message =
    if message.kind == "deposit"
    then relay deposit_message message.deposit
    else if message.kind == "withdrawal"
    then relay withdrawal_message message.withdrawal
    else if message.kind == "balance"
    then relay balance_message message.balance
    else pure (reply 400 "invalid message type")

-- `HandleMessage`
unfoldable pub handle_message : Result WsMessage → Action Response
unfolding relay_message
handle_message (err e) = pure (reply 400 e.message)
handle_message (panic text) = crash text
handle_message (ok message) = relay_message message

abbrev pub on_user : (String → Action Response) → Try String → Action Response
on_user next (error e) = pure (reply 400 "Invalid user ID format")
on_user next (done user) = next user

-- The user of the context, as the text of its uuid, or the refusal.
abbrev pub checked_user : Option String → (String → Action Response) → Action Response
checked_user none next = pure (reply 401 "User not authenticated")
checked_user (some user_id) next = attempt (parse_uuid user_id) >>= on_user next

-- The connection is registered for the user.
abbrev pub join : Result ℕ → String → Action Response
join (ok conn) user =
    pure (record {
      status = 101;
      message = "";
      joined = some (record { user_id = user; conn = conn });
    })
join (err e) user =
    pure (reply 500 (concat ("Failed to establish WebSocket connection: " ∷ e.message ∷ [])))
join (panic text) user = crash text

-- `HandleWebSocket`, up to the registration; its goroutine sends the client to the channel
-- Unregister when a read of the connection fails.
unfoldable pub handle_web_socket : Request → AuthContext → Action Response
handle_web_socket request context = checked_user context.user_id (join request.upgrade)

-- The session that `TestWebSocket` sends.
abbrev pub sample_session : String → String → ℕ → ℕ → DepositSession
sample_session id user created_at updated_at = record {
  id = id;
  session_id = "DEP-W227B0D7W9";
  user_id = user;
  chain_id = "sol-testnet";
  network = "SOL";
  wallet_address = "test-address";
  amount = of_int (pos 1);
  crypto_currency = "SOL";
  status = SessionStatus.failed;
  qr_code_data = "";
  payment_link = "s string";
  metadata = none;
  error_message = "";
  created_at = created_at;
  updated_at = updated_at;
}

unfoldable pub send_sample : String → Action Response
send_sample user = do
  id ← new_uuid
  created_at ← time_now
  updated_at ← time_now
  send (deposit_message (sample_session id user created_at updated_at))
  pure no_content

-- `TestWebSocket`
unfoldable pub test_web_socket : AuthContext → Action Response
unfolding send_sample
test_web_socket context = checked_user context.user_id send_sample

-- `Health`
unfoldable pub health : Action Response
health = time_now >>= λ timestamp. pure (reply 200 "healthy")
