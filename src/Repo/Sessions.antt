-- ===== src/Repo/Sessions.antt =====
-- internal/repositories/sessionrepo/session_repo_impl.go
use tucanbit_tvs.Effects.{Action, ◌>>=◌, pure, wrap, asks}
use tucanbit_tvs.Effects.Calls.{Tx, query, execute, query_tx, execute_tx}
use tucanbit_tvs.Prelude.{◌∷◌, [], Option, ℕ, String, List, if◌then◌else◌, ◌==◌, none, some, map}
use tucanbit_tvs.Db.Sessions
use tucanbit_tvs.Float.{FloatOps, Float, of_int}
use tucanbit_tvs.Domain.Session.{DepositSession, SessionStatus, empty_session}
use tucanbit_tvs.Db.Rows.{SessionRow, ok, get_or}
use tucanbit_tvs.Prelude.Int.{pos}

abbrev convert_amount : Option Float → SessionRow → DepositSession
convert_amount none row = empty_session
convert_amount (some amount) row = record {
  id = row.id;
  session_id = row.session_id;
  user_id = row.user_id;
  chain_id = row.chain_id;
  network = row.network;
  wallet_address = get_or "" row.wallet_address;
  amount = amount;
  crypto_currency = row.crypto_currency;
  status = row.status;
  qr_code_data = get_or "" row.qr_code_data;
  payment_link = get_or "" row.payment_link;
  metadata = row.metadata;
  error_message = get_or "" row.error_message;
  created_at = get_or 0 row.created_at;
  updated_at = get_or 0 row.updated_at;
}

-- `convertFromDB`: an amount that is no number gives the empty session.
unfoldable pub convert_from_db : FloatOps → SessionRow → DepositSession
convert_from_db ops row =
    convert_amount (if row.amount == "" then some (of_int (pos 0)) else ops.parse_float row.amount)
      row

-- `LoadPendingDepositSessions`
unfoldable pub load_pending_deposit_sessions : ℕ → ℕ → Action (List DepositSession)
unfolding convert_from_db
load_pending_deposit_sessions limit offset = do
  rows ←
      wrap ("failed to list sessions: " ∷ [])
        (query (λ db. ok (Sessions.list_pending_deposit_sessions limit offset db)))
  ops ← asks (λ env. env.ops)
  pure (map (convert_from_db ops) rows)

-- `sql.NullString{String: s, Valid: s != ""}`
abbrev pub null_string : String → Option String
null_string s = if s == "" then none else some s

-- `UpdateDepositSessionStatus`
unfoldable pub update_deposit_session_status : String → SessionStatus → String → Action (Unit {0})
update_deposit_session_status session_id status error_message =
    wrap ("failed to update desposit session status: " ∷ []) (
      execute
        (Sessions.update_deposit_session_status session_id status (null_string error_message)))

-- `CompleteSession`
unfoldable pub complete_session : DepositSession → String → Action (Unit {0})
complete_session session error_message = wrap ("failed to complete deposit session status: " ∷ []) (
    execute (
      Sessions.complete_deposit_session session.session_id session.status session.metadata
        (null_string error_message)))

-- `GetBySessionIDTx`
unfoldable pub get_by_session_id_tx : Tx → String → Action DepositSession
unfolding convert_from_db
get_by_session_id_tx tx session_id = do
  row ←
      wrap ("failed to get deposit session: " ∷ [])
        (query_tx (Sessions.get_deposit_session_by_id session_id) tx)
  ops ← asks (λ env. env.ops)
  pure (convert_from_db ops row)

-- `UpdateDepositSessionStatusTx`
unfoldable pub update_deposit_session_status_tx : Tx → String → SessionStatus → Action Tx
update_deposit_session_status_tx tx session_id status =
    wrap ("failed to update deposit session status: " ∷ [])
      (execute_tx (Sessions.update_deposit_session_status session_id status none) tx)
