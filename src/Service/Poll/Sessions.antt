-- ===== src/Service/Poll/Sessions.antt =====
-- `processPendingSessions` of verification_service_impl.go. Its loop over the pages runs on fuel.
use tucanbit_tvs.Service.Rules.{is_pdm_chain}
use tucanbit_tvs.Hub.Message.{deposit_message}
use tucanbit_tvs.Domain.Session.{DepositSession, SessionStatus, same_session_status}
use tucanbit_tvs.Repo.Sessions
use tucanbit_tvs.Exchange.{second}
use mathlib.Core.Option
use tucanbit_tvs.Service.Poll.{ByChain, append_to, collect, on_solana}
use tucanbit_tvs.Prelude.{◌∷◌, [], ℕ, List, ◌*◌, if◌then◌else◌, ltb, ◌-◌}
use mathlib.Core.Option.{Option, some, none}
use tucanbit_tvs.Effects.{◌>>=◌, ◌>>◌, Action, pure, ignore_error, wrap, asks}
use tucanbit_tvs.Effects.Calls.{time_now, send}

-- `time.Duration(s.config.SessionTimeoutHours)*time.Hour`
abbrev pub timeout_of : ℕ → ℕ
timeout_of hours = hours * 3600 * second

-- The session is too old: it is marked as expired, an error of which is only logged, and its user
-- is told.
unfoldable pub expire_session : DepositSession → Action (Unit {0})
expire_session session = do
  ignore_error (
      Sessions.update_deposit_session_status session.session_id SessionStatus.expired
        "Session expired")
  send (deposit_message (record session { status = SessionStatus.expired }))

-- The part behind the two early exits.
unfoldable pub sort_in : DepositSession → ByChain DepositSession → Action (ByChain DepositSession)
unfolding expire_session
sort_in session chains = do
  now ← time_now
  hours ← asks (λ env. env.config.verification.session_timeout_hours)
  if ltb (timeout_of hours) (now - session.created_at)
      then (expire_session session >> pure chains)
      else pure (append_to session.chain_id session chains)

-- The body of the loop over a page.
unfoldable pub visit_session :
    DepositSession → ByChain DepositSession → Action (ByChain DepositSession)
unfolding sort_in
visit_session session chains =
    if is_pdm_chain session.chain_id
    then pure chains
    else if same_session_status session.status SessionStatus.completed
    then pure chains
    else sort_in session chains

-- The statement that reads a page, with the text of its error.
unfoldable pub load_session_page : ℕ → ℕ → Action (List DepositSession)
load_session_page limit offset =
    wrap ("failed to load pending deposit sessions: " ∷ [])
      (Sessions.load_pending_deposit_sessions limit offset)

-- `processPendingSessions`: the sessions that it starts a goroutine for.
unfoldable pub process_pending_sessions : ℕ → Action (Option (List DepositSession))
unfolding collect on_solana load_session_page visit_session
process_pending_sessions fuel = do
  collected ← collect load_session_page visit_session fuel 0 []
  pure (Option.map on_solana collected)
