-- ===== src/Service/Poll/Withdrawals.antt =====
-- `processPendingWithdrawals` of verification_service_impl.go. Its loop over the pages runs on fuel.
use tucanbit_tvs.Service.Rules.{is_pdm_chain}
use tucanbit_tvs.Repo.Withdrawals
use tucanbit_tvs.Exchange.{second}
use mathlib.Core.Option
use tucanbit_tvs.Service.Failure.{mark_withdrawal_failed}
use tucanbit_tvs.Service.Poll.{ByChain, append_to, collect, on_solana}
use tucanbit_tvs.Prelude.{◌∷◌, [], ℕ, List, ◌*◌, if◌then◌else◌, ◌==◌, ltb, ◌-◌}
use tucanbit_tvs.Domain.Withdrawal.{Withdrawal, same_withdrawal_status, WithdrawalStatus}
use mathlib.Core.Option.{Option, some, none}
use tucanbit_tvs.Effects.{◌>>=◌, ◌>>◌, Action, pure, ◌>>◌, wrap, asks, ignore_error}
use tucanbit_tvs.Effects.Calls.{time_now}

-- `time.Duration(s.config.PollingInterval)*2*time.Second`
abbrev pub grace : ℕ → ℕ
grace polling_interval = polling_interval * 2 * second

-- A withdrawal without a hash is left for two polls, and is then marked as failed, an error of which
-- is only logged.
unfoldable pub visit_hashless : Withdrawal → Action (Unit {0})
visit_hashless withdrawal = do
  now ← time_now
  interval ← asks (λ env. env.config.verification.polling_interval)
  if ltb (now - withdrawal.created_at) (grace interval)
      then pure tt
      else ignore_error (mark_withdrawal_failed withdrawal "No transaction hash provided")

-- The body of the loop over a page.
unfoldable pub visit_withdrawal : Withdrawal → ByChain Withdrawal → Action (ByChain Withdrawal)
unfolding visit_hashless
visit_withdrawal withdrawal chains =
    if is_pdm_chain withdrawal.chain_id
    then pure chains
    else if same_withdrawal_status withdrawal.status WithdrawalStatus.completed
    then pure chains
    else if withdrawal.tx_hash == ""
    then (visit_hashless withdrawal >> pure chains)
    else pure (append_to withdrawal.chain_id withdrawal chains)

-- The statement that reads a page, with the text of its error.
unfoldable pub load_withdrawal_page : ℕ → ℕ → Action (List Withdrawal)
load_withdrawal_page limit offset =
    wrap ("failed to load pending withdrawals: " ∷ [])
      (Withdrawals.load_pending_withdrawals limit offset)

-- `processPendingWithdrawals`: the withdrawals that it starts a goroutine for.
unfoldable pub process_pending_withdrawals : ℕ → Action (Option (List Withdrawal))
unfolding collect on_solana load_withdrawal_page visit_withdrawal
process_pending_withdrawals fuel = do
  collected ← collect load_withdrawal_page visit_withdrawal fuel 0 []
  pure (Option.map on_solana collected)
