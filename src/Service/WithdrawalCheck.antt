-- ===== src/Service/WithdrawalCheck.antt =====
-- `verifySolanaWithdrawal` of verification_service_impl.go.
pub mod Recorded
pub mod Settlement
pub mod Completed
pub mod Statements
use tucanbit_tvs.Effects.{
  Action, ◌>>=◌, ◌>>◌, pure, raise, wrap, asks, lift, attempt, Try, done, error, ignore_error,
}
use tucanbit_tvs.Effects.Calls.{send, sleep, begin_tx, commit_tx}
use tucanbit_tvs.Helius.{VerifyWithdrawalParams, verify_withdrawal}
use tucanbit_tvs.Repo.Withdrawals
use tucanbit_tvs.Repo.Transactions
use tucanbit_tvs.Service.SessionCheck.{max_retries, retry_delay, for_token}
use tucanbit_tvs.Service.Failure.{mark_withdrawal_failed}
use tucanbit_tvs.Service.Withdrawal.{
  is_transaction_of_withdrawal, process_verified_withdrawal, parse_or_fail,
}
use tucanbit_tvs.Prelude.{
  ◌∷◌, [], ℕ, String, List, if◌then◌else◌, Bool, suc, contains, eqb, ◌+◌, ◌==◌, concat, zero, ◌&&◌,
  ltb,
}
use tucanbit_tvs.Db.Rows.{GoError, plain_error}
use tucanbit_tvs.Domain.Withdrawal.{Withdrawal, WithdrawalStatus, same_withdrawal_status}
use tucanbit_tvs.Domain.Solana.{HeliusTransaction, SplTokenType}
use tucanbit_tvs.Hub.Message.{withdrawal_message}
use tucanbit_tvs.Service.Rules.{
  map_chain_id_to_cluster_type, is_transient_error, map_crypto_to_spl_token_type,
}

-- The withdrawal goes back to pending with a message; an error of this write is only logged.
unfoldable pub reset_withdrawal : String → List String → Action (Unit {0})
reset_withdrawal withdrawal_id message =
    ignore_error
      (Withdrawals.update_withdrawal_status withdrawal_id WithdrawalStatus.pending (concat message))

abbrev duplicate_key : String
duplicate_key = "duplicate key value violates unique constraint"

-- What follows `processVerifiedWithdrawal`.
unfoldable pub after_processing : Withdrawal → Try (Unit {0}) → Action (Unit {0})
unfolding reset_withdrawal
after_processing withdrawal (done _) = pure tt
after_processing withdrawal (error e) = if contains e.message duplicate_key then pure tt else (do
  reset_withdrawal withdrawal.withdrawal_id ("Processing failed: " ∷ e.message ∷ [])
  raise (
      plain_error (
        concat (
          "failed to process verified withdrawal " ∷ withdrawal.withdrawal_id ∷ ": " ∷ e.message
          ∷ []))))

-- The branch for a verified payment.
unfoldable pub on_verified : Withdrawal → HeliusTransaction → Action (Unit {0})
unfolding after_processing
on_verified withdrawal transaction = do
  existing ← attempt (Transactions.get_by_withdrawal_id withdrawal.withdrawal_id)
  if is_transaction_of_withdrawal withdrawal.withdrawal_id existing then pure tt else (do
    processed ← attempt (process_verified_withdrawal withdrawal transaction)
    after_processing withdrawal processed)

-- The branch for an error that is not retried.
unfoldable pub give_up : Withdrawal → GoError → Action (Unit {0})
unfolding reset_withdrawal
give_up withdrawal e = do
  reset_withdrawal withdrawal.withdrawal_id ("Verification failed: " ∷ e.message ∷ [])
  raise (
      plain_error (
        concat (
          "failed to verify withdrawal " ∷ withdrawal.withdrawal_id ∷ " after 4 attempts: "
          ∷ e.message ∷ [])))

-- The body of the retry loop, given what the later rounds do.
unfoldable pub round :
    Withdrawal → ℕ → Action (Unit {0}) → Try (Bool × HeliusTransaction) → Action (Unit {0})
unfolding on_verified give_up
round withdrawal attempt_number later (done (verified, transaction)) =
    if verified
    then on_verified withdrawal transaction
    else if eqb attempt_number max_retries
    then mark_withdrawal_failed withdrawal "No matching transaction found after retries"
    else later
round withdrawal attempt_number later (error e) =
    if is_transient_error e && ltb attempt_number max_retries
    then (do
      interval ← asks (λ env. env.config.verification.polling_interval)
      sleep (retry_delay interval attempt_number)
      later)
    else give_up withdrawal e

-- The loop over the attempts: the first number counts the rounds that are left.
unfoldable pub attempts : Withdrawal → VerifyWithdrawalParams → ℕ → ℕ → Action (Unit {0})
unfolding round
attempts withdrawal params zero attempt_number =
    reset_withdrawal withdrawal.withdrawal_id ("No matching transaction found" ∷ [])
attempts withdrawal params (suc left) attempt_number = do
  verification ← attempt (verify_withdrawal params)
  round withdrawal attempt_number (attempts withdrawal params left (attempt_number + 1))
      verification

-- The part behind the early exits.
unfoldable pub verify_claimed : Withdrawal → SplTokenType → Action (Unit {0})
unfolding attempts
verify_claimed withdrawal token = do
  cluster ←
      wrap ("invalid chain_id " ∷ withdrawal.chain_id ∷ ": " ∷ [])
        (lift (map_chain_id_to_cluster_type withdrawal.chain_id))
  amount ← parse_or_fail "withdrawal amount" withdrawal.crypto_amount
  attempts withdrawal
      (record {
        tx_hash = withdrawal.tx_hash;
        to_address = withdrawal.to_address;
        amount = amount;
        token_type = token;
        cluster_type = cluster;
      })
      (max_retries + 1) 0

-- The part behind the claim's transaction.
unfoldable pub verify_processing : Withdrawal → Action (Unit {0})
unfolding verify_claimed
verify_processing withdrawal = do
  send (withdrawal_message withdrawal)
  existing ← attempt (Transactions.get_by_withdrawal_id withdrawal.withdrawal_id)
  if is_transaction_of_withdrawal withdrawal.withdrawal_id existing
      then pure tt
      else (if withdrawal.tx_hash == ""
          then mark_withdrawal_failed withdrawal "No transaction hash provided"
          else for_token (map_crypto_to_spl_token_type withdrawal.crypto_currency)
              (verify_claimed withdrawal))

-- `verifySolanaWithdrawal`
unfoldable pub verify_solana_withdrawal : Withdrawal → Action (Unit {0})
unfolding verify_processing
verify_solana_withdrawal withdrawal = do
  tx ←
      wrap ("failed to start transaction for withdrawal " ∷ withdrawal.withdrawal_id ∷ ": " ∷ [])
        begin_tx
  updated ←
      wrap ("failed to recheck withdrawal " ∷ withdrawal.withdrawal_id ∷ ": " ∷ [])
        (Withdrawals.get_by_withdrawal_id_tx tx withdrawal.withdrawal_id)
  if same_withdrawal_status updated.status WithdrawalStatus.pending
      then (do
        tx' ←
            wrap ("failed to mark withdrawal " ∷ withdrawal.withdrawal_id ∷ " as processing: " ∷ [])
              (Withdrawals.update_withdrawal_status_tx tx withdrawal.withdrawal_id
                WithdrawalStatus.processing)
        wrap ("failed to commit transaction for withdrawal " ∷ withdrawal.withdrawal_id ∷ ": " ∷ [])
            (commit_tx tx')
        verify_processing (record withdrawal { status = WithdrawalStatus.processing }))
      else commit_tx tx
