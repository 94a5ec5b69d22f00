-- ===== src/Service/SessionCheck.antt =====
-- `verifySolanaSession` of verification_service_impl.go.
pub mod Recorded
pub mod Actions
pub mod Completed
pub mod Statements
pub mod Frame
use tucanbit_tvs.Effects.{
  Action, ◌>>=◌, ◌>>◌, pure, raise, wrap, asks, lift, attempt, Try, done, error, ignore_error,
  crash,
}
use tucanbit_tvs.Effects.Calls.{send, sleep, begin_tx, commit_tx}
use tucanbit_tvs.Exchange.{get_exchange_rate, second}
use tucanbit_tvs.Helius.{VerifyDepositParams, verify_deposit, get_decimals, power_of_ten}
use tucanbit_tvs.Repo.Sessions
use tucanbit_tvs.Repo.Transactions
use tucanbit_tvs.Service.Deposit.{is_transaction_of_session, process_verified_deposit}
use tucanbit_tvs.Prelude.{
  ◌∷◌, [], ℕ, String, if◌then◌else◌, List, ◌*◌, contains, Bool, suc, concat, eqb, ◌+◌, ◌^◌, ◌&&◌,
  zero, ltb,
}
use tucanbit_tvs.Domain.Session.{DepositSession, SessionStatus, same_session_status}
use tucanbit_tvs.Db.Rows.{GoError, Result, plain_error, ok, err, panic}
use tucanbit_tvs.Domain.Solana.{
  SplTokenType, HeliusTransaction, SolanaClusterType, token_text, cluster_text,
}
use tucanbit_tvs.Hub.Message.{deposit_message}
use tucanbit_tvs.Service.Rules.{
  map_chain_id_to_cluster_type, map_crypto_to_spl_token_type, is_transient_error,
}
use tucanbit_tvs.Float.{Float, to_int64, FloatOps}

abbrev pub max_retries : ℕ
max_retries = 3

-- `backoffBase * time.Duration(math.Pow(2, float64(attempt)))`
abbrev pub retry_delay : ℕ → ℕ → ℕ
retry_delay polling_interval attempt = polling_interval * second * 2 ^ attempt

-- What stays fixed through the attempts at one session.
pub record Claim : Type 0 where
  pub session : DepositSession
  pub token_type : SplTokenType
  pub cluster_type : SolanaClusterType
  pub rate : Float
  pub decimals : ℕ
  pub params : VerifyDepositParams

-- The session goes back to pending with a message; an error of this write is only logged.
unfoldable pub reset_session : String → List String → Action (Unit {0})
reset_session session_id message =
    ignore_error
      (Sessions.update_deposit_session_status session_id SessionStatus.pending (concat message))

abbrev duplicate_deposit : String
duplicate_deposit = "duplicate key value violates unique constraint \"unique_deposit_transaction\""

-- What follows `processVerifiedDeposit`.
unfoldable pub after_processing : Claim → Try (Unit {0}) → Action (Unit {0})
unfolding reset_session
after_processing claim (done _) = pure tt
after_processing claim (error e) = if contains e.message duplicate_deposit then pure tt else (do
  reset_session claim.session.session_id ("Processing failed: " ∷ e.message ∷ [])
  raise (
      plain_error (
        concat (
          "failed to process verified deposit for session " ∷ claim.session.session_id ∷ ": "
          ∷ e.message ∷ []))))

-- The branch for a verified payment.
unfoldable pub on_verified : Claim → List HeliusTransaction → Action (Unit {0})
unfolding after_processing
on_verified claim transactions = do
  existing ← attempt (Transactions.get_by_deposit_session_id claim.session.session_id)
  if is_transaction_of_session claim.session.session_id existing then pure tt else (do
    processed ← attempt (
        process_verified_deposit claim.session transactions claim.token_type claim.session.amount
          claim.cluster_type claim.rate claim.decimals)
    after_processing claim processed)

-- The branch for an error that is not retried.
unfoldable pub give_up : Claim → GoError → Action (Unit {0})
unfolding reset_session
give_up claim e = do
  reset_session claim.session.session_id ("Verification failed: " ∷ e.message ∷ [])
  raise (
      plain_error (
        concat (
          "failed to verify deposit for session " ∷ claim.session.session_id ∷ " after 4 attempts: "
          ∷ e.message ∷ [])))

-- The body of the retry loop, given what the later rounds do.
unfoldable pub round :
    Claim → ℕ → Action (Unit {0}) → Try (Bool × List HeliusTransaction) → Action (Unit {0})
unfolding on_verified give_up
round claim attempt_number later (done (verified, transactions)) =
    if verified
    then on_verified claim transactions
    else if eqb attempt_number max_retries
    then reset_session claim.session.session_id ("No matching transaction found after retries" ∷ [])
    else later
round claim attempt_number later (error e) =
    if is_transient_error e && ltb attempt_number max_retries
    then (do
      interval ← asks (λ env. env.config.verification.polling_interval)
      sleep (retry_delay interval attempt_number)
      later)
    else give_up claim e

-- The loop over the attempts: the first argument counts the rounds that are left.
unfoldable pub attempts : Claim → ℕ → ℕ → Action (Unit {0})
unfolding round
attempts claim zero attempt_number =
    reset_session claim.session.session_id ("No matching transaction found" ∷ [])
attempts claim (suc left) attempt_number = do
  verification ← attempt (verify_deposit claim.params)
  round claim attempt_number (attempts claim left (attempt_number + 1)) verification

-- What the attempts need; the required amount is in the smallest units of the token.
abbrev pub claim_of :
    FloatOps → DepositSession → SplTokenType → SolanaClusterType → ℕ → Float → Claim
claim_of ops session token cluster decimals rate = record {
  session = session;
  token_type = token;
  cluster_type = cluster;
  rate = rate;
  decimals = decimals;
  params = record {
    address = session.wallet_address;
    required_amount = to_int64 ops (ops.mul session.amount (power_of_ten decimals));
    token_type = token;
    cluster_type = cluster;
  };
}

-- The part behind the two early exits: what is needed for the attempts, then the attempts.
unfoldable pub verify_claimed : DepositSession → SplTokenType → Action (Unit {0})
unfolding attempts
verify_claimed session token = do
  cluster ←
      wrap ("invalid chain_id " ∷ session.chain_id ∷ ": " ∷ [])
        (lift (map_chain_id_to_cluster_type session.chain_id))
  decimals ←
      wrap
        ("failed to get decimals for "
          ∷ token_text token
          ∷ " on "
          ∷ cluster_text cluster
          ∷ ": "
          ∷ [])
        (lift (get_decimals cluster token))
  exchange_rate ←
      wrap ("Failed to get exchange rate, using default rate, " ∷ [])
        (get_exchange_rate session.crypto_currency "USD")
  ops ← asks (λ env. env.ops)
  attempts (claim_of ops session token cluster decimals exchange_rate.rate) (max_retries + 1) 0

-- `if err != nil { log; return nil }`
abbrev pub for_token : Result SplTokenType → (SplTokenType → Action (Unit {0})) → Action (Unit {0})
for_token (ok token) f = f token
for_token (err e) f = pure tt
for_token (panic text) f = crash text

-- The part behind the claim's transaction.
unfoldable pub verify_processing : DepositSession → Action (Unit {0})
unfolding verify_claimed
verify_processing session = do
  send (deposit_message session)
  existing ← attempt (Transactions.get_by_deposit_session_id session.session_id)
  if is_transaction_of_session session.session_id existing
      then pure tt
      else for_token (map_crypto_to_spl_token_type session.crypto_currency) (verify_claimed session)

-- `verifySolanaSession`
unfoldable pub verify_solana_session : DepositSession → Action (Unit {0})
unfolding verify_processing
verify_solana_session session = do
  tx ← wrap ("failed to start transaction for session " ∷ session.session_id ∷ ": " ∷ []) begin_tx
  updated ←
      wrap ("failed to recheck session " ∷ session.session_id ∷ ": " ∷ [])
        (Sessions.get_by_session_id_tx tx session.session_id)
  if same_session_status updated.status SessionStatus.pending
      then (do
        tx' ← wrap ("failed to mark session " ∷ session.session_id ∷ " as processing: " ∷ []) (
            Sessions.update_deposit_session_status_tx tx session.session_id
              SessionStatus.processing)
        wrap ("failed to commit transaction for session " ∷ session.session_id ∷ ": " ∷ [])
            (commit_tx tx')
        verify_processing (record session { status = SessionStatus.processing }))
      else commit_tx tx
