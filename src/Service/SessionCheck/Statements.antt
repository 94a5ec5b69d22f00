-- ===== src/Service/SessionCheck/Statements.antt =====
-- A condition that every statement of `verifySolanaSession` keeps is kept by it.
use tucanbit_tvs.Service.SessionCheck.{
  claim_of, max_retries, after_processing, on_verified, give_up, round, attempts, reset_session,
  Claim, verify_claimed, verify_processing, DepositSession, HeliusTransaction, GoError, Float,
  SplTokenType, SolanaClusterType, SessionStatus, verify_solana_session,
}
use tucanbit_tvs.Effects.{Env, Try, done, error, Action, wrap, ◌>>=◌}
use tucanbit_tvs.Effects.Keeps.{
  Keeps, Keeps-pure, Keeps-bind, Keeps-asks, Keeps-attempt, Keeps-ignore_error, Keeps-send,
  Keeps-wrap, Keeps-lift, Keeps-if, Keeps-sleep,
}
use tucanbit_tvs.Effects.Triple.{
  Triple-fact, Triple-bind, Triple-wrap, Keeps-Triple, Triple-Keeps, Triple-execute_tx,
  Keeps-commit_tx, Triple-begin_tx,
}
use tucanbit_tvs.Repo
use tucanbit_tvs.Service.SessionCheck.Actions.{Keeps-verify_deposit, Keeps-get_exchange_rate}
use tucanbit_tvs.Prelude.{String, List, ℕ, suc, Bool, ◌+◌, zero, none, ◌∷◌, [], Option}
use tucanbit_tvs.Service.Deposit.{credit_deposit, record_deposit, process_verified_deposit, Match}
use tucanbit_tvs.Repo.Keeps.{
  repo_rules, Keeps-update_deposit_session_status, Keeps-get_by_deposit_session_id,
  Keeps-get_by_session_id_tx,
}
use tucanbit_tvs.Repo.Sessions.{null_string}
use tucanbit_tvs.Prelude.Int.{ℤ}
use tucanbit_tvs.Effects.Calls.{Tx, commit_tx}
use tucanbit_tvs.Db.Rows.{Db, TransactionRow}
use tucanbit_tvs.Service.SessionCheck.Completed.{Keeps-for_token}
use tucanbit_tvs.Effects.Keeps.{Writes}
use tucanbit_tvs.Service.SessionCheck.Actions.{Keeps-get_mint_address}
use tucanbit_tvs.Db

module _ {env : Env} {P : Db → Type 0}
    (creates : (row : TransactionRow) → Writes P (Db.Transactions.create_transaction row))
    (updates : (user currency : String) (cents : ℤ) (units : String)
      → Writes P (Db.Balances.update_balance user currency cents units))
    (statuses : (id : String) (status : SessionStatus) (message : Option String)
      → Writes P (Db.Sessions.update_deposit_session_status id status message))
    (completes : (id : String) (status : SessionStatus) (metadata message : Option String)
      → Writes P (Db.Sessions.complete_deposit_session id status metadata message)) where
  Keeps-credit_deposit :
      (session : DepositSession) (matched : Match) (rate : Float) (cents : ℤ)
      → Keeps env P (credit_deposit session matched rate cents)
  unfolding credit_deposit
  Keeps-credit_deposit session matched rate cents = search (repo_rules, updates, completes) depth 16

  Keeps-record_deposit :
      (session : DepositSession) (token : SplTokenType) (matched : Match) (rate : Float)
      → Keeps env P (record_deposit session token matched rate)
  unfolding record_deposit
  Keeps-record_deposit session token matched rate =
      search (repo_rules, creates, Keeps-credit_deposit) depth 16

  Keeps-process_verified_deposit :
      (session : DepositSession) (txs : List HeliusTransaction) (token : SplTokenType)
      (required : Float) (cluster : SolanaClusterType) (rate : Float) (decimals : ℕ)
      → Keeps env P (process_verified_deposit session txs token required cluster rate decimals)
  unfolding process_verified_deposit
  Keeps-process_verified_deposit session txs token required cluster rate decimals =
      search (repo_rules, Keeps-get_mint_address, Keeps-record_deposit) depth 14

  Keeps-reset_session :
      (id : String) (message : List String) → Keeps env P (reset_session id message)
  unfolding reset_session
  Keeps-reset_session id message = Keeps-ignore_error _ (
      Keeps-update_deposit_session_status id SessionStatus.pending _
        (λ m. statuses id SessionStatus.pending m))

  Keeps-after_processing :
      (claim : Claim) (processed : Try (Unit {0})) → Keeps env P (after_processing claim processed)
  unfolding after_processing
  Keeps-after_processing claim (done _) = Keeps-pure tt
  Keeps-after_processing claim (error e) = search (repo_rules, Keeps-reset_session)

  Keeps-on_verified :
      (claim : Claim) (txs : List HeliusTransaction) → Keeps env P (on_verified claim txs)
  unfolding on_verified
  Keeps-on_verified claim txs =
      search (repo_rules, Keeps-process_verified_deposit, Keeps-after_processing) depth 10

  Keeps-give_up : (claim : Claim) (e : GoError) → Keeps env P (give_up claim e)
  unfolding give_up
  Keeps-give_up claim e = search (repo_rules, Keeps-reset_session)

  Keeps-round :
      (claim : Claim) (attempt_number : ℕ) (later : Action (Unit {0}))
      (verification : Try (Bool × List HeliusTransaction))
      → Keeps env P later
      → Keeps env P (round claim attempt_number later verification)
  unfolding round
  Keeps-round claim attempt_number later (done (verified, txs)) k =
      Keeps-if _ _ _ (Keeps-on_verified claim txs) (
        Keeps-if _ _ _
          (Keeps-reset_session claim.session.session_id
            ("No matching transaction found after retries" ∷ []))
          k)
  Keeps-round claim attempt_number later (error e) k =
      Keeps-if _ _ _
        (Keeps-bind _ _ (Keeps-asks _) (λ interval. Keeps-bind _ _ (Keeps-sleep _) (λ _. k)))
        (Keeps-give_up claim e)

  Keeps-attempts :
      (claim : Claim) (left attempt_number : ℕ) → Keeps env P (attempts claim left attempt_number)
  unfolding attempts
  Keeps-attempts claim zero attempt_number =
      Keeps-reset_session claim.session.session_id ("No matching transaction found" ∷ [])
  Keeps-attempts claim (suc left) attempt_number =
      Keeps-bind _ _ (Keeps-attempt _ (Keeps-verify_deposit claim.params)) (λ verification.
        Keeps-round claim attempt_number _ verification
          (Keeps-attempts claim left (attempt_number + 1)))

  Keeps-verify_claimed :
      (session : DepositSession) (token : SplTokenType) → Keeps env P (verify_claimed session token)
  unfolding verify_claimed
  Keeps-verify_claimed session token = Keeps-bind _ _ (Keeps-wrap _ _ (Keeps-lift _)) (λ cluster.
      Keeps-bind _ _ (Keeps-wrap _ _ (Keeps-lift _)) (λ decimals.
        Keeps-bind _ _ (Keeps-wrap _ _ (Keeps-get_exchange_rate _ _)) (λ rate.
          Keeps-bind _ _ (Keeps-asks _) (λ ops.
            Keeps-attempts (claim_of ops session token cluster decimals rate.rate) (max_retries + 1)
              0))))

  Keeps-verify_processing : (session : DepositSession) → Keeps env P (verify_processing session)
  unfolding verify_processing
  Keeps-verify_processing session = Keeps-bind _ _ (Keeps-send _) (λ _.
      Keeps-bind _ _ (Keeps-attempt _ (Keeps-get_by_deposit_session_id _)) (λ existing.
        Keeps-if _ _ _ (Keeps-pure tt)
          (Keeps-for_token _ _ (λ token. Keeps-verify_claimed session token))))

  -- The claim: the transaction that marks the session as processing.
  Keeps-claim :
      (session : DepositSession) (tx : Tx) (first second : List String) (later : Action (Unit {0}))
      → P tx
      → Keeps env P later
      → Keeps env P (
          wrap first (
            Repo.Sessions.update_deposit_session_status_tx tx session.session_id
              SessionStatus.processing)
          >>= λ tx'. wrap second (commit_tx tx') >>= λ _. later)
  unfolding Repo.Sessions.update_deposit_session_status_tx
  Keeps-claim session tx first second later h k =
      Keeps-Triple {Q = λ _. P} _
        (Triple-bind {Q = λ tx' db. P tx' × P db} _ _
          (Triple-wrap first _ (
            Triple-wrap _ _ (
              Triple-execute_tx {Q = P} _ tx (λ stamp tx' e.
                (statuses session.session_id SessionStatus.processing none).at stamp tx tx' h e))))
          (λ tx'. Triple-fact _ (λ g.
            Triple-Keeps _ (Keeps-bind _ _ (Keeps-wrap _ _ (Keeps-commit_tx tx' g)) (λ _. k))
              (λ _ db r. r)))
          (λ _ db g. g.1))
        (λ _ db g. g)

  pub Keeps-verify_solana_session_under :
      (session : DepositSession) → Keeps env P (verify_solana_session session)
  unfolding verify_solana_session
  Keeps-verify_solana_session_under session =
      Keeps-Triple {Q = λ _. P} _
        (Triple-bind {Q = λ tx db. P tx × P db} _ _ (Triple-wrap _ _ Triple-begin_tx)
          (λ tx. Triple-fact _ (λ h.
            Triple-Keeps _
              (Keeps-bind _ _ (Keeps-wrap _ _ (Keeps-get_by_session_id_tx tx session.session_id))
                (λ updated.
                  Keeps-if _ _ _
                    (Keeps-claim session tx _ _ _ h (
                      Keeps-verify_processing
                        (record session { status = SessionStatus.processing })))
                    (Keeps-commit_tx tx h)))
              (λ _ db r. r)))
          (λ _ db g. g.1))
        (λ _ db g. g)
