-- ===== src/Service/WithdrawalCheck/Statements.antt =====
-- A condition that every statement of `verifySolanaWithdrawal` keeps is kept by it.
use tucanbit_tvs.Service.WithdrawalCheck.Settlement.{Keeps-parse_or_fail}
use tucanbit_tvs.Service.Failure.{mark_withdrawal_failed}
use tucanbit_tvs.Service.WithdrawalCheck.{
  after_processing, on_verified, give_up, round, attempts, reset_withdrawal, verify_claimed,
  verify_processing, verify_solana_withdrawal, Withdrawal, HeliusTransaction, WithdrawalStatus,
  VerifyWithdrawalParams, SplTokenType, process_verified_withdrawal,
}
use tucanbit_tvs.Service.SessionCheck.{max_retries}
use tucanbit_tvs.Service.SessionCheck.Completed.{Keeps-for_token}
use tucanbit_tvs.Effects.{Env, Try, done, error, Action, ◌>>=◌, wrap}
use tucanbit_tvs.Effects.Keeps.{
  Keeps, Keeps-pure, Keeps-bind, Keeps-wrap, Keeps-asks, Keeps-lift, Keeps-ignore_error, Keeps-send,
  Keeps-attempt, Keeps-if, Keeps-sleep,
}
use tucanbit_tvs.Effects.Triple.{
  Triple-bind, Triple-fact, Triple-wrap, Keeps-Triple, Triple-Keeps, Triple-begin_tx,
  Triple-execute_tx, Keeps-commit_tx,
}
use tucanbit_tvs.Repo
use tucanbit_tvs.Repo.Keeps.{
  repo_rules, Keeps-get_by_withdrawal_id_tx, Keeps-update_withdrawal_status,
  Keeps-get_by_withdrawal_id,
}
use tucanbit_tvs.Prelude.{List, String, ◌∷◌, [], ℕ, Bool, suc, ◌+◌, zero, none, Option}
use tucanbit_tvs.Db.Rows.{Db, GoError, TransactionRow, BalanceLogRow}
use tucanbit_tvs.Service.Failure.Keeps.{Keeps-mark_withdrawal_failed}
use tucanbit_tvs.Effects.Calls.{Tx, commit_tx}
use tucanbit_tvs.Service.WithdrawalCheck.Completed.{Keeps-verify_withdrawal}
use tucanbit_tvs.Effects.Keeps.{Writes}
use tucanbit_tvs.Db
use tucanbit_tvs.Service.Withdrawal.{process_verified_withdrawal}
use tucanbit_tvs.Prelude.Int.{ℤ}
use tucanbit_tvs.Service.Withdrawal.{settle_withdrawal, record_withdrawal, release_on_success}
use tucanbit_tvs.Float.{Float}

module _ {env : Env} {P : Db → Type 0}
    (creates : (row : TransactionRow) → Writes P (Db.Transactions.create_transaction row))
    (updates : (user currency : String) (cents : ℤ) (units : String)
      → Writes P (Db.Balances.update_balance user currency cents units))
    (releases : (user currency : String) (cents : ℤ)
      → Writes P (Db.Balances.release_reserved_balance user currency cents))
    (logs : (row : BalanceLogRow) → Writes P (λ stamp. Db.Balances.log_balance_change row))
    (statuses : (hash : Option String) (status : WithdrawalStatus) (message : Option String)
        (id : String)
      → Writes P (Db.Withdrawals.update_withdrawal hash status message id)) where
  Keeps-settle_withdrawal :
      (withdrawal : Withdrawal) (amount rate : Float)
      → Keeps env P (settle_withdrawal withdrawal amount rate)
  unfolding settle_withdrawal release_on_success
  Keeps-settle_withdrawal withdrawal amount rate =
      search (repo_rules, updates, releases, statuses) depth 24

  Keeps-record_withdrawal :
      (withdrawal : Withdrawal) (transaction : HeliusTransaction)
      → Keeps env P (record_withdrawal withdrawal transaction)
  unfolding record_withdrawal
  Keeps-record_withdrawal withdrawal transaction =
      search (repo_rules, Keeps-parse_or_fail, creates, Keeps-settle_withdrawal) depth 18

  Keeps-process_verified_withdrawal :
      (withdrawal : Withdrawal) (transaction : HeliusTransaction)
      → Keeps env P (process_verified_withdrawal withdrawal transaction)
  unfolding process_verified_withdrawal
  Keeps-process_verified_withdrawal withdrawal transaction =
      search (repo_rules, Keeps-record_withdrawal) depth 10

  Keeps-reset_withdrawal :
      (id : String) (message : List String) → Keeps env P (reset_withdrawal id message)
  unfolding reset_withdrawal
  Keeps-reset_withdrawal id message = Keeps-ignore_error _ (
      Keeps-update_withdrawal_status id WithdrawalStatus.pending _
        (λ hash m. statuses hash WithdrawalStatus.pending m id))

  Keeps-after_processing :
      (withdrawal : Withdrawal) (processed : Try (Unit {0}))
      → Keeps env P (after_processing withdrawal processed)
  unfolding after_processing
  Keeps-after_processing withdrawal (done _) = Keeps-pure tt
  Keeps-after_processing withdrawal (error e) = search (repo_rules, Keeps-reset_withdrawal)

  Keeps-on_verified :
      (withdrawal : Withdrawal) (transaction : HeliusTransaction)
      → Keeps env P (on_verified withdrawal transaction)
  unfolding on_verified
  Keeps-on_verified withdrawal transaction =
      search (repo_rules, Keeps-process_verified_withdrawal, Keeps-after_processing) depth 10

  Keeps-give_up : (withdrawal : Withdrawal) (e : GoError) → Keeps env P (give_up withdrawal e)
  unfolding give_up
  Keeps-give_up withdrawal e = search (repo_rules, Keeps-reset_withdrawal)

  Keeps-failing :
      (withdrawal : Withdrawal) (reason : String)
      → Keeps env P (mark_withdrawal_failed withdrawal reason)
  Keeps-failing =
      Keeps-mark_withdrawal_failed (λ hash status message id _. statuses hash status message id)
        releases logs

  Keeps-round :
      (withdrawal : Withdrawal) (attempt_number : ℕ) (later : Action (Unit {0}))
      (verification : Try (Bool × HeliusTransaction))
      → Keeps env P later
      → Keeps env P (round withdrawal attempt_number later verification)
  unfolding round
  Keeps-round withdrawal attempt_number later (done (verified, transaction)) k =
      Keeps-if _ _ _ (Keeps-on_verified withdrawal transaction)
        (Keeps-if _ _ _ (Keeps-failing withdrawal _) k)
  Keeps-round withdrawal attempt_number later (error e) k =
      Keeps-if _ _ _
        (Keeps-bind _ _ (Keeps-asks _) (λ interval. Keeps-bind _ _ (Keeps-sleep _) (λ _. k)))
        (Keeps-give_up withdrawal e)

  Keeps-attempts :
      (withdrawal : Withdrawal) (params : VerifyWithdrawalParams) (left attempt_number : ℕ)
      → Keeps env P (attempts withdrawal params left attempt_number)
  unfolding attempts
  Keeps-attempts withdrawal params zero attempt_number =
      Keeps-reset_withdrawal withdrawal.withdrawal_id ("No matching transaction found" ∷ [])
  Keeps-attempts withdrawal params (suc left) attempt_number =
      Keeps-bind _ _ (Keeps-attempt _ (Keeps-verify_withdrawal params)) (λ verification.
        Keeps-round withdrawal attempt_number _ verification
          (Keeps-attempts withdrawal params left (attempt_number + 1)))

  Keeps-verify_claimed :
      (withdrawal : Withdrawal) (token : SplTokenType)
      → Keeps env P (verify_claimed withdrawal token)
  unfolding verify_claimed
  Keeps-verify_claimed withdrawal token = Keeps-bind _ _ (Keeps-wrap _ _ (Keeps-lift _)) (λ cluster.
      Keeps-bind _ _ (Keeps-parse_or_fail _ _) (λ amount.
        Keeps-attempts withdrawal
          (record {
            tx_hash = withdrawal.tx_hash;
            to_address = withdrawal.to_address;
            amount = amount;
            token_type = token;
            cluster_type = cluster;
          })
          (max_retries + 1) 0))

  Keeps-verify_processing : (withdrawal : Withdrawal) → Keeps env P (verify_processing withdrawal)
  unfolding verify_processing
  Keeps-verify_processing withdrawal = Keeps-bind _ _ (Keeps-send _) (λ _.
      Keeps-bind _ _ (Keeps-attempt _ (Keeps-get_by_withdrawal_id _)) (λ existing.
        Keeps-if _ _ _ (Keeps-pure tt) (
          Keeps-if _ _ _ (Keeps-failing withdrawal _)
            (Keeps-for_token _ _ (λ token. Keeps-verify_claimed withdrawal token)))))

  -- The claim: the transaction that marks the withdrawal as processing.
  Keeps-claim :
      (withdrawal : Withdrawal) (tx : Tx) (first second : List String) (later : Action (Unit {0}))
      → P tx
      → Keeps env P later
      → Keeps env P (
          wrap first (
            Repo.Withdrawals.update_withdrawal_status_tx tx withdrawal.withdrawal_id
              WithdrawalStatus.processing)
          >>= λ tx'. wrap second (commit_tx tx') >>= λ _. later)
  unfolding Repo.Withdrawals.update_withdrawal_status_tx
  Keeps-claim withdrawal tx first second later h k =
      Keeps-Triple {Q = λ _. P} _
        (Triple-bind {Q = λ tx' db. P tx' × P db} _ _
          (Triple-wrap first _ (
            Triple-execute_tx {Q = P} _ tx (λ stamp tx' e.
              (statuses none WithdrawalStatus.processing none withdrawal.withdrawal_id).at stamp tx
                tx' h e)))
          (λ tx'. Triple-fact _ (λ g.
            Triple-Keeps _ (Keeps-bind _ _ (Keeps-wrap _ _ (Keeps-commit_tx tx' g)) (λ _. k))
              (λ _ db r. r)))
          (λ _ db g. g.1))
        (λ _ db g. g)

  pub Keeps-verify_solana_withdrawal_under :
      (withdrawal : Withdrawal) → Keeps env P (verify_solana_withdrawal withdrawal)
  unfolding verify_solana_withdrawal
  Keeps-verify_solana_withdrawal_under withdrawal =
      Keeps-Triple {Q = λ _. P} _
        (Triple-bind {Q = λ tx db. P tx × P db} _ _ (Triple-wrap _ _ Triple-begin_tx)
          (λ tx. Triple-fact _ (λ h.
            Triple-Keeps _
              (Keeps-bind _ _
                (Keeps-wrap _ _ (Keeps-get_by_withdrawal_id_tx tx withdrawal.withdrawal_id))
                (λ updated.
                  Keeps-if _ _ _
                    (Keeps-claim withdrawal tx _ _ _ h (
                      Keeps-verify_processing
                        (record withdrawal { status = WithdrawalStatus.processing })))
                    (Keeps-commit_tx tx h)))
              (λ _ db r. r)))
          (λ _ db g. g.1))
        (λ _ db g. g)
