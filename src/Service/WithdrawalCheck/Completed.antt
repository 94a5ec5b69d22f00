-- ===== src/Service/WithdrawalCheck/Completed.antt =====
-- The invariant of completed withdrawals along `verifySolanaWithdrawal`.
use tucanbit_tvs.Service.WithdrawalCheck.Settlement.{
  Keeps-process_verified_withdrawal, Keeps-parse_or_fail,
}
use tucanbit_tvs.Helius.{verify_withdrawal, first_transfer, target_mint, get_base_url}
use tucanbit_tvs.Service.Failure.{mark_withdrawal_failed}
use tucanbit_tvs.Service.WithdrawalCheck.{
  after_processing, on_verified, give_up, round, attempts, reset_withdrawal, verify_claimed,
  verify_processing, verify_solana_withdrawal, Withdrawal, HeliusTransaction, WithdrawalStatus,
  VerifyWithdrawalParams, SplTokenType,
}
use tucanbit_tvs.Service.SessionCheck.{max_retries}
use tucanbit_tvs.Service.SessionCheck.Completed.{Keeps-for_token}
use tucanbit_tvs.Service.SessionCheck.Actions.{Keeps-get_mint_address}
use tucanbit_tvs.Effects.{Env, World, Try, done, error, Action, ◌>>=◌, wrap}
use tucanbit_tvs.Effects.Keeps.{
  Keeps, keeps_rules, Keeps-pure, Keeps-bind, Keeps-wrap, Keeps-asks, Keeps-lift,
  Keeps-ignore_error, Keeps-send, Keeps-attempt, Keeps-if, Keeps-sleep, Keeps-raise,
}
use tucanbit_tvs.Effects.Triple.{
  Triple-bind, Triple-fact, Triple-wrap, Keeps-Triple, Triple-Keeps, Triple-begin_tx,
  Triple-execute_tx, Keeps-commit_tx,
}
use tucanbit_tvs.Repo
use tucanbit_tvs.Repo.Keeps.{
  repo_rules, Keeps-get_by_withdrawal_id_tx, Keeps-update_withdrawal_status,
  Keeps-get_by_withdrawal_id,
}
use tucanbit_tvs.Service.WithdrawalCheck.Recorded.{
  Settled, update_withdrawal-Settled, release-Settled, log-Settled,
}
use tucanbit_tvs.Prelude.{refl, List, String, ◌≢◌, ◌∷◌, [], ℕ, Bool, suc, ◌+◌, zero, none}
use tucanbit_tvs.Db.Rows.{Db, GoError}
use tucanbit_tvs.Service.Failure.Keeps.{Keeps-mark_withdrawal_failed}
use tucanbit_tvs.Effects.Calls.{Tx, commit_tx}

module _ {env : Env} {P : Db → Type 0} where
  Keeps-first_transfer :
      (tx_hash : String) (txs : List HeliusTransaction) → Keeps env P (first_transfer tx_hash txs)
  Keeps-first_transfer tx_hash [] = Keeps-raise _
  Keeps-first_transfer tx_hash (tx ∷ txs) = search keeps_rules

  pub Keeps-verify_withdrawal :
      (params : VerifyWithdrawalParams) → Keeps env P (verify_withdrawal params)
  unfolding verify_withdrawal get_base_url target_mint
  Keeps-verify_withdrawal params =
      search (keeps_rules, Keeps-get_mint_address, Keeps-first_transfer) depth 18

module _ {env : Env} where
  Keeps-reset_withdrawal :
      (id : String) (message : List String) → Keeps env Settled (reset_withdrawal id message)
  unfolding reset_withdrawal
  Keeps-reset_withdrawal id message = Keeps-ignore_error _ (
      Keeps-update_withdrawal_status id WithdrawalStatus.pending _
        (λ hash m. update_withdrawal-Settled hash WithdrawalStatus.pending m id refl))

  Keeps-after_processing :
      (withdrawal : Withdrawal) (processed : Try (Unit {0}))
      → Keeps env Settled (after_processing withdrawal processed)
  unfolding after_processing
  Keeps-after_processing withdrawal (done _) = Keeps-pure tt
  Keeps-after_processing withdrawal (error e) = search (repo_rules, Keeps-reset_withdrawal)

  Keeps-on_verified :
      (withdrawal : Withdrawal) (transaction : HeliusTransaction)
      → withdrawal.withdrawal_id ≢ ""
      → Keeps env Settled (on_verified withdrawal transaction)
  unfolding on_verified
  Keeps-on_verified withdrawal transaction n =
      search (repo_rules, Keeps-process_verified_withdrawal, Keeps-after_processing, n) depth 10

  Keeps-give_up : (withdrawal : Withdrawal) (e : GoError) → Keeps env Settled (give_up withdrawal e)
  unfolding give_up
  Keeps-give_up withdrawal e = search (repo_rules, Keeps-reset_withdrawal)

  Keeps-failing :
      (withdrawal : Withdrawal) (reason : String)
      → Keeps env Settled (mark_withdrawal_failed withdrawal reason)
  Keeps-failing = Keeps-mark_withdrawal_failed update_withdrawal-Settled release-Settled log-Settled

  Keeps-round :
      (withdrawal : Withdrawal) (attempt_number : ℕ) (later : Action (Unit {0}))
      (verification : Try (Bool × HeliusTransaction))
      → withdrawal.withdrawal_id ≢ ""
      → Keeps env Settled later
      → Keeps env Settled (round withdrawal attempt_number later verification)
  unfolding round
  Keeps-round withdrawal attempt_number later (done (verified, transaction)) n k =
      Keeps-if _ _ _ (Keeps-on_verified withdrawal transaction n)
        (Keeps-if _ _ _ (Keeps-failing withdrawal _) k)
  Keeps-round withdrawal attempt_number later (error e) n k =
      Keeps-if _ _ _
        (Keeps-bind _ _ (Keeps-asks _) (λ interval. Keeps-bind _ _ (Keeps-sleep _) (λ _. k)))
        (Keeps-give_up withdrawal e)

  Keeps-attempts :
      (withdrawal : Withdrawal) (params : VerifyWithdrawalParams) (left attempt_number : ℕ)
      → withdrawal.withdrawal_id ≢ ""
      → Keeps env Settled (attempts withdrawal params left attempt_number)
  unfolding attempts
  Keeps-attempts withdrawal params zero attempt_number n =
      Keeps-reset_withdrawal withdrawal.withdrawal_id ("No matching transaction found" ∷ [])
  Keeps-attempts withdrawal params (suc left) attempt_number n =
      Keeps-bind _ _ (Keeps-attempt _ (Keeps-verify_withdrawal params)) (λ verification.
        Keeps-round withdrawal attempt_number _ verification n
          (Keeps-attempts withdrawal params left (attempt_number + 1) n))

  Keeps-verify_claimed :
      (withdrawal : Withdrawal) (token : SplTokenType)
      → withdrawal.withdrawal_id ≢ ""
      → Keeps env Settled (verify_claimed withdrawal token)
  unfolding verify_claimed
  Keeps-verify_claimed withdrawal token n =
      Keeps-bind _ _ (Keeps-wrap _ _ (Keeps-lift _)) (λ cluster.
        Keeps-bind _ _ (Keeps-parse_or_fail _ _) (λ amount.
          Keeps-attempts withdrawal
            (record {
              tx_hash = withdrawal.tx_hash;
              to_address = withdrawal.to_address;
              amount = amount;
              token_type = token;
              cluster_type = cluster;
            })
            (max_retries + 1) 0 n))

  Keeps-verify_processing :
      (withdrawal : Withdrawal)
      → withdrawal.withdrawal_id ≢ ""
      → Keeps env Settled (verify_processing withdrawal)
  unfolding verify_processing
  Keeps-verify_processing withdrawal n = Keeps-bind _ _ (Keeps-send _) (λ _.
      Keeps-bind _ _ (Keeps-attempt _ (Keeps-get_by_withdrawal_id _)) (λ existing.
        Keeps-if _ _ _ (Keeps-pure tt) (
          Keeps-if _ _ _ (Keeps-failing withdrawal _)
            (Keeps-for_token _ _ (λ token. Keeps-verify_claimed withdrawal token n)))))

  -- The claim: the transaction that marks the withdrawal as processing.
  Keeps-claim :
      (withdrawal : Withdrawal) (tx : Tx) (first second : List String) (later : Action (Unit {0}))
      → Settled tx
      → Keeps env Settled later
      → Keeps env Settled (
          wrap first (
            Repo.Withdrawals.update_withdrawal_status_tx tx withdrawal.withdrawal_id
              WithdrawalStatus.processing)
          >>= λ tx'. wrap second (commit_tx tx') >>= λ _. later)
  unfolding Repo.Withdrawals.update_withdrawal_status_tx
  Keeps-claim withdrawal tx first second later h k =
      Keeps-Triple {Q = λ _. Settled} _
        (Triple-bind {Q = λ tx' db. Settled tx' × Settled db} _ _
          (Triple-wrap first _ (
            Triple-execute_tx {Q = Settled} _ tx (λ stamp tx' e.
              (update_withdrawal-Settled none WithdrawalStatus.processing none
                  withdrawal.withdrawal_id refl).at
                stamp tx tx' h e)))
          (λ tx'. Triple-fact _ (λ g.
            Triple-Keeps _ (Keeps-bind _ _ (Keeps-wrap _ _ (Keeps-commit_tx tx' g)) (λ _. k))
              (λ _ db r. r)))
          (λ _ db g. g.1))
        (λ _ db g. g)

  pub Keeps-verify_solana_withdrawal :
      (withdrawal : Withdrawal)
      → withdrawal.withdrawal_id ≢ ""
      → Keeps env Settled (verify_solana_withdrawal withdrawal)
  unfolding verify_solana_withdrawal
  Keeps-verify_solana_withdrawal withdrawal n =
      Keeps-Triple {Q = λ _. Settled} _
        (Triple-bind {Q = λ tx db. Settled tx × Settled db} _ _ (Triple-wrap _ _ Triple-begin_tx)
          (λ tx. Triple-fact _ (λ h.
            Triple-Keeps _
              (Keeps-bind _ _
                (Keeps-wrap _ _ (Keeps-get_by_withdrawal_id_tx tx withdrawal.withdrawal_id))
                (λ updated.
                  Keeps-if _ _ _
                    (Keeps-claim withdrawal tx _ _ _ h (
                      Keeps-verify_processing
                        (record withdrawal { status = WithdrawalStatus.processing }) n))
                    (Keeps-commit_tx tx h)))
              (λ _ db r. r)))
          (λ _ db g. g.1))
        (λ _ db g. g)

-- If every completed withdrawal of the tables has a transaction with its id, then so it is after
-- `verifySolanaWithdrawal` of a withdrawal whose id is not empty, however the call ends and whatever
-- the database, Helius and the clock do: no path completes a withdrawal without a recorded
-- transaction.
pub verify_solana_withdrawal-Settled :
    (env : Env) (withdrawal : Withdrawal) (w : World)
    → withdrawal.withdrawal_id ≢ ""
    → Settled w.db
    → Settled (verify_solana_withdrawal withdrawal env w).1.db
verify_solana_withdrawal-Settled env withdrawal w n h =
    (Keeps-verify_solana_withdrawal withdrawal n).at w h
