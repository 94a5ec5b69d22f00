-- ===== src/Service/SessionCheck/Completed.antt =====
-- The invariant of completed sessions along `verifySolanaSession`.
use tucanbit_tvs.Service.SessionCheck.{
  claim_of, max_retries, after_processing, on_verified, give_up, round, attempts, reset_session,
  Claim, verify_claimed, for_token, verify_processing, DepositSession, HeliusTransaction, GoError,
  Result, Float, SplTokenType, SolanaClusterType, SessionStatus, ok, verify_solana_session,
}
use tucanbit_tvs.Effects.{Env, Try, done, error, Action, wrap, ◌>>=◌, World}
use tucanbit_tvs.Effects.Keeps.{
  Keeps, Keeps-pure, Keeps-bind, Keeps-asks, Keeps-attempt, Keeps-new_uuid, Keeps-time_now,
  Keeps-ignore_error, Keeps-send, Keeps-wrap, Keeps-lift, Keeps-if, Keeps-crash, Keeps-sleep,
}
use tucanbit_tvs.Effects.Triple.{
  Triple-fact, Triple, Triple-bind, Triple-wrap, Keeps-Triple, Triple-Keeps, Triple-execute,
  Triple-execute_tx, Keeps-commit_tx, Triple-begin_tx,
}
use tucanbit_tvs.Repo
use tucanbit_tvs.Service.SessionCheck.Actions.{
  deposit_rules, Keeps-verify_deposit, Keeps-get_exchange_rate,
}
use tucanbit_tvs.Service.SessionCheck.Recorded.{
  Recorded, RecordedWith, update_status-Recorded, create-RecordedWith,
}
use tucanbit_tvs.Prelude.{
  refl, String, List, ◌≢◌, ℕ, ◌≡◌, suc, some, Bool, ne_test, subst, ◌+◌, sym, zero, none, ◌∷◌, [],
}
use tucanbit_tvs.Service.Deposit.{
  credit_deposit, record_deposit, process_verified_deposit, deposit_transaction, Match,
}
use tucanbit_tvs.Domain.Transaction.{Transaction}
use tucanbit_tvs.Repo.Keeps.{
  repo_rules, Keeps-update_deposit_session_status, Keeps-get_by_deposit_session_id,
  Keeps-get_by_session_id_tx,
}
use tucanbit_tvs.Repo.Sessions.{null_string}
use tucanbit_tvs.Prelude.Int.{ℤ}
use tucanbit_tvs.Effects.Calls.{Tx, commit_tx}
use tucanbit_tvs.Db.Rows.{ok, err, panic, Db}

pub null_string_lem : (s : String) → s ≢ "" → null_string s ≡ some s
null_string_lem s n = rw (ne_test s "" n) refl

module _ {env : Env} {P : Db → Type 0} where
  pub Keeps-for_token :
      (token : Result SplTokenType) (f : SplTokenType → Action (Unit {0}))
      → ((t : SplTokenType) → Keeps env P (f t))
      → Keeps env P (for_token token f)
  Keeps-for_token (ok t) f k = k t
  Keeps-for_token (err e) f k = Keeps-pure tt
  Keeps-for_token (panic text) f k = Keeps-crash text

module _ {env : Env} where
  Keeps-credit_deposit :
      (session : DepositSession) (matched : Match) (rate : Float) (cents : ℤ)
      → Keeps env (RecordedWith session.session_id) (credit_deposit session matched rate cents)
  unfolding credit_deposit
  Keeps-credit_deposit session matched rate cents = search deposit_rules depth 16

  Triple-create :
      (tx : Transaction)
      → tx.deposit_session_id ≢ ""
      → Triple env Recorded (Repo.Transactions.create tx) (λ _. RecordedWith tx.deposit_session_id)
  unfolding Repo.Transactions.create Repo.Transactions.create_params
  Triple-create tx n = Triple-execute _ (λ stamp db db' h e.
      create-RecordedWith tx.deposit_session_id _ stamp db db'
        (null_string_lem tx.deposit_session_id n) h e)

  Keeps-create_and_credit :
      (prefix : List String) (tx : Transaction) (session : DepositSession) (matched : Match)
      (rate : Float) (cents : ℤ)
      → tx.deposit_session_id ≡ session.session_id
      → session.session_id ≢ ""
      → Keeps env Recorded (
          wrap prefix (Repo.Transactions.create tx) >>= λ _.
          credit_deposit session matched rate cents)
  unfolding RecordedWith
  Keeps-create_and_credit prefix tx session matched rate cents e n =
      Keeps-Triple {Q = λ _. RecordedWith session.session_id} _
        (Triple-bind {Q = λ _. RecordedWith session.session_id} _ _
          (Triple-wrap prefix _ (
            subst (λ id. Triple env Recorded (Repo.Transactions.create tx) (λ _. RecordedWith id)) e
              (Triple-create tx (subst (λ id. id ≢ "") (sym e) n))))
          (λ _. Triple-Keeps _ (Keeps-credit_deposit session matched rate cents) (λ _ db h. h))
          (λ _ db h. h.0))
        (λ _ db h. h.0)

  Keeps-record_deposit :
      (session : DepositSession) (token : SplTokenType) (matched : Match) (rate : Float)
      → session.session_id ≢ ""
      → Keeps env Recorded (record_deposit session token matched rate)
  unfolding record_deposit deposit_transaction
  Keeps-record_deposit session token matched rate n = Keeps-bind _ _ (Keeps-asks _) (λ ops.
      Keeps-bind _ _ Keeps-new_uuid (λ id. Keeps-bind _ _ Keeps-time_now (λ now.
        Keeps-bind _ _ (Keeps-asks _) (λ metadata.
          Keeps-create_and_credit _ _ (record session { metadata = some metadata }) matched rate _
            refl n))))

  Keeps-process_verified_deposit :
      (session : DepositSession) (txs : List HeliusTransaction) (token : SplTokenType)
      (required : Float) (cluster : SolanaClusterType) (rate : Float) (decimals : ℕ)
      → session.session_id ≢ ""
      → Keeps env Recorded
          (process_verified_deposit session txs token required cluster rate decimals)
  unfolding process_verified_deposit
  Keeps-process_verified_deposit session txs token required cluster rate decimals n =
      search (deposit_rules, Keeps-record_deposit, n) depth 14

  Keeps-reset_session :
      (id : String) (message : List String) → Keeps env Recorded (reset_session id message)
  unfolding reset_session
  Keeps-reset_session id message = Keeps-ignore_error _ (
      Keeps-update_deposit_session_status id SessionStatus.pending _
        (λ m. update_status-Recorded id SessionStatus.pending m refl))

  Keeps-after_processing :
      (claim : Claim) (processed : Try (Unit {0}))
      → Keeps env Recorded (after_processing claim processed)
  unfolding after_processing
  Keeps-after_processing claim (done _) = Keeps-pure tt
  Keeps-after_processing claim (error e) = search (repo_rules, Keeps-reset_session)

  Keeps-on_verified :
      (claim : Claim) (txs : List HeliusTransaction)
      → claim.session.session_id ≢ ""
      → Keeps env Recorded (on_verified claim txs)
  unfolding on_verified
  Keeps-on_verified claim txs n =
      search (repo_rules, Keeps-process_verified_deposit, Keeps-after_processing, n) depth 10

  Keeps-give_up : (claim : Claim) (e : GoError) → Keeps env Recorded (give_up claim e)
  unfolding give_up
  Keeps-give_up claim e = search (repo_rules, Keeps-reset_session)

  Keeps-round :
      (claim : Claim) (attempt_number : ℕ) (later : Action (Unit {0}))
      (verification : Try (Bool × List HeliusTransaction))
      → claim.session.session_id ≢ ""
      → Keeps env Recorded later
      → Keeps env Recorded (round claim attempt_number later verification)
  unfolding round
  Keeps-round claim attempt_number later (done (verified, txs)) n k =
      Keeps-if _ _ _ (Keeps-on_verified claim txs n) (
        Keeps-if _ _ _
          (Keeps-reset_session claim.session.session_id
            ("No matching transaction found after retries" ∷ []))
          k)
  Keeps-round claim attempt_number later (error e) n k =
      Keeps-if _ _ _
        (Keeps-bind _ _ (Keeps-asks _) (λ interval. Keeps-bind _ _ (Keeps-sleep _) (λ _. k)))
        (Keeps-give_up claim e)

  Keeps-attempts :
      (claim : Claim) (left attempt_number : ℕ)
      → claim.session.session_id ≢ ""
      → Keeps env Recorded (attempts claim left attempt_number)
  unfolding attempts
  Keeps-attempts claim zero attempt_number n =
      Keeps-reset_session claim.session.session_id ("No matching transaction found" ∷ [])
  Keeps-attempts claim (suc left) attempt_number n =
      Keeps-bind _ _ (Keeps-attempt _ (Keeps-verify_deposit claim.params)) (λ verification.
        Keeps-round claim attempt_number _ verification n
          (Keeps-attempts claim left (attempt_number + 1) n))

  Keeps-verify_claimed :
      (session : DepositSession) (token : SplTokenType)
      → session.session_id ≢ ""
      → Keeps env Recorded (verify_claimed session token)
  unfolding verify_claimed
  Keeps-verify_claimed session token n = Keeps-bind _ _ (Keeps-wrap _ _ (Keeps-lift _)) (λ cluster.
      Keeps-bind _ _ (Keeps-wrap _ _ (Keeps-lift _)) (λ decimals.
        Keeps-bind _ _ (Keeps-wrap _ _ (Keeps-get_exchange_rate _ _)) (λ rate.
          Keeps-bind _ _ (Keeps-asks _) (λ ops.
            Keeps-attempts (claim_of ops session token cluster decimals rate.rate) (max_retries + 1)
              0 n))))

  Keeps-verify_processing :
      (session : DepositSession)
      → session.session_id ≢ ""
      → Keeps env Recorded (verify_processing session)
  unfolding verify_processing
  Keeps-verify_processing session n = Keeps-bind _ _ (Keeps-send _) (λ _.
      Keeps-bind _ _ (Keeps-attempt _ (Keeps-get_by_deposit_session_id _)) (λ existing.
        Keeps-if _ _ _ (Keeps-pure tt)
          (Keeps-for_token _ _ (λ token. Keeps-verify_claimed session token n))))

  -- The claim: the transaction that marks the session as processing.
  Keeps-claim :
      (session : DepositSession) (tx : Tx) (first second : List String) (later : Action (Unit {0}))
      → Recorded tx
      → Keeps env Recorded later
      → Keeps env Recorded (
          wrap first (
            Repo.Sessions.update_deposit_session_status_tx tx session.session_id
              SessionStatus.processing)
          >>= λ tx'. wrap second (commit_tx tx') >>= λ _. later)
  unfolding Repo.Sessions.update_deposit_session_status_tx
  Keeps-claim session tx first second later h k =
      Keeps-Triple {Q = λ _. Recorded} _
        (Triple-bind {Q = λ tx' db. Recorded tx' × Recorded db} _ _
          (Triple-wrap first _ (
            Triple-wrap _ _ (
              Triple-execute_tx {Q = Recorded} _ tx (λ stamp tx' e.
                (update_status-Recorded session.session_id SessionStatus.processing none refl).at
                  stamp tx tx' h e))))
          (λ tx'. Triple-fact _ (λ g.
            Triple-Keeps _ (Keeps-bind _ _ (Keeps-wrap _ _ (Keeps-commit_tx tx' g)) (λ _. k))
              (λ _ db r. r)))
          (λ _ db g. g.1))
        (λ _ db g. g)

  pub Keeps-verify_solana_session :
      (session : DepositSession)
      → session.session_id ≢ ""
      → Keeps env Recorded (verify_solana_session session)
  unfolding verify_solana_session
  Keeps-verify_solana_session session n =
      Keeps-Triple {Q = λ _. Recorded} _
        (Triple-bind {Q = λ tx db. Recorded tx × Recorded db} _ _ (Triple-wrap _ _ Triple-begin_tx)
          (λ tx. Triple-fact _ (λ h.
            Triple-Keeps _
              (Keeps-bind _ _ (Keeps-wrap _ _ (Keeps-get_by_session_id_tx tx session.session_id))
                (λ updated.
                  Keeps-if _ _ _
                    (Keeps-claim session tx _ _ _ h (
                      Keeps-verify_processing (record session { status = SessionStatus.processing })
                        n))
                    (Keeps-commit_tx tx h)))
              (λ _ db r. r)))
          (λ _ db g. g.1))
        (λ _ db g. g)

-- If every completed session of the tables has a transaction with its id, then so it is after
-- `verifySolanaSession` of a session whose id is not empty, however the call ends and whatever the
-- database, Helius, the exchange and the clock do: no path completes a session without a recorded
-- transaction.
pub verify_solana_session-Recorded :
    (env : Env) (session : DepositSession) (w : World)
    → session.session_id ≢ ""
    → Recorded w.db
    → Recorded (verify_solana_session session env w).1.db
verify_solana_session-Recorded env session w n h = (Keeps-verify_solana_session session n).at w h
