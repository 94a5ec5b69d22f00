-- ===== src/Repo/Keeps.antt =====
-- Invariants of the database along the methods of the repositories.
use tucanbit_tvs.Effects.{Env, Try, done, error}
use tucanbit_tvs.Effects.Calls.{Tx}
use tucanbit_tvs.Effects.Keeps.{
  Keeps, Writes, keeps_rules, Keeps-must_parse_uuid, Keeps-pure, Keeps-bind, Keeps-raise,
  Keeps-asks, Keeps-wrap, Keeps-execute,
}
use tucanbit_tvs.Db
use tucanbit_tvs.Repo.Sessions
use tucanbit_tvs.Repo.Withdrawals
use tucanbit_tvs.Repo.Balances
use tucanbit_tvs.Repo.Transactions
use tucanbit_tvs.Db.Rows.{Sentinel, Db, TransactionRow, BalanceLogRow, GoError}
use tucanbit_tvs.Prelude.{String, Option}
use tucanbit_tvs.Domain.Withdrawal.{Withdrawal, WithdrawalStatus}
use tucanbit_tvs.Domain.Session.{DepositSession, SessionStatus}
use tucanbit_tvs.Domain.Transaction.{Transaction, empty_transaction}
use tucanbit_tvs.Prelude.Int.{ℤ}
use tucanbit_tvs.Domain.Balance.{BalanceLog}

module _ {env : Env} {P : Db → Type 0} where
  pub Keeps-parse_user_id : (user : String) → Keeps env P (Balances.parse_user_id user)
  unfolding Balances.parse_user_id
  Keeps-parse_user_id user = search keeps_rules

  pub Keeps-get_balance : (user : String) → Keeps env P (Balances.get_balance user)
  unfolding Balances.get_balance
  Keeps-get_balance user = search (keeps_rules, Keeps-parse_user_id)

  pub Keeps-update_balance :
      (user currency : String) (cents : ℤ) (units : String)
      → ((u : String) → Writes P (Db.Balances.update_balance u currency cents units))
      → Keeps env P (Balances.update_balance user currency cents units)
  unfolding Balances.update_balance
  Keeps-update_balance user currency cents units wr = search (keeps_rules, Keeps-parse_user_id, wr)

  pub Keeps-release_reserved_balance :
      (user currency : String) (cents : ℤ)
      → ((u : String) → Writes P (Db.Balances.release_reserved_balance u currency cents))
      → Keeps env P (Balances.release_reserved_balance user currency cents)
  unfolding Balances.release_reserved_balance
  Keeps-release_reserved_balance user currency cents wr =
      search (keeps_rules, Keeps-parse_user_id, wr)

  pub Keeps-log_balance_change :
      (log : BalanceLog)
      → ((row : BalanceLogRow) → Writes P (λ stamp. Db.Balances.log_balance_change row))
      → Keeps env P (Balances.log_balance_change log)
  unfolding Balances.log_balance_change
  Keeps-log_balance_change log wr = Keeps-bind _ _ (Keeps-must_parse_uuid log.id) (λ id.
      Keeps-bind _ _ (Keeps-must_parse_uuid log.user_id) (λ user_id.
        Keeps-bind _ _ (Keeps-asks (λ env. env.ops))
          (λ ops. Keeps-wrap _ _ (Keeps-execute _ (wr (Balances.log_row ops log id user_id))))))

  pub Keeps-update_withdrawal :
      (withdrawal : Withdrawal)
      → ((hash message : Option String)
          → Writes P (
              Db.Withdrawals.update_withdrawal hash withdrawal.status message
                withdrawal.withdrawal_id))
      → Keeps env P (Withdrawals.update_withdrawal withdrawal)
  unfolding Withdrawals.update_withdrawal
  Keeps-update_withdrawal withdrawal wr = search (keeps_rules, wr)

  pub Keeps-update_withdrawal_status :
      (id : String) (status : WithdrawalStatus) (text : String)
      → ((hash message : Option String)
          → Writes P (Db.Withdrawals.update_withdrawal hash status message id))
      → Keeps env P (Withdrawals.update_withdrawal_status id status text)
  unfolding Withdrawals.update_withdrawal_status
  Keeps-update_withdrawal_status id status text wr = search (keeps_rules, wr)

  pub Keeps-get_by_withdrawal_id_tx :
      (tx : Tx) (id : String) → Keeps env P (Withdrawals.get_by_withdrawal_id_tx tx id)
  unfolding Withdrawals.get_by_withdrawal_id_tx
  Keeps-get_by_withdrawal_id_tx tx id = search keeps_rules

  pub Keeps-update_deposit_session_status :
      (id : String) (status : SessionStatus) (text : String)
      → ((message : Option String)
          → Writes P (Db.Sessions.update_deposit_session_status id status message))
      → Keeps env P (Sessions.update_deposit_session_status id status text)
  unfolding Sessions.update_deposit_session_status
  Keeps-update_deposit_session_status id status text wr = search (keeps_rules, wr)

  pub Keeps-complete_session :
      (session : DepositSession) (text : String)
      → ((message : Option String)
          → Writes P (
              Db.Sessions.complete_deposit_session session.session_id session.status
                session.metadata message))
      → Keeps env P (Sessions.complete_session session text)
  unfolding Sessions.complete_session
  Keeps-complete_session session text wr = search (keeps_rules, wr)

  pub Keeps-get_by_session_id_tx :
      (tx : Tx) (id : String) → Keeps env P (Sessions.get_by_session_id_tx tx id)
  unfolding Sessions.get_by_session_id_tx
  Keeps-get_by_session_id_tx tx id = search keeps_rules

  pub Keeps-create :
      (tx : Transaction)
      → Writes P (Db.Transactions.create_transaction (Transactions.create_params tx))
      → Keeps env P (Transactions.create tx)
  unfolding Transactions.create
  Keeps-create tx wr = search (keeps_rules, wr)

  Keeps-missing :
      (sentinel : Sentinel) (e : GoError) → Keeps env P (Transactions.missing sentinel e)
  Keeps-missing Sentinel.plain e = Keeps-raise e
  Keeps-missing Sentinel.sql_no_rows e = Keeps-raise e
  Keeps-missing Sentinel.pgx_no_rows e = Keeps-pure empty_transaction

  Keeps-or_empty : (found : Try TransactionRow) → Keeps env P (Transactions.or_empty found)
  unfolding Transactions.or_empty
  Keeps-or_empty (done row) = Keeps-pure (Transactions.map_to_domain_transaction row)
  Keeps-or_empty (error e) = Keeps-missing e.sentinel e

  pub Keeps-get_by_hash : (chain hash : String) → Keeps env P (Transactions.get_by_hash chain hash)
  unfolding Transactions.get_by_hash
  Keeps-get_by_hash chain hash = search (keeps_rules, Keeps-or_empty)

  pub Keeps-get_by_deposit_session_id :
      (id : String) → Keeps env P (Transactions.get_by_deposit_session_id id)
  unfolding Transactions.get_by_deposit_session_id
  Keeps-get_by_deposit_session_id id = search keeps_rules

  pub Keeps-get_by_withdrawal_id :
      (id : String) → Keeps env P (Transactions.get_by_withdrawal_id id)
  unfolding Transactions.get_by_withdrawal_id
  Keeps-get_by_withdrawal_id id = search keeps_rules

pub ruleset repo_rules = (
  keeps_rules, Keeps-get_balance, Keeps-update_balance, Keeps-release_reserved_balance,
  Keeps-log_balance_change, Keeps-update_withdrawal, Keeps-update_withdrawal_status,
  Keeps-get_by_withdrawal_id_tx, Keeps-update_deposit_session_status, Keeps-complete_session,
  Keeps-get_by_session_id_tx, Keeps-create, Keeps-get_by_hash, Keeps-get_by_deposit_session_id,
  Keeps-get_by_withdrawal_id,
)
