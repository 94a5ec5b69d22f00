-- ===== src/Db/Frame.antt =====
-- What the statements leave alone: each writes one table.
use tucanbit_tvs.Db.Sessions
use tucanbit_tvs.Db.Withdrawals
use tucanbit_tvs.Db.Balances
use tucanbit_tvs.Db.Transactions
use tucanbit_tvs.Db.Rows.{Db, BalanceLogRow, TransactionRow, Stamp, ok, BalanceRow}
use tucanbit_tvs.Prelude.{String, Option, ◌≡◌, arith, Bool, ap}
use tucanbit_tvs.Domain.Session.{SessionStatus}
use tucanbit_tvs.Domain.Withdrawal.{WithdrawalStatus}
use tucanbit_tvs.Prelude.Int.{ℤ}

-- A write that succeeds changes the table of the given kind only.
pub data Table : Type 0 where
  session_table withdrawal_table balance_table transaction_table log_table : Table

-- The tables other than one are the same in both databases.
abbrev pub SameBut : Table → Db → Db → Type 0
SameBut Table.session_table d e =
    (d.withdrawals ≡ e.withdrawals) × (d.balances ≡ e.balances) × (d.transactions ≡ e.transactions)
SameBut Table.withdrawal_table d e =
    (d.sessions ≡ e.sessions) × (d.balances ≡ e.balances) × (d.transactions ≡ e.transactions)
SameBut Table.balance_table d e =
    (d.sessions ≡ e.sessions) × (d.withdrawals ≡ e.withdrawals) × (d.transactions ≡ e.transactions)
SameBut Table.transaction_table d e =
    (d.sessions ≡ e.sessions) × (d.withdrawals ≡ e.withdrawals) × (d.balances ≡ e.balances)
SameBut Table.log_table d e =
    (d.sessions ≡ e.sessions)
    × (d.withdrawals ≡ e.withdrawals)
    × (d.balances ≡ e.balances)
    × (d.transactions ≡ e.transactions)

pub update_deposit_session_status_frame :
    (id : String) (status : SessionStatus) (message : Option String) (stamp : Stamp) (db db' : Db)
    → Sessions.update_deposit_session_status id status message stamp db ≡ ok db'
    → SameBut Table.session_table db' db
unfolding Sessions.update_deposit_session_status
update_deposit_session_status_frame id status message stamp db db' e = ground arith

pub complete_deposit_session_frame :
    (id : String) (status : SessionStatus) (metadata message : Option String) (stamp : Stamp)
    (db db' : Db)
    → Sessions.complete_deposit_session id status metadata message stamp db ≡ ok db'
    → SameBut Table.session_table db' db
unfolding Sessions.complete_deposit_session
complete_deposit_session_frame id status metadata message stamp db db' e = ground arith

pub update_withdrawal_frame :
    (hash : Option String) (status : WithdrawalStatus) (message : Option String) (id : String)
    (stamp : Stamp) (db db' : Db)
    → Withdrawals.update_withdrawal hash status message id stamp db ≡ ok db'
    → SameBut Table.withdrawal_table db' db
unfolding Withdrawals.update_withdrawal
update_withdrawal_frame hash status message id stamp db db' e = ground arith

pub log_balance_change_frame :
    (row : BalanceLogRow) (db db' : Db)
    → Balances.log_balance_change row db ≡ ok db'
    → SameBut Table.log_table db' db
unfolding Balances.log_balance_change
log_balance_change_frame row db db' e = ground arith

pub create_transaction_frame :
    (row : TransactionRow) (stamp : Stamp) (db db' : Db)
    → Transactions.create_transaction row stamp db ≡ ok db'
    → SameBut Table.transaction_table db' db
unfolding Transactions.create_transaction
create_transaction_frame row stamp db db' e = ground arith

-- The statements on balances all go through `update_balances`.
update_balances_frame :
    (p : BalanceRow → Bool) (f : BalanceRow → BalanceRow) (db db' : Db)
    → Balances.update_balances p f db ≡ ok db'
    → SameBut Table.balance_table db' db
update_balances_frame p f db db' e =
    let same = Balances.update_balances_inv p f db db' e in
    (ap (λ d. d.sessions) same, ap (λ d. d.withdrawals) same, ap (λ d. d.transactions) same)

pub update_balance_frame :
    (user currency : String) (cents : ℤ) (units : String) (stamp : Stamp) (db db' : Db)
    → Balances.update_balance user currency cents units stamp db ≡ ok db'
    → SameBut Table.balance_table db' db
unfolding Balances.update_balance
update_balance_frame user currency cents units stamp db db' = update_balances_frame _ _ db db'

pub release_reserved_balance_frame :
    (user currency : String) (cents : ℤ) (stamp : Stamp) (db db' : Db)
    → Balances.release_reserved_balance user currency cents stamp db ≡ ok db'
    → SameBut Table.balance_table db' db
unfolding Balances.release_reserved_balance
release_reserved_balance_frame user currency cents stamp db db' = update_balances_frame _ _ db db'
