-- ===== src/Service/System/Conditions.antt =====
-- What the service keeps of the sessions and of the withdrawals, along the statements of both
-- checks.
use tucanbit_tvs.Db
use tucanbit_tvs.Effects.Keeps.{Writes}
use tucanbit_tvs.Service.SessionCheck.Recorded.{
  Recorded, has_transaction, monotone, or_true, if_ok_inv,
}
use tucanbit_tvs.Service.WithdrawalCheck.Recorded.{Settled, has_settlement}
use tucanbit_tvs.Service.Poll.Recorded.{HasSessionIds}
use tucanbit_tvs.Service.Poll.Settled.{HasWithdrawalIds}
use tucanbit_tvs.Db.Frame.{
  update_balance_frame, log_balance_change_frame, release_reserved_balance_frame,
  update_withdrawal_frame, update_deposit_session_status_frame, complete_deposit_session_frame,
}
use tucanbit_tvs.Db.Rows.{Db, TransactionRow, BalanceLogRow}
use tucanbit_tvs.Prelude.{String, Option, ◌≡◌, subst, All-map, not}
use tucanbit_tvs.Prelude.Int.{ℤ}
use tucanbit_tvs.Domain.Withdrawal.{WithdrawalStatus, same_withdrawal_status}
use tucanbit_tvs.Domain.Session.{SessionStatus, same_session_status}
use tucanbit_tvs.Db.Transactions.{equals}

-- Every session has an id, and every completed one a transaction.
abbrev pub SessionsHold : Db → Type 0
SessionsHold db = HasSessionIds db × Recorded db

-- Every withdrawal has an id, and every completed one a transaction.
abbrev pub WithdrawalsHold : Db → Type 0
WithdrawalsHold db = HasWithdrawalIds db × Settled db

same-SessionsHold :
    (db db' : Db)
    → db'.sessions ≡ db.sessions
    → db'.transactions ≡ db.transactions
    → SessionsHold db
    → SessionsHold db'
unfolding HasSessionIds Recorded
same-SessionsHold db db' s t h = rw (s, t) h

same-WithdrawalsHold :
    (db db' : Db)
    → db'.withdrawals ≡ db.withdrawals
    → db'.transactions ≡ db.transactions
    → WithdrawalsHold db
    → WithdrawalsHold db'
unfolding HasWithdrawalIds Settled
same-WithdrawalsHold db db' s t h = rw (s, t) h

pub create-SessionsHold :
    (row : TransactionRow) → Writes SessionsHold (Db.Transactions.create_transaction row)
unfolding HasSessionIds Recorded Db.Transactions.create_transaction
create-SessionsHold row = record {
  at = λ stamp db db' h e. subst SessionsHold (if_ok_inv _ _ db' _ e) (
    h.0,
    All-map db.sessions
        (λ r.
          monotone (not (same_session_status r.status SessionStatus.completed))
            (has_transaction r.session_id db.transactions) _
            (or_true (equals row.deposit_session_id r.session_id) _))
        h.1,
  );
}

pub create-WithdrawalsHold :
    (row : TransactionRow) → Writes WithdrawalsHold (Db.Transactions.create_transaction row)
unfolding HasWithdrawalIds Settled Db.Transactions.create_transaction
create-WithdrawalsHold row = record {
  at = λ stamp db db' h e. subst WithdrawalsHold (if_ok_inv _ _ db' _ e) (
    h.0,
    All-map db.withdrawals
        (λ r.
          monotone (not (same_withdrawal_status r.status WithdrawalStatus.completed))
            (has_settlement r.withdrawal_id db.transactions) _
            (or_true (equals row.withdrawal_id r.withdrawal_id) _))
        h.1,
  );
}

pub balance-SessionsHold :
    (user currency : String) (cents : ℤ) (units : String)
    → Writes SessionsHold (Db.Balances.update_balance user currency cents units)
balance-SessionsHold user currency cents units = record {
  at = λ stamp db db' h e.
      let same = update_balance_frame user currency cents units stamp db db' e in
      same-SessionsHold db db' same.0 same.2 h;
}

pub balance-WithdrawalsHold :
    (user currency : String) (cents : ℤ) (units : String)
    → Writes WithdrawalsHold (Db.Balances.update_balance user currency cents units)
balance-WithdrawalsHold user currency cents units = record {
  at = λ stamp db db' h e.
      let same = update_balance_frame user currency cents units stamp db db' e in
      same-WithdrawalsHold db db' same.1 same.2 h;
}

pub release-SessionsHold :
    (user currency : String) (cents : ℤ)
    → Writes SessionsHold (Db.Balances.release_reserved_balance user currency cents)
release-SessionsHold user currency cents = record {
  at = λ stamp db db' h e.
      let same = release_reserved_balance_frame user currency cents stamp db db' e in
      same-SessionsHold db db' same.0 same.2 h;
}

pub log-SessionsHold :
    (row : BalanceLogRow) → Writes SessionsHold (λ stamp. Db.Balances.log_balance_change row)
log-SessionsHold row = record {
  at = λ stamp db db' h e.
      let same = log_balance_change_frame row db db' e in same-SessionsHold db db' same.0 same.3 h;
}

pub withdrawal-SessionsHold :
    (hash : Option String) (status : WithdrawalStatus) (message : Option String) (id : String)
    → Writes SessionsHold (Db.Withdrawals.update_withdrawal hash status message id)
withdrawal-SessionsHold hash status message id = record {
  at = λ stamp db db' h e.
      let same = update_withdrawal_frame hash status message id stamp db db' e in
      same-SessionsHold db db' same.0 same.2 h;
}

pub session-WithdrawalsHold :
    (id : String) (status : SessionStatus) (message : Option String)
    → Writes WithdrawalsHold (Db.Sessions.update_deposit_session_status id status message)
session-WithdrawalsHold id status message = record {
  at = λ stamp db db' h e.
      let same = update_deposit_session_status_frame id status message stamp db db' e in
      same-WithdrawalsHold db db' same.0 same.2 h;
}

pub complete-WithdrawalsHold :
    (id : String) (status : SessionStatus) (metadata message : Option String)
    → Writes WithdrawalsHold (Db.Sessions.complete_deposit_session id status metadata message)
complete-WithdrawalsHold id status metadata message = record {
  at = λ stamp db db' h e.
      let same = complete_deposit_session_frame id status metadata message stamp db db' e in
      same-WithdrawalsHold db db' same.0 same.2 h;
}

pub release-WithdrawalsHold :
    (user currency : String) (cents : ℤ)
    → Writes WithdrawalsHold (Db.Balances.release_reserved_balance user currency cents)
release-WithdrawalsHold user currency cents = record {
  at = λ stamp db db' h e.
      let same = release_reserved_balance_frame user currency cents stamp db db' e in
      same-WithdrawalsHold db db' same.1 same.2 h;
}

pub log-WithdrawalsHold :
    (row : BalanceLogRow) → Writes WithdrawalsHold (λ stamp. Db.Balances.log_balance_change row)
log-WithdrawalsHold row = record {
  at = λ stamp db db' h e.
      let same = log_balance_change_frame row db db' e in
      same-WithdrawalsHold db db' same.1 same.3 h;
}
