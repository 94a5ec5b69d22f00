-- ===== src/Service/WithdrawalCheck/Recorded.antt =====
-- The invariant that ties completed withdrawals to transactions, along the statements.
use tucanbit_tvs.Effects.Keeps.{Writes}
use tucanbit_tvs.Db
use tucanbit_tvs.Prelude.{
  refl, String, List, Bool, All, ◌≡◌, any, true, Option, not, ◌||◌, some, false, subst,
  All-update_where, All-map, sym, eq_of_==, ==-refl,
}
use tucanbit_tvs.Service.SessionCheck.Recorded.{or_true, monotone, if_ok_inv}
use tucanbit_tvs.Db.Frame.{
  update_balance_frame, log_balance_change_frame, release_reserved_balance_frame,
}
use tucanbit_tvs.Db.Rows.{TransactionRow, Db, BalanceLogRow, WithdrawalRow, Stamp, ok}
use tucanbit_tvs.Domain.Withdrawal.{WithdrawalStatus, same_withdrawal_status}
use tucanbit_tvs.Prelude.Int.{ℤ}
use tucanbit_tvs.Db.Transactions.{equals}
use tucanbit_tvs.Db.Withdrawals.{check_withdrawal_status, has_withdrawal_id}

-- A transaction carries the withdrawal's id.
abbrev pub has_settlement : String → List TransactionRow → Bool
has_settlement withdrawal_id transactions =
    any (λ r. equals r.withdrawal_id withdrawal_id) transactions

-- A withdrawal that is completed has a transaction.
abbrev is_settled : List TransactionRow → WithdrawalRow → Bool
is_settled transactions row =
    not (same_withdrawal_status row.status WithdrawalStatus.completed)
    || has_settlement row.withdrawal_id transactions

-- Every completed withdrawal has a transaction with its id.
unfoldable pub Settled : Db → Type 0
Settled db = All (λ row. is_settled db.transactions row ≡ true) db.withdrawals

-- The same, with a transaction for the given withdrawal.
unfoldable pub SettledWith : String → Db → Type 0
unfolding Settled
SettledWith id db = Settled db × (has_settlement id db.transactions ≡ true)

-- A write of another table than withdrawals and transactions.
same_tables-Settled :
    (db db' : Db)
    → db'.withdrawals ≡ db.withdrawals
    → db'.transactions ≡ db.transactions
    → Settled db
    → Settled db'
unfolding Settled
same_tables-Settled db db' s t h = rw (s, t) h

same_tables-SettledWith :
    (id : String) (db db' : Db)
    → db'.withdrawals ≡ db.withdrawals
    → db'.transactions ≡ db.transactions
    → SettledWith id db
    → SettledWith id db'
unfolding SettledWith
same_tables-SettledWith id db db' s t h = (same_tables-Settled db db' s t h.0, rw t h.1)

pub check_inv :
    (status : WithdrawalStatus) (a b : Db) → check_withdrawal_status status a ≡ ok b → a ≡ b
check_inv WithdrawalStatus.unset a b h = cc
check_inv WithdrawalStatus.pending a b h = cc
check_inv WithdrawalStatus.processing a b h = cc
check_inv WithdrawalStatus.completed a b h = cc
check_inv WithdrawalStatus.failed a b h = cc
check_inv WithdrawalStatus.cancelled a b h = cc
check_inv WithdrawalStatus.awaiting_admin_review a b h = cc

-- A change of a withdrawal's status to another than completed.
pub update_withdrawal-Settled :
    (hash : Option String) (status : WithdrawalStatus) (message : Option String) (id : String)
    → same_withdrawal_status status WithdrawalStatus.completed ≡ false
    → Writes Settled (Db.Withdrawals.update_withdrawal hash status message id)
unfolding Db.Withdrawals.update_withdrawal Settled
update_withdrawal-Settled hash status message id n = record {
  at = λ stamp db db' h e. subst Settled (check_inv status _ db' e) (
      All-update_where (has_withdrawal_id id) _ db.withdrawals
        (λ row p r.
          subst (λ b. (not b || has_settlement row.withdrawal_id db.transactions) ≡ true) (sym n)
            refl)
        (λ row r. r) h);
}

-- Any change of the status of a withdrawal that has a transaction.
pub update_withdrawal-SettledWith :
    (hash : Option String) (status : WithdrawalStatus) (message : Option String) (id : String)
    → Writes (SettledWith id) (Db.Withdrawals.update_withdrawal hash status message id)
unfolding Db.Withdrawals.update_withdrawal Settled SettledWith
update_withdrawal-SettledWith hash status message id = record {
  at = λ stamp db db' h e. subst (SettledWith id) (check_inv status _ db' e) (
    All-update_where (has_withdrawal_id id) _ db.withdrawals
        (λ row p r. or_true _ _ (
          subst (λ s. has_settlement s db.transactions ≡ true)
            (sym (eq_of_== row.withdrawal_id id p)) h.1))
        (λ row r. r) h.0,
    h.1,
  );
}

pub update_balance-SettledWith :
    (id user currency : String) (cents : ℤ) (units : String)
    → Writes (SettledWith id) (Db.Balances.update_balance user currency cents units)
update_balance-SettledWith id user currency cents units = record {
  at = λ stamp db db' h e.
      let same = update_balance_frame user currency cents units stamp db db' e in
      same_tables-SettledWith id db db' same.1 same.2 h;
}

pub release-SettledWith :
    (id user currency : String) (cents : ℤ)
    → Writes (SettledWith id) (Db.Balances.release_reserved_balance user currency cents)
release-SettledWith id user currency cents = record {
  at = λ stamp db db' h e.
      let same = release_reserved_balance_frame user currency cents stamp db db' e in
      same_tables-SettledWith id db db' same.1 same.2 h;
}

pub release-Settled :
    (user currency : String) (cents : ℤ)
    → Writes Settled (Db.Balances.release_reserved_balance user currency cents)
release-Settled user currency cents = record {
  at = λ stamp db db' h e.
      let same = release_reserved_balance_frame user currency cents stamp db db' e in
      same_tables-Settled db db' same.1 same.2 h;
}

pub log-Settled :
    (row : BalanceLogRow) → Writes Settled (λ stamp. Db.Balances.log_balance_change row)
log-Settled row = record {
  at = λ stamp db db' h e.
      let same = log_balance_change_frame row db db' e in
      same_tables-Settled db db' same.1 same.3 h;
}

pub create-SettledWith :
    (id : String) (row : TransactionRow) (stamp : Stamp) (db db' : Db)
    → row.withdrawal_id ≡ some id
    → Settled db
    → Db.Transactions.create_transaction row stamp db ≡ ok db'
    → SettledWith id db'
unfolding SettledWith Settled Db.Transactions.create_transaction
create-SettledWith id row stamp db db' k h e = subst (SettledWith id) (if_ok_inv _ _ db' _ e) (
  All-map db.withdrawals
      (λ r.
        monotone (not (same_withdrawal_status r.status WithdrawalStatus.completed))
          (has_settlement r.withdrawal_id db.transactions) _
          (or_true (equals row.withdrawal_id r.withdrawal_id) _))
      h,
  subst (λ o. (equals o id || has_settlement id db.transactions) ≡ true) (sym k)
      (subst (λ b. (b || has_settlement id db.transactions) ≡ true) (sym (==-refl id)) refl),
)
