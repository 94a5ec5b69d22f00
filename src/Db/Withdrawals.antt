-- ===== src/Db/Withdrawals.antt =====
-- The statements on withdrawals, of internal/repositories/withdrawalrepo/gen/queries.sql.go.
use tucanbit_tvs.Prelude.{
  ℕ, String, Bool, List, Option, some, ◌==◌, keep, find_first, update_where, take, drop,
}
use tucanbit_tvs.Db.Rows.{
  WithdrawalRow, Db, Stamp, Result, ok, err, coalesce, one_row, plain_error, newest_first,
}
use tucanbit_tvs.Domain.Withdrawal.{WithdrawalStatus, same_withdrawal_status}

abbrev pub is_pending_withdrawal : WithdrawalRow → Bool
is_pending_withdrawal r = same_withdrawal_status r.status WithdrawalStatus.pending

-- `ListPendingWithdrawals`
unfoldable pub list_pending_withdrawals : ℕ → ℕ → Db → List WithdrawalRow
list_pending_withdrawals limit offset db =
    take limit
      (drop offset (newest_first (λ r. r.created_at) (keep is_pending_withdrawal db.withdrawals)))

abbrev pub has_withdrawal_id : String → WithdrawalRow → Bool
has_withdrawal_id withdrawal_id r = r.withdrawal_id == withdrawal_id

-- `GetWithdrawalByID`
unfoldable pub get_withdrawal_by_id : String → Db → Result WithdrawalRow
get_withdrawal_by_id withdrawal_id db =
    one_row (find_first (has_withdrawal_id withdrawal_id) db.withdrawals)

-- The column's enum type has no empty value.
abbrev pub check_withdrawal_status {ℓ} : {A : Type ℓ} → WithdrawalStatus → A → Result A
check_withdrawal_status WithdrawalStatus.unset a = err (plain_error "invalid input value for enum")
check_withdrawal_status _ a = ok a

-- `UpdateWithdrawal`: it writes the hash, the status and the message, and no other column.
unfoldable pub update_withdrawal :
    Option String → WithdrawalStatus → Option String → String → Stamp → Db → Result Db
update_withdrawal tx_hash status error_message withdrawal_id stamp db =
    check_withdrawal_status status (record db {
      withdrawals =
          update_where (has_withdrawal_id withdrawal_id)
            (λ r. record r {
              tx_hash = coalesce tx_hash r.tx_hash;
              status = status;
              error_message = coalesce error_message r.error_message;
              updated_at = some stamp.now;
            })
            db.withdrawals;
    })
