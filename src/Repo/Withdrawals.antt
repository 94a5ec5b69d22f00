-- ===== src/Repo/Withdrawals.antt =====
-- internal/repositories/withdrawalrepo/withdrawal_repo_impl.go
use tucanbit_tvs.Effects.{Action, ◌>>=◌, pure}
use tucanbit_tvs.Effects.Calls.{Tx, query, execute, query_tx, execute_tx}
use tucanbit_tvs.Repo.Sessions.{null_string}
use tucanbit_tvs.Db.Withdrawals
use tucanbit_tvs.Domain.Withdrawal.{Withdrawal, WithdrawalStatus}
use tucanbit_tvs.Db.Rows.{WithdrawalRow, get_or, ok}
use tucanbit_tvs.Prelude.{ℕ, String, none, List, false, map}

-- `UpdateWithdrawal`: of the record only the hash and the status reach the table.
unfoldable pub update_withdrawal : Withdrawal → Action (Unit {0})
update_withdrawal withdrawal = execute (
    Withdrawals.update_withdrawal (null_string withdrawal.tx_hash) withdrawal.status none
      withdrawal.withdrawal_id)

-- `mapDBWithdrawalToDomain`, which turns a null admin into the zero UUID.
unfoldable pub map_db_withdrawal_to_domain : WithdrawalRow → Withdrawal
map_db_withdrawal_to_domain row = record {
  id = row.id;
  user_id = row.user_id;
  admin_id = get_or "00000000-0000-0000-0000-000000000000" row.admin_id;
  withdrawal_id = row.withdrawal_id;
  chain_id = row.chain_id;
  network = row.network;
  crypto_currency = row.crypto_currency;
  usd_amount_cents = row.usd_amount_cents;
  crypto_amount = row.crypto_amount;
  exchange_rate = row.exchange_rate;
  fee_cents = row.fee_cents;
  to_address = row.to_address;
  tx_hash = get_or "" row.tx_hash;
  status = row.status;
  requires_admin_review = row.requires_admin_review;
  admin_review_deadline = get_or 0 row.admin_review_deadline;
  processed_by_system = get_or false row.processed_by_system;
  source_wallet_address = row.source_wallet_address;
  amount_reserved_cents = row.amount_reserved_cents;
  reservation_released = get_or false row.reservation_released;
  reservation_released_at = get_or 0 row.reservation_released_at;
  metadata = none;
  created_at = get_or 0 row.created_at;
  updated_at = get_or 0 row.updated_at;
}

-- The record that `LoadPendingWithdrawals` builds from a row, where a null admin is "".
unfoldable pub load_withdrawal : WithdrawalRow → Withdrawal
unfolding map_db_withdrawal_to_domain
load_withdrawal row = record (map_db_withdrawal_to_domain row) { admin_id = get_or "" row.admin_id }

-- `LoadPendingWithdrawals`
unfoldable pub load_pending_withdrawals : ℕ → ℕ → Action (List Withdrawal)
unfolding load_withdrawal
load_pending_withdrawals limit offset = do
  rows ← query (λ db. ok (Withdrawals.list_pending_withdrawals limit offset db))
  pure (map load_withdrawal rows)

-- `GetByWithdrawalIDTx`
unfoldable pub get_by_withdrawal_id_tx : Tx → String → Action Withdrawal
unfolding map_db_withdrawal_to_domain
get_by_withdrawal_id_tx tx withdrawal_id = do
  row ← query_tx (Withdrawals.get_withdrawal_by_id withdrawal_id) tx
  pure (map_db_withdrawal_to_domain row)

-- `UpdateWithdrawalStatusTx`
unfoldable pub update_withdrawal_status_tx : Tx → String → WithdrawalStatus → Action Tx
update_withdrawal_status_tx tx withdrawal_id status =
    execute_tx (Withdrawals.update_withdrawal none status none withdrawal_id) tx

-- `UpdateWithdrawalStatus`
unfoldable pub update_withdrawal_status : String → WithdrawalStatus → String → Action (Unit {0})
update_withdrawal_status withdrawal_id status error_message =
    execute (Withdrawals.update_withdrawal none status (null_string error_message) withdrawal_id)
