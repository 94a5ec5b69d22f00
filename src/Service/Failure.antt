-- ===== src/Service/Failure.antt =====
-- `markWithdrawalFailed` of verification_service_impl.go.
pub mod Conservation
pub mod Keeps
use tucanbit_tvs.Effects.{
  Action, ◌>>=◌, ◌>>◌, pure, wrap, asks, attempt, Try, done, error, ignore_error,
}
use tucanbit_tvs.Effects.Calls.{time_now, new_uuid, send}
use tucanbit_tvs.Repo.Withdrawals
use tucanbit_tvs.Repo.Balances
use tucanbit_tvs.Prelude.{◌∷◌, [], String, ℕ, true, if◌then◌else◌, concat}
use tucanbit_tvs.Float.{FloatOps, of_int}
use tucanbit_tvs.Domain.Withdrawal.{Withdrawal, same_withdrawal_status, WithdrawalStatus}
use tucanbit_tvs.Domain.Balance.{BalanceLog}
use tucanbit_tvs.Prelude.Int.{pos}
use tucanbit_tvs.Hub.Message.{withdrawal_message}

-- The log entry of a released reservation.
abbrev release_log : FloatOps → Withdrawal → String → String → ℕ → BalanceLog
release_log ops withdrawal reason id now = record {
  id = id;
  user_id = withdrawal.user_id;
  component = "withdrawal";
  currency_code = "USD";
  change_cents = withdrawal.amount_reserved_cents;
  change_units = ops.div (ops.of_int64 withdrawal.amount_reserved_cents) (of_int (pos 100));
  operational_group_id = "";
  operational_type_id = "";
  description = concat (
      "Released reserved balance for failed withdrawal " ∷ withdrawal.withdrawal_id ∷ ": " ∷ reason
      ∷ []);
  timestamp = now;
  balance_after_cents = pos 0;
  balance_after_units = of_int (pos 0);
  transaction_id = "";
  status = "";
}

-- What follows the attempt to release: on success a log entry, the mark in the record and another
-- write of the record, whose errors are only logged.
unfoldable pub after_release : Withdrawal → String → Try (Unit {0}) → Action Withdrawal
after_release withdrawal reason (error e) = pure withdrawal
after_release withdrawal reason (done _) = do
  ops ← asks (λ env. env.ops)
  id ← new_uuid
  now ← time_now
  ignore_error (Balances.log_balance_change (release_log ops withdrawal reason id now))
  released_at ← time_now
  let released = record withdrawal {
    reservation_released = true;
    reservation_released_at = released_at;
  }
  ignore_error (Withdrawals.update_withdrawal released)
  pure released

unfoldable pub release_reservation : Withdrawal → String → Action Withdrawal
unfolding after_release
release_reservation withdrawal reason =
    if withdrawal.reservation_released then pure withdrawal else (do
      released ← attempt (
          Balances.release_reserved_balance withdrawal.user_id "USD"
            withdrawal.amount_reserved_cents)
      after_release withdrawal reason released)

-- `markWithdrawalFailed`
unfoldable pub mark_withdrawal_failed : Withdrawal → String → Action (Unit {0})
unfolding release_reservation
mark_withdrawal_failed withdrawal reason =
    if same_withdrawal_status withdrawal.status WithdrawalStatus.failed then pure tt else (do
      now ← time_now
      let failing = record withdrawal { status = WithdrawalStatus.failed; updated_at = now }
      wrap ("failed to update withdrawal " ∷ withdrawal.withdrawal_id ∷ " status: " ∷ [])
          (Withdrawals.update_withdrawal failing)
      released ← release_reservation failing reason
      send (withdrawal_message released))
