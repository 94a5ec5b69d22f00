-- ===== src/Service/Withdrawal.antt =====
-- `processVerifiedWithdrawal` of verification_service_impl.go.
use tucanbit_tvs.Effects.{Action, ◌>>=◌, ◌>>◌, pure, wrap, asks, lift, attempt, Try, done, error}
use tucanbit_tvs.Effects.Calls.{time_now, new_uuid, send}
use tucanbit_tvs.Repo.Withdrawals
use tucanbit_tvs.Repo.Transactions
use tucanbit_tvs.Repo.Balances
use tucanbit_tvs.Prelude.{
  ◌∷◌, [], String, if◌then◌else◌, Bool, ℕ, none, true, false, not, ◌==◌, concat, ◌&&◌, some, ◌||◌,
}
use tucanbit_tvs.Float.{FloatOps, Float, unix_time, of_int, ltb_float}
use tucanbit_tvs.Domain.Withdrawal.{Withdrawal, WithdrawalStatus}
use tucanbit_tvs.Domain.Transaction.{
  Transaction, VerificationStatus, ProcessorType, TransactionType,
}
use tucanbit_tvs.Domain.Solana.{HeliusTransaction}
use tucanbit_tvs.Repo.Balances.{to_balance}
use tucanbit_tvs.Domain.Balance.{Balance}
use tucanbit_tvs.Db.Rows.{get_or, err, Result, plain_error, ok}
use tucanbit_tvs.Helius.{power_of_ten}
use tucanbit_tvs.Hub.Message.{withdrawal_message, balance_message}
use tucanbit_tvs.Prelude.Int.{ℤ, pos, wrap64, ◌-ℤ◌, ltb_ℤ}

-- `err == nil && existingTx.ID != "" && existingTx.WithdrawalID == withdrawal.WithdrawalID`
unfoldable pub is_transaction_of_withdrawal : String → Try Transaction → Bool
is_transaction_of_withdrawal withdrawal_id (error e) = false
is_transaction_of_withdrawal withdrawal_id (done tx) =
    not (tx.id == "") && tx.withdrawal_id == withdrawal_id

-- The record that is created for the withdrawal; one reading of the clock stands for its three.
unfoldable pub withdrawal_transaction :
    FloatOps → Withdrawal → HeliusTransaction → String → String → ℕ → Transaction
withdrawal_transaction ops withdrawal transaction id metadata now = record {
  id = id;
  deposit_session_id = "";
  withdrawal_id = withdrawal.withdrawal_id;
  chain_id = withdrawal.chain_id;
  network = withdrawal.network;
  crypto_currency = withdrawal.crypto_currency;
  tx_hash = transaction.signature;
  from_address = withdrawal.source_wallet_address;
  to_address = withdrawal.to_address;
  amount = withdrawal.crypto_amount;
  usd_amount_cents = withdrawal.usd_amount_cents;
  exchange_rate = withdrawal.exchange_rate;
  fee = ops.format 18 (ops.div (ops.of_int64 transaction.fee) (power_of_ten 9));
  block_number = transaction.slot;
  block_hash = "";
  status = VerificationStatus.verified;
  confirmations = pos 1;
  timestamp = unix_time transaction.timestamp;
  verified_at = now;
  processor = ProcessorType.internal;
  transaction_type = TransactionType.withdrawal;
  metadata = some metadata;
  created_at = now;
  updated_at = now;
}

-- `strconv.ParseFloat(s, 64)` with an error for what is no number
abbrev pub parse_or_fail : String → String → Action Float
parse_or_fail what s env w = (
  elim (env.ops.parse_float s) [
    | none ↦
        err (plain_error (concat ("failed to parse " ∷ what ∷ " " ∷ s ∷ ": invalid syntax" ∷ [])))
    | some x ↦ ok x
  ],
  w,
)

-- The balance after the withdrawal, or the error for one that would be negative.
unfoldable pub debited : FloatOps → Withdrawal → Balance → Float → Float → Result (ℤ × String)
debited ops withdrawal balance amount rate =
    let new_amount_cents = wrap64 (balance.amount_cents -ℤ withdrawal.usd_amount_cents) in
    let current_amount_units = get_or (of_int (pos 0)) (ops.parse_float balance.amount_units) in
    let new_amount_units = ops.sub current_amount_units (ops.mul amount rate) in
    if ltb_ℤ new_amount_cents (pos 0) || ltb_float new_amount_units (of_int (pos 0))
    then err (
        plain_error
          (concat ("insufficient balance for withdrawal " ∷ withdrawal.withdrawal_id ∷ [])))
    else ok (new_amount_cents, ops.format 18 new_amount_units)

-- `if !withdrawal.ReservationReleased { ... }`
unfoldable pub release_on_success : Withdrawal → Action Withdrawal
release_on_success withdrawal = if withdrawal.reservation_released then pure withdrawal else (do
  wrap ("failed to release reserved balance for withdrawal " ∷ withdrawal.withdrawal_id ∷ ": " ∷ [])
      (Balances.release_reserved_balance withdrawal.user_id "USD" withdrawal.amount_reserved_cents)
  now ← time_now
  pure (record withdrawal { reservation_released = true; reservation_released_at = now }))

-- The part of `processVerifiedWithdrawal` behind the creation of the transaction.
unfoldable pub settle_withdrawal : Withdrawal → Float → Float → Action (Unit {0})
unfolding debited release_on_success
settle_withdrawal withdrawal amount rate = do
  balance ←
      wrap ("failed to get balance for user " ∷ withdrawal.user_id ∷ ": " ∷ [])
        (Balances.get_balance withdrawal.user_id)
  ops ← asks (λ env. env.ops)
  updated ← lift (debited ops withdrawal balance amount rate)
  wrap ("failed to update balance for user " ∷ withdrawal.user_id ∷ ": " ∷ [])
      (Balances.update_balance withdrawal.user_id "USD" updated.0 updated.1)
  balance_time ← time_now
  released ← release_on_success withdrawal
  now ← time_now
  let completed = record released { status = WithdrawalStatus.completed; updated_at = now }
  wrap ("failed to update withdrawal " ∷ withdrawal.withdrawal_id ∷ " status: " ∷ [])
      (Withdrawals.update_withdrawal completed)
  send (withdrawal_message completed)
  send (
      balance_message (record balance {
        user_id = withdrawal.user_id;
        currency_code = "USD";
        amount_cents = updated.0;
        amount_units = updated.1;
        updated_at = balance_time;
      }))

-- The part behind the look for an existing transaction.
unfoldable pub record_withdrawal : Withdrawal → HeliusTransaction → Action (Unit {0})
unfolding settle_withdrawal withdrawal_transaction
record_withdrawal withdrawal transaction = do
  metadata ← asks (λ env. get_or "{}" (env.marshal transaction))
  amount ← parse_or_fail "withdrawal amount" withdrawal.crypto_amount
  rate ← parse_or_fail "exchange rate" withdrawal.exchange_rate
  ops ← asks (λ env. env.ops)
  id ← new_uuid
  now ← time_now
  wrap
      ("failed to create transaction record for withdrawal " ∷ withdrawal.withdrawal_id ∷ ": " ∷ [])
      (Transactions.create (withdrawal_transaction ops withdrawal transaction id metadata now))
  settle_withdrawal withdrawal amount rate

-- `processVerifiedWithdrawal`
unfoldable pub process_verified_withdrawal : Withdrawal → HeliusTransaction → Action (Unit {0})
unfolding record_withdrawal is_transaction_of_withdrawal
process_verified_withdrawal withdrawal transaction = do
  existing ← attempt (Transactions.get_by_hash withdrawal.chain_id transaction.signature)
  if is_transaction_of_withdrawal withdrawal.withdrawal_id existing
      then pure tt
      else record_withdrawal withdrawal transaction
