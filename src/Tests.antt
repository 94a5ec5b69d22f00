-- ===== src/Tests.antt =====
-- Concrete inputs, and the theorems applied to them.
mod Witnesses
mod Runs
mod HubWitnesses
mod PollWitnesses
mod StatementWitnesses
mod ServerWitnesses
use tucanbit_tvs.Effects.{Env, World, HttpReply}
use tucanbit_tvs.Prelude.{◌∷◌, [], none, some, false, ◌+◌, true, ◌/◌, if◌then◌else◌, ◌==◌, ◌*◌}
use tucanbit_tvs.Float.{FloatOps, of_int, denominator, with_sign, magnitude}
use tucanbit_tvs.Domain.Solana.{
  HeliusTransaction, empty_helius_transaction, SplTokenType, SolanaClusterType,
}
use tucanbit_tvs.Config.{Config}
use tucanbit_tvs.Domain.Session.{DepositSession, empty_session, SessionStatus}
use tucanbit_tvs.Db.Rows.{SessionRow, BalanceRow, Db, TransactionRow, WithdrawalRow}
use tucanbit_tvs.Domain.Withdrawal.{Withdrawal, WithdrawalStatus}
use tucanbit_tvs.Helius.{VerifyDepositParams, VerifyWithdrawalParams}
use tucanbit_tvs.Domain.Balance.{Balance}
use tucanbit_tvs.Prelude.Int.{◌*ℤ◌, pos, ◌+ℤ◌, ◌-ℤ◌}
use tucanbit_tvs.Domain.Transaction.{
  Transaction, VerificationStatus, empty_transaction, ProcessorType, TransactionType,
}

abbrev pub test_ops : FloatOps
test_ops = record {
  add = λ x y. record {
    mantissa = x.mantissa *ℤ pos (denominator y) +ℤ y.mantissa *ℤ pos (denominator x);
    exponent = x.exponent + y.exponent;
  };
  sub = λ x y. record {
    mantissa = x.mantissa *ℤ pos (denominator y) -ℤ y.mantissa *ℤ pos (denominator x);
    exponent = x.exponent + y.exponent;
  };
  mul = λ x y. record { mantissa = x.mantissa *ℤ y.mantissa; exponent = x.exponent + y.exponent };
  div = λ x y. of_int (with_sign x.mantissa (magnitude x.mantissa / magnitude y.mantissa));
  of_int64 = of_int;
  out_of_range = λ x. pos 0;
  parse_float = λ s.
      if s == "0"
      then some (of_int (pos 0))
      else if s == "100"
      then some (of_int (pos 100))
      else none;
  format = λ n x. "100";
  format_int = λ n. "1";
}

-- A transfer of two SOL to the wallet "wallet".
abbrev pub payment : HeliusTransaction
payment = record empty_helius_transaction {
  kind = "TRANSFER";
  signature = "signature";
  native_transfers =
      record { from_user_account = "sender"; to_user_account = "wallet"; amount = pos 2000000000 }
      ∷ [];
}

abbrev pub test_config : Config
test_config = record {
  verification = record { polling_interval = 1; session_timeout_hours = 24 };
  exchange_api = record {
    base_url = "https://rest.coincap.io";
    max_retries = 2;
    retry_backoff_base = pos 2;
    api_key = "";
  };
  helius = record { api_key = "key"; base_urls = ("mainnet-beta", "https://api.helius.xyz") ∷ [] };
  mint_addresses = [];
  jwt_secret = "";
}

-- Everything works: the database, the servers and the uuids.
abbrev pub test_env : Env
test_env = record {
  ops = test_ops;
  config = test_config;
  db_fault = λ n. none;
  clock = λ n. n;
  fresh_uuid = λ n. "uuid";
  parse_uuid = λ s. some s;
  marshal = λ tx. some "{}";
  helius_reply = λ n url body. HttpReply.answer (payment ∷ []);
  asset_url = λ base path. some path;
  exchange_reply = λ n url.
      HttpReply.answer
        (record { price_usd = "100"; change_percent_24hr = "0"; timestamp = pos 1000 });
  error_field = λ body. none;
  format_time = λ t. "";
  timestamptz = λ t. t / 1000 * 1000;
}

-- A session that waits for two SOL.
abbrev pub test_session : DepositSession
test_session = record empty_session {
  id = "1";
  session_id = "session";
  user_id = "user";
  chain_id = "sol-mainnet";
  network = "mainnet";
  wallet_address = "wallet";
  amount = of_int (pos 2);
  crypto_currency = "SOL";
  status = SessionStatus.pending;
}

abbrev pub session_row : SessionRow
session_row = record {
  id = "1";
  session_id = "session";
  user_id = "user";
  chain_id = "sol-mainnet";
  network = "mainnet";
  wallet_address = some "wallet";
  amount = "";
  crypto_currency = "SOL";
  status = SessionStatus.pending;
  qr_code_data = none;
  payment_link = none;
  metadata = none;
  error_message = none;
  created_at = some 1;
  updated_at = some 1;
}

abbrev pub balance_row : BalanceRow
balance_row = record {
  id = "2";
  user_id = "user";
  currency_code = "USD";
  amount_cents = some (pos 500);
  amount_units = some "100";
  reserved_cents = some (pos 300);
  reserved_units = some "0";
  updated_at = some 1;
}

abbrev pub test_db : Db
test_db = record {
  sessions = session_row ∷ [];
  withdrawals = [];
  balances = balance_row ∷ [];
  balance_logs = [];
  users = [];
  user_sessions = [];
  transactions = [];
}

abbrev pub test_world : World
test_world = record { db = test_db; sent = []; slept = []; tick = 0 }

abbrev pub test_withdrawal : Withdrawal
test_withdrawal = record {
  id = "3";
  user_id = "user";
  admin_id = "";
  withdrawal_id = "withdrawal";
  chain_id = "sol-mainnet";
  network = "mainnet";
  crypto_currency = "SOL";
  usd_amount_cents = pos 300;
  crypto_amount = "0";
  exchange_rate = "100";
  fee_cents = pos 0;
  to_address = "wallet";
  tx_hash = "signature";
  status = WithdrawalStatus.processing;
  requires_admin_review = false;
  admin_review_deadline = 0;
  processed_by_system = true;
  source_wallet_address = "hot";
  amount_reserved_cents = pos 300;
  reservation_released = false;
  reservation_released_at = 0;
  metadata = none;
  created_at = 1;
  updated_at = 1;
}

abbrev pub deposit_params : VerifyDepositParams
deposit_params = record {
  address = "wallet";
  required_amount = pos 2000000000;
  token_type = SplTokenType.sol;
  cluster_type = SolanaClusterType.mainnet;
}

abbrev pub withdrawal_params : VerifyWithdrawalParams
withdrawal_params = record {
  tx_hash = "signature";
  to_address = "wallet";
  amount = of_int (pos 1);
  token_type = SplTokenType.sol;
  cluster_type = SolanaClusterType.mainnet;
}

abbrev pub test_balance : Balance
test_balance = record {
  id = "2";
  user_id = "user";
  currency_code = "USD";
  amount_cents = pos 500;
  amount_units = "100";
  reserved_cents = pos 300;
  reserved_units = "0";
  updated_at = 1;
}

abbrev stored_row : TransactionRow
stored_row = record {
  id = "id";
  deposit_session_id = some "session";
  withdrawal_id = some "withdrawal";
  chain_id = "sol-mainnet";
  network = "mainnet";
  crypto_currency = "SOL";
  tx_hash = "signature";
  from_address = "sender";
  to_address = "wallet";
  amount = "2";
  usd_amount_cents = some (pos 20000);
  exchange_rate = some "100";
  fee = none;
  block_number = none;
  block_hash = none;
  status = VerificationStatus.verified;
  confirmations = pos 1;
  timestamp = none;
  verified_at = none;
  processor = ProcessorType.internal;
  transaction_type = TransactionType.deposit;
  metadata = none;
  created_at = none;
  updated_at = none;
}

-- The tables after the transaction of the session was stored.
abbrev pub recorded_world : World
recorded_world = record test_world { db = record test_db { transactions = stored_row ∷ [] } }

-- What the code reads back of the stored transaction.
abbrev pub stored : Transaction
stored = record empty_transaction {
  id = "id";
  chain_id = "sol-mainnet";
  crypto_currency = "SOL";
  tx_hash = "signature";
  from_address = "sender";
  to_address = "wallet";
  amount = "2";
  status = VerificationStatus.verified;
  confirmations = pos 1;
}

-- A withdrawal that waits.
abbrev withdrawal_row : WithdrawalRow
withdrawal_row = record {
  id = "3";
  user_id = "user";
  admin_id = none;
  withdrawal_id = "withdrawal";
  chain_id = "sol-mainnet";
  network = "mainnet";
  crypto_currency = "SOL";
  usd_amount_cents = pos 300;
  crypto_amount = "0";
  exchange_rate = "100";
  fee_cents = pos 0;
  to_address = "wallet";
  tx_hash = some "signature";
  status = WithdrawalStatus.pending;
  requires_admin_review = false;
  admin_review_deadline = none;
  processed_by_system = some true;
  source_wallet_address = "hot";
  amount_reserved_cents = pos 300;
  reservation_released = some false;
  reservation_released_at = none;
  metadata = none;
  error_message = none;
  created_at = some 1;
  updated_at = some 1;
}

abbrev pub withdrawal_world : World
withdrawal_world = record test_world { db = record test_db { withdrawals = withdrawal_row ∷ [] } }
