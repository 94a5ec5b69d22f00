-- ===== src/Domain/Transaction.antt =====
-- internal/domain/transaction.go
use tucanbit_tvs.Prelude.{ℕ, String, Option, none}
use tucanbit_tvs.Prelude.Int.{ℤ, pos}

-- `unset` is in each case the empty string, the zero value of the Go type.
pub data VerificationStatus : Type 0 where
  unset pending verified failed processing : VerificationStatus

pub data ProcessorType : Type 0 where
  unset internal pdm : ProcessorType

pub data TransactionType : Type 0 where
  unset deposit withdrawal : TransactionType

pub record Transaction : Type 0 where
  pub id : String
  pub deposit_session_id : String
  pub withdrawal_id : String
  pub chain_id : String
  pub network : String
  pub crypto_currency : String
  pub tx_hash : String
  pub from_address : String
  pub to_address : String
  pub amount : String
  pub usd_amount_cents : ℤ
  pub exchange_rate : String
  pub fee : String
  pub block_number : ℤ
  pub block_hash : String
  pub status : VerificationStatus
  pub confirmations : ℤ
  pub timestamp : ℕ
  pub verified_at : ℕ
  pub processor : ProcessorType
  pub transaction_type : TransactionType
  pub metadata : Option String
  pub created_at : ℕ
  pub updated_at : ℕ

-- `Transaction{}`
abbrev pub empty_transaction : Transaction
empty_transaction = record {
  id = "";
  deposit_session_id = "";
  withdrawal_id = "";
  chain_id = "";
  network = "";
  crypto_currency = "";
  tx_hash = "";
  from_address = "";
  to_address = "";
  amount = "";
  usd_amount_cents = pos 0;
  exchange_rate = "";
  fee = "";
  block_number = pos 0;
  block_hash = "";
  status = VerificationStatus.unset;
  confirmations = pos 0;
  timestamp = 0;
  verified_at = 0;
  processor = ProcessorType.unset;
  transaction_type = TransactionType.unset;
  metadata = none;
  created_at = 0;
  updated_at = 0;
}
