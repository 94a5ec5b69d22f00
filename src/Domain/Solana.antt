-- ===== src/Domain/Solana.antt =====
-- internal/domain/sol_rpc.go. What the service only passes on to `json.Marshal` (accountData,
-- transactionError, instructions, events) is one raw text.
use tucanbit_tvs.Prelude.{String, List, []}
use tucanbit_tvs.Prelude.Int.{ℤ, pos}
use tucanbit_tvs.Float.{Float}

pub data SplTokenType : Type 0 where
  usdc usdt sol : SplTokenType

pub data SolanaClusterType : Type 0 where
  devnet testnet mainnet : SolanaClusterType

-- The texts of the Go constants.
abbrev pub token_text : SplTokenType → String
token_text SplTokenType.usdc = "USDC"
token_text SplTokenType.usdt = "USDT"
token_text SplTokenType.sol = "SOL"

abbrev pub cluster_text : SolanaClusterType → String
cluster_text SolanaClusterType.devnet = "devnet"
cluster_text SolanaClusterType.testnet = "testnet"
cluster_text SolanaClusterType.mainnet = "mainnet-beta"

pub record NativeTransfer : Type 0 where
  pub from_user_account : String
  pub to_user_account : String
  pub amount : ℤ

pub record TokenTransfer : Type 0 where
  pub from_user_account : String
  pub to_user_account : String
  pub from_token_account : String
  pub to_token_account : String
  pub token_amount : Float
  pub mint : String

pub record HeliusTransaction : Type 0 where
  pub description : String
  pub kind : String
  pub source : String
  pub fee : ℤ
  pub fee_payer : String
  pub signature : String
  pub slot : ℤ
  pub timestamp : ℤ
  pub native_transfers : List NativeTransfer
  pub token_transfers : List TokenTransfer
  pub remaining_json : String

-- `HeliusTransaction{}`
abbrev pub empty_helius_transaction : HeliusTransaction
empty_helius_transaction = record {
  description = "";
  kind = "";
  source = "";
  fee = pos 0;
  fee_payer = "";
  signature = "";
  slot = pos 0;
  timestamp = pos 0;
  native_transfers = [];
  token_transfers = [];
  remaining_json = "";
}
