-- ===== src/Helius.antt =====
-- internal/infrastructure/rpc/helius.go: what the Helius API says of a wallet's transfers.
pub mod Payments
pub mod Settlements
use tucanbit_tvs.Effects.{Action, ◌>>=◌, pure, raise, wrap, asks, lift, HttpReply}
use tucanbit_tvs.Effects.Calls.{helius_request}
use tucanbit_tvs.Domain.Solana.{
  SplTokenType, SolanaClusterType, token_text, cluster_text, HeliusTransaction, NativeTransfer,
  TokenTransfer,
}
use tucanbit_tvs.Prelude.{
  ◌∷◌, [], String, List, Bool, ℕ, Option, true, if◌then◌else◌, false, concat, ◌==◌, any, some, ◌&&◌,
  none, ◌^◌,
}
use tucanbit_tvs.Db.Rows.{Result, ok, GoError, err, plain_error}
use tucanbit_tvs.Float.{FloatOps, Float, of_int, leb_float}
use tucanbit_tvs.Prelude.Int.{ℤ, pos, leb_ℤ}
use tucanbit_tvs.Config.{lookup}

pub record VerifyDepositParams : Type 0 where
  pub address : String
  pub required_amount : ℤ
  pub token_type : SplTokenType
  pub cluster_type : SolanaClusterType

pub record VerifyWithdrawalParams : Type 0 where
  pub tx_hash : String
  pub to_address : String
  pub amount : Float
  pub token_type : SplTokenType
  pub cluster_type : SolanaClusterType

-- `value, exists := m[key]` with an error where it does not exist
unfoldable pub or_missing {ℓ} : {A : Type ℓ} → List String → Option A → Result A
or_missing message none = err (plain_error (concat message))
or_missing message (some v) = ok v

-- `getBaseURL`
unfoldable pub get_base_url : SolanaClusterType → Action String
get_base_url cluster = do
  urls ← asks (λ env. env.config.helius.base_urls)
  lift (
      or_missing ("no Helius base URL configured for cluster type: " ∷ cluster_text cluster ∷ [])
        (lookup (cluster_text cluster) urls))

-- `GetMintAddress`
unfoldable pub get_mint_address : SolanaClusterType → SplTokenType → Action String
get_mint_address cluster token = do
  mint_addresses ← asks (λ env. env.config.mint_addresses)
  cluster_mints ← lift (
      or_missing ("no mint addresses configured for cluster type: " ∷ cluster_text cluster ∷ [])
        (lookup (cluster_text cluster) mint_addresses))
  lift (
      or_missing
        ("no mint address configured for token type "
          ∷ token_text token
          ∷ " on cluster "
          ∷ cluster_text cluster
          ∷ [])
        (lookup (token_text token) cluster_mints))

abbrev pub is_sol : SplTokenType → Bool
is_sol SplTokenType.sol = true
is_sol _ = false

abbrev cluster_decimals : SolanaClusterType → Result ℕ
cluster_decimals SolanaClusterType.mainnet = ok 6
cluster_decimals SolanaClusterType.testnet = ok 9
cluster_decimals SolanaClusterType.devnet = err (plain_error "unsupported cluster type: devnet")

-- `GetDecimals`
unfoldable pub get_decimals : SolanaClusterType → SplTokenType → Result ℕ
get_decimals cluster token = if is_sol token then ok 9 else cluster_decimals cluster

-- The transactions of a reply, or the error that is returned for it.
abbrev decode : String → HttpReply (List HeliusTransaction) → Result (List HeliusTransaction)
decode noun (HttpReply.no_request e) =
    err (plain_error (concat ("failed to create request: " ∷ e.message ∷ [])))
decode noun (HttpReply.no_response e) =
    err (plain_error (concat ("failed to fetch " ∷ noun ∷ ": " ∷ e.message ∷ [])))
decode noun (HttpReply.bad_status code status body) =
    err (plain_error (concat ("API request failed with status: " ∷ status ∷ [])))
decode noun (HttpReply.no_body e) =
    err (plain_error (concat ("failed to read response body: " ∷ e.message ∷ [])))
decode noun (HttpReply.bad_json e) =
    err (plain_error (concat ("failed to parse JSON response: " ∷ e.message ∷ [])))
decode noun (HttpReply.answer transactions) = ok transactions

-- `GetSignaturesForAddress`
unfoldable pub get_signatures_for_address :
    String → SolanaClusterType → Action (List HeliusTransaction)
unfolding get_base_url
get_signatures_for_address address cluster = do
  base_url ← get_base_url cluster
  api_key ← asks (λ env. env.config.helius.api_key)
  reply ←
      helius_request
        (concat (
          base_url ∷ "/v0/addresses/" ∷ address ∷ "/transactions?api-key=" ∷ api_key
          ∷ "&type=TRANSFER&limit=100" ∷ []))
        ""
  lift (decode "transactions" reply)

-- `math.Pow(10, float64(decimals))`, which is exact for the decimals in use
abbrev pub power_of_ten : ℕ → Float
power_of_ten decimals = of_int (pos (10 ^ decimals))

-- A native transfer of at least `required` lamports to `address`.
abbrev pub pays_native : String → ℤ → NativeTransfer → Bool
pays_native address required t = t.to_user_account == address && leb_ℤ required t.amount

-- A transfer of at least `required` of the token `mint` to `address`.
abbrev pub pays_token : String → String → Float → TokenTransfer → Bool
pays_token address mint required t =
    t.to_user_account == address && t.mint == mint && leb_float required t.token_amount

-- The test of the loop over the transactions in `VerifyDeposit`.
unfoldable pub pays_deposit : FloatOps → VerifyDepositParams → ℕ → String → HeliusTransaction → Bool
pays_deposit ops params decimals mint tx =
    tx.kind == "TRANSFER"
    && (if is_sol params.token_type
        then any (pays_native params.address params.required_amount) tx.native_transfers
        else any
            (pays_token params.address mint
              (ops.div (ops.of_int64 params.required_amount) (power_of_ten decimals)))
            tx.token_transfers)

-- The target mint, which is looked up for tokens only.
unfoldable pub target_mint : SolanaClusterType → SplTokenType → Action String
unfolding get_mint_address
target_mint cluster token =
    if is_sol token
    then pure ""
    else wrap ("failed to get mint address: " ∷ []) (get_mint_address cluster token)

-- The error at the end of `VerifyDeposit`.
unfoldable pub no_payment : FloatOps → VerifyDepositParams → GoError
no_payment ops params = plain_error (
    concat (
      "no payment of at least "
      ∷ ops.format_int params.required_amount
      ∷ " "
      ∷ token_text params.token_type
      ∷ " found for address "
      ∷ params.address
      ∷ " on cluster "
      ∷ cluster_text params.cluster_type
      ∷ []))

-- `VerifyDeposit`
unfoldable pub verify_deposit : VerifyDepositParams → Action (Bool × List HeliusTransaction)
unfolding get_signatures_for_address get_decimals target_mint pays_deposit no_payment
verify_deposit params = do
  transactions ←
      wrap ("failed to fetch transactions: " ∷ [])
        (get_signatures_for_address params.address params.cluster_type)
  decimals ←
      wrap ("failed to get decimals: " ∷ [])
        (lift (get_decimals params.cluster_type params.token_type))
  mint ← target_mint params.cluster_type params.token_type
  ops ← asks (λ env. env.ops)
  if any (pays_deposit ops params decimals mint) transactions
      then pure (true, transactions)
      else raise (no_payment ops params)

-- The test of the loops over the transfers in `VerifyWithdrawal`.
unfoldable pub pays_withdrawal :
    FloatOps → VerifyWithdrawalParams → String → HeliusTransaction → Bool
pays_withdrawal ops params mint tx =
    if is_sol params.token_type
    then any
        (λ t.
          t.to_user_account == params.to_address
          && leb_float params.amount (ops.div (ops.of_int64 t.amount) (power_of_ten 9)))
        tx.native_transfers
    else any (pays_token params.to_address mint params.amount) tx.token_transfers

-- The error at the end of `VerifyWithdrawal`.
unfoldable pub no_withdrawal : FloatOps → VerifyWithdrawalParams → GoError
no_withdrawal ops params = plain_error (
    concat (
      "no withdrawal of at least "
      ∷ ops.format 6 params.amount
      ∷ " "
      ∷ token_text params.token_type
      ∷ " found for address "
      ∷ params.to_address
      ∷ " in transaction "
      ∷ params.tx_hash
      ∷ []))

-- The first transaction of the answer, which must be a transfer.
abbrev pub first_transfer : String → List HeliusTransaction → Action HeliusTransaction
first_transfer tx_hash [] =
    raise (plain_error (concat ("no transaction found for hash " ∷ tx_hash ∷ [])))
first_transfer tx_hash (tx ∷ transactions) =
    if tx.kind == "TRANSFER"
    then pure tx
    else raise (plain_error (concat ("transaction " ∷ tx_hash ∷ " is not a transfer" ∷ [])))

-- `VerifyWithdrawal`
unfoldable pub verify_withdrawal : VerifyWithdrawalParams → Action (Bool × HeliusTransaction)
unfolding get_base_url target_mint pays_withdrawal no_withdrawal
verify_withdrawal params = do
  base_url ← wrap ("failed to get base URL: " ∷ []) (get_base_url params.cluster_type)
  api_key ← asks (λ env. env.config.helius.api_key)
  reply ←
      helius_request (concat (base_url ∷ "/v0/transactions?api-key=" ∷ api_key ∷ [])) params.tx_hash
  transactions ← lift (decode "transaction" reply)
  transaction ← first_transfer params.tx_hash transactions
  mint ← target_mint params.cluster_type params.token_type
  ops ← asks (λ env. env.ops)
  if pays_withdrawal ops params mint transaction
      then pure (true, transaction)
      else raise (no_withdrawal ops params)
