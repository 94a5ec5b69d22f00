-- ===== src/Service/Rules.antt =====
-- The pure helpers at the end of verification_service_impl.go.
use tucanbit_tvs.Prelude.{
  ◌∷◌, [], String, Option, Bool, if◌then◌else◌, ◌==◌, some, ◌||◌, none, true, find_first, contains,
  not, false, concat,
}
use tucanbit_tvs.Db.Rows.{GoError, Result, ok, err, plain_error}
use tucanbit_tvs.Domain.Solana.{
  HeliusTransaction, NativeTransfer, TokenTransfer, SplTokenType, SolanaClusterType,
}
use tucanbit_tvs.Helius.{is_sol}

-- `isTransientError`
unfoldable pub is_transient_error : GoError → Bool
is_transient_error e =
    if e.timeout || e.temporary
    then true
    else (let message = e.message in
        let permanent =
          contains message "invalid chain_id"
          || contains message "failed to parse JSON response"
          || contains message "no mint address configured"
          || contains message "no Helius base URL configured" in
        if contains message "API request failed with status"
        then (if contains message "429 Too Many Requests"
            then true
            else if contains message "5"
            then true
            else if contains message "400 Bad Request" || contains message "401 Unauthorized"
            then false
            else not permanent)
        else not permanent)

-- `isSolanaChain`
unfoldable pub is_solana_chain : String → Bool
is_solana_chain chain_id = chain_id == "sol-mainnet" || chain_id == "sol-testnet"

-- `isPDMChain`
unfoldable pub is_pdm_chain : String → Bool
is_pdm_chain chain_id = chain_id == "btc-mainnet" || chain_id == "btc-testnet"

-- `mapCryptoToSPLTokenType`
unfoldable pub map_crypto_to_spl_token_type : String → Result SplTokenType
map_crypto_to_spl_token_type crypto =
    if crypto == "SOL"
    then ok SplTokenType.sol
    else if crypto == "USDC"
    then ok SplTokenType.usdc
    else if crypto == "USDT"
    then ok SplTokenType.usdt
    else err (plain_error (concat ("unsupported crypto currency: " ∷ crypto ∷ [])))

-- `mapChainIDToClusterType`
unfoldable pub map_chain_id_to_cluster_type : String → Result SolanaClusterType
map_chain_id_to_cluster_type chain_id =
    if chain_id == "sol-mainnet"
    then ok SolanaClusterType.mainnet
    else if chain_id == "sol-testnet"
    then ok SolanaClusterType.testnet
    else err (plain_error (concat ("unsupported Solana chain: " ∷ chain_id ∷ [])))

abbrev native_sender : Option NativeTransfer → String
native_sender none = ""
native_sender (some t) = t.from_user_account

abbrev token_sender : Option TokenTransfer → String
token_sender none = ""
token_sender (some t) = t.from_user_account

-- `getFromAddress`: the sender of the first transfer that names a receiver.
unfoldable pub get_from_address : HeliusTransaction → SplTokenType → String
get_from_address tx token =
    if is_sol token
    then native_sender (find_first (λ t. not (t.to_user_account == "")) tx.native_transfers)
    else token_sender (find_first (λ t. not (t.to_user_account == "")) tx.token_transfers)
