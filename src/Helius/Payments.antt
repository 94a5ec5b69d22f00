-- ===== src/Helius/Payments.antt =====
-- What `VerifyDeposit` and `VerifyWithdrawal` of helius.go promise.
use tucanbit_tvs.Effects.Returns.{
  Returns, Returns-bind, Returns-asks, Returns-lift, Returns-pure, Returns-wrap, Returns-if,
  Returns-raise, Returns-any,
}
use tucanbit_tvs.Effects.{Env, World}
use tucanbit_tvs.Prelude.{
  String, ◌≡◌, Any, ◌==◌, ◌&&◌, arith, none, refl, ap, sym, ◌∙◌, any-Any, subst, split, eq_of_==,
}
use tucanbit_tvs.Config.{Config, lookup}
use tucanbit_tvs.Helius.{
  VerifyDepositParams, NativeTransfer, Float, SolanaClusterType, HeliusTransaction, SplTokenType,
  List, leb_float, ℕ, true, cluster_text, get_decimals, some, ok, token_text, power_of_ten, Bool,
  Option, ℤ, TokenTransfer, get_mint_address, or_missing, pays_native, pays_token, leb_ℤ,
  target_mint, pays_deposit, verify_deposit, any,
}
use tucanbit_tvs.Prelude.Int.{◌≤ℤ◌}

-- The claim on a native coin, or the claim on a token.
abbrev pub for_kind {ℓ} : {A : Type ℓ} → SplTokenType → A → A → A
for_kind SplTokenType.sol native token = native
for_kind _ native token = token

-- A transfer of the transaction pays at least the required lamports to the address.
unfoldable pub PaysNative : String → (NativeTransfer → Type 0) → HeliusTransaction → Type 0
PaysNative address Enough tx =
    (tx.kind ≡ "TRANSFER") × Any (λ t. (t.to_user_account ≡ address) × Enough t) tx.native_transfers

-- A transfer of the transaction pays at least the amount of the token to the address.
unfoldable pub PaysToken : String → String → Float → HeliusTransaction → Type 0
PaysToken address mint amount tx =
    (tx.kind ≡ "TRANSFER")
    × Any
        (λ t.
          (t.to_user_account ≡ address)
          × (t.mint ≡ mint)
          × (leb_float amount t.token_amount ≡ true))
        tx.token_transfers

-- The mint address that is configured for a token on a cluster.
unfoldable pub IsMint : Config → SolanaClusterType → SplTokenType → String → Type 0
IsMint config cluster token mint =
    (mints : List (String × String)) × (lookup (cluster_text cluster) config.mint_addresses
      ≡ some mints)
    × (lookup (token_text token) mints ≡ some mint)

-- The payment that a deposit must show.
unfoldable pub PaysDeposit : Env → VerifyDepositParams → HeliusTransaction → Type 0
unfolding PaysNative PaysToken IsMint
PaysDeposit env params tx =
    for_kind params.token_type
      (PaysNative params.address (λ t. params.required_amount ≤ℤ t.amount) tx)
      ((mint : String) × (decimals : ℕ) × IsMint env.config params.cluster_type params.token_type
          mint
        × (get_decimals params.cluster_type params.token_type ≡ ok decimals)
        × PaysToken params.address mint
            (env.ops.div (env.ops.of_int64 params.required_amount) (power_of_ten decimals)) tx)

or_missing_inv {ℓ} :
    {A : Type ℓ} (message : List String) (o : Option A) (a : A)
    → or_missing message o ≡ ok a
    → o ≡ some a
unfolding or_missing
or_missing_inv message none a h = cc
or_missing_inv message (some b) a h = cc

pays_native_lem :
    (address : String) (required : ℤ) (t : NativeTransfer)
    → pays_native address required t ≡ true
    → (t.to_user_account ≡ address) × (required ≤ℤ t.amount)
pays_native_lem address required t h =
    let (e, l) = split (t.to_user_account == address) (leb_ℤ required t.amount) h in
    (eq_of_== t.to_user_account address e, ground (arith, l))

pub pays_token_lem :
    (address mint : String) (required : Float) (t : TokenTransfer)
    → pays_token address mint required t ≡ true
    → (t.to_user_account ≡ address) × (t.mint ≡ mint) × (leb_float required t.token_amount ≡ true)
pays_token_lem address mint required t h =
    let (both, l) =
      split (t.to_user_account == address && t.mint == mint) (leb_float required t.token_amount)
        h in
    let (e, m) = split (t.to_user_account == address) (t.mint == mint) both in
    (eq_of_== t.to_user_account address e, eq_of_== t.mint mint m, l)

pub any_paying_token :
    (address mint : String) (required : Float) (transfers : List TokenTransfer)
    → any (pays_token address mint required) transfers ≡ true
    → Any
        (λ t.
          (t.to_user_account ≡ address)
          × (t.mint ≡ mint)
          × (leb_float required t.token_amount ≡ true))
        transfers
any_paying_token address mint required transfers h =
    any-Any _ transfers (pays_token_lem address mint required) h

module _ {env : Env} where
  pub Returns-get_mint_address :
      (cluster : SolanaClusterType) (token : SplTokenType)
      → Returns env (get_mint_address cluster token) (IsMint env.config cluster token)
  unfolding get_mint_address IsMint
  Returns-get_mint_address cluster token =
      Returns-bind {Q = λ m. m ≡ env.config.mint_addresses} _ _ (Returns-asks _ refl) (λ m h.
        Returns-bind {Q = λ mints. lookup (cluster_text cluster) m ≡ some mints} _ _
          (Returns-lift _ (or_missing_inv _ _))
          (λ mints g. Returns-lift _ (λ mint e.
            (mints, ap (lookup (cluster_text cluster)) (sym h) ∙ g, or_missing_inv _ _ mint e))))

  pub Returns-target_mint :
      (cluster : SolanaClusterType) (token : SplTokenType)
      → Returns env
          (target_mint cluster token)
          (λ mint. for_kind token (Unit {0}) (IsMint env.config cluster token mint))
  unfolding target_mint
  Returns-target_mint cluster SplTokenType.sol = Returns-pure "" tt
  Returns-target_mint cluster SplTokenType.usdc =
      Returns-wrap _ _ (Returns-get_mint_address cluster SplTokenType.usdc)
  Returns-target_mint cluster SplTokenType.usdt =
      Returns-wrap _ _ (Returns-get_mint_address cluster SplTokenType.usdt)

pays_any :
    {A : Type 0} (tx : HeliusTransaction) (b : Bool)
    → (b ≡ true → A)
    → (tx.kind == "TRANSFER" && b) ≡ true
    → (tx.kind ≡ "TRANSFER") × A
pays_any tx b k h =
    let (e, a) = split (tx.kind == "TRANSFER") b h in (eq_of_== tx.kind "TRANSFER" e, k a)

pays_deposit_lem :
    (env : Env) (address : String) (required : ℤ) (token : SplTokenType)
    (cluster : SolanaClusterType) (decimals : ℕ) (mint : String)
    → get_decimals cluster token ≡ ok decimals
    → for_kind token (Unit {0}) (IsMint env.config cluster token mint)
    → (tx : HeliusTransaction)
    → let params : VerifyDepositParams = record {
      address = address;
      required_amount = required;
      token_type = token;
      cluster_type = cluster;
    } in
      pays_deposit env.ops params decimals mint tx ≡ true → PaysDeposit env params tx
unfolding pays_deposit PaysDeposit PaysNative PaysToken
pays_deposit_lem env address required SplTokenType.sol cluster decimals mint d m tx h =
    pays_any tx _
      (any-Any (pays_native address required) tx.native_transfers
        (pays_native_lem address required))
      h
pays_deposit_lem env address required SplTokenType.usdc cluster decimals mint d m tx h =
    (mint, decimals, m, d, pays_any tx _ (any_paying_token address mint _ tx.token_transfers) h)
pays_deposit_lem env address required SplTokenType.usdt cluster decimals mint d m tx h =
    (mint, decimals, m, d, pays_any tx _ (any_paying_token address mint _ tx.token_transfers) h)

module _ {env : Env} where
  Returns-verify_deposit :
      (params : VerifyDepositParams)
      → Returns env (verify_deposit params) (λ r. (r.0 ≡ true) × Any (PaysDeposit env params) r.1)
  unfolding verify_deposit
  Returns-verify_deposit params = Returns-bind _ _ (Returns-any _) (λ transactions _.
      Returns-bind _ _ (Returns-wrap _ _ (Returns-lift _ (λ d e. e))) (λ decimals d.
        Returns-bind _ _ (Returns-target_mint params.cluster_type params.token_type) (λ mint m.
          Returns-bind {Q = λ ops. ops ≡ env.ops} _ _ (Returns-asks _ refl) (λ ops o.
            Returns-if _ _ _
              (λ e.
                Returns-pure (true, transactions)
                  (
                    refl,
                    any-Any (pays_deposit ops params decimals mint) transactions
                        (subst
                          (λ ops'.
                            (tx : HeliusTransaction)
                            → pays_deposit ops' params decimals mint tx ≡ true
                            → PaysDeposit env params tx)
                          (sym o)
                          (pays_deposit_lem env params.address params.required_amount
                            params.token_type params.cluster_type decimals mint d m))
                        e,
                  ))
              (λ e. Returns-raise _)))))

-- When `VerifyDeposit` returns without an error, whatever Helius answers and whenever it is called, it
-- returns true, and among the transactions that it returns there is a TRANSFER that pays the address
-- at least the required amount, in lamports or in the configured token. It never returns false.
pub verify_deposit-pays :
    (env : Env) (params : VerifyDepositParams) (w : World) (verified : Bool)
    (transactions : List HeliusTransaction)
    → (verify_deposit params env w).0 ≡ ok (verified, transactions)
    → (verified ≡ true) × Any (PaysDeposit env params) transactions
verify_deposit-pays env params w verified transactions h =
    (Returns-verify_deposit params).at w (verified, transactions) h
