-- ===== src/Helius/Settlements.antt =====
-- What `VerifyWithdrawal` of helius.go promises.
use tucanbit_tvs.Effects.{Env, World}
use tucanbit_tvs.Effects.Returns.{
  Returns, Returns-bind, Returns-asks, Returns-pure, Returns-if, Returns-raise, Returns-any,
}
use tucanbit_tvs.Helius.Payments.{
  PaysNative, PaysToken, IsMint, for_kind, any_paying_token, Returns-target_mint,
}
use tucanbit_tvs.Prelude.{◌∷◌, [], refl, String, ◌≡◌, subst, any-Any, ◌==◌, split, eq_of_==}
use tucanbit_tvs.Helius.{
  VerifyWithdrawalParams, pays_withdrawal, verify_withdrawal, HeliusTransaction, Float, List, Bool,
  leb_float, SplTokenType, first_transfer, true, ok, power_of_ten, SolanaClusterType,
}

-- The payment that a withdrawal must show.
unfoldable pub PaysWithdrawal : Env → VerifyWithdrawalParams → HeliusTransaction → Type 0
unfolding PaysNative PaysToken IsMint
PaysWithdrawal env params tx =
    for_kind params.token_type
      (PaysNative params.to_address
        (λ t.
          leb_float params.amount (env.ops.div (env.ops.of_int64 t.amount) (power_of_ten 9)) ≡ true)
        tx)
      ((mint : String) × IsMint env.config params.cluster_type params.token_type mint
        × PaysToken params.to_address mint params.amount tx)

pays_withdrawal_lem :
    (env : Env) (tx_hash address : String) (amount : Float) (token : SplTokenType)
    (cluster : SolanaClusterType) (mint : String) (tx : HeliusTransaction)
    → for_kind token (Unit {0}) (IsMint env.config cluster token mint)
    → tx.kind ≡ "TRANSFER"
    → let params : VerifyWithdrawalParams = record {
      tx_hash = tx_hash;
      to_address = address;
      amount = amount;
      token_type = token;
      cluster_type = cluster;
    } in
      pays_withdrawal env.ops params mint tx ≡ true → PaysWithdrawal env params tx
unfolding pays_withdrawal PaysWithdrawal PaysNative PaysToken
pays_withdrawal_lem env tx_hash address amount SplTokenType.sol cluster mint tx m k h = (
  k,
  any-Any _ tx.native_transfers
      (λ t e. let (a, l) = split (t.to_user_account == address) _ e in (eq_of_== _ address a, l)) h,
)
pays_withdrawal_lem env tx_hash address amount SplTokenType.usdc cluster mint tx m k h =
    (mint, m, (k, any_paying_token address mint amount tx.token_transfers h))
pays_withdrawal_lem env tx_hash address amount SplTokenType.usdt cluster mint tx m k h =
    (mint, m, (k, any_paying_token address mint amount tx.token_transfers h))

module _ {env : Env} where
  Returns-first_transfer :
      (tx_hash : String) (txs : List HeliusTransaction)
      → Returns env (first_transfer tx_hash txs) (λ tx. tx.kind ≡ "TRANSFER")
  Returns-first_transfer tx_hash [] = Returns-raise _
  Returns-first_transfer tx_hash (tx ∷ txs) =
      Returns-if _ _ _ (λ e. Returns-pure tx (eq_of_== tx.kind "TRANSFER" e)) (λ e. Returns-raise _)

  Returns-verify_withdrawal :
      (params : VerifyWithdrawalParams)
      → Returns env (verify_withdrawal params) (λ r. (r.0 ≡ true) × PaysWithdrawal env params r.1)
  unfolding verify_withdrawal
  Returns-verify_withdrawal params = Returns-bind _ _ (Returns-any _) (λ url _.
      Returns-bind _ _ (Returns-any _) (λ key _. Returns-bind _ _ (Returns-any _) (λ reply _.
        Returns-bind _ _ (Returns-any _) (λ transactions _.
          Returns-bind _ _ (Returns-first_transfer params.tx_hash transactions) (λ tx k.
            Returns-bind _ _ (Returns-target_mint params.cluster_type params.token_type) (λ mint m.
              Returns-bind {Q = λ ops. ops ≡ env.ops} _ _ (Returns-asks _ refl) (λ ops o.
                Returns-if _ _ _
                  (λ e.
                    Returns-pure (true, tx)
                      (
                        refl,
                        pays_withdrawal_lem env params.tx_hash params.to_address params.amount
                            params.token_type params.cluster_type mint tx m k
                            (subst (λ ops'. pays_withdrawal ops' params mint tx ≡ true) o e),
                      ))
                  (λ e. Returns-raise _))))))))

-- When `VerifyWithdrawal` returns without an error, whatever Helius answers, it returns true, and the
-- transaction that it returns is a TRANSFER with a transfer to the withdrawal's address of at least
-- its amount, in whole coins or in the configured token. It never returns false.
pub verify_withdrawal-pays :
    (env : Env) (params : VerifyWithdrawalParams) (w : World) (verified : Bool)
    (transaction : HeliusTransaction)
    → (verify_withdrawal params env w).0 ≡ ok (verified, transaction)
    → (verified ≡ true) × PaysWithdrawal env params transaction
verify_withdrawal-pays env params w verified transaction h =
    (Returns-verify_withdrawal params).at w (verified, transaction) h
