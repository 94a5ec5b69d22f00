-- ===== src/Service/SessionCheck/Actions.antt =====
-- The calls of `verifySolanaSession` that write nothing, and the rules for those that write.
use tucanbit_tvs.Effects.{Env, World, Action, CoinCapAnswer, HttpReply}
use tucanbit_tvs.Effects.Keeps.{
  Keeps, keeps_rules, Keeps-pure, Keeps-crash, Keeps-raise, Keeps-bind, Keeps-asks,
  Keeps-exchange_request, Keeps-sleep,
}
use tucanbit_tvs.Repo.Keeps.{repo_rules}
use tucanbit_tvs.Service.SessionCheck.Recorded.{
  RecordedWith, update_status-Recorded, complete-RecordedWith, update_balance-RecordedWith,
}
use tucanbit_tvs.Db.Rows.{Db, Result}
use tucanbit_tvs.Exchange.{
  parse_coin_cap_response, after_response, get_exchange_rate_with_retry, get_exchange_rate,
  ExchangeRate, or_invalid_url, should_retry, should_retry_status_code,
}
use tucanbit_tvs.Helius.{
  get_mint_address, verify_deposit, get_signatures_for_address, get_base_url, target_mint,
  VerifyDepositParams,
}
use tucanbit_tvs.Prelude.{
  String, Option, ℕ, suc, some, ◌+◌, none, zero, Bool, ◌&&◌, if◌then◌else◌, ltb, true, false,
}
use tucanbit_tvs.Domain.Solana.{SolanaClusterType, SplTokenType}

if_keeps :
    {A : Type 0} (P : Db → Type 0) (b : Bool) (x y : Result A × World)
    → P x.1.db
    → P y.1.db
    → P (if b then x else y).1.db
if_keeps P true x y h k = h
if_keeps P false x y h k = k

module _ {env : Env} {P : Db → Type 0} where
  Keeps-parse_coin_cap_response :
      (a : CoinCapAnswer) (crypto : String) → Keeps env P (parse_coin_cap_response a crypto)
  unfolding parse_coin_cap_response
  Keeps-parse_coin_cap_response a crypto = record { at = λ w h. h }

  Keeps-after_response :
      (crypto : String) (attempt : ℕ) (retry : Action ExchangeRate)
      (reply : HttpReply CoinCapAnswer)
      → Keeps env P retry
      → Keeps env P (after_response crypto attempt retry reply)
  unfolding after_response
  Keeps-after_response crypto attempt retry (HttpReply.no_request e) k = record { at = λ w h. h }
  Keeps-after_response crypto attempt retry (HttpReply.no_response e) k = record {
    at = λ w h.
        if_keeps P (should_retry e && ltb attempt env.config.exchange_api.max_retries) (retry env w)
          _ (k.at w h) h;
  }
  Keeps-after_response crypto attempt retry (HttpReply.bad_status code status body) k = record {
    at = λ w h.
        if_keeps P
          (should_retry_status_code code && ltb attempt env.config.exchange_api.max_retries)
          (retry env w) _ (k.at w h) h;
  }
  Keeps-after_response crypto attempt retry (HttpReply.no_body e) k = record { at = λ w h. h }
  Keeps-after_response crypto attempt retry (HttpReply.bad_json e) k = record { at = λ w h. h }
  Keeps-after_response crypto attempt retry (HttpReply.answer a) k = record { at = λ w h. h }

  Keeps-or_invalid_url : (url : Option String) → Keeps env P (or_invalid_url url)
  Keeps-or_invalid_url none = Keeps-raise _
  Keeps-or_invalid_url (some url) = Keeps-pure url

  Keeps-get_exchange_rate_with_retry :
      (fuel : ℕ) (crypto : String) (attempt : ℕ)
      → Keeps env P (get_exchange_rate_with_retry fuel crypto attempt)
  unfolding get_exchange_rate_with_retry
  Keeps-get_exchange_rate_with_retry zero crypto attempt = Keeps-crash _
  Keeps-get_exchange_rate_with_retry (suc fuel) crypto attempt =
      Keeps-bind _ _ (Keeps-asks _) (λ maybe_url.
        Keeps-bind _ _ (Keeps-or_invalid_url maybe_url) (λ url.
          Keeps-bind _ _ (Keeps-exchange_request url) (λ reply.
            Keeps-bind _ _ (Keeps-asks _) (λ backoff. Keeps-after_response crypto attempt _ reply (
              Keeps-bind _ _ (Keeps-sleep _)
                (λ _. Keeps-get_exchange_rate_with_retry fuel crypto (attempt + 1)))))))

  pub Keeps-get_exchange_rate : (crypto fiat : String) → Keeps env P (get_exchange_rate crypto fiat)
  unfolding get_exchange_rate
  Keeps-get_exchange_rate crypto fiat = search (keeps_rules, Keeps-get_exchange_rate_with_retry)

  pub Keeps-get_mint_address :
      (cluster : SolanaClusterType) (token : SplTokenType)
      → Keeps env P (get_mint_address cluster token)
  unfolding get_mint_address
  Keeps-get_mint_address cluster token = search keeps_rules depth 8

  pub Keeps-verify_deposit : (params : VerifyDepositParams) → Keeps env P (verify_deposit params)
  unfolding verify_deposit get_signatures_for_address get_base_url target_mint
  Keeps-verify_deposit params = search (keeps_rules, Keeps-get_mint_address) depth 14

pub ruleset deposit_rules = (
  repo_rules, Keeps-get_exchange_rate, Keeps-verify_deposit, Keeps-get_mint_address,
  complete-RecordedWith, update_balance-RecordedWith, update_status-Recorded,
)
