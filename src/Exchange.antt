-- ===== src/Exchange.antt =====
-- internal/infrastructure/clients/exchange_client.go: the price of a crypto currency in dollars, with
-- retries.
pub mod Ends
pub mod Backoff
pub mod Rates
use Prim.Native.Nat.{bit_xor, ℕ, suc}
use tucanbit_tvs.Effects.{Action, ◌>>=◌, ◌>>◌, pure, raise, asks, HttpReply, CoinCapAnswer, crash}
use tucanbit_tvs.Effects.Calls.{exchange_request, sleep}
use tucanbit_tvs.Prelude.{
  ◌∷◌, [], String, List, Option, Bool, ◌+◌, ◌||◌, eqb, if◌then◌else◌, concat, some, ◌&&◌, ◌*◌, ◌==◌,
  ltb, none, zero, ◌/◌,
}
use tucanbit_tvs.Float.{FloatOps, Float, of_int, with_sign, magnitude}
use tucanbit_tvs.Db.Rows.{get_or, GoError, plain_error, err, ok}
use tucanbit_tvs.Prelude.Int.{ℤ, wrap64, pos, pos_part, ltb_ℤ}
use tucanbit_tvs.Config.{lookup}

-- `ExchangeRateResponse`
pub record ExchangeRate : Type 0 where
  pub crypto_currency : String
  pub fiat_currency : String
  pub rate : Float
  pub last_updated : String
  pub price_usd : Float
  pub change_24hr : Float

abbrev coin_cap_ids : List (String × String)
coin_cap_ids =
    ("BTC", "bitcoin")
    ∷ ("ETH", "ethereum")
    ∷ ("LTC", "litecoin")
    ∷ ("USDT", "tether")
    ∷ ("USDC", "usd-coin")
    ∷ ("BNB", "binance-coin")
    ∷ ("XRP", "xrp")
    ∷ ("ADA", "cardano")
    ∷ ("DOGE", "dogecoin")
    ∷ ("SOL", "solana")
    ∷ ("DOT", "polkadot")
    ∷ ("MATIC", "polygon")
    ∷ ("AVAX", "avalanche")
    ∷ ("BUSD", "binance-usd")
    ∷ ("DAI", "dai")
    ∷ ("SHIB", "shiba-inu")
    ∷ ("TRX", "tron")
    ∷ ("UNI", "uniswap")
    ∷ ("LINK", "chainlink")
    ∷ ("ATOM", "cosmos")
    ∷ []

-- `mapCryptoToCoinCapID`
unfoldable pub map_crypto_to_coin_cap_id : String → String
map_crypto_to_coin_cap_id crypto_currency =
    get_or crypto_currency (lookup crypto_currency coin_cap_ids)

-- `shouldRetry`
unfoldable pub should_retry : GoError → Bool
should_retry e = e.timeout || e.temporary

-- `shouldRetryStatusCode`
unfoldable pub should_retry_status_code : ℕ → Bool
should_retry_status_code code =
    eqb code 429 || eqb code 500 || eqb code 502 || eqb code 503 || eqb code 504

abbrev pub second : ℕ
second = 1000000000

-- The base that is used: 2 in place of one that is not positive.
abbrev pub base_or_two : ℤ → ℕ
base_or_two base = if ltb_ℤ (pos 0) base then pos_part base else 2

-- `calculateBackoff`: Go's `^` on integers is the exclusive or. Attempts are counted from zero.
unfoldable pub calculate_backoff : ℕ → ℤ → ℤ
calculate_backoff attempt base =
    let backoff = wrap64 (pos (bit_xor (base_or_two base) attempt * second)) in
    if ltb_ℤ (pos (30 * second)) backoff then pos (30 * second) else backoff

-- `handleErrorResponse`; reading the body of a response with an error status is taken to succeed.
handle_error_response : FloatOps → (String → Option String) → ℕ → String → GoError
handle_error_response ops error_field code body = plain_error (
    concat (
      "HTTP error "
      ∷ ops.format_int (pos code)
      ∷ ": "
      ∷ elim (error_field body) [ some text ↦ if text == "" then body else text | none ↦ body ]
      ∷ []))

abbrev pub rate_of : FloatOps → String → String → Float → Option Float → ExchangeRate
rate_of ops crypto_currency last_updated price change = record {
  crypto_currency = crypto_currency;
  fiat_currency = "USD";
  rate = price;
  last_updated = last_updated;
  price_usd = price;
  change_24hr = get_or (of_int (pos 0)) change;
}

-- `parseCoinCapResponse`, from the decoded body; `/ 1000` rounds towards zero.
unfoldable pub parse_coin_cap_response : CoinCapAnswer → String → Action ExchangeRate
parse_coin_cap_response answer crypto_currency env w = (
  elim (env.ops.parse_float answer.price_usd) [
    | none ↦ err (plain_error (concat ("invalid price format: " ∷ answer.price_usd ∷ [])))
    | some price ↦ ok (
        rate_of env.ops crypto_currency
          (env.format_time (with_sign answer.timestamp (magnitude answer.timestamp / 1000))) price
          (env.ops.parse_float answer.change_percent_24hr))
  ],
  w,
)

abbrev pub or_invalid_url : Option String → Action String
or_invalid_url none = raise (plain_error "invalid base URL: ")
or_invalid_url (some url) = pure url

-- The ends of `getExchangeRateWithRetry` after the response, given the retry: a sleep and a call with
-- the next attempt.
unfoldable pub after_response :
    String → ℕ → (Action ExchangeRate) → HttpReply CoinCapAnswer → Action ExchangeRate
unfolding should_retry should_retry_status_code handle_error_response parse_coin_cap_response
after_response crypto attempt retry (HttpReply.no_request e) env w =
    (err (plain_error (concat ("creating request failed: " ∷ e.message ∷ []))), w)
after_response crypto attempt retry (HttpReply.no_response e) env w =
    if should_retry e && ltb attempt env.config.exchange_api.max_retries
    then retry env w
    else (err (plain_error (concat ("HTTP request failed: " ∷ e.message ∷ []))), w)
after_response crypto attempt retry (HttpReply.bad_status code status body) env w =
    if should_retry_status_code code && ltb attempt env.config.exchange_api.max_retries
    then retry env w
    else (err (handle_error_response env.ops env.error_field code body), w)
after_response crypto attempt retry (HttpReply.no_body e) env w =
    (err (plain_error (concat ("reading response body failed: " ∷ e.message ∷ []))), w)
after_response crypto attempt retry (HttpReply.bad_json e) env w =
    (err (plain_error (concat ("parsing JSON response failed: " ∷ e.message ∷ []))), w)
after_response crypto attempt retry (HttpReply.answer a) env w =
    parse_coin_cap_response a crypto env w

-- `getExchangeRateWithRetry`, on fuel: `max_retries + 1` is enough, since a call retries only below
-- `max_retries`.
unfoldable pub get_exchange_rate_with_retry : ℕ → String → ℕ → Action ExchangeRate
unfolding after_response calculate_backoff map_crypto_to_coin_cap_id
get_exchange_rate_with_retry zero crypto attempt = crash "out of fuel"
get_exchange_rate_with_retry (suc fuel) crypto attempt = do
  maybe_url ← asks (λ env.
      env.asset_url env.config.exchange_api.base_url
        (concat ("/v3/assets/" ∷ map_crypto_to_coin_cap_id crypto ∷ [])))
  url ← or_invalid_url maybe_url
  reply ← exchange_request url
  backoff ← asks (λ env. calculate_backoff attempt env.config.exchange_api.retry_backoff_base)
  after_response crypto attempt
      (sleep (pos_part backoff) >> get_exchange_rate_with_retry fuel crypto (attempt + 1)) reply

-- `GetExchangeRate`; the fiat currency is not looked at.
unfoldable pub get_exchange_rate : String → String → Action ExchangeRate
unfolding get_exchange_rate_with_retry
get_exchange_rate crypto_currency fiat_currency = do
  max_retries ← asks (λ env. env.config.exchange_api.max_retries)
  get_exchange_rate_with_retry (max_retries + 1) crypto_currency 0
