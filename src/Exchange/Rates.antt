-- ===== src/Exchange/Rates.antt =====
-- `GetMultipleExchangeRates` and `GetExchangeRateWithTimestamp` of
-- internal/infrastructure/clients/exchange_client.go.
pub mod Named
use tucanbit_tvs.Effects.{Action, ◌>>=◌, pure, attempt, Try, done, error}
use tucanbit_tvs.Exchange.{get_exchange_rate, ExchangeRate}
use tucanbit_tvs.Prelude.{String, List, ◌∷◌, [], ℕ, if◌then◌else◌, ◌==◌}

abbrev pub Rates : Type 0
Rates = List (String × ExchangeRate)

-- `rates[crypto] = rate`
unfoldable pub set_rate : String → ExchangeRate → Rates → Rates
set_rate crypto rate [] = (crypto, rate) ∷ []
set_rate crypto rate ((k, r) ∷ rates) =
    let rest = set_rate crypto rate rates in
    if k == crypto then (crypto, rate) ∷ rates else (k, r) ∷ rest

-- One turn of the loop after its call: an error is logged and the loop continues.
unfoldable pub keep_rate : String → Try ExchangeRate → Rates → Rates
unfolding set_rate
keep_rate crypto (done rate) rates = set_rate crypto rate rates
keep_rate crypto (error e) rates = rates

-- The loop over the currencies that are left.
unfoldable pub add_rates : List String → String → Rates → Action Rates
unfolding keep_rate
add_rates [] fiat_currency rates = pure rates
add_rates (crypto ∷ crypto_currencies) fiat_currency rates = do
  answer ← attempt (get_exchange_rate crypto fiat_currency)
  add_rates crypto_currencies fiat_currency (keep_rate crypto answer rates)

-- `GetMultipleExchangeRates`
unfoldable pub get_multiple_exchange_rates : List String → String → Action Rates
unfolding add_rates
get_multiple_exchange_rates crypto_currencies fiat_currency =
    add_rates crypto_currencies fiat_currency []

-- `GetExchangeRateWithTimestamp`; the time is not looked at.
unfoldable pub get_exchange_rate_with_timestamp : String → String → ℕ → Action ExchangeRate
get_exchange_rate_with_timestamp crypto_currency fiat_currency timestamp =
    get_exchange_rate crypto_currency fiat_currency
