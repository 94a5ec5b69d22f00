-- ===== src/Exchange/Rates/Named.antt =====
-- `GetMultipleExchangeRates` of internal/infrastructure/clients/exchange_client.go: the currencies of
-- the rates that it returns.
use tucanbit_tvs.Exchange.Rates.{Rates, set_rate, keep_rate, add_rates, get_multiple_exchange_rates}
use tucanbit_tvs.Exchange.{
  parse_coin_cap_response, after_response, get_exchange_rate_with_retry, get_exchange_rate,
  ExchangeRate, rate_of, should_retry, should_retry_status_code, plain_error, with_sign, magnitude,
}
use tucanbit_tvs.Exchange.Ends.{get_exchange_rate-ends}
use tucanbit_tvs.Effects.{
  Env, World, Action, ◌>>=◌, HttpReply, CoinCapAnswer, attempt, tried, continue,
}
use tucanbit_tvs.Effects.Bounded.{Ended}
use tucanbit_tvs.Effects.Returns.{Returns, Returns-bind, Returns-any, Returns-crash, ok_injective}
use tucanbit_tvs.Prelude.{
  List, ◌∷◌, [], String, Bool, true, false, ◌==◌, ◌||◌, ◌&&◌, ◌≡◌, refl, sym, All, All-map, ℕ, zero,
  suc, ltb, if◌then◌else◌, Bool-cases, inl, inr, none, some, concat, ◌+◌, ◌/◌, ap, ==-refl,
}
use tucanbit_tvs.Db.Rows.{Result, ok, err, panic, GoError}

-- The currency is one of those.
unfoldable pub is_one_of : String → List String → Bool
is_one_of crypto [] = false
is_one_of crypto (c ∷ cs) = c == crypto || is_one_of crypto cs

module _ {env : Env} where
  answer_named :
      (a : CoinCapAnswer) (crypto : String)
      → Returns env (parse_coin_cap_response a crypto) (λ rate. rate.crypto_currency ≡ crypto)
  unfolding parse_coin_cap_response
  answer_named a crypto = record {
    at = λ w rate.
        elim (env.ops.parse_float a.price_usd)
          as (λ price.
            elim price [
              | none ↦ err (plain_error (concat ("invalid price format: " ∷ a.price_usd ∷ [])))
              | some p ↦ ok (
                  rate_of env.ops crypto
                    (env.format_time (with_sign a.timestamp (magnitude a.timestamp / 1000))) p
                    (env.ops.parse_float a.change_percent_24hr))
            ]
              ≡ ok rate
            → rate.crypto_currency ≡ crypto) [
              | none ↦ λ h. cc h
              | some p ↦ λ h. sym (ap (λ r. r.crypto_currency) (ok_injective _ rate h))
            ];
  }

  retry_named :
      (b : Bool) (crypto : String) (retry : Action ExchangeRate) (e : GoError) (w : World)
      (rate : ExchangeRate)
      → Returns env retry (λ r. r.crypto_currency ≡ crypto)
      → (if b then retry env w else (err e, w)).0 ≡ ok rate
      → rate.crypto_currency ≡ crypto
  retry_named true crypto retry e w rate k h = k.at w rate h
  retry_named false crypto retry e w rate k h = cc h

  Returns-after_response :
      (crypto : String) (n : ℕ) (retry : Action ExchangeRate) (reply : HttpReply CoinCapAnswer)
      → Returns env retry (λ rate. rate.crypto_currency ≡ crypto)
      → Returns env (after_response crypto n retry reply) (λ rate. rate.crypto_currency ≡ crypto)
  unfolding after_response
  Returns-after_response crypto n retry (HttpReply.no_request e) k = record {
    at = λ w rate h. cc h;
  }
  Returns-after_response crypto n retry (HttpReply.no_response e) k = record {
    at = λ w rate h.
        retry_named (should_retry e && ltb n env.config.exchange_api.max_retries) crypto retry _ w
          rate k h;
  }
  Returns-after_response crypto n retry (HttpReply.bad_status code status body) k = record {
    at = λ w rate h.
        retry_named (should_retry_status_code code && ltb n env.config.exchange_api.max_retries)
          crypto retry _ w rate k h;
  }
  Returns-after_response crypto n retry (HttpReply.no_body e) k = record { at = λ w rate h. cc h }
  Returns-after_response crypto n retry (HttpReply.bad_json e) k = record { at = λ w rate h. cc h }
  Returns-after_response crypto n retry (HttpReply.answer a) k = answer_named a crypto

  Returns-get_exchange_rate_with_retry :
      (fuel : ℕ) (crypto : String) (n : ℕ)
      → Returns env
          (get_exchange_rate_with_retry fuel crypto n)
          (λ rate. rate.crypto_currency ≡ crypto)
  unfolding get_exchange_rate_with_retry
  Returns-get_exchange_rate_with_retry zero crypto n = Returns-crash _
  Returns-get_exchange_rate_with_retry (suc fuel) crypto n =
      Returns-bind _ _ (Returns-any _) (λ maybe_url _. Returns-bind _ _ (Returns-any _) (λ url _.
        Returns-bind _ _ (Returns-any _) (λ reply _. Returns-bind _ _ (Returns-any _) (λ backoff _.
          Returns-after_response crypto n _ reply (
            Returns-bind _ _ (Returns-any _)
              (λ _ _. Returns-get_exchange_rate_with_retry fuel crypto (n + 1)))))))

  -- A rate that `GetExchangeRate` returns is the asked currency's.
  Returns-get_exchange_rate :
      (crypto fiat : String)
      → Returns env (get_exchange_rate crypto fiat) (λ rate. rate.crypto_currency ≡ crypto)
  unfolding get_exchange_rate
  Returns-get_exchange_rate crypto fiat =
      Returns-bind _ _ (Returns-any _)
        (λ n _. Returns-get_exchange_rate_with_retry (n + 1) crypto 0)

-- The rate is for one of the asked currencies, and is kept under that currency.
abbrev pub IsNamed : List String → String × ExchangeRate → Type 0
IsNamed asked (crypto, rate) = (is_one_of crypto asked ≡ true) × (rate.crypto_currency ≡ crypto)

All-set_rate :
    (asked : List String) (crypto : String) (rate : ExchangeRate) (rates : Rates)
    → IsNamed asked (crypto, rate)
    → All (IsNamed asked) rates
    → All (IsNamed asked) (set_rate crypto rate rates)
unfolding set_rate
All-set_rate asked crypto rate [] new old = (new, tt)
All-set_rate asked crypto rate ((k, r) ∷ rates) new (here, old) = elim (Bool-cases (k == crypto)) [
  | inl e ↦ rw e (new, old)
  | inr e ↦ rw e (here, All-set_rate asked crypto rate rates new old)
]

-- The action returns rates that are all named.
abbrev pub ReturnsNamed : Env → List String → World → Action Rates → Type 0
ReturnsNamed env asked w m =
    (rates : Rates) × (((m env w).0 ≡ ok rates) × All (IsNamed asked) rates)

after_answer :
    (env : Env) (asked : List String) (crypto : String) (rates : Rates)
    (next : Rates → Action Rates) (r : Result ExchangeRate) (w : World)
    → ((found : Rates) (v : World)
        → All (IsNamed asked) found
        → ReturnsNamed env asked v (next found))
    → is_one_of crypto asked ≡ true
    → All (IsNamed asked) rates
    → Ended r
    → ((rate : ExchangeRate) → r ≡ ok rate → rate.crypto_currency ≡ crypto)
    → ReturnsNamed env asked w
        (λ e v. continue (tried r) (λ answer. next (keep_rate crypto answer rates)) e v)
unfolding keep_rate Ended
after_answer env asked crypto rates next (ok rate) w k one old ended named =
    k _ w (All-set_rate asked crypto rate rates (one, named rate refl) old)
after_answer env asked crypto rates next (err e) w k one old ended named = k rates w old
after_answer env asked crypto rates next (panic text) w k one old ended named = absurd ended

add_rates-ReturnsNamed :
    (env : Env) (asked rest : List String) (fiat : String) (rates : Rates) (w : World)
    → All (λ c. is_one_of c asked ≡ true) rest
    → All (IsNamed asked) rates
    → ReturnsNamed env asked w (add_rates rest fiat rates)
unfolding add_rates attempt ◌>>=◌
add_rates-ReturnsNamed env asked [] fiat rates w ones old = (rates, (refl, old))
add_rates-ReturnsNamed env asked (c ∷ cs) fiat rates w (one, ones) old =
    let (r, w') = get_exchange_rate c fiat env w in
    after_answer env asked c rates (add_rates cs fiat) r w'
      (λ found v k. add_rates-ReturnsNamed env asked cs fiat found v ones k) one old
      (get_exchange_rate-ends env c fiat w).0
      (λ rate h. (Returns-get_exchange_rate c fiat).at w rate h)

or_true : (b : Bool) → (b || true) ≡ true
or_true true = refl
or_true false = refl

All-asked : (asked : List String) → All (λ c. is_one_of c asked ≡ true) asked
unfolding is_one_of
All-asked [] = tt
All-asked (c ∷ cs) =
    (rw (==-refl c) refl, All-map cs (λ x h. rw h (or_true (c == x))) (All-asked cs))

-- `GetMultipleExchangeRates` always returns rates, never an error, and each of them is kept under one
-- of the asked currencies and is a rate of that currency.
pub get_multiple_exchange_rates-ReturnsNamed :
    (env : Env) (crypto_currencies : List String) (fiat_currency : String) (w : World)
    → ReturnsNamed env crypto_currencies w
        (get_multiple_exchange_rates crypto_currencies fiat_currency)
unfolding get_multiple_exchange_rates
get_multiple_exchange_rates-ReturnsNamed env crypto_currencies fiat_currency w =
    add_rates-ReturnsNamed env crypto_currencies crypto_currencies fiat_currency [] w
      (All-asked crypto_currencies) tt
