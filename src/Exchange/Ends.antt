-- ===== src/Exchange/Ends.antt =====
-- The retries of the exchange client, as actions that end.
use tucanbit_tvs.Prelude.{sym, inr, false}
use tucanbit_tvs.Effects.{Env, World, CoinCapAnswer, ◌>>=◌, Action, HttpReply}
use tucanbit_tvs.Effects.Bounded.{
  Ended, EndsBy, Bounded, Bounded-pure, Bounded-raise, Bounded-asks, Bounded-weaken, Bounded-bind,
  Bounded-sleep, Bounded-exchange_request,
}
use tucanbit_tvs.Prelude.{
  ◌∷◌, [], Bool, Option, none, ◌<◌, ◌≤◌, some, ◌+◌, ◌*◌, suc, arith, ◌≡◌, zero, true, if◌then◌else◌,
  ◌&&◌, Bool-cases, ◌/◌, inl, subst, sym,
}
use tucanbit_tvs.Exchange.{
  parse_coin_cap_response, after_response, get_exchange_rate_with_retry, get_exchange_rate, ℕ,
  String, or_invalid_url, ExchangeRate, err, some, GoError, plain_error, ltb, concat, suc, ok,
  rate_of, with_sign, should_retry, magnitude, should_retry_status_code,
}

answer_ends :
    (env : Env) (a : CoinCapAnswer) (crypto : String) (w : World) (n : ℕ)
    → EndsBy w n (parse_coin_cap_response a crypto env w)
unfolding parse_coin_cap_response Ended
answer_ends env a crypto w n =
    elim (env.ops.parse_float a.price_usd)
      as (λ price. EndsBy w n (
        elim price [
          | none ↦ err (plain_error (concat ("invalid price format: " ∷ a.price_usd ∷ [])))
          | some p ↦ ok (
              rate_of env.ops crypto
                (env.format_time (with_sign a.timestamp (magnitude a.timestamp / 1000))) p
                (env.ops.parse_float a.change_percent_24hr))
        ],
        w,
      )) [ none ↦ (tt, omega arith) | some p ↦ (tt, omega arith) ]

module _ {env : Env} where
  retry_or :
      (b : Bool) (attempt : ℕ) (retry : Action ExchangeRate) (e : GoError) (w : World) (n : ℕ)
      → (ltb attempt env.config.exchange_api.max_retries ≡ true → Bounded env n retry)
      → EndsBy w n
          (if b && ltb attempt env.config.exchange_api.max_retries then retry env w else (err e, w))
  unfolding Ended
  retry_or false attempt retry e w n k = (tt, omega arith)
  retry_or true attempt retry e w n k =
      elim (Bool-cases (ltb attempt env.config.exchange_api.max_retries)) [
        | inl h ↦
            subst (λ c. EndsBy w n (if c then retry env w else (err e, w))) (sym h) ((k h).at w)
        | inr h ↦
            subst (λ c. EndsBy w n (if c then retry env w else (err e, w))) (sym h)
              (tt, omega arith)
      ]

  Bounded-after_response :
      (crypto : String) (attempt : ℕ) (retry : Action ExchangeRate)
      (reply : HttpReply CoinCapAnswer) (n : ℕ)
      → (ltb attempt env.config.exchange_api.max_retries ≡ true → Bounded env n retry)
      → Bounded env n (after_response crypto attempt retry reply)
  unfolding Ended after_response
  Bounded-after_response crypto attempt retry (HttpReply.no_request e) n k = record {
    at = λ w. (tt, omega arith);
  }
  Bounded-after_response crypto attempt retry (HttpReply.no_response e) n k = record {
    at = λ w. retry_or (should_retry e) attempt retry _ w n k;
  }
  Bounded-after_response crypto attempt retry (HttpReply.bad_status code status body) n k = record {
    at = λ w. retry_or (should_retry_status_code code) attempt retry _ w n k;
  }
  Bounded-after_response crypto attempt retry (HttpReply.no_body e) n k = record {
    at = λ w. (tt, omega arith);
  }
  Bounded-after_response crypto attempt retry (HttpReply.bad_json e) n k = record {
    at = λ w. (tt, omega arith);
  }
  Bounded-after_response crypto attempt retry (HttpReply.answer a) n k = record {
    at = λ w. answer_ends env a crypto w n;
  }

  Bounded-or_invalid_url : (url : Option String) → Bounded env 0 (or_invalid_url url)
  Bounded-or_invalid_url none = Bounded-raise 0 _
  Bounded-or_invalid_url (some url) = Bounded-pure 0 url

  Bounded-get_exchange_rate_with_retry :
      (fuel : ℕ) (crypto : String) (attempt : ℕ)
      → env.config.exchange_api.max_retries < fuel + attempt
      → attempt ≤ env.config.exchange_api.max_retries
      → Bounded env (2 * fuel) (get_exchange_rate_with_retry fuel crypto attempt)
  unfolding get_exchange_rate_with_retry
  Bounded-get_exchange_rate_with_retry zero crypto attempt l le = absurd (omega (arith, l, le))
  Bounded-get_exchange_rate_with_retry (suc fuel) crypto attempt l le =
      Bounded-weaken (0 + (0 + (1 + (0 + (1 + 2 * fuel))))) _ _ (omega arith) (
        Bounded-bind _ _ _ _ (Bounded-asks 0 _) (λ maybe_url.
          Bounded-bind _ _ _ _ (Bounded-or_invalid_url maybe_url) (λ url.
            Bounded-bind _ _ _ _ (Bounded-exchange_request url) (λ reply.
              Bounded-bind _ _ _ _ (Bounded-asks 0 _) (λ backoff.
                Bounded-after_response crypto attempt _ reply _ (λ h.
                  Bounded-bind _ _ _ _ (Bounded-sleep _) (λ _.
                    Bounded-get_exchange_rate_with_retry fuel crypto (attempt + 1)
                      (omega (arith, l)) (ground (arith, h)))))))))

-- `GetExchangeRate` always ends, with a rate or an error and never with a panic or for lack of fuel,
-- whatever the exchange answers, after at most 2 * (max_retries + 1) requests and sleeps together.
pub get_exchange_rate-ends :
    (env : Env) (crypto fiat : String) (w : World)
    → Ended (get_exchange_rate crypto fiat env w).0
      × ((get_exchange_rate crypto fiat env w).1.tick
          ≤ w.tick + 2 * (env.config.exchange_api.max_retries + 1))
unfolding get_exchange_rate ◌>>=◌
get_exchange_rate-ends env crypto fiat w =
    (Bounded-get_exchange_rate_with_retry (env.config.exchange_api.max_retries + 1) crypto 0
        (omega arith) (omega arith)).at
      w
