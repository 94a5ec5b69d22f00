-- ===== src/Config.antt =====
-- pkg/config/config.go: the settings that the modelled code reads. A Go map is an association list,
-- read by its first entry for a key; the numbers are taken as not negative.
use tucanbit_tvs.Prelude.{ℕ, String, List, Option, none, ◌∷◌, [], if◌then◌else◌, ◌==◌, some}
use tucanbit_tvs.Prelude.Int.{ℤ}

pub record VerificationConfig : Type 0 where
  pub polling_interval : ℕ
  pub session_timeout_hours : ℕ

pub record ExchangeApiConfig : Type 0 where
  pub base_url : String
  pub max_retries : ℕ
  pub retry_backoff_base : ℤ
  pub api_key : String

pub record HeliusConfig : Type 0 where
  pub api_key : String
  pub base_urls : List (String × String)

pub record Config : Type 0 where
  pub verification : VerificationConfig
  pub exchange_api : ExchangeApiConfig
  pub helius : HeliusConfig
  pub mint_addresses : List (String × List (String × String))
  pub jwt_secret : String

-- `v, exists := m[k]`
abbrev pub lookup {ℓ} : {V : Type ℓ} → String → List (String × V) → Option V
lookup k [] = none
lookup k ((j, v) ∷ m) = if j == k then some v else lookup k m
