-- ===== src/Config/State.antt =====
-- config.go: Config and the records of the providers. A number that the loader has found not to be
-- negative is a natural number; dollars rounded to cents or to micro-dollars stay signed, since
-- what int64 makes of a float that is too large is not defined.
use api_key_rotator.Base.{ℕ, Bool, List}
use api_key_rotator.Base.Int.{ℤ}
use api_key_rotator.Base.Text.{Bytes}
use api_key_rotator.Floats.{Float}

pub record TavilyConfig : Type 0 where
  pub api_keys : List Bytes
  pub upstream : Bytes
  pub route_prefix : Bytes
  pub low_credit : ℕ
  pub stop_credit : ℕ
  pub retries403 : ℕ

pub record ExaConfig : Type 0 where
  pub api_keys : List Bytes
  pub upstream : Bytes
  pub route_prefix : Bytes
  pub budget_micro : ℤ
  pub low_micro : ℤ
  pub stop_micro : ℤ

pub record ApifyConfig : Type 0 where
  pub api_keys : List Bytes
  pub upstream : Bytes
  pub route_prefix : Bytes
  pub timeout_sec : ℕ
  pub free_credit_usd : Float
  pub low_credit_cents : ℤ
  pub stop_credit_cents : ℤ

-- FMPConfig, AlphaVantageConfig and MarketauxConfig, which have the same fields.
pub record FinanceConfig : Type 0 where
  pub api_keys : List Bytes
  pub upstream : Bytes
  pub route_prefix : Bytes
  pub daily_budget : ℕ
  pub low_credit : ℕ
  pub stop_credit : ℕ

pub record Config : Type 0 where
  pub api_keys : List Bytes
  pub upstream : Bytes
  pub upstream_host : Bytes
  pub port : Bytes
  pub host : Bytes
  pub max_passes : ℕ
  pub max_body_bytes : ℕ
  pub proxy_base_url : Bytes
  pub upstream_proxy : Bytes
  pub log_level : Bytes
  pub credit_reset_day : ℕ
  pub low_credit_threshold : ℕ
  pub stop_credit_threshold : ℕ
  pub credit_refresh_sec : ℕ
  pub firecrawl_max_concurrent_per_key : ℕ
  pub firecrawl_concurrency_saturation : Bytes
  pub firecrawl_concurrency_queue_ms : ℕ
  pub firecrawl403_retries : ℕ
  pub firecrawl_route_prefix : Bytes
  pub firecrawl_legacy_fallback : Bool
  pub tavily : TavilyConfig
  pub apify : ApifyConfig
  pub exa : ExaConfig
  pub fmp : FinanceConfig
  pub alpha_vantage : FinanceConfig
  pub marketaux : FinanceConfig
