-- ===== src/Profile/State.antt =====
-- profile.go: Profile. The name is one of the seven that buildProfiles gives; durations are in
-- nanoseconds. The fields client and refresh are not here: the one only selects a timeout, and the
-- other is never nil after buildServer.
use api_key_rotator.Base.{ℕ, Bool}
use api_key_rotator.Base.Text.{Bytes}
use api_key_rotator.Floats.{Float}
use api_key_rotator.Pool.State.{KeyPool}

pub data ProviderName : Type 0 where
  firecrawl tavily exa apify fmp alphavantage marketaux : ProviderName

pub record Profile : Type 0 where
  pub name : ProviderName
  pub route_prefix : Bytes
  pub upstream : Bytes
  pub upstream_host : Bytes
  pub credit_reset_day : ℕ
  pub rewrite_next : Bool
  pub keep_prefix : Bool
  pub auth_query_param : Bytes
  pub auth_header : Bytes
  pub upstream_timeout : ℕ
  pub apify_free_credit_usd : Float
  pub concurrency_saturation : Bytes
  pub concurrency_queue : ℕ
  pub max403_retries : ℕ
  pub pool : KeyPool
