-- ===== src/Config/Sample.antt =====
-- A sample environment and its configuration, for the tests.
use api_key_rotator.Base.{
  ℕ, ◌≡◌, refl, true, false, List, [], ◌∷◌, none, some, if◌then◌else◌, drop, ◌>>=◌,
}
use api_key_rotator.Base.Text.{Bytes, codes, bytes_eq, has_prefix, trim_space, trim_right, atoi}
use api_key_rotator.Base.Int.{pos}
use api_key_rotator.Urls.{Urls, is_http}
use api_key_rotator.Floats.{Floats, zero_float}
use api_key_rotator.Config.{
  Environment, parse_keys, check_route_prefix, parse_opt_int64, finance_daily_thresholds,
}
use api_key_rotator.Config.State.{Config, FinanceConfig}
use api_key_rotator.Config.Load.{
  required, checked_proxy, saturation_mode, firecrawl_prefix, load_config,
}
use api_key_rotator.Config.Values.{
  env_str, env_int, env_int64, at_least, at_most, http_url, env_usd, env_usd_cents, env_usd_micro,
  route_prefix, ordered, less,
}
use api_key_rotator.Config.Providers.{
  load_tavily_config, load_apify_config, load_exa_config, load_fmp_config,
  load_alpha_vantage_config, load_marketaux_config, above_zero,
}

-- One key of Firecrawl, one of FMP, and a stop threshold above the budget that FMP starts with.
abbrev pub env : Environment
env name =
    if bytes_eq name (codes "FIRECRAWL_API_KEYS")
    then codes "k1"
    else if bytes_eq name (codes "FMP_API_KEYS")
    then codes "k2"
    else if bytes_eq name (codes "FMP_LOW_CREDIT")
    then codes "1000"
    else if bytes_eq name (codes "FMP_STOP_CREDIT")
    then codes "500"
    else []

-- The URLs of https, with nothing behind the host.
abbrev pub urls : Urls
urls = record {
  parse = λ s.
      if has_prefix s (codes "https://")
      then some (record { scheme = codes "https"; host = drop 8 s; rest = [] })
      else none;
  print = λ u. u.host;
}

-- No number is read.
abbrev pub floats : Floats
floats = record {
  parse_float = λ s. none;
  is_negative = λ f. false;
  at_most_zero = λ f. true;
  minus = λ f g. zero_float;
  rounded = λ k f. pos 0;
}

abbrev pub fin : List Bytes → Bytes → Bytes → ℕ → ℕ → ℕ → FinanceConfig
fin keys upstream prefix budget low stop = record {
  api_keys = keys;
  upstream = upstream;
  route_prefix = prefix;
  daily_budget = budget;
  low_credit = low;
  stop_credit = stop;
}

abbrev pub cfg : Config
cfg = record {
  api_keys = codes "k1" ∷ [];
  upstream = codes "https://api.firecrawl.dev";
  upstream_host = codes "api.firecrawl.dev";
  port = codes "8788";
  host = codes "0.0.0.0";
  max_passes = 2;
  max_body_bytes = 16777216;
  proxy_base_url = [];
  upstream_proxy = [];
  log_level = codes "info";
  credit_reset_day = 1;
  low_credit_threshold = 10;
  stop_credit_threshold = 2;
  credit_refresh_sec = 300;
  firecrawl_max_concurrent_per_key = 1;
  firecrawl_concurrency_saturation = codes "queue";
  firecrawl_concurrency_queue_ms = 15000;
  firecrawl403_retries = 1;
  firecrawl_route_prefix = codes "/firecrawl";
  firecrawl_legacy_fallback = true;
  tavily = record {
    api_keys = [];
    upstream = codes "https://api.tavily.com";
    route_prefix = codes "/tavily";
    low_credit = 10;
    stop_credit = 2;
    retries403 = 1;
  };
  apify = record {
    api_keys = [];
    upstream = codes "https://api.apify.com";
    route_prefix = codes "/apify";
    timeout_sec = 180;
    free_credit_usd = zero_float;
    low_credit_cents = pos 10;
    stop_credit_cents = pos 5;
  };
  exa = record {
    api_keys = [];
    upstream = codes "https://api.exa.ai";
    route_prefix = codes "/exa";
    budget_micro = pos 10000000;
    low_micro = pos 500000;
    stop_micro = pos 100000;
  };
  fmp =
      fin (codes "k2" ∷ []) (codes "https://financialmodelingprep.com") (codes "/fmp") 250 1000 500;
  alpha_vantage = fin [] (codes "https://www.alphavantage.co") (codes "/alphavantage") 25 5 1;
  marketaux = fin [] (codes "https://api.marketaux.com") (codes "/marketaux") 100 10 1;
}

pub loaded : load_config env urls floats ≡ some cfg
unfolding load_config ◌>>=◌ required parse_keys bytes_eq http_url env_str env_int env_int64
    trim_space trim_right at_least at_most checked_proxy load_tavily_config load_apify_config
    load_exa_config load_fmp_config load_alpha_vantage_config load_marketaux_config route_prefix
    check_route_prefix has_prefix is_http parse_opt_int64 finance_daily_thresholds env_usd
    env_usd_cents env_usd_micro ordered less above_zero saturation_mode firecrawl_prefix atoi
loaded = refl
