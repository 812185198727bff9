-- ===== src/Config/Providers.antt =====
-- config.go: the loaders of the providers besides Firecrawl.
use api_key_rotator.Base.{ℕ, Option, none, some, if◌then◌else◌, ◌>>=◌}
use api_key_rotator.Base.Int.{ℤ, pos}
use api_key_rotator.Base.Text.{Bytes, codes, trim_right}
use api_key_rotator.Urls.{Urls}
use api_key_rotator.Floats.{Floats, zero_float}
use api_key_rotator.Config.{
  Environment, parse_keys, parse_opt_int64, finance_daily_thresholds, or_default,
}
use api_key_rotator.Config.State.{TavilyConfig, ExaConfig, ApifyConfig, FinanceConfig}
use api_key_rotator.Config.Values.{
  env_str, env_int, at_least, at_most, env_usd, env_usd_cents, env_usd_micro, http_url,
  route_prefix, ordered, less,
}

-- A threshold that is not set is the shared one.
unfoldable pub load_tavily_config : Environment → Urls → ℕ → ℕ → ℕ → Option TavilyConfig
unfolding parse_opt_int64
load_tavily_config env urls shared_low shared_stop retries = do
  _ ← http_url urls (env_str env (codes "TAVILY_UPSTREAM") (codes "https://api.tavily.com"))
  prefix ← route_prefix (env_str env (codes "TAVILY_ROUTE_PREFIX") (codes "/tavily"))
  low ← parse_opt_int64 env (codes "TAVILY_LOW_CREDIT_THRESHOLD")
  stop ← parse_opt_int64 env (codes "TAVILY_STOP_CREDIT_THRESHOLD")
  stop' ← at_most (or_default shared_low low) (some (or_default shared_stop stop))
  some (record {
    api_keys = parse_keys (env (codes "TAVILY_API_KEYS"));
    upstream =
        trim_right b'/' (env_str env (codes "TAVILY_UPSTREAM") (codes "https://api.tavily.com"));
    route_prefix = prefix;
    low_credit = or_default shared_low low;
    stop_credit = stop';
    retries403 = retries;
  })

-- The timeout is the default, 180, when it is not set, and at least 1.
unfoldable pub load_apify_config : Environment → Urls → Floats → Option ApifyConfig
load_apify_config env urls fl = do
  _ ← http_url urls (env_str env (codes "APIFY_UPSTREAM") (codes "https://api.apify.com"))
  prefix ← route_prefix (env_str env (codes "APIFY_ROUTE_PREFIX") (codes "/apify"))
  timeout ← at_least 1 (env_int env (codes "APIFY_TIMEOUT_SEC") 180)
  free ← env_usd fl env (codes "APIFY_FREE_CREDIT_USD") zero_float
  low ← env_usd_cents fl env (codes "APIFY_LOW_CREDIT_USD") (pos 10)
  stop ← env_usd_cents fl env (codes "APIFY_STOP_CREDIT_USD") (pos 5)
  pair ← ordered low stop
  some (record {
    api_keys = parse_keys (env (codes "APIFY_API_KEYS"));
    upstream =
        trim_right b'/' (env_str env (codes "APIFY_UPSTREAM") (codes "https://api.apify.com"));
    route_prefix = prefix;
    timeout_sec = timeout;
    free_credit_usd = free;
    low_credit_cents = pair.0;
    stop_credit_cents = pair.1;
  })

-- `if budget <= 0 { return error }`
unfoldable pub above_zero : ℤ → Option ℤ
above_zero n = if less (pos 0) n then some n else none

unfoldable pub load_exa_config : Environment → Urls → Floats → Option ExaConfig
unfolding above_zero
load_exa_config env urls fl = do
  _ ← http_url urls (env_str env (codes "EXA_UPSTREAM") (codes "https://api.exa.ai"))
  prefix ← route_prefix (env_str env (codes "EXA_ROUTE_PREFIX") (codes "/exa"))
  budget ← env_usd_micro fl env (codes "EXA_BUDGET_USD") (pos 10000000)
  low ← env_usd_micro fl env (codes "EXA_LOW_CREDIT_USD") (pos 500000)
  stop ← env_usd_micro fl env (codes "EXA_STOP_CREDIT_USD") (pos 100000)
  pair ← ordered low stop
  budget' ← above_zero budget
  some (record {
    api_keys = parse_keys (env (codes "EXA_API_KEYS"));
    upstream = trim_right b'/' (env_str env (codes "EXA_UPSTREAM") (codes "https://api.exa.ai"));
    route_prefix = prefix;
    budget_micro = budget';
    low_micro = pair.0;
    stop_micro = pair.1;
  })

-- What the loaders of the daily-capped providers do after their names and defaults: the keys, the
-- upstream, the prefix, and the names of the budget and of the two thresholds.
unfoldable pub load_finance_config :
    Environment
    → Urls
    → Bytes
    → Bytes
    → Bytes
    → Bytes
    → Bytes
    → Bytes
    → ℕ
    → ℕ
    → ℕ
    → Option FinanceConfig
load_finance_config env urls keys upstream prefix low_name stop_name budget_name budget low stop =
    do
      _ ← http_url urls upstream
      prefix' ← route_prefix prefix
      limits ← finance_daily_thresholds env low_name stop_name budget_name low stop
      some (record {
        api_keys = parse_keys keys;
        upstream = trim_right b'/' upstream;
        route_prefix = prefix';
        daily_budget = or_default budget limits.0;
        low_credit = limits.1;
        stop_credit = limits.2;
      })

unfoldable pub load_fmp_config : Environment → Urls → Option FinanceConfig
unfolding load_finance_config
load_fmp_config env urls =
    load_finance_config env urls (env (codes "FMP_API_KEYS"))
      (env_str env (codes "FMP_UPSTREAM") (codes "https://financialmodelingprep.com"))
      (env_str env (codes "FMP_ROUTE_PREFIX") (codes "/fmp")) (codes "FMP_LOW_CREDIT")
      (codes "FMP_STOP_CREDIT") (codes "FMP_DAILY_BUDGET") 250 10 1

unfoldable pub load_alpha_vantage_config : Environment → Urls → Option FinanceConfig
unfolding load_finance_config
load_alpha_vantage_config env urls =
    load_finance_config env urls (env (codes "ALPHAVANTAGE_API_KEYS"))
      (env_str env (codes "ALPHAVANTAGE_UPSTREAM") (codes "https://www.alphavantage.co"))
      (env_str env (codes "ALPHAVANTAGE_ROUTE_PREFIX") (codes "/alphavantage"))
      (codes "ALPHAVANTAGE_LOW_CREDIT") (codes "ALPHAVANTAGE_STOP_CREDIT")
      (codes "ALPHAVANTAGE_DAILY_BUDGET") 25 5 1

unfoldable pub load_marketaux_config : Environment → Urls → Option FinanceConfig
unfolding load_finance_config
load_marketaux_config env urls =
    load_finance_config env urls (env (codes "MARKETAUX_API_KEYS"))
      (env_str env (codes "MARKETAUX_UPSTREAM") (codes "https://api.marketaux.com"))
      (env_str env (codes "MARKETAUX_ROUTE_PREFIX") (codes "/marketaux"))
      (codes "MARKETAUX_LOW_CREDIT") (codes "MARKETAUX_STOP_CREDIT")
      (codes "MARKETAUX_DAILY_BUDGET") 100 10 1
