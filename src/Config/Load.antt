-- ===== src/Config/Load.antt =====
-- config.go: LoadConfig.
use api_key_rotator.Base.{
  Bool, not, ◌||◌, ◌*◌, List, [], ◌∷◌, Option, none, some, if◌then◌else◌, ◌>>=◌,
}
use api_key_rotator.Base.Text.{Bytes, codes, bytes_eq, trim_right, trim_space, is_empty}
use api_key_rotator.Urls.{Urls}
use api_key_rotator.Floats.{Floats}
use api_key_rotator.Config.{Environment, parse_keys}
use api_key_rotator.Config.State.{Config}
use api_key_rotator.Config.Values.{
  env_str, env_int, env_int64, at_least, at_most, http_url, route_prefix,
}
use api_key_rotator.Config.Providers.{
  load_tavily_config, load_apify_config, load_exa_config, load_fmp_config,
  load_alpha_vantage_config, load_marketaux_config,
}

unfoldable pub required : List Bytes → Option (List Bytes)
required [] = none
required (k ∷ ks) = some (k ∷ ks)

unfoldable pub is_proxy_scheme : Bytes → Bool
unfolding bytes_eq
is_proxy_scheme s =
    bytes_eq s (codes "http")
    || bytes_eq s (codes "https")
    || bytes_eq s (codes "socks5")
    || bytes_eq s (codes "socks5h")

-- UPSTREAM_PROXY, which may be absent.
unfoldable pub checked_proxy : Urls → Bytes → Option Bytes
unfolding is_proxy_scheme
checked_proxy urls [] = some []
checked_proxy urls (c ∷ s) = do
  u ← urls.parse (c ∷ s)
  if is_empty u.host then none else if is_proxy_scheme u.scheme then some (c ∷ s) else none

unfoldable pub saturation_mode : Bytes → Option Bytes
saturation_mode s =
    if bytes_eq s (codes "queue") || bytes_eq s (codes "reject") then some s else none

-- `if fcPrefix != ""`
unfoldable pub firecrawl_prefix : Bytes → Option Bytes
firecrawl_prefix s = if is_empty s then some s else route_prefix s

unfoldable pub load_config : Environment → Urls → Floats → Option Config
load_config env urls fl = do
  keys ← required (parse_keys (env (codes "FIRECRAWL_API_KEYS")))
  origin ← http_url urls (env_str env (codes "UPSTREAM") (codes "https://api.firecrawl.dev"))
  passes ← at_least 1 (env_int env (codes "MAX_PASSES") 2)
  max_body ← at_least 0 (env_int64 env (codes "MAX_BODY_BYTES") (16 * 1024 * 1024))
  day ← at_most 31 (at_least 1 (env_int env (codes "CREDIT_RESET_DAY") 1))
  low ← at_least 0 (env_int64 env (codes "LOW_CREDIT_THRESHOLD") 10)
  stop ← at_most low (at_least 0 (env_int64 env (codes "STOP_CREDIT_THRESHOLD") 2))
  refresh ← at_least 10 (env_int env (codes "CREDIT_REFRESH_INTERVAL") 300)
  proxy ← checked_proxy urls (trim_space (env (codes "UPSTREAM_PROXY")))
  retries ← at_least 0 (env_int env (codes "FIRECRAWL_403_RETRIES") 1)
  tavily ← load_tavily_config env urls low stop retries
  apify ← load_apify_config env urls fl
  exa ← load_exa_config env urls fl
  fmp ← load_fmp_config env urls
  alpha ← load_alpha_vantage_config env urls
  marketaux ← load_marketaux_config env urls
  concurrent ← at_least 0 (env_int env (codes "FIRECRAWL_MAX_CONCURRENT_PER_KEY") 1)
  saturation ←
      saturation_mode (env_str env (codes "FIRECRAWL_CONCURRENCY_SATURATION") (codes "queue"))
  queue ← at_least 0 (env_int env (codes "FIRECRAWL_CONCURRENCY_QUEUE_MS") 15000)
  prefix ← firecrawl_prefix (env_str env (codes "FIRECRAWL_ROUTE_PREFIX") (codes "/firecrawl"))
  some (record {
    api_keys = keys;
    upstream = trim_right b'/' (env_str env (codes "UPSTREAM") (codes "https://api.firecrawl.dev"));
    upstream_host = origin.host;
    port = env_str env (codes "PORT") (codes "8788");
    host = env_str env (codes "HOST") (codes "0.0.0.0");
    max_passes = passes;
    max_body_bytes = max_body;
    proxy_base_url = trim_space (env (codes "PROXY_BASE_URL"));
    upstream_proxy = proxy;
    log_level = env_str env (codes "LOG_LEVEL") (codes "info");
    credit_reset_day = day;
    low_credit_threshold = low;
    stop_credit_threshold = stop;
    credit_refresh_sec = refresh;
    firecrawl_max_concurrent_per_key = concurrent;
    firecrawl_concurrency_saturation = saturation;
    firecrawl_concurrency_queue_ms = queue;
    firecrawl403_retries = retries;
    firecrawl_route_prefix = prefix;
    firecrawl_legacy_fallback =
        not (bytes_eq (env (codes "FIRECRAWL_LEGACY_FALLBACK")) (codes "false"));
    tavily = tavily;
    apify = apify;
    exa = exa;
    fmp = fmp;
    alpha_vantage = alpha;
    marketaux = marketaux;
  })
