-- ===== src/Proxy/Sample.antt =====
-- A sample profile with one key, and a world around it, for the tests of proxy.go.
use api_key_rotator.Base.{ℕ, suc, ◌+◌, ◌<◌, true, false, [], ◌∷◌, none, arith}
use api_key_rotator.Base.Int.{pos}
use api_key_rotator.Base.Text.{codes}
use api_key_rotator.Pool.State.{KeyPool, new_key_pool, set_thresholds, set_max_concurrent}
use api_key_rotator.Profile.State.{Profile, tavily}
use api_key_rotator.Proxy.Request.{Request}
use api_key_rotator.Proxy.TryKey.{Outside, responded}
use api_key_rotator.Floats.{Floats, zero_float}
use api_key_rotator.Usage.Bodies.{reply}
use api_key_rotator.Usage.Fetch.{Net}
use api_key_rotator.Proxy.ServeOnce.{World, Run}
use api_key_rotator.Config.State.{Config, FinanceConfig}

abbrev pub pool_of : ℕ → KeyPool
pool_of stop = set_max_concurrent (pos 1) (set_thresholds 0 stop (new_key_pool (codes "k1" ∷ [])))

abbrev pub tv : KeyPool → Profile
tv pool = record {
  name = tavily;
  route_prefix = codes "/tavily";
  upstream = codes "https://api.tavily.com";
  upstream_host = codes "api.tavily.com";
  credit_reset_day = 1;
  rewrite_next = false;
  keep_prefix = false;
  auth_query_param = [];
  auth_header = [];
  upstream_timeout = 0;
  apify_free_credit_usd = 0;
  concurrency_saturation = [];
  concurrency_queue = 5;
  max403_retries = 2;
  pool = pool;
}

abbrev pub search : Request
search = record {
  method = codes "GET";
  path = codes "/tavily/search";
  raw_query = [];
  host = codes "localhost";
  header = [];
  body = [];
}

abbrev pub done : Outside
done = record { builds = λ m u. true; answers = λ n. responded 200 [] []; cancels = λ n. false }

abbrev pub no_floats : Floats
no_floats = record {
  parse_float = λ s. none;
  is_negative = λ f. false;
  at_most_zero = λ f. true;
  minus = λ f g. zero_float;
  rounded = λ k f. pos 0;
}

-- No usage endpoint answers, and every request of theirs is refused at once.
abbrev pub silent : Net
silent = record {
  do_request = λ url header attempt. reply 404 [];
  query_escape = λ s. s;
  times = λ s. none;
  floats = no_floats;
}

abbrev pub world : World
world = record {
  others = λ n. [];
  clock = λ n. n + 1000;
  upstream = λ n. done;
  net = λ n. silent;
  wakes = λ n. [];
  gone = λ n. false;
  calendar = record { month_day = λ t d. 0; add_month = λ t. t + 30; add_year = λ t. t + 365 };
  floats = no_floats;
}

abbrev pub run_of : KeyPool → Run
run_of pool = record {
  pool = pool;
  refresher = record {
    low_interval = 60;
    last_low = none ∷ [];
    last_daily = none ∷ [];
    spawned = [];
  };
  tick = 0;
  sent = [];
}

abbrev pub no_provider : FinanceConfig
no_provider = record {
  api_keys = [];
  upstream = [];
  route_prefix = [];
  daily_budget = 0;
  low_credit = 0;
  stop_credit = 0;
}

abbrev pub cfg : Config
cfg = record {
  api_keys = codes "k1" ∷ [];
  upstream = [];
  upstream_host = [];
  port = [];
  host = [];
  max_passes = 2;
  max_body_bytes = 0;
  proxy_base_url = [];
  upstream_proxy = [];
  log_level = [];
  credit_reset_day = 1;
  low_credit_threshold = 0;
  stop_credit_threshold = 0;
  credit_refresh_sec = 60;
  firecrawl_max_concurrent_per_key = 1;
  firecrawl_concurrency_saturation = [];
  firecrawl_concurrency_queue_ms = 0;
  firecrawl403_retries = 1;
  firecrawl_route_prefix = [];
  firecrawl_legacy_fallback = true;
  tavily = record {
    api_keys = [];
    upstream = [];
    route_prefix = [];
    low_credit = 0;
    stop_credit = 0;
    retries403 = 0;
  };
  apify = record {
    api_keys = [];
    upstream = [];
    route_prefix = [];
    timeout_sec = 0;
    free_credit_usd = 0;
    low_credit_cents = pos 0;
    stop_credit_cents = pos 0;
  };
  exa = record {
    api_keys = [];
    upstream = [];
    route_prefix = [];
    budget_micro = pos 0;
    low_micro = pos 0;
    stop_micro = pos 0;
  };
  fmp = no_provider;
  alpha_vantage = no_provider;
  marketaux = no_provider;
}

abbrev pub p : Profile
p = tv (pool_of 0)

abbrev pub start : Run
start = run_of (pool_of 0)

pub goes_on : (n : ℕ) → world.clock n < world.clock (suc n)
goes_on n = omega arith
