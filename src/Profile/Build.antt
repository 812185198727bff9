-- ===== src/Profile/Build.antt =====
-- profile.go: buildProfiles. Durations are in nanoseconds. A threshold in dollars may be negative
-- after an overflow; as a balance is never negative, 0 in its place gates the same keys.
pub mod Seeds
pub mod Routes
mod Tests
use api_key_rotator.Base.{
  ℕ, zero, suc, ◌*◌, Bool, true, false, List, [], ◌∷◌, ◌++◌, Option, none, some, length, drop,
  if◌then◌else◌,
}
use api_key_rotator.Base.Int.{ℤ, pos, pos_part}
use api_key_rotator.Base.Text.{Bytes, codes, has_prefix}
use api_key_rotator.Floats.{zero_float}
use api_key_rotator.Pool.State.{KeyPool, new_key_pool, set_thresholds, set_max_concurrent}
use api_key_rotator.Pool.Advance.{second}
use api_key_rotator.Pool.Credits.{set_credits}
use api_key_rotator.Profile.State.{
  ProviderName, firecrawl, tavily, exa, apify, fmp, alphavantage, marketaux, Profile,
}
use api_key_rotator.Config.State.{Config, FinanceConfig}

abbrev millisecond : ℕ
millisecond = 1000000

-- What stands behind the first "://", if there is one.
abbrev or_whole : Bytes → Option Bytes → Bytes
or_whole s none = s
or_whole s (some host) = host

unfoldable pub behind_scheme : Bytes → Option Bytes
behind_scheme [] = none
behind_scheme (c ∷ s) =
    let rest = behind_scheme s in
    if has_prefix (c ∷ s) (codes "://") then some (drop 3 (c ∷ s)) else rest

unfoldable pub host_of : Bytes → Bytes
unfolding behind_scheme
host_of upstream = or_whole upstream (behind_scheme upstream)

-- The loop that seeds the keys from index `i` on, `n` of them.
unfoldable pub seed : ℕ → ℕ → ℤ → KeyPool → KeyPool
seed zero i credits pool = pool
seed (suc n) i credits pool = seed n (suc i) credits (set_credits i credits pool)

-- The fields that the literals of the providers leave out.
abbrev provider : ProviderName → Bytes → Bytes → ℕ → KeyPool → Profile
provider name prefix upstream day pool = record {
  name = name;
  route_prefix = prefix;
  upstream = upstream;
  upstream_host = host_of upstream;
  credit_reset_day = day;
  rewrite_next = false;
  keep_prefix = false;
  auth_query_param = [];
  auth_header = [];
  upstream_timeout = 0;
  apify_free_credit_usd = zero_float;
  concurrency_saturation = [];
  concurrency_queue = 0;
  max403_retries = 0;
  pool = pool;
}

unfoldable pub firecrawl_profile : Config → Profile
unfolding new_key_pool set_thresholds set_max_concurrent
firecrawl_profile cfg =
    record (provider firecrawl cfg.firecrawl_route_prefix cfg.upstream cfg.credit_reset_day (
      set_max_concurrent (pos cfg.firecrawl_max_concurrent_per_key) (
        set_thresholds cfg.low_credit_threshold cfg.stop_credit_threshold
          (new_key_pool cfg.api_keys)))) {
            upstream_host = cfg.upstream_host;
            rewrite_next = true;
            concurrency_saturation = cfg.firecrawl_concurrency_saturation;
            concurrency_queue = cfg.firecrawl_concurrency_queue_ms * millisecond;
            max403_retries = cfg.firecrawl403_retries;
          }

unfoldable pub tavily_profile : Config → Profile
tavily_profile cfg =
    record (provider tavily cfg.tavily.route_prefix cfg.tavily.upstream cfg.credit_reset_day (
      set_thresholds cfg.tavily.low_credit cfg.tavily.stop_credit
        (new_key_pool cfg.tavily.api_keys))) { max403_retries = cfg.tavily.retries403 }

unfoldable pub exa_profile : Config → Profile
unfolding seed
exa_profile cfg =
    record (provider exa cfg.exa.route_prefix cfg.exa.upstream cfg.credit_reset_day (
      seed (length cfg.exa.api_keys) 0 cfg.exa.budget_micro (
        set_thresholds (pos_part cfg.exa.low_micro) (pos_part cfg.exa.stop_micro)
          (new_key_pool cfg.exa.api_keys)))) { auth_header = codes "x-api-key" }

unfoldable pub apify_profile : Config → Profile
apify_profile cfg =
    record (provider apify cfg.apify.route_prefix cfg.apify.upstream cfg.credit_reset_day (
      set_thresholds (pos_part cfg.apify.low_credit_cents) (pos_part cfg.apify.stop_credit_cents)
        (new_key_pool cfg.apify.api_keys))) {
          auth_query_param = codes "token";
          upstream_timeout = cfg.apify.timeout_sec * second;
          apify_free_credit_usd = cfg.apify.free_credit_usd;
        }

-- The three daily-capped providers differ in their name and in the query parameter of the key.
unfoldable pub finance_profile : ProviderName → Bytes → ℕ → FinanceConfig → Profile
unfolding seed
finance_profile name param day f =
    record (provider name f.route_prefix f.upstream day (
      seed (length f.api_keys) 0 (pos f.daily_budget)
        (set_thresholds f.low_credit f.stop_credit (new_key_pool f.api_keys)))) {
          auth_query_param = param;
        }

-- `if len(keys) > 0 { profiles = append(profiles, p) }`
abbrev pub with_keys : List Bytes → Profile → List Profile
with_keys [] p = []
with_keys (k ∷ ks) p = p ∷ []

-- The providers that are built only if they have keys, in the order of the source.
unfoldable pub other_profiles : Config → List Profile
unfolding tavily_profile exa_profile apify_profile finance_profile
other_profiles cfg =
    let tv = with_keys cfg.tavily.api_keys (tavily_profile cfg) in
    let ex = with_keys cfg.exa.api_keys (exa_profile cfg) in
    let ap = with_keys cfg.apify.api_keys (apify_profile cfg) in
    let fm =
      with_keys cfg.fmp.api_keys
        (finance_profile fmp (codes "apikey") cfg.credit_reset_day cfg.fmp) in
    let av =
      with_keys cfg.alpha_vantage.api_keys
        (finance_profile alphavantage (codes "apikey") cfg.credit_reset_day cfg.alpha_vantage) in
    let ma =
      with_keys cfg.marketaux.api_keys
        (finance_profile marketaux (codes "api_token") cfg.credit_reset_day cfg.marketaux) in
    tv ++ (ex ++ (ap ++ (fm ++ (av ++ ma))))

unfoldable pub build_profiles : Config → List Profile
unfolding firecrawl_profile other_profiles
build_profiles cfg = firecrawl_profile cfg ∷ other_profiles cfg
