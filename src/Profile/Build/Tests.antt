-- ===== src/Profile/Build/Tests.antt =====
-- Tests of config.go and profile.go together: an environment, its configuration and its profiles.
use api_key_rotator.Base.{
  ◌≡◌, refl, Bool, true, false, List, [], ◌∷◌, none, some, if◌then◌else◌, All,
}
use api_key_rotator.Base.Text.{codes, bytes_eq, has_prefix}
use api_key_rotator.Config.Sample.{env, urls, floats, cfg, loaded}
use api_key_rotator.Config.Accepted.{Accepted, load_config-Accepted}
use api_key_rotator.Pool.State.{new_key_pool, set_thresholds, set_max_concurrent}
use api_key_rotator.Pool.Credits.{set_credits}
use api_key_rotator.Pool.Select.{any_usable}
use api_key_rotator.Profile.State.{Profile}
use api_key_rotator.Profile.Route.{match_profile}
use api_key_rotator.Profile.Route.Laws.{Unclaimed}
use api_key_rotator.Profile.Build.{
  host_of, behind_scheme, seed, build_profiles, firecrawl_profile, finance_profile,
}
use api_key_rotator.Profile.Build.Seeds.{Balanced, first_balance, build_profiles-Balanced}
use api_key_rotator.Profile.Build.Routes.{match_profile-build_profiles}

load_config-Accepted_example : Accepted cfg
load_config-Accepted_example = load_config-Accepted env urls floats {cfg = cfg} loaded

-- The stop threshold of 500 passes, since FMP_DAILY_BUDGET is not set, and no key of FMP can serve.
abbrev usable_pools : List Profile → List Bool
usable_pools [] = []
usable_pools (p ∷ ps) = any_usable p.pool ∷ usable_pools ps

fmp_never_serves : usable_pools (build_profiles cfg) ≡ true ∷ false ∷ []
unfolding build_profiles firecrawl_profile finance_profile seed set_credits any_usable new_key_pool
    set_thresholds set_max_concurrent
fmp_never_serves = refl

build_profiles-Balanced_example :
    All (λ p. Balanced (first_balance cfg p.name) p.pool) (build_profiles cfg)
build_profiles-Balanced_example = build_profiles-Balanced cfg

host : host_of (codes "https://api.tavily.com") ≡ codes "api.tavily.com"
unfolding host_of behind_scheme has_prefix
host = refl

unclaimed : Unclaimed (codes "/v1/scrape") (build_profiles cfg)
unfolding build_profiles firecrawl_profile finance_profile bytes_eq has_prefix
unclaimed = (refl, (refl, tt))

match_profile-build_profiles_example :
    match_profile (build_profiles cfg) (codes "/v1/scrape") true
    ≡ (if true then some (firecrawl_profile cfg, codes "/v1/scrape") else none)
match_profile-build_profiles_example =
    match_profile-build_profiles cfg (codes "/v1/scrape") load_config-Accepted_example unclaimed
