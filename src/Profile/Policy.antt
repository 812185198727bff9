-- ===== src/Profile/Policy.antt =====
-- profile.go: shouldRotate, isCreditExhausted and their helpers. The reason that shouldRotate also
-- returns is only logged.
pub mod Laws
use api_key_rotator.Base.{ℕ, Bool, true, false, not, ◌&&◌, ◌||◌, List, [], ◌∷◌, ◌==◌, if◌then◌else◌}
use api_key_rotator.Base.Text.{Bytes, codes, has_prefix, contains}
use api_key_rotator.Rotate.{reject_denylist, credit_exhausted_pattern, firecrawl_failure}
use api_key_rotator.Profile.State.{
  ProviderName, firecrawl, tavily, exa, apify, fmp, alphavantage, marketaux, Profile,
}

unfoldable pub fmp_is_restricted_endpoint : Bytes → Bool
fmp_is_restricted_endpoint body =
    has_prefix body (codes "Restricted Endpoint: This endpoint is not available")

unfoldable pub alpha_vantage_is_exhausted : Bytes → Bool
alpha_vantage_is_exhausted body =
    contains body (codes "\"Note\"") || contains body (codes "\"Information\"")

-- The statuses 401, 402 and 429.
abbrev pub rejects_key : ℕ → Bool
rejects_key status = status == 401 || status == 402 || status == 429

unfoldable pub should_rotate_as : ProviderName → ℕ → Bytes → Bool
should_rotate_as tavily status body =
    status == 401 || status == 429 || status == 432 || status == 433
should_rotate_as apify status body = rejects_key status
should_rotate_as exa status body = rejects_key status
should_rotate_as fmp status body =
    if status == 402 && fmp_is_restricted_endpoint body then false else rejects_key status
should_rotate_as alphavantage status body =
    if status == 200 && alpha_vantage_is_exhausted body then true else status == 401
should_rotate_as marketaux status body = rejects_key status
should_rotate_as firecrawl status body =
    if rejects_key status
    then true
    else if not (firecrawl_failure status body)
    then false
    else reject_denylist body

unfoldable pub should_rotate : Profile → ℕ → Bytes → Bool
unfolding should_rotate_as
should_rotate p status body = should_rotate_as p.name status body

unfoldable pub is_credit_exhausted_as : ProviderName → ℕ → Bytes → Bool
is_credit_exhausted_as tavily status body = status == 432 || status == 433
is_credit_exhausted_as apify status body = status == 402
is_credit_exhausted_as exa status body = status == 402
is_credit_exhausted_as fmp status body = status == 429
is_credit_exhausted_as alphavantage status body = status == 200 && alpha_vantage_is_exhausted body
is_credit_exhausted_as marketaux status body = status == 402
is_credit_exhausted_as firecrawl status body =
    if status == 402
    then true
    else if status == 429
    then false
    else if firecrawl_failure status body
    then credit_exhausted_pattern body
    else false

unfoldable pub is_credit_exhausted : Profile → ℕ → Bytes → Bool
unfolding is_credit_exhausted_as
is_credit_exhausted p status body = is_credit_exhausted_as p.name status body

unfoldable pub is_daily_capped_finance : ProviderName → Bool
is_daily_capped_finance fmp = true
is_daily_capped_finance alphavantage = true
is_daily_capped_finance marketaux = true
is_daily_capped_finance _ = false
