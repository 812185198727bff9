-- ===== src/Profile/Tests.antt =====
-- Tests of profile.go, and its theorems at concrete profiles and responses.
use api_key_rotator.Base.{◌>>=◌, ◌≡◌, ◌⊎◌, ◌↔◌, refl, true, false, [], ◌∷◌, none, some, All}
use api_key_rotator.Base.Text.{Bytes, codes, matches_any, bytes_eq, has_prefix}
use api_key_rotator.Rotate.{firecrawl_failure, credit_exhausted_pattern}
use api_key_rotator.Pool.State.{new_key_pool}
use api_key_rotator.Json.Decode.{decode_success}
use api_key_rotator.Profile.State.{Profile, ProviderName, firecrawl, tavily, fmp}
use api_key_rotator.Profile.Policy.{should_rotate, is_credit_exhausted}
use api_key_rotator.Profile.Policy.Laws.{is_credit_exhausted-should_rotate}
use api_key_rotator.Profile.Route.{match_profile, is_firecrawl}
use api_key_rotator.Base.Text.{is_empty}
use api_key_rotator.Profile.Route.Laws.{claims, Unclaimed, match_profile-eq-none_iff}

abbrev profile : ProviderName → Bytes → Profile
profile name prefix = record {
  name = name;
  route_prefix = prefix;
  upstream = codes "https://api.example.com";
  upstream_host = codes "api.example.com";
  credit_reset_day = 1;
  rewrite_next = false;
  keep_prefix = false;
  auth_query_param = [];
  auth_header = [];
  upstream_timeout = 0;
  apify_free_credit_usd = 0;
  concurrency_saturation = [];
  concurrency_queue = 0;
  max403_retries = 2;
  pool = new_key_pool (codes "k1" ∷ codes "k2" ∷ []);
}

abbrev fc : Profile
fc = profile firecrawl (codes "/firecrawl")

abbrev tv : Profile
tv = profile tavily (codes "/tavily")

abbrev daily : Profile
daily = profile fmp (codes "/fmp")

abbrev denied : Bytes
denied = codes "{\"success\":false,\"error\":\"Payment required\"}"

denied_exhausts : is_credit_exhausted fc 400 denied ≡ true
unfolding is_credit_exhausted firecrawl_failure credit_exhausted_pattern matches_any
denied_exhausts = refl

is_credit_exhausted-should_rotate_example : should_rotate fc 400 denied ≡ true
is_credit_exhausted-should_rotate_example =
    is_credit_exhausted-should_rotate fc 400 denied denied_exhausts

abbrev page : Bytes
page = codes "{\"success\":true,\"data\":\"rate limit exceeded\"}"

page_succeeds : decode_success page ≡ some (some true)
unfolding decode_success ◌>>=◌
page_succeeds = refl

limited : is_credit_exhausted daily 429 (codes "Limit Reach") ≡ true
unfolding is_credit_exhausted
limited = refl

abbrev search_path : Bytes
search_path = codes "/tavily/search"

not_firecrawl : Unclaimed search_path (fc ∷ [])
unfolding bytes_eq has_prefix
not_firecrawl = (refl, tt)

tavily_claims : claims search_path tv ≡ true
unfolding bytes_eq has_prefix
tavily_claims = refl

abbrev crawl_path : Bytes
crawl_path = codes "/v1/crawl"

unclaimed : Unclaimed crawl_path (fc ∷ tv ∷ [])
unfolding bytes_eq has_prefix
unclaimed = (refl, (refl, tt))

by_legacy : match_profile (fc ∷ tv ∷ []) crawl_path true ≡ some (fc, crawl_path)
unfolding match_profile bytes_eq has_prefix
by_legacy = refl

match_profile-eq-none_iff_example : (match_profile (fc ∷ tv ∷ []) crawl_path false ≡ none) ↔ (
    All (λ p. is_empty p.route_prefix ≡ false) (fc ∷ tv ∷ [])
    × ((false ≡ false) ⊎ All (λ p. is_firecrawl p.name ≡ false) (fc ∷ tv ∷ [])))
match_profile-eq-none_iff_example =
    match_profile-eq-none_iff crawl_path false (fc ∷ tv ∷ []) unclaimed
