-- ===== src/Usage/Tests.antt =====
-- Tests of creditusage.go: bodies of the usage endpoints, and its theorems at concrete answers.
use api_key_rotator.Base.{
  ◌↔◌, ℕ, zero, suc, ◌≤◌, ◌≡◌, refl, true, false, [], ◌∷◌, none, some, ◌>>=◌,
}
use api_key_rotator.Base.Int.{pos, negsuc, minus_int64}
use api_key_rotator.Base.Text.{Bytes, codes, atoi}
use api_key_rotator.Floats.{Floats, zero_float}
use api_key_rotator.Pool.State.{KeyPool, new_key_pool}
use api_key_rotator.Profile.State.{exa, Profile}
use api_key_rotator.Usage.{Usage}
use api_key_rotator.Usage.Retry.{should_retry_usage, fetch_retrying}
use api_key_rotator.Usage.Retry.Laws.{Succeeds, fetch_retrying_lem}
use api_key_rotator.Usage.Tavily.{tavily_remaining}
use api_key_rotator.Usage.Bodies.{
  Reply, reply, ending, usage_once, read_firecrawl, read_tavily, extract_exa_cost_micro,
}
use api_key_rotator.Usage.Fetch.{Net, small_body, fetch_tavily_usage}

abbrev team : Bytes
team = codes "{\"success\":true,\"data\":{\"remainingCredits\":42,\"billingPeriodEnd\":\"E\"}}"

firecrawl_read : read_firecrawl (λ s. some 7) team ≡ some (ending (pos 42) (some 7))
unfolding read_firecrawl ◌>>=◌ atoi
firecrawl_read = refl

abbrev limits : Bytes
limits =
    codes
      "{\"key\":{\"usage\":10,\"limit\":null},\"account\":{\"plan_usage\":30,\"plan_limit\":100}}"

tavily_read : read_tavily limits ≡ some (ending (pos 70) none)
unfolding read_tavily ◌>>=◌ atoi minus_int64
tavily_read = refl

tavily_unmeasured : read_tavily (codes "{}") ≡ none
unfolding read_tavily ◌>>=◌
tavily_unmeasured = refl

-- The difference of the extreme numbers of int64 wraps to -1, which counts as 0.
tavily_wraps :
    tavily_remaining
      (some (negsuc 9223372036854775807))
      (some (pos 9223372036854775807))
      none
      none
      none
      none
    ≡ some 0
unfolding tavily_remaining minus_int64
tavily_wraps = refl

-- The client answers 503 once, and the limits from then on.
abbrev floats : Floats
floats = record {
  parse_float = λ s. none;
  is_negative = λ f. false;
  at_most_zero = λ f. true;
  minus = λ f g. zero_float;
  rounded = λ k f. pos 0;
}

abbrev busy_once : ℕ → Reply
busy_once zero = reply 503 []
busy_once (suc a) = reply 200 limits

abbrev net : Net
net = record {
  do_request = λ url header a. busy_once a;
  query_escape = λ s. s;
  times = λ s. none;
  floats = floats;
}

second_attempt :
    ◌≡◌ {A = Usage × ℕ} (fetch_tavily_usage net (codes "u") (codes "k")) (ending (pos 70) none, 2)
unfolding fetch_tavily_usage ◌>>=◌ should_retry_usage minus_int64
second_attempt = refl

abbrev once : ℕ → Usage × Bytes
once a = usage_once small_body read_tavily (busy_once a)

fetch_retrying_lem_example :
    (1 ≤ (fetch_retrying once).1)
    × ((fetch_retrying once).1 ≤ 4)
    × (((fetch_retrying once ≡ (ending (pos 70) none, 2)) × (true ≡ true))
        ↔ ((a : ℕ) × (a ≤ 3) × (2 ≡ suc a) × Succeeds once 0 a (ending (pos 70) none)))
fetch_retrying_lem_example = fetch_retrying_lem once (ending (pos 70) none) 2

abbrev exa_keys : KeyPool
exa_keys = new_key_pool (codes "k" ∷ [])

abbrev p : Profile
p = record {
  name = exa;
  route_prefix = codes "/exa";
  upstream = codes "https://api.exa.ai";
  upstream_host = codes "api.exa.ai";
  credit_reset_day = 1;
  rewrite_next = false;
  keep_prefix = false;
  auth_query_param = [];
  auth_header = codes "x-api-key";
  upstream_timeout = 0;
  apify_free_credit_usd = zero_float;
  concurrency_saturation = [];
  concurrency_queue = 0;
  max403_retries = 0;
  pool = exa_keys;
}

cost : extract_exa_cost_micro floats (codes "{\"costDollars\":{\"total\":null}}") ≡ negsuc 0
unfolding extract_exa_cost_micro ◌>>=◌
cost = refl
