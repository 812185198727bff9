-- ===== src/Usage/Fetch.antt =====
-- creditusage.go: fetchUsage, fetchTavilyUsage, fetchApifyUsage and fetchUsageFor. The client is a
-- function of the URL, the header and the attempt; url.QueryEscape is a parameter.
use api_key_rotator.Base.{
  ℕ, zero, suc, ◌≤◌, arith, false, Option, if◌then◌else◌, ◌≡◌, refl, Bool, true, false, ◌++◌, ◌*◌,
  [], ◌∷◌,
}
use api_key_rotator.Base.Int.{negsuc}
use api_key_rotator.Base.Text.{Bytes, codes}
use api_key_rotator.Floats.{Floats}
use api_key_rotator.Headers.{Header}
use api_key_rotator.Pool.State.{KeyPool}
use api_key_rotator.Profile.State.{
  ProviderName, firecrawl, tavily, exa, apify, fmp, alphavantage, marketaux, Profile,
}
use api_key_rotator.Usage.{Usage, refresh_key}
use api_key_rotator.Usage.Retry.{no_usage, fetch_retrying}
use api_key_rotator.Usage.Retry.Laws.{fetch_retrying_count}
use api_key_rotator.Usage.Bodies.{
  Times, Reply, not_built, usage_once, read_firecrawl, read_tavily, read_apify,
}

-- What the requests rest on.
pub record Net : Type 0 where
  pub do_request : Bytes → Header → ℕ → Reply
  pub query_escape : Bytes → Bytes
  pub times : Times
  pub floats : Floats

-- The limit of the bodies that Firecrawl and Tavily answer with.
abbrev pub small_body : ℕ
small_body = 64 * 1024

-- The header with the key, and the one without.
abbrev pub accept : Header
accept = (codes "Accept", codes "application/json" ∷ []) ∷ []

abbrev pub bearer : Bytes → Header
bearer key = (codes "Authorization", (codes "Bearer " ++ key) ∷ []) ∷ accept

-- Whether an attempt has got as far as to send its request.
abbrev is_sent : Reply → Bool
is_sent (not_built e) = false
is_sent _ = true

-- The requests that the first `attempts` attempts send.
unfoldable pub requests : (ℕ → Reply) → ℕ → ℕ
requests replies zero = 0
requests replies (suc a) =
    if is_sent (replies a) then suc (requests replies a) else requests replies a

-- The three functions, for the reply of each attempt: the usage, and the number of requests sent.
unfoldable pub fetch_with : ℕ → (Bytes → Option Usage) → (ℕ → Reply) → Usage × ℕ
unfolding fetch_retrying usage_once requests
fetch_with limit read replies =
    let (u, attempts) = fetch_retrying (λ a. usage_once limit read (replies a)) in
    (u, requests replies attempts)

unfoldable pub fetch_usage : Net → Bytes → Bytes → Usage × ℕ
unfolding fetch_with read_firecrawl
fetch_usage net upstream key =
    fetch_with small_body (read_firecrawl net.times)
      (net.do_request (upstream ++ codes "/v2/team/credit-usage") (bearer key))

unfoldable pub fetch_tavily_usage : Net → Bytes → Bytes → Usage × ℕ
unfolding fetch_with read_tavily
fetch_tavily_usage net upstream key =
    fetch_with small_body read_tavily (net.do_request (upstream ++ codes "/usage") (bearer key))

unfoldable pub fetch_apify_usage : Net → Profile → Bytes → Usage × ℕ
unfolding fetch_with read_apify
fetch_apify_usage net p key =
    fetch_with (256 * 1024) (read_apify net.floats net.times p.apify_free_credit_usd) (
      net.do_request (p.upstream ++ codes "/v2/users/me/limits?token=" ++ net.query_escape key)
        accept)

abbrev pub dispatched : ProviderName → Net → Profile → Bytes → Usage × ℕ
dispatched tavily net p key = fetch_tavily_usage net p.upstream key
dispatched apify net p key = fetch_apify_usage net p key
dispatched firecrawl net p key = fetch_usage net p.upstream key
dispatched exa net p key = (no_usage, 0)
dispatched fmp net p key = (no_usage, 0)
dispatched alphavantage net p key = (no_usage, 0)
dispatched marketaux net p key = (no_usage, 0)

unfoldable pub fetch_usage_for : Net → Profile → Bytes → Usage × ℕ
unfolding fetch_usage fetch_tavily_usage fetch_apify_usage
fetch_usage_for net p key = dispatched p.name net p key

requests-le : (replies : ℕ → Reply) (n : ℕ) → requests replies n ≤ n
unfolding requests
requests-le replies zero = omega arith
requests-le replies (suc n) = ground (arith, requests-le replies n)

fetch_with_bounded :
    (limit : ℕ) (read : Bytes → Option Usage) (replies : ℕ → Reply)
    → (fetch_with limit read replies).1 ≤ 4
unfolding fetch_with
fetch_with_bounded limit read replies =
    omega
      (arith, requests-le replies _, fetch_retrying_count (λ a. usage_once limit read (replies a)))

dispatched_bounded :
    (name : ProviderName) (net : Net) (p : Profile) (key : Bytes)
    → (dispatched name net p key).1 ≤ 4
unfolding fetch_usage fetch_tavily_usage fetch_apify_usage
dispatched_bounded firecrawl net p key =
    fetch_with_bounded small_body (read_firecrawl net.times)
      (net.do_request (p.upstream ++ codes "/v2/team/credit-usage") (bearer key))
dispatched_bounded tavily net p key =
    fetch_with_bounded small_body read_tavily
      (net.do_request (p.upstream ++ codes "/usage") (bearer key))
dispatched_bounded apify net p key =
    fetch_with_bounded (256 * 1024) (read_apify net.floats net.times p.apify_free_credit_usd) (
      net.do_request (p.upstream ++ codes "/v2/users/me/limits?token=" ++ net.query_escape key)
        accept)
dispatched_bounded exa net p key = omega arith
dispatched_bounded fmp net p key = omega arith
dispatched_bounded alphavantage net p key = omega arith
dispatched_bounded marketaux net p key = omega arith

-- One look at a usage endpoint sends at most four requests.
pub fetch_usage_for_bounded :
    (net : Net) (p : Profile) (key : Bytes) → (fetch_usage_for net p key).1 ≤ 4
unfolding fetch_usage_for
fetch_usage_for_bounded net p key = dispatched_bounded p.name net p key

-- The providers whose balance is accounted from a budget, as they have no endpoint to ask.
abbrev pub is_accounted : ProviderName → Bool
is_accounted firecrawl = false
is_accounted tavily = false
is_accounted apify = false
is_accounted _ = true

dispatched-accounted :
    (name : ProviderName) (net : Net) (p : Profile) (key : Bytes)
    → is_accounted name ≡ true
    → dispatched name net p key ≡ (no_usage, 0)
dispatched-accounted exa net p key h = refl
dispatched-accounted fmp net p key h = refl
dispatched-accounted alphavantage net p key h = refl
dispatched-accounted marketaux net p key h = refl
dispatched-accounted firecrawl net p key h = cc
dispatched-accounted tavily net p key h = cc
dispatched-accounted apify net p key h = cc

-- For Exa, FMP, Alpha Vantage and Marketaux no request is sent, and refreshKey leaves the accounted
-- balances of the pool alone and reports a failure.
pub fetch_usage_for_accounted :
    (net : Net) (p : Profile) (key : Bytes) (i : ℕ) (pool : KeyPool)
    → is_accounted p.name ≡ true
    → (◌≡◌ {A = Usage × ℕ} (fetch_usage_for net p key) (no_usage, 0))
      × (refresh_key i (fetch_usage_for net p key).0 pool ≡ (pool, negsuc 0))
unfolding fetch_usage_for refresh_key
fetch_usage_for_accounted net p key i pool h =
    let none' = dispatched-accounted p.name net p key h in (none', rw none' refl)
