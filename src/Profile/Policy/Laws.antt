-- ===== src/Profile/Policy/Laws.antt =====
-- profile.go: how the rotation policy and the disabling of keys fit together.
use api_key_rotator.Base.{ℕ, ◌≤◌, ◌<◌, ◌≡◌, ◌⊎◌, true, false, some, arith}
use api_key_rotator.Base.Text.{Bytes}
use api_key_rotator.Json.Decode.{decode_success}
use api_key_rotator.Rotate.Laws.{credit_exhausted_pattern-denied, firecrawl_failure_success}
use api_key_rotator.Profile.State.{
  ProviderName, firecrawl, tavily, exa, apify, fmp, alphavantage, marketaux, Profile,
}
use api_key_rotator.Profile.Policy.{
  should_rotate, should_rotate_as, is_credit_exhausted, is_credit_exhausted_as,
}

exhausted_rotates :
    (name : ProviderName) (status : ℕ) (body : Bytes)
    → is_credit_exhausted_as name status body ≡ true
    → should_rotate_as name status body ≡ true
unfolding is_credit_exhausted_as should_rotate_as
exhausted_rotates firecrawl status body h = ground (arith, credit_exhausted_pattern-denied body)
exhausted_rotates tavily status body h = ground arith
exhausted_rotates exa status body h = ground arith
exhausted_rotates apify status body h = ground arith
exhausted_rotates fmp status body h = ground arith
exhausted_rotates alphavantage status body h = ground arith
exhausted_rotates marketaux status body h = ground arith

-- A response that means exhausted credits also makes the proxy rotate, for every provider: so the
-- check for it, which stands in the branch of a rotation, misses none.
pub is_credit_exhausted-should_rotate :
    (p : Profile) (status : ℕ) (body : Bytes)
    → is_credit_exhausted p status body ≡ true
    → should_rotate p status body ≡ true
unfolding is_credit_exhausted should_rotate
is_credit_exhausted-should_rotate p status body h = exhausted_rotates p.name status body h

-- A success of Firecrawl rotates never, whatever words its body holds: a status outside 400 to 499
-- with a body whose field `success` is true.
pub firecrawl_success_kept :
    (p : Profile) (status : ℕ) (body : Bytes)
    → p.name ≡ firecrawl
    → (status < 400) ⊎ (500 ≤ status)
    → decode_success body ≡ some (some true)
    → should_rotate p status body ≡ false
unfolding should_rotate should_rotate_as
firecrawl_success_kept p status body n h e =
    ground (arith, firecrawl_failure_success status body h e)

-- A rate limit (429) counts as exhausted credits for FMP alone, whose 429 is its daily cap.
pub rate_limit_exhausts :
    (p : Profile) (body : Bytes) → is_credit_exhausted p 429 body ≡ true → p.name ≡ fmp
unfolding is_credit_exhausted is_credit_exhausted_as
rate_limit_exhausts p body h = ground arith
