-- ===== src/Server.antt =====
-- server.go: healthzHandler and statusHandler. The logger only writes.
pub mod Laws
pub mod Log
pub mod Secret
pub mod Status
mod Tests
use api_key_rotator.Base.{
  ℕ, Bool, true, false, ◌&&◌, ◌||◌, List, [], ◌∷◌, ltb, length, if◌then◌else◌, ◌==◌, Option, none,
  some,
}
use api_key_rotator.Base.Text.{codes}
use api_key_rotator.Headers.{Header, header_set}
use api_key_rotator.Pool.Select.{any_usable}
use api_key_rotator.Pool.Snapshot.{PoolSnapshot, snapshot}
use api_key_rotator.Profile.State.{
  ProviderName, firecrawl, tavily, exa, apify, fmp, alphavantage, marketaux, Profile,
}

-- The test of one profile, whose pool is never nil.
unfoldable pub is_healthy : Profile → Bool
unfolding any_usable
is_healthy p = ltb 0 (length p.pool.slots) && any_usable p.pool

unfoldable pub any_healthy : List Profile → Bool
unfolding is_healthy
any_healthy [] = false
any_healthy (p ∷ ps) = is_healthy p || any_healthy ps

-- The status, and the value of "ok".
unfoldable pub healthz : List Profile → ℕ × Bool
unfolding any_healthy
healthz profiles = if any_healthy profiles then (200, true) else (503, false)

-- The seven names, told apart.
unfoldable pub order : ProviderName → ℕ
order firecrawl = 1
order tavily = 2
order exa = 3
order apify = 4
order fmp = 5
order alphavantage = 6
order marketaux = 7

abbrev pub Snaps : Type 0
Snaps = List (ProviderName × PoolSnapshot)

-- `snaps[name] = snap`
unfoldable pub put : ProviderName → PoolSnapshot → Snaps → Snaps
put name snap [] = (name, snap) ∷ []
put name snap ((n, s) ∷ snaps) =
    if order n == order name then (name, snap) ∷ snaps else (n, s) ∷ put name snap snaps

unfoldable pub lookup : ProviderName → Snaps → Option PoolSnapshot
lookup name [] = none
lookup name ((n, s) ∷ snaps) = if order n == order name then some s else lookup name snaps

unfoldable pub status_from : List Profile → Snaps → Snaps
unfolding put snapshot
status_from [] snaps = snaps
status_from (p ∷ ps) snaps = status_from ps (put p.name (snapshot p.pool) snaps)

-- The members of "profiles".
unfoldable pub status : List Profile → Snaps
unfolding status_from
status profiles = status_from profiles []

-- What writeJSON writes: the body is the value that is printed as JSON.
pub record JsonReply (V : Type 0) : Type 0 where
  pub status : ℕ
  pub header : Header
  pub body : V

unfoldable pub write_json : {V : Type 0} → ℕ → V → JsonReply V
unfolding header_set
write_json status v = record {
  status = status;
  header = header_set (codes "Content-Type") (codes "application/json") [];
  body = v;
}

unfoldable pub healthz_handler : List Profile → JsonReply Bool
unfolding write_json healthz
healthz_handler profiles = write_json (healthz profiles).0 (healthz profiles).1

unfoldable pub status_handler : List Profile → JsonReply Snaps
unfolding write_json status
status_handler profiles = write_json 200 (status profiles)
