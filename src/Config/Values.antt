-- ===== src/Config/Values.antt =====
-- config.go: envStr, envInt, envInt64, envUsd, envUsdCents, envUsdMicro, and the tests that the
-- loaders make of what these give. An int has 64 bits.
use api_key_rotator.Base.{ℕ, Bool, true, false, Option, none, some, ltb, if◌then◌else◌, ◌>>=◌}
use api_key_rotator.Base.Int.{ℤ, pos, negsuc}
use api_key_rotator.Base.Text.{Bytes, trim_space, atoi, is_empty}
use api_key_rotator.Urls.{Url, Urls, is_http}
use api_key_rotator.Floats.{Float, Floats}
use api_key_rotator.Config.{Environment, check_route_prefix}

-- `a < b`
unfoldable pub less : ℤ → ℤ → Bool
less (pos a) (pos b) = ltb a b
less (pos a) (negsuc b) = false
less (negsuc a) (pos b) = true
less (negsuc a) (negsuc b) = ltb b a

unfoldable pub env_str : Environment → Bytes → Bytes → Bytes
env_str env key def = if is_empty (trim_space (env key)) then def else trim_space (env key)

unfoldable pub env_int : Environment → Bytes → ℕ → Option ℤ
env_int env key def =
    if is_empty (trim_space (env key)) then some (pos def) else atoi (trim_space (env key))

unfoldable pub env_int64 : Environment → Bytes → ℕ → Option ℤ
env_int64 env key def =
    if is_empty (trim_space (env key)) then some (pos def) else atoi (trim_space (env key))

-- `if n < least { return error }`
unfoldable pub at_least : ℕ → Option ℤ → Option ℕ
at_least least none = none
at_least least (some (negsuc n)) = none
at_least least (some (pos n)) = if ltb n least then none else some n

-- `if n > most { return error }`
unfoldable pub at_most : ℕ → Option ℕ → Option ℕ
at_most most none = none
at_most most (some n) = if ltb most n then none else some n

-- A parsed amount of dollars that is not negative.
unfoldable pub dollars : Floats → Bytes → Option Float
dollars fl v = do f ← fl.parse_float v; if fl.is_negative f then none else some f

unfoldable pub env_usd : Floats → Environment → Bytes → Float → Option Float
unfolding dollars
env_usd fl env key def =
    if is_empty (trim_space (env key)) then some def else dollars fl (trim_space (env key))

unfoldable pub env_usd_cents : Floats → Environment → Bytes → ℤ → Option ℤ
unfolding dollars
env_usd_cents fl env key def =
    if is_empty (trim_space (env key))
    then some def
    else (do f ← dollars fl (trim_space (env key)); some (fl.rounded 100 f))

unfoldable pub env_usd_micro : Floats → Environment → Bytes → ℤ → Option ℤ
unfolding dollars
env_usd_micro fl env key def =
    if is_empty (trim_space (env key))
    then some def
    else (do f ← dollars fl (trim_space (env key)); some (fl.rounded 1000000 f))

-- The tests of an upstream URL, and of a route prefix that is not empty.
unfoldable pub http_url : Urls → Bytes → Option Url
http_url urls s = do u ← urls.parse s; if is_http u then some u else none

unfoldable pub route_prefix : Bytes → Option Bytes
route_prefix prefix = if check_route_prefix prefix then some prefix else none

-- `if stop > low { return error }`, of signed amounts.
unfoldable pub ordered : ℤ → ℤ → Option (ℤ × ℤ)
ordered low stop = if less low stop then none else some (low, stop)
