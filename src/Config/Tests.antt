-- ===== src/Config/Tests.antt =====
-- Tests of config.go, and its theorems at concrete environments.
use api_key_rotator.Base.{◌≡◌, refl, true, false, [], ◌∷◌, some, if◌then◌else◌}
use api_key_rotator.Base.Text.{Bytes, codes, bytes_eq, trim_space, atoi, has_prefix}
use api_key_rotator.Config.{Environment, parse_keys, check_route_prefix, finance_daily_thresholds}

abbrev raw_keys : Bytes
raw_keys = codes "k1, ,k2 "

two_keys : parse_keys raw_keys ≡ codes "k1" ∷ codes "k2" ∷ []
unfolding parse_keys trim_space
two_keys = refl

fmp_accepted : check_route_prefix (codes "/fmp") ≡ true
unfolding check_route_prefix has_prefix bytes_eq
fmp_accepted = refl

status_refused : check_route_prefix (codes "/status") ≡ false
unfolding check_route_prefix has_prefix bytes_eq
status_refused = refl

-- Only the budget is set.
abbrev budget_only : Environment
budget_only name = if bytes_eq name (codes "FMP_DAILY_BUDGET") then codes "250" else []

budget_thresholds :
    finance_daily_thresholds budget_only
      (codes "FMP_LOW")
      (codes "FMP_STOP")
      (codes "FMP_DAILY_BUDGET")
      10
      1
    ≡ some (some 250, 10, 1)
unfolding finance_daily_thresholds bytes_eq trim_space atoi
budget_thresholds = refl
