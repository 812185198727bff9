-- ===== src/Profile/Route.antt =====
-- profile.go: matchProfile.
pub mod Laws
use api_key_rotator.Base.{
  ℕ, Bool, true, false, not, ◌&&◌, ◌||◌, List, [], ◌∷◌, ◌++◌, Option, none, some, if◌then◌else◌,
  length, drop,
}
use api_key_rotator.Base.Text.{is_empty, slash, Bytes, codes, bytes_eq, has_prefix}
use api_key_rotator.Profile.State.{ProviderName, firecrawl, Profile}

abbrev pub is_firecrawl : ProviderName → Bool
is_firecrawl firecrawl = true
is_firecrawl _ = false

-- What follows the loop: a catch-all profile, else Firecrawl if the fallback allows it.
abbrev pub fallback : Bytes → Bool → Option Profile → Option Profile → Option (Profile × Bytes)
fallback path legacy (some default) fc = some (default, path)
fallback path legacy none none = none
fallback path legacy none (some p) = if legacy then some (p, path) else none

-- The loop, with the variables `def` and `firecrawl`.
unfoldable pub match_from :
    List Profile → Bytes → Bool → Option Profile → Option Profile → Option (Profile × Bytes)
match_from [] path legacy default fc = fallback path legacy default fc
match_from (p ∷ ps) path legacy default fc =
    let caught = match_from ps path legacy (some p) fc in
    let passed = match_from ps path legacy default (if is_firecrawl p.name then some p else fc) in
    if is_empty p.route_prefix
    then caught
    else if bytes_eq path p.route_prefix
    then some (p, if p.keep_prefix then path else slash)
    else if has_prefix path (p.route_prefix ++ slash)
    then some (p, if p.keep_prefix then path else drop (length p.route_prefix) path)
    else passed

unfoldable pub match_profile : List Profile → Bytes → Bool → Option (Profile × Bytes)
unfolding match_from
match_profile profiles path legacy = match_from profiles path legacy none none
