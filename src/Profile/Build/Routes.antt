-- ===== src/Profile/Build/Routes.antt =====
-- profile.go: the route prefixes of the profiles that buildProfiles makes.
use api_key_rotator.Base.{
  ◌≡◌, refl, Bool, true, false, List, [], ◌∷◌, Option, none, some, arith, All, if◌then◌else◌,
}
use api_key_rotator.Base.Text.{Bytes, is_empty, has_prefix}
use api_key_rotator.Config.{check_route_prefix}
use api_key_rotator.Config.State.{Config}
use api_key_rotator.Config.Accepted.{Accepted}
use api_key_rotator.Profile.State.{Profile}
use api_key_rotator.Profile.Route.{is_firecrawl, match_profile}
use api_key_rotator.Profile.Route.Laws.{
  Unclaimed, last_firecrawl, match_from-Unclaimed, last_default_prefixed,
}
use api_key_rotator.Profile.Build.{
  firecrawl_profile, tavily_profile, exa_profile, apify_profile, finance_profile, other_profiles,
  build_profiles,
}
use api_key_rotator.Profile.Build.Seeds.{All-other_profiles}

check_route_prefix-nonempty : (s : Bytes) → check_route_prefix s ≡ true → is_empty s ≡ false
unfolding check_route_prefix has_prefix
check_route_prefix-nonempty [] h = cc
check_route_prefix-nonempty (c ∷ s) h = refl

last_firecrawl_others :
    (ps : List Profile) (fc : Option Profile)
    → All (λ p. is_firecrawl p.name ≡ false) ps
    → last_firecrawl fc ps ≡ fc
last_firecrawl_others [] fc h = refl
last_firecrawl_others (p ∷ ps) fc h = ground (arith, last_firecrawl_others ps fc h.1, h.0)

-- A list of profiles with a prefix, of which the first alone is Firecrawl.
match_profile_one_firecrawl :
    (path : Bytes) (legacy : Bool) (p : Profile) (ps : List Profile)
    → is_firecrawl p.name ≡ true
    → is_empty p.route_prefix ≡ false
    → All (λ o. is_empty o.route_prefix ≡ false) ps
    → All (λ o. is_firecrawl o.name ≡ false) ps
    → Unclaimed path (p ∷ ps)
    → match_profile (p ∷ ps) path legacy ≡ (if legacy then some (p, path) else none)
unfolding match_profile
match_profile_one_firecrawl path legacy p ps named here prefixed others u = ground (
  arith,
  match_from-Unclaimed path legacy (p ∷ ps) none none u,
  last_default_prefixed ps none prefixed,
  last_firecrawl_others ps (some p) others,
)

-- No prefix is empty, and Firecrawl stands first and alone.
others_prefixed :
    (cfg : Config) → Accepted cfg → All (λ p. is_empty p.route_prefix ≡ false) (other_profiles cfg)
unfolding tavily_profile exa_profile apify_profile finance_profile
others_prefixed cfg a =
    All-other_profiles (λ p. is_empty p.route_prefix ≡ false) cfg
      (check_route_prefix-nonempty _ a.tavily.prefix) (check_route_prefix-nonempty _ a.exa.prefix)
      (check_route_prefix-nonempty _ a.apify.prefix) (check_route_prefix-nonempty _ a.fmp.prefix)
      (check_route_prefix-nonempty _ a.alpha_vantage.prefix)
      (check_route_prefix-nonempty _ a.marketaux.prefix)

others_named : (cfg : Config) → All (λ p. is_firecrawl p.name ≡ false) (other_profiles cfg)
unfolding tavily_profile exa_profile apify_profile finance_profile
others_named cfg =
    All-other_profiles (λ p. is_firecrawl p.name ≡ false) cfg refl refl refl refl refl refl

-- With the profiles of an accepted configuration, a path that no profile claims goes to Firecrawl
-- as it is when the legacy fallback is on, and has no profile when it is off.
pub match_profile-build_profiles :
    (cfg : Config) (path : Bytes)
    → Accepted cfg
    → Unclaimed path (build_profiles cfg)
    → match_profile (build_profiles cfg) path cfg.firecrawl_legacy_fallback
      ≡ (if cfg.firecrawl_legacy_fallback then some (firecrawl_profile cfg, path) else none)
unfolding match_profile build_profiles firecrawl_profile
match_profile-build_profiles cfg path a u =
    match_profile_one_firecrawl path cfg.firecrawl_legacy_fallback (firecrawl_profile cfg)
      (other_profiles cfg) refl (check_route_prefix-nonempty cfg.firecrawl_route_prefix a.prefix)
      (others_prefixed cfg a) (others_named cfg) u
