-- ===== src/Start/Tests.antt =====
-- Tests of main.go and transport.go.
use api_key_rotator.Base.{
  List, ◌∷◌, ℕ, All, Option, ◌≡◌, refl, ◌↔◌, [], none, some, if◌then◌else◌, drop, false, true,
}
use api_key_rotator.Base.Int.{pos}
use api_key_rotator.Base.Text.{Bytes, codes, bytes_eq, has_prefix}
use api_key_rotator.Urls.{Url, Urls}
use api_key_rotator.Floats.{Floats, zero_float}
use api_key_rotator.Config.{Environment}
use api_key_rotator.Config.Load.{load_config}
use api_key_rotator.Start.{through, egress, build_server}
use api_key_rotator.Config.Sample
use api_key_rotator.Pool.Select.{current, any_usable}
use api_key_rotator.Server.{healthz}
use api_key_rotator.Profile.State.{Profile, fmp}
use api_key_rotator.Profile.Build.{seed, finance_profile}
use api_key_rotator.Pool.State.{new_key_pool, set_thresholds}
use api_key_rotator.Pool.Credits.{set_credits}
use api_key_rotator.Server.Log.{Formats}
use api_key_rotator.Start.Run.{health_url, main}
use api_key_rotator.Start.Run.Health.{main-healthz}
use api_key_rotator.Start.Laws.{build_server-eq-none_iff}

-- One key, and a proxy.
abbrev env : Environment
env name =
    if bytes_eq name (codes "FIRECRAWL_API_KEYS")
    then codes "k1"
    else if bytes_eq name (codes "UPSTREAM_PROXY")
    then codes "socks5h://p"
    else []

abbrev parse : Bytes → Url
parse s =
    if has_prefix s (codes "socks5h://")
    then record { scheme = codes "socks5h"; host = drop 10 s; rest = [] }
    else record { scheme = codes "https"; host = drop 8 s; rest = [] }

abbrev urls : Urls
urls = record { parse = λ s. some (parse s); print = λ u. u.host }

abbrev floats : Floats
floats = record {
  parse_float = λ s. none;
  is_negative = λ f. false;
  at_most_zero = λ f. true;
  minus = λ f g. zero_float;
  rounded = λ k f. pos 0;
}

normalized :
    egress urls (codes "socks5h://p")
    ≡ some (through (record { scheme = codes "socks5"; host = codes "p"; rest = [] }))
unfolding bytes_eq has_prefix
normalized = refl

build_server-eq-none_iff_example :
    (build_server env urls floats ≡ none) ↔ (load_config env urls floats ≡ none)
build_server-eq-none_iff_example = build_server-eq-none_iff env urls floats

abbrev formats : Formats
formats = record { instant = λ t. codes "T"; float = λ f. codes "0" }

-- The key of FMP in the sample has less than its stop threshold.
abbrev starved : List Profile
starved = finance_profile fmp (codes "apikey") 1 Sample.cfg.fmp ∷ []

-- /healthz answers 503 at the port of the configuration.
abbrev answers : Bytes → Option ℕ
answers url = if bytes_eq url (codes "http://127.0.0.1:8788/healthz") then some 503 else none

asked_there : answers (health_url Sample.cfg) ≡ some (healthz starved).0
unfolding bytes_eq healthz finance_profile seed set_credits set_thresholds new_key_pool any_usable
asked_there = refl

main-healthz_example :
    ((main Sample.env Sample.urls Sample.floats answers (λ srv. true) true ≡ 1)
      ↔ All (λ p. (current 5 p.pool).1 ≡ none) starved)
    × ((main Sample.env Sample.urls Sample.floats answers (λ srv. true) true ≡ 0)
        ↔ (¬ All (λ p. (current 5 p.pool).1 ≡ none) starved))
main-healthz_example =
    main-healthz Sample.env Sample.urls Sample.floats answers (λ srv. true) 5 starved
      {cfg = Sample.cfg} Sample.loaded asked_there
