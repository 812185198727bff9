-- ===== src/Server/Tests.antt =====
-- Tests of server.go: one pool with a key, one whose stop threshold is above the budget.
use api_key_rotator.Base.{
  some, get_elem?, ℕ, ◌≡◌, refl, ◌↔◌, true, false, List, [], ◌∷◌, none, All, map, ◌++◌,
}
use api_key_rotator.Base.Text.{codes}
use api_key_rotator.Pool.State.{new_key_pool, set_thresholds}
use api_key_rotator.Pool.Credits.{set_credits}
use api_key_rotator.Pool.Select.{current, any_usable}
use api_key_rotator.Config.State.{FinanceConfig}
use api_key_rotator.Profile.State.{fmp, marketaux, Profile}
use api_key_rotator.Profile.Build.{seed, finance_profile, build_profiles}
use api_key_rotator.Server.{healthz, status, status_handler, lookup}
use api_key_rotator.Config.Sample
use api_key_rotator.Pool.Snapshot.{snapshot}
use api_key_rotator.Server.Status.{status-shows}
use api_key_rotator.Server.Laws.{healthz_unusable_iff}
use api_key_rotator.Server.Log.{Formats, LogValue, text, int, newline, info, log, shown}
use api_key_rotator.Server.Log.Laws.{line_ends, line_ends-log}
use api_key_rotator.Server.Secret.{cut_profile, status-cut_profile}
use api_key_rotator.Base.Int.{pos}

abbrev limits : ℕ → FinanceConfig
limits stop = record {
  api_keys = codes "k" ∷ [];
  upstream = codes "https://api.marketaux.com";
  route_prefix = codes "/marketaux";
  daily_budget = 100;
  low_credit = 1000;
  stop_credit = stop;
}

abbrev served : List Profile
served =
    finance_profile fmp (codes "apikey") 1 (limits 500)
    ∷ finance_profile marketaux (codes "api_token") 1 (limits 1)
    ∷ []

healthy : ◌≡◌ {A = ℕ × _} (healthz served) (200, true)
unfolding healthz finance_profile seed set_credits set_thresholds new_key_pool any_usable
healthy = refl

abbrev unserved : List Profile
unserved = finance_profile fmp (codes "apikey") 1 (limits 500) ∷ []

healthz_unusable_iff_example :
    (healthz unserved ≡ (503, false)) ↔ All (λ p. (current 7 p.pool).1 ≡ none) unserved
healthz_unusable_iff_example = healthz_unusable_iff 7 unserved

status-cut_profile_example :
    (status (map cut_profile served) ≡ status served)
    × (healthz (map cut_profile served) ≡ healthz served)
status-cut_profile_example = status-cut_profile served

abbrev formats : Formats
formats = record { instant = λ t. codes "T"; float = λ f. codes "0" }

-- A path with a line end in it, as the escape %0A of a URL gives one.
abbrev forged : List LogValue
forged =
    text (codes "path")
    ∷ text (codes "/x" ++ newline ++ codes "[info] T req")
    ∷ text (codes "status")
    ∷ int (pos 200)
    ∷ []

-- One call writes two lines.
two_lines :
    info formats 5 (codes "req") forged
    ≡ (codes "[info] T req path=/x" ++ newline) ++ (codes "[info] T req status=200" ++ newline)
unfolding info
two_lines = refl

forged_lines : line_ends (log formats (codes "info") 5 (codes "req") forged) ≡ 2
unfolding shown
forged_lines = line_ends-log formats (codes "info") 5 (codes "req") forged

-- Firecrawl and FMP.
abbrev built : List Profile
built = build_profiles Sample.cfg

second : get_elem? built 1 ≡ some (finance_profile fmp (codes "apikey") 1 Sample.cfg.fmp)
unfolding build_profiles
second = refl

status-shows_example :
    ((status_handler built).status ≡ 200)
    × (lookup fmp (status_handler built).body
        ≡ some (snapshot (finance_profile fmp (codes "apikey") 1 Sample.cfg.fmp).pool))
unfolding finance_profile
status-shows_example =
    status-shows Sample.cfg built 1 {p = finance_profile fmp (codes "apikey") 1 Sample.cfg.fmp} refl
      second
