-- ===== src/Start/Announce.antt =====
-- main.go: the line of the log that buildServer writes.
pub mod Secret
use api_key_rotator.Base.{ℕ, List, [], ◌∷◌, ◌++◌, length}
use api_key_rotator.Base.Int.{pos}
use api_key_rotator.Base.Text.{Bytes, codes}
use api_key_rotator.Config.State.{Config, TavilyConfig, ApifyConfig, ExaConfig, FinanceConfig}
use api_key_rotator.Server.Log.{Formats, LogValue, text, int, real, info}

unfoldable pub announced_tavily : TavilyConfig → List LogValue → List LogValue
announced_tavily t rest =
    text (codes "tavilyKeys")
    ∷ int (pos (length t.api_keys))
    ∷ text (codes "tavilyUpstream")
    ∷ text t.upstream
    ∷ text (codes "tavilyPrefix")
    ∷ text t.route_prefix
    ∷ rest

unfoldable pub announced_apify : ApifyConfig → List LogValue → List LogValue
announced_apify a rest =
    text (codes "apifyKeys")
    ∷ int (pos (length a.api_keys))
    ∷ text (codes "apifyUpstream")
    ∷ text a.upstream
    ∷ text (codes "apifyPrefix")
    ∷ text a.route_prefix
    ∷ text (codes "apifyTimeoutSec")
    ∷ int (pos a.timeout_sec)
    ∷ text (codes "apifyFreeCreditUsd")
    ∷ real a.free_credit_usd
    ∷ text (codes "apifyLowCents")
    ∷ int a.low_credit_cents
    ∷ text (codes "apifyStopCents")
    ∷ int a.stop_credit_cents
    ∷ rest

unfoldable pub announced_exa : ExaConfig → List LogValue → List LogValue
announced_exa x rest =
    text (codes "exaKeys")
    ∷ int (pos (length x.api_keys))
    ∷ text (codes "exaUpstream")
    ∷ text x.upstream
    ∷ text (codes "exaPrefix")
    ∷ text x.route_prefix
    ∷ text (codes "exaBudgetMicro")
    ∷ int x.budget_micro
    ∷ text (codes "exaLowMicro")
    ∷ int x.low_micro
    ∷ text (codes "exaStopMicro")
    ∷ int x.stop_micro
    ∷ rest

-- The values of one of the three daily-capped providers, each name behind `p`.
unfoldable pub announced_finance : Bytes → FinanceConfig → List LogValue → List LogValue
announced_finance p f rest =
    text (p ++ codes "Keys")
    ∷ int (pos (length f.api_keys))
    ∷ text (p ++ codes "Upstream")
    ∷ text f.upstream
    ∷ text (p ++ codes "Prefix")
    ∷ text f.route_prefix
    ∷ text (p ++ codes "DailyBudget")
    ∷ int (pos f.daily_budget)
    ∷ text (p ++ codes "Low")
    ∷ int (pos f.low_credit)
    ∷ text (p ++ codes "Stop")
    ∷ int (pos f.stop_credit)
    ∷ rest

unfoldable pub announced_shared : Config → List LogValue
announced_shared cfg =
    text (codes "creditResetDay")
    ∷ int (pos cfg.credit_reset_day)
    ∷ text (codes "lowCreditThreshold")
    ∷ int (pos cfg.low_credit_threshold)
    ∷ text (codes "stopCreditThreshold")
    ∷ int (pos cfg.stop_credit_threshold)
    ∷ text (codes "creditRefreshSec")
    ∷ int (pos cfg.credit_refresh_sec)
    ∷ text (codes "fcMaxConcurrentPerKey")
    ∷ int (pos cfg.firecrawl_max_concurrent_per_key)
    ∷ text (codes "fcConcurrencySaturation")
    ∷ text cfg.firecrawl_concurrency_saturation
    ∷ text (codes "fcConcurrencyQueueMs")
    ∷ int (pos cfg.firecrawl_concurrency_queue_ms)
    ∷ text (codes "fc403Retries")
    ∷ int (pos cfg.firecrawl403_retries)
    ∷ []

-- What the line says, for `n` profiles.
unfoldable pub announced : Config → ℕ → List LogValue
unfolding announced_tavily announced_apify announced_exa announced_finance announced_shared
announced cfg n =
    text (codes "profiles")
    ∷ int (pos n)
    ∷ text (codes "keys")
    ∷ int (pos (length cfg.api_keys))
    ∷ text (codes "upstream")
    ∷ text cfg.upstream
    ∷ text (codes "maxPasses")
    ∷ int (pos cfg.max_passes)
    ∷ announced_tavily cfg.tavily (
        announced_apify cfg.apify (
          announced_exa cfg.exa (
            announced_finance (codes "fmp") cfg.fmp (
              announced_finance (codes "alpha") cfg.alpha_vantage
                (announced_finance (codes "marketaux") cfg.marketaux (announced_shared cfg))))))

unfoldable pub announce : Formats → ℕ → Config → ℕ → Bytes
unfolding info announced
announce fmt now cfg n = info fmt now (codes "api-key-rotator starting") (announced cfg n)
