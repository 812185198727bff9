-- ===== src/Start/Announce/Secret.antt =====
-- main.go and server.go: which part of the keys leaves the process by the log and by /status.
use api_key_rotator.Base.{ℕ, suc, ◌≡◌, refl, ap, List, [], ◌∷◌, map, length}
use api_key_rotator.Base.Text.{Bytes}
use api_key_rotator.Config.State.{Config, FinanceConfig}
use api_key_rotator.Server.Log.{Formats}
use api_key_rotator.Start.Announce.{announce}

-- Every key replaced by the empty one.
abbrev pub blank : List Bytes → List Bytes
blank = map (λ _. [])

abbrev blank_finance : FinanceConfig → FinanceConfig
blank_finance f = record f { api_keys = blank f.api_keys }

abbrev pub without_keys : Config → Config
without_keys cfg = record cfg {
  api_keys = blank cfg.api_keys;
  tavily = record cfg.tavily { api_keys = blank cfg.tavily.api_keys };
  apify = record cfg.apify { api_keys = blank cfg.apify.api_keys };
  exa = record cfg.exa { api_keys = blank cfg.exa.api_keys };
  fmp = blank_finance cfg.fmp;
  alpha_vantage = blank_finance cfg.alpha_vantage;
  marketaux = blank_finance cfg.marketaux;
}

length-blank : (ks : List Bytes) → length (blank ks) ≡ length ks
length-blank [] = refl
length-blank (k ∷ ks) = ap suc (length-blank ks)

-- The line that buildServer logs is the same whatever the keys are: only how many each provider has
-- shows in it.
pub announce-without_keys :
    (fmt : Formats) (now : ℕ) (cfg : Config) (n : ℕ)
    → announce fmt now (without_keys cfg) n ≡ announce fmt now cfg n
unfolding announce
announce-without_keys fmt now cfg n = simp length-blank
