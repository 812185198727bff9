-- ===== src/Config/Accepted.antt =====
-- config.go: a configuration that LoadConfig accepts.
use api_key_rotator.Base.{
  ℕ, ◌≤◌, ◌≡◌, ◌≢◌, refl, true, false, List, [], ◌∷◌, Option, none, some, arith, All, bind-eq-some,
  none≢some, some_inj, sym, Bool-cases, inl, inr, subst,
}
use api_key_rotator.Base.Int.{ℤ, pos, negsuc}
use api_key_rotator.Base.Text.{Bytes, codes, is_empty}
use api_key_rotator.Urls.{Urls}
use api_key_rotator.Floats.{Floats}
use api_key_rotator.Config.{Environment, check_route_prefix, or_default}
use api_key_rotator.Config.Laws.{parse_keys_nonempty, Sane, finance_daily_thresholds-Sane}
use api_key_rotator.Config.State.{Config, TavilyConfig, ApifyConfig, ExaConfig, FinanceConfig}
use api_key_rotator.Config.Values.{less, env_str, at_least, at_most, route_prefix, ordered}
use api_key_rotator.Config.Providers.{
  load_tavily_config, load_apify_config, load_exa_config, load_finance_config, load_fmp_config,
  load_alpha_vantage_config, load_marketaux_config, above_zero,
}
use api_key_rotator.Config.Load.{required, firecrawl_prefix, load_config}

pub at_least-le : (k : ℕ) (o : Option ℤ) {n : ℕ} → at_least k o ≡ some n → k ≤ n
unfolding at_least
at_least-le k none e = cc
at_least-le k (some (negsuc m)) e = cc
at_least-le k (some (pos m)) e = ground arith

pub at_most-le : (k : ℕ) (o : Option ℕ) {n : ℕ} → at_most k o ≡ some n → n ≤ k
unfolding at_most
at_most-le k none e = cc
at_most-le k (some m) e = ground arith

at_most-eq : (k : ℕ) (o : Option ℕ) {n : ℕ} → at_most k o ≡ some n → o ≡ some n
unfolding at_most
at_most-eq k none e = cc
at_most-eq k (some m) e = ground arith

route_prefix-eq : (s : Bytes) {p : Bytes} → route_prefix s ≡ some p → check_route_prefix p ≡ true
unfolding route_prefix
route_prefix-eq s e = ground arith

firecrawl_prefix-eq :
    (s : Bytes) {p : Bytes}
    → is_empty s ≡ false
    → firecrawl_prefix s ≡ some p
    → check_route_prefix p ≡ true
unfolding firecrawl_prefix
firecrawl_prefix-eq s full e = route_prefix-eq s (rw full at e)

env_str-nonempty :
    (env : Environment) (key def : Bytes)
    → is_empty def ≡ false
    → is_empty (env_str env key def) ≡ false
unfolding env_str
env_str-nonempty env key def h = ground arith

ordered-less : (low stop : ℤ) {p : ℤ × ℤ} → ordered low stop ≡ some p → less p.0 p.1 ≡ false
unfolding ordered
ordered-less low stop e = elim (Bool-cases (less low stop)) [
  | inl above ↦ absurd (none≢some (rw above at e))
  | inr below ↦ subst (λ q. less q.0 q.1 ≡ false) (some_inj (rw below at e)) below
]

required-nonempty : (ks : List Bytes) {r : List Bytes} → required ks ≡ some r → (r ≡ ks) × (r ≢ [])
unfolding required
required-nonempty [] e = cc
required-nonempty (k ∷ ks) e = ground arith

-- What holds of the thresholds and the prefix of each provider.
pub record TavilyAccepted (t : TavilyConfig) : Type 0 where
  pub thresholds : t.stop_credit ≤ t.low_credit
  pub prefix : check_route_prefix t.route_prefix ≡ true

pub record ApifyAccepted (a : ApifyConfig) : Type 0 where
  pub thresholds : less a.low_credit_cents a.stop_credit_cents ≡ false
  pub timeout : 1 ≤ a.timeout_sec
  pub prefix : check_route_prefix a.route_prefix ≡ true

pub record ExaAccepted (e : ExaConfig) : Type 0 where
  pub thresholds : less e.low_micro e.stop_micro ≡ false
  pub budget : less (pos 0) e.budget_micro ≡ true
  pub prefix : check_route_prefix e.route_prefix ≡ true

pub record FinanceAccepted (f : FinanceConfig) : Type 0 where
  pub thresholds : f.stop_credit ≤ f.low_credit
  pub budget : 1 ≤ f.daily_budget
  pub prefix : check_route_prefix f.route_prefix ≡ true

load_tavily_config-TavilyAccepted :
    (env : Environment) (urls : Urls) (low stop retries : ℕ) {t : TavilyConfig}
    → load_tavily_config env urls low stop retries ≡ some t
    → TavilyAccepted t
unfolding load_tavily_config
load_tavily_config-TavilyAccepted env urls low stop retries {t} e0 =
    let (_, _, e1) = bind-eq-some _ _ e0 in
    let (prefix, p, e2) = bind-eq-some _ _ e1 in
    let (_, _, e3) = bind-eq-some _ _ e2 in
    let (_, _, e4) = bind-eq-some _ _ e3 in
    let (_, s, e5) = bind-eq-some _ _ e4 in
    subst TavilyAccepted (some_inj e5)
      (record { thresholds = at_most-le _ _ s; prefix = route_prefix-eq _ p })

load_apify_config-ApifyAccepted :
    (env : Environment) (urls : Urls) (fl : Floats) {a : ApifyConfig}
    → load_apify_config env urls fl ≡ some a
    → ApifyAccepted a
unfolding load_apify_config
load_apify_config-ApifyAccepted env urls fl {a} e0 =
    let (_, _, e1) = bind-eq-some _ _ e0 in
    let (prefix, p, e2) = bind-eq-some _ _ e1 in
    let (timeout, t, e3) = bind-eq-some _ _ e2 in
    let (_, _, e4) = bind-eq-some _ _ e3 in
    let (low, _, e5) = bind-eq-some _ _ e4 in
    let (stop, _, e6) = bind-eq-some _ _ e5 in
    let (_, o, e7) = bind-eq-some _ _ e6 in
    subst ApifyAccepted (some_inj e7) (record {
      thresholds = ordered-less low stop o;
      timeout = at_least-le 1 _ t;
      prefix = route_prefix-eq _ p;
    })

above_zero-less : (n : ℤ) {m : ℤ} → above_zero n ≡ some m → less (pos 0) m ≡ true
unfolding above_zero
above_zero-less n e = elim (Bool-cases (less (pos 0) n)) [
  | inl above ↦ subst (λ k. less (pos 0) k ≡ true) (some_inj (rw above at e)) above
  | inr below ↦ absurd (none≢some (rw below at e))
]

load_exa_config-ExaAccepted :
    (env : Environment) (urls : Urls) (fl : Floats) {x : ExaConfig}
    → load_exa_config env urls fl ≡ some x
    → ExaAccepted x
unfolding load_exa_config
load_exa_config-ExaAccepted env urls fl {x} e0 =
    let (_, _, e1) = bind-eq-some _ _ e0 in
    let (prefix, p, e2) = bind-eq-some _ _ e1 in
    let (budget, _, e3) = bind-eq-some _ _ e2 in
    let (low, _, e4) = bind-eq-some _ _ e3 in
    let (stop, _, e5) = bind-eq-some _ _ e4 in
    let (_, o, e6) = bind-eq-some _ _ e5 in
    let (_, b, e7) = bind-eq-some _ _ e6 in
    subst ExaAccepted (some_inj e7) (record {
      thresholds = ordered-less low stop o;
      budget = above_zero-less budget b;
      prefix = route_prefix-eq _ p;
    })

budget_positive :
    (def low stop : ℕ) (budget : Option ℕ)
    → 1 ≤ def
    → Sane budget low stop
    → (stop ≤ low) × (1 ≤ or_default def budget)
budget_positive def low stop none d s = (s, d)
budget_positive def low stop (some b) d s = (s.0, s.1)

load_finance_config-FinanceAccepted :
    (env : Environment) (urls : Urls) (keys upstream prefix ln sn bn : Bytes) (budget low stop : ℕ)
    {f : FinanceConfig}
    → 1 ≤ budget
    → load_finance_config env urls keys upstream prefix ln sn bn budget low stop ≡ some f
    → FinanceAccepted f
unfolding load_finance_config
load_finance_config-FinanceAccepted env urls keys upstream prefix ln sn bn budget low stop {f} d
      e0 =
    let (_, _, e1) = bind-eq-some _ _ e0 in
    let (_, p, e2) = bind-eq-some _ _ e1 in
    let (limits, l, e3) = bind-eq-some _ _ e2 in
    let (within, positive) =
      budget_positive budget limits.1 limits.2 limits.0 d
        (finance_daily_thresholds-Sane env ln sn bn low stop l) in
    subst FinanceAccepted (some_inj e3)
      (record { thresholds = within; budget = positive; prefix = route_prefix-eq _ p })

-- What LoadConfig has checked.
pub record Accepted (cfg : Config) : Type 0 where
  pub keys : cfg.api_keys ≢ []
  pub keys_nonempty : All (λ k. is_empty k ≡ false) cfg.api_keys
  pub passes : 1 ≤ cfg.max_passes
  pub reset_day : (1 ≤ cfg.credit_reset_day) × (cfg.credit_reset_day ≤ 31)
  pub thresholds : cfg.stop_credit_threshold ≤ cfg.low_credit_threshold
  pub refresh : 10 ≤ cfg.credit_refresh_sec
  pub prefix : check_route_prefix cfg.firecrawl_route_prefix ≡ true
  pub tavily : TavilyAccepted cfg.tavily
  pub apify : ApifyAccepted cfg.apify
  pub exa : ExaAccepted cfg.exa
  pub fmp : FinanceAccepted cfg.fmp
  pub alpha_vantage : FinanceAccepted cfg.alpha_vantage
  pub marketaux : FinanceAccepted cfg.marketaux

-- A configuration that LoadConfig accepts has at least one key and no empty one, at least one pass,
-- a reset day from 1 to 31, a refresh interval of 10 seconds or more, and, for Firecrawl and each
-- provider, a stop threshold that is not above the low one, a positive budget where there is one,
-- and a prefix that checkRoutePrefix accepts.
pub load_config-Accepted :
    (env : Environment) (urls : Urls) (fl : Floats) {cfg : Config}
    → load_config env urls fl ≡ some cfg
    → Accepted cfg
unfolding load_config load_fmp_config load_alpha_vantage_config load_marketaux_config
load_config-Accepted env urls fl {cfg} e =
    let (keys, k, e1) = bind-eq-some _ _ e in
    let (_, _, e2) = bind-eq-some _ _ e1 in
    let (_, passes, e3) = bind-eq-some _ _ e2 in
    let (_, _, e4) = bind-eq-some _ _ e3 in
    let (_, day, e5) = bind-eq-some _ _ e4 in
    let (_, _, e6) = bind-eq-some _ _ e5 in
    let (_, stop, e7) = bind-eq-some _ _ e6 in
    let (_, refresh, e8) = bind-eq-some _ _ e7 in
    let (_, _, e9) = bind-eq-some _ _ e8 in
    let (_, _, e10) = bind-eq-some _ _ e9 in
    let (_, tavily, e11) = bind-eq-some _ _ e10 in
    let (_, apify, e12) = bind-eq-some _ _ e11 in
    let (_, exa, e13) = bind-eq-some _ _ e12 in
    let (_, fmp, e14) = bind-eq-some _ _ e13 in
    let (_, alpha, e15) = bind-eq-some _ _ e14 in
    let (_, marketaux, e16) = bind-eq-some _ _ e15 in
    let (_, _, e17) = bind-eq-some _ _ e16 in
    let (_, _, e18) = bind-eq-some _ _ e17 in
    let (_, _, e19) = bind-eq-some _ _ e18 in
    let (_, prefix, e20) = bind-eq-some _ _ e19 in
    let (same, some_key) = required-nonempty _ k in
    subst Accepted (some_inj e20) (record {
      keys = some_key;
      keys_nonempty = subst (All (λ key. is_empty key ≡ false)) (sym same) (parse_keys_nonempty _);
      passes = at_least-le 1 _ passes;
      reset_day = (at_least-le 1 _ (at_most-eq 31 _ day), at_most-le 31 _ day);
      thresholds = at_most-le _ _ stop;
      refresh = at_least-le 10 _ refresh;
      prefix =
          firecrawl_prefix-eq _
            (env_str-nonempty env (codes "FIRECRAWL_ROUTE_PREFIX") (codes "/firecrawl") refl)
            prefix;
      tavily = load_tavily_config-TavilyAccepted env urls _ _ _ tavily;
      apify = load_apify_config-ApifyAccepted env urls fl apify;
      exa = load_exa_config-ExaAccepted env urls fl exa;
      fmp = load_finance_config-FinanceAccepted env urls _ _ _ _ _ _ 250 10 1 (omega arith) fmp;
      alpha_vantage =
          load_finance_config-FinanceAccepted env urls _ _ _ _ _ _ 25 5 1 (omega arith) alpha;
      marketaux =
          load_finance_config-FinanceAccepted env urls _ _ _ _ _ _ 100 10 1 (omega arith) marketaux;
    })
