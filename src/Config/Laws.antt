-- ===== src/Config/Laws.antt =====
-- config.go: what holds of a configuration that is accepted.
use api_key_rotator.Base.{
  ℕ, ◌≡◌, ◌≤◌, inl, inr, refl, true, false, List, [], ◌∷◌, Option, none, some, arith, All,
  Bool-cases, length, ap,
}
use api_key_rotator.Base.Text.{Bytes, codes, bytes_eq, has_prefix, trim_space}
use api_key_rotator.Base.Text.{is_empty, slash}
use api_key_rotator.Config.{
  Environment, split_commas, keep_keys, parse_keys, ends_in_slash, check_route_prefix,
  parse_opt_int64, parse_daily_budget, check_thresholds, resolve_thresholds,
  finance_daily_thresholds,
}

keep_keys_nonempty : (parts : List Bytes) → All (λ k. is_empty k ≡ false) (keep_keys parts)
unfolding keep_keys
keep_keys_nonempty [] = tt
keep_keys_nonempty (part ∷ parts) = elim (Bool-cases (is_empty (trim_space part))) [
  | inl empty ↦ rw empty (keep_keys_nonempty parts)
  | inr full ↦ rw full (full, keep_keys_nonempty parts)
]

abbrev pub Sane : Option ℕ → ℕ → ℕ → Type 0
Sane none low stop = stop ≤ low
Sane (some budget) low stop = (stop ≤ low) × (1 ≤ budget) × (stop ≤ budget)

check_thresholds_within :
    (b : Option ℕ) (l s : ℕ) {budget : Option ℕ} {low stop : ℕ}
    → check_thresholds b l s ≡ some (budget, low, stop)
    → (b ≡ budget) × (stop ≤ low) × ((n : ℕ) → budget ≡ some n → stop ≤ n)
unfolding check_thresholds
check_thresholds_within none l s e = (ground arith, ground arith, λ n h. ground arith)
check_thresholds_within (some b) l s e = (ground arith, ground arith, λ n h. ground arith)

check_thresholds-Sane :
    (b : Option ℕ) (l s : ℕ) {budget : Option ℕ} {low stop : ℕ}
    → ((n : ℕ) → b ≡ some n → 1 ≤ n)
    → check_thresholds b l s ≡ some (budget, low, stop)
    → Sane budget low stop
check_thresholds-Sane b l s {budget = none} positive e = (check_thresholds_within b l s e).1
check_thresholds-Sane b l s {budget = some n} positive e =
    let (same, low, within) = check_thresholds_within b l s e in
    (low, positive n same, within n refl)

resolve_thresholds-Sane :
    (dl ds : ℕ) (b l s : Option (Option ℕ)) {budget : Option ℕ} {low stop : ℕ}
    → ((n : ℕ) → b ≡ some (some n) → 1 ≤ n)
    → resolve_thresholds dl ds b l s ≡ some (budget, low, stop)
    → Sane budget low stop
unfolding resolve_thresholds
resolve_thresholds-Sane dl ds none l s k e = cc
resolve_thresholds-Sane dl ds (some b) none s k e = cc
resolve_thresholds-Sane dl ds (some b) (some l) none k e = cc
resolve_thresholds-Sane dl ds (some b) (some l) (some s) k e =
    check_thresholds-Sane b _ _ (λ n h. k n (ap some h)) e

parse_daily_budget_positive :
    (env : Environment) (name : Bytes) (n : ℕ) → parse_daily_budget env name ≡ some (some n) → 1 ≤ n
unfolding parse_daily_budget
parse_daily_budget_positive env name n e = ground arith

-- The thresholds of a daily-capped provider that are accepted: the stop threshold is at most the
-- low one, and, where a budget is set, the budget is positive and the stop threshold at most it.
pub finance_daily_thresholds-Sane :
    (env : Environment) (low_name stop_name budget_name : Bytes) (def_low def_stop : ℕ)
    {budget : Option ℕ} {low stop : ℕ}
    → finance_daily_thresholds env low_name stop_name budget_name def_low def_stop
      ≡ some (budget, low, stop)
    → Sane budget low stop
unfolding finance_daily_thresholds
finance_daily_thresholds-Sane env ln sn bn dl ds e =
    resolve_thresholds-Sane dl ds (parse_daily_budget env bn) (parse_opt_int64 env ln)
      (parse_opt_int64 env sn) (parse_daily_budget_positive env bn) e

-- No key that parseKeys returns is empty, whatever text it is given.
pub parse_keys_nonempty : (raw : Bytes) → All (λ k. is_empty k ≡ false) (parse_keys raw)
unfolding parse_keys
parse_keys_nonempty raw = keep_keys_nonempty (split_commas raw)

-- A prefix that is accepted begins with a slash and does not end in one, is no bare slash, and is
-- neither of the paths that the server keeps for itself.
pub check_route_prefix_accepts :
    (prefix : Bytes)
    → check_route_prefix prefix ≡ true
    → (has_prefix prefix slash ≡ true)
      × (2 ≤ length prefix)
      × (ends_in_slash prefix ≡ false)
      × (bytes_eq prefix (codes "/healthz") ≡ false)
      × (bytes_eq prefix (codes "/status") ≡ false)
unfolding check_route_prefix
check_route_prefix_accepts prefix e = ground arith
