-- ===== src/Refresh/Tests.antt =====
-- Tests of refresh.go and of disableUntilReset (creditusage.go), with their theorems at concrete
-- states.
use api_key_rotator.Base.{
  ℕ, zero, suc, ◌≢◌, ◌↔◌, All, get_elem?, ◌+◌, ◌≡◌, ◌≤◌, refl, true, false, [], ◌∷◌, none, some,
  arith, inl, inr,
}
use api_key_rotator.Base.Int.{pos, pos_part}
use api_key_rotator.Base.Text.{codes}
use api_key_rotator.Pool.State.{KeyPool, new_key_pool, new_slot, unmeasured}
use api_key_rotator.Pool.Credits.{set_credits, predicted_remaining}
use api_key_rotator.Profile.State.{Profile, firecrawl}
use api_key_rotator.Usage.{Usage, Calendar, reset_at}
use api_key_rotator.Usage.Laws.{reset_at_bounds}
use api_key_rotator.Refresh.{Refresher, low_mark, is_fresh, is_below, maybe_refresh_low}
use api_key_rotator.Usage.Retry.{no_usage}
use api_key_rotator.Refresh.WarmUp.{refresh_all, warm_up}
use api_key_rotator.Refresh.WarmUp.Ends.{IsMeasured, Served, warm_up_ends}
use api_key_rotator.Refresh.WarmUp.Laws.{measured_by, refresh_all-get_elem?}
use api_key_rotator.Refresh.Laws.{maybe_refresh_low_again}

abbrev pool : KeyPool
pool = set_credits 1 (pos 40) (new_key_pool (codes "k1" ∷ codes "k2" ∷ []))

abbrev idle : Refresher
idle = record {
  low_interval = 60;
  last_low = none ∷ some 5 ∷ [];
  last_daily = none ∷ some 7 ∷ [];
  spawned = [];
}

low : is_below (low_mark firecrawl) (predicted_remaining 1 pool) ≡ true
unfolding low_mark predicted_remaining set_credits new_key_pool
low = refl

stale : is_fresh idle.low_interval 100 (some 5) ≡ false
unfolding is_fresh
stale = refl

maybe_refresh_low_again_example :
    ((maybe_refresh_low firecrawl 1 100 pool idle).spawned ≡ 1 ∷ [])
    × (maybe_refresh_low firecrawl 1 130 pool (maybe_refresh_low firecrawl 1 100 pool idle)
        ≡ maybe_refresh_low firecrawl 1 100 pool idle)
maybe_refresh_low_again_example =
    maybe_refresh_low_again firecrawl 1 100 130 pool pool idle {last = some 5} low refl stale
      (omega arith)

abbrev calendar : Calendar
calendar = record { month_day = λ t d. 10; add_month = λ t. t + 30; add_year = λ t. t + 365 }

abbrev fc : Profile
fc = record {
  name = firecrawl;
  route_prefix = [];
  upstream = [];
  upstream_host = [];
  credit_reset_day = 1;
  rewrite_next = true;
  keep_prefix = false;
  auth_query_param = [];
  auth_header = [];
  upstream_timeout = 0;
  apify_free_credit_usd = 0;
  concurrency_saturation = [];
  concurrency_queue = 0;
  max403_retries = 2;
  pool = pool;
}

-- A period that ended already is not used.
abbrev ended : Usage
ended = record { ok = true; remaining = pos 0; has_end = true; period_end = 12 }

reset_at_bounds_example :
    (20 ≤ reset_at calendar fc ended 20) × (reset_at calendar fc ended 20 ≤ 385)
reset_at_bounds_example =
    reset_at_bounds calendar fc ended 20 (omega arith) (omega arith) (omega arith)

-- RefreshAll, with an answer for the first key alone.
abbrev first_only : ℕ → Usage
first_only zero = record { ok = true; remaining = pos 12; has_end = false; period_end = 0 }
first_only (suc i) = no_usage

one_left : (refresh_all first_only 100 (new_key_pool (codes "k1" ∷ codes "k2" ∷ []), idle)).1 ≡ 1
unfolding refresh_all set_credits new_key_pool
one_left = refl

refresh_all-get_elem?_example :
    (get_elem? (refresh_all first_only 100 (pool, idle)).0.0.slots 0
      ≡ some (measured_by (first_only 0) (new_slot (codes "k1"))))
    × (((refresh_all first_only 100 (pool, idle)).1 ≡ 0)
        ↔ All
            (λ t. t.remaining_credits ≢ unmeasured)
            (refresh_all first_only 100 (pool, idle)).0.0.slots)
refresh_all-get_elem?_example =
    refresh_all-get_elem? first_only 100 pool idle 0 {s = new_slot (codes "k1")}
      (unfold set_credits in unfold new_key_pool in refl)
      (unfold set_credits in unfold new_key_pool in refl)

-- Two rounds, each with an answer for one key.
abbrev second_only : ℕ → Usage
second_only zero = no_usage
second_only (suc i) = record { ok = true; remaining = pos 7; has_end = false; period_end = 0 }

abbrev fresh : KeyPool
fresh = new_key_pool (codes "k1" ∷ codes "k2" ∷ [])

definite : (j : ℕ) → pos_part (first_only j).remaining ≢ unmeasured
definite zero = λ e. omega (arith, e)
definite (suc j) = λ e. omega (arith, e)

definite' : (j : ℕ) → pos_part (second_only j).remaining ≢ unmeasured
definite' zero = λ e. omega (arith, e)
definite' (suc j) = λ e. omega (arith, e)

served : Served fresh.slots ((first_only, 100) ∷ (second_only, 160) ∷ [])
unfolding new_key_pool
served zero s e = inr (inl refl)
served (suc zero) s e = inr (inr (inl refl))
served (suc (suc j)) s e = cc

warm_up_ends_example :
    ((warm_up ((first_only, 100) ∷ (second_only, 160) ∷ []) (fresh, idle)).1 ≡ true)
    × All IsMeasured (warm_up ((first_only, 100) ∷ (second_only, 160) ∷ []) (fresh, idle)).0.0.slots
warm_up_ends_example =
    warm_up_ends first_only 100 ((second_only, 160) ∷ []) fresh idle (unfold new_key_pool in refl)
      (definite, (definite', tt)) served
