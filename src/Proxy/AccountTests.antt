-- ===== src/Proxy/AccountTests.antt =====
-- Tests of what ServeHTTP charges and logs, with their theorems at concrete requests.
use api_key_rotator.Base.{
  ◌>>=◌, ℕ, ◌≤◌, ◌+◌, ◌≡◌, ◌<◌, refl, true, false, [], ◌∷◌, some, All, arith,
}
use api_key_rotator.Base.Int.{pos}
use api_key_rotator.Base.Text.{codes, trim_space, bytes_eq, has_prefix}
use api_key_rotator.Pool.State.{KeyPool, new_key_pool, set_thresholds, set_max_concurrent}
use api_key_rotator.Pool.Slots.{has_slot, try_acquire, release}
use api_key_rotator.Pool.Select.{current, choose, scan, visit, is_cooling}
use api_key_rotator.Pool.Advance.{advance_after, cooldown_after, retry_after_seconds}
use api_key_rotator.Headers.{header_get}
use api_key_rotator.Pool.Ops.{run, step, decrements}
use api_key_rotator.Pool.Falls.{IsCharge, balance_at}
use api_key_rotator.Pool.Credits.{
  set_credits, record_success, record_rejection, decrement, predicted_remaining,
}
use api_key_rotator.Json.Decode.{decode_credits_used}
use api_key_rotator.Rotate.{should_retry}
use api_key_rotator.Profile.State.{Profile, fmp}
use api_key_rotator.Profile.Policy.{should_rotate, is_daily_capped_finance, is_credit_exhausted}
use api_key_rotator.Refresh.{maybe_refresh_low, balance_may_have_changed, on_switch_reason}
use api_key_rotator.Proxy.Request.{read_capped}
use api_key_rotator.Proxy.TryKey.{responded}
use api_key_rotator.Usage.Retry.{should_retry_usage}
use api_key_rotator.Proxy.ServeOnce.{World, Run, usage_of}
use api_key_rotator.Proxy.Serve.{cost_of, Response, forwarded}
use api_key_rotator.Proxy.ServeHttp.{serve_profile, max_rotations}
use api_key_rotator.Pool.State.{Slot, new_slot}
use api_key_rotator.Pool.Credits.{measure}
use api_key_rotator.Proxy.ServeOnce.{RotResult, res_ok}
use api_key_rotator.Proxy.Serve.Price.{served_slot}
use api_key_rotator.Proxy.ServeHttp.{serve_http}
use api_key_rotator.Proxy.AccessLog.{log_http}
use api_key_rotator.Proxy.AccessLog.Laws.{Logs, log_http-Logs}
use api_key_rotator.Proxy.ServeHttp.Balances.{serve_profile-Falls}
use api_key_rotator.Proxy.ServeHttp.Fuel.{serve_profile_answers}
use api_key_rotator.Proxy.Sample.{pool_of, tv, search, world, run_of, cfg, p, start, goes_on}

-- A key of FMP with ten credits.
abbrev ten : KeyPool
ten = set_credits 0 (pos 10) (pool_of 2)

abbrev daily : Profile
daily = record (tv ten) { name = fmp; auth_query_param = codes "apikey" }

-- Another request is charged before each call of this one.
abbrev busy : World
busy = record world { others = λ n. decrements 0 (pos 1) ∷ [] }

charges : (n : ℕ) → All IsCharge (busy.others n)
charges n = (tt, tt)

enough_daily : max_rotations cfg daily + daily.concurrency_queue < 8
unfolding max_rotations set_max_concurrent set_thresholds new_key_pool set_credits
enough_daily = omega arith

abbrev served_daily :
    (a : Response) × (q : Run) × (serve_profile busy cfg 8 daily search
        (codes "/search")
        (run_of ten)
      ≡ some (a, q))
served_daily =
    serve_profile_answers busy cfg 8 daily search (codes "/search") (run_of ten) goes_on
      enough_daily

serve_profile-Falls_example : balance_at served_daily.1.pool 0 ≤ balance_at ten 0
serve_profile-Falls_example =
    serve_profile-Falls busy cfg 8 daily search (codes "/search") (run_of ten) 0 refl charges
      served_daily.2

-- Upstream refuses the key.
abbrev refusing : World
refusing = record world {
  upstream = λ n. record {
    builds = λ m u. true;
    answers = λ k. responded 401 [] [];
    cancels = λ k. false;
  };
}

abbrev world_of : Profile → World
world_of q = refusing

abbrev state_of : Profile → Run
state_of q = start

-- The client gets the 401, and the log a 0.
refused : serve_http world_of state_of cfg 8 (p ∷ []) search true ≡ some (forwarded 401 [] [])
unfolding serve_http log_http bytes_eq has_prefix set_max_concurrent set_thresholds new_key_pool
    current choose scan run visit has_slot is_cooling try_acquire read_capped should_retry
    should_rotate predicted_remaining is_daily_capped_finance decode_credits_used ◌>>=◌ step
    record_success decrement release set_credits maybe_refresh_low usage_of should_retry_usage
    cost_of advance_after balance_may_have_changed cooldown_after retry_after_seconds trim_space
    header_get on_switch_reason is_credit_exhausted record_rejection
refused = refl

refused_unlogged : log_http world_of state_of cfg 8 (p ∷ []) search true ≡ some 0
unfolding serve_http log_http bytes_eq has_prefix set_max_concurrent set_thresholds new_key_pool
    current choose scan run visit has_slot is_cooling try_acquire read_capped should_retry
    should_rotate predicted_remaining is_daily_capped_finance decode_credits_used ◌>>=◌ step
    record_success decrement release set_credits maybe_refresh_low usage_of should_retry_usage
    cost_of advance_after balance_may_have_changed cooldown_after retry_after_seconds trim_space
    header_get on_switch_reason is_credit_exhausted record_rejection
refused_unlogged = refl

log_http-Logs_example :
    (n : ℕ) × (log_http world_of state_of cfg 8 (p ∷ []) search true ≡ some n)
    × Logs (forwarded 401 [] []) n
log_http-Logs_example =
    log_http-Logs world_of state_of cfg 8 (p ∷ []) search true {a = forwarded 401 [] []} refused

-- A success of FMP with one credit above the stop threshold, which is 2.
abbrev three : KeyPool
three = set_credits 0 (pos 3) (pool_of 2)

abbrev success : RotResult
success = record { kind = res_ok; idx = 0; key = codes "k1"; status = 200; header = []; body = [] }

abbrev slot : Slot
slot = measure 3 (new_slot (codes "k1"))

-- It spends the credit, so that the key rests.
rests : (served_slot world daily success (run_of three) slot).disabled ≡ true
unfolding cost_of decode_credits_used ◌>>=◌ set_credits set_thresholds set_max_concurrent
    is_daily_capped_finance new_key_pool
rests = refl
