-- ===== src/Proxy/ServeTests.antt =====
-- Tests of serveOnce and ServeHTTP, with their theorems at concrete requests.
use api_key_rotator.Base.{
  ◌>>=◌, ℕ, map, List, ◌+◌, ◌≡◌, ◌<◌, ◌≤◌, ◌*◌, length, refl, true, false, [], ◌∷◌, Option, none,
  some, All, arith,
}
use api_key_rotator.Base.Int.{pos}
use api_key_rotator.Base.Text.{codes, trim_space}
use api_key_rotator.Pool.State.{KeyPool, new_key_pool, set_thresholds, set_max_concurrent}
use api_key_rotator.Pool.Slots.{has_slot, try_acquire, release}
use api_key_rotator.Pool.Select.{current, choose, scan, visit, is_cooling}
use api_key_rotator.Pool.Advance.{advance_after, cooldown_after, retry_after_seconds}
use api_key_rotator.Headers.{header_get}
use api_key_rotator.Pool.Ops.{run, step}
use api_key_rotator.Pool.Credits.{set_credits, record_success, decrement, predicted_remaining}
use api_key_rotator.Json.Decode.{decode_credits_used}
use api_key_rotator.Pool.Leases.{IsOther}
use api_key_rotator.Pool.Leases.Flight.{flight}
use api_key_rotator.Rotate.{should_retry}
use api_key_rotator.Profile.Policy.{should_rotate, is_daily_capped_finance}
use api_key_rotator.Refresh.{maybe_refresh_low, balance_may_have_changed, on_switch_reason}
use api_key_rotator.Proxy.Request.{read_capped}
use api_key_rotator.Proxy.TryKey.{failed}
use api_key_rotator.Usage.Retry.{should_retry_usage}
use api_key_rotator.Proxy.ServeOnce.{World, Run, serve_once, usage_of}
use api_key_rotator.Proxy.ServeOnce.Answers.{is_answer}
use api_key_rotator.Proxy.Serve.{cost_of, Loop, Response, failed_with, all_exhausted, forwarded}
use api_key_rotator.Proxy.ServeHttp.{
  serve_profile, max_rotations, loop, begin, finished, response_of,
}
use api_key_rotator.Proxy.ServeHttp.Answers.{loop_served}
use api_key_rotator.Proxy.Serve.Genuine.{IsTrue}
use api_key_rotator.Proxy.ServeHttp.Genuine.{serve_profile-IsTrue}
use api_key_rotator.Proxy.ServeHttp.Slots.{serve_profile-flight}
use api_key_rotator.Proxy.ServeHttp.Requests.{serve_profile_bounded}
use api_key_rotator.Proxy.ServeHttp.Fuel.{serve_profile_answers}
use api_key_rotator.Proxy.Sample.{pool_of, tv, search, world, run_of, cfg, p, start, goes_on}

quiet : (n : ℕ) → All IsOther (world.others n)
quiet n = tt

answers_once : is_answer (serve_once world 0 p search (codes "/search") start).0.kind ≡ true
unfolding serve_once set_max_concurrent set_thresholds new_key_pool current choose scan run visit
    has_slot is_cooling try_acquire read_capped should_retry should_rotate predicted_remaining
answers_once = refl

enough : max_rotations cfg p + p.concurrency_queue < 8
unfolding max_rotations set_max_concurrent set_thresholds new_key_pool
enough = omega arith

serve_profile_answers_example :
    (a : Response) × (q : Run) × (serve_profile world cfg 8 p search (codes "/search") start
      ≡ some (a, q))
serve_profile_answers_example =
    serve_profile_answers world cfg 8 p search (codes "/search") start goes_on enough

-- A success is passed on.
passed_on :
    response_of (serve_profile world cfg 8 p search (codes "/search") start)
    ≡ some (forwarded 200 [] [])
unfolding serve_profile set_max_concurrent set_thresholds new_key_pool current choose scan run visit
    has_slot is_cooling try_acquire read_capped should_retry should_rotate predicted_remaining
    is_daily_capped_finance decode_credits_used ◌>>=◌ step record_success decrement release
    set_credits maybe_refresh_low usage_of should_retry_usage cost_of
passed_on = refl

abbrev last_credit : KeyPool
last_credit = set_credits 0 (pos 10) (pool_of 10)

-- A success that spends the last credit above the stop threshold is answered with 503.
success_lost :
    response_of (serve_profile world cfg 8 p search (codes "/search") (run_of last_credit))
    ≡ some (failed_with all_exhausted)
unfolding serve_profile set_max_concurrent set_thresholds new_key_pool current choose scan run visit
    has_slot is_cooling try_acquire read_capped should_retry should_rotate predicted_remaining
    is_daily_capped_finance decode_credits_used ◌>>=◌ step record_success decrement release
    set_credits maybe_refresh_low usage_of should_retry_usage cost_of
success_lost = refl

abbrev answer :
    (a : Response) × (q : Run) × (serve_profile world cfg 8 p search (codes "/search") start
      ≡ some (a, q))
answer = serve_profile_answers world cfg 8 p search (codes "/search") start goes_on enough

serve_profile-flight_example : flight answer.1.pool.slots 0 ≡ flight start.pool.slots 0
serve_profile-flight_example =
    serve_profile-flight world cfg 8 p search (codes "/search") start 0 quiet answer.2

serve_profile-IsTrue_example : IsTrue world 0 p search (codes "/search") answer.1.sent answer.0
serve_profile-IsTrue_example =
    serve_profile-IsTrue world cfg p search (codes "/search") 8 start answer.2

serve_profile_bounded_example : length answer.1.sent ≤ 14 * max_rotations cfg p + length start.sent
serve_profile_bounded_example =
    serve_profile_bounded world cfg 8 p search (codes "/search") start answer.2

concluded :
    (s : Loop) × (loop world cfg p search (codes "/search") none 8 2 (begin start)
      ≡ some (finished s))
    × (s.clean_break ≡ true)
    × (s.over_cap ≡ false)
unfolding loop set_max_concurrent set_thresholds new_key_pool current choose scan run visit has_slot
    is_cooling try_acquire read_capped should_retry should_rotate predicted_remaining
    is_daily_capped_finance decode_credits_used ◌>>=◌ step record_success decrement release
    set_credits maybe_refresh_low usage_of should_retry_usage cost_of
concluded = (_, refl, refl, refl)

loop_served_example :
    (should_retry concluded.0.last_status false ≡ false)
    × (should_rotate p concluded.0.last_status concluded.0.last_body ≡ false)
loop_served_example =
    loop_served world p none cfg search (codes "/search") 8 2 start {s = concluded.0} concluded.1
      concluded.2 concluded.3

-- Nobody answers, and the client leaves at the first sleep.
abbrev left_alone : World
left_alone = record world {
  upstream = λ n. record { builds = λ m u. true; answers = λ k. failed; cancels = λ k. true };
  gone = λ n. true;
}

abbrev pair : KeyPool
pair = new_key_pool (codes "k1" ∷ codes "k2" ∷ [])

abbrev cooldowns : Option (Response × Run) → List (Option ℕ)
cooldowns none = []
cooldowns (some (a, q)) = map (λ t. t.cooldown_until) q.pool.slots

-- One client that leaves cools both keys.
left_alone_cools :
    cooldowns (serve_profile left_alone cfg 8 (tv pair) search (codes "/search") (run_of pair))
    ≡ some 30000001025 ∷ some 30000001011 ∷ []
unfolding serve_profile set_max_concurrent set_thresholds new_key_pool current choose scan run visit
    has_slot is_cooling try_acquire read_capped should_retry should_rotate predicted_remaining
    is_daily_capped_finance decode_credits_used ◌>>=◌ step record_success decrement release
    set_credits maybe_refresh_low usage_of should_retry_usage cost_of advance_after
    balance_may_have_changed cooldown_after retry_after_seconds trim_space header_get
    on_switch_reason
left_alone_cools = refl
