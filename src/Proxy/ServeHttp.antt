-- ===== src/Proxy/ServeHttp.antt =====
-- proxy.go: ServeHTTP, around the rounds of Proxy/Serve. The loop runs on fuel, since a round that
-- waits for a slot consumes no pass; `none` is the lack of fuel.
pub mod Steps
pub mod Slots
pub mod Balances
pub mod Genuine
pub mod Requests
pub mod Fuel
pub mod Answers
use api_key_rotator.Base.{
  ℕ, zero, suc, ◌+◌, ◌*◌, Bool, true, false, not, ◌&&◌, ◌||◌, List, [], ◌∷◌, ◌++◌, Option, none,
  some, ltb, ◌==◌, if◌then◌else◌, length,
}
use api_key_rotator.Base.Text.{Bytes, trim_right, codes, bytes_eq}
use api_key_rotator.Profile.State.{Profile}
use api_key_rotator.Profile.Route.{match_profile}
use api_key_rotator.Base.Text.{is_empty}
use api_key_rotator.Proxy.Request.{Request, is_json}
use api_key_rotator.Proxy.ServeOnce.{World, Run, now, select}
use api_key_rotator.Config.State.{Config}
use api_key_rotator.Proxy.Serve.{
  Failure, no_profile, unreadable_body, all_exhausted, unreachable, Response, failed_with,
  forwarded, rewritten, Loop, Next, queued, rotated, broken, returned, round,
}

-- How the loop ends: with its variables, or with a response.
pub data End : Type 0 where
  finished : Loop → End
  answered : Response → Run → End

abbrev pub continue_with : Next → (Loop → Option End) → (Loop → Option End) → Option End
continue_with (queued s) again next = again s
continue_with (rotated s) again next = next s
continue_with (broken s) again next = some (finished s)
continue_with (returned a r) again next = some (answered a r)

-- `left` passes are left.
unfoldable pub loop :
    World → Config → Profile → Request → Bytes → Option ℕ → ℕ → ℕ → Loop → Option End
unfolding round
loop w cfg p req stripped deadline zero left s = none
loop w cfg p req stripped deadline (suc fuel) zero s = some (finished s)
loop w cfg p req stripped deadline (suc fuel) (suc left) s =
    continue_with (round w cfg p req stripped deadline s)
      (loop w cfg p req stripped deadline fuel (suc left))
      (loop w cfg p req stripped deadline fuel left)

-- `saturation == ""` stands for "queue".
abbrev queues : Bytes → Bool
queues [] = true
queues (c ∷ s) = bytes_eq (c ∷ s) (codes "queue")

unfoldable pub queue_deadline : Profile → ℕ → Option ℕ
queue_deadline p start =
    if queues p.concurrency_saturation && ltb 0 p.concurrency_queue
    then some (start + p.concurrency_queue)
    else none

unfoldable pub max_rotations : Config → Profile → ℕ
max_rotations cfg p = cfg.max_passes * length p.pool.slots

unfoldable pub format_proxy_base : Bytes → Bytes
unfolding trim_right
format_proxy_base s = trim_right b'/' s

unfoldable pub proxy_base : Config → Request → Bytes
unfolding format_proxy_base
proxy_base cfg req =
    format_proxy_base
      (if is_empty cfg.proxy_base_url then codes "http://" ++ req.host else cfg.proxy_base_url)

-- The answer that is passed on, its body rewritten for Firecrawl.
unfoldable pub respond : Config → Profile → Request → Loop → Response
unfolding proxy_base
respond cfg p req s =
    if p.rewrite_next && is_json s.last_header
    then rewritten (proxy_base cfg req) s.last_status s.last_header s.last_body
    else forwarded s.last_status s.last_header s.last_body

abbrev pub after_select :
    Config → Profile → Request → Loop → Run × Option (ℕ × Bytes) → Response × Run
after_select cfg p req s (r, none) = (failed_with all_exhausted, r)
after_select cfg p req s (r, some _) = (
  if not s.clean_break && s.last_status == 0 then failed_with unreachable else respond cfg p req s,
  r,
)

-- What follows the loop.
unfoldable pub finish : World → Config → Profile → Request → Loop → Response × Run
unfolding respond
finish w cfg p req s =
    if s.over_cap
    then (forwarded s.last_status s.last_header s.last_body, s.run)
    else after_select cfg p req s (select w s.run)

abbrev pub close : World → Config → Profile → Request → Option End → Option (Response × Run)
close w cfg p req none = none
close w cfg p req (some (answered a r)) = some (a, r)
close w cfg p req (some (finished s)) = some (finish w cfg p req s)

abbrev pub begin : Run → Loop
begin r = record {
  run = r;
  last_status = 0;
  last_header = [];
  last_body = [];
  over_cap = false;
  clean_break = false;
}

-- The part for a profile; `p.pool` gives the number of its keys, and `r` holds its state.
unfoldable pub serve_profile :
    World → Config → ℕ → Profile → Request → Bytes → Run → Option (Response × Run)
unfolding loop finish queue_deadline max_rotations
serve_profile w cfg fuel p req stripped r =
    close w cfg p req
      (loop w cfg p req stripped (queue_deadline p (now w r)) fuel (max_rotations cfg p) (begin r))

abbrev pub response_of : Option (Response × Run) → Option Response
response_of none = none
response_of (some (a, r)) = some a

-- `readable` is whether the body of the request can be read; `world` and `state` are those of a
-- profile.
abbrev pub serve_matched :
    (Profile → World)
    → (Profile → Run)
    → Config
    → ℕ
    → Request
    → Bool
    → Option (Profile × Bytes)
    → Option Response
serve_matched world state cfg fuel req readable none = some (failed_with no_profile)
serve_matched world state cfg fuel req readable (some (p, stripped)) =
    if readable
    then response_of (serve_profile (world p) cfg fuel p req stripped (state p))
    else some (failed_with unreadable_body)

unfoldable pub serve_http :
    (Profile → World)
    → (Profile → Run)
    → Config
    → ℕ
    → List Profile
    → Request
    → Bool
    → Option Response
unfolding serve_profile match_profile
serve_http world state cfg fuel profiles req readable =
    serve_matched world state cfg fuel req readable
      (match_profile profiles req.path cfg.firecrawl_legacy_fallback)
