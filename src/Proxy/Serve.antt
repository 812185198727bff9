-- ===== src/Proxy/Serve.antt =====
-- proxy.go: costOf, and one round of the loop of ServeHTTP. The response is the value of the model;
-- log lines are left out.
-- A wait for a slot ends by its timer after the events `wakes`; the token that it takes from the
-- channel stays in the pool's mark, which no other method reads.
pub mod Steps
pub mod Requests
pub mod Genuine
pub mod Price
pub mod Charge
use api_key_rotator.Base.{
  ℕ, zero, suc, ◌+◌, ◌-◌, ◌*◌, Bool, true, false, not, ◌&&◌, ◌||◌, List, [], ◌∷◌, ◌++◌, Option,
  none, some, ltb, leb, ◌==◌, if◌then◌else◌, length,
}
use api_key_rotator.Base.Int.{ℤ, pos, negsuc}
use api_key_rotator.Base.Text.{Bytes, codes, bytes_eq}
use api_key_rotator.Headers.{Header}
use api_key_rotator.Json.Decode.{decode_credits_used}
use api_key_rotator.Pool.State.{KeyPool}
use api_key_rotator.Pool.Slots.{timer, wait_for_slot}
use api_key_rotator.Pool.Advance.{rotate_cooldown}
use api_key_rotator.Pool.Credits.{predicted_remaining}
use api_key_rotator.Pool.Ops.{Call, advances_after, succeeds, rejects, decrements, disables, step}
use api_key_rotator.Config.State.{Config}
use api_key_rotator.Profile.State.{ProviderName, exa, fmp, Profile}
use api_key_rotator.Profile.Policy.{
  is_credit_exhausted, is_daily_capped_finance, fmp_is_restricted_endpoint,
}
use api_key_rotator.Profile.Route.{match_profile}
use api_key_rotator.Base.Text.{is_empty}
use api_key_rotator.Refresh.{Refresher, maybe_refresh_low, on_switch_reason}
use api_key_rotator.Usage.{reset_at, has_period_end}
use api_key_rotator.Usage.Bodies.{extract_exa_cost_micro}
use api_key_rotator.Proxy.Request.{Request, reject_kind, is_json}
use api_key_rotator.Proxy.ServeOnce.{
  World, Run, RotResult, RotResultKind, res_ok, res_capped, res_rotate, res_net_err, res_exhausted,
  res_saturated, found, now, left, select, serve_once, usage_of, looks_of, asked, asked_at,
}

-- The calls of http.Error.
pub data Failure : Type 0 where
  no_profile unreadable_body all_busy queue_timeout all_exhausted unreachable : Failure

unfoldable pub failure_status : Failure → ℕ
failure_status no_profile = 404
failure_status unreadable_body = 400
failure_status all_busy = 429
failure_status queue_timeout = 503
failure_status all_exhausted = 503
failure_status unreachable = 502

-- `rewritten base` is the answer whose body rewriteNext rewrites for the proxy at `base`; nothing is
-- written to a client that has left.
pub data Response : Type 0 where
  failed_with : Failure → Response
  forwarded : ℕ → Header → Bytes → Response
  rewritten : Bytes → ℕ → Header → Bytes → Response
  abandoned : Response

-- The variables of the loop.
pub record Loop : Type 0 where
  pub run : Run
  pub last_status : ℕ
  pub last_header : Header
  pub last_body : Bytes
  pub over_cap : Bool
  pub clean_break : Bool

-- What one round decides: `continue` without and with a pass consumed, `break`, `return`.
pub data Next : Type 0 where
  queued : Loop → Next
  rotated : Loop → Next
  broken : Loop → Next
  returned : Response → Run → Next

abbrev pub exa_micro : ℤ → ℤ
exa_micro (pos (suc n)) = pos (suc n)
exa_micro _ = pos 0

abbrev pub is_exa : ProviderName → Bool
is_exa exa = true
is_exa _ = false

abbrev pub is_fmp : ProviderName → Bool
is_fmp fmp = true
is_fmp _ = false

abbrev pub or_unknown : Option ℤ → ℤ
or_unknown none = negsuc 0
or_unknown (some (pos zero)) = negsuc 0
or_unknown (some used) = used

-- extractCreditsUsed: -1 for a missing or zero field.
unfoldable pub extract_credits_used : Bytes → ℤ
extract_credits_used body = or_unknown (decode_credits_used body)

unfoldable pub cost_of : World → Profile → Bytes → ℤ
unfolding extract_credits_used extract_exa_cost_micro
cost_of w p body =
    if is_exa p.name
    then exa_micro (extract_exa_cost_micro w.floats body)
    else extract_credits_used body

abbrev pub is_positive : ℤ → Bool
is_positive (pos (suc n)) = true
is_positive _ = false

-- One call of this request on the pool.
unfoldable pub call : World → Call → Run → Run
unfolding step
call w c r = left (step (found w r) c) r

-- The response is charged to the key.
unfoldable pub charge : World → Profile → ℕ → ℕ → Bytes → Run → Run
unfolding call
charge w p i status body r =
    if is_fmp p.name && status == 402 && fmp_is_restricted_endpoint body
    then r
    else if is_positive (cost_of w p body) || not (is_exa p.name)
    then call w (decrements i (cost_of w p body)) r
    else r

-- `v >= 0 && v <= stop`
abbrev pub at_stop : ℕ → ℤ → Bool
at_stop stop (pos v) = leb v stop
at_stop stop (negsuc n) = false

-- A key of a daily-capped provider at its stop threshold rests for rotateCooldown.
unfoldable pub rest_at_stop : World → Profile → ℕ → Run → Run
unfolding call
rest_at_stop w p i r =
    let pool = found w r in
    let looked = left pool r in
    if not (is_daily_capped_finance p.name)
    then r
    else if at_stop pool.stop_threshold (predicted_remaining i pool)
    then call w (disables i (now w looked + rotate_cooldown)) looked
    else looked

unfoldable pub refresh_low : World → Profile → ℕ → Run → Run
refresh_low w p i r = record (left (found w r) r) {
  refresher = maybe_refresh_low p.name i (now w r) (found w r) r.refresher;
}

-- The case resOK.
unfoldable pub succeeded : World → Profile → RotResult → Run → Run
unfolding call charge rest_at_stop refresh_low
succeeded w p res r = refresh_low w p res.idx (
    rest_at_stop w p res.idx (charge w p res.idx res.status res.body (call w (succeeds res.idx) r)))

-- AdvanceAfter, and the refresh for the key that Current then gives: `always` is whether that
-- happens also when it is the same key.
unfoldable pub switched : Bool → ℕ → ℕ → Run × Option (ℕ × Bytes) → Run
switched always old status (r, none) = r
switched always old status (r, some (new, key)) =
    if always || not (new == old)
    then record r { refresher = on_switch_reason old new status r.refresher }
    else r

unfoldable pub move_on : World → Bool → RotResult → Run → Run
unfolding call switched
move_on w always res r =
    switched always res.idx res.status (select w (call w (advances_after res.header (now w r)) r))

-- How many requests disableUntilReset sends before call n.
unfoldable pub reset_looks : World → Profile → Bytes → ℕ → ℕ
unfolding has_period_end looks_of
reset_looks w p key n = if has_period_end p.name then looks_of w p key n else 0

-- The case resRotate.
unfoldable pub refused : World → Profile → RotResult → Run → Run
unfolding call move_on reset_looks asked_at
refused w p res r =
    let counted = call w (rejects res.idx (reject_kind res.status)) r in
    let until = reset_at w.calendar p (usage_of w p res.key counted.tick) (now w counted) in
    move_on w false res (
      if is_credit_exhausted p res.status res.body
      then call w (disables res.idx until)
          (asked (reset_looks w p res.key counted.tick) res.key counted)
      else counted)

-- time.Until of the deadline, 0 when it has passed or was never set.
abbrev pub time_left : Option ℕ → ℕ → ℕ
time_left none now = 0
time_left (some deadline) now = deadline - now

abbrev is_granted : Option Bool → Bool
is_granted none = false
is_granted (some b) = b

-- Whether the queue gives a slot: it is on, its time is not over, and the wait sees one.
unfoldable pub granted : World → Profile → Option ℕ → Run → Bool
granted w p deadline r =
    let remaining = time_left deadline (now w r) in
    ltb 0 p.concurrency_queue
    && ltb 0 remaining
    && is_granted (wait_for_slot remaining (found w r) (w.wakes r.tick ++ timer ∷ []))

abbrev pub rejects_busy : Profile → Bool
rejects_busy p = bytes_eq p.concurrency_saturation (codes "reject")

-- The case resSaturated.
unfoldable pub saturated : World → Profile → Option ℕ → Loop → Next
unfolding granted
saturated w p deadline s =
    let r = s.run in
    let waited = left (found w r) r in
    if rejects_busy p
    then returned (failed_with all_busy) r
    else if granted w p deadline r
    then queued (record s { run = waited })
    else returned (if w.gone r.tick then abandoned else failed_with queue_timeout) waited

-- The state of the loop behind a round that was not queued.
abbrev pub noted : RotResult → Loop → Loop
noted res s = record s { last_status = res.status; last_header = res.header; last_body = res.body }

-- The rest of a round, by the kind of its result.
unfoldable pub decide : World → Profile → Option ℕ → RotResultKind → RotResult → Loop → Next
unfolding saturated succeeded refused move_on
decide w p deadline res_saturated res s = saturated w p deadline s
decide w p deadline res_ok res s =
    broken (record (noted res s) { run = succeeded w p res s.run; clean_break = true })
decide w p deadline res_capped res s =
    broken (record (noted res s) { over_cap = true; clean_break = true })
decide w p deadline res_net_err res s =
    rotated (record (noted res s) { run = move_on w true res s.run })
decide w p deadline res_rotate res s =
    rotated (record (noted res s) { run = refused w p res s.run })
decide w p deadline res_exhausted res s = broken (noted res s)

unfoldable pub round : World → Config → Profile → Request → Bytes → Option ℕ → Loop → Next
unfolding decide serve_once
round w cfg p req stripped deadline s =
    let (res, r) = serve_once w cfg.max_body_bytes p req stripped s.run in
    decide w p deadline res.kind res (record s { run = r })
