-- ===== src/Proxy/AccessLog.antt =====
-- proxy.go: accStatus, the status that the access log of ServeHTTP gets for a request. It is 0 until
-- a branch sets it.
pub mod Laws
use api_key_rotator.Base.{
  ℕ, Bool, true, false, not, ◌&&◌, List, Option, none, some, ◌==◌, if◌then◌else◌,
}
use api_key_rotator.Base.Text.{Bytes}
use api_key_rotator.Config.State.{Config}
use api_key_rotator.Profile.State.{Profile}
use api_key_rotator.Profile.Route.{match_profile}
use api_key_rotator.Proxy.Request.{Request}
use api_key_rotator.Proxy.ServeOnce.{World, Run, now, select}
use api_key_rotator.Proxy.Serve.{
  Failure, failure_status, no_profile, all_exhausted, unreachable, Response, failed_with, forwarded,
  rewritten, abandoned, Loop,
}
use api_key_rotator.Proxy.ServeHttp.{
  End, finished, answered, loop, begin, queue_deadline, max_rotations,
}

-- What the cases resOK and resCapped set; the other cases set nothing.
abbrev pub acc_status : Loop → ℕ
acc_status s = if s.clean_break then s.last_status else 0

abbrev pub logged_selected : Loop → Option (ℕ × Bytes) → ℕ
logged_selected s none = failure_status all_exhausted
logged_selected s (some _) =
    if not s.clean_break && s.last_status == 0 then failure_status unreachable else acc_status s

-- The branches that return from within the loop are those of resSaturated.
unfoldable pub logged_end : World → End → ℕ
unfolding failure_status
logged_end w (answered (failed_with f) r) = failure_status f
logged_end w (answered (forwarded status header body) r) = 0
logged_end w (answered (rewritten base status header body) r) = 0
logged_end w (answered abandoned r) = 0
logged_end w (finished s) =
    if s.over_cap then acc_status s else logged_selected s (select w s.run).1

abbrev pub logged : World → Option End → Option ℕ
logged w none = none
logged w (some e) = some (logged_end w e)

unfoldable pub log_profile : World → Config → ℕ → Profile → Request → Bytes → Run → Option ℕ
unfolding logged_end
log_profile w cfg fuel p req stripped r =
    logged w
      (loop w cfg p req stripped (queue_deadline p (now w r)) fuel (max_rotations cfg p) (begin r))

abbrev pub log_matched :
    (Profile → World)
    → (Profile → Run)
    → Config
    → ℕ
    → Request
    → Bool
    → Option (Profile × Bytes)
    → Option ℕ
log_matched world state cfg fuel req readable none = some (failure_status no_profile)
log_matched world state cfg fuel req readable (some (p, stripped)) =
    if readable then log_profile (world p) cfg fuel p req stripped (state p) else some 0

unfoldable pub log_http :
    (Profile → World) → (Profile → Run) → Config → ℕ → List Profile → Request → Bool → Option ℕ
unfolding log_profile
log_http world state cfg fuel profiles req readable =
    log_matched world state cfg fuel req readable
      (match_profile profiles req.path cfg.firecrawl_legacy_fallback)
