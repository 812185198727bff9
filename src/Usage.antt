-- ===== src/Usage.antt =====
-- creditusage.go: refreshKey, hasPeriodEnd and disableUntilReset; config.go: fallbackReset. What
-- fetchUsageFor reads from a provider is an argument here, and the children model it; the calendar
-- of package time is a parameter.
pub mod Laws
pub mod Retry
pub mod Bodies
pub mod Tavily
pub mod Fetch
mod Tests
use api_key_rotator.Base.{ℕ, Bool, true, false, ◌&&◌, leb, if◌then◌else◌}
use api_key_rotator.Base.Int.{ℤ, negsuc}
use api_key_rotator.Pool.State.{KeyPool}
use api_key_rotator.Pool.Credits.{set_credits, disable}
use api_key_rotator.Profile.State.{ProviderName, firecrawl, apify, Profile}

-- `period_end` is read only under `has_end`.
pub record Usage : Type 0 where
  pub ok : Bool
  pub remaining : ℤ
  pub has_end : Bool
  pub period_end : ℕ

-- Package time, in UTC: the first instant of a day of the month of an instant (time.Date), and
-- AddDate of one month and of one year.
pub record Calendar : Type 0 where
  pub month_day : ℕ → ℕ → ℕ
  pub add_month : ℕ → ℕ
  pub add_year : ℕ → ℕ

unfoldable pub fallback_reset : Calendar → ℕ → ℕ → ℕ
fallback_reset cal now reset_day =
    let t = cal.month_day now reset_day in if leb t now then cal.add_month t else t

unfoldable pub has_period_end : ProviderName → Bool
has_period_end firecrawl = true
has_period_end apify = true
has_period_end _ = false

-- The instant that disableUntilReset gives to Disable.
unfoldable pub reset_at : Calendar → Profile → Usage → ℕ → ℕ
unfolding fallback_reset has_period_end
reset_at cal p u now =
    if has_period_end p.name
      && u.ok
      && u.has_end
      && leb now u.period_end
      && leb u.period_end (cal.add_year now)
    then u.period_end
    else fallback_reset cal now p.credit_reset_day

unfoldable pub disable_until_reset : Calendar → Profile → Usage → ℕ → ℕ → KeyPool → KeyPool
unfolding reset_at
disable_until_reset cal p u i now pool = disable i (reset_at cal p u now) pool

-- The pool, and what is returned: -1 when the call failed.
unfoldable pub refresh_key : ℕ → Usage → KeyPool → KeyPool × ℤ
refresh_key i u pool =
    if u.ok then (set_credits i u.remaining pool, u.remaining) else (pool, negsuc 0)
