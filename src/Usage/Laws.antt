-- ===== src/Usage/Laws.antt =====
-- creditusage.go: when a key that ran out of credits comes back.
use api_key_rotator.Base.{ℕ, ◌≤◌, ◌<◌, arith}
use api_key_rotator.Profile.State.{Profile}
use api_key_rotator.Usage.{Usage, Calendar, fallback_reset, reset_at}

-- A key that disableUntilReset switches off comes back no sooner than now, and at most one year
-- from now, when AddDate of a month takes the reset day of the month of `now` to a later instant
-- that is after `now` and within a year of it.
pub reset_at_bounds :
    (cal : Calendar) (p : Profile) (u : Usage) (now : ℕ)
    → now < cal.add_month (cal.month_day now p.credit_reset_day)
    → cal.month_day now p.credit_reset_day ≤ cal.add_month (cal.month_day now p.credit_reset_day)
    → cal.add_month (cal.month_day now p.credit_reset_day) ≤ cal.add_year now
    → (now ≤ reset_at cal p u now) × (reset_at cal p u now ≤ cal.add_year now)
unfolding reset_at fallback_reset
reset_at_bounds cal p u now a b c = ground arith
