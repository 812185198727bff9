-- ===== src/Start/Loops.antt =====
-- main.go: resetLoop and dailyRefreshLoop; server.go writes their lines. The instants at which the
-- tickers fire come from outside.
pub mod Reset
pub mod Daily
mod Tests
use api_key_rotator.Base.{ℕ, List, [], ◌∷◌, ◌++◌, ltb, if◌then◌else◌}
use api_key_rotator.Base.Int.{pos}
use api_key_rotator.Base.Text.{Bytes, codes}
use api_key_rotator.Pool.State.{KeyPool}
use api_key_rotator.Pool.Reset.{reenable_due}
use api_key_rotator.Usage.{Usage}
use api_key_rotator.Refresh.{Refresher, refresh_one, daily_refresh}
use api_key_rotator.Server.Log.{Formats, text, int, info}

-- The line behind ReenableDue.
unfoldable pub reenabled : Formats → ℕ → ℕ → Bytes
unfolding info
reenabled fmt now n =
    if ltb 0 n
    then info fmt now (codes "re-enabled credit-disabled keys")
        (text (codes "count") ∷ int (pos n) ∷ [])
    else []

-- One body of the loop for each instant: the pool, and what is written.
unfoldable pub reset_loop : Formats → List ℕ → KeyPool → KeyPool × Bytes
unfolding reenable_due reenabled
reset_loop fmt [] p = (p, [])
reset_loop fmt (now ∷ ticks) p =
    let (p', n) = reenable_due now p in
    let (q, lines) = reset_loop fmt ticks p' in (q, reenabled fmt now n ++ lines)

-- What changes the state that dailyRefreshLoop reads: its ticks, and refreshes of one key, each with
-- what fetchUsageFor gives, that any goroutine makes.
pub data DailyEvent : Type 0 where
  ticked : ℕ → DailyEvent
  fetched : ℕ → Usage → ℕ → DailyEvent

unfoldable pub daily_event : DailyEvent → KeyPool × Refresher → KeyPool × Refresher
unfolding daily_refresh refresh_one
daily_event (ticked now) (pool, r) = (pool, daily_refresh now r)
daily_event (fetched i u now) state = refresh_one i u now state

unfoldable pub daily_loop : List DailyEvent → KeyPool × Refresher → KeyPool × Refresher
unfolding daily_event
daily_loop [] state = state
daily_loop (e ∷ es) state = daily_loop es (daily_event e state)
