-- ===== src/Start/Loops/Tests.antt =====
-- Tests of the background loops of main.go, with their theorems at concrete states.
use api_key_rotator.Base.{
  ℕ, ◌+◌, ◌*◌, ◌≡◌, refl, true, false, List, [], ◌∷◌, ◌++◌, none, some, arith, get_elem?,
}
use api_key_rotator.Base.Int.{pos}
use api_key_rotator.Base.Text.{codes}
use api_key_rotator.Pool.State.{KeyPool, new_key_pool, new_slot}
use api_key_rotator.Pool.Credits.{set_credits, disable, switch_off}
use api_key_rotator.Pool.Reset.{is_due}
use api_key_rotator.Refresh.{Refresher, daily_refresh_interval, is_fresh}
use api_key_rotator.Usage.{Usage}
use api_key_rotator.Server.Log.{Formats}
use api_key_rotator.Start.Loops.{ticked, fetched, DailyEvent, reset_loop, daily_loop}
use api_key_rotator.Start.Loops.Reset.{reset_loop-disable}
use api_key_rotator.Start.Loops.Daily.{Paced, daily_loop-Paced}

abbrev formats : Formats
formats = record { instant = λ t. codes "T"; float = λ f. codes "0" }

abbrev pool : KeyPool
pool = new_key_pool (codes "k1" ∷ codes "k2" ∷ [])

-- The ticks at 30 and 90 miss the end of the pause or come before it; that at 150 ends it.
ended :
    (reset_loop formats (30 ∷ 90 ∷ 150 ∷ []) (disable 1 100 pool)).1
    ≡ codes "[info] T re-enabled credit-disabled keys count=1" ++ 10 ∷ []
unfolding reset_loop disable new_key_pool is_due
ended = refl

reset_loop-disable_example :
    get_elem? (reset_loop formats (30 ∷ 90 ∷ []) (disable 1 100 pool)).0.slots 1
    ≡ some (switch_off 100 (new_slot (codes "k2")))
reset_loop-disable_example =
    reset_loop-disable formats (30 ∷ 90 ∷ []) pool 1 100 {s = new_slot (codes "k2")}
      (unfold new_key_pool in refl)

abbrev day : ℕ
day = daily_refresh_interval

abbrev hour : ℕ
hour = 3600 * 1000000000

abbrev seen : Refresher
seen = record { low_interval = 60; last_low = none ∷ []; last_daily = some 0 ∷ []; spawned = [] }

abbrev fine : Usage
fine = record { ok = true; remaining = pos 9; has_end = false; period_end = 0 }

-- A tick just before the day is over, one behind it, and a refresh that comes back later.
abbrev events : List DailyEvent
events = ticked (23 * hour) ∷ ticked (24 * hour) ∷ fetched 0 fine (24 * hour + 7) ∷ []

one_started : (daily_loop events (pool, seen)).1.spawned ≡ 0 ∷ []
unfolding daily_loop set_credits is_fresh
one_started = refl

daily_loop-Paced_example : Paced hour (24 * hour + 9) 0 0 seen (daily_loop events (pool, seen)).1
daily_loop-Paced_example =
    daily_loop-Paced hour (24 * hour + 9) 0 events (22 * hour) (22 * hour) pool seen {last = 0} refl
      (omega arith) (omega arith) (omega arith)
