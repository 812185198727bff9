-- ===== src/Refresh.antt =====
-- refresh.go: Refresher. The work that a call starts in the background is recorded as `spawned`,
-- and what comes of it reaches the pool as SetCredits of another goroutine.
pub mod Laws
pub mod WarmUp
mod Tests
use api_key_rotator.Base.{
  ℕ, zero, suc, ◌+◌, ◌-◌, ◌*◌, Bool, true, false, ◌&&◌, ◌||◌, not, List, [], ◌∷◌, ◌++◌, Option,
  none, some, ltb, leb, ◌==◌, if◌then◌else◌, length, get_elem?, modify,
}
use api_key_rotator.Base.Int.{ℤ, pos, negsuc}
use api_key_rotator.Pool.State.{KeyPool}
use api_key_rotator.Pool.Advance.{second}
use api_key_rotator.Pool.Credits.{predicted_remaining}
use api_key_rotator.Profile.State.{ProviderName, apify, exa}
use api_key_rotator.Usage.{Usage, refresh_key}

-- `none` is the zero time. The lists have an entry for each key.
pub record Refresher : Type 0 where
  pub low_interval : ℕ
  pub last_low : List (Option ℕ)
  pub last_daily : List (Option ℕ)
  pub spawned : List ℕ

abbrev pub daily_refresh_interval : ℕ
daily_refresh_interval = 24 * 3600 * second

unfoldable pub low_mark : ProviderName → ℕ
low_mark apify = 100
low_mark exa = 1000000
low_mark _ = 100

-- `!last.IsZero() && now.Sub(last) < interval`; an earlier `now` gives a negative difference.
unfoldable pub is_fresh : ℕ → ℕ → Option ℕ → Bool
is_fresh interval now none = false
is_fresh interval now (some last) = ltb now (last + interval)

abbrev pub stamp : ℕ → Option ℕ → Option ℕ
stamp now _ = some now

-- The balance that Snapshot shows is below `mark`, and measured.
abbrev pub is_below : ℕ → ℤ → Bool
is_below mark (negsuc n) = false
is_below mark (pos n) = ltb n mark

-- The branch on the throttle of a key.
abbrev pub spawn_low : ℕ → ℕ → Option (Option ℕ) → Refresher → Refresher
spawn_low i now none r = r
spawn_low i now (some last) r =
    if is_fresh r.low_interval now last
    then r
    else record r { last_low = modify r.last_low i (stamp now); spawned = i ∷ r.spawned }

unfoldable pub maybe_refresh_low : ProviderName → ℕ → ℕ → KeyPool → Refresher → Refresher
unfolding low_mark
maybe_refresh_low name i now pool r =
    if is_below (low_mark name) (predicted_remaining i pool)
    then spawn_low i now (get_elem? r.last_low i) r
    else r

-- The loop over the keys: the new instants, and the keys to refresh, in their order.
unfoldable pub daily_from : ℕ → ℕ → List (Option ℕ) → List (Option ℕ) × List ℕ
daily_from now i [] = ([], [])
daily_from now i (last ∷ ls) =
    let (ls', due) = daily_from now (suc i) ls in
    if is_fresh daily_refresh_interval now last
    then (last ∷ ls', due)
    else (some now ∷ ls', i ∷ due)

unfoldable pub reversed : List ℕ → List ℕ → List ℕ
reversed [] acc = acc
reversed (i ∷ is) acc = reversed is (i ∷ acc)

unfoldable pub daily_refresh : ℕ → Refresher → Refresher
unfolding daily_from reversed
daily_refresh now r =
    let (ls, due) = daily_from now 0 r.last_daily in
    record r { last_daily = ls; spawned = reversed due r.spawned }

unfoldable pub balance_may_have_changed : ℕ → Bool
balance_may_have_changed status = status == 402 || status == 432 || status == 433

-- The goroutine of OnSwitch refreshes the one key and then the other, if they differ.
unfoldable pub on_switch : ℕ → ℕ → Refresher → Refresher
on_switch old new r =
    let first = if ltb old (length r.last_low) then old ∷ r.spawned else r.spawned in
    record r {
      spawned = if ltb new (length r.last_low) && not (new == old) then new ∷ first else first;
    }

unfoldable pub on_switch_reason : ℕ → ℕ → ℕ → Refresher → Refresher
unfolding on_switch balance_may_have_changed
on_switch_reason old new status r =
    if balance_may_have_changed status then on_switch old new r else r

abbrev is_measured : ℤ → Bool
is_measured (pos n) = true
is_measured (negsuc n) = false

-- A balance that is not negative is a refresh of the day.
unfoldable pub refresh_one : ℕ → Usage → ℕ → KeyPool × Refresher → KeyPool × Refresher
unfolding refresh_key
refresh_one i u now (pool, r) =
    let (pool', got) = refresh_key i u pool in
    (
      pool',
      if is_measured got then record r { last_daily = modify r.last_daily i (stamp now) } else r,
    )

-- What EnsureMeasured asks before it refreshes a key.
unfoldable pub needs_measure : ℕ → KeyPool → Refresher → Bool
needs_measure i pool r = ltb i (length r.last_low) && not (is_measured (predicted_remaining i pool))
