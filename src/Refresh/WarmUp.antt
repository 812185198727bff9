-- ===== src/Refresh/WarmUp.antt =====
-- refresh.go: NewRefresher and RefreshAll; main.go: warmupLoop. The goroutines of RefreshAll, each of
-- which changes the entries of its own key alone, run one after the other, at one instant.
pub mod Laws
pub mod Ends
use api_key_rotator.Base.{
  ℕ, zero, suc, ◌*◌, Bool, true, false, List, [], ◌∷◌, Option, none, some, map, ◌==◌, if◌then◌else◌,
  length,
}
use api_key_rotator.Base.Int.{ℤ, pos, negsuc}
use api_key_rotator.Pool.State.{KeyPool, Slot}
use api_key_rotator.Pool.Advance.{second}
use api_key_rotator.Pool.Credits.{reported}
use api_key_rotator.Profile.State.{Profile}
use api_key_rotator.Usage.{Usage}
use api_key_rotator.Refresh.{Refresher, stamp, refresh_one}

unfoldable pub new_refresher : ℕ → Profile → Refresher
new_refresher credit_refresh_sec p = record {
  low_interval = credit_refresh_sec * second;
  last_low = map (λ _. none) p.pool.slots;
  last_daily = map (λ _. none) p.pool.slots;
  spawned = [];
}

-- The loop over the keys from `i` on, `n` of them; `usage i` is what fetchUsageFor gives for a key.
unfoldable pub refresh_from : (ℕ → Usage) → ℕ → ℕ → ℕ → KeyPool × Refresher → KeyPool × Refresher
unfolding refresh_one
refresh_from usage now zero i state = state
refresh_from usage now (suc n) i state =
    refresh_from usage now n (suc i) (refresh_one i (usage i) now state)

abbrev is_unmeasured : ℤ → Bool
is_unmeasured (pos n) = false
is_unmeasured (negsuc n) = true

abbrev pub count_unmeasured : List Slot → ℕ
count_unmeasured [] = 0
count_unmeasured (s ∷ ss) =
    if is_unmeasured (reported s.remaining_credits)
    then suc (count_unmeasured ss)
    else count_unmeasured ss

-- The new state, and the number of keys that are still unmeasured.
unfoldable pub refresh_all : (ℕ → Usage) → ℕ → KeyPool × Refresher → (KeyPool × Refresher) × ℕ
unfolding refresh_from
refresh_all usage now (pool, r) =
    let stamped = record r { last_daily = map (stamp now) r.last_daily } in
    let (pool', r') = refresh_from usage now (length r.last_low) 0 (pool, stamped) in
    ((pool', r'), count_unmeasured pool'.slots)

-- warmupLoop, over the rounds that its ticker starts: what each fetches, and when. What is returned
-- is the state, and whether the loop has ended.
unfoldable pub warm_up : List ((ℕ → Usage) × ℕ) → KeyPool × Refresher → (KeyPool × Refresher) × Bool
unfolding refresh_all
warm_up [] state = (state, false)
warm_up ((usage, now) ∷ rounds) state =
    let (state', unmeasured) = refresh_all usage now state in
    let later = warm_up rounds state' in if unmeasured == 0 then (state', true) else later
