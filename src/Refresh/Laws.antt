-- ===== src/Refresh/Laws.antt =====
-- refresh.go: how often the balance of a key is asked for.
use api_key_rotator.Base.{
  ℕ, suc, ◌+◌, ◌<◌, ◌≡◌, inl, inr, refl, true, false, List, [], ◌∷◌, Option, some, arith,
  Bool-cases, length, get_elem?, modify, get_elem?-modify_self, if◌then◌else◌, ◌==◌, ◌||◌, lt→ltb,
}
use api_key_rotator.Pool.State.{KeyPool}
use api_key_rotator.Pool.Credits.{predicted_remaining}
use api_key_rotator.Profile.State.{ProviderName}
use api_key_rotator.Refresh.{
  Refresher, daily_refresh_interval, low_mark, is_fresh, stamp, is_below, maybe_refresh_low,
  daily_from, reversed, daily_refresh, balance_may_have_changed, on_switch, on_switch_reason,
}

low_started :
    (name : ProviderName) (i now : ℕ) (pool : KeyPool) (r : Refresher) {last : Option ℕ}
    → is_below (low_mark name) (predicted_remaining i pool) ≡ true
    → get_elem? r.last_low i ≡ some last
    → is_fresh r.low_interval now last ≡ false
    → maybe_refresh_low name i now pool r
      ≡ record r { last_low = modify r.last_low i (stamp now); spawned = i ∷ r.spawned }
unfolding maybe_refresh_low
low_started name i now pool r low e stale = rw (low, e, stale)

low_kept :
    (name : ProviderName) (i now later : ℕ) (pool : KeyPool) (r : Refresher) {last : Option ℕ}
    → get_elem? r.last_low i ≡ some last
    → later < now + r.low_interval
    → maybe_refresh_low name i later pool
        (record r { last_low = modify r.last_low i (stamp now); spawned = i ∷ r.spawned })
      ≡ record r { last_low = modify r.last_low i (stamp now); spawned = i ∷ r.spawned }
unfolding maybe_refresh_low is_fresh
low_kept name i now later pool r e h =
    elim (Bool-cases (is_below (low_mark name) (predicted_remaining i pool))) [
      | inl below ↦ rw (
        below,
        get_elem?-modify_self r.last_low i (stamp now) e,
        lt→ltb later (now + r.low_interval) h,
      )
      | inr above ↦ rw above
    ]

-- When MaybeRefreshLow finds the balance of a key low and its last refresh out of the interval, it
-- starts a refresh of the key, and a second call within the interval, whatever the balance is by
-- then, starts none and changes nothing.
pub maybe_refresh_low_again :
    (name : ProviderName) (i now later : ℕ) (pool pool' : KeyPool) (r : Refresher) {last : Option ℕ}
    → is_below (low_mark name) (predicted_remaining i pool) ≡ true
    → get_elem? r.last_low i ≡ some last
    → is_fresh r.low_interval now last ≡ false
    → later < now + r.low_interval
    → ((maybe_refresh_low name i now pool r).spawned ≡ i ∷ r.spawned)
      × (maybe_refresh_low name i later pool' (maybe_refresh_low name i now pool r)
          ≡ maybe_refresh_low name i now pool r)
maybe_refresh_low_again name i now later pool pool' r low e stale h =
    let started = low_started name i now pool r low e stale in
    (rw started, rw started (low_kept name i now later pool' r e h))

stamped_fresh : (interval now : ℕ) → 0 < interval → is_fresh interval now (some now) ≡ true
unfolding is_fresh
stamped_fresh interval now h = lt→ltb now (now + interval) (omega (arith, h))

daily_from_idem :
    (now i : ℕ) (ls : List (Option ℕ))
    → daily_from now i (daily_from now i ls).0 ≡ ((daily_from now i ls).0, [])
unfolding daily_from
daily_from_idem now i [] = refl
daily_from_idem now i (l ∷ ls) = elim (Bool-cases (is_fresh daily_refresh_interval now l)) [
  | inl fresh ↦ rw (fresh, fresh, daily_from_idem now (suc i) ls)
  | inr stale ↦ rw (
    stale,
    stamped_fresh daily_refresh_interval now (omega arith),
    daily_from_idem now (suc i) ls,
  )
]

-- A second round of DailyRefresh at the same instant starts no refresh and changes nothing.
pub daily_refresh_idem :
    (now : ℕ) (r : Refresher) → daily_refresh now (daily_refresh now r) ≡ daily_refresh now r
unfolding daily_refresh reversed
daily_refresh_idem now r = rw (daily_from_idem now 0 r.last_daily)

-- A rotation starts a refresh exactly when its status is one of 402, 432 and 433; then it asks for
-- the key that it left and, if they differ, for the one that it took, for two keys of the pool.
pub on_switch_reason_spawned :
    (old new status : ℕ) (r : Refresher)
    → old < length r.last_low
    → new < length r.last_low
    → (on_switch_reason old new status r).spawned ≡ (
        if status == 402 || status == 432 || status == 433
        then if new == old then old ∷ r.spawned else new ∷ old ∷ r.spawned
        else r.spawned)
unfolding on_switch_reason on_switch balance_may_have_changed
on_switch_reason_spawned old new status r a b = ground arith
