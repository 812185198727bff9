-- ===== src/Start/Loops/Daily.antt =====
-- main.go: how often dailyRefreshLoop asks for a balance.
use api_key_rotator.Base.{
  ℕ, zero, suc, Bool, ◌+◌, ◌*◌, ◌≤◌, ◌<◌, ◌≡◌, refl, ◌∙◌, true, false, List, [], ◌∷◌, Option, some,
  arith, if◌then◌else◌, ◌==◌, get_elem?, modify, Bool-cases, inl, inr, ◌⊎◌,
}
use api_key_rotator.Pool.State.{KeyPool}
use api_key_rotator.Usage.{Usage, refresh_key}
use api_key_rotator.Refresh.{
  Refresher, daily_refresh_interval, is_fresh, stamp, daily_from, reversed, daily_refresh,
  refresh_one,
}
use api_key_rotator.Start.Loops.{DailyEvent, ticked, fetched, daily_event, daily_loop}

-- The refreshes of a key among those that were started.
abbrev pub count : ℕ → List ℕ → ℕ
count i [] = 0
count i (j ∷ js) = (if j == i then 1 else 0) + count i js

-- The events happen in the order of their instants from `now` to `end`, and the ticker, which fired
-- at `tick`, fires again at most `gap` later each time.
abbrev pub Timely : ℕ → ℕ → ℕ → List DailyEvent → ℕ → Type 0
Timely gap tick now [] end = (now ≤ end) × (end ≤ tick + gap)
Timely gap tick now (ticked t ∷ es) end = (now ≤ t) × (t ≤ tick + gap) × Timely gap t t es end
Timely gap tick now (fetched i u t ∷ es) end = (now ≤ t) × Timely gap tick t es end

count-reversed : (i : ℕ) (js acc : List ℕ) → count i (reversed js acc) ≡ count i js + count i acc
unfolding reversed
count-reversed i [] acc = omega arith
count-reversed i (j ∷ js) acc = omega (arith, count-reversed i js (j ∷ acc))

-- The instant that a key has, when the loop is at the key `k`.
module _ (now : ℕ) where
  due_below : (k i : ℕ) (ls : List (Option ℕ)) → i < k → count i (daily_from now k ls).1 ≡ 0
  unfolding daily_from
  due_below k i [] h = refl
  due_below k i (l ∷ ls) h = ground (arith, due_below (suc k) i ls (omega arith))

  daily_from_at :
      (k j : ℕ) (ls : List (Option ℕ)) {last : ℕ}
      → get_elem? ls j ≡ some (some last)
      → (get_elem? (daily_from now k ls).0 j
          ≡ some (some (if is_fresh daily_refresh_interval now (some last) then last else now)))
        × (count (k + j) (daily_from now k ls).1
            ≡ (if is_fresh daily_refresh_interval now (some last) then 0 else 1))
  unfolding daily_from
  daily_from_at k j [] e = cc
  daily_from_at k zero (l ∷ ls) {last} e = ground (arith, due_below (suc k) k ls (omega arith))
  daily_from_at k (suc j) (l ∷ ls) {last} e =
      let same : suc k + j ≡ k + suc j = omega arith in
      ground (arith, daily_from_at (suc k) j ls e, same)

abbrev pub Seen : ℕ → ℕ → Refresher → Type 0
Seen i last r = get_elem? r.last_daily i ≡ some (some last)

ticked_at :
    (t i : ℕ) (pool : KeyPool) (r : Refresher) {last : ℕ}
    → Seen i last r
    → Seen i
        (if is_fresh daily_refresh_interval t (some last) then last else t)
        (daily_event (ticked t) (pool, r)).1
      × (count i (daily_event (ticked t) (pool, r)).1.spawned
          ≡ count i r.spawned + (if is_fresh daily_refresh_interval t (some last) then 0 else 1))
unfolding daily_event daily_refresh
ticked_at t i pool r {last} e =
    let (at, started) = daily_from_at t 0 i r.last_daily e in
    let same : 0 + i ≡ i = omega arith in
    (
      at,
      count-reversed i (daily_from t 0 r.last_daily).1 r.spawned
          ∙ rw (rw same at started) (omega arith),
    )

stamp_at :
    (ls : List (Option ℕ)) (j i t : ℕ) {last : ℕ}
    → get_elem? ls i ≡ some (some last)
    → (get_elem? (modify ls j (stamp t)) i ≡ some (some last))
      ⊎ (get_elem? (modify ls j (stamp t)) i ≡ some (some t))
stamp_at [] j i t e = cc
stamp_at (l ∷ ls) zero zero t e = inr refl
stamp_at (l ∷ ls) zero (suc i) t e = inl e
stamp_at (l ∷ ls) (suc j) zero t e = inl e
stamp_at (l ∷ ls) (suc j) (suc i) t e = stamp_at ls j i t e

-- A refresh of a key may only move the instant of that key, to its own, and starts no other.
abbrev Fetched : ℕ → ℕ → ℕ → Refresher → Refresher → Type 0
Fetched i last t r r' = (Seen i last r' ⊎ Seen i t r') × (r'.spawned ≡ r.spawned)

stamped_if :
    (b : Bool) (j i t : ℕ) (r : Refresher) {last : ℕ}
    → Seen i last r
    → Fetched i last t r
        (if b then record r { last_daily = modify r.last_daily j (stamp t) } else r)
stamped_if true j i t r e = (stamp_at r.last_daily j i t e, refl)
stamped_if false j i t r e = (inl e, refl)

fetched_at :
    (j i t : ℕ) (u : Usage) (pool : KeyPool) (r : Refresher) {last : ℕ}
    → Seen i last r
    → Fetched i last t r (daily_event (fetched j u t) (pool, r)).1
unfolding daily_event refresh_one refresh_key
fetched_at j i t u pool r e = stamped_if _ j i t r e

fresh_until :
    (t last : ℕ)
    → is_fresh daily_refresh_interval t (some last) ≡ true
    → t ≤ last + daily_refresh_interval
unfolding is_fresh
fresh_until t last h = ground arith

stale_from :
    (t last : ℕ)
    → is_fresh daily_refresh_interval t (some last) ≡ false
    → last + 1 * daily_refresh_interval ≤ t
unfolding is_fresh
stale_from t last h = ground arith

module _ (gap end i : ℕ) where
  -- What the events make of a key whose last refresh was at `last`: it is now at `last'`, `n`
  -- refreshes were started, and at the end it is not longer ago than a day and the gap.
  abbrev pub Paced : ℕ → Refresher → Refresher → Type 0
  Paced last r r' =
      (last' n : ℕ) × Seen i last' r'
      × (count i r'.spawned ≡ count i r.spawned + n)
      × (last + n * daily_refresh_interval ≤ last')
      × (last' ≤ end)
      × (end ≤ last' + daily_refresh_interval + gap)

  extend_pace :
      (last mid m : ℕ) (r s r' : Refresher)
      → count i s.spawned ≡ count i r.spawned + m
      → last + m * daily_refresh_interval ≤ mid
      → Paced mid s r'
      → Paced last r r'
  extend_pace last mid m r s r' e h (last', n, at, counted, spaced, early, late) =
      (last', m + n, at, omega (arith, e, counted), grind (arith, h, spaced), early, late)

  -- Through ticks of dailyRefreshLoop at most `gap` apart, and refreshes that others make of any keys,
  -- in the order of their instants up to `end`, the loop starts n refreshes of a key only if n days fit
  -- between the last refresh of the key before and its last one by then, and that one is at the end
  -- not longer ago than 24 hours and the gap. The last tick before them must have come within 24 hours
  -- of the last refresh.
  pub daily_loop-Paced :
      (es : List DailyEvent) (tick now : ℕ) (pool : KeyPool) (r : Refresher) {last : ℕ}
      → Seen i last r
      → last ≤ now
      → tick ≤ last + daily_refresh_interval
      → Timely gap tick now es end
      → Paced last r (daily_loop es (pool, r)).1
  unfolding daily_loop
  daily_loop-Paced [] tick now pool r {last} e a b h =
      (last, 0, e, omega arith, omega arith, omega (arith, a, h.0), omega (arith, b, h.1))
  daily_loop-Paced (ticked t ∷ es) tick now pool r {last} e a b h =
      let state = daily_event (ticked t) (pool, r) in
      let done = (daily_loop es state).1 in
      let (at, started) = ticked_at t i pool r e in
      elim (Bool-cases (is_fresh daily_refresh_interval t (some last))) [
        | inl fresh ↦ extend_pace last last 0 r state.1 done (rw fresh at started) (omega arith) (
            daily_loop-Paced es t t state.0 state.1 {last = last} (rw fresh at at)
              (omega (arith, a, h.0)) (fresh_until t last fresh) h.2)
        | inr stale ↦
            extend_pace last t 1 r state.1 done (rw stale at started) (stale_from t last stale) (
              daily_loop-Paced es t t state.0 state.1 {last = t} (rw stale at at) (omega arith)
                (omega arith) h.2)
      ]
  daily_loop-Paced (fetched j u t ∷ es) tick now pool r {last} e a b h =
      let state = daily_event (fetched j u t) (pool, r) in
      let done = (daily_loop es state).1 in
      let (at, started) = fetched_at j i t u pool r e in
      let same : count i state.1.spawned ≡ count i r.spawned + 0 = rw started (omega arith) in
      elim at [
        | inl kept ↦ extend_pace last last 0 r state.1 done same (omega arith) (
            daily_loop-Paced es tick t state.0 state.1 {last = last} kept (omega (arith, a, h.0)) b
              h.1)
        | inr moved ↦ extend_pace last t 0 r state.1 done same (omega (arith, a, h.0)) (
            daily_loop-Paced es tick t state.0 state.1 {last = t} moved (omega arith)
              (omega (arith, a, b, h.0)) h.1)
      ]
