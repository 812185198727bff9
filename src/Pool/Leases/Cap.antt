-- ===== src/Pool/Leases/Cap.antt =====
-- keys.go: TryAcquire under concurrent requests, and the limit of each key.
use api_key_rotator.Base.{
  ℕ, ◌+◌, ◌≤◌, ◌<◌, ◌≡◌, ◌≢◌, refl, sym, ◌∙◌, ap, List, [], ◌∷◌, ◌++◌, some, arith, true, false,
  false≢true, if◌then◌else◌, ◌==◌, get_elem?, modify, inl, inr,
}
use api_key_rotator.Base.Int.{pos}
use api_key_rotator.Base.Text.{Bytes}
use api_key_rotator.Pool.State.{KeyPool, Slot, new_key_pool, set_thresholds, set_max_concurrent}
use api_key_rotator.Pool.Slots.{try_acquire, release, give_slot}
use api_key_rotator.Pool.Slots.Acquire.{taken, taken-slots, taken-max_concurrent, try_acquire_cases}
use api_key_rotator.Pool.Ops.{Call, acquires, releases, step, step-max_concurrent}
use api_key_rotator.Pool.Leases.{
  count, System, IsOther, Move, enter, refuse, leave, call, Reach, here, next,
}
use api_key_rotator.Pool.Leases.Flight.{
  flight, flight-take, flight-give, flight-step, count-append, flight-get_elem?, flight-new,
}

abbrev Counted : System → Type 0
Counted u = (i : ℕ) → flight u.pool.slots i ≡ count i u.holders

abbrev Within : System → Type 0
Within u = (i : ℕ) → flight u.pool.slots i ≤ u.pool.max_concurrent

abbrev Inv : System → Type 0
Inv u = (u.pool.max_concurrent ≢ 0) × Counted u × Within u

release-flight :
    (i : ℕ) (p : KeyPool)
    → p.max_concurrent ≢ 0
    → ((release i p).slots ≡ modify p.slots i give_slot)
      × ((release i p).max_concurrent ≡ p.max_concurrent)
unfolding release
release-flight i p h = ground arith

enter-Inv :
    (i : ℕ) (u : System)
    → Inv u
    → (try_acquire i u.pool).1 ≡ true
    → Inv (record { pool = (try_acquire i u.pool).0; holders = i ∷ u.holders })
enter-Inv i u (limited, counted, within) e = elim (try_acquire_cases i u.pool) [
  | inl (unlimited, _) ↦ absurd (limited unlimited)
  | inr (inr (_, failed)) ↦ absurd (false≢true (rw failed at e))
  | inr (inl (s, at, room, done)) ↦
      let cap = taken-max_concurrent i u.pool in
      let slots = λ (j : ℕ).
        ap (λ ss. flight ss j) (taken-slots i u.pool) ∙ flight-take u.pool.slots j i at in
      rw done (
        rw cap limited,
        λ j. omega (arith, slots j, counted j),
        λ j.
            rw cap
              (fits j s.in_flight (slots j) (flight-get_elem? u.pool.slots i at) room (within j)),
      )
]
  where
    fits :
        (j n : ℕ)
        → flight (taken i u.pool).slots j ≡ (if i == j then 1 else 0) + flight u.pool.slots j
        → n ≡ flight u.pool.slots i
        → n < u.pool.max_concurrent
        → flight u.pool.slots j ≤ u.pool.max_concurrent
        → flight (taken i u.pool).slots j ≤ u.pool.max_concurrent
    fits j n a b c d = ground arith

leave-Inv :
    (i : ℕ) (xs ys : List ℕ) (u : System)
    → Inv u
    → u.holders ≡ xs ++ i ∷ ys
    → Inv (record { pool = release i u.pool; holders = xs ++ ys })
leave-Inv i xs ys u (limited, counted, within) e =
    let (slots, cap) = release-flight i u.pool limited in
    let given = λ (j : ℕ). ap (λ ss. flight ss j) slots ∙ flight-give u.pool.slots j i in
    let split = λ (j : ℕ). ap (count j) e ∙ count-append j xs (i ∷ ys) in
    (
      rw cap limited,
      λ j. ground (arith, given j, split j, counted j, count-append j xs ys),
      λ j. rw cap (omega (arith, given j, within j)),
    )

call-Inv : (c : Call) (u : System) → Inv u → IsOther c → Inv (record u { pool = step u.pool c })
call-Inv c u (limited, counted, within) k = (
  rw (step-max_concurrent u.pool c) limited,
  λ i. flight-step u.pool c i k ∙ counted i,
  λ i. rw (flight-step u.pool c i k, step-max_concurrent u.pool c) (within i),
)

refuse-Inv :
    (i : ℕ) (u : System)
    → Inv u
    → (try_acquire i u.pool).1 ≡ false
    → Inv (record u { pool = (try_acquire i u.pool).0 })
refuse-Inv i u inv e = elim (try_acquire_cases i u.pool) [
  | inl (unlimited, _) ↦ absurd (inv.0 unlimited)
  | inr (inr (_, failed)) ↦ rw failed inv
  | inr (inl (_, _, _, done)) ↦ absurd (false≢true (sym (rw done at e)))
]

Move-Inv : {u v : System} → Move u v → Inv u → Inv v
Move-Inv {u} (enter i e v) inv = rw v (enter-Inv i u inv e)
Move-Inv {u} (refuse i e v) inv = rw v (refuse-Inv i u inv e)
Move-Inv {u} (leave i xs ys e v) inv = rw v (leave-Inv i xs ys u inv e)
Move-Inv {u} (call c k v) inv = rw v (call-Inv c u inv k)

Reach-Inv : {u v : System} → Reach u v → Inv u → Inv v
Reach-Inv here inv = inv
Reach-Inv (next r m) inv = Move-Inv m (Reach-Inv r inv)

abbrev pub start : List Bytes → ℕ → ℕ → ℕ → System
start keys low stop cap = record {
  pool = set_max_concurrent (pos cap) (set_thresholds low stop (new_key_pool keys));
  holders = [];
}

start-Inv : (keys : List Bytes) (low stop cap : ℕ) → cap ≢ 0 → Inv (start keys low stop cap)
unfolding new_key_pool set_thresholds set_max_concurrent
start-Inv keys low stop cap h = (h, λ i. flight-new keys i, λ i. omega (arith, flight-new keys i))

start-max_concurrent :
    (keys : List Bytes) (low stop cap : ℕ) → (start keys low stop cap).pool.max_concurrent ≡ cap
unfolding new_key_pool set_thresholds set_max_concurrent
start-max_concurrent keys low stop cap = refl

Move-max_concurrent : {u v : System} → Move u v → v.pool.max_concurrent ≡ u.pool.max_concurrent
unfolding step
Move-max_concurrent {u} (enter i e v) = rw v (step-max_concurrent u.pool (acquires i))
Move-max_concurrent {u} (refuse i e v) = rw v (step-max_concurrent u.pool (acquires i))
Move-max_concurrent {u} (leave i xs ys e v) = rw v (step-max_concurrent u.pool (releases i))
Move-max_concurrent {u} (call c k v) = rw v (step-max_concurrent u.pool c)

Reach-max_concurrent : {u v : System} → Reach u v → v.pool.max_concurrent ≡ u.pool.max_concurrent
Reach-max_concurrent here = refl
Reach-max_concurrent (next r m) = Move-max_concurrent m ∙ Reach-max_concurrent r

-- In every interleaving of requests and other calls on a new pool with the limit `cap`, the count
-- that the pool keeps for a key is the number of requests that hold a slot of it, and never more
-- than the limit.
pub Reach-start :
    (keys : List Bytes) (low stop cap i : ℕ) {u : System} {s : Slot}
    → cap ≢ 0
    → Reach (start keys low stop cap) u
    → get_elem? u.pool.slots i ≡ some s
    → (s.in_flight ≡ count i u.holders) × (count i u.holders ≤ cap)
Reach-start keys low stop cap i {u} h r at =
    let (limited, counted, within) = Reach-Inv r (start-Inv keys low stop cap h) in
    omega (
      arith,
      flight-get_elem? u.pool.slots i at,
      counted i,
      within i,
      Reach-max_concurrent r,
      start-max_concurrent keys low stop cap,
    )
