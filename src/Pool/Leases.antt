-- ===== src/Pool/Leases.antt =====
-- keys.go: TryAcquire and Release under concurrent requests. A request holds the slot of its key
-- from the TryAcquire that succeeds to its Release; the steps of all the requests, and the other
-- calls on the pool, interleave in any order.
pub mod Flight
pub mod Balance
pub mod Cap
use api_key_rotator.Base.{
  ℕ, zero, suc, ◌+◌, ◌-◌, ◌≤◌, ◌<◌, ◌≡◌, ◌≢◌, refl, sym, ◌∙◌, ap, List, [], ◌∷◌, ◌++◌, Option, none,
  some, arith, Bool, true, false, if◌then◌else◌, ◌==◌, get_elem?, modify, inl, inr, Bool-cases, map,
  All-get_elem?,
}
use api_key_rotator.Base.Int.{ℤ, pos, negsuc, pos_part}
use api_key_rotator.Base.Text.{Bytes}
use api_key_rotator.Pool.State.{
  KeyPool, Slot, new_slot, new_key_pool, set_thresholds, set_max_concurrent,
}
use api_key_rotator.Pool.Slots.{try_acquire, release, take_slot, give_slot}
use api_key_rotator.Pool.Slots.Acquire.{taken, taken-slots, try_acquire_cases}
use api_key_rotator.Pool.Advance.{advance, advance_after}
use api_key_rotator.Pool.Credits.{
  Rejection, reject, spend, record_success, record_rejection, decrement, set_credits, disable,
}
use api_key_rotator.Pool.Reset.{reenable_slots, reenable_due}
use api_key_rotator.Pool.Ops.{
  Call, selects, advances, advances_after, acquires, releases, succeeds, rejects, decrements,
  measures, disables, reenables, step, release_cases, rejects_cases, current-slots,
  step-max_concurrent,
}

-- How often an index occurs.
abbrev pub count : ℕ → List ℕ → ℕ
count i [] = 0
count i (j ∷ js) = (if j == i then 1 else 0) + count i js

-- The pool, and the keys whose slots are held, once for each request that holds one.
pub record System : Type 0 where
  pub pool : KeyPool
  pub holders : List ℕ

abbrev pub IsOther : Call → Type 0
IsOther (acquires i) = ⊥
IsOther (releases i) = ⊥
IsOther _ = Unit

pub data Move (u v : System) : Type 0 where
  enter :
      (i : ℕ)
      → (try_acquire i u.pool).1 ≡ true
      → v ≡ record { pool = (try_acquire i u.pool).0; holders = i ∷ u.holders }
      → Move u v
  refuse :
      (i : ℕ)
      → (try_acquire i u.pool).1 ≡ false
      → v ≡ record u { pool = (try_acquire i u.pool).0 }
      → Move u v
  leave :
      (i : ℕ) (xs ys : List ℕ)
      → u.holders ≡ xs ++ i ∷ ys
      → v ≡ record { pool = release i u.pool; holders = xs ++ ys }
      → Move u v
  call : (c : Call) → IsOther c → v ≡ record u { pool = step u.pool c } → Move u v

pub data Reach (u : System) : System → Type 0 where
  here : Reach u u
  next : {v w : System} → Reach u v → Move v w → Reach u w
