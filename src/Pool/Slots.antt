-- ===== src/Pool/Slots.antt =====
-- keys.go: hasSlotLocked, anySlotFreeLocked, TryAcquire, Release and WaitForSlot. An index is a
-- natural number: the callers pass one that Current has returned.
pub mod Acquire
pub mod Waiting
use api_key_rotator.Base.{
  ℕ, ◌+◌, ◌-◌, Bool, true, false, ◌||◌, List, [], ◌∷◌, Option, none, some, ltb, ◌==◌, if◌then◌else◌,
  get_elem?, modify,
}
use api_key_rotator.Pool.State.{KeyPool, Slot}

unfoldable pub has_slot : KeyPool → Slot → Bool
has_slot p s = p.max_concurrent == 0 || ltb s.in_flight p.max_concurrent

unfoldable pub any_has_slot : KeyPool → List Slot → Bool
any_has_slot p [] = false
any_has_slot p (s ∷ ss) = has_slot p s || any_has_slot p ss

unfoldable pub any_slot_free : KeyPool → Bool
unfolding any_has_slot
any_slot_free p = any_has_slot p p.slots

abbrev pub take_slot : Slot → Slot
take_slot s = record s { in_flight = s.in_flight + 1 }

abbrev pub give_slot : Slot → Slot
give_slot s = record s { in_flight = s.in_flight - 1 }

unfoldable pub try_acquire : ℕ → KeyPool → KeyPool × Bool
try_acquire i p = if p.max_concurrent == 0 then (p, true) else elim (get_elem? p.slots i) [
  | none ↦ (p, false)
  | some s ↦
      if ltb s.in_flight p.max_concurrent
      then (record p { slots = modify p.slots i take_slot }, true)
      else (p, false)
]

-- `-` stops at 0: the guard `inFlight[index] > 0`.
unfoldable pub release : ℕ → KeyPool → KeyPool
release i p =
    if p.max_concurrent == 0
    then p
    else record p { slots = modify p.slots i give_slot; slot_free = true }

-- What ends one `select` of WaitForSlot: the token was received, and the next check sees the given
-- pool; the timer fired; the context was canceled.
pub data Wake : Type 0 where
  token : KeyPool → Wake
  timer : Wake
  canceled : Wake

-- The loop, over the events that the waiter meets; `none` while it is still blocked.
unfoldable pub wait_loop : KeyPool → List Wake → Option Bool
wait_loop p [] = if any_slot_free p then some true else none
wait_loop p (timer ∷ ws) = some (any_slot_free p)
wait_loop p (canceled ∷ ws) = some (any_slot_free p)
wait_loop p (token q ∷ ws) =
    let rest = wait_loop (record q { slot_free = false }) ws in
    if any_slot_free p then some true else rest

-- `timeout <= 0` checks once.
unfoldable pub wait_for_slot : ℕ → KeyPool → List Wake → Option Bool
unfolding wait_loop
wait_for_slot timeout p events =
    if p.max_concurrent == 0
    then some true
    else if timeout == 0
    then some (any_slot_free p)
    else wait_loop p events
