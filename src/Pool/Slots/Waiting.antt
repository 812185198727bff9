-- ===== src/Pool/Slots/Waiting.antt =====
-- keys.go: Release and the waiters, and the answer of WaitForSlot.
use api_key_rotator.Base.{
  ℕ, zero, suc, ◌≤◌, ◌<◌, ◌≡◌, ◌≢◌, refl, List, [], ◌∷◌, some, arith, Bool, true, false, get_elem?,
  get_elem?-modify_self, modify, ◌||◌,
}
use api_key_rotator.Pool.State.{KeyPool, Slot}
use api_key_rotator.Pool.Slots.{
  has_slot, any_has_slot, any_slot_free, give_slot, release, Wake, token, timer, canceled,
  wait_loop,
}

any_has_slot-get_elem? :
    (p : KeyPool) (ss : List Slot) (i : ℕ) {s : Slot}
    → get_elem? ss i ≡ some s
    → has_slot p s ≡ true
    → any_has_slot p ss ≡ true
unfolding any_has_slot
any_has_slot-get_elem? p [] i e h = cc
any_has_slot-get_elem? p (s ∷ ss) zero e h = ground arith
any_has_slot-get_elem? p (s ∷ ss) (suc i) e h = ground (arith, any_has_slot-get_elem? p ss i e h)

pub release_limited :
    (i : ℕ) (p : KeyPool)
    → p.max_concurrent ≢ 0
    → release i p ≡ record p { slots = modify p.slots i give_slot; slot_free = true }
unfolding release
release_limited i p limited = ground arith

-- When a request that holds a slot of key `i` releases it, in a pool that keeps its limit, the
-- wake-up token lies in the channel and a waiter that checks then finds a free slot.
pub release-any_slot_free :
    (i : ℕ) (p : KeyPool) {s : Slot}
    → p.max_concurrent ≢ 0
    → get_elem? p.slots i ≡ some s
    → 0 < s.in_flight
    → s.in_flight ≤ p.max_concurrent
    → ((release i p).slot_free ≡ true) × (any_slot_free (release i p) ≡ true)
unfolding any_slot_free has_slot
release-any_slot_free i p {s} limited at held within =
    let given = get_elem?-modify_self p.slots i give_slot at in
    rw (release_limited i p limited) (
      refl,
      any_has_slot-get_elem? (record p { slots = modify p.slots i give_slot; slot_free = true })
          (modify p.slots i give_slot) i given (ground arith),
    )

-- The pools that the checks of a waiter see.
abbrev pub seen : KeyPool → List Wake → List KeyPool
seen p [] = p ∷ []
seen p (timer ∷ ws) = p ∷ []
seen p (canceled ∷ ws) = p ∷ []
seen p (token q ∷ ws) = p ∷ seen (record q { slot_free = false }) ws

abbrev pub any_free : List KeyPool → Bool
any_free [] = false
any_free (p ∷ ps) = any_slot_free p || any_free ps

-- When the loop answers, it answers whether one of its checks has seen a free slot.
pub wait_loop-seen :
    (p : KeyPool) (events : List Wake) {b : Bool}
    → wait_loop p events ≡ some b
    → b ≡ any_free (seen p events)
unfolding wait_loop
wait_loop-seen p [] {b} e = ground arith
wait_loop-seen p (timer ∷ ws) {b} e = ground arith
wait_loop-seen p (canceled ∷ ws) {b} e = ground arith
wait_loop-seen p (token q ∷ ws) {b} e =
    ground (arith, wait_loop-seen (record q { slot_free = false }) ws {b = b})
