-- ===== src/Pool/Reset/Laws.antt =====
-- keys.go: what ReenableDue does to each key, and its count.
use api_key_rotator.Base.{
  ℕ, zero, suc, ◌+◌, ◌≡◌, refl, List, [], ◌∷◌, some, arith, if◌then◌else◌, get_elem?,
}
use api_key_rotator.Pool.State.{KeyPool, Slot}
use api_key_rotator.Pool.Reset.{is_due, switch_on, reenable_slots, reenable_due}

-- The keys that are due.
abbrev pub due_in : ℕ → List Slot → ℕ
due_in now [] = 0
due_in now (s ∷ ss) = (if is_due now s then 1 else 0) + due_in now ss

reenable_slots-get_elem? :
    (now : ℕ) (ss : List Slot) (j : ℕ) {s : Slot}
    → get_elem? ss j ≡ some s
    → get_elem? (reenable_slots now ss).0 j ≡ some (if is_due now s then switch_on s else s)
unfolding reenable_slots
reenable_slots-get_elem? now [] j e = cc
reenable_slots-get_elem? now (s ∷ ss) zero e = ground arith
reenable_slots-get_elem? now (s ∷ ss) (suc j) e =
    ground (arith, reenable_slots-get_elem? now ss j e)

pub reenable_due-get_elem? :
    (now : ℕ) (p : KeyPool) (j : ℕ) {s : Slot}
    → get_elem? p.slots j ≡ some s
    → get_elem? (reenable_due now p).0.slots j ≡ some (if is_due now s then switch_on s else s)
unfolding reenable_due
reenable_due-get_elem? now p j e = reenable_slots-get_elem? now p.slots j e

reenable_slots_count :
    (now : ℕ) (ss : List Slot)
    → ((reenable_slots now ss).1 ≡ due_in now ss) × (due_in now (reenable_slots now ss).0 ≡ 0)
unfolding reenable_slots is_due
reenable_slots_count now [] = (refl, refl)
reenable_slots_count now (s ∷ ss) = ground (arith, reenable_slots_count now ss)

-- ReenableDue returns the number of keys that were due, and leaves none that is due.
pub reenable_due_count :
    (now : ℕ) (p : KeyPool)
    → ((reenable_due now p).1 ≡ due_in now p.slots) × (due_in now (reenable_due now p).0.slots ≡ 0)
unfolding reenable_due
reenable_due_count now p = reenable_slots_count now p.slots
