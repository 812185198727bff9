-- ===== src/Pool/Slots/Acquire.antt =====
-- keys.go: the three ways in which TryAcquire ends.
use api_key_rotator.Base.{
  ℕ, ◌<◌, ◌≡◌, ◌≢◌, ◌⊎◌, inl, inr, true, false, some, arith, Option-cases, get_elem?, modify, refl,
  Bool-cases, ltb, ◌==◌,
}
use api_key_rotator.Pool.State.{KeyPool, Slot}
use api_key_rotator.Pool.Slots.{try_acquire, take_slot}

pub taken : ℕ → KeyPool → KeyPool
taken i p = record p { slots = modify p.slots i take_slot }

pub taken-slots : (i : ℕ) (p : KeyPool) → (taken i p).slots ≡ modify p.slots i take_slot
unfolding taken
taken-slots i p = refl

pub try_acquire_cases :
    (i : ℕ) (p : KeyPool)
    → ((p.max_concurrent ≡ 0) × (try_acquire i p ≡ (p, true)))
      ⊎ (((s : Slot) × (get_elem? p.slots i ≡ some s)
            × (s.in_flight < p.max_concurrent)
            × (try_acquire i p ≡ (taken i p, true)))
          ⊎ ((p.max_concurrent ≢ 0) × (try_acquire i p ≡ (p, false))))
unfolding try_acquire taken
try_acquire_cases i p = elim (Option-cases (get_elem? p.slots i)) [
  | inl e ↦ ground arith
  | inr (s, e) ↦ elim (Bool-cases (p.max_concurrent == 0)) [
    | inl unlimited ↦ inl (ground arith, ground arith)
    | inr limited ↦ elim (Bool-cases (ltb s.in_flight p.max_concurrent)) [
      | inl room ↦ inr (inl (s, e, ground arith, ground arith))
      | inr full ↦ inr (inr (ground arith, ground arith))
    ]
  ]
]

pub taken-max_concurrent : (i : ℕ) (p : KeyPool) → (taken i p).max_concurrent ≡ p.max_concurrent
unfolding taken
taken-max_concurrent i p = refl
