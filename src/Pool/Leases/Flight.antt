-- ===== src/Pool/Leases/Flight.antt =====
-- keys.go: the slice inFlight under each call.
use api_key_rotator.Base.{
  ℕ, zero, suc, ◌+◌, ◌-◌, ◌≡◌, refl, List, [], ◌∷◌, ◌++◌, some, arith, if◌then◌else◌, ◌==◌,
  get_elem?, modify, inl, inr, map,
}
use api_key_rotator.Base.Text.{Bytes}
use api_key_rotator.Pool.State.{KeyPool, Slot, new_slot}
use api_key_rotator.Pool.Slots.{take_slot, give_slot}
use api_key_rotator.Pool.Advance.{advance, advance_after}
use api_key_rotator.Pool.Credits.{reject, record_success, decrement, set_credits, disable}
use api_key_rotator.Pool.Reset.{reenable_slots, reenable_due}
use api_key_rotator.Pool.Ops.{
  Call, selects, advances, advances_after, acquires, releases, succeeds, rejects, decrements,
  measures, disables, reenables, step, rejects_cases, current-slots,
}
use api_key_rotator.Pool.Leases.{count, IsOther}

-- inFlight[i], and 0 out of range.
pub flight : List Slot → ℕ → ℕ
flight [] i = 0
flight (s ∷ ss) zero = s.in_flight
flight (s ∷ ss) (suc i) = flight ss i

pub flight-modify :
    (ss : List Slot) (i j : ℕ) (f : Slot → Slot)
    → ((s : Slot) → (f s).in_flight ≡ s.in_flight)
    → flight (modify ss j f) i ≡ flight ss i
unfolding flight
flight-modify [] i j f k = refl
flight-modify (s ∷ ss) zero zero f k = k s
flight-modify (s ∷ ss) zero (suc j) f k = refl
flight-modify (s ∷ ss) (suc i) zero f k = refl
flight-modify (s ∷ ss) (suc i) (suc j) f k = flight-modify ss i j f k

pub flight-take :
    (ss : List Slot) (i j : ℕ) {s : Slot}
    → get_elem? ss j ≡ some s
    → flight (modify ss j take_slot) i ≡ (if j == i then 1 else 0) + flight ss i
unfolding flight
flight-take [] i j e = cc
flight-take (s ∷ ss) zero zero e = omega arith
flight-take (s ∷ ss) zero (suc j) e = ground arith
flight-take (s ∷ ss) (suc i) zero e = ground arith
flight-take (s ∷ ss) (suc i) (suc j) e = ground (arith, flight-take ss i j e)

pub flight-give :
    (ss : List Slot) (i j : ℕ)
    → flight (modify ss j give_slot) i ≡ flight ss i - (if j == i then 1 else 0)
unfolding flight
flight-give [] i j = ground arith
flight-give (s ∷ ss) zero zero = omega arith
flight-give (s ∷ ss) zero (suc j) = ground arith
flight-give (s ∷ ss) (suc i) zero = ground arith
flight-give (s ∷ ss) (suc i) (suc j) = ground (arith, flight-give ss i j)

flight-reenable :
    (now : ℕ) (ss : List Slot) (i : ℕ) → flight (reenable_slots now ss).0 i ≡ flight ss i
unfolding flight reenable_slots
flight-reenable now [] i = refl
flight-reenable now (s ∷ ss) zero = ground arith
flight-reenable now (s ∷ ss) (suc i) = ground (arith, flight-reenable now ss i)

-- The other calls leave every count of requests in flight alone.
pub flight-step :
    (p : KeyPool) (c : Call) (i : ℕ) → IsOther c → flight (step p c).slots i ≡ flight p.slots i
unfolding step advance advance_after record_success decrement set_credits disable reenable_due
flight-step p (selects now) i k = rw (current-slots now p)
flight-step p (advances now) i k =
    rw (current-slots now _) (flight-modify p.slots i p.cursor _ (λ s. refl))
flight-step p (advances_after h now) i k =
    rw (current-slots now _) (flight-modify p.slots i p.cursor _ (λ s. refl))
flight-step p (acquires j) i k = absurd k
flight-step p (releases j) i k = absurd k
flight-step p (succeeds j) i k = flight-modify p.slots i j _ (λ s. refl)
flight-step p (rejects j kind) i k = elim (rejects_cases j kind p) [
  | inl e ↦ rw e
  | inr e ↦ rw e (flight-modify p.slots i j (reject kind) (λ s. refl))
]
flight-step p (decrements j cost) i k = flight-modify p.slots i j _ (λ s. ground arith)
flight-step p (measures j credits) i k = flight-modify p.slots i j _ (λ s. refl)
flight-step p (disables j until) i k = flight-modify p.slots i j _ (λ s. refl)
flight-step p (reenables now) i k = flight-reenable now p.slots i

pub count-append : (i : ℕ) (xs ys : List ℕ) → count i (xs ++ ys) ≡ count i xs + count i ys
count-append i [] ys = omega arith
count-append i (x ∷ xs) ys = omega (arith, count-append i xs ys)

pub flight-get_elem? :
    (ss : List Slot) (i : ℕ) {s : Slot} → get_elem? ss i ≡ some s → s.in_flight ≡ flight ss i
unfolding flight
flight-get_elem? [] i e = cc
flight-get_elem? (x ∷ ss) zero e = cc
flight-get_elem? (x ∷ ss) (suc i) e = flight-get_elem? ss i e

pub flight-new : (keys : List Bytes) (i : ℕ) → flight (map new_slot keys) i ≡ 0
unfolding flight
flight-new [] i = refl
flight-new (k ∷ keys) zero = refl
flight-new (k ∷ keys) (suc i) = flight-new keys i
