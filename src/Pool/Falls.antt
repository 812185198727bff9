-- ===== src/Pool/Falls.antt =====
-- keys.go: the calls that never raise a balance.
use api_key_rotator.Base.{ℕ, zero, suc, ◌≤◌, ◌≡◌, refl, inl, inr, List, [], ◌∷◌, arith, All, modify}
use api_key_rotator.Pool.State.{KeyPool, Slot}
use api_key_rotator.Pool.Slots.{try_acquire, take_slot, give_slot}
use api_key_rotator.Pool.Slots.Acquire.{taken-slots, try_acquire_cases}
use api_key_rotator.Pool.Advance.{advance, advance_after, cool_until}
use api_key_rotator.Pool.Credits.{
  Rejection, succeed, reject, spend, charged, switch_off, record_success, decrement, disable,
}
use api_key_rotator.Pool.Ops.{
  Call, selects, advances, advances_after, acquires, releases, succeeds, rejects, decrements,
  measures, disables, reenables, step, run, release_cases, rejects_cases, current-slots,
}

-- The balance of a key, with the mark of an unmeasured one, above all others, as it stands; 0 for no
-- key.
abbrev pub balance_in : List Slot → ℕ → ℕ
balance_in [] j = 0
balance_in (s ∷ ss) zero = s.remaining_credits
balance_in (s ∷ ss) (suc j) = balance_in ss j

abbrev pub balance_at : KeyPool → ℕ → ℕ
balance_at p = balance_in p.slots

-- SetCredits and ReenableDue are the calls that may.
abbrev pub IsCharge : Call → Type 0
IsCharge (measures i credits) = ⊥
IsCharge (reenables now) = ⊥
IsCharge _ = Unit

-- No key has more in `q` than in `p`.
unfoldable pub Falls : KeyPool → KeyPool → Type 0
Falls p q = (j : ℕ) → balance_at q j ≤ balance_at p j

pub Falls-le : (p q : KeyPool) → Falls p q → (j : ℕ) → balance_at q j ≤ balance_at p j
unfolding Falls
Falls-le p q h = h

pub Falls-refl : (p : KeyPool) → Falls p p
unfolding Falls
Falls-refl p j = omega arith

pub Falls-trans : (p q s : KeyPool) → Falls p q → Falls q s → Falls p s
unfolding Falls
Falls-trans p q s a b j = omega (arith, a j, b j)

-- A call that leaves the slots alone.
pub Falls-slots : (p q : KeyPool) → q.slots ≡ p.slots → Falls p q
unfolding Falls
Falls-slots p q e j = rw e (omega arith)

balance_in-modify :
    (ss : List Slot) (i j : ℕ) (f : Slot → Slot)
    → ((s : Slot) → (f s).remaining_credits ≤ s.remaining_credits)
    → balance_in (modify ss i f) j ≤ balance_in ss j
balance_in-modify [] i j f h = omega arith
balance_in-modify (s ∷ ss) zero zero f h = h s
balance_in-modify (s ∷ ss) zero (suc j) f h = omega arith
balance_in-modify (s ∷ ss) (suc i) zero f h = omega arith
balance_in-modify (s ∷ ss) (suc i) (suc j) f h = balance_in-modify ss i j f h

-- A call that changes one slot, and never to a higher balance.
Falls-modify :
    (p q : KeyPool) (i : ℕ) (f : Slot → Slot)
    → ((s : Slot) → (f s).remaining_credits ≤ s.remaining_credits)
    → q.slots ≡ modify p.slots i f
    → Falls p q
unfolding Falls
Falls-modify p q i f h e j = rw e (balance_in-modify p.slots i j f h)

spend-le : (cost : ℕ) (s : Slot) → (spend cost s).remaining_credits ≤ s.remaining_credits
spend-le cost s = ground arith

switch_off-le : (t : ℕ) (s : Slot) → (switch_off t s).remaining_credits ≤ s.remaining_credits
switch_off-le t s = ground arith

reject-le : (kind : Rejection) (s : Slot) → (reject kind s).remaining_credits ≤ s.remaining_credits
reject-le kind s = omega arith

acquire-Falls : (i : ℕ) (p : KeyPool) → Falls p (try_acquire i p).0
acquire-Falls i p = elim (try_acquire_cases i p) [
  | inl (_, e) ↦ rw e (Falls-refl p)
  | inr (inl (_, _, _, e)) ↦
      rw e (Falls-modify p _ i take_slot (λ s. omega arith) (taken-slots i p))
  | inr (inr (_, e)) ↦ rw e (Falls-refl p)
]

pub step-Falls : (p : KeyPool) (c : Call) → IsCharge c → Falls p (step p c)
unfolding step advance advance_after record_success decrement disable
step-Falls p (selects now) k = Falls-slots p _ (current-slots now p)
step-Falls p (advances now) k =
    Falls-modify p _ p.cursor (cool_until _) (λ s. omega arith) (current-slots now _)
step-Falls p (advances_after h now) k =
    Falls-modify p _ p.cursor (cool_until _) (λ s. omega arith) (current-slots now _)
step-Falls p (acquires i) k = acquire-Falls i p
step-Falls p (releases i) k = elim (release_cases i p) [
  | inl e ↦ Falls-slots p _ e
  | inr e ↦ Falls-modify p _ i give_slot (λ s. omega arith) e
]
step-Falls p (succeeds i) k = Falls-modify p _ i succeed (λ s. omega arith) refl
step-Falls p (rejects i kind) k = elim (rejects_cases i kind p) [
  | inl e ↦ Falls-slots p _ e
  | inr e ↦ Falls-modify p _ i (reject kind) (reject-le kind) e
]
step-Falls p (decrements i cost) k = Falls-modify p _ i (spend (charged cost)) (spend-le _) refl
step-Falls p (disables i until) k = Falls-modify p _ i (switch_off until) (switch_off-le until) refl
step-Falls p (measures i credits) k = elim k [ ]
step-Falls p (reenables now) k = elim k [ ]

pub run-Falls : (p : KeyPool) (cs : List Call) → All IsCharge cs → Falls p (run p cs)
unfolding run
run-Falls p [] k = Falls-refl p
run-Falls p (c ∷ cs) k =
    Falls-trans p (step p c) _ (step-Falls p c k.0) (run-Falls (step p c) cs k.1)
