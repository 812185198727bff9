-- ===== src/Pool/Ops.antt =====
-- keys.go: the methods of KeyPool as calls. Each runs under the mutex, so whatever the goroutines
-- do is a list of calls, in the order in which they got the lock.
use api_key_rotator.Base.{
  ℕ, refl, ◌∙◌, ◌≡◌, ◌⊎◌, inl, inr, ◌==◌, Bool-cases, Option-cases, modify, get_elem?, List, [],
  ◌∷◌, Option, none, some, arith,
}
use api_key_rotator.Base.Int.{ℤ}
use api_key_rotator.Pool.State.{KeyPool}
use api_key_rotator.Pool.Slots.{give_slot, try_acquire, release}
use api_key_rotator.Pool.Select.{current}
use api_key_rotator.Headers.{Header}
use api_key_rotator.Pool.Advance.{advance, advance_after}
use api_key_rotator.Pool.Credits.{
  reject, Rejection, record_success, record_rejection, decrement, set_credits, disable,
}
use api_key_rotator.Pool.Reset.{reenable_due}

pub data Call : Type 0 where
  selects : ℕ → Call
  advances : ℕ → Call
  advances_after : Header → ℕ → Call
  acquires : ℕ → Call
  releases : ℕ → Call
  succeeds : ℕ → Call
  rejects : ℕ → Rejection → Call
  decrements : ℕ → ℤ → Call
  measures : ℕ → ℤ → Call
  disables : ℕ → ℕ → Call
  reenables : ℕ → Call

-- A call that panics leaves the pool as it was.
abbrev or_same : KeyPool → Option KeyPool → KeyPool
or_same p none = p
or_same p (some q) = q

unfoldable pub step : KeyPool → Call → KeyPool
step p (selects now) = (current now p).0
step p (advances now) = (advance now p).0
step p (advances_after h now) = (advance_after h now p).0
step p (acquires i) = (try_acquire i p).0
step p (releases i) = release i p
step p (succeeds i) = record_success i p
step p (rejects i kind) = or_same p (record_rejection i kind p)
step p (decrements i cost) = decrement i cost p
step p (measures i credits) = set_credits i credits p
step p (disables i until) = disable i until p
step p (reenables now) = (reenable_due now p).0

unfoldable pub run : KeyPool → List Call → KeyPool
run p [] = p
run p (c ∷ cs) = run (step p c) cs

pub current-slots : (now : ℕ) (p : KeyPool) → (current now p).0.slots ≡ p.slots
unfolding current
current-slots now p = ground arith

pub current-max_concurrent :
    (now : ℕ) (p : KeyPool) → (current now p).0.max_concurrent ≡ p.max_concurrent
unfolding current
current-max_concurrent now p = ground arith

pub current-stop_threshold :
    (now : ℕ) (p : KeyPool) → (current now p).0.stop_threshold ≡ p.stop_threshold
unfolding current
current-stop_threshold now p = ground arith

-- No call changes the limit of a key.
pub step-max_concurrent : (p : KeyPool) (c : Call) → (step p c).max_concurrent ≡ p.max_concurrent
unfolding step advance advance_after try_acquire release record_success record_rejection decrement
    set_credits disable reenable_due
step-max_concurrent p (selects now) = current-max_concurrent now p
step-max_concurrent p (advances now) = current-max_concurrent now _
step-max_concurrent p (advances_after h now) = current-max_concurrent now _
step-max_concurrent p c = ground arith

pub release_cases :
    (i : ℕ) (p : KeyPool)
    → ((release i p).slots ≡ p.slots) ⊎ ((release i p).slots ≡ modify p.slots i give_slot)
unfolding release
release_cases i p = elim (Bool-cases (p.max_concurrent == 0)) [
  | inl unlimited ↦ inl (ground arith)
  | inr limited ↦ inr (ground arith)
]

pub rejects_cases :
    (i : ℕ) (kind : Rejection) (p : KeyPool)
    → ((step p (rejects i kind)).slots ≡ p.slots)
      ⊎ ((step p (rejects i kind)).slots ≡ modify p.slots i (reject kind))
unfolding step record_rejection
rejects_cases i kind p = elim (Option-cases (get_elem? p.slots i)) [
  | inl missing ↦ inl (ground arith)
  | inr (s, there) ↦ inr (ground arith)
]

-- No call changes the stop threshold.
pub step-stop_threshold : (p : KeyPool) (c : Call) → (step p c).stop_threshold ≡ p.stop_threshold
unfolding step advance advance_after try_acquire release record_success record_rejection decrement
    set_credits disable reenable_due
step-stop_threshold p (selects now) = current-stop_threshold now p
step-stop_threshold p (advances now) = current-stop_threshold now _
step-stop_threshold p (advances_after h now) = current-stop_threshold now _
step-stop_threshold p c = ground arith

pub run-stop_threshold :
    (p : KeyPool) (cs : List Call) → (run p cs).stop_threshold ≡ p.stop_threshold
unfolding run
run-stop_threshold p [] = refl
run-stop_threshold p (c ∷ cs) = run-stop_threshold (step p c) cs ∙ step-stop_threshold p c
