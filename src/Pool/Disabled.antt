-- ===== src/Pool/Disabled.antt =====
-- keys.go: a key between Disable and ReenableDue.
use api_key_rotator.Base.{
  ℕ, ◌≤◌, ◌<◌, ◌≡◌, ◌≢◌, refl, ◌∙◌, List, [], ◌∷◌, some, arith, true, get_elem?,
  get_elem?-modify_self, modify, All, Holds, Holds-modify, Holds-modify_ne, inl, inr,
}
use api_key_rotator.Base.Text.{Bytes}
use api_key_rotator.Pool.State.{KeyPool, Slot, unmeasured}
use api_key_rotator.Pool.Slots.{try_acquire, release, take_slot, give_slot}
use api_key_rotator.Pool.Slots.Acquire.{taken-slots, try_acquire_cases}
use api_key_rotator.Pool.Select.{current, usable}
use api_key_rotator.Pool.Select.Best.{chosen-usable}
use api_key_rotator.Pool.Select.Current.{current-eq-some}
use api_key_rotator.Pool.Advance.{advance, advance_after}
use api_key_rotator.Pool.Credits.{
  Rejection, reject, record_success, decrement, set_credits, disable, switch_off,
}
use api_key_rotator.Pool.Reset.{is_due, switch_on, reenable_due}
use api_key_rotator.Pool.Reset.Laws.{reenable_due-get_elem?}
use api_key_rotator.Pool.Ops.{
  Call, selects, advances, advances_after, acquires, releases, succeeds, rejects, decrements,
  measures, disables, reenables, step, run, run-stop_threshold, release_cases, rejects_cases,
  current-slots,
}

abbrev pub OffUntil : ℕ → Slot → Type 0
OffUntil t s = (s.disabled ≡ true) × (s.disabled_until ≡ some t)

-- The call is no second Disable of the key `i` and no ReenableDue at `t` or later.
abbrev pub Spares : ℕ → ℕ → Call → Type 0
Spares i t (disables j until) = j ≢ i
Spares i t (reenables now) = now < t
Spares i t _ = Unit

module _ (i t : ℕ) (p : KeyPool) (h : Holds (OffUntil t) p.slots i) where
  kept :
      (j : ℕ) (f : Slot → Slot)
      → ((s : Slot) → OffUntil t s → OffUntil t (f s))
      → Holds (OffUntil t) (modify p.slots j f) i
  kept j f k = Holds-modify (OffUntil t) p.slots i j f k h

  try_acquire-OffUntil : (j : ℕ) → Holds (OffUntil t) (try_acquire j p).0.slots i
  try_acquire-OffUntil j = elim (try_acquire_cases j p) [
    | inl (_, e) ↦ rw e h
    | inr (inl (s, at, room, e)) ↦ rw (e, taken-slots j p) (kept j take_slot (λ s o. o))
    | inr (inr (_, e)) ↦ rw e h
  ]

  release-OffUntil : (j : ℕ) → Holds (OffUntil t) (release j p).slots i
  release-OffUntil j = elim (release_cases j p) [
    | inl e ↦ rw e h
    | inr e ↦ rw e (kept j give_slot (λ s o. o))
  ]

  reject-OffUntil :
      (j : ℕ) (kind : Rejection) → Holds (OffUntil t) (step p (rejects j kind)).slots i
  reject-OffUntil j kind = elim (rejects_cases j kind p) [
    | inl e ↦ rw e h
    | inr e ↦ rw e (kept j (reject kind) (λ s o. o))
  ]

  reenable_due-OffUntil : (now : ℕ) → now < t → Holds (OffUntil t) (reenable_due now p).0.slots i
  unfolding is_due
  reenable_due-OffUntil now early =
      let (s, at, off) = h in (s, ground (arith, reenable_due-get_elem? now p i at), off)

  step-OffUntil : (c : Call) → Spares i t c → Holds (OffUntil t) (step p c).slots i
  unfolding step advance advance_after record_success decrement set_credits disable
  step-OffUntil (selects now) k = rw (current-slots now p) h
  step-OffUntil (advances now) k = rw (current-slots now _) (kept p.cursor _ (λ s o. o))
  step-OffUntil (advances_after hd now) k = rw (current-slots now _) (kept p.cursor _ (λ s o. o))
  step-OffUntil (acquires j) k = try_acquire-OffUntil j
  step-OffUntil (releases j) k = release-OffUntil j
  step-OffUntil (succeeds j) k = kept j _ (λ s o. o)
  step-OffUntil (rejects j kind) k = reject-OffUntil j kind
  step-OffUntil (decrements j cost) k = kept j _ (λ s o. ground arith)
  step-OffUntil (measures j credits) k = kept j _ (λ s o. o)
  step-OffUntil (disables j until) k = Holds-modify_ne (OffUntil t) p.slots i j _ k h
  step-OffUntil (reenables now) k = reenable_due-OffUntil now k

run-OffUntil :
    (i t : ℕ) (p : KeyPool) (cs : List Call)
    → All (Spares i t) cs
    → Holds (OffUntil t) p.slots i
    → Holds (OffUntil t) (run p cs).slots i
unfolding run
run-OffUntil i t p [] k h = h
run-OffUntil i t p (c ∷ cs) k h = run-OffUntil i t (step p c) cs k.1 (step-OffUntil i t p h c k.0)

-- A key that is off until `t` is never the one that Current returns, whatever calls came between,
-- unless ReenableDue ran at `t` or later or the key was disabled anew.
pub run-disabled-ne :
    (i t : ℕ) (p : KeyPool) (cs : List Call) (now j : ℕ) (key : Bytes) {s : Slot}
    → get_elem? p.slots i ≡ some s
    → s.disabled ≡ true
    → s.disabled_until ≡ some t
    → All (Spares i t) cs
    → (current now (run p cs)).1 ≡ some (j, key)
    → j ≢ i
unfolding usable
run-disabled-ne i t p cs now j key {s} at off until k e =
    let (s', at', off') = run-OffUntil i t p cs k (s, at, (off, until)) in
    let (c, found, _, _) = current-eq-some now (run p cs) j key e in
    let (s'', at'', pass, _) = chosen-usable (run p cs) now j c found in
    λ same. differ s' s'' at' (rw (← same) at'') off'.0 pass
  where
    differ :
        (a b : Slot)
        → get_elem? (run p cs).slots i ≡ some a
        → get_elem? (run p cs).slots i ≡ some b
        → a.disabled ≡ true
        → usable (run p cs) b ≡ true
        → ⊥
    differ a b x y z w = ground arith

disable-OffUntil :
    (i t : ℕ) (p : KeyPool) {s : Slot}
    → get_elem? p.slots i ≡ some s
    → Holds (OffUntil t) (disable i t p).slots i
unfolding disable
disable-OffUntil i t p {s} at =
    (switch_off t s, get_elem?-modify_self p.slots i (switch_off t) at, (refl, refl))

OffUntil-is_due : (t now : ℕ) (s : Slot) → OffUntil t s → t ≤ now → is_due now s ≡ true
unfolding is_due
OffUntil-is_due t now s off late = ground arith

reenable_due-stop_threshold :
    (now : ℕ) (p : KeyPool) → (reenable_due now p).0.stop_threshold ≡ p.stop_threshold
unfolding reenable_due
reenable_due-stop_threshold now p = refl

disable-stop_threshold : (i t : ℕ) (p : KeyPool) → (disable i t p).stop_threshold ≡ p.stop_threshold
unfolding disable
disable-stop_threshold i t p = refl

switch_on-usable :
    (p : KeyPool) (s : Slot) → p.stop_threshold ≤ unmeasured → usable p (switch_on s) ≡ true
unfolding usable
switch_on-usable p s low = ground arith

-- After any calls that neither disable it anew nor run ReenableDue at `t` or later, a key that
-- Disable switched off until `t` is usable again, with an unmeasured balance, once ReenableDue runs
-- at `now`, for `t` up to `now` and a stop threshold that is an int64.
pub disable-reenable_due :
    (i t now : ℕ) (p : KeyPool) (cs : List Call) {s : Slot}
    → get_elem? p.slots i ≡ some s
    → All (Spares i t) cs
    → t ≤ now
    → p.stop_threshold ≤ unmeasured
    → (s' : Slot) × (get_elem? (reenable_due now (run (disable i t p) cs)).0.slots i ≡ some s')
      × (s'.remaining_credits ≡ unmeasured)
      × (usable (reenable_due now (run (disable i t p) cs)).0 s' ≡ true)
disable-reenable_due i t now p cs {s} at k late low =
    let q = run (disable i t p) cs in
    let (s', at', off) = run-OffUntil i t (disable i t p) cs k (disable-OffUntil i t p at) in
    let same : (reenable_due now q).0.stop_threshold ≡ p.stop_threshold =
      reenable_due-stop_threshold now q
      ∙ (run-stop_threshold (disable i t p) cs ∙ disable-stop_threshold i t p) in
    (
      switch_on s',
      rw (OffUntil-is_due t now s' off late) at (reenable_due-get_elem? now q i at'),
      refl,
      switch_on-usable (reenable_due now q).0 s' (rw same low),
    )
