-- ===== src/Pool/Invariant.antt =====
-- keys.go: what holds of a pool after any calls, whatever their order.
use api_key_rotator.Base.{
  ℕ, ◌≤◌, ◌<◌, ◌≡◌, ◌≢◌, subst, sym, ◌⊎◌, inl, inr, List, [], ◌∷◌, none, some, arith, true,
  get_elem?, modify, All, All-modify, All-modify_at, All-map, All-get_elem?,
}
use api_key_rotator.Base.Int.{ℤ, pos_part}
use api_key_rotator.Base.Text.{Bytes}
use api_key_rotator.Pool.State.{
  KeyPool, Slot, unmeasured, new_key_pool, new_slot, set_thresholds, set_max_concurrent,
}
use api_key_rotator.Pool.Slots.{try_acquire, release, take_slot, give_slot}
use api_key_rotator.Pool.Slots.Acquire.{taken-slots, try_acquire_cases}
use api_key_rotator.Pool.Advance.{advance, advance_after, cool_until}
use api_key_rotator.Pool.Credits.{
  Rejection, succeed, reject, spend, charged, measure, switch_off, record_success, record_rejection,
  decrement, set_credits, disable,
}
use api_key_rotator.Pool.Reset.{switch_on, reenable_slots, reenable_due}
use api_key_rotator.Pool.Ops.{
  Call, selects, advances, advances_after, acquires, releases, succeeds, rejects, decrements,
  measures, disables, reenables, step, run, release_cases, rejects_cases, current-slots,
  step-max_concurrent,
}

-- A key never has more requests in flight than the limit (0 is no limit), a disabled key has an
-- instant at which it comes back, and a balance is an int64.
pub record SlotOk (cap : ℕ) (s : Slot) : Type 0 where
  pub bounded : (cap ≡ 0) ⊎ (s.in_flight ≤ cap)
  pub reset_known : s.disabled ≡ true → s.disabled_until ≢ none
  pub in_range : s.remaining_credits ≤ unmeasured

abbrev pub Inv : KeyPool → Type 0
Inv p = All (SlotOk p.max_concurrent) p.slots

-- The balance that a call records is an int64.
abbrev pub CallOk : Call → Type 0
CallOk (measures i credits) = pos_part credits ≤ unmeasured
CallOk _ = Unit

module _ (cap : ℕ) (s : Slot) (ok : SlotOk cap s) where
  cool_until-SlotOk : (t : ℕ) → SlotOk cap (cool_until t s)
  cool_until-SlotOk t = record {
    bounded = ok.bounded;
    reset_known = ok.reset_known;
    in_range = ok.in_range;
  }

  give_slot-SlotOk : SlotOk cap (give_slot s)
  give_slot-SlotOk = ground arith

  succeed-SlotOk : SlotOk cap (succeed s)
  succeed-SlotOk = ground arith

  reject-SlotOk : (kind : Rejection) → SlotOk cap (reject kind s)
  reject-SlotOk kind = record {
    bounded = ok.bounded;
    reset_known = ok.reset_known;
    in_range = ok.in_range;
  }

  spend-SlotOk : (cost : ℕ) → SlotOk cap (spend cost s)
  spend-SlotOk cost = ground arith

  measure-SlotOk : (n : ℕ) → n ≤ unmeasured → SlotOk cap (measure n s)
  measure-SlotOk n h = ground arith

  switch_off-SlotOk : (until : ℕ) → SlotOk cap (switch_off until s)
  switch_off-SlotOk until = ground arith

  switch_on-SlotOk : SlotOk cap (switch_on s)
  switch_on-SlotOk = ground arith

  take_slot-SlotOk : s.in_flight < cap → SlotOk cap (take_slot s)
  take_slot-SlotOk h = ground arith

reenable_slots-SlotOk :
    (cap now : ℕ) (ss : List Slot)
    → All (SlotOk cap) ss
    → All (SlotOk cap) (reenable_slots now ss).0
unfolding reenable_slots
reenable_slots-SlotOk cap now [] h = tt
reenable_slots-SlotOk cap now (s ∷ ss) h =
    ground (arith, reenable_slots-SlotOk cap now ss h.1, switch_on-SlotOk cap s h.0)

take-All :
    (p : KeyPool) (i : ℕ) (s : Slot)
    → Inv p
    → get_elem? p.slots i ≡ some s
    → s.in_flight < p.max_concurrent
    → All (SlotOk p.max_concurrent) (modify p.slots i take_slot)
take-All p i s h e room =
    All-modify_at (SlotOk p.max_concurrent) p.slots i take_slot e
      (take_slot-SlotOk p.max_concurrent s (All-get_elem? (SlotOk p.max_concurrent) p.slots i h e)
        room)
      h

release-SlotOk : (i : ℕ) (p : KeyPool) → Inv p → All (SlotOk p.max_concurrent) (release i p).slots
release-SlotOk i p h = elim (release_cases i p) [
  | inl e ↦ rw e h
  | inr e ↦ rw e (All-modify _ p.slots i give_slot (give_slot-SlotOk p.max_concurrent) h)
]

rejects-SlotOk :
    (p : KeyPool) (i : ℕ) (kind : Rejection)
    → Inv p
    → All (SlotOk p.max_concurrent) (step p (rejects i kind)).slots
rejects-SlotOk p i kind h = elim (rejects_cases i kind p) [
  | inl e ↦ rw e h
  | inr e ↦
      rw e
        (All-modify _ p.slots i (reject kind) (λ s ok. reject-SlotOk p.max_concurrent s ok kind) h)
]

try_acquire-SlotOk :
    (i : ℕ) (p : KeyPool) → Inv p → All (SlotOk p.max_concurrent) (try_acquire i p).0.slots
try_acquire-SlotOk i p h = elim (try_acquire_cases i p) [
  | inl (_, e) ↦ rw e h
  | inr (inl (s, at, room, e)) ↦ rw (e, taken-slots i p) (take-All p i s h at room)
  | inr (inr (_, e)) ↦ rw e h
]

step-SlotOk :
    (p : KeyPool) (c : Call) → CallOk c → Inv p → All (SlotOk p.max_concurrent) (step p c).slots
unfolding step advance advance_after release record_success record_rejection decrement set_credits
    disable reenable_due
step-SlotOk p (selects now) k h = rw (current-slots now p) h
step-SlotOk p (advances now) k h =
    rw (current-slots now _)
      (All-modify _ p.slots p.cursor _ (λ s ok. cool_until-SlotOk _ s ok _) h)
step-SlotOk p (advances_after hd now) k h =
    rw (current-slots now _)
      (All-modify _ p.slots p.cursor _ (λ s ok. cool_until-SlotOk _ s ok _) h)
step-SlotOk p (acquires i) k h = try_acquire-SlotOk i p h
step-SlotOk p (releases i) k h = release-SlotOk i p h
step-SlotOk p (succeeds i) k h = All-modify _ p.slots i _ (succeed-SlotOk _) h
step-SlotOk p (rejects i kind) k h = rejects-SlotOk p i kind h
step-SlotOk p (decrements i cost) k h =
    All-modify _ p.slots i _ (λ s ok. spend-SlotOk _ s ok (charged cost)) h
step-SlotOk p (measures i credits) k h =
    All-modify _ p.slots i _ (λ s ok. measure-SlotOk _ s ok _ k) h
step-SlotOk p (disables i until) k h =
    All-modify _ p.slots i _ (λ s ok. switch_off-SlotOk _ s ok until) h
step-SlotOk p (reenables now) k h = reenable_slots-SlotOk _ now p.slots h

pub step-Inv : (p : KeyPool) (c : Call) → CallOk c → Inv p → Inv (step p c)
step-Inv p c k h =
    subst (λ cap. All (SlotOk cap) (step p c).slots) (sym (step-max_concurrent p c))
      (step-SlotOk p c k h)

run-Inv : (p : KeyPool) (cs : List Call) → All CallOk cs → Inv p → Inv (run p cs)
unfolding run
run-Inv p [] k h = h
run-Inv p (c ∷ cs) k h = run-Inv (step p c) cs k.1 (step-Inv p c k.0 h)

pub new-Inv :
    (keys : List Bytes) (low stop : ℕ) (n : ℤ)
    → Inv (set_max_concurrent n (set_thresholds low stop (new_key_pool keys)))
unfolding new_key_pool set_thresholds set_max_concurrent
new-Inv keys low stop n = All-map (SlotOk (pos_part n)) new_slot keys (λ key. ground arith)

-- After any calls on a new pool, in any order and with any clocks, no key has more requests in
-- flight than the limit, every disabled key has an instant at which it comes back, and every
-- balance is an int64, if those that the calls record are.
pub run-new-Inv :
    (keys : List Bytes) (low stop : ℕ) (n : ℤ) (cs : List Call)
    → All CallOk cs
    → Inv (run (set_max_concurrent n (set_thresholds low stop (new_key_pool keys))) cs)
run-new-Inv keys low stop n cs k = run-Inv _ cs k (new-Inv keys low stop n)
