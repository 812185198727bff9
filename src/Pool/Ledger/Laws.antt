-- ===== src/Pool/Ledger/Laws.antt =====
-- keys.go: the pool keeps its ledger.
use api_key_rotator.Base.{
  ℕ, zero, suc, ◌≤◌, ◌≡◌, refl, sym, ap, subst, ◌∙◌, ◌↔◌, inl, inr, false, not, ◌&&◌, ◌||◌, List,
  [], ◌∷◌, none, some, arith, Bool-cases, map, modify, leb, All, if◌then◌else◌,
}
use api_key_rotator.Base.Int.{ℤ, pos_part}
use api_key_rotator.Base.Text.{Bytes}
use api_key_rotator.Pool.State.{
  KeyPool, Slot, unmeasured, new_slot, new_key_pool, set_thresholds, set_max_concurrent,
}
use api_key_rotator.Pool.Slots.{take_slot, give_slot, try_acquire, release}
use api_key_rotator.Pool.Slots.Acquire.{taken-slots, try_acquire_cases}
use api_key_rotator.Pool.Select.{current, any_usable, any_usable_in}
use api_key_rotator.Pool.Select.Current.{current-eq-none_iff}
use api_key_rotator.Pool.Advance.{advance, advance_after, cool_until}
use api_key_rotator.Pool.Credits.{
  Rejection, succeed, reject, spend, charged, measure, switch_off, record_success, decrement,
  set_credits, disable,
}
use api_key_rotator.Pool.Reset.{is_due, switch_on, reenable_slots, reenable_due}
use api_key_rotator.Pool.Ops.{
  Call, selects, advances, advances_after, acquires, releases, succeeds, rejects, decrements,
  measures, disables, reenables, step, run, release_cases, rejects_cases, current-slots,
  run-stop_threshold,
}
use api_key_rotator.Pool.Invariant.{SlotOk, Inv, CallOk, step-Inv, new-Inv}
use api_key_rotator.Pool.Ledger.{
  Account, serving, resting, balance, account, ledger, pay, correct, wake, post, replay, can_serve,
  any_serves,
}

-- A change of a slot is a change of its account.
map-modify :
    (ss : List Slot) (i : ℕ) (f : Slot → Slot) (g : Account → Account) {cap : ℕ}
    → ((s : Slot) → SlotOk cap s → account (f s) ≡ g (account s))
    → All (SlotOk cap) ss
    → map account (modify ss i f) ≡ modify (map account ss) i g
map-modify [] i f g h ok = refl
map-modify (s ∷ ss) zero f g h ok = ap (λ a. a ∷ map account ss) (h s ok.0)
map-modify (s ∷ ss) (suc i) f g h ok = ap (λ xs. account s ∷ xs) (map-modify ss i f g h ok.1)

map-modify_same :
    (ss : List Slot) (i : ℕ) (f : Slot → Slot)
    → ((s : Slot) → account (f s) ≡ account s)
    → map account (modify ss i f) ≡ map account ss
map-modify_same [] i f h = refl
map-modify_same (s ∷ ss) zero f h = ap (λ a. a ∷ map account ss) (h s)
map-modify_same (s ∷ ss) (suc i) f h = ap (λ xs. account s ∷ xs) (map-modify_same ss i f h)

balance-unmeasured : balance unmeasured ≡ none
balance-unmeasured = refl

module _ (s : Slot) where
  account-spend :
      (cost : ℕ) → s.remaining_credits ≤ unmeasured → account (spend cost s) ≡ pay cost (account s)
  account-spend cost h = ground (arith, h)

  account-measure : (n : ℕ) → account (measure n s) ≡ correct (balance n) (account s)
  account-measure n = ground arith

  account-switch_on :
      (now : ℕ) → account (if is_due now s then switch_on s else s) ≡ wake now (account s)
  unfolding is_due
  account-switch_on now = ground (arith, balance-unmeasured)

reenable_head :
    (now : ℕ) (s : Slot) (r : List Slot × ℕ)
    → map account
        (if◌then◌else◌ {A = List Slot × ℕ}
          (is_due now s)
          (switch_on s ∷ r.0, suc r.1)
          (s ∷ r.0, r.1)).0
      ≡ wake now (account s) ∷ map account r.0
reenable_head now s r = elim (Bool-cases (is_due now s)) [
  | inl due ↦ rw due (ap (λ a. a ∷ map account r.0) (rw due at (account-switch_on s now)))
  | inr kept ↦ rw kept (ap (λ a. a ∷ map account r.0) (rw kept at (account-switch_on s now)))
]

ledger-reenable_slots :
    (now : ℕ) (ss : List Slot)
    → map account (reenable_slots now ss).0 ≡ map (wake now) (map account ss)
unfolding reenable_slots
ledger-reenable_slots now [] = refl
ledger-reenable_slots now (s ∷ ss) =
    reenable_head now s (reenable_slots now ss)
    ∙ ap (λ xs. wake now (account s) ∷ xs) (ledger-reenable_slots now ss)

ledger-current : (now : ℕ) (p : KeyPool) → ledger (current now p).0 ≡ ledger p
ledger-current now p = ap (map account) (current-slots now p)

ledger-try_acquire : (i : ℕ) (p : KeyPool) → ledger (try_acquire i p).0 ≡ ledger p
ledger-try_acquire i p = elim (try_acquire_cases i p) [
  | inl (_, e) ↦ rw e refl
  | inr (inl (s, at, room, e)) ↦
      rw (e, taken-slots i p) (map-modify_same p.slots i take_slot (λ s. refl))
  | inr (inr (_, e)) ↦ rw e refl
]

ledger-release : (i : ℕ) (p : KeyPool) → ledger (release i p) ≡ ledger p
ledger-release i p = elim (release_cases i p) [
  | inl e ↦ ap (map account) e
  | inr e ↦ ap (map account) e ∙ map-modify_same p.slots i give_slot (λ s. refl)
]

ledger-rejects :
    (i : ℕ) (kind : Rejection) (p : KeyPool) → ledger (step p (rejects i kind)) ≡ ledger p
ledger-rejects i kind p = elim (rejects_cases i kind p) [
  | inl e ↦ ap (map account) e
  | inr e ↦ ap (map account) e ∙ map-modify_same p.slots i (reject kind) (λ s. refl)
]

-- Each call does to the ledger what `post` says.
ledger-step : (p : KeyPool) (c : Call) → Inv p → ledger (step p c) ≡ post c (ledger p)
unfolding step post advance advance_after record_success decrement set_credits disable reenable_due
ledger-step p (selects now) h = ledger-current now p
ledger-step p (advances now) h =
    ledger-current now _ ∙ map-modify_same p.slots p.cursor (cool_until _) (λ s. refl)
ledger-step p (advances_after hd now) h =
    ledger-current now _ ∙ map-modify_same p.slots p.cursor (cool_until _) (λ s. refl)
ledger-step p (acquires i) h = ledger-try_acquire i p
ledger-step p (releases i) h = ledger-release i p
ledger-step p (succeeds i) h = map-modify_same p.slots i succeed (λ s. refl)
ledger-step p (rejects i kind) h = ledger-rejects i kind p
ledger-step p (decrements i cost) h =
    map-modify p.slots i (spend (charged cost)) (pay (charged cost))
      (λ s ok. account-spend s (charged cost) ok.in_range) h
ledger-step p (measures i credits) h =
    map-modify p.slots i (measure (pos_part credits)) (correct (balance (pos_part credits)))
      (λ s ok. account-measure s (pos_part credits)) h
ledger-step p (disables i until) h =
    map-modify p.slots i (switch_off until) (λ _. resting (some until)) (λ s ok. refl) h
ledger-step p (reenables now) h = ledger-reenable_slots now p.slots

ledger-run_from :
    (p : KeyPool) (cs : List Call)
    → All CallOk cs
    → Inv p
    → ledger (run p cs) ≡ replay (ledger p) cs
unfolding run replay
ledger-run_from p [] k h = refl
ledger-run_from p (c ∷ cs) k h =
    ledger-run_from (step p c) cs k.1 (step-Inv p c k.0 h)
    ∙ ap (λ xs. replay xs cs) (ledger-step p c h)

-- The balances that the selection looks at are those of the ledger.
usable-can_serve :
    (stop : ℕ) (s : Slot)
    → stop ≤ unmeasured
    → (not s.disabled && leb stop s.remaining_credits) ≡ can_serve stop (account s)
usable-can_serve stop s h = ground (arith, h)

any_usable_in-ledger :
    (p : KeyPool) (ss : List Slot)
    → p.stop_threshold ≤ unmeasured
    → any_usable_in p ss ≡ any_serves p.stop_threshold (map account ss)
any_usable_in-ledger p [] h = refl
any_usable_in-ledger p (s ∷ ss) h =
    ap (λ b. b || any_usable_in p ss) (usable-can_serve p.stop_threshold s h)
    ∙ ap (λ b. can_serve p.stop_threshold (account s) || b) (any_usable_in-ledger p ss h)

-- The pool that buildProfiles makes of the keys of a provider.
abbrev pub first_pool : List Bytes → ℕ → ℕ → ℤ → KeyPool
first_pool keys low stop n = set_max_concurrent n (set_thresholds low stop (new_key_pool keys))

first_ledger : (keys : List Bytes) → map account (map new_slot keys) ≡ map (λ _. serving none) keys
first_ledger [] = refl
first_ledger (k ∷ keys) = ap (λ xs. serving none ∷ xs) (first_ledger keys)

-- The calls of KeyPool keep a ledger, whatever their order. A key has an account that serves, with
-- or without a measured balance, or that rests until an instant; it starts serving without one.
-- Decrement pays, SetCredits corrects the balance, Disable lets it rest, ReenableDue wakes it without
-- a balance, and no other call changes the ledger; and Current finds no key at any time exactly when
-- the ledger has no serving account with the stop threshold left. The recorded balances and the stop
-- threshold are those of an int64.
pub ledger-run :
    (keys : List Bytes) (low stop : ℕ) (n : ℤ) (cs : List Call) (now : ℕ)
    → All CallOk cs
    → stop ≤ unmeasured
    → (ledger (run (first_pool keys low stop n) cs) ≡ replay (map (λ _. serving none) keys) cs)
      × (((current now (run (first_pool keys low stop n) cs)).1 ≡ none)
          ↔ (any_serves stop (replay (map (λ _. serving none) keys) cs) ≡ false))
unfolding new_key_pool set_thresholds set_max_concurrent any_usable
ledger-run keys low stop n cs now k h =
    let p = first_pool keys low stop n in
    let q = run p cs in
    let kept =
      ledger-run_from p cs k (new-Inv keys low stop n)
      ∙ ap (λ xs. replay xs cs) (first_ledger keys) in
    let fixed = run-stop_threshold p cs in
    let seen = any_usable_in-ledger q q.slots (subst (λ m. m ≤ unmeasured) (sym fixed) h) in
    let same : any_usable q ≡ any_serves stop (replay (map (λ _. serving none) keys) cs) =
      seen ∙ (ap (λ m. any_serves m (ledger q)) fixed ∙ ap (any_serves stop) kept) in
    let (to, from) = current-eq-none_iff now q in
    (kept, ((λ e. sym same ∙ to e), (λ e. from (same ∙ e))))
