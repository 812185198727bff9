-- ===== src/Pool/Leases/Balance.antt =====
-- keys.go: the counts of requests in flight, of two pools compared.
use api_key_rotator.Base.{
  ℕ, ◌+◌, ◌≡◌, ◌≢◌, ◌⊎◌, inl, inr, refl, sym, ◌∙◌, ap, ◌==◌, if◌then◌else◌, false≢true, true, false,
  List, [], ◌∷◌, arith, All,
}
use api_key_rotator.Pool.State.{KeyPool}
use api_key_rotator.Pool.Slots.{try_acquire, release}
use api_key_rotator.Pool.Slots.Acquire.{try_acquire_cases, taken-slots, taken-max_concurrent}
use api_key_rotator.Pool.Slots.Waiting.{release_limited}
use api_key_rotator.Pool.Ops.{Call, step, run, step-max_concurrent}
use api_key_rotator.Pool.Leases.{IsOther}
use api_key_rotator.Pool.Leases.Flight.{flight, flight-step, flight-take, flight-give}

pub run-flight :
    (p : KeyPool) (cs : List Call) (j : ℕ)
    → All IsOther cs
    → flight (run p cs).slots j ≡ flight p.slots j
unfolding run
run-flight p [] j k = refl
run-flight p (c ∷ cs) j k = run-flight (step p c) cs j k.1 ∙ flight-step p c j k.0

pub run-max_concurrent :
    (p : KeyPool) (cs : List Call) → (run p cs).max_concurrent ≡ p.max_concurrent
unfolding run
run-max_concurrent p [] = refl
run-max_concurrent p (c ∷ cs) = run-max_concurrent (step p c) cs ∙ step-max_concurrent p c

-- The pools `p` and `q` count the same requests in flight, and have the same limit.
unfoldable pub Level : KeyPool → KeyPool → Type 0
Level p q = ((j : ℕ) → flight q.slots j ≡ flight p.slots j) × (q.max_concurrent ≡ p.max_concurrent)

pub Level-refl : (p : KeyPool) → Level p p
unfolding Level
Level-refl p = (λ j. refl, refl)

pub Level-limit : (p q : KeyPool) → Level p q → q.max_concurrent ≡ p.max_concurrent
unfolding Level
Level-limit p q l = l.1

pub Level-flight : (p q : KeyPool) → Level p q → (j : ℕ) → flight q.slots j ≡ flight p.slots j
unfolding Level
Level-flight p q l = l.0

pub Level-trans : (p q s : KeyPool) → Level p q → Level q s → Level p s
unfolding Level
Level-trans p q s (a, b) (c, d) = (λ j. c j ∙ a j, d ∙ b)

pub step-Level : (p : KeyPool) (c : Call) → IsOther c → Level p (step p c)
unfolding Level
step-Level p c k = (λ j. flight-step p c j k, step-max_concurrent p c)

-- `q` counts one request more than `p` for the key `i`.
unfoldable pub Lent : ℕ → KeyPool → KeyPool → Type 0
Lent i p q =
    ((j : ℕ) → flight q.slots j ≡ (if i == j then 1 else 0) + flight p.slots j)
    × (q.max_concurrent ≡ p.max_concurrent)

pub Lent-Level : (i : ℕ) (p q s : KeyPool) → Lent i p q → Level q s → Lent i p s
unfolding Level Lent
Lent-Level i p q s (a, b) (c, d) = (λ j. c j ∙ a j, d ∙ b)

pub Level-Lent : (i : ℕ) (p q s : KeyPool) → Level p q → Lent i q s → Lent i p s
unfolding Level Lent
Level-Lent i p q s (a, b) (c, d) = (λ j. ground (arith, a j, c j), d ∙ b)

pub try_acquire-Lent :
    (i : ℕ) (p : KeyPool)
    → p.max_concurrent ≢ 0
    → (try_acquire i p).1 ≡ true
    → Lent i p (try_acquire i p).0
unfolding Lent
try_acquire-Lent i p limited ok = elim (try_acquire_cases i p) [
  | inl (unlimited, _) ↦ absurd (limited unlimited)
  | inr (inl (s, at, room, e)) ↦
      rw e (λ j. rw (taken-slots i p) (flight-take p.slots j i at), taken-max_concurrent i p)
  | inr (inr (_, e)) ↦ absurd (false≢true (sym (ap (λ r. r.1) e) ∙ ok))
]

pub try_acquire-Level :
    (i : ℕ) (p : KeyPool)
    → ((try_acquire i p).1 ≡ false) ⊎ (p.max_concurrent ≡ 0)
    → Level p (try_acquire i p).0
unfolding Level
try_acquire-Level i p kept = elim (try_acquire_cases i p) [
  | inl (_, e) ↦ rw e (λ j. refl, refl)
  | inr (inr (_, e)) ↦ rw e (λ j. refl, refl)
  | inr (inl (s, at, room, e)) ↦ elim kept [
    | inl refused ↦ absurd (false≢true (sym refused ∙ ap (λ r. r.1) e))
    | inr unlimited ↦ absurd (omega (arith, room, unlimited))
  ]
]

pub release-Level :
    (i : ℕ) (p q : KeyPool) → p.max_concurrent ≢ 0 → Lent i p q → Level p (release i q)
unfolding Level Lent
release-Level i p q limited (a, b) =
    rw (release_limited i q (λ e. limited (sym b ∙ e)))
      (λ j. omega (arith, flight-give q.slots j i, a j), b)

pub release_unlimited : (i : ℕ) (p : KeyPool) → p.max_concurrent ≡ 0 → release i p ≡ p
unfolding release
release_unlimited i p e = ground arith
