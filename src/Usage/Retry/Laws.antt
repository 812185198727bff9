-- ===== src/Usage/Retry/Laws.antt =====
-- creditusage.go: how often a usage endpoint is asked, and which answer counts.
use api_key_rotator.Base.{
  ℕ, zero, suc, ◌+◌, ◌≤◌, ◌<◌, ◌^◌, ◌≡◌, refl, sym, ◌∙◌, ap, ◌↔◌, subst, inl, inr, Bool, true,
  false, arith, ◌++◌, Bool-cases, ◌==◌, false≢true, if◌then◌else◌,
}
use api_key_rotator.Base.Text.{Bytes, codes}
use api_key_rotator.Base.Decimal.{itoa, atoi-itoa}
use api_key_rotator.Usage.{Usage}
use api_key_rotator.Usage.Retry.{
  usage_retryable, should_retry_usage, fetch_from, fetch_retrying, retryable_code,
}

-- A status is asked again exactly when usageRetryable says so, through the text of the reason.
pub should_retry_usage-itoa :
    (status : ℕ)
    → status < 2 ^ 63
    → should_retry_usage (codes "status:" ++ itoa status) ≡ usage_retryable status
unfolding should_retry_usage
should_retry_usage-itoa status h = ap retryable_code (atoi-itoa status h)

-- The attempt `a` gives `u`, and the attempts from `start` before it failed in a way to try again.
abbrev pub Succeeds : (ℕ → Usage × Bytes) → ℕ → ℕ → Usage → Type 0
Succeeds once start a u =
    ((once a).0 ≡ u)
    × ((once a).0.ok ≡ true)
    × ((j : ℕ)
        → start ≤ j
        → j < a
        → ((once j).0.ok ≡ false) × (should_retry_usage (once j).1 ≡ true))

-- With one more failure before it, the same attempt succeeds.
Succeeds-before :
    (once : ℕ → Usage × Bytes) (start a : ℕ) (u : Usage)
    → (once start).0.ok ≡ false
    → should_retry_usage (once start).1 ≡ true
    → Succeeds once (suc start) a u
    → Succeeds once start a u
Succeeds-before once start a u failed again (same, good, before) = (same, good, earlier)
  where
    earlier :
        (j : ℕ)
        → start ≤ j
        → j < a
        → ((once j).0.ok ≡ false) × (should_retry_usage (once j).1 ≡ true)
    earlier j lo hi = elim (Bool-cases (start == j)) [
      | inl here ↦
          let same : start ≡ j = ground (arith, here) in (rw same at failed, rw same at again)
      | inr later ↦ before j (ground (arith, lo, later)) hi
    ]

if-true {ℓ} : {A : Type ℓ} (b : Bool) {x : A} (y : A) → b ≡ true → (if b then x else y) ≡ x
if-true true y e = refl
if-true false y e = cc

fetch_from_sound :
    (once : ℕ → Usage × Bytes) (left start : ℕ)
    → (fetch_from once left start).0.ok ≡ true
    → (a : ℕ) × (a ≤ start + left) × Succeeds once start a (fetch_from once left start).0
unfolding fetch_from
fetch_from_sound once zero start e = elim (Bool-cases (once start).0.ok) [
  | inl good ↦ (
    start,
    omega arith,
    (
      sym (ap (λ (w : Usage × ℕ). w.0) (if-true (once start).0.ok _ good)),
      good,
      λ j lo hi. absurd (omega (arith, lo, hi)),
    ),
  )
  | inr bad ↦ absurd (false≢true (rw bad at e))
]
fetch_from_sound once (suc left) start e = elim (Bool-cases (once start).0.ok) [
  | inl good ↦ (
    start,
    omega arith,
    (
      sym (ap (λ (w : Usage × ℕ). w.0) (if-true (once start).0.ok _ good)),
      good,
      λ j lo hi. absurd (omega (arith, lo, hi)),
    ),
  )
  | inr bad ↦ elim (Bool-cases (should_retry_usage (once start).1)) [
    | inl again ↦
        let (a, hi, found) = fetch_from_sound once left (suc start) (rw (bad, again) at e) in
        (a, omega (arith, hi), rw (bad, again) (Succeeds-before once start a _ bad again found))
    | inr stop ↦ absurd (false≢true (rw (bad, stop) at e))
  ]
]

settled :
    (once : ℕ → Usage × Bytes) (start : ℕ) {a : ℕ} {u : Usage}
    → a ≡ start
    → (once a).0 ≡ u
    → ◌≡◌ {A = Usage × ℕ} ((once start).0, suc start) (u, suc a)
settled once start here same = cc

fetch_from_complete :
    (once : ℕ → Usage × Bytes) (left start a : ℕ) (u : Usage)
    → start ≤ a
    → a ≤ start + left
    → Succeeds once start a u
    → fetch_from once left start ≡ (u, suc a)
unfolding fetch_from
fetch_from_complete once zero start a u lo hi (same, good, before) =
    let here : a ≡ start = omega (arith, lo, hi) in
    if-true (once start).0.ok _ (rw here at good) ∙ settled once start here same
fetch_from_complete once (suc left) start a u lo hi (same, good, before) =
    elim (Bool-cases (start == a)) [
      | inl at ↦
          let here : a ≡ start = ground (arith, at) in
          if-true (once start).0.ok _ (rw here at good) ∙ settled once start here same
      | inr later ↦
          let (bad, again) = before start (omega arith) (ground (arith, lo, later)) in
          rw (bad, again)
            (fetch_from_complete once left (suc start) a u (ground (arith, lo, later))
              (omega (arith, hi)) (same, good, λ j x y. before j (omega (arith, x)) y))
    ]

fetch_from_count :
    (once : ℕ → Usage × Bytes) (left start : ℕ)
    → (suc start ≤ (fetch_from once left start).1)
      × ((fetch_from once left start).1 ≤ suc start + left)
unfolding fetch_from
fetch_from_count once zero start = ground arith
fetch_from_count once (suc left) start = ground (arith, fetch_from_count once left (suc start))

pub fetch_retrying_count : (once : ℕ → Usage × Bytes) → (fetch_retrying once).1 ≤ 4
unfolding fetch_retrying
fetch_retrying_count once = (fetch_from_count once 3 0).1

-- fetchUsage and its two siblings make at least one attempt and at most four. They return a usage
-- that counts, after `n` attempts, exactly when it is what the last of these gives, there are at most
-- four of them, and all the attempts before it failed in a way to try again.
pub fetch_retrying_lem :
    (once : ℕ → Usage × Bytes) (u : Usage) (n : ℕ)
    → (1 ≤ (fetch_retrying once).1)
      × ((fetch_retrying once).1 ≤ 4)
      × (((fetch_retrying once ≡ (u, n)) × (u.ok ≡ true))
          ↔ ((a : ℕ) × (a ≤ 3) × (n ≡ suc a) × Succeeds once 0 a u))
unfolding fetch_retrying
fetch_retrying_lem once u n =
    ((fetch_from_count once 3 0).0, (fetch_from_count once 3 0).1, (to, from))
  where
    to :
        (fetch_from once 3 0 ≡ (u, n)) × (u.ok ≡ true)
        → (a : ℕ) × (a ≤ 3) × (n ≡ suc a) × Succeeds once 0 a u
    to (e, good) =
        let ok = ap (λ (w : Usage × ℕ). w.0.ok) e ∙ good in
        let (a, hi, found) = fetch_from_sound once 3 0 ok in
        let whole = fetch_from_complete once 3 0 a _ (omega arith) hi found in
        (
          a,
          hi,
          ap (λ (w : Usage × ℕ). w.1) (sym e ∙ whole),
          subst (Succeeds once 0 a) (ap (λ (w : Usage × ℕ). w.0) e) found,
        )

    from :
        (a : ℕ) × (a ≤ 3) × (n ≡ suc a) × Succeeds once 0 a u
        → (fetch_from once 3 0 ≡ (u, n)) × (u.ok ≡ true)
    from (a, hi, count, (same, good, before)) = (
      fetch_from_complete once 3 0 a u (omega arith) hi (same, good, before)
          ∙ ap {A = ℕ} {B = Usage × ℕ} (λ k. (u, k)) (sym count),
      ap (λ (w : Usage). w.ok) (sym same) ∙ good,
    )
