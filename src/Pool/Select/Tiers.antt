-- ===== src/Pool/Select/Tiers.antt =====
-- keys.go: currentLocked. Each of its three running pairs is the richest key of one tier.
use api_key_rotator.Base.{
  ℕ, zero, suc, ◌+◌, ◌≤◌, ◌<◌, ◌≡◌, refl, sym, subst, ◌⊎◌, inl, inr, Bool, true, false, not, ◌&&◌,
  List, [], ◌∷◌, none, some, arith, if◌then◌else◌, get_elem?, Bool-cases,
}
use api_key_rotator.Pool.State.{KeyPool, Slot}
use api_key_rotator.Pool.Slots.{has_slot}
use api_key_rotator.Pool.Select.{Pick, Picks, richer, usable, is_cooling, visit, scan}

-- Tier 2: usable with a free slot. Tier 1: also out of its cooldown.
unfoldable pub free : KeyPool → Slot → Bool
free p s = usable p s && has_slot p s

unfoldable pub ready : KeyPool → ℕ → Slot → Bool
ready p now s = free p s && not (is_cooling now s)

abbrev take : Bool → ℕ → ℕ → Pick → Pick
take b i rc acc = if b then richer i rc acc else acc

-- The first among the richest of the slots that pass the test.
pub top_of : (Slot → Bool) → ℕ → List Slot → Pick → Pick
top_of P i [] acc = acc
top_of P i (s ∷ ss) acc = top_of P (suc i) ss (take (P s) i s.remaining_credits acc)

richer_source :
    (i rc : ℕ) (acc : Pick) {k c : ℕ}
    → richer i rc acc ≡ some (k, c)
    → (acc ≡ some (k, c)) ⊎ ((k ≡ i) × (c ≡ rc))
richer_source i rc none e = ground arith
richer_source i rc (some (k', c')) e = ground arith

visit-take :
    (p : KeyPool) (now i : ℕ) (s : Slot) (acc : Picks)
    → visit p now i s acc ≡ record {
      best = take (ready p now s) i s.remaining_credits acc.best;
      fallback_slot = take (free p s) i s.remaining_credits acc.fallback_slot;
      fallback_any = take (usable p s) i s.remaining_credits acc.fallback_any;
    }
unfolding visit ready free usable
visit-take p now i s acc = ground arith

pub scan-top_of :
    (p : KeyPool) (now i : ℕ) (ss : List Slot) (acc : Picks)
    → scan p now i ss acc ≡ record {
      best = top_of (ready p now) i ss acc.best;
      fallback_slot = top_of (free p) i ss acc.fallback_slot;
      fallback_any = top_of (usable p) i ss acc.fallback_any;
    }
unfolding scan top_of
scan-top_of p now i [] acc = refl
scan-top_of p now i (s ∷ ss) acc = rw (visit-take p now i s acc) (scan-top_of p now (suc i) ss _)

module _ (P : Slot → Bool) where
  top_of-none_acc : (i : ℕ) (ss : List Slot) (acc : Pick) → top_of P i ss acc ≡ none → acc ≡ none
  unfolding top_of
  top_of-none_acc i [] acc e = e
  top_of-none_acc i (s ∷ ss) acc e =
      ground (arith, top_of-none_acc (suc i) ss (take (P s) i s.remaining_credits acc) e)

  -- No pick means that no slot passes.
  pub top_of-none :
      (i : ℕ) (ss : List Slot) (acc : Pick) (j : ℕ) {t : Slot}
      → top_of P i ss acc ≡ none
      → get_elem? ss j ≡ some t
      → P t ≡ false
  unfolding top_of
  top_of-none i [] acc j e g = cc
  top_of-none i (s ∷ ss) acc zero {t} e g =
      ground (arith, top_of-none_acc (suc i) ss (take (P s) i s.remaining_credits acc) e)
  top_of-none i (s ∷ ss) acc (suc j) e g = top_of-none (suc i) ss _ j e g

  source_here :
      (i : ℕ) (s : Slot) (ss : List Slot) (acc : Pick) {k c : ℕ}
      → take (P s) i s.remaining_credits acc ≡ some (k, c)
      → (acc ≡ some (k, c))
        ⊎ ((j : ℕ) × (t : Slot) × (k ≡ i + j)
            × (get_elem? (s ∷ ss) j ≡ some t)
            × (P t ≡ true)
            × (t.remaining_credits ≡ c))
  source_here i s ss acc e = elim (Bool-cases (P s)) [
    | inr fails ↦ inl (rw fails at e)
    | inl holds ↦ elim (richer_source i s.remaining_credits acc (rw holds at e)) [
      | inl kept ↦ inl kept
      | inr (at, rc) ↦ inr (0, s, omega arith, refl, holds, sym rc)
    ]
  ]

  -- A pick is the start value or a slot that passes.
  pub top_of_source :
      (i : ℕ) (ss : List Slot) (acc : Pick) {k c : ℕ}
      → top_of P i ss acc ≡ some (k, c)
      → (acc ≡ some (k, c))
        ⊎ ((j : ℕ) × (t : Slot) × (k ≡ i + j)
            × (get_elem? ss j ≡ some t)
            × (P t ≡ true)
            × (t.remaining_credits ≡ c))
  unfolding top_of
  top_of_source i [] acc e = inl e
  top_of_source i (s ∷ ss) acc {k} {c} e = elim (top_of_source (suc i) ss _ e) [
    | inr (j, t, at, g, pass, rc) ↦ inr (suc j, t, omega arith, g, pass, rc)
    | inl here ↦ source_here i s ss acc here
  ]

  -- The start value is kept, or beaten.
  top_of_grows :
      (i : ℕ) (ss : List Slot) (k' c' : ℕ) {k c : ℕ}
      → top_of P i ss (some (k', c')) ≡ some (k, c)
      → ((k ≡ k') × (c ≡ c')) ⊎ (c' < c)
  unfolding top_of
  top_of_grows i [] k' c' e = ground arith
  top_of_grows i (s ∷ ss) k' c' {k} {c} e = ground (
    arith,
    top_of_grows (suc i) ss k' c' {k = k} {c = c},
    top_of_grows (suc i) ss i s.remaining_credits {k = k} {c = c},
  )

-- The index of a pick is not beyond `i`.
abbrev pub Within : ℕ → Pick → Type 0
Within i none = Unit
Within i (some (k, _)) = k ≤ i

Within-take : (b : Bool) (i rc : ℕ) (acc : Pick) → Within i acc → Within (suc i) (take b i rc acc)
Within-take b i rc none w = ground arith
Within-take b i rc (some (k, c)) w = ground arith

-- A pick is at least as rich as each slot that passes, and stands before its equals.
pub top_of_bound :
    (P : Slot → Bool) (i : ℕ) (ss : List Slot) (acc : Pick) {k c : ℕ} (j : ℕ) {t : Slot}
    → Within i acc
    → top_of P i ss acc ≡ some (k, c)
    → get_elem? ss j ≡ some t
    → P t ≡ true
    → (t.remaining_credits < c) ⊎ ((t.remaining_credits ≡ c) × (k ≤ i + j))
unfolding top_of
top_of_bound P i [] acc j w e g pass = cc
top_of_bound P i (s ∷ ss) none {k} {c} zero w e g pass =
    ground (arith, top_of_grows P (suc i) ss i s.remaining_credits {k = k} {c = c})
top_of_bound P i (s ∷ ss) (some (k', c')) {k} {c} zero w e g pass = ground (
  arith,
  top_of_grows P (suc i) ss i s.remaining_credits {k = k} {c = c},
  top_of_grows P (suc i) ss k' c' {k = k} {c = c},
)
top_of_bound P i (s ∷ ss) acc {k} {c} (suc j) w e g pass =
    let ih =
      top_of_bound P (suc i) ss (take (P s) i s.remaining_credits acc) {k = k} {c = c} j
        (Within-take (P s) i s.remaining_credits acc w) e g pass in
    omega (arith, ih)

-- A pick from the whole list is the index and the balance of a slot that passes.
pub top_of_slot :
    (P : Slot → Bool) (ss : List Slot) (k c : ℕ)
    → top_of P 0 ss none ≡ some (k, c)
    → (s : Slot) × (get_elem? ss k ≡ some s) × (P s ≡ true) × (s.remaining_credits ≡ c)
top_of_slot P ss k c e = elim (top_of_source P 0 ss none e) [
  | inl never ↦ cc
  | inr (j, s, at, g, pass, rc) ↦
      let same : k ≡ j = omega arith in
      (s, subst (λ n. get_elem? ss n ≡ some s) (sym same) g, pass, rc)
]
