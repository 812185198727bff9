-- ===== src/Pool/Select/Best.antt =====
-- keys.go: the choice of currentLocked in the order of ranks and credits.
use api_key_rotator.Base.{
  ℕ, ◌≤◌, ◌<◌, ◌≡◌, refl, ◌⊎◌, inl, inr, true, false, none, some, arith, if◌then◌else◌, get_elem?,
}
use api_key_rotator.Pool.State.{KeyPool, Slot}
use api_key_rotator.Pool.Slots.{has_slot}
use api_key_rotator.Pool.Select.{Pick, usable, is_cooling, choose, or_else, settle, current}
use api_key_rotator.Pool.Select.Tiers.{
  free, ready, top_of, scan-top_of, top_of-none, top_of_slot, top_of_bound,
}

-- 2: a free slot and no cooldown; 1: a free slot, cooling down; 0: every slot taken.
abbrev pub rank : KeyPool → ℕ → Slot → ℕ
rank p now s = if has_slot p s then (if is_cooling now s then 1 else 2) else 0

-- Key `i` with state `s` comes before key `j` with state `t`: by rank, then by credits, then by
-- index.
abbrev pub Precedes : KeyPool → ℕ → ℕ → Slot → ℕ → Slot → Type 0
Precedes p now i s j t =
    (rank p now t < rank p now s)
    ⊎ ((rank p now t ≡ rank p now s)
        × ((t.remaining_credits < s.remaining_credits)
            ⊎ ((t.remaining_credits ≡ s.remaining_credits) × (i ≤ j))))

-- The key that Current returns, before it is stored in the cursor.
pub chosen : KeyPool → ℕ → Pick
chosen p now =
    or_else (or_else (top_of (ready p now) 0 p.slots none) (top_of (free p) 0 p.slots none))
      (top_of (usable p) 0 p.slots none)

pub current-chosen : (now : ℕ) (p : KeyPool) → current now p ≡ settle p (chosen p now)
unfolding current choose chosen
current-chosen now p = rw (scan-top_of p now 0 p.slots) refl

or_else_cases :
    (a b c : Pick) {x : ℕ × ℕ}
    → or_else (or_else a b) c ≡ some x
    → (a ≡ some x) ⊎ (((a ≡ none) × (b ≡ some x)) ⊎ ((a ≡ none) × (b ≡ none) × (c ≡ some x)))
or_else_cases (some a) b c e = inl e
or_else_cases none (some b) c e = inr (inl (refl, e))
or_else_cases none none c e = inr (inr (refl, refl, e))

free-usable : (p : KeyPool) (s : Slot) → free p s ≡ true → usable p s ≡ true
unfolding free
free-usable p s h = ground arith

ready-free : (p : KeyPool) (now : ℕ) (s : Slot) → ready p now s ≡ true → free p s ≡ true
unfolding ready
ready-free p now s h = ground arith

module _ (p : KeyPool) (now : ℕ) where
  pub chosen-none :
      (j : ℕ) {t : Slot} → chosen p now ≡ none → get_elem? p.slots j ≡ some t → usable p t ≡ false
  unfolding chosen
  chosen-none j e g = top_of-none (usable p) 0 p.slots none j (ground arith) g

  pub chosen-usable :
      (i c : ℕ)
      → chosen p now ≡ some (i, c)
      → (s : Slot) × (get_elem? p.slots i ≡ some s)
        × (usable p s ≡ true)
        × (s.remaining_credits ≡ c)
  unfolding chosen
  chosen-usable i c e =
      elim (or_else_cases (top_of (ready p now) 0 p.slots none) (top_of (free p) 0 p.slots none) _
        e) [
          | inl a ↦
              let (s, g, pass, rc) = top_of_slot (ready p now) p.slots i c a in
              (s, g, free-usable p s (ready-free p now s pass), rc)
          | inr (inl (_, b)) ↦
              let (s, g, pass, rc) = top_of_slot (free p) p.slots i c b in
              (s, g, free-usable p s pass, rc)
          | inr (inr (_, _, d)) ↦ top_of_slot (usable p) p.slots i c d
        ]

  module _ (i c j : ℕ) {s t : Slot} (gi : get_elem? p.slots i ≡ some s)
      (gj : get_elem? p.slots j ≡ some t) (u : usable p t ≡ true) where
    ready-Precedes : top_of (ready p now) 0 p.slots none ≡ some (i, c) → Precedes p now i s j t
    unfolding ready free
    ready-Precedes a = ground (
      arith,
      top_of_slot (ready p now) p.slots i c a,
      top_of_bound (ready p now) 0 p.slots none {k = i} {c = c} j {t = t} tt a gj,
    )

    free-Precedes :
        top_of (ready p now) 0 p.slots none ≡ none
        → top_of (free p) 0 p.slots none ≡ some (i, c)
        → Precedes p now i s j t
    unfolding ready free
    free-Precedes a b = ground (
      arith,
      top_of-none (ready p now) 0 p.slots none i a gi,
      top_of-none (ready p now) 0 p.slots none j a gj,
      top_of_slot (free p) p.slots i c b,
      top_of_bound (free p) 0 p.slots none {k = i} {c = c} j {t = t} tt b gj,
    )

    usable-Precedes :
        top_of (free p) 0 p.slots none ≡ none
        → top_of (usable p) 0 p.slots none ≡ some (i, c)
        → Precedes p now i s j t
    unfolding free
    usable-Precedes b d = ground (
      arith,
      top_of-none (free p) 0 p.slots none i b gi,
      top_of-none (free p) 0 p.slots none j b gj,
      top_of_slot (usable p) p.slots i c d,
      top_of_bound (usable p) 0 p.slots none {k = i} {c = c} j {t = t} tt d gj,
    )

    pub chosen-Precedes : chosen p now ≡ some (i, c) → Precedes p now i s j t
    unfolding chosen
    chosen-Precedes e =
        elim (or_else_cases (top_of (ready p now) 0 p.slots none) (top_of (free p) 0 p.slots none) _
          e) [
            | inl a ↦ ready-Precedes a
            | inr (inl (a, b)) ↦ free-Precedes a b
            | inr (inr (_, b, d)) ↦ usable-Precedes b d
          ]
