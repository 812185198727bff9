-- ===== src/Pool/Select/Current.antt =====
-- keys.go: what Current and AnyUsable promise.
use api_key_rotator.Base.{
  ℕ, zero, suc, ◌≡◌, refl, ◌↔◌, ◌⊎◌, inl, inr, Bool-cases, Option, true, false, List, [], ◌∷◌, none,
  some, arith, get_elem?, Option-cases,
}
use api_key_rotator.Base.Text.{Bytes}
use api_key_rotator.Pool.State.{KeyPool, Slot}
use api_key_rotator.Pool.Select.{Pick, usable, settle, current, key_at, any_usable, any_usable_in}
use api_key_rotator.Pool.Select.Best.{
  Precedes, chosen, current-chosen, chosen-none, chosen-usable, chosen-Precedes,
}

settle-eq-none : (p : KeyPool) (x : Pick) → (settle p x).1 ≡ none → x ≡ none
settle-eq-none p none e = refl
settle-eq-none p (some x) e = cc

settle-eq-some :
    (p : KeyPool) (x : Pick) (i : ℕ) (key : Bytes)
    → (settle p x).1 ≡ some (i, key)
    → (c : ℕ) × (x ≡ some (i, c)) × (key_at p i ≡ key) × ((settle p x).0 ≡ record p { cursor = i })
settle-eq-some p none i key e = cc
settle-eq-some p (some (j, c)) i key e = (c, ground arith, ground arith, ground arith)

pub current-eq-some :
    (now : ℕ) (p : KeyPool) (i : ℕ) (key : Bytes)
    → (current now p).1 ≡ some (i, key)
    → (c : ℕ) × (chosen p now ≡ some (i, c))
      × (key_at p i ≡ key)
      × ((current now p).0 ≡ record p { cursor = i })
current-eq-some now p i key e =
    rw (current-chosen now p)
      (settle-eq-some p (chosen p now) i key (rw (current-chosen now p) at e))

-- How key `i` with state `s` stands to what is found at `j`: every usable key comes behind it.
abbrev pub Leads : KeyPool → ℕ → ℕ → Slot → ℕ → Option Slot → Type 0
Leads p now i s j none = Unit
Leads p now i s j (some t) = (usable p t ≡ false) ⊎ Precedes p now i s j t

chosen-Leads :
    (p : KeyPool) (now i c j : ℕ) {s : Slot} (o : Option Slot)
    → get_elem? p.slots i ≡ some s
    → get_elem? p.slots j ≡ o
    → chosen p now ≡ some (i, c)
    → Leads p now i s j o
chosen-Leads p now i c j none gi gj found = tt
chosen-Leads p now i c j (some t) gi gj found = elim (Bool-cases (usable p t)) [
  | inl u ↦ inr (chosen-Precedes p now i c j gi gj u found)
  | inr n ↦ inl n
]

-- When Current returns a key, this key is usable, its text is that of its slot, and the cursor is all
-- that changes; also, the key precedes every usable key of the pool: a key with a free slot and no
-- cooldown comes before one that cools down, and that before one whose slots are all taken; among
-- keys of one rank the one with most credits comes first, and of equals the first.
pub current-Precedes :
    (now : ℕ) (p : KeyPool) (i : ℕ) (key : Bytes) (j : ℕ)
    → (current now p).1 ≡ some (i, key)
    → (s : Slot) × (get_elem? p.slots i ≡ some s)
      × (s.key ≡ key)
      × (usable p s ≡ true)
      × Leads p now i s j (get_elem? p.slots j)
      × ((current now p).0 ≡ record p { cursor = i })
current-Precedes now p i key j e =
    let (c, found, text, state) = current-eq-some now p i key e in
    let (s, g, pass, rc) = chosen-usable p now i c found in
    (s, g, ground arith, pass, chosen-Leads p now i c j (get_elem? p.slots j) g refl found, state)

any_usable_in-false :
    (p : KeyPool) (ss : List Slot) (j : ℕ) {t : Slot}
    → any_usable_in p ss ≡ false
    → get_elem? ss j ≡ some t
    → usable p t ≡ false
unfolding usable
any_usable_in-false p [] j e g = cc
any_usable_in-false p (s ∷ ss) zero e g = ground arith
any_usable_in-false p (s ∷ ss) (suc j) e g = any_usable_in-false p ss j (ground arith) g

any_usable_in_of_false :
    (p : KeyPool) (ss : List Slot)
    → ((j : ℕ) (t : Slot) → get_elem? ss j ≡ some t → usable p t ≡ false)
    → any_usable_in p ss ≡ false
unfolding usable
any_usable_in_of_false p [] h = refl
any_usable_in_of_false p (s ∷ ss) h =
    ground (arith, h 0 s refl, any_usable_in_of_false p ss (λ j t g. h (suc j) t g))

-- Current finds no key exactly when AnyUsable, which /healthz answers by, is false.
pub current-eq-none_iff :
    (now : ℕ) (p : KeyPool) → ((current now p).1 ≡ none) ↔ (any_usable p ≡ false)
unfolding any_usable
current-eq-none_iff now p = (to, from)
  where
    to : (current now p).1 ≡ none → any_usable_in p p.slots ≡ false
    to e = any_usable_in_of_false p p.slots (λ j t g.
        chosen-none p now j (settle-eq-none p (chosen p now) (rw (current-chosen now p) at e)) g)

    from : any_usable_in p p.slots ≡ false → (current now p).1 ≡ none
    from e = elim (Option-cases (chosen p now)) [
      | inl nothing ↦ rw (current-chosen now p, nothing)
      | inr ((i, c), found) ↦
          let (s, g, pass, _) = chosen-usable p now i c found in
          let fails : usable p s ≡ false = any_usable_in-false p p.slots i e g in cc
    ]
