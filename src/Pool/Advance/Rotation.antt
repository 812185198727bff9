-- ===== src/Pool/Advance/Rotation.antt =====
-- keys.go: what AdvanceAfter promises.
use api_key_rotator.Base.{
  ℕ, zero, suc, ◌+◌, ◌*◌, ◌≤◌, ◌≡◌, ◌≢◌, refl, sym, ◌∙◌, subst, List, [], ◌∷◌, Option, none, some,
  arith, true, false, false≢true, get_elem?, get_elem?-modify_ne, modify, inl, inr, Option-cases,
}
use api_key_rotator.Base.Int.{ℤ, pos, negsuc}
use api_key_rotator.Base.Text.{Bytes, atoi, trim_space}
use api_key_rotator.Pool.State.{KeyPool, Slot}
use api_key_rotator.Pool.Slots.{has_slot}
use api_key_rotator.Pool.Select.{usable, is_cooling, before, current, key_at}
use api_key_rotator.Pool.Select.Best.{
  Precedes, chosen, current-chosen, chosen-none, chosen-usable, chosen-Precedes,
}
use api_key_rotator.Headers.{Header, header_get}
use api_key_rotator.Pool.Advance.{
  second, bounded_seconds, retry_after_seconds, cooldown_after, cool_until, retry_after,
  advance_after,
}

bounded_seconds-le : (r : Option ℤ) → bounded_seconds r ≤ 3600
bounded_seconds-le none = omega arith
bounded_seconds-le (some (negsuc n)) = omega arith
bounded_seconds-le (some (pos n)) = ground arith

-- Whatever the header says, the cooldown is at least rotateCooldown and at most one hour.
pub cooldown_after_bounds :
    (h : Header) → (30 * second ≤ cooldown_after h) × (cooldown_after h ≤ 3600 * second)
unfolding cooldown_after retry_after_seconds
cooldown_after_bounds h =
    ground (arith, bounded_seconds-le (atoi (trim_space (header_get retry_after h))))

cooled : Header → ℕ → KeyPool → KeyPool
cooled h now p = record p { slots = modify p.slots p.cursor (cool_until (now + cooldown_after h)) }

advance_after-cooled :
    (h : Header) (now : ℕ) (p : KeyPool) → advance_after h now p ≡ current now (cooled h now p)
unfolding advance_after cooled
advance_after-cooled h now p = refl

cooled-cursor :
    (h : Header) (now : ℕ) (p : KeyPool) {s : Slot}
    → get_elem? (cooled h now p).slots p.cursor ≡ some s
    → is_cooling now s ≡ true
unfolding cooled is_cooling
cooled-cursor h now p {s} e = modified p.slots p.cursor e
  where
    modified :
        (ss : List Slot) (i : ℕ) {s : Slot}
        → get_elem? (modify ss i (cool_until (now + cooldown_after h))) i ≡ some s
        → before now s.cooldown_until ≡ true
    modified [] i e = cc
    modified (x ∷ ss) zero {s} e = ground (arith, cooldown_after_bounds h)
    modified (x ∷ ss) (suc i) e = modified ss i e

cooled_other :
    (h : Header) (now : ℕ) (p : KeyPool) (j : ℕ) {t : Slot}
    → p.cursor ≢ j
    → get_elem? p.slots j ≡ some t
    → get_elem? (cooled h now p).slots j ≡ some t
unfolding cooled
cooled_other h now p j n e = get_elem?-modify_ne p.slots _ n ∙ e

cooled-usable :
    (h : Header) (now : ℕ) (p : KeyPool) (t : Slot) → usable (cooled h now p) t ≡ usable p t
unfolding usable cooled
cooled-usable h now p t = refl

cooled-has_slot :
    (h : Header) (now : ℕ) (p : KeyPool) (t : Slot) → has_slot (cooled h now p) t ≡ has_slot p t
unfolding has_slot cooled
cooled-has_slot h now p t = refl

cooling_last :
    (q : KeyPool) (now i j : ℕ) (s t : Slot)
    → is_cooling now s ≡ true
    → has_slot q t ≡ true
    → is_cooling now t ≡ false
    → ¬ Precedes q now i s j t
cooling_last q now i j s t a b c d = ground arith

-- If some other key is usable, has a free slot and is out of its cooldown, then AdvanceAfter
-- returns a key, and not the one that it rotates off.
pub advance_after-ne-cursor :
    (h : Header) (now : ℕ) (p : KeyPool) (j : ℕ) {t : Slot}
    → get_elem? p.slots j ≡ some t
    → j ≢ p.cursor
    → usable p t ≡ true
    → has_slot p t ≡ true
    → is_cooling now t ≡ false
    → (i : ℕ) × (key : Bytes) × ((advance_after h now p).1 ≡ some (i, key)) × (i ≢ p.cursor)
advance_after-ne-cursor h now p j {t} at other u free warm =
    let q = cooled h now p in
    let moved = cooled_other h now p j (λ e. other (sym e)) at in
    elim (Option-cases (chosen q now)) [
      | inl nothing ↦
          absurd
            (false≢true (sym (chosen-none q now j nothing moved) ∙ (cooled-usable h now p t ∙ u)))
      | inr ((i, c), found) ↦
          let (s, there, _, _) = chosen-usable q now i c found in
          let first = chosen-Precedes q now i c j there moved (cooled-usable h now p t ∙ u) found in
          (
            i,
            key_at q i,
            rw (advance_after-cooled h now p, current-chosen now q, found),
            λ same.
                cooling_last q now i j s t
                  (cooled-cursor h now p (subst (λ k. get_elem? q.slots k ≡ some s) same there))
                  (cooled-has_slot h now p t ∙ free) warm first,
          )
    ]
