-- ===== src/Start/Loops/Reset.antt =====
-- main.go: what resetLoop makes of the keys.
use api_key_rotator.Base.{
  ℕ, ◌≡◌, refl, ◌∙◌, false, ◌||◌, Bool, Bool-cases, inl, inr, List, [], ◌∷◌, some, if◌then◌else◌,
  get_elem?, get_elem?-modify_self, leb,
}
use api_key_rotator.Pool.State.{KeyPool, Slot}
use api_key_rotator.Pool.Credits.{disable, switch_off}
use api_key_rotator.Pool.Reset.{is_due, switch_on, reenable_due}
use api_key_rotator.Pool.Reset.Laws.{reenable_due-get_elem?}
use api_key_rotator.Server.Log.{Formats}
use api_key_rotator.Start.Loops.{reset_loop}

-- Some instant reaches the end of the pause.
abbrev pub reaches : ℕ → List ℕ → Bool
reaches until [] = false
reaches until (now ∷ ticks) = leb until now || reaches until ticks

-- A key that is not disabled stays as it is.
reset_loop_enabled :
    (fmt : Formats) (ticks : List ℕ) (p : KeyPool) (j : ℕ) {s : Slot}
    → get_elem? p.slots j ≡ some s
    → s.disabled ≡ false
    → get_elem? (reset_loop fmt ticks p).0.slots j ≡ some s
unfolding reset_loop
reset_loop_enabled fmt [] p j e h = e
reset_loop_enabled fmt (now ∷ ticks) p j {s} e h =
    let kept : is_due now s ≡ false = unfold is_due in rw h refl in
    reset_loop_enabled fmt ticks (reenable_due now p).0 j
      (reenable_due-get_elem? now p j e ∙ rw kept refl) h

reset_loop_paused :
    (fmt : Formats) (ticks : List ℕ) (p : KeyPool) (j until : ℕ) (s : Slot)
    → get_elem? p.slots j ≡ some (switch_off until s)
    → get_elem? (reset_loop fmt ticks p).0.slots j
      ≡ some (if reaches until ticks then switch_on s else switch_off until s)
unfolding reset_loop
reset_loop_paused fmt [] p j until s e = e
reset_loop_paused fmt (now ∷ ticks) p j until s e =
    let after = reenable_due-get_elem? now p j e in
    elim (Bool-cases (leb until now)) [
      | inl due ↦
          let on : is_due now (switch_off until s) ≡ leb until now = unfold is_due in refl in
          rw due
            (reset_loop_enabled fmt ticks (reenable_due now p).0 j (after ∙ rw (on, due) refl) refl)
      | inr wait ↦
          let on : is_due now (switch_off until s) ≡ leb until now = unfold is_due in refl in
          rw wait (
            reset_loop_paused fmt ticks (reenable_due now p).0 j until s
              (after ∙ rw (on, wait) refl))
    ]

-- A key that Disable takes out of use until an instant is enabled by the loop, its balance unmeasured
-- and its pause cleared, exactly if the ticker fires at that instant or later; before that the loop
-- leaves it disabled, whatever it does to other keys.
pub reset_loop-disable :
    (fmt : Formats) (ticks : List ℕ) (p : KeyPool) (j until : ℕ) {s : Slot}
    → get_elem? p.slots j ≡ some s
    → get_elem? (reset_loop fmt ticks (disable j until p)).0.slots j
      ≡ some (if reaches until ticks then switch_on s else switch_off until s)
unfolding disable
reset_loop-disable fmt ticks p j until {s} e =
    reset_loop_paused fmt ticks _ j until s (get_elem?-modify_self p.slots j (switch_off until) e)
