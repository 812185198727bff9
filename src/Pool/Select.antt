-- ===== src/Pool/Select.antt =====
-- keys.go: currentLocked, Current and AnyUsable. The running pairs (index, credits) that start at
-- (-1, -1) are options; credits are never negative.
pub mod Tiers
pub mod Best
pub mod Current
use api_key_rotator.Base.{
  ℕ, suc, Bool, false, not, ◌&&◌, ◌||◌, List, [], ◌∷◌, Option, none, some, ltb, leb, if◌then◌else◌,
  get_elem?,
}
use api_key_rotator.Base.Text.{Bytes}
use api_key_rotator.Pool.State.{KeyPool, Slot}
use api_key_rotator.Pool.Slots.{has_slot}

abbrev pub Pick : Type 0
Pick = Option (ℕ × ℕ)

pub record Picks : Type 0 where
  pub best : Pick
  pub fallback_slot : Pick
  pub fallback_any : Pick

abbrev pub no_picks : Picks
no_picks = record { best = none; fallback_slot = none; fallback_any = none }

-- `if rc > credits { credits = rc; pick = i }`
abbrev pub richer : ℕ → ℕ → Pick → Pick
richer i rc none = some (i, rc)
richer i rc (some (j, credits)) = if ltb credits rc then some (i, rc) else some (j, credits)

-- Non-disabled and not below the stop threshold.
unfoldable pub usable : KeyPool → Slot → Bool
usable p s = not s.disabled && leb p.stop_threshold s.remaining_credits

abbrev pub before : ℕ → Option ℕ → Bool
before now none = false
before now (some t) = ltb now t

unfoldable pub is_cooling : ℕ → Slot → Bool
is_cooling now s = before now s.cooldown_until

-- The body of the loop.
unfoldable pub visit : KeyPool → ℕ → ℕ → Slot → Picks → Picks
visit p now i s acc =
    let any = record acc { fallback_any = richer i s.remaining_credits acc.fallback_any } in
    let slot = record any { fallback_slot = richer i s.remaining_credits acc.fallback_slot } in
    let top = record slot { best = richer i s.remaining_credits acc.best } in
    if s.disabled
    then acc
    else if ltb s.remaining_credits p.stop_threshold
    then acc
    else if not (has_slot p s)
    then any
    else if is_cooling now s
    then slot
    else top

unfoldable pub scan : KeyPool → ℕ → ℕ → List Slot → Picks → Picks
scan p now i [] acc = acc
scan p now i (s ∷ ss) acc = scan p now (suc i) ss (visit p now i s acc)

-- `if best < 0 { best = fallbackSlot }; if best < 0 { best = fallbackAny }`
abbrev pub or_else : Pick → Pick → Pick
or_else none q = q
or_else (some x) q = some x

unfoldable pub choose : Picks → Pick
choose picks = or_else (or_else picks.best picks.fallback_slot) picks.fallback_any

abbrev pub key_at : KeyPool → ℕ → Bytes
key_at p i = elim (get_elem? p.slots i) [ none ↦ [] | some s ↦ s.key ]

-- `none` is (-1, "").
abbrev pub settle : KeyPool → Pick → KeyPool × Option (ℕ × Bytes)
settle p none = (p, none)
settle p (some (i, _)) = (record p { cursor = i }, some (i, key_at p i))

unfoldable pub current : ℕ → KeyPool → KeyPool × Option (ℕ × Bytes)
current now p = settle p (choose (scan p now 0 p.slots no_picks))

abbrev pub any_usable_in : KeyPool → List Slot → Bool
any_usable_in p [] = false
any_usable_in p (s ∷ ss) =
    (not s.disabled && leb p.stop_threshold s.remaining_credits) || any_usable_in p ss

unfoldable pub any_usable : KeyPool → Bool
any_usable p = any_usable_in p p.slots
