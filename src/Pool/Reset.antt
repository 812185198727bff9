-- ===== src/Pool/Reset.antt =====
-- keys.go: ReenableDue.
pub mod Laws
use api_key_rotator.Base.{
  ℕ, suc, Bool, false, ◌&&◌, List, [], ◌∷◌, Option, none, some, leb, if◌then◌else◌,
}
use api_key_rotator.Pool.State.{KeyPool, Slot, unmeasured}

-- `!until.IsZero() && !until.After(now)`
abbrev pub has_passed : ℕ → Option ℕ → Bool
has_passed now none = false
has_passed now (some until) = leb until now

unfoldable pub is_due : ℕ → Slot → Bool
is_due now s = s.disabled && has_passed now s.disabled_until

abbrev pub switch_on : Slot → Slot
switch_on s = record s { disabled = false; disabled_until = none; remaining_credits = unmeasured }

-- The loop, with the count `n`.
unfoldable pub reenable_slots : ℕ → List Slot → List Slot × ℕ
reenable_slots now [] = ([], 0)
reenable_slots now (s ∷ ss) =
    let (rest, n) = reenable_slots now ss in
    if is_due now s then (switch_on s ∷ rest, suc n) else (s ∷ rest, n)

unfoldable pub reenable_due : ℕ → KeyPool → KeyPool × ℕ
unfolding reenable_slots
reenable_due now p = let (slots, n) = reenable_slots now p.slots in (record p { slots = slots }, n)
