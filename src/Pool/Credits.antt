-- ===== src/Pool/Credits.antt =====
-- keys.go: RecordSuccess, RecordRejection, Decrement, PredictedRemaining, StopThreshold, SetCredits
-- and Disable.
pub mod Laws
use api_key_rotator.Base.{
  ℕ, zero, suc, ◌+◌, ◌-◌, true, Option, none, some, ◌==◌, if◌then◌else◌, get_elem?, modify,
}
use api_key_rotator.Base.Int.{ℤ, pos, negsuc, pos_part}
use api_key_rotator.Pool.State.{KeyPool, KeyStat, Slot, unmeasured}

-- The four kinds that RecordRejection accepts; any other string panics, and rejectKind returns none.
pub data Rejection : Type 0 where
  exhausted rate auth retry : Rejection

abbrev pub succeed : Slot → Slot
succeed s = record s { stats = record stats { success = stats.success + 1 }; cooldown_until = none }
  where
    open s use {stats}

unfoldable pub record_success : ℕ → KeyPool → KeyPool
record_success i p = record p { slots = modify p.slots i succeed }

abbrev pub count_rejection : Rejection → KeyStat → KeyStat
count_rejection exhausted t = record t { exhausted = t.exhausted + 1 }
count_rejection rate t = record t { rate_limited = t.rate_limited + 1 }
count_rejection auth t = record t { auth = t.auth + 1 }
count_rejection retry t = record t { retries = t.retries + 1 }

abbrev pub reject : Rejection → Slot → Slot
reject kind s = record s { stats = count_rejection kind s.stats }

-- `none` is the panic of an index out of range, which nothing guards here.
unfoldable pub record_rejection : ℕ → Rejection → KeyPool → Option KeyPool
record_rejection i kind p = elim (get_elem? p.slots i) [
  | none ↦ none
  | some _ ↦ some (record p { slots = modify p.slots i (reject kind) })
]

-- A cost that is not positive counts as 1.
abbrev pub charged : ℤ → ℕ
charged (negsuc n) = 1
charged (pos zero) = 1
charged (pos (suc n)) = suc n

-- The balance stops at 0, as `-` does; an unmeasured key keeps its mark.
abbrev pub spend : ℕ → Slot → Slot
spend cost s =
    if s.remaining_credits == unmeasured
    then s
    else record s { remaining_credits = s.remaining_credits - cost }

unfoldable pub decrement : ℕ → ℤ → KeyPool → KeyPool
decrement i cost p = record p { slots = modify p.slots i (spend (charged cost)) }

-- -1 on the wire.
abbrev pub reported : ℕ → ℤ
reported rc = if rc == unmeasured then negsuc 0 else pos rc

unfoldable pub predicted_remaining : ℕ → KeyPool → ℤ
predicted_remaining i p = elim (get_elem? p.slots i) [
  | none ↦ negsuc 0
  | some s ↦ reported s.remaining_credits
]

abbrev pub measure : ℕ → Slot → Slot
measure credits s = record s { remaining_credits = credits }

-- A negative balance is recorded as 0.
unfoldable pub set_credits : ℕ → ℤ → KeyPool → KeyPool
set_credits i credits p = record p { slots = modify p.slots i (measure (pos_part credits)) }

abbrev pub switch_off : ℕ → Slot → Slot
switch_off until s = record s {
  disabled = true;
  disabled_until = some until;
  remaining_credits = if s.remaining_credits == unmeasured then unmeasured else 0;
}

unfoldable pub disable : ℕ → ℕ → KeyPool → KeyPool
disable i until p = record p { slots = modify p.slots i (switch_off until) }
