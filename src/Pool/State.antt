-- ===== src/Pool/State.antt =====
-- keys.go: the types, the constructor and the setters. The parallel slices of `KeyPool` (keys,
-- stats, disabled, ...), all made with len(keys) and never resized, are one list of records; the
-- mutex is implicit, since every operation here is one critical section.
use api_key_rotator.Base.{ℕ, ◌-◌, ◌^◌, List, map, Bool, false, Option, none}
use api_key_rotator.Base.Int.{ℤ, pos_part}
use api_key_rotator.Base.Text.{Bytes}

pub record KeyStat : Type 0 where
  pub success : ℕ
  pub exhausted : ℕ
  pub rate_limited : ℕ
  pub auth : ℕ
  pub retries : ℕ

-- Everything the pool keeps for one key. An instant is a number of nanoseconds, and the zero
-- `time.Time` is `none`.
pub record Slot : Type 0 where
  pub key : Bytes
  pub stats : KeyStat
  pub disabled : Bool
  pub disabled_until : Option ℕ
  pub remaining_credits : ℕ
  pub cooldown_until : Option ℕ
  pub in_flight : ℕ

pub record KeyPool : Type 0 where
  pub slots : List Slot
  pub cursor : ℕ
  pub low_threshold : ℕ
  pub stop_threshold : ℕ
  pub max_concurrent : ℕ
  -- Whether the wake-up token lies in the channel `slotFree` (of capacity 1).
  pub slot_free : Bool

-- math.MaxInt64, the balance of a key that was never measured.
abbrev pub unmeasured : ℕ
unmeasured = 2 ^ 63 - 1

abbrev pub no_stats : KeyStat
no_stats = record { success = 0; exhausted = 0; rate_limited = 0; auth = 0; retries = 0 }

abbrev pub new_slot : Bytes → Slot
new_slot key = record {
  key = key;
  stats = no_stats;
  disabled = false;
  disabled_until = none;
  remaining_credits = unmeasured;
  cooldown_until = none;
  in_flight = 0;
}

unfoldable pub new_key_pool : List Bytes → KeyPool
new_key_pool keys = record {
  slots = map new_slot keys;
  cursor = 0;
  low_threshold = 0;
  stop_threshold = 0;
  max_concurrent = 0;
  slot_free = false;
}

unfoldable pub set_thresholds : ℕ → ℕ → KeyPool → KeyPool
set_thresholds low stop p = record p { low_threshold = low; stop_threshold = stop }

unfoldable pub set_max_concurrent : ℤ → KeyPool → KeyPool
set_max_concurrent n p = record p { max_concurrent = pos_part n }
