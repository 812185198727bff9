-- ===== src/Pool/Snapshot.antt =====
-- keys.go: maskKey and Snapshot.
pub mod Laws
use api_key_rotator.Base.{
  ℕ, suc, ◌-◌, Bool, List, [], ◌∷◌, Option, none, leb, if◌then◌else◌, length, drop,
}
use api_key_rotator.Base.Int.{ℤ}
use api_key_rotator.Base.Text.{Bytes}
use api_key_rotator.Pool.State.{KeyPool, KeyStat, Slot}
use api_key_rotator.Pool.Credits.{reported}

pub record KeySnapshot : Type 0 where
  pub index : ℕ
  pub last4 : Bytes
  pub stats : KeyStat
  pub disabled : Bool
  pub disabled_until : Option ℕ
  pub remaining_credits : ℤ

pub record PoolSnapshot : Type 0 where
  pub pool_size : ℕ
  pub current_index : ℕ
  pub keys : List KeySnapshot

unfoldable pub mask_key : Bytes → Bytes
mask_key k = if leb (length k) 4 then k else drop (length k - 4) k

unfoldable pub snapshot_slot : ℕ → Slot → KeySnapshot
unfolding mask_key
snapshot_slot i s = record {
  index = i;
  last4 = mask_key s.key;
  stats = s.stats;
  disabled = s.disabled;
  disabled_until = if s.disabled then s.disabled_until else none;
  remaining_credits = reported s.remaining_credits;
}

unfoldable pub snapshot_from : ℕ → List Slot → List KeySnapshot
snapshot_from i [] = []
snapshot_from i (s ∷ ss) = snapshot_slot i s ∷ snapshot_from (suc i) ss

unfoldable pub snapshot : KeyPool → PoolSnapshot
unfolding snapshot_from
snapshot p = record {
  pool_size = length p.slots;
  current_index = p.cursor;
  keys = snapshot_from 0 p.slots;
}
