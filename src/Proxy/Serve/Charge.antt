-- ===== src/Proxy/Serve/Charge.antt =====
-- proxy.go, costOf and Decrement together: what a success costs its key, when no other goroutine
-- calls the pool meanwhile.
use api_key_rotator.Base.{ℕ, ◌+◌, ◌≡◌, ◌≢◌, ◌&&◌, [], if◌then◌else◌, get_elem?}
use api_key_rotator.Pool.State.{Slot}
use api_key_rotator.Pool.Credits.{switch_off}
use api_key_rotator.Pool.Advance.{rotate_cooldown}
use api_key_rotator.Profile.State.{Profile}
use api_key_rotator.Profile.Policy.{is_daily_capped_finance}
use api_key_rotator.Proxy.ServeOnce.{World, Run}
use api_key_rotator.Proxy.Serve.Price.{is_spent}

module _ (w : World) (alone : (n : ℕ) → w.others n ≡ []) where
  -- The other keys.
  module _ (i j : ℕ) (other : i ≢ j) where
    abbrev Kept : Run → Run → Type 0
    Kept r q = get_elem? q.pool.slots j ≡ get_elem? r.pool.slots j

  rested : Profile → Slot → ℕ → ℕ → Slot
  rested p t stop instant =
      if is_daily_capped_finance p.name && is_spent stop t
      then switch_off (w.clock instant + rotate_cooldown) t
      else t
