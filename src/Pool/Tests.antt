-- ===== src/Pool/Tests.antt =====
-- Tests of the key pool, and its theorems at concrete pools.
use api_key_rotator.Base.{
  ℕ, ◌≤◌, ◌≡◌, ◌≢◌, refl, List, [], ◌∷◌, none, some, arith, true, false, get_elem?,
}
use api_key_rotator.Base.Int.{pos}
use api_key_rotator.Base.Text.{Bytes, codes, bytes_eq, trim_space, atoi}
use api_key_rotator.Pool.State.{
  KeyPool, Slot, no_stats, unmeasured, new_slot, new_key_pool, set_thresholds, set_max_concurrent,
}
use api_key_rotator.Pool.Slots.{has_slot, any_slot_free, try_acquire, token, timer, wait_loop}
use api_key_rotator.Pool.Select.{usable, is_cooling, current, visit, scan, choose}
use api_key_rotator.Headers.{Header, header_get}
use api_key_rotator.Pool.Advance.{retry_after_seconds, advance_after}
use api_key_rotator.Pool.Credits.{rate, set_credits, disable}
use api_key_rotator.Pool.Reset.{is_due, reenable_due}
use api_key_rotator.Pool.Snapshot.{KeySnapshot, snapshot, snapshot_slot, mask_key}
use api_key_rotator.Pool.Ops.{
  Call, selects, advances, acquires, releases, rejects, measures, reenables, step, run,
}
use api_key_rotator.Pool.Select.Current.{Leads, current-Precedes}
use api_key_rotator.Pool.Advance.Rotation.{advance_after-ne-cursor}
use api_key_rotator.Pool.Invariant.{Inv, run-new-Inv}
use api_key_rotator.Pool.Disabled.{run-disabled-ne, disable-reenable_due}
use api_key_rotator.Pool.Leases.{count, System, enter, Reach, here, next}
use api_key_rotator.Pool.Leases.Cap.{start, Reach-start}

abbrev key_slot : Bytes → ℕ → Slot
key_slot key credits = record {
  key = key;
  stats = no_stats;
  disabled = false;
  disabled_until = none;
  remaining_credits = credits;
  cooldown_until = none;
  in_flight = 0;
}

abbrev rich : Slot
rich = key_slot (codes "fc-rich-0001") 900

abbrev busy : Slot
busy = record (key_slot (codes "fc-busy-0002") 950) { in_flight = 1 }

abbrev off : Slot
off = record (key_slot (codes "fc-off-0003") 0) { disabled = true; disabled_until = some 500 }

abbrev poor : Slot
poor = key_slot (codes "fc-poor-0004") 40

-- One free rich key, a richer one at its limit, a disabled one and a poor one.
abbrev sample : KeyPool
sample = record {
  slots = rich ∷ busy ∷ off ∷ poor ∷ [];
  cursor = 0;
  low_threshold = 10;
  stop_threshold = 2;
  max_concurrent = 1;
  slot_free = false;
}

sample-current : (current 100 sample).1 ≡ some (0, codes "fc-rich-0001")
unfolding current scan visit choose has_slot is_cooling
sample-current = refl

current-Precedes_example :
    (s : Slot) × (get_elem? sample.slots 0 ≡ some s)
    × (s.key ≡ codes "fc-rich-0001")
    × (usable sample s ≡ true)
    × Leads sample 100 0 s 1 (some busy)
    × ((current 100 sample).0 ≡ record sample { cursor = 0 })
current-Precedes_example = current-Precedes 100 sample 0 (codes "fc-rich-0001") 1 sample-current

abbrev slow_down : Header
slow_down = (codes "Retry-After", codes " 60 " ∷ []) ∷ []

retry_after_60 : retry_after_seconds slow_down ≡ 60
unfolding retry_after_seconds header_get bytes_eq trim_space atoi
retry_after_60 = refl

advance_after-ne-cursor_example :
    (i : ℕ) × (key : Bytes) × ((advance_after slow_down 100 sample).1 ≡ some (i, key))
    × (i ≢ sample.cursor)
advance_after-ne-cursor_example =
    advance_after-ne-cursor slow_down 100 sample 3 {t = poor} refl (λ e. omega arith)
      (unfold usable in refl) (unfold has_slot in refl) (unfold is_cooling in refl)

abbrev full : KeyPool
full = record sample { slots = busy ∷ [] }

wait_ends : wait_loop full (token full ∷ token sample ∷ timer ∷ []) ≡ some true
unfolding wait_loop any_slot_free has_slot
wait_ends = refl

reenable_tests : ((reenable_due 499 sample).1 ≡ 0) × ((reenable_due 500 sample).1 ≡ 1)
unfolding reenable_due is_due
reenable_tests = (refl, refl)

abbrev calls : List Call
calls =
    selects 100
    ∷ acquires 0
    ∷ rejects 0 rate
    ∷ advances 110
    ∷ releases 0
    ∷ measures 2 (pos 90)
    ∷ reenables 499
    ∷ []

run-new-Inv_example :
    Inv
      (run (set_max_concurrent (pos 1) (set_thresholds 10 2 (new_key_pool (codes "k" ∷ [])))) calls)
run-new-Inv_example = run-new-Inv (codes "k" ∷ []) 10 2 (pos 1) calls (omega arith)

after_calls :
    (current 600 (run sample (measures 2 (pos 990) ∷ []))).1 ≡ some (0, codes "fc-rich-0001")
unfolding current scan visit choose has_slot is_cooling run step set_credits
after_calls = refl

run-disabled-ne_example : ◌≢◌ {A = ℕ} 0 2
run-disabled-ne_example =
    run-disabled-ne 2 500 sample (measures 2 (pos 990) ∷ []) 600 0 (codes "fc-rich-0001") {s = off}
      refl refl refl (omega arith) after_calls

disable-reenable_due_example :
    (s' : Slot) × (get_elem? (reenable_due 800 (run (disable 0 800 sample) calls)).0.slots 0
      ≡ some s')
    × (s'.remaining_credits ≡ unmeasured)
    × (usable (reenable_due 800 (run (disable 0 800 sample) calls)).0 s' ≡ true)
disable-reenable_due_example =
    disable-reenable_due 0 800 800 sample calls {s = rich} refl (omega arith) (omega arith)
      (omega arith)

abbrev fresh : System
fresh = start (codes "a" ∷ codes "b" ∷ []) 10 2 1

abbrev held : System
held = record { pool = (try_acquire 1 fresh.pool).0; holders = 1 ∷ [] }

abbrev taken_slot : Slot
taken_slot = record (new_slot (codes "b")) { in_flight = 1 }

enter_second : Reach fresh held
unfolding try_acquire new_key_pool set_thresholds set_max_concurrent
enter_second = next here (enter 1 refl refl)

held_second : get_elem? held.pool.slots 1 ≡ some taken_slot
unfolding try_acquire new_key_pool set_thresholds set_max_concurrent
held_second = refl

Reach-start_example : (1 ≡ count 1 held.holders) × (count 1 held.holders ≤ 1)
Reach-start_example =
    Reach-start (codes "a" ∷ codes "b" ∷ []) 10 2 1 1 {u = held} {s = taken_slot} (λ e. omega arith)
      enter_second held_second

masked : mask_key (codes "fc-rich-0001") ≡ codes "0001"
unfolding mask_key
masked = refl

abbrev poor_entry : KeySnapshot
poor_entry = record {
  index = 3;
  last4 = codes "0004";
  stats = no_stats;
  disabled = false;
  disabled_until = none;
  remaining_credits = pos 40;
}

snapshot_fourth : get_elem? (snapshot sample).keys 3 ≡ some poor_entry
unfolding snapshot snapshot_slot
snapshot_fourth = refl
