-- ===== src/Server/Secret.antt =====
-- server.go and keys.go: what the endpoints show of the keys.
use api_key_rotator.Base.{
  ℕ, suc, ◌-◌, ◌≡◌, refl, ap, sym, true, Bool-cases, inl, inr, List, [], ◌∷◌, map, length, drop,
  leb, arith, length-drop,
}
use api_key_rotator.Base.Text.{Bytes}
use api_key_rotator.Pool.State.{KeyPool, Slot}
use api_key_rotator.Pool.Select.{any_usable, any_usable_in}
use api_key_rotator.Pool.Snapshot.{mask_key, snapshot_slot, snapshot_from, snapshot}
use api_key_rotator.Profile.State.{Profile}
use api_key_rotator.Server.{is_healthy, any_healthy, healthz, status, status_from, Snaps}

-- The last four bytes of a key, or all of a shorter one.
abbrev pub last_four : Bytes → Bytes
last_four k = drop (length k - 4) k

abbrev pub cut_slot : Slot → Slot
cut_slot s = record s { key = last_four s.key }

abbrev pub cut_pool : KeyPool → KeyPool
cut_pool p = record p { slots = map cut_slot p.slots }

-- The profile with only that of each key.
abbrev pub cut_profile : Profile → Profile
cut_profile p = record p { pool = cut_pool p.pool }

mask_key-eq-last_four : (k : Bytes) → mask_key k ≡ last_four k
unfolding mask_key
mask_key-eq-last_four k = elim (Bool-cases (leb (length k) 4)) [
  | inl short ↦ let nothing : length k - 4 ≡ 0 = ground (arith, short) in rw (short, nothing) refl
  | inr long ↦ rw long refl
]

mask_key-last_four : (k : Bytes) → mask_key (last_four k) ≡ mask_key k
unfolding mask_key
mask_key-last_four k =
    let short : leb (length (last_four k)) 4 ≡ true =
      ground (arith, length-drop (length k - 4) k) in
    rw short (sym (mask_key-eq-last_four k))

length-cut : (ss : List Slot) → length (map cut_slot ss) ≡ length ss
length-cut [] = refl
length-cut (s ∷ ss) = ap suc (length-cut ss)

snapshot_from-cut :
    (i : ℕ) (ss : List Slot) → snapshot_from i (map cut_slot ss) ≡ snapshot_from i ss
unfolding snapshot_from snapshot_slot
snapshot_from-cut i [] = refl
snapshot_from-cut i (s ∷ ss) = simp (mask_key-last_four, snapshot_from-cut (suc i) ss)

snapshot-cut : (p : KeyPool) → snapshot (cut_pool p) ≡ snapshot p
unfolding snapshot
snapshot-cut p = simp (snapshot_from-cut, length-cut)

status_from-cut :
    (ps : List Profile) (snaps : Snaps)
    → status_from (map cut_profile ps) snaps ≡ status_from ps snaps
unfolding status_from
status_from-cut [] snaps = refl
status_from-cut (p ∷ ps) snaps = simp (snapshot-cut, status_from-cut ps)

any_usable_in-cut :
    (q : KeyPool) (ss : List Slot)
    → any_usable_in (cut_pool q) (map cut_slot ss) ≡ any_usable_in q ss
any_usable_in-cut q [] = refl
any_usable_in-cut q (s ∷ ss) = ground (arith, any_usable_in-cut q ss)

any_healthy-cut : (ps : List Profile) → any_healthy (map cut_profile ps) ≡ any_healthy ps
unfolding any_healthy is_healthy any_usable
any_healthy-cut [] = refl
any_healthy-cut (p ∷ ps) =
    rw (any_usable_in-cut p.pool p.pool.slots, length-cut p.pool.slots, any_healthy-cut ps) refl

-- /status and /healthz answer the same whatever the keys are before their last four bytes.
pub status-cut_profile :
    (ps : List Profile)
    → (status (map cut_profile ps) ≡ status ps) × (healthz (map cut_profile ps) ≡ healthz ps)
unfolding healthz status
status-cut_profile ps = (status_from-cut ps [], rw (any_healthy-cut ps) refl)
