-- ===== src/Pool/Snapshot/Laws.antt =====
-- keys.go: what Snapshot shows of each key.
use api_key_rotator.Base.{
  ℕ, zero, suc, ◌+◌, ◌-◌, ◌≤◌, ◌≡◌, ◌↔◌, refl, List, [], ◌∷◌, ◌++◌, some, arith, get_elem?, length,
  leb, take, take-append-drop, length-drop, inl, inr, Bool-cases,
}
use api_key_rotator.Base.Int.{negsuc}
use api_key_rotator.Base.Text.{Bytes}
use api_key_rotator.Pool.State.{KeyPool, Slot, unmeasured}
use api_key_rotator.Pool.Credits.{reported}
use api_key_rotator.Pool.Snapshot.{KeySnapshot, mask_key, snapshot_slot, snapshot_from, snapshot}

-- The masked key is the end of the key, of at most four bytes.
pub mask_key-suffix :
    (k : Bytes) → (length (mask_key k) ≤ 4) × (hidden : Bytes) × (hidden ++ mask_key k ≡ k)
unfolding mask_key
mask_key-suffix k = elim (Bool-cases (leb (length k) 4)) [
  | inl short ↦ rw short (ground arith, [], refl)
  | inr long ↦ rw long (
    omega (arith, length-drop (length k - 4) k),
    take (length k - 4) k,
    take-append-drop (length k - 4) k,
  )
]

snapshot_from-get_elem? :
    (i : ℕ) (ss : List Slot) (j : ℕ) {ks : KeySnapshot}
    → get_elem? (snapshot_from i ss) j ≡ some ks
    → (s : Slot) × (get_elem? ss j ≡ some s) × (snapshot_slot (i + j) s ≡ ks)
unfolding snapshot_from
snapshot_from-get_elem? i [] j e = cc
snapshot_from-get_elem? i (s ∷ ss) zero {ks} e =
    let at : i + 0 ≡ i = omega arith in (s, refl, rw at (ground arith))
snapshot_from-get_elem? i (s ∷ ss) (suc j) {ks} e =
    let (t, at, same) = snapshot_from-get_elem? (suc i) ss j e in
    let shift : i + suc j ≡ suc i + j = omega arith in (t, at, rw shift same)

reported-unmeasured : (rc : ℕ) → (reported rc ≡ negsuc 0) ↔ (rc ≡ unmeasured)
reported-unmeasured rc = (λ e. ground arith, λ e. ground arith)

-- Each entry of /status stands for the key at its index: it shows at most four bytes, the end of
-- the key, the counters and the disabled mark as they are, and -1 exactly for an unmeasured key.
pub snapshot-get_elem? :
    (p : KeyPool) (j : ℕ) {ks : KeySnapshot}
    → get_elem? (snapshot p).keys j ≡ some ks
    → (s : Slot) × (get_elem? p.slots j ≡ some s)
      × (ks.index ≡ j)
      × (length ks.last4 ≤ 4)
      × ((hidden : Bytes) × (hidden ++ ks.last4 ≡ s.key))
      × (ks.stats ≡ s.stats)
      × (ks.disabled ≡ s.disabled)
      × ((ks.remaining_credits ≡ negsuc 0) ↔ (s.remaining_credits ≡ unmeasured))
unfolding snapshot snapshot_slot
snapshot-get_elem? p j {ks} e =
    let (s, at, same) = snapshot_from-get_elem? 0 p.slots j e in
    let (short, hidden, whole) = mask_key-suffix s.key in
    (
      s,
      at,
      ground arith,
      ground arith,
      (hidden, ground arith),
      ground arith,
      ground arith,
      rw (← same) (reported-unmeasured s.remaining_credits),
    )
