-- ===== src/Refresh/WarmUp/Laws.antt =====
-- refresh.go: what RefreshAll makes of the balances.
use api_key_rotator.Base.{
  ℕ, zero, suc, ◌+◌, ◌≤◌, ◌<◌, ◌≡◌, ◌≢◌, refl, ◌∙◌, ◌↔◌, List, [], ◌∷◌, some, arith, All, ◌==◌,
  Bool-cases, inl, inr, get_elem?-lt, get_elem?, get_elem?-modify_self, get_elem?-modify_ne, length,
  if◌then◌else◌,
}
use api_key_rotator.Base.Int.{pos_part}
use api_key_rotator.Pool.State.{KeyPool, Slot, unmeasured}
use api_key_rotator.Pool.Credits.{measure, set_credits}
use api_key_rotator.Usage.{Usage, refresh_key}
use api_key_rotator.Refresh.{Refresher, refresh_one}
use api_key_rotator.Refresh.WarmUp.{refresh_from, refresh_all, count_unmeasured}

-- What a fetch makes of the slot of its key.
abbrev pub measured_by : Usage → Slot → Slot
measured_by u s = if u.ok then measure (pos_part u.remaining) s else s

refresh_one_keeps :
    (u : Usage) (now i j : ℕ) (pool : KeyPool) (r : Refresher)
    → i ≢ j
    → get_elem? (refresh_one i u now (pool, r)).0.slots j ≡ get_elem? pool.slots j
unfolding refresh_one refresh_key set_credits
refresh_one_keeps u now i j pool r h = elim (Bool-cases u.ok) [
  | inl ok ↦ rw ok (get_elem?-modify_ne pool.slots (measure (pos_part u.remaining)) h)
  | inr bad ↦ rw bad refl
]

refresh_one_sets :
    (u : Usage) (now j : ℕ) (pool : KeyPool) (r : Refresher) {s : Slot}
    → get_elem? pool.slots j ≡ some s
    → get_elem? (refresh_one j u now (pool, r)).0.slots j ≡ some (measured_by u s)
unfolding refresh_one refresh_key set_credits
refresh_one_sets u now j pool r e = elim (Bool-cases u.ok) [
  | inl ok ↦ rw ok (get_elem?-modify_self pool.slots j (measure (pos_part u.remaining)) e)
  | inr bad ↦ rw bad e
]

module _ (usage : ℕ → Usage) (now : ℕ) where
  refresh_from_keeps :
      (n i j : ℕ) (pool : KeyPool) (r : Refresher)
      → j < i
      → get_elem? (refresh_from usage now n i (pool, r)).0.slots j ≡ get_elem? pool.slots j
  unfolding refresh_from
  refresh_from_keeps zero i j pool r h = refl
  refresh_from_keeps (suc n) i j pool r h =
      refresh_from_keeps n (suc i) j (refresh_one i (usage i) now (pool, r)).0
        (refresh_one i (usage i) now (pool, r)).1 (omega (arith, h))
      ∙ refresh_one_keeps (usage i) now i j pool r (λ e. omega (arith, h, e))

  refresh_from_sets :
      (n i j : ℕ) (pool : KeyPool) (r : Refresher) {s : Slot}
      → i ≤ j
      → j < i + n
      → get_elem? pool.slots j ≡ some s
      → get_elem? (refresh_from usage now n i (pool, r)).0.slots j ≡ some (measured_by (usage j) s)
  unfolding refresh_from
  refresh_from_sets zero i j pool r a b e = absurd (omega (arith, a, b))
  refresh_from_sets (suc n) i j pool r a b e =
      let after = refresh_one i (usage i) now (pool, r) in
      elim (Bool-cases (i == j)) [
        | inl here ↦
            let same : i ≡ j = ground (arith, here) in
            rw same (
              refresh_from_keeps n (suc j) j (refresh_one j (usage j) now (pool, r)).0
                (refresh_one j (usage j) now (pool, r)).1 (omega arith)
              ∙ refresh_one_sets (usage j) now j pool r e)
        | inr later ↦
            refresh_from_sets n (suc i) j after.0 after.1 (ground (arith, later, a))
              (omega (arith, b))
              (refresh_one_keeps (usage i) now i j pool r (λ same. ground (arith, later, same)) ∙ e)
      ]

-- The count of RefreshAll is 0 exactly when every balance is measured.
pub count_unmeasured-eq-zero_iff :
    (ss : List Slot) → (count_unmeasured ss ≡ 0) ↔ All (λ s. s.remaining_credits ≢ unmeasured) ss
count_unmeasured-eq-zero_iff [] = ((λ e. tt), (λ h. refl))
count_unmeasured-eq-zero_iff (s ∷ ss) = ground (arith, count_unmeasured-eq-zero_iff ss)

-- RefreshAll sets the balance of each key whose fetch succeeds, never below 0, and leaves the rest of
-- its slot and all other slots alone; the number that it returns is 0 exactly when every balance is
-- measured. The refresher has one entry for each key.
pub refresh_all-get_elem? :
    (usage : ℕ → Usage) (now : ℕ) (pool : KeyPool) (r : Refresher) (j : ℕ) {s : Slot}
    → length r.last_low ≡ length pool.slots
    → get_elem? pool.slots j ≡ some s
    → (get_elem? (refresh_all usage now (pool, r)).0.0.slots j ≡ some (measured_by (usage j) s))
      × (((refresh_all usage now (pool, r)).1 ≡ 0)
          ↔ All (λ t. t.remaining_credits ≢ unmeasured) (refresh_all usage now (pool, r)).0.0.slots)
unfolding refresh_all
refresh_all-get_elem? usage now pool r j each e = (
  refresh_from_sets usage now (length r.last_low) 0 j pool _ (omega arith)
      (omega (arith, each, get_elem?-lt pool.slots j e)) e,
  count_unmeasured-eq-zero_iff _,
)
