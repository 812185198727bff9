-- ===== src/Refresh/WarmUp/Ends.antt =====
-- main.go: warmupLoop ends.
use api_key_rotator.Base.{
  ℕ, zero, suc, ◌≡◌, ◌≢◌, refl, sym, ◌∙◌, ◌⊎◌, inl, inr, true, List, [], ◌∷◌, some, arith, All,
  ◌==◌, Bool-cases, get_elem?, get_elem?_of_lt, get_elem?-lt, some_inj, subst, All-of_get_elem?,
  ==_iff, ◌↔◌, length, length-modify,
}
use api_key_rotator.Base.Int.{pos_part}
use api_key_rotator.Pool.State.{KeyPool, Slot, unmeasured}
use api_key_rotator.Pool.Credits.{measure, set_credits}
use api_key_rotator.Usage.{Usage, refresh_key}
use api_key_rotator.Refresh.{Refresher, refresh_one}
use api_key_rotator.Refresh.WarmUp.{refresh_from, refresh_all, warm_up}
use api_key_rotator.Refresh.WarmUp.Laws.{
  measured_by, refresh_all-get_elem?, count_unmeasured-eq-zero_iff,
}

abbrev pub Rounds : Type 0
Rounds = List ((ℕ → Usage) × ℕ)

-- One of the rounds fetches the balance of the key.
abbrev pub Answered : ℕ → Rounds → Type 0
Answered j [] = ⊥
Answered j ((usage, now) ∷ rounds) = ((usage j).ok ≡ true) ⊎ Answered j rounds

-- No balance that a round fetches is the mark of an unmeasured key.
abbrev pub AllDefinite : Rounds → Type 0
AllDefinite = All (λ round. (j : ℕ) → pos_part (round.0 j).remaining ≢ unmeasured)

abbrev pub IsMeasured : Slot → Type 0
IsMeasured s = s.remaining_credits ≢ unmeasured

-- Each of the pool and of the refresher has as many entries as before.
abbrev Sized : KeyPool × Refresher → KeyPool × Refresher → Type 0
Sized a b = (length b.0.slots ≡ length a.0.slots) × (length b.1.last_low ≡ length a.1.last_low)

refresh_one-Sized :
    (i now : ℕ) (u : Usage) (pool : KeyPool) (r : Refresher)
    → Sized (pool, r) (refresh_one i u now (pool, r))
unfolding refresh_one refresh_key set_credits
refresh_one-Sized i now u pool r =
    ground (arith, length-modify pool.slots i (measure (pos_part u.remaining)))

module _ (usage : ℕ → Usage) (now : ℕ) where
  refresh_from-Sized :
      (n i : ℕ) (pool : KeyPool) (r : Refresher)
      → Sized (pool, r) (refresh_from usage now n i (pool, r))
  unfolding refresh_from
  refresh_from-Sized zero i pool r = (refl, refl)
  refresh_from-Sized (suc n) i pool r =
      let next = refresh_one i (usage i) now (pool, r) in
      let (a, b) = refresh_one-Sized i now (usage i) pool r in
      let (a', b') = refresh_from-Sized n (suc i) next.0 next.1 in (a' ∙ a, b' ∙ b)

  refresh_all-Sized :
      (pool : KeyPool) (r : Refresher) → Sized (pool, r) (refresh_all usage now (pool, r)).0
  unfolding refresh_all
  refresh_all-Sized pool r = refresh_from-Sized (length r.last_low) 0 pool _

  -- A measured key stays measured, and one whose fetch succeeds becomes so.
  measured_by-IsMeasured :
      (j : ℕ) (s : Slot)
      → pos_part (usage j).remaining ≢ unmeasured
      → IsMeasured s ⊎ ((usage j).ok ≡ true)
      → IsMeasured (measured_by (usage j) s)
  measured_by-IsMeasured j s d (inl h) = ground (arith, h, d)
  measured_by-IsMeasured j s d (inr h) = rw h d

-- Every key is measured or will be.
abbrev pub Served : List Slot → Rounds → Type 0
Served ss rounds = (j : ℕ) (s : Slot) → get_elem? ss j ≡ some s → IsMeasured s ⊎ Answered j rounds

module _ (usage : ℕ → Usage) (now : ℕ) (pool : KeyPool) (r : Refresher)
    (each : length r.last_low ≡ length pool.slots) where
  -- Each slot behind a round is what the round makes of a slot before it.
  before :
      (j : ℕ) {t : Slot}
      → get_elem? (refresh_all usage now (pool, r)).0.0.slots j ≡ some t
      → (s : Slot) × (get_elem? pool.slots j ≡ some s) × (t ≡ measured_by (usage j) s)
  before j {t} e =
      let (same, _) = refresh_all-Sized usage now pool r in
      let (s, found) = get_elem?_of_lt pool.slots j (omega (arith, same, get_elem?-lt _ j e)) in
      let (made, _) = refresh_all-get_elem? usage now pool r j each found in
      (s, found, some_inj (sym e ∙ made))

  refresh_all-Served :
      (rounds : Rounds)
      → ((j : ℕ) → pos_part (usage j).remaining ≢ unmeasured)
      → Served pool.slots ((usage, now) ∷ rounds)
      → Served (refresh_all usage now (pool, r)).0.0.slots rounds
  refresh_all-Served rounds d h j t e =
      let (s, found, made) = before j e in
      elim (h j s found) [
        | inl old ↦
            inl (subst IsMeasured (sym made) (measured_by-IsMeasured usage now j s (d j) (inl old)))
        | inr (inl ok) ↦
            inl (subst IsMeasured (sym made) (measured_by-IsMeasured usage now j s (d j) (inr ok)))
        | inr (inr later) ↦ inr later
      ]

-- A key that no later round answers is measured.
Served_nil : (ss : List Slot) → Served ss [] → All IsMeasured ss
Served_nil ss h =
    All-of_get_elem? IsMeasured ss (λ j s e. elim (h j s e) [ inl m ↦ m | inr e' ↦ absurd e' ])

counted :
    (usage : ℕ → Usage) (now : ℕ) (pool : KeyPool) (r : Refresher)
    → ((refresh_all usage now (pool, r)).1 ≡ 0)
      ↔ All IsMeasured (refresh_all usage now (pool, r)).0.0.slots
unfolding refresh_all
counted usage now pool r = count_unmeasured-eq-zero_iff _

-- warmupLoop ends if each key that is not measured at its start has its balance fetched in one of the
-- rounds that the ticker starts, and then every key is measured; no fetch may give the mark of an
-- unmeasured key, and the refresher has one entry for each key.
pub warm_up_ends :
    (usage : ℕ → Usage) (now : ℕ) (rounds : Rounds) (pool : KeyPool) (r : Refresher)
    → length r.last_low ≡ length pool.slots
    → AllDefinite ((usage, now) ∷ rounds)
    → Served pool.slots ((usage, now) ∷ rounds)
    → ((warm_up ((usage, now) ∷ rounds) (pool, r)).1 ≡ true)
      × All IsMeasured (warm_up ((usage, now) ∷ rounds) (pool, r)).0.0.slots
unfolding warm_up
warm_up_ends usage now [] pool r each d h =
    let all = Served_nil _ (refresh_all-Served usage now pool r each [] d.0 h) in
    let zero' = (counted usage now pool r).1 all in rw zero' (refl, all)
warm_up_ends usage now ((usage', now') ∷ rounds) pool r each d h =
    elim (Bool-cases ((refresh_all usage now (pool, r)).1 == 0)) [
      | inl done ↦ rw done (refl, (counted usage now pool r).0 ((==_iff _ 0).0 done))
      | inr more ↦
          let (a, b) = refresh_all-Sized usage now pool r in
          rw more (
            warm_up_ends usage' now' rounds (refresh_all usage now (pool, r)).0.0
              (refresh_all usage now (pool, r)).0.1 (b ∙ each ∙ sym a) d.1
              (refresh_all-Served usage now pool r each ((usage', now') ∷ rounds) d.0 h))
    ]
