-- ===== src/Server/Laws.antt =====
-- server.go: what /healthz says of the pools.
use api_key_rotator.Base.{
  ℕ, ◌≡◌, refl, ◌↔◌, Bool, true, false, ◌&&◌, List, [], ◌∷◌, none, arith, All, ltb, length,
  if◌then◌else◌,
}
use api_key_rotator.Pool.State.{KeyPool, Slot}
use api_key_rotator.Pool.Select.{current, any_usable, any_usable_in}
use api_key_rotator.Pool.Select.Current.{current-eq-none_iff}
use api_key_rotator.Profile.State.{Profile}
use api_key_rotator.Server.{is_healthy, any_healthy, healthz}

-- A pool with no key has no usable one, so that the test of the number of keys changes nothing.
is_healthy-any_usable : (p : Profile) → is_healthy p ≡ any_usable p.pool
unfolding is_healthy any_usable
is_healthy-any_usable p = by_slots p.pool p.pool.slots
  where
    by_slots :
        (q : KeyPool) (ss : List Slot)
        → (ltb 0 (length ss) && any_usable_in q ss) ≡ any_usable_in q ss
    by_slots q [] = refl
    by_slots q (s ∷ ss) = ground arith

pub any_healthy-eq-false_iff :
    (now : ℕ) (ps : List Profile)
    → (any_healthy ps ≡ false) ↔ All (λ p. (current now p.pool).1 ≡ none) ps
unfolding any_healthy
any_healthy-eq-false_iff now [] = ((λ e. tt), (λ h. refl))
any_healthy-eq-false_iff now (p ∷ ps) = ground (
  arith,
  is_healthy-any_usable p,
  current-eq-none_iff now p.pool,
  any_healthy-eq-false_iff now ps,
)

-- /healthz answers 503 exactly when Current finds no key in any pool, at whatever time it is asked.
pub healthz_unusable_iff :
    (now : ℕ) (ps : List Profile)
    → (healthz ps ≡ (503, false)) ↔ All (λ p. (current now p.pool).1 ≡ none) ps
unfolding healthz
healthz_unusable_iff now ps =
    let (to, from) = any_healthy-eq-false_iff now ps in
    ((λ e. to (refused (any_healthy ps) e)), (λ h. rw (from h) refl))
  where
    refused :
        (b : Bool)
        → ◌≡◌ {A = ℕ × Bool} (if b then (200, true) else (503, false)) (503, false)
        → b ≡ false
    refused true e = cc
    refused false e = refl
