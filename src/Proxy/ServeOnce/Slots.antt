-- ===== src/Proxy/ServeOnce/Slots.antt =====
-- proxy.go: the counts of requests in flight under serveOnce.
use api_key_rotator.Base.{
  ℕ, ◌≡◌, ◌≢◌, inl, inr, refl, ◌∙◌, ◌==◌, Bool, true, false, Option, none, some, arith, Bool-cases,
  All,
}
use api_key_rotator.Base.Text.{Bytes}
use api_key_rotator.Pool.State.{KeyPool}
use api_key_rotator.Pool.Leases.{IsOther}
use api_key_rotator.Pool.Leases.Balance.{
  Level, Lent, Level-refl, Level-limit, Level-flight, Level-trans, step-Level, Lent-Level,
  try_acquire-Lent, try_acquire-Level, release-Level, release_unlimited, run-flight,
  run-max_concurrent,
}
use api_key_rotator.Pool.Select.{current}
use api_key_rotator.Pool.Ops.{selects, measures, step}
use api_key_rotator.Usage.{refresh_key}
use api_key_rotator.Refresh.{refresh_one, needs_measure}
use api_key_rotator.Pool.Leases.Flight.{flight}
use api_key_rotator.Profile.State.{Profile}
use api_key_rotator.Proxy.Request.{Request}
use api_key_rotator.Proxy.ServeOnce.{
  World, Run, serve_once, with_slot, try_slot, try_selected, select, acquire, give_back,
  ensure_measured, refreshed, usage_of, found, left, now,
}

module _ (w : World) (quiet : (n : ℕ) → All IsOther (w.others n)) where
  pub found-Level : (r : Run) → Level r.pool (found w r)
  unfolding Level
  found-Level r = (λ j. run-flight r.pool _ j (quiet r.tick), run-max_concurrent r.pool _)

  pub select-Level : (r : Run) → Level r.pool (select w r).0.pool
  unfolding select current step
  select-Level r =
      Level-trans r.pool (found w r) _ (found-Level r)
        (step-Level (found w r) (selects (now w r)) tt)

  refreshed-Level :
      (p : Profile) (i : ℕ) (key : Bytes) (r : Run) → Level r.pool (refreshed w p i key r).pool
  unfolding refreshed refresh_one refresh_key step
  refreshed-Level p i key r = elim (Bool-cases (usage_of w p key r.tick).ok) [
    | inl ok ↦ rw ok (
        Level-trans r.pool (found w r) _ (found-Level r)
          (step-Level (found w r) (measures i (usage_of w p key r.tick).remaining) tt))
    | inr failed ↦ rw failed (found-Level r)
  ]

  ensure_measured-Level :
      (p : Profile) (i : ℕ) (key : Bytes) (r : Run)
      → Level r.pool (ensure_measured w p i key r).pool
  unfolding ensure_measured
  ensure_measured-Level p i key r = elim (Bool-cases (needs_measure i (found w r) r.refresher)) [
    | inl needed ↦ rw needed (
        Level-trans r.pool (found w r) _ (found-Level r)
          (refreshed-Level p i key (left (found w r) r)))
    | inr measured ↦ rw measured (found-Level r)
  ]

  module _ (max_body : ℕ) (p : Profile) (req : Request) (stripped : Bytes) where
    Lent-with_slot :
        (i : ℕ) (key : Bytes) (r : Run) (before : KeyPool)
        → before.max_concurrent ≢ 0
        → Lent i before r.pool
        → Level before (with_slot w max_body p req stripped i key r).1.pool
    unfolding with_slot give_back
    Lent-with_slot i key r before limited lent =
        let m = ensure_measured w p i key r in
        release-Level i before (found w m) limited (
          Lent-Level i before r.pool (found w m) lent (
            Level-trans r.pool m.pool (found w m) (ensure_measured-Level p i key r)
              (found-Level m)))

    free-with_slot :
        (i : ℕ) (key : Bytes) (r : Run)
        → r.pool.max_concurrent ≡ 0
        → Level r.pool (with_slot w max_body p req stripped i key r).1.pool
    unfolding with_slot give_back Level
    free-with_slot i key r unlimited =
        let m = ensure_measured w p i key r in
        let level =
          Level-trans r.pool m.pool (found w m) (ensure_measured-Level p i key r) (found-Level m) in
        rw (release_unlimited i (found w m) (level.1 ∙ unlimited)) level

    try_slot-Level :
        (i : ℕ) (key : Bytes) (r : Run) (b : Bool)
        → (acquire w i r).1 ≡ b
        → Level r.pool (try_slot w max_body p req stripped i key ((acquire w i r).0, b)).1.pool
    unfolding acquire
    try_slot-Level i key r false refused =
        Level-trans r.pool (found w r) _ (found-Level r)
          (try_acquire-Level i (found w r) (inl refused))
    try_slot-Level i key r true ok = elim (Bool-cases ((found w r).max_concurrent == 0)) [
      | inl unlimited ↦
          Level-trans r.pool (acquire w i r).0.pool _
            (Level-trans r.pool (found w r) _ (found-Level r)
              (try_acquire-Level i (found w r) (inr (ground arith))))
            (free-with_slot i key (acquire w i r).0 (
              Level-limit (found w r) _ (try_acquire-Level i (found w r) (inr (ground arith)))
              ∙ ground arith))
      | inr limited ↦ Level-trans r.pool (found w r) _ (found-Level r) (
          Lent-with_slot i key _ (found w r) (ground arith)
            (try_acquire-Lent i (found w r) (ground arith) ok))
    ]

    try_selected-Level :
        (r : Run) (sel : Option (ℕ × Bytes))
        → Level r.pool (try_selected w max_body p req stripped (r, sel)).1.pool
    try_selected-Level r none = Level-refl r.pool
    try_selected-Level r (some (i, key)) = try_slot-Level i key r _ refl

    pub serve_once-Level : (r : Run) → Level r.pool (serve_once w max_body p req stripped r).1.pool
    unfolding serve_once
    serve_once-Level r =
        Level-trans r.pool (select w r).0.pool _ (select-Level r)
          (try_selected-Level (select w r).0 (select w r).1)

    -- serve_once gives its slot back: when no other goroutine acquires or releases meanwhile,
    -- whatever else they do and whatever comes of the request, the pool then counts as many
    -- requests in flight for each key as before.
    pub serve_once-flight :
        (r : Run) (j : ℕ)
        → flight (serve_once w max_body p req stripped r).1.pool.slots j ≡ flight r.pool.slots j
    serve_once-flight r j =
        Level-flight r.pool (serve_once w max_body p req stripped r).1.pool (serve_once-Level r) j
