-- ===== src/Proxy/ServeHttp/Balances.antt =====
-- proxy.go, refresh.go and creditusage.go together: the balances of a provider without a usage
-- endpoint under ServeHTTP.
use api_key_rotator.Base.{
  ℕ, ◌≤◌, ◌≡◌, ap, Bool, true, false, Option, none, some, All, subst, Bool-cases, inl, inr,
}
use api_key_rotator.Base.Text.{Bytes}
use api_key_rotator.Pool.Falls.{
  balance_at, IsCharge, Falls, Falls-refl, Falls-trans, Falls-le, step-Falls, run-Falls,
}
use api_key_rotator.Pool.Ops.{
  Call, selects, advances, advances_after, acquires, releases, succeeds, rejects, decrements,
  measures, disables, reenables, step,
}
use api_key_rotator.Pool.Select.{current}
use api_key_rotator.Profile.State.{Profile}
use api_key_rotator.Usage.Fetch.{is_accounted, fetch_usage_for_accounted}
use api_key_rotator.Refresh.{refresh_one, needs_measure}
use api_key_rotator.Proxy.Request.{Request}
use api_key_rotator.Proxy.ServeOnce.{
  World, Run, found, left, select, acquire, give_back, usage_of, refreshed, ensure_measured,
  with_slot, try_slot, try_selected, serve_once,
}
use api_key_rotator.Config.State.{Config}
use api_key_rotator.Proxy.Serve.{Response}
use api_key_rotator.Proxy.Serve.Steps.{Steady, IsRound}
use api_key_rotator.Proxy.ServeHttp.{serve_profile}
use api_key_rotator.Proxy.ServeHttp.Steps.{Closed, serve_profile_steady}

IsRound-IsCharge : (c : Call) → IsRound c → IsCharge c
IsRound-IsCharge (succeeds i) k = tt
IsRound-IsCharge (rejects i kind) k = tt
IsRound-IsCharge (decrements i cost) k = tt
IsRound-IsCharge (disables i until) k = tt
IsRound-IsCharge (advances_after h now) k = tt
IsRound-IsCharge (acquires i) k = tt
IsRound-IsCharge (releases i) k = tt
IsRound-IsCharge (selects now) k = tt
IsRound-IsCharge (advances now) k = tt
IsRound-IsCharge (measures i credits) k = elim k [ ]
IsRound-IsCharge (reenables now) k = elim k [ ]

module _ (w : World) (quiet : (n : ℕ) → All IsCharge (w.others n)) where
  found-Falls : (r : Run) → Falls r.pool (found w r)
  found-Falls r = run-Falls r.pool (w.others r.tick) (quiet r.tick)

  step-found-Falls : (c : Call) (r : Run) → IsCharge c → Falls r.pool (step (found w r) c)
  step-found-Falls c r k =
      Falls-trans r.pool (found w r) _ (found-Falls r) (step-Falls (found w r) c k)

  select-Falls : (r : Run) → Falls r.pool (select w r).0.pool
  unfolding select current step
  select-Falls r = step-found-Falls (selects (w.clock r.tick)) r tt

  module _ (p : Profile) (accounted : is_accounted p.name ≡ true) where
    -- No fetch sets a balance.
    refreshed-pool : (i : ℕ) (key : Bytes) (r : Run) → (refreshed w p i key r).pool ≡ found w r
    unfolding refreshed refresh_one usage_of
    refreshed-pool i key r =
        ap (λ s. s.0) (fetch_usage_for_accounted (w.net r.tick) p key i (found w r) accounted).1

    ensure_measured-Falls :
        (i : ℕ) (key : Bytes) (r : Run) → Falls r.pool (ensure_measured w p i key r).pool
    unfolding ensure_measured
    ensure_measured-Falls i key r = elim (Bool-cases (needs_measure i (found w r) r.refresher)) [
      | inl needed ↦
          rw (needed, refreshed-pool i key (left (found w r) r))
            (Falls-trans r.pool (found w r) _ (found-Falls r) (found-Falls (left (found w r) r)))
      | inr measured ↦ rw measured (found-Falls r)
    ]

    module _ (max_body : ℕ) (req : Request) (stripped : Bytes) where
      with_slot-Falls :
          (i : ℕ) (key : Bytes) (r : Run)
          → Falls r.pool (with_slot w max_body p req stripped i key r).1.pool
      unfolding with_slot give_back step
      with_slot-Falls i key r =
          let m = ensure_measured w p i key r in
          Falls-trans r.pool m.pool _ (ensure_measured-Falls i key r)
            (step-found-Falls (releases i) m tt)

      try_slot-Falls :
          (i : ℕ) (key : Bytes) (r : Run) (b : Bool)
          → Falls r.pool (try_slot w max_body p req stripped i key (r, b)).1.pool
      try_slot-Falls i key r false = Falls-refl r.pool
      try_slot-Falls i key r true = with_slot-Falls i key r

      acquire-Falls : (i : ℕ) (r : Run) → Falls r.pool (acquire w i r).0.pool
      unfolding acquire step
      acquire-Falls i r = step-found-Falls (acquires i) r tt

      try_selected-Falls :
          (r : Run) (sel : Option (ℕ × Bytes))
          → Falls r.pool (try_selected w max_body p req stripped (r, sel)).1.pool
      try_selected-Falls r none = Falls-refl r.pool
      try_selected-Falls r (some (i, key)) =
          Falls-trans r.pool (acquire w i r).0.pool _ (acquire-Falls i r)
            (try_slot-Falls i key (acquire w i r).0 (acquire w i r).1)

      serve_once-Falls : (r : Run) → Falls r.pool (serve_once w max_body p req stripped r).1.pool
      unfolding serve_once
      serve_once-Falls r =
          Falls-trans r.pool (select w r).0.pool _ (select-Falls r)
            (try_selected-Falls (select w r).0 (select w r).1)

Falls-steady :
    (w : World) (p : Profile)
    → ((n : ℕ) → All IsCharge (w.others n))
    → is_accounted p.name ≡ true
    → Steady w p (λ a b. Falls a.pool b.pool)
Falls-steady w p quiet accounted = record {
  calm = record {
    stays = λ r. Falls-refl r.pool;
    chains = λ a b c k l. Falls-trans a.pool b.pool c.pool k l;
    calls = λ c r k. step-found-Falls w quiet c r (IsRound-IsCharge c k);
    looks = λ r. found-Falls w quiet r;
    notes = λ r q f k. k;
    selects = λ r. select-Falls w quiet r;
  };
  asks = λ k key r q h. h;
  serves = λ m req s r. serve_once-Falls w quiet p accounted m req s r;
}

-- Serving never raises an accounted balance: when a request to Exa, FMP, Alpha Vantage or Marketaux is
-- answered, whatever the response and however often the keys were rotated, no key of the pool has more
-- than before, an unmeasured key counting as math.MaxInt64. Meanwhile other goroutines may make any
-- calls on the pool but SetCredits and ReenableDue, and whatever the network of the usage endpoints
-- answers makes no difference.
pub serve_profile-Falls :
    (w : World) (cfg : Config) (fuel : ℕ) (p : Profile) (req : Request) (stripped : Bytes) (r : Run)
    (j : ℕ) {a : Response} {q : Run}
    → is_accounted p.name ≡ true
    → ((n : ℕ) → All IsCharge (w.others n))
    → serve_profile w cfg fuel p req stripped r ≡ some (a, q)
    → balance_at q.pool j ≤ balance_at r.pool j
serve_profile-Falls w cfg fuel p req stripped r j {a} {q} accounted quiet e =
    Falls-le r.pool q.pool
      (subst (Closed (λ x y. Falls x.pool y.pool) r) e
        (serve_profile_steady w p _ (Falls-steady w p quiet accounted) cfg req stripped fuel r))
      j
