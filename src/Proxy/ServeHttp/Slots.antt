-- ===== src/Proxy/ServeHttp/Slots.antt =====
-- proxy.go: the counts of requests in flight under ServeHTTP.
use api_key_rotator.Base.{ℕ, ◌≡◌, some, All, subst}
use api_key_rotator.Base.Text.{Bytes}
use api_key_rotator.Pool.Leases.{IsOther}
use api_key_rotator.Pool.Leases.Flight.{flight}
use api_key_rotator.Pool.Leases.Balance.{Level, Level-refl, Level-trans, Level-flight, step-Level}
use api_key_rotator.Profile.State.{Profile}
use api_key_rotator.Proxy.Request.{Request}
use api_key_rotator.Proxy.ServeOnce.{World, Run, found}
use api_key_rotator.Proxy.ServeOnce.Slots.{found-Level, select-Level, serve_once-Level}
use api_key_rotator.Config.State.{Config}
use api_key_rotator.Proxy.Serve.{Response}
use api_key_rotator.Proxy.Serve.Steps.{Steady, IsRound}
use api_key_rotator.Pool.Ops.{
  Call, selects, advances, advances_after, acquires, releases, succeeds, rejects, decrements,
  measures, disables, reenables,
}
use api_key_rotator.Proxy.ServeHttp.Steps.{Closed, serve_profile_steady}
use api_key_rotator.Proxy.ServeHttp.{serve_profile}

IsRound-IsOther : (c : Call) → IsRound c → IsOther c
IsRound-IsOther (succeeds i) k = tt
IsRound-IsOther (rejects i kind) k = tt
IsRound-IsOther (decrements i cost) k = tt
IsRound-IsOther (disables i until) k = tt
IsRound-IsOther (advances_after h now) k = tt
IsRound-IsOther (acquires i) k = elim k [ ]
IsRound-IsOther (releases i) k = elim k [ ]
IsRound-IsOther (selects now) k = tt
IsRound-IsOther (advances now) k = tt
IsRound-IsOther (measures i credits) k = tt
IsRound-IsOther (reenables now) k = tt

Level-steady :
    (w : World) (p : Profile)
    → ((n : ℕ) → All IsOther (w.others n))
    → Steady w p (λ a b. Level a.pool b.pool)
Level-steady w p quiet = record {
  calm = record {
    stays = λ r. Level-refl r.pool;
    chains = λ a b c k l. Level-trans a.pool b.pool c.pool k l;
    calls = λ c r k.
        Level-trans r.pool (found w r) _ (found-Level w quiet r)
          (step-Level (found w r) c (IsRound-IsOther c k));
    looks = λ r. found-Level w quiet r;
    notes = λ r q f k. k;
    selects = λ r. select-Level w quiet r;
  };
  asks = λ k key r q h. h;
  serves = λ m req s r. serve_once-Level w quiet m p req s r;
}

-- ServeHTTP loses no slot: when it answers, with whatever response, and no other goroutine has
-- acquired or released a slot meanwhile, the pool counts as many requests in flight for each key as
-- before.
pub serve_profile-flight :
    (w : World) (cfg : Config) (fuel : ℕ) (p : Profile) (req : Request) (stripped : Bytes) (r : Run)
    (j : ℕ) {a : Response} {q : Run}
    → ((n : ℕ) → All IsOther (w.others n))
    → serve_profile w cfg fuel p req stripped r ≡ some (a, q)
    → flight q.pool.slots j ≡ flight r.pool.slots j
serve_profile-flight w cfg fuel p req stripped r j {a} {q} quiet e =
    Level-flight r.pool q.pool
      (subst (Closed (λ x y. Level x.pool y.pool) r) e
        (serve_profile_steady w p _ (Level-steady w p quiet) cfg req stripped fuel r))
      j
