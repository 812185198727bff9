-- ===== src/Proxy/ServeHttp/Fuel.antt =====
-- proxy.go: the passes and the time of the queue that the rounds of ServeHTTP use up.
use api_key_rotator.Base.{
  ℕ, zero, suc, ◌+◌, ◌≤◌, ◌<◌, ◌≡◌, refl, Bool, true, false, Option, none, some, arith, Bool-cases,
  inl, inr, ◌==◌,
}
use api_key_rotator.Base.Text.{Bytes}
use api_key_rotator.Profile.State.{Profile}
use api_key_rotator.Proxy.Request.{Request}
use api_key_rotator.Proxy.ServeOnce.{
  World, Run, RotResult, RotResultKind, res_ok, res_capped, res_rotate, res_net_err, res_exhausted,
  res_saturated, now, left, select, acquire, ensure_measured, refreshed, give_back, with_slot,
  try_slot, try_selected, serve_once,
}
use api_key_rotator.Config.State.{Config}
use api_key_rotator.Proxy.Serve.{
  Response, Loop, Next, queued, rotated, broken, returned, time_left, granted, rejects_busy,
  saturated, decide, round,
}
use api_key_rotator.Proxy.Serve.Steps.{Steady, decide_steady}
use api_key_rotator.Proxy.ServeHttp.{
  End, finished, answered, continue_with, loop, queue_deadline, max_rotations, close, begin,
  serve_profile,
}

zero_only : (a : ℕ) → a ≤ 0 → a ≡ 0
zero_only a h = omega (arith, h)

time_left-le : (d : Option ℕ) (a b : ℕ) → a ≤ b → time_left d b ≤ time_left d a
time_left-le none a b h = omega arith
time_left-le (some d) a b h = omega (arith, h)

time_left-lt : (d : Option ℕ) (a b : ℕ) → 0 < time_left d a → a < b → time_left d b < time_left d a
time_left-lt none a b h k = omega (arith, h)
time_left-lt (some d) a b h k = omega (arith, h, k)

queue_bounded :
    (p : Profile) (start : ℕ) → time_left (queue_deadline p start) start ≤ p.concurrency_queue
unfolding queue_deadline
queue_bounded p start = ground arith

Later : Run → Run → Type 0
Later a b = a.tick ≤ b.tick

module _ (w : World) where
  select-Later : (r : Run) → Later r (select w r).0
  unfolding Later select
  select-Later r = omega arith

  ensure_measured-Later :
      (p : Profile) (i : ℕ) (key : Bytes) (r : Run) → Later r (ensure_measured w p i key r)
  unfolding Later ensure_measured refreshed
  ensure_measured-Later p i key r = ground arith

  try_slot-Later :
      (max_body : ℕ) (p : Profile) (req : Request) (stripped : Bytes) (i : ℕ) (key : Bytes)
      (r : Run) (b : Bool)
      → Later r (try_slot w max_body p req stripped i key (r, b)).1
  unfolding Later with_slot give_back
  try_slot-Later m p req stripped i key r true = omega (arith, ensure_measured-Later p i key r)
  try_slot-Later m p req stripped i key r false = omega arith

  try_selected-Later :
      (max_body : ℕ) (p : Profile) (req : Request) (stripped : Bytes) (r : Run)
      (sel : Option (ℕ × Bytes))
      → Later r (try_selected w max_body p req stripped (r, sel)).1
  unfolding Later acquire
  try_selected-Later m p req stripped r none = omega arith
  try_selected-Later m p req stripped r (some (i, key)) =
      omega (arith, try_slot-Later m p req stripped i key (acquire w i r).0 (acquire w i r).1)

  serve_once-Later :
      (max_body : ℕ) (p : Profile) (req : Request) (stripped : Bytes) (r : Run)
      → Later r (serve_once w max_body p req stripped r).1
  unfolding Later serve_once
  serve_once-Later m p req stripped r =
      omega
        (arith, select-Later r, try_selected-Later m p req stripped (select w r).0 (select w r).1)

  Later-steady : (p : Profile) → Steady w p Later
  unfolding Later
  Later-steady p = record {
    calm = record {
      stays = λ r. omega arith;
      chains = λ a b c k l. omega (arith, k, l);
      calls = λ c r k. omega arith;
      looks = λ r. omega arith;
      notes = λ r q f k. k;
      selects = select-Later;
    };
    asks = λ k key r q h. h;
    serves = λ m req stripped r. serve_once-Later m p req stripped r;
  }

  -- A queued round has found time left at a call of its own, and the next round comes later.
  abbrev Spends : Option ℕ → Run → Next → Type 0
  Spends deadline r (queued s) =
      (t : ℕ) × (r.tick ≤ t) × (0 < time_left deadline (w.clock t)) × (s.run.tick ≡ suc t)
  Spends deadline r (rotated s) = r.tick ≤ s.run.tick
  Spends deadline r (broken s) = Unit
  Spends deadline r (returned a q) = Unit

  granted_left :
      (p : Profile) (deadline : Option ℕ) (r : Run)
      → granted w p deadline r ≡ true
      → 0 < time_left deadline (now w r)
  unfolding granted
  granted_left p deadline r g = ground arith

  saturated-Spends :
      (p : Profile) (deadline : Option ℕ) (r : Run) (s : Loop)
      → r.tick ≤ s.run.tick
      → Spends deadline r (saturated w p deadline s)
  unfolding saturated
  saturated-Spends p deadline r s k = elim (Bool-cases (rejects_busy p)) [
    | inl reject ↦ rw reject tt
    | inr queue ↦ elim (Bool-cases (granted w p deadline s.run)) [
      | inl g ↦ rw (queue, g) (s.run.tick, k, granted_left p deadline s.run g, refl)
      | inr n ↦ rw (queue, n) tt
    ]
  ]

  decide-Spends :
      (p : Profile) (deadline : Option ℕ) (kind : RotResultKind) (res : RotResult) (r : Run)
      (s : Loop)
      → r.tick ≤ s.run.tick
      → Spends deadline r (decide w p deadline kind res s)
  unfolding decide Later
  decide-Spends p deadline res_saturated res r s k = saturated-Spends p deadline r s k
  decide-Spends p deadline res_ok res r s k = tt
  decide-Spends p deadline res_capped res r s k = tt
  decide-Spends p deadline res_net_err res r s k = omega (
    arith,
    decide_steady w Later (Later-steady p).calm (Later-steady p).asks p deadline res_net_err res s,
    k,
  )
  decide-Spends p deadline res_rotate res r s k = omega (
    arith,
    decide_steady w Later (Later-steady p).calm (Later-steady p).asks p deadline res_rotate res s,
    k,
  )
  decide-Spends p deadline res_exhausted res r s k = tt

  module _ (ticks : (n : ℕ) → w.clock n < w.clock (suc n)) (cfg : Config) (p : Profile)
      (req : Request) (stripped : Bytes) where
    clock_mono : (a b : ℕ) → a ≤ b → w.clock a ≤ w.clock b
    clock_mono a zero h = rw (zero_only a h) (omega arith)
    clock_mono a (suc b) h = elim (Bool-cases (a == suc b)) [
      | inl same ↦ let e : a ≡ suc b = ground (arith, same) in rw e (omega arith)
      | inr other ↦ omega (arith, clock_mono a b (ground (arith, other, h)), ticks b)
    ]

    Enough : Option ℕ → ℕ → ℕ → Loop → Type 0
    Enough deadline fuel left s = left + time_left deadline (w.clock s.run.tick) < fuel

    continue-Enough :
        (deadline : Option ℕ) (fuel left : ℕ) (s : Loop) (n : Next) (again next : Loop → Option End)
        → Spends deadline s.run n
        → Enough deadline (suc fuel) (suc left) s
        → ((s' : Loop) → Enough deadline fuel (suc left) s' → (e : End) × (again s' ≡ some e))
        → ((s' : Loop) → Enough deadline fuel left s' → (e : End) × (next s' ≡ some e))
        → (e : End) × (continue_with n again next ≡ some e)
    unfolding Enough
    continue-Enough deadline fuel left s (queued s') again next (t, late, some_left, at) h a b =
        a s' (
          rw at (
            omega (
              arith,
              h,
              time_left-le deadline (w.clock s.run.tick) (w.clock t) (clock_mono s.run.tick t late),
              time_left-lt deadline (w.clock t) (w.clock (suc t)) some_left (ticks t),
            )))
    continue-Enough deadline fuel left s (rotated s') again next late h a b = b s' (
        omega (
          arith,
          h,
          time_left-le deadline (w.clock s.run.tick) (w.clock s'.run.tick)
              (clock_mono s.run.tick s'.run.tick late),
        ))
    continue-Enough deadline fuel left s (broken s') again next k h a b = (finished s', refl)
    continue-Enough deadline fuel left s (returned r q) again next k h a b = (answered r q, refl)

    round-Spends :
        (deadline : Option ℕ) (s : Loop)
        → Spends deadline s.run (round w cfg p req stripped deadline s)
    unfolding round Later
    round-Spends deadline s =
        let once = serve_once w cfg.max_body_bytes p req stripped s.run in
        decide-Spends p deadline once.0.kind once.0 s.run (record s { run = once.1 })
          (serve_once-Later cfg.max_body_bytes p req stripped s.run)

    loop-Enough :
        (deadline : Option ℕ) (fuel left : ℕ) (s : Loop)
        → Enough deadline fuel left s
        → (e : End) × (loop w cfg p req stripped deadline fuel left s ≡ some e)
    unfolding Enough loop
    loop-Enough deadline zero left s h = absurd (omega (arith, h))
    loop-Enough deadline (suc fuel) zero s h = (finished s, refl)
    loop-Enough deadline (suc fuel) (suc left) s h =
        continue-Enough deadline fuel left s (round w cfg p req stripped deadline s)
          (loop w cfg p req stripped deadline fuel (suc left))
          (loop w cfg p req stripped deadline fuel left) (round-Spends deadline s) h
          (loop-Enough deadline fuel (suc left)) (loop-Enough deadline fuel left)

    close_answers :
        (e : Option End)
        → ((d : End) × (e ≡ some d))
        → (a : Response) × (q : Run) × (close w cfg p req e ≡ some (a, q))
    close_answers e (finished s, at) = rw at (_, _, refl)
    close_answers e (answered a q, at) = rw at (a, q, refl)

-- ServeHTTP answers: when the clock goes on between any two calls of the request, fuel of one more
-- than the passes allowed for all keys and the nanoseconds of the queue is enough for a response.
pub serve_profile_answers :
    (w : World) (cfg : Config) (fuel : ℕ) (p : Profile) (req : Request) (stripped : Bytes) (r : Run)
    → ((n : ℕ) → w.clock n < w.clock (suc n))
    → max_rotations cfg p + p.concurrency_queue < fuel
    → (a : Response) × (q : Run) × (serve_profile w cfg fuel p req stripped r ≡ some (a, q))
unfolding serve_profile Enough
serve_profile_answers w cfg fuel p req stripped r ticks h =
    close_answers w ticks cfg p req stripped _ (
      loop-Enough w ticks cfg p req stripped (queue_deadline p (now w r)) fuel (max_rotations cfg p)
        (begin r) (omega (arith, h, queue_bounded p (now w r))))
