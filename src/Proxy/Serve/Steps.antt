-- ===== src/Proxy/Serve/Steps.antt =====
-- proxy.go: what holds of all the calls that a round of ServeHTTP makes holds of the round. `R` is a
-- relation of the state before and behind.
use api_key_rotator.Base.{ℕ, ◌||◌, not, ◌==◌, Bool, true, false, Option, none, some, if◌then◌else◌}
use api_key_rotator.Base.Text.{Bytes}
use api_key_rotator.Pool.Ops.{Call, advances_after, succeeds, rejects, decrements, disables, step}
use api_key_rotator.Profile.State.{Profile}
use api_key_rotator.Profile.Policy.{is_credit_exhausted}
use api_key_rotator.Proxy.Request.{Request, reject_kind}
use api_key_rotator.Refresh.{Refresher}
use api_key_rotator.Proxy.ServeOnce.{
  World, Run, RotResult, RotResultKind, res_ok, res_capped, res_rotate, res_net_err, res_exhausted,
  res_saturated, found, now, left, select, asked, serve_once,
}
use api_key_rotator.Config.State.{Config}
use api_key_rotator.Proxy.Serve.{
  Loop, Next, queued, rotated, broken, returned, call, charge, rest_at_stop, refresh_low, succeeded,
  switched, move_on, refused, reset_looks, saturated, granted, rejects_busy, all_busy,
  queue_timeout, failed_with, abandoned, decide, round,
}

either : (P : Run → Type 0) (b : Bool) (x y : Run) → P x → P y → P (if b then x else y)
either P true x y h k = h
either P false x y h k = k

either_next : (P : Next → Type 0) (b : Bool) (x y : Next) → P x → P y → P (if b then x else y)
either_next P true x y h k = h
either_next P false x y h k = k

-- The state behind a round, whichever way it ends.
abbrev pub After : (Run → Run → Type 0) → Run → Next → Type 0
After R r (queued s) = R r s.run
After R r (rotated s) = R r s.run
After R r (broken s) = R r s.run
After R r (returned a q) = R r q

-- The calls of its own that a round makes besides those of serveOnce and Current.
abbrev pub IsRound : Call → Type 0
IsRound (succeeds i) = Unit
IsRound (rejects i kind) = Unit
IsRound (decrements i cost) = Unit
IsRound (disables i until) = Unit
IsRound (advances_after h now) = Unit
IsRound _ = ⊥

-- What is asked of `R`, besides what serveOnce does.
pub record Calm (w : World) (R : Run → Run → Type 0) : Type 0 where
  pub stays : (r : Run) → R r r
  pub chains : (a b c : Run) → R a b → R b c → R a c
  pub calls : (c : Call) (r : Run) → IsRound c → R r (left (step (found w r) c) r)
  pub looks : (r : Run) → R r (left (found w r) r)
  pub notes : (r q : Run) (f : Refresher) → R r q → R r (record q { refresher = f })
  pub selects : (r : Run) → R r (select w r).0

-- That a look at a usage endpoint keeps it.
abbrev pub Asks : (Run → Run → Type 0) → Type 0
Asks R = (k : ℕ) (key : Bytes) (r q : Run) → R r q → R r (asked k key q)

-- And for the requests of a profile.
pub record Steady (w : World) (p : Profile) (R : Run → Run → Type 0) : Type 0 where
  pub calm : Calm w R
  pub asks : Asks R
  pub serves :
      (max_body : ℕ) (req : Request) (stripped : Bytes) (r : Run)
      → R r (serve_once w max_body p req stripped r).1

module _ (w : World) (R : Run → Run → Type 0) (h : Calm w R) where
  call_steady : (c : Call) (r : Run) → IsRound c → R r (call w c r)
  unfolding call
  call_steady = h.calls

  charge_steady :
      (p : Profile) (i status : ℕ) (body : Bytes) (r : Run) → R r (charge w p i status body r)
  unfolding charge
  charge_steady p i status body r =
      either (R r) _ _ _ (h.stays r)
        (either (R r) _ _ _ (call_steady (decrements i _) r tt) (h.stays r))

  rest_at_stop_steady : (p : Profile) (i : ℕ) (r : Run) → R r (rest_at_stop w p i r)
  unfolding rest_at_stop
  rest_at_stop_steady p i r =
      let looked = left (found w r) r in
      either (R r) _ _ _ (h.stays r) (
        either (R r) _ _ _ (h.chains r looked _ (h.looks r) (call_steady (disables i _) looked tt))
          (h.looks r))

  pub succeeded_steady : (p : Profile) (res : RotResult) (r : Run) → R r (succeeded w p res r)
  unfolding succeeded refresh_low
  succeeded_steady p res r =
      let a = call w (succeeds res.idx) r in
      let b = charge w p res.idx res.status res.body a in
      let c = rest_at_stop w p res.idx b in
      h.notes r (left (found w c) c) _ (
        h.chains r c _
          (h.chains r b c
            (h.chains r a b (call_steady (succeeds res.idx) r tt)
              (charge_steady p res.idx res.status res.body a))
            (rest_at_stop_steady p res.idx b))
          (h.looks c))

  pub saturated_steady :
      (p : Profile) (deadline : Option ℕ) (s : Loop) → After R s.run (saturated w p deadline s)
  unfolding saturated
  saturated_steady p deadline s =
      either_next (After R s.run) (rejects_busy p) (returned (failed_with all_busy) s.run) _
        (h.stays s.run)
        (either_next (After R s.run) (granted w p deadline s.run)
          (queued (record s { run = left (found w s.run) s.run }))
          (returned (if w.gone s.run.tick then abandoned else failed_with queue_timeout)
            (left (found w s.run) s.run))
          (h.looks s.run) (h.looks s.run))

  switched_steady :
      (always : Bool) (old status : ℕ) (r q : Run) (sel : Option (ℕ × Bytes))
      → R r q
      → R r (switched always old status (q, sel))
  unfolding switched
  switched_steady always old status r q none k = k
  switched_steady always old status r q (some (new, key)) k =
      either (R r) (always || not (new == old)) _ _ (h.notes r q _ k) k

  pub move_on_steady : (always : Bool) (res : RotResult) (r : Run) → R r (move_on w always res r)
  unfolding move_on
  move_on_steady always res r =
      let a = call w (advances_after res.header (now w r)) r in
      switched_steady always res.idx res.status r (select w a).0 (select w a).1
        (h.chains r a _ (call_steady (advances_after res.header (now w r)) r tt) (h.selects a))

  After-chains : (a b : Run) (n : Next) → R a b → After R b n → After R a n
  After-chains a b (queued s) k l = h.chains a b s.run k l
  After-chains a b (rotated s) k l = h.chains a b s.run k l
  After-chains a b (broken s) k l = h.chains a b s.run k l
  After-chains a b (returned _ q) k l = h.chains a b q k l

  module _ (asks : Asks R) where
    pub refused_steady : (p : Profile) (res : RotResult) (r : Run) → R r (refused w p res r)
    unfolding refused
    refused_steady p res r =
        let a = call w (rejects res.idx (reject_kind res.status)) r in
        let looks = reset_looks w p res.key a.tick in
        let k = call_steady (rejects res.idx (reject_kind res.status)) r tt in
        h.chains r _ _
          (either (R r) (is_credit_exhausted p res.status res.body) _ _
            (h.chains r (asked looks res.key a) _ (asks looks res.key r a k)
              (call_steady (disables res.idx _) (asked looks res.key a) tt))
            k)
          (move_on_steady false res _)

    pub decide_steady :
        (p : Profile) (deadline : Option ℕ) (kind : RotResultKind) (res : RotResult) (s : Loop)
        → After R s.run (decide w p deadline kind res s)
    unfolding decide
    decide_steady p deadline res_saturated res s = saturated_steady p deadline s
    decide_steady p deadline res_ok res s = succeeded_steady p res s.run
    decide_steady p deadline res_capped res s = h.stays s.run
    decide_steady p deadline res_net_err res s = move_on_steady true res s.run
    decide_steady p deadline res_rotate res s = refused_steady p res s.run
    decide_steady p deadline res_exhausted res s = h.stays s.run

module _ (w : World) (served : Profile) (R : Run → Run → Type 0) (h : Steady w served R) where
  pub round_steady :
      (cfg : Config) (req : Request) (stripped : Bytes) (deadline : Option ℕ) (s : Loop)
      → After R s.run (round w cfg served req stripped deadline s)
  unfolding round
  round_steady cfg req stripped deadline s =
      let once = serve_once w cfg.max_body_bytes served req stripped s.run in
      After-chains w R h.calm s.run once.1 _ (h.serves cfg.max_body_bytes req stripped s.run) (
        decide_steady w R h.calm h.asks served deadline once.0.kind once.0
          (record s { run = once.1 }))
