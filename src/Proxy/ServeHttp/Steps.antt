-- ===== src/Proxy/ServeHttp/Steps.antt =====
-- proxy.go: what holds of all the calls that ServeHTTP makes holds of ServeHTTP.
use api_key_rotator.Base.{ℕ, zero, suc, ◌≡◌, refl, Bool, true, false, Option, none, some}
use api_key_rotator.Base.Text.{Bytes}
use api_key_rotator.Profile.State.{Profile}
use api_key_rotator.Proxy.Request.{Request}
use api_key_rotator.Proxy.ServeOnce.{World, Run, select}
use api_key_rotator.Config.State.{Config}
use api_key_rotator.Proxy.Serve.{Response, Loop, Next, queued, rotated, broken, returned, round}
use api_key_rotator.Proxy.Serve.Steps.{After, Steady, round_steady}
use api_key_rotator.Proxy.ServeHttp.{
  End, finished, answered, continue_with, loop, after_select, finish, close, begin, serve_profile,
}

abbrev pub At : (Run → Run → Type 0) → Run → Option End → Type 0
At R r none = Unit
At R r (some (finished s)) = R r s.run
At R r (some (answered a q)) = R r q

abbrev pub Closed : (Run → Run → Type 0) → Run → Option (Response × Run) → Type 0
Closed R r none = Unit
Closed R r (some (a, q)) = R r q

module _ (w : World) (p : Profile) (R : Run → Run → Type 0) (h : Steady w p R) (cfg : Config)
    (req : Request) (stripped : Bytes) where
  At-chains : (a b : Run) (e : Option End) → R a b → At R b e → At R a e
  At-chains a b none k l = tt
  At-chains a b (some (finished s)) k l = h.calm.chains a b s.run k l
  At-chains a b (some (answered _ q)) k l = h.calm.chains a b q k l

  continue_with_steady :
      (r : Run) (n : Next) (again next : Loop → Option End)
      → After R r n
      → ((s : Loop) → At R s.run (again s))
      → ((s : Loop) → At R s.run (next s))
      → At R r (continue_with n again next)
  continue_with_steady r (queued s) again next k a b = At-chains r s.run (again s) k (a s)
  continue_with_steady r (rotated s) again next k a b = At-chains r s.run (next s) k (b s)
  continue_with_steady r (broken s) again next k a b = k
  continue_with_steady r (returned _ q) again next k a b = k

  loop_steady :
      (deadline : Option ℕ) (fuel left : ℕ) (s : Loop)
      → At R s.run (loop w cfg p req stripped deadline fuel left s)
  unfolding loop
  loop_steady deadline zero left s = tt
  loop_steady deadline (suc fuel) zero s = h.calm.stays s.run
  loop_steady deadline (suc fuel) (suc left) s =
      continue_with_steady s.run (round w cfg p req stripped deadline s)
        (loop w cfg p req stripped deadline fuel (suc left))
        (loop w cfg p req stripped deadline fuel left)
        (round_steady w p R h cfg req stripped deadline s) (loop_steady deadline fuel (suc left))
        (loop_steady deadline fuel left)

  finish_steady : (s : Loop) (b : Bool) → s.over_cap ≡ b → R s.run (finish w cfg p req s).1
  unfolding finish
  finish_steady s true e = rw e (h.calm.stays s.run)
  finish_steady s false e = rw e (select_steady (select w s.run) (h.calm.selects s.run))
    where
      select_steady :
          (q : Run × Option (ℕ × Bytes)) → R s.run q.0 → R s.run (after_select cfg p req s q).1
      select_steady (q, none) k = k
      select_steady (q, some _) k = k

  close_steady : (r : Run) (e : Option End) → At R r e → Closed R r (close w cfg p req e)
  close_steady r none k = tt
  close_steady r (some (answered _ q)) k = k
  close_steady r (some (finished s)) k = h.calm.chains r s.run _ k (finish_steady s s.over_cap refl)

  pub serve_profile_steady :
      (fuel : ℕ) (r : Run) → Closed R r (serve_profile w cfg fuel p req stripped r)
  unfolding serve_profile
  serve_profile_steady fuel r = close_steady r _ (loop_steady _ fuel _ (begin r))
