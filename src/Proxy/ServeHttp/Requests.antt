-- ===== src/Proxy/ServeHttp/Requests.antt =====
-- proxy.go: how many requests ServeHTTP sends to upstream for one request of a client.
use api_key_rotator.Base.{
  ℕ, zero, suc, ◌+◌, ◌*◌, ◌≤◌, ◌≡◌, refl, ap, Bool, true, false, Option, none, some, none≢some,
  some_inj, length, arith,
}
use api_key_rotator.Base.Text.{Bytes}
use api_key_rotator.Profile.State.{Profile}
use api_key_rotator.Proxy.Request.{Request}
use api_key_rotator.Proxy.ServeOnce.{World, Run, select}
use api_key_rotator.Config.State.{Config}
use api_key_rotator.Proxy.Serve.{Response, Loop, Next, queued, rotated, broken, returned, round}
use api_key_rotator.Proxy.Serve.Requests.{Still, select-Still, Counted, round-Counted}
use api_key_rotator.Proxy.ServeHttp.{
  End, finished, answered, continue_with, loop, after_select, finish, close, begin, serve_profile,
  max_rotations,
}

module _ (w : World) (cfg : Config) (p : Profile) (req : Request) (stripped : Bytes) where
  -- With `left` passes left.
  abbrev Spent : ℕ → Run → Option End → Type 0
  Spent left r none = Unit
  Spent left r (some (finished s)) = length s.run.sent ≤ 14 * left + length r.sent
  Spent left r (some (answered a q)) = length q.sent ≤ 14 * left + length r.sent

  Spent-le :
      (m n : ℕ) (a b : Run) (e : Option End)
      → 14 * m + length b.sent ≤ 14 * n + length a.sent
      → Spent m b e
      → Spent n a e
  Spent-le m n a b none h k = tt
  Spent-le m n a b (some (finished s)) h k = omega (arith, h, k)
  Spent-le m n a b (some (answered _ q)) h k = omega (arith, h, k)

  continue_with-Spent :
      (left : ℕ) (r : Run) (n : Next) (again next : Loop → Option End)
      → Counted w r n
      → ((s : Loop) → Spent (suc left) s.run (again s))
      → ((s : Loop) → Spent left s.run (next s))
      → Spent (suc left) r (continue_with n again next)
  continue_with-Spent left r (queued s) again next h a b =
      Spent-le (suc left) (suc left) r s.run (again s) (omega (arith, h)) (a s)
  continue_with-Spent left r (rotated s) again next h a b =
      Spent-le left (suc left) r s.run (next s) (omega (arith, h)) (b s)
  continue_with-Spent left r (broken s) again next h a b = omega (arith, h)
  continue_with-Spent left r (returned _ q) again next h a b = omega (arith, h)

  loop-Spent :
      (deadline : Option ℕ) (fuel left : ℕ) (s : Loop)
      → Spent left s.run (loop w cfg p req stripped deadline fuel left s)
  unfolding loop
  loop-Spent deadline zero left s = tt
  loop-Spent deadline (suc fuel) zero s = omega arith
  loop-Spent deadline (suc fuel) (suc left) s =
      continue_with-Spent left s.run (round w cfg p req stripped deadline s)
        (loop w cfg p req stripped deadline fuel (suc left))
        (loop w cfg p req stripped deadline fuel left)
        (round-Counted w cfg p req stripped deadline s) (loop-Spent deadline fuel (suc left))
        (loop-Spent deadline fuel left)

  finish-Still : (s : Loop) (b : Bool) → s.over_cap ≡ b → Still s.run (finish w cfg p req s).1
  unfolding finish Still
  finish-Still s true e = rw e refl
  finish-Still s false e = rw e (after_select-Still (select w s.run) (select-Still w s.run))
    where
      after_select-Still :
          (q : Run × Option (ℕ × Bytes))
          → Still s.run q.0
          → Still s.run (after_select cfg p req s q).1
      after_select-Still (q, none) k = k
      after_select-Still (q, some _) k = k

  close-Spent :
      (left : ℕ) (r : Run) (e : Option End) (a : Response) (q : Run)
      → Spent left r e
      → close w cfg p req e ≡ some (a, q)
      → length q.sent ≤ 14 * left + length r.sent
  unfolding Still
  close-Spent left r none a q h k = absurd (none≢some k)
  close-Spent left r (some (answered b t)) a q h k =
      let same : length t.sent ≡ length q.sent = ap (λ d. length d.1.sent) (some_inj k) in
      omega (arith, h, same)
  close-Spent left r (some (finished s)) a q h k =
      let same : length (finish w cfg p req s).1.sent ≡ length q.sent =
        ap (λ d. length d.1.sent) (some_inj k) in
      omega (arith, h, same, finish-Still s s.over_cap refl)

-- ServeHTTP amplifies no request of a client without bound: when it answers, with whatever response,
-- it has itself sent at most fourteen requests to upstream for each of the passes allowed for all
-- keys, those to the usage endpoints included, and however often it has waited for a slot meanwhile.
-- Requests of the goroutines that it starts are not counted.
pub serve_profile_bounded :
    (w : World) (cfg : Config) (fuel : ℕ) (p : Profile) (req : Request) (stripped : Bytes) (r : Run)
    {a : Response} {q : Run}
    → serve_profile w cfg fuel p req stripped r ≡ some (a, q)
    → length q.sent ≤ 14 * max_rotations cfg p + length r.sent
unfolding serve_profile
serve_profile_bounded w cfg fuel p req stripped r {a} {q} e =
    close-Spent w cfg p req stripped (max_rotations cfg p) r _ a q
      (loop-Spent w cfg p req stripped _ fuel (max_rotations cfg p) (begin r)) e
