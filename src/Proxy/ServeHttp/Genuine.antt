-- ===== src/Proxy/ServeHttp/Genuine.antt =====
-- proxy.go: what ServeHTTP passes on is an answer of upstream.
use api_key_rotator.Base.{
  ℕ, zero, suc, ◌≡◌, inl, inr, refl, sym, ◌∙◌, subst, false≢true, true, not, ◌&&◌, Option, none,
  some, some_inj, Bool-cases, ◌==◌, arith,
}
use api_key_rotator.Base.Text.{Bytes}
use api_key_rotator.Profile.State.{Profile}
use api_key_rotator.Proxy.Request.{Request, is_json}
use api_key_rotator.Proxy.ServeOnce.{World, Run, select}
use api_key_rotator.Config.State.{Config}
use api_key_rotator.Proxy.Serve.{Response, Loop, Next, queued, rotated, broken, returned, round}
use api_key_rotator.Proxy.Serve.Genuine.{
  IsGenuine, IsTrue, Running, Ended, Onward, Running-Ended, round-Onward,
}
use api_key_rotator.Proxy.ServeHttp.{
  End, finished, answered, continue_with, loop, begin, finish, close, after_select, respond,
  serve_profile,
}

module _ (w : World) (max_body : ℕ) (p : Profile) (req : Request) (stripped : Bytes) where
  abbrev AtEnd : Option End → Type 0
  AtEnd none = Unit
  AtEnd (some (finished s)) = Ended w max_body p req stripped s
  AtEnd (some (answered a q)) = IsTrue w max_body p req stripped q.sent a

  continue_with-AtEnd :
      (n : Next) (again next : Loop → Option End)
      → Onward w max_body p req stripped n
      → ((s : Loop) → Running w max_body p req stripped s → AtEnd (again s))
      → ((s : Loop) → Running w max_body p req stripped s → AtEnd (next s))
      → AtEnd (continue_with n again next)
  continue_with-AtEnd (queued s) again next k a b = a s k
  continue_with-AtEnd (rotated s) again next k a b = b s k
  continue_with-AtEnd (broken s) again next k a b = k
  continue_with-AtEnd (returned _ q) again next k a b = k

module _ (w : World) (cfg : Config) (p : Profile) (req : Request) (stripped : Bytes) where
  loop-AtEnd :
      (deadline : Option ℕ) (fuel left : ℕ) (s : Loop)
      → Running w cfg.max_body_bytes p req stripped s
      → AtEnd w cfg.max_body_bytes p req stripped (loop w cfg p req stripped deadline fuel left s)
  unfolding loop
  loop-AtEnd deadline zero left s h = tt
  loop-AtEnd deadline (suc fuel) zero s h = Running-Ended w cfg.max_body_bytes p req stripped s h
  loop-AtEnd deadline (suc fuel) (suc left) s h =
      continue_with-AtEnd w cfg.max_body_bytes p req stripped
        (round w cfg p req stripped deadline s) (loop w cfg p req stripped deadline fuel (suc left))
        (loop w cfg p req stripped deadline fuel left)
        (round-Onward w cfg p req stripped deadline s h) (loop-AtEnd deadline fuel (suc left))
        (loop-AtEnd deadline fuel left)

  abbrev Told : Response × Run → Type 0
  Told r = IsTrue w cfg.max_body_bytes p req stripped r.1.sent r.0

  respond-IsTrue :
      (s : Loop)
      → IsGenuine w cfg.max_body_bytes p req stripped s.run.sent s.last_status s.last_header
          s.last_body
      → IsTrue w cfg.max_body_bytes p req stripped s.run.sent (respond cfg p req s)
  unfolding respond
  respond-IsTrue s g = elim (Bool-cases (p.rewrite_next && is_json s.last_header)) [
    | inl json ↦ rw json g
    | inr other ↦ rw other g
  ]

  after_select-IsTrue :
      (s : Loop) (r : Run) (sel : Option (ℕ × Bytes))
      → r.sent ≡ s.run.sent
      → Ended w cfg.max_body_bytes p req stripped s
      → Told (after_select cfg p req s (r, sel))
  after_select-IsTrue s r none e h = tt
  after_select-IsTrue s r (some _) e (inl g) =
      elim (Bool-cases (not s.clean_break && s.last_status == 0)) [
        | inl unreached ↦ rw unreached tt
        | inr reached ↦ rw (reached, e) (respond-IsTrue s g)
      ]
  after_select-IsTrue s r (some _) e (inr (zero', clean, cap)) =
      let unreached : (not s.clean_break && s.last_status == 0) ≡ true =
        ground (arith, zero', clean) in
      rw unreached tt

  finish-IsTrue :
      (s : Loop) → Ended w cfg.max_body_bytes p req stripped s → Told (finish w cfg p req s)
  unfolding finish select
  finish-IsTrue s h = elim (Bool-cases s.over_cap) [
    | inl capped ↦
        rw capped (elim h [ inl g ↦ g | inr (_, _, cap) ↦ absurd (false≢true (sym cap ∙ capped)) ])
    | inr whole ↦ rw whole (after_select-IsTrue s (select w s.run).0 (select w s.run).1 refl h)
  ]

  close-IsTrue :
      (e : Option End) {a : Response} {q : Run}
      → AtEnd w cfg.max_body_bytes p req stripped e
      → close w cfg p req e ≡ some (a, q)
      → Told (a, q)
  close-IsTrue none h e = cc
  close-IsTrue (some (answered b r)) h e = subst Told (some_inj e) h
  close-IsTrue (some (finished s)) h e = subst Told (some_inj e) (finish-IsTrue s h)

  -- Whenever ServeHTTP passes an answer on, with its body rewritten or not and also one that was too
  -- long, it has sent the request that tryKey builds for this request and some key, and upstream has
  -- answered that very sending of it with this status and this header, and with this body as far as
  -- readCapped reads it: no status is made up, and none is put before the body of another answer.
  pub serve_profile-IsTrue :
      (fuel : ℕ) (r : Run) {a : Response} {q : Run}
      → serve_profile w cfg fuel p req stripped r ≡ some (a, q)
      → IsTrue w cfg.max_body_bytes p req stripped q.sent a
  unfolding serve_profile
  serve_profile-IsTrue fuel r e =
      close-IsTrue _ (loop-AtEnd _ fuel _ (begin r) (refl, refl, inr refl)) e
