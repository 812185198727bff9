-- ===== src/Proxy/ServeHttp/Answers.antt =====
-- proxy.go: what ServeHTTP serves as a success.
use api_key_rotator.Base.{
  ℕ, zero, suc, ◌≡◌, refl, sym, ◌∙◌, true, false, Option, none, some, inl, inr, Bool-cases,
  false≢true, subst,
}
use api_key_rotator.Base.Text.{Bytes}
use api_key_rotator.Rotate.{should_retry}
use api_key_rotator.Profile.State.{Profile}
use api_key_rotator.Profile.Policy.{should_rotate}
use api_key_rotator.Proxy.Request.{Request}
use api_key_rotator.Proxy.ServeOnce.{
  World, Run, RotResult, RotResultKind, res_ok, res_capped, res_rotate, res_net_err, res_exhausted,
  res_saturated, serve_once,
}
use api_key_rotator.Proxy.ServeOnce.Answers.{is_answer, rotates, serve_once_classified}
use api_key_rotator.Config.State.{Config}
use api_key_rotator.Proxy.Serve.{
  Loop, Next, queued, rotated, broken, returned, granted, rejects_busy, saturated, decide, round,
}
use api_key_rotator.Proxy.ServeHttp.{End, finished, answered, continue_with, loop, begin}

-- The variables behind a success hold an answer that is neither transient nor to be rotated on.
Good : Profile → Loop → Type 0
Good p s =
    s.clean_break ≡ true
    → s.over_cap ≡ false
    → (should_retry s.last_status false ≡ false)
      × (should_rotate p s.last_status s.last_body ≡ false)

GoodEnd : Profile → Option End → Type 0
GoodEnd p none = Unit
GoodEnd p (some (finished s)) = Good p s
GoodEnd p (some (answered a q)) = Unit

GoodNext : Profile → Next → Type 0
GoodNext p (queued s) = s.clean_break ≡ false
GoodNext p (rotated s) = s.clean_break ≡ false
GoodNext p (broken s) = Good p s
GoodNext p (returned a q) = Unit

unclean-Good : (p : Profile) (s : Loop) → s.clean_break ≡ false → Good p s
unfolding Good
unclean-Good p s e = λ c o. absurd (false≢true (sym e ∙ c))

module _ (w : World) (p : Profile) (deadline : Option ℕ) where
  saturated-GoodNext : (s : Loop) → s.clean_break ≡ false → GoodNext p (saturated w p deadline s)
  unfolding saturated GoodNext
  saturated-GoodNext s e = elim (Bool-cases (rejects_busy p)) [
    | inl reject ↦ rw reject tt
    | inr queue ↦ elim (Bool-cases (granted w p deadline s.run)) [
      | inl g ↦ rw (queue, g) e
      | inr n ↦ rw (queue, n) tt
    ]
  ]

  decide-GoodNext :
      (kind : RotResultKind) (res : RotResult) (s : Loop)
      → (is_answer kind ≡ true
          → (should_retry res.status false ≡ false)
            × (should_rotate p res.status res.body ≡ rotates kind))
      → s.clean_break ≡ false
      → GoodNext p (decide w p deadline kind res s)
  unfolding decide GoodNext Good
  decide-GoodNext res_saturated res s h e = saturated-GoodNext s e
  decide-GoodNext res_ok res s h e = λ c o. h refl
  decide-GoodNext res_capped res s h e = λ c o. absurd (false≢true (sym o))
  decide-GoodNext res_net_err res s h e = e
  decide-GoodNext res_rotate res s h e = e
  decide-GoodNext res_exhausted res s h e = λ c o. absurd (false≢true (sym e ∙ c))

  module _ (cfg : Config) (req : Request) (stripped : Bytes) where
    round-GoodNext :
        (s : Loop) → s.clean_break ≡ false → GoodNext p (round w cfg p req stripped deadline s)
    unfolding round
    round-GoodNext s e =
        let once = serve_once w cfg.max_body_bytes p req stripped s.run in
        decide-GoodNext once.0.kind once.0 (record s { run = once.1 })
          (serve_once_classified cfg.max_body_bytes p w req stripped s.run) e

    continue_with-GoodEnd :
        (n : Next) (again next : Loop → Option End)
        → GoodNext p n
        → ((s : Loop) → s.clean_break ≡ false → GoodEnd p (again s))
        → ((s : Loop) → s.clean_break ≡ false → GoodEnd p (next s))
        → GoodEnd p (continue_with n again next)
    unfolding GoodNext GoodEnd
    continue_with-GoodEnd (queued s) again next k a b = a s k
    continue_with-GoodEnd (rotated s) again next k a b = b s k
    continue_with-GoodEnd (broken s) again next k a b = k
    continue_with-GoodEnd (returned _ q) again next k a b = tt

    loop-GoodEnd :
        (fuel left : ℕ) (s : Loop)
        → s.clean_break ≡ false
        → GoodEnd p (loop w cfg p req stripped deadline fuel left s)
    unfolding loop GoodEnd
    loop-GoodEnd zero left s e = tt
    loop-GoodEnd (suc fuel) zero s e = unclean-Good p s e
    loop-GoodEnd (suc fuel) (suc left) s e =
        continue_with-GoodEnd (round w cfg p req stripped deadline s)
          (loop w cfg p req stripped deadline fuel (suc left))
          (loop w cfg p req stripped deadline fuel left) (round-GoodNext s e)
          (loop-GoodEnd fuel (suc left)) (loop-GoodEnd fuel left)

    -- When the loop of ServeHTTP breaks cleanly with a body below the cap, the answer that it holds
    -- has no transient status, and shouldRotate is false of its status and body: no refusal of a
    -- key is served as a success.
    pub loop_served :
        (fuel left : ℕ) (r : Run) {s : Loop}
        → loop w cfg p req stripped deadline fuel left (begin r) ≡ some (finished s)
        → s.clean_break ≡ true
        → s.over_cap ≡ false
        → (should_retry s.last_status false ≡ false)
          × (should_rotate p s.last_status s.last_body ≡ false)
    unfolding GoodEnd Good
    loop_served fuel left r e = subst (GoodEnd p) e (loop-GoodEnd fuel left (begin r) refl)
