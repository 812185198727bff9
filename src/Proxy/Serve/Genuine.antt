-- ===== src/Proxy/Serve/Genuine.antt =====
-- proxy.go: where the status, the header and the body come from that a round of ServeHTTP keeps.
use api_key_rotator.Base.{
  ℕ, List, ◌∷◌, ◌++◌, length, ◌≡◌, ◌⊎◌, inl, inr, refl, sym, ◌∙◌, ap, false≢true, Bool, true, false,
  Option, none, some, Bool-cases, arith,
}
use mathlib.Core.List.{Mem, mem-cons_self, mem-append_right}
use api_key_rotator.Base.Text.{Bytes}
use api_key_rotator.Headers.{Header}
use api_key_rotator.Profile.State.{Profile}
use api_key_rotator.Proxy.Request.{Request, UpRequest, up_request}
use api_key_rotator.Proxy.TryKey.{Tried, try_key}
use api_key_rotator.Proxy.TryKey.Source.{IsAnswer, try_key-Sourced}
use api_key_rotator.Proxy.ServeOnce.{
  World, Run, RotResult, RotResultKind, res_ok, res_capped, res_rotate, res_net_err, res_exhausted,
  res_saturated, serve_once, with_slot, try_slot, try_selected, kind_of, select, acquire, give_back,
  ensure_measured, refreshed, Sending, forwarding, forwarded_at, asked_at, looks_of, found, left,
}
use api_key_rotator.Config.State.{Config}
use api_key_rotator.Proxy.Serve.{
  Response, failed_with, forwarded, rewritten, abandoned, Loop, Next, queued, rotated, broken,
  returned, granted, rejects_busy, saturated, decide, round, succeeded, move_on, refused,
}
use api_key_rotator.Refresh.{needs_measure}
use api_key_rotator.Proxy.Serve.Steps.{Calm, Asks, succeeded_steady, move_on_steady, refused_steady}

-- The kinds with which the loop ends cleanly.
abbrev is_clean : RotResultKind → Bool
is_clean res_ok = true
is_clean res_capped = true
is_clean _ = false

module _ (w : World) (max_body : ℕ) (p : Profile) (req : Request) (stripped : Bytes) where
  -- Among the requests sent is the `k`-th of the tryKey at call `n`, for some key, and this is the
  -- answer that upstream gave to it.
  abbrev pub IsGenuine : List Sending → ℕ → Header → Bytes → Type 0
  IsGenuine sent status header body =
      (n : ℕ) × (k : ℕ) × (key : Bytes) × Mem (forwarding n k (up_request p key req stripped)) sent
      × IsAnswer (w.upstream n) max_body k status header body

  -- What has been sent stays so.
  abbrev pub Grows : Run → Run → Type 0
  Grows a b = (x : Sending) → Mem x a.sent → Mem x b.sent

  pub IsGenuine-Grows :
      (a b : Run) (status : ℕ) (header : Header) (body : Bytes)
      → Grows a b
      → IsGenuine a.sent status header body
      → IsGenuine b.sent status header body
  IsGenuine-Grows a b status header body g (n, k, key, m, answer) = (n, k, key, g _ m, answer)

  Grows-calm : Calm w Grows
  unfolding select
  Grows-calm = record {
    stays = λ r x m. m;
    chains = λ a b c g h x m. h x (g x m);
    calls = λ c r k x m. m;
    looks = λ r x m. m;
    notes = λ r q f g. g;
    selects = λ r x m. m;
  }

  Grows-asked : Asks Grows
  Grows-asked k key r q g x m = mem-append_right (asked_at q.tick key k) (g x m)

  ensure_measured-Grows : (i : ℕ) (key : Bytes) (r : Run) → Grows r (ensure_measured w p i key r)
  unfolding ensure_measured refreshed
  ensure_measured-Grows i key r = elim (Bool-cases (needs_measure i (found w r) r.refresher)) [
    | inl needed ↦
        let looked = left (found w r) r in
        rw needed
          (λ x m. mem-append_right (asked_at looked.tick key (looks_of w p key looked.tick)) m)
    | inr measured ↦ rw measured (λ x m. m)
  ]

  abbrev Taken : RotResult × Run → Type 0
  Taken r =
      IsGenuine r.1.sent r.0.status r.0.header r.0.body
      ⊎ ((r.0.status ≡ 0) × (is_clean r.0.kind ≡ false))

  unanswered : (t : Tried) → t.net_err ≡ true → t.capped ≡ false → is_clean (kind_of p t) ≡ false
  unfolding kind_of
  unanswered t e c = ground (arith, e, c)

  last_sent :
      (n : ℕ) (q : UpRequest) (sent before : List UpRequest) (more : List Sending)
      → sent ≡ q ∷ before
      → Mem (forwarding n (length before) q) (forwarded_at n sent ++ more)
  unfolding forwarded_at
  last_sent n q sent before more e = rw e mem-cons_self

  with_slot-Taken :
      (i : ℕ) (key : Bytes) (r : Run) → Taken (with_slot w max_body p req stripped i key r)
  unfolding with_slot give_back
  with_slot-Taken i key r =
      let m = ensure_measured w p i key r in
      let done = try_key (w.upstream m.tick) max_body p key req stripped in
      elim (try_key-Sourced (w.upstream m.tick) max_body p key req stripped) [
        | inl (before, last, answer) ↦ inl (
          m.tick,
          length before,
          key,
          last_sent m.tick (up_request p key req stripped) done.1.sent before m.sent last,
          answer,
        )
        | inr (zero', gone, whole) ↦ inr (zero', unanswered done.0 gone whole)
      ]

  try_slot-Taken :
      (i : ℕ) (key : Bytes) (r : Run) (b : Bool)
      → Taken (try_slot w max_body p req stripped i key (r, b))
  try_slot-Taken i key r true = with_slot-Taken i key r
  try_slot-Taken i key r false = inr (refl, refl)

  try_selected-Taken :
      (r : Run) (sel : Option (ℕ × Bytes)) → Taken (try_selected w max_body p req stripped (r, sel))
  try_selected-Taken r none = inr (refl, refl)
  try_selected-Taken r (some (i, key)) = try_slot-Taken i key (acquire w i r).0 (acquire w i r).1

  serve_once-Taken : (r : Run) → Taken (serve_once w max_body p req stripped r)
  unfolding serve_once
  serve_once-Taken r = try_selected-Taken (select w r).0 (select w r).1

  with_slot-Grows :
      (i : ℕ) (key : Bytes) (r : Run) → Grows r (with_slot w max_body p req stripped i key r).1
  unfolding with_slot give_back
  with_slot-Grows i key r x m =
      let q = ensure_measured w p i key r in
      let done = try_key (w.upstream q.tick) max_body p key req stripped in
      mem-append_right (forwarded_at q.tick done.1.sent) (ensure_measured-Grows i key r x m)

  try_slot-Grows :
      (i : ℕ) (key : Bytes) (r : Run) (b : Bool)
      → Grows r (try_slot w max_body p req stripped i key (r, b)).1
  try_slot-Grows i key r true = with_slot-Grows i key r
  try_slot-Grows i key r false = λ x m. m

  try_selected-Grows :
      (r : Run) (sel : Option (ℕ × Bytes))
      → Grows r (try_selected w max_body p req stripped (r, sel)).1
  unfolding acquire
  try_selected-Grows r none = λ x m. m
  try_selected-Grows r (some (i, key)) = try_slot-Grows i key (acquire w i r).0 (acquire w i r).1

  serve_once-Grows : (r : Run) → Grows r (serve_once w max_body p req stripped r).1
  unfolding serve_once select
  serve_once-Grows r = try_selected-Grows (select w r).0 (select w r).1

  -- The variables of the loop while it runs, and when it ends.
  abbrev pub Running : Loop → Type 0
  Running s =
      (s.clean_break ≡ false)
      × (s.over_cap ≡ false)
      × (IsGenuine s.run.sent s.last_status s.last_header s.last_body ⊎ (s.last_status ≡ 0))

  abbrev pub Ended : Loop → Type 0
  Ended s =
      IsGenuine s.run.sent s.last_status s.last_header s.last_body
      ⊎ ((s.last_status ≡ 0) × (s.clean_break ≡ false) × (s.over_cap ≡ false))

  pub Running-Ended : (s : Loop) → Running s → Ended s
  Running-Ended s (clean, cap, inl genuine) = inl genuine
  Running-Ended s (clean, cap, inr zero') = inr (zero', clean, cap)

  Running-Grows : (s : Loop) (q : Run) → Grows s.run q → Running s → Running (record s { run = q })
  Running-Grows s q g (clean, cap, inl genuine) =
      (clean, cap, inl (IsGenuine-Grows s.run q _ _ _ g genuine))
  Running-Grows s q g (clean, cap, inr zero') = (clean, cap, inr zero')

  abbrev pub IsTrue : List Sending → Response → Type 0
  IsTrue sent (forwarded status header body) = IsGenuine sent status header body
  IsTrue sent (rewritten base status header body) = IsGenuine sent status header body
  IsTrue sent (failed_with f) = Unit
  IsTrue sent abandoned = Unit

  abbrev pub Onward : Next → Type 0
  Onward (queued s) = Running s
  Onward (rotated s) = Running s
  Onward (broken s) = Ended s
  Onward (returned a q) = IsTrue q.sent a

  saturated-Onward :
      (deadline : Option ℕ) (s : Loop) → Running s → Onward (saturated w p deadline s)
  unfolding saturated
  saturated-Onward deadline s h = elim (Bool-cases (rejects_busy p)) [
    | inl reject ↦ rw reject tt
    | inr queue ↦ elim (Bool-cases (granted w p deadline s.run)) [
      | inl g ↦ rw (queue, g) h
      | inr n ↦ elim (Bool-cases (w.gone s.run.tick)) [
        | inl left' ↦ rw (queue, n, left') tt
        | inr there ↦ rw (queue, n, there) tt
      ]
    ]
  ]

  -- What a result leaves to a later round.
  forget :
      (res : RotResult) (r q : Run)
      → Grows r q
      → Taken (res, r)
      → IsGenuine q.sent res.status res.header res.body ⊎ (res.status ≡ 0)
  forget res r q g (inl h) = inl (IsGenuine-Grows r q _ _ _ g h)
  forget res r q g (inr (z, _)) = inr z

  clean-IsGenuine :
      (res : RotResult) (r q : Run)
      → Grows r q
      → is_clean res.kind ≡ true
      → Taken (res, r)
      → IsGenuine q.sent res.status res.header res.body
  clean-IsGenuine res r q g c (inl h) = IsGenuine-Grows r q _ _ _ g h
  clean-IsGenuine res r q g c (inr (_, d)) = absurd (false≢true (sym d ∙ c))

  decide-Onward :
      (deadline : Option ℕ) (kind : RotResultKind) (res : RotResult) (s : Loop)
      → res.kind ≡ kind
      → Taken (res, s.run)
      → Running s
      → Onward (decide w p deadline kind res s)
  unfolding decide
  decide-Onward deadline res_saturated res s k t h = saturated-Onward deadline s h
  decide-Onward deadline res_ok res s k t h = inl (
      clean-IsGenuine res s.run (succeeded w p res s.run)
        (succeeded_steady w Grows Grows-calm p res s.run) (ap is_clean k) t)
  decide-Onward deadline res_capped res s k t h =
      inl (clean-IsGenuine res s.run s.run (λ x m. m) (ap is_clean k) t)
  decide-Onward deadline res_net_err res s k t h = (
    h.0,
    h.1,
    forget res s.run (move_on w true res s.run) (move_on_steady w Grows Grows-calm true res s.run)
        t,
  )
  decide-Onward deadline res_rotate res s k t h = (
    h.0,
    h.1,
    forget res s.run (refused w p res s.run)
        (refused_steady w Grows Grows-calm Grows-asked p res s.run) t,
  )
  decide-Onward deadline res_exhausted res s k t h = elim t [
    | inl genuine ↦ inl genuine
    | inr (zero', _) ↦ inr (zero', h.0, h.1)
  ]

module _ (w : World) (cfg : Config) (p : Profile) (req : Request) (stripped : Bytes) where
  pub round-Onward :
      (deadline : Option ℕ) (s : Loop)
      → Running w cfg.max_body_bytes p req stripped s
      → Onward w cfg.max_body_bytes p req stripped (round w cfg p req stripped deadline s)
  unfolding round
  round-Onward deadline s h =
      let once = serve_once w cfg.max_body_bytes p req stripped s.run in
      decide-Onward w cfg.max_body_bytes p req stripped deadline once.0.kind once.0
        (record s { run = once.1 }) refl
        (serve_once-Taken w cfg.max_body_bytes p req stripped s.run)
        (Running-Grows w cfg.max_body_bytes p req stripped s once.1
          (serve_once-Grows w cfg.max_body_bytes p req stripped s.run) h)
