-- ===== src/Proxy/Serve/Requests.antt =====
-- proxy.go: how many requests one round of ServeHTTP sends to upstream.
use api_key_rotator.Base.{
  ℕ, zero, suc, ap, List, [], ◌∷◌, ◌++◌, Bool-cases, inl, inr, ◌+◌, ◌≤◌, ◌≡◌, refl, ◌∙◌, Bool, true,
  false, Option, none, some, length, length-append, arith, if◌then◌else◌,
}
use api_key_rotator.Base.Text.{Bytes}
use api_key_rotator.Profile.State.{Profile}
use api_key_rotator.Proxy.Request.{Request, UpRequest, reject_kind}
use api_key_rotator.Proxy.TryKey.{Tried, try_key}
use api_key_rotator.Proxy.TryKey.Laws.{try_key_bounded}
use api_key_rotator.Proxy.ServeOnce.{
  World, Run, RotResult, RotResultKind, res_ok, res_capped, res_rotate, res_net_err, res_exhausted,
  res_saturated, serve_once, with_slot, try_slot, try_selected, select, acquire, give_back, kind_of,
  ensure_measured, refreshed, Sending, forwarded_at, asked_at, asked, looks_of, found, left,
}
use api_key_rotator.Config.State.{Config}
use api_key_rotator.Proxy.Serve.{
  Loop, Next, queued, rotated, broken, returned, decide, round, saturated, call, refused,
  reset_looks,
}
use api_key_rotator.Refresh.{needs_measure}
use api_key_rotator.Usage.Fetch.{fetch_usage_for_bounded}
use api_key_rotator.Pool.Ops.{rejects, disables}
use api_key_rotator.Profile.Policy.{is_credit_exhausted}
use api_key_rotator.Proxy.Serve.Steps.{
  After, Calm, saturated_steady, succeeded_steady, move_on_steady,
}

-- As many requests have been sent as before.
unfoldable pub Still : Run → Run → Type 0
Still a b = length b.sent ≡ length a.sent

abbrev is_saturated : RotResultKind → Bool
is_saturated res_saturated = true
is_saturated _ = false

-- The requests that serveOnce may add.
abbrev allowed : RotResultKind → ℕ
allowed kind = if is_saturated kind then 0 else 10

allowed-kind_of : (p : Profile) (t : Tried) → allowed (kind_of p t) ≡ 10
unfolding kind_of
allowed-kind_of p t = ground arith

length-forwarded_at : (n : ℕ) (qs : List UpRequest) → length (forwarded_at n qs) ≡ length qs
unfolding forwarded_at
length-forwarded_at n [] = refl
length-forwarded_at n (q ∷ qs) = ap suc (length-forwarded_at n qs)

length-asked :
    (n : ℕ) (key : Bytes) (k : ℕ) (more : List Sending)
    → length (asked_at n key k ++ more) ≡ k + length more
unfolding asked_at
length-asked n key zero more = omega arith
length-asked n key (suc k) more = omega (arith, length-asked n key k more)

module _ (w : World) where
  pub select-Still : (r : Run) → Still r (select w r).0
  unfolding Still select
  select-Still r = refl

  Still-calm : Calm w Still
  unfolding Still
  Still-calm = record {
    stays = λ r. refl;
    chains = λ a b c k l. l ∙ k;
    calls = λ c r k. refl;
    looks = λ r. refl;
    notes = λ r q f k. k;
    selects = select-Still;
  }

  looks_of_bounded : (p : Profile) (key : Bytes) (n : ℕ) → looks_of w p key n ≤ 4
  unfolding looks_of
  looks_of_bounded p key n = fetch_usage_for_bounded (w.net n) p key

  reset_looks_bounded : (p : Profile) (key : Bytes) (n : ℕ) → reset_looks w p key n ≤ 4
  unfolding reset_looks
  reset_looks_bounded p key n = ground (arith, looks_of_bounded p key n)

  refreshed_bounded :
      (p : Profile) (i : ℕ) (key : Bytes) (r : Run)
      → length (refreshed w p i key r).sent ≤ 4 + length r.sent
  unfolding refreshed
  refreshed_bounded p i key r = omega (
    arith,
    length-asked r.tick key (looks_of w p key r.tick) r.sent,
    looks_of_bounded p key r.tick,
  )

  ensure_measured_bounded :
      (p : Profile) (i : ℕ) (key : Bytes) (r : Run)
      → length (ensure_measured w p i key r).sent ≤ 4 + length r.sent
  unfolding ensure_measured
  ensure_measured_bounded p i key r = elim (Bool-cases (needs_measure i (found w r) r.refresher)) [
    | inl needed ↦ rw needed (refreshed_bounded p i key (left (found w r) r))
    | inr measured ↦ rw measured (omega arith)
  ]

  refused_bounded :
      (p : Profile) (res : RotResult) (r : Run)
      → length (refused w p res r).sent ≤ 4 + length r.sent
  unfolding refused Still call
  refused_bounded p res r =
      let counted = call w (rejects res.idx (reject_kind res.status)) r in
      let n = reset_looks w p res.key counted.tick in
      elim (Bool-cases (is_credit_exhausted p res.status res.body)) [
        | inl spent ↦ rw spent (
            omega (
              arith,
              move_on_steady w Still Still-calm false res
                  (call w (disables res.idx _) (asked n res.key counted)),
              length-asked counted.tick res.key n r.sent,
              reset_looks_bounded p res.key counted.tick,
            ))
        | inr other ↦ rw other (omega (arith, move_on_steady w Still Still-calm false res counted))
      ]

  Adds : Run → RotResult × Run → Type 0
  Adds r q = length q.1.sent ≤ allowed q.0.kind + length r.sent

  module _ (max_body : ℕ) (p : Profile) (req : Request) (stripped : Bytes) where
    with_slot-Adds :
        (i : ℕ) (key : Bytes) (r : Run) → Adds r (with_slot w max_body p req stripped i key r)
    unfolding Adds Still with_slot give_back
    with_slot-Adds i key r =
        let m = ensure_measured w p i key r in
        let done = try_key (w.upstream m.tick) max_body p key req stripped in
        rw (allowed-kind_of p done.0) (
          omega (
            arith,
            length-append (forwarded_at m.tick done.1.sent) m.sent,
            length-forwarded_at m.tick done.1.sent,
            (try_key_bounded (w.upstream m.tick) max_body p key req stripped).0,
            ensure_measured_bounded p i key r,
          ))

    try_slot-Adds :
        (i : ℕ) (key : Bytes) (r : Run) (b : Bool)
        → Adds r (try_slot w max_body p req stripped i key (r, b))
    unfolding Adds
    try_slot-Adds i key r true = with_slot-Adds i key r
    try_slot-Adds i key r false = omega arith

    try_selected-Adds :
        (r : Run) (sel : Option (ℕ × Bytes))
        → Adds r (try_selected w max_body p req stripped (r, sel))
    unfolding Adds acquire
    try_selected-Adds r none = omega arith
    try_selected-Adds r (some (i, key)) = try_slot-Adds i key (acquire w i r).0 (acquire w i r).1

    serve_once-Adds : (r : Run) → Adds r (serve_once w max_body p req stripped r)
    unfolding Adds Still serve_once select
    serve_once-Adds r = try_selected-Adds (select w r).0 (select w r).1

  -- A queued round has sent nothing, any other at most fourteen: six of tryKey, four for the balance
  -- of a key not yet measured, four for the end of its billing period.
  abbrev pub Counted : Run → Next → Type 0
  Counted r (queued s) = length s.run.sent ≤ length r.sent
  Counted r (rotated s) = length s.run.sent ≤ 14 + length r.sent
  Counted r (broken s) = length s.run.sent ≤ 14 + length r.sent
  Counted r (returned a q) = length q.sent ≤ 14 + length r.sent

  Still-Counted :
      (r q : Run) (n : Next) → After Still q n → length q.sent ≤ length r.sent → Counted r n
  unfolding Still
  Still-Counted r q (queued s) e h = omega (arith, e, h)
  Still-Counted r q (rotated s) e h = omega (arith, e, h)
  Still-Counted r q (broken s) e h = omega (arith, e, h)
  Still-Counted r q (returned a t) e h = omega (arith, e, h)

  decide-Counted :
      (p : Profile) (deadline : Option ℕ) (kind : RotResultKind) (res : RotResult) (r : Run)
      (s : Loop)
      → length s.run.sent ≤ allowed kind + length r.sent
      → Counted r (decide w p deadline kind res s)
  unfolding decide Still
  decide-Counted p deadline res_saturated res r s h =
      Still-Counted r s.run (saturated w p deadline s)
        (saturated_steady w Still Still-calm p deadline s) (omega (arith, h))
  decide-Counted p deadline res_ok res r s h =
      omega (arith, succeeded_steady w Still Still-calm p res s.run, h)
  decide-Counted p deadline res_capped res r s h = omega (arith, h)
  decide-Counted p deadline res_net_err res r s h =
      omega (arith, move_on_steady w Still Still-calm true res s.run, h)
  decide-Counted p deadline res_rotate res r s h = omega (arith, refused_bounded p res s.run, h)
  decide-Counted p deadline res_exhausted res r s h = omega (arith, h)

  module _ (cfg : Config) (p : Profile) (req : Request) (stripped : Bytes) where
    pub round-Counted :
        (deadline : Option ℕ) (s : Loop) → Counted s.run (round w cfg p req stripped deadline s)
    unfolding round Adds
    round-Counted deadline s =
        let once = serve_once w cfg.max_body_bytes p req stripped s.run in
        decide-Counted p deadline once.0.kind once.0 s.run (record s { run = once.1 })
          (serve_once-Adds cfg.max_body_bytes p req stripped s.run)
