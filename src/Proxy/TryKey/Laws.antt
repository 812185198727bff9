-- ===== src/Proxy/TryKey/Laws.antt =====
-- proxy.go: how often tryKey asks upstream, with what, and what its result means.
use api_key_rotator.Base.{
  ℕ, zero, suc, ◌+◌, ◌≤◌, ◌≡◌, ◌⊎◌, inl, inr, refl, Bool, true, false, ltb, if◌then◌else◌, length,
  arith, Bool-cases, All, sym, ◌∙◌, false≢true,
}
use api_key_rotator.Base.Text.{Bytes}
use api_key_rotator.Headers.{Header}
use api_key_rotator.Rotate.{should_retry}
use api_key_rotator.Profile.State.{Profile}
use api_key_rotator.Proxy.Request.{Request, UpRequest, up_request, read_capped}
use api_key_rotator.Proxy.TryKey.{
  Exchange, failed, responded, Outside, Traffic, Tried, Verdict, finish, back_off, no_response,
  budget, send, sleep, judge, judge_body, follow, try_loop, no_traffic, try_key,
}

pub Repeats : UpRequest → Traffic → Type 0
Repeats q t = All (λ r. r ≡ q) t.sent

-- The result of a loop that has sent `t` and has `left` attempts left.
Bounded : UpRequest → ℕ → Traffic → Tried × Traffic → Type 0
Bounded q left t r = (length r.1.sent ≤ left + length t.sent) × Repeats q r.1

module _ (o : Outside) (max_body : ℕ) (p : Profile) (q : UpRequest) where
  follow-Bounded :
      (v : Verdict) (b : Bool) (rest : Tried × Traffic) (left : ℕ) (t : Traffic)
      → Bounded q left (sleep (send q t)) rest
      → Repeats q t
      → Bounded q (suc left) t (follow v b rest (send q t))
  unfolding Bounded Repeats follow
  follow-Bounded (finish r) b rest left t h g = (omega arith, (refl, g))
  follow-Bounded (back_off r) true rest left t h g = (omega arith, (refl, g))
  follow-Bounded (back_off r) false rest left t h g = (omega (arith, h.0), h.1)

  try_loop-Bounded :
      (left attempt : ℕ) (t : Traffic)
      → Repeats q t
      → Bounded q left t (try_loop o max_body p q left attempt t)
  unfolding Bounded Repeats try_loop
  try_loop-Bounded zero n t g = (omega arith, g)
  try_loop-Bounded (suc left) n t g = elim (Bool-cases (o.builds q.method q.url)) [
    | inl b ↦ rw b (
        follow-Bounded (judge max_body p n (o.answers n)) (o.cancels n)
          (try_loop o max_body p q left (suc n) (sleep (send q t))) left t
          (try_loop-Bounded left (suc n) (sleep (send q t)) (refl, g)) g)
    | inr b ↦ rw b (omega arith, g)
  ]

module _ (o : Outside) (max_body : ℕ) (p : Profile) (key : Bytes) (req : Request)
    (stripped : Bytes) where
  -- One run of tryKey sends at most six requests, and each of them is the request built for this
  -- key.
  pub try_key_bounded :
      (length (try_key o max_body p key req stripped).1.sent ≤ 6)
      × Repeats (up_request p key req stripped) (try_key o max_body p key req stripped).1
  unfolding Repeats Bounded try_key
  try_key_bounded = try_loop-Bounded o max_body p (up_request p key req stripped) 6 0 no_traffic tt

-- Whether `r` is what the exchange gave, and no transient status.
Settled : ℕ → Exchange → Tried → Type 0
Settled max_body e r =
    (raw : Bytes) × (e ≡ responded r.status r.header raw)
    × (read_capped raw max_body ≡ (r.body, r.capped))
    × ((r.capped ≡ true) ⊎ (should_retry r.status false ≡ false))

Sound : ℕ → Exchange → Verdict → Type 0
Sound max_body e (finish r) = r.net_err ≡ false → Settled max_body e r
Sound max_body e (back_off r) = r.net_err ≡ true

given_up-Sound :
    (max_body : ℕ) (e : Exchange) (r : Tried) (b : Bool)
    → r.net_err ≡ true
    → Sound max_body e (if b then back_off r else finish r)
unfolding Sound
given_up-Sound max_body e r true g = g
given_up-Sound max_body e r false g = λ h. absurd (false≢true (sym h ∙ g))

judge_body-Sound :
    (max_body : ℕ) (p : Profile) (n status : ℕ) (h : Header) (raw b : Bytes) (c : Bool)
    → read_capped raw max_body ≡ (b, c)
    → Sound max_body (responded status h raw) (judge_body p n status h b c)
unfolding Sound Settled judge_body
judge_body-Sound max_body p n status h raw b true e = λ g. (raw, refl, e, inl refl)
judge_body-Sound max_body p n status h raw b false e =
    elim (Bool-cases (should_retry status false)) [
      | inl again ↦ rw again (given_up-Sound max_body (responded status h raw) _ _ refl)
      | inr settled ↦ rw settled (λ g. (raw, refl, e, inr settled))
    ]

judge-Sound :
    (max_body : ℕ) (p : Profile) (n : ℕ) (e : Exchange) → Sound max_body e (judge max_body p n e)
unfolding judge Sound
judge-Sound max_body p n failed = given_up-Sound max_body failed no_response _ refl
judge-Sound max_body p n (responded status h raw) =
    judge_body-Sound max_body p n status h raw _ _ refl

-- The result is what the last request was answered with, and no transient status.
pub Answered : Outside → ℕ → Tried × Traffic → Type 0
Answered o max_body r =
    (n : ℕ) × (raw : Bytes) × (length r.1.sent ≡ suc n)
    × (o.answers n ≡ responded r.0.status r.0.header raw)
    × (read_capped raw max_body ≡ (r.0.body, r.0.capped))
    × ((r.0.capped ≡ true) ⊎ (should_retry r.0.status false ≡ false))

module _ (o : Outside) (max_body : ℕ) (p : Profile) (q : UpRequest) where
  Kept : Tried × Traffic → Type 0
  Kept r = r.0.net_err ≡ false → Answered o max_body r

  follow-Kept :
      (n : ℕ) (t : Traffic) (v : Verdict) (b : Bool) (rest : Tried × Traffic)
      → Sound max_body (o.answers n) v
      → length t.sent ≡ n
      → Kept rest
      → Kept (follow v b rest (send q t))
  unfolding Kept Sound Settled Answered follow
  follow-Kept n t (finish r) b rest s l k =
      λ g. let (raw, e, c, d) = s g in (n, raw, omega (arith, l), e, c, d)
  follow-Kept n t (back_off r) true rest s l k = λ g. absurd (false≢true (sym g ∙ s))
  follow-Kept n t (back_off r) false rest s l k = k

  try_loop-Kept :
      (left n : ℕ) (t : Traffic) → length t.sent ≡ n → Kept (try_loop o max_body p q left n t)
  unfolding Kept try_loop
  try_loop-Kept zero n t l = λ g. absurd (false≢true (sym g))
  try_loop-Kept (suc left) n t l = elim (Bool-cases (o.builds q.method q.url)) [
    | inl b ↦ rw b (
        follow-Kept n t (judge max_body p n (o.answers n)) (o.cancels n)
          (try_loop o max_body p q left (suc n) (sleep (send q t)))
          (judge-Sound max_body p n (o.answers n)) l
          (try_loop-Kept left (suc n) (sleep (send q t)) (omega (arith, l))))
    | inr b ↦ rw b (λ g. absurd (false≢true (sym g)))
  ]

module _ (o : Outside) (max_body : ℕ) (p : Profile) (key : Bytes) (req : Request)
    (stripped : Bytes) where
  -- A result of tryKey that is not marked as a network error is the answer to the last request
  -- sent, its body as readCapped gives it; when the body was not cut, shouldRetry does not hold of
  -- its status.
  pub try_key-Answered :
      (try_key o max_body p key req stripped).0.net_err ≡ false
      → Answered o max_body (try_key o max_body p key req stripped)
  unfolding try_key Kept
  try_key-Answered = try_loop-Kept o max_body p (up_request p key req stripped) 6 0 no_traffic refl

pub try_key_settled :
    (o : Outside) (max_body : ℕ) (p : Profile) (key : Bytes) (req : Request) (stripped : Bytes)
    → (try_key o max_body p key req stripped).0.net_err ≡ false
    → (try_key o max_body p key req stripped).0.capped ≡ false
    → should_retry (try_key o max_body p key req stripped).0.status false ≡ false
unfolding Answered
try_key_settled o max_body p key req stripped done whole =
    elim (try_key-Answered o max_body p key req stripped done).5 [
      | inl cut ↦ absurd (false≢true (sym whole ∙ cut))
      | inr settled ↦ settled
    ]

module _ (o : Outside) (max_body : ℕ) (p : Profile) (q : UpRequest) (status : ℕ)
    (transient : should_retry status false ≡ true)
    (answered : (n : ℕ)
      → (h : Header) × (raw : Bytes) × (o.answers n ≡ responded status h raw)
        × ((read_capped raw max_body).1 ≡ false))
    (stays : (n : ℕ) → o.cancels n ≡ false) (builds : o.builds q.method q.url ≡ true) where
  GivesUp : Tried × Traffic → Type 0
  GivesUp r =
      (length r.1.sent ≡ budget p status + 1)
      × (r.0.status ≡ status)
      × (r.0.net_err ≡ true)
      × (r.0.capped ≡ false)

  judge_again :
      (n : ℕ)
      → (r : Tried) × (r.status ≡ status)
        × (r.net_err ≡ true)
        × (r.capped ≡ false)
        × (judge max_body p n (o.answers n)
            ≡ (if ltb n (budget p status) then back_off r else finish r))
  unfolding judge judge_body
  judge_again n =
      let (h, raw, e, whole) = answered n in
      (
        record {
          status = status;
          header = h;
          body = (read_capped raw max_body).0;
          capped = false;
          net_err = true;
        },
        refl,
        refl,
        refl,
        rw (e, whole, transient),
      )

  budget_bounded : budget p status ≤ 5
  budget_bounded = ground arith

  try_loop-GivesUp :
      (left n : ℕ) (t : Traffic)
      → length t.sent ≡ n
      → n ≤ budget p status
      → n + left ≡ 6
      → GivesUp (try_loop o max_body p q left n t)
  unfolding GivesUp try_loop
  try_loop-GivesUp zero n t l h e = absurd (omega (arith, h, e, budget_bounded))
  try_loop-GivesUp (suc left) n t l h e =
      let (r, s, g, c, j) = judge_again n in
      elim (Bool-cases (ltb n (budget p status))) [
        | inl below ↦
            rw (builds, j, below, stays n)
              (try_loop-GivesUp left (suc n) (sleep (send q t)) (omega (arith, l))
                (ground (arith, below)) (omega (arith, e)))
        | inr at_end ↦ rw (builds, j, at_end) (ground (arith, at_end, l, h), s, g, c)
      ]

-- When http.NewRequest accepts the request, every answer is below the cap and has the same
-- transient status, and the client never cancels, tryKey sends one request more than the budget of
-- that status and gives the key up with that status.
pub try_key_gives_up :
    (o : Outside) (max_body : ℕ) (p : Profile) (key : Bytes) (req : Request) (stripped : Bytes)
    (status : ℕ)
    → should_retry status false ≡ true
    → ((n : ℕ)
        → (h : Header) × (raw : Bytes) × (o.answers n ≡ responded status h raw)
          × ((read_capped raw max_body).1 ≡ false))
    → ((n : ℕ) → o.cancels n ≡ false)
    → o.builds (up_request p key req stripped).method (up_request p key req stripped).url ≡ true
    → (length (try_key o max_body p key req stripped).1.sent ≡ budget p status + 1)
      × ((try_key o max_body p key req stripped).0.status ≡ status)
      × ((try_key o max_body p key req stripped).0.net_err ≡ true)
      × ((try_key o max_body p key req stripped).0.capped ≡ false)
unfolding try_key GivesUp
try_key_gives_up o max_body p key req stripped status again a c b =
    try_loop-GivesUp o max_body p (up_request p key req stripped) status again a c b 6 0 no_traffic
      refl (omega arith) refl
