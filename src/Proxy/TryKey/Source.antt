-- ===== src/Proxy/TryKey/Source.antt =====
-- proxy.go: to which request the result of tryKey is the answer, also when the key was given up.
use api_key_rotator.Base.{
  ℕ, zero, suc, ap, List, ◌∷◌, length, ◌≡◌, ◌⊎◌, inl, inr, refl, Bool, true, false, Bool-cases,
  if◌then◌else◌,
}
use api_key_rotator.Base.Text.{Bytes}
use api_key_rotator.Headers.{Header}
use api_key_rotator.Rotate.{should_retry}
use api_key_rotator.Profile.State.{Profile}
use api_key_rotator.Proxy.Request.{Request, UpRequest, up_request, read_capped}
use api_key_rotator.Proxy.TryKey.{
  Exchange, failed, responded, Outside, Traffic, Tried, Verdict, finish, back_off, no_response,
  send, sleep, judge, judge_body, follow, try_loop, no_traffic, try_key,
}

-- The answer to request `k` has this status and header, and this body as far as readCapped reads it.
abbrev pub IsAnswer : Outside → ℕ → ℕ → ℕ → Header → Bytes → Type 0
IsAnswer o max_body k status header body =
    (raw : Bytes) × (o.answers k ≡ responded status header raw)
    × ((read_capped raw max_body).0 ≡ body)

abbrev Unanswered : Tried → Type 0
Unanswered t = (t.status ≡ 0) × (t.net_err ≡ true) × (t.capped ≡ false)

-- The answer to the last request sent, which is `q`, or the mark of no answer at all.
abbrev pub Sourced : Outside → ℕ → UpRequest → Tried × Traffic → Type 0
Sourced o max_body q r =
    ((before : List UpRequest) × (r.1.sent ≡ q ∷ before)
      × IsAnswer o max_body (length before) r.0.status r.0.header r.0.body)
    ⊎ Unanswered r.0

-- What an exchange is judged to be.
abbrev Judged : Outside → ℕ → ℕ → Tried → Type 0
Judged o max_body k t = IsAnswer o max_body k t.status t.header t.body ⊎ Unanswered t

SourcedBy : Outside → ℕ → ℕ → Verdict → Type 0
SourcedBy o max_body k (finish t) = Judged o max_body k t
SourcedBy o max_body k (back_off t) = Judged o max_body k t

module _ (o : Outside) (max_body : ℕ) (p : Profile) where
  either :
      (k : ℕ) (b : Bool) (t : Tried)
      → Judged o max_body k t
      → SourcedBy o max_body k (if b then back_off t else finish t)
  unfolding SourcedBy
  either k true t s = s
  either k false t s = s

  judge_body-Sourced :
      (n k status : ℕ) (h : Header) (raw b : Bytes) (c : Bool)
      → o.answers k ≡ responded status h raw
      → (read_capped raw max_body).0 ≡ b
      → SourcedBy o max_body k (judge_body p n status h b c)
  unfolding judge_body SourcedBy
  judge_body-Sourced n k status h raw b true e f = inl (raw, e, f)
  judge_body-Sourced n k status h raw b false e f = elim (Bool-cases (should_retry status false)) [
    | inl again ↦ rw again (either k _ _ (inl (raw, e, f)))
    | inr settled ↦ rw settled (inl (raw, e, f))
  ]

  judge-Sourced :
      (n k : ℕ) (x : Exchange) → o.answers k ≡ x → SourcedBy o max_body k (judge max_body p n x)
  unfolding judge
  judge-Sourced n k failed e = either k _ no_response (inr (refl, refl, refl))
  judge-Sourced n k (responded status h raw) e = judge_body-Sourced n k status h raw _ _ e refl

  module _ (q : UpRequest) where
    sent-Sourced :
        (t : Traffic) (r : Tried)
        → Judged o max_body (length t.sent) r
        → (u : Traffic) → u.sent ≡ q ∷ t.sent
        → Sourced o max_body q (r, u)
    sent-Sourced t r (inl answer) u e = inl (t.sent, e, answer)
    sent-Sourced t r (inr none') u e = inr none'

    follow-Sourced :
        (v : Verdict) (b : Bool) (rest : Tried × Traffic) (t : Traffic)
        → SourcedBy o max_body (length t.sent) v
        → Sourced o max_body q rest
        → Sourced o max_body q (follow v b rest (send q t))
    unfolding SourcedBy follow
    follow-Sourced (finish r) b rest t s k = sent-Sourced t r s (send q t) refl
    follow-Sourced (back_off r) true rest t s k = sent-Sourced t r s (sleep (send q t)) refl
    follow-Sourced (back_off r) false rest t s k = k

    try_loop-Sourced :
        (left n : ℕ) (t : Traffic)
        → length t.sent ≡ n
        → Sourced o max_body q (try_loop o max_body p q left n t)
    unfolding try_loop
    try_loop-Sourced zero n t l = inr (refl, refl, refl)
    try_loop-Sourced (suc left) n t l = elim (Bool-cases (o.builds q.method q.url)) [
      | inl b ↦ rw b (
          follow-Sourced (judge max_body p n (o.answers n)) (o.cancels n)
            (try_loop o max_body p q left (suc n) (sleep (send q t))) t
            (judge-Sourced n (length t.sent) (o.answers n) (ap o.answers l))
            (try_loop-Sourced left (suc n) (sleep (send q t)) (ap suc l)))
      | inr b ↦ rw b (inr (refl, refl, refl))
    ]

pub try_key-Sourced :
    (o : Outside) (max_body : ℕ) (p : Profile) (key : Bytes) (req : Request) (stripped : Bytes)
    → Sourced o max_body (up_request p key req stripped) (try_key o max_body p key req stripped)
unfolding try_key
try_key-Sourced o max_body p key req stripped =
    try_loop-Sourced o max_body p (up_request p key req stripped) 6 0 no_traffic refl
