-- ===== src/Proxy/AccessLog/Laws.antt =====
-- proxy.go: the status in the access log against that of the response.
use api_key_rotator.Base.{
  ℕ, ◌≡◌, refl, ap, subst, ◌⊎◌, inl, inr, Bool, true, false, not, ◌&&◌, Bool-cases, List, Option,
  none, some, some_inj, ◌==◌, if◌then◌else◌,
}
use api_key_rotator.Base.Text.{Bytes}
use api_key_rotator.Config.State.{Config}
use api_key_rotator.Profile.State.{Profile}
use api_key_rotator.Profile.Route.{match_profile}
use api_key_rotator.Proxy.Request.{Request, is_json}
use api_key_rotator.Proxy.ServeOnce.{World, Run, select}
use api_key_rotator.Proxy.Serve.{
  failure_status, unreadable_body, Response, failed_with, forwarded, rewritten, abandoned, Loop,
}
use api_key_rotator.Proxy.ServeHttp.{
  End, finished, answered, finish, close, after_select, respond, serve_profile, serve_http,
  serve_matched, response_of,
}
use api_key_rotator.Proxy.AccessLog.{
  acc_status, logged_selected, logged_end, logged, log_profile, log_matched, log_http,
}

-- The status that the client gets; 0 where nothing is written.
abbrev pub status_of : Response → ℕ
status_of (failed_with f) = failure_status f
status_of (forwarded status header body) = status
status_of (rewritten base status header body) = status
status_of abandoned = 0

-- The responses that the proxy does not make itself, and that to a body which cannot be read.
abbrev pub IsUnlogged : Response → Type 0
IsUnlogged (failed_with unreadable_body) = Unit
IsUnlogged (failed_with _) = ⊥
IsUnlogged (forwarded status header body) = Unit
IsUnlogged (rewritten base status header body) = Unit
IsUnlogged abandoned = ⊥

-- The log has the status of the response, or none.
abbrev pub Logs : Response → ℕ → Type 0
Logs a n = (n ≡ status_of a) ⊎ ((n ≡ 0) × IsUnlogged a)

passed : (b : Bool) (n : ℕ) → ((if b then n else 0) ≡ n) ⊎ (((if b then n else 0) ≡ 0) × Unit {0})
passed true n = inl refl
passed false n = inr (refl, tt)

module _ (w : World) (cfg : Config) (p : Profile) (req : Request) where
  respond-Logs : (s : Loop) → Logs (respond cfg p req s) (acc_status s)
  unfolding respond
  respond-Logs s = elim (Bool-cases (p.rewrite_next && is_json s.last_header)) [
    | inl json ↦ rw json (passed s.clean_break s.last_status)
    | inr other ↦ rw other (passed s.clean_break s.last_status)
  ]

  after_select-Logs :
      (s : Loop) (q : Run) (sel : Option (ℕ × Bytes))
      → Logs (after_select cfg p req s (q, sel)).0 (logged_selected s sel)
  after_select-Logs s q none = inl refl
  after_select-Logs s q (some _) = elim (Bool-cases (not s.clean_break && s.last_status == 0)) [
    | inl unreached ↦ rw unreached (inl refl)
    | inr reached ↦ rw reached (respond-Logs s)
  ]

  finish-Logs : (s : Loop) → Logs (finish w cfg p req s).0 (logged_end w (finished s))
  unfolding finish logged_end
  finish-Logs s = elim (Bool-cases s.over_cap) [
    | inl capped ↦ rw capped (passed s.clean_break s.last_status)
    | inr whole ↦ rw whole (after_select-Logs s (select w s.run).0 (select w s.run).1)
  ]

  end-Logs :
      (e : Option End) {a : Response} {q : Run}
      → close w cfg p req e ≡ some (a, q)
      → (n : ℕ) × (logged w e ≡ some n) × Logs a n
  unfolding logged_end
  end-Logs none h = cc
  end-Logs (some (finished s)) {a} h = (
    logged_end w (finished s),
    refl,
    subst (λ b. Logs b (logged_end w (finished s))) (ap (λ t. t.0) (some_inj h)) (finish-Logs s),
  )
  end-Logs (some (answered b r)) {a} h = (
    logged_end w (answered b r),
    refl,
    subst (λ c. Logs c (logged_end w (answered b r))) (ap (λ t. t.0) (some_inj h))
        (answered-Logs b r),
  )
    where
      answered-Logs : (b : Response) (r : Run) → Logs b (logged_end w (answered b r))
      answered-Logs (failed_with f) r = inl refl
      answered-Logs (forwarded status header body) r = inr (refl, tt)
      answered-Logs (rewritten base status header body) r = inr (refl, tt)
      answered-Logs abandoned r = inl refl

serve_profile-Logs :
    (w : World) (cfg : Config) (fuel : ℕ) (p : Profile) (req : Request) (stripped : Bytes) (r : Run)
    (o : Option (Response × Run)) {a : Response}
    → serve_profile w cfg fuel p req stripped r ≡ o
    → response_of o ≡ some a
    → (n : ℕ) × (log_profile w cfg fuel p req stripped r ≡ some n) × Logs a n
unfolding serve_profile log_profile
serve_profile-Logs w cfg fuel p req stripped r none e h = cc
serve_profile-Logs w cfg fuel p req stripped r (some (b, q)) {a} e h =
    let (n, at, l) = end-Logs w cfg p req _ e in (n, at, subst (λ c. Logs c n) (some_inj h) l)

-- Whenever a request is answered, the access log has the status of the answer, or 0; and 0 only for an
-- answer of upstream that is passed on, and where the body of the request cannot be read. All the
-- other errors of the proxy are logged with their status, and a client that left before an answer
-- with 0.
pub log_http-Logs :
    (world : Profile → World) (state : Profile → Run) (cfg : Config) (fuel : ℕ)
    (profiles : List Profile) (req : Request) (readable : Bool) {a : Response}
    → serve_http world state cfg fuel profiles req readable ≡ some a
    → (n : ℕ) × (log_http world state cfg fuel profiles req readable ≡ some n) × Logs a n
unfolding serve_http log_http
log_http-Logs world state cfg fuel profiles req readable {a} e =
    matched (match_profile profiles req.path cfg.firecrawl_legacy_fallback) readable e
  where
    matched :
        (m : Option (Profile × Bytes)) (b : Bool) {c : Response}
        → serve_matched world state cfg fuel req b m ≡ some c
        → (n : ℕ) × (log_matched world state cfg fuel req b m ≡ some n) × Logs c n
    matched none b h = (404, refl, subst (λ c. Logs c 404) (some_inj h) (inl refl))
    matched (some (p, stripped)) false h =
        (0, refl, subst (λ c. Logs c 0) (some_inj h) (inr (refl, tt)))
    matched (some (p, stripped)) true h =
        serve_profile-Logs (world p) cfg fuel p req stripped (state p) _ refl h
