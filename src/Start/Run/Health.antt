-- ===== src/Start/Run/Health.antt =====
-- main.go: the health check against the server's own /healthz.
use api_key_rotator.Base.{
  ℕ, ◌≡◌, refl, ◌↔◌, Bool, true, List, some, none, Option, All, arith, Bool-cases, inl, inr, sym,
  ◌∙◌, false≢true, if◌then◌else◌,
}
use api_key_rotator.Base.Text.{Bytes}
use api_key_rotator.Urls.{Urls}
use api_key_rotator.Floats.{Floats}
use api_key_rotator.Config.{Environment}
use api_key_rotator.Config.State.{Config}
use api_key_rotator.Config.Load.{load_config}
use api_key_rotator.Pool.Select.{current}
use api_key_rotator.Profile.State.{Profile}
use api_key_rotator.Server.{any_healthy, healthz}
use api_key_rotator.Server.Laws.{any_healthy-eq-false_iff}
use api_key_rotator.Start.Run.{health_url, health_check, main}
use api_key_rotator.Start.{HttpServer}

health_check-healthz :
    (env : Environment) (urls : Urls) (fl : Floats) (get : Bytes → Option ℕ) (ps : List Profile)
    {cfg : Config}
    → load_config env urls fl ≡ some cfg
    → get (health_url cfg) ≡ some (healthz ps).0
    → health_check env urls fl get ≡ (if any_healthy ps then 0 else 1)
unfolding health_check healthz
health_check-healthz env urls fl get ps e answer = elim (Bool-cases (any_healthy ps)) [
  | inl up ↦ rw (e, rw up at answer, up) refl
  | inr down ↦ rw (e, rw down at answer, down) refl
]

-- With the flag, where /healthz of the server with these profiles is what answers at its port on
-- 127.0.0.1, the process exits with 1 exactly when Current finds no key in any pool, and else with 0.
pub main-healthz :
    (env : Environment) (urls : Urls) (fl : Floats) (get : Bytes → Option ℕ)
    (serve : HttpServer → Bool) (now : ℕ) (ps : List Profile) {cfg : Config}
    → load_config env urls fl ≡ some cfg
    → get (health_url cfg) ≡ some (healthz ps).0
    → ((main env urls fl get serve true ≡ 1) ↔ All (λ p. (current now p.pool).1 ≡ none) ps)
      × ((main env urls fl get serve true ≡ 0) ↔ (¬ All (λ p. (current now p.pool).1 ≡ none) ps))
unfolding main
main-healthz env urls fl get serve now ps e answer =
    let (to, from) = any_healthy-eq-false_iff now ps in
    let run = health_check-healthz env urls fl get ps e answer in
    elim (Bool-cases (any_healthy ps)) [
      | inl up ↦
          rw (run, up)
            (
              (
                (λ (h : ◌≡◌ {A = ℕ} 0 1). absurd (omega (arith, h))),
                (λ h. absurd (false≢true (sym (from h) ∙ up))),
              ),
              ((λ _. λ h. false≢true (sym (from h) ∙ up)), (λ _. refl)),
            )
      | inr down ↦
          rw (run, down)
            (
              ((λ _. to down), (λ _. refl)),
              ((λ (h : ◌≡◌ {A = ℕ} 1 0). absurd (omega (arith, h))), (λ n. absurd (n (to down)))),
            )
    ]
