-- ===== src/Start/Run.antt =====
-- main.go: main. What http.Get and ListenAndServe do comes from outside; what is modelled is the
-- status that the process exits with.
pub mod Health
use api_key_rotator.Base.{ℕ, Bool, true, false, ◌++◌, Option, none, some, ◌==◌, if◌then◌else◌}
use api_key_rotator.Base.Text.{Bytes, codes}
use api_key_rotator.Urls.{Urls}
use api_key_rotator.Floats.{Floats}
use api_key_rotator.Config.{Environment}
use api_key_rotator.Config.State.{Config}
use api_key_rotator.Config.Load.{load_config}
use api_key_rotator.Start.{HttpServer, build_server}

-- The address that the health check asks.
abbrev pub health_url : Config → Bytes
health_url cfg = codes "http://127.0.0.1:" ++ cfg.port ++ codes "/healthz"

-- `none` is an error of http.Get.
abbrev pub is_ok_status : Option ℕ → Bool
is_ok_status none = false
is_ok_status (some status) = status == 200

abbrev pub asked : (Bytes → Option ℕ) → Option Config → ℕ
asked get none = 1
asked get (some cfg) = if is_ok_status (get (health_url cfg)) then 0 else 1

-- The branch of the flag -healthcheck; `get` gives the status of an answer.
unfoldable pub health_check : Environment → Urls → Floats → (Bytes → Option ℕ) → ℕ
health_check env urls fl get = asked get (load_config env urls fl)

abbrev pub listened : (HttpServer → Bool) → Option HttpServer → ℕ
listened serve none = 1
listened serve (some srv) = if serve srv then 0 else 1

-- The other branch; `serve` is whether ListenAndServe returns without an error.
unfoldable pub serve_main : Environment → Urls → Floats → (HttpServer → Bool) → ℕ
serve_main env urls fl serve = listened serve (build_server env urls fl)

unfoldable pub main :
    Environment → Urls → Floats → (Bytes → Option ℕ) → (HttpServer → Bool) → Bool → ℕ
unfolding health_check serve_main
main env urls fl get serve healthcheck =
    if healthcheck then health_check env urls fl get else serve_main env urls fl serve
