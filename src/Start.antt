-- ===== src/Start.antt =====
-- transport.go: buildTransport; main.go: buildServer. The clients, the routes of net/http and the
-- loops that the server starts are not values of the model; the profiles and their refreshers are.
pub mod Laws
pub mod Loops
pub mod Run
pub mod Announce
mod Tests
use api_key_rotator.Base.{ℕ, List, [], ◌∷◌, ◌++◌, Option, none, some, map, if◌then◌else◌, ◌>>=◌}
use api_key_rotator.Base.Text.{Bytes, codes, bytes_eq}
use api_key_rotator.Urls.{Url, Urls}
use api_key_rotator.Floats.{Floats}
use api_key_rotator.Config.{Environment}
use api_key_rotator.Config.State.{Config}
use api_key_rotator.Config.Load.{load_config}
use api_key_rotator.Profile.State.{Profile}
use api_key_rotator.Profile.Build.{build_profiles}
use api_key_rotator.Refresh.{Refresher}
use api_key_rotator.Refresh.WarmUp.{new_refresher}

-- The proxy of the transport: that of the environment, or a fixed one.
pub data Egress : Type 0 where
  from_environment : Egress
  through : Url → Egress

-- "socks5h" becomes "socks5".
abbrev pub known_scheme : Bytes → Bytes
known_scheme s = if bytes_eq s (codes "socks5h") then codes "socks5" else s

abbrev pub proxied : Option Url → Option Egress
proxied none = none
proxied (some u) = some (through (record u { scheme = known_scheme u.scheme }))

abbrev pub egress : Urls → Bytes → Option Egress
egress urls [] = some from_environment
egress urls (c ∷ s) = proxied (urls.parse (c ∷ s))

unfoldable pub build_transport : Urls → Config → Option Egress
build_transport urls cfg = egress urls cfg.upstream_proxy

pub record HttpServer : Type 0 where
  pub config : Config
  pub transport : Egress
  pub profiles : List Profile
  pub refreshers : List Refresher
  pub addr : Bytes

unfoldable pub build_server : Environment → Urls → Floats → Option HttpServer
unfolding load_config build_profiles build_transport new_refresher
build_server env urls fl = do
  cfg ← load_config env urls fl
  tr ← build_transport urls cfg
  some (record {
    config = cfg;
    transport = tr;
    profiles = build_profiles cfg;
    refreshers = map (new_refresher cfg.credit_refresh_sec) (build_profiles cfg);
    addr = cfg.host ++ codes ":" ++ cfg.port;
  })
