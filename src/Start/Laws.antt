-- ===== src/Start/Laws.antt =====
-- main.go and transport.go: when the server can be built.
use api_key_rotator.Base.{
  ◌≡◌, refl, sym, ap, ◌∙◌, subst, [], ◌∷◌, none, some, ◌>>=◌, bind-eq-some, some_inj, none≢some,
  Option-cases, inl, inr, ◌↔◌, arith,
}
use api_key_rotator.Base.Text.{Bytes, codes, trim_space}
use api_key_rotator.Urls.{Urls}
use api_key_rotator.Floats.{Floats}
use api_key_rotator.Config.{Environment}
use api_key_rotator.Config.State.{Config}
use api_key_rotator.Config.Load.{checked_proxy, load_config}
use api_key_rotator.Start.{
  Egress, from_environment, through, known_scheme, proxied, egress, build_transport, build_server,
}

checked_proxy-same : (urls : Urls) (s : Bytes) {t : Bytes} → checked_proxy urls s ≡ some t → s ≡ t
unfolding checked_proxy
checked_proxy-same urls [] e = ground arith
checked_proxy-same urls (c ∷ s) e =
    let (u, p, e1) = bind-eq-some (urls.parse (c ∷ s)) _ e in ground (arith, e1)

-- The proxy of a loaded configuration has passed the check.
load_config-checked_proxy :
    (env : Environment) (urls : Urls) (fl : Floats) {cfg : Config}
    → load_config env urls fl ≡ some cfg
    → checked_proxy urls (trim_space (env (codes "UPSTREAM_PROXY"))) ≡ some cfg.upstream_proxy
unfolding load_config
load_config-checked_proxy env urls fl {cfg} e =
    let (_, _, e1) = bind-eq-some _ _ e in
    let (_, _, e2) = bind-eq-some _ _ e1 in
    let (_, _, e3) = bind-eq-some _ _ e2 in
    let (_, _, e4) = bind-eq-some _ _ e3 in
    let (_, _, e5) = bind-eq-some _ _ e4 in
    let (_, _, e6) = bind-eq-some _ _ e5 in
    let (_, _, e7) = bind-eq-some _ _ e6 in
    let (_, _, e8) = bind-eq-some _ _ e7 in
    let (proxy, checked, e9) = bind-eq-some _ _ e8 in
    let (_, _, e10) = bind-eq-some _ _ e9 in
    let (_, _, e11) = bind-eq-some _ _ e10 in
    let (_, _, e12) = bind-eq-some _ _ e11 in
    let (_, _, e13) = bind-eq-some _ _ e12 in
    let (_, _, e14) = bind-eq-some _ _ e13 in
    let (_, _, e15) = bind-eq-some _ _ e14 in
    let (_, _, e16) = bind-eq-some _ _ e15 in
    let (_, _, e17) = bind-eq-some _ _ e16 in
    let (_, _, e18) = bind-eq-some _ _ e17 in
    let (_, _, e19) = bind-eq-some _ _ e18 in
    let (_, _, e20) = bind-eq-some _ _ e19 in
    checked ∙ ap (λ (c : Config). some c.upstream_proxy) (some_inj e20)

egress_checked :
    (urls : Urls) (s : Bytes) {t : Bytes}
    → checked_proxy urls s ≡ some t
    → (x : Egress) × (egress urls s ≡ some x)
unfolding checked_proxy
egress_checked urls [] e = (from_environment, refl)
egress_checked urls (c ∷ s) e =
    let (u, parsed, _) = bind-eq-some (urls.parse (c ∷ s)) _ e in
    (through (record u { scheme = known_scheme u.scheme }), ap proxied parsed)

load_config-build_transport :
    (env : Environment) (urls : Urls) (fl : Floats) {cfg : Config}
    → load_config env urls fl ≡ some cfg
    → (x : Egress) × (build_transport urls cfg ≡ some x)
unfolding build_transport
load_config-build_transport env urls fl {cfg} e =
    let checked = load_config-checked_proxy env urls fl e in
    let (x, h) = egress_checked urls (trim_space (env (codes "UPSTREAM_PROXY"))) checked in
    (x, subst (λ s. egress urls s ≡ some x) (checked_proxy-same urls _ checked) h)

-- buildServer fails exactly when LoadConfig does: a proxy that the configuration accepts is one that
-- buildTransport can use.
pub build_server-eq-none_iff :
    (env : Environment) (urls : Urls) (fl : Floats)
    → (build_server env urls fl ≡ none) ↔ (load_config env urls fl ≡ none)
unfolding build_server ◌>>=◌
build_server-eq-none_iff env urls fl = (to, (λ h. rw h refl))
  where
    to : build_server env urls fl ≡ none → load_config env urls fl ≡ none
    to e = elim (Option-cases (load_config env urls fl)) [
      | inl failed ↦ failed
      | inr (cfg, loaded) ↦
          let (x, made) = load_config-build_transport env urls fl loaded in
          absurd (none≢some (sym (rw (loaded, made) at e)))
    ]
