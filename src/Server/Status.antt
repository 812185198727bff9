-- ===== src/Server/Status.antt =====
-- server.go and profile.go: /status shows every profile.
use api_key_rotator.Base.{
  ℕ, zero, suc, ◌<◌, ◌≤◌, ◌≡◌, refl, ◌∙◌, sym, List, [], ◌∷◌, ◌++◌, some, arith, if◌then◌else◌,
  ◌==◌, get_elem?, map, subst, some_inj,
}
use api_key_rotator.Base.Text.{Bytes}
use api_key_rotator.Config.State.{Config}
use api_key_rotator.Pool.Snapshot.{PoolSnapshot, snapshot}
use api_key_rotator.Profile.State.{ProviderName, Profile}
use api_key_rotator.Profile.Build.{
  firecrawl_profile, tavily_profile, exa_profile, apify_profile, finance_profile, with_keys,
  other_profiles, build_profiles,
}
use api_key_rotator.Server.{
  order, Snaps, put, lookup, status_from, status, status_handler, write_json,
}

abbrev pub names : List Profile → List ProviderName
names = map (λ p. p.name)

-- The names come in the order of the source, each once, behind that of `k`.
abbrev Ordered : ℕ → List ProviderName → Type 0
Ordered k [] = Unit
Ordered k (n ∷ ns) = (k < order n) × Ordered (order n) ns

Ordered-le : (k m : ℕ) (ns : List ProviderName) → k < m → Ordered m ns → Ordered k ns
Ordered-le k m [] h o = tt
Ordered-le k m (n ∷ ns) h o = (omega (arith, h, o.0), o.1)

Ordered-append :
    (k : ℕ) (ks : List Bytes) (p : Profile) (ps : List Profile)
    → k < order p.name
    → Ordered (order p.name) (names ps)
    → Ordered k (names (with_keys ks p ++ ps))
Ordered-append k [] p ps h o = Ordered-le k (order p.name) (names ps) h o
Ordered-append k (key ∷ ks) p ps h o = (h, o)

Ordered-with_keys :
    (k : ℕ) (ks : List Bytes) (p : Profile) → k < order p.name → Ordered k (names (with_keys ks p))
Ordered-with_keys k [] p h = tt
Ordered-with_keys k (key ∷ ks) p h = (h, tt)

Ordered-other_profiles : (cfg : Config) → Ordered 1 (names (other_profiles cfg))
unfolding order other_profiles tavily_profile exa_profile apify_profile finance_profile
Ordered-other_profiles cfg = Ordered-append 1 cfg.tavily.api_keys _ _ (omega arith) (
    Ordered-append 2 cfg.exa.api_keys _ _ (omega arith) (
      Ordered-append 3 cfg.apify.api_keys _ _ (omega arith) (
        Ordered-append 4 cfg.fmp.api_keys _ _ (omega arith) (
          Ordered-append 5 cfg.alpha_vantage.api_keys _ _ (omega arith)
            (Ordered-with_keys 6 cfg.marketaux.api_keys _ (omega arith))))))

lookup-put :
    (name n : ProviderName) (snap : PoolSnapshot) (snaps : Snaps)
    → lookup n (put name snap snaps) ≡ (if order name == order n then some snap else lookup n snaps)
unfolding lookup put
lookup-put name n snap [] = refl
lookup-put name n snap ((m, s) ∷ snaps) = ground (arith, lookup-put name n snap snaps)

-- The profiles behind `k` leave the entry of a name up to `k` alone.
status_from-keeps :
    (k : ℕ) (ps : List Profile) (n : ProviderName) (snaps : Snaps)
    → Ordered k (names ps)
    → order n ≤ k
    → lookup n (status_from ps snaps) ≡ lookup n snaps
unfolding status_from
status_from-keeps k [] n snaps o h = refl
status_from-keeps k (p ∷ ps) n snaps o h =
    status_from-keeps (order p.name) ps n (put p.name (snapshot p.pool) snaps) o.1
      (omega (arith, o.0, h))
    ∙ lookup-put p.name n (snapshot p.pool) snaps
    ∙ ground (arith, o.0, h)

status_from-shows :
    (k : ℕ) (ps : List Profile) (snaps : Snaps) (i : ℕ) {p : Profile}
    → Ordered k (names ps)
    → get_elem? ps i ≡ some p
    → lookup p.name (status_from ps snaps) ≡ some (snapshot p.pool)
unfolding status_from
status_from-shows k [] snaps i o e = cc
status_from-shows k (q ∷ ps) snaps zero {p} o e =
    subst (λ r. lookup r.name (status_from (q ∷ ps) snaps) ≡ some (snapshot r.pool)) (some_inj e)
      (status_from-keeps (order q.name) ps q.name (put q.name (snapshot q.pool) snaps) o.1
          (omega arith)
        ∙ lookup-put q.name q.name (snapshot q.pool) snaps
        ∙ ground arith)
status_from-shows k (q ∷ ps) snaps (suc i) o e =
    status_from-shows (order q.name) ps (put q.name (snapshot q.pool) snaps) i o.1 e

Ordered-build_profiles : (cfg : Config) → Ordered 0 (names (build_profiles cfg))
unfolding build_profiles firecrawl_profile order
Ordered-build_profiles cfg = (omega arith, Ordered-other_profiles cfg)

-- The answer of /status has status 200 and shows the snapshot of each profile under its name, and none
-- is overwritten, for profiles with the names that buildProfiles gives, whatever their pools have
-- become since.
pub status-shows :
    (cfg : Config) (ps : List Profile) (i : ℕ) {p : Profile}
    → names ps ≡ names (build_profiles cfg)
    → get_elem? ps i ≡ some p
    → ((status_handler ps).status ≡ 200)
      × (lookup p.name (status_handler ps).body ≡ some (snapshot p.pool))
unfolding status_handler status write_json
status-shows cfg ps i same e = (
  refl,
  status_from-shows 0 ps [] i (subst (Ordered 0) (sym same) (Ordered-build_profiles cfg)) e,
)
