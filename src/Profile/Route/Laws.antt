-- ===== src/Profile/Route/Laws.antt =====
-- profile.go: which profile serves a path, and what is forwarded.
use api_key_rotator.Base.{
  ◌≡◌, ◌≢◌, refl, ◌∙◌, ap, ◌⊎◌, ◌↔◌, inl, inr, Bool, true, false, not, ◌&&◌, ◌||◌, List, [], ◌∷◌,
  ◌++◌, Option, none, some, arith, if◌then◌else◌, length, drop, drop-append, All, Bool-cases,
}
use mathlib.Core.List.{append_assoc}
use api_key_rotator.Base.Text.{Bytes, bytes_eq, has_prefix, bytes_eq_sound, has_prefix_sound}
use api_key_rotator.Profile.State.{firecrawl, Profile}
use api_key_rotator.Profile.Route.{is_firecrawl, fallback, match_from, match_profile}
use api_key_rotator.Base.Text.{is_empty, slash}

-- The path is the route prefix of the profile, or goes on behind it with a slash.
abbrev pub claims : Bytes → Profile → Bool
claims path p =
    not (is_empty p.route_prefix)
    && (bytes_eq path p.route_prefix || has_prefix path (p.route_prefix ++ slash))

abbrev pub Unclaimed : Bytes → List Profile → Type 0
Unclaimed path ps = All (λ p. claims path p ≡ false) ps

-- The path `path` is served by `p` under its prefix, and `q` is forwarded.
abbrev pub ByPrefix : Bytes → Profile → Bytes → Type 0
ByPrefix path p q =
    ((path ≡ p.route_prefix) × (q ≡ (if p.keep_prefix then path else slash)))
    ⊎ ((rest : Bytes) × (path ≡ p.route_prefix ++ b'/' ∷ rest)
        × (q ≡ (if p.keep_prefix then path else b'/' ∷ rest)))

-- No profile claims the path, and `p` takes it as it is: a profile with no prefix, or Firecrawl by
-- the legacy fallback.
abbrev pub ByFallback : Bytes → Bool → Profile → Bytes → Type 0
ByFallback path legacy p q =
    (q ≡ path) × ((p.route_prefix ≡ []) ⊎ ((legacy ≡ true) × (p.name ≡ firecrawl)))

is_empty_sound : (x : Bytes) → is_empty x ≡ true → x ≡ []
is_empty_sound [] h = refl
is_empty_sound (a ∷ x) h = cc

is_empty_nonempty : (x : Bytes) → is_empty x ≡ false → x ≢ []
is_empty_nonempty [] h = cc
is_empty_nonempty (a ∷ x) h = λ e. cc

split_slash :
    (path prefix : Bytes)
    → has_prefix path (prefix ++ slash) ≡ true
    → (rest : Bytes) × (path ≡ prefix ++ b'/' ∷ rest) × (drop (length prefix) path ≡ b'/' ∷ rest)
split_slash path prefix h =
    let rest = drop (length (prefix ++ slash)) path in
    let whole = has_prefix_sound path (prefix ++ slash) h ∙ append_assoc prefix slash rest in
    (rest, whole, ap (drop (length prefix)) whole ∙ drop-append prefix (b'/' ∷ rest))

matched_here :
    (path : Bytes) (legacy : Bool) (p : Profile) (ps : List Profile) (d fc : Option Profile)
    → claims path p ≡ true
    → (q : Bytes) × (match_from (p ∷ ps) path legacy d fc ≡ some (p, q)) × ByPrefix path p q
unfolding match_from
matched_here path legacy p ps d fc h = elim (Bool-cases (bytes_eq path p.route_prefix)) [
  | inl same ↦ (
    if p.keep_prefix then path else slash,
    ground arith,
    inl (bytes_eq_sound path p.route_prefix same, refl),
  )
  | inr other ↦
      let (rest, whole, tail) = split_slash path p.route_prefix (ground arith) in
      (if p.keep_prefix then path else b'/' ∷ rest, ground arith, inr (rest, whole, refl))
]

-- A profile that claims no path leaves a mark at most.
passed :
    (path : Bytes) (legacy : Bool) (p : Profile) (ps : List Profile) (d fc : Option Profile)
    → claims path p ≡ false
    → ((p.route_prefix ≡ [])
        × (match_from (p ∷ ps) path legacy d fc ≡ match_from ps path legacy (some p) fc))
      ⊎ ((p.route_prefix ≢ [])
          × (match_from (p ∷ ps) path legacy d fc
              ≡ match_from ps path legacy d (if is_firecrawl p.name then some p else fc)))
unfolding match_from
passed path legacy p ps d fc h = elim (Bool-cases (is_empty p.route_prefix)) [
  | inl none' ↦ inl (is_empty_sound p.route_prefix none', ground arith)
  | inr some' ↦ inr ((λ e. is_empty_nonempty p.route_prefix some' e), ground arith)
]

-- The variables `def` and `firecrawl` after the loop.
abbrev pub last_default : Option Profile → List Profile → Option Profile
last_default d [] = d
last_default d (p ∷ ps) = last_default (if is_empty p.route_prefix then some p else d) ps

abbrev pub last_firecrawl : Option Profile → List Profile → Option Profile
last_firecrawl fc [] = fc
last_firecrawl fc (p ∷ ps) =
    last_firecrawl
      (if is_empty p.route_prefix then fc else if is_firecrawl p.name then some p else fc) ps

pub match_from-Unclaimed :
    (path : Bytes) (legacy : Bool) (ps : List Profile) (d fc : Option Profile)
    → Unclaimed path ps
    → match_from ps path legacy d fc
      ≡ fallback path legacy (last_default d ps) (last_firecrawl fc ps)
unfolding match_from
match_from-Unclaimed path legacy [] d fc u = refl
match_from-Unclaimed path legacy (p ∷ ps) d fc u = ground (
  arith,
  match_from-Unclaimed path legacy ps (some p) fc u.1,
  match_from-Unclaimed path legacy ps d (if is_firecrawl p.name then some p else fc) u.1,
)

match_from_first :
    (path : Bytes) (legacy : Bool) (ps : List Profile) (p : Profile) (qs : List Profile)
    (d fc : Option Profile)
    → Unclaimed path ps
    → claims path p ≡ true
    → (q : Bytes) × (match_from (ps ++ p ∷ qs) path legacy d fc ≡ some (p, q)) × ByPrefix path p q
match_from_first path legacy [] p qs d fc u h = matched_here path legacy p qs d fc h
match_from_first path legacy (o ∷ ps) p qs d fc u h =
    elim (passed path legacy o (ps ++ p ∷ qs) d fc u.0) [
      | inl (_, e) ↦ rw e (match_from_first path legacy ps p qs (some o) fc u.1 h)
      | inr (_, e) ↦ rw e (match_from_first path legacy ps p qs d _ u.1 h)
    ]

-- The first profile that claims a path serves it, whatever profiles follow: with its prefix cut
-- off, unless it keeps it.
pub match_profile_first :
    (path : Bytes) (legacy : Bool) (ps : List Profile) (p : Profile) (qs : List Profile)
    → Unclaimed path ps
    → claims path p ≡ true
    → (q : Bytes) × (match_profile (ps ++ p ∷ qs) path legacy ≡ some (p, q)) × ByPrefix path p q
unfolding match_profile
match_profile_first path legacy ps p qs u h = match_from_first path legacy ps p qs none none u h

default_empty :
    (ps : List Profile) (d : Option Profile) {p : Profile}
    → last_default d ps ≡ some p
    → (d ≡ some p) ⊎ (p.route_prefix ≡ [])
default_empty [] d e = inl e
default_empty (o ∷ ps) d {p} e = ground (
  arith,
  default_empty ps (if is_empty o.route_prefix then some o else d) {p = p} e,
  is_empty_sound o.route_prefix,
)

firecrawl_named :
    (ps : List Profile) (fc : Option Profile) {p : Profile}
    → last_firecrawl fc ps ≡ some p
    → (fc ≡ some p) ⊎ (p.name ≡ firecrawl)
firecrawl_named [] fc e = inl e
firecrawl_named (o ∷ ps) fc {p} e = ground (
  arith,
  firecrawl_named ps
      (if is_empty o.route_prefix then fc else if is_firecrawl o.name then some o else fc) {p = p}
      e,
)

-- A path that no profile claims is forwarded as it is, or not at all: to a profile with no prefix
-- or, by the legacy fallback, to Firecrawl.
pub match_profile-Unclaimed :
    (path : Bytes) (legacy : Bool) (ps : List Profile) (p : Profile) (q : Bytes)
    → Unclaimed path ps
    → match_profile ps path legacy ≡ some (p, q)
    → ByFallback path legacy p q
unfolding match_profile
match_profile-Unclaimed path legacy ps p q u e = ground (
  arith,
  match_from-Unclaimed path legacy ps none none u,
  default_empty ps none {p = p},
  firecrawl_named ps none {p = p},
)

last_default-none :
    (ps : List Profile) (d : Option Profile)
    → last_default d ps ≡ none
    → (d ≡ none) × All (λ p. is_empty p.route_prefix ≡ false) ps
last_default-none [] d e = (e, tt)
last_default-none (o ∷ ps) d e =
    ground (arith, last_default-none ps (if is_empty o.route_prefix then some o else d) e)

pub last_default_prefixed :
    (ps : List Profile) (d : Option Profile)
    → All (λ p. is_empty p.route_prefix ≡ false) ps
    → last_default d ps ≡ d
last_default_prefixed [] d h = refl
last_default_prefixed (o ∷ ps) d h = rw h.0 (last_default_prefixed ps d h.1)

last_firecrawl-none_iff :
    (ps : List Profile) (fc : Option Profile)
    → All (λ p. is_empty p.route_prefix ≡ false) ps
    → (last_firecrawl fc ps ≡ none) ↔ ((fc ≡ none) × All (λ p. is_firecrawl p.name ≡ false) ps)
last_firecrawl-none_iff [] fc h = (λ e. (e, tt), λ h. h.0)
last_firecrawl-none_iff (o ∷ ps) fc h =
    rw h.0
      (ground (arith, last_firecrawl-none_iff ps (if is_firecrawl o.name then some o else fc) h.1))

fallback-eq-none_iff :
    (path : Bytes) (legacy : Bool) (d fc : Option Profile)
    → (fallback path legacy d fc ≡ none) ↔ ((d ≡ none) × ((legacy ≡ false) ⊎ (fc ≡ none)))
fallback-eq-none_iff path legacy none none = ground arith
fallback-eq-none_iff path legacy none (some p) = ground arith
fallback-eq-none_iff path legacy (some d) fc = ground arith

-- A path that no profile claims gets the 404 exactly when no profile is without a prefix, and the
-- fallback is off or Firecrawl is not there.
pub match_profile-eq-none_iff :
    (path : Bytes) (legacy : Bool) (ps : List Profile)
    → Unclaimed path ps
    → (match_profile ps path legacy ≡ none) ↔ (
        All (λ p. is_empty p.route_prefix ≡ false) ps
        × ((legacy ≡ false) ⊎ All (λ p. is_firecrawl p.name ≡ false) ps))
unfolding match_profile
match_profile-eq-none_iff path legacy ps u =
    rw (match_from-Unclaimed path legacy ps none none u) (to, from)
  where
    to :
        fallback path legacy (last_default none ps) (last_firecrawl none ps) ≡ none
        → All (λ p. is_empty p.route_prefix ≡ false) ps
          × ((legacy ≡ false) ⊎ All (λ p. is_firecrawl p.name ≡ false) ps)
    to e =
        let (d, off) = (fallback-eq-none_iff path legacy _ _).0 e in
        let (_, prefixed) = last_default-none ps none d in
        (prefixed, ground (arith, off, (last_firecrawl-none_iff ps none prefixed).0))

    from :
        All (λ p. is_empty p.route_prefix ≡ false) ps
          × ((legacy ≡ false) ⊎ All (λ p. is_firecrawl p.name ≡ false) ps)
        → fallback path legacy (last_default none ps) (last_firecrawl none ps) ≡ none
    from (prefixed, off) = (fallback-eq-none_iff path legacy _ _).1 (
      last_default_prefixed ps none prefixed,
      ground (arith, off, (last_firecrawl-none_iff ps none prefixed).1),
    )
