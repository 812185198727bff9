-- ===== src/Rewrite/Laws.antt =====
-- rewrite.go: which strings of a body are rewritten.
use api_key_rotator.Base.{
  ◌≡◌, refl, subst, sym, ap, ◌∙◌, Bool, true, false, ◌||◌, List, Option, none, some, arith,
  if◌then◌else◌, inl, inr, ◌>>=◌, ◌⊎◌, bind-eq-some, Option-cases, some_inj,
}
use mathlib.Core.Option
use api_key_rotator.Base.Text.{Bytes, bytes_eq, is_empty}
use api_key_rotator.Urls.{Url, Urls, is_http}
use api_key_rotator.Json.Any.{
  Any, null_any, bool_any, float64, text, slice, dict, Elements, no_elements, element, Entries,
  no_entries, entry,
}
use api_key_rotator.Rewrite.Paths.{Step, at, ends_in_next, member, at-rewrite_value}
use api_key_rotator.Rewrite.{
  moved, rewrite_one, is_next, replaced, rewrite_text, rewrite_value, rewrite_elements,
  rewrite_entries,
}

or-eq-false : (a b : Bool) → (a || b) ≡ false → (a ≡ false) × (b ≡ false)
or-eq-false false b h = (refl, h)
or-eq-false true b h = cc

-- A member that has not changed is what the walk made of it.
member_walk :
    (b : Bool) (o : Option Bytes) (w : Any × Bool)
    → (if b then replaced o w else w).1 ≡ false
    → (if b then replaced o w else w) ≡ w
member_walk false o w h = refl
member_walk true none w h = refl
member_walk true (some s) w h = cc

-- A walk that says it has changed nothing gives the same value back.
mutual
  unfolding rewrite_value

  value_same :
      (one : Bytes → Option Bytes) (v : Any)
      → (rewrite_value one v).1 ≡ false
      → (rewrite_value one v).0 ≡ v
  value_same one null_any h = refl
  value_same one (bool_any b) h = refl
  value_same one (float64 f) h = refl
  value_same one (text s) h = refl
  value_same one (slice es) h = ap slice (elements_same one es h)
  value_same one (dict es) h = ap dict (entries_same one es h)

  elements_same :
      (one : Bytes → Option Bytes) (es : Elements)
      → (rewrite_elements one es).1 ≡ false
      → (rewrite_elements one es).0 ≡ es
  elements_same one no_elements h = refl
  elements_same one (element v es) h =
      let (c, d) = or-eq-false (rewrite_value one v).1 (rewrite_elements one es).1 h in
      let a = value_same one v c in let b = elements_same one es d in cc

  entries_same :
      (one : Bytes → Option Bytes) (es : Entries)
      → (rewrite_entries one es).1 ≡ false
      → (rewrite_entries one es).0 ≡ es
  entries_same one no_entries h = refl
  entries_same one (entry k v es) h =
      let (c, d) = or-eq-false (member one (is_next k) v).1 (rewrite_entries one es).1 h in
      let m = member_walk (is_next k) (rewrite_text one v) (rewrite_value one v) c in
      let a = value_same one v (ap (λ w. w.1) (sym m) ∙ c) in let b = entries_same one es d in cc

-- When rewriteNextInValue reports no change, the value is as it was, so that the body may be passed
-- on without being printed again.
pub rewrite_value_unchanged :
    (one : Bytes → Option Bytes) (v : Any)
    → (rewrite_value one v).1 ≡ false
    → (rewrite_value one v).0 ≡ v
rewrite_value_unchanged one v h = value_same one v h

moved-eq-some :
    (urls : Urls) (u b : Url) {t : Bytes}
    → moved urls u (some b) ≡ some t
    → t ≡ urls.print (record u { scheme = b.scheme; host = b.host })
unfolding moved
moved-eq-some urls u b e = ground arith

-- A URL that rewriteOne gives is one of the proxy.
rewrite_one-eq-some :
    (urls : Urls) (proxy_base upstream_host s : Bytes) (b : Url) {t : Bytes}
    → urls.parse proxy_base ≡ some b
    → rewrite_one urls proxy_base upstream_host s ≡ some t
    → (u : Url) × (t ≡ urls.print u) × (u.host ≡ b.host)
unfolding rewrite_one
rewrite_one-eq-some urls proxy_base upstream_host s b {t} base e =
    let (u, _, e1) = bind-eq-some (urls.parse s) _ e in
    let onward : moved urls u (some b) ≡ some t = ground (arith, e1, base) in
    (record u { scheme = b.scheme; host = b.host }, moved-eq-some urls u b onward, refl)

rewrite_one-eq-none :
    (urls : Urls) (proxy_base upstream_host t : Bytes) (u b : Url)
    → urls.parse proxy_base ≡ some b
    → is_empty b.host ≡ false
    → urls.parse t ≡ some u
    → is_http u ≡ true
    → rewrite_one urls proxy_base upstream_host t ≡ none
    → bytes_eq u.host upstream_host ≡ false
unfolding rewrite_one moved ◌>>=◌
rewrite_one-eq-none urls proxy_base upstream_host t u b base full parsed http e =
    let tested = rw (parsed, base) at e in ground (arith, tested, full, http)

text_inj : {s t : Bytes} → text s ≡ text t → s ≡ t
text_inj e = cc

-- A member of the rewritten value that is a string under "next".
member_text :
    (one : Bytes → Option Bytes) (u : Any) {t : Bytes}
    → (member one true u).0 ≡ text t
    → (one t ≡ none) ⊎ ((s : Bytes) × (one s ≡ some t))
unfolding rewrite_value
member_text one (text s) {t} e = elim (Option-cases (one s)) [
  | inl kept ↦ inl (rw (text_inj (rw kept at e)) at kept)
  | inr (t', to) ↦ inr (s, to ∙ ap some (text_inj (rw to at e)))
]
member_text one null_any e = cc
member_text one (bool_any b) e = cc
member_text one (float64 f) e = cc
member_text one (slice es) e = cc
member_text one (dict es) e = cc

map-eq-some {ℓ κ} :
    {A : Type ℓ} {B : Type κ} (f : A → B) (o : Option A) {b : B}
    → Option.map f o ≡ some b
    → (a : A) × (f a ≡ b)
map-eq-some f none e = cc
map-eq-some f (some a) e = (a, some_inj e)

-- In the rewritten value no string under a key "next" is an absolute URL of the upstream: when the
-- base is a URL with a host, other than that of the upstream, and a printed URL is read back with
-- its host.
pub rewrite_value_moves :
    (urls : Urls) (proxy_base upstream_host : Bytes) (b u : Url) (v : Any) (path : List Step)
    (t : Bytes)
    → ((x y : Url) → urls.parse (urls.print x) ≡ some y → y.host ≡ x.host)
    → urls.parse proxy_base ≡ some b
    → is_empty b.host ≡ false
    → bytes_eq b.host upstream_host ≡ false
    → ends_in_next false path ≡ true
    → at path (rewrite_value (rewrite_one urls proxy_base upstream_host) v).0 ≡ some (text t)
    → urls.parse t ≡ some u
    → is_http u ≡ true
    → bytes_eq u.host upstream_host ≡ false
rewrite_value_moves urls proxy_base upstream_host b u v path t back base full apart ends here parsed
      http =
    let one = rewrite_one urls proxy_base upstream_host in
    let (w, e) = map-eq-some _ _ (sym (at-rewrite_value one path v) ∙ here) in
    elim (member_text one w (subst (λ c. (member one c w).0 ≡ text t) ends e)) [
      | inl kept ↦
          rewrite_one-eq-none urls proxy_base upstream_host t u b base full parsed http kept
      | inr (s, to) ↦
          let (x, printed, host) = rewrite_one-eq-some urls proxy_base upstream_host s b base to in
          let same = back x u (ap urls.parse (sym printed) ∙ parsed) in
          ap (λ h. bytes_eq h upstream_host) (same ∙ host) ∙ apart
    ]
