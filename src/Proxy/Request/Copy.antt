-- ===== src/Proxy/Request/Copy.antt =====
-- proxy.go: what copyHeaders makes of the values of a name, and which headers of the client reach
-- upstream.
use api_key_rotator.Base.{
  ◌≡◌, refl, sym, ap, ◌∙◌, true, false, List, [], ◌∷◌, ◌++◌, arith, false≢true, subst, Bool-cases,
  inl, inr, if◌then◌else◌,
}
use mathlib.Core.List.{append_assoc, append-nil}
use api_key_rotator.Base.Text.{Bytes, bytes_eq, bytes_eq_sound, bytes_eq_refl}
use api_key_rotator.Headers.{Header, header_values, header_add}
use api_key_rotator.Headers.{canonical}
use api_key_rotator.Headers.Laws.{header_values-set_ne, header_values-del_ne}
use api_key_rotator.Base.Text.{codes, is_empty}
use api_key_rotator.Profile.State.{Profile}
use api_key_rotator.Proxy.Request.{
  add_values, copy_headers, Request, is_hop_by_hop, drop_hop_by_hop, authorization, with_key,
  up_header, up_request,
}
use api_key_rotator.Proxy.Request.Laws.{
  header_values-drop_hop_by_hop, header_values-drop_hop_by_hop_hop,
}

-- At most one entry has the name, as in a map of Go.
abbrev pub Once : Bytes → Header → Type 0
Once name [] = Unit
Once name ((k, vs) ∷ h) = (bytes_eq k name ≡ true → header_values name h ≡ []) × Once name h

header_values-add_ne :
    (name k v : Bytes) (h : Header)
    → bytes_eq k name ≡ false
    → header_values name (header_add k v h) ≡ header_values name h
unfolding header_values header_add
header_values-add_ne name k v [] n = ground (arith, n)
header_values-add_ne name k v ((l, vs) ∷ h) n = elim (Bool-cases (bytes_eq l k)) [
  | inl same ↦
      let at : l ≡ k = bytes_eq_sound l k same in
      let apart : bytes_eq l name ≡ false = ap (λ x. bytes_eq x name) at ∙ n in
      rw (same, apart) refl
  | inr other ↦ ground (arith, other, header_values-add_ne name k v h n)
]

Once-add_ne :
    (name k v : Bytes) (h : Header)
    → bytes_eq k name ≡ false
    → Once name h
    → Once name (header_add k v h)
unfolding header_values header_add
Once-add_ne name k v [] n o = ((λ e. refl), tt)
Once-add_ne name k v ((l, vs) ∷ h) n o = elim (Bool-cases (bytes_eq l k)) [
  | inl same ↦ rw same o
  | inr other ↦
      rw other ((λ e. header_values-add_ne name k v h n ∙ o.0 e), Once-add_ne name k v h n o.1)
]

header_values-add :
    (name v : Bytes) (h : Header)
    → Once name h
    → header_values name (header_add name v h) ≡ header_values name h ++ v ∷ []
unfolding header_values header_add
header_values-add name v [] o = rw (bytes_eq_refl name) refl
header_values-add name v ((k, vs) ∷ h) o = elim (Bool-cases (bytes_eq k name)) [
  | inl same ↦
      rw (same, o.0 same)
        (rw same (append-nil (vs ++ v ∷ []) ∙ ap (λ ws. ws ++ v ∷ []) (sym (append-nil vs))))
  | inr other ↦ rw other (rw other (header_values-add name v h o.1))
]

Once-add : (name v : Bytes) (h : Header) → Once name h → Once name (header_add name v h)
unfolding header_values header_add
Once-add name v [] o = ((λ e. refl), tt)
Once-add name v ((k, vs) ∷ h) o = elim (Bool-cases (bytes_eq k name)) [
  | inl same ↦ rw same ((λ e. o.0 same), o.1)
  | inr other ↦ rw other ((λ e. absurd (false≢true (sym other ∙ e))), Once-add name v h o.1)
]

header_values-add_values_ne :
    (name k : Bytes) (vs : List Bytes) (h : Header)
    → bytes_eq k name ≡ false
    → Once name h
    → (header_values name (add_values k vs h) ≡ header_values name h)
      × Once name (add_values k vs h)
unfolding add_values
header_values-add_values_ne name k [] h n o = (refl, o)
header_values-add_values_ne name k (v ∷ vs) h n o =
    let (e, o') =
      header_values-add_values_ne name k vs (header_add k v h) n (Once-add_ne name k v h n o) in
    (e ∙ header_values-add_ne name k v h n, o')

abbrev Added : Bytes → List Bytes → Header → Bytes → Type 0
Added name vs h k =
    (header_values name (add_values k vs h) ≡ header_values name h ++ vs)
    × Once name (add_values k vs h)

header_values-add_values :
    (name : Bytes) (vs : List Bytes) (h : Header) → Once name h → Added name vs h name
unfolding add_values
header_values-add_values name [] h o = (sym (append-nil (header_values name h)), o)
header_values-add_values name (v ∷ vs) h o =
    let (e, o') = header_values-add_values name vs (header_add name v h) (Once-add name v h o) in
    (
      e
          ∙ (ap (λ ws. ws ++ vs) (header_values-add name v h o)
              ∙ append_assoc (header_values name h) (v ∷ []) vs),
      o',
    )

-- The values of a name are those that were there, and those of the source behind them.
header_values-copy_headers_from :
    (name : Bytes) (dst src : Header)
    → Once name dst
    → header_values name (copy_headers dst src) ≡ header_values name dst ++ header_values name src
unfolding copy_headers header_values
header_values-copy_headers_from name dst [] o = sym (append-nil (header_values name dst))
header_values-copy_headers_from name dst ((k, vs) ∷ src) o = elim (Bool-cases (bytes_eq k name)) [
  | inl same ↦
      let at : name ≡ k = sym (bytes_eq_sound k name same) in
      let (e, o') = subst (Added name vs dst) at (header_values-add_values name vs dst o) in
      rw same (
        header_values-copy_headers_from name (add_values k vs dst) src o'
        ∙ (ap (λ ws. ws ++ header_values name src) e
            ∙ append_assoc (header_values name dst) vs (header_values name src)))
  | inr other ↦
      let (e, o') = header_values-add_values_ne name k vs dst other o in
      rw other (
        header_values-copy_headers_from name (add_values k vs dst) src o'
        ∙ ap (λ ws. ws ++ header_values name src) e)
]

pub header_values-copy_headers :
    (name : Bytes) (src : Header)
    → header_values name (copy_headers [] src) ≡ header_values name src
unfolding header_values
header_values-copy_headers name src = header_values-copy_headers_from name [] src tt

pub header_values-drop_if :
    (name : Bytes) (h : Header)
    → header_values name (drop_hop_by_hop h)
      ≡ (if is_hop_by_hop name then [] else header_values name h)
header_values-drop_if name h = elim (Bool-cases (is_hop_by_hop name)) [
  | inl hop ↦ rw hop (header_values-drop_hop_by_hop_hop name h hop)
  | inr kept ↦ rw kept (header_values-drop_hop_by_hop name h kept)
]

with_key_passes :
    (p : Profile) (key name : Bytes) (h : Header)
    → bytes_eq authorization name ≡ false
    → bytes_eq (canonical p.auth_header) name ≡ false
    → header_values name (with_key p key h) ≡ header_values name h
unfolding with_key
with_key_passes p key name h a own = elim (Bool-cases (is_empty p.auth_header)) [
  | inl bare ↦ elim (Bool-cases (is_empty p.auth_query_param)) [
    | inl bearer ↦ rw (bare, bearer) (header_values-set_ne name authorization _ h a)
    | inr query ↦ rw (bare, query) refl
  ]
  | inr named ↦ rw named (header_values-set_ne name (canonical p.auth_header) key h own)
]

-- No hop-by-hop header of the client reaches upstream, and every other header does with the values
-- that the client sent, in their order, unless it is Authorization, Host or the header that the
-- profile puts its key in.
pub up_request-header_values :
    (p : Profile) (key : Bytes) (req : Request) (stripped name : Bytes)
    → bytes_eq authorization name ≡ false
    → bytes_eq (codes "Host") name ≡ false
    → bytes_eq (canonical p.auth_header) name ≡ false
    → header_values name (up_request p key req stripped).header
      ≡ (if is_hop_by_hop name then [] else header_values name req.header)
unfolding up_request up_header
up_request-header_values p key req stripped name a host own =
    header_values-drop_if name _
    ∙ ap (λ vs. if is_hop_by_hop name then [] else vs)
        (with_key_passes p key name _ a own
          ∙ (header_values-del_ne name (codes "Host") _ host
              ∙ (header_values-del_ne name authorization _ a
                  ∙ header_values-copy_headers name req.header)))
