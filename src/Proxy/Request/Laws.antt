-- ===== src/Proxy/Request/Laws.antt =====
-- proxy.go: which credentials reach upstream.
use api_key_rotator.Base.{
  inl, inr, ap, ◌≡◌, refl, true, false, if◌then◌else◌, [], ◌∷◌, ◌++◌, arith, Bool-cases, ◌∙◌,
}
use api_key_rotator.Base.Text.{Bytes, codes, bytes_eq, bytes_eq_sound}
use api_key_rotator.Headers.{Header, header_values, canonical}
use api_key_rotator.Headers.Laws.{
  header_values-del, header_values-del_ne, header_values-set, header_values-set_ne,
}
use api_key_rotator.Profile.State.{Profile}
use api_key_rotator.Base.Text.{is_empty}
use api_key_rotator.Proxy.Request.{
  Request, is_hop_by_hop, drop_hop_by_hop, authorization, with_key, up_header, up_request,
}

pub header_values-drop_hop_by_hop :
    (name : Bytes) (h : Header)
    → is_hop_by_hop name ≡ false
    → header_values name (drop_hop_by_hop h) ≡ header_values name h
unfolding header_values drop_hop_by_hop
header_values-drop_hop_by_hop name [] k = refl
header_values-drop_hop_by_hop name ((n, vs) ∷ h) k = elim (Bool-cases (bytes_eq n name)) [
  | inl same ↦
      let at_name : n ≡ name = bytes_eq_sound n name same in
      ground (arith, header_values-drop_hop_by_hop name h k, ap is_hop_by_hop at_name)
  | inr other ↦ ground (arith, header_values-drop_hop_by_hop name h k)
]

pub header_values-drop_hop_by_hop_hop :
    (name : Bytes) (h : Header)
    → is_hop_by_hop name ≡ true
    → header_values name (drop_hop_by_hop h) ≡ []
unfolding header_values drop_hop_by_hop
header_values-drop_hop_by_hop_hop name [] k = refl
header_values-drop_hop_by_hop_hop name ((n, vs) ∷ h) k = elim (Bool-cases (bytes_eq n name)) [
  | inl same ↦
      let at_name : n ≡ name = bytes_eq_sound n name same in
      ground (arith, header_values-drop_hop_by_hop_hop name h k, ap is_hop_by_hop at_name)
  | inr other ↦ ground (arith, header_values-drop_hop_by_hop_hop name h k)
]

with_key-authorization :
    (p : Profile) (key : Bytes) (h : Header)
    → header_values authorization h ≡ []
    → header_values authorization (with_key p key h) ≡ (
        if is_empty p.auth_header
        then if is_empty p.auth_query_param then (codes "Bearer " ++ key) ∷ [] else []
        else if bytes_eq (canonical p.auth_header) authorization
        then key ∷ []
        else [])
unfolding with_key
with_key-authorization p key h none = elim (Bool-cases (is_empty p.auth_header)) [
  | inl bare ↦ elim (Bool-cases (is_empty p.auth_query_param)) [
    | inl bearer ↦ rw (bare, bearer) (header_values-set authorization (codes "Bearer " ++ key) h)
    | inr query ↦ rw (bare, query) none
  ]
  | inr named ↦ elim (Bool-cases (bytes_eq (canonical p.auth_header) authorization)) [
    | inl same ↦
        rw (named, same, bytes_eq_sound (canonical p.auth_header) authorization same)
          (header_values-set authorization key h)
    | inr other ↦
        rw (named, other)
          (header_values-set_ne authorization (canonical p.auth_header) key h other ∙ none)
  ]
]

-- No header whose name is hop-by-hop is sent to upstream.
pub up_request-hop_by_hop :
    (p : Profile) (key : Bytes) (req : Request) (stripped name : Bytes)
    → is_hop_by_hop name ≡ true
    → header_values name (up_request p key req stripped).header ≡ []
unfolding up_request up_header
up_request-hop_by_hop p key req stripped name k = header_values-drop_hop_by_hop_hop name _ k

authorization_reaches : is_hop_by_hop authorization ≡ false
unfolding is_hop_by_hop bytes_eq
authorization_reaches = refl

host-authorization : bytes_eq (codes "Host") authorization ≡ false
unfolding bytes_eq
host-authorization = refl

-- The values of Authorization that reach upstream: the Bearer token of the key when the profile has
-- no header and no query parameter of its own, the bare key when its own header is Authorization,
-- and else none; the values that the client sent never do.
pub up_request-authorization :
    (p : Profile) (key : Bytes) (req : Request) (stripped : Bytes)
    → header_values authorization (up_request p key req stripped).header ≡ (
        if is_empty p.auth_header
        then if is_empty p.auth_query_param then (codes "Bearer " ++ key) ∷ [] else []
        else if bytes_eq (canonical p.auth_header) authorization
        then key ∷ []
        else [])
unfolding up_request up_header with_key
up_request-authorization p key req stripped =
    header_values-drop_hop_by_hop authorization _ authorization_reaches
    ∙ with_key-authorization p key _ (
        header_values-del_ne authorization (codes "Host") _ host-authorization
        ∙ header_values-del authorization _)

-- When the profile names a header of its own that is not hop-by-hop, the only value of it that
-- reaches upstream is the key.
pub up_request-auth_header :
    (p : Profile) (key : Bytes) (req : Request) (stripped : Bytes)
    → is_empty p.auth_header ≡ false
    → is_hop_by_hop (canonical p.auth_header) ≡ false
    → header_values (canonical p.auth_header) (up_request p key req stripped).header ≡ key ∷ []
unfolding up_request up_header with_key
up_request-auth_header p key req stripped named k =
    header_values-drop_hop_by_hop (canonical p.auth_header) _ k
    ∙ rw named (header_values-set (canonical p.auth_header) key _)
