-- ===== src/Headers.antt =====
-- Package net/http: the type Header, as far as the source uses it. Names are canonical, as the
-- server and the client of net/http give them; the source's own names are made so.
pub mod Laws
use api_key_rotator.Base.{
  ℕ, ◌-◌, Bool, true, false, ◌&&◌, ◌||◌, List, [], ◌∷◌, ◌++◌, leb, ◌==◌, if◌then◌else◌,
}
use api_key_rotator.Base.Text.{Bytes, codes, bytes_eq, to_lower}

-- The nil header has no names.
abbrev pub Header : Type 0
Header = List (Bytes × List Bytes)

abbrev pub first_value : List Bytes → Bytes
first_value [] = []
first_value (v ∷ vs) = v

-- Header.Get
unfoldable pub header_get : Bytes → Header → Bytes
header_get name [] = []
header_get name ((k, vs) ∷ h) = if bytes_eq k name then first_value vs else header_get name h

-- Header.Values: all the values of a name.
unfoldable pub header_values : Bytes → Header → List Bytes
header_values name [] = []
header_values name ((k, vs) ∷ h) =
    if bytes_eq k name then vs ++ header_values name h else header_values name h

-- Header.Del
unfoldable pub header_del : Bytes → Header → Header
header_del name [] = []
header_del name ((k, vs) ∷ h) =
    let rest = header_del name h in if bytes_eq k name then rest else (k, vs) ∷ rest

-- Header.Set
unfoldable pub header_set : Bytes → Bytes → Header → Header
unfolding header_del
header_set name value h = (name, value ∷ []) ∷ header_del name h

-- Header.Add
unfoldable pub header_add : Bytes → Bytes → Header → Header
header_add name value [] = (name, value ∷ []) ∷ []
header_add name value ((k, vs) ∷ h) =
    if bytes_eq k name then (k, vs ++ value ∷ []) ∷ h else (k, vs) ∷ header_add name value h

abbrev to_upper : ℕ → ℕ
to_upper c = if leb b'a' c && leb c b'z' then c - 32 else c

-- textproto.CanonicalMIMEHeaderKey of a token: a capital at the start and behind each dash.
canonical_from : Bool → Bytes → Bytes
canonical_from upper [] = []
canonical_from upper (c ∷ s) =
    (if upper then to_upper c else to_lower c) ∷ canonical_from (c == b'-') s

unfoldable pub canonical : Bytes → Bytes
unfolding canonical_from
canonical s = canonical_from true s
