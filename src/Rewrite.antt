-- ===== src/Rewrite.antt =====
-- rewrite.go. A walk that changes a value in place gives the new value back, and whether it has
-- changed. The order in which Go ranges over a map does not matter, as each member is on its own.
pub mod Paths
pub mod Laws
mod Tests
use api_key_rotator.Base.{
  ◌>>=◌, Bool, true, false, [], not, ◌&&◌, ◌||◌, Option, none, some, if◌then◌else◌,
}
use api_key_rotator.Base.Text.{Bytes, codes, bytes_eq, is_empty}
use api_key_rotator.Urls.{Url, Urls, is_http}
use api_key_rotator.Floats.{Floats}
use api_key_rotator.Json.Any.{
  Any, null_any, bool_any, float64, text, slice, dict, Elements, no_elements, element, Entries,
  no_entries, entry, lookup, decode_any, decode_map,
}

-- What the source uses of other packages: net/url, the numbers, and json.Marshal.
pub record Codec : Type 0 where
  pub urls : Urls
  pub floats : Floats
  pub marshal : Any → Option Bytes

-- The URL with the scheme and the host of the proxy.
unfoldable pub moved : Urls → Url → Option Url → Option Bytes
moved urls u none = none
moved urls u (some base) =
    if is_empty base.host
    then none
    else some (urls.print (record u { scheme = base.scheme; host = base.host }))

unfoldable pub rewrite_one : Urls → Bytes → Bytes → Bytes → Option Bytes
unfolding moved
rewrite_one urls proxy_base upstream_host s = do
  u ← urls.parse s
  if is_http u && bytes_eq u.host upstream_host then moved urls u (urls.parse proxy_base) else none

abbrev pub is_next : Bytes → Bool
is_next k = bytes_eq k (codes "next")

-- A string under "next" that `one` rewrites; else what the walk made of the value.
abbrev pub replaced : Option Bytes → Any × Bool → Any × Bool
replaced none walked = walked
replaced (some s) walked = (text s, true)

abbrev pub rewrite_text : (Bytes → Option Bytes) → Any → Option Bytes
rewrite_text one (text s) = one s
rewrite_text one _ = none

-- rewriteNextInValue; `one` is rewriteOne with the proxy and the host of the upstream.
unfoldable mutual
  pub rewrite_value : (Bytes → Option Bytes) → Any → Any × Bool
  rewrite_value one (slice es) = let (es', c) = rewrite_elements one es in (slice es', c)
  rewrite_value one (dict es) = let (es', c) = rewrite_entries one es in (dict es', c)
  rewrite_value one v = (v, false)

  pub rewrite_elements : (Bytes → Option Bytes) → Elements → Elements × Bool
  rewrite_elements one no_elements = (no_elements, false)
  rewrite_elements one (element v es) =
      let (v', c) = rewrite_value one v in
      let (es', d) = rewrite_elements one es in (element v' es', c || d)

  pub rewrite_entries : (Bytes → Option Bytes) → Entries → Entries × Bool
  rewrite_entries one no_entries = (no_entries, false)
  rewrite_entries one (entry k v es) =
      let walked = rewrite_value one v in
      let (v', c) = if is_next k then replaced (rewrite_text one v) walked else walked in
      let (es', d) = rewrite_entries one es in (entry k v' es', c || d)

abbrev pub or_same : Bytes → Option Bytes → Bytes × Bool
or_same body none = (body, false)
or_same body (some out) = (out, true)

unfoldable pub rewrite_next : Codec → Bytes → Bytes → Bytes → Bytes × Bool
unfolding decode_any rewrite_value rewrite_one
rewrite_next c body proxy_base upstream_host = elim (decode_any c.floats body) [
  | none ↦ (body, false)
  | some root ↦
      let (root', changed) = rewrite_value (rewrite_one c.urls proxy_base upstream_host) root in
      if changed then or_same body (c.marshal root') else (body, false)
]

-- The comma-ok assertion to a string, whose zero value is empty.
abbrev pub text_or_empty : Option Any → Bytes
text_or_empty (some (text s)) = s
text_or_empty _ = []

abbrev pub is_terminal : Bytes → Bool
is_terminal s =
    bytes_eq s (codes "completed") || bytes_eq s (codes "failed") || bytes_eq s (codes "cancelled")

abbrev pub guard_of : Entries → Bool
guard_of root = elim (lookup (codes "next") root) [
  | some _ ↦ false
  | none ↦
      let status = text_or_empty (lookup (codes "status") root) in
      not (is_terminal status) && not (is_empty status)
]

unfoldable pub pagination_guard : Floats → Bytes → Bool
unfolding decode_map lookup
pagination_guard fl body = elim (decode_map fl body) [ none ↦ false | some root ↦ guard_of root ]
