-- ===== src/Proxy/Request.antt =====
-- proxy.go: the request that tryKey builds for upstream, isHopByHop, copyHeaders, readCapped,
-- rejectKind and isJSON.
pub mod Laws
pub mod Copy
use api_key_rotator.Base.{
  ℕ, suc, ◌+◌, Bool, true, false, ◌||◌, List, [], ◌∷◌, ◌++◌, Option, none, some, ltb, leb, ◌==◌,
  if◌then◌else◌, length, take,
}
use api_key_rotator.Base.Text.{Bytes, codes, bytes_eq, contains, to_lower}
use mathlib.Core.List.{map}
use api_key_rotator.Headers.{Header, header_get, header_del, header_set, header_add, canonical}
use api_key_rotator.Pool.Credits.{Rejection, exhausted, rate, auth, retry}
use api_key_rotator.Profile.State.{Profile}
use api_key_rotator.Base.Text.{is_empty}

-- The client's request; its body is read once.
pub record Request : Type 0 where
  pub method : Bytes
  pub path : Bytes
  pub raw_query : Bytes
  pub host : Bytes
  pub header : Header
  pub body : Bytes

-- The request to upstream. `auth_query` is the query parameter that was set to the key.
pub record UpRequest : Type 0 where
  pub method : Bytes
  pub url : Bytes
  pub auth_query : Option (Bytes × Bytes)
  pub host : Bytes
  pub header : Header
  pub body : Bytes

abbrev hop_names : List Bytes
hop_names =
    codes "Connection"
    ∷ codes "Keep-Alive"
    ∷ codes "Proxy-Authenticate"
    ∷ codes "Proxy-Authorization"
    ∷ codes "Te"
    ∷ codes "Trailers"
    ∷ codes "Transfer-Encoding"
    ∷ codes "Upgrade"
    ∷ []

is_among : Bytes → List Bytes → Bool
is_among k [] = false
is_among k (n ∷ ns) = bytes_eq k n || is_among k ns

unfoldable pub is_hop_by_hop : Bytes → Bool
unfolding is_among
is_hop_by_hop k = is_among k hop_names

-- The loop that deletes the hop-by-hop names.
unfoldable pub drop_hop_by_hop : Header → Header
drop_hop_by_hop [] = []
drop_hop_by_hop ((k, vs) ∷ h) =
    let rest = drop_hop_by_hop h in if is_hop_by_hop k then rest else (k, vs) ∷ rest

unfoldable pub add_values : Bytes → List Bytes → Header → Header
add_values k [] dst = dst
add_values k (v ∷ vs) dst = add_values k vs (header_add k v dst)

unfoldable pub copy_headers : Header → Header → Header
unfolding add_values header_add
copy_headers dst [] = dst
copy_headers dst ((k, vs) ∷ src) = copy_headers (add_values k vs dst) src

abbrev pub authorization : Bytes
authorization = codes "Authorization"

-- The headers that tryKey sets for the key, behind the copy without Authorization and Host.
unfoldable pub with_key : Profile → Bytes → Header → Header
with_key p key h =
    if is_empty p.auth_header
    then if is_empty p.auth_query_param
      then header_set authorization (codes "Bearer " ++ key) h
      else h
    else header_set (canonical p.auth_header) key h

unfoldable pub up_header : Profile → Bytes → Header → Header
unfolding copy_headers
up_header p key client =
    drop_hop_by_hop (
      with_key p key
        (header_del (codes "Host") (header_del authorization (copy_headers [] client))))

abbrev pub query_part : Bytes → Bytes
query_part [] = []
query_part (c ∷ q) = b'?' ∷ c ∷ q

unfoldable pub up_request : Profile → Bytes → Request → Bytes → UpRequest
up_request p key req stripped = record {
  method = req.method;
  url = p.upstream ++ stripped ++ query_part req.raw_query;
  auth_query =
      if is_empty p.auth_header
      then if is_empty p.auth_query_param then none else some (p.auth_query_param, key)
      else none;
  host = p.upstream_host;
  header = up_header p key req.header;
  body = req.body;
}

-- At most `cap + 1` bytes are read; 0 is no cap.
unfoldable pub read_capped : Bytes → ℕ → Bytes × Bool
read_capped body cap =
    if cap == 0
    then (body, false)
    else if ltb cap (length body)
    then (take (cap + 1) body, true)
    else (body, false)

unfoldable pub reject_kind : ℕ → Rejection
reject_kind status =
    if status == 402 || status == 432 || status == 433
    then exhausted
    else if status == 429
    then rate
    else if status == 401
    then auth
    else retry

unfoldable pub is_json : Header → Bool
unfolding contains header_get
is_json h = contains (map to_lower (header_get (codes "Content-Type") h)) (codes "json")
