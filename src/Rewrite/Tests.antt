-- ===== src/Rewrite/Tests.antt =====
-- Tests of rewrite.go, and its theorems at a concrete body.
use api_key_rotator.Base.{
  ◌≡◌, refl, sym, ap, some_inj, true, false, [], ◌∷◌, ◌++◌, Option, none, some, if◌then◌else◌, drop,
  ◌>>=◌,
}
use mathlib.Core.Option
use api_key_rotator.Base.Text.{Bytes, codes, bytes_eq, has_prefix}
use api_key_rotator.Base.Int.{pos}
use api_key_rotator.Urls.{Url, Urls, is_http}
use api_key_rotator.Floats.{Floats, zero_float}
use api_key_rotator.Json.Any.{
  Any, text, slice, dict, no_elements, element, no_entries, entry, lookup, decode_any, decode_map,
  store,
}
use api_key_rotator.Rewrite.{
  Codec, moved, rewrite_one, rewrite_value, rewrite_next, pagination_guard,
}
use api_key_rotator.Rewrite.Paths.{key, at, ends_in_next, shape_at, swapped, shape_at-rewrite_value}
use api_key_rotator.Rewrite.Laws.{rewrite_value_unchanged, rewrite_value_moves}

-- URLs of http with nothing behind the host.
abbrev parse_http : Bytes → Option Url
parse_http s =
    if has_prefix s (codes "http://")
    then some (record { scheme = codes "http"; host = drop 7 s; rest = [] })
    else none

abbrev urls : Urls
urls = record { parse = parse_http; print = λ u. codes "http://" ++ u.host }

printed_host : (x y : Url) → urls.parse (urls.print x) ≡ some y → y.host ≡ x.host
unfolding has_prefix
printed_host x y e = ap (λ u. u.host) (some_inj (sym e))

abbrev page : Bytes → Any
page next = dict (
    entry (codes "next") (text next)
      (entry (codes "data") (slice (element (text (codes "http://up")) no_elements)) no_entries))

abbrev one : Bytes → Option Bytes
one = rewrite_one urls (codes "http://me") (codes "up")

-- The string under "next" changes, and the same string elsewhere does not.
rewritten : rewrite_value one (page (codes "http://up")) ≡ (page (codes "http://me"), true)
unfolding rewrite_value rewrite_one moved is_http bytes_eq has_prefix ◌>>=◌
rewritten = refl

untouched : (rewrite_value one (page (codes "http://other"))).1 ≡ false
unfolding rewrite_value rewrite_one moved is_http bytes_eq has_prefix ◌>>=◌
untouched = refl

rewrite_value_unchanged_example :
    (rewrite_value one (page (codes "http://other"))).0 ≡ page (codes "http://other")
rewrite_value_unchanged_example =
    rewrite_value_unchanged one (page (codes "http://other")) untouched

shape_at-rewrite_value_example :
    shape_at (key (codes "next") ∷ []) (rewrite_value one (page (codes "http://up"))).0
    ≡ Option.map
        (swapped one (ends_in_next false (key (codes "next") ∷ [])))
        (shape_at (key (codes "next") ∷ []) (page (codes "http://up")))
shape_at-rewrite_value_example =
    shape_at-rewrite_value one (key (codes "next") ∷ []) (page (codes "http://up"))

hosts_apart : bytes_eq (codes "me") (codes "up") ≡ false
unfolding bytes_eq
hosts_apart = refl

abbrev proxy : Url
proxy = record { scheme = codes "http"; host = codes "me"; rest = [] }

proxy_parsed : urls.parse (codes "http://me") ≡ some proxy
unfolding has_prefix
proxy_parsed = refl

next_key : ends_in_next false (key (codes "next") ∷ []) ≡ true
unfolding bytes_eq
next_key = refl

next_there :
    at (key (codes "next") ∷ []) (rewrite_value one (page (codes "http://up"))).0
    ≡ some (text (codes "http://me"))
unfolding at lookup rewrite_value rewrite_one moved is_http bytes_eq has_prefix ◌>>=◌
next_there = refl

proxy_http : is_http proxy ≡ true
unfolding is_http bytes_eq
proxy_http = refl

rewrite_value_moves_example : bytes_eq (codes "me") (codes "up") ≡ false
rewrite_value_moves_example =
    rewrite_value_moves urls (codes "http://me") (codes "up") proxy proxy (page (codes "http://up"))
      (key (codes "next") ∷ []) (codes "http://me") printed_host proxy_parsed refl hosts_apart
      next_key next_there proxy_parsed proxy_http

abbrev floats : Floats
floats = record {
  parse_float = λ s. none;
  is_negative = λ f. false;
  at_most_zero = λ f. true;
  minus = λ f g. zero_float;
  rounded = λ k f. pos 0;
}

-- A crawl that goes on without a "next" is reported.
scraping : pagination_guard floats (codes "{\"status\":\"scraping\"}") ≡ true
unfolding pagination_guard decode_map decode_any lookup bytes_eq ◌>>=◌ store
scraping = refl

completed : pagination_guard floats (codes "{\"status\":\"completed\"}") ≡ false
unfolding pagination_guard decode_map decode_any lookup bytes_eq ◌>>=◌ store
completed = refl

-- The last of two members stays, and a body that is not JSON is passed on.
abbrev codec : Codec
codec = record { urls = urls; floats = floats; marshal = λ v. some (codes "printed") }

printed_again :
    rewrite_next codec
      (codes "{\"next\":\"http://x\",\"next\":\"http://up\"}")
      (codes "http://me")
      (codes "up")
    ≡ (codes "printed", true)
unfolding rewrite_next decode_any store rewrite_value rewrite_one moved is_http bytes_eq has_prefix
    ◌>>=◌
printed_again = refl

not_json :
    rewrite_next codec (codes "next") (codes "http://me") (codes "up") ≡ (codes "next", false)
unfolding rewrite_next decode_any ◌>>=◌
not_json = refl
