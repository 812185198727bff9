-- ===== src/Proxy/Respond/Tests.antt =====
-- Tests of writeRawResponse (proxy.go), with a body that is rewritten.
use api_key_rotator.Base.{
  ◌≡◌, refl, [], ◌∷◌, ◌++◌, Option, none, some, arith, drop, if◌then◌else◌, ◌>>=◌, false, true,
}
use api_key_rotator.Base.Int.{pos}
use api_key_rotator.Base.Text.{Bytes, codes, bytes_eq, has_prefix}
use api_key_rotator.Base.Decimal.{itoa}
use api_key_rotator.Urls.{Url, is_http}
use api_key_rotator.Floats.{zero_float}
use api_key_rotator.Headers.{Header, header_set, header_add}
use api_key_rotator.Profile.State.{Profile}
use api_key_rotator.Profile.State.{fmp}
use api_key_rotator.Profile.Build.{finance_profile, host_of, behind_scheme}
use api_key_rotator.Json.Any.{decode_any, store}
use api_key_rotator.Rewrite.{Codec, moved, rewrite_one, rewrite_value, rewrite_next}
use api_key_rotator.Proxy.Request.{is_hop_by_hop, copy_headers}
use api_key_rotator.Proxy.Serve.{rewritten}
use api_key_rotator.Proxy.Respond.{Written, write_raw_response, final_body, written}
use api_key_rotator.Proxy.Respond.Laws.{Framed, written-Framed}

abbrev parse_http : Bytes → Option Url
parse_http s =
    if has_prefix s (codes "http://")
    then some (record { scheme = codes "http"; host = drop 7 s; rest = [] })
    else none

abbrev codec : Codec
codec = record {
  urls = record { parse = parse_http; print = λ u. codes "http://" ++ u.host };
  floats = record {
    parse_float = λ s. none;
    is_negative = λ f. false;
    at_most_zero = λ f. true;
    minus = λ f g. zero_float;
    rounded = λ k f. pos 0;
  };
  marshal = λ v. some (codes "{}");
}

abbrev p : Profile
p = finance_profile fmp (codes "apikey") 1 (record {
  api_keys = [];
  upstream = codes "http://up";
  route_prefix = codes "/p";
  daily_budget = 1;
  low_credit = 1;
  stop_credit = 1;
})

abbrev header : Header
header =
    (codes "Content-Length", codes "27" ∷ [])
    ∷ (codes "Connection", codes "close" ∷ [])
    ∷ (codes "Etag", codes "e" ∷ [])
    ∷ []

abbrev sent : Written
sent = record {
  status = 200;
  header = (codes "Content-Length", codes "2" ∷ []) ∷ (codes "Etag", codes "e" ∷ []) ∷ [];
  body = codes "{}";
}

rewritten_answer :
    written codec p (rewritten (codes "http://me") 200 header (codes "{\"next\":\"http://up\"}"))
    ≡ some sent
unfolding written write_raw_response final_body rewrite_next decode_any store rewrite_value
    rewrite_one moved is_http bytes_eq has_prefix ◌>>=◌ finance_profile host_of behind_scheme
    copy_headers header_set header_add is_hop_by_hop itoa
rewritten_answer = refl

other_name : bytes_eq (codes "Content-Length") (codes "Etag") ≡ false
unfolding bytes_eq
other_name = refl

written-Framed_example : Framed header (codes "Etag") sent
written-Framed_example =
    written-Framed codec p
      (rewritten (codes "http://me") 200 header (codes "{\"next\":\"http://up\"}")) (codes "Etag")
      {w = sent} rewritten_answer other_name (omega arith)
