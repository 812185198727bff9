-- ===== src/Proxy/Respond/Laws.antt =====
-- proxy.go: the header of a response.
use api_key_rotator.Base.{
  ℕ, ◌<◌, ◌^◌, ◌≡◌, sym, ap, ◌∙◌, false, [], some, length, some_inj, subst, if◌then◌else◌,
}
use api_key_rotator.Base.Int.{pos}
use api_key_rotator.Base.Text.{Bytes, codes, bytes_eq, atoi}
use api_key_rotator.Base.Decimal.{itoa, atoi-itoa}
use api_key_rotator.Headers.{Header, first_value, header_values}
use api_key_rotator.Headers.Laws.{header_values-set, header_values-set_ne}
use api_key_rotator.Profile.State.{Profile}
use api_key_rotator.Rewrite.{Codec}
use api_key_rotator.Proxy.Request.{is_hop_by_hop, drop_hop_by_hop}
use api_key_rotator.Proxy.Request.Copy.{header_values-copy_headers, header_values-drop_if}
use api_key_rotator.Proxy.Serve.{Response, failed_with, forwarded, rewritten, abandoned}
use api_key_rotator.Proxy.Respond.{Written, write_raw_response, final_body, written}

-- The header of the answer of upstream.
abbrev pub upstream_header : Response → Header
upstream_header (forwarded status h body) = h
upstream_header (rewritten base status h body) = h
upstream_header (failed_with f) = []
upstream_header abandoned = []

-- What holds of the header that writeRawResponse writes for that of upstream, `h`.
abbrev pub Framed : Header → Bytes → Written → Type 0
Framed h name w =
    (atoi (first_value (header_values (codes "Content-Length") w.header))
      ≡ some (pos (length w.body)))
    × (length (header_values (codes "Content-Length") w.header) ≡ 1)
    × (header_values name w.header ≡ (if is_hop_by_hop name then [] else header_values name h))

write_raw_response-Framed :
    (status : ℕ) (h : Header) (body name : Bytes)
    → bytes_eq (codes "Content-Length") name ≡ false
    → length body < 2 ^ 63
    → Framed h name (write_raw_response status h body)
unfolding write_raw_response
write_raw_response-Framed status h body name other small =
    let set = header_values-set (codes "Content-Length") (itoa (length body)) _ in
    (
      ap (λ vs. atoi (first_value vs)) set ∙ atoi-itoa (length body) small,
      ap length set,
      header_values-set_ne name (codes "Content-Length") (itoa (length body)) _ other
          ∙ (header_values-copy_headers name (drop_hop_by_hop h) ∙ header_values-drop_if name h),
    )

framed :
    (status : ℕ) (h : Header) (body name : Bytes) {w : Written}
    → write_raw_response status h body ≡ w
    → bytes_eq (codes "Content-Length") name ≡ false
    → length w.body < 2 ^ 63
    → Framed h name w
unfolding write_raw_response
framed status h body name e other small = subst (Framed h name) e (
    write_raw_response-Framed status h body name other
      (subst (λ (x : Written). length x.body < 2 ^ 63) (sym e) small))

-- A response with an answer of upstream, its body rewritten or not, has one Content-Length, which
-- reads as the number of bytes of the body that is sent, no hop-by-hop header, and every other
-- header `name` with the values that upstream sent, in their order, when that body has fewer than
-- 2^63 bytes.
pub written-Framed :
    (c : Codec) (p : Profile) (r : Response) (name : Bytes) {w : Written}
    → written c p r ≡ some w
    → bytes_eq (codes "Content-Length") name ≡ false
    → length w.body < 2 ^ 63
    → Framed (upstream_header r) name w
unfolding written
written-Framed c p (forwarded status h body) name {w} e other small =
    framed status h body name (some_inj e) other small
written-Framed c p (rewritten base status h body) name {w} e other small =
    framed status h (final_body c p base body) name (some_inj e) other small
written-Framed c p (failed_with f) name e other small = cc
written-Framed c p abandoned name e other small = cc
