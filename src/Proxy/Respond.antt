-- ===== src/Proxy/Respond.antt =====
-- proxy.go: writeRawResponse, and the rewriting of the body that ServeHTTP does before it.
pub mod Laws
mod Tests
use api_key_rotator.Base.{ℕ, Bool, [], Option, none, some, length}
use api_key_rotator.Base.Text.{Bytes, codes}
use api_key_rotator.Base.Decimal.{itoa}
use api_key_rotator.Headers.{Header, header_set}
use api_key_rotator.Profile.State.{Profile}
use api_key_rotator.Rewrite.{Codec, rewrite_next}
use api_key_rotator.Proxy.Request.{drop_hop_by_hop, copy_headers}
use api_key_rotator.Proxy.Serve.{Response, failed_with, forwarded, rewritten, abandoned}

-- What reaches the client.
pub record Written : Type 0 where
  pub status : ℕ
  pub header : Header
  pub body : Bytes

unfoldable pub write_raw_response : ℕ → Header → Bytes → Written
unfolding copy_headers drop_hop_by_hop header_set itoa
write_raw_response status h body = record {
  status = status;
  header =
      header_set (codes "Content-Length") (itoa (length body))
        (copy_headers [] (drop_hop_by_hop h));
  body = body;
}

-- A body that rewriteNext has not changed is the last one.
unfoldable pub final_body : Codec → Profile → Bytes → Bytes → Bytes
unfolding rewrite_next
final_body c p base body = (rewrite_next c body base p.upstream_host).0

-- The answers of upstream; those of http.Error are texts of net/http.
unfoldable pub written : Codec → Profile → Response → Option Written
unfolding write_raw_response final_body
written c p (forwarded status h body) = some (write_raw_response status h body)
written c p (rewritten base status h body) =
    some (write_raw_response status h (final_body c p base body))
written c p (failed_with f) = none
written c p abandoned = none
