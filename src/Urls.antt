-- ===== src/Urls.antt =====
-- Package net/url, as far as the source uses it: url.Parse and URL.String. What a URL has besides
-- its scheme and host is not looked at.
use api_key_rotator.Base.{Bool, ◌&&◌, ◌||◌, not, Option}
use api_key_rotator.Base.Text.{Bytes, codes, bytes_eq, is_empty}

pub record Url : Type 0 where
  pub scheme : Bytes
  pub host : Bytes
  pub rest : Bytes

pub record Urls : Type 0 where
  pub parse : Bytes → Option Url
  pub print : Url → Bytes

-- The test for an absolute URL of http or https.
unfoldable pub is_http : Url → Bool
is_http u =
    not (is_empty u.host) && (bytes_eq u.scheme (codes "http") || bytes_eq u.scheme (codes "https"))
