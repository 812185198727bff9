-- ===== src/Rotate.antt =====
-- rotate.go. The regular expressions are alternatives of literal texts without regard to case; what
-- is optional at an end (`credits?`, `concurr\w*`) adds no match.
pub mod Laws
use api_key_rotator.Base.{
  ℕ, Bool, true, false, not, ◌&&◌, ◌||◌, List, [], ◌∷◌, Option, none, some, leb, ltb, ◌==◌,
  if◌then◌else◌,
}
use api_key_rotator.Base.Text.{Bytes, codes, matches_any}
use api_key_rotator.Json.Decode.{decode_success}

unfoldable pub reject_denylist : Bytes → Bool
reject_denylist = matches_any (
    codes "insufficient credit"
    ∷ codes "rate limit"
    ∷ codes "exceeded"
    ∷ codes "payment required"
    ∷ codes "unauthorized"
    ∷ codes "forbidden"
    ∷ [])

unfoldable pub credit_exhausted_pattern : Bytes → Bool
credit_exhausted_pattern =
    matches_any (codes "insufficient credit" ∷ codes "payment required" ∷ codes "exceeded" ∷ [])

unfoldable pub is_concurrency429 : Bytes → Bool
is_concurrency429 = matches_any (codes "concurr" ∷ codes "browser limit" ∷ [])

-- `err == nil && env.Success != nil`, and then `!*env.Success`.
abbrev pub denies : Option (Option Bool) → Bool
denies none = false
denies (some none) = false
denies (some (some success)) = not success

unfoldable pub firecrawl_failure : ℕ → Bytes → Bool
firecrawl_failure status body =
    if leb 400 status && ltb status 500 then true else denies (decode_success body)

unfoldable pub should_retry : ℕ → Bool → Bool
should_retry status network_err =
    if network_err
    then true
    else status == 403
      || status == 408
      || status == 500
      || status == 502
      || status == 503
      || status == 504
