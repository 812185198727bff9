-- ===== src/Rotate/Laws.antt =====
-- rotate.go: how the patterns and the classifications relate.
use api_key_rotator.Base.{ℕ, ◌≤◌, ◌<◌, ◌≡◌, true, false, [], ◌∷◌, some, arith, ◌⊎◌}
use api_key_rotator.Base.Text.{Bytes, codes, matches_any}
use api_key_rotator.Json.Decode.{decode_success}
use api_key_rotator.Rotate.{reject_denylist, credit_exhausted_pattern, firecrawl_failure}

matches_three :
    (a b c d e f s : Bytes)
    → matches_any (a ∷ d ∷ c ∷ []) s ≡ true
    → matches_any (a ∷ b ∷ c ∷ d ∷ e ∷ f ∷ []) s ≡ true
unfolding matches_any
matches_three a b c d e f s h = ground arith

-- Every text that means exhausted credits is on the deny list.
pub credit_exhausted_pattern-denied :
    (body : Bytes) → credit_exhausted_pattern body ≡ true → reject_denylist body ≡ true
unfolding credit_exhausted_pattern reject_denylist
credit_exhausted_pattern-denied body h =
    matches_three (codes "insufficient credit") (codes "rate limit") (codes "exceeded")
      (codes "payment required") (codes "unauthorized") (codes "forbidden") body h

pub firecrawl_failure_success :
    (status : ℕ) (body : Bytes)
    → (status < 400) ⊎ (500 ≤ status)
    → decode_success body ≡ some (some true)
    → firecrawl_failure status body ≡ false
unfolding firecrawl_failure
firecrawl_failure_success status body h e = ground arith
