-- ===== src/Usage/Retry.antt =====
-- creditusage.go: usageRetryable, shouldRetryUsage, and the loop that fetchUsage, fetchTavilyUsage
-- and fetchApifyUsage have in common.
pub mod Laws
use api_key_rotator.Base.{
  ℕ, zero, suc, Bool, true, false, ◌||◌, Option, none, some, ◌==◌, if◌then◌else◌, drop, List, [],
  ◌∷◌, length,
}
use api_key_rotator.Base.Text.{Bytes, codes, has_prefix, atoi}
use api_key_rotator.Base.Int.{ℤ, pos, negsuc}
use api_key_rotator.Usage.{Usage}

unfoldable pub usage_retryable : ℕ → Bool
usage_retryable status =
    status == 408 || status == 500 || status == 502 || status == 503 || status == 504

abbrev pub retryable_code : Option ℤ → Bool
retryable_code (some (pos n)) = usage_retryable n
retryable_code _ = false

unfoldable pub should_retry_usage : Bytes → Bool
unfolding usage_retryable has_prefix atoi
should_retry_usage reason =
    if has_prefix reason (codes "net:")
    then true
    else if has_prefix reason (codes "status:")
    then retryable_code (atoi (drop 7 reason))
    else false

-- `usage{}`
abbrev pub no_usage : Usage
no_usage = record { ok = false; remaining = pos 0; has_end = false; period_end = 0 }

-- usageBackoff, in milliseconds.
abbrev pub backoff : List ℕ
backoff = 500 ∷ 1000 ∷ 2000 ∷ []

-- The loop at attempt `a`, with `left` entries of the schedule left: what is returned, and the
-- number of attempts made. `once a` is what attempt `a` gives, with the reason of its failure.
unfoldable pub fetch_from : (ℕ → Usage × Bytes) → ℕ → ℕ → Usage × ℕ
fetch_from once zero a = if (once a).0.ok then ((once a).0, suc a) else (no_usage, suc a)
fetch_from once (suc left) a =
    let later = fetch_from once left (suc a) in
    if (once a).0.ok
    then ((once a).0, suc a)
    else if should_retry_usage (once a).1
    then later
    else (no_usage, suc a)

unfoldable pub fetch_retrying : (ℕ → Usage × Bytes) → Usage × ℕ
unfolding fetch_from
fetch_retrying once = fetch_from once (length backoff) 0
