-- ===== src/Usage/Bodies.antt =====
-- creditusage.go: fetchUsageOnce, fetchTavilyUsageOnce and fetchApifyUsageOnce, which differ in how
-- they read the body; extractExaCostMicro.
use api_key_rotator.Base.{
  ℕ, true, false, List, [], ◌∷◌, ◌++◌, Option, none, some, ◌==◌, take, if◌then◌else◌, ◌>>=◌,
}
use api_key_rotator.Base.Int.{ℤ, pos, negsuc, pos_part}
use api_key_rotator.Base.Text.{Bytes, codes}
use api_key_rotator.Base.Decimal.{itoa}
use api_key_rotator.Floats.{Float, Floats, zero_float}
use api_key_rotator.Json.Value.{Json, Fields, end}
use api_key_rotator.Json.Parse.{unmarshal}
use api_key_rotator.Json.Decode.{members, struct_fields, int64_field}
use api_key_rotator.Json.Structs.{
  bool_field, string_field, int64_pointer, float_field, float_pointer, struct_field, struct_pointer,
}
use api_key_rotator.Usage.{Usage}
use api_key_rotator.Usage.Retry.{no_usage}
use api_key_rotator.Usage.Tavily.{tavily_remaining}

-- time.Parse of RFC 3339; `none` is an error.
abbrev pub Times : Type 0
Times = Bytes → Option ℕ

-- How a request of the client ends: with an error of NewRequest, of Do or of ReadAll, or with a
-- status and a body. The texts are those of the errors.
pub data Reply : Type 0 where
  not_built unsent unread : Bytes → Reply
  reply : ℕ → Bytes → Reply

abbrev pub read_or_reason : Bytes → Option Usage → Usage × Bytes
read_or_reason reason none = (no_usage, reason)
read_or_reason reason (some u) = (u, [])

-- What the three functions have in common; `limit` is that of the io.LimitReader around the body. The
-- text of a parse error is left out behind "parse:", since only the prefix of a reason is looked at.
unfoldable pub usage_once : ℕ → (Bytes → Option Usage) → Reply → Usage × Bytes
unfolding itoa
usage_once limit read (not_built e) = (no_usage, codes "build:" ++ e)
usage_once limit read (unsent e) = (no_usage, codes "net:" ++ e)
usage_once limit read (unread e) = (no_usage, codes "read:" ++ e)
usage_once limit read (reply status body) =
    if status == 200
    then read_or_reason (codes "parse:") (read (take limit body))
    else (no_usage, codes "status:" ++ itoa status)

-- A usage that is ok; an end that is absent or that time.Parse refuses is none.
abbrev pub ending : ℤ → Option ℕ → Usage
ending rem none = record { ok = true; remaining = rem; has_end = false; period_end = 0 }
ending rem (some t) = record { ok = true; remaining = rem; has_end = true; period_end = t }

abbrev pub parsed_end : Times → Bytes → Option ℕ
parsed_end times [] = none
parsed_end times (c ∷ s) = times (c ∷ s)

unfoldable pub read_firecrawl : Times → Bytes → Option Usage
unfolding unmarshal members bool_field struct_field int64_field string_field
read_firecrawl times body = do
  v ← unmarshal body
  fs ← struct_fields v
  _ ← bool_field (members (codes "success") fs) false
  data' ← struct_field (members (codes "data") fs) end
  rem ← int64_field (members (codes "remainingCredits") data') (pos 0)
  until ← string_field (members (codes "billingPeriodEnd") data') []
  some (ending rem (parsed_end times until))

abbrev plain : Option ℕ → Option Usage
plain none = none
plain (some rem) = some (ending (pos rem) none)

-- "parse:no limit layers" is also `none`.
unfoldable pub read_tavily : Bytes → Option Usage
unfolding unmarshal members struct_field int64_pointer tavily_remaining
read_tavily body = do
  v ← unmarshal body
  fs ← struct_fields v
  key ← struct_field (members (codes "key") fs) end
  account ← struct_field (members (codes "account") fs) end
  key_usage ← int64_pointer (members (codes "usage") key) none
  key_limit ← int64_pointer (members (codes "limit") key) none
  plan_usage ← int64_pointer (members (codes "plan_usage") account) none
  plan_limit ← int64_pointer (members (codes "plan_limit") account) none
  paygo_usage ← int64_pointer (members (codes "paygo_usage") account) none
  paygo_limit ← int64_pointer (members (codes "paygo_limit") account) none
  plain (tavily_remaining key_usage key_limit plan_usage plan_limit paygo_usage paygo_limit)

-- The credit of the account, unless the profile overrides it; the balance is in cents and is not
-- negative.
unfoldable pub read_apify : Floats → Times → Float → Bytes → Option Usage
unfolding unmarshal members struct_field float_field string_field
read_apify fl times free body = do
  v ← unmarshal body
  fs ← struct_fields v
  data' ← struct_field (members (codes "data") fs) end
  cycle ← struct_field (members (codes "monthlyUsageCycle") data') end
  limits ← struct_field (members (codes "limits") data') end
  current ← struct_field (members (codes "current") data') end
  _ ← string_field (members (codes "startAt") cycle) []
  until ← string_field (members (codes "endAt") cycle) []
  most ← float_field fl (members (codes "maxMonthlyUsageUsd") limits) zero_float
  used ← float_field fl (members (codes "monthlyUsageUsd") current) zero_float
  some (
      ending
        (pos
          (pos_part (fl.rounded 100 (fl.minus (if fl.at_most_zero free then most else free) used))))
        (parsed_end times until))

abbrev cost_fields : Option Fields → List Json
cost_fields none = []
cost_fields (some fs) = members (codes "total") fs

abbrev pub known : ℤ → ℤ
known (pos n) = pos n
known (negsuc n) = negsuc 0

abbrev pub micro_or_unknown : Floats → Option (Option Float) → ℤ
micro_or_unknown fl (some (some f)) = known (fl.rounded 1000000 f)
micro_or_unknown fl _ = negsuc 0

-- costDollars.total, as the body is decoded.
unfoldable pub exa_total : Floats → Bytes → Option (Option Float)
unfolding unmarshal members struct_pointer float_pointer
exa_total fl body = do
  v ← unmarshal body
  fs ← struct_fields v
  cost ← struct_pointer (members (codes "costDollars") fs) none
  float_pointer fl (cost_fields cost) none

unfoldable pub extract_exa_cost_micro : Floats → Bytes → ℤ
unfolding exa_total
extract_exa_cost_micro fl body = micro_or_unknown fl (exa_total fl body)
