-- ===== src/Usage/Tavily.antt =====
-- creditusage.go: tavilyRemaining.
use api_key_rotator.Base.{
  ℕ, suc, ◌+◌, ◌-◌, ◌^◌, leb, List, [], ◌∷◌, Option, none, some, ltb, min, if◌then◌else◌,
}
use api_key_rotator.Base.Int.{ℤ, pos, negsuc, pos_part, minus_int64}

-- A limit layer: the pointers to what is used and to the limit.
abbrev pub Layer : Type 0
Layer = Option ℤ × Option ℤ

-- What is left in a layer; `none` is an unmeasured one.
unfoldable pub layer_remaining : Layer → Option ℕ
layer_remaining (some used, some limit) = some (pos_part (minus_int64 limit used))
layer_remaining (some used, none) = none
layer_remaining (none, limit) = none

-- `best < 0 || rem < best`
abbrev better : ℕ → ℤ → ℤ
better rem (negsuc n) = pos rem
better rem (pos best) = if ltb rem best then pos rem else pos best

abbrev with_layer : Option ℕ → ℤ → ℤ
with_layer none best = best
with_layer (some rem) best = better rem best

unfoldable pub best_of : List Layer → ℤ → ℤ
unfolding layer_remaining
best_of [] best = best
best_of (l ∷ ls) best = best_of ls (with_layer (layer_remaining l) best)

abbrev found : ℤ → Option ℕ
found (negsuc n) = none
found (pos n) = some n

-- `none` is the result whose ok is false.
unfoldable pub tavily_remaining :
    Option ℤ → Option ℤ → Option ℤ → Option ℤ → Option ℤ → Option ℤ → Option ℕ
unfolding best_of
tavily_remaining key_usage key_limit plan_usage plan_limit paygo_usage paygo_limit = found (
    best_of ((key_usage, key_limit) ∷ (plan_usage, plan_limit) ∷ (paygo_usage, paygo_limit) ∷ [])
      (negsuc 0))

-- The reference. What int64 makes of the first number less the second, as a natural number: 0 when the
-- second is greater or the difference too great for int64; a difference below the range of int64
-- comes back from above.
abbrev pub gap : ℕ → ℕ → ℕ
gap a b =
    if leb b a
    then (if leb (2 ^ 63) (a - b) then 0 else a - b)
    else (if ltb (2 ^ 63) (b - a) then 2 ^ 64 - (b - a) else 0)

-- The limit less what is used.
unfoldable pub spare : ℤ → ℤ → ℕ
spare (pos limit) (pos used) = gap limit used
spare (pos limit) (negsuc used) = gap (limit + suc used) 0
spare (negsuc limit) (negsuc used) = gap used limit
spare (negsuc limit) (pos used) = gap 0 (suc limit + used)

-- What the layers leave that have both numbers.
abbrev pub measured : List Layer → List ℕ
measured [] = []
measured ((some used, some limit) ∷ ls) = spare limit used ∷ measured ls
measured ((some used, none) ∷ ls) = measured ls
measured ((none, limit) ∷ ls) = measured ls

abbrev pub lower : ℕ → Option ℕ → ℕ
lower r none = r
lower r (some m) = min r m

abbrev pub least : List ℕ → Option ℕ
least [] = none
least (r ∷ rs) = some (lower r (least rs))

abbrev joined : ℤ → Option ℕ → Option ℕ
joined (negsuc n) m = m
joined (pos b) m = some (lower b m)
