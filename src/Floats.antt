-- ===== src/Floats.antt =====
-- The type float64 as its 64 bits, and what the source does with it: strconv.ParseFloat (which also
-- reads the numbers of JSON), the comparisons with 0, the difference, and int64(math.Round(f * k)).
use api_key_rotator.Base.{ℕ, Bool, Option}
use api_key_rotator.Base.Int.{ℤ}
use api_key_rotator.Base.Text.{Bytes}

abbrev pub Float : Type 0
Float = ℕ

-- The bits of +0.
abbrev pub zero_float : Float
zero_float = 0

pub record Floats : Type 0 where
  pub parse_float : Bytes → Option Float
  pub is_negative : Float → Bool
  pub at_most_zero : Float → Bool
  pub minus : Float → Float → Float
  pub rounded : ℕ → Float → ℤ
