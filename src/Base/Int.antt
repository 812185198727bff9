-- ===== src/Base/Int.antt =====
-- Signed integers over the native numbers: the arguments that the source takes as `int` or `int64`
-- and may be negative.
use Prim.Native.Nat.{ℕ, ◌+◌, ◌-◌, ◌^◌}
use api_key_rotator.Base.Tests.{leb, if◌then◌else◌}

-- `negsuc n` is -(n + 1).
pub data ℤ : Type 0 where
  pos : ℕ → ℤ
  negsuc : ℕ → ℤ

-- A negative number is replaced by 0, the source's `if n < 0 { n = 0 }`.
abbrev pub pos_part : ℤ → ℕ
pos_part (pos n) = n
pos_part (negsuc n) = 0

-- `x - y`, before it wraps.
abbrev difference : ℕ → ℕ → ℤ
difference m n = if leb n m then pos (m - n) else negsuc (n - m - 1)

unfoldable pub minus : ℤ → ℤ → ℤ
minus (pos m) (pos n) = difference m n
minus (pos m) (negsuc n) = pos (m + n + 1)
minus (negsuc m) (pos n) = negsuc (m + n)
minus (negsuc m) (negsuc n) = difference n m

-- A difference of two numbers of int64, as int64 holds it.
unfoldable pub wrap_int64 : ℤ → ℤ
wrap_int64 (pos n) = if leb (2 ^ 63) n then negsuc (2 ^ 64 - 1 - n) else pos n
wrap_int64 (negsuc n) = if leb (2 ^ 63) n then pos (2 ^ 64 - 1 - n) else negsuc n

-- `x - y` of int64.
unfoldable pub minus_int64 : ℤ → ℤ → ℤ
unfolding minus wrap_int64
minus_int64 x y = wrap_int64 (minus x y)
