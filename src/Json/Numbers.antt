-- ===== src/Json/Numbers.antt =====
-- encoding/json: the literals that are numbers.
use api_key_rotator.Base.{ℕ, Bool, true, false, ◌||◌, [], ◌∷◌, ◌==◌, if◌then◌else◌}
use api_key_rotator.Base.Text.{Bytes, is_digit}

pub data State : Type 0 where
  start minus leading_zero digits point fraction exponent sign power : State
  refused : State

abbrev is_sign : ℕ → Bool
is_sign c = c == b'+' || c == b'-'

abbrev is_exponent : ℕ → Bool
is_exponent c = c == b'e' || c == b'E'

-- The number states of the scanner.
unfoldable pub number_step : State → ℕ → State
number_step start c =
    if c == b'-'
    then minus
    else if c == b'0'
    then leading_zero
    else if is_digit c
    then digits
    else refused
number_step minus c = if c == b'0' then leading_zero else if is_digit c then digits else refused
number_step leading_zero c =
    if c == b'.' then point else if is_exponent c then exponent else refused
number_step digits c =
    if is_digit c
    then digits
    else if c == b'.'
    then point
    else if is_exponent c
    then exponent
    else refused
number_step point c = if is_digit c then fraction else refused
number_step fraction c =
    if is_digit c then fraction else if is_exponent c then exponent else refused
number_step exponent c = if is_sign c then sign else if is_digit c then power else refused
number_step sign c = if is_digit c then power else refused
number_step power c = if is_digit c then power else refused
number_step refused c = refused

abbrev is_final : State → Bool
is_final leading_zero = true
is_final digits = true
is_final fraction = true
is_final power = true
is_final _ = false

unfoldable pub is_number : State → Bytes → Bool
unfolding number_step
is_number q [] = is_final q
is_number q (c ∷ s) = is_number (number_step q c) s

abbrev pub is_number_byte : ℕ → Bool
is_number_byte c = is_digit c || c == b'.' || is_sign c || is_exponent c

-- The longest run of bytes that can stand in a number, and the rest.
unfoldable pub number_span : Bytes → Bytes × Bytes
number_span [] = ([], [])
number_span (c ∷ s) =
    let (lit, rest) = number_span s in if is_number_byte c then (c ∷ lit, rest) else ([], c ∷ s)
