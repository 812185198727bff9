-- ===== src/Base/Text.antt =====
-- Byte strings, and what the source uses of the packages bytes, strings and strconv on them.
use Prim.Native.Char.{code}
use Prim.Native.String.{String}
use Prim.Native.Nat.{ℕ, suc, ◌+◌, ◌-◌, ◌*◌, ◌^◌}
use mathlib.Core.Bool.{Bool, true, false, ◌&&◌, ◌||◌}
use mathlib.Core.List.{List, [], ◌∷◌, ◌++◌, reverse}
use mathlib.Core.Path.{◌≡◌, refl}
use native.Mathlib.Omega.{arith}
use mathlib.Core.Option.{Option, none, some}
use api_key_rotator.Base.Lists.{drop, length}
use api_key_rotator.Base.Tests.{leb, ◌==◌, if◌then◌else◌}
use api_key_rotator.Base.Int.{ℤ, pos, negsuc}

-- A `string` or a `[]byte` of the source.
abbrev pub Bytes : Type 0
Bytes = List ℕ

-- The bytes of an ASCII literal.
abbrev pub codes : String → Bytes
codes String.[] = []
codes (String.◌∷◌ c s) = code c ∷ codes s

abbrev pub is_empty : Bytes → Bool
is_empty [] = true
is_empty (_ ∷ _) = false

abbrev pub slash : Bytes
slash = b'/' ∷ []

unfoldable pub bytes_eq : Bytes → Bytes → Bool
bytes_eq [] [] = true
bytes_eq (a ∷ x) (b ∷ y) = a == b && bytes_eq x y
bytes_eq _ _ = false

-- strings.HasPrefix and bytes.HasPrefix: whether the first argument begins with the second.
unfoldable pub has_prefix : Bytes → Bytes → Bool
has_prefix s [] = true
has_prefix [] (b ∷ p) = false
has_prefix (a ∷ s) (b ∷ p) = a == b && has_prefix s p

-- bytes.Contains and strings.Contains.
unfoldable pub contains : Bytes → Bytes → Bool
contains [] p = has_prefix [] p
contains (a ∷ s) p = has_prefix (a ∷ s) p || contains s p

-- The white space of ASCII.
abbrev pub is_space : ℕ → Bool
is_space c = c == 32 || (leb 9 c && leb c 13)

unfoldable pub trim_left : Bytes → Bytes
trim_left [] = []
trim_left (c ∷ s) = if is_space c then trim_left s else c ∷ s

-- strings.TrimSpace, on ASCII text.
unfoldable pub trim_space : Bytes → Bytes
unfolding trim_left
trim_space s = reverse (trim_left (reverse (trim_left s)))

abbrev trim_end : ℕ → ℕ → Bytes → Bytes
trim_end cut c [] = if c == cut then [] else c ∷ []
trim_end cut c (d ∷ s) = c ∷ d ∷ s

-- strings.TrimRight, of one byte.
unfoldable pub trim_right : ℕ → Bytes → Bytes
trim_right cut [] = []
trim_right cut (c ∷ s) = trim_end cut c (trim_right cut s)

abbrev pub is_digit : ℕ → Bool
is_digit c = leb b'0' c && leb c b'9'

-- The value of a run of decimal digits after those already read; `none` at any other byte.
unfoldable pub digits_from : ℕ → Bytes → Option ℕ
digits_from n [] = some n
digits_from n (c ∷ s) =
    let rest = digits_from (n * 10 + (c - b'0')) s in if is_digit c then rest else none

-- The number of at least one digit, with the largest value that is in range.
abbrev pub in_range : ℕ → Option ℕ → Option ℕ
in_range bound none = none
in_range bound (some n) = if leb n bound then some n else none

unfoldable pub unsigned : ℕ → Bytes → Option ℕ
unfolding digits_from
unsigned bound [] = none
unsigned bound (c ∷ s) = in_range bound (digits_from 0 (c ∷ s))

abbrev pub negated : Option ℕ → Option ℤ
negated none = none
negated (some ℕ.zero) = some (pos 0)
negated (some (suc n)) = some (negsuc n)

abbrev pub positive : Option ℕ → Option ℤ
positive none = none
positive (some n) = some (pos n)

-- strconv.Atoi and strconv.ParseInt(s, 10, 64): an optional sign and decimal digits, within the
-- range of int64; `none` is an error.
unfoldable pub atoi : Bytes → Option ℤ
unfolding unsigned
atoi [] = none
atoi (c ∷ s) =
    if c == b'-'
    then negated (unsigned (2 ^ 63) s)
    else if c == b'+'
    then positive (unsigned (2 ^ 63 - 1) s)
    else positive (unsigned (2 ^ 63 - 1) (c ∷ s))

abbrev pub to_lower : ℕ → ℕ
to_lower c = if leb b'A' c && leb c b'Z' then c + 32 else c

-- The text with each character replaced by the lower-case letter of ASCII that folds with it in
-- Unicode: a capital of ASCII, the long s (197, 191) and the Kelvin sign (226, 132, 170).
unfoldable pub fold_case : Bytes → Bytes
fold_case [] = []
fold_case (c ∷ s) =
    let rest = fold_case s in
    if c == 0xc5 && has_prefix s (0xbf ∷ [])
    then b's' ∷ drop 1 rest
    else if c == 0xe2 && has_prefix s (0x84 ∷ 0xaa ∷ [])
    then b'k' ∷ drop 2 rest
    else to_lower c ∷ rest

-- Whether a pattern `(?i)(a|b|...)` of literal alternatives, in lower case, matches somewhere.
unfoldable pub matches_any : List Bytes → Bytes → Bool
unfolding fold_case contains has_prefix
matches_any [] s = false
matches_any (w ∷ ws) s = contains (fold_case s) w || matches_any ws s

pub bytes_eq_refl : (x : Bytes) → bytes_eq x x ≡ true
unfolding bytes_eq
bytes_eq_refl [] = refl
bytes_eq_refl (a ∷ x) = ground (arith, bytes_eq_refl x)

pub bytes_eq_sound : (x y : Bytes) → bytes_eq x y ≡ true → x ≡ y
unfolding bytes_eq
bytes_eq_sound [] [] h = refl
bytes_eq_sound (a ∷ x) (b ∷ y) h = ground (arith, bytes_eq_sound x y)
bytes_eq_sound [] (b ∷ y) h = cc
bytes_eq_sound (a ∷ x) [] h = cc

pub has_prefix-append : (p r : Bytes) → has_prefix (p ++ r) p ≡ true
unfolding has_prefix
has_prefix-append [] [] = refl
has_prefix-append [] (a ∷ r) = refl
has_prefix-append (a ∷ p) r = ground (arith, has_prefix-append p r)

-- A prefix splits the text.
pub has_prefix_sound : (s p : Bytes) → has_prefix s p ≡ true → s ≡ p ++ drop (length p) s
unfolding has_prefix
has_prefix_sound [] [] h = refl
has_prefix_sound (a ∷ s) [] h = refl
has_prefix_sound [] (b ∷ p) h = cc
has_prefix_sound (a ∷ s) (b ∷ p) h = ground (arith, has_prefix_sound s p)
