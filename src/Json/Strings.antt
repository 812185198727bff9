-- ===== src/Json/Strings.antt =====
-- encoding/json: the text of a string literal. Bytes that are no UTF-8 are kept as they are, where
-- Unmarshal puts U+FFFD.
use api_key_rotator.Base.{
  ℕ, zero, suc, ◌+◌, ◌-◌, ◌*◌, ◌/◌, ◌%◌, Bool, ◌&&◌, ◌||◌, List, [], ◌∷◌, ◌++◌, Option, none, some,
  ltb, leb, ◌==◌, if◌then◌else◌,
}
use mathlib.Core.Option
use api_key_rotator.Base.Text.{Bytes, is_digit}

-- A byte of the text, or a UTF-16 unit that was written \uXXXX.
pub data Token : Type 0 where
  byte : ℕ → Token
  unit : ℕ → Token

pub data Mode : Type 0 where
  plain : Mode
  escape : Mode
  hex : ℕ → ℕ → Mode

pub data CharClass : Type 0 where
  quote backslash control ordinary : CharClass

abbrev char_class : ℕ → CharClass
char_class c =
    if c == b'"'
    then quote
    else if c == 92
    then backslash
    else if ltb c 32
    then control
    else ordinary

pub data Escape : Type 0 where
  stands_for : ℕ → Escape
  unicode : Escape
  wrong : Escape

abbrev escaped : ℕ → Escape
escaped c =
    if c == b'"' || c == 92 || c == b'/'
    then stands_for c
    else if c == b'b'
    then stands_for 8
    else if c == b'f'
    then stands_for 12
    else if c == b'n'
    then stands_for 10
    else if c == b'r'
    then stands_for 13
    else if c == b't'
    then stands_for 9
    else if c == b'u'
    then unicode
    else wrong

abbrev hex_digit : ℕ → Option ℕ
hex_digit c =
    if is_digit c
    then some (c - b'0')
    else if leb b'a' c && leb c b'f'
    then some (c - b'a' + 10)
    else if leb b'A' c && leb c b'F'
    then some (c - b'A' + 10)
    else none

abbrev prepend : Token → Option (List Token × Bytes) → Option (List Token × Bytes)
prepend t none = none
prepend t (some (ts, rest)) = some (t ∷ ts, rest)

-- From behind the opening quote to behind the closing one.
unfoldable pub lex : Mode → Bytes → Option (List Token × Bytes)
lex plain [] = none
lex escape [] = none
lex (hex n v) [] = none
lex plain (c ∷ s) = elim (char_class c) [
  | quote ↦ some ([], s)
  | backslash ↦ lex escape s
  | control ↦ none
  | ordinary ↦ prepend (byte c) (lex plain s)
]
lex escape (c ∷ s) = elim (escaped c) [
  | stands_for b ↦ prepend (byte b) (lex plain s)
  | unicode ↦ lex (hex 3 0) s
  | wrong ↦ none
]
lex (hex zero v) (c ∷ s) = elim (hex_digit c) [
  | none ↦ none
  | some d ↦ prepend (unit (v * 16 + d)) (lex plain s)
]
lex (hex (suc n) v) (c ∷ s) = elim (hex_digit c) [
  | none ↦ none
  | some d ↦ lex (hex n (v * 16 + d)) s
]

abbrev is_high : ℕ → Bool
is_high u = leb 0xd800 u && leb u 0xdbff

abbrev is_low : ℕ → Bool
is_low u = leb 0xdc00 u && leb u 0xdfff

-- utf8.AppendRune
unfoldable pub utf8 : ℕ → Bytes
utf8 r =
    if ltb r 0x80
    then r ∷ []
    else if ltb r 0x800
    then (0xc0 + r / 64) ∷ (0x80 + r % 64) ∷ []
    else if ltb r 0x10000
    then (0xe0 + r / 4096) ∷ (0x80 + r / 64 % 64) ∷ (0x80 + r % 64) ∷ []
    else (0xf0 + r / 262144) ∷ (0x80 + r / 4096 % 64) ∷ (0x80 + r / 64 % 64) ∷ (0x80 + r % 64) ∷ []

-- A surrogate that stands alone becomes U+FFFD.
abbrev alone : ℕ → Bytes
alone u = utf8 (if is_high u || is_low u then 0xfffd else u)

unfoldable pub join : List Token → Bytes
unfolding utf8
join [] = []
join (byte b ∷ ts) = b ∷ join ts
join (unit u ∷ []) = alone u
join (unit u ∷ byte b ∷ ts) = alone u ++ b ∷ join ts
join (unit u ∷ unit w ∷ ts) =
    let pair = utf8 ((u - 0xd800) * 1024 + (w - 0xdc00) + 0x10000) ++ join ts in
    let single = alone u ++ join (unit w ∷ ts) in if is_high u && is_low w then pair else single

unfoldable pub parse_string : Bytes → Option (Bytes × Bytes)
unfolding lex join
parse_string s = Option.map (λ r. (join r.0, r.1)) (lex plain s)
