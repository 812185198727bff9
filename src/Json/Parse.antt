-- ===== src/Json/Parse.antt =====
-- encoding/json: Unmarshal into `any`. Each call of a parser takes one unit of fuel, and uses up
-- at least one byte in two calls. The limit of 10,000 on the nesting depth is left out.
use api_key_rotator.Base.{
  ◌>>=◌, ℕ, zero, suc, ◌+◌, ◌*◌, true, false, ◌||◌, [], ◌∷◌, Option, none, some, ◌==◌,
  if◌then◌else◌, length, drop,
}
use api_key_rotator.Base.Text.{Bytes, codes, has_prefix, is_digit}
use api_key_rotator.Json.Value.{
  Json, null, bool, num, str, arr, obj, Items, nil, cons, Fields, end, field,
}
use api_key_rotator.Json.Strings.{parse_string}
use api_key_rotator.Json.Numbers.{start, is_number, number_span}

unfoldable pub skip_space : Bytes → Bytes
skip_space [] = []
skip_space (c ∷ s) = if c == 32 || c == 9 || c == 10 || c == 13 then skip_space s else c ∷ s

-- What the first byte of a value announces.
pub data Opening : Type 0 where
  brace bracket quote number letter nothing : Opening

abbrev opening : Bytes → Opening
opening [] = nothing
opening (c ∷ s) =
    if c == b'{'
    then brace
    else if c == b'['
    then bracket
    else if c == b'"'
    then quote
    else if is_digit c || c == b'-'
    then number
    else letter

-- The next byte after white space, and what follows it.
abbrev next_byte : Bytes → Option (ℕ × Bytes)
next_byte [] = none
next_byte (c ∷ s) = some (c, s)

abbrev expect : ℕ → Bytes → Option Bytes
expect c s = do (d, rest) ← next_byte (skip_space s); if d == c then some rest else none

abbrev literal : Bytes → Json → Option (Json × Bytes) → Bytes → Option (Json × Bytes)
literal word v other s = if has_prefix s word then some (v, drop (length word) s) else other

unfoldable pub parse_word : Bytes → Option (Json × Bytes)
parse_word s =
    literal (codes "true") (bool true)
      (literal (codes "false") (bool false) (literal (codes "null") null none s) s) s

unfoldable pub parse_number : Bytes → Option (Json × Bytes)
parse_number s =
    let (lit, rest) = number_span s in if is_number start lit then some (num lit, rest) else none

-- Behind an element: the end, or a comma.
pub data Behind : Type 0 where
  closes : Bytes → Behind
  comma : Bytes → Behind
  broken : Behind

abbrev behind : ℕ → Bytes → Behind
behind close s = elim (next_byte (skip_space s)) [
  | none ↦ broken
  | some (c, rest) ↦ if c == close then closes rest else if c == b',' then comma rest else broken
]

unfoldable mutual
  -- A value, after white space.
  pub parse_value : ℕ → Bytes → Option (Json × Bytes)
  parse_value zero s = none
  parse_value (suc n) s = elim (opening (skip_space s)) [
    | brace ↦ elim (behind b'}' (drop 1 (skip_space s))) [
      | closes rest ↦ some (obj end, rest)
      | comma _ ↦ none
      | broken ↦ do (fs, rest) ← parse_fields n (drop 1 (skip_space s)); some (obj fs, rest)
    ]
    | bracket ↦ elim (behind b']' (drop 1 (skip_space s))) [
      | closes rest ↦ some (arr nil, rest)
      | comma _ ↦ none
      | broken ↦ do (vs, rest) ← parse_items n (drop 1 (skip_space s)); some (arr vs, rest)
    ]
    | quote ↦ do (text, rest) ← parse_string (drop 1 (skip_space s)); some (str text, rest)
    | number ↦ parse_number (skip_space s)
    | letter ↦ parse_word (skip_space s)
    | nothing ↦ none
  ]

  -- Elements from the first on, and the closing bracket.
  pub parse_items : ℕ → Bytes → Option (Items × Bytes)
  parse_items zero s = none
  parse_items (suc n) s = do
    (v, rest) ← parse_value n s
    elim (behind b']' rest) [
      | closes after ↦ some (cons v nil, after)
      | comma after ↦ do (vs, last) ← parse_items n after; some (cons v vs, last)
      | broken ↦ none
    ]

  -- Members from the first on, and the closing brace.
  pub parse_fields : ℕ → Bytes → Option (Fields × Bytes)
  parse_fields zero s = none
  parse_fields (suc n) s = do
    inside ← expect b'"' s
    (k, named) ← parse_string inside
    value ← expect b':' named
    (v, rest) ← parse_value n value
    elim (behind b'}' rest) [
      | closes after ↦ some (field k v end, after)
      | comma after ↦ do (fs, last) ← parse_fields n after; some (field k v fs, last)
      | broken ↦ none
    ]

abbrev whole : Option (Json × Bytes) → Option Json
whole none = none
whole (some (v, rest)) = elim (skip_space rest) [ [] ↦ some v | _ ∷ _ ↦ none ]

-- json.Unmarshal of a whole body; `none` is an error.
unfoldable pub unmarshal : Bytes → Option Json
unfolding parse_value parse_word parse_number skip_space has_prefix is_number number_span
    parse_string
unmarshal s = whole (parse_value (2 * length s + 2) s)
