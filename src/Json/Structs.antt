-- ===== src/Json/Structs.antt =====
-- encoding/json: the kinds of fields that only the usage endpoints have. A later value replaces an
-- earlier one, and two objects for the same struct are read one after the other.
use api_key_rotator.Base.{Bool, List, [], ◌∷◌, Option, none, some}
use api_key_rotator.Base.Int.{ℤ}
use api_key_rotator.Base.Text.{Bytes, atoi}
use api_key_rotator.Floats.{Float, Floats}
use api_key_rotator.Json.Value.{Json, null, bool, num, str, obj, Fields, end, field}

-- Into a `bool` that holds `acc`.
unfoldable pub bool_field : List Json → Bool → Option Bool
bool_field [] acc = some acc
bool_field (null ∷ vs) acc = bool_field vs acc
bool_field (bool b ∷ vs) acc = bool_field vs b
bool_field (_ ∷ vs) acc = none

-- Into a `string` that holds `acc`.
unfoldable pub string_field : List Json → Bytes → Option Bytes
string_field [] acc = some acc
string_field (null ∷ vs) acc = string_field vs acc
string_field (str s ∷ vs) acc = string_field vs s
string_field (_ ∷ vs) acc = none

-- Into a `*int64` that holds `acc`.
unfoldable pub int64_pointer : List Json → Option ℤ → Option (Option ℤ)
int64_pointer [] acc = some acc
int64_pointer (null ∷ vs) acc = int64_pointer vs none
int64_pointer (num lit ∷ vs) acc = elim (atoi lit) [
  | none ↦ none
  | some n ↦ int64_pointer vs (some n)
]
int64_pointer (_ ∷ vs) acc = none

-- Into a `float64` that holds `acc`.
unfoldable pub float_field : Floats → List Json → Float → Option Float
float_field fl [] acc = some acc
float_field fl (null ∷ vs) acc = float_field fl vs acc
float_field fl (num lit ∷ vs) acc = elim (fl.parse_float lit) [
  | none ↦ none
  | some f ↦ float_field fl vs f
]
float_field fl (_ ∷ vs) acc = none

-- Into a `*float64` that holds `acc`.
unfoldable pub float_pointer : Floats → List Json → Option Float → Option (Option Float)
float_pointer fl [] acc = some acc
float_pointer fl (null ∷ vs) acc = float_pointer fl vs none
float_pointer fl (num lit ∷ vs) acc = elim (fl.parse_float lit) [
  | none ↦ none
  | some f ↦ float_pointer fl vs (some f)
]
float_pointer fl (_ ∷ vs) acc = none

abbrev pub join_fields : Fields → Fields → Fields
join_fields end gs = gs
join_fields (field k v fs) gs = field k v (join_fields fs gs)

-- The fields for a struct that is a field, after those of `acc`.
unfoldable pub struct_field : List Json → Fields → Option Fields
struct_field [] acc = some acc
struct_field (null ∷ vs) acc = struct_field vs acc
struct_field (obj fs ∷ vs) acc = struct_field vs (join_fields acc fs)
struct_field (_ ∷ vs) acc = none

abbrev or_end : Option Fields → Fields
or_end none = end
or_end (some fs) = fs

-- The same for a pointer to a struct, which `null` sets back to nil.
unfoldable pub struct_pointer : List Json → Option Fields → Option (Option Fields)
struct_pointer [] acc = some acc
struct_pointer (null ∷ vs) acc = struct_pointer vs none
struct_pointer (obj fs ∷ vs) acc = struct_pointer vs (some (join_fields (or_end acc) fs))
struct_pointer (_ ∷ vs) acc = none
