-- ===== src/Json/Decode.antt =====
-- encoding/json: Unmarshal into the structs of the source. A key of the input stands for a field if
-- the two fold together; a later value replaces an earlier one; a value of a wrong type is an error.
use api_key_rotator.Base.{◌>>=◌, Bool, List, [], ◌∷◌, Option, none, some, if◌then◌else◌}
use api_key_rotator.Base.Int.{ℤ, pos}
use api_key_rotator.Base.Text.{Bytes, codes, bytes_eq, fold_case, atoi}
use api_key_rotator.Json.Value.{Json, null, bool, num, obj, Fields, end, field}
use api_key_rotator.Json.Parse.{unmarshal}

-- The values under a name, in the order of the input.
unfoldable pub members : Bytes → Fields → List Json
unfolding bytes_eq fold_case
members name end = []
members name (field k v fs) =
    if bytes_eq (fold_case k) (fold_case name) then v ∷ members name fs else members name fs

-- The fields of a value that is decoded into a struct.
abbrev pub struct_fields : Json → Option Fields
struct_fields null = some end
struct_fields (obj fs) = some fs
struct_fields _ = none

-- Into a `*bool` that holds `acc`.
abbrev pub bool_pointer : List Json → Option Bool → Option (Option Bool)
bool_pointer [] acc = some acc
bool_pointer (null ∷ vs) acc = bool_pointer vs none
bool_pointer (bool b ∷ vs) acc = bool_pointer vs (some b)
bool_pointer (_ ∷ vs) acc = none

-- Into an `int64` that holds `acc`.
unfoldable pub int64_field : List Json → ℤ → Option ℤ
int64_field [] acc = some acc
int64_field (null ∷ vs) acc = int64_field vs acc
int64_field (num lit ∷ vs) acc = elim (atoi lit) [ none ↦ none | some n ↦ int64_field vs n ]
int64_field (_ ∷ vs) acc = none

-- struct { Success *bool }
unfoldable pub decode_success : Bytes → Option (Option Bool)
unfolding unmarshal members
decode_success body = do
  v ← unmarshal body
  fs ← struct_fields v
  bool_pointer (members (codes "success") fs) none

-- struct { CreditsUsed int64 }
unfoldable pub decode_credits_used : Bytes → Option ℤ
unfolding unmarshal members int64_field atoi
decode_credits_used body = do
  v ← unmarshal body
  fs ← struct_fields v
  int64_field (members (codes "creditsUsed") fs) (pos 0)
