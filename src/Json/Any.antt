-- ===== src/Json/Any.antt =====
-- encoding/json: Unmarshal into `any` and into map[string]any. A number is read as a float64, and
-- one out of its range is an error; the last of several members with the same name stays. The order
-- of a map, which Go does not fix, is that of the first members.
use api_key_rotator.Base.{◌>>=◌, Bool, Option, none, some, if◌then◌else◌}
use api_key_rotator.Base.Text.{Bytes, bytes_eq}
use api_key_rotator.Floats.{Float, Floats}
use api_key_rotator.Json.Value.{
  Json, null, bool, num, str, arr, obj, Items, nil, cons, Fields, end, field,
}
use api_key_rotator.Json.Parse.{unmarshal}

mutual
  pub data Any : Type 0 where
    null_any : Any
    bool_any : Bool → Any
    float64 : Float → Any
    text : Bytes → Any
    slice : Elements → Any
    dict : Entries → Any

  pub data Elements : Type 0 where
    no_elements : Elements
    element : Any → Elements → Elements

  pub data Entries : Type 0 where
    no_entries : Entries
    entry : Bytes → Any → Entries → Entries

-- `m[k]`
unfoldable pub lookup : Bytes → Entries → Option Any
lookup name no_entries = none
lookup name (entry k v es) = let later = lookup name es in if bytes_eq k name then some v else later

-- `m[k] = v`
unfoldable pub store : Bytes → Any → Entries → Entries
store name w no_entries = entry name w no_entries
store name w (entry k v es) =
    let later = store name w es in if bytes_eq k name then entry k w es else entry k v later

unfoldable mutual
  pub to_any : Floats → Json → Option Any
  to_any fl null = some null_any
  to_any fl (bool b) = some (bool_any b)
  to_any fl (num lit) = do f ← fl.parse_float lit; some (float64 f)
  to_any fl (str s) = some (text s)
  to_any fl (arr vs) = do es ← to_elements fl vs; some (slice es)
  to_any fl (obj fs) = do es ← to_entries fl fs no_entries; some (dict es)

  pub to_elements : Floats → Items → Option Elements
  to_elements fl nil = some no_elements
  to_elements fl (cons v vs) = do e ← to_any fl v; es ← to_elements fl vs; some (element e es)

  pub to_entries : Floats → Fields → Entries → Option Entries
  to_entries fl end es = some es
  to_entries fl (field k v fs) es = do e ← to_any fl v; to_entries fl fs (store k e es)

-- Into `any`.
unfoldable pub decode_any : Floats → Bytes → Option Any
unfolding unmarshal to_any
decode_any fl body = do v ← unmarshal body; to_any fl v

-- Into a map[string]any; `null` leaves it empty.
abbrev entries_of : Any → Option Entries
entries_of null_any = some no_entries
entries_of (dict es) = some es
entries_of _ = none

unfoldable pub decode_map : Floats → Bytes → Option Entries
unfolding decode_any
decode_map fl body = do v ← decode_any fl body; entries_of v
