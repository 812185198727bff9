-- ===== src/Config.antt =====
-- config.go: the keys, the prefixes and the thresholds that the environment gives. The environment
-- is a function, as os.Getenv is; an error is `none`, its text left out.
pub mod Laws
pub mod State
pub mod Values
pub mod Providers
pub mod Load
pub mod Accepted
pub mod Sample
mod Tests
use api_key_rotator.Base.{
  ℕ, zero, suc, Bool, true, false, not, ◌&&◌, ◌||◌, List, [], ◌∷◌, ◌++◌, Option, none, some, ltb,
  ◌==◌, if◌then◌else◌, length, drop,
}
use api_key_rotator.Base.Int.{ℤ, pos, negsuc}
use api_key_rotator.Base.Text.{Bytes, codes, bytes_eq, has_prefix, trim_space, atoi}
use api_key_rotator.Base.Text.{is_empty, slash}

abbrev pub Environment : Type 0
Environment = Bytes → Bytes

-- strings.Split at the commas: `head` is the part that is being read.
abbrev push : ℕ → List Bytes → List Bytes
push c [] = (c ∷ []) ∷ []
push c (part ∷ parts) = (c ∷ part) ∷ parts

unfoldable pub split_commas : Bytes → List Bytes
split_commas [] = [] ∷ []
split_commas (c ∷ s) = let rest = split_commas s in if c == b',' then [] ∷ rest else push c rest

unfoldable pub keep_keys : List Bytes → List Bytes
keep_keys [] = []
keep_keys (part ∷ parts) =
    let rest = keep_keys parts in
    if is_empty (trim_space part) then rest else trim_space part ∷ rest

unfoldable pub parse_keys : Bytes → List Bytes
unfolding split_commas keep_keys
parse_keys raw = keep_keys (split_commas raw)

unfoldable pub ends_in_slash : Bytes → Bool
ends_in_slash [] = false
ends_in_slash (c ∷ []) = c == b'/'
ends_in_slash (c ∷ d ∷ s) = ends_in_slash (d ∷ s)

-- Whether there is no error.
unfoldable pub check_route_prefix : Bytes → Bool
unfolding ends_in_slash
check_route_prefix prefix =
    if not (has_prefix prefix slash) || ltb (length prefix) 2 || ends_in_slash prefix
    then false
    else not (bytes_eq prefix (codes "/healthz") || bytes_eq prefix (codes "/status"))

abbrev non_negative : Option ℤ → Option (Option ℕ)
non_negative none = none
non_negative (some (negsuc n)) = none
non_negative (some (pos n)) = some (some n)

-- `some none` is an absent value.
unfoldable pub parse_opt_int64 : Environment → Bytes → Option (Option ℕ)
parse_opt_int64 env name =
    if is_empty (trim_space (env name))
    then some none
    else non_negative (atoi (trim_space (env name)))

abbrev at_least_one : Option (Option ℕ) → Option (Option ℕ)
at_least_one none = none
at_least_one (some none) = some none
at_least_one (some (some n)) = if ltb n 1 then none else some (some n)

unfoldable pub parse_daily_budget : Environment → Bytes → Option (Option ℕ)
unfolding parse_opt_int64
parse_daily_budget env name = at_least_one (parse_opt_int64 env name)

abbrev pub or_default : ℕ → Option ℕ → ℕ
or_default d none = d
or_default d (some n) = n

abbrev exceeds : ℕ → Option ℕ → Bool
exceeds stop none = false
exceeds stop (some budget) = ltb budget stop

-- A budget that is not set is `none`, -1 in the source.
unfoldable pub check_thresholds : Option ℕ → ℕ → ℕ → Option (Option ℕ × ℕ × ℕ)
check_thresholds budget low stop =
    if exceeds stop budget then none else if ltb low stop then none else some (budget, low, stop)

unfoldable pub resolve_thresholds :
    ℕ → ℕ → Option (Option ℕ) → Option (Option ℕ) → Option (Option ℕ) → Option (Option ℕ × ℕ × ℕ)
unfolding check_thresholds
resolve_thresholds def_low def_stop none low stop = none
resolve_thresholds def_low def_stop (some budget) none stop = none
resolve_thresholds def_low def_stop (some budget) (some low) none = none
resolve_thresholds def_low def_stop (some budget) (some low) (some stop) =
    check_thresholds budget (or_default def_low low) (or_default def_stop stop)

unfoldable pub finance_daily_thresholds :
    Environment → Bytes → Bytes → Bytes → ℕ → ℕ → Option (Option ℕ × ℕ × ℕ)
unfolding resolve_thresholds parse_daily_budget
finance_daily_thresholds env low_name stop_name budget_name def_low def_stop =
    resolve_thresholds def_low def_stop (parse_daily_budget env budget_name)
      (parse_opt_int64 env low_name) (parse_opt_int64 env stop_name)
