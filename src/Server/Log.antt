-- ===== src/Server/Log.antt =====
-- server.go: logger. What a method writes to stderr is its value. The texts that package time makes
-- of an instant and package fmt of a float are parameters.
pub mod Laws
use api_key_rotator.Base.{ℕ, Bool, true, false, suc, List, [], ◌∷◌, ◌++◌, if◌then◌else◌}
use api_key_rotator.Base.Int.{ℤ, pos, negsuc}
use api_key_rotator.Base.Decimal.{itoa}
use api_key_rotator.Base.Text.{Bytes, codes, bytes_eq}
use api_key_rotator.Floats.{Float}

-- time.Format with RFC3339, and %v at a float64.
pub record Formats : Type 0 where
  pub instant : ℕ → Bytes
  pub float : Float → Bytes

pub record Logger : Type 0 where
  pub level : Bytes

-- The values that the calls pass: strings, integers, Booleans and floats.
pub data LogValue : Type 0 where
  text : Bytes → LogValue
  int : ℤ → LogValue
  boolean : Bool → LogValue
  real : Float → LogValue

abbrev pub newline : Bytes
newline = 10 ∷ []

-- %v
unfoldable pub shown : Formats → LogValue → Bytes
unfolding itoa
shown fmt (text s) = s
shown fmt (int (pos n)) = itoa n
shown fmt (int (negsuc n)) = codes "-" ++ itoa (suc n)
shown fmt (boolean true) = codes "true"
shown fmt (boolean false) = codes "false"
shown fmt (real f) = fmt.float f

-- The loop over the pairs; a last name without a value is left out.
unfoldable pub shown_pairs : Formats → List LogValue → Bytes
unfolding shown
shown_pairs fmt [] = []
shown_pairs fmt (k ∷ []) = []
shown_pairs fmt (k ∷ v ∷ kv) =
    codes " " ++ (shown fmt k ++ (codes "=" ++ (shown fmt v ++ shown_pairs fmt kv)))

unfoldable pub log : Formats → Bytes → ℕ → Bytes → List LogValue → Bytes
unfolding shown_pairs
log fmt level now msg kv =
    codes "["
    ++ (level
        ++ (codes "] "
            ++ (fmt.instant now ++ (codes " " ++ (msg ++ (shown_pairs fmt kv ++ newline))))))

unfoldable pub info : Formats → ℕ → Bytes → List LogValue → Bytes
unfolding log
info fmt now msg kv = log fmt (codes "info") now msg kv

unfoldable pub warn : Formats → ℕ → Bytes → List LogValue → Bytes
unfolding log
warn fmt now msg kv = log fmt (codes "warn") now msg kv

unfoldable pub error : Formats → ℕ → Bytes → List LogValue → Bytes
unfolding log
error fmt now msg kv = log fmt (codes "error") now msg kv

unfoldable pub debug : Formats → Logger → ℕ → Bytes → List LogValue → Bytes
unfolding log
debug fmt l now msg kv =
    if bytes_eq l.level (codes "debug") then log fmt (codes "debug") now msg kv else []

abbrev pub new_logger : Bytes → Logger
new_logger level = record { level = level }
