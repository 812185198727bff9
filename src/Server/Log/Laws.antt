-- ===== src/Server/Log/Laws.antt =====
-- server.go: the lines of the log.
use api_key_rotator.Base.{ℕ, ◌+◌, ◌≡◌, refl, List, [], ◌∷◌, ◌++◌, arith, ◌==◌, if◌then◌else◌}
use api_key_rotator.Base.Text.{Bytes, codes}
use api_key_rotator.Server.Log.{Formats, LogValue, shown, shown_pairs, log, newline}

-- The number of line ends.
abbrev pub line_ends : Bytes → ℕ
line_ends [] = 0
line_ends (c ∷ s) = (if c == 10 then 1 else 0) + line_ends s

pub line_ends-append : (s t : Bytes) → line_ends (s ++ t) ≡ line_ends s + line_ends t
line_ends-append [] t = omega arith
line_ends-append (c ∷ s) t = omega (arith, line_ends-append s t)

-- Those that the names and values of the pairs bring.
abbrev pub line_ends_in : Formats → List LogValue → ℕ
line_ends_in fmt [] = 0
line_ends_in fmt (k ∷ []) = 0
line_ends_in fmt (k ∷ v ∷ kv) =
    line_ends (shown fmt k) + line_ends (shown fmt v) + line_ends_in fmt kv

line_ends-shown_pairs :
    (fmt : Formats) (kv : List LogValue) → line_ends (shown_pairs fmt kv) ≡ line_ends_in fmt kv
unfolding shown_pairs
line_ends-shown_pairs fmt [] = refl
line_ends-shown_pairs fmt (k ∷ []) = refl
line_ends-shown_pairs fmt (k ∷ v ∷ kv) = omega (
  arith,
  line_ends-append (shown fmt k) (codes "=" ++ (shown fmt v ++ shown_pairs fmt kv)),
  line_ends-append (shown fmt v) (shown_pairs fmt kv),
  line_ends-shown_pairs fmt kv,
)

-- A call of the logger writes one line end of its own, and besides those of its level, its instant,
-- its message and its values: a value with a line end in it is not escaped.
pub line_ends-log :
    (fmt : Formats) (level : Bytes) (now : ℕ) (msg : Bytes) (kv : List LogValue)
    → line_ends (log fmt level now msg kv)
      ≡ 1 + line_ends level + line_ends (fmt.instant now) + line_ends msg + line_ends_in fmt kv
unfolding log
line_ends-log fmt level now msg kv = omega (
  arith,
  line_ends-append level
      (codes "] " ++ (fmt.instant now ++ (codes " " ++ (msg ++ (shown_pairs fmt kv ++ newline))))),
  line_ends-append (fmt.instant now) (codes " " ++ (msg ++ (shown_pairs fmt kv ++ newline))),
  line_ends-append msg (shown_pairs fmt kv ++ newline),
  line_ends-append (shown_pairs fmt kv) newline,
  line_ends-shown_pairs fmt kv,
)
