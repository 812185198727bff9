-- ===== src/Rewrite/Paths.antt =====
-- rewrite.go: what rewriteNextInValue makes of the value at the end of a path of keys and indices.
use api_key_rotator.Base.{
  ℕ, zero, suc, ◌≡◌, refl, sym, ap, ◌∙◌, Bool, true, false, List, [], ◌∷◌, Option, none, some,
  if◌then◌else◌, Bool-cases, inl, inr,
}
use mathlib.Core.Option
use api_key_rotator.Base.Text.{Bytes, bytes_eq, bytes_eq_sound}
use api_key_rotator.Floats.{Float}
use api_key_rotator.Json.Any.{
  Any, null_any, bool_any, float64, text, slice, dict, Elements, no_elements, element, Entries,
  no_entries, entry, lookup,
}
use api_key_rotator.Rewrite.{
  is_next, replaced, rewrite_text, rewrite_value, rewrite_elements, rewrite_entries,
}

-- What rewriteNextInValue makes of a member, `b` telling whether its key is "next".
abbrev pub member : (Bytes → Option Bytes) → Bool → Any → Any × Bool
member one b v =
    if b then replaced (rewrite_text one v) (rewrite_value one v) else rewrite_value one v

-- A way into a value.
pub data Step : Type 0 where
  key : Bytes → Step
  index : ℕ → Step

unfoldable pub nth : ℕ → Elements → Option Any
nth i no_elements = none
nth zero (element v es) = some v
nth (suc i) (element v es) = nth i es

-- The value at the end of a path.
unfoldable pub at : List Step → Any → Option Any
unfolding nth lookup
at [] v = some v
at (key k ∷ path) (dict es) = elim (lookup k es) [ none ↦ none | some v ↦ at path v ]
at (index i ∷ path) (slice es) = elim (nth i es) [ none ↦ none | some v ↦ at path v ]
at (_ ∷ path) _ = none

-- Whether a path ends in the key "next"; `b` is the answer for the empty path.
abbrev pub ends_in_next : Bool → List Step → Bool
ends_in_next b [] = b
ends_in_next b (key k ∷ path) = ends_in_next (is_next k) path
ends_in_next b (index i ∷ path) = ends_in_next false path

lookup-rewrite_entries :
    (one : Bytes → Option Bytes) (k : Bytes) (es : Entries)
    → lookup k (rewrite_entries one es).0
      ≡ Option.map (λ v. (member one (is_next k) v).0) (lookup k es)
unfolding lookup rewrite_entries
lookup-rewrite_entries one k no_entries = refl
lookup-rewrite_entries one k (entry k' v es) = elim (Bool-cases (bytes_eq k' k)) [
  | inl same ↦ rw same (ap (λ n. some (member one (is_next n) v).0) (bytes_eq_sound k' k same))
  | inr other ↦ rw other (lookup-rewrite_entries one k es)
]

nth-rewrite_elements :
    (one : Bytes → Option Bytes) (i : ℕ) (es : Elements)
    → nth i (rewrite_elements one es).0 ≡ Option.map (λ v. (rewrite_value one v).0) (nth i es)
unfolding nth rewrite_elements
nth-rewrite_elements one i no_elements = refl
nth-rewrite_elements one zero (element v es) = refl
nth-rewrite_elements one (suc i) (element v es) = nth-rewrite_elements one i es

text_inner :
    (o : Option Bytes) (s : Bytes) (step : Step) (path : List Step)
    → at (step ∷ path) (replaced o (text s, false)).0 ≡ none
unfolding at
text_inner none s (key k) path = refl
text_inner none s (index i) path = refl
text_inner (some t) s (key k) path = refl
text_inner (some t) s (index i) path = refl

-- Whether a value is under "next" does not matter to what is inside it.
member_inner :
    (one : Bytes → Option Bytes) (b : Bool) (step : Step) (path : List Step) (v : Any)
    → at (step ∷ path) (member one b v).0 ≡ at (step ∷ path) (rewrite_value one v).0
unfolding at rewrite_value
member_inner one false step path v = refl
member_inner one true step path (text s) =
    text_inner (one s) s step path ∙ sym (text_inner none s step path)
member_inner one true step path null_any = refl
member_inner one true step path (bool_any b) = refl
member_inner one true step path (float64 f) = refl
member_inner one true step path (slice es) = refl
member_inner one true step path (dict es) = refl

abbrev follow : List Step → Option Any → Option Any
follow path none = none
follow path (some v) = at path v

-- Values at the end of `path` after the rewriting, when they are those before it, rewritten.
abbrev Inner : (Bytes → Option Bytes) → List Step → Bool → Bool → Type 0
Inner one path end b =
    (u : Any) → at path (member one b u).0 ≡ Option.map (λ w. (member one end w).0) (at path u)

module _ (one : Bytes → Option Bytes) (path : List Step) (end : Bool) where
  followed :
      (b : Bool) (o : Option Any)
      → Inner one path end b
      → follow path (Option.map (λ v. (member one b v).0) o)
        ≡ Option.map (λ w. (member one end w).0) (follow path o)
  followed b none inner = refl
  followed b (some u) inner = inner u

  through_key :
      (k : Bytes) (v : Any)
      → Inner one path end (is_next k)
      → at (key k ∷ path) (rewrite_value one v).0
        ≡ Option.map (λ w. (member one end w).0) (at (key k ∷ path) v)
  unfolding at rewrite_value
  through_key k (dict es) inner =
      rw (lookup-rewrite_entries one k es) (followed (is_next k) (lookup k es) inner)
  through_key k null_any inner = refl
  through_key k (bool_any x) inner = refl
  through_key k (float64 x) inner = refl
  through_key k (text x) inner = refl
  through_key k (slice x) inner = refl

  through_index :
      (i : ℕ) (v : Any)
      → Inner one path end false
      → at (index i ∷ path) (rewrite_value one v).0
        ≡ Option.map (λ w. (member one end w).0) (at (index i ∷ path) v)
  unfolding at rewrite_value
  through_index i (slice es) inner =
      rw (nth-rewrite_elements one i es) (followed false (nth i es) inner)
  through_index i null_any inner = refl
  through_index i (bool_any x) inner = refl
  through_index i (float64 x) inner = refl
  through_index i (text x) inner = refl
  through_index i (dict x) inner = refl

at-member :
    (one : Bytes → Option Bytes) (b : Bool) (path : List Step) (v : Any)
    → at path (member one b v).0
      ≡ Option.map (λ u. (member one (ends_in_next b path) u).0) (at path v)
unfolding at
at-member one b [] v = refl
at-member one b (key k ∷ path) v =
    member_inner one b (key k) path v
    ∙ through_key one path (ends_in_next (is_next k) path) k v (at-member one (is_next k) path)
at-member one b (index i ∷ path) v =
    member_inner one b (index i) path v
    ∙ through_index one path (ends_in_next false path) i v (at-member one false path)

pub at-rewrite_value :
    (one : Bytes → Option Bytes) (path : List Step) (v : Any)
    → at path (rewrite_value one v).0
      ≡ Option.map (λ u. (member one (ends_in_next false path) u).0) (at path v)
at-rewrite_value one path v = at-member one false path v

-- What a value is, without the values inside it: those of a list are counted, those of an object
-- named.
pub data Shape : Type 0 where
  nothing : Shape
  truth : Bool → Shape
  number : Float → Shape
  string : Bytes → Shape
  array : ℕ → Shape
  object : List Bytes → Shape

abbrev pub count : Elements → ℕ
count no_elements = 0
count (element v es) = suc (count es)

abbrev pub keys : Entries → List Bytes
keys no_entries = []
keys (entry k v es) = k ∷ keys es

abbrev pub shape : Any → Shape
shape null_any = nothing
shape (bool_any b) = truth b
shape (float64 f) = number f
shape (text s) = string s
shape (slice es) = array (count es)
shape (dict es) = object (keys es)

-- A string is replaced when `one` gives another for it.
abbrev pub or_kept : Bytes → Option Bytes → Bytes
or_kept s none = s
or_kept s (some t) = t

-- What stays at its place, `next` telling whether the place is under the key "next".
abbrev pub swapped : (Bytes → Option Bytes) → Bool → Shape → Shape
swapped one true (string s) = string (or_kept s (one s))
swapped one next sh = sh

count-rewrite_elements :
    (one : Bytes → Option Bytes) (es : Elements) → count (rewrite_elements one es).0 ≡ count es
unfolding rewrite_elements
count-rewrite_elements one no_elements = refl
count-rewrite_elements one (element v es) = ap suc (count-rewrite_elements one es)

keys-rewrite_entries :
    (one : Bytes → Option Bytes) (es : Entries) → keys (rewrite_entries one es).0 ≡ keys es
unfolding rewrite_entries
keys-rewrite_entries one no_entries = refl
keys-rewrite_entries one (entry k v es) = ap (λ ks. k ∷ ks) (keys-rewrite_entries one es)

shape-replaced :
    (s : Bytes) (o : Option Bytes) → shape (replaced o (text s, false)).0 ≡ string (or_kept s o)
shape-replaced s none = refl
shape-replaced s (some t) = refl

shape-member :
    (one : Bytes → Option Bytes) (b : Bool) (v : Any)
    → shape (member one b v).0 ≡ swapped one b (shape v)
unfolding rewrite_value
shape-member one true (text s) = shape-replaced s (one s)
shape-member one false (text s) = refl
shape-member one true null_any = refl
shape-member one false null_any = refl
shape-member one true (bool_any x) = refl
shape-member one false (bool_any x) = refl
shape-member one true (float64 x) = refl
shape-member one false (float64 x) = refl
shape-member one true (slice es) = ap array (count-rewrite_elements one es)
shape-member one false (slice es) = ap array (count-rewrite_elements one es)
shape-member one true (dict es) = ap object (keys-rewrite_entries one es)
shape-member one false (dict es) = ap object (keys-rewrite_entries one es)

shapes :
    (one : Bytes → Option Bytes) (b : Bool) (o : Option Any)
    → Option.map shape (Option.map (λ u. (member one b u).0) o)
      ≡ Option.map (swapped one b) (Option.map shape o)
shapes one b none = refl
shapes one b (some u) = ap some (shape-member one b u)

abbrev pub shape_at : List Step → Any → Option Shape
shape_at path v = Option.map shape (at path v)

-- Rewriting keeps the places of a body and what stands at them, but for the strings under "next":
-- behind every path of keys and indices there is something after it exactly when there was before,
-- a null, a truth value, a number, a list of the same length or an object with the same keys in the
-- same order as before, and a string stays the same unless the path ends in the key "next" and `one`
-- gives another string for it, which then stands there.
pub shape_at-rewrite_value :
    (one : Bytes → Option Bytes) (path : List Step) (v : Any)
    → shape_at path (rewrite_value one v).0
      ≡ Option.map (swapped one (ends_in_next false path)) (shape_at path v)
shape_at-rewrite_value one path v =
    ap (Option.map shape) (at-rewrite_value one path v)
    ∙ shapes one (ends_in_next false path) (at path v)
