-- ===== src/Functions/Like.antt =====
-- functions/string/like.go. The text and the pattern are lists of runes; those of BYTES have a rune for
-- each byte. The regular expression that the source writes is the list of its parts.
pub mod Meaning
use googlesqlite.Base.{ℕ, Option, none, some, Bool, true, false, ◌&&◌, ◌||◌, List, [], ◌∷◌, ◌==◌}
use googlesqlite.Functions.Value.{
  Value, string, bytes, other, wrong_type, Result, ok, err, ◌>>=◌, converted, scalar_2,
}

-- `regexp.QuoteMeta` of a character, `.` and `.*`.
pub data Part : Type 0 where
  literal : ℕ → Part
  any run : Part

-- The cases of the loop, except the backslash.
abbrev pub part : ℕ → Part
part c = elim (c == b'_') [
  | true ↦ any
  | false ↦ elim (c == b'%') [ true ↦ run | false ↦ literal c ]
]

abbrev pub followed_by : Part → Option (List Part) → Option (List Part)
followed_by p none = none
followed_by p (some ps) = some (p ∷ ps)

-- `likePatternToRegexp`: `none` is the error of a pattern that ends with a backslash.
unfoldable pub like_pattern_to_regexp : List ℕ → Option (List Part)
like_pattern_to_regexp [] = some []
like_pattern_to_regexp (c ∷ []) = elim (c == b'\\') [ true ↦ none | false ↦ some (part c ∷ []) ]
like_pattern_to_regexp (c ∷ d ∷ p) = elim (c == b'\\') [
  | true ↦ followed_by (literal d) (like_pattern_to_regexp p)
  | false ↦ followed_by (part c) (like_pattern_to_regexp (d ∷ p))
]

-- Whether a test holds on a rest of the text.
unfoldable pub on_rest : (List ℕ → Bool) → List ℕ → Bool
on_rest f [] = f []
on_rest f (c ∷ s) = f (c ∷ s) || on_rest f s

-- `MatchString` of the parts between `^` and `$`, where a point matches newlines too.
unfoldable pub match_string : List Part → List ℕ → Bool
unfolding on_rest
match_string [] [] = true
match_string [] (c ∷ s) = false
match_string (literal d ∷ ps) [] = false
match_string (literal d ∷ ps) (c ∷ s) = d == c && match_string ps s
match_string (any ∷ ps) [] = false
match_string (any ∷ ps) (c ∷ s) = match_string ps s
match_string (run ∷ ps) s = on_rest (match_string ps) s

-- `LIKE`, with the pattern's error.
unfoldable pub like : (text pattern : List ℕ) → Option Bool
unfolding like_pattern_to_regexp match_string
like text pattern = elim (like_pattern_to_regexp pattern) [
  | none ↦ none
  | some ps ↦ some (match_string ps text)
]
