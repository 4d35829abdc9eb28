-- ===== src/Functions/Split.antt =====
-- functions/string/split.go.
pub mod Join
use googlesqlite.Base.{
  ℕ, zero, suc, ◌-◌, Option, none, some, Bool, true, false, List, [], ◌∷◌, ◌++◌, ◌==◌, length,
}
use googlesqlite.Functions.Value.{
  Value, string, bytes, other, wrong_type, wrong_arguments, panic, Result, ok, err, ◌>>=◌,
  converted, present,
}

unfoldable pub is_prefix : List ℕ → List ℕ → Bool
is_prefix [] s = true
is_prefix (d ∷ ds) [] = false
is_prefix (d ∷ ds) (c ∷ s) = elim (d == c) [ true ↦ is_prefix ds s | false ↦ false ]

-- `strings.SplitSeq` and `bytes.SplitSeq` with a delimiter that is not empty: `skip` elements are
-- left of the delimiter that was found last, and `word` has been read since.
unfoldable pub split_on : List ℕ → (skip : ℕ) → (word : List ℕ) → List ℕ → List (List ℕ)
unfolding is_prefix
split_on delim skip word [] = word ∷ []
split_on delim (suc skip) word (c ∷ s) = split_on delim skip word s
split_on delim zero word (c ∷ s) = elim (is_prefix delim (c ∷ s)) [
  | true ↦ word ∷ split_on delim (length delim - 1) [] s
  | false ↦ split_on delim zero (word ++ c ∷ []) s
]

-- With an empty delimiter: one element each.
unfoldable pub explode : List ℕ → List (List ℕ)
explode [] = []
explode (c ∷ s) = (c ∷ []) ∷ explode s

-- The two branches of `SPLIT` once the delimiter is known.
unfoldable pub split_list : List ℕ → List ℕ → List (List ℕ)
unfolding explode split_on
split_list delim [] = [] ∷ []
split_list [] (c ∷ s) = explode (c ∷ s)
split_list (d ∷ delim) (c ∷ s) = split_on (d ∷ delim) zero [] (c ∷ s)

-- The array of `SPLIT`: of STRING or of BYTES.
pub data Pieces : Type 0 where
  strings byte_strings : List (List ℕ) → Pieces

-- The delimiter of a STRING is a comma by default.
unfoldable pub string_delimiter : Option Value → Result (List ℕ)
string_delimiter none = ok (44 ∷ [])
string_delimiter (some d) = converted d.to_string

unfoldable pub byte_delimiter : Option Value → Result (List ℕ)
byte_delimiter none = err wrong_arguments
byte_delimiter (some d) = converted d.to_bytes

-- `SPLIT`.
unfoldable pub split : Value → Option Value → Result Pieces
unfolding split_list string_delimiter byte_delimiter
split v delim = elim v.kind [
  | string ↦ do s ← converted v.to_string; d ← string_delimiter delim; ok (strings (split_list d s))
  | bytes ↦ do
    b ← converted v.to_bytes
    d ← byte_delimiter delim
    ok (byte_strings (split_list d b))
  | other ↦ err wrong_type
]

unfoldable split_args : List Value → Result (Option Pieces)
unfolding split
split_args [] = err panic
split_args (v ∷ []) = do r ← split v none; ok (some r)
split_args (v ∷ d ∷ more) = do r ← split v (some d); ok (some r)

-- `BindSplit`: NULL for a NULL argument; `args[0]` is out of range without arguments.
unfoldable pub bind_split : List (Option Value) → Result (Option Pieces)
unfolding split_args present
bind_split args = elim (present args) [ none ↦ ok none | some vs ↦ split_args vs ]
