-- ===== src/Functions/Trim.antt =====
-- functions/string/trim.go: TRIM, LTRIM and RTRIM.
pub mod Ends
use googlesqlite.Base.{ℕ, Option, none, some, Bool, true, false, List, [], ◌∷◌, ◌==◌, if◌then◌else◌}
use googlesqlite.Functions.Value.{
  Value, string, bytes, other, wrong_arguments, wrong_type, Result, ok, err, ◌>>=◌, Output,
  string_value, bytes_value, converted, scalar_n,
}

-- `strings.TrimLeftFunc`, and the loop that moves `start` over BYTES.
unfoldable pub trim_left : (ℕ → Bool) → List ℕ → List ℕ
trim_left f [] = []
trim_left f (c ∷ s) = elim (f c) [ true ↦ trim_left f s | false ↦ c ∷ s ]

-- `strings.TrimRightFunc`, and the loop that moves `end`.
unfoldable pub trim_right : (ℕ → Bool) → List ℕ → List ℕ
trim_right f [] = []
trim_right f (c ∷ s) = elim (trim_right f s) [ [] ↦ if f c then [] else c ∷ [] | d ∷ t ↦ c ∷ d ∷ t ]

-- `trimFunc`.
unfoldable pub trim_func : List ℕ → (ℕ → Bool) → (left right : Bool) → List ℕ
unfolding trim_left trim_right
trim_func s f true true = trim_right f (trim_left f s)
trim_func s f true false = trim_left f s
trim_func s f false true = trim_right f s
trim_func s f false false = s

-- `strings.ContainsRune`, and the table `set` of the bytes of a cutset.
unfoldable pub contains : List ℕ → ℕ → Bool
contains [] c = false
contains (d ∷ set) c = if d == c then true else contains set c

-- The bytes of " \t\n\r\f\v".
abbrev pub ascii_space : List ℕ
ascii_space = 32 ∷ 9 ∷ 10 ∷ 13 ∷ 12 ∷ 11 ∷ []

-- `is_space` is `unicode.IsSpace`.
module _ (is_space : ℕ → Bool) where
  -- The runes that are trimmed, without a cutset or with one.
  unfoldable pub string_set : Option Value → Result (ℕ → Bool)
  unfolding contains
  string_set none = ok is_space
  string_set (some v) = do cutset ← converted v.to_string; ok (λ r. contains cutset r)

  unfoldable pub byte_set : Option Value → Result (ℕ → Bool)
  unfolding contains
  byte_set none = ok (λ c. contains ascii_space c)
  byte_set (some v) = do cutset ← converted v.to_bytes; ok (λ c. contains cutset c)

  -- `trimValue`.
  unfoldable pub trim_value : Value → Option Value → (left right : Bool) → Result Output
  unfolding string_set byte_set trim_func
  trim_value v cutset left right = elim v.kind [
    | string ↦ do
      s ← converted v.to_string
      f ← string_set cutset
      ok (string_value (trim_func s f left right))
    | bytes ↦ do
      b ← converted v.to_bytes
      f ← byte_set cutset
      ok (bytes_value (trim_func b f left right))
    | other ↦ err wrong_type
  ]

  unfoldable trim_args : (left right : Bool) → List Value → Result Output
  unfolding trim_value
  trim_args left right (v ∷ []) = trim_value v none left right
  trim_args left right (v ∷ cutset ∷ []) = trim_value v (some cutset) left right
  trim_args left right _ = err wrong_arguments

  -- `trimBinder` in `ScalarN`, as for TRIM, LTRIM and RTRIM.
  unfoldable pub bind_trim : (left right : Bool) → List (Option Value) → Result Output
  unfolding trim_args
  bind_trim left right args = scalar_n (trim_args left right) args
