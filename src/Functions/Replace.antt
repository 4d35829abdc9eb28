-- ===== src/Functions/Replace.antt =====
-- functions/string/replace.go.
pub mod Pieces
use googlesqlite.Base.{ℕ, zero, suc, ◌-◌, Option, Bool, true, false, List, [], ◌∷◌, ◌++◌, length}
use googlesqlite.Functions.Value.{
  Value, string, bytes, other, wrong_type, Result, ok, err, ◌>>=◌, Output, string_value,
  bytes_value, converted,
}
use googlesqlite.Functions.Split.{is_prefix}

-- `strings.ReplaceAll` and `bytes.ReplaceAll` of a part that is not empty: `skip` elements are
-- left of the part that was found last.
unfoldable pub replace_on : (part by : List ℕ) → (skip : ℕ) → List ℕ → List ℕ
unfolding is_prefix
replace_on part by skip [] = []
replace_on part by (suc skip) (c ∷ s) = replace_on part by skip s
replace_on part by zero (c ∷ s) = elim (is_prefix part (c ∷ s)) [
  | true ↦ by ++ replace_on part by (length part - 1) s
  | false ↦ c ∷ replace_on part by zero s
]

-- The two branches of `REPLACE`: an empty part replaces nothing.
unfoldable pub replace_list : (part by : List ℕ) → List ℕ → List ℕ
unfolding replace_on
replace_list [] by s = s
replace_list (d ∷ part) by s = replace_on (d ∷ part) by zero s

-- `REPLACE`.
unfoldable pub replace : Value → Value → Value → Result Output
unfolding replace_list
replace v part by = elim v.kind [
  | string ↦ do
    s ← converted v.to_string
    p ← converted part.to_string
    b ← converted by.to_string
    ok (string_value (replace_list p b s))
  | bytes ↦ do
    s ← converted v.to_bytes
    p ← converted part.to_bytes
    b ← converted by.to_bytes
    ok (bytes_value (replace_list p b s))
  | other ↦ err wrong_type
]
