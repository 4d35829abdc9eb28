-- ===== src/Functions/Search.antt =====
-- functions/string/instr.go and strpos.go: the search for a part of a STRING or BYTES.
pub mod Occurrences
use googlesqlite.Base.{
  ℕ, zero, suc, ◌+◌, ◌-◌, Option, none, some, Bool, true, false, List, [], ◌∷◌, ltb, leb, ◌==◌,
  if◌then◌else◌, length, get_elem?,
}
use googlesqlite.Base.Int.{ℤ, pos, negsuc}
use googlesqlite.Functions.Value.{
  Value, Kind, string, bytes, other, wrong_arguments, wrong_type, bad_position, bad_occurrence,
  Result, ok, err, ◌>>=◌, Output, int_value, converted, scalar_n, scalar_2,
}

-- `matchAt`, from the element of `sub` that is compared with `src[i]`. The callers keep the index
-- in range.
unfoldable pub match_at : List ℕ → List ℕ → ℕ → Bool
match_at src [] i = true
match_at src (c ∷ sub) i = elim (get_elem? src i) [
  | none ↦ false
  | some x ↦ elim (x == c) [ true ↦ match_at src sub (i + 1) | false ↦ false ]
]

module _ (src sub : List ℕ) (occurrence : ℕ) where
  -- `for i := position - 1; i+m <= n; i++`: there are no more than n + 1 rounds.
  unfoldable pub forward : (fuel i found : ℕ) → ℕ
  unfolding match_at
  forward zero i found = 0
  forward (suc fuel) i found = elim (leb (i + length sub) (length src)) [
    | false ↦ 0
    | true ↦ elim (match_at src sub i) [
      | false ↦ forward fuel (i + 1) found
      | true ↦ elim (found + 1 == occurrence) [
        | true ↦ i + 1
        | false ↦ forward fuel (i + 1) (found + 1)
      ]
    ]
  ]

  -- `for i := start; i >= 0; i--`, at `i` - 1.
  unfoldable pub backward : (i found : ℕ) → ℕ
  unfolding match_at
  backward zero found = 0
  backward (suc i) found = elim (match_at src sub i) [
    | false ↦ backward i found
    | true ↦ elim (found + 1 == occurrence) [ true ↦ i + 1 | false ↦ backward i (found + 1) ]
  ]

-- Where the search from the end starts, plus 1: `start`, or n - m if the part does not fit behind
-- it. A part that is longer than the source makes it negative, and the loop does not run.
unfoldable pub backward_start : (n m start : ℕ) → ℕ
backward_start n m start = if ltb n (start + m) then n + 1 - m else start + 1

-- `instrIndex`; the result is a 1-based position, or 0.
unfoldable pub instr_index : List ℕ → List ℕ → ℤ → ℕ → ℕ
unfolding forward backward backward_start
instr_index src sub (pos p) occurrence =
    if ltb (length src) p then 0 else forward src sub occurrence (length src + 1) (p - 1) 0
instr_index src sub (negsuc p) occurrence =
    if leb (length src) p
    then 0
    else backward src sub occurrence
        (backward_start (length src) (length sub) (length src - (p + 1))) 0

-- The checks of `INSTR`: the occurrence as a positive number.
unfoldable pub checked_occurrence : ℤ → ℤ → Result ℕ
checked_occurrence (pos zero) o = err bad_position
checked_occurrence p (pos zero) = err bad_occurrence
checked_occurrence p (negsuc o) = err bad_occurrence
checked_occurrence p (pos (suc o)) = ok (suc o)

-- The type switch of `INSTR`.
unfoldable pub instr_values : Value → Value → ℤ → ℕ → Result Output
unfolding instr_index
instr_values v w p o = elim v.kind [
  | string ↦ elim w.kind [
    | string ↦ do
      src ← converted v.to_string
      sub ← converted w.to_string
      ok (int_value (instr_index src sub p o))
    | _ ↦ err wrong_type
  ]
  | bytes ↦ elim w.kind [
    | bytes ↦ do
      src ← converted v.to_bytes
      sub ← converted w.to_bytes
      ok (int_value (instr_index src sub p o))
    | _ ↦ err wrong_type
  ]
  | other ↦ err wrong_type
]

-- `INSTR`.
unfoldable pub instr : Value → Value → ℤ → ℤ → Result Output
unfolding checked_occurrence instr_values
instr v w p o = do k ← checked_occurrence p o; instr_values v w p k

unfoldable instr_args : List Value → Result Output
unfolding instr
instr_args (v ∷ w ∷ []) = instr v w (pos 1) (pos 1)
instr_args (v ∷ w ∷ p ∷ []) = do i ← converted p.to_int; instr v w i (pos 1)
instr_args (v ∷ w ∷ p ∷ o ∷ []) = do i ← converted p.to_int; k ← converted o.to_int; instr v w i k
instr_args _ = err wrong_arguments

-- `BindInstr`.
unfoldable pub bind_instr : List (Option Value) → Result Output
unfolding instr_args
bind_instr args = scalar_n instr_args args

-- `strings.Index` and `bytes.Index`, plus 1: the first index where the part stands, or 0. Over
-- runes it is the index in bytes that `RuneCountInString` turns into a number of runes.
unfoldable pub index_from : List ℕ → List ℕ → (fuel i : ℕ) → ℕ
unfolding match_at
index_from src sub zero i = 0
index_from src sub (suc fuel) i = elim (leb (i + length sub) (length src)) [
  | false ↦ 0
  | true ↦ elim (match_at src sub i) [ true ↦ i + 1 | false ↦ index_from src sub fuel (i + 1) ]
]

-- `STRPOS`.
unfoldable pub strpos_list : List ℕ → List ℕ → ℕ
unfolding index_from
strpos_list src sub = index_from src sub (length src + 1) 0

unfoldable pub strpos : Value → Value → Result Output
unfolding strpos_list
strpos v w = elim v.kind [
  | string ↦ do
    src ← converted v.to_string
    sub ← converted w.to_string
    ok (int_value (strpos_list src sub))
  | bytes ↦ do
    src ← converted v.to_bytes
    sub ← converted w.to_bytes
    ok (int_value (strpos_list src sub))
  | other ↦ err wrong_type
]

-- `BindStrpos`.
unfoldable pub bind_strpos : List (Option Value) → Result Output
unfolding strpos
bind_strpos args = scalar_2 strpos args
