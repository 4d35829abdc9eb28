-- ===== src/Functions/Pad.antt =====
-- functions/string/lpad.go, rpad.go and repeat.go: padding to a size.
pub mod Cycle
use googlesqlite.Base.{
  ℕ, zero, suc, ◌+◌, ◌-◌, ◌/◌, Option, none, some, Bool, true, false, List, [], ◌∷◌, ◌++◌, ltb, leb,
  if◌then◌else◌, length, take, replicate,
}
use googlesqlite.Base.Int.{ℤ, pos, negsuc}
use googlesqlite.Functions.Value.{
  Value, string, bytes, other, wrong_arguments, wrong_type, negative, empty_pattern, panic, Result,
  ok, err, ◌>>=◌, Output, string_value, bytes_value, converted, safe_int, size, scalar_n, scalar_2,
  on_text, repeat,
}

-- `pat`: the blanks of an absent pattern, or the pattern, repeated if it is too short. An error
-- of the pattern's conversion is `some none`.
unfoldable pub pad_pattern : (remain : ℕ) → Option (Option (List ℕ)) → Result (List ℕ)
pad_pattern remain none = ok (replicate remain 32)
pad_pattern remain (some none) = converted none
pad_pattern remain (some (some [])) = err empty_pattern
pad_pattern remain (some (some (c ∷ p))) =
    if ltb (length (c ∷ p)) remain
    then ok (repeat ((remain - length (c ∷ p)) / length (c ∷ p) + 2) (c ∷ p))
    else ok (c ∷ p)

-- The two branches of `LPAD`, over runes and over bytes.
unfoldable pub lpad_list : ℕ → Option (Option (List ℕ)) → List ℕ → Result (List ℕ)
lpad_list n pattern s =
    if leb n (length s)
    then ok (take n s)
    else do pat ← pad_pattern (n - length s) pattern; ok (take (n - length s) pat ++ s)

unfoldable pub rpad_list : ℕ → Option (Option (List ℕ)) → List ℕ → Result (List ℕ)
rpad_list n pattern s =
    if leb n (length s)
    then ok (take n s)
    else do pat ← pad_pattern (n - length s) pattern; ok (s ++ take (n - length s) pat)

abbrev pub pattern_runes : Option Value → Option (Option (List ℕ))
pattern_runes none = none
pattern_runes (some p) = some p.to_string

abbrev pub pattern_bytes : Option Value → Option (Option (List ℕ))
pattern_bytes none = none
pattern_bytes (some p) = some p.to_bytes

-- `LPAD`.
unfoldable pub lpad : Value → ℤ → Option Value → Result Output
lpad v z pattern = do
  n ← size z
  on_text v (lpad_list n (pattern_runes pattern)) (lpad_list n (pattern_bytes pattern))

-- `RPAD`.
unfoldable pub rpad : Value → ℤ → Option Value → Result Output
rpad v z pattern = do
  n ← size z
  on_text v (rpad_list n (pattern_runes pattern)) (rpad_list n (pattern_bytes pattern))

unfoldable lpad_args : List Value → Result Output
unfolding lpad
lpad_args (v ∷ n ∷ []) = do z ← converted n.to_int; lpad v z none
lpad_args (v ∷ n ∷ p ∷ []) = do z ← converted n.to_int; lpad v z (some p)
lpad_args _ = err wrong_arguments

-- `BindLpad`.
unfoldable pub bind_lpad : List (Option Value) → Result Output
unfolding lpad_args
bind_lpad args = scalar_n lpad_args args

-- `args[1]` is out of range for less than two arguments; more than three are not refused.
unfoldable rpad_args : List Value → Result Output
unfolding rpad
rpad_args [] = err panic
rpad_args (v ∷ []) = err panic
rpad_args (v ∷ n ∷ []) = do z ← converted n.to_int; rpad v z none
rpad_args (v ∷ n ∷ p ∷ _) = do z ← converted n.to_int; rpad v z (some p)

-- `BindRpad`.
unfoldable pub bind_rpad : List (Option Value) → Result Output
unfolding rpad_args
bind_rpad args = scalar_n rpad_args args

-- `strings.Repeat` panics on a negative count.
unfoldable pub repeat_list : ℤ → List ℕ → Result (List ℕ)
repeat_list (pos n) s = ok (repeat n s)
repeat_list (negsuc n) s = err panic

-- `REPEAT`.
unfoldable pub repeat_value : Value → ℤ → Result Output
repeat_value v z = do n ← safe_int z; on_text v (repeat_list n) (repeat_list n)

-- `BindRepeat`.
unfoldable pub bind_repeat : List (Option Value) → Result Output
unfolding repeat_value
bind_repeat args = scalar_2 (λ a b. do z ← converted b.to_int; repeat_value a z) args
