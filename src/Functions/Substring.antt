-- ===== src/Functions/Substring.antt =====
-- functions/string/substr.go, left.go and right.go: parts of a STRING or BYTES.
pub mod Parts
use googlesqlite.Base.{
  ℕ, zero, suc, ◌+◌, ◌-◌, Option, none, some, Bool, true, false, not, ◌||◌, List, [], ◌∷◌, ltb, leb,
  if◌then◌else◌, length, take, drop, min,
}
use googlesqlite.Base.Int.{ℤ, pos, negsuc}
use googlesqlite.Functions.Value.{
  Value, wrong_arguments, negative, panic, Result, ok, err, ◌>>=◌, Output, converted, size,
  scalar_n, scalar_2, on_text,
}

-- `substrPos`: the index of the 1-based position, which counts from the end if it is negative.
unfoldable pub substr_pos : ℤ → (len : ℕ) → ℕ
substr_pos (pos zero) len = 0
substr_pos (pos (suc p)) len = if ltb len (suc p) then len else p
substr_pos (negsuc p) len = if ltb len (suc p) then 0 else len - suc p

-- `substrLen`.
unfoldable pub substr_len : Option ℤ → (len : ℕ) → Result ℕ
substr_len none len = ok len
substr_len (some (negsuc l)) len = err negative
substr_len (some (pos l)) len = ok (if ltb len l then len else l)

-- The slice `s[i:j]`.
unfoldable pub slice : ℕ → ℕ → List ℕ → Result (List ℕ)
slice i j s = if ltb j i || ltb (length s) j then err panic else ok (take (j - i) (drop i s))

-- The two branches of `SUBSTR`, over runes and over bytes.
unfoldable pub substr_list : ℤ → Option ℤ → List ℕ → Result (List ℕ)
unfolding substr_pos substr_len slice
substr_list p l s = do
  len ← substr_len l (length s)
  slice (substr_pos p (length s)) (min (substr_pos p (length s) + len) (length s)) s

-- `SUBSTR`.
unfoldable pub substr : Value → ℤ → Option ℤ → Result Output
unfolding substr_list
substr v p l = on_text v (substr_list p l) (substr_list p l)

unfoldable substr_args : List Value → Result Output
unfolding substr
substr_args (v ∷ p ∷ []) = do z ← converted p.to_int; substr v z none
substr_args (v ∷ p ∷ l ∷ []) = do
  z ← converted p.to_int
  k ← converted l.to_int
  substr v z (some k)
substr_args _ = err wrong_arguments

-- `BindSubstr`.
unfoldable pub bind_substr : List (Option Value) → Result Output
unfolding substr_args
bind_substr args = scalar_n substr_args args

-- `LEFT`: a value that is no longer than `n` is returned as it is.
unfoldable pub left_list : ℕ → List ℕ → Result (List ℕ)
unfolding slice
left_list n s = if leb (length s) n then ok s else slice 0 n s

unfoldable pub left : Value → ℤ → Result Output
unfolding left_list
left v z = do n ← size z; on_text v (left_list n) (left_list n)

unfoldable pub bind_left : List (Option Value) → Result Output
unfolding left
bind_left args = scalar_2 (λ a b. do z ← converted b.to_int; left a z) args

-- `RIGHT`.
unfoldable pub right_list : ℕ → List ℕ → Result (List ℕ)
unfolding slice
right_list n s = if leb (length s) n then ok s else slice (length s - n) (length s) s

unfoldable pub right : Value → ℤ → Result Output
unfolding right_list
right v z = do n ← size z; on_text v (right_list n) (right_list n)

unfoldable pub bind_right : List (Option Value) → Result Output
unfolding right
bind_right args = scalar_2 (λ a b. do z ← converted b.to_int; right a z) args
