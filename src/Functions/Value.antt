-- ===== src/Functions/Value.antt =====
-- The arguments and results of the scalar functions, and the wrappers of
-- internal/functions/helper that bind them.
use googlesqlite.Base.{
  ℕ, zero, suc, ◌^◌, Option, none, some, List, [], ◌∷◌, ◌++◌, ltb, if◌then◌else◌,
}
use googlesqlite.Base.Int.{ℤ, pos, negsuc}

-- The type switch of the functions over STRING and BYTES.
pub data Kind : Type 0 where
  string bytes other : Kind

-- A value by its type and by what `ToString`, `ToBytes` and `ToInt64` make of it (`none` for an
-- error). A STRING is the list of its runes; text that is not valid UTF-8 is left out.
pub record Value : Type 0 where
  pub kind : Kind
  pub to_string : Option (List ℕ)
  pub to_bytes : Option (List ℕ)
  pub to_int : Option ℤ

pub data Error : Type 0 where
  wrong_arguments conversion wrong_type negative too_large empty_pattern : Error
  bad_position bad_occurrence duplicate no_overlap unbounded panic : Error

pub data Result {ℓ} (A : Type ℓ) : Type ℓ where
  ok : A → Result A
  err : Error → Result A

infixl 5 ◌>>=◌
abbrev pub ◌>>=◌ {ℓ κ} : {A : Type ℓ} {B : Type κ} → Result A → (A → Result B) → Result B
ok a >>= f = f a
err e >>= f = err e

-- What a function returns.
pub data Output : Type 0 where
  string_value bytes_value : List ℕ → Output
  int_value : ℕ → Output
  null : Output

-- An error of a conversion is passed on.
abbrev pub converted {ℓ} : {A : Type ℓ} → Option A → Result A
converted none = err conversion
converted (some a) = ok a

-- `SafeInt`: the 32-bit range, although the result is an `int`.
unfoldable pub safe_int : ℤ → Result ℤ
safe_int (pos n) = if ltb n (2 ^ 31) then ok (pos n) else err too_large
safe_int (negsuc n) = if ltb n (2 ^ 31) then ok (negsuc n) else err too_large

-- The checks of a size argument that `LPAD`, `RPAD`, `LEFT` and `RIGHT` share.
unfoldable pub size : ℤ → Result ℕ
unfolding safe_int
size (negsuc n) = err negative
size (pos n) = do z ← safe_int (pos n); ok n

-- The arguments of a call when none is NULL: `ExistsNull`.
unfoldable pub present : List (Option Value) → Option (List Value)
present [] = some []
present (none ∷ args) = none
present (some v ∷ args) = elim (present args) [ none ↦ none | some vs ↦ some (v ∷ vs) ]

-- `ScalarN`.
unfoldable pub scalar_n : (List Value → Result Output) → List (Option Value) → Result Output
unfolding present
scalar_n f args = elim (present args) [ none ↦ ok null | some vs ↦ f vs ]

-- `Scalar2`.
unfoldable pub scalar_2 : (Value → Value → Result Output) → List (Option Value) → Result Output
scalar_2 f (some a ∷ some b ∷ []) = f a b
scalar_2 f (none ∷ b ∷ []) = ok null
scalar_2 f (some a ∷ none ∷ []) = ok null
scalar_2 f _ = err wrong_arguments

-- `Scalar3`.
unfoldable pub scalar_3 :
    (Value → Value → Value → Result Output) → List (Option Value) → Result Output
scalar_3 f (some a ∷ some b ∷ some c ∷ []) = f a b c
scalar_3 f (none ∷ b ∷ c ∷ []) = ok null
scalar_3 f (some a ∷ none ∷ c ∷ []) = ok null
scalar_3 f (some a ∷ some b ∷ none ∷ []) = ok null
scalar_3 f _ = err wrong_arguments

-- A function over STRING and BYTES: the runes or the bytes of the value go through `f`.
abbrev pub on_text : Value → (List ℕ → Result (List ℕ)) → (List ℕ → Result (List ℕ)) → Result Output
on_text v f g = elim v.kind [
  | string ↦ do s ← converted v.to_string; r ← f s; ok (string_value r)
  | bytes ↦ do b ← converted v.to_bytes; r ← g b; ok (bytes_value r)
  | other ↦ err wrong_type
]

-- `strings.Repeat` and `bytes.Repeat`.
unfoldable pub repeat : ℕ → List ℕ → List ℕ
repeat zero s = []
repeat (suc n) s = s ++ repeat n s

-- A STRING and an INT64, for the examples.
abbrev pub text : List ℕ → Value
text s = record { kind = string; to_string = some s; to_bytes = some s; to_int = none }

abbrev pub binary : List ℕ → Value
binary s = record { kind = bytes; to_string = some s; to_bytes = some s; to_int = none }

abbrev pub number : ℤ → Value
number z = record { kind = other; to_string = none; to_bytes = none; to_int = some z }
