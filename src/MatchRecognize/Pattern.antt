-- ===== src/MatchRecognize/Pattern.antt =====
-- The row pattern (`mrPatternNode`), the instructions (`mrInst`) and the errors of
-- internal/match_recognize.go.
use googlesqlite.Base.{ℕ, Bool, Option, List}
use googlesqlite.Base.Int.{ℤ}

-- `mrPatternNode`, by its tag `T`. The bounds of `quantifier` are argument indices plus 1, and 0
-- where the bound is absent. `unknown` stands for a tag that the compiler does not know.
mutual
  pub data Pattern : Type 0 where
    variable : ℕ → Pattern
    empty start end unknown : Pattern
    cat : Patterns → Pattern
    alt : Patterns → Pattern
    quantifier : Pattern → ℕ → ℕ → Bool → Pattern

  pub data Patterns : Type 0 where
    nil : Patterns
    cons : Pattern → Patterns → Patterns

-- An argument of the window function: NULL, or a value by what `ToInt64` and `ToBool` make of it
-- (`none` for an error).
pub data Arg : Type 0 where
  null : Arg
  arg : Option ℤ → Option Bool → Arg

-- `mrInst`: each constructor has the fields that its opcode reads.
pub data Inst : Type 0 where
  op_var : ℕ → Inst
  op_split : ℕ → ℕ → Inst
  op_jmp : ℕ → Inst
  op_start op_end op_match : Inst

-- The errors of the compiler and of the window function; `panic` is an index out of range or, in
-- the model only, fuel that ran out.
pub data Error : Type 0 where
  too_large null_bound bad_bound negative_bound upper_below_lower unknown_node panic : Error
  missing_arguments bad_spec wrong_count not_bool : Error

pub data Result {ℓ} (A : Type ℓ) : Type ℓ where
  ok : A → Result A
  err : Error → Result A

infixl 5 ◌>>=◌
abbrev pub ◌>>=◌ {ℓ κ} : {A : Type ℓ} {B : Type κ} → Result A → (A → Result B) → Result B
ok a >>= f = f a
err e >>= f = err e

abbrev pub Code : Type 0
Code = List Inst
