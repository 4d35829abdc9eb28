-- ===== src/Sketch.antt =====
-- internal/functions/kll/sketch.go: the KLL quantile functions. Floating point numbers are a type of
-- the caller's with their order and the roundings that the code uses, and so is the gob encoding of
-- a list of them.
pub mod Merge
pub mod Sorted
mod Tests
use googlesqlite.Base.{
  ℕ, zero, suc, ◌+◌, ◌-◌, ◌*◌, Try, failed, done, Option, none, some, Bool, true, false, not, ◌&&◌,
  ◌||◌, List, [], ◌∷◌, ◌++◌, ltb, leb, ◌==◌, if◌then◌else◌, length, get_elem?,
}
use googlesqlite.Base.Int.{ℤ, pos, negsuc}

-- float64 and gob.
pub record Floats (F : Type 0) : Type 0 where
  pub le : F → F → Bool
  -- `float64(i) / float64(n)`.
  pub fraction : ℕ → ℕ → F
  -- `int(math.Round(rank * float64(n)))`.
  pub position : F → ℕ → ℤ
  -- `int64(math.Round(q))`.
  pub to_int : F → ℤ
  pub encode : List F → List ℕ
  pub decode : List ℕ → Option (List F)

-- A value by what its conversions make of it.
pub record Value (F : Type 0) : Type 0 where
  pub to_float : Option F
  pub to_bytes : Option (List ℕ)
  pub to_int64 : Option ℤ

pub data Failure : Type 0 where
  conversion no_sketch bad_precision bad_quantiles wrong_arguments : Failure

-- The results: a sketch, a quantile, or an array of them.
pub data Scalar (F : Type 0) : Type 0 where
  int_value : ℤ → Scalar F
  float_value : F → Scalar F

pub data Output (F : Type 0) : Type 0 where
  null : Output F
  bytes : List ℕ → Output F
  scalar : Scalar F → Output F
  array : List (Scalar F) → Output F

abbrev converted : {A : Type 0} → Failure → Option A → Try Failure A
converted e none = failed e
converted e (some a) = done a

infixl 5 ◌>>=◌
abbrev ◌>>=◌ : {A B : Type 0} → Try Failure A → (A → Try Failure B) → Try Failure B
done a >>= f = f a
failed e >>= f = failed e

module _ {F : Type 0} (floats : Floats F) where
  -- `sort.Float64s`.
  unfoldable pub insert : F → List F → List F
  insert x [] = x ∷ []
  insert x (y ∷ ys) = elim (floats.le x y) [ true ↦ x ∷ y ∷ ys | false ↦ y ∷ insert x ys ]

  unfoldable pub sort : List F → List F
  unfolding insert
  sort [] = []
  sort (x ∷ xs) = insert x (sort xs)

  -- `idx`, kept within the values.
  unfoldable pub clamped : ℤ → ℕ → ℕ
  clamped (negsuc k) n = 0
  clamped (pos k) n = if leb n k then n - 1 else k

  -- `quantile`.
  unfoldable pub quantile : List F → F → Option F
  unfolding sort clamped
  quantile [] rank = none
  quantile (x ∷ xs) rank =
      get_elem? (sort (x ∷ xs)) (clamped (floats.position rank (length xs)) (length (x ∷ xs)))

  unfoldable pub quantiles_from : List F → (n : ℕ) → (left i : ℕ) → Option (List F)
  unfolding quantile
  quantiles_from xs n zero i = some []
  quantiles_from xs n (suc left) i = elim (quantile xs (floats.fraction i n)) [
    | none ↦ none
    | some q ↦ elim (quantiles_from xs n left (i + 1)) [ none ↦ none | some qs ↦ some (q ∷ qs) ]
  ]

  -- `quantilesArray`.
  unfoldable pub quantiles_array : List F → ℤ → Try Failure (Option (List F))
  unfolding quantiles_from
  quantiles_array xs (negsuc n) = failed bad_quantiles
  quantiles_array xs (pos n) =
      if n == 0 then failed bad_quantiles else done (quantiles_from xs n (n + 1) 0)

  -- `unmarshal`.
  unfoldable pub unmarshal : List ℕ → Try Failure (List F)
  unmarshal [] = done []
  unmarshal (b ∷ data') = converted no_sketch (floats.decode (b ∷ data'))

  -- `checkPrecision`.
  unfoldable pub check_precision : Value F → Try Failure Unit
  check_precision v = do
    n ← converted conversion v.to_int64
    elim n [
      | negsuc k ↦ failed bad_precision
      | pos k ↦ if k == 0 || ltb 200000000 k then failed bad_precision else done tt
    ]

  -- `aggregator.Step`.
  unfoldable pub step_value : List F → Option (Value F) → Try Failure (List F)
  step_value values none = done values
  step_value values (some v) = do f ← converted conversion v.to_float; done (values ++ f ∷ [])

  -- A row of `BindInit`, with the precision if there is one.
  unfoldable pub init_step :
      List F → Option (Value F) → (precision : Option (Value F)) → Try Failure (List F)
  unfolding check_precision step_value
  init_step values v none = step_value values v
  init_step values v (some p) = do _ ← check_precision p; step_value values v

  -- The rows of `BindInit` without a precision.
  unfoldable pub init_all : List F → List (Option (Value F)) → Try Failure (List F)
  unfolding init_step
  init_all values [] = done values
  init_all values (v ∷ vs) = elim (init_step values v none) [
    | failed e ↦ failed e
    | done values' ↦ init_all values' vs
  ]

  -- `aggregator.Done`.
  unfoldable pub init_done : List F → Output F
  init_done [] = null
  init_done (x ∷ xs) = bytes (floats.encode (x ∷ xs))

  -- `mergeAggregator.Step`.
  unfoldable pub merge_step : List F → Option (Value F) → Try Failure (List F)
  unfolding unmarshal
  merge_step values none = done values
  merge_step values (some v) = do
    b ← converted conversion v.to_bytes
    s ← unmarshal b
    done (values ++ s)

  unfoldable pub merge_all : List F → List (Option (Value F)) → Try Failure (List F)
  unfolding merge_step
  merge_all values [] = done values
  merge_all values (v ∷ vs) = elim (merge_step values v) [
    | failed e ↦ failed e
    | done values' ↦ merge_all values' vs
  ]

  -- `DonePartial`.
  abbrev pub partial_done : List F → Output F
  partial_done values = bytes (floats.encode values)

  unfoldable pub to_scalar : (as_int : Bool) → F → Scalar F
  to_scalar as_int q = if as_int then int_value (floats.to_int q) else float_value q

  unfoldable pub outputs : (as_int : Bool) → List F → List (Scalar F)
  unfolding to_scalar
  outputs as_int [] = []
  outputs as_int (q ∷ qs) = to_scalar as_int q ∷ outputs as_int qs

  unfoldable pub array_of : (as_int : Bool) → Option (List F) → Output F
  unfolding outputs
  array_of as_int none = null
  array_of as_int (some qs) = array (outputs as_int qs)

  -- `DoneArray`.
  unfoldable pub array_done : (as_int : Bool) → ℤ → List F → Try Failure (Output F)
  unfolding quantiles_array array_of
  array_done as_int n [] = done null
  array_done as_int n (x ∷ xs) = do qs ← quantiles_array (x ∷ xs) n; done (array_of as_int qs)

  -- `extractArray`.
  unfoldable pub extract_array : (as_int : Bool) → List (Option (Value F)) → Try Failure (Output F)
  unfolding unmarshal quantiles_array array_of
  extract_array as_int (none ∷ n ∷ []) = done null
  extract_array as_int (some v ∷ none ∷ []) = done null
  extract_array as_int (some v ∷ some n ∷ []) = do
    b ← converted conversion v.to_bytes
    s ← unmarshal b
    k ← converted conversion n.to_int64
    qs ← quantiles_array s k
    done (array_of as_int qs)
  extract_array as_int _ = failed wrong_arguments

  unfoldable pub point_of : (as_int : Bool) → Option F → Output F
  unfolding to_scalar
  point_of as_int none = null
  point_of as_int (some q) = scalar (to_scalar as_int q)

  -- `extractPoint`.
  unfoldable pub extract_point : (as_int : Bool) → List (Option (Value F)) → Try Failure (Output F)
  unfolding unmarshal quantile point_of
  extract_point as_int (none ∷ r ∷ []) = done null
  extract_point as_int (some v ∷ none ∷ []) = done null
  extract_point as_int (some v ∷ some r ∷ []) = do
    b ← converted conversion v.to_bytes
    s ← unmarshal b
    rank ← converted conversion r.to_float
    done (point_of as_int (quantile s rank))
  extract_point as_int _ = failed wrong_arguments
