-- ===== src/RangeFrame.antt =====
-- functions/window/range_frame.go: RANGE frames over typed ORDER BY keys. Floating point numbers and
-- exact rationals (Go's float64 and big.Rat) are types of the caller's with the operations that the
-- code uses.
pub mod Keys
pub mod Search
pub mod Located
pub mod Windowed
pub mod Slide
pub mod Run
pub mod Columns
pub mod Typed
pub mod Best
mod Tests
use googlesqlite.Base.{
  Try, failed, done, ℕ, zero, suc, ◌+◌, ◌-◌, ◌/◌, Option, none, some, Bool, true, false, not, ◌&&◌,
  ◌||◌, List, [], ◌∷◌, ◌++◌, ltb, leb, if◌then◌else◌, length, take, drop, get_or,
}

-- The sign of a comparison.
pub data Order : Type 0 where
  less same more : Order

abbrev pub negate : Order → Order
negate less = more
negate same = same
negate more = less

-- `c >= 0`, and `c > 0`.
abbrev pub at_least : Order → Bool
at_least less = false
at_least _ = true

abbrev pub is_more : Order → Bool
is_more more = true
is_more _ = false

-- float64, with IEEE order, and big.Rat.
pub record Numbers (F R : Type 0) : Type 0 where
  pub is_nan : F → Bool
  pub is_inf : F → Bool
  pub lt : F → F → Bool
  pub negative : F → F
  pub add : F → F → F
  -- `math.Copysign(math.MaxFloat64, x)`.
  pub max_float : F → F
  pub zero_float : F
  pub cmp_rat : R → R → Order
  pub add_rat : R → R → R
  pub sub_rat : R → R → R
  pub zero_rat : R
  pub to_float : R → F

-- `rangeKey`; its flag `nan` is `is_nan` of the number.
pub data RangeKey (F R : Type 0) : Type 0 where
  null : RangeKey F R
  float : F → RangeKey F R
  exact : R → RangeKey F R

-- `WindowBoundaryType`.
pub data Boundary : Type 0 where
  unknown unbounded_preceding offset_preceding current_row offset_following : Boundary
  unbounded_following : Boundary

-- What `init` reads: the flags, the boundaries and the offsets.
pub record Config (F R : Type 0) : Type 0 where
  pub desc : Bool
  pub nulls_last : Bool
  pub start_type : Boundary
  pub end_type : Boundary
  pub start_off : RangeKey F R
  pub end_off : RangeKey F R

-- `toRangeKey` of a value: NULL, a FLOAT64, or a value with its `ToRat`, which may fail.
pub data KeyValue (F R : Type 0) : Type 0 where
  null_value : KeyValue F R
  float_value : F → KeyValue F R
  other_value : Option R → KeyValue F R

pub data Failure : Type 0 where
  not_a_number null_offset negative_offset : Failure

module _ {F R : Type 0} (numbers : Numbers F R) where
  -- `compareValues` of two floating point numbers, NaN first.
  unfoldable pub compare_floats : F → F → Order
  compare_floats a b =
      if numbers.is_nan a
      then (if numbers.is_nan b then same else less)
      else if numbers.is_nan b
      then more
      else if numbers.lt a b
      then less
      else if numbers.lt b a
      then more
      else same

  -- `compareValues`: two exact keys are compared exactly.
  unfoldable pub compare_values : RangeKey F R → RangeKey F R → Order
  unfolding compare_floats
  compare_values (exact a) (exact b) = numbers.cmp_rat a b
  compare_values (exact a) (float b) = compare_floats (numbers.to_float a) b
  compare_values (float a) (exact b) = compare_floats a (numbers.to_float b)
  compare_values (float a) (float b) = compare_floats a b
  compare_values _ _ = same

  -- `rangeKey.float`.
  unfoldable float_of : RangeKey F R → F
  float_of (float f) = f
  float_of (exact r) = numbers.to_float r
  float_of null = numbers.zero_float

  -- `shift` of a FLOAT64 key: a finite sum that overflows is the largest finite number.
  unfoldable pub shift_float : F → (off : F) → (minus : Bool) → F
  shift_float f off minus =
      if numbers.is_nan f || numbers.is_inf f
      then f
      else let o = if minus then numbers.negative off else off in
        let x = numbers.add f o in
        if numbers.is_inf x && not (numbers.is_inf o) then numbers.max_float x else x

  -- `shift`: `minus` if the sign is negative.
  unfoldable pub shift : RangeKey F R → (off : RangeKey F R) → (minus : Bool) → RangeKey F R
  unfolding float_of shift_float
  shift null off minus = null
  shift (float f) off minus = float (shift_float f (float_of off) minus)
  shift (exact r) (float o) minus = float (shift_float (numbers.to_float r) o minus)
  shift (exact r) (exact o) minus =
      exact (if minus then numbers.sub_rat r o else numbers.add_rat r o)
  shift (exact r) null minus = exact r

  -- `toRangeKey`.
  unfoldable pub to_range_key : KeyValue F R → Try Failure (RangeKey F R)
  to_range_key null_value = done null
  to_range_key (float_value f) = done (float f)
  to_range_key (other_value none) = failed not_a_number
  to_range_key (other_value (some r)) = done (exact r)

  -- `offsetKey`.
  unfoldable pub offset_key : KeyValue F R → Try Failure (RangeKey F R)
  unfolding to_range_key
  offset_key v = elim (to_range_key v) [
    | failed e ↦ failed e
    | done null ↦ failed null_offset
    | done (float f) ↦
        if numbers.is_nan f || numbers.lt f numbers.zero_float
        then failed negative_offset
        else done (float f)
    | done (exact r) ↦
        if at_least (numbers.cmp_rat r numbers.zero_rat)
        then done (exact r)
        else failed negative_offset
  ]

  -- `cmp`: the order of the window's ORDER BY.
  unfoldable pub cmp : Config F R → RangeKey F R → RangeKey F R → Order
  unfolding compare_values
  cmp w null null = same
  cmp w null _ = if w.nulls_last then more else less
  cmp w a null = if w.nulls_last then less else more
  cmp w a b = if w.desc then negate (compare_values a b) else compare_values a b

  -- `bound`.
  unfoldable pub bound : Config F R → RangeKey F R → Boundary → RangeKey F R → RangeKey F R
  unfolding shift
  bound w k offset_preceding off = shift k off (not w.desc)
  bound w k _ off = shift k off w.desc

-- `sort.Search`: the first index from `i` on and below `j` at which `f` holds, by halving.
unfoldable pub search_from : (fuel : ℕ) → (f : ℕ → Bool) → (i j : ℕ) → ℕ
search_from zero f i j = i
search_from (suc n) f i j =
    let h = (i + j) / 2 in
    elim (ltb i j) [
      | true ↦ elim (f h) [ true ↦ search_from n f i h | false ↦ search_from n f (h + 1) j ]
      | false ↦ i
    ]

unfoldable pub search : (n : ℕ) → (ℕ → Bool) → ℕ
unfolding search_from
search n f = search_from n f 0 n

module _ {F R : Type 0} (numbers : Numbers F R) (w : Config F R) (keys : List (RangeKey F R)) where
  -- `keys[j]`.
  abbrev pub key_at : ℕ → RangeKey F R
  key_at j = get_or keys j null

  -- The key that a boundary is anchored at.
  abbrev pub anchor : RangeKey F R → Boundary → RangeKey F R → RangeKey F R
  anchor k current_row off = k
  anchor k t off = bound numbers w k t off

  -- The first row of the frame, by its boundary, and the row behind the last one.
  unfoldable pub frame_start : RangeKey F R → Boundary → ℕ
  unfolding search cmp bound
  frame_start k unbounded_preceding = 0
  frame_start k unbounded_following = length keys
  frame_start k t =
      search (length keys) (λ j. at_least (cmp numbers w (key_at j) (anchor k t w.start_off)))

  unfoldable pub frame_end : RangeKey F R → Boundary → ℕ
  unfolding search cmp bound
  frame_end k unbounded_following = length keys
  frame_end k unbounded_preceding = 0
  frame_end k t =
      search (length keys) (λ j. is_more (cmp numbers w (key_at j) (anchor k t w.end_off)))

  -- `frame`: the rows of the frame are from `s` on and below `e`.
  unfoldable pub frame : ℕ → ℕ × ℕ
  unfolding frame_start frame_end
  frame i =
      let s = frame_start (key_at i) w.start_type in
      let e = frame_end (key_at i) w.end_type in if ltb e s then (s, s) else (s, e)
