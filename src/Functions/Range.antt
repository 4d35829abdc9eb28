-- ===== src/Functions/Range.antt =====
-- The RANGE type: value/value_range.go (comparison) and functions/rangefn/range_ops.go.
pub mod Points
pub mod Order
pub mod Buckets
use googlesqlite.Base.{
  ℕ, zero, suc, Option, none, some, Bool, true, false, not, List, [], ◌∷◌, if◌then◌else◌,
}
use googlesqlite.Functions.Value.{
  wrong_arguments, conversion, wrong_type, no_overlap, unbounded, unbounded, Result, ok, err, ◌>>=◌,
  converted,
}

-- The comparisons of the element type (DATE, DATETIME or TIMESTAMP), which can fail.
pub record Comparable (E : Type 0) : Type 0 where
  pub lt : E → E → Option Bool
  pub gt : E → E → Option Bool
  pub lte : E → E → Option Bool
  pub eq : E → E → Option Bool

-- `RangeValue`: `none` is an unbounded side. `elem` is `ElemHeader`.
pub record Range (E : Type 0) : Type 0 where
  pub start : Option E
  pub end : Option E
  pub elem : ℕ

-- An argument: NULL, a RANGE, or a value of another type.
pub data Arg (E : Type 0) : Type 0 where
  null : Arg E
  range : Range E → Arg E
  point : E → Arg E

-- A comparison: negative, 0 or positive.
pub data Sign : Type 0 where
  less same more : Sign

-- `maxBuckets`, 1 << 16.
abbrev pub max_buckets : ℕ
max_buckets = 65536

unfoldable pub opposite : Sign → Sign
opposite less = more
opposite same = same
opposite more = less

module _ {E : Type 0} (o : Comparable E) where
  -- `rangeBoundLEQ`; an error of the comparison is "not less".
  unfoldable pub bound_leq : Option E → Option E → (start_side : Bool) → Bool
  bound_leq none y start_side = start_side
  bound_leq (some a) none start_side = not start_side
  bound_leq (some a) (some b) start_side = elim (o.lte a b) [ none ↦ false | some t ↦ t ]

  -- `RANGE_CONTAINS` of two ranges.
  unfoldable pub contains_range : Range E → Range E → Bool
  unfolding bound_leq
  contains_range outer inner = elim (bound_leq outer.start inner.start true) [
    | false ↦ false
    | true ↦ elim (bound_leq inner.end outer.end false) [ false ↦ false | true ↦ true ]
  ]

  -- `RANGE_CONTAINS` of a range and a point.
  unfoldable pub before_end : E → Option E → Result Bool
  before_end p none = ok true
  before_end p (some e) = do t ← converted (o.lt p e); ok t

  unfoldable pub contains_point : Range E → E → Result Bool
  unfolding bound_leq before_end
  contains_point outer p = elim (bound_leq outer.start (some p) true) [
    | false ↦ ok false
    | true ↦ before_end p outer.end
  ]

  -- `BindRangeContains`.
  unfoldable pub bind_contains : List (Arg E) → Result (Option Bool)
  unfolding contains_range contains_point
  bind_contains (null ∷ b ∷ []) = ok none
  bind_contains (range r ∷ null ∷ []) = ok none
  bind_contains (point p ∷ null ∷ []) = ok none
  bind_contains (range r ∷ range s ∷ []) = ok (some (contains_range r s))
  bind_contains (range r ∷ point p ∷ []) = do t ← contains_point r p; ok (some t)
  bind_contains (point p ∷ range s ∷ []) = err wrong_type
  bind_contains (point p ∷ point q ∷ []) = err wrong_type
  bind_contains _ = err wrong_arguments

  -- One of the two tests of `RANGE_OVERLAPS`: a start before an end, where both are there.
  unfoldable pub starts_before : Option E → Option E → Result Bool
  starts_before (some s) (some e) = converted (o.lt s e)
  starts_before none e = ok true
  starts_before (some s) none = ok true

  unfoldable pub overlaps : Range E → Range E → Result Bool
  unfolding starts_before
  overlaps a b = do
    t ← starts_before b.start a.end
    elim t [ false ↦ ok false | true ↦ starts_before a.start b.end ]

  -- `BindRangeOverlaps`.
  unfoldable pub bind_overlaps : List (Arg E) → Result (Option Bool)
  unfolding overlaps
  bind_overlaps (null ∷ b ∷ []) = ok none
  bind_overlaps (range r ∷ null ∷ []) = ok none
  bind_overlaps (point p ∷ null ∷ []) = ok none
  bind_overlaps (range r ∷ range s ∷ []) = do t ← overlaps r s; ok (some t)
  bind_overlaps (range r ∷ point p ∷ []) = err wrong_type
  bind_overlaps (point p ∷ range s ∷ []) = err wrong_type
  bind_overlaps (point p ∷ point q ∷ []) = err wrong_type
  bind_overlaps _ = err wrong_arguments

  -- `maxBound`: an error of the comparison keeps the first one.
  unfoldable pub max_bound : Option E → Option E → (start_side : Bool) → Option E
  max_bound none b start_side = if start_side then b else none
  max_bound (some a) none start_side = if start_side then some a else none
  max_bound (some a) (some b) start_side = elim (o.gt a b) [
    | none ↦ some a
    | some t ↦ if t then some a else some b
  ]

  -- `minBound`.
  unfoldable pub min_bound : Option E → Option E → (start_side : Bool) → Option E
  min_bound none b start_side = if start_side then none else b
  min_bound (some a) none start_side = if start_side then none else some a
  min_bound (some a) (some b) start_side = elim (o.lt a b) [
    | none ↦ some a
    | some t ↦ if t then some a else some b
  ]

  unfoldable pub intersect : Range E → Range E → Result (Range E)
  unfolding overlaps max_bound min_bound
  intersect a b = do
    t ← overlaps a b
    elim t [
      | false ↦ err no_overlap
      | true ↦ ok (record {
        start = max_bound a.start b.start true;
        end = min_bound a.end b.end false;
        elem = a.elem;
      })
    ]

  -- `BindRangeIntersect`.
  unfoldable pub bind_intersect : List (Arg E) → Result (Option (Range E))
  unfolding intersect
  bind_intersect (null ∷ b ∷ []) = ok none
  bind_intersect (range r ∷ null ∷ []) = ok none
  bind_intersect (point p ∷ null ∷ []) = ok none
  bind_intersect (range r ∷ range s ∷ []) = do t ← intersect r s; ok (some t)
  bind_intersect (range r ∷ point p ∷ []) = err wrong_type
  bind_intersect (point p ∷ range s ∷ []) = err wrong_type
  bind_intersect (point p ∷ point q ∷ []) = err wrong_type
  bind_intersect _ = err wrong_arguments

  -- `compareBound`.
  unfoldable pub compare_bound : Option E → Option E → (unbounded_sign : Sign) → Result Sign
  unfolding opposite
  compare_bound none none unbounded_sign = ok same
  compare_bound none (some b) unbounded_sign = ok unbounded_sign
  compare_bound (some a) none unbounded_sign = ok (opposite unbounded_sign)
  compare_bound (some a) (some b) unbounded_sign = do
    t ← converted (o.lt a b)
    elim t [ true ↦ ok less | false ↦ do u ← converted (o.gt a b); ok (if u then more else same) ]

  -- `RangeValue.compare`; the other side is a RANGE.
  unfoldable pub compare_range : Range E → Range E → Result Sign
  unfolding compare_bound
  compare_range r s = do
    c ← compare_bound r.start s.start less
    elim c [ same ↦ compare_bound r.end s.end more | less ↦ ok less | more ↦ ok more ]

  -- `GT`, `GTE`, `LT` and `LTE`.
  unfoldable pub range_gt : Range E → Range E → Result Bool
  unfolding compare_range
  range_gt r s = do c ← compare_range r s; ok (elim c [ more ↦ true | _ ↦ false ])

  unfoldable pub range_gte : Range E → Range E → Result Bool
  unfolding compare_range
  range_gte r s = do c ← compare_range r s; ok (elim c [ less ↦ false | _ ↦ true ])

  unfoldable pub range_lt : Range E → Range E → Result Bool
  unfolding compare_range
  range_lt r s = do c ← compare_range r s; ok (elim c [ less ↦ true | _ ↦ false ])

  unfoldable pub range_lte : Range E → Range E → Result Bool
  unfolding compare_range
  range_lte r s = do c ← compare_range r s; ok (elim c [ more ↦ false | _ ↦ true ])

  -- One bound of `RangeValue.EQ`.
  unfoldable pub eq_bound : Option E → Option E → Result Bool
  eq_bound none none = ok true
  eq_bound none (some b) = ok false
  eq_bound (some a) none = ok false
  eq_bound (some a) (some b) = converted (o.eq a b)

  unfoldable pub both_bounded : Option E → Option E → Bool
  both_bounded none none = true
  both_bounded (some a) (some b) = true
  both_bounded none (some b) = false
  both_bounded (some a) none = false

  -- `RangeValue.EQ`: whether both sides are bounded alike is seen before any comparison.
  unfoldable pub range_eq : Range E → Range E → Result Bool
  unfolding eq_bound both_bounded
  range_eq r s = elim (both_bounded r.start s.start) [
    | false ↦ ok false
    | true ↦ elim (both_bounded r.end s.end) [
      | false ↦ ok false
      | true ↦ do
        t ← eq_bound r.start s.start
        elim t [ false ↦ ok false | true ↦ eq_bound r.end s.end ]
    ]
  ]

  -- One round of the loop of `BindGenerateRangeArray` behind the comparison with the end: `over` is
  -- whether the next bound lies behind the end, `rest` the rounds that follow.
  unfoldable pub bucket :
      (elem : ℕ) (end : E) (partial : Bool) (rest : E → Result (List (Range E)))
      → (cur next : E) → (over : Bool) → Result (List (Range E))
  bucket elem end partial rest cur next true =
      if partial then ok (record { start = some cur; end = some end; elem = elem } ∷ []) else ok []
  bucket elem end partial rest cur next false =
      let b : Range E = record { start = some cur; end = some next; elem = elem } in
      elim (o.eq next end) [ some true ↦ ok (b ∷ []) | _ ↦ rest next >>= (λ bs. ok (b ∷ bs)) ]

  -- The loop; `step` adds the interval and coerces the sum to the element type.
  unfoldable pub buckets :
      (step : E → Option E) (elem : ℕ) (end : E) (partial : Bool) (fuel : ℕ)
      → E
      → Result (List (Range E))
  unfolding bucket
  buckets step elem end partial zero cur = ok []
  buckets step elem end partial (suc fuel) cur = elim (step cur) [
    | none ↦ err conversion
    | some next ↦ elim (o.gt next end) [
      | none ↦ err conversion
      | some over ↦
          bucket elem end partial (λ n. buckets step elem end partial fuel n) cur next over
    ]
  ]

  -- GENERATE_RANGE_ARRAY of a range; both sides must be bounded.
  unfoldable pub generate_array :
      (step : E → Option E) (partial : Bool) → Range E → Result (List (Range E))
  unfolding buckets
  generate_array step partial r = elim r.start [
    | none ↦ err unbounded
    | some cur ↦ elim r.end [
      | none ↦ err unbounded
      | some end ↦ buckets step r.elem end partial max_buckets cur
    ]
  ]
