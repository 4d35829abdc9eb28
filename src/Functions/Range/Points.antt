-- ===== src/Functions/Range/Points.antt =====
-- RANGE_CONTAINS, RANGE_OVERLAPS and RANGE_INTERSECT by the points of the ranges.
use googlesqlite.Base.{
  ℕ, ◌≤◌, ◌<◌, ◌≡◌, refl, ◌↔◌, Option, none, some, Bool, true, false, inl, inr, arith, ltb, leb,
  leb→le, ◌==◌, Bool-cases,
}
use googlesqlite.Functions.Value.{Result, ok, err, ◌>>=◌}
use googlesqlite.Functions.Range.{
  Comparable, Range, bound_leq, contains_range, contains_point, before_end, starts_before, overlaps,
  max_bound, min_bound, intersect,
}

-- What the comparisons of one element type do: none fails, and they compare the instants.
pub record IsOrdered {E : Type 0} (o : Comparable E) (rank : E → ℕ) : Type 0 where
  pub lt_is : (a b : E) → o.lt a b ≡ some (ltb (rank a) (rank b))
  pub gt_is : (a b : E) → o.gt a b ≡ some (ltb (rank b) (rank a))
  pub lte_is : (a b : E) → o.lte a b ≡ some (leb (rank a) (rank b))
  pub eq_is : (a b : E) → o.eq a b ≡ some (rank a == rank b)

abbrev pub FromStart : {E : Type 0} → (E → ℕ) → Option E → ℕ → Type 0
FromStart rank none x = Unit
FromStart rank (some a) x = rank a ≤ x

abbrev pub ToEnd : {E : Type 0} → (E → ℕ) → Option E → ℕ → Type 0
ToEnd rank none x = Unit
ToEnd rank (some a) x = x < rank a

-- The instant `x` is in the half-open range.
abbrev pub In : {E : Type 0} → (E → ℕ) → Range E → ℕ → Type 0
In rank r x = FromStart rank r.start x × ToEnd rank r.end x

module _ {E : Type 0} (o : Comparable E) (rank : E → ℕ) (law : IsOrdered o rank) where
  bound_leq-start :
      (s t : Option E) (x : ℕ)
      → bound_leq o s t true ≡ true
      → FromStart rank t x
      → FromStart rank s x
  unfolding bound_leq
  bound_leq-start none t x h k = tt
  bound_leq-start (some a) none x h k = cc
  bound_leq-start (some a) (some b) x h k =
      let le : leb (rank a) (rank b) ≡ true = rw (law.lte_is a b, bound_leq) at h in ground arith

  bound_leq-end :
      (s t : Option E) (x : ℕ) → bound_leq o s t false ≡ true → ToEnd rank s x → ToEnd rank t x
  unfolding bound_leq
  bound_leq-end none t x h k = cc
  bound_leq-end (some a) none x h k = tt
  bound_leq-end (some a) (some b) x h k =
      let le : leb (rank a) (rank b) ≡ true = rw (law.lte_is a b, bound_leq) at h in ground arith

  both_true :
      (s e : Bool)
      → (elim s [ false ↦ false | true ↦ elim e [ false ↦ false | true ↦ true ] ]) ≡ true
      → (s ≡ true) × (e ≡ true)
  both_true false e h = cc
  both_true true false h = cc
  both_true true true h = (refl, refl)

  starts_false :
      (s : Option E) (p : E) → bound_leq o s (some p) true ≡ false → FromStart rank s (rank p) → ⊥
  unfolding bound_leq
  starts_false none p h k = cc
  starts_false (some a) p h k =
      let le : leb (rank a) (rank p) ≡ false = rw (law.lte_is a p, bound_leq) at h in ground arith

  -- If the comparisons of the elements do not fail and compare instants, then wherever
  -- RANGE_CONTAINS of two ranges is true, each instant of the inner range is in the outer one.
  pub contains_range_sound :
      (outer inner : Range E) (x : ℕ)
      → contains_range o outer inner ≡ true
      → In rank inner x
      → In rank outer x
  unfolding contains_range
  contains_range_sound outer inner x h (k, l) =
      let (s, e) =
        both_true (bound_leq o outer.start inner.start true) (bound_leq o inner.end outer.end false)
          h in
      (bound_leq-start outer.start inner.start x s k, bound_leq-end inner.end outer.end x e l)

  before_end_lem :
      (p : E) (e : Option E)
      → (t : Bool) × (before_end o p e ≡ ok t) × ((t ≡ true) ↔ ToEnd rank e (rank p))
  unfolding before_end
  before_end_lem p none = (true, refl, ((λ _. tt), λ _. refl))
  before_end_lem p (some e) =
      (ltb (rank p) (rank e), rw (law.lt_is p e) refl, ((λ h. ground arith), λ h. ground arith))

  -- If the comparisons of the elements do not fail and compare instants, then RANGE_CONTAINS of a
  -- range and a point does not fail, and is true exactly for the points of the range.
  pub contains_point-In :
      (r : Range E) (p : E)
      → (t : Bool) × (contains_point o r p ≡ ok t) × ((t ≡ true) ↔ In rank r (rank p))
  unfolding contains_point
  contains_point-In r p = from (bound_leq o r.start (some p) true) refl
    where
      from :
          (b : Bool)
          → bound_leq o r.start (some p) true ≡ b
          → (t : Bool) × ((elim b [ false ↦ ok false | true ↦ before_end o p r.end ]) ≡ ok t)
            × ((t ≡ true) ↔ In rank r (rank p))
      from true h =
          let (t, e, both) = before_end_lem p r.end in
          let start = bound_leq-start r.start (some p) (rank p) h (omega arith) in
          (t, e, ((λ k. (start, both.0 k)), λ k. both.1 k.1))
      from false h = (false, refl, ((λ k. cc), λ k. absurd (starts_false r.start p h k.0)))

  starts_before-true :
      (s e : Option E) (x : ℕ) → FromStart rank s x → ToEnd rank e x → starts_before o s e ≡ ok true
  unfolding starts_before
  starts_before-true none e x h k = refl
  starts_before-true (some a) none x h k = refl
  starts_before-true (some a) (some b) x h k =
      let lt : ltb (rank a) (rank b) ≡ true = ground arith in rw (law.lt_is a b, lt) refl

  -- The first instant of a range, if it has one.
  abbrev pub first_of : Option E → ℕ
  first_of none = 0
  first_of (some a) = rank a

  starts_before-end :
      (s e : Option E) (x : ℕ)
      → starts_before o s e ≡ ok true
      → ToEnd rank e x
      → ToEnd rank e (first_of s)
  unfolding starts_before
  starts_before-end s none x h k = tt
  starts_before-end none (some b) x h k = omega arith
  starts_before-end (some a) (some b) x h k =
      let p : ok (ltb (rank a) (rank b)) ≡ ok true = rw (law.lt_is a b) at h in
      let lt : ltb (rank a) (rank b) ≡ true = cc in ground arith

  overlap_both :
      (a b : Range E)
      → ((x : ℕ) → In rank a x → In rank b x → overlaps o a b ≡ ok true)
        × (overlaps o a b ≡ ok true
            → (x y : ℕ) → In rank a x
            → In rank b y
            → (z : ℕ) × In rank a z × In rank b z)
  unfolding overlaps
  overlap_both a b = (share, meet)
    where
      share : (x : ℕ) → In rank a x → In rank b x → overlaps o a b ≡ ok true
      share x h k =
          rw
            (starts_before-true b.start a.end x k.0 h.1, starts_before-true a.start b.end x h.0 k.1)
            refl

      both_tests :
          (t u : Result Bool)
          → (t >>= (λ v. elim v [ false ↦ ok false | true ↦ u ])) ≡ ok true
          → (t ≡ ok true) × (u ≡ ok true)
      both_tests (err e) u h = cc
      both_tests (ok false) u h = cc
      both_tests (ok true) u h = (refl, h)

      from_start : (s : Option E) → FromStart rank s (first_of s)
      from_start none = tt
      from_start (some e) = omega arith

      later : (s : Option E) (x y : ℕ) → FromStart rank s x → x ≤ y → FromStart rank s y
      later none x y h k = tt
      later (some e) x y h k = omega arith

      first-le : (s : Option E) (x : ℕ) → FromStart rank s x → first_of s ≤ x
      first-le none x h = omega arith
      first-le (some e) x h = h

      earlier : (e : Option E) (x y : ℕ) → ToEnd rank e y → x ≤ y → ToEnd rank e x
      earlier none x y h k = tt
      earlier (some e) x y h k = omega arith

      meet :
          overlaps o a b ≡ ok true
          → (x y : ℕ) → In rank a x
          → In rank b y
          → (z : ℕ) × In rank a z × In rank b z
      meet h x y k l =
          let (p, q) =
            both_tests (starts_before o b.start a.end) (starts_before o a.start b.end) h in
          elim (Bool-cases (leb (first_of a.start) (first_of b.start))) [
            | inl t ↦
                let le : first_of a.start ≤ first_of b.start = leb→le _ _ t in
                (
                  first_of b.start,
                  (
                    later a.start _ _ (from_start a.start) le,
                    starts_before-end b.start a.end x p k.1,
                  ),
                  (from_start b.start, earlier b.end _ y l.1 (first-le b.start y l.0)),
                )
            | inr f ↦
                let le : first_of b.start ≤ first_of a.start = ground arith in
                (
                  first_of a.start,
                  (from_start a.start, earlier a.end _ x k.1 (first-le a.start x k.0)),
                  (
                    later b.start _ _ (from_start b.start) le,
                    starts_before-end a.start b.end y q l.1,
                  ),
                )
          ]

  -- If the comparisons of the elements do not fail and compare instants, then RANGE_OVERLAPS is
  -- true for two ranges that share an instant.
  pub overlaps-true : (a b : Range E) (x : ℕ) → In rank a x → In rank b x → overlaps o a b ≡ ok true
  overlaps-true a b = (overlap_both a b).0

  -- If the comparisons of the elements do not fail and compare instants, then wherever
  -- RANGE_OVERLAPS is true and neither range is empty, there is an instant in both ranges.
  pub overlaps-In :
      (a b : Range E) (x y : ℕ)
      → overlaps o a b ≡ ok true
      → In rank a x
      → In rank b y
      → (z : ℕ) × In rank a z × In rank b z
  overlaps-In a b x y h = (overlap_both a b).1 h x y

  max_bound-FromStart :
      (s t : Option E) (x : ℕ)
      → FromStart rank (max_bound o s t true) x ↔ (FromStart rank s x × FromStart rank t x)
  unfolding max_bound
  max_bound-FromStart none t x = ((λ h. (tt, h)), λ h. h.1)
  max_bound-FromStart (some a) none x = ((λ h. (h, tt)), λ h. h.0)
  max_bound-FromStart (some a) (some b) x = elim (Bool-cases (ltb (rank b) (rank a))) [
    | inl t ↦ rw (law.gt_is a b, max_bound, t) ((λ h. (h, ground arith)), λ h. h.0)
    | inr f ↦ rw (law.gt_is a b, max_bound, f) ((λ h. (ground arith, h)), λ h. h.1)
  ]

  min_bound-ToEnd :
      (s t : Option E) (x : ℕ)
      → ToEnd rank (min_bound o s t false) x ↔ (ToEnd rank s x × ToEnd rank t x)
  unfolding min_bound
  min_bound-ToEnd none t x = ((λ h. (tt, h)), λ h. h.1)
  min_bound-ToEnd (some a) none x = ((λ h. (h, tt)), λ h. h.0)
  min_bound-ToEnd (some a) (some b) x = elim (Bool-cases (ltb (rank a) (rank b))) [
    | inl t ↦ rw (law.lt_is a b, min_bound, t) ((λ h. (h, ground arith)), λ h. h.0)
    | inr f ↦ rw (law.lt_is a b, min_bound, f) ((λ h. (ground arith, h)), λ h. h.1)
  ]

  -- If the comparisons of the elements do not fail and compare instants, then RANGE_INTERSECT of
  -- two ranges that share an instant does not fail, and returns the range of exactly the instants
  -- that they share.
  pub intersect-In :
      (a b : Range E) (x : ℕ)
      → In rank a x
      → In rank b x
      → (r : Range E) × (intersect o a b ≡ ok r)
        × ((y : ℕ) → In rank r y ↔ (In rank a y × In rank b y))
  unfolding intersect
  intersect-In a b x h k = (
    record {
      start = max_bound o a.start b.start true;
      end = min_bound o a.end b.end false;
      elem = a.elem;
    },
    rw ((overlap_both a b).0 x h k) refl,
    λ y. (
      (λ l.
          let (p, q) = (max_bound-FromStart a.start b.start y).0 l.0 in
          let (u, v) = (min_bound-ToEnd a.end b.end y).0 l.1 in ((p, u), (q, v))),
      λ l. (
        (max_bound-FromStart a.start b.start y).1 (l.0.0, l.1.0),
        (min_bound-ToEnd a.end b.end y).1 (l.0.1, l.1.1),
      ),
    ),
  )
