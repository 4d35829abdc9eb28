-- ===== src/Functions/Range/Order.antt =====
-- The order of ranges is a total order, in which an unbounded start is the least one and an
-- unbounded end the greatest one.
use googlesqlite.Base.{
  ℕ, suc, ◌≤◌, ◌<◌, ◌≡◌, refl, sym, ◌∙◌, ap, ◌↔◌, Option, none, some, Bool, true, false, inl, inr,
  ◌⊎◌, arith, ltb, leb, Bool-cases,
}
use googlesqlite.Functions.Value.{ok}
use googlesqlite.Functions.Range.{
  Comparable, Range, Sign, less, same, more, opposite, compare_bound, compare_range, range_lte,
}
use googlesqlite.Functions.Range.Points.{IsOrdered}

-- The place of a start among the starts, from the instants: an unbounded one is the first.
abbrev pub start_key : {E : Type 0} → (E → ℕ) → Option E → ℕ
start_key rank none = 0
start_key rank (some a) = suc (rank a)

-- One end is no later than another.
abbrev pub EndLe : {E : Type 0} → (E → ℕ) → Option E → Option E → Type 0
EndLe rank e none = Unit
EndLe rank none (some b) = ⊥
EndLe rank (some a) (some b) = rank a ≤ rank b

-- By the start, and by the end of ranges with the same start.
abbrev pub RangeLe : {E : Type 0} → (E → ℕ) → Range E → Range E → Type 0
RangeLe rank r s =
    (start_key rank r.start < start_key rank s.start)
    ⊎ ((start_key rank r.start ≡ start_key rank s.start) × EndLe rank r.end s.end)

module _ {E : Type 0} (o : Comparable E) (rank : E → ℕ) (law : IsOrdered o rank) where
  -- What a comparison of starts says.
  StartSign : Option E → Option E → Sign → Type 0
  StartSign s t less = start_key rank s < start_key rank t
  StartSign s t same = start_key rank s ≡ start_key rank t
  StartSign s t more = start_key rank t < start_key rank s

  compare-start :
      (s t : Option E) → (c : Sign) × (compare_bound o s t less ≡ ok c) × StartSign s t c
  unfolding compare_bound opposite StartSign
  compare-start none none = (same, refl, refl)
  compare-start none (some b) = (less, refl, omega arith)
  compare-start (some a) none = (more, refl, omega arith)
  compare-start (some a) (some b) = elim (Bool-cases (ltb (rank a) (rank b))) [
    | inl t ↦ (less, rw (law.lt_is a b, t) refl, ground arith)
    | inr t ↦ elim (Bool-cases (ltb (rank b) (rank a))) [
      | inl u ↦ (more, rw (law.lt_is a b, t, law.gt_is a b, u) refl, ground arith)
      | inr u ↦ (same, rw (law.lt_is a b, t, law.gt_is a b, u) refl, ground arith)
    ]
  ]

  EndSign : Option E → Option E → Sign → Type 0
  EndSign s t less = EndLe rank s t
  EndSign s t same = EndLe rank s t
  EndSign s t more = EndLe rank s t → ⊥

  compare-end : (s t : Option E) → (c : Sign) × (compare_bound o s t more ≡ ok c) × EndSign s t c
  unfolding compare_bound opposite EndSign
  compare-end none none = (same, refl, tt)
  compare-end none (some b) = (more, refl, λ x. x)
  compare-end (some a) none = (less, refl, tt)
  compare-end (some a) (some b) = elim (Bool-cases (ltb (rank a) (rank b))) [
    | inl t ↦ (less, rw (law.lt_is a b, t) refl, ground arith)
    | inr t ↦ elim (Bool-cases (ltb (rank b) (rank a))) [
      | inl u ↦ (more, rw (law.lt_is a b, t, law.gt_is a b, u) refl, λ x. ground arith)
      | inr u ↦ (same, rw (law.lt_is a b, t, law.gt_is a b, u) refl, ground arith)
    ]
  ]

  -- If the comparisons of the elements do not fail and compare instants, then the comparison of
  -- two ranges does not fail, and `LTE` is true exactly if the first one starts before the second,
  -- or starts with it and ends no later.
  pub range_lte-RangeLe :
      (r s : Range E) → (t : Bool) × (range_lte o r s ≡ ok t) × ((t ≡ true) ↔ RangeLe rank r s)
  unfolding range_lte compare_range StartSign EndSign
  range_lte-RangeLe r s =
      let (c, e, start) = compare-start r.start s.start in
      let (d, f, end_sign) = compare-end r.end s.end in by_signs c d e f start end_sign
    where
      Goal : Type 0
      Goal = (t : Bool) × (range_lte o r s ≡ ok t) × ((t ≡ true) ↔ RangeLe rank r s)

      by_signs :
          (c d : Sign)
          → compare_bound o r.start s.start less ≡ ok c
          → compare_bound o r.end s.end more ≡ ok d
          → StartSign r.start s.start c
          → EndSign r.end s.end d
          → Goal
      by_signs less d e f start end_sign = (true, rw e refl, ((λ _. inl start), λ _. refl))
      by_signs more d e f start end_sign = (
        false,
        rw e refl,
        (
          (λ k. cc),
          λ k. elim k [ inl x ↦ absurd (omega arith) | inr x ↦ absurd (omega (arith, x.0)) ],
        ),
      )
      by_signs same less e f start end_sign =
          (true, rw (e, f) refl, ((λ _. inr (start, end_sign)), λ _. refl))
      by_signs same same e f start end_sign =
          (true, rw (e, f) refl, ((λ _. inr (start, end_sign)), λ _. refl))
      by_signs same more e f start end_sign = (
        false,
        rw (e, f) refl,
        ((λ k. cc), λ k. elim k [ inl x ↦ absurd (omega arith) | inr x ↦ absurd (end_sign x.1) ]),
      )

EndLe-trans :
    {E : Type 0} (rank : E → ℕ) (a b c : Option E)
    → EndLe rank a b
    → EndLe rank b c
    → EndLe rank a c
EndLe-trans rank a b none h k = tt
EndLe-trans rank a none (some z) h k = elim k [ ]
EndLe-trans rank none (some y) (some z) h k = elim h [ ]
EndLe-trans rank (some x) (some y) (some z) h k = omega arith

EndLe-total : {E : Type 0} (rank : E → ℕ) (a b : Option E) → EndLe rank a b ⊎ EndLe rank b a
EndLe-total rank a none = inl tt
EndLe-total rank none (some b) = inr tt
EndLe-total rank (some a) (some b) = elim (Bool-cases (leb (rank a) (rank b))) [
  | inl t ↦ inl (ground arith)
  | inr f ↦ inr (ground arith)
]

RangeLe-trans :
    {E : Type 0} (rank : E → ℕ) (a b c : Range E)
    → RangeLe rank a b
    → RangeLe rank b c
    → RangeLe rank a c
RangeLe-trans rank a b c (inl h) (inl k) = inl (omega arith)
RangeLe-trans rank a b c (inl h) (inr k) = inl (omega (arith, k.0))
RangeLe-trans rank a b c (inr h) (inl k) = inl (omega (arith, h.0))
RangeLe-trans rank a b c (inr h) (inr k) =
    inr (h.0 ∙ k.0, EndLe-trans rank a.end b.end c.end h.1 k.1)

RangeLe-total : {E : Type 0} (rank : E → ℕ) (a b : Range E) → RangeLe rank a b ⊎ RangeLe rank b a
RangeLe-total rank a b = by_start (start_key rank a.start) (start_key rank b.start)
  where
    by_start :
        (x y : ℕ)
        → ((x < y) ⊎ ((x ≡ y) × EndLe rank a.end b.end))
          ⊎ ((y < x) ⊎ ((y ≡ x) × EndLe rank b.end a.end))
    by_start x y = elim (Bool-cases (ltb x y)) [
      | inl t ↦ inl (inl (ground arith))
      | inr f ↦ elim (Bool-cases (ltb y x)) [
        | inl t ↦ inr (inl (ground arith))
        | inr g ↦
            let e : x ≡ y = ground arith in
            elim (EndLe-total rank a.end b.end) [
              | inl k ↦ inl (inr (e, k))
              | inr k ↦ inr (inr (sym e, k))
            ]
      ]
    ]

module _ {E : Type 0} (o : Comparable E) (rank : E → ℕ) (law : IsOrdered o rank) where
  lte-true : (r s : Range E) → RangeLe rank r s → range_lte o r s ≡ ok true
  lte-true r s h =
      let (t, e, both) = range_lte-RangeLe o rank law r s in
      let p : t ≡ true = both.1 h in e ∙ ap ok p

  lte-RangeLe : (r s : Range E) → range_lte o r s ≡ ok true → RangeLe rank r s
  lte-RangeLe r s h =
      let (t, e, both) = range_lte-RangeLe o rank law r s in let p : t ≡ true = cc in both.0 p

  -- If the comparisons of the elements do not fail and compare instants, then of two ranges one is
  -- below the other by `LTE`.
  pub range_lte_total : (r s : Range E) → (range_lte o r s ≡ ok true) ⊎ (range_lte o s r ≡ ok true)
  range_lte_total r s = elim (RangeLe-total rank r s) [
    | inl h ↦ inl (lte-true r s h)
    | inr h ↦ inr (lte-true s r h)
  ]

  -- If the comparisons of the elements do not fail and compare instants, then by `LTE` a range
  -- below a second one that is below a third is below the third.
  pub range_lte_trans :
      (r s t : Range E)
      → range_lte o r s ≡ ok true
      → range_lte o s t ≡ ok true
      → range_lte o r t ≡ ok true
  range_lte_trans r s t h k =
      lte-true r t (RangeLe-trans rank r s t (lte-RangeLe r s h) (lte-RangeLe s t k))
