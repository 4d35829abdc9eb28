-- ===== src/RangeFrame/Located.antt =====
-- The rows that `frame` locates.
use googlesqlite.Base.{
  not_ltb, ℕ, ◌≤◌, ◌<◌, ◌≡◌, refl, sym, ◌∙◌, ap, ◌↔◌, Bool, true, false, not, inl, inr, arith, ltb,
  ltb→lt, List, length, Bool-cases, true_not_false,
}
use googlesqlite.RangeFrame.{
  Order, less, same, more, negate, at_least, is_more, Numbers, RangeKey, Config, cmp, Boundary,
  unknown, unbounded_preceding, offset_preceding, current_row, offset_following,
  unbounded_following, key_at, anchor, frame_start, frame_end, frame,
}
use googlesqlite.RangeFrame.Search.{Monotone, IsFirst, search-IsFirst}
use googlesqlite.RangeFrame.Keys.{IsOrder}

-- Whether the row `j` is at or behind the start of the frame of a row with key `k`, and at or before
-- its end.
module _ {F R : Type 0} (numbers : Numbers F R) (w : Config F R) (keys : List (RangeKey F R)) where
  abbrev pub from_start : RangeKey F R → Boundary → ℕ → Bool
  from_start k unbounded_preceding j = true
  from_start k unbounded_following j = false
  from_start k t j =
      at_least (cmp numbers w (key_at numbers w keys j) (anchor numbers w keys k t w.start_off))

  abbrev pub to_end : RangeKey F R → Boundary → ℕ → Bool
  to_end k unbounded_following j = true
  to_end k unbounded_preceding j = false
  to_end k t j =
      not (is_more (cmp numbers w (key_at numbers w keys j) (anchor numbers w keys k t w.end_off)))

  -- The keys are in the window's order, and they and what they are compared with are in P.
  pub record IsSorted (P : RangeKey F R → Type 0) : Type 0 where
    pub order : IsOrder P (cmp numbers w)
    pub key_in : (j : ℕ) → j < length keys → P (key_at numbers w keys j)
    pub start_in :
        (j : ℕ)
        → j < length keys
        → P (anchor numbers w keys (key_at numbers w keys j) w.start_type w.start_off)
    pub end_in :
        (j : ℕ)
        → j < length keys
        → P (anchor numbers w keys (key_at numbers w keys j) w.end_type w.end_off)
    pub sorted :
        (j k : ℕ)
        → j ≤ k
        → k < length keys
        → at_least (cmp numbers w (key_at numbers w keys k) (key_at numbers w keys j)) ≡ true

not_twice : (b : Bool) → not (not b) ≡ b
not_twice true = refl
not_twice false = refl

twice : {n : ℕ} {f : ℕ → Bool} {p : ℕ} → IsFirst n f p → IsFirst n (λ j. not (not (f j))) p
twice {f = f} (le, below, above) =
    (le, (λ j lt. not_twice (f j) ∙ below j lt), λ j le lt. not_twice (f j) ∙ above j le lt)

-- An index is at or behind the first one exactly if the test holds there.
IsFirst-at :
    {n : ℕ} {f : ℕ → Bool} {p : ℕ} → (j : ℕ) → j < n → IsFirst n f p → (p ≤ j) ↔ (f j ≡ true)
IsFirst-at {f = f} {p = p} j lt (le, below, above) = (
  (λ pj. above j pj lt),
  λ h. elim (Bool-cases (ltb j p)) [
    | inl t ↦ absurd (true_not_false (sym h ∙ below j (ltb→lt j p t)))
    | inr e ↦ not_ltb j p e
  ],
)

IsFirst-before :
    {n p : ℕ}
    → (g : ℕ → Bool) (j : ℕ) → j < n
    → IsFirst n (λ i. not (g i)) p
    → (j < p) ↔ (g j ≡ true)
IsFirst-before {p = p} g j lt (le, below, above) = (
  (λ jp. sym (not_twice (g j)) ∙ ap not (below j jp)),
  λ h. elim (Bool-cases (ltb j p)) [
    | inl t ↦ ltb→lt j p t
    | inr e ↦
        let contra = sym (above j (not_ltb j p e) lt) ∙ ap not h in absurd (true_not_false contra)
  ],
)

at_least-negate : (o : Order) → is_more o ≡ true → at_least (negate o) ≡ false
at_least-negate more e = refl
at_least-negate less e = absurd (true_not_false (sym e))
at_least-negate same e = absurd (true_not_false (sym e))

not_more : (o : Order) → is_more o ≡ false → at_least (negate o) ≡ true
not_more more e = absurd (true_not_false e)
not_more less e = refl
not_more same e = refl

module _ {F R : Type 0} (numbers : Numbers F R) (w : Config F R) (keys : List (RangeKey F R))
    (P : RangeKey F R → Type 0) (column : IsSorted numbers w keys P) where
  at_least-Monotone :
      (b : RangeKey F R)
      → P b
      → Monotone (length keys) (λ j. at_least (cmp numbers w (key_at numbers w keys j) b))
  at_least-Monotone b in_b j k le lt h =
      column.order.trans _ _ b (column.key_in k lt) (column.key_in j (omega arith)) in_b
        (column.sorted j k le lt) h

  is_more-Monotone :
      (b : RangeKey F R)
      → P b
      → Monotone (length keys) (λ j. is_more (cmp numbers w (key_at numbers w keys j) b))
  is_more-Monotone b in_b j k le lt h =
      let key_k = key_at numbers w keys k in
      let key_j = key_at numbers w keys j in
      let in_k = column.key_in k lt in
      let in_j = column.key_in j (omega arith) in
      elim (Bool-cases (is_more (cmp numbers w key_k b))) [
        | inl t ↦ t
        | inr f ↦
            let b_k : at_least (cmp numbers w b key_k) ≡ true =
              ap at_least (column.order.flip key_k b in_k in_b) ∙ not_more _ f in
            let b_j =
              column.order.trans b key_k key_j in_b in_k in_j b_k (column.sorted j k le lt) in
            let not_b_j : at_least (cmp numbers w b key_j) ≡ false =
              ap at_least (column.order.flip key_j b in_j in_b) ∙ at_least-negate _ h in
            absurd (true_not_false (sym b_j ∙ not_b_j))
      ]

  frame_start-IsFirst :
      (k : RangeKey F R) (t : Boundary)
      → P (anchor numbers w keys k t w.start_off)
      → IsFirst (length keys) (from_start numbers w keys k t) (frame_start numbers w keys k t)
  unfolding frame_start
  frame_start-IsFirst k unbounded_preceding a =
      (omega arith, (λ j lt. absurd (omega arith)), λ j le lt. refl)
  frame_start-IsFirst k unbounded_following a =
      (omega arith, (λ j lt. refl), λ j le lt. absurd (omega arith))
  frame_start-IsFirst k unknown a = search-IsFirst _ _ (at_least-Monotone _ a)
  frame_start-IsFirst k offset_preceding a = search-IsFirst _ _ (at_least-Monotone _ a)
  frame_start-IsFirst k current_row a = search-IsFirst _ _ (at_least-Monotone _ a)
  frame_start-IsFirst k offset_following a = search-IsFirst _ _ (at_least-Monotone _ a)

  frame_end-IsFirst :
      (k : RangeKey F R) (t : Boundary)
      → P (anchor numbers w keys k t w.end_off)
      → IsFirst
          (length keys)
          (λ j. not (to_end numbers w keys k t j))
          (frame_end numbers w keys k t)
  unfolding frame_end
  frame_end-IsFirst k unbounded_preceding a =
      (omega arith, (λ j lt. absurd (omega arith)), λ j le lt. refl)
  frame_end-IsFirst k unbounded_following a =
      (omega arith, (λ j lt. refl), λ j le lt. absurd (omega arith))
  frame_end-IsFirst k unknown a = twice (search-IsFirst _ _ (is_more-Monotone _ a))
  frame_end-IsFirst k offset_preceding a = twice (search-IsFirst _ _ (is_more-Monotone _ a))
  frame_end-IsFirst k current_row a = twice (search-IsFirst _ _ (is_more-Monotone _ a))
  frame_end-IsFirst k offset_following a = twice (search-IsFirst _ _ (is_more-Monotone _ a))

  -- The frame of row i, as the binary searches find it, is a part of the buffered rows, and row j is in
  -- it exactly if its key is at or behind the start of the frame in the order of the window and at or
  -- before the end, where the keys are sorted by that order and it is a linear order on them and on
  -- the two anchors.
  pub frame_lem :
      (i j : ℕ)
      → i < length keys
      → j < length keys
      → let (s, e) = frame numbers w keys i in
        (s ≤ e)
        × (e ≤ length keys)
        × (((s ≤ j) × (j < e)) ↔ (
            (from_start numbers w keys (key_at numbers w keys i) w.start_type j ≡ true)
            × (to_end numbers w keys (key_at numbers w keys i) w.end_type j ≡ true)))
  unfolding frame
  frame_lem i j i_lt j_lt =
      let k = key_at numbers w keys i in
      let s = frame_start numbers w keys k w.start_type in
      let e = frame_end numbers w keys k w.end_type in
      let first = frame_start-IsFirst k w.start_type (column.start_in i i_lt) in
      let last = frame_end-IsFirst k w.end_type (column.end_in i i_lt) in
      let (start_to, start_from) = IsFirst-at j j_lt first in
      let (end_to, end_from) = IsFirst-before (to_end numbers w keys k w.end_type) j j_lt last in
      elim (Bool-cases (ltb e s)) [
        | inl t ↦
            rw (t, frame)
              (
                omega arith,
                first.0,
                (
                  (λ (a, b). absurd (omega arith)),
                  λ (a, b).
                      let lt = ltb→lt e s t in
                      let sj = start_from a in let je = end_from b in (sj, omega arith),
                ),
              )
        | inr f ↦
            rw (f, frame)
              (
                not_ltb e s f,
                last.0,
                ((λ (a, b). (start_to a, end_to b)), λ (a, b). (start_from a, end_from b)),
              )
      ]
