-- ===== src/RangeFrame/Columns.antt =====
-- Columns of one type.
use googlesqlite.Base.{
  ℕ, ◌≤◌, ◌<◌, ◌≡◌, refl, sym, subst, none, some, Bool, true, not, List, length,
}
use googlesqlite.RangeFrame.{
  Numbers, Config, RangeKey, null, float, exact, at_least, cmp, shift, bound, anchor, key_at,
  Boundary, unknown, unbounded_preceding, offset_preceding, current_row, offset_following,
  unbounded_following,
}
use googlesqlite.RangeFrame.Keys.{
  NumberOrder, IsFloatKey, IsExactKey, cmp-IsOrder_float, cmp-IsOrder_exact,
}
use googlesqlite.RangeFrame.Located.{IsSorted}

module _ {F R : Type 0} (numbers : Numbers F R) (laws : NumberOrder numbers) (w : Config F R)
    (keys : List (RangeKey F R)) where
  shift-IsExactKey :
      (k : RangeKey F R) (o : R) (minus : Bool)
      → IsExactKey k
      → IsExactKey (shift numbers k (exact o) minus)
  unfolding shift
  shift-IsExactKey null o minus h = (none, refl)
  shift-IsExactKey (exact r) o minus h = (some _, refl)
  shift-IsExactKey (float f) o minus (none, e) = cc
  shift-IsExactKey (float f) o minus (some r, e) = cc

  shift-IsFloatKey :
      (k off : RangeKey F R) (minus : Bool) → IsFloatKey k → IsFloatKey (shift numbers k off minus)
  unfolding shift
  shift-IsFloatKey null off minus h = (none, refl)
  shift-IsFloatKey (float f) off minus h = (some _, refl)
  shift-IsFloatKey (exact r) off minus (none, e) = cc
  shift-IsFloatKey (exact r) off minus (some f, e) = cc

  -- An anchor is the key itself or a shifted key.
  anchor_in :
      (P : RangeKey F R → Type 0) (k : RangeKey F R) (t : Boundary) (off : RangeKey F R)
      → P k
      → ((minus : Bool) → P (shift numbers k off minus))
      → P (anchor numbers w keys k t off)
  unfolding bound
  anchor_in P k current_row off h shifted = h
  anchor_in P k unknown off h shifted = shifted w.desc
  anchor_in P k unbounded_preceding off h shifted = shifted w.desc
  anchor_in P k unbounded_following off h shifted = shifted w.desc
  anchor_in P k offset_preceding off h shifted = shifted (not w.desc)
  anchor_in P k offset_following off h shifted = shifted w.desc

  -- An integer or NUMERIC column with exact offsets, sorted.
  pub IsSorted_exact :
      (a b : R)
      → w.start_off ≡ exact a
      → w.end_off ≡ exact b
      → ((j : ℕ) → j < length keys → IsExactKey (key_at numbers w keys j))
      → ((j k : ℕ)
          → j ≤ k
          → k < length keys
          → at_least (cmp numbers w (key_at numbers w keys k) (key_at numbers w keys j)) ≡ true)
      → IsSorted numbers w keys IsExactKey
  IsSorted_exact a b start_is end_is typed sorted = record {
    order = cmp-IsOrder_exact numbers laws w;
    key_in = typed;
    start_in = λ j lt.
        anchor_in IsExactKey (key_at numbers w keys j) w.start_type w.start_off (typed j lt)
          (λ minus.
            subst (λ o. IsExactKey (shift numbers (key_at numbers w keys j) o minus)) (sym start_is)
              (shift-IsExactKey (key_at numbers w keys j) a minus (typed j lt)));
    end_in = λ j lt.
        anchor_in IsExactKey (key_at numbers w keys j) w.end_type w.end_off (typed j lt) (λ minus.
          subst (λ o. IsExactKey (shift numbers (key_at numbers w keys j) o minus)) (sym end_is)
            (shift-IsExactKey (key_at numbers w keys j) b minus (typed j lt)));
    sorted = sorted;
  }

  -- A FLOAT64 column, sorted.
  pub IsSorted_float :
      ((j : ℕ) → j < length keys → IsFloatKey (key_at numbers w keys j))
      → ((j k : ℕ)
          → j ≤ k
          → k < length keys
          → at_least (cmp numbers w (key_at numbers w keys k) (key_at numbers w keys j)) ≡ true)
      → IsSorted numbers w keys IsFloatKey
  IsSorted_float typed sorted = record {
    order = cmp-IsOrder_float numbers laws w;
    key_in = typed;
    start_in = λ j lt.
        anchor_in IsFloatKey (key_at numbers w keys j) w.start_type w.start_off (typed j lt)
          (λ minus. shift-IsFloatKey (key_at numbers w keys j) w.start_off minus (typed j lt));
    end_in = λ j lt.
        anchor_in IsFloatKey (key_at numbers w keys j) w.end_type w.end_off (typed j lt)
          (λ minus. shift-IsFloatKey (key_at numbers w keys j) w.end_off minus (typed j lt));
    sorted = sorted;
  }
