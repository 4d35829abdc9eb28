-- ===== src/RangeFrame/Run.antt =====
-- All rows of a partition.
use googlesqlite.Base.{
  append_assoc, append_nil, not_ltb, ℕ, zero, suc, ◌+◌, ◌≤◌, ◌<◌, ◌≡◌, refl, sym, ◌∙◌, subst,
  Option, some, Try, failed, done, false, List, [], ◌∷◌, ◌++◌, Try-cases, length-append, inl, inr,
  arith, leb, ltb, Bool-cases, length,
}
use googlesqlite.RangeFrame.{
  Numbers, Config, RangeKey, null, KeyValue, to_range_key, frame, frame_start, frame_end, key_at,
}
use googlesqlite.RangeFrame.Windowed.{
  step, step_rows, empty, Aggregate, Window, slice, done_at, inverse, values,
}
use googlesqlite.RangeFrame.Slide.{IsAggregate, HoldsInner, Located, locate-Located}

-- The values of the frames of `n` rows from row `i` on.
abbrev pub frame_values :
    {F R Row Out : Type 0}
    → Numbers F R
    → Config F R
    → List (RangeKey F R)
    → List Row
    → (List Row → Out)
    → (n i : ℕ) → List (Option Out)
frame_values numbers w keys rows value zero i = []
frame_values numbers w keys rows value (suc n) i =
    let (s, e) = frame numbers w keys i in
    some (value (slice rows s e)) ∷ frame_values numbers w keys rows value n (i + 1)

not_leb : (i j : ℕ) → j < i → leb i j ≡ false
not_leb i j e = ground arith

frame-le :
    {F R : Type 0}
    → (numbers : Numbers F R) (w : Config F R) (keys : List (RangeKey F R)) (i : ℕ)
    → (frame numbers w keys i).0 ≤ (frame numbers w keys i).1
unfolding frame
frame-le numbers w keys i =
    let k = key_at numbers w keys i in
    let s = frame_start numbers w keys k w.start_type in
    let e = frame_end numbers w keys k w.end_type in
    elim (Bool-cases (ltb e s)) [
      | inl t ↦ rw (t, frame) (omega arith)
      | inr f ↦ rw (f, frame) (not_ltb e s f)
    ]

module _ {F R S Row Out E : Type 0} (numbers : Numbers F R) (agg : Aggregate S Row Out E)
    (Holds : S → List Row → Type 0) (value : List Row → Out)
    (laws : IsAggregate agg Holds value) where
  done_at-Located :
      (w : Window F R S Row)
      → w.cur < length w.keys
      → HoldsInner numbers agg Holds value laws w.rows w.inner
      → let (s, e) = frame numbers w.config w.keys w.cur in
        Located numbers agg Holds value laws w s e (done_at numbers agg w)
  unfolding done_at
  done_at-Located w lt h =
      let (s, e) = frame numbers w.config w.keys w.cur in
      rw (not_leb (length w.keys) w.cur lt, done_at)
        (locate-Located numbers agg Holds value laws w w.inner agg.inverse s e refl h
          (frame-le numbers w.config w.keys w.cur))

  values_lem :
      (n : ℕ) (w : Window F R S Row)
      → w.cur + n ≡ length w.keys
      → HoldsInner numbers agg Holds value laws w.rows w.inner
      → values numbers agg n w ≡ done (frame_values numbers w.config w.keys w.rows value n w.cur)
  unfolding values inverse
  values_lem zero w e h = refl
  values_lem (suc n) w e h =
      let (i, here, h') = done_at-Located w (omega arith) h in
      let next : Window F R S Row = record {
        config = w.config;
        keys = w.keys;
        rows = w.rows;
        cur = w.cur + 1;
        inner = some i;
      } in
      let rest = values_lem n next (omega arith) h' in rw (here, values, rest) refl

-- The rows of a partition without their keys.
abbrev pub rows_of : {A Row : Type 0} → List (A × Row) → List Row
rows_of [] = []
rows_of ((v, r) ∷ vs) = r ∷ rows_of vs

-- The keys that the values convert to; one that fails does not occur.
abbrev pub keys_of :
    {F R Row : Type 0} → Numbers F R → List (KeyValue F R × Row) → List (RangeKey F R)
keys_of numbers [] = []
keys_of numbers ((v, r) ∷ vs) =
    (elim (to_range_key numbers v) [ failed e ↦ null | done k ↦ k ]) ∷ keys_of numbers vs

module _ {F R S Row Out E : Type 0} (numbers : Numbers F R) (agg : Aggregate S Row Out E) where
  -- The rows are buffered.
  record Stepped (w w' : Window F R S Row) (vs : List (KeyValue F R × Row)) : Type 0 where
    config_is : w'.config ≡ w.config
    cur_is : w'.cur ≡ w.cur
    inner_is : w'.inner ≡ w.inner
    rows_are : w'.rows ≡ w.rows ++ rows_of vs
    keys_are : w'.keys ≡ w.keys ++ keys_of numbers vs
    keys_grow : length w'.keys ≡ length w.keys + length vs

  failed_done : {A X : Type 0} {x : X} {a : A} → failed x ≡ done a → ⊥
  failed_done e = cc

  done_injective : {A X : Type 0} {a b : A} → ◌≡◌ {A = Try X A} (done a) (done b) → a ≡ b
  done_injective e = cc

  step_rows_lem :
      (vs : List (KeyValue F R × Row)) (w w' : Window F R S Row)
      → step_rows numbers agg w vs ≡ done w'
      → Stepped w w' vs
  unfolding step_rows step
  step_rows_lem [] w w' e =
      let same : w ≡ w' = done_injective e in
      subst (λ (x : Window F R S Row). Stepped w x []) same
        (record {
          config_is = refl;
          cur_is = refl;
          inner_is = refl;
          rows_are = sym (append_nil w.rows);
          keys_are = sym (append_nil w.keys);
          keys_grow = omega arith;
        })
  step_rows_lem ((v, r) ∷ vs) w w' e = elim (Try-cases (to_range_key numbers v)) [
    | inl (x, f) ↦ absurd (failed_done (rw (f, step_rows) at e))
    | inr (k, g) ↦
        let next : Window F R S Row = record {
          config = w.config;
          keys = w.keys ++ k ∷ [];
          rows = w.rows ++ r ∷ [];
          cur = w.cur;
          inner = w.inner;
        } in
        let h = step_rows_lem vs next w' (rw (g, step_rows) at e) in
        record {
          config_is = h.config_is;
          cur_is = h.cur_is;
          inner_is = h.inner_is;
          rows_are = h.rows_are ∙ append_assoc w.rows (r ∷ []) (rows_of vs);
          keys_are = rw g (h.keys_are ∙ append_assoc w.keys (k ∷ []) (keys_of numbers vs));
          keys_grow = omega (arith, h.keys_grow, length-append w.keys (k ∷ []));
        }
  ]

-- When the rows of a partition have been stepped and none has failed, the values that SQLite reads,
-- one for each row with one row inverted in between, are in every row the value of the inner aggregate
-- on the rows of its frame, evaluated anew, however the instance has slid along.
pub values-frame_values :
    {F R S Row Out E : Type 0}
    → (numbers : Numbers F R) (agg : Aggregate S Row Out E)
    → (Holds : S → List Row → Type 0) (value : List Row → Out) → IsAggregate agg Holds value
    → (config : Config F R) (vs : List (KeyValue F R × Row)) (w : Window F R S Row)
    → step_rows numbers agg (empty numbers agg config) vs ≡ done w
    → values numbers agg (length vs) w
      ≡ done (frame_values numbers config (keys_of numbers vs) (rows_of vs) value (length vs) 0)
values-frame_values numbers agg Holds value laws config vs w e =
    let h = step_rows_lem numbers agg vs (empty numbers agg config) w e in
    let run =
      values_lem numbers agg Holds value laws (length vs) w (omega (arith, h.cur_is, h.keys_grow))
        (rw h.inner_is tt) in
    let c = h.config_is in
    let r = h.rows_are in let z = h.cur_is in let k = h.keys_are in run ∙ (cc)
