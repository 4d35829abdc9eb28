-- ===== src/RangeFrame/Tests.antt =====
-- Runs of functions/window/range_frame.go, with natural numbers for the exact keys.
use googlesqlite.Base.{
  ℕ, zero, suc, ◌⊎◌, ◌+◌, ◌-◌, ◌≤◌, ◌<◌, ◌≡◌, refl, sym, ap, ◌↔◌, Option, none, some, Try, failed,
  done, true, false, List, [], ◌∷◌, ◌++◌, arith, ltb, length, if◌then◌else◌,
}
use googlesqlite.RangeFrame.{
  Order, less, same, more, at_least, Numbers, RangeKey, null, exact, Config, KeyValue, Failure,
  other_value, offset_preceding, current_row, cmp, frame, key_at,
}
use googlesqlite.RangeFrame.Windowed.{Aggregate, Window, values, empty, step_rows}
use googlesqlite.RangeFrame.Keys.{NumberOrder, IsExactKey}
use googlesqlite.RangeFrame.Located.{IsSorted, from_start, to_end, frame_lem}
use googlesqlite.RangeFrame.Slide.{IsAggregate}
use googlesqlite.RangeFrame.Run.{frame_values, rows_of, keys_of, values-frame_values}
use googlesqlite.RangeFrame.Columns.{IsSorted_exact}
use googlesqlite.RangeFrame.Typed.{count_of, count_window, count-frame_values}
use googlesqlite.RangeFrame.Best.{In, best, min_max_window, min_max_window-Best}

abbrev order : ℕ → ℕ → Order
order a b = if ltb a b then less else if ltb b a then more else same

-- Shifting down stops at 0.
abbrev plain : Numbers ℕ ℕ
plain = record {
  is_nan = λ f. false;
  is_inf = λ f. false;
  lt = ltb;
  negative = λ f. f;
  add = λ a b. a + b;
  max_float = λ f. f;
  zero_float = 0;
  cmp_rat = order;
  add_rat = λ a b. a + b;
  sub_rat = λ a b. a - b;
  zero_rat = 0;
  to_float = λ r. r;
}

plain-NumberOrder : NumberOrder plain
plain-NumberOrder = record {
  asym = λ a b h. ground arith;
  lt_trans = λ a b c _ _ _ h k. ground arith;
  rats = record { flip = λ a b _ _. ground arith; trans = λ x y z _ _ _ h k. ground arith };
}

-- RANGE BETWEEN 2 PRECEDING AND CURRENT ROW.
abbrev two_before : Config ℕ ℕ
two_before = record {
  desc = false;
  nulls_last = false;
  start_type = offset_preceding;
  end_type = current_row;
  start_off = exact 2;
  end_off = exact 0;
}

abbrev column : List (RangeKey ℕ ℕ)
column = null ∷ exact 3 ∷ exact 4 ∷ []

column-typed : (j : ℕ) → j < length column → IsExactKey (key_at plain two_before column j)
column-typed zero lt = (none, refl)
column-typed (suc zero) lt = (some 3, refl)
column-typed (suc (suc zero)) lt = (some 4, refl)
column-typed (suc (suc (suc j))) lt = absurd (omega arith)

column-sorted :
    (j k : ℕ)
    → j ≤ k
    → k < length column
    → at_least
        (cmp plain two_before (key_at plain two_before column k) (key_at plain two_before column j))
      ≡ true
unfolding cmp
column-sorted zero zero le lt = refl
column-sorted zero (suc zero) le lt = refl
column-sorted zero (suc (suc zero)) le lt = refl
column-sorted (suc zero) (suc zero) le lt = refl
column-sorted (suc zero) (suc (suc zero)) le lt = refl
column-sorted (suc (suc zero)) (suc (suc zero)) le lt = refl
column-sorted (suc j) zero le lt = absurd (omega arith)
column-sorted (suc (suc j)) (suc zero) le lt = absurd (omega arith)
column-sorted (suc (suc (suc j))) (suc (suc zero)) le lt = absurd (omega arith)
column-sorted j (suc (suc (suc k))) le lt = absurd (omega arith)

column-IsSorted : IsSorted plain two_before column IsExactKey
column-IsSorted =
    IsSorted_exact plain plain-NumberOrder two_before column 2 0 refl refl column-typed
      column-sorted

frame_lem_example :
    let (s, e) = frame plain two_before column 2 in
    (s ≤ e)
    × (e ≤ 3)
    × (((s ≤ 1) × (1 < e)) ↔ (
        (from_start plain two_before column (exact 4) offset_preceding 1 ≡ true)
        × (to_end plain two_before column (exact 4) current_row 1 ≡ true)))
frame_lem_example =
    frame_lem plain two_before column IsExactKey column-IsSorted 2 1 (omega arith) (omega arith)

column-frame : ◌≡◌ {A = ℕ × ℕ} (frame plain two_before column 2) (1, 3)
unfolding frame
column-frame = refl

-- The instance is the list of its rows.
abbrev rest : List ℕ → List ℕ
rest [] = []
rest (x ∷ xs) = xs

abbrev listing : Aggregate (List ℕ) ℕ (List ℕ) ℕ
listing = record {
  fresh = [];
  step = λ st r. done (st ++ r ∷ []);
  inverse = some (λ st r. done (rest st));
  finish = λ st. done st;
}

listing-IsAggregate : IsAggregate listing (λ st xs. st ≡ xs) (λ xs. xs)
listing-IsAggregate = record {
  fresh_holds = refl;
  step_holds = λ st xs r h. (st ++ r ∷ [], refl, ap (λ (l : List ℕ). l ++ r ∷ []) h);
  inverse_holds = λ inv st xs r e h. (rest st, ap (λ o. answer o st r) (sym e), ap rest h);
  finish_value = λ st xs h. ap done h;
}
  where
    answer : Option (List ℕ → ℕ → Try ℕ (List ℕ)) → List ℕ → ℕ → Try ℕ (List ℕ)
    answer none st r = failed 0
    answer (some f) st r = f st r

abbrev stepped : Try Failure (Window ℕ ℕ (List ℕ) ℕ) → Window ℕ ℕ (List ℕ) ℕ
stepped (failed e) = record { config = two_before; keys = []; rows = []; cur = 0; inner = none }
stepped (done w) = w

abbrev partition : List (KeyValue ℕ ℕ × ℕ)
partition =
    (other_value (some 3), 30) ∷ (other_value (some 4), 40) ∷ (other_value (some 9), 90) ∷ []

values-frame_values_example :
    values plain listing 3
      (stepped (step_rows plain listing (empty plain listing two_before) partition))
    ≡ done
        (frame_values plain two_before (keys_of plain partition) (rows_of partition) (λ xs. xs) 3 0)
unfolding step_rows
values-frame_values_example =
    values-frame_values plain listing (λ st xs. st ≡ xs) (λ xs. xs) listing-IsAggregate two_before
      partition (stepped (step_rows plain listing (empty plain listing two_before) partition)) refl

partition-values :
    values plain listing 3
      (stepped (step_rows plain listing (empty plain listing two_before) partition))
    ≡ done (some (30 ∷ []) ∷ some (30 ∷ 40 ∷ []) ∷ some (90 ∷ []) ∷ [])
unfolding values step_rows
partition-values = refl

-- COUNT of the same frames, where the second value is NULL.
abbrev with_null : List (KeyValue ℕ ℕ × Option ℕ)
with_null =
    (other_value (some 3), some 30)
    ∷ (other_value (some 4), none)
    ∷ (other_value (some 9), some 90)
    ∷ []

abbrev counted :
    Try Failure (Window ℕ ℕ (List (Option ℕ) × ℕ) (Option ℕ))
    → Window ℕ ℕ (List (Option ℕ) × ℕ) (Option ℕ)
counted (failed e) = record { config = two_before; keys = []; rows = []; cur = 0; inner = none }
counted (done w) = w

abbrev null_window : Window ℕ ℕ (List (Option ℕ) × ℕ) (Option ℕ)
null_window = counted (
    step_rows plain (count_window {E = ℕ}) (empty plain (count_window {E = ℕ}) two_before)
      with_null)

count-frame_values_example :
    values plain (count_window {E = ℕ}) 3 null_window
    ≡ done
        (frame_values plain two_before (keys_of plain with_null) (rows_of with_null) count_of 3 0)
unfolding step_rows
count-frame_values_example = count-frame_values plain two_before with_null null_window refl

ltb_irreflexive : (v : ℕ) → ltb v v ≡ false
ltb_irreflexive v = ground arith

ltb_transitive : (a b c : ℕ) → ltb a b ≡ true → ltb b c ≡ true → ltb a c ≡ true
ltb_transitive a b c h k = ground arith

abbrev some_values : List (Option ℕ)
some_values = some 5 ∷ none ∷ some 2 ∷ some 7 ∷ []

min_max_window-Best_example :
    let finish = (min_max_window {E = ℕ} (λ v. false) (λ v w. done (ltb v w))).finish in
    ((finish some_values ≡ done none) × ((v : ℕ) → In v some_values → ⊥))
    ⊎ ((m : ℕ) × (finish some_values ≡ done (some m))
        × In m some_values
        × ((false ≡ true) ⊎ ((v : ℕ) → In v some_values → ltb v m ≡ false)))
min_max_window-Best_example =
    min_max_window-Best ℕ (λ v. false) ltb ltb_irreflexive ltb_transitive some_values

some_values-best :
    best {E = ℕ} (λ v. false) (λ v w. done (ltb v w)) none some_values ≡ done (some 2)
unfolding best
some_values-best = refl
