-- ===== src/RangeFrame/Typed.antt =====
-- functions/window/typed.go: the values of a frame, and COUNT over it as an inner aggregate. A row is
-- its first argument, converted and without its options, `none` for NULL.
use googlesqlite.Base.{
  ℕ, suc, ◌+◌, ◌-◌, ◌≡◌, refl, ap, subst, Option, none, some, Try, done, List, [], ◌∷◌, ◌++◌,
  length, arith,
}
use googlesqlite.RangeFrame.{Numbers, Config, KeyValue}
use googlesqlite.RangeFrame.Windowed.{Aggregate, Window, values, empty, step_rows}
use googlesqlite.RangeFrame.Slide.{IsAggregate}
use googlesqlite.RangeFrame.Run.{frame_values, rows_of, keys_of, values-frame_values}

module _ {V : Type 0} where
  -- `frameValues.step` and `popFront`: the frame without its first value.
  abbrev pub frame_step : List (Option V) → Option V → List (Option V)
  frame_step frame v = frame ++ v ∷ []

  abbrev pub pop_front : List (Option V) → List (Option V)
  pop_front [] = []
  pop_front (v ∷ frame) = frame

  abbrev front : List (Option V) → Option V
  front [] = none
  front (v ∷ frame) = v

  -- How many values a frame has.
  abbrev pub count_of : List (Option V) → ℕ
  count_of [] = 0
  count_of (none ∷ vs) = count_of vs
  count_of (some v ∷ vs) = suc (count_of vs)

  count_of-append :
      (xs : List (Option V)) (v : Option V)
      → count_of (xs ++ v ∷ []) ≡ count_of xs + count_of (v ∷ [])
  count_of-append [] v = omega arith
  count_of-append (none ∷ xs) v = count_of-append xs v
  count_of-append (some x ∷ xs) v = omega (arith, count_of-append xs v)

  abbrev pub Counted : List (Option V) × ℕ → List (Option V) → Type 0
  Counted st xs = (st.0 ≡ xs) × (st.1 ≡ count_of xs)

module _ {V E : Type 0} where
  -- `countWindowNative`.
  unfoldable pub count_step : List (Option V) × ℕ → Option V → Try E (List (Option V) × ℕ)
  count_step (frame, n) none = done (frame_step frame none, n)
  count_step (frame, n) (some v) = done (frame_step frame (some v), n + 1)

  unfoldable pub count_inverse : List (Option V) × ℕ → Option V → Try E (List (Option V) × ℕ)
  count_inverse (frame, n) row = elim (front frame) [
    | none ↦ done (pop_front frame, n)
    | some v ↦ done (pop_front frame, n - 1)
  ]

  abbrev pub count_window : Aggregate (List (Option V) × ℕ) (Option V) ℕ E
  count_window = record {
    fresh = ([], 0);
    step = count_step;
    inverse = some count_inverse;
    finish = λ st. done st.1;
  }

  count_step-Counted :
      (st : List (Option V) × ℕ) (xs : List (Option V)) (r : Option V)
      → Counted st xs
      → (st' : List (Option V) × ℕ) × (count_step st r ≡ done st') × Counted st' (xs ++ r ∷ [])
  unfolding count_step
  count_step-Counted (frame, n) xs none (e, c) = (
    (frame ++ none ∷ [], n),
    refl,
    (ap (λ (l : List (Option V)). l ++ none ∷ []) e, omega (arith, c, count_of-append xs none)),
  )
  count_step-Counted (frame, n) xs (some v) (e, c) = (
    (frame ++ some v ∷ [], n + 1),
    refl,
    (
      ap (λ (l : List (Option V)). l ++ some v ∷ []) e,
      omega (arith, c, count_of-append xs (some v)),
    ),
  )

  count_inverse-Counted :
      (st : List (Option V) × ℕ) (xs : List (Option V)) (r q : Option V)
      → Counted st (r ∷ xs)
      → (st' : List (Option V) × ℕ) × (count_inverse st q ≡ done st') × Counted st' xs
  unfolding count_inverse
  count_inverse-Counted (frame, n) xs none q (e, c) = ((xs, n), rw e refl, (refl, c))
  count_inverse-Counted (frame, n) xs (some v) q (e, c) =
      ((xs, n - 1), rw e refl, (refl, omega (arith, c)))

  inverse_of :
      Option (List (Option V) × ℕ → Option V → Try E (List (Option V) × ℕ))
      → List (Option V) × ℕ
      → Option V
      → Try E (List (Option V) × ℕ)
  inverse_of none = count_inverse
  inverse_of (some inv) = inv

  pub count_window-IsAggregate : IsAggregate count_window Counted count_of
  unfolding inverse_of
  count_window-IsAggregate = record {
    fresh_holds = (refl, refl);
    step_holds = count_step-Counted;
    inverse_holds = λ inv st xs r e.
        subst
          (λ f.
            Counted st (r ∷ xs)
            → (st' : List (Option V) × ℕ) × (f st r ≡ done st') × Counted st' xs)
          (ap inverse_of e) (count_inverse-Counted st xs r r);
    finish_value = λ st xs (e, c). ap done c;
  }

-- COUNT over RANGE frames: when the rows of a partition have been stepped and none has failed, the
-- value of every row is the number of the values other than NULL in its frame.
pub count-frame_values :
    {F R V E : Type 0}
    → (numbers : Numbers F R) (config : Config F R) (vs : List (KeyValue F R × Option V))
    → (w : Window F R (List (Option V) × ℕ) (Option V))
    → step_rows numbers (count_window {E = E}) (empty numbers (count_window {E = E}) config) vs
      ≡ done w
    → values numbers (count_window {E = E}) (length vs) w
      ≡ done (frame_values numbers config (keys_of numbers vs) (rows_of vs) count_of (length vs) 0)
count-frame_values numbers config vs w =
    values-frame_values numbers count_window Counted count_of count_window-IsAggregate config vs w
