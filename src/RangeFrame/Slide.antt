-- ===== src/RangeFrame/Slide.antt =====
-- The values of `Done`, with the instance that slides along, against a new evaluation of each frame.
use googlesqlite.Base.{
  append_assoc, append_nil, ℕ, zero, suc, ◌+◌, ◌-◌, ◌≤◌, ◌≡◌, refl, sym, ◌∙◌, ap, subst, Option,
  none, some, Try, done, Bool, true, false, ◌&&◌, List, [], ◌∷◌, ◌++◌, inl, inr, arith, leb, leb→le,
  Bool-cases, true_not_false, take, drop,
}
use googlesqlite.RangeFrame.{Numbers}
use googlesqlite.RangeFrame.Windowed.{
  Aggregate, Inner, Window, slice, fold, finish_with, evaluate, slide, locate,
}

-- An aggregate that computes a function of the list of its rows: an instance that holds rows can be
-- stepped over one more, can take the first one back, and its result is the value of the rows.
pub record IsAggregate {S Row Out E : Type 0} (agg : Aggregate S Row Out E)
    (Holds : S → List Row → Type 0) (value : List Row → Out) : Type 0 where
  pub fresh_holds : Holds agg.fresh []
  pub step_holds :
      (st : S) (xs : List Row) (r : Row)
      → Holds st xs
      → (st' : S) × (agg.step st r ≡ done st') × Holds st' (xs ++ r ∷ [])
  pub inverse_holds :
      (inv : S → Row → Try E S) (st : S) (xs : List Row) (r : Row)
      → agg.inverse ≡ some inv
      → Holds st (r ∷ xs)
      → (st' : S) × (inv st r ≡ done st') × Holds st' xs
  pub finish_value : (st : S) (xs : List Row) → Holds st xs → agg.finish st ≡ done (value xs)

all_three : (a b c : Bool) → (a && b && c) ≡ true → (a ≡ true) × (b ≡ true) × (c ≡ true)
all_three true true c h = (refl, refl, h)
all_three true false c h = absurd (true_not_false (sym h))
all_three false b c h = absurd (true_not_false (sym h))

module _ {A : Type 0} where
  take_nil : (k : ℕ) → take {A = A} k [] ≡ []
  take_nil zero = refl
  take_nil (suc k) = refl

  drop_nil : (k : ℕ) → drop {A = A} k [] ≡ []
  drop_nil zero = refl
  drop_nil (suc k) = refl

  take-append-drop_more :
      (m k n : ℕ) (xs : List A) → n ≡ m + k → take m xs ++ take k (drop m xs) ≡ take n xs
  take-append-drop_more zero k n xs e = let same : n ≡ k = omega (arith, e) in rw same refl
  take-append-drop_more (suc m) k n [] e = rw (take_nil k, take_nil n) refl
  take-append-drop_more (suc m) k zero (x ∷ xs) e = absurd (omega (arith, e))
  take-append-drop_more (suc m) k (suc n) (x ∷ xs) e =
      ap (λ (l : List A). x ∷ l) (take-append-drop_more m k n xs (omega (arith, e)))

  drop-drop : (a d b : ℕ) (xs : List A) → b ≡ a + d → drop b xs ≡ drop d (drop a xs)
  drop-drop zero d b xs e = let same : b ≡ d = omega (arith, e) in rw same refl
  drop-drop (suc a) d b [] e = rw (drop_nil b, drop_nil d) refl
  drop-drop (suc a) d zero (x ∷ xs) e = absurd (omega (arith, e))
  drop-drop (suc a) d (suc b) (x ∷ xs) e = drop-drop a d b xs (omega (arith, e))

  slice-append :
      (xs : List A) (a b c : ℕ) → a ≤ b → b ≤ c → slice xs a b ++ slice xs b c ≡ slice xs a c
  slice-append xs a b c ab bc =
      rw (drop-drop a (b - a) b xs (omega arith))
        (take-append-drop_more (b - a) (c - b) (c - a) (drop a xs) (omega arith))

module _ {F R S Row Out E : Type 0} (numbers : Numbers F R) (agg : Aggregate S Row Out E)
    (Holds : S → List Row → Type 0) (value : List Row → Out)
    (laws : IsAggregate agg Holds value) where
  fold-step :
      (st : S) (xs ys : List Row)
      → Holds st xs
      → (st' : S) × (fold agg.step st ys ≡ done st') × Holds st' (xs ++ ys)
  unfolding fold
  fold-step st xs [] h = (st, refl, subst (λ (l : List Row). Holds st l) (sym (append_nil xs)) h)
  fold-step st xs (r ∷ ys) h =
      let (st', e, h') = laws.step_holds st xs r h in
      let (st'', e', h'') = fold-step st' (xs ++ r ∷ []) ys h' in
      (
        st'',
        rw (e, fold) e',
        subst (λ (l : List Row). Holds st'' l) (append_assoc xs (r ∷ []) ys) h'',
      )

  fold-inverse :
      (inv : S → Row → Try E S) (st : S) (ys zs : List Row)
      → agg.inverse ≡ some inv
      → Holds st (ys ++ zs)
      → (st' : S) × (fold inv st ys ≡ done st') × Holds st' zs
  unfolding fold
  fold-inverse inv st [] zs has h = (st, refl, h)
  fold-inverse inv st (r ∷ ys) zs has h =
      let (st', e, h') = laws.inverse_holds inv st (ys ++ zs) r has h in
      let (st'', e', h'') = fold-inverse inv st' ys zs has h' in (st'', rw (e, fold) e', h'')

  -- The instance holds the rows that it says it does.
  abbrev pub HoldsInner : List Row → Option (Inner S) → Type 0
  HoldsInner rows none = Unit
  HoldsInner rows (some i) = (i.from ≤ i.upto) × Holds i.state (slice rows i.from i.upto)

  -- The window afterwards: nothing else has changed.
  abbrev pub Located : Window F R S Row → (s e : ℕ) → Try E (Window F R S Row × Option Out) → Type 0
  Located w s e result =
      (i : Inner S) × (result
        ≡ done (
          record { config = w.config; keys = w.keys; rows = w.rows; cur = w.cur; inner = some i },
          some (value (slice w.rows s e)),
        ))
      × HoldsInner w.rows (some i)

  finish_with-Located :
      (w : Window F R S Row) (s e : ℕ) (st : S)
      → s ≤ e
      → Holds st (slice w.rows s e)
      → Located w s e (finish_with numbers agg w s e st)
  unfolding finish_with
  finish_with-Located w s e st se h = (
    record { state = st; from = s; upto = e },
    rw (laws.finish_value st (slice w.rows s e) h, finish_with) refl,
    (se, h),
  )

  evaluate-Located :
      (w : Window F R S Row) (s e : ℕ) → s ≤ e → Located w s e (evaluate numbers agg w s e)
  unfolding evaluate
  evaluate-Located w s e se =
      let (st, folded, h) = fold-step agg.fresh [] (slice w.rows s e) laws.fresh_holds in
      rw (folded, evaluate) (finish_with-Located w s e st se h)

  slide-Located :
      (w : Window F R S Row) (i : Inner S) (inv : S → Row → Try E S) (s e : ℕ)
      → agg.inverse ≡ some inv
      → HoldsInner w.rows (some i)
      → s ≤ e
      → i.from ≤ s
      → i.upto ≤ e
      → s ≤ i.upto
      → Located w s e (slide numbers agg w i inv s e)
  unfolding slide
  slide-Located w i inv s e has (ordered, h) se fs ue su =
      let (st, folded, h1) =
        fold-step i.state (slice w.rows i.from i.upto) (slice w.rows i.upto e) h in
      let all : slice w.rows i.from i.upto ++ slice w.rows i.upto e
          ≡ slice w.rows i.from s ++ slice w.rows s e =
        slice-append w.rows i.from i.upto e ordered ue
        ∙ sym (slice-append w.rows i.from s e fs se) in
      let (st', taken, h2) =
        fold-inverse inv st (slice w.rows i.from s) (slice w.rows s e) has
          (subst (λ (l : List Row). Holds st l) all h1) in
      rw (folded, slide, taken) (finish_with-Located w s e st' se h2)

  pub locate-Located :
      (w : Window F R S Row) (i : Option (Inner S)) (inv : Option (S → Row → Try E S)) (s e : ℕ)
      → agg.inverse ≡ inv
      → HoldsInner w.rows i
      → s ≤ e
      → Located w s e (locate numbers agg w i inv s e)
  unfolding locate
  locate-Located w none inv s e has h se = evaluate-Located w s e se
  locate-Located w (some i) none s e has h se = evaluate-Located w s e se
  locate-Located w (some i) (some inv) s e has h se =
      elim (Bool-cases (leb i.from s && leb i.upto e && leb s i.upto)) [
        | inl t ↦
            let (from_s, upto_e, s_upto) = all_three _ _ _ t in
            rw (t, locate)
              (slide-Located w i inv s e has h se (leb→le _ _ from_s) (leb→le _ _ upto_e)
                (leb→le _ _ s_upto))
        | inr f ↦ rw (f, locate) (evaluate-Located w s e se)
      ]
