-- ===== src/RangeFrame/Best.antt =====
-- functions/window/typed.go: MIN and MAX over a frame, with their comparison as a parameter.
-- A row is its first argument, converted and without its options, `none` for NULL.
use googlesqlite.Base.{
  ◌≡◌, refl, sym, ap, Option, none, some, Try, failed, done, Bool, true, false, List, [], ◌∷◌,
  Bool-cases, true_not_false, ◌∙◌, ◌⊎◌, inl, inr,
}
use googlesqlite.RangeFrame.Windowed.{Aggregate}
use googlesqlite.RangeFrame.Typed.{frame_step, pop_front}

module _ {V E : Type 0} where
  -- The windows that keep the frame and look at it in the end.
  abbrev pub frame_window :
      {Out : Type 0} → (List (Option V) → Try E Out) → Aggregate (List (Option V)) (Option V) Out E
  frame_window finish = record {
    fresh = [];
    step = λ frame v. done (frame_step frame v);
    inverse = some (λ frame v. done (pop_front frame));
    finish = finish;
  }

  -- `minMaxWindowNative.Done`: `better` is LT for MIN and GT for MAX.
  unfoldable pub best :
      (is_nan : V → Bool)
      → (better : V → V → Try E Bool) → Option V
      → List (Option V)
      → Try E (Option V)
  best is_nan better b [] = done b
  best is_nan better b (none ∷ vs) = best is_nan better b vs
  best is_nan better none (some v ∷ vs) = elim (is_nan v) [
    | true ↦ done (some v)
    | false ↦ best is_nan better (some v) vs
  ]
  best is_nan better (some b) (some v ∷ vs) = elim (is_nan v) [
    | true ↦ done (some v)
    | false ↦ elim (better v b) [
      | failed e ↦ failed e
      | done true ↦ best is_nan better (some v) vs
      | done false ↦ best is_nan better (some b) vs
    ]
  ]

  abbrev pub min_max_window :
      (V → Bool) → (V → V → Try E Bool) → Aggregate (List (Option V)) (Option V) (Option V) E
  min_max_window is_nan better = frame_window (best is_nan better none)

-- The value is in the frame.
abbrev pub In : {V : Type 0} → V → List (Option V) → Type 0
In v [] = ⊥
In v (x ∷ xs) = (x ≡ some v) ⊎ In v xs

module _ {V : Type 0} where
  none-some : {v : V} → ◌≡◌ {A = Option V} none (some v) → ⊥
  none-some e = cc

  some_injective : {v w : V} → ◌≡◌ {A = Option V} (some v) (some w) → v ≡ w
  some_injective e = cc

module _ {V : Type 0} (is_nan : V → Bool) (lt : V → V → Bool)
    (irreflexive : (v : V) → lt v v ≡ false)
    (transitive : (a b c : V) → lt a b ≡ true → lt b c ≡ true → lt a c ≡ true) where
  -- From the best value so far on: the value stays or gets better.
  abbrev Chosen : V → V → List (Option V) → Type 0
  Chosen m b vs =
      (is_nan m ≡ true) ⊎ (((m ≡ b) ⊎ (lt m b ≡ true)) × ((v : V) → In v vs → lt v m ≡ false))

  not_better : (v m b : V) → lt v b ≡ false → (m ≡ b) ⊎ (lt m b ≡ true) → lt v m ≡ false
  not_better v m b f (inl e) = rw e f
  not_better v m b f (inr l) = elim (Bool-cases (lt v m)) [
    | inl t ↦ absurd (true_not_false (sym (transitive v m b t l) ∙ f))
    | inr g ↦ g
  ]

  better_than : (m v b : V) → lt v b ≡ true → (m ≡ v) ⊎ (lt m v ≡ true) → (m ≡ b) ⊎ (lt m b ≡ true)
  better_than m v b l (inl e) = inr (rw e l)
  better_than m v b l (inr k) = inr (transitive m v b k l)

  best_lem :
      (E : Type 0) (vs : List (Option V)) (b : V)
      → (m : V) × (best {E = E} is_nan (λ v w. done (lt v w)) (some b) vs ≡ done (some m))
        × ((m ≡ b) ⊎ In m vs)
        × Chosen m b vs
  unfolding best
  best_lem E [] b = (b, refl, inl refl, inr (inl refl, λ v i. absurd i))
  best_lem E (none ∷ vs) b =
      let (m, e, i, c) = best_lem E vs b in
      (
        m,
        e,
        elim i [ inl p ↦ inl p | inr q ↦ inr (inr q) ],
        elim c [
          | inl n ↦ inl n
          | inr (p, all) ↦ inr (p, λ v i. elim i [ inl x ↦ absurd (none-some x) | inr q ↦ all v q ])
        ],
      )
  best_lem E (some v ∷ vs) b = elim (Bool-cases (is_nan v)) [
    | inl t ↦ (v, rw (t, best) refl, inr (inl refl), inl t)
    | inr f ↦ elim (Bool-cases (lt v b)) [
      | inl t ↦
          let (m, e, i, c) = best_lem E vs v in
          (
            m,
            rw (f, t, best) e,
            elim i [ inl p ↦ inr (inl (ap some (sym p))) | inr q ↦ inr (inr q) ],
            elim c [
              | inl n ↦ inl n
              | inr (p, all) ↦ inr (
                better_than m v b t p,
                λ w i. elim i [
                  | inl x ↦ not_better w m v (rw (sym (some_injective x)) (irreflexive v)) p
                  | inr q ↦ all w q
                ],
              )
            ],
          )
      | inr g ↦
          let (m, e, i, c) = best_lem E vs b in
          (
            m,
            rw (f, g, best) e,
            elim i [ inl p ↦ inl p | inr q ↦ inr (inr q) ],
            elim c [
              | inl n ↦ inl n
              | inr (p, all) ↦ inr (
                p,
                λ w i. elim i [
                  | inl x ↦ not_better w m b (rw (sym (some_injective x)) g) p
                  | inr q ↦ all w q
                ],
              )
            ],
          )
    ]
  ]

-- The value that MIN and MAX of a frame answer, when their comparison never fails and is irreflexive
-- and transitive: none for a frame without values, and otherwise a value of the frame that is NaN or
-- than which no value of the frame is better.
pub min_max_window-Best :
    {V : Type 0}
    → (E : Type 0) (is_nan : V → Bool) (lt : V → V → Bool) → ((v : V) → lt v v ≡ false)
    → ((a b c : V) → lt a b ≡ true → lt b c ≡ true → lt a c ≡ true)
    → (vs : List (Option V))
    → let finish = (min_max_window {E = E} is_nan (λ v w. done (lt v w))).finish in
      ((finish vs ≡ done none) × ((v : V) → In v vs → ⊥))
      ⊎ ((m : V) × (finish vs ≡ done (some m))
          × In m vs
          × ((is_nan m ≡ true) ⊎ ((v : V) → In v vs → lt v m ≡ false)))
unfolding best
min_max_window-Best E is_nan lt irr trans [] = inl (refl, λ v i. i)
min_max_window-Best E is_nan lt irr trans (none ∷ vs) =
    elim (min_max_window-Best E is_nan lt irr trans vs) [
      | inl (e, out) ↦ inl (e, λ v i. elim i [ inl x ↦ absurd (none-some x) | inr q ↦ out v q ])
      | inr (m, e, i, c) ↦ inr (
        m,
        e,
        inr i,
        elim c [
          | inl n ↦ inl n
          | inr all ↦ inr (λ v i. elim i [ inl x ↦ absurd (none-some x) | inr q ↦ all v q ])
        ],
      )
    ]
min_max_window-Best E is_nan lt irr trans (some v ∷ vs) = elim (Bool-cases (is_nan v)) [
  | inl t ↦ inr (v, rw (t, best) refl, inl refl, inl t)
  | inr f ↦
      let (m, e, i, c) = best_lem is_nan lt irr trans E vs v in
      inr (
        m,
        rw (f, best) e,
        elim i [ inl p ↦ inl (ap some (sym p)) | inr q ↦ inr q ],
        elim c [
          | inl n ↦ inl n
          | inr (p, all) ↦ inr (λ w i. elim i [
            | inl x ↦ not_better is_nan lt irr trans w m v (rw (sym (some_injective x)) (irr v)) p
            | inr q ↦ all w q
          ])
        ],
      )
]
