-- ===== src/Functions/Trim/Ends.antt =====
-- What TRIM takes away and what it leaves.
use googlesqlite.Base.{
  ℕ, ◌≡◌, refl, ◌∙◌, ap, Bool, true, false, List, [], ◌∷◌, ◌++◌, inl, inr, Bool-cases,
  if◌then◌else◌,
}
use googlesqlite.Functions.Trim.{trim_left, trim_right, trim_func}

abbrev pub All : (ℕ → Bool) → List ℕ → Type 0
All f [] = Unit
All f (c ∷ s) = (f c ≡ true) × All f s

-- The first element, if there is one, is kept; likewise the last one.
abbrev pub KeepsFirst : (ℕ → Bool) → List ℕ → Type 0
KeepsFirst f [] = Unit
KeepsFirst f (c ∷ s) = f c ≡ false

abbrev pub KeepsLast : (ℕ → Bool) → List ℕ → Type 0
KeepsLast f [] = Unit
KeepsLast f (c ∷ []) = f c ≡ false
KeepsLast f (c ∷ d ∷ s) = KeepsLast f (d ∷ s)

trim_left_lem :
    (f : ℕ → Bool) (s : List ℕ)
    → (pre : List ℕ) × (s ≡ pre ++ trim_left f s) × All f pre × KeepsFirst f (trim_left f s)
unfolding trim_left
trim_left_lem f [] = ([], refl, tt, tt)
trim_left_lem f (c ∷ s) = elim (Bool-cases (f c)) [
  | inl t ↦
      let (pre, e, all, keeps) = trim_left_lem f s in
      rw (t, trim_left) (c ∷ pre, ap (λ (l : List ℕ). c ∷ l) e, (t, all), keeps)
  | inr n ↦ rw (n, trim_left) ([], refl, tt, n)
]

trim_right_lem :
    (f : ℕ → Bool) (s : List ℕ)
    → (post : List ℕ) × (s ≡ trim_right f s ++ post)
      × All f post
      × KeepsLast f (trim_right f s)
      × (KeepsFirst f s → KeepsFirst f (trim_right f s))
unfolding trim_right
trim_right_lem f [] = ([], refl, tt, tt, λ k. tt)
trim_right_lem f (c ∷ s) =
    let (post, e, all, keeps, _) = trim_right_lem f s in by_rest (trim_right f s) post e all keeps
  where
    ends : List ℕ → List ℕ
    ends r = elim r [ [] ↦ if f c then [] else c ∷ [] | d ∷ t ↦ c ∷ d ∷ t ]

    by_rest :
        (r post : List ℕ)
        → s ≡ r ++ post
        → All f post
        → KeepsLast f r
        → (p : List ℕ) × (c ∷ s ≡ ends r ++ p)
          × All f p
          × KeepsLast f (ends r)
          × (KeepsFirst f (c ∷ s) → KeepsFirst f (ends r))
    by_rest [] post e all keeps = elim (Bool-cases (f c)) [
      | inl t ↦ rw t (c ∷ post, ap (λ (l : List ℕ). c ∷ l) e, (t, all), tt, λ k. tt)
      | inr n ↦ rw n (post, ap (λ (l : List ℕ). c ∷ l) e, all, n, λ k. n)
    ]
    by_rest (d ∷ r) post e all keeps = (post, ap (λ (l : List ℕ). c ∷ l) e, all, keeps, λ k. k)

-- TRIM of both ends takes elements of the cutset away from the ends and nothing else, and what it
-- leaves neither begins nor ends with one.
pub trim_func-ends :
    (f : ℕ → Bool) (s : List ℕ)
    → (pre : List ℕ) × (post : List ℕ) × (s ≡ pre ++ (trim_func s f true true ++ post))
      × All f pre
      × All f post
      × KeepsFirst f (trim_func s f true true)
      × KeepsLast f (trim_func s f true true)
unfolding trim_func
trim_func-ends f s =
    let (pre, e, all, first) = trim_left_lem f s in
    let (post, e', all', last, keeps) = trim_right_lem f (trim_left f s) in
    (pre, post, e ∙ ap (λ (l : List ℕ). pre ++ l) e', all, all', keeps first, last)
