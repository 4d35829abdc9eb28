-- ===== src/Sketch/Sorted.antt =====
-- The order in which values come does not matter.
use googlesqlite.Base.{
  ◌≡◌, refl, sym, ◌∙◌, ap, true, false, List, [], ◌∷◌, inl, inr, Bool-cases, true_not_false, length,
  suc, arith,
}
use googlesqlite.Sketch.{Floats, insert, sort, quantile}

-- The order of the numbers is linear: it is that of sort.Float64s without zeros of both signs.
pub record IsLinear {F : Type 0} (floats : Floats F) : Type 0 where
  pub total : (x y : F) → floats.le x y ≡ false → floats.le y x ≡ true
  pub le_trans : (x y z : F) → floats.le x y ≡ true → floats.le y z ≡ true → floats.le x z ≡ true
  pub antisym : (x y : F) → floats.le x y ≡ true → floats.le y x ≡ true → x ≡ y

-- The same elements in another order.
pub data Shuffled {A : Type 0} : List A → List A → Type 0 where
  nothing : Shuffled [] []
  keep : (a : A) {l k : List A} → Shuffled l k → Shuffled (a ∷ l) (a ∷ k)
  swap : (a b : A) (l : List A) → Shuffled (a ∷ b ∷ l) (b ∷ a ∷ l)
  chain : {l k m : List A} → Shuffled l k → Shuffled k m → Shuffled l m

module _ {F : Type 0} (floats : Floats F) (laws : IsLinear floats) where
  insert-two :
      (x y : F) (l : List F)
      → insert floats x l ≡ x ∷ l
      → insert floats y l ≡ y ∷ l
      → insert floats x (y ∷ l) ≡ insert floats y (x ∷ l)
  unfolding insert
  insert-two x y l hx hy = elim (Bool-cases (floats.le x y)) [
    | inl a ↦ elim (Bool-cases (floats.le y x)) [
      | inl b ↦
          let same : x ≡ y = laws.antisym x y a b in
          rw (a, insert, b) (ap (λ z. z ∷ y ∷ l) same ∙ ap (λ z. y ∷ z ∷ l) (sym same))
      | inr b ↦ rw (a, insert, b, hy) refl
    ]
    | inr a ↦ rw (a, insert, laws.total x y a, hx) refl
  ]

  insert-first : (x z : F) (l : List F) → floats.le x z ≡ true → insert floats x (z ∷ l) ≡ x ∷ z ∷ l
  unfolding insert
  insert-first x z l a = rw (a, insert) refl

  -- Inserting an element behind `z` and one before it.
  insert-around :
      (x y z : F) (l : List F)
      → floats.le x z ≡ true
      → floats.le y z ≡ false
      → insert floats x (insert floats y (z ∷ l)) ≡ insert floats y (insert floats x (z ∷ l))
  unfolding insert
  insert-around x y z l a b =
      let zy = laws.total y z b in
      let yx : floats.le y x ≡ false = elim (Bool-cases (floats.le y x)) [
        | inl t ↦ absurd (true_not_false (sym (laws.le_trans y x z t a) ∙ b))
        | inr f ↦ f
      ] in
      rw (b, insert, a, yx, b) refl

  insert_comm :
      (x y : F) (l : List F)
      → insert floats x (insert floats y l) ≡ insert floats y (insert floats x l)
  unfolding insert
  insert_comm x y [] = insert-two x y [] refl refl
  insert_comm x y (z ∷ l) = elim (Bool-cases (floats.le x z)) [
    | inl a ↦ elim (Bool-cases (floats.le y z)) [
      | inl b ↦
          let hx = insert-first x z l a in
          let hy = insert-first y z l b in rw (hx, hy) (insert-two x y (z ∷ l) hx hy)
      | inr b ↦ insert-around x y z l a b
    ]
    | inr a ↦ elim (Bool-cases (floats.le y z)) [
      | inl b ↦ sym (insert-around y x z l b a)
      | inr b ↦ rw (a, insert, b, a) (ap (λ (k : List F). z ∷ k) (insert_comm x y l))
    ]
  ]

  sort-Shuffled : {l k : List F} → Shuffled l k → sort floats l ≡ sort floats k
  unfolding sort
  sort-Shuffled nothing = refl
  sort-Shuffled (keep a p) = ap (λ (m : List F). insert floats a m) (sort-Shuffled p)
  sort-Shuffled (swap a b l) = insert_comm a b (sort floats l)
  sort-Shuffled (chain p q) = sort-Shuffled p ∙ sort-Shuffled q

  length-Shuffled : {l k : List F} → Shuffled l k → length l ≡ length k
  length-Shuffled nothing = refl
  length-Shuffled (keep a p) = ap suc (length-Shuffled p)
  length-Shuffled (swap a b l) = refl
  length-Shuffled (chain p q) = length-Shuffled p ∙ length-Shuffled q

  -- A quantile does not depend on the order of the values, where the order of the numbers is linear.
  pub quantile-Shuffled :
      (xs ys : List F) (rank : F)
      → Shuffled xs ys
      → quantile floats xs rank ≡ quantile floats ys rank
  unfolding quantile
  quantile-Shuffled [] [] rank p = refl
  quantile-Shuffled [] (y ∷ ys) rank p = absurd (omega (arith, length-Shuffled p))
  quantile-Shuffled (x ∷ xs) [] rank p = absurd (omega (arith, length-Shuffled p))
  quantile-Shuffled (x ∷ xs) (y ∷ ys) rank p =
      let same = sort-Shuffled p in
      let long : length xs ≡ length ys = omega (arith, length-Shuffled p) in rw (same, long) refl
