-- ===== src/RangeFrame/Keys.antt =====
-- The order of the keys.
use googlesqlite.Base.{
  not-true, ◌≡◌, refl, sym, ◌∙◌, ap, Option, none, some, Bool, true, false, not, inl, inr,
  if◌then◌else◌, Bool-cases, true_not_false,
}
use googlesqlite.RangeFrame.{
  Order, less, same, more, negate, at_least, Numbers, RangeKey, null, float, exact, Config,
  compare_floats, compare_values, cmp,
}

-- A comparison that comes from a linear order on the elements of P.
pub record IsOrder {A : Type 0} (P : A → Type 0) (c : A → A → Order) : Type 0 where
  pub flip : (a b : A) → P a → P b → c b a ≡ negate (c a b)
  pub trans :
      (x y z : A)
      → P x
      → P y
      → P z
      → at_least (c x y) ≡ true
      → at_least (c y z) ≡ true
      → at_least (c x z) ≡ true

-- The order of float64 without NaN, and that of big.Rat.
pub record NumberOrder {F R : Type 0} (numbers : Numbers F R) : Type 0 where
  pub asym : (a b : F) → numbers.lt a b ≡ true → numbers.lt b a ≡ false
  pub lt_trans :
      (a b c : F)
      → numbers.is_nan a ≡ false
      → numbers.is_nan b ≡ false
      → numbers.is_nan c ≡ false
      → numbers.lt a b ≡ false
      → numbers.lt b c ≡ false
      → numbers.lt a c ≡ false
  pub rats : IsOrder (λ (r : R). Unit) numbers.cmp_rat

module _ {F R : Type 0} (numbers : Numbers F R) (laws : NumberOrder numbers) where
  compare_floats_flip : (a b : F) → compare_floats numbers b a ≡ negate (compare_floats numbers a b)
  unfolding compare_floats
  compare_floats_flip a b =
      let h = laws.asym a b in
      elim (Bool-cases (numbers.is_nan a)) [
        | inl na ↦ elim (Bool-cases (numbers.is_nan b)) [
          | inl nb ↦ rw (na, nb) refl
          | inr nb ↦ rw (na, nb) refl
        ]
        | inr na ↦ elim (Bool-cases (numbers.is_nan b)) [
          | inl nb ↦ rw (na, nb) refl
          | inr nb ↦ elim (Bool-cases (numbers.lt a b)) [
            | inl t ↦ rw (na, nb, t, h t) refl
            | inr f ↦ elim (Bool-cases (numbers.lt b a)) [
              | inl t ↦ rw (na, nb, f, t) refl
              | inr g ↦ rw (na, nb, f, g) refl
            ]
          ]
        ]
      ]

  -- `compareValues` is not negative where the first number is not below the second.
  not_below :
      (a b : F)
      → numbers.is_nan a ≡ false
      → numbers.is_nan b ≡ false
      → at_least (compare_floats numbers a b) ≡ not (numbers.lt a b)
  unfolding compare_floats
  not_below a b na nb = elim (Bool-cases (numbers.lt a b)) [
    | inl t ↦ rw (na, nb, t) refl
    | inr f ↦ elim (Bool-cases (numbers.lt b a)) [
      | inl t ↦ rw (na, nb, f, t) refl
      | inr g ↦ rw (na, nb, f, g) refl
    ]
  ]

  compare_floats_trans :
      (x y z : F)
      → at_least (compare_floats numbers x y) ≡ true
      → at_least (compare_floats numbers y z) ≡ true
      → at_least (compare_floats numbers x z) ≡ true
  unfolding compare_floats
  compare_floats_trans x y z h k = elim (Bool-cases (numbers.is_nan x)) [
    | inl nx ↦ elim (Bool-cases (numbers.is_nan y)) [
      | inl ny ↦ elim (Bool-cases (numbers.is_nan z)) [
        | inl nz ↦ rw (nx, nz) refl
        | inr nz ↦ absurd (true_not_false (sym (rw (ny, nz) at k)))
      ]
      | inr ny ↦ absurd (true_not_false (sym (rw (nx, ny) at h)))
    ]
    | inr nx ↦ elim (Bool-cases (numbers.is_nan z)) [
      | inl nz ↦ rw (nx, nz) refl
      | inr nz ↦ elim (Bool-cases (numbers.is_nan y)) [
        | inl ny ↦ absurd (true_not_false (sym (rw (ny, nz) at k)))
        | inr ny ↦
            let lt_xy = not-true _ (sym (not_below x y nx ny) ∙ h) in
            let lt_yz = not-true _ (sym (not_below y z ny nz) ∙ k) in
            not_below x z nx nz ∙ ap not (laws.lt_trans x y z nx ny nz lt_xy lt_yz)
      ]
    ]
  ]

  compare_floats-IsOrder : IsOrder (λ (f : F). Unit) (compare_floats numbers)
  compare_floats-IsOrder = record {
    flip = λ a b _ _. compare_floats_flip a b;
    trans = λ x y z _ _ _ h k. compare_floats_trans x y z h k;
  }

-- With NULLs on one side, and descending.
lifted : {A : Type 0} → (nulls_last desc : Bool) → (A → A → Order) → Option A → Option A → Order
lifted nl desc c none none = same
lifted nl desc c none (some b) = if nl then more else less
lifted nl desc c (some a) none = if nl then less else more
lifted nl desc c (some a) (some b) = if desc then negate (c a b) else c a b

negate_twice : (o : Order) → negate (negate o) ≡ o
negate_twice less = refl
negate_twice same = refl
negate_twice more = refl

module _ {A : Type 0} (c : A → A → Order) (order : IsOrder (λ (a : A). Unit) c) where
  lifted_flip :
      (nl desc : Bool) (a b : Option A) → lifted nl desc c b a ≡ negate (lifted nl desc c a b)
  unfolding lifted
  lifted_flip nl desc none none = refl
  lifted_flip true desc none (some b) = refl
  lifted_flip false desc none (some b) = refl
  lifted_flip true desc (some a) none = refl
  lifted_flip false desc (some a) none = refl
  lifted_flip nl true (some a) (some b) = ap negate (order.flip a b tt tt)
  lifted_flip nl false (some a) (some b) = order.flip a b tt tt

  lifted_trans :
      (nl desc : Bool) (x y z : Option A)
      → at_least (lifted nl desc c x y) ≡ true
      → at_least (lifted nl desc c y z) ≡ true
      → at_least (lifted nl desc c x z) ≡ true
  unfolding lifted
  lifted_trans nl desc none none none h k = refl
  lifted_trans nl desc none none (some z) h k = k
  lifted_trans nl desc none (some y) none h k = refl
  lifted_trans nl desc none (some y) (some z) h k = h
  lifted_trans nl desc (some x) none none h k = h
  lifted_trans true desc (some x) none (some z) h k = absurd (true_not_false (sym h))
  lifted_trans false desc (some x) none (some z) h k = absurd (true_not_false (sym k))
  lifted_trans nl desc (some x) (some y) none h k = k
  lifted_trans nl false (some x) (some y) (some z) h k = order.trans x y z tt tt tt h k
  lifted_trans nl true (some x) (some y) (some z) h k =
      let yx : at_least (c y x) ≡ true = ap at_least (order.flip x y tt tt) ∙ h in
      let zy : at_least (c z y) ≡ true = ap at_least (order.flip y z tt tt) ∙ k in
      ap at_least (sym (order.flip x z tt tt)) ∙ order.trans z y x tt tt tt zy yx

-- The elements that come from `B` are compared as there.
IsOrder_image :
    {A B : Type 0}
    → (key : B → A) (c : B → B → Order) (d : A → A → Order)
    → ((a b : B) → d (key a) (key b) ≡ c a b)
    → ((a b : B) → c b a ≡ negate (c a b))
    → ((x y z : B) → at_least (c x y) ≡ true → at_least (c y z) ≡ true → at_least (c x z) ≡ true)
    → IsOrder (λ (a : A). (b : B) × (a ≡ key b)) d
IsOrder_image key c d image flip trans = record {
  flip = λ a b (x, e) (y, e'). rw (e, e', image x y, image y x) (flip x y);
  trans = λ a b a' (x, e) (y, e') (z, e'') h k.
      rw (e, e'', image x z)
        (trans x y z (rw (e, e', image x y) at h) (rw (e', e'', image y z) at k));
}

module _ {F R : Type 0} where
  abbrev pub float_key : Option F → RangeKey F R
  float_key none = null
  float_key (some f) = float f

  abbrev pub exact_key : Option R → RangeKey F R
  exact_key none = null
  exact_key (some r) = exact r

-- Keys of a FLOAT64 column, and of an integer or NUMERIC column; both may be NULL.
abbrev pub IsFloatKey : {F R : Type 0} → RangeKey F R → Type 0
IsFloatKey {F = F} k = (o : Option F) × (k ≡ float_key o)

abbrev pub IsExactKey : {F R : Type 0} → RangeKey F R → Type 0
IsExactKey {R = R} k = (o : Option R) × (k ≡ exact_key o)

module _ {F R : Type 0} (numbers : Numbers F R) (laws : NumberOrder numbers) (w : Config F R) where
  cmp-float_key :
      (a b : Option F)
      → cmp numbers w (float_key a) (float_key b)
        ≡ lifted w.nulls_last w.desc (compare_floats numbers) a b
  unfolding cmp compare_values lifted
  cmp-float_key none none = refl
  cmp-float_key none (some b) = refl
  cmp-float_key (some a) none = refl
  cmp-float_key (some a) (some b) = refl

  cmp-exact_key :
      (a b : Option R)
      → cmp numbers w (exact_key a) (exact_key b) ≡ lifted w.nulls_last w.desc numbers.cmp_rat a b
  unfolding cmp compare_values lifted
  cmp-exact_key none none = refl
  cmp-exact_key none (some b) = refl
  cmp-exact_key (some a) none = refl
  cmp-exact_key (some a) (some b) = refl

  -- The order of the window is a linear order on the keys of a FLOAT64 column.
  pub cmp-IsOrder_float : IsOrder IsFloatKey (cmp numbers w)
  cmp-IsOrder_float =
      let order = compare_floats-IsOrder numbers laws in
      IsOrder_image float_key _ (cmp numbers w) cmp-float_key
        (lifted_flip (compare_floats numbers) order w.nulls_last w.desc)
        (lifted_trans (compare_floats numbers) order w.nulls_last w.desc)

  -- So it is on the keys of an exact column.
  pub cmp-IsOrder_exact : IsOrder IsExactKey (cmp numbers w)
  cmp-IsOrder_exact =
      IsOrder_image exact_key _ (cmp numbers w) cmp-exact_key
        (lifted_flip numbers.cmp_rat laws.rats w.nulls_last w.desc)
        (lifted_trans numbers.cmp_rat laws.rats w.nulls_last w.desc)
