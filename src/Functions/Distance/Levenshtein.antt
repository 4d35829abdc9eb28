-- ===== src/Functions/Distance/Levenshtein.antt =====
-- `EDIT_DISTANCE` is the Levenshtein distance.
use googlesqlite.Base.{ℕ, suc, ◌+◌, ◌≡◌, refl, sym, ◌∙◌, ap, List, [], ◌∷◌, arith, length, get_or}
use googlesqlite.Functions.Distance.{smallest, cost, fill_row, rows, from_to, edit_distance}

-- The distance of two strings by their last characters: `x ∷ xs` is the string that ends in `x`.
unfoldable pub lev : List ℕ → List ℕ → ℕ
lev [] ys = length ys
lev (x ∷ xs) [] = suc (length xs)
lev (x ∷ xs) (y ∷ ys) = smallest (lev xs (y ∷ ys) + 1) (lev (x ∷ xs) ys + 1) (lev xs ys + cost x y)

abbrev pub reverse_onto : List ℕ → List ℕ → List ℕ
reverse_onto [] ys = ys
reverse_onto (x ∷ xs) ys = reverse_onto xs (x ∷ ys)

-- The row for the first string `us`: the distances to `ds` and its continuations by `bs`.
abbrev lev_row : (us ds bs : List ℕ) → List ℕ
lev_row us ds [] = lev us ds ∷ []
lev_row us ds (b ∷ bs) = lev us ds ∷ lev_row us (b ∷ ds) bs

fill_row-lev :
    (a : ℕ) (us ds bs : List ℕ)
    → lev (a ∷ us) ds ∷ fill_row a bs (lev_row us ds bs) (lev (a ∷ us) ds) ≡ lev_row (a ∷ us) ds bs
unfolding fill_row lev
fill_row-lev a us ds [] = refl
fill_row-lev a us ds (b ∷ []) = refl
fill_row-lev a us ds (b ∷ c ∷ bs) =
    ap (λ (l : List ℕ). lev (a ∷ us) ds ∷ l) (fill_row-lev a us (b ∷ ds) (c ∷ bs))

rows-lev :
    (as' bs us : List ℕ)
    → rows as' bs (suc (length us)) (lev_row us [] bs) ≡ lev_row (reverse_onto as' us) [] bs
unfolding rows lev
rows-lev [] bs us = refl
rows-lev (a ∷ as') bs us =
    let p : suc (length us) + 1 ≡ suc (suc (length us)) = omega arith in
    let q : suc (length us) ∷ fill_row a bs (lev_row us [] bs) (suc (length us))
        ≡ lev_row (a ∷ us) [] bs =
      fill_row-lev a us [] bs in
    rw (p, q) (rows-lev as' bs (a ∷ us))

from_to-lev : (ds bs : List ℕ) → from_to (length ds) bs ≡ lev_row [] ds bs
unfolding from_to lev
from_to-lev ds [] = refl
from_to-lev ds (b ∷ bs) =
    let p : length ds + 1 ≡ suc (length ds) = omega arith in
    rw p (ap (λ (l : List ℕ). length ds ∷ l) (from_to-lev (b ∷ ds) bs))

last-lev :
    (us ds bs : List ℕ) → get_or (lev_row us ds bs) (length bs) 0 ≡ lev us (reverse_onto bs ds)
last-lev us ds [] = refl
last-lev us ds (b ∷ bs) = last-lev us (b ∷ ds) bs

length-reverse_onto : (xs ys : List ℕ) → length (reverse_onto xs ys) ≡ length xs + length ys
length-reverse_onto [] ys = omega arith
length-reverse_onto (x ∷ xs) ys = omega (arith, length-reverse_onto xs (x ∷ ys))

lev-nil : (xs : List ℕ) → lev xs [] ≡ length xs
unfolding lev
lev-nil [] = refl
lev-nil (x ∷ xs) = refl

-- EDIT_DISTANCE returns the Levenshtein distance as the recursion on the last characters of the
-- two strings defines it.
pub edit_distance-lev :
    (as' bs : List ℕ) → edit_distance as' bs ≡ lev (reverse_onto as' []) (reverse_onto bs [])
unfolding edit_distance lev
edit_distance-lev [] bs = omega (arith, length-reverse_onto bs [])
edit_distance-lev (a ∷ as') [] =
    omega (arith, lev-nil (reverse_onto (a ∷ as') []), length-reverse_onto (a ∷ as') [])
edit_distance-lev (a ∷ as') (b ∷ bs) =
    ap (λ (r : List ℕ). get_or r (length (b ∷ bs)) 0)
      (ap (λ (r : List ℕ). rows (a ∷ as') (b ∷ bs) 1 r) (from_to-lev [] (b ∷ bs))
        ∙ rows-lev (a ∷ as') (b ∷ bs) [])
    ∙ last-lev (reverse_onto (a ∷ as') []) [] (b ∷ bs)

cost-sym : (a b : ℕ) → cost a b ≡ cost b a
cost-sym a b = ground arith

lev-sym : (xs ys : List ℕ) → lev xs ys ≡ lev ys xs
unfolding lev
lev-sym [] ys = sym (lev-nil ys)
lev-sym (x ∷ xs) [] = refl
lev-sym (x ∷ xs) (y ∷ ys) =
    let p = lev-sym xs (y ∷ ys) in
    let q = lev-sym (x ∷ xs) ys in
    let r = lev-sym xs ys in
    rw (p, q, r, cost-sym x y) (swapped (lev (y ∷ ys) xs) (lev ys (x ∷ xs)) (lev ys xs + cost y x))
  where
    swapped : (a b c : ℕ) → smallest (a + 1) (b + 1) c ≡ smallest (b + 1) (a + 1) c
    swapped a b c = ground arith

-- `EDIT_DISTANCE` does not depend on the order of its two strings.
pub edit_distance_comm : (as' bs : List ℕ) → edit_distance as' bs ≡ edit_distance bs as'
edit_distance_comm as' bs =
    edit_distance-lev as' bs
    ∙ lev-sym (reverse_onto as' []) (reverse_onto bs [])
    ∙ sym (edit_distance-lev bs as')
