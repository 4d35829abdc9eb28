-- ===== src/Functions/Initcap/Letters.antt =====
-- Which letters `INITCAP` changes, and how.
use googlesqlite.Base.{
  ℕ, ◌≡◌, refl, ◌⊎◌, inl, inr, Option, none, some, Bool, true, false, List, [], ◌∷◌, Bool-cases,
}
use googlesqlite.Functions.Trim.{contains}
use googlesqlite.Functions.Initcap.{default_delimiters, put_rune, initcap_from, initcap}

module _ (upper lower : ℕ → ℕ) where
  -- The result has a rune for each rune of the source: that rune, or its upper or lower case form.
  abbrev pub SameLetters : List ℕ → List ℕ → Type 0
  SameLetters [] out = out ≡ []
  SameLetters (r ∷ src) [] = ⊥
  SameLetters (r ∷ src) (c ∷ out) =
      ((c ≡ r) ⊎ ((c ≡ upper r) ⊎ (c ≡ lower r))) × SameLetters src out

  put_rune-cases :
      (first d : Bool) (r : ℕ)
      → (c : ℕ) × (put_rune (λ x. upper x ∷ []) (λ x. lower x ∷ []) first d r ≡ c ∷ [])
        × ((c ≡ r) ⊎ ((c ≡ upper r) ⊎ (c ≡ lower r)))
  unfolding put_rune
  put_rune-cases true d r = (upper r, refl, inr (inl refl))
  put_rune-cases false true r = (r, refl, inl refl)
  put_rune-cases false false r = (lower r, refl, inr (inr refl))

  initcap_from-SameLetters :
      (delims : List ℕ) (first : Bool) (src : List ℕ)
      → SameLetters src (initcap_from (λ x. upper x ∷ []) (λ x. lower x ∷ []) delims first src)
  unfolding initcap_from
  initcap_from-SameLetters delims first [] = refl
  initcap_from-SameLetters delims first (r ∷ []) =
      let (c, e, h) = put_rune-cases first (contains delims r) r in rw e (h, refl)
  initcap_from-SameLetters delims first (r ∷ s ∷ src) =
      let (c, e, h) = put_rune-cases first (contains delims r) r in
      by_next c e h (initcap_from-SameLetters delims false (s ∷ src))
        (initcap_from-SameLetters delims false src)
    where
      run : Bool → List ℕ → List ℕ
      run first' t = initcap_from (λ x. upper x ∷ []) (λ x. lower x ∷ []) delims first' t

      by_next :
          (c : ℕ)
          → put_rune (λ x. upper x ∷ []) (λ x. lower x ∷ []) first (contains delims r) r ≡ c ∷ []
          → ((c ≡ r) ⊎ ((c ≡ upper r) ⊎ (c ≡ lower r)))
          → SameLetters (s ∷ src) (run false (s ∷ src))
          → SameLetters src (run false src)
          → SameLetters (r ∷ s ∷ src) (run first (r ∷ s ∷ src))
      by_next c e h later skipped = elim (Bool-cases (contains delims s)) [
        | inl t ↦ rw (e, t) (h, later)
        | inr f ↦ elim (Bool-cases (contains delims r)) [
          | inl d ↦ rw (e, f, d) (h, (inr (inl refl), skipped))
          | inr d ↦ rw (e, f, d) (h, later)
        ]
      ]

  -- Where the upper and the lower case form of each rune is one rune, `INITCAP` returns a string with
  -- a rune for each rune of its argument, in the same order: that rune itself or one of its two forms.
  pub initcap-SameLetters :
      (src : List ℕ) (delims : Option (List ℕ))
      → SameLetters src (initcap (λ x. upper x ∷ []) (λ x. lower x ∷ []) src delims)
  unfolding initcap
  initcap-SameLetters src none = initcap_from-SameLetters default_delimiters true src
  initcap-SameLetters src (some delims) = initcap_from-SameLetters delims true src
