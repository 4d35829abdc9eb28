-- ===== src/NamePath/Merge.antt =====
-- What `mergePath` returns.
use googlesqlite.Base.{
  ℕ, ◌+◌, ◌≤◌, ◌<◌, ◌≡◌, refl, ap, Bool, true, false, ◌||◌, ◌&&◌, List, [], ◌∷◌, ◌++◌, inl, inr,
  arith, ltb, leb, ◌==◌, Bool-cases, length, length-append,
}
use googlesqlite.NamePath.{Name, NamePath, same_name, merge_base, merge_normal}

module _ (is_schema : Name → Bool) where
  -- The names that are taken are the first ones of the default path, and no more than the limit
  -- leaves room for.
  merge_base-prefix :
      (max len : ℕ) (first : Name) (n : ℕ) (base : List Name)
      → ((rest : List Name) × (merge_base is_schema max len first n base ++ rest ≡ base))
        × (0 < max
            → n + len ≤ max
            → n + length (merge_base is_schema max len first n base) + len ≤ max)
  unfolding merge_base
  merge_base-prefix max len first n [] = (([], refl), λ h k. omega arith)
  merge_base-prefix max len first n (b ∷ base) =
      elim (Bool-cases (same_name first b || ltb 0 max && leb max (n + len))) [
        | inl t ↦ rw (t, merge_base) ((b ∷ base, refl), λ h k. omega arith)
        | inr f ↦
            let ((rest, e), fits) = merge_base-prefix max len first (n + 1) base in
            rw (f, merge_base)
              (
                (rest, ap (λ (l : List Name). b ∷ l) e),
                λ h k.
                    let room = room_left max len n (same_name first b) f h in
                    omega (arith, fits h (omega arith)),
              )
      ]
    where
      room_left :
          (max len n : ℕ) (b : Bool)
          → (b || ltb 0 max && leb max (n + len)) ≡ false
          → 0 < max
          → n + len < max
      room_left max len n true f h = cc
      room_left max len n false f h = ground arith

  merge_both :
      (p : NamePath) (max : ℕ) (first : Name) (path : List Name)
      → (taken : List Name) × (rest : List Name) × (merge_normal is_schema p max (first ∷ path)
          ≡ taken ++ first ∷ path)
        × (taken ++ rest ≡ p.path)
        × (0 < max
            → length (first ∷ path) ≤ max
            → length (merge_normal is_schema p max (first ∷ path)) ≤ max)
  unfolding merge_normal
  merge_both p max first path = elim (Bool-cases (ltb 0 max && length (first ∷ path) == max)) [
    | inl t ↦ rw (t, merge_normal) ([], p.path, refl, refl, λ h k. k)
    | inr f ↦
        let ((rest, e), fits) = merge_base-prefix max (length (first ∷ path)) first 0 p.path in
        rw (f, merge_normal)
          (
            merge_base is_schema max (length (first ∷ path)) first 0 p.path,
            rest,
            refl,
            e,
            λ h k. omega (
              arith,
              fits h (omega arith),
              length-append (merge_base is_schema max (length (first ∷ path)) first 0 p.path)
                  (first ∷ path),
            ),
          )
  ]

  -- What `mergePath` returns for a path that is not empty ends with that path, and in front of it
  -- are first names of the default path.
  pub merge_normal-taken :
      (p : NamePath) (max : ℕ) (first : Name) (path : List Name)
      → (taken : List Name) × (rest : List Name) × (merge_normal is_schema p max (first ∷ path)
          ≡ taken ++ first ∷ path)
        × (taken ++ rest ≡ p.path)
  merge_normal-taken p max first path =
      let (taken, rest, e, e', _) = merge_both p max first path in (taken, rest, e, e')

  -- If a path that is not empty keeps to the limit, then so does what `mergePath` makes of it.
  pub merge_normal-bounds :
      (p : NamePath) (max : ℕ) (first : Name) (path : List Name)
      → 0 < max
      → length (first ∷ path) ≤ max
      → length (merge_normal is_schema p max (first ∷ path)) ≤ max
  merge_normal-bounds p max first path h k =
      let (_, _, _, _, fits) = merge_both p max first path in fits h k
