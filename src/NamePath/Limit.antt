-- ===== src/NamePath/Limit.antt =====
-- Which paths `setPath` and `addPath` accept.
use googlesqlite.Base.{
  ℕ, ◌+◌, ◌≤◌, ◌<◌, ◌≡◌, refl, sym, ap, subst, ◌∙◌, none, some, Bool, true, false, ◌&&◌, List, [],
  ◌∷◌, ◌++◌, true_not_false, ◌⊎◌, ◌==◌, inl, inr, arith, ltb, Bool-cases, if◌then◌else◌, length,
}
use googlesqlite.NamePath.{
  Name, NamePath, normalize_path, get_max_num, is_information_schema, set_path, add_path,
}

module _ (is_schema : Name → Bool) where
  -- INFORMATION_SCHEMA stands in the path, and a name stands behind it.
  abbrev pub NamesSchema : List Name → Type 0
  NamesSchema path =
      (before : List Name) × (s : Name) × (next : Name) × (after : List Name) × (path
        ≡ before ++ s ∷ next ∷ after)
      × (is_schema s ≡ true)

  -- A default path of `n` names fits if there is no limit, if it keeps to it, or if it has one name
  -- more and the given path is one with INFORMATION_SCHEMA.
  abbrev pub Fits : NamePath → List Name → ℕ → Type 0
  Fits p path n = 0 < p.max_num → (n ≤ p.max_num) ⊎ ((n ≤ p.max_num + 1) × NamesSchema path)

  is_information_schema-NamesSchema :
      (path : List Name) → is_information_schema is_schema path ≡ true → NamesSchema path
  unfolding is_information_schema
  is_information_schema-NamesSchema [] h = cc
  is_information_schema-NamesSchema (p ∷ []) h = cc
  is_information_schema-NamesSchema (p ∷ q ∷ path) h = elim (Bool-cases (is_schema p)) [
    | inl t ↦ ([], p, q, path, refl, t)
    | inr f ↦
        let (before, s, next, after, e, t) =
          is_information_schema-NamesSchema (q ∷ path) (rw (f, is_information_schema) at h) in
        (p ∷ before, s, next, after, ap (λ (l : List Name). p ∷ l) e, t)
  ]

  NamesSchema-is_information_schema :
      (before : List Name) (s next : Name) (after : List Name)
      → is_schema s ≡ true
      → is_information_schema is_schema (before ++ s ∷ next ∷ after) ≡ true
  unfolding is_information_schema
  NamesSchema-is_information_schema [] s next after h = rw (h, is_information_schema) refl
  NamesSchema-is_information_schema (b ∷ []) s next after h = elim (Bool-cases (is_schema b)) [
    | inl t ↦ rw (t, is_information_schema) refl
    | inr f ↦ rw (f, is_information_schema) (NamesSchema-is_information_schema [] s next after h)
  ]
  NamesSchema-is_information_schema (b ∷ c ∷ bs) s next after h = elim (Bool-cases (is_schema b)) [
    | inl t ↦ rw (t, is_information_schema) refl
    | inr f ↦
        rw (f, is_information_schema) (NamesSchema-is_information_schema (c ∷ bs) s next after h)
  ]

  limit_cases :
      (max room n : ℕ)
      → 0 < room
      → ((0 < max → n ≤ room)
          × ((ltb 0 (if max == 0 then 0 else room) && ltb (if max == 0 then 0 else room) n)
              ≡ false))
        ⊎ ((0 < max)
            × (room < n)
            × ((ltb 0 (if max == 0 then 0 else room) && ltb (if max == 0 then 0 else room) n)
                ≡ true))
  limit_cases max room n h =
      elim (Bool-cases
        (ltb 0 (if max == 0 then 0 else room) && ltb (if max == 0 then 0 else room) n)) [
          | inl t ↦ inr (ground arith, ground arith, t)
          | inr f ↦ inl (λ k. ground arith, f)
        ]

  -- The test of `setPath` and of `addPath`.
  over_limit-Fits :
      (p : NamePath) (path : List Name) (n : ℕ)
      → (Fits p path n
          × ((ltb 0 (get_max_num is_schema p path) && ltb (get_max_num is_schema p path) n)
              ≡ false))
        ⊎ ((Fits p path n → ⊥)
            × ((ltb 0 (get_max_num is_schema p path) && ltb (get_max_num is_schema p path) n)
                ≡ true))
  unfolding get_max_num
  over_limit-Fits p path n = elim (Bool-cases (is_information_schema is_schema path)) [
    | inl t ↦ elim (limit_cases p.max_num (p.max_num + 1) n (omega arith)) [
      | inl (le, q) ↦
          inl (λ k. inr (le k, is_information_schema-NamesSchema path t), rw (t, get_max_num) q)
      | inr (pos, lt, q) ↦ inr (
        λ f. elim (f pos) [ inl le ↦ absurd (omega arith) | inr (le, _) ↦ absurd (omega arith) ],
        rw (t, get_max_num) q,
      )
    ]
    | inr f ↦ elim (Bool-cases (p.max_num == 0)) [
      | inl z ↦ inl (λ k. absurd (ground arith), rw (z, get_max_num) refl)
      | inr nz ↦ elim (limit_cases p.max_num p.max_num n (ground arith)) [
        | inl (le, q) ↦ inl (λ k. inl (le k), rw (f, get_max_num) q)
        | inr (pos, lt, q) ↦ inr (
          λ g. elim (g pos) [
            | inl le ↦ absurd (omega arith)
            | inr (_, (before, s, next, after, e, t)) ↦ absurd (
                true_not_false (
                  sym (NamesSchema-is_information_schema before s next after t)
                  ∙ subst (λ l. is_information_schema is_schema l ≡ false) e f))
          ],
          rw (f, get_max_num) q,
        )
      ]
    ]
  ]

  -- `setPath` makes the path, split at its dots, the default path if it fits, and is an error if it
  -- does not: with a limit, the default path may have no more names, or one more if INFORMATION_SCHEMA
  -- stands in the given path before its last element.
  pub set_path-Fits :
      (p : NamePath) (path : List Name)
      → (Fits p path (length (normalize_path path))
          × (set_path is_schema p path
              ≡ some (record { path = normalize_path path; max_num = p.max_num })))
        ⊎ ((Fits p path (length (normalize_path path)) → ⊥) × (set_path is_schema p path ≡ none))
  unfolding set_path
  set_path-Fits p path = elim (over_limit-Fits p path (length (normalize_path path))) [
    | inl (fits, q) ↦ inl (fits, rw q refl)
    | inr (over, q) ↦ inr (over, rw q refl)
  ]

  -- `addPath` puts the names of the path, split at its dots, behind the default path if all of them
  -- fit together, and is an error if they do not: with a limit, there may be no more names, or one more
  -- if INFORMATION_SCHEMA stands among the added ones before the last.
  pub add_path-Fits :
      (p : NamePath) (name : Name)
      → let more = normalize_path (name ∷ []) in
        let n = length p.path + length more in
        (Fits p more n
          × (add_path is_schema p name
              ≡ some (record { path = p.path ++ more; max_num = p.max_num })))
        ⊎ ((Fits p more n → ⊥) × (add_path is_schema p name ≡ none))
  unfolding add_path
  add_path-Fits p name =
      let more = normalize_path (name ∷ []) in
      elim (over_limit-Fits p more (length p.path + length more)) [
        | inl (fits, q) ↦ inl (fits, rw q refl)
        | inr (over, q) ↦ inr (over, rw q refl)
      ]
