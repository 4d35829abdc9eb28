-- ===== src/Functions/Translate/Meaning.antt =====
-- What TRANSLATE of a STRING makes of its runes, and when it fails.
use googlesqlite.Base.{
  ◌⊎◌, arith, ℕ, ◌≡◌, refl, sym, ◌∙◌, ap, subst, Option, none, some, true, List, [], ◌∷◌, ◌++◌,
  ◌==◌, inl, inr, Bool-cases, Option-cases, if◌then◌else◌,
}
use googlesqlite.Functions.Value.{ok, err, duplicate}
use googlesqlite.Functions.Translate.{
  Table, lookup, head, tail, build_table, translate_runes, translate_string,
}
use googlesqlite.Functions.Translate.Lookup.{
  counterpart, or_else, lookup-append, or_else-none, build_table-counterpart,
}

-- What a rune becomes: the target at its place in the source, nothing if the target is too short,
-- and the rune itself if it is not in the source.
abbrev pub becomes : (source target : List ℕ) → ℕ → List ℕ
becomes [] ts c = c ∷ []
becomes (s ∷ ss) [] c = if s == c then [] else becomes ss [] c
becomes (s ∷ ss) (t ∷ ts) c = if s == c then t ∷ [] else becomes ss ts c

abbrev pub each : (ℕ → List ℕ) → List ℕ → List ℕ
each f [] = []
each f (c ∷ e) = f c ++ each f e

abbrev written : ℕ → Option (Option ℕ) → List ℕ
written c none = c ∷ []
written c (some none) = []
written c (some (some t)) = t ∷ []

counterpart-becomes : (ss ts : List ℕ) (c : ℕ) → written c (counterpart ss ts c) ≡ becomes ss ts c
unfolding counterpart
counterpart-becomes [] ts c = refl
counterpart-becomes (s ∷ ss) [] c = elim (Bool-cases (s == c)) [
  | inl e ↦ rw (e, counterpart) refl
  | inr e ↦ rw (e, counterpart) (counterpart-becomes ss [] c)
]
counterpart-becomes (s ∷ ss) (t ∷ ts) c = elim (Bool-cases (s == c)) [
  | inl e ↦ rw (e, counterpart) refl
  | inr e ↦ rw (e, counterpart) (counterpart-becomes ss ts c)
]

translate_runes-each :
    (find : ℕ → Option (Option ℕ)) (e : List ℕ)
    → translate_runes find e ≡ each (λ c. written c (find c)) e
unfolding translate_runes
translate_runes-each find [] = refl
translate_runes-each find (r ∷ e) =
    elim_written (find r)
    ∙ ap (λ (l : List ℕ). written r (find r) ++ l) (translate_runes-each find e)
  where
    elim_written :
        (o : Option (Option ℕ))
        → (elim o [
          | none ↦ r ∷ translate_runes find e
          | some t ↦ elim t [ none ↦ translate_runes find e | some c ↦ c ∷ translate_runes find e ]
        ])
          ≡ written r o ++ translate_runes find e
    elim_written none = refl
    elim_written (some none) = refl
    elim_written (some (some t)) = refl

each-ext : (f g : ℕ → List ℕ) → ((c : ℕ) → f c ≡ g c) → (e : List ℕ) → each f e ≡ each g e
each-ext f g h [] = refl
each-ext f g h (c ∷ e) = rw (h c, each-ext f g h e) refl

-- The rune stands in the list.
abbrev pub In : ℕ → List ℕ → Type 0
In c [] = ⊥
In c (s ∷ ss) = (s ≡ c) ⊎ In c ss

-- No rune stands there twice.
abbrev pub IsDistinct : List ℕ → Type 0
IsDistinct [] = Unit
IsDistinct (s ∷ ss) = (In s ss → ⊥) × IsDistinct ss

is_same : (a b : ℕ) → (a == b) ≡ true → a ≡ b
is_same a b h = ground arith

same_self : (a : ℕ) → (a == a) ≡ true
same_self a = ground arith

-- The loop fails at a rune that is in the table, and at one that comes twice.
build_table-cases :
    (ss ts : List ℕ) (table : Table)
    → ((result : Table) × (build_table ss ts table ≡ ok result)
        × IsDistinct ss
        × ((c : ℕ) → In c ss → lookup table c ≡ none))
      ⊎ ((build_table ss ts table ≡ err duplicate)
          × (IsDistinct ss → ((c : ℕ) → In c ss → lookup table c ≡ none) → ⊥))
unfolding build_table
build_table-cases [] ts table = inl (table, refl, tt, λ c i. absurd i)
build_table-cases (s ∷ ss) ts table = elim (Option-cases (lookup table s)) [
  | inr (t, e) ↦ inr (rw (e, build_table) refl, λ d f. some_none (sym e ∙ f s (inl refl)))
  | inl e ↦ elim (build_table-cases ss (tail ts) (table ++ (s, head ts) ∷ [])) [
    | inl (result, q, d, f) ↦ inl (
      result,
      rw (e, build_table) q,
      (λ i. added_here s e (f s i), d),
      λ c i. elim i [
        | inl x ↦ subst (λ k. lookup table k ≡ none) x e
        | inr j ↦ or_else-eq-none _ _ (sym (lookup-append table s (head ts) c) ∙ f c j)
      ],
    )
    | inr (q, bad) ↦ inr (
      rw (e, build_table) q,
      λ d f. bad d.1 (λ c j. elim (Bool-cases (s == c)) [
        | inl t ↦ absurd (d.0 (subst (λ k. In k ss) (sym (is_same s c t)) j))
        | inr n ↦ lookup-append table s (head ts) c ∙ rw n (or_else-none _ ∙ f c (inr j))
      ]),
    )
  ]
]
  where
    some_none : {t : Option ℕ} → some t ≡ none → ⊥
    some_none x = cc

    or_else-eq-none : (a b : Option (Option ℕ)) → or_else a b ≡ none → a ≡ none
    or_else-eq-none none b h = refl
    or_else-eq-none (some a) b h = absurd (some_none h)

    added_here : (s : ℕ) → lookup table s ≡ none → lookup (table ++ (s, head ts) ∷ []) s ≡ none → ⊥
    added_here s e h =
        let x = sym (lookup-append table s (head ts) s) ∙ h in some_none (rw (e, same_self s) at x)

-- TRANSLATE of a STRING fails if a rune stands twice in the source, and only then. Otherwise it replaces
-- each rune by the target at the rune's place in the source, deletes it if the target is too short, and
-- keeps it if it is not in the source.
pub translate_string-becomes :
    (e ss ts : List ℕ)
    → (IsDistinct ss × (translate_string e ss ts ≡ ok (each (becomes ss ts) e)))
      ⊎ ((IsDistinct ss → ⊥) × (translate_string e ss ts ≡ err duplicate))
unfolding translate_string
translate_string-becomes e ss ts = elim (build_table-cases ss ts []) [
  | inr (q, bad) ↦ inr (λ d. bad d (λ c i. refl), rw q refl)
  | inl (table, q, d, f) ↦ inl (
    d,
    rw q (
        ap ok (
          translate_runes-each (λ c. lookup table c) e
          ∙ each-ext _ (becomes ss ts)
              (λ c.
                ap (written c) (build_table-counterpart ss ts [] table c q)
                ∙ counterpart-becomes ss ts c)
              e)),
  )
]
