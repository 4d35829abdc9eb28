-- ===== src/Functions/Translate/Lookup.antt =====
-- Which rune TRANSLATE puts for which.
use googlesqlite.Base.{
  ℕ, ◌≡◌, refl, sym, ◌∙◌, ap, subst, Option, none, some, Bool, true, false, List, [], ◌∷◌, ◌++◌,
  ◌==◌, inl, inr, Bool-cases, Option-cases, if◌then◌else◌,
}
use googlesqlite.Functions.Value.{ok, err}
use googlesqlite.Functions.Translate.{Table, lookup, head, tail, build_table}

-- The place of a rune in the source says what stands for it: the target at that place, `some none`
-- if the target is too short, and `none` if the rune is not in the source.
unfoldable pub counterpart : List ℕ → List ℕ → ℕ → Option (Option ℕ)
counterpart [] ts c = none
counterpart (s ∷ ss) ts c = if s == c then some (head ts) else counterpart ss (tail ts) c

abbrev pub or_else : Option (Option ℕ) → Option (Option ℕ) → Option (Option ℕ)
or_else none b = b
or_else (some a) b = some a

pub lookup-append :
    (table : Table) (s : ℕ) (t : Option ℕ) (c : ℕ)
    → lookup (table ++ (s, t) ∷ []) c ≡ or_else (lookup table c) (if s == c then some t else none)
unfolding lookup
lookup-append [] s t c = refl
lookup-append ((s', t') ∷ table) s t c = elim (Bool-cases (s' == c)) [
  | inl e ↦ rw (e, lookup) refl
  | inr e ↦ rw (e, lookup) (lookup-append table s t c)
]

or_else_assoc :
    (a : Option (Option ℕ)) (b : Bool) (t : Option ℕ) (d : Option (Option ℕ))
    → or_else (or_else a (if b then some t else none)) d ≡ or_else a (if b then some t else d)
or_else_assoc (some a) b t d = refl
or_else_assoc none true t d = refl
or_else_assoc none false t d = refl

pub or_else-none : (a : Option (Option ℕ)) → or_else a none ≡ a
or_else-none none = refl
or_else-none (some a) = refl

pub build_table-counterpart :
    (ss ts : List ℕ) (table result : Table) (c : ℕ)
    → build_table ss ts table ≡ ok result
    → lookup result c ≡ or_else (lookup table c) (counterpart ss ts c)
unfolding build_table counterpart
build_table-counterpart [] ts table result c h =
    let same : table ≡ result = cc in
    subst (λ r. lookup r c ≡ or_else (lookup table c) none) same
      (sym (or_else-none (lookup table c)))
build_table-counterpart (s ∷ ss) ts table result c h = elim (Option-cases (lookup table s)) [
  | inl e ↦
      build_table-counterpart ss (tail ts) (table ++ (s, head ts) ∷ []) result c
        (rw (e, build_table) at h)
      ∙ ap (λ o. or_else o (counterpart ss (tail ts) c)) (lookup-append table s (head ts) c)
      ∙ or_else_assoc (lookup table c) (s == c) (head ts) (counterpart ss (tail ts) c)
  | inr (t, e) ↦ let bad : err _ ≡ ok result = rw (e, build_table) at h in cc
]
