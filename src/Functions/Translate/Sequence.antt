-- ===== src/Functions/Translate/Sequence.antt =====
-- When the replacements of the branch for BYTES, one after the other, come to a lookup of each byte.
use googlesqlite.Base.{
  ℕ, ◌≡◌, refl, sym, ◌∙◌, ap, Option, none, some, Bool, true, false, List, [], ◌∷◌, inl, inr, ◌==◌,
  Bool-cases, if◌then◌else◌,
}
use googlesqlite.Functions.Value.{ok, err}
use googlesqlite.Functions.Trim.{contains}
use googlesqlite.Functions.Translate.{head, tail, translate_runes, replace_byte, translate_bytes}
use googlesqlite.Functions.Translate.Lookup.{counterpart}

abbrev pub HeadFree : Option ℕ → List ℕ → List ℕ → Type 0
HeadFree none ss ts = Unit
HeadFree (some c) ss ts = counterpart ss ts c ≡ none

-- No target byte is a source byte that comes later.
abbrev pub Separate : List ℕ → List ℕ → Type 0
Separate [] ts = Unit
Separate (s ∷ ss) ts = HeadFree (head ts) ss (tail ts) × Separate ss (tail ts)

put : ℕ → Option (Option ℕ) → List ℕ → List ℕ
put r o rest = elim o [ none ↦ r ∷ rest | some t ↦ elim t [ none ↦ rest | some c ↦ c ∷ rest ] ]

replace_byte-counterpart :
    (s : ℕ) (t : Option ℕ) (ss ts e : List ℕ)
    → head ts ≡ t
    → HeadFree t ss (tail ts)
    → translate_runes (λ c. counterpart ss (tail ts) c) (replace_byte s t e)
      ≡ translate_runes (λ c. counterpart (s ∷ ss) ts c) e
unfolding replace_byte translate_runes counterpart put
replace_byte-counterpart s t ss ts [] h free = refl
replace_byte-counterpart s t ss ts (b ∷ e) h free =
    by_byte t (s == b) refl h free (replace_byte-counterpart s t ss ts e h free)
  where
    left : Option ℕ → Bool → List ℕ
    left t' eq =
        translate_runes (λ c. counterpart ss (tail ts) c)
          (elim eq [
            | false ↦ b ∷ replace_byte s t e
            | true ↦ elim t' [ none ↦ replace_byte s t e | some c ↦ c ∷ replace_byte s t e ]
          ])

    right : Bool → List ℕ
    right eq =
        put b (if eq then some (head ts) else counterpart ss (tail ts) b)
          (translate_runes (λ c. counterpart (s ∷ ss) ts c) e)

    by_byte :
        (t' : Option ℕ) (eq : Bool)
        → (s == b) ≡ eq
        → head ts ≡ t'
        → HeadFree t' ss (tail ts)
        → translate_runes (λ c. counterpart ss (tail ts) c) (replace_byte s t e)
          ≡ translate_runes (λ c. counterpart (s ∷ ss) ts c) e
        → left t' eq ≡ right eq
    by_byte t' false q p f ih = ap (λ (l : List ℕ). put b (counterpart ss (tail ts) b) l) ih
    by_byte none true q p f ih =
        ih ∙ ap (λ o. put b (some o) (translate_runes (λ c. counterpart (s ∷ ss) ts c) e)) (sym p)
    by_byte (some c) true q p f ih =
        ap (λ o. put c o (translate_runes (λ x. counterpart ss (tail ts) x) (replace_byte s t e))) f
        ∙ ap (λ (l : List ℕ). c ∷ l) ih
        ∙ ap (λ o. put b (some o) (translate_runes (λ x. counterpart (s ∷ ss) ts x) e)) (sym p)

unchanged : (e : List ℕ) → e ≡ translate_runes (λ c. none) e
unfolding translate_runes
unchanged [] = refl
unchanged (c ∷ e) = ap (λ (l : List ℕ). c ∷ l) (unchanged e)

translate_bytes-from :
    (seen e ss ts r : List ℕ)
    → Separate ss ts
    → translate_bytes seen e ss ts ≡ ok r
    → r ≡ translate_runes (λ c. counterpart ss ts c) e
unfolding translate_bytes counterpart
translate_bytes-from seen e [] ts r free h = let same : e ≡ r = cc in sym same ∙ unchanged e
translate_bytes-from seen e (s ∷ ss) ts r free h = elim (Bool-cases (contains seen s)) [
  | inl t ↦ let bad : err _ ≡ ok r = rw (t, translate_bytes) at h in cc
  | inr f ↦
      translate_bytes-from (s ∷ seen) (replace_byte s (head ts) e) ss (tail ts) r free.1
        (rw (f, translate_bytes) at h)
      ∙ replace_byte-counterpart s (head ts) ss ts e refl free.0
]

-- If TRANSLATE of BYTES does not fail and no target byte is a source byte that comes later, then it
-- replaces each byte as the branch for STRING replaces each rune.
pub translate_bytes-counterpart :
    (e ss ts r : List ℕ)
    → Separate ss ts
    → translate_bytes [] e ss ts ≡ ok r
    → r ≡ translate_runes (λ c. counterpart ss ts c) e
translate_bytes-counterpart e ss ts r free h = translate_bytes-from [] e ss ts r free h
