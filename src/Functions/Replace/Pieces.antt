-- ===== src/Functions/Replace/Pieces.antt =====
-- What `REPLACE` puts where.
use googlesqlite.Base.{
  ℕ, zero, suc, ◌-◌, ◌≤◌, ◌≡◌, refl, sym, ◌∙◌, ap, subst, true, false, List, [], ◌∷◌, ◌++◌, ◌⊎◌,
  inl, inr, Bool-cases, length, length-append, true_not_false, ◌≢◌, ◌==◌, arith,
}
use googlesqlite.Functions.Split.{is_prefix}
use googlesqlite.Functions.Replace.{replace_on, replace_list}

-- A list and what becomes of it: from left to right, where the part stands it is replaced and the
-- search goes on behind it; an element where it does not stand is kept.
pub data Replaced (part by : List ℕ) : List ℕ → List ℕ → Type 0 where
  at_end : Replaced part by [] []
  replaced : (s r : List ℕ) → Replaced part by s r → Replaced part by (part ++ s) (by ++ r)
  kept :
      (c : ℕ) (s r : List ℕ)
      → ((rest : List ℕ) → part ++ rest ≡ c ∷ s → ⊥)
      → Replaced part by s r
      → Replaced part by (c ∷ s) (c ∷ r)

prefix_of : (part s : List ℕ) → is_prefix part s ≡ true → (rest : List ℕ) × (part ++ rest ≡ s)
unfolding is_prefix
prefix_of [] s h = (s, refl)
prefix_of (d ∷ part) [] h = cc
prefix_of (d ∷ part) (c ∷ s) h = elim (Bool-cases (d == c)) [
  | inl t ↦
      let (rest, e) = prefix_of part s (rw (t, is_prefix) at h) in
      let same : d ≡ c = ground arith in (rest, rw (same, e) refl)
  | inr f ↦ let bad : false ≡ true = rw (f, is_prefix) at h in cc bad
]

prefix_self : (part rest : List ℕ) → is_prefix part (part ++ rest) ≡ true
unfolding is_prefix
prefix_self [] rest = refl
prefix_self (d ∷ part) rest =
    let same : (d == d) ≡ true = ground arith in rw (same, is_prefix) (prefix_self part rest)

replace_on-skip :
    (part by skipped s : List ℕ)
    → replace_on part by (length skipped) (skipped ++ s) ≡ replace_on part by zero s
unfolding replace_on
replace_on-skip part by [] s = refl
replace_on-skip part by (c ∷ skipped) s = replace_on-skip part by skipped s

replace_on-Replaced :
    (n : ℕ) (d : ℕ) (part by s : List ℕ)
    → length s ≤ n
    → Replaced (d ∷ part) by s (replace_on (d ∷ part) by zero s)
unfolding replace_on
replace_on-Replaced n d part by [] h = at_end
replace_on-Replaced zero d part by (c ∷ s) h = absurd (omega arith)
replace_on-Replaced (suc n) d part by (c ∷ s) h = elim (Bool-cases (is_prefix (d ∷ part) (c ∷ s))) [
  | inr f ↦
      rw (f, replace_on)
        (kept c s _
          (λ rest e. absurd (
            true_not_false (
              sym (prefix_self (d ∷ part) rest)
              ∙ subst (λ l. is_prefix (d ∷ part) l ≡ false) (sym e) f)))
          (replace_on-Replaced n d part by s (omega arith)))
  | inl t ↦
      let (rest, e) = prefix_of (d ∷ part) (c ∷ s) t in
      let tails : part ++ rest ≡ s = cc in
      let fewer : length rest ≤ n = omega (arith, length-append part rest, ap length tails) in
      let size : length (d ∷ part) - 1 ≡ length part = omega arith in
      let after : replace_on (d ∷ part) by (length (d ∷ part) - 1) s
          ≡ replace_on (d ∷ part) by zero rest =
        rw size (
          ap (replace_on (d ∷ part) by (length part)) (sym tails)
          ∙ replace_on-skip (d ∷ part) by part rest) in
      rw (t, replace_on, after)
        (subst (λ l. Replaced (d ∷ part) by l (by ++ replace_on (d ∷ part) by zero rest)) e
          (replaced rest _ (replace_on-Replaced n d part by rest fewer)))
]

-- `REPLACE` of an empty part returns the list as it is. Another part is replaced wherever it stands,
-- from left to right and without overlaps, and every element outside these places is kept.
pub replace_list-Replaced :
    (part by s : List ℕ)
    → ((part ≡ []) × (replace_list part by s ≡ s))
      ⊎ ((part ≢ []) × Replaced part by s (replace_list part by s))
unfolding replace_list
replace_list-Replaced [] by s = inl (refl, refl)
replace_list-Replaced (d ∷ part) by s =
    inr (λ e. cons_nil e, replace_on-Replaced (length s) d part by s (omega arith))
  where
    cons_nil : d ∷ part ≡ [] → ⊥
    cons_nil e = cc
