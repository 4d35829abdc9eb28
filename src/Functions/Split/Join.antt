-- ===== src/Functions/Split/Join.antt =====
-- Splitting and joining.
use googlesqlite.Base.{
  append_assoc, append_nil, ℕ, zero, suc, ◌-◌, ◌≤◌, ◌≡◌, refl, sym, ◌∙◌, ap, Bool, true, false,
  List, [], ◌∷◌, ◌++◌, inl, inr, arith, ◌==◌, ==_iff, Bool-cases, length, drop,
}
use googlesqlite.Functions.Split.{is_prefix, split_on, explode, split_list}

-- The pieces with the delimiter between them.
unfoldable pub join : List ℕ → List (List ℕ) → List ℕ
join delim [] = []
join delim (p ∷ []) = p
join delim (p ∷ q ∷ ps) = p ++ (delim ++ join delim (q ∷ ps))

is_prefix_lem :
    (d s : List ℕ) → is_prefix d s ≡ true → (s ≡ d ++ drop (length d) s) × (length d ≤ length s)
unfolding is_prefix
is_prefix_lem [] s h = (refl, omega arith)
is_prefix_lem (x ∷ d) [] h = cc
is_prefix_lem (x ∷ d) (c ∷ s) h = by_first (is_prefix_lem d s) (x == c) refl h
  where
    by_first :
        (is_prefix d s ≡ true → (s ≡ d ++ drop (length d) s) × (length d ≤ length s))
        → (b : Bool) → (x == c) ≡ b
        → (elim b [ true ↦ is_prefix d s | false ↦ false ]) ≡ true
        → (c ∷ s ≡ x ∷ (d ++ drop (length d) s)) × (suc (length d) ≤ suc (length s))
    by_first ih true e h =
        let (p, le) = ih h in
        let same : x ≡ c = (==_iff x c).0 e in (rw same (ap (λ (l : List ℕ). c ∷ l) p), omega arith)
    by_first ih false e h = cc

pub split_on-cons :
    (delim : List ℕ) (skip : ℕ) (w s : List ℕ)
    → (q : List ℕ) × (qs : List (List ℕ)) × (split_on delim skip w s ≡ q ∷ qs)
unfolding split_on
split_on-cons delim skip w [] = (w, [], refl)
split_on-cons delim (suc skip) w (c ∷ s) = split_on-cons delim skip w s
split_on-cons delim zero w (c ∷ s) = elim (Bool-cases (is_prefix delim (c ∷ s))) [
  | inl t ↦ rw (t, split_on) (w, split_on delim (length delim - 1) [] s, refl)
  | inr f ↦ rw (f, split_on) (split_on-cons delim zero (w ++ c ∷ []) s)
]

join-cons :
    (delim word : List ℕ) (skip : ℕ) (w s : List ℕ)
    → join delim (word ∷ split_on delim skip w s)
      ≡ word ++ (delim ++ join delim (split_on delim skip w s))
unfolding join
join-cons delim word skip w s = let (q, qs, e) = split_on-cons delim skip w s in rw e refl

join-explode : (c : ℕ) (s : List ℕ) → join [] (explode (c ∷ s)) ≡ c ∷ s
unfolding join explode
join-explode c [] = refl
join-explode c (d ∷ s) = ap (λ (l : List ℕ). c ∷ l) (join-explode d s)

join-split_on :
    (d : ℕ) (delim : List ℕ) (skip : ℕ) (word s : List ℕ)
    → skip ≤ length s
    → join (d ∷ delim) (split_on (d ∷ delim) skip word s) ≡ word ++ drop skip s
unfolding split_on join
join-split_on d delim zero word [] h = sym (append_nil word)
join-split_on d delim (suc skip) word [] h = absurd (omega arith)
join-split_on d delim (suc skip) word (c ∷ s) h = join-split_on d delim skip word s (omega arith)
join-split_on d delim zero word (c ∷ s) h = elim (Bool-cases (is_prefix (d ∷ delim) (c ∷ s))) [
  | inl t ↦
      let (p, le) = is_prefix_lem (d ∷ delim) (c ∷ s) t in
      let size : length (d ∷ delim) - 1 ≡ length delim = omega arith in
      rw (t, split_on, size)
        (join-cons (d ∷ delim) word (length delim) [] s
          ∙ ap (λ (l : List ℕ). word ++ (d ∷ (delim ++ l)))
              (join-split_on d delim (length delim) [] s (omega arith))
          ∙ ap (λ (l : List ℕ). word ++ l) (sym p))
  | inr f ↦
      rw (f, split_on)
        (join-split_on d delim zero (word ++ c ∷ []) s (omega arith) ∙ append_assoc word (c ∷ []) s)
]

-- The pieces of SPLIT, joined by the delimiter, are the value that was split.
pub join-split_list : (delim s : List ℕ) → join delim (split_list delim s) ≡ s
unfolding split_list join
join-split_list delim [] = refl
join-split_list [] (c ∷ s) = join-explode c s
join-split_list (d ∷ delim) (c ∷ s) = join-split_on d delim zero [] (c ∷ s) (omega arith)
