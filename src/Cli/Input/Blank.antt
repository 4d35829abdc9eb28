-- ===== src/Cli/Input/Blank.antt =====
-- What SplitComplete gives back, and blanks in front of a statement.
use googlesqlite.Base.{
  append_assoc, append_nil, true_not_false, ℕ, zero, suc, ◌+◌, ◌-◌, ◌≤◌, ◌≡◌, refl, sym, ◌∙◌, ap,
  none, some, Bool, true, false, List, [], ◌∷◌, ◌++◌, ◌⊎◌, inl, inr, arith, ◌==◌, ==_iff,
  Bool-cases, Option-cases, drop, subst, take, suc,
}
use googlesqlite.Functions.Trim.{trim_left, trim_right, trim_func}
use googlesqlite.Functions.Trim.Ends.{All}
use googlesqlite.Cli.Script.{
  is_r, is_b, is_quote, token, string_token, literal_at, last_from, content_from, trim_space, flush,
  split_from, split_statements, ends_with_group, complete_tail, split_complete,
}
use googlesqlite.Cli.Script.Scan.{sealed}
use googlesqlite.Cli.Script.Complete.{cut, take-Cut, drop-Cut}

-- A printable ASCII character is no space.
abbrev pub Spaces : (ℕ → Bool) → Type 0
Spaces is_space = (c : ℕ) → 33 ≤ c → c ≤ 126 → is_space c ≡ false

-- The text through its last top-level semicolon, and what is behind it.
abbrev head_of : List ℕ → List ℕ
head_of t = elim (last_from 0 t) [ none ↦ [] | some p ↦ take (p + 1) t ]

abbrev pub rest_of : List ℕ → List ℕ
rest_of t = elim (last_from 0 t) [ none ↦ t | some p ↦ drop (p + 1) t ]

-- What is behind the last semicolon is blank, or the remainder.
abbrev pub Kept : (ℕ → Bool) → List ℕ → Type 0
Kept is_space t = All is_space (rest_of t) ⊎ ((split_complete is_space t).1 ≡ rest_of t)

module _ (is_space : ℕ → Bool) where
  trim_left-Blank :
      (w s : List ℕ) → All is_space w → trim_left is_space (w ++ s) ≡ trim_left is_space s
  unfolding trim_left
  trim_left-Blank [] s h = refl
  trim_left-Blank (c ∷ w) s (t, h) = rw (t, trim_left) (trim_left-Blank w s h)

  flush-Blank : (w s : List ℕ) → All is_space w → flush is_space (w ++ s) ≡ flush is_space s
  unfolding flush trim_func
  flush-Blank w s h = rw (trim_left-Blank w s h) refl

  -- A blank in front of a statement is trimmed.
  split_from-Blank :
      (skip : ℕ) (w cur s : List ℕ)
      → All is_space w
      → split_from is_space skip (w ++ cur) s ≡ split_from is_space skip cur s
  unfolding split_from
  split_from-Blank skip w cur [] h = flush-Blank w cur h
  split_from-Blank (suc skip) w cur (c ∷ s) h =
      rw (append_assoc w cur (c ∷ [])) (split_from-Blank skip w (cur ++ c ∷ []) s h)
  split_from-Blank zero w cur (c ∷ s) h = elim (Bool-cases (c == b';')) [
    | inl t ↦ rw (t, split_from, flush-Blank w cur h) refl
    | inr f ↦
        rw (f, split_from, append_assoc w cur (c ∷ []))
          (split_from-Blank (token c s - 1) w (cur ++ c ∷ []) s h)
  ]

  -- A space is not the printable character `k`.
  other_than : (c k : ℕ) → Spaces is_space → is_space c ≡ true → 33 ≤ k → k ≤ 126 → (c == k) ≡ false
  other_than c k spaces t low high = elim (Bool-cases (c == k)) [
    | inl e ↦
        let same : c ≡ k = (==_iff c k).0 e in
        let no : is_space k ≡ false = spaces k low high in
        let yes : is_space k ≡ true = subst (λ x. is_space x ≡ true) same t in cc
    | inr f ↦ f
  ]

  literal_at-space :
      (c : ℕ) (s : List ℕ) → Spaces is_space → is_space c ≡ true → literal_at (c ∷ s) ≡ none
  unfolding literal_at
  literal_at-space c s spaces t =
      let r = other_than c b'r' spaces t (omega arith) (omega arith) in
      let big_r = other_than c b'R' spaces t (omega arith) (omega arith) in
      let b = other_than c b'b' spaces t (omega arith) (omega arith) in
      let big_b = other_than c b'B' spaces t (omega arith) (omega arith) in
      let q = other_than c b'\'' spaces t (omega arith) (omega arith) in
      let dq = other_than c b'"' spaces t (omega arith) (omega arith) in
      by_rest s (rw (r, big_r) refl) (rw (b, big_b) refl) (rw (q, dq) refl)
    where
      by_rest :
          (u : List ℕ)
          → is_r c ≡ false
          → is_b c ≡ false
          → is_quote c ≡ false
          → literal_at (c ∷ u) ≡ none
      by_rest [] r b q = rw q refl
      by_rest (d ∷ u) r b q = rw (r, b, q) refl

  token-space : (c : ℕ) (s : List ℕ) → Spaces is_space → is_space c ≡ true → token c s ≡ 1
  unfolding token string_token
  token-space c s spaces t =
      let hash = other_than c b'#' spaces t (omega arith) (omega arith) in
      let dash = other_than c b'-' spaces t (omega arith) (omega arith) in
      let slash = other_than c b'/' spaces t (omega arith) (omega arith) in
      let tick = other_than c b'`' spaces t (omega arith) (omega arith) in
      rw (hash, token, dash, slash, tick, literal_at-space c s spaces t, string_token) refl

  -- A blank in front of a text is skipped.
  pub split_from-Blank_text :
      (w s : List ℕ)
      → Spaces is_space
      → All is_space w
      → split_from is_space 0 [] (w ++ s) ≡ split_from is_space 0 [] s
  unfolding split_from
  split_from-Blank_text [] s spaces h = refl
  split_from-Blank_text (c ∷ w) s spaces (t, h) =
      let semicolon = other_than c b';' spaces t (omega arith) (omega arith) in
      rw (semicolon, split_from, token-space c (w ++ s) spaces t)
        (split_from-Blank 0 (c ∷ []) [] (w ++ s) (t, tt) ∙ split_from-Blank_text w s spaces h)

  pub trim-All : (w : List ℕ) → All is_space w → trim_space is_space w ≡ []
  unfolding trim_func trim_left trim_right
  trim-All w h =
      let e : trim_left is_space w ≡ [] =
        ap (λ (l : List ℕ). trim_left is_space l) (sym (append_nil w)) ∙ trim_left-Blank w [] h in
      rw e refl

  emptied-All : (w : List ℕ) → All is_space w ⊎ ([] ≡ w) → All is_space w
  emptied-All w (inl h) = h
  emptied-All w (inr e) = subst (λ (l : List ℕ). All is_space l) e tt

  complete_tail-more :
      (complete : List (List ℕ)) (rest more : List ℕ)
      → Spaces is_space
      → All is_space rest ⊎ ((complete_tail is_space complete rest).1 ≡ rest)
      → complete ++ split_from is_space 0 [] (rest ++ more)
        ≡ (complete_tail is_space complete rest).0
          ++ split_from is_space 0 [] ((complete_tail is_space complete rest).1 ++ more)
  unfolding complete_tail content_from
  complete_tail-more complete rest more spaces h =
      elim (Bool-cases (content_from 0 (trim_space is_space rest))) [
        | inr f ↦
            let blank = emptied-All rest (rw (f, complete_tail) at h) in
            rw (f, complete_tail)
              (ap (λ (l : List (List ℕ)). complete ++ l)
                (split_from-Blank_text rest more spaces blank))
        | inl t ↦ elim (Bool-cases (ends_with_group is_space (trim_space is_space rest))) [
          | inl g ↦
              let blank = emptied-All rest (rw (t, complete_tail, g) at h) in
              let empty : content_from 0 (trim_space is_space rest) ≡ false =
                rw (trim-All rest blank) refl in
              absurd (true_not_false (sym t ∙ empty))
          | inr g ↦ rw (t, complete_tail, g) refl
        ]
      ]

  split_complete-parts :
      (t : List ℕ)
      → split_complete is_space t
        ≡ complete_tail is_space (split_statements is_space (head_of t)) (rest_of t)
  unfolding split_complete
  split_complete-parts t = elim (Option-cases (last_from 0 t)) [
    | inl e ↦ rw (e, split_complete, head_of, rest_of) refl
    | inr (p, e) ↦ rw (e, split_complete, head_of, rest_of) refl
  ]

  split_from-more :
      (t more : List ℕ)
      → split_from is_space 0 [] (t ++ more)
        ≡ split_statements is_space (head_of t) ++ split_from is_space 0 [] (rest_of t ++ more)
  unfolding split_statements
  split_from-more t more = elim (Option-cases (last_from 0 t)) [
    | inl e ↦ rw (e, head_of, rest_of) refl
    | inr (p, e) ↦
        let k = cut is_space 0 t p e in
        let whole : split_from is_space 0 [] (t ++ more)
            ≡ split_from is_space 0 [] (sealed k.before (k.behind ++ more)) =
          ap (λ (l : List ℕ). split_from is_space 0 [] l)
            (ap (λ (l : List ℕ). l ++ more) k.text_is
              ∙ append_assoc k.before (b';' ∷ k.behind) more) in
        rw (e, head_of, rest_of, take-Cut is_space 0 t p k, drop-Cut is_space 0 t p k, whole)
          (k.splits [] (k.behind ++ more))
  ]

  -- What `SplitComplete` takes off a text does not depend on what is to come.
  pub split_complete-more :
      (t more : List ℕ)
      → Spaces is_space
      → Kept is_space t
      → split_statements is_space (t ++ more)
        ≡ (split_complete is_space t).0
          ++ split_statements is_space ((split_complete is_space t).1 ++ more)
  unfolding split_statements
  split_complete-more t more spaces h =
      let parts = split_complete-parts t in
      rw parts (
        split_from-more t more
        ∙ complete_tail-more (split_statements is_space (head_of t)) (rest_of t) more spaces
            (rw parts at h))
