-- ===== src/Cli/Script/Complete.antt =====
-- `SplitComplete` and `SplitStatements` agree.
use googlesqlite.Base.{
  append_assoc, append_nil, ℕ, zero, suc, ◌+◌, ◌-◌, ◌≤◌, ◌≡◌, refl, sym, ◌∙◌, ap, subst, none, some,
  Bool, List, [], ◌∷◌, ◌++◌, inl, inr, arith, ◌==◌, ==_iff, Bool-cases, Option-cases, length, take,
  drop,
}
use googlesqlite.Functions.Trim.{trim_left, trim_right, trim_func}
use googlesqlite.Cli.Script.{
  token, last_from, content_from, trim_space, flush, split_from, split_statements, ends_with_group,
  complete_tail, split_complete,
}
use googlesqlite.Cli.Script.Scan.{sealed}
use googlesqlite.Cli.Script.Seal.{token-sealed}

something : {p : ℕ} → some p ≡ none → ⊥
something h = cc

-- Where the last semicolon is, the text splits: the statements before it do not depend on what
-- stands behind it.
pub record Cut (is_space : ℕ → Bool) (skip : ℕ) (s : List ℕ) (p : ℕ) : Type 0 where
  pub before : List ℕ
  pub behind : List ℕ
  pub text_is : s ≡ sealed before behind
  pub at : length before ≡ p
  pub no_more : last_from 0 behind ≡ none
  pub fits : skip ≤ length before
  pub splits :
      (cur r : List ℕ)
      → split_from is_space skip cur (sealed before r)
        ≡ split_from is_space skip cur (sealed before []) ++ split_from is_space 0 [] r

module _ (is_space : ℕ → Bool) where
  token-Cut :
      (c : ℕ) (s : List ℕ) (p : ℕ)
      → (k : Cut is_space (token c s - 1) s p) → (r : List ℕ)
      → token c (sealed k.before r) ≡ token c s
  token-Cut c s p k r =
      let whole : token c s ≡ token c (sealed k.before k.behind) =
        ap (λ (l : List ℕ). token c l) k.text_is in
      let short = k.fits in token-sealed c k.before k.behind r (omega arith) ∙ sym whole

  flush-nil : flush is_space [] ≡ []
  unfolding flush trim_func trim_left trim_right content_from
  flush-nil = refl

  no_semicolon :
      (skip : ℕ) (s cur : List ℕ)
      → last_from skip s ≡ none
      → split_from is_space skip cur s ≡ flush is_space (cur ++ s)
  unfolding last_from split_from
  no_semicolon skip [] cur h = ap (λ (l : List ℕ). flush is_space l) (sym (append_nil cur))
  no_semicolon (suc skip) (c ∷ s) cur h = elim (Option-cases (last_from skip s)) [
    | inl e ↦
        no_semicolon skip s (cur ++ c ∷ []) e
        ∙ ap (λ (l : List ℕ). flush is_space l) (append_assoc cur (c ∷ []) s)
    | inr (p, e) ↦ absurd (something (rw (e, last_from) at h))
  ]
  no_semicolon zero (c ∷ s) cur h = elim (Bool-cases (c == b';')) [
    | inl t ↦ elim (Option-cases (last_from 0 s)) [
      | inl e ↦ absurd (something (rw (t, last_from, e) at h))
      | inr (p, e) ↦ absurd (something (rw (t, last_from, e) at h))
    ]
    | inr f ↦ elim (Option-cases (last_from (token c s - 1) s)) [
      | inl e ↦
          rw (f, split_from)
            (no_semicolon (token c s - 1) s (cur ++ c ∷ []) e
              ∙ ap (λ (l : List ℕ). flush is_space l) (append_assoc cur (c ∷ []) s))
      | inr (p, e) ↦ absurd (something (rw (f, last_from, e) at h))
    ]
  ]

  pub cut : (skip : ℕ) (s : List ℕ) (p : ℕ) → last_from skip s ≡ some p → Cut is_space skip s p
  unfolding last_from split_from
  cut skip [] p h = cc
  cut (suc skip) (c ∷ s) p h = elim (Option-cases (last_from skip s)) [
    | inl e ↦ let bad : none ≡ some p = rw (e, last_from) at h in cc
    | inr (p', e) ↦
        let found : some (suc p') ≡ some p = rw (e, last_from) at h in
        let k = cut skip s p' e in
        record {
          before = c ∷ k.before;
          behind = k.behind;
          text_is = ap (λ (l : List ℕ). c ∷ l) k.text_is;
          at = ap suc k.at ∙ (let same : suc p' ≡ p = cc in same);
          no_more = k.no_more;
          fits = omega (arith, k.fits);
          splits = λ cur r. k.splits (cur ++ c ∷ []) r;
        }
  ]
  cut zero (c ∷ s) p h = elim (Bool-cases (c == b';')) [
    | inl t ↦ elim (Option-cases (last_from 0 s)) [
      | inl e ↦
          let found : some 0 ≡ some p = rw (t, last_from, e) at h in
          let same : c ≡ b';' = (==_iff c b';').0 t in
          record {
            before = [];
            behind = s;
            text_is = ap (λ k. k ∷ s) same;
            at = cc;
            no_more = e;
            fits = omega arith;
            splits = λ cur r.
                ap (λ (l : List (List ℕ)). l ++ split_from is_space 0 [] r)
                  (sym (append_nil (flush is_space cur)));
          }
      | inr (p', e) ↦
          let found : some (suc p') ≡ some p = rw (t, last_from, e) at h in
          let k = cut 0 s p' e in
          record {
            before = c ∷ k.before;
            behind = k.behind;
            text_is = ap (λ (l : List ℕ). c ∷ l) k.text_is;
            at = ap suc k.at ∙ (let same : suc p' ≡ p = cc in same);
            no_more = k.no_more;
            fits = omega arith;
            splits = λ cur r.
                rw (t, split_from)
                  (ap (λ (l : List (List ℕ)). flush is_space cur ++ l) (k.splits [] r)
                    ∙ sym (
                        append_assoc (flush is_space cur)
                          (split_from is_space 0 [] (sealed k.before []))
                          (split_from is_space 0 [] r)));
          }
    ]
    | inr f ↦ elim (Option-cases (last_from (token c s - 1) s)) [
      | inl e ↦ let bad : none ≡ some p = rw (f, last_from, e) at h in cc
      | inr (p', e) ↦
          let found : some (suc p') ≡ some p = rw (f, last_from, e) at h in
          let k = cut (token c s - 1) s p' e in
          record {
            before = c ∷ k.before;
            behind = k.behind;
            text_is = ap (λ (l : List ℕ). c ∷ l) k.text_is;
            at = ap suc k.at ∙ (let same : suc p' ≡ p = cc in same);
            no_more = k.no_more;
            fits = omega arith;
            splits = λ cur r.
                rw (f, split_from)
                  (subst
                    (λ n.
                      split_from is_space (n - 1) (cur ++ c ∷ []) (sealed k.before r)
                      ≡ split_from is_space (token c (sealed k.before []) - 1) (cur ++ c ∷ [])
                          (sealed k.before [])
                        ++ split_from is_space 0 [] r)
                    (sym (token-Cut c s p' k r))
                    (subst
                      (λ n.
                        split_from is_space (token c s - 1) (cur ++ c ∷ []) (sealed k.before r)
                        ≡ split_from is_space (n - 1) (cur ++ c ∷ []) (sealed k.before [])
                          ++ split_from is_space 0 [] r)
                      (sym (token-Cut c s p' k [])) (k.splits (cur ++ c ∷ []) r)));
          }
    ]
  ]

  -- What is left behind the last semicolon is one statement at most.
  complete_tail-split_statements :
      (complete : List (List ℕ)) (rest : List ℕ)
      → last_from 0 rest ≡ none
      → (complete_tail is_space complete rest).0
          ++ split_statements is_space (complete_tail is_space complete rest).1
        ≡ complete ++ split_statements is_space rest
  unfolding complete_tail split_statements flush
  complete_tail-split_statements complete rest h =
      let one = no_semicolon 0 rest [] h in
      elim (Bool-cases (content_from 0 (trim_space is_space rest))) [
        | inl t ↦ elim (Bool-cases (ends_with_group is_space (trim_space is_space rest))) [
          | inl g ↦
              rw (one, t, complete_tail, g) (append_nil (complete ++ trim_space is_space rest ∷ []))
          | inr g ↦ rw (t, complete_tail, g) refl
        ]
        | inr f ↦ rw (one, f, complete_tail) refl
      ]

  take-sealed : (u r : List ℕ) → take (suc (length u)) (sealed u r) ≡ sealed u []
  take-sealed [] r = refl
  take-sealed (c ∷ u) r = ap (λ (l : List ℕ). c ∷ l) (take-sealed u r)

  drop-sealed : (u r : List ℕ) → drop (suc (length u)) (sealed u r) ≡ r
  drop-sealed [] r = refl
  drop-sealed (c ∷ u) r = drop-sealed u r

  pub take-Cut :
      (skip : ℕ) (t : List ℕ) (p : ℕ)
      → (k : Cut is_space skip t p) → take (p + 1) t ≡ sealed k.before []
  take-Cut skip t p k =
      let at : p + 1 ≡ suc (length k.before) = omega (arith, k.at) in
      rw (at, k.text_is) (take-sealed k.before k.behind)

  pub drop-Cut :
      (skip : ℕ) (t : List ℕ) (p : ℕ) → (k : Cut is_space skip t p) → drop (p + 1) t ≡ k.behind
  drop-Cut skip t p k =
      let at : p + 1 ≡ suc (length k.before) = omega (arith, k.at) in
      rw (at, k.text_is) (drop-sealed k.before k.behind)

  -- What `SplitComplete` takes as complete and what `SplitStatements` makes of the remainder are
  -- together what `SplitStatements` makes of the whole text.
  pub split_complete-split_statements :
      (text : List ℕ)
      → (split_complete is_space text).0
          ++ split_statements is_space (split_complete is_space text).1
        ≡ split_statements is_space text
  unfolding split_complete split_statements
  split_complete-split_statements text = elim (Option-cases (last_from 0 text)) [
    | inl e ↦ rw (e, split_complete) (complete_tail-split_statements [] text e)
    | inr (p, e) ↦
        let k = cut 0 text p e in
        let whole : split_statements is_space text
            ≡ split_statements is_space (sealed k.before []) ++ split_statements is_space k.behind =
          ap (λ (l : List ℕ). split_statements is_space l) k.text_is ∙ k.splits [] k.behind in
        rw (e, split_complete, take-Cut 0 text p k, drop-Cut 0 text p k, whole)
          (complete_tail-split_statements (split_statements is_space (sealed k.before [])) k.behind
            k.no_more)
  ]
