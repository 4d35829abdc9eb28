-- ===== src/MatchRecognize/Meaning/Powers.antt =====
-- Repetitions of one relation, put together and taken apart.
use mathlib.Core.List.{append_assoc}
use googlesqlite.Base.{ℕ, zero, suc, ◌+◌, ◌≡◌, refl, sym, ◌∙◌, ap, subst, List, [], ◌++◌, arith}
use googlesqlite.MatchRecognize.Meaning.{Rel, Then, Power}

module _ (R : Rel) where
  pub Power-split :
      (n d : ℕ) (i : ℕ) (vs : List ℕ) (j : ℕ)
      → Power (n + d) R i vs j
      → Then (Power n R) (Power d R) i vs j
  Power-split zero d i vs j p =
      let eq : zero + d ≡ d = omega arith in
      (i, [], vs, refl, (refl, refl), subst (λ k. Power k R i vs j) eq p)
  Power-split (suc n) d i vs j p =
      let eq : suc n + d ≡ suc (n + d) = omega arith in
      let (k, us, ws, e, r, rest) = subst (λ c. Power c R i vs j) eq p in
      let (k', us', ws', e', r', rest') = Power-split n d k ws j rest in
      (
        k',
        us ++ us',
        ws',
        e ∙ ap (λ l. us ++ l) e' ∙ sym (append_assoc us us' ws'),
        (k, us, us', refl, r, r'),
        rest',
      )

  pub Power-join :
      (n d : ℕ) (i : ℕ) (vs : List ℕ) (j : ℕ)
      → Then (Power n R) (Power d R) i vs j
      → Power (n + d) R i vs j
  Power-join zero d i vs j (k, us, ws, e, (nil, at), p) =
      let eq : zero + d ≡ d = omega arith in
      let all : vs ≡ ws = e ∙ ap (λ l. l ++ ws) nil in
      subst (λ c. Power c R i vs j) (sym eq)
        (subst (λ l. Power d R i l j) (sym all) (subst (λ c. Power d R c ws j) at p))
  Power-join (suc n) d i vs j (k, us, ws, e, (k', us', ws', e', r, q), p) =
      let eq : suc n + d ≡ suc (n + d) = omega arith in
      subst (λ c. Power c R i vs j) (sym eq)
        (
          k',
          us',
          ws' ++ ws,
          e ∙ ap (λ l. l ++ ws) e' ∙ append_assoc us' ws' ws,
          r,
          Power-join n d k' (ws' ++ ws) j (k, ws', ws, refl, q, p),
        )
