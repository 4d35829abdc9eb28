-- ===== src/MatchRecognize/Meaning/Exact.antt =====
-- A compiled pattern accepts exactly what the pattern matches.
use mathlib.Core.List.{append-nil}
use googlesqlite.Base.{
  ℕ, zero, suc, ◌+◌, ◌≡◌, ◌↔◌, refl, sym, ◌∙◌, ap, subst, inl, inr, some, Bool, List, [], ◌∷◌, ◌++◌,
  arith, length, get_elem?,
}
use googlesqlite.MatchRecognize.Pattern.{
  Pattern, Patterns, variable, empty, start, end, unknown, cat, alt, quantifier, nil, cons, Arg, ok,
  op_var, op_jmp, op_split, op_start, op_end, op_match,
}
use googlesqlite.MatchRecognize.Compile.{lower, compile_pattern}
use googlesqlite.MatchRecognize.Compile.Layout.{Layout, LayoutCat, LayoutAlt}
use googlesqlite.MatchRecognize.Compile.Compiled.{compile_pattern-Layout}
use googlesqlite.MatchRecognize.Vm.{Machine}
use googlesqlite.MatchRecognize.Vm.Accept.{Accepts, here}
use googlesqlite.MatchRecognize.Meaning.{Means, MeansAll, MeansAny}
use googlesqlite.MatchRecognize.Meaning.Complete.{Means-Passes}
use googlesqlite.MatchRecognize.Meaning.Sound.{
  Within, Returns, steps, next, no_steps, weaken, Returns-nothing, Returns-Then, Returns-Repeats,
}

module _ (m : Machine) (bs : List Arg) where
  quantifier-Returns :
      (p : Pattern) (lo hi : ℕ) (r : Bool) (s a b : ℕ)
      → ((s' a' b' : ℕ) → Layout m.insts bs p a' b' → Returns m s' (Means m bs p) a' b')
      → Layout m.insts bs (quantifier p lo hi r) a b
      → Returns m s (Means m bs (quantifier p lo hi r)) a b
  unfolding Layout Means
  quantifier-Returns p lo hi r s a b x (l, h, el, eh, (c, t, tail)) i ws e w =
      let (us, vs, j, eq, rep, w') =
        Returns-Repeats m (Means m bs p) (Layout m.insts bs p) x r (lower l) h s a b c t tail i ws e
          w in
      (us, vs, j, eq, (l, h, el, eh, rep), w')

  -- A leaf of the pattern, whose one instruction goes on behind it.
  leaf_Returns :
      (p : Pattern) (s a b : ℕ)
      → Layout m.insts bs p a b
      → ((s' i : ℕ) (ws : List ℕ) (e : ℕ)
          → Within m (suc s') a i ws e
          → (us : List ℕ) × (vs : List ℕ) × (j : ℕ) × (ws ≡ us ++ vs)
            × Means m bs p i us j
            × Within m s' b j vs e)
      → ((i : ℕ) (ws : List ℕ) (e : ℕ) → Within m zero a i ws e → ⊥)
      → Returns m s (Means m bs p) a b
  leaf_Returns p zero a b l x none_left i ws e w = absurd (none_left i ws e w)
  leaf_Returns p (suc s) a b l x none_left i ws e w =
      let (us, vs, j, eq, h, w') = x s i ws e w in (us, vs, j, eq, h, weaken m s w')

  branch :
      (p q : Pattern) (qs : Patterns) (s a b c : ℕ)
      → get_elem? m.insts a ≡ some (op_split (a + 1) (c + 1))
      → get_elem? m.insts c ≡ some (op_jmp b)
      → Returns m s (Means m bs p) (a + 1) c
      → Returns m s (MeansAny m bs (cons q qs)) (c + 1) b
      → Returns m s (MeansAny m bs (cons p (cons q qs))) a b
  unfolding Means
  branch p q qs zero a b c at out x y i ws e w = absurd (no_steps m _ a i ws e at w)
  branch p q qs (suc s) a b c at out x y i ws e w =
      elim (next m (op_split (a + 1) (c + 1)) (suc s) a i ws e at w) [
        | inl v ↦
            let (us, vs, j, eq, h, (d, le)) = x i ws e (weaken m s v) in
            (us, vs, j, eq, inl h, weaken m s (next m (op_jmp b) (suc s) c j vs e out (d, le)))
        | inr v ↦ let (us, vs, j, eq, h, w') = y i ws e (weaken m s v) in (us, vs, j, eq, inr h, w')
      ]

  mutual
    unfolding Layout Means

    Means-Returns :
        (p : Pattern) (s a b : ℕ) → Layout m.insts bs p a b → Returns m s (Means m bs p) a b
    Means-Returns (variable v) s a b (at, to) =
        leaf_Returns (variable v) s a b (at, to)
          (λ s' i ws e w.
            let (vs, eq, lt, bit, w') = next m (op_var v) (suc s') a i ws e at w in
            (
              v ∷ [],
              vs,
              i + 1,
              eq,
              (refl, refl, lt, bit),
              subst (λ k. Within m s' k (i + 1) vs e) (sym to) w',
            ))
          (λ i ws e w. no_steps m (op_var v) a i ws e at w)
    Means-Returns empty s a b l = Returns-nothing m s a b l
    Means-Returns start s a b (at, to) =
        leaf_Returns start s a b (at, to)
          (λ s' i ws e w.
            let (z, w') = next m op_start (suc s') a i ws e at w in
            ([], ws, i, refl, (refl, refl, z), subst (λ k. Within m s' k i ws e) (sym to) w'))
          (λ i ws e w. no_steps m op_start a i ws e at w)
    Means-Returns end s a b (at, to) =
        leaf_Returns end s a b (at, to)
          (λ s' i ws e w.
            let (z, w') = next m op_end (suc s') a i ws e at w in
            ([], ws, i, refl, (refl, refl, z), subst (λ k. Within m s' k i ws e) (sym to) w'))
          (λ i ws e w. no_steps m op_end a i ws e at w)
    Means-Returns unknown s a b l = absurd l
    Means-Returns (cat ps) s a b l = MeansAll-Returns ps s a b l
    Means-Returns (alt ps) s a b l = MeansAny-Returns ps s a b l
    Means-Returns (quantifier p lo hi r) s a b l =
        quantifier-Returns p lo hi r s a b (Means-Returns p) l

    MeansAll-Returns :
        (ps : Patterns) (s a b : ℕ)
        → LayoutCat m.insts bs ps a b
        → Returns m s (MeansAll m bs ps) a b
    MeansAll-Returns nil s a b l = Returns-nothing m s a b l
    MeansAll-Returns (cons p ps) s a b (c, l, rest) =
        Returns-Then m s a c b (Means-Returns p s a c l) (MeansAll-Returns ps s c b rest)

    MeansAny-Returns :
        (ps : Patterns) (s a b : ℕ)
        → LayoutAlt m.insts bs ps a b b
        → Returns m s (MeansAny m bs ps) a b
    MeansAny-Returns nil s a b l = Returns-nothing m s a b l
    MeansAny-Returns (cons p nil) s a b l = Means-Returns p s a b l
    MeansAny-Returns (cons p (cons q qs)) s a b (c, at, l, out, rest) =
        branch p q qs s a b c at out (Means-Returns p s (a + 1) c l)
          (MeansAny-Returns (cons q qs) s (c + 1) b rest)

-- If `mrCompile` succeeds, its code accepts exactly the matches of the pattern: from each row, with
-- the same variables for the same rows, and up to the same row.
pub compile_pattern-exact :
    (m : Machine) (bs : List Arg) (p : Pattern)
    → compile_pattern bs p ≡ ok m.insts
    → (i : ℕ) (vs : List ℕ) (e : ℕ) → Accepts m 0 i vs e ↔ Means m bs p i vs e
compile_pattern-exact m bs p h i vs e = (sound, complete)
  where
    built :
        (b : ℕ) × Layout m.insts bs p 0 b
        × (get_elem? m.insts b ≡ some op_match)
        × (length m.insts ≡ b + 1)
    built = compile_pattern-Layout bs p m.insts h

    complete : Means m bs p i vs e → Accepts m 0 i vs e
    complete x =
        let (b, l, at, _) = built in
        subst (λ k. Accepts m 0 i k e) (append-nil vs)
          (Means-Passes m bs p 0 b l i vs e x [] e (here at refl refl))

    sound : Accepts m 0 i vs e → Means m bs p i vs e
    sound a =
        let (b, l, at, _) = built in
        let (us, ws, j, eq, x, w) =
          Means-Returns m bs p (suc (steps m a)) 0 b l i vs e (a, omega arith) in
        let (blank, same) = stop b j ws at w in
        subst (λ k. Means m bs p i vs k) (sym same)
          (subst (λ k. Means m bs p i k j)
            (sym (append-nil us) ∙ ap (λ k. us ++ k) (sym blank) ∙ sym eq) x)
      where
        stop :
            (b j : ℕ) (ws : List ℕ)
            → get_elem? m.insts b ≡ some op_match
            → Within m (suc (steps m a)) b j ws e
            → (ws ≡ []) × (e ≡ j)
        stop b j ws at w = next m op_match (suc (steps m a)) b j ws e at w
