-- ===== src/MatchRecognize/Meaning/Complete.antt =====
-- Whatever a pattern matches, its code accepts.
use mathlib.Core.List.{append_assoc}
use googlesqlite.Base.{
  ℕ, zero, suc, ◌+◌, ◌-◌, ◌≤◌, ◌≡◌, refl, sym, ◌∙◌, ap, subst, inl, inr, Option, none, some, Bool,
  true, false, List, [], ◌++◌, arith, get_elem?,
}
use googlesqlite.MatchRecognize.Pattern.{
  Pattern, Patterns, variable, empty, start, end, unknown, cat, alt, quantifier, nil, cons, Arg,
}
use googlesqlite.MatchRecognize.Compile.{lower}
use googlesqlite.MatchRecognize.Compile.Patch.{fork}
use googlesqlite.MatchRecognize.Compile.Layout.{
  Segment, Times, Options, Star, Tail, Layout, LayoutCat, LayoutAlt,
}
use googlesqlite.MatchRecognize.Vm.{Machine}
use googlesqlite.MatchRecognize.Vm.Accept.{Accepts, take, jump, split_x, split_y, at_start, at_end}
use googlesqlite.MatchRecognize.Meaning.{
  Rel, Then, Power, AtMost, Repeats, Means, MeansAll, MeansAny,
}
use googlesqlite.MatchRecognize.Meaning.Powers.{Power-split}

module _ (m : Machine) where
  -- What `R` relates, the code from `a` passes on to `b`.
  abbrev pub Passes : Rel → ℕ → ℕ → Type 0
  Passes R a b =
      (i : ℕ) (us : List ℕ) (j : ℕ)
      → R i us j
      → (ws : List ℕ) (e : ℕ) → Accepts m b j ws e
      → Accepts m a i (us ++ ws) e

  Passes-Then : {R S : Rel} (a b c : ℕ) → Passes R a c → Passes S c b → Passes (Then R S) a b
  Passes-Then a b c x y i vs j (k, us, ws, eq, r, s) rest e acc =
      subst (λ l. Accepts m a i l e) (sym (append_assoc us ws rest) ∙ ap (λ l. l ++ rest) (sym eq))
        (x i us k r (ws ++ rest) e (y k ws j s rest e acc))

  Passes-nothing : (a b : ℕ) → b ≡ a → Passes (λ i vs j. (vs ≡ []) × (j ≡ i)) a b
  Passes-nothing a b at i us j (blank, same) ws e acc =
      subst (λ l. Accepts m a i (l ++ ws) e) (sym blank)
        (subst (λ k. Accepts m k i ws e) at (subst (λ k. Accepts m b k ws e) same acc))

  fork-body :
      {a i e : ℕ} {vs : List ℕ} (body exit : ℕ) (r : Bool)
      → get_elem? m.insts a ≡ some (fork body exit r)
      → Accepts m body i vs e
      → Accepts m a i vs e
  fork-body body exit true at acc = split_y _ _ at acc
  fork-body body exit false at acc = split_x _ _ at acc

  fork-exit :
      {a i e : ℕ} {vs : List ℕ} (body exit : ℕ) (r : Bool)
      → get_elem? m.insts a ≡ some (fork body exit r)
      → Accepts m exit i vs e
      → Accepts m a i vs e
  fork-exit body exit true at acc = split_x _ _ at acc
  fork-exit body exit false at acc = split_y _ _ at acc

  module _ (R : Rel) (L : Segment) (x : (a b : ℕ) → L a b → Passes R a b) where
    Passes-Times : (n a b : ℕ) → Times m.insts n L a b → Passes (Power n R) a b
    Passes-Times zero a b t = Passes-nothing a b t
    Passes-Times (suc n) a b (c, l, t) = Passes-Then a b c (x a c l) (Passes-Times n c b t)

    Passes-Options :
        (r : Bool) (n k a b : ℕ) → k ≤ n → Options m.insts r n L a b b → Passes (Power k R) a b
    Passes-Options r zero zero a b le o i us j p ws e acc = Passes-nothing a b o i us j p ws e acc
    Passes-Options r zero (suc k) a b le o i us j p ws e acc = absurd (omega arith)
    Passes-Options r (suc n) zero a b le (at, _) i us j p ws e acc =
        fork-exit (a + 1) b r at (Passes-nothing b b refl i us j p ws e acc)
    Passes-Options r (suc n) (suc k) a b le (at, (c, l, o)) i us j p ws e acc =
        fork-body (a + 1) b r at (
          Passes-Then (a + 1) b c (x (a + 1) c l) (Passes-Options r n k c b (omega arith) o) i us j
            p ws e acc)

    Passes-Star : (r : Bool) (k a b : ℕ) → Star m.insts r L a b → Passes (Power k R) a b
    Passes-Star r zero a b (at, _) i us j p ws e acc =
        fork-exit (a + 1) b r at (Passes-nothing b b refl i us j p ws e acc)
    Passes-Star r (suc k) a b (at, (c, l, back, end_at)) i us j p ws e acc =
        fork-body (a + 1) b r at (
          Passes-Then (a + 1) b c (x (a + 1) c l)
            (λ i' us' j' p' ws' e' acc'.
              jump a back (Passes-Star r k a b (at, (c, l, back, end_at)) i' us' j' p' ws' e' acc'))
            i us j p ws e acc)

    Passes-Tail :
        (r : Bool) (lo d : ℕ) (h : Option ℕ) (a b : ℕ)
        → AtMost (lo + d) h
        → Tail m.insts r L lo h a b
        → Passes (Power d R) a b
    Passes-Tail r lo d none a b le t = Passes-Star r d a b t
    Passes-Tail r lo d (some hi) a b le (_, o) = Passes-Options r (hi - lo) d a b (omega arith) o

    Passes-Repeats :
        (r : Bool) (lo : ℕ) (h : Option ℕ) (a b c : ℕ)
        → Times m.insts lo L a c
        → Tail m.insts r L lo h c b
        → Passes (Repeats lo h R) a b
    Passes-Repeats r lo h a b c t tail i us j (k, le, most, p) =
        Passes-Then a b c (Passes-Times lo a c t)
          (Passes-Tail r lo (k - lo) h c b (subst (λ n. AtMost n h) total most) tail) i us j
          (Power-split R lo (k - lo) i us j (subst (λ n. Power n R i us j) total p))
      where
        total : k ≡ lo + (k - lo)
        total = omega arith

  module _ (bs : List Arg) where
    quantifier-Passes :
        (p : Pattern) (lo hi : ℕ) (r : Bool) (a b : ℕ)
        → ((a' b' : ℕ) → Layout m.insts bs p a' b' → Passes (Means m bs p) a' b')
        → Layout m.insts bs (quantifier p lo hi r) a b
        → Passes (Means m bs (quantifier p lo hi r)) a b
    unfolding Layout Means
    quantifier-Passes p lo hi r a b x (l, h, el, eh, (c, t, tail)) i us j (l', h', el', eh', rep) =
        let same_l : l' ≡ l = cc in
        let same_h : h' ≡ h = cc in
        Passes-Repeats (Means m bs p) (Layout m.insts bs p) x r (lower l) h a b c t tail i us j (
          subst (λ k. Repeats (lower k) h (Means m bs p) i us j) same_l
            (subst (λ k. Repeats (lower l') k (Means m bs p) i us j) same_h rep))

    mutual
      unfolding Layout Means

      pub Means-Passes :
          (p : Pattern) (a b : ℕ) → Layout m.insts bs p a b → Passes (Means m bs p) a b
      Means-Passes (variable v) a b (at, next) i us j (eq, to, lt, bit) ws e acc =
          subst (λ l. Accepts m a i (l ++ ws) e) (sym eq)
            (take v ws at lt bit refl
              (subst (λ k. Accepts m k (i + 1) ws e) next (subst (λ k. Accepts m b k ws e) to acc)))
      Means-Passes empty a b l i us j h ws e acc = Passes-nothing a b l i us j h ws e acc
      Means-Passes start a b (at, next) i us j (eq, to, first) ws e acc =
          at_start at first (Passes-nothing (a + 1) b next i us j (eq, to) ws e acc)
      Means-Passes end a b (at, next) i us j (eq, to, last) ws e acc =
          at_end at last (Passes-nothing (a + 1) b next i us j (eq, to) ws e acc)
      Means-Passes unknown a b l i us j h ws e acc = absurd l
      Means-Passes (cat ps) a b l i us j h ws e acc = MeansAll-Passes ps a b l i us j h ws e acc
      Means-Passes (alt ps) a b l i us j h ws e acc = MeansAny-Passes ps a b l i us j h ws e acc
      Means-Passes (quantifier p lo hi r) a b l i us j h ws e acc =
          quantifier-Passes p lo hi r a b (Means-Passes p) l i us j h ws e acc

      MeansAll-Passes :
          (ps : Patterns) (a b : ℕ) → LayoutCat m.insts bs ps a b → Passes (MeansAll m bs ps) a b
      MeansAll-Passes nil a b l = Passes-nothing a b l
      MeansAll-Passes (cons p ps) a b (c, l, rest) =
          Passes-Then a b c (Means-Passes p a c l) (MeansAll-Passes ps c b rest)

      MeansAny-Passes :
          (ps : Patterns) (a b : ℕ) → LayoutAlt m.insts bs ps a b b → Passes (MeansAny m bs ps) a b
      MeansAny-Passes nil a b l i us j h ws e acc = Passes-nothing a b l i us j h ws e acc
      MeansAny-Passes (cons p nil) a b l i us j h ws e acc = Means-Passes p a b l i us j h ws e acc
      MeansAny-Passes (cons p (cons q qs)) a b (c, at, l, out, rest) i us j (inl h) ws e acc =
          split_x _ _ at (Means-Passes p (a + 1) c l i us j h ws e (jump b out acc))
      MeansAny-Passes (cons p (cons q qs)) a b (c, at, l, out, rest) i us j (inr h) ws e acc =
          split_y _ _ at (MeansAny-Passes (cons q qs) (c + 1) b rest i us j h ws e acc)
