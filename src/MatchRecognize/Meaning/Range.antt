-- ===== src/MatchRecognize/Meaning/Range.antt =====
-- A compiled program is well formed: every instruction leads to instructions of the program.
use googlesqlite.Base.{
  ℕ, zero, suc, ◌+◌, ◌-◌, ◌*◌, ◌≤◌, ◌<◌, ◌≡◌, refl, sym, inl, inr, Option, none, some, Bool, true,
  false, List, arith, ltb, Bool-cases, length, get_elem?, get_elem?-lt, subst,
}
use googlesqlite.MatchRecognize.Pattern.{
  Pattern, Patterns, variable, empty, start, end, unknown, cat, alt, quantifier, nil, cons, Arg,
  Inst, ok, op_jmp, op_split, op_match,
}
use googlesqlite.MatchRecognize.Compile.{lower, compile_pattern}
use googlesqlite.MatchRecognize.Compile.Patch.{fork}
use googlesqlite.MatchRecognize.Compile.Layout.{
  Segment, Times, Options, Star, Tail, Layout, LayoutCat, LayoutAlt,
}
use googlesqlite.MatchRecognize.Compile.Compiled.{compile_pattern-Layout}
use googlesqlite.MatchRecognize.Vm.{Machine}
use googlesqlite.MatchRecognize.Vm.Closure.{Targets, IsWellFormed}

-- The variables of the pattern are among the first `nv`.
unfoldable mutual
  pub VarsBelow : ℕ → Pattern → Type 0
  VarsBelow nv (variable v) = v < nv
  VarsBelow nv empty = Unit
  VarsBelow nv start = Unit
  VarsBelow nv end = Unit
  VarsBelow nv unknown = Unit
  VarsBelow nv (cat ps) = AllVarsBelow nv ps
  VarsBelow nv (alt ps) = AllVarsBelow nv ps
  VarsBelow nv (quantifier p lo hi r) = VarsBelow nv p

  pub AllVarsBelow : ℕ → Patterns → Type 0
  AllVarsBelow nv nil = Unit
  AllVarsBelow nv (cons p ps) = VarsBelow nv p × AllVarsBelow nv ps

module _ (m : Machine) (len : ℕ) where
  -- The code from `a` up to `b` stays in a program of `len` instructions that is longer than `b`
  -- and than its exit.
  abbrev Stays : ℕ → ℕ → ℕ → Type 0
  Stays exit a b =
      (a ≤ b)
      × (exit < len
          → b < len
          → (i : ℕ) (inst : Inst) → a ≤ i
          → i < b
          → get_elem? m.insts i ≡ some inst
          → Targets len m.nv i inst)

  Stays-nothing : (exit a b : ℕ) → b ≡ a → Stays exit a b
  Stays-nothing exit a b e = (omega arith, λ h k i inst lo hi at. absurd (omega arith))

  Stays-Then :
      (exit exit' a c b : ℕ)
      → (exit' < len → b < len → exit < len)
      → Stays exit a c
      → Stays exit' c b
      → Stays exit' a b
  Stays-Then exit exit' a c b out x y = (
    omega (arith, x.0, y.0),
    λ h k i inst lo hi at. elim (Bool-cases (ltb i c)) [
      | inl t ↦ x.1 (out h k) (omega (arith, y.0)) i inst lo (ground arith) at
      | inr t ↦ y.1 h k i inst (ground arith) hi at
    ],
  )

  -- One instruction, whose targets are in range.
  Stays-one :
      (exit a : ℕ) (inst : Inst)
      → get_elem? m.insts a ≡ some inst
      → (exit < len → a + 1 < len → Targets len m.nv a inst)
      → Stays exit a (a + 1)
  Stays-one exit a inst at t = (
    omega arith,
    λ h k i inst' lo hi at'.
        let here : a ≡ i = omega arith in
        subst (λ x. Targets len m.nv x inst') here
          (let same : inst ≡ inst' = two i inst' here at' in
            subst (Targets len m.nv a) same (t h k)),
  )
    where
      two : (i : ℕ) (inst' : Inst) → a ≡ i → get_elem? m.insts i ≡ some inst' → inst ≡ inst'
      two i inst' here at' = cc

  fork-Targets :
      (a body exit : ℕ) (r : Bool) → body < len → exit < len → Targets len m.nv a (fork body exit r)
  fork-Targets a body exit true h k = (k, h)
  fork-Targets a body exit false h k = (h, k)

  Stays-fork :
      (r : Bool) (exit a : ℕ)
      → get_elem? m.insts a ≡ some (fork (a + 1) exit r)
      → Stays exit a (a + 1)
  Stays-fork r exit a at = Stays-one exit a _ at (λ h k. fork-Targets a (a + 1) exit r k h)

  module _ (L : Segment) (x : (exit a b : ℕ) → L a b → Stays exit a b) where
    Stays-Times : (n exit a b : ℕ) → Times m.insts n L a b → Stays exit a b
    Stays-Times zero exit a b t = Stays-nothing exit a b t
    Stays-Times (suc n) exit a b (c, l, t) =
        Stays-Then exit exit a c b (λ h k. h) (x exit a c l) (Stays-Times n exit c b t)

    Stays-Options : (r : Bool) (n a b exit : ℕ) → Options m.insts r n L a b exit → Stays exit a b
    Stays-Options r zero a b exit o = Stays-nothing exit a b o
    Stays-Options r (suc n) a b exit (at, (c, l, o)) =
        Stays-Then exit exit a (a + 1) b (λ h k. h) (Stays-fork r exit a at)
          (Stays-Then exit exit (a + 1) c b (λ h k. h) (x exit (a + 1) c l)
            (Stays-Options r n c b exit o))

    Stays-Star : (r : Bool) (a b exit : ℕ) → Star m.insts r L a b → Stays b a b
    Stays-Star r a b exit (at, (c, l, back, end_at)) =
        Stays-Then b b a (a + 1) b (λ h k. h) (Stays-fork r b a at)
          (Stays-Then b b (a + 1) c b (λ h k. h) (x b (a + 1) c l)
            (subst (λ k. Stays b c k) (sym end_at)
              (Stays-one b c (op_jmp a) back (λ h k. omega (arith, (x b (a + 1) c l).0)))))

    Stays-Tail :
        (r : Bool) (lo : ℕ) (h : Option ℕ) (a b : ℕ) → Tail m.insts r L lo h a b → Stays b a b
    Stays-Tail r lo none a b t = Stays-Star r a b b t
    Stays-Tail r lo (some hi) a b (_, o) = Stays-Options r (hi - lo) a b b o

  module _ (bs : List Arg) where
    quantifier-Stays :
        (p : Pattern) (lo hi : ℕ) (r : Bool) (exit a b : ℕ)
        → ((exit' a' b' : ℕ) → Layout m.insts bs p a' b' → Stays exit' a' b')
        → Layout m.insts bs (quantifier p lo hi r) a b
        → Stays exit a b
    unfolding Layout
    quantifier-Stays p lo hi r exit a b x (l, h, el, eh, (c, t, tail)) =
        Stays-Then b exit a c b (λ h' k. k) (Stays-Times (Layout m.insts bs p) x (lower l) b a c t)
          (Stays-Then b exit c b b (λ h' k. k)
            (Stays-Tail (Layout m.insts bs p) x r (lower l) h c b tail)
            (Stays-nothing exit b b refl))

    alternative-Stays :
        (exit a b c : ℕ)
        → get_elem? m.insts a ≡ some (op_split (a + 1) (c + 1))
        → Stays exit (a + 1) c
        → get_elem? m.insts c ≡ some (op_jmp exit)
        → Stays exit (c + 1) b
        → Stays exit a b
    alternative-Stays exit a b c at x out y = (
      omega (arith, x.0, y.0),
      λ h k.
          let split : Stays exit a (a + 1) =
            Stays-one exit a _ at (λ h' k'. (k', omega (arith, y.0))) in
          (Stays-Then exit exit a (a + 1) b (λ h' k'. h') split
              (Stays-Then exit exit (a + 1) c b (λ h' k'. h') x
                (Stays-Then exit exit c (c + 1) b (λ h' k'. h')
                  (Stays-one exit c _ out (λ h' k'. h')) y))).1
            h k,
    )

    mutual
      unfolding Layout VarsBelow

      Layout-Stays :
          (p : Pattern)
          → VarsBelow m.nv p
          → (exit a b : ℕ) → Layout m.insts bs p a b
          → Stays exit a b
      Layout-Stays (variable v) lt exit a b (at, to) =
          subst (λ k. Stays exit a k) (sym to) (Stays-one exit a _ at (λ h k. (k, lt)))
      Layout-Stays empty lt exit a b l = Stays-nothing exit a b l
      Layout-Stays start lt exit a b (at, to) =
          subst (λ k. Stays exit a k) (sym to) (Stays-one exit a _ at (λ h k. k))
      Layout-Stays end lt exit a b (at, to) =
          subst (λ k. Stays exit a k) (sym to) (Stays-one exit a _ at (λ h k. k))
      Layout-Stays unknown lt exit a b l = absurd l
      Layout-Stays (cat ps) lt exit a b l = LayoutCat-Stays ps lt exit a b l
      Layout-Stays (alt ps) lt exit a b l =
          Stays-Then b exit a b b (λ h k. k) (LayoutAlt-Stays ps lt b a b l)
            (Stays-nothing exit b b refl)
      Layout-Stays (quantifier p lo hi r) lt exit a b l =
          quantifier-Stays p lo hi r exit a b (Layout-Stays p lt) l

      LayoutCat-Stays :
          (ps : Patterns)
          → AllVarsBelow m.nv ps
          → (exit a b : ℕ) → LayoutCat m.insts bs ps a b
          → Stays exit a b
      LayoutCat-Stays nil lt exit a b l = Stays-nothing exit a b l
      LayoutCat-Stays (cons p ps) lt exit a b (c, l, rest) =
          Stays-Then exit exit a c b (λ h k. h) (Layout-Stays p lt.0 exit a c l)
            (LayoutCat-Stays ps lt.1 exit c b rest)

      LayoutAlt-Stays :
          (ps : Patterns)
          → AllVarsBelow m.nv ps
          → (exit a b : ℕ) → LayoutAlt m.insts bs ps a b exit
          → Stays exit a b
      LayoutAlt-Stays nil lt exit a b l = Stays-nothing exit a b l
      LayoutAlt-Stays (cons p nil) lt exit a b l = Layout-Stays p lt.0 exit a b l
      LayoutAlt-Stays (cons p (cons q qs)) lt exit a b (c, at, l, out, rest) =
          alternative-Stays exit a b c at (Layout-Stays p lt.0 exit (a + 1) c l) out
            (LayoutAlt-Stays (cons q qs) lt.1 exit (c + 1) b rest)

-- If the variables of a pattern are among the first `nv` and there are `nv` bits for each row, the
-- machine of the compiled pattern is well formed: its jumps lead into the program, which no execution
-- leaves, and each bit that it reads is there.
pub compile_pattern-IsWellFormed :
    (m : Machine) (bs : List Arg) (p : Pattern)
    → compile_pattern bs p ≡ ok m.insts
    → VarsBelow m.nv p
    → length m.bits ≡ m.n * m.nv
    → IsWellFormed m
compile_pattern-IsWellFormed m bs p h vars bits =
    let (b, l, at, len) = compile_pattern-Layout bs p m.insts h in
    let stays : Stays m (length m.insts) b 0 b =
      Layout-Stays m (length m.insts) bs p vars b 0 b l in
    record {
      nonempty = omega arith;
      targets = λ pc inst at_pc. elim (Bool-cases (ltb pc b)) [
        | inl t ↦ stays.1 (omega arith) (omega arith) pc inst (omega arith) (ground arith) at_pc
        | inr t ↦ last b pc inst at (get_elem?-lt m.insts pc inst at_pc) len (ground arith) at_pc
      ];
      bit = λ pos v lt lt'. in_range pos v lt lt';
    }
  where
    last :
        (b pc : ℕ) (inst : Inst)
        → get_elem? m.insts b ≡ some op_match
        → pc < length m.insts
        → length m.insts ≡ b + 1
        → b ≤ pc
        → get_elem? m.insts pc ≡ some inst
        → Targets (length m.insts) m.nv pc inst
    last b pc inst at lt len ge at_pc =
        let here : b ≡ pc = omega arith in
        let same : op_match ≡ inst = two here in subst (Targets (length m.insts) m.nv pc) same tt
      where
        two : b ≡ pc → op_match ≡ inst
        two here = cc

    in_range : (pos v : ℕ) → pos < m.n → v < m.nv → pos * m.nv + v < length m.bits
    in_range pos v lt lt' = rw bits (grind arith)
