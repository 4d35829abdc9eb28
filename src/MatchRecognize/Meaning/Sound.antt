-- ===== src/MatchRecognize/Meaning/Sound.antt =====
-- Whatever the code of a pattern accepts, the pattern matches.
use mathlib.Core.List.{append_assoc}
use googlesqlite.Base.{
  ℕ, zero, suc, ◌+◌, ◌-◌, ◌*◌, ◌≤◌, ◌<◌, ◌≡◌, refl, sym, ◌∙◌, ap, subst, ◌⊎◌, inl, inr, Option,
  none, some, Bool, true, false, List, [], ◌∷◌, ◌++◌, arith, get_elem?,
}
use googlesqlite.MatchRecognize.Pattern.{Inst, op_var, op_jmp, op_split, op_start, op_end, op_match}
use googlesqlite.MatchRecognize.Compile.Patch.{fork}
use googlesqlite.MatchRecognize.Compile.Layout.{Segment, Times, Options, Star, Tail}
use googlesqlite.MatchRecognize.Vm.{Machine}
use googlesqlite.MatchRecognize.Vm.Accept.{
  Accepts, here, take, jump, split_x, split_y, at_start, at_end,
}
use googlesqlite.MatchRecognize.Meaning.{Rel, Then, Power, AtMost, Repeats}
use googlesqlite.MatchRecognize.Meaning.Powers.{Power-join}

module _ (m : Machine) where
  -- The number of instructions that an execution runs.
  pub steps : {pc i e : ℕ} {vs : List ℕ} → Accepts m pc i vs e → ℕ
  steps (here at blank same) = 1
  steps (take v vs at lt bit eq a) = suc (steps a)
  steps (jump x at a) = suc (steps a)
  steps (split_x x y at a) = suc (steps a)
  steps (split_y x y at a) = suc (steps a)
  steps (at_start at z a) = suc (steps a)
  steps (at_end at z a) = suc (steps a)

  abbrev pub Within : ℕ → ℕ → ℕ → List ℕ → ℕ → Type 0
  Within s pc i vs e = (a : Accepts m pc i vs e) × (steps a ≤ s)

  -- An execution of at most `s` instructions, after its first one, which is `inst`.
  abbrev Next : Inst → (s pc i : ℕ) → List ℕ → ℕ → Type 0
  Next inst zero pc i ws e = ⊥
  Next (op_var v) (suc s) pc i ws e =
      (vs : List ℕ) × (ws ≡ v ∷ vs)
      × (i < m.n)
      × (get_elem? m.bits (i * m.nv + v) ≡ some true)
      × Within s (pc + 1) (i + 1) vs e
  Next (op_jmp x) (suc s) pc i ws e = Within s x i ws e
  Next (op_split x y) (suc s) pc i ws e = Within s x i ws e ⊎ Within s y i ws e
  Next op_start (suc s) pc i ws e = (i ≡ 0) × Within s (pc + 1) i ws e
  Next op_end (suc s) pc i ws e = (i ≡ m.n) × Within s (pc + 1) i ws e
  Next op_match (suc s) pc i ws e = (ws ≡ []) × (e ≡ i)

  first :
      (s : ℕ) {pc i e : ℕ} {ws : List ℕ} (a : Accepts m pc i ws e)
      → steps a ≤ s
      → (inst : Inst) × (get_elem? m.insts pc ≡ some inst) × Next inst s pc i ws e
  unfolding steps
  first zero (here at blank same) h = absurd (omega arith)
  first zero (take v vs at lt bit eq a) h = absurd (omega arith)
  first zero (jump x at a) h = absurd (omega arith)
  first zero (split_x x y at a) h = absurd (omega arith)
  first zero (split_y x y at a) h = absurd (omega arith)
  first zero (at_start at z a) h = absurd (omega arith)
  first zero (at_end at z a) h = absurd (omega arith)
  first (suc s) (here at blank same) h = (op_match, at, (blank, same))
  first (suc s) (take v vs at lt bit eq a) h = (op_var v, at, (vs, eq, lt, bit, (a, omega arith)))
  first (suc s) (jump x at a) h = (op_jmp x, at, (a, omega arith))
  first (suc s) (split_x x y at a) h = (op_split x y, at, inl (a, omega arith))
  first (suc s) (split_y x y at a) h = (op_split x y, at, inr (a, omega arith))
  first (suc s) (at_start at z a) h = (op_start, at, (z, (a, omega arith)))
  first (suc s) (at_end at z a) h = (op_end, at, (z, (a, omega arith)))

  -- The first instruction is the one that the code has there.
  pub next :
      (inst : Inst) (s pc i : ℕ) (ws : List ℕ) (e : ℕ)
      → get_elem? m.insts pc ≡ some inst
      → Within s pc i ws e
      → Next inst s pc i ws e
  next inst s pc i ws e at (a, h) =
      let (inst', at', n) = first s a h in
      let same : inst' ≡ inst = cc in subst (λ k. Next k s pc i ws e) same n

  -- Each execution from `a` first does what `R` says and then goes on from `b`.
  abbrev pub Returns : ℕ → Rel → ℕ → ℕ → Type 0
  Returns s R a b =
      (i : ℕ) (ws : List ℕ) (e : ℕ)
      → Within s a i ws e
      → (us : List ℕ) × (vs : List ℕ) × (j : ℕ) × (ws ≡ us ++ vs) × R i us j × Within s b j vs e

  pub weaken : (s : ℕ) {pc i e : ℕ} {ws : List ℕ} → Within s pc i ws e → Within (suc s) pc i ws e
  weaken s (a, h) = (a, omega arith)

  pub Returns-nothing : (s a b : ℕ) → b ≡ a → Returns s (λ i vs j. (vs ≡ []) × (j ≡ i)) a b
  Returns-nothing s a b at i ws e w =
      ([], ws, i, refl, (refl, refl), subst (λ k. Within s k i ws e) (sym at) w)

  pub Returns-Then :
      {R S : Rel} (s a c b : ℕ) → Returns s R a c → Returns s S c b → Returns s (Then R S) a b
  Returns-Then s a c b x y i ws e w =
      let (us, vs, k, eq, r, w') = x i ws e w in
      let (us', vs', j, eq', r', w'') = y k vs e w' in
      (
        us ++ us',
        vs',
        j,
        eq ∙ ap (λ l. us ++ l) eq' ∙ sym (append_assoc us us' vs'),
        (k, us, us', refl, r, r'),
        w'',
      )

  -- A fork goes to its body or to its exit.
  fork-next :
      (r : Bool) (s a body exit i : ℕ) (ws : List ℕ) (e : ℕ)
      → get_elem? m.insts a ≡ some (fork body exit r)
      → Within (suc s) a i ws e
      → Within s body i ws e ⊎ Within s exit i ws e
  fork-next false s a body exit i ws e at w = next (op_split body exit) (suc s) a i ws e at w
  fork-next true s a body exit i ws e at w =
      elim (next (op_split exit body) (suc s) a i ws e at w) [ inl x ↦ inr x | inr x ↦ inl x ]

  pub no_steps :
      (inst : Inst) (pc i : ℕ) (ws : List ℕ) (e : ℕ)
      → get_elem? m.insts pc ≡ some inst
      → Within zero pc i ws e
      → ⊥
  no_steps inst pc i ws e at w = next inst zero pc i ws e at w

  module _ (R : Rel) (L : Segment) (x : (s a b : ℕ) → L a b → Returns s R a b) where
    Returns-Times : (s n a b : ℕ) → Times m.insts n L a b → Returns s (Power n R) a b
    Returns-Times s zero a b t = Returns-nothing s a b t
    Returns-Times s (suc n) a b (c, l, t) =
        Returns-Then s a c b (x s a c l) (Returns-Times s n c b t)

    -- `R` some number of times, of which the upper bound is `h`.
    abbrev UpTo : Option ℕ → Rel
    UpTo h i us j = (k : ℕ) × AtMost k h × Power k R i us j

    Returns-Options :
        (r : Bool) (s n a b : ℕ) → Options m.insts r n L a b b → Returns s (UpTo (some n)) a b
    Returns-Options r s zero a b o i ws e w =
        ([], ws, i, refl, (0, omega arith, (refl, refl)), subst (λ k. Within s k i ws e) (sym o) w)
    Returns-Options r zero (suc n) a b (at, _) i ws e w = absurd (no_steps _ a i ws e at w)
    Returns-Options r (suc s) (suc n) a b (at, (c, l, o)) i ws e w =
        elim (fork-next r s a (a + 1) b i ws e at w) [
          | inr out ↦ ([], ws, i, refl, (0, omega arith, (refl, refl)), weaken s out)
          | inl body ↦
              let (us, vs, j, eq, p, w') = x s (a + 1) c l i ws e body in
              let (us', vs', j', eq', (k, le, q), w'') = Returns-Options r s n c b o j vs e w' in
              (
                us ++ us',
                vs',
                j',
                eq ∙ ap (λ t. us ++ t) eq' ∙ sym (append_assoc us us' vs'),
                (suc k, omega arith, (j, us, us', refl, p, q)),
                weaken s w'',
              )
        ]

    Returns-Star : (r : Bool) (s a b : ℕ) → Star m.insts r L a b → Returns s (UpTo none) a b
    Returns-Star r zero a b (at, _) i ws e w = absurd (no_steps _ a i ws e at w)
    Returns-Star r (suc s) a b (at, (c, l, back, end_at)) i ws e w =
        elim (fork-next r s a (a + 1) b i ws e at w) [
          | inr out ↦ ([], ws, i, refl, (0, tt, (refl, refl)), weaken s out)
          | inl body ↦
              let (us, vs, j, eq, p, w') = x s (a + 1) c l i ws e body in
              let (us', vs', j', eq', (k, le, q), w'') =
                Returns-Star r s a b (at, (c, l, back, end_at)) j vs e (again s j vs e back w') in
              (
                us ++ us',
                vs',
                j',
                eq ∙ ap (λ t. us ++ t) eq' ∙ sym (append_assoc us us' vs'),
                (suc k, tt, (j, us, us', refl, p, q)),
                weaken s w'',
              )
        ]
      where
        again :
            (s' j : ℕ) (vs : List ℕ) (e' : ℕ)
            → get_elem? m.insts c ≡ some (op_jmp a)
            → Within s' c j vs e'
            → Within s' a j vs e'
        again zero j vs e' back' w' = absurd (no_steps _ c j vs e' back' w')
        again (suc s') j vs e' back' w' = weaken s' (next (op_jmp a) (suc s') c j vs e' back' w')

    Returns-Tail :
        (r : Bool) (lo : ℕ) (h : Option ℕ) (s a b : ℕ)
        → Tail m.insts r L lo h a b
        → Returns s (λ i us j. (k : ℕ) × AtMost (lo + k) h × Power k R i us j) a b
    Returns-Tail r lo none s a b t i ws e w = Returns-Star r s a b t i ws e w
    Returns-Tail r lo (some hi) s a b (le, o) i ws e w =
        let (us, vs, j, eq, (k, most, p), w') = Returns-Options r s (hi - lo) a b o i ws e w in
        (us, vs, j, eq, (k, omega arith, p), w')

    pub Returns-Repeats :
        (r : Bool) (lo : ℕ) (h : Option ℕ) (s a b c : ℕ)
        → Times m.insts lo L a c
        → Tail m.insts r L lo h c b
        → Returns s (Repeats lo h R) a b
    Returns-Repeats r lo h s a b c t tail i ws e w =
        let (us, vs, j, eq, (k, us', us'', eq', p, (d, most, q)), w') =
          Returns-Then s a c b (Returns-Times s lo a c t) (Returns-Tail r lo h s c b tail) i ws e
            w in
        (
          us,
          vs,
          j,
          eq,
          (lo + d, omega arith, most, Power-join R lo d i us j (k, us', us'', eq', p, q)),
          w',
        )
