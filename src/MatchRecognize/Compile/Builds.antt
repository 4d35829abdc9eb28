-- ===== src/MatchRecognize/Compile/Builds.antt =====
-- What it means for a compiling function of internal/match_recognize.go to lay out its code, and
-- the rules for sequences and repetitions.
use googlesqlite.Base.{
  ℕ, zero, suc, ◌+◌, ◌≤◌, ◌<◌, ◌≡◌, ◌≢◌, refl, sym, ◌∙◌, ap, subst, some, Bool, List, [], ◌∷◌, ◌++◌,
  arith, length, get_elem?, length-append,
}
use googlesqlite.MatchRecognize.Pattern.{Inst, op_split, op_jmp, Result, ok, ◌>>=◌, Code}
use googlesqlite.MatchRecognize.Compile.{emit, set_split, set_splits, times, options, star}
use googlesqlite.MatchRecognize.Compile.Patch.{
  >>=-eq-ok, get-append_lt, get-append_last, emit-eq-ok, Extends, Extends-refl, Extends-trans,
  Extends-snoc, AllFrom, AllFrom-le, fork, length-set_split, set_split_self, set_split-ne,
  length-set_splits, set_splits-below, set_splits-local,
}
use googlesqlite.MatchRecognize.Compile.Layout.{Segment, Times, Options, Star}

-- The program has the instructions of `c` from `a` up to `b`.
abbrev pub Agrees : Code → Code → ℕ → ℕ → Type 0
Agrees prog c a b = (i : ℕ) → a ≤ i → i < b → get_elem? prog i ≡ get_elem? c i

-- The compiling function `f` adds code that is laid out as `L` says, and changes no older code.
abbrev pub Builds : (Code → Result Code) → (Code → Segment) → Type 0
Builds f L =
    (code code' : Code)
    → f code ≡ ok code'
    → Extends code code'
      × ((prog : Code)
          → Agrees prog code' (length code) (length code')
          → L prog (length code) (length code'))

pub Builds-emit :
    (i : Inst) → Builds (emit i) (λ prog a b. (get_elem? prog a ≡ some i) × (b ≡ a + 1))
Builds-emit i code code' h =
    let eq : code' ≡ code ++ i ∷ [] = emit-eq-ok i code code' h in
    rw eq (
      Extends-snoc code i,
      λ prog at. (
        at (length code) (omega arith) (omega (arith, length-append code (i ∷ [])))
            ∙ get-append_last code i,
        length-append code (i ∷ []) ∙ omega arith,
      ),
    )

-- Two pieces of code in a row.
pub Builds-seq :
    (f g : Code → Result Code) (L M : Code → Segment)
    → Builds f L
    → Builds g M
    → Builds (λ c. f c >>= g) (λ prog a b. (c : ℕ) × L prog a c × M prog c b)
Builds-seq f g L M x y code code' h =
    let (c, p, q) = >>=-eq-ok (f code) g h in
    let (ext, lay) = x code c p in
    let (ext', lay') = y c code' q in
    (
      Extends-trans ext ext',
      λ prog at. (
        length c,
        lay prog (λ i lo hi. at i lo (omega (arith, ext'.longer)) ∙ ext'.same i hi),
        lay' prog (λ i lo hi. at i (omega (arith, ext.longer)) hi),
      ),
    )

pub Builds-nothing : Builds (λ c. ok c) (λ prog a b. b ≡ a)
Builds-nothing code code' h =
    let same : code ≡ code' = cc in
    (
      subst (λ c. Extends code c) same (Extends-refl code),
      λ prog at. ap (λ (c : Code). length c) (sym same),
    )

module _ (f : Code → Result Code) (L : Code → Segment) (x : Builds f L) where
  pub Builds-times : (n : ℕ) → Builds (times n f) (λ prog. Times prog n (L prog))
  unfolding times
  Builds-times zero = Builds-nothing
  Builds-times (suc n) =
      Builds-seq f (times n f) L (λ prog. Times prog n (L prog)) x (Builds-times n)

  -- The code of `options` before its splits are set.
  record OptionsBuilt (n : ℕ) (code code' : Code) (ss : List ℕ) : Type 0 where
    extends : Extends code code'
    from : AllFrom (length code) ss
    laid_out :
        (prog : Code) (exit : ℕ) (r : Bool)
        → Agrees prog (set_splits ss exit r code') (length code) (length code')
        → Options prog r n (L prog) (length code) (length code') exit

  OptionsBuilt-nil : (code : Code) → OptionsBuilt zero code code []
  unfolding set_splits
  OptionsBuilt-nil code = record {
    extends = Extends-refl code;
    from = tt;
    laid_out = λ prog exit r at. refl;
  }

  -- One more split and body in front.
  OptionsBuilt-cons :
      (n : ℕ) (code c1 c2 : Code) (ss : List ℕ)
      → f (code ++ op_split 0 0 ∷ []) ≡ ok c1
      → OptionsBuilt n c1 c2 ss
      → OptionsBuilt (suc n) code c2 (length code ∷ ss)
  unfolding set_splits
  OptionsBuilt-cons n code c1 c2 ss p o = record {
    extends = Extends-trans first o.extends;
    from = (omega arith, AllFrom-le _ _ ss first.longer o.from);
    laid_out = λ prog exit r at. (
      at (length code) (omega arith) (omega (arith, body.0.longer, o.extends.longer, size))
          ∙ split exit r,
      (
        length c1,
        subst (λ k. L prog k (length c1)) size
            (body.1 prog (λ i lo hi.
              at i (omega (arith, size)) (omega (arith, o.extends.longer))
              ∙ inner exit r i (omega (arith, size)) hi)),
        o.laid_out prog exit r
            (λ i lo hi. at i (omega (arith, first.longer)) hi ∙ outer exit r i lo),
      ),
    );
  }
    where
      size : length (code ++ op_split 0 0 ∷ []) ≡ length code + 1
      size = length-append code (op_split 0 0 ∷ [])

      body :
          Extends (code ++ op_split 0 0 ∷ []) c1
          × ((prog : Code)
              → Agrees prog c1 (length (code ++ op_split 0 0 ∷ [])) (length c1)
              → L prog (length (code ++ op_split 0 0 ∷ [])) (length c1))
      body = x _ c1 p

      first : Extends code c1
      first = Extends-trans (Extends-snoc code (op_split 0 0)) body.0

      old_split : get_elem? c2 (length code) ≡ some (op_split 0 0)
      old_split =
          o.extends.same (length code) (omega (arith, body.0.longer, size))
          ∙ body.0.same (length code) (omega (arith, size))
          ∙ get-append_last code (op_split 0 0)

      split :
          (exit : ℕ) (r : Bool)
          → get_elem? (set_splits (length code ∷ ss) exit r c2) (length code)
            ≡ some (fork (length code + 1) exit r)
      split exit r =
          set_splits-below ss exit r (length c1) _ (length code) o.from
            (omega (arith, body.0.longer, size))
          ∙ set_split_self (length code) (length code + 1) exit r c2 0 0 old_split

      inner :
          (exit : ℕ) (r : Bool) (i : ℕ)
          → length code < i
          → i < length c1
          → get_elem? (set_splits (length code ∷ ss) exit r c2) i ≡ get_elem? c1 i
      inner exit r i lo hi =
          set_splits-below ss exit r (length c1) _ i o.from hi
          ∙ set_split-ne (length code) (length code + 1) exit r c2 i (omega arith)
          ∙ o.extends.same i hi

      outer :
          (exit : ℕ) (r : Bool) (i : ℕ)
          → length c1 ≤ i
          → get_elem? (set_splits (length code ∷ ss) exit r c2) i
            ≡ get_elem? (set_splits ss exit r c2) i
      outer exit r i lo = set_splits-local ss exit r _ c2 i (
          set_split-ne (length code) (length code + 1) exit r c2 i
            (omega (arith, body.0.longer, size)))

  options-OptionsBuilt :
      (n : ℕ) (code : Code) (r : Code × List ℕ)
      → options n f code ≡ ok r
      → OptionsBuilt n code r.0 r.1
  unfolding options
  options-OptionsBuilt zero code r h =
      let same : ◌≡◌ {A = Code × List ℕ} (code, []) r = cc in
      subst (λ (k : Code × List ℕ). OptionsBuilt zero code k.0 k.1) same (OptionsBuilt-nil code)
  options-OptionsBuilt (suc n) code r h =
      let (c, p, h1) = >>=-eq-ok (emit (op_split 0 0) code) _ h in
      let (c1, q, h2) = >>=-eq-ok (f c) _ h1 in
      let (rest, s, h3) = >>=-eq-ok (options n f c1) _ h2 in
      let same : ◌≡◌ {A = Code × List ℕ} (rest.0, length code ∷ rest.1) r = cc in
      subst (λ (k : Code × List ℕ). OptionsBuilt (suc n) code k.0 k.1) same
        (OptionsBuilt-cons n code c1 rest.0 rest.1
          (subst (λ k. f k ≡ ok c1) (emit-eq-ok (op_split 0 0) code c p) q)
          (options-OptionsBuilt n c1 rest s))

  pub Builds-options :
      (n : ℕ) (r : Bool)
      → Builds
          (λ code. options n f code >>= λ rest. ok (set_splits rest.1 (length rest.0) r rest.0))
          (λ prog a b. Options prog r n (L prog) a b b)
  Builds-options n r code code' h =
      let (rest, p, q) = >>=-eq-ok (options n f code) _ h in
      let same : set_splits rest.1 (length rest.0) r rest.0 ≡ code' = cc in
      subst
        (λ k.
          Extends code k
          × ((prog : Code)
              → Agrees prog k (length code) (length k)
              → Options prog r n (L prog) (length code) (length k) (length k)))
        same (built rest (options-OptionsBuilt n code rest p))
    where
      built :
          (rest : Code × List ℕ)
          → OptionsBuilt n code rest.0 rest.1
          → Extends code (set_splits rest.1 (length rest.0) r rest.0)
            × ((prog : Code)
                → Agrees prog
                    (set_splits rest.1 (length rest.0) r rest.0)
                    (length code)
                    (length (set_splits rest.1 (length rest.0) r rest.0))
                → Options prog r n
                    (L prog)
                    (length code)
                    (length (set_splits rest.1 (length rest.0) r rest.0))
                    (length (set_splits rest.1 (length rest.0) r rest.0)))
      built (c, ss) o = rw (length-set_splits ss (length c) r c) (
        record {
          longer = rw (length-set_splits ss (length c) r c) o.extends.longer;
          same = λ i lt.
              set_splits-below ss (length c) r (length code) c i o.from lt ∙ o.extends.same i lt;
        },
        λ prog at. o.laid_out prog (length c) r at,
      )

  pub Builds-star : (r : Bool) → Builds (star r f) (λ prog. Star prog r (L prog))
  unfolding star
  Builds-star r code code' h =
      let (c0, p0, h0) = >>=-eq-ok (emit (op_split 0 0) code) _ h in
      let (c1, p1, h1) = >>=-eq-ok (f c0) _ h0 in
      let (c2, p2, h2) = >>=-eq-ok (emit (op_jmp (length code)) c1) _ h1 in
      let e0 : c0 ≡ code ++ op_split 0 0 ∷ [] = emit-eq-ok (op_split 0 0) code c0 p0 in
      let e2 : c2 ≡ c1 ++ op_jmp (length code) ∷ [] = emit-eq-ok (op_jmp (length code)) c1 c2 p2 in
      built c0 c1 c2 e0 (x c0 c1 p1) e2 cc
    where
      built :
          (c0 c1 c2 : Code)
          → c0 ≡ code ++ op_split 0 0 ∷ []
          → Extends c0 c1
            × ((prog : Code)
                → Agrees prog c1 (length c0) (length c1)
                → L prog (length c0) (length c1))
          → c2 ≡ c1 ++ op_jmp (length code) ∷ []
          → set_split (length code) (length code + 1) (length c2) r c2 ≡ code'
          → Extends code code'
            × ((prog : Code)
                → Agrees prog code' (length code) (length code')
                → Star prog r (L prog) (length code) (length code'))
      built c0 c1 c2 e0 (ext, lay) e2 e = (
        record {
          longer = omega (arith, size0, size2, sizes, ext.longer);
          same = λ i lt.
              untouched i (omega arith)
              ∙ at_c1 i (omega (arith, size0, ext.longer))
              ∙ ext.same i (omega (arith, size0))
              ∙ subst (λ k. get_elem? k i ≡ get_elem? code i) (sym e0) (get-append_lt code _ i lt);
        },
        λ prog at. (
          at (length code) (omega arith) (omega (arith, size0, size2, sizes, ext.longer))
              ∙ subst (λ k. get_elem? k (length code) ≡ some (fork (length code + 1) (length c2) r))
                  e split
              ∙ ap (λ k. some (fork (length code + 1) k r)) (sym sizes),
          (
            length c1,
            subst (λ k. L prog k (length c1)) size0
                (lay prog (λ i lo hi.
                  at i (omega (arith, size0)) (omega (arith, size2, sizes))
                  ∙ untouched i (omega (arith, size0))
                  ∙ at_c1 i hi)),
            at (length c1) (omega (arith, size0, ext.longer)) (omega (arith, size2, sizes))
                ∙ untouched (length c1) (omega (arith, size0, ext.longer))
                ∙ subst (λ k. get_elem? k (length c1) ≡ some (op_jmp (length code))) (sym e2)
                    (get-append_last c1 _),
            omega (arith, size2, sizes),
          ),
        ),
      )
        where
          size0 : length c0 ≡ length code + 1
          size0 = ap (λ (k : Code). length k) e0 ∙ length-append code _

          size2 : length c2 ≡ length c1 + 1
          size2 = ap (λ (k : Code). length k) e2 ∙ length-append c1 _

          sizes : length code' ≡ length c2
          sizes = ap (λ (k : Code). length k) (sym e) ∙ length-set_split (length code) _ _ r c2

          at_c1 : (i : ℕ) → i < length c1 → get_elem? c2 i ≡ get_elem? c1 i
          at_c1 i lt =
              subst (λ k. get_elem? k i ≡ get_elem? c1 i) (sym e2) (get-append_lt c1 _ i lt)

          untouched : (i : ℕ) → i ≢ length code → get_elem? code' i ≡ get_elem? c2 i
          untouched i ne =
              subst (λ k. get_elem? k i ≡ get_elem? c2 i) e
                (set_split-ne (length code) _ _ r c2 i (λ p. ne (sym p)))

          split :
              get_elem? (set_split (length code) (length code + 1) (length c2) r c2) (length code)
              ≡ some (fork (length code + 1) (length c2) r)
          split = set_split_self (length code) (length code + 1) (length c2) r c2 0 0 (
              at_c1 (length code) (omega (arith, size0, ext.longer))
              ∙ ext.same (length code) (omega (arith, size0))
              ∙ subst (λ k. get_elem? k (length code) ≡ some (op_split 0 0)) (sym e0)
                  (get-append_last code _))
