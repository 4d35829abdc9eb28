-- ===== src/MatchRecognize/Compile/Compiled.antt =====
-- `compile` of internal/match_recognize.go lays out every pattern.
use googlesqlite.Base.{
  ℕ, ◌+◌, ◌-◌, ◌≤◌, ◌<◌, ◌≡◌, ◌≢◌, refl, sym, ◌∙◌, ap, subst, Option, none, some, Bool, List, [],
  ◌∷◌, ◌++◌, arith, length, get_elem?, length-append,
}
use googlesqlite.MatchRecognize.Pattern.{
  Pattern, Patterns, variable, empty, start, end, unknown, cat, alt, quantifier, nil, cons, Arg,
  op_var, op_split, op_jmp, op_start, op_end, op_match, Result, ok, ◌>>=◌, Code,
}
use googlesqlite.MatchRecognize.Compile.{
  emit, bound_value, with_x, with_y, patch, patch_jumps, times, star, check_bounds, lower, quantify,
  compile, compile_cat, compile_alt, compile_pattern,
}
use googlesqlite.MatchRecognize.Compile.Patch.{
  >>=-eq-ok, get-append_lt, get-append_last, emit-eq-ok, Extends, Extends-refl, length-patch,
  get-patch_self, get-patch_ne, AllFrom, AllFrom-le, length-patch_jumps, patch_jumps-below,
  patch_jumps-local,
}
use googlesqlite.MatchRecognize.Compile.Layout.{Segment, Times, Tail, Layout, LayoutCat, LayoutAlt}
use googlesqlite.MatchRecognize.Compile.Builds.{
  Agrees, Builds, Builds-emit, Builds-seq, Builds-nothing, Builds-times, Builds-options,
  Builds-star,
}

check_bounds-eq-ok :
    (lo : ℕ) (h : Option ℕ) (range : ℕ × Option ℕ)
    → check_bounds lo h ≡ ok range
    → (range ≡ (lo, h)) × ((hi : ℕ) → h ≡ some hi → lo ≤ hi)
unfolding check_bounds
check_bounds-eq-ok lo none range e = (ground arith, λ hi p. cc)
check_bounds-eq-ok lo (some hi) range e = (ground arith, λ k p. ground arith)

Builds-quantify :
    (f : Code → Result Code) (L : Code → Segment)
    → Builds f L
    → (r : Bool) (lo : ℕ) (h : Option ℕ) → ((hi : ℕ) → h ≡ some hi → lo ≤ hi)
    → Builds
        (quantify r f (lo, h))
        (λ prog a b. (c : ℕ) × Times prog lo (L prog) a c × Tail prog r (L prog) lo h c b)
unfolding quantify
Builds-quantify f L x r lo none le =
    Builds-seq (times lo f) (star r f) (λ prog. Times prog lo (L prog))
      (λ prog. Tail prog r (L prog) lo none) (Builds-times f L x lo) (Builds-star f L x r)
Builds-quantify f L x r lo (some hi) le =
    Builds-seq (times lo f) _ (λ prog. Times prog lo (L prog))
      (λ prog. Tail prog r (L prog) lo (some hi)) (Builds-times f L x lo)
      (λ code code' e.
        let (ext, lay) = Builds-options f L x (hi - lo) r code code' e in
        (ext, λ prog at. (le hi refl, lay prog at)))

module _ (bs : List Arg) where
  -- The code of the alternatives `ps`, whose last jumps are still to be set.
  record AltBuilt (ps : Patterns) (code code' : Code) (js : List ℕ) : Type 0 where
    extends : Extends code code'
    from : AllFrom (length code) js
    laid_out :
        (prog : Code) (exit : ℕ)
        → Agrees prog (patch_jumps js exit code') (length code) (length code')
        → LayoutAlt prog bs ps (length code) (length code') exit

  Builds-alt :
      (ps : Patterns)
      → ((code : Code) (r : Code × List ℕ)
          → compile_alt bs ps code ≡ ok r
          → AltBuilt ps code r.0 r.1)
      → Builds
          (λ code. compile_alt bs ps code >>= λ r. ok (patch_jumps r.1 (length r.0) r.0))
          (λ prog a b. LayoutAlt prog bs ps a b b)
  Builds-alt ps h code code' e =
      let (r, p, q) = >>=-eq-ok (compile_alt bs ps code) _ e in
      let same : patch_jumps r.1 (length r.0) r.0 ≡ code' = cc in
      subst
        (λ k.
          Extends code k
          × ((prog : Code)
              → Agrees prog k (length code) (length k)
              → LayoutAlt prog bs ps (length code) (length k) (length k)))
        same (built r (h code r p))
    where
      built :
          (r : Code × List ℕ)
          → AltBuilt ps code r.0 r.1
          → Extends code (patch_jumps r.1 (length r.0) r.0)
            × ((prog : Code)
                → Agrees prog
                    (patch_jumps r.1 (length r.0) r.0)
                    (length code)
                    (length (patch_jumps r.1 (length r.0) r.0))
                → LayoutAlt prog bs ps
                    (length code)
                    (length (patch_jumps r.1 (length r.0) r.0))
                    (length (patch_jumps r.1 (length r.0) r.0)))
      built (c, js) o = rw (length-patch_jumps js (length c) c) (
        record {
          longer = rw (length-patch_jumps js (length c) c) o.extends.longer;
          same = λ i lt.
              patch_jumps-below js (length c) (length code) c i o.from lt ∙ o.extends.same i lt;
        },
        λ prog at. o.laid_out prog (length c) at,
      )

  AltBuilt-one :
      (p : Pattern) (code c : Code)
      → Builds (compile bs p) (λ prog. Layout prog bs p)
      → compile bs p code ≡ ok c
      → AltBuilt (cons p nil) code c []
  unfolding Layout patch_jumps
  AltBuilt-one p code c x e =
      let (ext, lay) = x code c e in
      record { extends = ext; from = tt; laid_out = λ prog exit at. lay prog at }

  -- The code `d1` in front of an alternative that is not the last, its code `c'`, and the code `d2`
  -- behind it.
  record Alternative (p : Pattern) (code d1 c' d2 : Code) : Type 0 where
    size1 : length d1 ≡ length code + 1
    old : (i : ℕ) → i < length code → get_elem? d1 i ≡ get_elem? code i
    body : Extends d1 c'
    lay :
        (prog : Code)
        → Agrees prog c' (length d1) (length c')
        → Layout prog bs p (length d1) (length c')
    size2 : length d2 ≡ length c' + 1
    split : get_elem? d2 (length code) ≡ some (op_split (length code + 1) (length c' + 1))
    other : (i : ℕ) → i < length c' → i ≢ length code → get_elem? d2 i ≡ get_elem? c' i
    jump : get_elem? d2 (length c') ≡ some (op_jmp 0)

  AltBuilt-cons :
      (p q : Pattern) (qs : Patterns) (code d1 c' d2 r : Code) (js : List ℕ)
      → Alternative p code d1 c' d2
      → AltBuilt (cons q qs) d2 r js
      → AltBuilt (cons p (cons q qs)) code r (length c' ∷ js)
  unfolding Layout patch_jumps with_x
  AltBuilt-cons p q qs code d1 c' d2 r js x o = record {
    extends = record {
      longer = omega (arith, before, x.size2, o.extends.longer);
      same = λ i lt.
          o.extends.same i (omega (arith, before, x.size2))
          ∙ x.other i (omega (arith, before)) (omega arith)
          ∙ x.body.same i (omega (arith, x.size1))
          ∙ x.old i lt;
    };
    from = (omega (arith, before), AllFrom-le _ _ js (omega (arith, before, x.size2)) o.from);
    laid_out = λ prog exit at. (
      length c',
      at (length code) (omega arith) (omega (arith, before, x.size2, o.extends.longer))
          ∙ unjumped exit (length code) (omega (arith, before))
          ∙ x.split,
      subst (λ k. Layout prog bs p k (length c')) x.size1
          (x.lay prog (λ i lo hi.
            at i (omega (arith, x.size1)) (omega (arith, x.size2, o.extends.longer))
            ∙ unjumped exit i hi
            ∙ x.other i hi (omega (arith, x.size1)))),
      at (length c') (omega (arith, before)) (omega (arith, x.size2, o.extends.longer))
          ∙ patch_jumps-below js exit (length d2) _ (length c') o.from (omega (arith, x.size2))
          ∙ get-patch_self (with_x exit) (length c') r (op_jmp 0)
              (o.extends.same (length c') (omega (arith, x.size2)) ∙ x.jump),
      subst (λ k. LayoutAlt prog bs (cons q qs) k (length r) exit) x.size2
          (o.laid_out prog exit (λ i lo hi.
            at i (omega (arith, before, x.size2)) hi ∙ rest exit i (omega (arith, x.size2)))),
    );
  }
    where
      before : length code < length c'
      before = omega (arith, x.size1, x.body.longer)

      unjumped :
          (exit i : ℕ)
          → i < length c'
          → get_elem? (patch_jumps (length c' ∷ js) exit r) i ≡ get_elem? d2 i
      unjumped exit i lt =
          patch_jumps-below js exit (length d2) _ i o.from (omega (arith, x.size2))
          ∙ get-patch_ne (with_x exit) (length c') r i (omega arith)
          ∙ o.extends.same i (omega (arith, x.size2))

      rest :
          (exit i : ℕ)
          → length c' < i
          → get_elem? (patch_jumps (length c' ∷ js) exit r) i ≡ get_elem? (patch_jumps js exit r) i
      rest exit i lt =
          patch_jumps-local js exit _ r i (get-patch_ne (with_x exit) (length c') r i (omega arith))

  alternative :
      (p : Pattern) (code c' : Code)
      → Builds (compile bs p) (λ prog. Layout prog bs p)
      → compile bs p (patch (with_x (length code + 1)) (length code) (code ++ op_split 0 0 ∷ []))
        ≡ ok c'
      → Alternative p code
          (patch (with_x (length code + 1)) (length code) (code ++ op_split 0 0 ∷ []))
          c'
          (patch (with_y (length (c' ++ op_jmp 0 ∷ []))) (length code) (c' ++ op_jmp 0 ∷ []))
  unfolding with_x with_y
  alternative p code c' x e = record {
    size1 = size1;
    old = λ i lt. get-patch_ne _ (length code) _ i (omega arith) ∙ get-append_lt code _ i lt;
    body = (x _ c' e).0;
    lay = (x _ c' e).1;
    size2 = length-patch _ (length code) _ ∙ length-append c' _;
    split =
        get-patch_self _ (length code) _ (op_split (length code + 1) 0) (
          get-append_lt c' _ (length code) (omega (arith, size1, (x _ c' e).0.longer))
          ∙ (x _ c' e).0.same (length code) (omega (arith, size1))
          ∙ get-patch_self _ (length code) _ (op_split 0 0) (get-append_last code _))
        ∙ ap (λ k. some (op_split (length code + 1) k)) (length-append c' _);
    other = λ i lt ne. get-patch_ne _ (length code) _ i (λ p. ne (sym p)) ∙ get-append_lt c' _ i lt;
    jump =
        get-patch_ne _ (length code) _ (length c') (omega (arith, size1, (x _ c' e).0.longer))
        ∙ get-append_last c' _;
  }
    where
      size1 :
          length (patch (with_x (length code + 1)) (length code) (code ++ op_split 0 0 ∷ []))
          ≡ length code + 1
      size1 = length-patch _ (length code) _ ∙ length-append code _

  quantifier-Builds :
      (p : Pattern) (lo hi : ℕ) (r : Bool)
      → Builds (compile bs p) (λ prog. Layout prog bs p)
      → Builds (compile bs (quantifier p lo hi r)) (λ prog. Layout prog bs (quantifier p lo hi r))
  unfolding compile Layout
  quantifier-Builds p lo hi r x code code' e =
      let (l, el, e1) = >>=-eq-ok (bound_value bs lo) _ e in
      let (h, eh, e2) = >>=-eq-ok (bound_value bs hi) _ e1 in
      let (range, er, e3) = >>=-eq-ok (check_bounds (lower l) h) _ e2 in
      let (same, le) = check_bounds-eq-ok (lower l) h range er in
      let (ext, lay) =
        Builds-quantify (compile bs p) (λ prog. Layout prog bs p) x r (lower l) h le code code'
          (subst (λ k. quantify r (compile bs p) k code ≡ ok code') same e3) in
      (ext, λ prog at. (l, h, el, eh, lay prog at))

  AltBuilt-nil :
      (code : Code) (r : Code × List ℕ) → compile_alt bs nil code ≡ ok r → AltBuilt nil code r.0 r.1
  unfolding compile Layout
  AltBuilt-nil code r h =
      let same : ◌≡◌ {A = Code × List ℕ} (code, []) r = cc in
      subst (λ (k : Code × List ℕ). AltBuilt nil code k.0 k.1) same
        (record { extends = Extends-refl code; from = tt; laid_out = λ prog exit at. refl })

  AltBuilt-last :
      (p : Pattern) (code : Code) (r : Code × List ℕ)
      → Builds (compile bs p) (λ prog. Layout prog bs p)
      → compile_alt bs (cons p nil) code ≡ ok r
      → AltBuilt (cons p nil) code r.0 r.1
  unfolding compile
  AltBuilt-last p code r x h =
      let (c, e, h1) = >>=-eq-ok (compile bs p code) _ h in
      let same : ◌≡◌ {A = Code × List ℕ} (c, []) r = cc in
      subst (λ (k : Code × List ℕ). AltBuilt (cons p nil) code k.0 k.1) same
        (AltBuilt-one p code c x e)

  AltBuilt-more :
      (p q : Pattern) (qs : Patterns) (code : Code) (r : Code × List ℕ)
      → Builds (compile bs p) (λ prog. Layout prog bs p)
      → ((code' : Code) (r' : Code × List ℕ)
          → compile_alt bs (cons q qs) code' ≡ ok r'
          → AltBuilt (cons q qs) code' r'.0 r'.1)
      → compile_alt bs (cons p (cons q qs)) code ≡ ok r
      → AltBuilt (cons p (cons q qs)) code r.0 r.1
  unfolding compile
  AltBuilt-more p q qs code r x ih h =
      let (c, e0, h0) = >>=-eq-ok (emit (op_split 0 0) code) _ h in
      let (c', e1, h1) =
        >>=-eq-ok (compile bs p (patch (with_x (length code + 1)) (length code) c)) _ h0 in
      let (c'', e2, h2) = >>=-eq-ok (emit (op_jmp 0) c') _ h1 in
      let (rest, e3, h3) =
        >>=-eq-ok (compile_alt bs (cons q qs) (patch (with_y (length c'')) (length code) c'')) _
          h2 in
      let same : ◌≡◌ {A = Code × List ℕ} (rest.0, length c' ∷ rest.1) r = cc in
      let first : c ≡ code ++ op_split 0 0 ∷ [] = emit-eq-ok _ code c e0 in
      let jump : c'' ≡ c' ++ op_jmp 0 ∷ [] = emit-eq-ok _ c' c'' e2 in
      subst (λ (k : Code × List ℕ). AltBuilt (cons p (cons q qs)) code k.0 k.1) same
        (AltBuilt-cons p q qs code _ c' _ rest.0 rest.1
          (alternative p code c' x (
            subst (λ k. compile bs p (patch (with_x (length code + 1)) (length code) k) ≡ ok c')
              first e1))
          (subst
            (λ k. AltBuilt (cons q qs) (patch (with_y (length k)) (length code) k) rest.0 rest.1)
            jump (ih _ rest e3)))

  mutual
    unfolding compile Layout

    compile-Builds : (p : Pattern) → Builds (compile bs p) (λ prog. Layout prog bs p)
    compile-Builds (variable v) = Builds-emit (op_var v)
    compile-Builds empty = Builds-nothing
    compile-Builds start = Builds-emit op_start
    compile-Builds end = Builds-emit op_end
    compile-Builds unknown = λ code code' h. cc
    compile-Builds (cat ps) = compile_cat-Builds ps
    compile-Builds (alt ps) = Builds-alt ps (compile_alt-AltBuilt ps)
    compile-Builds (quantifier p lo hi r) = quantifier-Builds p lo hi r (compile-Builds p)

    compile_cat-Builds : (ps : Patterns) → Builds (compile_cat bs ps) (λ prog. LayoutCat prog bs ps)
    compile_cat-Builds nil = Builds-nothing
    compile_cat-Builds (cons p ps) =
        Builds-seq (compile bs p) (compile_cat bs ps) (λ prog. Layout prog bs p)
          (λ prog. LayoutCat prog bs ps) (compile-Builds p) (compile_cat-Builds ps)

    compile_alt-AltBuilt :
        (ps : Patterns) (code : Code) (r : Code × List ℕ)
        → compile_alt bs ps code ≡ ok r
        → AltBuilt ps code r.0 r.1
    compile_alt-AltBuilt nil code r h = AltBuilt-nil code r h
    compile_alt-AltBuilt (cons p nil) code r h = AltBuilt-last p code r (compile-Builds p) h
    compile_alt-AltBuilt (cons p (cons q qs)) code r h =
        AltBuilt-more p q qs code r (compile-Builds p) (compile_alt-AltBuilt (cons q qs)) h

-- A program that `mrCompile` returns is the layout of its pattern with a match behind it.
pub compile_pattern-Layout :
    (bs : List Arg) (p : Pattern) (prog : Code)
    → compile_pattern bs p ≡ ok prog
    → (b : ℕ) × Layout prog bs p 0 b × (get_elem? prog b ≡ some op_match) × (length prog ≡ b + 1)
unfolding compile_pattern
compile_pattern-Layout bs p prog h =
    let (c, e, h1) = >>=-eq-ok (compile bs p []) _ h in
    let snoc : prog ≡ c ++ op_match ∷ [] = emit-eq-ok op_match c prog h1 in
    let (_, lay) = compile-Builds bs p [] c e in
    (
      length c,
      lay prog (λ i lo hi.
          subst (λ k. get_elem? k i ≡ get_elem? c i) (sym snoc) (get-append_lt c _ i hi)),
      subst (λ k. get_elem? k (length c) ≡ some op_match) (sym snoc) (get-append_last c op_match),
      ap (λ (k : Code). length k) snoc ∙ length-append c _,
    )
