-- ===== src/MatchRecognize/Compile/Layout.antt =====
-- Where the code of each part of a pattern stands in the program, and that the compiler puts it
-- there.
use googlesqlite.Base.{ℕ, zero, suc, ◌+◌, ◌-◌, ◌≤◌, ◌≡◌, Option, none, some, Bool, List, get_elem?}
use googlesqlite.MatchRecognize.Pattern.{
  Pattern, Patterns, variable, empty, start, end, unknown, cat, alt, quantifier, nil, cons, Arg,
  op_var, op_split, op_jmp, op_start, op_end, ok, Code,
}
use googlesqlite.MatchRecognize.Compile.{bound_value, lower}
use googlesqlite.MatchRecognize.Compile.Patch.{fork}

-- The code of one pattern, from instruction `a` up to `b`.
abbrev pub Segment : Type 1
Segment = ℕ → ℕ → Type 0

module _ (prog : Code) where
  abbrev pub Times : ℕ → Segment → Segment
  Times zero L a b = b ≡ a
  Times (suc n) L a b = (c : ℕ) × L a c × Times n L c b

  -- `n` times a split that leaves for `exit`, and the body.
  abbrev pub Options : Bool → ℕ → Segment → (a b exit : ℕ) → Type 0
  Options r zero L a b exit = b ≡ a
  Options r (suc n) L a b exit =
      (get_elem? prog a ≡ some (fork (a + 1) exit r))
      × ((c : ℕ) × L (a + 1) c × Options r n L c b exit)

  abbrev pub Star : Bool → Segment → Segment
  Star r L a b =
      (get_elem? prog a ≡ some (fork (a + 1) b r))
      × ((c : ℕ) × L (a + 1) c × (get_elem? prog c ≡ some (op_jmp a)) × (b ≡ c + 1))

  abbrev pub Tail : Bool → Segment → ℕ → Option ℕ → Segment
  Tail r L lo none a b = Star r L a b
  Tail r L lo (some hi) a b = (lo ≤ hi) × Options r (hi - lo) L a b b

module _ (prog : Code) (bs : List Arg) where
  unfoldable mutual
    pub Layout : Pattern → ℕ → ℕ → Type 0
    Layout (variable v) a b = (get_elem? prog a ≡ some (op_var v)) × (b ≡ a + 1)
    Layout empty a b = b ≡ a
    Layout start a b = (get_elem? prog a ≡ some op_start) × (b ≡ a + 1)
    Layout end a b = (get_elem? prog a ≡ some op_end) × (b ≡ a + 1)
    Layout unknown a b = ⊥
    Layout (cat ps) a b = LayoutCat ps a b
    Layout (alt ps) a b = LayoutAlt ps a b b
    Layout (quantifier p lo hi r) a b =
        (l : Option ℕ) × (h : Option ℕ) × (bound_value bs lo ≡ ok l)
        × (bound_value bs hi ≡ ok h)
        × ((c : ℕ) × Times prog (lower l) (Layout p) a c × Tail prog r (Layout p) (lower l) h c b)

    pub LayoutCat : Patterns → ℕ → ℕ → Type 0
    LayoutCat nil a b = b ≡ a
    LayoutCat (cons p ps) a b = (c : ℕ) × Layout p a c × LayoutCat ps c b

    pub LayoutAlt : Patterns → ℕ → ℕ → ℕ → Type 0
    LayoutAlt nil a b exit = b ≡ a
    LayoutAlt (cons p nil) a b exit = Layout p a b
    LayoutAlt (cons p (cons q qs)) a b exit =
        (c : ℕ) × (get_elem? prog a ≡ some (op_split (a + 1) (c + 1)))
        × Layout p (a + 1) c
        × (get_elem? prog c ≡ some (op_jmp exit))
        × LayoutAlt (cons q qs) (c + 1) b exit
