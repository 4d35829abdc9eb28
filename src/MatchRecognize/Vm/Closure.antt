-- ===== src/MatchRecognize/Vm/Closure.antt =====
-- `add` ends, and what it marks is closed: of every instruction that it stamps the successors are
-- stamped too, or the instruction waits in the thread list.
use googlesqlite.Base.{
  ℕ, zero, suc, ◌+◌, ◌*◌, ◌≤◌, ◌<◌, ◌≡◌, refl, sym, ◌∙◌, subst, ◌⊎◌, inl, inr, Option, some, false,
  List, [], ◌∷◌, ◌++◌, arith, ◌==◌, if◌then◌else◌, ==_iff, Bool-cases, length, get_elem?, set,
  length-set, get_elem?-set_self, get_elem?-set_ne, get_elem?-some, get_elem?-lt,
}
use googlesqlite.MatchRecognize.Pattern.{Inst, op_var, op_split, op_jmp, op_start, op_end, op_match}
use googlesqlite.MatchRecognize.Vm.{Machine, Thread, thread, Added, added, expand, add, add_thread}

abbrev pub Marked : ℕ → List ℕ → ℕ → Type 0
Marked gen v q = get_elem? v q ≡ some gen

-- Some thread of the list is at `q`.
abbrev pub Waits : ℕ → List Thread → Type 0
Waits q [] = ⊥
Waits q (t ∷ ts) = (t.pc ≡ q) ⊎ Waits q ts

abbrev pub AllBelow : ℕ → List Thread → Type 0
AllBelow len [] = Unit
AllBelow len (t ∷ ts) = (t.pc < len) × AllBelow len ts

-- The instruction at `pc` leads to instructions of a program of `len` instructions only.
abbrev pub Targets : ℕ → ℕ → ℕ → Inst → Type 0
Targets len nv pc (op_var v) = (pc + 1 < len) × (v < nv)
Targets len nv pc (op_split x y) = (x < len) × (y < len)
Targets len nv pc (op_jmp x) = x < len
Targets len nv pc op_start = pc + 1 < len
Targets len nv pc op_end = pc + 1 < len
Targets len nv pc op_match = Unit

-- What the compiler and `Step` give: targets in range, and `nv` bits for each row.
pub record IsWellFormed (m : Machine) : Type 0 where
  pub nonempty : 0 < length m.insts
  pub targets :
      (pc : ℕ) (i : Inst) → get_elem? m.insts pc ≡ some i → Targets (length m.insts) m.nv pc i
  pub bit : (pos v : ℕ) → pos < m.n → v < m.nv → pos * m.nv + v < length m.bits

-- The number of instructions that do not have the stamp.
abbrev unmarked : ℕ → List ℕ → ℕ
unmarked gen [] = 0
unmarked gen (g ∷ v) = (if g == gen then 0 else 1) + unmarked gen v

unmarked-set :
    (gen : ℕ) (v : List ℕ) (q g : ℕ)
    → get_elem? v q ≡ some g
    → (g == gen) ≡ false
    → suc (unmarked gen (set v q gen)) ≡ unmarked gen v
unmarked-set gen [] q g e f = cc
unmarked-set gen (x ∷ v) zero g e f = ground arith
unmarked-set gen (x ∷ v) (suc q) g e f = omega (arith, unmarked-set gen v q g e f)

unmarked-le : (gen : ℕ) (v : List ℕ) → unmarked gen v ≤ length v
unmarked-le gen [] = omega arith
unmarked-le gen (x ∷ v) = ground (arith, unmarked-le gen v)

Waits-append : (q : ℕ) (xs ys : List Thread) → Waits q xs → Waits q (xs ++ ys)
Waits-append q (x ∷ xs) ys (inl e) = inl e
Waits-append q (x ∷ xs) ys (inr w) = inr (Waits-append q xs ys w)
Waits-append q [] ys w = absurd w

Waits-last : (q : ℕ) (path : List ℕ) (xs : List Thread) → Waits q (xs ++ thread q path ∷ [])
Waits-last q path [] = inl refl
Waits-last q path (x ∷ xs) = inr (Waits-last q path xs)

AllBelow-append :
    (len : ℕ) (xs ys : List Thread) → AllBelow len xs → AllBelow len ys → AllBelow len (xs ++ ys)
AllBelow-append len [] ys h k = k
AllBelow-append len (x ∷ xs) ys h k = (h.0, AllBelow-append len xs ys h.1 k)

module _ (m : Machine) (gen pos : ℕ) where
  -- The instruction at `q` needs no more work in stamps `v` and list `l` at row `pos`.
  abbrev pub Settled : Inst → ℕ → List ℕ → List Thread → Type 0
  Settled (op_jmp x) q v l = Marked gen v x
  Settled (op_split x y) q v l = Marked gen v x × Marked gen v y
  Settled op_start q v l = pos ≡ 0 → Marked gen v (q + 1)
  Settled op_end q v l = pos ≡ m.n → Marked gen v (q + 1)
  Settled (op_var x) q v l = Waits q l
  Settled op_match q v l = Waits q l

  abbrev pub IsSettled : ℕ → List ℕ → List Thread → Type 0
  IsSettled q v l = (i : Inst) → get_elem? m.insts q ≡ some i → Settled i q v l

  -- From stamps `v` and list `l` the machine has come to `v'` and `l'`.
  pub record Grows (v : List ℕ) (l : List Thread) (v' : List ℕ) (l' : List Thread) : Type 0 where
    pub same_length : length v' ≡ length v
    pub fewer : unmarked gen v' ≤ unmarked gen v
    pub old : (q g : ℕ) → get_elem? v' q ≡ some g → (g ≡ gen) ⊎ (get_elem? v q ≡ some g)
    pub keep : (q : ℕ) → Marked gen v q → Marked gen v' q
    pub wait : (q : ℕ) → Waits q l → Waits q l'
    pub settled : (q : ℕ) → Marked gen v' q → Marked gen v q ⊎ IsSettled q v' l'
    pub below : AllBelow (length m.insts) l → AllBelow (length m.insts) l'

  pub Grows-refl : (v : List ℕ) (l : List Thread) → Grows v l v l
  Grows-refl v l = record {
    same_length = refl;
    fewer = omega arith;
    old = λ q g e. inr e;
    keep = λ q e. e;
    wait = λ q w. w;
    settled = λ q e. inl e;
    below = λ h. h;
  }

  pub Settled-Grows :
      (i : Inst) (q : ℕ) {v : List ℕ} {l : List Thread} {v' : List ℕ} {l' : List Thread}
      → Grows v l v' l'
      → Settled i q v l
      → Settled i q v' l'
  Settled-Grows (op_jmp x) q g s = g.keep x s
  Settled-Grows (op_split x y) q g s = (g.keep x s.0, g.keep y s.1)
  Settled-Grows op_start q g s = λ e. g.keep _ (s e)
  Settled-Grows op_end q g s = λ e. g.keep _ (s e)
  Settled-Grows (op_var x) q g s = g.wait q s
  Settled-Grows op_match q g s = g.wait q s

  pub Grows-trans :
      {v : List ℕ} {l : List Thread} {v' : List ℕ} {l' : List Thread} {v'' : List ℕ}
      {l'' : List Thread}
      → Grows v l v' l'
      → Grows v' l' v'' l''
      → Grows v l v'' l''
  Grows-trans {v} {l} {v'} {l'} {v''} {l''} a b = record {
    same_length = b.same_length ∙ a.same_length;
    fewer = omega arith;
    old = λ q g e. older q g (b.old q g e);
    keep = λ q e. b.keep q (a.keep q e);
    wait = λ q w. b.wait q (a.wait q w);
    settled = λ q e. later q (b.settled q e);
    below = λ h. b.below (a.below h);
  }
    where
      older :
          (q g : ℕ) → (g ≡ gen) ⊎ (get_elem? v' q ≡ some g) → (g ≡ gen) ⊎ (get_elem? v q ≡ some g)
      older q g (inl e) = inl e
      older q g (inr e) = a.old q g e

      earlier : (q : ℕ) → Marked gen v q ⊎ IsSettled q v' l' → Marked gen v q ⊎ IsSettled q v'' l''
      earlier q (inl e) = inl e
      earlier q (inr s) = inr (λ i e. Settled-Grows i q b (s i e))

      later : (q : ℕ) → Marked gen v' q ⊎ IsSettled q v'' l'' → Marked gen v q ⊎ IsSettled q v'' l''
      later q (inl e) = earlier q (a.settled q e)
      later q (inr s) = inr s

  set-cases :
      (v : List ℕ) (pc q g : ℕ)
      → pc < length v
      → get_elem? (set v pc gen) q ≡ some g
      → ((q ≡ pc) × (g ≡ gen)) ⊎ (get_elem? v q ≡ some g)
  set-cases v pc q g lt e = elim (Bool-cases (q == pc)) [
    | inl t ↦
        inl ((==_iff _ _).0 t, ground (arith, (==_iff q pc).0 t, get_elem?-set_self v pc gen lt))
    | inr f ↦ inr (sym (get_elem?-set_ne v pc q gen (λ p. ground (arith, p))) ∙ e)
  ]

  Marked-set :
      (v : List ℕ) (pc q : ℕ) → pc < length v → Marked gen v q → Marked gen (set v pc gen) q
  Marked-set v pc q lt e = elim (Bool-cases (q == pc)) [
    | inl t ↦ rw ((==_iff _ _).0 t) (get_elem?-set_self v pc gen lt)
    | inr f ↦ get_elem?-set_ne v pc q gen (λ p. ground (arith, p)) ∙ e
  ]

  -- What `add` does after it has stamped `pc`, which then must be settled.
  Grows-mark :
      (v : List ℕ) (l : List Thread) (pc g : ℕ) {v' : List ℕ} {l' : List Thread}
      → get_elem? v pc ≡ some g
      → (g == gen) ≡ false
      → Grows (set v pc gen) l v' l'
      → IsSettled pc v' l'
      → Grows v l v' l'
  Grows-mark v l pc g {v'} {l'} e f w s = record {
    same_length = w.same_length ∙ length-set v pc gen;
    fewer = omega (arith, unmarked-set gen v pc g e f);
    old = λ q h at. older q h (w.old q h at);
    keep = λ q k. w.keep q (Marked-set v pc q lt k);
    wait = w.wait;
    settled = λ q k. later q (w.settled q k);
    below = w.below;
  }
    where
      lt : pc < length v
      lt = get_elem?-lt v pc g e

      older :
          (q h : ℕ)
          → (h ≡ gen) ⊎ (get_elem? (set v pc gen) q ≡ some h)
          → (h ≡ gen) ⊎ (get_elem? v q ≡ some h)
      older q h (inl p) = inl p
      older q h (inr p) = elim (set-cases v pc q h lt p) [ inl c ↦ inl c.1 | inr c ↦ inr c ]

      later :
          (q : ℕ)
          → Marked gen (set v pc gen) q ⊎ IsSettled q v' l'
          → Marked gen v q ⊎ IsSettled q v' l'
      later q (inr p) = inr p
      later q (inl p) = elim (set-cases v pc q gen lt p) [
        | inl c ↦ inr (λ i at. rw c.0 (s i (rw c.0 at at)))
        | inr c ↦ inl c
      ]

  -- `add` has returned, and has stamped `pc`.
  abbrev pub Succeeds : List ℕ → List Thread → ℕ → Option Added → Type 0
  Succeeds v l pc o =
      (a : Added) × (o ≡ some a) × Grows v l a.visited a.threads × Marked gen a.visited pc

  abbrev SettledResult : Inst → ℕ → List ℕ → List Thread → Option Added → Type 0
  SettledResult i pc v l o =
      (a : Added) × (o ≡ some a) × Grows v l a.visited a.threads × Settled i pc a.visited a.threads

  leaf :
      (path : List ℕ) (pc : ℕ) (v : List ℕ) (l : List Thread)
      → pc < length m.insts
      → Grows v l v (l ++ thread pc path ∷ []) × Waits pc (l ++ thread pc path ∷ [])
  leaf path pc v l lt = (
    record {
      same_length = refl;
      fewer = omega arith;
      old = λ q g e. inr e;
      keep = λ q e. e;
      wait = λ q w. Waits-append q l _ w;
      settled = λ q e. inl e;
      below = λ h. AllBelow-append _ l _ h (lt, tt);
    },
    Waits-last pc path l,
  )

  module _ (path : List ℕ) (rec : List ℕ → List Thread → ℕ → Option Added) (room : ℕ)
      (ih : (v : List ℕ) (l : List Thread) (pc : ℕ)
        → pc < length m.insts
        → length v ≡ length m.insts
        → unmarked gen v < room
        → Succeeds v l pc (rec v l pc)) where
    expand_succeeds :
        (i : Inst) (pc : ℕ) (v : List ℕ) (l : List Thread)
        → pc < length m.insts
        → Targets (length m.insts) m.nv pc i
        → length v ≡ length m.insts
        → unmarked gen v < room
        → SettledResult i pc v l (expand m rec path pos i pc v l)
    unfolding expand
    expand_succeeds (op_var x) pc v l lt t len u =
        let (g, w) = leaf path pc v l lt in (_, refl, g, w)
    expand_succeeds op_match pc v l lt t len u = let (g, w) = leaf path pc v l lt in (_, refl, g, w)
    expand_succeeds (op_jmp x) pc v l lt t len u = ih v l x t len u
    expand_succeeds op_start pc v l lt t len u = elim (Bool-cases (pos == 0)) [
      | inl e ↦ let (a, r, g, k) = ih v l (pc + 1) t len u in (a, rw e r, g, λ _. k)
      | inr e ↦ (added v l, rw e, Grows-refl v l, λ p. ground arith)
    ]
    expand_succeeds op_end pc v l lt t len u = elim (Bool-cases (pos == m.n)) [
      | inl e ↦ let (a, r, g, k) = ih v l (pc + 1) t len u in (a, rw e r, g, λ _. k)
      | inr e ↦ (added v l, rw e, Grows-refl v l, λ p. ground arith)
    ]
    expand_succeeds (op_split x y) pc v l lt t len u =
        let (a, r, g, k) = ih v l x t.0 len u in
        let (b, s, h, j) =
          ih a.visited a.threads y t.1 (g.same_length ∙ len) (omega (arith, g.fewer)) in
        (b, rw (r, expand) s, Grows-trans g h, (h.keep x k, j))

  module _ (wf : IsWellFormed m) (path : List ℕ) where
    add-Succeeds :
        (f : ℕ) (v : List ℕ) (l : List Thread) (pc : ℕ)
        → pc < length m.insts
        → length v ≡ length m.insts
        → unmarked gen v < f
        → Succeeds v l pc (add m f gen path pos v l pc)
    unfolding add
    add-Succeeds zero v l pc lt len u = absurd (omega arith)
    add-Succeeds (suc f) v l pc lt len u =
        let (g, e) = get_elem?-some v pc (omega arith) in
        let (i, at) = get_elem?-some m.insts pc lt in
        elim (Bool-cases (g == gen)) [
          | inl t ↦ (added v l, rw (e, add, t), Grows-refl v l, rw ((==_iff _ _).0 t) at e)
          | inr t ↦
              let (a, r, w, s) =
                expand_succeeds path (λ v' l' pc'. add m f gen path pos v' l' pc') f
                  (λ v' l' pc' lt' len' u'. add-Succeeds f v' l' pc' lt' len' u') i pc
                  (set v pc gen) l lt (wf.targets pc i at) (length-set v pc gen ∙ len)
                  (omega (arith, unmarked-set gen v pc g e t)) in
              (
                a,
                rw (e, add, t, at) r,
                Grows-mark v l pc g e t w (λ j at'.
                    let same : i ≡ j = cc in subst (λ k. Settled k pc a.visited a.threads) same s),
                w.keep pc (get_elem?-set_self v pc gen (omega arith)),
              )
        ]

    -- The depth that `add_thread` allows is enough.
    pub add_thread-Succeeds :
        (v : List ℕ) (l : List Thread) (pc : ℕ)
        → pc < length m.insts
        → length v ≡ length m.insts
        → Succeeds v l pc (add_thread m gen path pos v l pc)
    unfolding add_thread
    add_thread-Succeeds v l pc lt len =
        add-Succeeds (length m.insts + 1) v l pc lt len (omega (arith, unmarked-le gen v))
