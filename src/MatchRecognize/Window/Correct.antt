-- ===== src/MatchRecognize/Window/Correct.antt =====
-- `compute` ends, what it writes is right, and it misses no match.
use googlesqlite.Base.{
  ℕ, zero, suc, ◌+◌, ◌-◌, ◌≤◌, ◌<◌, ◌≡◌, ◌≢◌, refl, sym, ◌∙◌, ap, subst, ◌⊎◌, inl, inr, Option,
  none, some, false, List, [], ◌∷◌, ◌++◌, arith, ltb, leb, ◌==◌, Bool-cases, length, get_elem?,
  get_elem?-some, replicate, length-replicate,
}
use googlesqlite.Base.Int.{pos, negsuc}
use googlesqlite.MatchRecognize.Vm.{Machine, Marks, Best, run}
use googlesqlite.MatchRecognize.Vm.Accept.{Accepts}
use googlesqlite.MatchRecognize.Vm.Sound.{unwind, run-Accepts}
use googlesqlite.MatchRecognize.Vm.Closure.{IsWellFormed}
use googlesqlite.MatchRecognize.Vm.Rounds.{Covers}
use googlesqlite.MatchRecognize.Vm.Total.{IsFresh, run_finishes}
use googlesqlite.MatchRecognize.Window.{
  Entry, Results, record_match, next_row, compute_loop, compute,
}
use googlesqlite.MatchRecognize.Window.Blocks.{
  row, Accepts-Holds, Holds-end, get_or-some, Block, match_entry, match_rows, record_match-Block,
}

abbrev pub AllIn : (Entry → Type 0) → List Entry → Type 0
AllIn P [] = Unit
AllIn P (e ∷ es) = P e × AllIn P es

AllIn-append :
    (P : Entry → Type 0) (es : List Entry) (e : Entry) → AllIn P es → P e → AllIn P (es ++ e ∷ [])
AllIn-append P [] e h p = (p, tt)
AllIn-append P (x ∷ es) e h p = (h.0, AllIn-append P es e h.1 p)

length-snoc : (es : List Entry) (e : Entry) → es ≡ [] → length (es ++ e ∷ []) ≤ 1
length-snoc es e nil = rw nil (omega arith)

snoc-nonempty : (es : List Entry) (e : Entry) → es ++ e ∷ [] ≢ []
snoc-nonempty [] e p = cc
snoc-nonempty (x ∷ es) e p = cc

-- A row is outside of a block, before it or behind it, or inside.
abbrev Place : (s k r : ℕ) → Type 0
Place s k r = ((r < s) ⊎ (s + k ≤ r)) ⊎ ((s ≤ r) × (r < s + k))

place : (s k r : ℕ) → Place s k r
place s k r = elim (Bool-cases (ltb r s)) [
  | inl t ↦ inl (inl (ground arith))
  | inr f ↦ elim (Bool-cases (leb (s + k) r)) [
    | inl t ↦ inl (inr (ground arith))
    | inr g ↦ inr (ground arith, ground arith)
  ]
]

module _ (m : Machine) where
  -- The entry `en` of row `r` belongs to an execution of the code: the empty match at that row, or
  -- one in which the row is number `en.mrn` and has the variable `en.v`.
  abbrev pub IsEntryOf : ℕ → Entry → Type 0
  IsEntryOf r en =
      (s : ℕ) × (vs : List ℕ) × (e : ℕ) × Accepts m 0 s vs e
      × (((vs ≡ []) × (en.mrn ≡ 0) × (en.v ≡ negsuc 0) × (r ≡ s))
          ⊎ ((i : ℕ) × (x : ℕ) × (en.mrn ≡ i + 1)
              × (en.v ≡ pos x)
              × (r ≡ s + i)
              × (get_elem? vs i ≡ some x)))

  -- The entries that the search has written when it stands at row `s`.
  record Inv (skip s : ℕ) (rs : Results) : Type 0 where
    sized : length rs ≡ m.n
    valid : (r : ℕ) → AllIn (IsEntryOf r) (row rs r)
    ahead : skip ≢ 1 → (r : ℕ) → s ≤ r → row rs r ≡ []
    once : skip ≢ 1 → (r : ℕ) → length (row rs r) ≤ 1
    missed : (r : ℕ) → r < s → row rs r ≡ [] → (vs : List ℕ) (e : ℕ) → Accepts m 0 r vs e → ⊥

  -- What `compute` returns: every entry is of an execution, a row where a match starts has one,
  -- and past the last row of a match the search leaves each row in one match at most.
  pub record IsComplete (skip : ℕ) (rs : Results) : Type 0 where
    pub sized : length rs ≡ m.n
    pub valid : (r : ℕ) → AllIn (IsEntryOf r) (row rs r)
    pub once : skip ≢ 1 → (r : ℕ) → length (row rs r) ≤ 1
    pub found : (r : ℕ) (vs : List ℕ) (e : ℕ) → r < m.n → Accepts m 0 r vs e → row rs r ≢ []

  Inv-skip :
      (skip s : ℕ) (rs : Results)
      → Inv skip s rs
      → ((vs : List ℕ) (e : ℕ) → Accepts m 0 s vs e → ⊥)
      → Inv skip (s + 1) rs
  Inv-skip skip s rs v h = record {
    sized = v.sized;
    valid = v.valid;
    ahead = λ k r lt. v.ahead k r (omega arith);
    once = v.once;
    missed = λ r lt nil vs e a. elim (Bool-cases (r == s)) [
      | inl same ↦
          let at_s : r ≡ s = ground arith in h vs e (subst (λ x. Accepts m 0 x vs e) at_s a)
      | inr other ↦ v.missed r (ground arith) nil vs e a
    ];
  }

  Inv-Block :
      (skip s s' k : ℕ) (f : ℕ → Entry) (rs rs' : Results)
      → Inv skip s rs
      → Block s k f rs rs'
      → ((r : ℕ) → s ≤ r → r < s + k → IsEntryOf r (f r))
      → s' ≤ s + k
      → (skip ≢ 1 → s' ≡ s + k)
      → Inv skip s' rs'
  Inv-Block skip s s' k f rs rs' v b ok le past = record {
    sized = b.sized ∙ v.sized;
    valid = λ r. valid r (place s k r);
    ahead = λ sk r lt.
        let eq : s' ≡ s + k = past sk in
        b.outside r (inr (omega arith)) ∙ v.ahead sk r (omega arith);
    once = λ sk r. once sk r (place s k r);
    missed = λ r lt nil. missed r lt nil (place s k r);
  }
    where
      valid : (r : ℕ) → Place s k r → AllIn (IsEntryOf r) (row rs' r)
      valid r (inl out) = rw (b.outside r out) (v.valid r)
      valid r (inr (lo, hi)) =
          rw (b.inside r lo hi) (AllIn-append _ (row rs r) (f r) (v.valid r) (ok r lo hi))

      once : skip ≢ 1 → (r : ℕ) → Place s k r → length (row rs' r) ≤ 1
      once sk r (inl out) = rw (b.outside r out) (v.once sk r)
      once sk r (inr (lo, hi)) =
          rw (b.inside r lo hi) (length-snoc (row rs r) (f r) (v.ahead sk r lo))

      missed :
          (r : ℕ)
          → r < s'
          → row rs' r ≡ []
          → Place s k r
          → (vs : List ℕ) (e : ℕ) → Accepts m 0 r vs e
          → ⊥
      missed r lt nil (inl (inl before)) = v.missed r before (sym (b.outside r (inl before)) ∙ nil)
      missed r lt nil (inl (inr behind)) = absurd (omega arith)
      missed r lt nil (inr (lo, hi)) =
          absurd (snoc-nonempty (row rs r) (f r) (sym (b.inside r lo hi) ∙ nil))

  -- The entries of a match are of its execution.
  match_entry-IsEntryOf :
      (s mn e r : ℕ) (vs : List ℕ)
      → Accepts m 0 s vs e
      → s ≤ r
      → r < s + match_rows vs
      → IsEntryOf r (match_entry s mn vs r)
  match_entry-IsEntryOf s mn e r [] a lo hi = (s, [], e, a, inl (refl, refl, refl, omega arith))
  match_entry-IsEntryOf s mn e r (v ∷ vs) a lo hi =
      let (x, at) = get_elem?-some (v ∷ vs) (r - s) (omega arith) in
      (
        s,
        v ∷ vs,
        e,
        a,
        inr (r - s, x, refl, ap pos (get_or-some (v ∷ vs) (r - s) 0 x at), omega arith, at),
      )

  next_row-lt : (skip s e : ℕ) → s ≤ e → s < next_row skip s e
  unfolding next_row
  next_row-lt skip s e h = ground arith

  next_row-le : (skip s : ℕ) (vs : List ℕ) → next_row skip s (s + length vs) ≤ s + match_rows vs
  unfolding next_row
  next_row-le skip s [] = ground arith
  next_row-le skip s (v ∷ vs) = ground arith

  next_row-past :
      (skip s : ℕ) (vs : List ℕ) → skip ≢ 1 → next_row skip s (s + length vs) ≡ s + match_rows vs
  unfolding next_row
  next_row-past skip s [] h = ground arith
  next_row-past skip s (v ∷ vs) h = ground arith

  Inv-IsComplete : (skip s : ℕ) (rs : Results) → m.n ≤ s → Inv skip s rs → IsComplete skip rs
  Inv-IsComplete skip s rs h v = record {
    sized = v.sized;
    valid = v.valid;
    once = v.once;
    found = λ r vs e lt a nil. v.missed r (omega arith) nil vs e a;
  }

  module _ (wf : IsWellFormed m) where
    compute_loop-IsComplete :
        (fuel skip s mn : ℕ) (k : Marks) (rs : Results)
        → m.n ≤ fuel + s
        → IsFresh (length m.insts) k
        → Inv skip s rs
        → (rs' : Results) × (compute_loop fuel m skip s mn k rs ≡ some rs') × IsComplete skip rs'
    unfolding compute_loop
    compute_loop-IsComplete zero skip s mn k rs h f v =
        let stop : ltb s m.n ≡ false = ground arith in
        (rs, rw stop refl, Inv-IsComplete skip s rs (omega arith) v)
    compute_loop-IsComplete (suc fuel) skip s mn k rs h f v = elim (Bool-cases (leb m.n s)) [
      | inl t ↦ (rs, rw (t, compute_loop) refl, Inv-IsComplete skip s rs (ground arith) v)
      | inr t ↦
          let lt : s < m.n = ground arith in
          let (r, p, fresh, cover) = run_finishes m wf s k f (omega arith) in
          rw (t, compute_loop)
            (subst (λ o. Goal (after_run o)) (sym p)
              (go lt (compute_loop-IsComplete fuel) r.0 r.1 p fresh cover))
    ]
      where
        Goal : Option Results → Type 0
        Goal o = (rs' : Results) × (o ≡ some rs') × IsComplete skip rs'

        after_match : Marks → ℕ → Option Results → Option Results
        after_match k' e o = elim o [
          | none ↦ none
          | some rs' ↦ compute_loop fuel m skip (next_row skip s e) (mn + 1) k' rs'
        ]

        after_run : Option (Marks × Best) → Option Results
        after_run o = elim o [
          | none ↦ none
          | some (k', b) ↦ elim b [
            | none ↦ compute_loop fuel m skip (s + 1) mn k' rs
            | some (e, path) ↦ after_match k' e (record_match s (mn + 1) e path rs)
          ]
        ]

        go :
            s < m.n
            → ((skip' s' mn' : ℕ) (k' : Marks) (rs' : Results)
                → m.n ≤ fuel + s'
                → IsFresh (length m.insts) k'
                → Inv skip' s' rs'
                → (rs'' : Results) × (compute_loop fuel m skip' s' mn' k' rs' ≡ some rs'')
                  × IsComplete skip' rs'')
            → (k' : Marks) (b : Best) → run m s k ≡ some (k', b)
            → IsFresh (length m.insts) k'
            → ((vs : List ℕ) (e : ℕ) → Accepts m 0 s vs e → Covers m b e)
            → Goal (after_run (some (k', b)))
        go lt ih k' none p fresh cover =
            ih skip (s + 1) mn k' rs (omega arith) fresh
              (Inv-skip skip s rs v (λ vs e a. let (_, nothing, _) = cover vs e a in cc))
        go lt ih k' (some (e, path)) p fresh cover =
            let acc : Accepts m 0 s (unwind path []) e = run-Accepts m s k k' e path p in
            let (holds, ends) = Accepts-Holds acc in
            let fits : e ≤ m.n =
              omega (arith, Holds-end m s (unwind path []) (omega arith) holds) in
            let (rs', q, block) =
              record_match-Block s (mn + 1) e path rs ends (omega (arith, v.sized))
                (omega (arith, v.sized)) in
            subst (λ o. Goal (after_match k' e o)) (sym q)
              (ih skip (next_row skip s e) (mn + 1) k' rs'
                (omega (arith, next_row-lt skip s e (omega arith))) fresh
                (Inv-Block skip s (next_row skip s e) _ _ rs rs' v block
                  (λ r lo hi. match_entry-IsEntryOf s (mn + 1) e r (unwind path []) acc lo hi)
                  (rw ends (next_row-le skip s (unwind path [])))
                  (λ sk. rw ends (next_row-past skip s (unwind path []) sk))))

    row-replicate : (n r : ℕ) → row (replicate n []) r ≡ []
    row-replicate zero r = refl
    row-replicate (suc n) zero = refl
    row-replicate (suc n) (suc r) = row-replicate n r

    get-zeros : (n q g : ℕ) → get_elem? (replicate n 0) q ≡ some g → g ≤ 0
    get-zeros zero q g e = cc
    get-zeros (suc n) zero g e = ground arith
    get-zeros (suc n) (suc q) g e = get-zeros n q g e

    -- On a well-formed program the computation of a partition ends without a panic. Its result has a
    -- list for each row, every entry belongs to an execution of the code, each row where one starts
    -- has an entry, and if the search goes on behind each match no row has two.
    pub compute-IsComplete :
        (skip : ℕ) → (rs : Results) × (compute m skip ≡ some rs) × IsComplete skip rs
    unfolding compute
    compute-IsComplete skip =
        compute_loop-IsComplete m.n skip 0 0 _ _ (omega arith)
          (record {
            sized = length-replicate (length m.insts) 0;
            past = λ q g e. get-zeros (length m.insts) q g e;
            fits = omega arith;
          })
          (record {
            sized = length-replicate m.n [];
            valid = λ r. rw (row-replicate m.n r) tt;
            ahead = λ sk r h. row-replicate m.n r;
            once = λ sk r. rw (row-replicate m.n r) (omega arith);
            missed = λ r lt. absurd (omega arith);
          })
