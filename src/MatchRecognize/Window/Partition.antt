-- ===== src/MatchRecognize/Window/Partition.antt =====
-- The entries that `Done` reads for the rows of a partition, by the meaning of the pattern.
use googlesqlite.Base.{
  ℕ, suc, ◌+◌, ◌*◌, ◌≤◌, ◌<◌, ◌≡◌, ◌≢◌, sym, ◌∙◌, ap, subst, ◌⊎◌, some, List, [], ◌∷◌, arith,
  length, get_elem?, take,
}
use googlesqlite.Base.Int.{pos, negsuc}
use googlesqlite.MatchRecognize.Pattern.{Pattern, Arg, ok}
use googlesqlite.MatchRecognize.Compile.{compile_pattern}
use googlesqlite.MatchRecognize.Compile.Patch.{>>=-eq-ok}
use googlesqlite.MatchRecognize.Vm.{Machine}
use googlesqlite.MatchRecognize.Vm.Closure.{IsWellFormed}
use googlesqlite.MatchRecognize.Meaning.{Means}
use googlesqlite.MatchRecognize.Meaning.Exact.{compile_pattern-exact}
use googlesqlite.MatchRecognize.Meaning.Range.{VarsBelow, compile_pattern-IsWellFormed}
use googlesqlite.MatchRecognize.Window.{
  Spec, Program, Entry, Results, Window, new_window, step, machine, compute,
}
use googlesqlite.MatchRecognize.Window.Blocks.{row}
use googlesqlite.MatchRecognize.Window.Correct.{AllIn, IsEntryOf, IsComplete, compute-IsComplete}
use googlesqlite.MatchRecognize.Window.Collected.{
  is_true, bits_of, AllSized, feed, Collected, first-Collected, feed-Collected,
}

-- Entry `en` of row `r` by the meaning of the pattern: it belongs to a match of it, the empty one
-- at row `r`, or one in which the row is number `en.mrn` and has the variable `en.v`.
abbrev pub IsMatchEntry : Machine → List Arg → Pattern → ℕ → Entry → Type 0
IsMatchEntry m bs p r en =
    (s : ℕ) × (vs : List ℕ) × (e : ℕ) × Means m bs p s vs e
    × (((vs ≡ []) × (en.mrn ≡ 0) × (en.v ≡ negsuc 0) × (r ≡ s))
        ⊎ ((i : ℕ) × (x : ℕ) × (en.mrn ≡ i + 1)
            × (en.v ≡ pos x)
            × (r ≡ s + i)
            × (get_elem? vs i ≡ some x)))

-- The result of a partition, by the meaning of its pattern.
pub record IsRight (m : Machine) (bs : List Arg) (p : Pattern) (skip : ℕ) (rs : Results)
    : Type 0 where
  pub sized : length rs ≡ m.n
  pub valid : (r : ℕ) → AllIn (IsMatchEntry m bs p r) (row rs r)
  pub once : skip ≢ 1 → (r : ℕ) → length (row rs r) ≤ 1
  pub found : (r : ℕ) (vs : List ℕ) (e : ℕ) → r < m.n → Means m bs p r vs e → row rs r ≢ []

AllIn-map :
    (P Q : Entry → Type 0)
    → ((en : Entry) → P en → Q en)
    → (es : List Entry) → AllIn P es
    → AllIn Q es
AllIn-map P Q f [] h = tt
AllIn-map P Q f (x ∷ es) h = (f x h.0, AllIn-map P Q f es h.1)

IsComplete-IsRight :
    (m : Machine) (bs : List Arg) (p : Pattern) (skip : ℕ) (rs : Results)
    → compile_pattern bs p ≡ ok m.insts
    → IsComplete m skip rs
    → IsRight m bs p skip rs
IsComplete-IsRight m bs p skip rs h c = record {
  sized = c.sized;
  valid = λ r.
      AllIn-map (IsEntryOf m r) (IsMatchEntry m bs p r)
        (λ en (s, vs, e, a, rest). (s, vs, e, (compile_pattern-exact m bs p h s vs e).0 a, rest))
        (row rs r) (c.valid r);
  once = c.once;
  found = λ r vs e lt x. c.found r vs e lt ((compile_pattern-exact m bs p h r vs e).1 x);
}

-- If the rows of a partition have been stepped without an error, with as many arguments each as the
-- pattern has bounds and variables, then the window holds LONGEST as the first row gives it and, for
-- every row and variable, whether its predicate is TRUE; the computation ends without a panic, and its
-- result is right by the meaning of the pattern, with the bounds of the first row, over these
-- predicates: each entry is of a match, each row where a match starts has an entry, and if the search
-- goes on behind each match no row has two.
pub partition-IsRight :
    (spec : Spec) (pid : ℕ) (l : Arg) (rest : List Arg) (rows : List (List Arg)) (w : Window)
    → VarsBelow spec.nv spec.pattern
    → AllSized (suc (spec.nb + spec.nv)) ((l ∷ rest) ∷ rows)
    → feed (some spec) ((l ∷ rest) ∷ rows) (new_window pid) ≡ ok w
    → (p : Program) × (rs : Results) × (w.prog ≡ some p)
      × (compute (machine p w) p.skip ≡ some rs)
      × let m : Machine = record {
        insts = p.insts;
        nv = spec.nv;
        longest = is_true l;
        bits = bits_of spec.nb ((l ∷ rest) ∷ rows);
        n = suc (length rows);
      } in
        (machine p w ≡ m) × IsRight m (take spec.nb rest) spec.pattern spec.skip rs
unfolding feed
partition-IsRight spec pid l rest rows w vars sized h =
    let (w1, e, h1) = >>=-eq-ok (step (some spec) (l ∷ rest) (new_window pid)) _ h in
    let bounds = take spec.nb rest in
    let c : Collected spec (is_true l) bounds ((l ∷ rest) ∷ rows) w =
      feed-Collected spec (is_true l) bounds ((l ∷ rest) ∷ []) rows w1 w sized.1
        (first-Collected spec pid l rest w1 (omega (arith, sized.0)) e) h1 in
    let p : Program = c.program in
    let wf : IsWellFormed (machine p w) =
      compile_pattern-IsWellFormed (machine p w) bounds spec.pattern c.compiled
        (subst (λ k. VarsBelow k spec.pattern) (sym c.nv_is) vars)
        (c.bit_count ∙ ap (λ k. w.n * k) (sym c.nv_is)) in
    let (rs, q, complete) = compute-IsComplete (machine p w) wf p.skip in
    let m : Machine = record {
      insts = p.insts;
      nv = spec.nv;
      longest = is_true l;
      bits = bits_of spec.nb ((l ∷ rest) ∷ rows);
      n = suc (length rows);
    } in
    let e1 = c.nv_is in
    let e2 = c.longest_is in
    let e3 = c.bits_are in
    let e4 = c.row_count in
    let same : machine p w ≡ m = cc in
    (
      p,
      rs,
      c.prog_is,
      q,
      (
        same,
        subst (λ k. IsRight m bounds spec.pattern k rs) c.skip_is
            (subst (λ k. IsRight k bounds spec.pattern p.skip rs) same
              (IsComplete-IsRight (machine p w) bounds spec.pattern p.skip rs c.compiled complete)),
      ),
    )
