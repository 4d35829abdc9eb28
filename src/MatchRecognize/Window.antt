-- ===== src/MatchRecognize/Window.antt =====
-- The window function `matchRecognizeWindow` of internal/match_recognize.go: it collects the
-- predicate bits of a partition, runs the pattern from row to row, and numbers the matches.
pub mod Blocks
pub mod Correct
pub mod Collected
pub mod Partition
use googlesqlite.Base.{
  ℕ, zero, suc, ◌+◌, ◌-◌, Option, none, some, Bool, true, false, not, List, [], ◌∷◌, ◌++◌, ltb, leb,
  ◌==◌, if◌then◌else◌, length, get_elem?, set, take, drop, replicate,
}
use googlesqlite.Base.Int.{ℤ, pos, negsuc}
use googlesqlite.MatchRecognize.Pattern.{
  Pattern, Arg, null, arg, panic, missing_arguments, bad_spec, wrong_count, not_bool, Result, ok,
  err, ◌>>=◌, Code,
}
use googlesqlite.MatchRecognize.Compile.{compile_pattern}
use googlesqlite.MatchRecognize.Vm.{Machine, Marks, run}

-- `mrSpec`: the pattern, the skip mode (1 is SKIP TO NEXT ROW), and the numbers of bound
-- arguments and of variables.
pub record Spec : Type 0 where
  pub pattern : Pattern
  pub skip : ℕ
  pub nb : ℕ
  pub nv : ℕ

-- `mrProgram`.
pub record Program : Type 0 where
  pub insts : Code
  pub skip : ℕ
  pub nv : ℕ
  pub nb : ℕ

-- `mrEntry`: match number, number of the row in the match, and the variable, -1 for none.
pub record Entry : Type 0 where
  pub mn : ℕ
  pub mrn : ℕ
  pub v : ℤ

abbrev pub entry : ℕ → ℕ → ℤ → Entry
entry mn mrn v = record { mn = mn; mrn = mrn; v = v }

abbrev pub Results : Type 0
Results = List (List Entry)

-- `matchRecognizeWindow`.
pub record Window : Type 0 where
  pub pid : ℕ
  pub prog : Option Program
  pub longest : Bool
  pub bits : List Bool
  pub n : ℕ
  pub inverses : ℕ
  pub results : Results
  pub computed : Bool

unfoldable pub new_window : ℕ → Window
new_window pid = record {
  pid = pid;
  prog = none;
  longest = false;
  bits = [];
  n = 0;
  inverses = 0;
  results = [];
  computed = false;
}

-- `mrTruthy`: NULL is false.
unfoldable pub truthy : Arg → Result Bool
truthy null = ok false
truthy (arg i none) = err not_bool
truthy (arg i (some b)) = ok b

unfoldable pub truthy_all : List Arg → Result (List Bool)
truthy_all [] = ok []
truthy_all (a ∷ as') = do b ← truthy a; bs ← truthy_all as'; ok (b ∷ bs)

-- The first call of `Step`, on the arguments behind the pattern's text.
unfoldable pub prepare : Option Spec → Arg → List Arg → Result (Bool × Program)
prepare none l rest = err bad_spec
prepare (some spec) l rest = if not (length rest == spec.nb + spec.nv) then err wrong_count else do
  longest ← truthy l
  code ← compile_pattern (take spec.nb rest) spec.pattern
  ok (longest, record { insts = code; skip = spec.skip; nv = spec.nv; nb = spec.nb })

-- The end of `Step`: the bits of one row. `args[2+nb:]` is out of range if there are too few. An
-- argument that `ConvertArgs` fails on is one whose `ToBool` fails; either error ends the call.
unfoldable pub collect : Bool × Program → List Arg → Window → Result Window
collect (longest, p) rest w = if ltb (length rest) p.nb then err panic else do
  bs ← truthy_all (drop p.nb rest)
  ok (record w {
    prog = some p;
    longest = longest;
    bits = w.bits ++ bs;
    n = w.n + 1;
    computed = false;
  })

-- `Step`. `parsed` is what `mrParseSpec` makes of the first argument; a call that fails ends the
-- query, so the state is not kept then.
unfoldable pub step : Option Spec → List Arg → Window → Result Window
step parsed [] w = err missing_arguments
step parsed (l ∷ rest) w = elim w.prog [
  | none ↦ do p ← prepare parsed l rest; collect p rest w
  | some p ↦ collect (w.longest, p) rest w
]

-- `Inverse`.
unfoldable pub inverse : Window → Window
inverse w = record w { inverses = w.inverses + 1 }

-- `w.results[r] = append(w.results[r], e)`.
unfoldable pub append_entry : ℕ → Entry → Results → Option Results
append_entry r e rs = elim (get_elem? rs r) [
  | none ↦ none
  | some es ↦ some (set rs r (es ++ e ∷ []))
]

-- `for i, v := range vars`, from index `i` on.
unfoldable pub append_vars : (s mn i : ℕ) → List ℕ → Results → Option Results
append_vars s mn i [] rs = some rs
append_vars s mn i (v ∷ vs) rs = elim (append_entry (s + i) (entry mn (i + 1) (pos v)) rs) [
  | none ↦ none
  | some rs' ↦ append_vars s mn (i + 1) vs rs'
]

-- The loop that unrolls `path` into `vars`, from the last row to the first; `none` is a path that
-- is shorter than the match.
unfoldable pub fill : ℕ → List ℕ → List ℕ → Option (List ℕ)
fill zero path vars = some vars
fill (suc i) [] vars = none
fill (suc i) (v ∷ path) vars = fill i path (v ∷ vars)

-- The entries of a match from row `s` to row `e`.
unfoldable pub record_match : (s mn e : ℕ) → List ℕ → Results → Option Results
record_match s mn e path rs =
    if e == s
    then append_entry s (entry mn 0 (negsuc 0)) rs
    else elim (fill (e - s) path []) [ none ↦ none | some vars ↦ append_vars s mn 0 vars rs ]

-- The row that the search goes on from.
unfoldable pub next_row : (skip s e : ℕ) → ℕ
next_row skip s e = if e == s then s + 1 else if skip == 1 then s + 1 else e

-- The loop of `compute`.
unfoldable pub compute_loop : ℕ → Machine → (skip s mn : ℕ) → Marks → Results → Option Results
compute_loop zero m skip s mn k rs = if ltb s m.n then none else some rs
compute_loop (suc fuel) m skip s mn k rs = if leb m.n s then some rs else elim (run m s k) [
  | none ↦ none
  | some (k', b) ↦ elim b [
    | none ↦ compute_loop fuel m skip (s + 1) mn k' rs
    | some (e, path) ↦ elim (record_match s (mn + 1) e path rs) [
      | none ↦ none
      | some rs' ↦ compute_loop fuel m skip (next_row skip s e) (mn + 1) k' rs'
    ]
  ]
]

-- `compute`: the search moves on by a row at least, so `n` rounds are enough.
unfoldable pub compute : Machine → ℕ → Option Results
compute m skip =
    compute_loop m.n m skip 0 0 (record { visited = replicate (length m.insts) 0; gen = 0 })
      (replicate m.n [])

abbrev pub machine : Program → Window → Machine
machine p w = record { insts = p.insts; nv = p.nv; longest = w.longest; bits = w.bits; n = w.n }

-- `Done`: the entries of the current row, which the source writes as a JSON list behind `pid`.
unfoldable pub row_entries : ℕ → Results → Option (List Entry)
row_entries r rs = elim (get_elem? rs r) [
  | none ↦ none
  | some es ↦ elim es [ [] ↦ none | e ∷ es' ↦ some (e ∷ es') ]
]

unfoldable pub done : Window → Result (Option (List Entry) × Window)
done w = elim w.prog [
  | none ↦ ok (none, w)
  | some p ↦ elim w.computed [
    | true ↦ ok (row_entries w.inverses w.results, w)
    | false ↦ elim (compute (machine p w) p.skip) [
      | none ↦ err panic
      | some rs ↦ ok (row_entries w.inverses rs, record w { results = rs; computed = true })
    ]
  ]
]
