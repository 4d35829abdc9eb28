-- ===== src/MatchRecognize/Tests.antt =====
-- Runs of internal/match_recognize.go: the pattern `A B{1,}` over a partition of two rows.
use googlesqlite.Base.{
  ℕ, zero, suc, ◌≤◌, ◌≡◌, refl, ◌↔◌, none, some, Bool, true, false, List, [], ◌∷◌, arith, get_elem?,
  replicate,
}
use googlesqlite.Base.Int.{pos}
use googlesqlite.MatchRecognize.Pattern.{
  Pattern, variable, cat, quantifier, nil, cons, Arg, arg, op_var, op_split, op_jmp, op_match, ok,
  Code,
}
use googlesqlite.MatchRecognize.Compile.{
  compile_pattern, compile, emit, bound_value, with_x, with_y, patch, set_split, times, star,
  check_bounds, lower, quantify,
}
use googlesqlite.MatchRecognize.Vm.{Machine, Marks, Best, run}
use googlesqlite.MatchRecognize.Vm.Accept.{Accepts}
use googlesqlite.MatchRecognize.Vm.Sound.{run-Accepts}
use googlesqlite.MatchRecognize.Vm.Closure.{IsWellFormed}
use googlesqlite.MatchRecognize.Vm.Rounds.{Covers}
use googlesqlite.MatchRecognize.Vm.Total.{IsFresh, run_finishes}
use googlesqlite.MatchRecognize.Window.{
  Spec, Program, Results, Window, new_window, compute, machine, step, prepare, collect, truthy,
  truthy_all,
}
use googlesqlite.MatchRecognize.Window.Correct.{IsComplete, compute-IsComplete}
use googlesqlite.MatchRecognize.Window.Collected.{is_true, bits_of, feed}
use googlesqlite.MatchRecognize.Window.Partition.{IsRight, partition-IsRight}
use googlesqlite.MatchRecognize.Meaning.{Means}
use googlesqlite.MatchRecognize.Meaning.Exact.{compile_pattern-exact}
use googlesqlite.MatchRecognize.Meaning.Range.{VarsBelow, compile_pattern-IsWellFormed}

abbrev ab : Pattern
ab = cat (cons (variable 0) (cons (quantifier (variable 1) 1 0 false) nil))

abbrev one : Arg
one = arg (some (pos 1)) none

abbrev bool : Bool → Arg
bool b = arg none (some b)

abbrev ab_code : Code
ab_code = op_var 0 ∷ op_var 1 ∷ op_split 3 5 ∷ op_var 1 ∷ op_jmp 2 ∷ op_match ∷ []

abbrev ab_bits : List Bool
ab_bits = true ∷ false ∷ false ∷ true ∷ []

abbrev ab_machine : Machine
ab_machine = record { insts = ab_code; nv = 2; longest = false; bits = ab_bits; n = 2 }

abbrev ab_spec : Spec
ab_spec = record { pattern = ab; skip = 0; nb = 1; nv = 2 }

abbrev first_row : List Arg
first_row = bool false ∷ one ∷ bool true ∷ bool false ∷ []

abbrev second_row : List Arg
second_row = bool false ∷ one ∷ bool false ∷ bool true ∷ []

abbrev ab_window : Window
ab_window = record {
  pid = 7;
  prog = some (record { insts = ab_code; skip = 0; nv = 2; nb = 1 });
  longest = false;
  bits = ab_bits;
  n = 2;
  inverses = 0;
  results = [];
  computed = false;
}

abbrev ab_marks : Marks
ab_marks = record { visited = 0 ∷ 0 ∷ 0 ∷ 0 ∷ 0 ∷ 0 ∷ []; gen = 0 }

ab_compiled : compile_pattern (one ∷ []) ab ≡ ok ab_code
unfolding compile_pattern compile emit bound_value with_x with_y patch set_split times star
    check_bounds lower quantify
ab_compiled = refl

ab-VarsBelow : VarsBelow 2 ab
unfolding VarsBelow
ab-VarsBelow = (omega arith, (omega arith, tt))

ab_fed : feed (some ab_spec) (first_row ∷ second_row ∷ []) (new_window 7) ≡ ok ab_window
unfolding feed new_window step prepare collect truthy truthy_all compile_pattern compile emit
    bound_value with_x with_y patch set_split times star check_bounds lower quantify
ab_fed = refl

ab_machine-IsWellFormed : IsWellFormed ab_machine
ab_machine-IsWellFormed =
    compile_pattern-IsWellFormed ab_machine (one ∷ []) ab ab_compiled ab-VarsBelow refl

zeros : (n q g : ℕ) → get_elem? (replicate n 0) q ≡ some g → g ≤ 0
zeros zero q g e = cc
zeros (suc n) zero g e = ground arith
zeros (suc n) (suc q) g e = zeros n q g e

ab_marks-IsFresh : IsFresh 6 ab_marks
ab_marks-IsFresh = record { sized = refl; past = λ q g e. zeros 6 q g e; fits = omega arith }

partition-IsRight_example :
    (p : Program) × (rs : Results) × (ab_window.prog ≡ some p)
    × (compute (machine p ab_window) p.skip ≡ some rs)
    × let m : Machine = record {
      insts = p.insts;
      nv = 2;
      longest = is_true (bool false);
      bits = bits_of 1 (first_row ∷ second_row ∷ []);
      n = 2;
    } in
      (machine p ab_window ≡ m) × IsRight m (one ∷ []) ab 0 rs
partition-IsRight_example =
    partition-IsRight ab_spec 7 (bool false) (one ∷ bool true ∷ bool false ∷ []) (second_row ∷ [])
      ab_window ab-VarsBelow (refl, (refl, tt)) ab_fed

compile_pattern-exact_example :
    Accepts ab_machine 0 0 (0 ∷ 1 ∷ []) 2 ↔ Means ab_machine (one ∷ []) ab 0 (0 ∷ 1 ∷ []) 2
compile_pattern-exact_example =
    compile_pattern-exact ab_machine (one ∷ []) ab ab_compiled 0 (0 ∷ 1 ∷ []) 2

compute-IsComplete_example :
    (rs : Results) × (compute ab_machine 0 ≡ some rs) × IsComplete ab_machine 0 rs
compute-IsComplete_example = compute-IsComplete ab_machine ab_machine-IsWellFormed 0

run_finishes_example :
    (r : Marks × Best) × (run ab_machine 0 ab_marks ≡ some r)
    × IsFresh 6 r.0
    × ((vs : List ℕ) (e : ℕ) → Accepts ab_machine 0 0 vs e → Covers ab_machine r.1 e)
run_finishes_example =
    run_finishes ab_machine ab_machine-IsWellFormed 0 ab_marks ab_marks-IsFresh (omega arith)

ab_run :
    run ab_machine 0 ab_marks
    ≡ some (record { visited = 1 ∷ 2 ∷ 3 ∷ 3 ∷ 0 ∷ 3 ∷ []; gen = 4 }, some (2, 1 ∷ 0 ∷ []))
unfolding run
ab_run = refl

run-Accepts_example : Accepts ab_machine 0 0 (0 ∷ 1 ∷ []) 2
run-Accepts_example =
    run-Accepts ab_machine 0 ab_marks (record { visited = 1 ∷ 2 ∷ 3 ∷ 3 ∷ 0 ∷ 3 ∷ []; gen = 4 }) 2
      (1 ∷ 0 ∷ []) ab_run

compile_pattern-IsWellFormed_example : IsWellFormed ab_machine
compile_pattern-IsWellFormed_example =
    compile_pattern-IsWellFormed ab_machine (one ∷ []) ab ab_compiled ab-VarsBelow refl
