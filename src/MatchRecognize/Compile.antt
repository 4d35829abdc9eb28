-- ===== src/MatchRecognize/Compile.antt =====
-- `mrCompiler` and `mrCompile` of internal/match_recognize.go: the state is the list of the
-- instructions that have been emitted.
pub mod Patch
pub mod Layout
pub mod Builds
pub mod Compiled
use googlesqlite.Base.{
  ℕ, zero, suc, ◌+◌, ◌-◌, Option, none, some, Bool, ◌||◌, List, [], ◌∷◌, ◌++◌, ltb, leb,
  if◌then◌else◌, length, get_elem?, set,
}
use googlesqlite.Base.Int.{pos, negsuc}
use googlesqlite.MatchRecognize.Pattern.{
  Pattern, Patterns, variable, empty, start, end, unknown, cat, alt, quantifier, nil, cons, Arg,
  null, arg, Inst, op_var, op_split, op_jmp, op_start, op_end, op_match, too_large, null_bound,
  bad_bound, negative_bound, upper_below_lower, unknown_node, panic, Result, ok, err, ◌>>=◌, Code,
}

-- `mrMaxProgram`, 1 << 18.
abbrev pub max_program : ℕ
max_program = 262144

-- `emit`: the new code, unless the program is full. The new instruction's index is the old length.
unfoldable pub emit : Inst → Code → Result Code
emit i code = if leb max_program (length code) then err too_large else ok (code ++ i ∷ [])

-- `boundValue`: `none` for an absent bound.
unfoldable pub bound_value : List Arg → ℕ → Result (Option ℕ)
bound_value bounds zero = ok none
bound_value bounds (suc idx) = elim (get_elem? bounds idx) [
  | none ↦ err panic
  | some b ↦ elim b [
    | null ↦ err null_bound
    | arg i _ ↦ elim i [
      | none ↦ err bad_bound
      | some z ↦ elim z [ pos n ↦ ok (some n) | negsuc n ↦ err negative_bound ]
    ]
  ]
]

-- `c.insts[at].x = x` and `c.insts[at].y = y`.
unfoldable pub with_x : ℕ → Inst → Inst
with_x x (op_split a b) = op_split x b
with_x x (op_jmp a) = op_jmp x
with_x x i = i

unfoldable pub with_y : ℕ → Inst → Inst
with_y y (op_split a b) = op_split a y
with_y y i = i

unfoldable pub patch : (Inst → Inst) → ℕ → Code → Code
patch f at code = elim (get_elem? code at) [ none ↦ code | some i ↦ set code at (f i) ]

-- `for _, j := range jumps { c.insts[j].x = len(c.insts) }`.
unfoldable pub patch_jumps : List ℕ → ℕ → Code → Code
patch_jumps [] target code = code
patch_jumps (j ∷ js) target code = patch_jumps js target (patch (with_x target) j code)

-- `setSplit`.
unfoldable pub set_split : ℕ → ℕ → ℕ → Bool → Code → Code
set_split at body exit reluctant code =
    patch (λ i. if reluctant then with_y body (with_x exit i) else with_y exit (with_x body i)) at
      code

unfoldable pub set_splits : List ℕ → ℕ → Bool → Code → Code
set_splits [] exit reluctant code = code
set_splits (s ∷ ss) exit reluctant code =
    set_splits ss exit reluctant (set_split s (s + 1) exit reluctant code)

-- `for i := 0; i < lo; i++ { c.compile(body) }`.
unfoldable pub times : ℕ → (Code → Result Code) → Code → Result Code
times zero body code = ok code
times (suc n) body code = do c ← body code; times n body c

-- `for i := lo; i < hi; i++ { emit split; compile body }`, and the splits in order.
unfoldable pub options : ℕ → (Code → Result Code) → Code → Result (Code × List ℕ)
options zero body code = ok (code, [])
options (suc n) body code = do
  c ← emit (op_split 0 0) code
  c' ← body c
  rest ← options n body c'
  ok (rest.0, length code ∷ rest.1)

-- The loop of a quantifier with no upper bound.
unfoldable pub star : Bool → (Code → Result Code) → Code → Result Code
star reluctant body code = do
  c ← emit (op_split 0 0) code
  c' ← body c
  c'' ← emit (op_jmp (length code)) c'
  ok (set_split (length code) (length code + 1) (length c'') reluctant c'')

-- The checks of a quantifier's bounds.
unfoldable pub check_bounds : ℕ → Option ℕ → Result (ℕ × Option ℕ)
check_bounds lo none = if ltb max_program lo then err too_large else ok (lo, none)
check_bounds lo (some hi) =
    if ltb hi lo
    then err upper_below_lower
    else if ltb max_program lo || ltb max_program hi
    then err too_large
    else ok (lo, some hi)

-- An absent lower bound is 0.
unfoldable pub lower : Option ℕ → ℕ
lower none = 0
lower (some n) = n

-- The code of a quantifier once its bounds are known.
unfoldable pub quantify : Bool → (Code → Result Code) → ℕ × Option ℕ → Code → Result Code
quantify reluctant body (lo, none) code = do c ← times lo body code; star reluctant body c
quantify reluctant body (lo, some hi) code = do
  c ← times lo body code
  rest ← options (hi - lo) body c
  ok (set_splits rest.1 (length rest.0) reluctant rest.0)

-- `compile`; the jumps of an `alt` are the list that `compile_alt` returns.
unfoldable mutual
  pub compile : List Arg → Pattern → Code → Result Code
  compile bs (variable v) code = emit (op_var v) code
  compile bs empty code = ok code
  compile bs start code = emit op_start code
  compile bs end code = emit op_end code
  compile bs unknown code = err unknown_node
  compile bs (cat ps) code = compile_cat bs ps code
  compile bs (alt ps) code = do r ← compile_alt bs ps code; ok (patch_jumps r.1 (length r.0) r.0)
  compile bs (quantifier p lo hi reluctant) code = do
    l ← bound_value bs lo
    h ← bound_value bs hi
    range ← check_bounds (lower l) h
    quantify reluctant (compile bs p) range code

  pub compile_cat : List Arg → Patterns → Code → Result Code
  compile_cat bs nil code = ok code
  compile_cat bs (cons p ps) code = do c ← compile bs p code; compile_cat bs ps c

  pub compile_alt : List Arg → Patterns → Code → Result (Code × List ℕ)
  compile_alt bs nil code = ok (code, [])
  compile_alt bs (cons p nil) code = do c ← compile bs p code; ok (c, [])
  compile_alt bs (cons p (cons q qs)) code = do
    c ← emit (op_split 0 0) code
    c' ← compile bs p (patch (with_x (length code + 1)) (length code) c)
    c'' ← emit (op_jmp 0) c'
    r ← compile_alt bs (cons q qs) (patch (with_y (length c'')) (length code) c'')
    ok (r.0, length c' ∷ r.1)

-- `mrCompile`.
unfoldable pub compile_pattern : List Arg → Pattern → Result Code
unfolding compile
compile_pattern bs p = do c ← compile bs p []; emit op_match c
