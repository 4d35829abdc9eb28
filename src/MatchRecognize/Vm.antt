-- ===== src/MatchRecognize/Vm.antt =====
-- `mrVM` of internal/match_recognize.go: the virtual machine that runs the compiled pattern from
-- one row, its threads in priority order and at most one thread for each instruction.
-- `none` is an index out of range, or fuel that ran out; `Vm/Total` shows that neither happens.
pub mod Accept
pub mod Sound
pub mod Closure
pub mod Rounds
pub mod Total
use googlesqlite.Base.{
  ℕ, zero, suc, ◌+◌, ◌*◌, ◌%◌, ◌^◌, Option, none, some, Bool, true, false, List, [], ◌∷◌, ◌++◌, ltb,
  ◌==◌, if◌then◌else◌, length, get_elem?, set, replicate,
}
use googlesqlite.MatchRecognize.Pattern.{
  Inst, op_var, op_split, op_jmp, op_start, op_end, op_match, Code,
}

-- What the machine reads of `matchRecognizeWindow` and its `mrProgram`: the code, the number of
-- variables, the mode, the predicate bits (`nv` for each row) and the number of rows.
pub record Machine : Type 0 where
  pub insts : Code
  pub nv : ℕ
  pub longest : Bool
  pub bits : List Bool
  pub n : ℕ

-- `mrThread`; the linked `mrPath` is the list of its variables, the latest first.
pub record Thread : Type 0 where
  pub pc : ℕ
  pub path : List ℕ

abbrev pub thread : ℕ → List ℕ → Thread
thread pc path = record { pc = pc; path = path }

-- The part of `mrVM` that outlives a run: the stamps of the instructions, and the current stamp.
pub record Marks : Type 0 where
  pub visited : List ℕ
  pub gen : ℕ

abbrev pub gen_mod : ℕ
gen_mod = 2 ^ 32

-- `nextGen`: at the wrap-around of the 32-bit stamp the table is cleared.
unfoldable pub next_gen : Marks → Marks
next_gen k =
    let g = (k.gen + 1) % gen_mod in
    if g == 0
    then record { visited = replicate (length k.visited) 0; gen = 1 }
    else record { visited = k.visited; gen = g }

-- What `add` returns: the stamps, and the thread list.
pub record Added : Type 0 where
  pub visited : List ℕ
  pub threads : List Thread

abbrev pub added : List ℕ → List Thread → Added
added v l = record { visited = v; threads = l }

-- The best match so far: its end and its path.
abbrev pub Best : Type 0
Best = Option (ℕ × List ℕ)

-- The case `mrOpMatch` under `longest`: a later end replaces the best.
unfoldable pub keep_longest : ℕ → List ℕ → Best → Best
keep_longest pos path none = some (pos, path)
keep_longest pos path (some (e, q)) = if ltb e pos then some (pos, path) else some (e, q)

-- The state of the loop over `clist`.
pub record Round : Type 0 where
  pub visited : List ℕ
  pub nlist : List Thread
  pub best : Best

abbrev pub round : List ℕ → List Thread → Best → Round
round v l b = record { visited = v; nlist = l; best = b }

module _ (m : Machine) where
  -- The switch of `add` at a fresh instruction; `rec` is the recursive call with the same path.
  unfoldable pub expand :
      (rec : List ℕ → List Thread → ℕ → Option Added) (path : List ℕ) (pos : ℕ)
      → Inst
      → ℕ
      → List ℕ
      → List Thread
      → Option Added
  expand rec path pos (op_jmp x) pc v l = rec v l x
  expand rec path pos (op_split x y) pc v l = elim (rec v l x) [
    | none ↦ none
    | some a ↦ rec a.visited a.threads y
  ]
  expand rec path pos op_start pc v l = if pos == 0 then rec v l (pc + 1) else some (added v l)
  expand rec path pos op_end pc v l = if pos == m.n then rec v l (pc + 1) else some (added v l)
  expand rec path pos (op_var x) pc v l = some (added v (l ++ thread pc path ∷ []))
  expand rec path pos op_match pc v l = some (added v (l ++ thread pc path ∷ []))

  -- `add`, by the depth of its recursion.
  unfoldable pub add :
      ℕ → (gen : ℕ) (path : List ℕ) (pos : ℕ) → List ℕ → List Thread → ℕ → Option Added
  unfolding expand
  add zero gen path pos v l pc = none
  add (suc f) gen path pos v l pc = elim (get_elem? v pc) [
    | none ↦ none
    | some g ↦ elim (g == gen) [
      | true ↦ some (added v l)
      | false ↦ elim (get_elem? m.insts pc) [
        | none ↦ none
        | some i ↦ expand (λ v' l' pc'. add f gen path pos v' l' pc') path pos i pc (set v pc gen) l
      ]
    ]
  ]

  -- The recursion goes no deeper than there are instructions.
  unfoldable pub add_thread :
      (gen : ℕ) (path : List ℕ) (pos : ℕ) → List ℕ → List Thread → ℕ → Option Added
  unfolding add
  add_thread gen path pos v l pc = add (length m.insts + 1) gen path pos v l pc

  -- `for _, th := range vm.clist`, at the instruction of the first thread; `rest` is the rest of
  -- the loop. Without `longest` a match ends the loop.
  unfoldable pub step :
      (rest : Round → Option Round) (gen pos : ℕ) → Inst → Thread → Round → Option Round
  unfolding add_thread keep_longest
  step rest gen pos op_match th r =
      if m.longest
      then rest (round r.visited r.nlist (keep_longest pos th.path r.best))
      else some (round r.visited r.nlist (some (pos, th.path)))
  step rest gen pos (op_var x) th r =
      if ltb pos m.n
      then (elim (get_elem? m.bits (pos * m.nv + x)) [
        | none ↦ none
        | some b ↦ elim b [
          | true ↦ elim (add_thread gen (x ∷ th.path) (pos + 1) r.visited r.nlist (th.pc + 1)) [
            | none ↦ none
            | some a ↦ rest (round a.visited a.threads r.best)
          ]
          | false ↦ rest r
        ]
      ])
      else rest r
  step rest gen pos _ th r = rest r

  unfoldable pub scan : (gen pos : ℕ) → List Thread → Round → Option Round
  unfolding step
  scan gen pos [] r = some r
  scan gen pos (th ∷ ths) r = elim (get_elem? m.insts th.pc) [
    | none ↦ none
    | some i ↦ step (λ r'. scan gen pos ths r') gen pos i th r
  ]

  -- `for pos := start; len(vm.clist) != 0; pos++`.
  unfoldable pub run_loop : ℕ → (pos : ℕ) → Marks → List Thread → Best → Option (Marks × Best)
  unfolding scan next_gen
  run_loop fuel pos k [] best = some (k, best)
  run_loop zero pos k (th ∷ ths) best = none
  run_loop (suc fuel) pos k (th ∷ ths) best =
      let k' = next_gen k in
      elim (scan k'.gen pos (th ∷ ths) (round k'.visited [] best)) [
        | none ↦ none
        | some r ↦
            run_loop fuel (pos + 1) (record { visited = r.visited; gen = k'.gen }) r.nlist r.best
      ]

  -- `run`. Past the last row no thread goes on, so there are at most n + 2 rounds.
  unfoldable pub run : (start : ℕ) → Marks → Option (Marks × Best)
  unfolding run_loop
  run start k =
      let k' = next_gen k in
      elim (add_thread k'.gen [] start k'.visited [] 0) [
        | none ↦ none
        | some a ↦
            run_loop (m.n + 2) start (record { visited = a.visited; gen = k'.gen }) a.threads none
      ]
