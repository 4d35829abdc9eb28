-- ===== src/MatchRecognize/Vm/Sound.antt =====
-- Every match that the machine reports is an execution of the code.
use googlesqlite.Base.{
  ℕ, zero, suc, ◌+◌, ◌*◌, ◌<◌, ◌≡◌, refl, inl, inr, Option, none, some, Bool, true, false, List, [],
  ◌∷◌, ◌++◌, ltb, ◌==◌, if◌then◌else◌, ==_iff, ltb→lt, Bool-cases, Option-cases, length, get_elem?,
}
use googlesqlite.MatchRecognize.Pattern.{Inst, op_var, op_split, op_jmp, op_start, op_end, op_match}
use googlesqlite.MatchRecognize.Vm.{
  Machine, Thread, thread, Added, Round, round, Best, Marks, expand, add, add_thread, keep_longest,
  step, scan, run_loop, run, next_gen,
}
use googlesqlite.MatchRecognize.Vm.Accept.{
  Accepts, here, take, jump, split_x, split_y, at_start, at_end,
}

abbrev All {ℓ} : (Thread → Type ℓ) → List Thread → Type ℓ
All P [] = Unit
All P (t ∷ ts) = P t × All P ts

All-append : (P : Thread → Type 0) (xs ys : List Thread) → All P xs → All P ys → All P (xs ++ ys)
All-append P [] ys h k = k
All-append P (x ∷ xs) ys h k = (h.0, All-append P xs ys h.1 k)

-- `f w` appended to the reversed path `path`.
abbrev pub unwind : List ℕ → List ℕ → List ℕ
unwind [] ws = ws
unwind (v ∷ path) ws = unwind path (v ∷ ws)

module _ (m : Machine) (start : ℕ) where
  -- A thread at `pos` carries a valid prefix: what its instruction accepts, the start accepts.
  abbrev Carries : ℕ → Thread → Type 0
  Carries pos t =
      (vs : List ℕ) (e : ℕ) → Accepts m t.pc pos vs e → Accepts m 0 start (unwind t.path vs) e

  abbrev IsSoundBest : Best → Type 0
  IsSoundBest none = Unit
  IsSoundBest (some (e, path)) = Accepts m 0 start (unwind path []) e

  -- All threads of the result, if there is one.
  abbrev AllAdded : ℕ → Option Added → Type 0
  AllAdded pos none = Unit
  AllAdded pos (some a) = All (Carries pos) a.threads

  module _ (path : List ℕ) (pos : ℕ) where
    abbrev Rec : (List ℕ → List Thread → ℕ → Option Added) → Type 0
    Rec rec =
        (v : List ℕ) (l : List Thread) (pc : ℕ)
        → Carries pos (thread pc path)
        → All (Carries pos) l
        → AllAdded pos (rec v l pc)

    expand-All :
        (rec : List ℕ → List Thread → ℕ → Option Added) (i : Inst) (pc : ℕ) (v : List ℕ)
        (l : List Thread)
        → Rec rec
        → get_elem? m.insts pc ≡ some i
        → Carries pos (thread pc path)
        → All (Carries pos) l
        → AllAdded pos (expand m rec path pos i pc v l)
    unfolding expand
    expand-All rec (op_jmp x) pc v l ih at c h = ih v l x (λ vs e a. c vs e (jump x at a)) h
    expand-All rec (op_split x y) pc v l ih at c h = second (rec v l x) first
      where
        first : AllAdded pos (rec v l x)
        first = ih v l x (λ vs e a. c vs e (split_x x y at a)) h

        second :
            (o : Option Added)
            → AllAdded pos o
            → AllAdded pos (elim o [ none ↦ none | some a ↦ rec a.visited a.threads y ])
        second none k = tt
        second (some a) k = ih a.visited a.threads y (λ vs e b. c vs e (split_y x y at b)) k
    expand-All rec op_start pc v l ih at c h = elim (Bool-cases (pos == 0)) [
      | inl t ↦ rw t (ih v l (pc + 1) (λ vs e a. c vs e (at_start at ((==_iff _ _).0 t) a)) h)
      | inr f ↦ rw f h
    ]
    expand-All rec op_end pc v l ih at c h = elim (Bool-cases (pos == m.n)) [
      | inl t ↦ rw t (ih v l (pc + 1) (λ vs e a. c vs e (at_end at ((==_iff _ _).0 t) a)) h)
      | inr f ↦ rw f h
    ]
    expand-All rec (op_var x) pc v l ih at c h = All-append _ l _ h (c, tt)
    expand-All rec op_match pc v l ih at c h = All-append _ l _ h (c, tt)

    add-All :
        (f gen : ℕ) (v : List ℕ) (l : List Thread) (pc : ℕ)
        → Carries pos (thread pc path)
        → All (Carries pos) l
        → AllAdded pos (add m f gen path pos v l pc)
    unfolding add
    add-All zero gen v l pc c h = tt
    add-All (suc f) gen v l pc c h = elim (Option-cases (get_elem? v pc)) [
      | inl e ↦ rw (e, AllAdded, add) tt
      | inr (g, e) ↦
          rw (e, AllAdded, add)
            (elim (Bool-cases (g == gen)) [
              | inl t ↦ rw (t, AllAdded) h
              | inr t ↦
                  rw (t, AllAdded)
                    (elim (Option-cases (get_elem? m.insts pc)) [
                      | inl e' ↦ rw (e', AllAdded) tt
                      | inr (i, e') ↦
                          rw (e', AllAdded)
                            (expand-All (λ v' l' pc'. add m f gen path pos v' l' pc') i pc _ l
                              (λ v' l' pc'. add-All f gen v' l' pc') e' c h)
                    ])
            ])
    ]

  abbrev AllRound : ℕ → Option Round → Type 0
  AllRound pos none = Unit
  AllRound pos (some r) = All (Carries pos) r.nlist × IsSoundBest r.best

  -- A match of a thread that carries a valid prefix is an execution from the start.
  keep_longest_sound :
      (pos : ℕ) (t : Thread) (b : Best)
      → Accepts m 0 start (unwind t.path []) pos
      → IsSoundBest b
      → IsSoundBest (keep_longest pos t.path b)
  unfolding keep_longest
  keep_longest_sound pos t none a h = a
  keep_longest_sound pos t (some (e, q)) a h = elim (Bool-cases (ltb e pos)) [
    | inl t ↦ rw t a
    | inr f ↦ rw f h
  ]

  module _ (gen pos : ℕ) where
    step-All :
        (rest : Round → Option Round)
        → ((r : Round)
            → All (Carries (pos + 1)) r.nlist
            → IsSoundBest r.best
            → AllRound (pos + 1) (rest r))
        → (i : Inst) (th : Thread) (r : Round) → get_elem? m.insts th.pc ≡ some i
        → Carries pos th
        → All (Carries (pos + 1)) r.nlist
        → IsSoundBest r.best
        → AllRound (pos + 1) (step m rest gen pos i th r)
    unfolding step add_thread
    step-All rest ih op_match th r at c h b = mode m.longest
      where
        won : Accepts m 0 start (unwind th.path []) pos
        won = c [] pos (here at refl refl)

        mode :
            (longest : Bool)
            → AllRound (pos + 1) (
                if longest
                then rest (round r.visited r.nlist (keep_longest pos th.path r.best))
                else some (round r.visited r.nlist (some (pos, th.path))))
        mode true = ih (round _ _ _) h (keep_longest_sound pos th r.best won b)
        mode false = (h, won)
    step-All rest ih (op_var x) th r at c h b = elim (Bool-cases (ltb pos m.n)) [
      | inr f ↦ rw f (ih r h b)
      | inl t ↦ rw t (elim (Option-cases (get_elem? m.bits (pos * m.nv + x))) [
        | inl e ↦ rw e tt
        | inr (true, e) ↦ rw e (go _ (grown (ltb→lt _ _ t) e))
        | inr (false, e) ↦ rw e (ih r h b)
      ])
    ]
      where
        grown :
            (lt : pos < m.n) (bit : get_elem? m.bits (pos * m.nv + x) ≡ some true)
            → AllAdded
                (pos + 1)
                (add_thread m gen (x ∷ th.path) (pos + 1) r.visited r.nlist (th.pc + 1))
        grown lt bit =
            add-All (x ∷ th.path) (pos + 1) (length m.insts + 1) gen r.visited r.nlist (th.pc + 1)
              (λ vs e a. c (x ∷ vs) e (take x vs at lt bit refl a)) h

        go :
            (o : Option Added)
            → AllAdded (pos + 1) o
            → AllRound
                (pos + 1)
                (elim o [ none ↦ none | some a ↦ rest (round a.visited a.threads r.best) ])
        go none k = tt
        go (some a) k = ih (round _ _ _) k b
    step-All rest ih (op_jmp x) th r at c h b = ih r h b
    step-All rest ih (op_split x y) th r at c h b = ih r h b
    step-All rest ih op_start th r at c h b = ih r h b
    step-All rest ih op_end th r at c h b = ih r h b

    scan-All :
        (ths : List Thread) (r : Round)
        → All (Carries pos) ths
        → All (Carries (pos + 1)) r.nlist
        → IsSoundBest r.best
        → AllRound (pos + 1) (scan m gen pos ths r)
    unfolding scan
    scan-All [] r c h b = (h, b)
    scan-All (th ∷ ths) r c h b = at_pc (λ r'. scan-All ths r' c.1) (get_elem? m.insts th.pc) refl
      where
        at_pc :
            ((r' : Round)
              → All (Carries (pos + 1)) r'.nlist
              → IsSoundBest r'.best
              → AllRound (pos + 1) (scan m gen pos ths r'))
            → (o : Option Inst) → get_elem? m.insts th.pc ≡ o
            → AllRound (pos + 1) (elim o [
              | none ↦ none
              | some i ↦ step m (λ r'. scan m gen pos ths r') gen pos i th r
            ])
        at_pc ih none e = tt
        at_pc ih (some i) e = step-All (λ r'. scan m gen pos ths r') ih i th r e c.0 h b

  abbrev IsSoundRun : Option (Marks × Best) → Type 0
  IsSoundRun none = Unit
  IsSoundRun (some (k, b)) = IsSoundBest b

  run_loop_sound :
      (fuel pos : ℕ) (k : Marks) (ths : List Thread) (b : Best)
      → All (Carries pos) ths
      → IsSoundBest b
      → IsSoundRun (run_loop m fuel pos k ths b)
  unfolding run_loop
  run_loop_sound fuel pos k [] b c h = h
  run_loop_sound zero pos k (th ∷ ths) b c h = tt
  run_loop_sound (suc fuel) pos k (th ∷ ths) b c h =
      go (run_loop_sound fuel (pos + 1)) _
        (scan-All (next_gen k).gen pos (th ∷ ths) (round (next_gen k).visited [] b) c tt h)
    where
      go :
          ((k' : Marks) (ths' : List Thread) (b' : Best)
            → All (Carries (pos + 1)) ths'
            → IsSoundBest b'
            → IsSoundRun (run_loop m fuel (pos + 1) k' ths' b'))
          → (o : Option Round) → AllRound (pos + 1) o
          → IsSoundRun (elim o [
            | none ↦ none
            | some r ↦
                run_loop m fuel
                  (pos + 1)
                  (record { visited = r.visited; gen = (next_gen k).gen })
                  r.nlist
                  r.best
          ])
      go ih none k' = tt
      go ih (some r) k' = ih _ r.nlist r.best k'.0 k'.1

  run_sound : (k : Marks) → IsSoundRun (run m start k)
  unfolding run add_thread
  run_sound k =
      go _ (add-All [] start (length m.insts + 1) (next_gen k).gen _ [] 0 (λ vs e a. a) tt)
    where
      go :
          (o : Option Added)
          → AllAdded start o
          → IsSoundRun (elim o [
            | none ↦ none
            | some a ↦
                run_loop m
                  (m.n + 2)
                  start
                  (record { visited = a.visited; gen = (next_gen k).gen })
                  a.threads
                  none
          ])
      go none k' = tt
      go (some a) k' = run_loop_sound (m.n + 2) start _ a.threads none k' tt

-- A match that a run from row `start` reports, up to row `e` with the variables of `path`, is an
-- execution of the code from its first instruction and that row.
pub run-Accepts :
    (m : Machine) (start : ℕ) (k k' : Marks) (e : ℕ) (path : List ℕ)
    → run m start k ≡ some (k', some (e, path))
    → Accepts m 0 start (unwind path []) e
run-Accepts m start k k' e path h = rw h at (run_sound m start k)
