-- ===== src/MatchRecognize/Vm/Rounds.antt =====
-- One round of `run`: the loop over `clist` ends, and no execution that goes on from a waiting
-- thread is lost, unless the match that it leads to is already covered by the best one.
use googlesqlite.Base.{
  ℕ, ◌+◌, ◌*◌, ◌≤◌, ◌<◌, ◌≡◌, refl, sym, ◌∙◌, ap, subst, ◌⊎◌, inl, inr, Option, none, some, Bool,
  true, false, List, [], ◌∷◌, arith, ltb, ltb→lt, if◌then◌else◌, Bool-cases, length, get_elem?,
  get_elem?-some,
}
use googlesqlite.MatchRecognize.Pattern.{Inst, op_var, op_split, op_jmp, op_start, op_end, op_match}
use googlesqlite.MatchRecognize.Vm.{
  Machine, Thread, Added, Round, round, Best, add_thread, keep_longest, step, scan,
}
use googlesqlite.MatchRecognize.Vm.Accept.{
  Accepts, here, take, jump, split_x, split_y, at_start, at_end,
}
use googlesqlite.MatchRecognize.Vm.Closure.{
  Marked, Waits, AllBelow, IsWellFormed, IsSettled, Settled-Grows, Grows, Grows-refl, Grows-trans,
  add_thread-Succeeds,
}

module _ (m : Machine) where
  -- The best match is as good as one that ends at `e`: it exists, and under `longest` it ends no
  -- earlier.
  abbrev pub Covers : Best → ℕ → Type 0
  Covers b e = (b' : ℕ × List ℕ) × (b ≡ some b') × (m.longest ≡ true → e ≤ b'.0)

  -- The instruction at `q` is a match at `e`, or consumes row `pos` on the way to one.
  abbrev pub Leads : ℕ → ℕ → ℕ → Type 0
  Leads pos q e =
      ((get_elem? m.insts q ≡ some op_match) × (e ≡ pos))
      ⊎ ((v : ℕ) × (get_elem? m.insts q ≡ some (op_var v))
          × (pos < m.n)
          × (get_elem? m.bits (pos * m.nv + v) ≡ some true)
          × ((vs : List ℕ) × Accepts m (q + 1) (pos + 1) vs e))

  -- Every stamped instruction is settled, and every thread is at an instruction.
  pub record IsClosed (gen pos : ℕ) (v : List ℕ) (l : List Thread) : Type 0 where
    pub all_settled : (q : ℕ) → Marked gen v q → IsSettled m gen pos q v l
    pub below : AllBelow (length m.insts) l

  pub Grows-IsClosed :
      (gen pos : ℕ) {v : List ℕ} {l : List Thread} {v' : List ℕ} {l' : List Thread}
      → IsClosed gen pos v l
      → Grows m gen pos v l v' l'
      → IsClosed gen pos v' l'
  Grows-IsClosed gen pos {v} {l} {v'} {l'} c g = record {
    all_settled = λ q k. now q (g.settled q k);
    below = g.below c.below;
  }
    where
      now : (q : ℕ) → Marked gen v q ⊎ IsSettled m gen pos q v' l' → IsSettled m gen pos q v' l'
      now q (inl k) = λ i e. Settled-Grows m gen pos i q g (c.all_settled q k i e)
      now q (inr s) = s

  -- In a closed list the execution that goes on from a stamped instruction has a waiting thread.
  pub Accepts-Waits :
      (gen : ℕ) {pos q e : ℕ} {vs : List ℕ} (v : List ℕ) (l : List Thread)
      → IsClosed gen pos v l
      → Marked gen v q
      → Accepts m q pos vs e
      → (q' : ℕ) × Waits q' l × Leads pos q' e
  Accepts-Waits gen {q = q} v l c k (here at nil at_e) = (q, c.all_settled q k _ at, inl (at, at_e))
  Accepts-Waits gen {q = q} v l c k (take x xs at lt bit eq a) =
      (q, c.all_settled q k _ at, inr (x, at, lt, bit, (xs, a)))
  Accepts-Waits gen {q = q} v l c k (jump x at a) =
      Accepts-Waits gen v l c (c.all_settled q k _ at) a
  Accepts-Waits gen {q = q} v l c k (split_x x y at a) =
      Accepts-Waits gen v l c (c.all_settled q k _ at).0 a
  Accepts-Waits gen {q = q} v l c k (split_y x y at a) =
      Accepts-Waits gen v l c (c.all_settled q k _ at).1 a
  Accepts-Waits gen {q = q} v l c k (at_start at z a) =
      Accepts-Waits gen v l c (c.all_settled q k _ at z) a
  Accepts-Waits gen {q = q} v l c k (at_end at z a) =
      Accepts-Waits gen v l c (c.all_settled q k _ at z) a

  Covers-keep_longest :
      (pos : ℕ) (path : List ℕ) (b : Best) (e : ℕ) → Covers b e → Covers (keep_longest pos path b) e
  unfolding keep_longest
  Covers-keep_longest pos path none e (b', p, h) = cc
  Covers-keep_longest pos path (some (d, q)) e (b', p, h) = elim (Bool-cases (ltb d pos)) [
    | inl t ↦ ((pos, path), rw t refl, λ l. omega (arith, h l, same, ltb→lt d pos t))
    | inr f ↦ ((d, q), rw f refl, λ l. omega (arith, h l, same))
  ]
    where
      same : d ≡ b'.0
      same = let pair : ◌≡◌ {A = ℕ × List ℕ} (d, q) b' = cc in ap (λ (x : ℕ × List ℕ). x.0) pair

  keep_longest-Covers : (pos : ℕ) (path : List ℕ) (b : Best) → Covers (keep_longest pos path b) pos
  unfolding keep_longest
  keep_longest-Covers pos path none = ((pos, path), refl, λ _. omega arith)
  keep_longest-Covers pos path (some (e, q)) = elim (Bool-cases (ltb e pos)) [
    | inl t ↦ ((pos, path), rw t refl, λ _. omega arith)
    | inr f ↦ ((e, q), rw f refl, λ _. ground arith)
  ]

  module _ (gen pos : ℕ) where
    -- From the state `r` the loop has come to `r'`.
    pub record Scanned (r r' : Round) : Type 0 where
      pub grows : Grows m gen (pos + 1) r.visited r.nlist r'.visited r'.nlist
      pub covers : (e : ℕ) → Covers r.best e → Covers r'.best e
      pub idle : (pos < m.n) ⊎ (r'.nlist ≡ r.nlist)

    Scanned-trans : {r r' r'' : Round} → Scanned r r' → Scanned r' r'' → Scanned r r''
    Scanned-trans {r} {r'} {r''} a b = record {
      grows = Grows-trans m gen (pos + 1) a.grows b.grows;
      covers = λ e c. b.covers e (a.covers e c);
      idle = both a.idle b.idle;
    }
      where
        both :
            (pos < m.n) ⊎ (r'.nlist ≡ r.nlist)
            → (pos < m.n) ⊎ (r''.nlist ≡ r'.nlist)
            → (pos < m.n) ⊎ (r''.nlist ≡ r.nlist)
        both (inl h) k = inl h
        both (inr p) (inl h) = inl h
        both (inr p) (inr q) = inr (q ∙ p)

    -- The match at `e` is covered, or an execution to it goes on from a stamped instruction.
    abbrev pub Follows : Round → ℕ → Type 0
    Follows r e =
        Covers r.best e
        ⊎ ((q : ℕ) × (vs : List ℕ) × Marked gen r.visited q × Accepts m q (pos + 1) vs e)

    Scanned-Follows : {r r' : Round} (e : ℕ) → Scanned r r' → Follows r e → Follows r' e
    Scanned-Follows e s (inl c) = inl (s.covers e c)
    Scanned-Follows e s (inr (q, vs, k, a)) = inr (q, vs, s.grows.keep q k, a)

    abbrev pub Outcome : List Thread → Round → Option Round → Type 0
    Outcome ths r o =
        (r' : Round) × (o ≡ some r')
        × Scanned r r'
        × ((q e : ℕ) → Waits q ths → Leads pos q e → Follows r' e)

    Outcome-cons :
        (th : Thread) (ths : List Thread) (r r' : Round) (o : Option Round)
        → Scanned r r'
        → ((e : ℕ) → Leads pos th.pc e → Follows r' e)
        → Outcome ths r' o
        → Outcome (th ∷ ths) r o
    Outcome-cons th ths r r' o s lead (r'', p, t, rest) =
        (r'', p, Scanned-trans s t, λ q e w l. at q e w l)
      where
        at : (q e : ℕ) → (th.pc ≡ q) ⊎ Waits q ths → Leads pos q e → Follows r'' e
        at q e (inl same) l = Scanned-Follows e t (lead e (subst (λ k. Leads pos k e) (sym same) l))
        at q e (inr w) l = rest q e w l

    module _ (wf : IsWellFormed m) where
      module _ (ths : List Thread) (rest : Round → Option Round)
          (ih : (r : Round) → length r.visited ≡ length m.insts → Outcome ths r (rest r)) where
        Scanned-best :
            (r : Round) (b : Best)
            → ((e : ℕ) → Covers r.best e → Covers b e)
            → Scanned r (round r.visited r.nlist b)
        Scanned-best r b h = record {
          grows = Grows-refl m gen (pos + 1) _ _;
          covers = h;
          idle = inr refl;
        }

        -- A thread that neither matches nor goes on.
        skipped :
            (th : Thread) (r : Round)
            → length r.visited ≡ length m.insts
            → ((e : ℕ) → Leads pos th.pc e → ⊥)
            → Outcome (th ∷ ths) r (rest r)
        skipped th r len no_lead =
            Outcome-cons th ths r r (rest r) (Scanned-best r r.best (λ e c. c))
              (λ e l. absurd (no_lead e l)) (ih r len)

        -- An instruction that is neither a match nor a variable leads nowhere.
        no_lead :
            (i : Inst) (pc : ℕ)
            → get_elem? m.insts pc ≡ some i
            → (some i ≡ some op_match → ⊥)
            → ((v : ℕ) → some i ≡ some (op_var v) → ⊥)
            → (e : ℕ) → Leads pos pc e
            → ⊥
        no_lead i pc at a b e (inl (p, _)) = a (sym at ∙ p)
        no_lead i pc at a b e (inr (v, p, _, _, _)) = b v (sym at ∙ p)

        match_step :
            (th : Thread) (r : Round)
            → get_elem? m.insts th.pc ≡ some op_match
            → length r.visited ≡ length m.insts
            → Outcome (th ∷ ths) r (step m rest gen pos op_match th r)
        unfolding step
        match_step th r at len = mode m.longest refl
          where
            end_is : (e : ℕ) → Leads pos th.pc e → e ≡ pos
            end_is e (inl (p, q)) = q
            end_is e (inr (v, p, _, _, _)) = cc

            mode :
                (b : Bool)
                → m.longest ≡ b
                → Outcome (th ∷ ths) r (
                    if b
                    then rest (round r.visited r.nlist (keep_longest pos th.path r.best))
                    else some (round r.visited r.nlist (some (pos, th.path))))
            mode true on =
                Outcome-cons th ths r (round r.visited r.nlist (keep_longest pos th.path r.best)) _
                  (Scanned-best r _ (λ e c. Covers-keep_longest pos th.path r.best e c))
                  (λ e l. inl (
                    subst (λ k. Covers (keep_longest pos th.path r.best) k) (sym (end_is e l))
                      (keep_longest-Covers pos th.path r.best)))
                  (ih _ len)
            mode false off = (
              round r.visited r.nlist (some (pos, th.path)),
              refl,
              Scanned-best r _ (λ e c. ((pos, th.path), refl, λ on. cc)),
              λ q e w l. inl ((pos, th.path), refl, λ on. cc),
            )

        var_step :
            (v : ℕ) (th : Thread) (r : Round)
            → get_elem? m.insts th.pc ≡ some (op_var v)
            → length r.visited ≡ length m.insts
            → Outcome (th ∷ ths) r (step m rest gen pos (op_var v) th r)
        unfolding step
        var_step v th r at len = in_range (ltb pos m.n) refl
          where
            open m use {bits, nv, n}

            bit_of :
                (e : ℕ)
                → Leads pos th.pc e
                → (pos < n) × (get_elem? bits (pos * nv + v) ≡ some true)
            bit_of e (inl (p, q)) = cc
            bit_of e (inr (w, p, lt, bit, _)) =
                let same : w ≡ v = cc in
                (lt, subst (λ k. get_elem? bits (pos * nv + k) ≡ some true) same bit)

            resume : Option Added → Option Round
            resume o = elim o [ none ↦ none | some a ↦ rest (round a.visited a.threads r.best) ]

            goes : Option Added
            goes = add_thread m gen (v ∷ th.path) (pos + 1) r.visited r.nlist (th.pc + 1)

            grown : pos < n → Outcome (th ∷ ths) r (resume goes)
            grown lt =
                let (a, p, g, k) =
                  add_thread-Succeeds m gen (pos + 1) wf (v ∷ th.path) r.visited r.nlist (th.pc + 1)
                    (wf.targets th.pc _ at).0 len in
                subst (λ o. Outcome (th ∷ ths) r (resume o)) (sym p)
                  (Outcome-cons th ths r (round a.visited a.threads r.best) _
                    (record { grows = g; covers = λ e c. c; idle = inl lt }) (λ e l. ahead e a k l)
                    (ih _ (g.same_length ∙ len)))
              where
                ahead :
                    (e : ℕ) (a : Added)
                    → Marked gen a.visited (th.pc + 1)
                    → Leads pos th.pc e
                    → Follows (round a.visited a.threads r.best) e
                ahead e a k (inl (p, q)) = cc
                ahead e a k (inr (w, p, lt', bit, (vs, acc))) = inr (th.pc + 1, vs, k, acc)

            with_bit :
                pos < n
                → (b : Bool) → get_elem? bits (pos * nv + v) ≡ some b
                → Outcome (th ∷ ths) r (elim b [ true ↦ resume goes | false ↦ rest r ])
            with_bit lt true e = grown lt
            with_bit lt false e = skipped th r len (λ e' l. let (_, h) = bit_of e' l in cc)

            in_range :
                (b : Bool)
                → ltb pos n ≡ b
                → Outcome (th ∷ ths) r (
                    if b
                    then (elim (get_elem? bits (pos * nv + v)) [
                      | none ↦ none
                      | some b' ↦ elim b' [ true ↦ resume goes | false ↦ rest r ]
                    ])
                    else rest r)
            in_range true t =
                let lt : pos < n = ltb→lt pos n t in
                let (b, e) =
                  get_elem?-some bits (pos * nv + v) (wf.bit pos v lt (wf.targets th.pc _ at).1) in
                rw e (with_bit lt b e)
            in_range false f = skipped th r len (λ e l. ground (arith, (bit_of e l).0))

        step-Outcome :
            (i : Inst) (th : Thread) (r : Round)
            → get_elem? m.insts th.pc ≡ some i
            → length r.visited ≡ length m.insts
            → Outcome (th ∷ ths) r (step m rest gen pos i th r)
        unfolding step
        step-Outcome op_match th r at len = match_step th r at len
        step-Outcome (op_var v) th r at len = var_step v th r at len
        step-Outcome (op_jmp x) th r at len =
            skipped th r len (no_lead _ th.pc at (λ p. cc) (λ v p. cc))
        step-Outcome (op_split x y) th r at len =
            skipped th r len (no_lead _ th.pc at (λ p. cc) (λ v p. cc))
        step-Outcome op_start th r at len =
            skipped th r len (no_lead _ th.pc at (λ p. cc) (λ v p. cc))
        step-Outcome op_end th r at len =
            skipped th r len (no_lead _ th.pc at (λ p. cc) (λ v p. cc))

      -- The loop over `clist` ends, and follows every lead of its threads.
      pub scan-Outcome :
          (ths : List Thread) (r : Round)
          → AllBelow (length m.insts) ths
          → length r.visited ≡ length m.insts
          → Outcome ths r (scan m gen pos ths r)
      unfolding scan
      scan-Outcome [] r b len = (
        r,
        refl,
        record { grows = Grows-refl m gen (pos + 1) _ _; covers = λ e c. c; idle = inr refl },
        λ q e w. absurd w,
      )
      scan-Outcome (th ∷ ths) r b len =
          let (i, at) = get_elem?-some m.insts th.pc b.0 in
          rw (at, scan)
            (step-Outcome ths (λ r'. scan m gen pos ths r')
              (λ r' len'. scan-Outcome ths r' b.1 len') i th r at len)
