-- ===== src/MatchRecognize/Vm/Total.antt =====
-- `run` ends on a well-formed program, and finds a match wherever the code has one.
use googlesqlite.Base.{
  ℕ, zero, suc, ◌+◌, ◌%◌, ◌≤◌, ◌<◌, ◌≡◌, refl, sym, ◌∙◌, subst, ◌⊎◌, inl, inr, Option, none, some,
  List, [], ◌∷◌, arith, ◌==◌, Bool-cases, length, get_elem?, replicate, length-replicate,
}
use googlesqlite.MatchRecognize.Vm.{
  Machine, Thread, Added, Round, round, Best, Marks, gen_mod, next_gen, run_loop, run,
}
use googlesqlite.MatchRecognize.Vm.Accept.{Accepts}
use googlesqlite.MatchRecognize.Vm.Closure.{
  Marked, Waits, AllBelow, IsWellFormed, Grows, add_thread-Succeeds,
}
use googlesqlite.MatchRecognize.Vm.Rounds.{
  Covers, Leads, IsClosed, Grows-IsClosed, Accepts-Waits, Scanned, Follows, scan-Outcome,
}

-- No stamp is later than the current one, which fits in 32 bits.
pub record IsFresh (len : ℕ) (k : Marks) : Type 0 where
  pub sized : length k.visited ≡ len
  pub past : (q g : ℕ) → get_elem? k.visited q ≡ some g → g ≤ k.gen
  pub fits : k.gen < gen_mod

get_elem?-replicate : (n q a g : ℕ) → get_elem? (replicate n a) q ≡ some g → g ≡ a
get_elem?-replicate zero q a g e = cc
get_elem?-replicate (suc n) zero a g e = cc
get_elem?-replicate (suc n) (suc q) a g e = get_elem?-replicate n q a g e

-- If no stamp is later than the current one and that fits in 32 bits, then the same holds after
-- `nextGen`, at the wrap-around too, and no instruction has the new current stamp.
pub next_gen-IsFresh :
    (len : ℕ) (k : Marks)
    → IsFresh len k
    → IsFresh len (next_gen k) × ((q : ℕ) → Marked (next_gen k).gen (next_gen k).visited q → ⊥)
unfolding next_gen
next_gen-IsFresh len k f = elim (Bool-cases ((k.gen + 1) % gen_mod == 0)) [
  | inl t ↦ rw t (
    record {
      sized = length-replicate (length k.visited) 0 ∙ f.sized;
      past = λ q g e. omega (arith, get_elem?-replicate (length k.visited) q 0 g e);
      fits = omega arith;
    },
    λ q e. omega (arith, get_elem?-replicate (length k.visited) q 0 1 e),
  )
  | inr t ↦
      let next : (k.gen + 1) % gen_mod ≡ k.gen + 1 = ground (arith, f.fits) in
      rw t (
        record {
          sized = f.sized;
          past = λ q g e. omega (arith, f.past q g e, next);
          fits = omega (arith, f.fits);
        },
        λ q e. omega (arith, f.past q _ e, next),
      )
]

Grows-IsFresh :
    (m : Machine) (len gen pos : ℕ) (v : List ℕ) (l : List Thread) (v' : List ℕ) (l' : List Thread)
    → IsFresh len (record { visited = v; gen = gen })
    → Grows m gen pos v l v' l'
    → IsFresh len (record { visited = v'; gen = gen })
Grows-IsFresh m len gen pos v l v' l' f g = record {
  sized = g.same_length ∙ f.sized;
  past = λ q h e. past q h (g.old q h e);
  fits = f.fits;
}
  where
    past : (q h : ℕ) → (h ≡ gen) ⊎ (get_elem? v q ≡ some h) → h ≤ gen
    past q h (inl e) = omega arith
    past q h (inr e) = f.past q h e

module _ (m : Machine) (wf : IsWellFormed m) where
  abbrev Finished : (pos : ℕ) → List Thread → Best → Option (Marks × Best) → Type 0
  Finished pos ths b o =
      (r : Marks × Best) × (o ≡ some r)
      × IsFresh (length m.insts) r.0
      × ((e : ℕ) → Covers m b e → Covers m r.1 e)
      × ((q e : ℕ) → Waits q ths → Leads m pos q e → Covers m r.1 e)

  -- Stamps of which none is current make any empty list closed.
  IsClosed-fresh :
      (gen pos : ℕ) (v : List ℕ) → ((q : ℕ) → Marked gen v q → ⊥) → IsClosed m gen pos v []
  IsClosed-fresh gen pos v h = record { all_settled = λ q k. absurd (h q k); below = tt }

  run_loop_finishes :
      (fuel pos : ℕ) (k : Marks) (ths : List Thread) (b : Best)
      → IsFresh (length m.insts) k
      → AllBelow (length m.insts) ths
      → (pos ≤ m.n) ⊎ (ths ≡ [])
      → m.n + 2 ≤ fuel + pos
      → Finished pos ths b (run_loop m fuel pos k ths b)
  unfolding run_loop
  run_loop_finishes fuel pos k [] b f a at h = ((k, b), refl, f, λ e c. c, λ q e w. absurd w)
  run_loop_finishes zero pos k (th ∷ ths) b f a (inl at) h = absurd (omega arith)
  run_loop_finishes zero pos k (th ∷ ths) b f a (inr at) h = cc
  run_loop_finishes (suc fuel) pos k (th ∷ ths) b f a at h =
      let (f', unmarked) = next_gen-IsFresh (length m.insts) k f in
      let (r, p, s, follow) =
        scan-Outcome m (next_gen k).gen pos wf (th ∷ ths) (round (next_gen k).visited [] b) a
          f'.sized in
      let closed : IsClosed m (next_gen k).gen (pos + 1) r.visited r.nlist =
        Grows-IsClosed m (next_gen k).gen (pos + 1)
          (IsClosed-fresh (next_gen k).gen (pos + 1) (next_gen k).visited unmarked) s.grows in
      subst (λ o. Finished pos (th ∷ ths) b (resume o)) (sym p)
        (settle r s follow closed (
          run_loop_finishes fuel (pos + 1) (marks r) r.nlist r.best
            (Grows-IsFresh m _ (next_gen k).gen (pos + 1) _ _ _ _ f' s.grows) closed.below
            (more r s.idle) (omega arith)))
    where
      marks : Round → Marks
      marks r = record { visited = r.visited; gen = (next_gen k).gen }

      resume : Option Round → Option (Marks × Best)
      resume o = elim o [
        | none ↦ none
        | some r ↦ run_loop m fuel (pos + 1) (marks r) r.nlist r.best
      ]

      more : (r : Round) → (pos < m.n) ⊎ (r.nlist ≡ []) → (pos + 1 ≤ m.n) ⊎ (r.nlist ≡ [])
      more r (inl lt) = inl (omega arith)
      more r (inr e) = inr e

      settle :
          (r : Round)
          → Scanned m (next_gen k).gen pos (round (next_gen k).visited [] b) r
          → ((q e : ℕ) → Waits q (th ∷ ths) → Leads m pos q e → Follows m (next_gen k).gen pos r e)
          → IsClosed m (next_gen k).gen (pos + 1) r.visited r.nlist
          → Finished (pos + 1) r.nlist r.best (run_loop m fuel (pos + 1) (marks r) r.nlist r.best)
          → Finished pos (th ∷ ths) b (run_loop m fuel (pos + 1) (marks r) r.nlist r.best)
      settle r s follow closed (o, q, fresh, covers, leads) =
          (o, q, fresh, λ e c. covers e (s.covers e c), λ q' e w l. reach e (follow q' e w l))
        where
          reach : (e : ℕ) → Follows m (next_gen k).gen pos r e → Covers m o.1 e
          reach e (inl c) = covers e c
          reach e (inr (q', vs, mark, acc)) =
              let (q'', w, l) =
                Accepts-Waits m (next_gen k).gen r.visited r.nlist closed mark acc in
              leads q'' e w l

  -- On a well-formed program a run from a row of the partition, or from its end, ends without a panic
  -- and keeps the stamps fresh, it reports a match if the code has an execution from that row, and in
  -- longest mode no execution from there ends later than the match.
  pub run_finishes :
      (start : ℕ) (k : Marks)
      → IsFresh (length m.insts) k
      → start ≤ m.n
      → (r : Marks × Best) × (run m start k ≡ some r)
        × IsFresh (length m.insts) r.0
        × ((vs : List ℕ) (e : ℕ) → Accepts m 0 start vs e → Covers m r.1 e)
  unfolding run
  run_finishes start k f h =
      let (f', unmarked) = next_gen-IsFresh (length m.insts) k f in
      let (a, p, g, mark) =
        add_thread-Succeeds m (next_gen k).gen start wf [] (next_gen k).visited [] 0 wf.nonempty
          f'.sized in
      let closed : IsClosed m (next_gen k).gen start a.visited a.threads =
        Grows-IsClosed m (next_gen k).gen start
          (IsClosed-fresh (next_gen k).gen start (next_gen k).visited unmarked) g in
      let (r, q, fresh, _, leads) =
        run_loop_finishes (m.n + 2) start (marks a) a.threads none
          (Grows-IsFresh m _ (next_gen k).gen start _ _ _ _ f' g) closed.below (inl h)
          (omega arith) in
      (
        r,
        subst (λ o. resume o ≡ some r) (sym p) q,
        fresh,
        λ vs e acc.
            let (q', w, l) = Accepts-Waits m (next_gen k).gen a.visited a.threads closed mark acc in
            leads q' e w l,
      )
    where
      marks : Added → Marks
      marks a = record { visited = a.visited; gen = (next_gen k).gen }

      resume : Option Added → Option (Marks × Best)
      resume o = elim o [
        | none ↦ none
        | some a ↦ run_loop m (m.n + 2) start (marks a) a.threads none
      ]
