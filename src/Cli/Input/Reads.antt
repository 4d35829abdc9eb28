-- ===== src/Cli/Input/Reads.antt =====
-- Errors, and files that read files.
use googlesqlite.Base.{
  not-true, not-false, Try, done, Try-cases, true_not_false, ℕ, zero, suc, ◌≤◌, ◌<◌, ◌≡◌, refl, sym,
  ◌∙◌, Option, none, some, Bool, true, false, not, ◌&&◌, ◌||◌, List, [], ◌∷◌, ◌++◌, inl, inr, arith,
  Bool-cases, Option-cases,
}
use googlesqlite.Functions.Split.{split_list}
use googlesqlite.Cli.Script.{split_statements, split_complete, trim_space}
use googlesqlite.Cli.Session.{Session, Result, Env, has_error, run_statement, handle_dot, is_empty}
use googlesqlite.Cli.Input.{
  is_dot, any_error, run_all, run_tail, run_lines, source_file, run_input, after,
}

-- No result is an error but the last one.
abbrev pub StopsAtError : {E D : Type 0} → List (Result E D) → Type 0
StopsAtError [] = Unit
StopsAtError (r ∷ []) = Unit
StopsAtError (r ∷ q ∷ rs) = (has_error r ≡ false) × StopsAtError (q ∷ rs)

or_false : (a b : Bool) → (a || b) ≡ false → (a ≡ false) × (b ≡ false)
or_false true b e = absurd (true_not_false e)
or_false false b e = (refl, e)

and_false : (a b : Bool) → b ≡ true → (a && b) ≡ false → a ≡ false
and_false true b t e = absurd (true_not_false (sym t ∙ e))
and_false false b t e = refl

StopsAtError-cons :
    {E D : Type 0}
    → (r : Result E D) (rs : List (Result E D)) → has_error r ≡ false
    → StopsAtError rs
    → StopsAtError (r ∷ rs)
StopsAtError-cons r [] e h = tt
StopsAtError-cons r (q ∷ rs) e h = (e, h)

StopsAtError-append :
    {E D : Type 0}
    → (a b : List (Result E D)) → any_error a ≡ false
    → StopsAtError b
    → StopsAtError (a ++ b)
unfolding any_error
StopsAtError-append [] b e h = h
StopsAtError-append (r ∷ a) b e h =
    let (first, others) = or_false (has_error r) (any_error a) e in
    StopsAtError-cons r (a ++ b) first (StopsAtError-append a b others h)

module _ {W E D : Type 0} (env : Env W E D) where
  -- The files that the lines read by `.read` have a rank below `n`.
  abbrev pub ReadsBelow : (List ℕ → ℕ) → ℕ → List (List ℕ) → Type 0
  ReadsBelow rank n [] = Unit
  ReadsBelow rank n (line ∷ lines) =
      ((s : Session W E D) (c : ℕ) (path : List ℕ)
        → (handle_dot env s line).1.read_path ≡ c ∷ path
        → rank (c ∷ path) < n)
      × ReadsBelow rank n lines

  ReadsBelow-mono :
      (rank : List ℕ → ℕ) (m n : ℕ) (lines : List (List ℕ))
      → m ≤ n
      → ReadsBelow rank m lines
      → ReadsBelow rank n lines
  ReadsBelow-mono rank m n [] le h = tt
  ReadsBelow-mono rank m n (line ∷ lines) le (h, hs) =
      (λ s c path e. let below = h s c path e in omega arith, ReadsBelow-mono rank m n lines le hs)

module _ {W E D : Type 0} (env : Env W E D) (stop : Bool) where
  run_all-StopsAtError :
      (s : Session W E D) (stmts : List (List ℕ))
      → stop ≡ true
      → StopsAtError (run_all env stop s stmts).1
        × ((run_all env stop s stmts).2 ≡ true → any_error (run_all env stop s stmts).1 ≡ false)
  unfolding run_all any_error
  run_all-StopsAtError s [] on = (tt, λ e. refl)
  run_all-StopsAtError s (x ∷ xs) on =
      let (s', res) = run_statement env s x in
      let (stops, clean) = run_all-StopsAtError s' xs on in
      elim (Bool-cases (has_error res && stop)) [
        | inl t ↦ rw (t, run_all) (tt, λ e. absurd (true_not_false (sym e)))
        | inr f ↦
            let first = and_false (has_error res) stop on f in
            rw (f, run_all)
              (
                StopsAtError-cons res (run_all env stop s' xs).1 first stops,
                λ e. rw (first, clean e) refl,
              )
      ]

  -- A run that ends, and stops at an error.
  abbrev Ends : Option (Session W E D × List (Result E D)) → Type 0
  Ends o =
      (s : Session W E D) × (rs : List (Result E D)) × (o ≡ some (s, rs))
      × (stop ≡ true → StopsAtError rs)

  -- The same of a file that is read, which is reported whether it has no error.
  abbrev FileEnds : Option (Session W E D × List (Result E D) × Bool) → Type 0
  FileEnds o =
      (s : Session W E D) × (rs : List (Result E D)) × (ok : Bool) × (o ≡ some (s, rs, ok))
      × (stop ≡ true → StopsAtError rs)
      × (ok ≡ true → any_error rs ≡ false)

  after-Ends :
      (rs : List (Result E D)) (o : Option (Session W E D × List (Result E D)))
      → (stop ≡ true → any_error rs ≡ false)
      → Ends o
      → Ends (after rs o)
  unfolding after
  after-Ends rs o clean (s, more, e, stops) =
      (s, rs ++ more, rw e refl, λ on. StopsAtError-append rs more (clean on) (stops on))

  text-Ends :
      (s : Session W E D) (rs : List (Result E D)) (go_on : Bool)
      (rest : Option (Session W E D × List (Result E D)))
      → (stop ≡ true → StopsAtError rs × (go_on ≡ true → any_error rs ≡ false))
      → Ends rest
      → Ends (elim go_on [ true ↦ after rs rest | false ↦ some (s, rs) ])
  text-Ends s rs true rest stops ends = after-Ends rs rest (λ on. (stops on).1 refl) ends
  text-Ends s rs false rest stops ends = (s, rs, refl, λ on. (stops on).0)

  file-Ends :
      (o : Option (Session W E D × List (Result E D) × Bool))
      (rest : Session W E D → Option (Session W E D × List (Result E D)))
      → FileEnds o
      → ((s : Session W E D) → Ends (rest s))
      → Ends (elim o [
        | none ↦ none
        | some (s, rs, ok) ↦ elim (not ok && stop) [
          | true ↦ some (s, rs)
          | false ↦ after rs (rest s)
        ]
      ])
  file-Ends o rest (s, rs, ok, e, stops, clean) ends = elim (Bool-cases (not ok && stop)) [
    | inl t ↦ rw (e, t) (s, rs, refl, stops)
    | inr f ↦
        rw (e, f)
          (after-Ends rs (rest s) (λ on. clean (not-false ok (and_false (not ok) stop on f)))
            (ends s))
  ]

  dot-Ends :
      (s : Session W E D) (quit : Bool) (read_path : List ℕ)
      (rest : Session W E D → Option (Session W E D × List (Result E D)))
      (source : List ℕ → Option (Session W E D × List (Result E D) × Bool))
      → ((c : ℕ) (path : List ℕ) → read_path ≡ c ∷ path → FileEnds (source (c ∷ path)))
      → ((s : Session W E D) → Ends (rest s))
      → Ends (elim quit [
        | true ↦ some (s, [])
        | false ↦ elim read_path [
          | [] ↦ rest s
          | c ∷ path ↦ elim (source (c ∷ path)) [
            | none ↦ none
            | some (s'', rs, ok) ↦ elim (not ok && stop) [
              | true ↦ some (s'', rs)
              | false ↦ after rs (rest s'')
            ]
          ]
        ]
      ])
  dot-Ends s true read_path rest source files ends = (s, [], refl, λ on. tt)
  dot-Ends s false [] rest source files ends = ends s
  dot-Ends s false (c ∷ path) rest source files ends =
      file-Ends (source (c ∷ path)) rest (files c path refl) ends

  run_tail-Ends : (s : Session W E D) (buf : List ℕ) → Ends (some (run_tail env stop s buf))
  unfolding run_tail
  run_tail-Ends s buf = elim (Bool-cases (is_empty (trim_space env.is_space buf))) [
    | inl t ↦ rw (t, run_tail) (s, [], refl, λ on. tt)
    | inr f ↦
        let stmts = split_statements env.is_space (trim_space env.is_space buf) in
        let o = run_all env stop s stmts in
        rw (f, run_tail) (o.0, o.1, refl, λ on. (run_all-StopsAtError s stmts on).0)
  ]

  run_lines-Ends :
      (rank : List ℕ → ℕ) (n : ℕ)
      (source : Session W E D → List ℕ → Option (Session W E D × List (Result E D) × Bool))
      → ((s : Session W E D) (path : List ℕ) → rank path < n → FileEnds (source s path))
      → (s : Session W E D) (buf : List ℕ) (lines : List (List ℕ)) → ReadsBelow env rank n lines
      → Ends (run_lines env stop source s buf lines)
  unfolding run_lines
  run_lines-Ends rank n source files s buf [] h = run_tail-Ends s buf
  run_lines-Ends rank n source files s buf (line ∷ lines) (h, hs) =
      elim (Bool-cases (is_dot env.is_space buf line)) [
        | inl t ↦
            let (s', dot) = handle_dot env s line in
            let rest =
              λ (s'' : Session W E D). run_lines-Ends rank n source files s'' buf lines hs in
            rw (t, run_lines)
              (dot-Ends s' dot.quit dot.read_path (λ s''. run_lines env stop source s'' buf lines)
                (source s') (λ c path e. files s' (c ∷ path) (h s c path e)) rest)
        | inr f ↦
            let (complete, remainder) = split_complete env.is_space (buf ++ (line ++ b'\n' ∷ [])) in
            let (s', rs, go_on) = run_all env stop s complete in
            rw (f, run_lines)
              (text-Ends s' rs go_on (run_lines env stop source s' remainder lines)
                (run_all-StopsAtError s complete)
                (run_lines-Ends rank n source files s' remainder lines hs))
      ]

  source_file-FileEnds :
      (run : Session W E D → List ℕ → Option (Session W E D × List (Result E D)))
      (s : Session W E D) (path : List ℕ)
      → ((f : List ℕ → Try E (List ℕ)) (content : List ℕ)
          → env.read_file ≡ some f
          → f path ≡ done content
          → Ends (run s content))
      → FileEnds (source_file env run s path)
  unfolding source_file any_error
  source_file-FileEnds run s path h = elim (Option-cases env.read_file) [
    | inl e ↦ rw (e, source_file) (_, [], false, refl, (λ on. tt), λ on. refl)
    | inr (f, e) ↦ elim (Try-cases (f path)) [
      | inl (x, failure) ↦ rw (e, source_file, failure) (_, [], false, refl, (λ on. tt), λ on. refl)
      | inr (content, found) ↦
          let (s', rs, ends, stops) = h f content e found in
          rw (e, source_file, found, ends)
            (s', rs, not (any_error rs), refl, stops, not-true (any_error rs))
    ]
  ]

-- The lines of a file, as RunInput splits them.
abbrev pub lines : List ℕ → List (List ℕ)
lines text = split_list (b'\n' ∷ []) text

-- The files are ranked: a file reads only files of a lower rank.
abbrev pub Ranked : {W E D : Type 0} → Env W E D → (List ℕ → ℕ) → Type 0
Ranked {E = E} env rank =
    (f : List ℕ → Try E (List ℕ)) (path content : List ℕ)
    → env.read_file ≡ some f
    → f path ≡ done content
    → ReadsBelow env rank (rank path) (lines content)

run_input-Ends :
    {W E D : Type 0}
    → (env : Env W E D) (stop : Bool) (rank : List ℕ → ℕ) → Ranked env rank
    → (n : ℕ) (s : Session W E D) (text : List ℕ) → ReadsBelow env rank n (lines text)
    → Ends env stop (run_input env (suc n) stop s text)
unfolding run_input
run_input-Ends env stop rank files zero s text h =
    run_lines-Ends env stop rank zero (source_file env (run_input env zero stop))
      (λ s' path below. absurd (omega arith)) s [] (lines text) h
run_input-Ends env stop rank files (suc n) s text h =
    run_lines-Ends env stop rank (suc n) (source_file env (run_input env (suc n) stop))
      (λ s' path below.
        source_file-FileEnds env stop (run_input env (suc n) stop) s' path (λ f content e found.
          run_input-Ends env stop rank files n s' content (
            ReadsBelow-mono env rank (rank path) n (lines content) (omega arith)
              (files f path content e found))))
      s [] (lines text) h

-- If the files are ranked, and every file that `.read` names in a file has a lower rank than it, then
-- a text that reads only files of a rank below n is run to its end with the fuel n + 1, whatever the
-- database does.
pub run_input-some :
    {W E D : Type 0}
    → (env : Env W E D) (stop : Bool) (rank : List ℕ → ℕ) → Ranked env rank
    → (n : ℕ) (s : Session W E D) (text : List ℕ) → ReadsBelow env rank n (lines text)
    → (s' : Session W E D) × (rs : List (Result E D)) × (run_input env (suc n) stop s text
        ≡ some (s', rs))
run_input-some env stop rank files n s text h =
    let (s', rs, e, _) = run_input-Ends env stop rank files n s text h in (s', rs, e)

-- If, moreover, stopOnError is on, the run ends and no result but the last one is an error, the
-- results of the files that are read included.
pub run_input-StopsAtError :
    {W E D : Type 0}
    → (env : Env W E D) (rank : List ℕ → ℕ) → Ranked env rank
    → (n : ℕ) (s : Session W E D) (text : List ℕ) → ReadsBelow env rank n (lines text)
    → (s' : Session W E D) × (rs : List (Result E D)) × (run_input env (suc n) true s text
        ≡ some (s', rs))
      × StopsAtError rs
run_input-StopsAtError env rank files n s text h =
    let (s', rs, e, stops) = run_input-Ends env true rank files n s text h in
    (s', rs, e, stops refl)
