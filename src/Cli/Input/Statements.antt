-- ===== src/Cli/Input/Statements.antt =====
-- Running a script without dot-commands, line by line, against running its statements.
use googlesqlite.Base.{
  append_assoc, append_nil, ℕ, zero, suc, ◌≡◌, refl, sym, ◌∙◌, ap, Option, some, Bool, true, false,
  ◌&&◌, List, [], ◌∷◌, ◌++◌, inl, inr, Bool-cases, suc,
}
use googlesqlite.Functions.Split.{split_list}
use googlesqlite.Functions.Split.Join.{join, join-split_list, split_on-cons}
use googlesqlite.Functions.Trim.{trim_func}
use googlesqlite.Functions.Trim.Ends.{All}
use googlesqlite.Cli.Script.{content_from, flush, split_statements, split_complete}
use googlesqlite.Cli.Session.{run_statement, has_error, Session, Result, Env}
use googlesqlite.Cli.Input.{source_file, after, run_tail, run_all, run_lines, run_input, is_dot}
use googlesqlite.Cli.Input.Blank.{
  Spaces, Kept, split_from-Blank_text, trim-All, split_complete-more,
}

-- A script without dot-commands whose remainders are kept, from a line on; it ends blank.
abbrev pub Plain : (ℕ → Bool) → (buf : List ℕ) → List (List ℕ) → Type 0
Plain is_space buf [] = All is_space buf
Plain is_space buf (line ∷ lines) =
    let t = buf ++ (line ++ b'\n' ∷ []) in
    (is_dot is_space buf line ≡ false)
    × Kept is_space t
    × Plain is_space (split_complete is_space t).1 lines

-- The lines of a script with their newlines.
abbrev lines_of : List (List ℕ) → List ℕ
lines_of [] = []
lines_of (line ∷ lines) = (line ++ b'\n' ∷ []) ++ lines_of lines

module _ {W E D : Type 0} (env : Env W E D) where
  abbrev pub Outcome : Type 0
  Outcome = Session W E D × List (Result E D) × Bool

  -- Going on behind a sequence of statements.
  abbrev continue : Outcome → (Session W E D → Outcome) → Outcome
  continue (s, rs, true) f = let (s', more, go_on) = f s in (s', rs ++ more, go_on)
  continue (s, rs, false) f = (s, rs, false)

  abbrev in_front : Result E D → Outcome → Outcome
  in_front r (s, rs, go_on) = (s, r ∷ rs, go_on)

  in_front-continue :
      (r : Result E D) (o : Outcome) (f : Session W E D → Outcome)
      → in_front r (continue o f) ≡ continue (in_front r o) f
  in_front-continue r (s, rs, true) f = refl
  in_front-continue r (s, rs, false) f = refl

  -- The session and the results.
  abbrev pub outcome : Outcome → Session W E D × List (Result E D)
  outcome (s, rs, go_on) = (s, rs)

  after-continue :
      (o : Outcome) (rest : Session W E D → Option (Session W E D × List (Result E D)))
      → (f : Session W E D → Outcome) → ((s : Session W E D) → rest s ≡ some (outcome (f s)))
      → (let (s, rs, go_on) = o in elim go_on [ true ↦ after rs (rest s) | false ↦ some (s, rs) ])
        ≡ some (outcome (continue o f))
  unfolding after
  after-continue (s, rs, true) rest f h = rw (h s) refl
  after-continue (s, rs, false) rest f h = refl

  run_all-append :
      (stop : Bool) (s : Session W E D) (a b : List (List ℕ))
      → run_all env stop s (a ++ b) ≡ continue (run_all env stop s a) (λ s'. run_all env stop s' b)
  unfolding run_all
  run_all-append stop s [] b = refl
  run_all-append stop s (x ∷ a) b =
      let (s', res) = run_statement env s x in
      elim (Bool-cases (has_error res && stop)) [
        | inl t ↦ rw (t, run_all) refl
        | inr f ↦
            rw (f, run_all)
              (ap (λ (o : Outcome). in_front res o) (run_all-append stop s' a b)
                ∙ in_front-continue res (run_all env stop s' a) (λ s''. run_all env stop s'' b))
      ]

  run_lines-Plain :
      (stop : Bool) (source : Session W E D → List ℕ → Option Outcome) (s : Session W E D)
      (buf : List ℕ) (lines : List (List ℕ))
      → Spaces env.is_space
      → Plain env.is_space buf lines
      → run_lines env stop source s buf lines
        ≡ some
            (outcome (run_all env stop s (split_statements env.is_space (buf ++ lines_of lines))))
  unfolding run_lines run_tail split_statements flush trim_func content_from run_all
  run_lines-Plain stop source s buf [] spaces blank =
      let none_left : split_statements env.is_space (buf ++ []) ≡ [] =
        split_from-Blank_text env.is_space buf [] spaces blank in
      rw (none_left, trim-All env.is_space buf blank, run_tail) refl
  run_lines-Plain stop source s buf (line ∷ lines) spaces (no_dot, kept, plain) =
      let t = buf ++ (line ++ b'\n' ∷ []) in
      let (complete, remainder) = split_complete env.is_space t in
      let whole : split_statements env.is_space (buf ++ ((line ++ b'\n' ∷ []) ++ lines_of lines))
          ≡ complete ++ split_statements env.is_space (remainder ++ lines_of lines) =
        ap (λ (l : List ℕ). split_statements env.is_space l)
          (sym (append_assoc buf (line ++ b'\n' ∷ []) (lines_of lines)))
        ∙ split_complete-more env.is_space t (lines_of lines) spaces kept in
      rw (no_dot, run_lines, whole)
        (after-continue (run_all env stop s complete)
            (λ s'. run_lines env stop source s' remainder lines)
            (λ s'.
              run_all env stop s' (split_statements env.is_space (remainder ++ lines_of lines)))
            (λ s'. run_lines-Plain stop source s' remainder lines spaces plain)
          ∙ ap (λ (o : Outcome). some (outcome o)) (sym (run_all-append stop s complete _)))

join-lines_of :
    (q : List ℕ) (qs : List (List ℕ)) → lines_of (q ∷ qs) ≡ join (b'\n' ∷ []) (q ∷ qs) ++ b'\n' ∷ []
unfolding join
join-lines_of q [] = append_nil (q ++ b'\n' ∷ [])
join-lines_of q (r ∷ qs) =
    append_assoc q (b'\n' ∷ []) (lines_of (r ∷ qs))
    ∙ ap (λ (l : List ℕ). q ++ b'\n' ∷ l) (join-lines_of r qs)
    ∙ sym (append_assoc q (b'\n' ∷ join (b'\n' ∷ []) (r ∷ qs)) (b'\n' ∷ []))

lines_of-split_list : (text : List ℕ) → lines_of (split_list (b'\n' ∷ []) text) ≡ text ++ b'\n' ∷ []
unfolding split_list
lines_of-split_list [] = refl
lines_of-split_list (c ∷ s) =
    let (q, qs, e) = split_on-cons (b'\n' ∷ []) zero [] (c ∷ s) in
    rw e (join-lines_of q qs)
    ∙ ap (λ (l : List ℕ). l ++ b'\n' ∷ [])
        (ap (λ (l : List (List ℕ)). join (b'\n' ∷ []) l) (sym e)
          ∙ join-split_list (b'\n' ∷ []) (c ∷ s))

-- A script that has no dot-commands, in which what is behind the last top-level semicolon after each
-- line is blank or the remainder that SplitComplete gives back, and that ends blank, is run by
-- RunInput exactly as the statements that SplitStatements makes of the whole text are run one by one
-- up to the first error, whatever the database does.
pub run_input-run_all :
    {W E D : Type 0}
    → (env : Env W E D) (fuel : ℕ) (stop : Bool) (s : Session W E D) (text : List ℕ)
    → Spaces env.is_space
    → Plain env.is_space [] (split_list (b'\n' ∷ []) text)
    → run_input env (suc fuel) stop s text
      ≡ some (outcome env (run_all env stop s (split_statements env.is_space (text ++ b'\n' ∷ []))))
unfolding run_input
run_input-run_all env fuel stop s text spaces plain = rw (sym (lines_of-split_list text)) (
    run_lines-Plain env stop (source_file env (run_input env fuel stop)) s []
      (split_list (b'\n' ∷ []) text) spaces plain)
