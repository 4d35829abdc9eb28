-- ===== src/Cli/Input.antt =====
-- internal/cli/command.go: RunInput and the files that it reads.
pub mod Blank
pub mod Statements
pub mod Reads
use googlesqlite.Base.{
  Try, failed, done, ℕ, zero, suc, ◌+◌, ◌-◌, Option, none, some, Bool, true, false, not, ◌&&◌, ◌||◌,
  List, [], ◌∷◌, ◌++◌, ◌==◌, if◌then◌else◌, length, take,
}
use googlesqlite.Functions.Split.{split_list}
use googlesqlite.Functions.Split.Join.{join}
use googlesqlite.Functions.Trim.{trim_left}
use googlesqlite.Cli.Script.{
  starts, trim_space, ends_with_group, keyword_from, split_statements, split_complete,
}
use googlesqlite.Cli.Session.{
  Session, Result, Env, Message, DotResult, read_not_supported, read_error, is_empty, has_error,
  say, handle_dot, run_statement,
}

unfoldable pub any_error : {E D : Type 0} → List (Result E D) → Bool
unfolding has_error
any_error [] = false
any_error (r ∷ rs) = has_error r || any_error rs

-- Whether a line is a dot-command.
abbrev pub is_dot : (ℕ → Bool) → List ℕ → List ℕ → Bool
is_dot is_space buf line = is_empty buf && starts b'.' (trim_space is_space line)

module _ {W E D : Type 0} where
  -- The results so far, in front of those of the rest.
  unfoldable pub after :
      List (Result E D)
      → Option (Session W E D × List (Result E D))
      → Option (Session W E D × List (Result E D))
  after rs none = none
  after rs (some (s, more)) = some (s, rs ++ more)

module _ {W E D : Type 0} (env : Env W E D) where
  -- The statements in their order, up to the first error if `stop` is on: the results, and whether to
  -- go on.
  unfoldable pub run_all :
      (stop : Bool) → Session W E D → List (List ℕ) → Session W E D × List (Result E D) × Bool
  unfolding run_statement has_error
  run_all stop s [] = (s, [], true)
  run_all stop s (stmt ∷ stmts) =
      let (s', res) = run_statement env s stmt in
      let (s'', rest, go_on) = run_all stop s' stmts in
      if has_error res && stop then (s', res ∷ [], false) else (s'', res ∷ rest, go_on)

  abbrev Source : Type 0
  Source = Session W E D → List ℕ → Option (Session W E D × List (Result E D) × Bool)

  -- The end of `RunInput`: the trailing statement.
  unfoldable pub run_tail :
      (stop : Bool) → Session W E D → List ℕ → Session W E D × List (Result E D)
  unfolding run_all split_statements
  run_tail stop s buf =
      let tail = trim_space env.is_space buf in
      if is_empty tail
      then (s, [])
      else let (s', rs, go_on) = run_all stop s (split_statements env.is_space tail) in (s', rs)

  -- The loop of `RunInput`, with the buffer.
  unfoldable pub run_lines :
      (stop : Bool)
      → Source
      → Session W E D
      → (buf : List ℕ) → List (List ℕ)
      → Option (Session W E D × List (Result E D))
  unfolding run_tail handle_dot split_complete run_all after
  run_lines stop source s buf [] = some (run_tail stop s buf)
  run_lines stop source s buf (line ∷ lines) = elim (is_dot env.is_space buf line) [
    | true ↦
        let (s', dot) = handle_dot env s line in
        elim dot.quit [
          | true ↦ some (s', [])
          | false ↦ elim dot.read_path [
            | [] ↦ run_lines stop source s' buf lines
            | c ∷ path ↦ elim (source s' (c ∷ path)) [
              | none ↦ none
              | some (s'', rs, ok) ↦ elim (not ok && stop) [
                | true ↦ some (s'', rs)
                | false ↦ after rs (run_lines stop source s'' buf lines)
              ]
            ]
          ]
        ]
    | false ↦
        let (complete, remainder) = split_complete env.is_space (buf ++ (line ++ b'\n' ∷ [])) in
        let (s', rs, go_on) = run_all stop s complete in
        elim go_on [
          | true ↦ after rs (run_lines stop source s' remainder lines)
          | false ↦ some (s', rs)
        ]
  ]

  -- `sourceFile`, with what runs the content.
  unfoldable pub source_file :
      (Session W E D → List ℕ → Option (Session W E D × List (Result E D))) → Source
  unfolding say any_error
  source_file run s path = elim env.read_file [
    | none ↦ some (say s (read_not_supported ∷ []), [], false)
    | some f ↦ elim (f path) [
      | failed e ↦ some (say s (read_error e ∷ []), [], false)
      | done content ↦ elim (run s content) [
        | none ↦ none
        | some (s', rs) ↦ some (s', rs, not (any_error rs))
      ]
    ]
  ]

  -- `RunInput`: the fuel is how deep the files may read each other.
  unfoldable pub run_input :
      (fuel : ℕ)
      → (stop : Bool) → Session W E D
      → List ℕ
      → Option (Session W E D × List (Result E D))
  unfolding run_lines source_file split_list
  run_input zero stop s text = none
  run_input (suc n) stop s text =
      run_lines stop (source_file (run_input n stop)) s [] (split_list (b'\n' ∷ []) text)
