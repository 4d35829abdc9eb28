-- ===== src/Cli/Tests.antt =====
-- Runs of internal/cli.
use googlesqlite.Base.{
  Try, failed, done, ℕ, suc, ◌≡◌, refl, Option, none, some, Bool, true, false, List, [], ◌∷◌, ◌++◌,
  inl, inr, arith, subst, ap, ◌∙◌,
}
use googlesqlite.Functions.Trim.{trim_func, contains, ascii_space}
use googlesqlite.Cli.Script.{split_statements, split_complete}
use googlesqlite.Cli.Script.Complete.{split_complete-split_statements}
use googlesqlite.Functions.Split.{split_list, is_prefix}
use googlesqlite.Cli.Session.{handle_dot, read_name, Env, Session, Result}
use googlesqlite.Cli.Input.{run_all, run_input}
use googlesqlite.Cli.Input.Blank.{Spaces}
use googlesqlite.Cli.Input.Statements.{Plain, outcome, run_input-run_all}
use googlesqlite.Cli.Input.Reads.{
  ReadsBelow, Ranked, StopsAtError, lines, run_input-some, run_input-StopsAtError,
}

-- a;b'c
abbrev two : List ℕ
two = b'a' ∷ b';' ∷ b'b' ∷ b'\'' ∷ b';' ∷ b'\'' ∷ b'c' ∷ []

-- An unterminated comment is dropped, and what follows it in the next line is not in a comment.
dropped_comment :
    split_complete (λ c. contains ascii_space c) (b'/' ∷ b'*' ∷ b'a' ∷ b'\n' ∷ []) ≡ ([], [])
unfolding split_complete contains
dropped_comment = refl

abbrev spaces : ℕ → Bool
spaces c = contains ascii_space c

spaces-Spaces : Spaces spaces
unfolding contains
spaces-Spaces c low high = ground arith

-- A query counts; any other statement fails. Each file has one statement.
abbrev counting : Env ℕ ℕ ℕ
counting = record {
  is_space = spaces;
  to_lower = λ c. c;
  run_query = λ db stmt. (suc db, none, db);
  run_exec = λ db stmt. (db, some 7, db);
  nothing = 0;
  names = λ db l. done [];
  read_file = some (λ path. done (b'b' ∷ b';' ∷ []));
}

abbrev fresh : Session ℕ ℕ ℕ
fresh = record { database = 0; debug = false; color = false; out = [] }

split_complete-split_statements_example :
    (split_complete spaces two).0 ++ split_statements spaces (split_complete spaces two).1
    ≡ split_statements spaces two
split_complete-split_statements_example = split_complete-split_statements spaces two

-- (a)
-- b;
abbrev script : List ℕ
script = b'(' ∷ b'a' ∷ b')' ∷ b'\n' ∷ b'b' ∷ b';' ∷ []

script-Plain : Plain spaces [] (split_list (b'\n' ∷ []) script)
unfolding split_list is_prefix split_complete contains
script-Plain = (refl, inr refl, (refl, inl (refl, tt), tt))

run_input-run_all_example :
    run_input counting 1 true fresh script
    ≡ some (
        outcome counting
          (run_all counting true fresh (split_statements spaces (script ++ b'\n' ∷ []))))
run_input-run_all_example =
    run_input-run_all counting 0 true fresh script spaces-Spaces script-Plain

-- .read f
-- a;
abbrev reading : List ℕ
reading = read_name ++ (b' ' ∷ b'f' ∷ b'\n' ∷ b'a' ∷ b';' ∷ [])

counting-Ranked : Ranked counting (λ path. 0)
unfolding split_list is_prefix handle_dot contains trim_func
counting-Ranked f path content e found =
    subst (λ (t : List ℕ). ReadsBelow counting (λ path. 0) 0 (lines t))
      (ap content_of (ap (λ o. answer o path) e ∙ found))
      ((λ s c p read. absurd (no_path read)), tt)
  where
    answer : Option (List ℕ → Try ℕ (List ℕ)) → List ℕ → Try ℕ (List ℕ)
    answer none path = failed 0
    answer (some g) path = g path

    content_of : Try ℕ (List ℕ) → List ℕ
    content_of (failed x) = []
    content_of (done t) = t

    no_path : {c : ℕ} {p : List ℕ} → [] ≡ c ∷ p → ⊥
    no_path read = cc

reading-ReadsBelow : ReadsBelow counting (λ path. 0) 1 (lines reading)
unfolding split_list is_prefix handle_dot contains trim_func
reading-ReadsBelow = ((λ s c path e. omega arith), ((λ s c path e. omega arith), tt))

run_input-some_example :
    (s' : Session ℕ ℕ ℕ) × (rs : List (Result ℕ ℕ)) × (run_input counting 2 false fresh reading
      ≡ some (s', rs))
run_input-some_example =
    run_input-some counting false (λ path. 0) counting-Ranked 1 fresh reading reading-ReadsBelow

run_input-StopsAtError_example :
    (s' : Session ℕ ℕ ℕ) × (rs : List (Result ℕ ℕ)) × (run_input counting 2 true fresh reading
      ≡ some (s', rs))
    × StopsAtError rs
run_input-StopsAtError_example =
    run_input-StopsAtError counting (λ path. 0) counting-Ranked 1 fresh reading reading-ReadsBelow
