-- ===== src/Cli/Session.antt =====
-- internal/cli/command.go and Exec of internal/cli/runner.go: the dot-commands and single statements.
-- The database is a type of the caller's with what runs a query and what runs another statement;
-- what is written to the output is a list of messages.
use googlesqlite.Base.{
  Try, failed, done, ℕ, ◌-◌, Option, none, some, Bool, true, false, not, ◌&&◌, ◌||◌, List, [], ◌∷◌,
  ◌++◌, ◌==◌, if◌then◌else◌, length, take,
}
use googlesqlite.Functions.Split.Join.{join}
use googlesqlite.Cli.Script.{starts, trim_space, ends_with_group, keyword_from}

abbrev pub is_empty : List ℕ → Bool
is_empty [] = true
is_empty (c ∷ s) = false

unfoldable pub same : List ℕ → List ℕ → Bool
same [] [] = true
same [] (d ∷ t) = false
same (c ∷ s) [] = false
same (c ∷ s) (d ∷ t) = c == d && same s t

abbrev quit_name : List ℕ
quit_name = b'.' ∷ b'q' ∷ b'u' ∷ b'i' ∷ b't' ∷ []

abbrev exit_name : List ℕ
exit_name = b'.' ∷ b'e' ∷ b'x' ∷ b'i' ∷ b't' ∷ []

abbrev help_name : List ℕ
help_name = b'.' ∷ b'h' ∷ b'e' ∷ b'l' ∷ b'p' ∷ []

abbrev debug_name : List ℕ
debug_name = b'.' ∷ b'd' ∷ b'e' ∷ b'b' ∷ b'u' ∷ b'g' ∷ []

abbrev tables_name : List ℕ
tables_name = b'.' ∷ b't' ∷ b'a' ∷ b'b' ∷ b'l' ∷ b'e' ∷ b's' ∷ []

abbrev functions_name : List ℕ
functions_name = b'.' ∷ b'f' ∷ b'u' ∷ b'n' ∷ b'c' ∷ b't' ∷ b'i' ∷ b'o' ∷ b'n' ∷ b's' ∷ []

abbrev pub read_name : List ℕ
read_name = b'.' ∷ b'r' ∷ b'e' ∷ b'a' ∷ b'd' ∷ []

-- `queryLeadKeywords`.
unfoldable pub is_query_keyword : List ℕ → Bool
unfolding same
is_query_keyword w =
    same (b'S' ∷ b'E' ∷ b'L' ∷ b'E' ∷ b'C' ∷ b'T' ∷ []) w
    || same (b'W' ∷ b'I' ∷ b'T' ∷ b'H' ∷ []) w
    || same (b'V' ∷ b'A' ∷ b'L' ∷ b'U' ∷ b'E' ∷ b'S' ∷ []) w
    || same (b'T' ∷ b'A' ∷ b'B' ∷ b'L' ∷ b'E' ∷ []) w
    || same (b'F' ∷ b'R' ∷ b'O' ∷ b'M' ∷ []) w
    || same (b'G' ∷ b'R' ∷ b'A' ∷ b'P' ∷ b'H' ∷ []) w
    || same (b'(' ∷ []) w

-- `isQueryStatement`.
unfoldable pub is_query_statement : List ℕ → Bool
unfolding keyword_from is_query_keyword
is_query_statement stmt = is_query_keyword (keyword_from 0 stmt)

-- The catalog kinds that a dot-command lists.
pub data Label : Type 0 where
  tables functions : Label

-- `Result`: `E` is the type of errors, `D` that of the columns, rows and counts.
pub record Result (E D : Type 0) : Type 0 where
  pub statement : List ℕ
  pub group_mode : Bool
  pub is_query : Bool
  pub error : Option E
  pub content : D

-- What the code writes to the output.
pub data Message (E D : Type 0) : Type 0 where
  help_text read_requires_path read_not_supported : Message E D
  debug_requires : Message E D
  debug_mode : Bool → Message E D
  catalog_error : E → Message E D
  none_of : Label → Message E D
  name_line : List ℕ → Message E D
  unknown_command : List ℕ → Message E D
  read_error : E → Message E D
  rendered : Result E D → (debug color : Bool) → Message E D

-- `Session`, with the runner's database.
pub record Session (W E D : Type 0) : Type 0 where
  pub database : W
  pub debug : Bool
  pub color : Bool
  pub out : List (Message E D)

-- `DotResult`.
pub record DotResult : Type 0 where
  pub handled : Bool
  pub quit : Bool
  pub read_path : List ℕ

-- What the code calls: `unicode.IsSpace`, `unicode.ToLower`, the two ways to run a statement, the
-- names in the catalog, and the file reader, which may be nil.
pub record Env (W E D : Type 0) : Type 0 where
  pub is_space : ℕ → Bool
  pub to_lower : ℕ → ℕ
  pub run_query : W → List ℕ → W × Option E × D
  pub run_exec : W → List ℕ → W × Option E × D
  pub nothing : D
  pub names : W → Label → Try E (List (List ℕ))
  pub read_file : Option (List ℕ → Try E (List ℕ))

abbrev cons_word : List ℕ → List (List ℕ) → List (List ℕ)
cons_word [] ws = ws
cons_word (c ∷ w) ws = (c ∷ w) ∷ ws

-- `strings.Fields`, with the word that is being read.
unfoldable fields : (ℕ → Bool) → (word : List ℕ) → List ℕ → List (List ℕ)
fields is_space w [] = cons_word w []
fields is_space w (c ∷ s) = elim (is_space c) [
  | true ↦ cons_word w (fields is_space [] s)
  | false ↦ fields is_space (w ++ c ∷ []) s
]

abbrev lower : (ℕ → ℕ) → List ℕ → List ℕ
lower f [] = []
lower f (c ∷ s) = f c ∷ lower f s

-- The words that `setToggle` knows.
unfoldable toggle : List ℕ → Option Bool
unfolding same
toggle w =
    if same (b'o' ∷ b'n' ∷ []) w || same (b't' ∷ b'r' ∷ b'u' ∷ b'e' ∷ []) w || same (b'1' ∷ []) w
    then some true
    else if same (b'o' ∷ b'f' ∷ b'f' ∷ []) w
        || same (b'f' ∷ b'a' ∷ b'l' ∷ b's' ∷ b'e' ∷ []) w
        || same (b'0' ∷ []) w
    then some false
    else none

unfoldable pub has_error : {E D : Type 0} → Result E D → Bool
has_error r = elim r.error [ none ↦ false | some e ↦ true ]

abbrev name_lines : {E D : Type 0} → List (List ℕ) → List (Message E D)
name_lines [] = []
name_lines (n ∷ ns) = name_line n ∷ name_lines ns

abbrev listing : {E D : Type 0} → Label → Try E (List (List ℕ)) → List (Message E D)
listing l (failed e) = catalog_error e ∷ []
listing l (done []) = none_of l ∷ []
listing l (done (n ∷ ns)) = name_lines (n ∷ ns)

module _ {W E D : Type 0} where
  unfoldable pub say : Session W E D → List (Message E D) → Session W E D
  say s ms = record { database = s.database; debug = s.debug; color = s.color; out = s.out ++ ms }

  unfoldable set_debug : Session W E D → Bool → Session W E D
  unfolding say
  set_debug s b =
      say (record { database = s.database; debug = b; color = s.color; out = s.out })
        (debug_mode b ∷ [])

  -- `setToggle` of the debug flag.
  unfoldable pub set_toggle : (ℕ → ℕ) → Session W E D → List (List ℕ) → Session W E D
  unfolding toggle set_debug say
  set_toggle to_lower s [] = set_debug s (not s.debug)
  set_toggle to_lower s (a ∷ args) = elim (toggle (lower to_lower a)) [
    | some b ↦ set_debug s b
    | none ↦ say s (debug_requires ∷ [])
  ]

module _ {W E D : Type 0} (env : Env W E D) where
  -- `printCatalog`.
  unfoldable pub print_catalog : Session W E D → Label → Session W E D
  unfolding say
  print_catalog s l = say s (listing l (env.names s.database l))

  abbrev plain : DotResult
  plain = record { handled = true; quit = false; read_path = [] }

  -- The switch of `HandleDot`.
  unfoldable pub run_command :
      Session W E D → (cmd : List ℕ) → (args : List (List ℕ)) → Session W E D × DotResult
  unfolding same say set_toggle print_catalog join
  run_command s cmd args =
      if same quit_name cmd || same exit_name cmd
      then (s, record { handled = true; quit = true; read_path = [] })
      else if same help_name cmd
      then (say s (help_text ∷ []), plain)
      else if same debug_name cmd
      then (set_toggle env.to_lower s args, plain)
      else if same tables_name cmd
      then (print_catalog s tables, plain)
      else if same functions_name cmd
      then (print_catalog s functions, plain)
      else if same read_name cmd
      then elim args [
        | [] ↦ (say s (read_requires_path ∷ []), plain)
        | a ∷ more ↦
            (s, record { handled = true; quit = false; read_path = join (b' ' ∷ []) (a ∷ more) })
      ]
      else (say s (unknown_command cmd ∷ []), plain)

  -- `HandleDot`; a line that starts with a dot has a field.
  unfoldable pub handle_dot : Session W E D → List ℕ → Session W E D × DotResult
  unfolding fields run_command
  handle_dot s line =
      if starts b'.' (trim_space env.is_space line)
      then elim (fields env.is_space [] (trim_space env.is_space line)) [
        | [] ↦ (s, plain)
        | cmd ∷ args ↦ run_command s cmd args
      ]
      else (s, record { handled = false; quit = false; read_path = [] })

  -- `Runner.Exec` behind the group marker.
  unfoldable exec_trimmed : W → (group_mode : Bool) → List ℕ → W × Result E D
  unfolding is_query_statement
  exec_trimmed db group stmt =
      if is_empty stmt
      then (
        db,
        record {
          statement = stmt;
          group_mode = group;
          is_query = false;
          error = none;
          content = env.nothing;
        },
      )
      else let query = is_query_statement stmt in
        let (db', e, d) = if query then env.run_query db stmt else env.run_exec db stmt in
        (
          db',
          record { statement = stmt; group_mode = group; is_query = query; error = e; content = d },
        )

  -- `Runner.Exec`: `strings.CutSuffix` of the group marker, and the statement.
  unfoldable pub exec : W → List ℕ → W × Result E D
  unfolding exec_trimmed
  exec db statement =
      let stmt = trim_space env.is_space statement in
      if ends_with_group env.is_space stmt
      then exec_trimmed db true (trim_space env.is_space (take (length stmt - 2) stmt))
      else exec_trimmed db false stmt

  -- `RunStatement`.
  unfoldable pub run_statement : Session W E D → List ℕ → Session W E D × Result E D
  unfolding exec say
  run_statement s stmt =
      let (db, res) = exec s.database stmt in
      (
        record {
          database = db;
          debug = s.debug;
          color = s.color;
          out = s.out ++ rendered res s.debug s.color ∷ [];
        },
        res,
      )
