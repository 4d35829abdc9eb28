-- ===== src/ScriptVars/Apply.antt =====
-- internal/script_vars.go: the statements DECLARE and SET, and the pass over a script. The white space
-- of `unicode.IsSpace`, as the bytes of its runes in UTF-8, is a parameter, and so is the database with
-- its state, which answers expressions.
use googlesqlite.Base.{
  ℕ, zero, suc, ◌+◌, Option, none, some, Bool, true, false, not, ◌&&◌, ◌||◌, List, [], ◌∷◌, ◌++◌,
  ◌==◌, if◌then◌else◌, length, take, drop, map,
}
use googlesqlite.Functions.Split.{is_prefix}
use googlesqlite.Functions.Split.Join.{join}
use googlesqlite.Cli.Script.{to_upper}
use googlesqlite.Cli.Session.{is_empty, same}
use googlesqlite.ScriptVars.{
  is_ident_start, scan_quoted, split_top, ident_len, scan_ident, to_lower, Vars, script_variable,
  substitute, continues,
}

abbrev declare_word : List ℕ
declare_word = b'D' ∷ b'E' ∷ b'C' ∷ b'L' ∷ b'A' ∷ b'R' ∷ b'E' ∷ []

abbrev set_word : List ℕ
set_word = b'S' ∷ b'E' ∷ b'T' ∷ []

abbrev default_word : List ℕ
default_word = b'D' ∷ b'E' ∷ b'F' ∷ b'A' ∷ b'U' ∷ b'L' ∷ b'T' ∷ []

abbrev null_word : List ℕ
null_word = b'N' ∷ b'U' ∷ b'L' ∷ b'L' ∷ []

abbrev select_one : List ℕ
select_one = b'S' ∷ b'E' ∷ b'L' ∷ b'E' ∷ b'C' ∷ b'T' ∷ b' ' ∷ b'1' ∷ []

-- `indexOfKeyword`.
unfoldable pub index_of_keyword : (skip : ℕ) → List ℕ → List ℕ → Option ℕ
unfolding scan_quoted is_ident_start ident_len same to_upper
index_of_keyword skip kw [] = none
index_of_keyword (suc skip) kw (c ∷ s) = elim (index_of_keyword skip kw s) [
  | none ↦ none
  | some i ↦ some (suc i)
]
index_of_keyword zero kw (c ∷ s) = elim (c == b'\'' || c == b'"' || c == b'`') [
  | true ↦ elim (index_of_keyword (scan_quoted c 0 s) kw s) [ none ↦ none | some i ↦ some (suc i) ]
  | false ↦ elim (is_ident_start c) [
    | false ↦ elim (index_of_keyword zero kw s) [ none ↦ none | some i ↦ some (suc i) ]
    | true ↦ elim (same (to_upper (c ∷ take (ident_len s) s)) kw) [
      | true ↦ some 0
      | false ↦ elim (index_of_keyword (ident_len s) kw s) [ none ↦ none | some i ↦ some (suc i) ]
    ]
  ]
]

abbrev first : List ℕ → Option ℕ
first [] = none
first (c ∷ s) = some c

-- `strings.TrimSuffix` of a semicolon.
unfoldable trim_semicolon : List ℕ → List ℕ
trim_semicolon [] = []
trim_semicolon (c ∷ []) = if c == b';' then [] else c ∷ []
trim_semicolon (c ∷ d ∷ s) = c ∷ trim_semicolon (d ∷ s)

-- What a query of one expression gives: `number` has the text of strconv.
pub data Raw : Type 0 where
  nil other : Raw
  number characters : List ℕ → Raw
  boolean : Bool → Raw

-- `strings.ReplaceAll` of a quote by an escaped one.
unfoldable escape : List ℕ → List ℕ
escape [] = []
escape (c ∷ s) = if c == b'"' then b'\\' ∷ c ∷ escape s else c ∷ escape s

-- How long the word is that the text starts with, 0 if it starts with none of them.
unfoldable pub word_len : List (List ℕ) → List ℕ → ℕ
unfolding is_prefix
word_len [] s = 0
word_len (w ∷ words) s = elim (is_prefix w s) [ true ↦ length w | false ↦ word_len words s ]

-- The text behind the words that it starts with.
unfoldable pub trim_words : List (List ℕ) → (skip : ℕ) → List ℕ → List ℕ
unfolding word_len
trim_words words skip [] = []
trim_words words (suc skip) (c ∷ s) = trim_words words skip s
trim_words words zero (c ∷ s) = elim (word_len words (c ∷ s)) [
  | zero ↦ c ∷ s
  | suc k ↦ trim_words words k s
]

abbrev reversed : List ℕ → List ℕ
reversed [] = []
reversed (c ∷ s) = reversed s ++ c ∷ []

-- `substituteScriptVariables` leaves a statement alone if there are no variables.
unfoldable pub substituted : Vars → List ℕ → List ℕ
unfolding substitute
substituted [] stmt = stmt
substituted (v ∷ vars) stmt = substitute (v ∷ vars) 0 0 none stmt

abbrev joined : List (List ℕ) → List ℕ
joined [] = select_one
joined (s ∷ keep) = join (b';' ∷ []) (s ∷ keep)

module _ (spaces : List (List ℕ)) where
  -- `strings.TrimLeftFunc` of white space.
  unfoldable pub trim_start : List ℕ → List ℕ
  unfolding trim_words
  trim_start s = trim_words spaces 0 s

  -- `strings.TrimSpace`: from the end, the runes are read backwards.
  unfoldable pub trim_space : List ℕ → List ℕ
  unfolding trim_words trim_start
  trim_space s = reversed (trim_words (map reversed spaces) 0 (reversed (trim_start s)))

  -- `matchKeyword`.
  unfoldable pub match_keyword : List ℕ → List ℕ → Option (List ℕ)
  unfolding trim_start same to_upper
  match_keyword kw stmt =
      let s = trim_start stmt in
      if same (to_upper (take (length kw) s)) kw && not (continues (first (drop (length kw) s)))
      then some (drop (length kw) s)
      else none

  -- The expression behind DEFAULT or the equals sign.
  unfoldable expression : List ℕ → List ℕ
  unfolding trim_space trim_semicolon
  expression s = trim_space (trim_semicolon (trim_space s))

  -- `parseDeclare`: the name in lower case, and the text of the default.
  unfoldable pub parse_declare : List ℕ → Option (List ℕ × List ℕ)
  unfolding match_keyword trim_start scan_ident to_lower index_of_keyword expression
  parse_declare stmt = elim (match_keyword declare_word stmt) [
    | none ↦ none
    | some rest ↦
        let s = trim_start rest in
        let n = scan_ident s in
        if n == 0
        then none
        else let t = trim_start (drop n s) in
          elim (index_of_keyword 0 default_word t) [
            | none ↦ some (to_lower (take n s), null_word)
            | some i ↦
                let e = expression (drop (i + 7) t) in
                some (to_lower (take n s), if is_empty e then null_word else e)
          ]
  ]

  -- `parseAssignment`.
  unfoldable pub parse_assignment : List ℕ → Option (List ℕ × List ℕ)
  unfolding match_keyword trim_start is_prefix scan_ident to_lower expression
  parse_assignment stmt = elim (match_keyword set_word stmt) [
    | none ↦ none
    | some rest ↦
        let s = trim_start rest in
        let n = scan_ident s in
        let t = trim_start (drop n s) in
        let e = expression (drop 1 t) in
        if is_prefix (b'@' ∷ b'@' ∷ []) s || n == 0 || not (is_prefix (b'=' ∷ []) t) || is_empty e
        then none
        else some (to_lower (take n s), e)
  ]

  -- `query` is `QueryRowContext` of SELECT with the expression, and `Scan`, which may fail; it may
  -- change the state `W` of the database.
  module _ {W : Type 0} (query : W → List ℕ → W × Option Raw) where
    -- `evaluateScriptVariableExpr`.
    unfoldable pub evaluate : W → List ℕ → W × List ℕ
    unfolding trim_space escape
    evaluate db expr =
        let e = trim_space expr in
        if is_empty e
        then (db, null_word)
        else let (db', raw) = query db e in
          elim raw [
            | none ↦ (db', b'(' ∷ (e ++ b')' ∷ []))
            | some nil ↦ (db', null_word)
            | some other ↦ (db', b'(' ∷ (e ++ b')' ∷ []))
            | some (number t) ↦ (db', t)
            | some (characters t) ↦ (db', b'"' ∷ (escape t ++ b'"' ∷ []))
            | some (boolean b) ↦ (
              db',
              if b then b'T' ∷ b'R' ∷ b'U' ∷ b'E' ∷ [] else b'F' ∷ b'A' ∷ b'L' ∷ b'S' ∷ b'E' ∷ [],
            )
          ]

    -- `SetScriptVariable`.
    unfoldable pub set_variable : W → Vars → List ℕ → List ℕ → W × Vars
    unfolding to_lower evaluate substituted
    set_variable db vars name expr =
        let (db', literal) = evaluate db (substituted vars expr) in
        (db', (to_lower name, literal) ∷ vars)

    -- A statement that sets a variable is not kept.
    abbrev not_kept : W × Vars → W × Vars × Option (List ℕ)
    not_kept (db, vars) = (db, vars, none)

    -- The value of a statement: the variables, and the statement if it is kept.
    unfoldable pub apply_statement : W → Vars → List ℕ → W × Vars × Option (List ℕ)
    unfolding trim_space parse_declare parse_assignment set_variable script_variable substituted
    apply_statement db vars stmt =
        let s = trim_space stmt in
        if is_empty s then (db, vars, none) else elim (parse_declare s) [
          | some (name, expr) ↦ not_kept (set_variable db vars name expr)
          | none ↦ elim (parse_assignment s) [
            | none ↦ (db, vars, some (substituted vars stmt))
            | some (name, expr) ↦ elim (script_variable vars name) [
              | some v ↦ not_kept (set_variable db vars name expr)
              | none ↦ (db, vars, some (substituted vars stmt))
            ]
          ]
        ]

    unfoldable pub apply_all : W → Vars → List (List ℕ) → W × Vars × List (List ℕ)
    unfolding apply_statement
    apply_all db vars [] = (db, vars, [])
    apply_all db vars (stmt ∷ stmts) =
        let (db', vars', kept) = apply_statement db vars stmt in
        let (db'', vars'', keep) = apply_all db' vars' stmts in
        elim kept [ none ↦ (db'', vars'', keep) | some s ↦ (db'', vars'', s ∷ keep) ]

    -- `applyScriptVariables`.
    unfoldable pub apply_script_variables : W → Vars → List ℕ → W × Vars × List ℕ
    unfolding split_top apply_all join
    apply_script_variables db vars text = elim (split_top 0 [] text) [
      | [] ↦ (db, vars, text)
      | p ∷ ps ↦ let (db', vars', keep) = apply_all db vars (p ∷ ps) in (db', vars', joined keep)
    ]
