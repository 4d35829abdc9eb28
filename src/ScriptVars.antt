-- ===== src/ScriptVars.antt =====
-- internal/script_vars.go: DECLARE, SET and references to variables in a script. The text is a list
-- of bytes; an index of the source is the rest of the text in the model, and what a scanner moves the
-- index by is its result.
pub mod Apply
pub mod Untouched
mod Tests
use googlesqlite.Base.{
  ℕ, zero, suc, ◌+◌, ◌-◌, Option, none, some, Bool, true, false, not, ◌&&◌, ◌||◌, List, [], ◌∷◌,
  ◌++◌, ◌==◌, leb, if◌then◌else◌, length, take, drop,
}
use googlesqlite.Functions.Split.{is_prefix}
use googlesqlite.Functions.Trim.{trim_left, trim_func}
use googlesqlite.Cli.Script.{starts, until_newline, to_upper}
use googlesqlite.Cli.Session.{is_empty, same}

-- `isIdentStart` and `isIdentCont` of internal/analyzer.go.
unfoldable pub is_ident_start : ℕ → Bool
is_ident_start c = leb b'a' c && leb c b'z' || leb b'A' c && leb c b'Z' || c == b'_'

unfoldable pub is_ident_cont : ℕ → Bool
unfolding is_ident_start
is_ident_cont c = is_ident_start c || leb b'0' c && leb c b'9'

-- `scanQuoted` behind the opening quote: `skip` is 1 behind a backslash that escapes.
unfoldable pub scan_quoted : (quote skip : ℕ) → List ℕ → ℕ
scan_quoted q skip [] = 0
scan_quoted q (suc skip) (c ∷ s) = 1 + scan_quoted q skip s
scan_quoted q zero (c ∷ s) = elim (c == b'\\' && not (q == b'`') && not (is_empty s)) [
  | true ↦ 1 + scan_quoted q 1 s
  | false ↦ elim (c == q) [ true ↦ 1 | false ↦ 1 + scan_quoted q zero s ]
]

-- Through the first occurrence of a delimiter, or to the end.
unfoldable pub through : List ℕ → List ℕ → ℕ
unfolding is_prefix
through delim [] = 0
through delim (c ∷ s) = elim (is_prefix delim (c ∷ s)) [
  | true ↦ length delim
  | false ↦ 1 + through delim s
]

-- `skipLiteralOrComment` at `c`: how long what starts there is.
unfoldable pub skip_literal_or_comment : ℕ → List ℕ → Option ℕ
unfolding scan_quoted through until_newline is_prefix
skip_literal_or_comment c s =
    if c == b'\'' || c == b'"'
    then (if is_prefix (c ∷ c ∷ []) s
        then some (3 + through (c ∷ c ∷ c ∷ []) (drop 2 s))
        else some (1 + scan_quoted c 0 s))
    else if c == b'`'
    then some (1 + scan_quoted c 0 s)
    else if c == b'#' || c == b'-' && starts b'-' s
    then some (until_newline (c ∷ s))
    else if c == b'/' && starts b'*' s
    then some (2 + through (b'*' ∷ b'/' ∷ []) (drop 1 s))
    else none

-- `splitTopLevelStatements`, with the text since the last boundary.
unfoldable pub split_top : (skip : ℕ) → (cur : List ℕ) → List ℕ → List (List ℕ)
unfolding skip_literal_or_comment
split_top skip cur [] = if is_empty cur then [] else cur ∷ []
split_top (suc skip) cur (c ∷ s) = split_top skip (cur ++ c ∷ []) s
split_top zero cur (c ∷ s) = elim (skip_literal_or_comment c s) [
  | some n ↦ split_top (n - 1) (cur ++ c ∷ []) s
  | none ↦ elim (c == b';') [
    | true ↦ cur ∷ split_top zero [] s
    | false ↦ split_top zero (cur ++ c ∷ []) s
  ]
]

-- How long the identifier at the front goes on.
unfoldable pub ident_len : List ℕ → ℕ
unfolding is_ident_cont
ident_len [] = 0
ident_len (c ∷ s) = elim (is_ident_cont c) [ true ↦ 1 + ident_len s | false ↦ 0 ]

-- `scanIdent`.
unfoldable pub scan_ident : List ℕ → ℕ
unfolding is_ident_start ident_len
scan_ident [] = 0
scan_ident (c ∷ s) = elim (is_ident_start c) [ true ↦ 1 + ident_len s | false ↦ 0 ]

-- `strings.ToLower` of an identifier.
unfoldable pub to_lower : List ℕ → List ℕ
to_lower [] = []
to_lower (c ∷ s) = (if leb b'A' c && leb c b'Z' then c + 32 else c) ∷ to_lower s

-- `Conn.scriptVars`: the newest value of a name is in front.
abbrev pub Vars : Type 0
Vars = List (List ℕ × List ℕ)

-- `Conn.ScriptVariable` of a name in lower case.
unfoldable pub script_variable : Vars → List ℕ → Option (List ℕ)
unfolding same
script_variable [] name = none
script_variable ((n, v) ∷ vars) name = if same n name then some v else script_variable vars name

-- Whether a parenthesis follows, behind blanks and tabs.
unfoldable pub is_call : List ℕ → Bool
is_call [] = false
is_call (c ∷ s) = elim (c == b' ' || c == b'\t') [ true ↦ is_call s | false ↦ c == b'(' ]

abbrev pub continues : Option ℕ → Bool
continues none = false
continues (some c) = is_ident_cont c

-- `substituteScriptVariables`: `copy` bytes are written as they are, and `leave` bytes are left out;
-- `prev` is the byte before.
unfoldable pub substitute : Vars → (copy leave : ℕ) → (prev : Option ℕ) → List ℕ → List ℕ
unfolding skip_literal_or_comment ident_len script_variable to_lower is_call is_ident_start
substitute vars copy leave prev [] = []
substitute vars (suc copy) leave prev (c ∷ s) = c ∷ substitute vars copy leave (some c) s
substitute vars zero (suc leave) prev (c ∷ s) = substitute vars zero leave (some c) s
substitute vars zero zero prev (c ∷ s) = elim (skip_literal_or_comment c s) [
  | some n ↦ c ∷ substitute vars (n - 1) zero (some c) s
  | none ↦ elim (c == b'.') [
    | true ↦ c ∷ substitute vars (ident_len s) zero (some c) s
    | false ↦ elim (is_ident_start c && not (continues prev)) [
      | false ↦ c ∷ substitute vars zero zero (some c) s
      | true ↦ elim (script_variable vars (to_lower (c ∷ take (ident_len s) s))) [
        | none ↦ c ∷ substitute vars (ident_len s) zero (some c) s
        | some v ↦ elim (is_call (drop (ident_len s) s)) [
          | true ↦ c ∷ substitute vars (ident_len s) zero (some c) s
          | false ↦ v ++ substitute vars zero (ident_len s) (some c) s
        ]
      ]
    ]
  ]
]
