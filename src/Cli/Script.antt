-- ===== src/Cli/Script.antt =====
-- internal/cli/script.go. An index of the source is the rest of the text in the model, and what a
-- scanner moves the index by is its result. The main loops skip that many runes one by one.
pub mod Scan
pub mod Literal
pub mod Seal
pub mod Complete
use googlesqlite.Base.{
  ℕ, zero, suc, ◌+◌, ◌-◌, Option, none, some, Bool, true, false, not, ◌&&◌, ◌||◌, List, [], ◌∷◌,
  ◌++◌, leb, ◌==◌, if◌then◌else◌, take, drop,
}
use googlesqlite.Functions.Trim.{trim_func}

-- `runes[i]` is `c`, and it is there.
abbrev pub starts : ℕ → List ℕ → Bool
starts c [] = false
starts c (d ∷ s) = d == c

abbrev pub starts_twice : ℕ → List ℕ → Bool
starts_twice c [] = false
starts_twice c (d ∷ s) = d == c && starts c s

abbrev pub tail : List ℕ → List ℕ
tail [] = []
tail (c ∷ s) = s

-- A line comment is consumed up to its newline.
unfoldable pub until_newline : List ℕ → ℕ
until_newline [] = 0
until_newline (c ∷ s) = elim (c == b'\n') [ true ↦ 0 | false ↦ 1 + until_newline s ]

-- A block comment behind its opening, through the closing `*/`.
unfoldable pub until_close : List ℕ → ℕ
until_close [] = 0
until_close (c ∷ s) = elim (c == b'*' && starts b'/' s) [ true ↦ 2 | false ↦ 1 + until_close s ]

-- A quoted identifier behind its first backtick.
unfoldable pub until_tick : List ℕ → ℕ
until_tick [] = 0
until_tick (c ∷ s) = elim (c == b'`') [ true ↦ 1 | false ↦ 1 + until_tick s ]

abbrev pub is_quote : ℕ → Bool
is_quote c = c == b'\'' || c == b'"'

abbrev pub is_r : ℕ → Bool
is_r c = c == b'r' || c == b'R'

abbrev pub is_b : ℕ → Bool
is_b c = c == b'b' || c == b'B'

abbrev pub opens : Bool → ℕ → List ℕ → Option (Bool × ℕ)
opens raw offset [] = none
opens raw offset (c ∷ s) = if is_quote c then some (raw, offset) else none

-- `stringLiteralAt`: whether the literal is raw, and where its quote is. A prefix is one of r and b,
-- or both.
unfoldable pub literal_at : List ℕ → Option (Bool × ℕ)
literal_at [] = none
literal_at (c ∷ []) = opens false 0 (c ∷ [])
literal_at (c ∷ d ∷ s) =
    if is_r c
    then (if is_b d then opens true 2 s else opens true 1 (d ∷ s))
    else if is_b c
    then (if is_r d then opens true 2 s else opens false 1 (d ∷ s))
    else opens false 0 (c ∷ d ∷ s)

-- `consumeString` behind the opening quotes: `skip` is 1 behind a backslash that escapes.
unfoldable pub triple_body : Bool → ℕ → (skip : ℕ) → List ℕ → ℕ
triple_body raw q skip [] = 0
triple_body raw q (suc skip) (c ∷ s) = 1 + triple_body raw q skip s
triple_body raw q zero (c ∷ s) = elim (not raw && c == b'\\') [
  | true ↦ 1 + triple_body raw q 1 s
  | false ↦ elim (c == q && starts_twice q s) [ true ↦ 3 | false ↦ 1 + triple_body raw q zero s ]
]

unfoldable pub single_body : Bool → ℕ → (skip : ℕ) → List ℕ → ℕ
single_body raw q skip [] = 0
single_body raw q (suc skip) (c ∷ s) = 1 + single_body raw q skip s
single_body raw q zero (c ∷ s) = elim (not raw && c == b'\\') [
  | true ↦ 1 + single_body raw q 1 s
  | false ↦ elim (c == q) [
    | true ↦ 1
    | false ↦ elim (c == b'\n') [ true ↦ 0 | false ↦ 1 + single_body raw q zero s ]
  ]
]

-- `consumeString`, from the opening quote on.
unfoldable pub consume_string : Bool → List ℕ → ℕ
unfolding triple_body single_body
consume_string raw [] = 0
consume_string raw (q ∷ s) = elim (starts_twice q s) [
  | true ↦ 3 + triple_body raw q 0 (tail (tail s))
  | false ↦ 1 + single_body raw q 0 s
]

-- The cases of the loops, except the semicolon: how many runes belong together from `c` on.
abbrev pub line_comment : ℕ → List ℕ → Bool
line_comment c s = c == b'#' || c == b'-' && starts b'-' s

abbrev pub block_comment : ℕ → List ℕ → Bool
block_comment c s = c == b'/' && starts b'*' s

unfoldable pub string_token : List ℕ → ℕ
unfolding literal_at consume_string
string_token s = elim (literal_at s) [
  | none ↦ 1
  | some (raw, offset) ↦ offset + consume_string raw (drop offset s)
]

unfoldable pub token : ℕ → List ℕ → ℕ
unfolding until_newline until_close until_tick string_token
token c s = elim (line_comment c s) [
  | true ↦ until_newline (c ∷ s)
  | false ↦ elim (block_comment c s) [
    | true ↦ 2 + until_close (tail s)
    | false ↦ elim (c == b'`') [ true ↦ 1 + until_tick s | false ↦ string_token (c ∷ s) ]
  ]
]

-- `lastTopLevelSemicolon`, relative to the rest of the text.
unfoldable pub last_from : (skip : ℕ) → List ℕ → Option ℕ
unfolding token
last_from skip [] = none
last_from (suc skip) (c ∷ s) = elim (last_from skip s) [ none ↦ none | some p ↦ some (suc p) ]
last_from zero (c ∷ s) = elim (c == b';') [
  | true ↦ elim (last_from zero s) [ none ↦ some 0 | some p ↦ some (suc p) ]
  | false ↦ elim (last_from (token c s - 1) s) [ none ↦ none | some p ↦ some (suc p) ]
]

abbrev pub is_blank : ℕ → Bool
is_blank c = c == b' ' || c == b'\t' || c == b'\n' || c == b'\r'

-- `hasSQLContent`.
unfoldable pub content_from : (skip : ℕ) → List ℕ → Bool
unfolding until_newline until_close
content_from skip [] = false
content_from (suc skip) (c ∷ s) = content_from skip s
content_from zero (c ∷ s) = elim (is_blank c) [
  | true ↦ content_from zero s
  | false ↦ elim (line_comment c s) [
    | true ↦ content_from (until_newline (c ∷ s) - 1) s
    | false ↦ elim (block_comment c s) [
      | true ↦ content_from (1 + until_close (tail s)) s
      | false ↦ true
    ]
  ]
]

-- `isWordRune`.
unfoldable pub is_word_rune : ℕ → Bool
is_word_rune c =
    c == b'_' || leb b'a' c && leb c b'z' || leb b'A' c && leb c b'Z' || leb b'0' c && leb c b'9'

-- `strings.ToUpper` of a word.
unfoldable pub to_upper : List ℕ → List ℕ
to_upper [] = []
to_upper (c ∷ s) = (if leb b'a' c && leb c b'z' then c - 32 else c) ∷ to_upper s

unfoldable pub word : List ℕ → List ℕ
unfolding is_word_rune
word [] = []
word (c ∷ s) = elim (is_word_rune c) [ true ↦ c ∷ word s | false ↦ [] ]

-- `leadingKeyword`.
unfoldable pub keyword_from : (skip : ℕ) → List ℕ → List ℕ
unfolding until_newline until_close word to_upper
keyword_from skip [] = []
keyword_from (suc skip) (c ∷ s) = keyword_from skip s
keyword_from zero (c ∷ s) = elim (is_blank c) [
  | true ↦ keyword_from zero s
  | false ↦ elim (line_comment c s) [
    | true ↦ keyword_from (until_newline (c ∷ s) - 1) s
    | false ↦ elim (block_comment c s) [
      | true ↦ keyword_from (1 + until_close (tail s)) s
      | false ↦ if c == b'(' then b'(' ∷ [] else to_upper (word (c ∷ s))
    ]
  ]
]

-- `is_space` is `unicode.IsSpace`, which `strings.TrimSpace` trims by.
module _ (is_space : ℕ → Bool) where
  abbrev pub trim_space : List ℕ → List ℕ
  trim_space s = trim_func s is_space true true

  -- `flush`: no statement, or one.
  unfoldable pub flush : List ℕ → List (List ℕ)
  unfolding content_from trim_func
  flush cur = if content_from 0 (trim_space cur) then trim_space cur ∷ [] else []

  -- The loop of `SplitStatements`, with the text of the current statement.
  unfoldable pub split_from : (skip : ℕ) → (cur : List ℕ) → List ℕ → List (List ℕ)
  unfolding flush token
  split_from skip cur [] = flush cur
  split_from (suc skip) cur (c ∷ s) = split_from skip (cur ++ c ∷ []) s
  split_from zero cur (c ∷ s) = elim (c == b';') [
    | true ↦ flush cur ++ split_from zero [] s
    | false ↦ split_from (token c s - 1) (cur ++ c ∷ []) s
  ]

  -- `SplitStatements`.
  unfoldable pub split_statements : List ℕ → List (List ℕ)
  unfolding split_from
  split_statements text = split_from 0 [] text

  abbrev pub ends_with_group : List ℕ → Bool
  ends_with_group [] = false
  ends_with_group (c ∷ s) = (c == b'\\' && only_group s) || ends_with_group s
    where
      only_group : List ℕ → Bool
      only_group (d ∷ []) = d == b'G'
      only_group _ = false

  -- The end of `SplitComplete`, with the statements of the head and the rest behind it.
  unfoldable pub complete_tail : List (List ℕ) → List ℕ → List (List ℕ) × List ℕ
  unfolding content_from trim_func
  complete_tail complete rest =
      if not (content_from 0 (trim_space rest))
      then (complete, [])
      else if ends_with_group (trim_space rest)
      then (complete ++ trim_space rest ∷ [], [])
      else (complete, rest)

  -- `SplitComplete`.
  unfoldable pub split_complete : List ℕ → List (List ℕ) × List ℕ
  unfolding last_from split_statements complete_tail
  split_complete text = elim (last_from 0 text) [
    | none ↦ complete_tail (split_statements []) text
    | some p ↦ complete_tail (split_statements (take (p + 1) text)) (drop (p + 1) text)
  ]
