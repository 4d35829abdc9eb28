-- ===== src/Functions/Translate.antt =====
-- functions/string/translate.go.
pub mod Lookup
pub mod Meaning
pub mod Sequence
use googlesqlite.Base.{
  ℕ, Option, none, some, Bool, true, false, List, [], ◌∷◌, ◌++◌, ◌==◌, if◌then◌else◌,
}
use googlesqlite.Functions.Value.{
  Value, Kind, string, bytes, other, wrong_type, duplicate, Result, ok, err, ◌>>=◌, Output,
  string_value, bytes_value, converted, scalar_3,
}
use googlesqlite.Functions.Trim.{contains}

-- The maps `mapping` and `delete`: a source character that is deleted has no target.
abbrev pub Table : Type 0
Table = List (ℕ × Option ℕ)

unfoldable pub lookup : Table → ℕ → Option (Option ℕ)
lookup [] c = none
lookup ((s, t) ∷ table) c = if s == c then some t else lookup table c

abbrev pub head : List ℕ → Option ℕ
head [] = none
head (t ∷ ts) = some t

abbrev pub tail : List ℕ → List ℕ
tail [] = []
tail (t ∷ ts) = ts

-- The loop over the source runes; a rune that stands there twice is an error.
unfoldable pub build_table : List ℕ → List ℕ → Table → Result Table
unfolding lookup
build_table [] ts table = ok table
build_table (s ∷ ss) ts table = elim (lookup table s) [
  | some _ ↦ err duplicate
  | none ↦ build_table ss (tail ts) (table ++ (s, head ts) ∷ [])
]

-- The loop over the runes of the expression.
unfoldable pub translate_runes : (ℕ → Option (Option ℕ)) → List ℕ → List ℕ
translate_runes find [] = []
translate_runes find (r ∷ e) =
    let rest = translate_runes find e in
    elim (find r) [ none ↦ r ∷ rest | some t ↦ elim t [ none ↦ rest | some c ↦ c ∷ rest ] ]

-- The branch for STRING.
unfoldable pub translate_string : List ℕ → List ℕ → List ℕ → Result (List ℕ)
unfolding build_table translate_runes lookup
translate_string e ss ts = do
  table ← build_table ss ts []
  ok (translate_runes (λ r. lookup table r) e)

-- `bytes.ReplaceAll` of one byte by the target byte, or by nothing.
unfoldable pub replace_byte : ℕ → Option ℕ → List ℕ → List ℕ
replace_byte s t [] = []
replace_byte s t (b ∷ e) =
    let rest = replace_byte s t e in
    elim (s == b) [ false ↦ b ∷ rest | true ↦ elim t [ none ↦ rest | some c ↦ c ∷ rest ] ]

-- The loop of the branch for BYTES: each source byte is replaced in what the ones before it left.
unfoldable pub translate_bytes : (seen : List ℕ) → List ℕ → List ℕ → List ℕ → Result (List ℕ)
unfolding contains replace_byte
translate_bytes seen e [] ts = ok e
translate_bytes seen e (s ∷ ss) ts = elim (contains seen s) [
  | true ↦ err duplicate
  | false ↦ translate_bytes (s ∷ seen) (replace_byte s (head ts) e) ss (tail ts)
]

-- The checks that source and target have the type of the expression, in this order.
unfoldable pub same_kind : Kind → Value → Value → Bool
same_kind k s t = elim k [
  | string ↦ elim s.kind [ string ↦ elim t.kind [ string ↦ true | _ ↦ false ] | _ ↦ false ]
  | bytes ↦ elim s.kind [ bytes ↦ elim t.kind [ bytes ↦ true | _ ↦ false ] | _ ↦ false ]
  | other ↦ false
]

unfoldable pub translate_same : Value → Value → Value → Result Output
unfolding translate_string translate_bytes
translate_same e s t = elim e.kind [
  | string ↦ do
    x ← converted e.to_string
    ss ← converted s.to_string
    ts ← converted t.to_string
    r ← translate_string x ss ts
    ok (string_value r)
  | bytes ↦ do
    x ← converted e.to_bytes
    ss ← converted s.to_bytes
    ts ← converted t.to_bytes
    r ← translate_bytes [] x ss ts
    ok (bytes_value r)
  | other ↦ err wrong_type
]

-- `TRANSLATE`.
unfoldable pub translate : Value → Value → Value → Result Output
unfolding same_kind translate_same
translate e s t = elim (same_kind e.kind s t) [
  | false ↦ err wrong_type
  | true ↦ translate_same e s t
]

-- `BindTranslate`.
unfoldable pub bind_translate : List (Option Value) → Result Output
unfolding translate
bind_translate args = scalar_3 translate args
