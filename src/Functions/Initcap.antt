-- ===== src/Functions/Initcap.antt =====
-- functions/string/initcap.go.
pub mod Letters
use googlesqlite.Base.{ℕ, Option, none, some, Bool, true, false, List, [], ◌∷◌, ◌++◌}
use googlesqlite.Functions.Value.{
  Value, wrong_arguments, Result, ok, err, ◌>>=◌, Output, string_value, converted, scalar_n,
}
use googlesqlite.Functions.Trim.{contains}

-- `defaultInitcapDelimiters`, in the order of the source.
abbrev pub default_delimiters : List ℕ
default_delimiters =
    32 ∷ 9 ∷ 10 ∷ 13 ∷ 11 ∷ 12 ∷ 91 ∷ 93 ∷ 40 ∷ 41 ∷ 123 ∷ 125 ∷ 47 ∷ 124 ∷ 92 ∷ 60 ∷ 62 ∷ 33 ∷ 63
    ∷ 64 ∷ 34 ∷ 94 ∷ 35 ∷ 36 ∷ 38 ∷ 126 ∷ 95 ∷ 44 ∷ 46 ∷ 58 ∷ 59 ∷ 42 ∷ 37 ∷ 43 ∷ 45 ∷ []

-- `strings.ToUpper` and `strings.ToLower` of one rune, which may give several.
module _ (to_upper to_lower : ℕ → List ℕ) where
  -- The rune that the loop stands at: the first one, a delimiter, or another one.
  unfoldable pub put_rune : (first is_delim : Bool) → ℕ → List ℕ
  put_rune true is_delim r = to_upper r
  put_rune false true r = r ∷ []
  put_rune false false r = to_lower r

  -- The loop of `INITCAP`; behind a delimiter it writes the next rune too and skips it.
  unfoldable pub initcap_from : (delims : List ℕ) → (first : Bool) → List ℕ → List ℕ
  unfolding put_rune contains
  initcap_from delims first [] = []
  initcap_from delims first (r ∷ []) = put_rune first (contains delims r) r
  initcap_from delims first (r ∷ s ∷ src) =
      put_rune first (contains delims r) r ++ elim (contains delims s) [
        | true ↦ initcap_from delims false (s ∷ src)
        | false ↦ elim (contains delims r) [
          | true ↦ to_upper s ++ initcap_from delims false src
          | false ↦ initcap_from delims false (s ∷ src)
        ]
      ]

  -- `INITCAP`.
  unfoldable pub initcap : List ℕ → Option (List ℕ) → List ℕ
  unfolding initcap_from
  initcap src none = initcap_from default_delimiters true src
  initcap src (some delims) = initcap_from delims true src

  unfoldable initcap_args : List Value → Result Output
  unfolding initcap
  initcap_args (v ∷ []) = do s ← converted v.to_string; ok (string_value (initcap s none))
  initcap_args (v ∷ d ∷ []) = do
    delims ← converted d.to_string
    s ← converted v.to_string
    ok (string_value (initcap s (some delims)))
  initcap_args _ = err wrong_arguments

  -- `BindInitcap`.
  unfoldable pub bind_initcap : List (Option Value) → Result Output
  unfolding initcap_args
  bind_initcap args = scalar_n initcap_args args
