-- ===== src/ScriptVars/Tests.antt =====
-- Runs of internal/script_vars.go.
use googlesqlite.Base.{◌+◌, ℕ, ◌≡◌, refl, ◌⊎◌, Option, some, List, [], ◌∷◌, ◌++◌}
use googlesqlite.Functions.Split.Join.{join}
use googlesqlite.ScriptVars.{split_top, Vars, script_variable}
use googlesqlite.ScriptVars.Apply.{
  Raw, number, trim_space, apply_script_variables, parse_declare, parse_assignment,
}
use googlesqlite.ScriptVars.Untouched.{join-split_top, ArePlain, apply_script_variables-ArePlain}

-- Blank, newline and the no-break space.
abbrev spaces : List (List ℕ)
spaces = (b' ' ∷ []) ∷ (10 ∷ []) ∷ (194 ∷ 160 ∷ []) ∷ []

no_break_spaces : trim_space spaces (194 ∷ 160 ∷ b' ' ∷ b'a' ∷ 194 ∷ 160 ∷ []) ≡ b'a' ∷ []
unfolding trim_space
no_break_spaces = refl

-- The value of an expression is how many were asked before, from 7 on.
abbrev counting : ℕ → List ℕ → ℕ × Option Raw
counting db e = (db + 1, some (number ((b'7' + db) ∷ [])))

-- a;'x;
abbrev script : List ℕ
script = b'a' ∷ b';' ∷ b'\'' ∷ b'x' ∷ b';' ∷ []

abbrev known_x : Vars
known_x = (b'x' ∷ [], b'1' ∷ []) ∷ []

join-split_top_example :
    (script ≡ join (b';' ∷ []) (split_top 0 [] script))
    ⊎ (script ≡ join (b';' ∷ []) (split_top 0 [] script) ++ b';' ∷ [])
join-split_top_example = join-split_top script

script-ArePlain : ArePlain spaces known_x (split_top 0 [] script)
unfolding split_top trim_space parse_declare parse_assignment script_variable
script-ArePlain = ((refl, refl, refl, (refl, tt)), ((refl, refl, refl, tt), tt))

apply_script_variables-ArePlain_example :
    let (db', vars', text') = apply_script_variables spaces counting 0 known_x script in
    (db' ≡ 0) × (vars' ≡ known_x) × ((script ≡ text') ⊎ (script ≡ text' ++ b';' ∷ []))
apply_script_variables-ArePlain_example =
    apply_script_variables-ArePlain spaces counting 0 known_x script script-ArePlain

-- DECLARE x;x
abbrev declaring : List ℕ
declaring = b'D' ∷ b'E' ∷ b'C' ∷ b'L' ∷ b'A' ∷ b'R' ∷ b'E' ∷ b' ' ∷ b'X' ∷ b';' ∷ b'x' ∷ []

declared_is_used :
    apply_script_variables spaces counting 0 [] declaring
    ≡ (1, (b'x' ∷ [], b'7' ∷ []) ∷ [], b'7' ∷ [])
unfolding apply_script_variables
declared_is_used = refl
