-- ===== src/ScriptVars/Untouched.antt =====
-- What the pass over a script leaves as it is.
use googlesqlite.Base.{
  ℕ, zero, suc, ◌-◌, ◌≡◌, refl, sym, ◌∙◌, ap, subst, Option, none, some, true, false, not, ◌&&◌,
  List, [], ◌∷◌, ◌++◌, ◌==◌, ==_iff, ◌⊎◌, inl, inr, Bool-cases, Option-cases, append_assoc,
  append_nil, take,
}
use googlesqlite.Functions.Split.Join.{join}
use googlesqlite.Cli.Session.{is_empty}
use googlesqlite.ScriptVars.{
  skip_literal_or_comment, split_top, ident_len, is_ident_start, continues, script_variable,
  to_lower, substitute, Vars,
}
use googlesqlite.ScriptVars.Apply.{
  trim_space, parse_declare, parse_assignment, substituted, apply_statement, apply_all,
  apply_script_variables, Raw,
}

-- The statements are the text between its top-level semicolons; one at the end of it is dropped.
abbrev Pieces : List ℕ → List (List ℕ) → Type 0
Pieces s [] = s ≡ []
Pieces s (p ∷ ps) = (s ≡ join (b';' ∷ []) (p ∷ ps)) ⊎ (s ≡ join (b';' ∷ []) (p ∷ ps) ++ b';' ∷ [])

Pieces-cons :
    (cur s : List ℕ) (ps : List (List ℕ)) → Pieces s ps → Pieces (cur ++ b';' ∷ s) (cur ∷ ps)
unfolding join
Pieces-cons cur s [] e = inr (ap (λ (l : List ℕ). cur ++ b';' ∷ l) e)
Pieces-cons cur s (p ∷ ps) (inl e) = inl (ap (λ (l : List ℕ). cur ++ b';' ∷ l) e)
Pieces-cons cur s (p ∷ ps) (inr e) = inr (
    ap (λ (l : List ℕ). cur ++ b';' ∷ l) e
    ∙ sym (append_assoc cur (b';' ∷ join (b';' ∷ []) (p ∷ ps)) (b';' ∷ [])))

split_top-Pieces : (skip : ℕ) (cur s : List ℕ) → Pieces (cur ++ s) (split_top skip cur s)
unfolding split_top join
split_top-Pieces skip [] [] = refl
split_top-Pieces skip (d ∷ cur) [] = inl (append_nil (d ∷ cur))
split_top-Pieces (suc skip) cur (c ∷ s) =
    rw (sym (append_assoc cur (c ∷ []) s)) (split_top-Pieces skip (cur ++ c ∷ []) s)
split_top-Pieces zero cur (c ∷ s) = elim (Option-cases (skip_literal_or_comment c s)) [
  | inr (n, e) ↦
      rw (e, split_top, sym (append_assoc cur (c ∷ []) s))
        (split_top-Pieces (n - 1) (cur ++ c ∷ []) s)
  | inl e ↦ elim (Bool-cases (c == b';')) [
    | inl t ↦
        let same : c ≡ b';' = (==_iff c b';').0 t in
        rw (e, split_top, t)
          (subst (λ x. Pieces (cur ++ x ∷ s) (cur ∷ split_top zero [] s)) (sym same)
            (Pieces-cons cur s (split_top zero [] s) (split_top-Pieces zero [] s)))
    | inr f ↦
        rw (e, split_top, f, sym (append_assoc cur (c ∷ []) s))
          (split_top-Pieces zero (cur ++ c ∷ []) s)
  ]
]

-- No word of the statement is a known variable, outside of literals, comments and fields.
abbrev pub Unknown : Vars → (copy : ℕ) → (prev : Option ℕ) → List ℕ → Type 0
Unknown vars copy prev [] = Unit
Unknown vars (suc copy) prev (c ∷ s) = Unknown vars copy (some c) s
Unknown vars zero prev (c ∷ s) = elim (skip_literal_or_comment c s) [
  | some n ↦ Unknown vars (n - 1) (some c) s
  | none ↦ elim (c == b'.') [
    | true ↦ Unknown vars (ident_len s) (some c) s
    | false ↦ elim (is_ident_start c && not (continues prev)) [
      | false ↦ Unknown vars zero (some c) s
      | true ↦
          (script_variable vars (to_lower (c ∷ take (ident_len s) s)) ≡ none)
          × Unknown vars (ident_len s) (some c) s
    ]
  ]
]

-- A statement without known variables is not changed.
substitute-Unknown :
    (vars : Vars) (copy : ℕ) (prev : Option ℕ) (s : List ℕ)
    → Unknown vars copy prev s
    → substitute vars copy 0 prev s ≡ s
unfolding substitute
substitute-Unknown vars copy prev [] h = refl
substitute-Unknown vars (suc copy) prev (c ∷ s) h =
    ap (λ (l : List ℕ). c ∷ l) (substitute-Unknown vars copy (some c) s h)
substitute-Unknown vars zero prev (c ∷ s) h = elim (Option-cases (skip_literal_or_comment c s)) [
  | inr (n, e) ↦
      rw (e, substitute)
        (ap (λ (l : List ℕ). c ∷ l)
          (substitute-Unknown vars (n - 1) (some c) s (rw (e, Unknown) at h)))
  | inl e ↦ elim (Bool-cases (c == b'.')) [
    | inl t ↦
        rw (e, substitute, t)
          (ap (λ (l : List ℕ). c ∷ l)
            (substitute-Unknown vars (ident_len s) (some c) s (rw (e, Unknown, t) at h)))
    | inr f ↦ elim (Bool-cases (is_ident_start c && not (continues prev))) [
      | inr g ↦
          rw (e, substitute, f, g)
            (ap (λ (l : List ℕ). c ∷ l)
              (substitute-Unknown vars zero (some c) s (rw (e, Unknown, f, g) at h)))
      | inl t ↦
          let (no_value, h') = rw (e, Unknown, f, t) at h in
          rw (e, substitute, f, t, no_value)
            (ap (λ (l : List ℕ). c ∷ l) (substitute-Unknown vars (ident_len s) (some c) s h'))
    ]
  ]
]

-- The statements of a script, joined by semicolons, are the script, or the script without the
-- semicolon at its end.
pub join-split_top :
    (text : List ℕ)
    → (text ≡ join (b';' ∷ []) (split_top 0 [] text))
      ⊎ (text ≡ join (b';' ∷ []) (split_top 0 [] text) ++ b';' ∷ [])
unfolding join
join-split_top text = by_pieces (split_top 0 [] text) (split_top-Pieces 0 [] text)
  where
    by_pieces :
        (ps : List (List ℕ))
        → Pieces text ps
        → (text ≡ join (b';' ∷ []) ps) ⊎ (text ≡ join (b';' ∷ []) ps ++ b';' ∷ [])
    by_pieces [] e = inl e
    by_pieces (p ∷ ps) h = h

module _ (spaces : List (List ℕ)) where
  -- A statement that is neither blank nor a DECLARE or SET, and names no known variable.
  abbrev pub IsPlain : Vars → List ℕ → Type 0
  IsPlain vars stmt =
      (is_empty (trim_space spaces stmt) ≡ false)
      × (parse_declare spaces (trim_space spaces stmt) ≡ none)
      × (parse_assignment spaces (trim_space spaces stmt) ≡ none)
      × Unknown vars 0 none stmt

  abbrev pub ArePlain : Vars → List (List ℕ) → Type 0
  ArePlain vars [] = Unit
  ArePlain vars (p ∷ ps) = IsPlain vars p × ArePlain vars ps

  substituted-Unknown :
      (vars : Vars) (stmt : List ℕ) → Unknown vars 0 none stmt → substituted vars stmt ≡ stmt
  unfolding substituted
  substituted-Unknown [] stmt h = refl
  substituted-Unknown (v ∷ vars) stmt h = substitute-Unknown (v ∷ vars) 0 none stmt h

  module _ {W : Type 0} (query : W → List ℕ → W × Option Raw) (db : W) where
    apply_statement-IsPlain :
        (vars : Vars) (stmt : List ℕ)
        → IsPlain vars stmt
        → apply_statement spaces query db vars stmt ≡ (db, vars, some stmt)
    unfolding apply_statement
    apply_statement-IsPlain vars stmt (filled, no_declare, no_set, unknown) =
        rw (filled, apply_statement, no_declare, no_set, substituted-Unknown vars stmt unknown) refl

    apply_all-ArePlain :
        (vars : Vars) (ps : List (List ℕ))
        → ArePlain vars ps
        → apply_all spaces query db vars ps ≡ (db, vars, ps)
    unfolding apply_all
    apply_all-ArePlain vars [] h = refl
    apply_all-ArePlain vars (p ∷ ps) (h, hs) =
        let e = apply_statement-IsPlain vars p h in
        rw (e, apply_all, e, apply_all-ArePlain vars ps hs) refl

-- A script without blank statements, DECLARE and SET whose statements name no known variable is not
-- changed by the pass, but for a semicolon at its end, and neither are the variables and the state of
-- the database.
pub apply_script_variables-ArePlain :
    {W : Type 0}
    → (spaces : List (List ℕ)) (query : W → List ℕ → W × Option Raw) (db : W) (vars : Vars)
    → (text : List ℕ) → ArePlain spaces vars (split_top 0 [] text)
    → let (db', vars', text') = apply_script_variables spaces query db vars text in
      (db' ≡ db) × (vars' ≡ vars) × ((text ≡ text') ⊎ (text ≡ text' ++ b';' ∷ []))
unfolding apply_script_variables
apply_script_variables-ArePlain spaces query db vars text h =
    by_pieces (split_top 0 [] text) refl h (split_top-Pieces 0 [] text)
  where
    by_pieces :
        (ps : List (List ℕ))
        → split_top 0 [] text ≡ ps
        → ArePlain spaces vars ps
        → Pieces text ps
        → let (db', vars', text') = apply_script_variables spaces query db vars text in
          (db' ≡ db) × (vars' ≡ vars) × ((text ≡ text') ⊎ (text ≡ text' ++ b';' ∷ []))
    by_pieces [] e plain pieces = rw (e, apply_script_variables) (refl, refl, inl refl)
    by_pieces (p ∷ ps) e plain pieces =
        rw (e, apply_script_variables, apply_all-ArePlain spaces query db vars (p ∷ ps) plain)
          (refl, refl, pieces)
