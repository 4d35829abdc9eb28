-- ===== src/Functions/Like/Meaning.antt =====
-- What a LIKE pattern matches.
use googlesqlite.Base.{
  ℕ, ◌≡◌, ◌≢◌, ◌↔◌, refl, sym, ◌∙◌, ap, subst, Option-cases, ==_refl, arith, none, some, Bool, true,
  false, ◌&&◌, List, [], ◌∷◌, ◌==◌, ==_iff, inl, inr, Bool-cases, true_not_false,
}
use googlesqlite.Functions.Like.{
  Part, literal, any, run, part, followed_by, like_pattern_to_regexp, on_rest, match_string, like,
}

-- An underscore matches one character, a percent sign any run of characters, a backslash makes the
-- next character literal, and every other character matches itself.
pub data Matches : (pattern text : List ℕ) → Type 0 where
  finished : Matches [] []
  one : (c : ℕ) {p s : List ℕ} → Matches p s → Matches (b'_' ∷ p) (c ∷ s)
  no_more : {p s : List ℕ} → Matches p s → Matches (b'%' ∷ p) s
  more : (c : ℕ) {p s : List ℕ} → Matches (b'%' ∷ p) s → Matches (b'%' ∷ p) (c ∷ s)
  escaped : (c : ℕ) {p s : List ℕ} → Matches p s → Matches (b'\\' ∷ c ∷ p) (c ∷ s)
  itself :
      (c : ℕ) {p s : List ℕ}
      → c ≢ b'\\'
      → c ≢ b'_'
      → c ≢ b'%'
      → Matches p s
      → Matches (c ∷ p) (c ∷ s)

and_true : (a b : Bool) → (a && b) ≡ true → (a ≡ true) × (b ≡ true)
and_true true b e = (refl, e)
and_true false b e = absurd (true_not_false (sym e))

on_rest-Matches :
    (p : List ℕ) (f : List ℕ → Bool)
    → ((s : List ℕ) → f s ≡ true → Matches p s)
    → (s : List ℕ) → on_rest f s ≡ true
    → Matches (b'%' ∷ p) s
unfolding on_rest
on_rest-Matches p f h [] e = no_more (h [] e)
on_rest-Matches p f h (c ∷ s) e = elim (Bool-cases (f (c ∷ s))) [
  | inl t ↦ no_more (h (c ∷ s) t)
  | inr g ↦ more c (on_rest-Matches p f h s (rw (g, on_rest) at e))
]

-- The parts of a pattern, with what they stand for.
data Reads : List ℕ → List Part → Type 0 where
  read_end : Reads [] []
  read_any : {p : List ℕ} {ps : List Part} → Reads p ps → Reads (b'_' ∷ p) (any ∷ ps)
  read_run : {p : List ℕ} {ps : List Part} → Reads p ps → Reads (b'%' ∷ p) (run ∷ ps)
  read_escaped :
      (c : ℕ) {p : List ℕ} {ps : List Part} → Reads p ps → Reads (b'\\' ∷ c ∷ p) (literal c ∷ ps)
  read_itself :
      (c : ℕ) {p : List ℕ} {ps : List Part}
      → c ≢ b'\\'
      → c ≢ b'_'
      → c ≢ b'%'
      → Reads p ps
      → Reads (c ∷ p) (literal c ∷ ps)

Reads-Matches :
    {p : List ℕ} {ps : List Part}
    → Reads p ps
    → (s : List ℕ) → match_string ps s ≡ true
    → Matches p s
unfolding match_string
Reads-Matches read_end [] e = finished
Reads-Matches read_end (c ∷ s) e = absurd (true_not_false (sym e))
Reads-Matches (read_any r) [] e = absurd (true_not_false (sym e))
Reads-Matches (read_any r) (c ∷ s) e = one c (Reads-Matches r s e)
Reads-Matches (read_run {p = p} {ps = ps} r) s e =
    on_rest-Matches p (match_string ps) (λ s' h. Reads-Matches r s' h) s e
Reads-Matches (read_escaped d r) [] e = absurd (true_not_false (sym e))
Reads-Matches (read_escaped d {p = p} r) (c ∷ s) e =
    let (same, rest) = and_true (d == c) _ e in
    let is : d ≡ c = (==_iff d c).0 same in
    subst (λ x. Matches (b'\\' ∷ d ∷ p) (x ∷ s)) is (escaped d (Reads-Matches r s rest))
Reads-Matches (read_itself d x y z r) [] e = absurd (true_not_false (sym e))
Reads-Matches (read_itself d {p = p} x y z r) (c ∷ s) e =
    let (same, rest) = and_true (d == c) _ e in
    let is : d ≡ c = (==_iff d c).0 same in
    subst (λ x. Matches (d ∷ p) (x ∷ s)) is (itself d x y z (Reads-Matches r s rest))

not_equal : (c k : ℕ) → c ≢ k → (c == k) ≡ false
not_equal c k h = ground arith

-- A character that is no backslash gives one part.
to_regexp-plain :
    (c : ℕ) (p : List ℕ)
    → (c == b'\\') ≡ false
    → like_pattern_to_regexp (c ∷ p) ≡ followed_by (part c) (like_pattern_to_regexp p)
unfolding like_pattern_to_regexp
to_regexp-plain c [] e = rw (e, like_pattern_to_regexp) refl
to_regexp-plain c (d ∷ p) e = rw (e, like_pattern_to_regexp) refl

part-literal : (c : ℕ) → c ≢ b'_' → c ≢ b'%' → part c ≡ literal c
part-literal c y z = rw (not_equal c b'_' y, part, not_equal c b'%' z) refl

on_rest_here : (f : List ℕ → Bool) (s : List ℕ) → f s ≡ true → on_rest f s ≡ true
unfolding on_rest
on_rest_here f [] h = h
on_rest_here f (c ∷ s) h = rw h refl

on_rest_later :
    (f : List ℕ → Bool) (c : ℕ) (s : List ℕ) → on_rest f s ≡ true → on_rest f (c ∷ s) ≡ true
unfolding on_rest
on_rest_later f c s h = elim (Bool-cases (f (c ∷ s))) [ inl t ↦ rw t refl | inr g ↦ rw (g, h) refl ]

absent : {l : List Part} → none ≡ some l → ⊥
absent e = cc

some_same : {l k : List Part} → some l ≡ some k → l ≡ k
some_same e = cc

abbrev Found : List ℕ → List ℕ → Type 0
Found p s = (ps : List Part) × (like_pattern_to_regexp p ≡ some ps) × (match_string ps s ≡ true)

Matches-Found : {p s : List ℕ} → Matches p s → Found p s
unfolding like_pattern_to_regexp match_string
Matches-Found finished = ([], refl, refl)
Matches-Found (one c {p = p} m) =
    let (ps, e, h) = Matches-Found m in
    (any ∷ ps, to_regexp-plain b'_' p refl ∙ ap (followed_by any) e, h)
Matches-Found (no_more {p = p} {s = s} m) =
    let (ps, e, h) = Matches-Found m in
    (
      run ∷ ps,
      to_regexp-plain b'%' p refl ∙ ap (followed_by run) e,
      on_rest_here (match_string ps) s h,
    )
Matches-Found (more c {p = p} {s = s} m) =
    let (qs, e, h) = Matches-Found m in
    elim (Option-cases (like_pattern_to_regexp p)) [
      | inl no_parts ↦
          let gone : like_pattern_to_regexp (b'%' ∷ p) ≡ none =
            to_regexp-plain b'%' p refl ∙ ap (followed_by run) no_parts in
          absurd (absent (sym gone ∙ e))
      | inr (ps, f) ↦
          let all : like_pattern_to_regexp (b'%' ∷ p) ≡ some (run ∷ ps) =
            to_regexp-plain b'%' p refl ∙ ap (followed_by run) f in
          let h' : match_string (run ∷ ps) s ≡ true =
            subst (λ (l : List Part). match_string l s ≡ true) (some_same (sym e ∙ all)) h in
          (run ∷ ps, all, on_rest_later (match_string ps) c s h')
    ]
Matches-Found (escaped c m) =
    let (ps, e, h) = Matches-Found m in
    (literal c ∷ ps, ap (followed_by (literal c)) e, rw (==_refl c) h)
Matches-Found (itself c {p = p} x y z m) =
    let (ps, e, h) = Matches-Found m in
    (
      literal c ∷ ps,
      to_regexp-plain c p (not_equal c b'\\' x)
          ∙ rw (part-literal c y z) (ap (followed_by (literal c)) e),
      rw (==_refl c) h,
    )

no_answer : {b : Bool} → none ≡ some b → ⊥
no_answer e = cc

true_same : {a b : Bool} → some a ≡ some b → a ≡ b
true_same e = cc

part-Reads :
    (c : ℕ) (p : List ℕ) (ps : List Part)
    → (c == b'\\') ≡ false
    → Reads p ps
    → Reads (c ∷ p) (part c ∷ ps)
part-Reads c p ps f r = elim (Bool-cases (c == b'_')) [
  | inl t ↦
      let is : c ≡ b'_' = (==_iff c b'_').0 t in
      subst (λ x. Reads (x ∷ p) (part x ∷ ps)) (sym is) (read_any r)
  | inr g ↦ elim (Bool-cases (c == b'%')) [
    | inl t ↦
        let is : c ≡ b'%' = (==_iff c b'%').0 t in
        subst (λ x. Reads (x ∷ p) (part x ∷ ps)) (sym is) (read_run r)
    | inr h ↦
        let x : c ≢ b'\\' = λ e. ground arith in
        let y : c ≢ b'_' = λ e. ground arith in
        let z : c ≢ b'%' = λ e. ground arith in
        subst (λ q. Reads (c ∷ p) (q ∷ ps)) (sym (part-literal c y z)) (read_itself c x y z r)
  ]
]

-- The parts that the source writes stand for the pattern.
to_regexp-Reads : (p : List ℕ) (ps : List Part) → like_pattern_to_regexp p ≡ some ps → Reads p ps
unfolding like_pattern_to_regexp
to_regexp-Reads [] ps e = subst (λ (l : List Part). Reads [] l) (some_same e) read_end
to_regexp-Reads (c ∷ []) ps e = elim (Bool-cases (c == b'\\')) [
  | inl t ↦ absurd (absent (rw (t, like_pattern_to_regexp) at e))
  | inr f ↦
      subst (λ (l : List Part). Reads (c ∷ []) l) (some_same (rw (f, like_pattern_to_regexp) at e))
        (part-Reads c [] [] f read_end)
]
to_regexp-Reads (c ∷ d ∷ p) ps e = elim (Bool-cases (c == b'\\')) [
  | inl t ↦
      let is : c ≡ b'\\' = (==_iff c b'\\').0 t in
      elim (Option-cases (like_pattern_to_regexp p)) [
        | inl g ↦ absurd (absent (rw (t, like_pattern_to_regexp, g) at e))
        | inr (qs, g) ↦
            subst (λ (l : List Part). Reads (c ∷ d ∷ p) l)
              (some_same (rw (t, like_pattern_to_regexp, g) at e))
              (subst (λ x. Reads (x ∷ d ∷ p) (literal d ∷ qs)) (sym is)
                (read_escaped d (to_regexp-Reads p qs g)))
      ]
  | inr f ↦ elim (Option-cases (like_pattern_to_regexp (d ∷ p))) [
    | inl g ↦ absurd (absent (rw (f, like_pattern_to_regexp, g) at e))
    | inr (qs, g) ↦
        subst (λ (l : List Part). Reads (c ∷ d ∷ p) l)
          (some_same (rw (f, like_pattern_to_regexp, g) at e))
          (part-Reads c (d ∷ p) qs f (to_regexp-Reads (d ∷ p) qs g))
  ]
]

-- LIKE is TRUE exactly for the texts that the pattern matches.
pub like-Matches : (text pattern : List ℕ) → (like text pattern ≡ some true) ↔ Matches pattern text
unfolding like
like-Matches text pattern = (sound, complete)
  where
    sound : like text pattern ≡ some true → Matches pattern text
    sound e = elim (Option-cases (like_pattern_to_regexp pattern)) [
      | inl g ↦ absurd (no_answer (rw (g, like) at e))
      | inr (ps, g) ↦
          Reads-Matches (to_regexp-Reads pattern ps g) text (true_same (rw (g, like) at e))
    ]

    complete : Matches pattern text → like text pattern ≡ some true
    complete m = let (ps, e, h) = Matches-Found m in rw (e, like, h) refl
