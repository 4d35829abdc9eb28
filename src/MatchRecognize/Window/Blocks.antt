-- ===== src/MatchRecognize/Window/Blocks.antt =====
-- What `record_match` writes: one entry for each row of the match.
use native.Mathlib.Nat.{add-zero}
use googlesqlite.Base.{
  ℕ, zero, suc, ◌+◌, ◌-◌, ◌*◌, ◌≤◌, ◌<◌, ◌≡◌, ◌≢◌, refl, ◌∙◌, ap, ◌⊎◌, inl, inr, some, true, false,
  List, [], ◌∷◌, ◌++◌, arith, ◌==◌, ==_iff, Bool-cases, length, get_elem?, get_or, set, length-set,
  get_elem?-set_self, get_elem?-some,
}
use googlesqlite.Base.Int.{pos, negsuc}
use googlesqlite.MatchRecognize.Vm.{Machine}
use googlesqlite.MatchRecognize.Vm.Accept.{
  Accepts, here, take, jump, split_x, split_y, at_start, at_end,
}
use googlesqlite.MatchRecognize.Vm.Sound.{unwind}
use googlesqlite.MatchRecognize.Window.{
  Entry, entry, Results, append_entry, append_vars, fill, record_match,
}

abbrev pub row : Results → ℕ → List Entry
row rs r = get_or rs r []

-- Each variable of `vs` holds of its row, from row `i` on.
abbrev pub Holds : Machine → ℕ → List ℕ → Type 0
Holds m i [] = Unit
Holds m i (v ∷ vs) = (i < m.n) × (get_elem? m.bits (i * m.nv + v) ≡ some true) × Holds m (i + 1) vs

-- An execution consumes the rows from its start to its end, and the predicate of each row's
-- variable holds there.
pub Accepts-Holds :
    {m : Machine} {pc i e : ℕ} {vs : List ℕ}
    → Accepts m pc i vs e
    → Holds m i vs × (e ≡ i + length vs)
Accepts-Holds (here at nil eq) = rw nil (tt, omega arith)
Accepts-Holds (take v ws at lt bit eq a) =
    let (h, l) = Accepts-Holds a in rw eq ((lt, bit, h), omega arith)
Accepts-Holds (jump x at a) = Accepts-Holds a
Accepts-Holds (split_x x y at a) = Accepts-Holds a
Accepts-Holds (split_y x y at a) = Accepts-Holds a
Accepts-Holds (at_start at z a) = Accepts-Holds a
Accepts-Holds (at_end at z a) = Accepts-Holds a

pub Holds-end : (m : Machine) (i : ℕ) (vs : List ℕ) → i ≤ m.n → Holds m i vs → i + length vs ≤ m.n
Holds-end m i [] le h = omega arith
Holds-end m i (v ∷ vs) le h = omega (arith, Holds-end m (i + 1) vs (omega arith) h.2)

length-unwind : (path ws : List ℕ) → length (unwind path ws) ≡ length path + length ws
length-unwind [] ws = omega arith
length-unwind (v ∷ path) ws = omega (arith, length-unwind path (v ∷ ws))

fill_lem : (path ws : List ℕ) → fill (length path) path ws ≡ some (unwind path ws)
unfolding fill
fill_lem [] ws = refl
fill_lem (v ∷ path) ws = fill_lem path (v ∷ ws)

pub get_or-some :
    {A : Type 0} (xs : List A) (i : ℕ) (d x : A) → get_elem? xs i ≡ some x → get_or xs i d ≡ x
get_or-some [] i d x e = cc
get_or-some (y ∷ ys) zero d x e = cc
get_or-some (y ∷ ys) (suc i) d x e = get_or-some ys i d x e

get_or-set_ne :
    {A : Type 0} (xs : List A) (i j : ℕ) (v d : A) → i ≢ j → get_or (set xs i v) j d ≡ get_or xs j d
get_or-set_ne [] i j v d h = refl
get_or-set_ne (x ∷ xs) zero zero v d h = absurd (h refl)
get_or-set_ne (x ∷ xs) zero (suc j) v d h = refl
get_or-set_ne (x ∷ xs) (suc i) zero v d h = refl
get_or-set_ne (x ∷ xs) (suc i) (suc j) v d h = get_or-set_ne xs i j v d (λ e. h (ap suc e))

-- `rs'` is `rs` with the entry `f r` behind row `r`, for each of the `k` rows from `s` on.
pub record Block (s k : ℕ) (f : ℕ → Entry) (rs rs' : Results) : Type 0 where
  pub sized : length rs' ≡ length rs
  pub inside : (r : ℕ) → s ≤ r → r < s + k → row rs' r ≡ row rs r ++ f r ∷ []
  pub outside : (r : ℕ) → (r < s) ⊎ (s + k ≤ r) → row rs' r ≡ row rs r

append_entry-Block :
    (s : ℕ) (f : ℕ → Entry) (e : Entry) (rs : Results)
    → s < length rs
    → f s ≡ e
    → (rs' : Results) × (append_entry s e rs ≡ some rs') × Block s 1 f rs rs'
unfolding append_entry
append_entry-Block s f e rs lt eq =
    let (es, at) = get_elem?-some rs s lt in
    (
      set rs s (es ++ e ∷ []),
      rw (at, append_entry) refl,
      record {
        sized = length-set rs s _;
        inside = λ r lo hi. inside r es at (omega arith);
        outside = λ r h. get_or-set_ne rs s r _ [] (apart r h);
      },
    )
  where
    inside :
        (r : ℕ) (es : List Entry)
        → get_elem? rs s ≡ some es
        → r ≡ s
        → row (set rs s (es ++ e ∷ [])) r ≡ row rs r ++ f r ∷ []
    inside r es at same =
        rw (same, eq, get_or-some rs s [] es at)
          (get_or-some _ s [] _ (get_elem?-set_self rs s _ lt))

    apart : (r : ℕ) → (r < s) ⊎ (s + 1 ≤ r) → s ≢ r
    apart r (inl h) = omega arith
    apart r (inr h) = omega arith

-- The entry that `append_vars` gives to row `r`.
abbrev pub var_entry : (s mn : ℕ) → List ℕ → ℕ → Entry
var_entry s mn vs r = entry mn (r - s + 1) (pos (get_or vs (r - s) 0))

Block-empty : (s : ℕ) (f : ℕ → Entry) (rs : Results) → Block s 0 f rs rs
Block-empty s f rs = record {
  sized = refl;
  inside = λ r lo hi. absurd (omega arith);
  outside = λ r h. refl;
}

Block-cons :
    (s t k : ℕ) (f : ℕ → Entry) (rs rs' rs'' : Results)
    → t ≡ s + 1
    → Block s 1 f rs rs'
    → Block t k f rs' rs''
    → Block s (suc k) f rs rs''
Block-cons s t k f rs rs' rs'' eq a b = record {
  sized = b.sized ∙ a.sized;
  inside = λ r lo hi. elim (Bool-cases (r == s)) [
    | inl same ↦
        let at_s : r ≡ s = (==_iff r s).0 same in
        b.outside r (inl (omega arith)) ∙ a.inside r lo (omega arith)
    | inr other ↦
        let past : s < r = ground arith in
        b.inside r (omega arith) (omega arith)
        ∙ ap (λ l. l ++ f r ∷ []) (a.outside r (inr (omega arith)))
  ];
  outside = λ r h. b.outside r (rest r h) ∙ a.outside r (first r h);
}
  where
    rest : (r : ℕ) → (r < s) ⊎ (s + suc k ≤ r) → (r < t) ⊎ (t + k ≤ r)
    rest r (inl h) = inl (omega arith)
    rest r (inr h) = inr (omega arith)

    first : (r : ℕ) → (r < s) ⊎ (s + suc k ≤ r) → (r < s) ⊎ (s + 1 ≤ r)
    first r (inl h) = inl h
    first r (inr h) = inr (omega arith)

-- The entries that `f` gives to the rows of `vs`, the first of which has index `i` in the match.
abbrev Numbers : (s mn i : ℕ) → List ℕ → (ℕ → Entry) → Type 0
Numbers s mn i vs f =
    (j : ℕ) → j < length vs → f (s + i + j) ≡ entry mn (i + j + 1) (pos (get_or vs j 0))

Numbers-head :
    (s mn i v : ℕ) (vs : List ℕ) (f : ℕ → Entry)
    → Numbers s mn i (v ∷ vs) f
    → f (s + i) ≡ entry mn (i + 1) (pos v)
Numbers-head s mn i v vs f h = simp add-zero at (h 0 (omega arith))

Numbers-tail :
    (s mn i v : ℕ) (vs : List ℕ) (f : ℕ → Entry)
    → Numbers s mn i (v ∷ vs) f
    → Numbers s mn (i + 1) vs f
Numbers-tail s mn i v vs f h j lt =
    let p : s + (i + 1) + j ≡ s + i + suc j = omega arith in
    let q : i + 1 + j ≡ i + suc j = omega arith in rw (p, q) (h (suc j) (omega arith))

append_vars-Block :
    (s mn i : ℕ) (vs : List ℕ) (f : ℕ → Entry) (rs : Results)
    → s + i + length vs ≤ length rs
    → Numbers s mn i vs f
    → (rs' : Results) × (append_vars s mn i vs rs ≡ some rs') × Block (s + i) (length vs) f rs rs'
unfolding append_vars
append_vars-Block s mn i [] f rs fits h = (rs, refl, Block-empty (s + i) f rs)
append_vars-Block s mn i (v ∷ vs) f rs fits h =
    let (rs', p, b) =
      append_entry-Block (s + i) f (entry mn (i + 1) (pos v)) rs (omega arith)
        (Numbers-head s mn i v vs f h) in
    let (rs'', q, c) =
      append_vars-Block s mn (i + 1) vs f rs' (omega (arith, b.sized))
        (Numbers-tail s mn i v vs f h) in
    (
      rs'',
      rw (p, append_vars) q,
      Block-cons (s + i) (s + (i + 1)) (length vs) f rs rs' rs'' (omega arith) b c,
    )

-- What a match of the rows from `s` on with variables `vs` writes: its own entry for an empty one,
-- and for any other one numbered entry with each row's variable.
abbrev pub match_entry : (s mn : ℕ) → List ℕ → ℕ → Entry
match_entry s mn [] r = entry mn 0 (negsuc 0)
match_entry s mn (v ∷ vs) r = var_entry s mn (v ∷ vs) r

abbrev pub match_rows : List ℕ → ℕ
match_rows [] = 1
match_rows (v ∷ vs) = suc (length vs)

-- If the path of a match has a variable for each of its rows and the rows are in the partition, then
-- recording the match does not fail, gives each of the rows one more entry, with its number and its
-- variable, or the row of an empty match the entry 0, and changes no other row.
pub record_match-Block :
    (s mn e : ℕ) (path : List ℕ) (rs : Results)
    → e ≡ s + length (unwind path [])
    → s < length rs
    → e ≤ length rs
    → (rs' : Results) × (record_match s mn e path rs ≡ some rs')
      × Block s (match_rows (unwind path [])) (match_entry s mn (unwind path [])) rs rs'
unfolding record_match
record_match-Block s mn e path rs eq lt le = by_vars (unwind path []) refl
  where
    filled : fill (e - s) path [] ≡ some (unwind path [])
    filled =
        let size : e - s ≡ length path = omega (arith, length-unwind path []) in
        rw size (fill_lem path [])

    by_vars :
        (vs : List ℕ)
        → unwind path [] ≡ vs
        → (rs' : Results) × (record_match s mn e path rs ≡ some rs')
          × Block s (match_rows vs) (match_entry s mn vs) rs rs'
    by_vars [] nil =
        let same : (e == s) ≡ true =
          (==_iff e s).1 (omega (arith, ap (λ (l : List ℕ). length l) nil)) in
        rw same (append_entry-Block s (match_entry s mn []) _ rs lt refl)
    by_vars (v ∷ vs) some_vars =
        let rows : length (unwind path []) ≡ suc (length vs) =
          ap (λ (l : List ℕ). length l) some_vars in
        let differ : (e == s) ≡ false = ground arith in
        let zero_off : s + 0 ≡ s = omega arith in
        rw (differ, filled, some_vars)
          (rw zero_off at (
            append_vars-Block s mn 0 (v ∷ vs) (match_entry s mn (v ∷ vs)) rs (omega arith)
              (λ j h. number j)))
      where
        number :
            (j : ℕ)
            → var_entry s mn (v ∷ vs) (s + 0 + j) ≡ entry mn (0 + j + 1) (pos (get_or (v ∷ vs) j 0))
        number j =
            let p : s + 0 + j - s ≡ j = omega arith in let q : 0 + j ≡ j = omega arith in rw (p, q)
