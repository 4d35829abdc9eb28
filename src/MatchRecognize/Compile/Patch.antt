-- ===== src/MatchRecognize/Compile/Patch.antt =====
-- Reading code after it has been extended or patched.
use googlesqlite.Base.{
  ℕ, zero, suc, ◌+◌, ◌≤◌, ◌<◌, ◌≡◌, ◌≢◌, refl, sym, ◌∙◌, Option, none, some, Bool, List, [], ◌∷◌,
  ◌++◌, arith, inl, inr, leb, ◌==◌, ==_iff, Bool-cases, Option-cases, true, false, length,
  get_elem?, set, length-set, length-append, get_elem?-set_self, get_elem?-set_ne, get_elem?-lt,
  if◌then◌else◌,
}
use googlesqlite.MatchRecognize.Pattern.{Inst, op_split, Result, ok, err, ◌>>=◌, Code}
use googlesqlite.MatchRecognize.Compile.{
  max_program, emit, patch, patch_jumps, set_split, set_splits, with_x, with_y,
}

pub >>=-eq-ok {ℓ κ} :
    {A : Type ℓ} {B : Type κ} (r : Result A) (f : A → Result B) {b : B}
    → (r >>= f) ≡ ok b
    → (a : A) × (r ≡ ok a) × (f a ≡ ok b)
>>=-eq-ok (ok a) f h = (a, refl, h)
>>=-eq-ok (err e) f h = cc

pub get-append_lt : (xs ys : Code) (i : ℕ) → i < length xs → get_elem? (xs ++ ys) i ≡ get_elem? xs i
get-append_lt [] ys i h = elim h [ ]
get-append_lt (x ∷ xs) ys zero h = refl
get-append_lt (x ∷ xs) ys (suc i) h = get-append_lt xs ys i (omega arith)

pub get-append_last : (xs : Code) (y : Inst) → get_elem? (xs ++ y ∷ []) (length xs) ≡ some y
get-append_last [] y = refl
get-append_last (x ∷ xs) y = get-append_last xs y

pub emit-eq-ok : (i : Inst) (code c : Code) → emit i code ≡ ok c → c ≡ code ++ i ∷ []
unfolding emit
emit-eq-ok i code c h = elim (Bool-cases (leb max_program (length code))) [
  | inl t ↦ ground arith
  | inr f ↦ ground arith
]

-- `code'` starts with `code`.
pub record Extends (code code' : Code) : Type 0 where
  pub longer : length code ≤ length code'
  pub same : (i : ℕ) → i < length code → get_elem? code' i ≡ get_elem? code i

pub Extends-refl : (c : Code) → Extends c c
Extends-refl c = record { longer = omega arith; same = λ i h. refl }

pub Extends-trans : {a b c : Code} → Extends a b → Extends b c → Extends a c
Extends-trans x y = record {
  longer = omega arith;
  same = λ i h. y.same i (omega arith) ∙ x.same i h;
}

pub Extends-snoc : (c : Code) (i : Inst) → Extends c (c ++ i ∷ [])
Extends-snoc c i = record {
  longer = omega (arith, length-append c (i ∷ []));
  same = λ j h. get-append_lt c _ j h;
}

patch-some :
    (f : Inst → Inst) (at : ℕ) (c : Code) (i : Inst)
    → get_elem? c at ≡ some i
    → patch f at c ≡ set c at (f i)
unfolding patch
patch-some f at c i e = rw (e, patch)

patch-none : (f : Inst → Inst) (at : ℕ) (c : Code) → get_elem? c at ≡ none → patch f at c ≡ c
unfolding patch
patch-none f at c e = rw (e, patch)

pub length-patch : (f : Inst → Inst) (at : ℕ) (c : Code) → length (patch f at c) ≡ length c
length-patch f at c = elim (Option-cases (get_elem? c at)) [
  | inl e ↦ rw (patch-none f at c e)
  | inr (i, e) ↦ rw (patch-some f at c i e) (length-set c at (f i))
]

pub get-patch_self :
    (f : Inst → Inst) (at : ℕ) (c : Code) (i : Inst)
    → get_elem? c at ≡ some i
    → get_elem? (patch f at c) at ≡ some (f i)
get-patch_self f at c i e =
    rw (patch-some f at c i e) (get_elem?-set_self c at (f i) (get_elem?-lt c at i e))

pub get-patch_ne :
    (f : Inst → Inst) (at : ℕ) (c : Code) (j : ℕ)
    → at ≢ j
    → get_elem? (patch f at c) j ≡ get_elem? c j
get-patch_ne f at c j ne = elim (Option-cases (get_elem? c at)) [
  | inl e ↦ rw (patch-none f at c e)
  | inr (i, e) ↦ rw (patch-some f at c i e) (get_elem?-set_ne c at j (f i) ne)
]

-- A patch depends on the patched instruction alone.
pub patch-local :
    (f : Inst → Inst) (at : ℕ) (c d : Code) (j : ℕ)
    → get_elem? c j ≡ get_elem? d j
    → get_elem? (patch f at c) j ≡ get_elem? (patch f at d) j
patch-local f at c d j same = elim (Bool-cases (at == j)) [
  | inl t ↦ rw ((==_iff at j).0 t) (here (get_elem? c j) refl)
  | inr t ↦
      let ne : at ≢ j = λ p. ground arith in
      get-patch_ne f at c j ne ∙ same ∙ sym (get-patch_ne f at d j ne)
]
  where
    here :
        (o : Option Inst)
        → get_elem? c j ≡ o
        → get_elem? (patch f j c) j ≡ get_elem? (patch f j d) j
    here none e = rw (patch-none f j c e, patch-none f j d (sym same ∙ e)) same
    here (some i) e = get-patch_self f j c i e ∙ sym (get-patch_self f j d i (sym same ∙ e))

abbrev pub AllFrom : ℕ → List ℕ → Type 0
AllFrom n [] = Unit
AllFrom n (j ∷ js) = (n ≤ j) × AllFrom n js

pub AllFrom-le : (n k : ℕ) (js : List ℕ) → k ≤ n → AllFrom n js → AllFrom k js
AllFrom-le n k [] h a = tt
AllFrom-le n k (j ∷ js) h a = (omega arith, AllFrom-le n k js h a.1)

pub length-patch_jumps : (js : List ℕ) (t : ℕ) (c : Code) → length (patch_jumps js t c) ≡ length c
unfolding patch_jumps
length-patch_jumps [] t c = refl
length-patch_jumps (j ∷ js) t c = length-patch_jumps js t _ ∙ length-patch (with_x t) j c

pub patch_jumps-below :
    (js : List ℕ) (t n : ℕ) (c : Code) (i : ℕ)
    → AllFrom n js
    → i < n
    → get_elem? (patch_jumps js t c) i ≡ get_elem? c i
unfolding patch_jumps
patch_jumps-below [] t n c i a h = refl
patch_jumps-below (j ∷ js) t n c i a h =
    patch_jumps-below js t n _ i a.1 h ∙ get-patch_ne (with_x t) j c i (omega arith)

pub patch_jumps-local :
    (js : List ℕ) (t : ℕ) (c d : Code) (i : ℕ)
    → get_elem? c i ≡ get_elem? d i
    → get_elem? (patch_jumps js t c) i ≡ get_elem? (patch_jumps js t d) i
unfolding patch_jumps
patch_jumps-local [] t c d i e = e
patch_jumps-local (j ∷ js) t c d i e =
    patch_jumps-local js t _ _ i (patch-local (with_x t) j c d i e)

-- What `set_split` makes of a split.
abbrev pub fork : ℕ → ℕ → Bool → Inst
fork body exit reluctant = if reluctant then op_split exit body else op_split body exit

pub length-set_split :
    (at body exit : ℕ) (r : Bool) (c : Code) → length (set_split at body exit r c) ≡ length c
unfolding set_split
length-set_split at body exit r c = length-patch _ at c

pub set_split_self :
    (at body exit : ℕ) (r : Bool) (c : Code) (x y : ℕ)
    → get_elem? c at ≡ some (op_split x y)
    → get_elem? (set_split at body exit r c) at ≡ some (fork body exit r)
unfolding set_split with_x with_y
set_split_self at body exit true c x y e = get-patch_self _ at c (op_split x y) e
set_split_self at body exit false c x y e = get-patch_self _ at c (op_split x y) e

pub set_split-ne :
    (at body exit : ℕ) (r : Bool) (c : Code) (j : ℕ)
    → at ≢ j
    → get_elem? (set_split at body exit r c) j ≡ get_elem? c j
unfolding set_split
set_split-ne at body exit r c j ne = get-patch_ne _ at c j ne

pub length-set_splits :
    (ss : List ℕ) (exit : ℕ) (r : Bool) (c : Code) → length (set_splits ss exit r c) ≡ length c
unfolding set_splits
length-set_splits [] exit r c = refl
length-set_splits (s ∷ ss) exit r c =
    length-set_splits ss exit r _ ∙ length-set_split s (s + 1) exit r c

pub set_splits-below :
    (ss : List ℕ) (exit : ℕ) (r : Bool) (n : ℕ) (c : Code) (i : ℕ)
    → AllFrom n ss
    → i < n
    → get_elem? (set_splits ss exit r c) i ≡ get_elem? c i
unfolding set_splits
set_splits-below [] exit r n c i a h = refl
set_splits-below (s ∷ ss) exit r n c i a h =
    set_splits-below ss exit r n _ i a.1 h ∙ set_split-ne s (s + 1) exit r c i (omega arith)

pub set_splits-local :
    (ss : List ℕ) (exit : ℕ) (r : Bool) (c d : Code) (i : ℕ)
    → get_elem? c i ≡ get_elem? d i
    → get_elem? (set_splits ss exit r c) i ≡ get_elem? (set_splits ss exit r d) i
unfolding set_splits set_split
set_splits-local [] exit r c d i e = e
set_splits-local (s ∷ ss) exit r c d i e =
    set_splits-local ss exit r _ _ i (patch-local _ s c d i e)
