-- ===== src/MatchRecognize/Window/Collected.antt =====
-- What the calls of `Step` for the rows of a partition leave in the window.
use googlesqlite.Base.{
  append_nil, append_assoc, map, ℕ, suc, ◌+◌, ◌*◌, ◌≡◌, refl, sym, ◌∙◌, ap, subst, inl, inr, Option,
  none, some, Bool, false, List, [], ◌∷◌, ◌++◌, arith, ltb, ◌==◌, Bool-cases, length, take, drop,
  length-append, length-drop,
}
use googlesqlite.MatchRecognize.Pattern.{Arg, null, arg, wrong_count, Result, ok, err, ◌>>=◌}
use googlesqlite.MatchRecognize.Compile.{compile_pattern}
use googlesqlite.MatchRecognize.Compile.Patch.{>>=-eq-ok}
use googlesqlite.MatchRecognize.Window.{
  Spec, Program, Window, new_window, truthy, truthy_all, prepare, collect, step,
}

-- The calls of `Step` for the rows of a partition, in order.
unfoldable pub feed : Option Spec → List (List Arg) → Window → Result Window
feed parsed [] w = ok w
feed parsed (args ∷ rows) w = do w' ← step parsed args w; feed parsed rows w'

-- Every call has the number of arguments that the pattern asks for, as each row of one query does.
abbrev pub AllSized : ℕ → List (List Arg) → Type 0
AllSized k [] = Unit
AllSized k (args ∷ rows) = (length args ≡ k) × AllSized k rows

length-truthy_all :
    (as' : List Arg) (bs : List Bool) → truthy_all as' ≡ ok bs → length bs ≡ length as'
unfolding truthy_all
length-truthy_all [] bs h = let same : [] ≡ bs = cc in subst (λ k. length k ≡ 0) same refl
length-truthy_all (a ∷ as') bs h =
    let (b, p, h1) = >>=-eq-ok (truthy a) _ h in
    let (bs', q, h2) = >>=-eq-ok (truthy_all as') _ h1 in
    let same : b ∷ bs' ≡ bs = cc in
    subst (λ k. length k ≡ suc (length as')) same (ap suc (length-truthy_all as' bs' q))

-- An argument is TRUE; NULL is not.
abbrev pub is_true : Arg → Bool
is_true null = false
is_true (arg i none) = false
is_true (arg i (some b)) = b

-- The predicates of a row stand behind LONGEST and the bounds, one for each variable; which of them
-- are TRUE, row by row.
abbrev pub bits_of : (nb : ℕ) → List (List Arg) → List Bool
bits_of nb [] = []
bits_of nb (args ∷ rows) = map is_true (drop (suc nb) args) ++ bits_of nb rows

bits_of-append :
    (nb : ℕ) (xs : List (List Arg)) (args : List Arg)
    → bits_of nb (xs ++ args ∷ []) ≡ bits_of nb xs ++ map is_true (drop (suc nb) args)
bits_of-append nb [] args = append_nil (map is_true (drop (suc nb) args))
bits_of-append nb (x ∷ xs) args =
    ap (λ (l : List Bool). map is_true (drop (suc nb) x) ++ l) (bits_of-append nb xs args)
    ∙ sym (
        append_assoc (map is_true (drop (suc nb) x)) (bits_of nb xs)
          (map is_true (drop (suc nb) args)))

truthy-is_true : (a : Arg) (b : Bool) → truthy a ≡ ok b → b ≡ is_true a
unfolding truthy
truthy-is_true null b h = cc
truthy-is_true (arg i none) b h = cc
truthy-is_true (arg i (some c)) b h = cc

truthy_all-is_true :
    (as' : List Arg) (bs : List Bool) → truthy_all as' ≡ ok bs → bs ≡ map is_true as'
unfolding truthy_all
truthy_all-is_true [] bs h = cc
truthy_all-is_true (a ∷ as') bs h =
    let (b, p, h1) = >>=-eq-ok (truthy a) _ h in
    let (bs', q, h2) = >>=-eq-ok (truthy_all as') _ h1 in
    let same : b ∷ bs' ≡ bs = cc in
    sym same
    ∙ ap (λ c. c ∷ bs') (truthy-is_true a b p)
    ∙ ap (λ (l : List Bool). is_true a ∷ l) (truthy_all-is_true as' bs' q)

-- What a window knows once it has read rows: the pattern compiled with the bounds of the first one,
-- and the bits of all of them.
pub record Collected (spec : Spec) (longest : Bool) (bounds : List Arg) (rows : List (List Arg))
    (w : Window) : Type 0 where
  pub program : Program
  pub prog_is : w.prog ≡ some program
  pub compiled : compile_pattern bounds spec.pattern ≡ ok program.insts
  pub skip_is : program.skip ≡ spec.skip
  pub nv_is : program.nv ≡ spec.nv
  pub nb_is : program.nb ≡ spec.nb
  pub longest_is : w.longest ≡ longest
  pub bits_are : w.bits ≡ bits_of spec.nb rows
  pub row_count : w.n ≡ length rows
  pub bit_count : length w.bits ≡ w.n * spec.nv

collect-Collected :
    (spec : Spec) (longest : Bool) (p : Program) (bounds : List Arg) (seen : List (List Arg))
    (l : Arg) (rest : List Arg) (w w' : Window)
    → compile_pattern bounds spec.pattern ≡ ok p.insts
    → p.skip ≡ spec.skip
    → p.nv ≡ spec.nv
    → p.nb ≡ spec.nb
    → length rest ≡ spec.nb + spec.nv
    → w.bits ≡ bits_of spec.nb seen
    → w.n ≡ length seen
    → length w.bits ≡ w.n * spec.nv
    → collect (longest, p) rest w ≡ ok w'
    → Collected spec longest bounds (seen ++ (l ∷ rest) ∷ []) w'
unfolding collect
collect-Collected spec longest p bounds seen l rest w w' c es ev eb len are count bits h =
    elim (Bool-cases (ltb (length rest) p.nb)) [
      | inl t ↦ absurd (ground arith)
      | inr f ↦ more (rw f at h)
    ]
  where
    more :
        (truthy_all (drop p.nb rest) >>= λ bs. ok (record w {
          prog = some p;
          longest = longest;
          bits = w.bits ++ bs;
          n = w.n + 1;
          computed = false;
        }))
          ≡ ok w'
        → Collected spec longest bounds (seen ++ (l ∷ rest) ∷ []) w'
    more h' =
        let (bs, q, e) = >>=-eq-ok (truthy_all (drop p.nb rest)) _ h' in
        let same : record w {
          prog = some p;
          longest = longest;
          bits = w.bits ++ bs;
          n = w.n + 1;
          computed = false;
        }
            ≡ w' =
          cc in
        subst (Collected spec longest bounds (seen ++ (l ∷ rest) ∷ [])) same (record {
          program = p;
          prog_is = refl;
          compiled = c;
          skip_is = es;
          nv_is = ev;
          nb_is = eb;
          longest_is = refl;
          bits_are =
              let here : bs ≡ map is_true (drop spec.nb rest) =
                truthy_all-is_true (drop p.nb rest) bs q ∙ ap (λ k. map is_true (drop k rest)) eb in
              ap (λ (x : List Bool). x ++ bs) are
              ∙ ap (λ (x : List Bool). bits_of spec.nb seen ++ x) here
              ∙ sym (bits_of-append spec.nb seen (l ∷ rest));
          row_count = omega (arith, count, length-append seen ((l ∷ rest) ∷ []));
          bit_count =
              let one : length bs ≡ spec.nv =
                omega (arith, length-truthy_all (drop p.nb rest) bs q, length-drop p.nb rest) in
              omega (arith, length-append w.bits bs);
        })

-- Every further call of `Step` keeps it.
step-Collected :
    (spec : Spec) (longest : Bool) (bounds : List Arg) (seen : List (List Arg)) (args : List Arg)
    (w w' : Window)
    → length args ≡ suc (spec.nb + spec.nv)
    → Collected spec longest bounds seen w
    → step (some spec) args w ≡ ok w'
    → Collected spec longest bounds (seen ++ args ∷ []) w'
unfolding step
step-Collected spec longest bounds seen [] w w' len c h = absurd (omega arith)
step-Collected spec longest bounds seen (l ∷ rest) w w' len c h =
    subst (λ b. Collected spec b bounds (seen ++ (l ∷ rest) ∷ []) w') c.longest_is
      (collect-Collected spec w.longest c.program bounds seen l rest w w' c.compiled c.skip_is
        c.nv_is c.nb_is (omega arith) c.bits_are c.row_count c.bit_count
        (subst (λ o. after o ≡ ok w') c.prog_is h))
  where
    after : Option Program → Result Window
    after o = elim o [
      | none ↦ do p ← prepare (some spec) l rest; collect p rest w
      | some p ↦ collect (w.longest, p) rest w
    ]

prepare-eq-ok :
    (spec : Spec) (l : Arg) (rest : List Arg) (r : Bool × Program)
    → prepare (some spec) l rest ≡ ok r
    → (r.0 ≡ is_true l)
      × (compile_pattern (take spec.nb rest) spec.pattern ≡ ok r.1.insts)
      × (r.1.skip ≡ spec.skip)
      × (r.1.nv ≡ spec.nv)
      × (r.1.nb ≡ spec.nb)
unfolding prepare
prepare-eq-ok spec l rest r h = elim (Bool-cases (length rest == spec.nb + spec.nv)) [
  | inr f ↦ let wrong : err wrong_count ≡ ok r = rw f at h in cc wrong
  | inl t ↦ right (rw t at h)
]
  where
    right :
        (truthy l >>= λ longest. compile_pattern (take spec.nb rest) spec.pattern >>= λ code.
        ok (longest, record { insts = code; skip = spec.skip; nv = spec.nv; nb = spec.nb }))
          ≡ ok r
        → (r.0 ≡ is_true l)
          × (compile_pattern (take spec.nb rest) spec.pattern ≡ ok r.1.insts)
          × (r.1.skip ≡ spec.skip)
          × (r.1.nv ≡ spec.nv)
          × (r.1.nb ≡ spec.nb)
    right h' =
        let (longest, e, h1) = >>=-eq-ok (truthy l) _ h' in
        let (code, e', h2) = >>=-eq-ok (compile_pattern (take spec.nb rest) spec.pattern) _ h1 in
        let same : ◌≡◌ {A = Bool × Program}
            (longest, record { insts = code; skip = spec.skip; nv = spec.nv; nb = spec.nb }) r =
          cc in
        subst
          (λ (k : Bool × Program).
            (k.0 ≡ is_true l)
            × (compile_pattern (take spec.nb rest) spec.pattern ≡ ok k.1.insts)
            × (k.1.skip ≡ spec.skip)
            × (k.1.nv ≡ spec.nv)
            × (k.1.nb ≡ spec.nb))
          same (truthy-is_true l longest e, e', refl, refl, refl)

-- The first call compiles the pattern.
pub first-Collected :
    (spec : Spec) (pid : ℕ) (l : Arg) (rest : List Arg) (w' : Window)
    → length rest ≡ spec.nb + spec.nv
    → step (some spec) (l ∷ rest) (new_window pid) ≡ ok w'
    → Collected spec (is_true l) (take spec.nb rest) ((l ∷ rest) ∷ []) w'
unfolding step new_window
first-Collected spec pid l rest w' len h =
    let (r, e, h1) = >>=-eq-ok (prepare (some spec) l rest) _ h in
    let (el, c, es, ev, eb) = prepare-eq-ok spec l rest r e in
    subst (λ b. Collected spec b (take spec.nb rest) ((l ∷ rest) ∷ []) w') el
      (collect-Collected spec r.0 r.1 (take spec.nb rest) [] l rest (new_window pid) w' c es ev eb
        len refl refl (omega arith) h1)

pub feed-Collected :
    (spec : Spec) (longest : Bool) (bounds : List Arg) (seen rows : List (List Arg)) (w w' : Window)
    → AllSized (suc (spec.nb + spec.nv)) rows
    → Collected spec longest bounds seen w
    → feed (some spec) rows w ≡ ok w'
    → Collected spec longest bounds (seen ++ rows) w'
unfolding feed
feed-Collected spec longest bounds seen [] w w' sized c h =
    let same : w ≡ w' = cc in
    subst (λ k. Collected spec longest bounds k w') (sym (append_nil seen))
      (subst (Collected spec longest bounds seen) same c)
feed-Collected spec longest bounds seen (args ∷ rows) w w' sized c h =
    let (w1, e, h1) = >>=-eq-ok (step (some spec) args w) _ h in
    subst (λ k. Collected spec longest bounds k w') (append_assoc seen (args ∷ []) rows)
      (feed-Collected spec longest bounds (seen ++ args ∷ []) rows w1 w' sized.1
        (step-Collected spec longest bounds seen args w w1 sized.0 c e) h1)
