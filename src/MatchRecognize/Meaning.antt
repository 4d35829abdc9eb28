-- ===== src/MatchRecognize/Meaning.antt =====
-- What a row pattern of MATCH_RECOGNIZE means, with no reference to its code: which rows it
-- matches, and which variable each of them gets.
pub mod Powers
pub mod Complete
pub mod Sound
pub mod Exact
pub mod Range
use googlesqlite.Base.{
  ℕ, zero, suc, ◌+◌, ◌*◌, ◌≤◌, ◌<◌, ◌≡◌, ◌⊎◌, Option, none, some, Bool, true, List, [], ◌∷◌, ◌++◌,
  get_elem?,
}
use googlesqlite.MatchRecognize.Pattern.{
  Pattern, Patterns, variable, empty, start, end, unknown, cat, alt, quantifier, nil, cons, Arg, ok,
}
use googlesqlite.MatchRecognize.Compile.{bound_value, lower}
use googlesqlite.MatchRecognize.Vm.{Machine}

-- `R i vs j`: from row `i` up to row `j` the rows get the variables `vs`.
abbrev pub Rel : Type 1
Rel = ℕ → List ℕ → ℕ → Type 0

abbrev pub Then : Rel → Rel → Rel
Then R S i vs j = (k : ℕ) × (us : List ℕ) × (ws : List ℕ) × (vs ≡ us ++ ws) × R i us k × S k ws j

abbrev pub Power : ℕ → Rel → Rel
Power zero R i vs j = (vs ≡ []) × (j ≡ i)
Power (suc n) R i vs j = Then R (Power n R) i vs j

abbrev pub AtMost : ℕ → Option ℕ → Type 0
AtMost k none = Unit
AtMost k (some hi) = k ≤ hi

-- At least `lo` times, and at most as often as the upper bound allows.
abbrev pub Repeats : ℕ → Option ℕ → Rel → Rel
Repeats lo h R i vs j = (k : ℕ) × (lo ≤ k) × AtMost k h × Power k R i vs j

-- The rows and their predicate bits are those of `m`; its code is not read.
module _ (m : Machine) (bs : List Arg) where
  unfoldable mutual
    pub Means : Pattern → ℕ → List ℕ → ℕ → Type 0
    Means (variable v) i vs j =
        (vs ≡ v ∷ []) × (j ≡ i + 1) × (i < m.n) × (get_elem? m.bits (i * m.nv + v) ≡ some true)
    Means empty i vs j = (vs ≡ []) × (j ≡ i)
    Means start i vs j = (vs ≡ []) × (j ≡ i) × (i ≡ 0)
    Means end i vs j = (vs ≡ []) × (j ≡ i) × (i ≡ m.n)
    Means unknown i vs j = ⊥
    Means (cat ps) i vs j = MeansAll ps i vs j
    Means (alt ps) i vs j = MeansAny ps i vs j
    Means (quantifier p lo hi r) i vs j =
        (l : Option ℕ) × (h : Option ℕ) × (bound_value bs lo ≡ ok l)
        × (bound_value bs hi ≡ ok h)
        × Repeats (lower l) h (Means p) i vs j

    pub MeansAll : Patterns → ℕ → List ℕ → ℕ → Type 0
    MeansAll nil i vs j = (vs ≡ []) × (j ≡ i)
    MeansAll (cons p ps) i vs j = Then (Means p) (MeansAll ps) i vs j

    -- An alternation of no patterns, which the grammar does not have, is the empty pattern.
    pub MeansAny : Patterns → ℕ → List ℕ → ℕ → Type 0
    MeansAny nil i vs j = (vs ≡ []) × (j ≡ i)
    MeansAny (cons p nil) i vs j = Means p i vs j
    MeansAny (cons p (cons q qs)) i vs j = Means p i vs j ⊎ MeansAny (cons q qs) i vs j
