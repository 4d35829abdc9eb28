-- ===== src/Functions/Search/Occurrences.antt =====
-- `INSTR` returns the occurrence that was asked for, and `STRPOS` the first one.
use googlesqlite.Base.{
  min, ℕ, zero, suc, ◌+◌, ◌-◌, ◌≤◌, ◌<◌, ◌≡◌, refl, sym, ◌∙◌, subst, ◌≢◌, Bool, true, false, List,
  ◌∷◌, inl, inr, arith, ltb, leb, ◌==◌, ==_iff, if◌then◌else◌, Bool-cases, length,
}
use googlesqlite.Base.Int.{pos, negsuc}
use googlesqlite.Functions.Search.{
  match_at, forward, backward, backward_start, instr_index, index_from, strpos_list,
}

-- How often `sub` stands at the `k` positions from `lo` on.
abbrev pub count : (src sub : List ℕ) (k lo : ℕ) → ℕ
count src sub zero lo = 0
count src sub (suc k) lo = (if match_at src sub lo then 1 else 0) + count src sub k (lo + 1)

-- How often it stands at the `k` positions before `hi`.
abbrev pub count_down : (src sub : List ℕ) (k hi : ℕ) → ℕ
count_down src sub zero hi = 0
count_down src sub (suc k) hi =
    (if match_at src sub (hi - 1) then 1 else 0) + count_down src sub k (hi - 1)

module _ (src sub : List ℕ) (occurrence : ℕ) where
  -- The result `r` of a search from `lo` on, with `found` matches before it: the 1-based position
  -- of the match with the number `occurrence`, or 0 if no position has it.
  pub data IsNth (lo found r : ℕ) : Type 0 where
    nth :
        (k : ℕ)
        → lo + k + length sub ≤ length src
        → match_at src sub (lo + k) ≡ true
        → found + count src sub k lo + 1 ≡ occurrence
        → r ≡ lo + k + 1
        → IsNth lo found r
    missing :
        ((k : ℕ)
          → lo + k + length sub ≤ length src
          → match_at src sub (lo + k) ≡ true
          → found + count src sub k lo + 1 ≢ occurrence)
        → r ≡ 0
        → IsNth lo found r

  -- The same of a search that goes down from the position before `hi`.
  pub data IsNthDown (hi found r : ℕ) : Type 0 where
    nth :
        (k : ℕ)
        → k < hi
        → match_at src sub (hi - k - 1) ≡ true
        → found + count_down src sub k hi + 1 ≡ occurrence
        → r ≡ hi - k
        → IsNthDown hi found r
    missing :
        ((k : ℕ)
          → k < hi
          → match_at src sub (hi - k - 1) ≡ true
          → found + count_down src sub k hi + 1 ≢ occurrence)
        → r ≡ 0
        → IsNthDown hi found r

  IsNth-later :
      (b : Bool) (lo found later r : ℕ)
      → match_at src sub lo ≡ b
      → (b ≡ true → found + 1 ≢ occurrence)
      → later ≡ (if b then 1 else 0) + found
      → IsNth (lo + 1) later r
      → IsNth lo found r
  IsNth-later b lo found later r e here sum (IsNth.nth k fits m c q) =
      let p : lo + 1 + k ≡ lo + suc k = omega arith in
      IsNth.nth (suc k) (omega arith) (subst (λ i. match_at src sub i ≡ true) p m)
        (rw e (omega arith)) (omega arith)
  IsNth-later b lo found later r e here sum (IsNth.missing no_one q) = IsNth.missing go q
    where
      go :
          (k : ℕ)
          → lo + k + length sub ≤ length src
          → match_at src sub (lo + k) ≡ true
          → found + count src sub k lo + 1 ≢ occurrence
      go zero fits m =
          let p : lo + 0 ≡ lo = omega arith in
          let t : b ≡ true = sym e ∙ (rw p at m) in λ c. here t (omega arith)
      go (suc k) fits m =
          let p : lo + suc k ≡ lo + 1 + k = omega arith in
          λ c. let c1 = rw e at c in no_one k (omega arith) (rw p at m) (omega (arith, c1))

  forward_lem :
      (fuel i found : ℕ)
      → length src < fuel + i
      → IsNth i found (forward src sub occurrence fuel i found)
  unfolding forward
  forward_lem zero i found h = IsNth.missing (λ k fits. absurd (omega arith)) refl
  forward_lem (suc fuel) i found h = elim (Bool-cases (leb (i + length sub) (length src))) [
    | inl fits ↦ elim (Bool-cases (match_at src sub i)) [
      | inl m ↦ elim (Bool-cases (found + 1 == occurrence)) [
        | inl t ↦
            rw (fits, forward, m, t)
              (IsNth.nth 0 (ground arith) (let p : i + 0 ≡ i = omega arith in rw p m)
                (omega (arith, (==_iff _ _).0 t)) (omega arith))
        | inr f ↦
            rw (fits, forward, m, f)
              (IsNth-later true i found (found + 1) _ m (λ _ c. ground arith) (omega arith)
                (forward_lem fuel (i + 1) (found + 1) (omega arith)))
      ]
      | inr m ↦
          rw (fits, forward, m)
            (IsNth-later false i found found _ m (λ t. cc) (omega arith)
              (forward_lem fuel (i + 1) found (omega arith)))
    ]
    | inr f ↦ rw (f, forward) (IsNth.missing (λ k fits. absurd (ground arith)) refl)
  ]

  IsNthDown-later :
      (b : Bool) (i found later r : ℕ)
      → match_at src sub i ≡ b
      → (b ≡ true → found + 1 ≢ occurrence)
      → later ≡ (if b then 1 else 0) + found
      → IsNthDown i later r
      → IsNthDown (suc i) found r
  IsNthDown-later b i found later r e here sum (IsNthDown.nth k lt m c q) =
      let p : i - k - 1 ≡ suc i - suc k - 1 = omega arith in
      let first : suc i - 1 ≡ i = omega arith in
      IsNthDown.nth (suc k) (omega arith) (subst (λ j. match_at src sub j ≡ true) p m)
        (rw (first, e) (omega arith)) (omega arith)
  IsNthDown-later b i found later r e here sum (IsNthDown.missing no_one q) = IsNthDown.missing go q
    where
      go :
          (k : ℕ)
          → k < suc i
          → match_at src sub (suc i - k - 1) ≡ true
          → found + count_down src sub k (suc i) + 1 ≢ occurrence
      go zero lt m =
          let p : suc i - 0 - 1 ≡ i = omega arith in
          let t : b ≡ true = sym e ∙ (rw p at m) in λ c. here t (omega arith)
      go (suc k) lt m =
          let p : suc i - suc k - 1 ≡ i - k - 1 = omega arith in
          let first : suc i - 1 ≡ i = omega arith in
          λ c. let c1 = rw (first, e) at c in no_one k (omega arith) (rw p at m) (omega (arith, c1))

  backward_lem : (i found : ℕ) → IsNthDown i found (backward src sub occurrence i found)
  unfolding backward
  backward_lem zero found = IsNthDown.missing (λ k lt. absurd (omega arith)) refl
  backward_lem (suc i) found = elim (Bool-cases (match_at src sub i)) [
    | inl m ↦ elim (Bool-cases (found + 1 == occurrence)) [
      | inl t ↦
          rw (m, backward, t)
            (IsNthDown.nth 0 (omega arith) (let p : suc i - 0 - 1 ≡ i = omega arith in rw p m)
              (omega (arith, (==_iff _ _).0 t)) (omega arith))
      | inr f ↦
          rw (m, backward, f)
            (IsNthDown-later true i found (found + 1) _ m (λ _ c. ground arith) (omega arith)
              (backward_lem i (found + 1)))
    ]
    | inr m ↦
        rw (m, backward)
          (IsNthDown-later false i found found _ m (λ t. cc) (omega arith) (backward_lem i found))
  ]

-- From a positive position in the source, a search of INSTR finds the match that has the number
-- that was asked for among those that start there or later, overlapping ones included, or returns
-- 0 if there is none.
pub instr_index-IsNth :
    (src sub : List ℕ) (p occurrence : ℕ)
    → suc p ≤ length src
    → IsNth src sub occurrence p 0 (instr_index src sub (pos (suc p)) occurrence)
unfolding instr_index
instr_index-IsNth src sub p occurrence h =
    let in_range : ltb (length src) (suc p) ≡ false = ground arith in
    let index : suc p - 1 ≡ p = omega arith in
    rw (in_range, index) (forward_lem src sub occurrence (length src + 1) p 0 (omega arith))

backward_start_lem :
    (n m p : ℕ) → suc p ≤ n → backward_start n m (n - suc p) ≡ min (n - p) (n + 1 - m)
unfolding backward_start
backward_start_lem n m p h = ground arith

-- From a negative position -(p + 1), which counts from the end and lies in the source, a search of
-- INSTR finds the match that has the number that was asked for among those that start at the
-- position or before it and end in the source, the last of them first, or returns 0 if there is
-- none.
pub instr_index-IsNthDown :
    (src sub : List ℕ) (p occurrence : ℕ)
    → suc p ≤ length src
    → IsNthDown src sub occurrence
        (min (length src - p) (length src + 1 - length sub))
        0
        (instr_index src sub (negsuc p) occurrence)
unfolding instr_index
instr_index-IsNthDown src sub p occurrence h =
    let in_range : leb (length src) p ≡ false = ground arith in
    let index : p + 1 ≡ suc p = omega arith in
    let start = backward_start_lem (length src) (length sub) p h in
    rw (in_range, index, start)
      (backward_lem src sub occurrence (min (length src - p) (length src + 1 - length sub)) 0)

index_from-forward :
    (src sub : List ℕ) (fuel i : ℕ) → index_from src sub fuel i ≡ forward src sub 1 fuel i 0
unfolding index_from forward
index_from-forward src sub zero i = refl
index_from-forward src sub (suc fuel) i = elim (Bool-cases (leb (i + length sub) (length src))) [
  | inl t ↦ elim (Bool-cases (match_at src sub i)) [
    | inl m ↦ rw (t, forward, index_from, m) refl
    | inr m ↦ rw (t, forward, index_from, m) (index_from-forward src sub fuel (i + 1))
  ]
  | inr f ↦ rw (f, forward, index_from) refl
]

-- In a source that is not empty `STRPOS` returns what `INSTR` returns for the first occurrence
-- from the first position on.
pub strpos_list-instr_index :
    (c : ℕ) (src sub : List ℕ) → strpos_list (c ∷ src) sub ≡ instr_index (c ∷ src) sub (pos 1) 1
unfolding strpos_list instr_index
strpos_list-instr_index c src sub =
    let in_range : ltb (length (c ∷ src)) 1 ≡ false = ground arith in
    rw in_range (index_from-forward (c ∷ src) sub (length (c ∷ src) + 1) 0)
