-- ===== src/RangeFrame/Search.antt =====
-- sort.Search.
use googlesqlite.Base.{
  not_ltb, true_not_false, ℕ, zero, suc, ◌+◌, ◌/◌, ◌≤◌, ◌<◌, ◌≡◌, sym, ◌∙◌, Bool, true, false, inl,
  inr, arith, ltb, ltb→lt, Bool-cases,
}
use googlesqlite.RangeFrame.{search_from, search}

-- The test holds at every index behind one where it holds.
abbrev pub Monotone : ℕ → (ℕ → Bool) → Type 0
Monotone n f = (j k : ℕ) → j ≤ k → k < n → f j ≡ true → f k ≡ true

-- The first index below `n` at which the test holds, or `n`.
abbrev pub IsFirst : ℕ → (ℕ → Bool) → ℕ → Type 0
IsFirst n f p = (p ≤ n) × ((j : ℕ) → j < p → f j ≡ false) × ((j : ℕ) → p ≤ j → j < n → f j ≡ true)

-- It fails at every index up to one where it fails.
false_below :
    (n : ℕ) (f : ℕ → Bool)
    → Monotone n f
    → (h : ℕ) → h < n
    → f h ≡ false
    → (k : ℕ) → k < h + 1
    → f k ≡ false
false_below n f mono h hn not_h k lt = elim (Bool-cases (f k)) [
  | inl y ↦ let at_h = mono k h (omega arith) hn y in absurd (true_not_false (sym at_h ∙ not_h))
  | inr e ↦ e
]

search_from-IsFirst :
    (n fuel : ℕ) (f : ℕ → Bool) (i j : ℕ)
    → Monotone n f
    → i ≤ j
    → j ≤ n
    → j ≤ i + fuel
    → ((k : ℕ) → k < i → f k ≡ false)
    → ((k : ℕ) → j ≤ k → k < n → f k ≡ true)
    → IsFirst n f (search_from fuel f i j)
unfolding search_from
search_from-IsFirst n zero f i j mono ij jn enough below above =
    (omega arith, below, λ k le lt. above k (omega arith) lt)
search_from-IsFirst n (suc fuel) f i j mono ij jn enough below above = elim (Bool-cases (ltb i j)) [
  | inr f' ↦
      let at : j ≤ i = not_ltb i j f' in
      rw (f', search_from) (omega arith, below, λ k le lt. above k (omega arith) lt)
  | inl t ↦
      let h = (i + j) / 2 in
      let lt : i < j = ltb→lt i j t in
      let hi : i ≤ h = omega arith in
      let hj : h < j = omega arith in
      elim (Bool-cases (f h)) [
        | inl y ↦
            rw (t, search_from, y)
              (search_from-IsFirst n fuel f i h mono hi (omega arith) (omega arith) below
                (λ k le lt'. mono h k le lt' y))
        | inr not_h ↦
            rw (t, search_from, not_h)
              (search_from-IsFirst n fuel f (h + 1) j mono (omega arith) jn (omega arith)
                (false_below n f mono h (omega arith) not_h) above)
      ]
]

-- The binary search finds the first index at which a test holds that stays true, or n.
pub search-IsFirst : (n : ℕ) (f : ℕ → Bool) → Monotone n f → IsFirst n f (search n f)
unfolding search
search-IsFirst n f mono =
    search_from-IsFirst n n f 0 n mono (omega arith) (omega arith) (omega arith)
      (λ k lt. absurd (omega arith)) (λ k le lt. absurd (omega arith))
