-- ===== src/Cli/Script/Literal.antt =====
-- String literals that are found before a semicolon.
use googlesqlite.Base.{
  ℕ, suc, ◌+◌, ◌≡◌, ◌≢◌, refl, ap, none, some, Bool, true, false, List, [], ◌∷◌, inl, inr, arith,
  if◌then◌else◌, Bool-cases, length, drop,
}
use googlesqlite.Cli.Script.{is_quote, is_r, is_b, opens, literal_at}
use googlesqlite.Cli.Script.Scan.{sealed}

-- A literal that is found before a semicolon opens before it.
opens-sealed :
    (raw : Bool) (n : ℕ) (u r r' : List ℕ) → opens raw n (sealed u r') ≡ opens raw n (sealed u r)
opens-sealed raw n [] r r' = refl
opens-sealed raw n (c ∷ u) r r' = refl

opens_lem :
    (raw : Bool) (n : ℕ) (u r : List ℕ) (raw' : Bool) (n' : ℕ)
    → opens raw n (sealed u r) ≡ some (raw', n')
    → (q : ℕ) × (v : List ℕ) × (u ≡ q ∷ v) × (q ≢ b';') × (n' ≡ n)
opens_lem raw n [] r raw' n' h = cc
opens_lem raw n (c ∷ v) r raw' n' h = elim (Bool-cases (is_quote c)) [
  | inl t ↦
      let found : some (raw, n) ≡ some (raw', n') = rw t at h in
      (c, v, refl, (λ e. ground arith), cc)
  | inr f ↦ let bad : none ≡ some (raw', n') = rw f at h in cc
]

-- The quote of a literal is found within `u`, at index `n`.
abbrev pub QuoteAt : List ℕ → ℕ → Type 0
QuoteAt u n =
    (q : ℕ) × (v : List ℕ) × (q ≢ b';')
    × (n + suc (length v) ≡ length u)
    × ((r : List ℕ) → drop n (sealed u r) ≡ q ∷ sealed v r)

pub literal_at-sealed :
    (c : ℕ) (u r r' : List ℕ) → literal_at (sealed (c ∷ u) r') ≡ literal_at (sealed (c ∷ u) r)
unfolding literal_at
literal_at-sealed c [] r r' = refl
literal_at-sealed c (d ∷ u) r r' =
    ap
      (λ o.
        if is_r c
        then (if is_b d then o else opens true 1 (d ∷ []))
        else if is_b c
        then (if is_r d then o else opens false 1 (d ∷ []))
        else opens false 0 (c ∷ []))
      (opens-sealed true 2 u r r')

opens-QuoteAt :
    (raw : Bool) (u r : List ℕ) (raw' : Bool) (n : ℕ)
    → opens raw 0 (sealed u r) ≡ some (raw', n)
    → QuoteAt u n
opens-QuoteAt raw u r raw' n h =
    let (q, v, e, other, zero_n) = opens_lem raw 0 u r raw' n h in
    rw (e, zero_n) (q, v, other, omega arith, λ r'. refl)

opens-QuoteAt_one :
    (raw : Bool) (c : ℕ) (u r : List ℕ) (raw' : Bool) (n : ℕ)
    → opens raw 1 (sealed u r) ≡ some (raw', n)
    → QuoteAt (c ∷ u) n
opens-QuoteAt_one raw c u r raw' n h =
    let (q, v, e, other, one_n) = opens_lem raw 1 u r raw' n h in
    rw (e, one_n) (q, v, other, omega arith, λ r'. refl)

opens-QuoteAt_two :
    (raw : Bool) (c d : ℕ) (u r : List ℕ) (raw' : Bool) (n : ℕ)
    → opens raw 2 (sealed u r) ≡ some (raw', n)
    → QuoteAt (c ∷ d ∷ u) n
opens-QuoteAt_two raw c d u r raw' n h =
    let (q, v, e, other, two_n) = opens_lem raw 2 u r raw' n h in
    rw (e, two_n) (q, v, other, omega arith, λ r'. refl)

pub literal_at-QuoteAt :
    (c : ℕ) (u r : List ℕ) (raw : Bool) (n : ℕ)
    → literal_at (sealed (c ∷ u) r) ≡ some (raw, n)
    → QuoteAt (c ∷ u) n
unfolding literal_at
literal_at-QuoteAt c [] r raw n h = elim (Bool-cases (is_r c)) [
  | inl t ↦ let bad : none ≡ some (raw, n) = rw t at h in cc
  | inr f ↦ elim (Bool-cases (is_b c)) [
    | inl t ↦ let bad : none ≡ some (raw, n) = rw (f, t) at h in cc
    | inr g ↦ opens-QuoteAt false (c ∷ []) r raw n (rw (f, g) at h)
  ]
]
literal_at-QuoteAt c (d ∷ u) r raw n h = elim (Bool-cases (is_r c)) [
  | inl t ↦ elim (Bool-cases (is_b d)) [
    | inl b ↦ opens-QuoteAt_two true c d u r raw n (rw (t, b) at h)
    | inr b ↦ opens-QuoteAt_one true c (d ∷ u) r raw n (rw (t, b) at h)
  ]
  | inr f ↦ elim (Bool-cases (is_b c)) [
    | inl t ↦ elim (Bool-cases (is_r d)) [
      | inl b ↦ opens-QuoteAt_two true c d u r raw n (rw (f, t, b) at h)
      | inr b ↦ opens-QuoteAt_one false c (d ∷ u) r raw n (rw (f, t, b) at h)
    ]
    | inr g ↦ opens-QuoteAt false (c ∷ d ∷ u) r raw n (rw (f, g) at h)
  ]
]
