-- ===== src/Cli/Script/Scan.antt =====
-- What is scanned before a semicolon does not depend on what stands behind the semicolon.
use googlesqlite.Base.{
  ℕ, zero, suc, ◌+◌, ◌≤◌, ◌≡◌, ◌≢◌, refl, ap, Bool, true, false, not, ◌&&◌, List, [], ◌∷◌, ◌++◌,
  inl, inr, arith, ◌==◌, Bool-cases, length,
}
use googlesqlite.Cli.Script.{
  starts, starts_twice, tail, until_newline, until_close, until_tick, triple_body, single_body,
  consume_string,
}

-- The text `u` up to a semicolon, and what stands behind it.
abbrev pub sealed : List ℕ → List ℕ → List ℕ
sealed u r = u ++ b';' ∷ r

pub until_newline-sealed :
    (u r r' : List ℕ)
    → until_newline (sealed u r) ≤ length u
    → until_newline (sealed u r') ≡ until_newline (sealed u r)
unfolding until_newline
until_newline-sealed [] r r' h = absurd (omega arith)
until_newline-sealed (c ∷ u) r r' h = elim (Bool-cases (c == b'\n')) [
  | inl t ↦ rw (t, until_newline) refl
  | inr f ↦
      let h' : 1 + until_newline (sealed u r) ≤ suc (length u) = rw (f, until_newline) at h in
      rw (f, until_newline) (ap (λ k. 1 + k) (until_newline-sealed u r r' (omega arith)))
]

pub until_tick-sealed :
    (u r r' : List ℕ)
    → until_tick (sealed u r) ≤ length u
    → until_tick (sealed u r') ≡ until_tick (sealed u r)
unfolding until_tick
until_tick-sealed [] r r' h = absurd (omega arith)
until_tick-sealed (c ∷ u) r r' h = elim (Bool-cases (c == b'`')) [
  | inl t ↦ rw (t, until_tick) refl
  | inr f ↦
      let h' : 1 + until_tick (sealed u r) ≤ suc (length u) = rw (f, until_tick) at h in
      rw (f, until_tick) (ap (λ k. 1 + k) (until_tick-sealed u r r' (omega arith)))
]

pub starts-sealed :
    (c : ℕ) (u r r' : List ℕ) → c ≢ b';' → starts c (sealed u r') ≡ starts c (sealed u r)
starts-sealed c [] r r' h = refl
starts-sealed c (d ∷ u) r r' h = refl

starts_twice-sealed :
    (c : ℕ) (u r r' : List ℕ)
    → c ≢ b';'
    → starts_twice c (sealed u r') ≡ starts_twice c (sealed u r)
starts_twice-sealed c [] r r' h = let f : (b';' == c) ≡ false = ground arith in rw f refl
starts_twice-sealed c (d ∷ u) r r' h = ap (λ b. d == c && b) (starts-sealed c u r r' h)

pub until_close-sealed :
    (u r r' : List ℕ)
    → until_close (sealed u r) ≤ length u
    → until_close (sealed u r') ≡ until_close (sealed u r)
unfolding until_close
until_close-sealed [] r r' h = absurd (omega arith)
until_close-sealed (c ∷ u) r r' h =
    let same = starts-sealed b'/' u r r' (λ e. ground arith) in
    elim (Bool-cases (c == b'*' && starts b'/' (sealed u r))) [
      | inl t ↦ rw (same, until_close, t) refl
      | inr f ↦
          let h' : 1 + until_close (sealed u r) ≤ suc (length u) = rw (f, until_close) at h in
          rw (same, until_close, f) (ap (λ k. 1 + k) (until_close-sealed u r r' (omega arith)))
    ]

module _ (raw : Bool) (q : ℕ) (other : q ≢ b';') where
  no_escape : (not raw && b';' == b'\\') ≡ false
  no_escape = ground arith

  single_body-semicolon : (r : List ℕ) → single_body raw q 0 (b';' ∷ r) ≡ 1 + single_body raw q 0 r
  unfolding single_body
  single_body-semicolon r =
      let f : (b';' == q) ≡ false = ground arith in rw (no_escape, single_body, f) refl

  triple_body-semicolon : (r : List ℕ) → triple_body raw q 0 (b';' ∷ r) ≡ 1 + triple_body raw q 0 r
  unfolding triple_body
  triple_body-semicolon r =
      let f : (b';' == q) ≡ false = ground arith in rw (no_escape, triple_body, f) refl

  single_body-sealed :
      (k : ℕ) (u r r' : List ℕ)
      → single_body raw q k (sealed u r) ≤ length u
      → single_body raw q k (sealed u r') ≡ single_body raw q k (sealed u r)
  unfolding single_body
  single_body-sealed (suc k) [] r r' h = absurd (omega arith)
  single_body-sealed zero [] r r' h = absurd (omega (arith, h, single_body-semicolon r))
  single_body-sealed (suc k) (c ∷ u) r r' h =
      ap (λ k. 1 + k) (single_body-sealed k u r r' (omega arith))
  single_body-sealed zero (c ∷ u) r r' h = elim (Bool-cases (not raw && c == b'\\')) [
    | inl t ↦
        let h' : 1 + single_body raw q 1 (sealed u r) ≤ suc (length u) = rw (t, single_body) at h in
        rw (t, single_body) (ap (λ k. 1 + k) (single_body-sealed 1 u r r' (omega arith)))
    | inr f ↦ elim (Bool-cases (c == q)) [
      | inl t ↦ rw (f, single_body, t) refl
      | inr g ↦ elim (Bool-cases (c == b'\n')) [
        | inl t ↦ rw (f, single_body, g, t) refl
        | inr n ↦
            let h' : 1 + single_body raw q 0 (sealed u r) ≤ suc (length u) =
              rw (f, single_body, g, n) at h in
            rw (f, single_body, g, n)
              (ap (λ k. 1 + k) (single_body-sealed zero u r r' (omega arith)))
      ]
    ]
  ]

  triple_body-sealed :
      (k : ℕ) (u r r' : List ℕ)
      → triple_body raw q k (sealed u r) ≤ length u
      → triple_body raw q k (sealed u r') ≡ triple_body raw q k (sealed u r)
  unfolding triple_body
  triple_body-sealed (suc k) [] r r' h = absurd (omega arith)
  triple_body-sealed zero [] r r' h = absurd (omega (arith, h, triple_body-semicolon r))
  triple_body-sealed (suc k) (c ∷ u) r r' h =
      ap (λ k. 1 + k) (triple_body-sealed k u r r' (omega arith))
  triple_body-sealed zero (c ∷ u) r r' h =
      let same = starts_twice-sealed q u r r' other in
      elim (Bool-cases (not raw && c == b'\\')) [
        | inl t ↦
            let h' : 1 + triple_body raw q 1 (sealed u r) ≤ suc (length u) =
              rw (t, triple_body) at h in
            rw (t, triple_body) (ap (λ k. 1 + k) (triple_body-sealed 1 u r r' (omega arith)))
        | inr f ↦ elim (Bool-cases (c == q && starts_twice q (sealed u r))) [
          | inl t ↦ rw (f, triple_body, same, t) refl
          | inr g ↦
              let h' : 1 + triple_body raw q 0 (sealed u r) ≤ suc (length u) =
                rw (f, triple_body, g) at h in
              rw (f, triple_body, same, g)
                (ap (λ k. 1 + k) (triple_body-sealed zero u r r' (omega arith)))
        ]
      ]

  pub consume_string-sealed :
      (u r r' : List ℕ)
      → consume_string raw (q ∷ sealed u r) ≤ suc (length u)
      → consume_string raw (q ∷ sealed u r') ≡ consume_string raw (q ∷ sealed u r)
  unfolding consume_string
  consume_string-sealed u r r' h =
      let same = starts_twice-sealed q u r r' other in
      elim (Bool-cases (starts_twice q (sealed u r))) [
        | inl t ↦ rw (same, consume_string, t) (behind u t (rw (t, consume_string) at h))
        | inr f ↦
            let h' : 1 + single_body raw q 0 (sealed u r) ≤ suc (length u) =
              rw (f, consume_string) at h in
            rw (same, consume_string, f)
              (ap (λ k. 1 + k) (single_body-sealed 0 u r r' (omega arith)))
      ]
    where
      behind :
          (v : List ℕ)
          → starts_twice q (sealed v r) ≡ true
          → 3 + triple_body raw q 0 (tail (tail (sealed v r))) ≤ suc (length v)
          → 3 + triple_body raw q 0 (tail (tail (sealed v r')))
            ≡ 3 + triple_body raw q 0 (tail (tail (sealed v r)))
      behind [] t k = absurd (omega arith)
      behind (d ∷ []) t k = absurd (omega arith)
      behind (d ∷ e ∷ v) t k = ap (λ k. 3 + k) (triple_body-sealed 0 v r r' (omega arith))
