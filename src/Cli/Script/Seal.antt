-- ===== src/Cli/Script/Seal.antt =====
-- A token that ends before a semicolon does not depend on what stands behind the semicolon.
use googlesqlite.Base.{
  ℕ, suc, ◌+◌, ◌≤◌, ◌≡◌, refl, ap, List, [], ◌∷◌, inl, inr, arith, ◌==◌, Bool-cases, Option-cases,
  length, drop,
}
use googlesqlite.Cli.Script.{
  tail, until_close, until_tick, literal_at, consume_string, line_comment, block_comment,
  string_token, token,
}
use googlesqlite.Cli.Script.Scan.{
  sealed, until_newline-sealed, until_tick-sealed, starts-sealed, until_close-sealed,
  consume_string-sealed,
}
use googlesqlite.Cli.Script.Literal.{literal_at-sealed, literal_at-QuoteAt}

string_token-sealed :
    (c : ℕ) (u r r' : List ℕ)
    → string_token (sealed (c ∷ u) r) ≤ suc (length u)
    → string_token (sealed (c ∷ u) r') ≡ string_token (sealed (c ∷ u) r)
unfolding string_token
string_token-sealed c u r r' h =
    let same = literal_at-sealed c u r r' in
    elim (Option-cases (literal_at (sealed (c ∷ u) r))) [
      | inl e ↦ rw (same, string_token, e) refl
      | inr ((raw, n), e) ↦
          let (q, v, other, len, at) = literal_at-QuoteAt c u r raw n e in
          let h' : n + consume_string raw (drop n (sealed (c ∷ u) r)) ≤ suc (length u) =
            rw (e, string_token) at h in
          let h'' : n + consume_string raw (q ∷ sealed v r) ≤ suc (length u) = rw (at r) at h' in
          rw (same, string_token, e)
            (ap (λ k. n + k)
              (rw (at r, at r') (consume_string-sealed raw q other v r r' (omega arith))))
    ]

-- A token that ends before the semicolon is the same whatever stands behind it.
pub token-sealed :
    (c : ℕ) (u r r' : List ℕ)
    → token c (sealed u r) ≤ suc (length u)
    → token c (sealed u r') ≡ token c (sealed u r)
unfolding token
token-sealed c u r r' h =
    let dash = starts-sealed b'-' u r r' (λ e. ground arith) in
    let star = starts-sealed b'*' u r r' (λ e. ground arith) in
    elim (Bool-cases (line_comment c (sealed u r))) [
      | inl t ↦ rw (dash, token, t) (until_newline-sealed (c ∷ u) r r' (rw (t, token) at h))
      | inr f ↦ elim (Bool-cases (block_comment c (sealed u r))) [
        | inl t ↦ rw (dash, token, f, star, t) (in_block u (rw (f, token, t) at h))
        | inr g ↦ elim (Bool-cases (c == b'`')) [
          | inl t ↦
              let h' : 1 + until_tick (sealed u r) ≤ suc (length u) = rw (f, token, g, t) at h in
              rw (dash, token, f, star, g, t)
                (ap (λ k. 1 + k) (until_tick-sealed u r r' (omega arith)))
          | inr n ↦
              rw (dash, token, f, star, g, n)
                (string_token-sealed c u r r' (rw (f, token, g, n) at h))
        ]
      ]
    ]
  where
    in_block :
        (v : List ℕ)
        → 2 + until_close (tail (sealed v r)) ≤ suc (length v)
        → 2 + until_close (tail (sealed v r')) ≡ 2 + until_close (tail (sealed v r))
    in_block [] k = absurd (omega arith)
    in_block (d ∷ v) k = ap (λ k. 2 + k) (until_close-sealed v r r' (omega arith))
