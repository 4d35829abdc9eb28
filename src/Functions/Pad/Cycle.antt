-- ===== src/Functions/Pad/Cycle.antt =====
-- What `LPAD` and `RPAD` return: a value of the size that was asked for, the padding of which runs
-- through the pattern again and again.
use googlesqlite.Base.{
  ℕ, zero, suc, ◌+◌, ◌-◌, ◌*◌, ◌/◌, ◌≤◌, ◌<◌, ◌≡◌, refl, ◌∙◌, some, List, [], ◌∷◌, ◌++◌, inl, inr,
  arith, ltb, leb, leb→le, Bool-cases, length, get_elem?, take, length-append, length-take,
}
use native.Mathlib.Nat.{lt-div-mul-add, mul-le-mul_right}
use googlesqlite.Functions.Value.{ok, repeat}
use googlesqlite.Functions.Pad.{pad_pattern, lpad_list, rpad_list}

module _ {A : Type 0} where
  pub get-append_left :
      (xs ys : List A) (i : ℕ) → i < length xs → get_elem? (xs ++ ys) i ≡ get_elem? xs i
  get-append_left [] ys i h = elim h [ ]
  get-append_left (x ∷ xs) ys zero h = refl
  get-append_left (x ∷ xs) ys (suc i) h = get-append_left xs ys i (omega arith)

  pub get-append_right :
      (xs ys : List A) (i : ℕ) → get_elem? (xs ++ ys) (length xs + i) ≡ get_elem? ys i
  get-append_right [] ys i = let p : 0 + i ≡ i = omega arith in rw p refl
  get-append_right (x ∷ xs) ys i =
      let p : suc (length xs) + i ≡ suc (length xs + i) = omega arith in
      rw p (get-append_right xs ys i)

  pub get-take : (n : ℕ) (xs : List A) (i : ℕ) → i < n → get_elem? (take n xs) i ≡ get_elem? xs i
  get-take zero xs i h = elim h [ ]
  get-take (suc n) [] i h = refl
  get-take (suc n) (x ∷ xs) zero h = refl
  get-take (suc n) (x ∷ xs) (suc i) h = get-take n xs i (omega arith)

length-repeat : (n : ℕ) (s : List ℕ) → length (repeat n s) ≡ n * length s
unfolding repeat
length-repeat zero s = omega arith
length-repeat (suc n) s = omega (arith, length-append s (repeat n s), length-repeat n s)

get-repeat :
    (n q : ℕ) (s : List ℕ) (i : ℕ)
    → i < length s
    → q < n
    → get_elem? (repeat n s) (q * length s + i) ≡ get_elem? s i
unfolding repeat
get-repeat zero q s i h k = absurd (omega arith)
get-repeat (suc n) zero s i h k =
    let p : 0 * length s + i ≡ i = omega arith in rw p (get-append_left s (repeat n s) i h)
get-repeat (suc n) (suc q) s i h k =
    let p : suc q * length s + i ≡ length s + (q * length s + i) = omega arith in
    rw p (get-append_right s (repeat n s) (q * length s + i) ∙ get-repeat n q s i h (omega arith))

-- `xs` has `k` elements, which run through `p` again and again.
pub record IsCycle (p : List ℕ) (k : ℕ) (xs : List ℕ) : Type 0 where
  pub sized : length xs ≡ k
  pub cyclic :
      (q i : ℕ)
      → i < length p
      → q * length p + i < k
      → get_elem? xs (q * length p + i) ≡ get_elem? p i

-- Enough copies of the pattern.
enough : (remain len : ℕ) → 0 < len → len < remain → remain ≤ ((remain - len) / len + 2) * len
enough remain len h k = omega (arith, lt-div-mul-add {a = remain - len} h)

copies : (n q i len : ℕ) → i < len → q * len + i < n * len → q < n
copies n q i len h k = elim (Bool-cases (leb n q)) [
  | inl le ↦ absurd (omega (arith, mul-le-mul_right len (leb→le n q le)))
  | inr lt ↦ ground arith
]

IsCycle-take :
    (n remain : ℕ) (p : List ℕ)
    → remain ≤ n * length p
    → IsCycle p remain (take remain (repeat n p))
IsCycle-take n remain p h = record {
  sized = omega (arith, length-take remain (repeat n p), length-repeat n p);
  cyclic = λ q i lt fits.
      get-take remain (repeat n p) (q * length p + i) fits
      ∙ get-repeat n q p i lt (copies n q i (length p) lt (omega arith));
}

pad_pattern-IsCycle :
    (remain c : ℕ) (p : List ℕ)
    → (xs : List ℕ) × (pad_pattern remain (some (some (c ∷ p))) ≡ ok xs)
      × IsCycle (c ∷ p) remain (take remain xs)
unfolding pad_pattern
pad_pattern-IsCycle remain c p = elim (Bool-cases (ltb (length (c ∷ p)) remain)) [
  | inl t ↦ (
    repeat ((remain - length (c ∷ p)) / length (c ∷ p) + 2) (c ∷ p),
    rw t refl,
    IsCycle-take _ remain (c ∷ p) (enough remain (length (c ∷ p)) (omega arith) (ground arith)),
  )
  | inr f ↦ (
    c ∷ p,
    rw f refl,
    let le : remain ≤ length (c ∷ p) = ground arith in
        record {
          sized = omega (arith, length-take remain (c ∷ p), le);
          cyclic = λ q i lt fits.
              get-take remain (c ∷ p) (q * length (c ∷ p) + i) fits
              ∙ once q i (copies 1 q i (length (c ∷ p)) lt (omega arith));
        },
  )
]
  where
    once : (q i : ℕ) → q < 1 → get_elem? (c ∷ p) (q * length (c ∷ p) + i) ≡ get_elem? (c ∷ p) i
    once q i h =
        let none_skipped : q ≡ 0 = omega arith in
        let same : q * length (c ∷ p) + i ≡ i = rw none_skipped (omega arith) in rw same refl

-- A value `s` that is padded to `n` runes or bytes: cut off, or with a cycle of `p` beside it.
pub record IsPadded (beside : List ℕ → List ℕ) (n : ℕ) (p s r : List ℕ) : Type 0 where
  pub sized : length r ≡ n
  pub padded : length s < n → (xs : List ℕ) × (r ≡ beside xs) × IsCycle p (n - length s) xs
  pub cut_off : n ≤ length s → r ≡ take n s

-- With a pattern that is not empty, `LPAD` of a list returns as many elements as were asked for:
-- the first ones of a list that is long enough, and else the whole list behind a cycle of the
-- pattern.
pub lpad_list-IsPadded :
    (n c : ℕ) (p s : List ℕ)
    → (r : List ℕ) × (lpad_list n (some (some (c ∷ p))) s ≡ ok r)
      × IsPadded (λ xs. xs ++ s) n (c ∷ p) s r
unfolding lpad_list
lpad_list-IsPadded n c p s = elim (Bool-cases (leb n (length s))) [
  | inl t ↦
      let le : n ≤ length s = leb→le n (length s) t in
      (
        take n s,
        rw t refl,
        record {
          sized = omega (arith, length-take n s);
          padded = λ lt. absurd (omega arith);
          cut_off = λ _. refl;
        },
      )
  | inr f ↦
      let lt : length s < n = ground arith in
      let (xs, e, cycle) = pad_pattern-IsCycle (n - length s) c p in
      (
        take (n - length s) xs ++ s,
        rw (f, e) refl,
        record {
          sized = omega (arith, length-append (take (n - length s) xs) s, cycle.sized);
          padded = λ _. (take (n - length s) xs, refl, cycle);
          cut_off = λ le. absurd (omega arith);
        },
      )
]

-- With a pattern that is not empty, `RPAD` of a list returns as many elements as were asked for:
-- the first ones of a list that is long enough, and else the whole list with a cycle of the
-- pattern behind it.
pub rpad_list-IsPadded :
    (n c : ℕ) (p s : List ℕ)
    → (r : List ℕ) × (rpad_list n (some (some (c ∷ p))) s ≡ ok r)
      × IsPadded (λ xs. s ++ xs) n (c ∷ p) s r
unfolding rpad_list
rpad_list-IsPadded n c p s = elim (Bool-cases (leb n (length s))) [
  | inl t ↦
      let le : n ≤ length s = leb→le n (length s) t in
      (
        take n s,
        rw t refl,
        record {
          sized = omega (arith, length-take n s);
          padded = λ lt. absurd (omega arith);
          cut_off = λ _. refl;
        },
      )
  | inr f ↦
      let lt : length s < n = ground arith in
      let (xs, e, cycle) = pad_pattern-IsCycle (n - length s) c p in
      (
        s ++ take (n - length s) xs,
        rw (f, e) refl,
        record {
          sized = omega (arith, length-append s (take (n - length s) xs), cycle.sized);
          padded = λ _. (take (n - length s) xs, refl, cycle);
          cut_off = λ le. absurd (omega arith);
        },
      )
]
