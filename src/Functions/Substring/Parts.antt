-- ===== src/Functions/Substring/Parts.antt =====
-- What `SUBSTR`, `LEFT` and `RIGHT` return.
use googlesqlite.Base.{
  ℕ, zero, suc, ◌+◌, ◌-◌, ◌≤◌, ◌<◌, ◌⊎◌, ◌≡◌, refl, sym, ◌∙◌, ap, none, some, false, List, [], ◌∷◌,
  ◌++◌, inl, inr, arith, ltb, leb, leb→le, if◌then◌else◌, Bool-cases, length, take, drop, min,
  length-drop, length-take, take-append-drop,
}
use googlesqlite.Base.Int.{ℤ, pos, negsuc}
use googlesqlite.Functions.Value.{ok}
use googlesqlite.Functions.Substring.{substr_pos, slice, substr_list, left_list, right_list}

take-all : (n : ℕ) (s : List ℕ) → length s ≤ n → take n s ≡ s
take-all zero [] h = refl
take-all zero (x ∷ s) h = absurd (omega arith)
take-all (suc n) [] h = refl
take-all (suc n) (x ∷ s) h = rw (take-all n s (omega arith))

slice_lem :
    (i j : ℕ) (s : List ℕ) → i ≤ j → j ≤ length s → slice i j s ≡ ok (take (j - i) (drop i s))
unfolding slice
slice_lem i j s h k =
    let a : ltb j i ≡ false = ground arith in
    let b : ltb (length s) j ≡ false = ground arith in rw (a, b) refl

length_of_take :
    (l : ℕ) (s : List ℕ) → (length (take l s) ≡ l) ⊎ ((length (take l s) < l) × (drop l s ≡ []))
length_of_take zero s = inl refl
length_of_take (suc l) [] = inr (omega arith, refl)
length_of_take (suc l) (x ∷ s) = elim (length_of_take l s) [
  | inl e ↦ inl (ap suc e)
  | inr (lt, e) ↦ inr (omega arith, e)
]

pub substr_pos-le : (p : ℤ) (len : ℕ) → substr_pos p len ≤ len
unfolding substr_pos
substr_pos-le (pos zero) len = omega arith
substr_pos-le (pos (suc p)) len = ground arith
substr_pos-le (negsuc p) len = ground arith

take-min : (n : ℕ) (s : List ℕ) → take (min n (length s)) s ≡ take n s
take-min n s = elim (Bool-cases (leb n (length s))) [
  | inl t ↦ let p : min n (length s) ≡ n = omega (arith, leb→le n (length s) t) in rw p refl
  | inr f ↦
      let le : length s ≤ n = ground arith in
      let p : min n (length s) ≡ length s = omega arith in
      rw p (take-all (length s) s (omega arith) ∙ sym (take-all n s le))
]

-- Where a position points in a list: 1 and 0 are its start, a position behind its end is its end,
-- and a negative one counts back from the end, to the start at most.
abbrev pub PointsAt : ℤ → (len i : ℕ) → Type 0
PointsAt (pos zero) len i = i ≡ 0
PointsAt (pos (suc k)) len i = ((k ≤ len) × (i ≡ k)) ⊎ ((len < k) × (i ≡ len))
PointsAt (negsuc k) len i = (i + suc k ≡ len) ⊎ ((len < suc k) × (i ≡ 0))

substr_pos-PointsAt : (p : ℤ) (len : ℕ) → PointsAt p len (substr_pos p len)
unfolding substr_pos
substr_pos-PointsAt (pos zero) len = refl
substr_pos-PointsAt (pos (suc k)) len = elim (Bool-cases (ltb len (suc k))) [
  | inl t ↦ elim (Bool-cases (ltb len k)) [
    | inl t' ↦ rw t (inr (ground arith, refl))
    | inr f' ↦ rw t (inl (ground arith, ground arith))
  ]
  | inr f ↦ rw f (inl (ground arith, refl))
]
substr_pos-PointsAt (negsuc k) len = elim (Bool-cases (ltb len (suc k))) [
  | inl t ↦ rw t (inr (ground arith, refl))
  | inr f ↦ rw f (inl (ground arith))
]

slice_of :
    (i l : ℕ) (s : List ℕ)
    → i ≤ length s
    → slice i (min (i + (if ltb (length s) l then length s else l)) (length s)) s
      ≡ ok (take l (drop i s))
slice_of i l s le =
    let part : min (i + (if ltb (length s) l then length s else l)) (length s) - i
        ≡ min l (length (drop i s)) =
      ground (arith, length-drop i s) in
    let fits : i ≤ min (i + (if ltb (length s) l then length s else l)) (length s) = omega arith in
    slice_lem i _ s fits (omega arith) ∙ rw part (ap ok (take-min l (drop i s)))

slice_to_end :
    (i : ℕ) (s : List ℕ) → i ≤ length s → slice i (min (i + length s) (length s)) s ≡ ok (drop i s)
slice_to_end i s le =
    slice_lem i (min (i + length s) (length s)) s (omega arith) (omega arith)
    ∙ ap ok (take-all _ (drop i s) (omega (arith, length-drop i s)))

-- `SUBSTR` of a list with a length that is not negative never fails. The list is made up of a part
-- in front, the part that is returned, and a rest: the returned part begins where the position
-- points, and is as long as was asked for, or reaches the end of the list if that is too long.
-- Without a length, what is returned reaches the end of the list.
pub substr_list_lem :
    (p : ℤ) (l : ℕ) (s : List ℕ)
    → (before : List ℕ) × (part : List ℕ) × (rest : List ℕ) × (substr_list p (some (pos l)) s
        ≡ ok part)
      × (substr_list p none s ≡ ok (part ++ rest))
      × (before ++ (part ++ rest) ≡ s)
      × PointsAt p (length s) (length before)
      × ((length part ≡ l) ⊎ ((length part < l) × (rest ≡ [])))
unfolding substr_list
substr_list_lem p l s =
    let i = substr_pos p (length s) in
    let le = substr_pos-le p (length s) in
    let points = substr_pos-PointsAt p (length s) in
    let size : length (take i s) ≡ i = omega (arith, length-take i s) in
    (
      take i s,
      take l (drop i s),
      drop l (drop i s),
      slice_of i l s le,
      slice_to_end i s le ∙ ap ok (sym (take-append-drop l (drop i s))),
      ap (λ (x : List ℕ). take i s ++ x) (take-append-drop l (drop i s)) ∙ take-append-drop i s,
      rw size points,
      length_of_take l (drop i s),
    )

left_list_lem : (n : ℕ) (s : List ℕ) → left_list n s ≡ ok (take n s)
unfolding left_list
left_list_lem n s = elim (Bool-cases (leb (length s) n)) [
  | inl t ↦ rw t (ap ok (sym (take-all n s (leb→le (length s) n t))))
  | inr f ↦
      let le : n ≤ length s = ground arith in
      let p : n - 0 ≡ n = omega arith in rw f (slice_lem 0 n s (omega arith) le ∙ rw p refl)
]

right_list_lem : (k : ℕ) (s : List ℕ) → right_list k s ≡ ok (drop (length s - k) s)
unfolding right_list
right_list_lem k s = elim (Bool-cases (leb (length s) k)) [
  | inl t ↦
      let le : length s ≤ k = leb→le (length s) k t in
      let p : length s - k ≡ 0 = omega arith in rw (t, p) refl
  | inr f ↦
      let size : length s - (length s - k) ≡ length (drop (length s - k) s) =
        omega (arith, length-drop (length s - k) s) in
      rw f (
        slice_lem (length s - k) (length s) s (omega arith) (omega arith)
        ∙ ap ok (take-all _ (drop (length s - k) s) (omega arith)))
]

-- `LEFT` and `RIGHT` cut a value into two parts: if their sizes make up the length of a list, then
-- neither fails, and what they return put together is the list.
pub left-right :
    (n k : ℕ) (s : List ℕ)
    → n + k ≡ length s
    → (a : List ℕ) × (b : List ℕ) × (left_list n s ≡ ok a) × (right_list k s ≡ ok b) × (a ++ b ≡ s)
left-right n k s h =
    let p : length s - k ≡ n = omega arith in
    (take n s, drop n s, left_list_lem n s, right_list_lem k s ∙ rw p refl, take-append-drop n s)
