-- ===== src/Sketch/Tests.antt =====
-- Runs of internal/functions/kll, with natural numbers for float64.
use googlesqlite.Base.{ℕ, ◌≡◌, refl, arith, done, Option, none, some, true, List, [], ◌∷◌, leb}
use googlesqlite.Base.Int.{pos}
use googlesqlite.Sketch.{
  Floats, init_all, init_done, merge_all, partial_done, extract_point, quantile,
}
use googlesqlite.Sketch.Merge.{
  IsEncoding, number, numbers, as_argument, concat, sketches, merge_all-init_all,
}
use googlesqlite.Sketch.Sorted.{IsLinear, keep, swap, chain, quantile-Shuffled}

-- The rank is the position itself.
abbrev plain : Floats ℕ
plain = record {
  le = leb;
  fraction = λ i n. i;
  position = λ rank n. pos rank;
  to_int = λ q. pos q;
  encode = λ xs. 1 ∷ xs;
  decode = λ bs. rest bs;
}
  where
    rest : List ℕ → Option (List ℕ)
    rest [] = none
    rest (b ∷ bs) = some bs

plain-IsEncoding : IsEncoding plain
plain-IsEncoding = record { decode-encode = λ xs. refl; encode_filled = λ xs. (1, xs, refl) }

plain-IsLinear : IsLinear plain
plain-IsLinear = record {
  total = λ x y h. ground arith;
  le_trans = λ x y z h k. ground arith;
  antisym = λ x y h k. ground arith;
}

abbrev parts : List (List ℕ)
parts = (5 ∷ 2 ∷ []) ∷ [] ∷ (9 ∷ []) ∷ []

merge_all-init_all_example :
    (merge_all plain [] (sketches plain plain-IsEncoding parts) ≡ done (concat parts))
    × (init_all plain [] (numbers (concat parts)) ≡ done (concat parts))
    × (extract_point plain true (as_argument (partial_done plain (concat parts)) ∷ number 1 ∷ [])
        ≡ extract_point plain true (as_argument (init_done plain (concat parts)) ∷ number 1 ∷ []))
merge_all-init_all_example = merge_all-init_all plain plain-IsEncoding true parts 1

quantile-Shuffled_example : quantile plain (5 ∷ 2 ∷ 9 ∷ []) 1 ≡ quantile plain (2 ∷ 9 ∷ 5 ∷ []) 1
quantile-Shuffled_example =
    quantile-Shuffled plain plain-IsLinear (5 ∷ 2 ∷ 9 ∷ []) (2 ∷ 9 ∷ 5 ∷ []) 1
      (chain (swap 5 2 (9 ∷ [])) (keep 2 (swap 5 9 [])))

middle : quantile plain (5 ∷ 2 ∷ 9 ∷ []) 1 ≡ some 5
unfolding quantile
middle = refl
