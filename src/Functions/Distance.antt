-- ===== src/Functions/Distance.antt =====
-- functions/string/edit_distance.go.
pub mod Levenshtein
use googlesqlite.Base.{
  ℕ, zero, suc, ◌+◌, Option, none, some, Bool, true, false, List, [], ◌∷◌, ltb, ◌==◌, if◌then◌else◌,
  length, get_or,
}
use googlesqlite.Base.Int.{ℤ, pos, negsuc, ltb_ℤ}
use googlesqlite.Functions.Value.{Value, Result, ok, err, ◌>>=◌, converted}

-- `min` of the three candidates, in the order of the source.
abbrev pub smallest : (del ins sub : ℕ) → ℕ
smallest del ins sub =
    let least = if ltb ins del then ins else del in if ltb sub least then sub else least

abbrev pub cost : ℕ → ℕ → ℕ
cost a b = if a == b then 0 else 1

-- The inner loop, from `prev[j-1]` on and with `curr[j-1]`; a row has one element more than the
-- second string, so the row does not end first.
unfoldable pub fill_row : ℕ → List ℕ → (prev : List ℕ) → (left : ℕ) → List ℕ
fill_row a [] prev left = []
fill_row a (b ∷ bs) [] left = []
fill_row a (b ∷ bs) (p ∷ []) left = []
fill_row a (b ∷ bs) (p ∷ q ∷ prev) left =
    let c = smallest (q + 1) (left + 1) (p + cost a b) in c ∷ fill_row a bs (q ∷ prev) c

-- The outer loop, from round `i` on.
unfoldable pub rows : List ℕ → List ℕ → (i : ℕ) → List ℕ → List ℕ
unfolding fill_row
rows [] bs i prev = prev
rows (a ∷ as') bs i prev = rows as' bs (i + 1) (i ∷ fill_row a bs prev i)

-- `for j := 0; j <= m; j++ { prev[j] = j }`.
unfoldable pub from_to : ℕ → List ℕ → List ℕ
from_to j [] = j ∷ []
from_to j (b ∷ bs) = j ∷ from_to (j + 1) bs

-- `EDIT_DISTANCE`.
unfoldable pub edit_distance : List ℕ → List ℕ → ℕ
unfolding rows from_to
edit_distance [] bs = length bs
edit_distance (a ∷ as') [] = length (a ∷ as')
edit_distance (a ∷ as') (b ∷ bs) =
    get_or (rows (a ∷ as') (b ∷ bs) 1 (from_to 0 (b ∷ bs))) (length (b ∷ bs)) 0

-- The optional bound, the third argument.
unfoldable pub at_most : ℕ → Option Value → Result ℤ
at_most d none = ok (pos d)
at_most d (some v) = do z ← converted v.to_int; ok (if ltb_ℤ z (pos d) then z else pos d)

unfoldable distance_values : Value → Value → Option Value → Result (Option ℤ)
unfolding edit_distance at_most
distance_values a b bound = do
  s ← converted a.to_string
  t ← converted b.to_string
  d ← at_most (edit_distance s t) bound
  ok (some d)

-- `BindEditDistance`: no result for less than two arguments or a NULL one.
unfoldable pub bind_edit_distance : List (Option Value) → Result (Option ℤ)
unfolding distance_values
bind_edit_distance [] = ok none
bind_edit_distance (a ∷ []) = ok none
bind_edit_distance (none ∷ b ∷ more) = ok none
bind_edit_distance (some a ∷ none ∷ more) = ok none
bind_edit_distance (some a ∷ some b ∷ []) = distance_values a b none
bind_edit_distance (some a ∷ some b ∷ bound ∷ more) = distance_values a b bound
