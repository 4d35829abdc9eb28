-- ===== src/Functions/Tests.antt =====
-- Runs of the functions of internal/functions.
use googlesqlite.Base.{
  ℕ, ◌+◌, ◌≡◌, refl, ◌↔◌, none, some, Bool, true, List, [], ◌∷◌, ◌++◌, arith, ltb, leb, ◌==◌,
  length, ◌<◌, ◌⊎◌, ◌≢◌,
}
use googlesqlite.Base.Int.{pos, negsuc}
use googlesqlite.Functions.Value.{ok, err, duplicate}
use googlesqlite.Functions.Pad.{lpad_list, rpad_list}
use googlesqlite.Functions.Pad.Cycle.{IsPadded, lpad_list-IsPadded, rpad_list-IsPadded}
use googlesqlite.Functions.Substring.{substr_list}
use googlesqlite.Functions.Substring.Parts.{PointsAt, substr_list_lem}
use googlesqlite.Functions.Search.{instr_index}
use googlesqlite.Functions.Search.Occurrences.{
  IsNth, IsNthDown, instr_index-IsNth, instr_index-IsNthDown,
}
use googlesqlite.Functions.Range.{
  Comparable, Range, contains_range, contains_point, overlaps, intersect, range_lte, generate_array,
}
use googlesqlite.Functions.Range.Points.{
  IsOrdered, In, contains_range_sound, contains_point-In, overlaps-In, intersect-In,
}
use googlesqlite.Functions.Range.Order.{RangeLe, range_lte-RangeLe}
use googlesqlite.Functions.Range.Buckets.{Chain, generate_array-Chain}
use googlesqlite.Functions.Distance.{edit_distance}
use googlesqlite.Functions.Distance.Levenshtein.{lev, edit_distance-lev}
use googlesqlite.Functions.Trim.{trim_func, contains, ascii_space}
use googlesqlite.Functions.Trim.Ends.{All, KeepsFirst, KeepsLast, trim_func-ends}
use googlesqlite.Functions.Split.{is_prefix, split_list}
use googlesqlite.Functions.Split.Join.{join, join-split_list}
use googlesqlite.Functions.Replace.{replace_list}
use googlesqlite.Functions.Replace.Pieces.{Replaced, replace_list-Replaced}
use googlesqlite.Functions.Like.{like}
use googlesqlite.Functions.Like.Meaning.{Matches, like-Matches}
use googlesqlite.Functions.Translate.{
  build_table, lookup, translate_runes, translate_string, translate_bytes, replace_byte,
}
use googlesqlite.Functions.Translate.Sequence.{translate_bytes-counterpart}
use googlesqlite.Functions.Translate.Lookup.{counterpart}
use googlesqlite.Functions.Translate.Meaning.{becomes, each, IsDistinct, translate_string-becomes}

abbrev abc : List ℕ
abc = 97 ∷ 98 ∷ 99 ∷ []

abbrev aba : List ℕ
aba = 97 ∷ 98 ∷ 97 ∷ []

abbrev days : Comparable ℕ
days = record {
  lt = λ a b. some (ltb a b);
  gt = λ a b. some (ltb b a);
  lte = λ a b. some (leb a b);
  eq = λ a b. some (a == b);
}

days-IsOrdered : IsOrdered days (λ a. a)
days-IsOrdered = record {
  lt_is = λ a b. refl;
  gt_is = λ a b. refl;
  lte_is = λ a b. refl;
  eq_is = λ a b. refl;
}

abbrev early : Range ℕ
early = record { start = some 1; end = some 5; elem = 0 }

abbrev late : Range ℕ
late = record { start = some 3; end = none; elem = 0 }

abbrev inside : Range ℕ
inside = record { start = some 2; end = some 4; elem = 0 }

lpad_list-IsPadded_example :
    (r : List ℕ) × (lpad_list 8 (some (some (45 ∷ 46 ∷ []))) abc ≡ ok r)
    × IsPadded (λ xs. xs ++ abc) 8 (45 ∷ 46 ∷ []) abc r
lpad_list-IsPadded_example = lpad_list-IsPadded 8 45 (46 ∷ []) abc

rpad_list-IsPadded_example :
    (r : List ℕ) × (rpad_list 8 (some (some (45 ∷ 46 ∷ []))) abc ≡ ok r)
    × IsPadded (λ xs. abc ++ xs) 8 (45 ∷ 46 ∷ []) abc r
rpad_list-IsPadded_example = rpad_list-IsPadded 8 45 (46 ∷ []) abc

substr_list_lem_example :
    (before : List ℕ) × (part : List ℕ) × (rest : List ℕ) × (substr_list
        (negsuc 1)
        (some (pos 9))
        abc
      ≡ ok part)
    × (substr_list (negsuc 1) none abc ≡ ok (part ++ rest))
    × (before ++ (part ++ rest) ≡ abc)
    × PointsAt (negsuc 1) 3 (length before)
    × ((length part ≡ 9) ⊎ ((length part < 9) × (rest ≡ [])))
substr_list_lem_example = substr_list_lem (negsuc 1) 9 abc

instr_index-IsNth_example : IsNth aba (97 ∷ []) 2 0 0 (instr_index aba (97 ∷ []) (pos 1) 2)
instr_index-IsNth_example = instr_index-IsNth aba (97 ∷ []) 0 2 (omega arith)

instr_index-IsNthDown_example :
    IsNthDown aba (97 ∷ []) 2 3 0 (instr_index aba (97 ∷ []) (negsuc 0) 2)
instr_index-IsNthDown_example = instr_index-IsNthDown aba (97 ∷ []) 0 2 (omega arith)

inside_early : contains_range days early inside ≡ true
unfolding contains_range
inside_early = refl

contains_range_sound_example : In (λ a. a) early 3
contains_range_sound_example =
    contains_range_sound days (λ a. a) days-IsOrdered early inside 3 inside_early
      (omega arith, omega arith)

contains_point-In_example :
    (t : Bool) × (contains_point days early 4 ≡ ok t) × ((t ≡ true) ↔ In (λ a. a) early 4)
contains_point-In_example = contains_point-In days (λ a. a) days-IsOrdered early 4

early-late : overlaps days early late ≡ ok true
unfolding overlaps
early-late = refl

overlaps-In_example : (z : ℕ) × In (λ a. a) early z × In (λ a. a) late z
overlaps-In_example =
    overlaps-In days (λ a. a) days-IsOrdered early late 1 7 early-late (omega arith, omega arith)
      (omega arith, tt)

intersect-In_example :
    (r : Range ℕ) × (intersect days early late ≡ ok r)
    × ((y : ℕ) → In (λ a. a) r y ↔ (In (λ a. a) early y × In (λ a. a) late y))
intersect-In_example =
    intersect-In days (λ a. a) days-IsOrdered early late 3 (omega arith, omega arith)
      (omega arith, tt)

range_lte-RangeLe_example :
    (t : Bool) × (range_lte days early late ≡ ok t) × ((t ≡ true) ↔ RangeLe (λ a. a) early late)
range_lte-RangeLe_example = range_lte-RangeLe days (λ a. a) days-IsOrdered early late

early_inside : range_lte days early inside ≡ ok true
unfolding range_lte
early_inside = refl

inside_late : range_lte days inside late ≡ ok true
unfolding range_lte
inside_late = refl

edit_distance-lev_example : edit_distance abc (98 ∷ []) ≡ lev (99 ∷ 98 ∷ 97 ∷ []) (98 ∷ [])
edit_distance-lev_example = edit_distance-lev abc (98 ∷ [])

trim_func-ends_example :
    (pre : List ℕ) × (post : List ℕ) × (32 ∷ abc
      ≡ pre ++ (trim_func (32 ∷ abc) (λ c. contains ascii_space c) true true ++ post))
    × All (λ c. contains ascii_space c) pre
    × All (λ c. contains ascii_space c) post
    × KeepsFirst
        (λ c. contains ascii_space c)
        (trim_func (32 ∷ abc) (λ c. contains ascii_space c) true true)
    × KeepsLast
        (λ c. contains ascii_space c)
        (trim_func (32 ∷ abc) (λ c. contains ascii_space c) true true)
trim_func-ends_example = trim_func-ends (λ c. contains ascii_space c) (32 ∷ abc)

join-split_list_example : join (98 ∷ []) (split_list (98 ∷ []) abc) ≡ abc
join-split_list_example = join-split_list (98 ∷ []) abc

translated : translate_string abc (97 ∷ 98 ∷ []) (98 ∷ []) ≡ ok (98 ∷ 99 ∷ [])
unfolding translate_string build_table lookup translate_runes
translated = refl

translate_string-becomes_example :
    (IsDistinct (97 ∷ 98 ∷ [])
      × (translate_string abc (97 ∷ 98 ∷ []) (98 ∷ [])
          ≡ ok (each (becomes (97 ∷ 98 ∷ []) (98 ∷ [])) abc)))
    ⊎ ((IsDistinct (97 ∷ 98 ∷ []) → ⊥)
        × (translate_string abc (97 ∷ 98 ∷ []) (98 ∷ []) ≡ err duplicate))
translate_string-becomes_example = translate_string-becomes abc (97 ∷ 98 ∷ []) (98 ∷ [])

-- The bytes that a source byte is translated to are translated again: `a` to `b` and then `b` to
-- `c`, where a STRING gets `b`.
chained_bytes : translate_bytes [] (97 ∷ []) (97 ∷ 98 ∷ []) (98 ∷ 99 ∷ []) ≡ ok (99 ∷ [])
unfolding translate_bytes contains replace_byte
chained_bytes = refl

chained_string : translate_string (97 ∷ []) (97 ∷ 98 ∷ []) (98 ∷ 99 ∷ []) ≡ ok (98 ∷ [])
unfolding translate_string build_table lookup translate_runes
chained_string = refl

two_buckets :
    generate_array days (λ n. some (n + 2)) true early
    ≡ ok (
        record { start = some 1; end = some 3; elem = 0 }
        ∷ record { start = some 3; end = some 5; elem = 0 }
        ∷ [])
unfolding generate_array
two_buckets = refl

generate_array-Chain_example :
    Chain
      (λ a. a)
      5
      1
      (record { start = some 1; end = some 3; elem = 0 }
        ∷ record { start = some 3; end = some 5; elem = 0 }
        ∷ [])
generate_array-Chain_example =
    generate_array-Chain days (λ a. a) days-IsOrdered (λ n. some (n + 2)) true 1 5 0
      (record { start = some 1; end = some 3; elem = 0 }
        ∷ record { start = some 3; end = some 5; elem = 0 }
        ∷ [])
      two_buckets

replace_list-Replaced_example :
    ((◌≡◌ {A = List ℕ} (98 ∷ []) []) × (replace_list (98 ∷ []) (45 ∷ []) abc ≡ abc))
    ⊎ ((◌≢◌ {A = List ℕ} (98 ∷ []) [])
        × Replaced (98 ∷ []) (45 ∷ []) abc (replace_list (98 ∷ []) (45 ∷ []) abc))
replace_list-Replaced_example = replace_list-Replaced (98 ∷ []) (45 ∷ []) abc

b_replaced : replace_list (98 ∷ []) (45 ∷ []) abc ≡ 97 ∷ 45 ∷ 99 ∷ []
unfolding replace_list is_prefix
b_replaced = refl

translated_bytes : translate_bytes [] abc (97 ∷ 98 ∷ []) (120 ∷ []) ≡ ok (120 ∷ 99 ∷ [])
unfolding translate_bytes contains replace_byte
translated_bytes = refl

translate_bytes-counterpart_example :
    120 ∷ 99 ∷ [] ≡ translate_runes (λ c. counterpart (97 ∷ 98 ∷ []) (120 ∷ []) c) abc
unfolding counterpart
translate_bytes-counterpart_example =
    translate_bytes-counterpart abc (97 ∷ 98 ∷ []) (120 ∷ []) (120 ∷ 99 ∷ []) (refl, (tt, tt))
      translated_bytes

-- %b\c
abbrev like_bc : List ℕ
like_bc = b'%' ∷ b'b' ∷ b'\\' ∷ b'c' ∷ []

like-Matches_example : (like abc like_bc ≡ some true) ↔ Matches like_bc abc
like-Matches_example = like-Matches abc like_bc

abc_is_like : like abc like_bc ≡ some true
unfolding like
abc_is_like = refl
