-- ===== src/NamePath.antt =====
-- internal/name_path.go: the default path of a connection, and how names are completed by it.
pub mod Merge
pub mod Limit
mod Tests
use googlesqlite.Base.{
  ℕ, zero, suc, ◌+◌, Option, none, some, Bool, true, false, ◌||◌, ◌&&◌, List, [], ◌∷◌, ◌++◌, ltb,
  leb, ◌==◌, if◌then◌else◌, length,
}
use googlesqlite.Base.Int.{ℤ, pos, negsuc}

-- A name is the list of its runes.
abbrev pub Name : Type 0
Name = List ℕ

abbrev pub same_name : Name → Name → Bool
same_name [] [] = true
same_name [] (c ∷ b) = false
same_name (c ∷ a) [] = false
same_name (c ∷ a) (d ∷ b) = if c == d then same_name a b else false

-- `NamePath`. `maxNum` is 0 or what `setMaxNum` put there, never negative.
pub record NamePath : Type 0 where
  pub path : List Name
  pub max_num : ℕ

-- `strings.Split(p, ".")`, with the name that is read so far.
unfoldable pub split_dots : Name → Name → List Name
split_dots [] word = word ∷ []
split_dots (c ∷ cs) word = elim (c == 46) [
  | true ↦ word ∷ split_dots cs []
  | false ↦ split_dots cs (word ++ c ∷ [])
]

-- `normalizePath`.
unfoldable pub normalize_path : List Name → List Name
unfolding split_dots
normalize_path [] = []
normalize_path (p ∷ path) = split_dots p [] ++ normalize_path path

-- `setMaxNum`.
unfoldable pub set_max_num : ℤ → NamePath → NamePath
set_max_num (pos zero) p = p
set_max_num (pos (suc n)) p = record p { max_num = suc n }
set_max_num (negsuc n) p = p

-- `formatPath`: `strings.Join(path, "_")`.
unfoldable pub format_path : List Name → Name
format_path [] = []
format_path (p ∷ []) = p
format_path (p ∷ q ∷ path) = p ++ 95 ∷ format_path (q ∷ path)

-- `empty`.
unfoldable pub is_empty : NamePath → Bool
is_empty p = length p.path == 0

-- `is_schema` is `strings.EqualFold(_, "information_schema")`, which folds the case of Unicode.
module _ (is_schema : Name → Bool) where
  -- `isInformationSchema`: at the end of the path it does not count.
  unfoldable pub is_information_schema : List Name → Bool
  is_information_schema [] = false
  is_information_schema (p ∷ []) = false
  is_information_schema (p ∷ q ∷ path) =
      if is_schema p then true else is_information_schema (q ∷ path)

  -- `getMaxNum`; 0 is no limit.
  unfoldable pub get_max_num : NamePath → List Name → ℕ
  unfolding is_information_schema
  get_max_num p path =
      if p.max_num == 0 then 0 else if is_information_schema path then p.max_num + 1 else p.max_num

  -- The loop of `mergePath`, with the first name and the length of the path; `n` is how many
  -- names have been taken.
  unfoldable pub merge_base : (max len : ℕ) → Name → (n : ℕ) → List Name → List Name
  merge_base max len first n [] = []
  merge_base max len first n (b ∷ base) =
      elim (same_name first b || ltb 0 max && leb max (n + len)) [
        | true ↦ []
        | false ↦ b ∷ merge_base max len first (n + 1) base
      ]

  unfoldable pub merge_normal : NamePath → (max : ℕ) → List Name → List Name
  unfolding merge_base
  merge_normal p max [] = if ltb 0 max && 0 == max then [] else p.path
  merge_normal p max (first ∷ path) =
      if ltb 0 max && length (first ∷ path) == max
      then first ∷ path
      else merge_base max (length (first ∷ path)) first 0 p.path ++ first ∷ path

  -- `mergePath`.
  unfoldable pub merge_path : NamePath → List Name → List Name
  unfolding normalize_path get_max_num merge_normal
  merge_path p path = merge_normal p (get_max_num p (normalize_path path)) (normalize_path path)

  -- `format`.
  unfoldable pub format : NamePath → List Name → Name
  unfolding merge_path format_path
  format p path = format_path (merge_path p path)

  -- `setPath`: the limit is that of the path before it is split at its dots. `none` is an error.
  unfoldable pub set_path : NamePath → List Name → Option NamePath
  unfolding get_max_num normalize_path
  set_path p path =
      if ltb 0 (get_max_num p path) && ltb (get_max_num p path) (length (normalize_path path))
      then none
      else some (record p { path = normalize_path path })

  -- `addPath`.
  unfoldable pub add_path : NamePath → Name → Option NamePath
  unfolding get_max_num normalize_path
  add_path p name =
      let more = normalize_path (name ∷ []) in
      if ltb 0 (get_max_num p more) && ltb (get_max_num p more) (length p.path + length more)
      then none
      else some (record p { path = p.path ++ more })
