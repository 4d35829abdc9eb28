-- ===== src/NamePath/Tests.antt =====
-- Runs of internal/name_path.go.
use googlesqlite.Base.{
  ◌+◌, ◌≤◌, ◌≡◌, ◌⊎◌, refl, none, some, Bool, false, List, [], ◌∷◌, length, arith,
}
use googlesqlite.NamePath.{
  Name, NamePath, same_name, normalize_path, merge_normal, set_path, add_path,
  is_information_schema,
}
use googlesqlite.NamePath.Merge.{merge_normal-bounds}
use googlesqlite.NamePath.Limit.{Fits, set_path-Fits, add_path-Fits}

abbrev base : NamePath
base = record { path = (112 ∷ []) ∷ (100 ∷ []) ∷ []; max_num = 3 }

abbrev no_schema : Name → Bool
no_schema name = false

-- `i` stands for INFORMATION_SCHEMA.
abbrev named_i : Name → Bool
named_i name = same_name name (105 ∷ [])

abbrev four_names : List Name
four_names = (112 ∷ []) ∷ (105 ∷ []) ∷ (100 ∷ []) ∷ (116 ∷ []) ∷ []

merge_normal-bounds_example : length (merge_normal no_schema base 3 ((116 ∷ []) ∷ [])) ≤ 3
merge_normal-bounds_example =
    merge_normal-bounds no_schema base 3 (116 ∷ []) [] (omega arith) (omega arith)

path_set : set_path named_i base four_names ≡ some (record { path = four_names; max_num = 3 })
unfolding set_path is_information_schema
path_set = refl

path_refused : set_path no_schema base four_names ≡ none
unfolding set_path is_information_schema
path_refused = refl

set_path-Fits_example :
    (Fits named_i base four_names (length (normalize_path four_names))
      × (set_path named_i base four_names
          ≡ some (record { path = normalize_path four_names; max_num = 3 })))
    ⊎ ((Fits named_i base four_names (length (normalize_path four_names)) → ⊥)
        × (set_path named_i base four_names ≡ none))
set_path-Fits_example = set_path-Fits named_i base four_names

path_added :
    add_path no_schema base (116 ∷ [])
    ≡ some (record { path = (112 ∷ []) ∷ (100 ∷ []) ∷ (116 ∷ []) ∷ []; max_num = 3 })
unfolding add_path is_information_schema
path_added = refl

add_path-Fits_example :
    let more = normalize_path ((116 ∷ []) ∷ []) in
    let n = 2 + length more in
    (Fits no_schema base more n
      × (add_path no_schema base (116 ∷ [])
          ≡ some (record { path = (112 ∷ []) ∷ (100 ∷ []) ∷ more; max_num = 3 })))
    ⊎ ((Fits no_schema base more n → ⊥) × (add_path no_schema base (116 ∷ []) ≡ none))
add_path-Fits_example = add_path-Fits no_schema base (116 ∷ [])
