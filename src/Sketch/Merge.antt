-- ===== src/Sketch/Merge.antt =====
-- Sketches of parts, merged, against one sketch.
use googlesqlite.Base.{
  ℕ, ◌≡◌, refl, sym, subst, ◌∙◌, ap, done, Option, none, some, Bool, List, [], ◌∷◌, ◌++◌,
  append_assoc, append_nil,
}
use googlesqlite.Sketch.{
  Floats, Value, Output, bytes, init_all, init_step, step_value, init_done, merge_all, merge_step,
  partial_done, extract_point, unmarshal, quantile, point_of,
}

-- gob reads what it has written, and writes something.
pub record IsEncoding {F : Type 0} (floats : Floats F) : Type 0 where
  pub decode-encode : (xs : List F) → floats.decode (floats.encode xs) ≡ some xs
  pub encode_filled : (xs : List F) → (b : ℕ) × (bs : List ℕ) × (floats.encode xs ≡ b ∷ bs)

module _ {F : Type 0} where
  -- A number, and a result, as the argument of a call.
  abbrev pub number : F → Option (Value F)
  number x = some (record { to_float = some x; to_bytes = none; to_int64 = none })

  abbrev pub numbers : List F → List (Option (Value F))
  numbers [] = []
  numbers (x ∷ xs) = number x ∷ numbers xs

  abbrev pub as_argument : Output F → Option (Value F)
  as_argument (bytes b) = some (record { to_float = none; to_bytes = some b; to_int64 = none })
  as_argument _ = none

  abbrev pub concat : List (List F) → List F
  concat [] = []
  concat (p ∷ ps) = p ++ concat ps

module _ {F : Type 0} (floats : Floats F) (laws : IsEncoding floats) where
  -- The sketches that INIT makes of the parts; that of an empty part is NULL.
  abbrev pub sketches : List (List F) → List (Option (Value F))
  sketches [] = []
  sketches (p ∷ ps) = as_argument (init_done floats p) ∷ sketches ps

  init_all-numbers :
      (values xs : List F) → init_all floats values (numbers xs) ≡ done (values ++ xs)
  unfolding init_all init_step step_value
  init_all-numbers values [] = ap done (sym (append_nil values))
  init_all-numbers values (x ∷ xs) =
      init_all-numbers (values ++ x ∷ []) xs ∙ ap done (append_assoc values (x ∷ []) xs)

  unmarshal-encode : (xs : List F) → unmarshal floats (floats.encode xs) ≡ done xs
  unfolding unmarshal
  unmarshal-encode xs =
      let (b, bs, e) = laws.encode_filled xs in
      let read : floats.decode (b ∷ bs) ≡ some xs =
        subst (λ (l : List ℕ). floats.decode l ≡ some xs) e (laws.decode-encode xs) in
      rw (e, unmarshal, read) refl

  merge_step-sketch :
      (values p : List F)
      → merge_step floats values (as_argument (init_done floats p)) ≡ done (values ++ p)
  unfolding merge_step init_done
  merge_step-sketch values [] = ap done (sym (append_nil values))
  merge_step-sketch values (x ∷ xs) = rw (unmarshal-encode (x ∷ xs), merge_step) refl

  merge_all-sketches :
      (values : List F) (ps : List (List F))
      → merge_all floats values (sketches ps) ≡ done (values ++ concat ps)
  unfolding merge_all
  merge_all-sketches values [] = ap done (sym (append_nil values))
  merge_all-sketches values (p ∷ ps) =
      rw (merge_step-sketch values p, merge_all)
        (merge_all-sketches (values ++ p) ps ∙ ap done (append_assoc values p (concat ps)))

  extract_point-partial :
      (as_int : Bool) (xs : List F) (rank : F)
      → extract_point floats as_int (as_argument (partial_done floats xs) ∷ number rank ∷ [])
        ≡ extract_point floats as_int (as_argument (init_done floats xs) ∷ number rank ∷ [])
  unfolding extract_point init_done quantile point_of
  extract_point-partial as_int [] rank = rw (unmarshal-encode [], extract_point) refl
  extract_point-partial as_int (x ∷ xs) rank = refl

  -- Where gob reads what it has written: the sketches of the parts of some numbers, merged, have the
  -- numbers of all parts, INIT over all the numbers has the same, and a quantile of the merged sketch
  -- is that of the sketch that INIT makes of all the numbers, NULL if there are none.
  pub merge_all-init_all :
      (as_int : Bool) (ps : List (List F)) (rank : F)
      → (merge_all floats [] (sketches ps) ≡ done (concat ps))
        × (init_all floats [] (numbers (concat ps)) ≡ done (concat ps))
        × (extract_point floats as_int
              (as_argument (partial_done floats (concat ps)) ∷ number rank ∷ [])
            ≡ extract_point floats as_int
                (as_argument (init_done floats (concat ps)) ∷ number rank ∷ []))
  merge_all-init_all as_int ps rank = (
    merge_all-sketches [] ps,
    init_all-numbers [] (concat ps),
    extract_point-partial as_int (concat ps) rank,
  )
