-- ===== src/Functions/Range/Buckets.antt =====
-- What GENERATE_RANGE_ARRAY returns.
use googlesqlite.Base.{
  ℕ, zero, suc, ◌≤◌, ◌≡◌, refl, Option, none, some, Bool, true, false, List, [], ◌∷◌, inl, inr,
  arith, ltb, Option-cases,
}
use googlesqlite.Functions.Value.{Result, ok, err, ◌>>=◌}
use googlesqlite.Functions.Range.{Comparable, Range, bucket, buckets, max_buckets, generate_array}
use googlesqlite.Functions.Range.Points.{IsOrdered}

-- The first range starts at `c`, each further one where the one before it ends, and none ends
-- behind `end`.
abbrev pub Chain : {E : Type 0} → (E → ℕ) → (end : E) → E → List (Range E) → Type 0
Chain {E = E} rank end c [] = Unit
Chain {E = E} rank end c (b ∷ bs) =
    (b.start ≡ some c) × ((e : E) × (b.end ≡ some e) × (rank e ≤ rank end) × Chain rank end e bs)

module _ {E : Type 0} (o : Comparable E) (rank : E → ℕ) (law : IsOrdered o rank) where
  -- A result that is not an error is a chain.
  abbrev Chains : (end c : E) → Result (List (Range E)) → Type 0
  Chains end c (ok bs) = Chain rank end c bs
  Chains end c (err e) = Unit

  bucket-Chains :
      (elem : ℕ) (end : E) (partial : Bool) (rest : E → Result (List (Range E))) (cur next : E)
      (over : Bool)
      → ltb (rank end) (rank next) ≡ over
      → Chains end next (rest next)
      → Chains end cur (bucket o elem end partial rest cur next over)
  unfolding bucket
  bucket-Chains elem end true rest cur next true h k = (refl, (end, refl, omega arith, tt))
  bucket-Chains elem end false rest cur next true h k = tt
  bucket-Chains elem end partial rest cur next false h k = by_eq (o.eq next end) (rest next) k
    where
      le : rank next ≤ rank end
      le = ground arith

      by_eq :
          (t : Option Bool) (rest : Result (List (Range E)))
          → Chains end next rest
          → Chains end cur (elim t [
            | some true ↦ ok (record { start = some cur; end = some next; elem = elem } ∷ [])
            | _ ↦
                rest >>= (λ bs. ok (record { start = some cur; end = some next; elem = elem } ∷ bs))
          ])
      by_eq (some true) rest k = (refl, (next, refl, le, tt))
      by_eq (some false) (ok bs) k = (refl, (next, refl, le, k))
      by_eq (some false) (err e) k = tt
      by_eq none (ok bs) k = (refl, (next, refl, le, k))
      by_eq none (err e) k = tt

  buckets-Chains :
      (step : E → Option E) (elem : ℕ) (end : E) (partial : Bool) (fuel : ℕ) (cur : E)
      → Chains end cur (buckets o step elem end partial fuel cur)
  unfolding buckets
  buckets-Chains step elem end partial zero cur = tt
  buckets-Chains step elem end partial (suc fuel) cur = elim (Option-cases (step cur)) [
    | inl e ↦ rw (e, buckets) tt
    | inr (next, e) ↦
        rw (e, buckets, law.gt_is next end)
          (bucket-Chains elem end partial (λ n. buckets o step elem end partial fuel n) cur next
            (ltb (rank end) (rank next)) refl (buckets-Chains step elem end partial fuel next))
  ]

  -- If the comparisons of the elements do not fail and compare instants, and GENERATE_RANGE_ARRAY
  -- of a range with two bounds does not fail, then its ranges follow each other without a gap from
  -- the start of the range on, and none of them ends behind the end of the range.
  pub generate_array-Chain :
      (step : E → Option E) (partial : Bool) (start end : E) (elem : ℕ) (bs : List (Range E))
      → generate_array o step partial (record { start = some start; end = some end; elem = elem })
        ≡ ok bs
      → Chain rank end start bs
  unfolding generate_array
  generate_array-Chain step partial start end elem bs h =
      rw h at (buckets-Chains step elem end partial max_buckets start)
