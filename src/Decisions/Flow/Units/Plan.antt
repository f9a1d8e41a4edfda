-- ===== src/Decisions/Flow/Units/Plan.antt =====
-- The units of a stage hold each request once, and group what one call may ask.
use maivn.Prelude.{
  ℕ, suc, ◌+◌, ◌≡◌, refl, Bool, true, false, Option, none, some, List, [], ◌∷◌, ◌++◌, if◌then◌else◌,
  map, length, ltb, nat_eq, arith,
}
use maivn.Decisions.Batch.Plan.{within, count_units, count-append, count_units-append}
use maivn.Decisions.Flow.Units.{Unit_, add_to_units, group_units, singles, stage_units}

abbrev indices_of {ℓ} : {K : Type ℓ} → List (Unit_ K) → List (List ℕ)
indices_of units = map (λ u. u.1) units

indices_of-append {ℓ} :
    {K : Type ℓ} (xs ys : List (Unit_ K)) → indices_of (xs ++ ys) ≡ indices_of xs ++ indices_of ys
indices_of-append [] ys = refl
indices_of-append (x ∷ xs) ys = rw (indices_of-append xs ys) refl

count-singles {ℓ} :
    {A : Type ℓ} (i index : ℕ) (keys : List A)
    → count_units i (singles index keys) ≡ within i index (length keys)
unfolding singles
count-singles i index [] = ground arith
count-singles i index (k ∷ keys) = ground (arith, count-singles i (suc index) keys)

module _ {ℓ} {K : Type ℓ} where
  count-add_to_units :
      (same_key : K → K → Bool) (i index : ℕ) (key : K) (units : List (Unit_ K))
      → count_units i (indices_of (add_to_units same_key key index units))
        ≡ count_units i (indices_of units) + (if nat_eq index i then 1 else 0)
  unfolding add_to_units
  count-add_to_units same_key i index key [] = omega arith
  count-add_to_units same_key i index key ((none, indices) ∷ units) =
      omega (arith, count-add_to_units same_key i index key units)
  count-add_to_units same_key i index key ((some k, indices) ∷ units) =
      ground
        (arith, count-append i indices (index ∷ []), count-add_to_units same_key i index key units)

  count-group_units :
      (same_key : K → K → Bool) (i index : ℕ) (keys : List (Option K)) (units : List (Unit_ K))
      → count_units i (indices_of (group_units same_key index keys units))
        ≡ count_units i (indices_of units) + within i index (length keys)
  unfolding group_units
  count-group_units same_key i index [] units = ground arith
  count-group_units same_key i index (none ∷ keys) units = ground (
    arith,
    indices_of-append units ((none, index ∷ []) ∷ []),
    count_units-append i (indices_of units) ((index ∷ []) ∷ []),
    count-group_units same_key i (suc index) keys (units ++ (none, index ∷ []) ∷ []),
  )
  count-group_units same_key i index (some key ∷ keys) units = ground (
    arith,
    count-add_to_units same_key i index key units,
    count-group_units same_key i (suc index) keys (add_to_units same_key key index units),
  )

  -- Each request of a stage is in its units exactly once, however they are grouped.
  pub count-stage_units :
      (same_key : K → K → Bool) (native : Bool) (i : ℕ) (keys : List (Option K))
      → count_units i (stage_units same_key native keys) ≡ (if ltb i (length keys) then 1 else 0)
  unfolding stage_units
  count-stage_units same_key true i keys = ground (arith, count-group_units same_key i 0 keys [])
  count-stage_units same_key false i keys = ground (arith, count-singles i 0 keys)
