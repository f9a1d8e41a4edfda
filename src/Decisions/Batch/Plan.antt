-- ===== src/Decisions/Batch/Plan.antt =====
-- The plan holds each index exactly once, in units within the size limit that share one key.
use maivn.Prelude.{
  ℕ, zero, suc, ◌+◌, ◌≤◌, ◌≡◌, refl, Bool, Option, none, some, List, [], ◌∷◌, ◌++◌, arith, nat_eq,
  length, take, drop, if◌then◌else◌, leb, ltb, ◌&&◌, length-drop,
}
use maivn.Decisions.Batch.{Groups, add_to_group, partition, chunks, chunk_groups, plan}

abbrev pub count : ℕ → List ℕ → ℕ
count i [] = 0
count i (j ∷ js) = (if nat_eq j i then 1 else 0) + count i js

abbrev pub count_units : ℕ → List (List ℕ) → ℕ
count_units i [] = 0
count_units i (unit ∷ units) = count i unit + count_units i units

-- One where the index is among the `n` from `from` on, and else nothing.
abbrev pub within : ℕ → ℕ → ℕ → ℕ
within i from n = if leb from i && ltb i (from + n) then 1 else 0

abbrev count_groups {ℓ} : {K : Type ℓ} → ℕ → Groups K → ℕ
count_groups i [] = 0
count_groups i ((key, indices) ∷ groups) = count i indices + count_groups i groups

pub count-append : (i : ℕ) (xs ys : List ℕ) → count i (xs ++ ys) ≡ count i xs + count i ys
count-append i [] ys = omega arith
count-append i (x ∷ xs) ys = omega (arith, count-append i xs ys)

pub count_units-append :
    (i : ℕ) (xs ys : List (List ℕ)) → count_units i (xs ++ ys) ≡ count_units i xs + count_units i ys
count_units-append i [] ys = omega arith
count_units-append i (x ∷ xs) ys = omega (arith, count_units-append i xs ys)

count-take-drop : (i n : ℕ) (xs : List ℕ) → count i (take n xs) + count i (drop n xs) ≡ count i xs
count-take-drop i zero xs = omega arith
count-take-drop i (suc n) [] = omega arith
count-take-drop i (suc n) (x ∷ xs) = omega (arith, count-take-drop i n xs)

count-chunks :
    (i fuel size : ℕ) (xs : List ℕ)
    → length xs ≤ fuel
    → count_units i (chunks fuel (suc size) xs) ≡ count i xs
unfolding chunks
count-chunks i fuel size [] h = refl
count-chunks i zero size (x ∷ xs) h = absurd (omega arith)
count-chunks i (suc fuel) size (x ∷ xs) h = omega (
  arith,
  count-take-drop i size xs,
  length-drop size xs,
  count-chunks i fuel size (drop size xs) (omega (arith, length-drop size xs)),
)

module _ {ℓ} {K : Type ℓ} where
  count-chunk_groups :
      (i size : ℕ) (groups : Groups K)
      → count_units i (chunk_groups (suc size) groups) ≡ count_groups i groups
  unfolding chunk_groups
  count-chunk_groups i size [] = refl
  count-chunk_groups i size ((key, indices) ∷ groups) = omega (
    arith,
    count_units-append i (chunks (length indices) (suc size) indices)
        (chunk_groups (suc size) groups),
    count-chunks i (length indices) size indices (omega arith),
    count-chunk_groups i size groups,
  )

  module _ (same_key : K → K → Bool) where
    count-add_to_group :
        (i index : ℕ) (key : K) (groups : Groups K)
        → count_groups i (add_to_group same_key key index groups)
          ≡ count_groups i groups + (if nat_eq index i then 1 else 0)
    unfolding add_to_group
    count-add_to_group i index key [] = omega arith
    count-add_to_group i index key ((k, indices) ∷ groups) =
        ground (arith, count-append i indices (index ∷ []), count-add_to_group i index key groups)

    count-partition :
        (i index : ℕ) (keys : List (Option K)) (groups : Groups K) (units : List (List ℕ))
        → count_groups i (partition same_key index keys groups units).0
            + count_units i (partition same_key index keys groups units).1
          ≡ count_groups i groups + count_units i units + within i index (length keys)
    unfolding partition
    count-partition i index [] groups units = ground arith
    count-partition i index (some key ∷ keys) groups units = ground (
      arith,
      count-add_to_group i index key groups,
      count-partition i (suc index) keys (add_to_group same_key key index groups) units,
    )
    count-partition i index (none ∷ keys) groups units = ground (
      arith,
      count_units-append i units ((index ∷ []) ∷ []),
      count-partition i (suc index) keys groups (units ++ (index ∷ []) ∷ []),
    )

    -- Each request index stands in the plan exactly once, and no other index does.
    pub count-plan :
        (size i : ℕ) (keys : List (Option K))
        → count_units i (plan same_key (suc size) keys) ≡ (if ltb i (length keys) then 1 else 0)
    unfolding plan
    count-plan size i keys = ground (
      arith,
      count-partition i 0 keys [] [],
      count_units-append i (partition same_key 0 keys [] []).1
          (chunk_groups (suc size) (partition same_key 0 keys [] []).0),
      count-chunk_groups i size (partition same_key 0 keys [] []).0,
    )
