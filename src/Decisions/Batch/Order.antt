-- ===== src/Decisions/Batch/Order.antt =====
-- Where each index has one result, whatever its unit, the reassembly is in the order of the indices.
use maivn.Prelude.{
  ℕ, zero, suc, ◌+◌, ◌<◌, ◌≡◌, refl, Option, none, some, List, [], ◌∷◌, ◌++◌, arith, length,
  if◌then◌else◌, ltb, map, ap,
}
use maivn.Decisions.Batch.{zip_reversed, gather, lookup, in_order}
use maivn.Decisions.Batch.Plan.{count, count_units}

abbrev pub range : ℕ → ℕ → List ℕ
range zero index = []
range (suc n) index = index ∷ range n (suc index)

module _ {ℓ} {R : Type ℓ} where
  abbrev pub or_else : Option R → Option R → Option R
  or_else none b = b
  or_else (some a) b = some a

  pub lookup-append :
      (i : ℕ) (xs ys : List (ℕ × R)) → lookup i (xs ++ ys) ≡ or_else (lookup i xs) (lookup i ys)
  unfolding lookup
  lookup-append i [] ys = refl
  lookup-append i ((j, r) ∷ xs) ys = ground (arith, lookup-append i xs ys)

  lookup-zip_reversed :
      (f : ℕ → R) (i : ℕ) (unit : List ℕ)
      → lookup i (zip_reversed unit (map f unit))
        ≡ (if ltb 0 (count i unit) then some (f i) else none)
  unfolding zip_reversed lookup
  lookup-zip_reversed f i [] = refl
  lookup-zip_reversed f i (j ∷ unit) = ground (
    arith,
    lookup-append i (zip_reversed unit (map f unit)) ((j, f j) ∷ []),
    lookup-zip_reversed f i unit,
  )

  lookup-gather :
      (f : ℕ → R) (i : ℕ) (units : List (List ℕ))
      → lookup i (gather units (map (map f) units))
        ≡ (if ltb 0 (count_units i units) then some (f i) else none)
  unfolding gather lookup
  lookup-gather f i [] = refl
  lookup-gather f i (unit ∷ units) = ground (
    arith,
    lookup-append i (gather units (map (map f) units)) (zip_reversed unit (map f unit)),
    lookup-gather f i units,
    lookup-zip_reversed f i unit,
  )

  pub in_order-eq-map :
      (f : ℕ → R) (n index : ℕ) (ordered : List (ℕ × R))
      → ((i : ℕ) → i < index + n → lookup i ordered ≡ some (f i))
      → in_order n index ordered ≡ some (map f (range n index))
  unfolding in_order
  in_order-eq-map f zero index ordered h = refl
  in_order-eq-map f (suc n) index ordered h = ground (
    arith,
    h index (omega arith),
    in_order-eq-map f n (suc index) ordered (λ i b. h i (omega arith)),
  )

  pub gather_found :
      (f : ℕ → R) (i : ℕ) (units : List (List ℕ))
      → 0 < count_units i units
      → lookup i (gather units (map (map f) units)) ≡ some (f i)
  gather_found f i units h = ground (arith, lookup-gather f i units)

pub length-map {ℓ κ} :
    {A : Type ℓ} {B : Type κ} (f : A → B) (xs : List A) → length (map f xs) ≡ length xs
length-map f [] = refl
length-map f (x ∷ xs) = ap suc (length-map f xs)
