-- ===== src/Decisions/Flow/Units/Selection.antt =====
-- The calls of all units, where the client answers each request by one function.
use maivn.Prelude.{
  ℕ, zero, suc, ◌<◌, ◌≡◌, refl, ap, ◌∙◌, true, false, List, [], ◌∷◌, map, length, arith, All, ok,
}
use maivn.Decisions.Model.{DecisionRequest, DecisionResult}
use maivn.Decisions.Batch.{same_lengths, gather}
use maivn.Decisions.Batch.Plan.{count, count_units}
use maivn.Decisions.Batch.Order.{range, in_order-eq-map, gather_found, length-map}
use maivn.Decisions.Flow.{DecisionClient}
use maivn.Decisions.Flow.Units.{singles, request_at, select, call_unit, dispatch_units, assemble}

abbrev pub InRange : ℕ → ℕ → Type 0
InRange n i = i < n

-- Only indices below `n` occur.
every-InRange :
    (n : ℕ) (unit : List ℕ) → ((i : ℕ) → 0 < count i unit → i < n) → All (InRange n) unit
every-InRange n [] h = tt
every-InRange n (j ∷ unit) h =
    (h j (ground arith), every-InRange n unit (λ i c. h i (ground arith)))

pub every_unit-InRange :
    (n : ℕ) (units : List (List ℕ))
    → ((i : ℕ) → 0 < count_units i units → i < n)
    → All (All (InRange n)) units
every_unit-InRange n [] h = tt
every_unit-InRange n (unit ∷ units) h = (
  every-InRange n unit (λ i c. h i (omega arith)),
  every_unit-InRange n units (λ i c. h i (omega arith)),
)

map-map {ℓ κ μ} :
    {A : Type ℓ} {B : Type κ} {C : Type μ} (g : B → C) (f : A → B) (xs : List A)
    → map g (map f xs) ≡ map (λ x. g (f x)) xs
map-map g f [] = refl
map-map g f (x ∷ xs) = ap (λ l. g (f x) ∷ l) (map-map g f xs)

module _ {ℓ} {A : Type ℓ} (default : A) where
  -- The entry at an index, where there is one.
  abbrev pub at : List A → ℕ → A
  at [] i = default
  at (x ∷ xs) zero = x
  at (x ∷ xs) (suc i) = at xs i

  map-range-shift :
      {B : Type ℓ} (f : A → B) (x : A) (xs : List A) (n index : ℕ)
      → map (λ i. f (at (x ∷ xs) i)) (range n (suc index)) ≡ map (λ i. f (at xs i)) (range n index)
  map-range-shift f x xs zero index = refl
  map-range-shift f x xs (suc n) index =
      ap (λ l. f (at xs index) ∷ l) (map-range-shift f x xs n (suc index))

  map-at-range :
      {B : Type ℓ} (f : A → B) (xs : List A)
      → map (λ i. f (at xs i)) (range (length xs) 0) ≡ map f xs
  map-at-range f [] = refl
  map-at-range f (x ∷ xs) =
      ap (λ l. f x ∷ l) (map-range-shift f x xs (length xs) 0 ∙ map-at-range f xs)

same_lengths-map {ℓ} :
    {R : Type ℓ} (g : ℕ → R) (units : List (List ℕ)) → same_lengths units (map (map g) units) ≡ true
same_lengths-map g [] = refl
same_lengths-map g (unit ∷ units) = ground (arith, length-map g unit, same_lengths-map g units)

module _ {I E : Type 0} (default : DecisionRequest I) where
  request_at-at :
      (i : ℕ) (requests : List (DecisionRequest I))
      → i < length requests
      → request_at {E = E} i requests ≡ ok (at default requests i)
  unfolding request_at
  request_at-at i [] h = absurd (omega arith)
  request_at-at zero (r ∷ requests) h = refl
  request_at-at (suc i) (r ∷ requests) h = request_at-at i requests (omega arith)

  select-map :
      (unit : List ℕ) (requests : List (DecisionRequest I))
      → All (InRange (length requests)) unit
      → select {E = E} unit requests ≡ ok (map (at default requests) unit)
  unfolding select
  select-map [] requests h = refl
  select-map (i ∷ unit) requests h =
      rw (select, request_at-at i requests h.0, select-map unit requests h.1) refl

  module _ (client : DecisionClient I E) (f : DecisionRequest I → DecisionResult) where
    pub dispatch_native :
        (requests : List (DecisionRequest I)) (units : List (List ℕ))
        → ((rs : List (DecisionRequest I)) → client.abatch rs ≡ ok (map f rs))
        → All (All (InRange (length requests))) units
        → dispatch_units client true requests units
          ≡ ok (map (map (λ i. f (at default requests i))) units)
    unfolding dispatch_units call_unit
    dispatch_native requests [] b h = refl
    dispatch_native requests (unit ∷ units) b h =
        rw
          (
            dispatch_units,
            select-map unit requests h.0,
            b (map (at default requests) unit),
            dispatch_native requests units b h.1,
            map-map f (at default requests) unit,
          )
          refl

    pub dispatch_singles :
        {A : Type 0} (requests : List (DecisionRequest I)) (xs : List A) (index : ℕ)
        → ((r : DecisionRequest I) → client.adecide r ≡ ok (f r))
        → All (All (InRange (length requests))) (singles index xs)
        → dispatch_units client false requests (singles index xs)
          ≡ ok (map (map (λ i. f (at default requests i))) (singles index xs))
    unfolding dispatch_units call_unit singles
    dispatch_singles requests [] index a h = refl
    dispatch_singles requests (x ∷ xs) index a h =
        rw
          (
            dispatch_units,
            select-map (index ∷ []) requests h.0,
            a (at default requests index),
            dispatch_singles requests xs (suc index) a h.1,
          )
          refl

    pub assemble-map :
        (requests : List (DecisionRequest I)) (units : List (List ℕ))
        → ((i : ℕ) → i < length requests → 0 < count_units i units)
        → assemble {E = E}
            (length requests)
            units
            (map (map (λ i. f (at default requests i))) units)
          ≡ ok (map f requests)
    unfolding assemble
    assemble-map requests units h =
        let g = λ (i : ℕ). f (at default requests i) in
        rw
          (
            same_lengths-map g units,
            in_order-eq-map g (length requests) 0 (gather units (map (map g) units))
                (λ i b. gather_found g i units (h i (omega arith))),
            map-at-range default f requests,
          )
          refl
