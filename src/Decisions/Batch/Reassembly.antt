-- ===== src/Decisions/Batch/Reassembly.antt =====
-- Where the results of units stand in the dict over all units, and in the list that is read from it.
use mathlib.Core.Bool.{false≢true}
use maivn.Prelude.{
  ℕ, zero, suc, ◌+◌, ◌≤◌, ◌<◌, ◌≡◌, refl, sym, ap, ◌∙◌, true, Option, none, some, List, [], ◌∷◌,
  ◌++◌, arith, length, ltb, map, is_some, nat_eq, Option-cases, Bool-cases, inl, inr,
}
use maivn.Decisions.Batch.{zip_reversed, gather, lookup, in_order}
use maivn.Decisions.Batch.Plan.{count, count_units}
use maivn.Decisions.Batch.Order.{or_else, lookup-append}

abbrev pub get_elem? {ℓ} : {A : Type ℓ} → List A → ℕ → Option A
get_elem? [] i = none
get_elem? (x ∷ xs) zero = some x
get_elem? (x ∷ xs) (suc i) = get_elem? xs i

map-agrees {ℓ} :
    {A : Type ℓ} (f g : ℕ → A) (unit : List ℕ)
    → ((i : ℕ) → 0 < count i unit → f i ≡ g i)
    → map f unit ≡ map g unit
map-agrees f g [] h = refl
map-agrees f g (j ∷ unit) h =
    let e : f j ≡ g j = h j (ground arith) in
    let k : map f unit ≡ map g unit = map-agrees f g unit (λ i p. h i (omega (arith, p))) in
    rw (e, k) refl

module _ {ℓ} {R : Type ℓ} where
  or_else-left : (a b : Option R) → is_some a ≡ true → or_else a b ≡ a
  or_else-left none b h = absurd (false≢true h)
  or_else-left (some r) b h = refl

  is_some-or_else : (a b : Option R) → is_some b ≡ true → is_some (or_else a b) ≡ true
  is_some-or_else none b h = h
  is_some-or_else (some r) b h = refl

  zip-absent :
      (i : ℕ) (unit : List ℕ) (chunk : List R)
      → count i unit ≡ 0
      → lookup i (zip_reversed unit chunk) ≡ none
  unfolding zip_reversed lookup
  zip-absent i [] chunk h = refl
  zip-absent i (j ∷ unit) [] h = refl
  zip-absent i (j ∷ unit) (r ∷ chunk) h = ground (
    arith,
    lookup-append i (zip_reversed unit chunk) ((j, r) ∷ []),
    zip-absent i unit chunk (ground arith),
  )

  zip-present :
      (i : ℕ) (unit : List ℕ) (chunk : List R)
      → length chunk ≡ length unit
      → 0 < count i unit
      → is_some (lookup i (zip_reversed unit chunk)) ≡ true
  unfolding zip_reversed lookup
  zip-present i [] chunk l h = absurd (omega arith)
  zip-present i (j ∷ unit) [] l h = absurd (omega arith)
  zip-present i (j ∷ unit) (r ∷ chunk) l h =
      let A = zip_reversed unit chunk in
      let e = lookup-append i A ((j, r) ∷ []) in
      elim (Bool-cases (nat_eq j i)) [
        | inl t ↦ ap is_some e ∙ is_some-or_else (lookup i A) _ (ground arith)
        | inr t ↦
            let k = zip-present i unit chunk (omega (arith, l)) (ground arith) in
            ap is_some e ∙ ap is_some (or_else-left (lookup i A) _ k) ∙ k
      ]

  -- The results of a unit, looked up at its indices.
  zip-map :
      (unit : List ℕ) (chunk : List R)
      → ((i : ℕ) → count i unit ≤ 1)
      → length chunk ≡ length unit
      → map (λ i. lookup i (zip_reversed unit chunk)) unit ≡ map some chunk
  unfolding zip_reversed lookup
  zip-map [] [] u l = refl
  zip-map [] (r ∷ chunk) u l = absurd (omega arith)
  zip-map (j ∷ unit) [] u l = absurd (omega arith)
  zip-map (j ∷ unit) (r ∷ chunk) u l =
      let A = zip_reversed unit chunk in
      let B = A ++ (j, r) ∷ [] in
      let n : length chunk ≡ length unit = omega (arith, l) in
      let first : lookup j B ≡ some r =
        lookup-append j A ((j, r) ∷ [])
        ∙ (rw (zip-absent j unit chunk (ground (arith, u j))) (ground arith)) in
      let rest : map (λ i. lookup i B) unit ≡ map (λ i. lookup i A) unit =
        map-agrees (λ i. lookup i B) (λ i. lookup i A) unit
          (λ i p.
            lookup-append i A ((j, r) ∷ [])
            ∙ or_else-left (lookup i A) _ (zip-present i unit chunk n p)) in
      let k = zip-map unit chunk (λ i. ground (arith, u i)) n in rw (first, rest, k) refl

  -- As many results as indices, in each unit.
  abbrev pub Paired : List (List ℕ) → List (List R) → Type 0
  Paired [] [] = Unit
  Paired (unit ∷ units) (chunk ∷ chunks) = (length chunk ≡ length unit) × Paired units chunks
  Paired _ _ = ⊥

  -- At the indices of each unit stand its results.
  abbrev pub Placed : (ℕ → Option R) → List (List ℕ) → List (List R) → Type ℓ
  Placed f (unit ∷ units) (chunk ∷ chunks) = (map f unit ≡ map some chunk) × Placed f units chunks
  Placed f _ _ = Unit

  pub Placed-agrees :
      (f g : ℕ → Option R) (units : List (List ℕ)) (chunks : List (List R))
      → ((i : ℕ) → 0 < count_units i units → f i ≡ g i)
      → Placed g units chunks
      → Placed f units chunks
  Placed-agrees f g [] chunks h p = tt
  Placed-agrees f g (unit ∷ units) [] h p = tt
  Placed-agrees f g (unit ∷ units) (chunk ∷ chunks) h (p, ps) = (
    map-agrees f g unit (λ i c. h i (omega (arith, c))) ∙ p,
    Placed-agrees f g units chunks (λ i c. h i (omega (arith, c))) ps,
  )

  gather-absent :
      (i : ℕ) (units : List (List ℕ)) (chunks : List (List R))
      → count_units i units ≡ 0
      → lookup i (gather units chunks) ≡ none
  unfolding gather lookup
  gather-absent i [] chunks h = refl
  gather-absent i (unit ∷ units) [] h = refl
  gather-absent i (unit ∷ units) (chunk ∷ chunks) h =
      lookup-append i (gather units chunks) (zip_reversed unit chunk)
      ∙ (rw (gather-absent i units chunks (omega (arith, h)))
          (zip-absent i unit chunk (omega (arith, h))))

  pub gather-present :
      (i : ℕ) (units : List (List ℕ)) (chunks : List (List R))
      → Paired units chunks
      → 0 < count_units i units
      → is_some (lookup i (gather units chunks)) ≡ true
  unfolding gather lookup
  gather-present i [] [] p h = absurd (omega arith)
  gather-present i [] (chunk ∷ chunks) p h = absurd p
  gather-present i (unit ∷ units) [] p h = absurd p
  gather-present i (unit ∷ units) (chunk ∷ chunks) (l, p) h =
      let A = gather units chunks in
      let e = lookup-append i A (zip_reversed unit chunk) in
      elim (Bool-cases (ltb 0 (count_units i units))) [
        | inl t ↦
            let k = gather-present i units chunks p (ground arith) in
            ap is_some e ∙ ap is_some (or_else-left (lookup i A) _ k) ∙ k
        | inr t ↦
            ap is_some e
            ∙ is_some-or_else (lookup i A) _ (zip-present i unit chunk l (ground arith))
      ]

  pub gather-Placed :
      (units : List (List ℕ)) (chunks : List (List R))
      → ((i : ℕ) → count_units i units ≤ 1)
      → Paired units chunks
      → Placed (λ i. lookup i (gather units chunks)) units chunks
  unfolding gather lookup
  gather-Placed [] chunks u p = tt
  gather-Placed (unit ∷ units) [] u p = tt
  gather-Placed (unit ∷ units) (chunk ∷ chunks) u (l, p) =
      let A = gather units chunks in
      let Z = zip_reversed unit chunk in
      (
        map-agrees (λ i. lookup i (A ++ Z)) (λ i. lookup i Z) unit
              (λ i c.
                lookup-append i A Z
                ∙ (rw (gather-absent i units chunks (omega (arith, u i, c))) refl))
            ∙ zip-map unit chunk (λ i. omega (arith, u i)) l,
        Placed-agrees (λ i. lookup i (A ++ Z)) (λ i. lookup i A) units chunks
            (λ i c.
              lookup-append i A Z ∙ or_else-left (lookup i A) _ (gather-present i units chunks p c))
            (gather-Placed units chunks (λ i. omega (arith, u i)) p),
      )

  -- The results in the order of the indices.
  pub record Ordered (n index : ℕ) (ordered : List (ℕ × R)) : Type ℓ where
    pub results : List R
    pub returned : in_order n index ordered ≡ some results
    pub count_kept : length results ≡ n
    pub each : (k : ℕ) → k < n → get_elem? results k ≡ lookup (index + k) ordered

  pub in_order-Ordered :
      (n index : ℕ) (ordered : List (ℕ × R))
      → ((i : ℕ) → index ≤ i → i < index + n → is_some (lookup i ordered) ≡ true)
      → Ordered n index ordered
  unfolding in_order
  in_order-Ordered zero index ordered h = record {
    results = [];
    returned = refl;
    count_kept = refl;
    each = λ k c. absurd (omega arith);
  }
  in_order-Ordered (suc n) index ordered h =
      let rest =
        in_order-Ordered n (suc index) ordered (λ i a b. h i (omega arith) (omega arith)) in
      elim (Option-cases (lookup index ordered)) [
        | inl gone ↦
            absurd (false≢true (sym (ap is_some gone) ∙ h index (omega arith) (omega arith)))
        | inr (r, e) ↦ record {
          results = r ∷ rest.results;
          returned = rw (in_order, e, rest.returned) refl;
          count_kept = ap suc rest.count_kept;
          each = λ k c. elim_index r rest.results ordered index n e rest.each k c;
        }
      ]
    where
      elim_index :
          (r : R) (results : List R) (ordered : List (ℕ × R)) (index n : ℕ)
          → lookup index ordered ≡ some r
          → ((k : ℕ) → k < n → get_elem? results k ≡ lookup (suc index + k) ordered)
          → (k : ℕ) → k < suc n
          → get_elem? (r ∷ results) k ≡ lookup (index + k) ordered
      elim_index r results ordered index n e each zero c =
          sym (ap (λ i. lookup i ordered) (omega arith) ∙ e)
      elim_index r results ordered index n e each (suc k) c =
          each k (omega arith) ∙ ap (λ i. lookup i ordered) (omega arith)
