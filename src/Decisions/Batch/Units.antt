-- ===== src/Decisions/Batch/Units.antt =====
-- What the requests of one unit have in common.
use mathlib.Core.Path.{subst}
use maivn.Prelude.{
  ℕ, zero, suc, ◌+◌, ◌≤◌, ◌≡◌, refl, ◌⊎◌, inl, inr, Bool, true, Option, none, some, List, [], ◌∷◌,
  ◌++◌, arith, length, take, drop, All, All-append, if-case,
}
use maivn.Decisions.Batch.{Groups, add_to_group, partition, chunks, chunk_groups, plan}

abbrev pub key_at {ℓ} : {K : Type ℓ} → List (Option K) → ℕ → Option K
key_at [] i = none
key_at (k ∷ keys) zero = k
key_at (k ∷ keys) (suc i) = key_at keys i

module _ {ℓ} {K : Type ℓ} (same_key : K → K → Bool) (key_of : ℕ → Option K) where
  -- The request of an index has this key.
  abbrev pub HasKey : K → ℕ → Type ℓ
  HasKey k i = (k' : K) × (key_of i ≡ some k') × (same_key k k' ≡ true)

  -- A unit is one request by itself, or requests that share a key and are at most `size`.
  abbrev pub IsUnit : ℕ → List ℕ → Type ℓ
  IsUnit size unit =
      ((i : ℕ) × (unit ≡ i ∷ []) × (key_of i ≡ none))
      ⊎ ((k : K) × All (HasKey k) unit × (length unit ≤ size))

  abbrev GroupsAgree : Groups K → Type ℓ
  GroupsAgree [] = Unit
  GroupsAgree ((k, indices) ∷ groups) = All (HasKey k) indices × GroupsAgree groups

  All-take : (k : K) (n : ℕ) (xs : List ℕ) → All (HasKey k) xs → All (HasKey k) (take n xs)
  All-take k zero xs h = tt
  All-take k (suc n) [] h = tt
  All-take k (suc n) (x ∷ xs) h = (h.0, All-take k n xs h.1)

  All-drop : (k : K) (n : ℕ) (xs : List ℕ) → All (HasKey k) xs → All (HasKey k) (drop n xs)
  All-drop k zero xs h = h
  All-drop k (suc n) [] h = tt
  All-drop k (suc n) (x ∷ xs) h = All-drop k n xs h.1

  length-take-le : (n : ℕ) (xs : List ℕ) → length (take n xs) ≤ n
  length-take-le zero xs = omega arith
  length-take-le (suc n) [] = omega arith
  length-take-le (suc n) (x ∷ xs) = omega (arith, length-take-le n xs)

  chunks-IsUnit :
      (k : K) (fuel size : ℕ) (xs : List ℕ)
      → All (HasKey k) xs
      → All (IsUnit size) (chunks fuel size xs)
  unfolding chunks
  chunks-IsUnit k fuel size [] h = tt
  chunks-IsUnit k zero size (x ∷ xs) h = tt
  chunks-IsUnit k (suc fuel) size (x ∷ xs) h = (
    inr (k, All-take k size (x ∷ xs) h, length-take-le size (x ∷ xs)),
    chunks-IsUnit k fuel size (drop size (x ∷ xs)) (All-drop k size (x ∷ xs) h),
  )

  chunk_groups-IsUnit :
      (size : ℕ) (groups : Groups K)
      → GroupsAgree groups
      → All (IsUnit size) (chunk_groups size groups)
  unfolding chunk_groups
  chunk_groups-IsUnit size [] h = tt
  chunk_groups-IsUnit size ((k, indices) ∷ groups) h =
      All-append (IsUnit size) (chunks (length indices) size indices) (chunk_groups size groups)
        (chunks-IsUnit k (length indices) size indices h.0) (chunk_groups-IsUnit size groups h.1)

  module _ (reflexive : (k : K) → same_key k k ≡ true) where
    add_to_group-GroupsAgree :
        (key : K) (index : ℕ) (groups : Groups K)
        → key_of index ≡ some key
        → GroupsAgree groups
        → GroupsAgree (add_to_group same_key key index groups)
    unfolding add_to_group
    add_to_group-GroupsAgree key index [] e h = (((key, e, reflexive key), tt), tt)
    add_to_group-GroupsAgree key index ((k, indices) ∷ groups) e h =
        if-case GroupsAgree (same_key k key)
          (λ same. (All-append (HasKey k) indices (index ∷ []) h.0 ((key, e, same), tt), h.1))
          (λ _. (h.0, add_to_group-GroupsAgree key index groups e h.1))

    abbrev Reads : ℕ → List (Option K) → Type ℓ
    Reads index [] = Unit
    Reads index (k ∷ keys) = (key_of index ≡ k) × Reads (suc index) keys

    partition-IsUnit :
        (size index : ℕ) (keys : List (Option K)) (groups : Groups K) (units : List (List ℕ))
        → Reads index keys
        → GroupsAgree groups
        → All (IsUnit size) units
        → GroupsAgree (partition same_key index keys groups units).0
          × All (IsUnit size) (partition same_key index keys groups units).1
    unfolding partition
    partition-IsUnit size index [] groups units r g u = (g, u)
    partition-IsUnit size index (some key ∷ keys) groups units r g u =
        partition-IsUnit size (suc index) keys (add_to_group same_key key index groups) units r.1
          (add_to_group-GroupsAgree key index groups r.0 g) u
    partition-IsUnit size index (none ∷ keys) groups units r g u =
        partition-IsUnit size (suc index) keys groups (units ++ (index ∷ []) ∷ []) r.1 g
          (All-append (IsUnit size) units ((index ∷ []) ∷ []) u (inl (index, refl, r.0), tt))

    plan_units :
        (size : ℕ) (keys : List (Option K))
        → Reads 0 keys
        → All (IsUnit size) (plan same_key size keys)
    unfolding plan
    plan_units size keys r =
        let (g, u) = partition-IsUnit size 0 keys [] [] r tt tt in
        All-append (IsUnit size) (partition same_key 0 keys [] []).1
          (chunk_groups size (partition same_key 0 keys [] []).0) u
          (chunk_groups-IsUnit size (partition same_key 0 keys [] []).0 g)

module _ {ℓ} {K : Type ℓ} (same_key : K → K → Bool)
    (reflexive : (k : K) → same_key k k ≡ true) where
  Reads-key_at :
      (key_of : ℕ → Option K) (index : ℕ) (keys : List (Option K))
      → ((i : ℕ) → key_of (index + i) ≡ key_at keys i)
      → Reads same_key key_of reflexive index keys
  Reads-key_at key_of index [] h = tt
  Reads-key_at key_of index (k ∷ keys) h = (
    (let e : index + 0 ≡ index = omega arith in subst (λ n. key_of n ≡ k) e (h 0)),
    Reads-key_at key_of (suc index) keys (λ i.
        let e : index + suc i ≡ suc index + i = omega arith in
        subst (λ n. key_of n ≡ key_at keys i) e (h (suc i))),
  )

  -- Each unit of the plan is one request that is decided by itself, or holds at most `size`
  -- requests that share the state, the private values and the images, which one platform call
  -- demands.
  pub plan-IsUnit :
      (size : ℕ) (keys : List (Option K))
      → All (IsUnit same_key (key_at keys) size) (plan same_key size keys)
  plan-IsUnit size keys =
      plan_units same_key (key_at keys) reflexive size keys
        (Reads-key_at (key_at keys) 0 keys (λ i. let e : 0 + i ≡ i = omega arith in rw e refl))
