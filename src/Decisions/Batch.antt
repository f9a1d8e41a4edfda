-- ===== src/Decisions/Batch.antt =====
-- The plan of a native batch and the reassembly of its results (`_native_batch` of
-- src/maivn/_internal/decisions/runtime.py). A Python dict keeps its keys in the order in which they
-- were first set.
pub mod Plan
pub mod Order
pub mod Reassembly
pub mod Places
pub mod Units
use maivn.Prelude.{
  ℕ, zero, suc, ◌+◌, ◌&&◌, true, false, Bool, Option, none, some, List, [], ◌∷◌, ◌++◌,
  if◌then◌else◌, nat_eq, length, take, drop, String, map,
}
use maivn.Decisions.Model.{DecisionRequest}
use maivn.Decisions.Routing.{is_blocked}

-- The indices that share one key, in order.
abbrev pub Groups {ℓ} : Type ℓ → Type ℓ
Groups K = List (K × List ℕ)

module _ {ℓ} {K : Type ℓ} (same_key : K → K → Bool) where
  -- `groups.setdefault(key, []).append(index)`
  pub add_to_group : K → ℕ → Groups K → Groups K
  add_to_group key index [] = (key, index ∷ []) ∷ []
  add_to_group key index ((k, indices) ∷ groups) =
      if same_key k key
      then (k, indices ++ index ∷ []) ∷ groups
      else (k, indices) ∷ add_to_group key index groups

  -- The `for` loop: the key of a request, or `none` where it is decided by itself.
  pub partition : ℕ → List (Option K) → Groups K → List (List ℕ) → Groups K × List (List ℕ)
  unfolding add_to_group
  partition index [] groups units = (groups, units)
  partition index (some key ∷ keys) groups units =
      partition (suc index) keys (add_to_group key index groups) units
  partition index (none ∷ keys) groups units =
      partition (suc index) keys groups (units ++ (index ∷ []) ∷ [])

-- `indices[offset : offset + size] for offset in range(0, len(indices), size)`; the fuel is the
-- number of indices, of which each round takes at least one.
unfoldable pub chunks {ℓ} : {A : Type ℓ} → ℕ → ℕ → List A → List (List A)
chunks fuel size [] = []
chunks zero size (x ∷ xs) = []
chunks (suc fuel) size (x ∷ xs) = take size (x ∷ xs) ∷ chunks fuel size (drop size (x ∷ xs))

pub chunk_groups {ℓ} : {K : Type ℓ} → ℕ → Groups K → List (List ℕ)
unfolding chunks
chunk_groups size [] = []
chunk_groups size ((key, indices) ∷ groups) =
    chunks (length indices) size indices ++ chunk_groups size groups

-- The lists of indices that are decided together, in the order in which they are started.
pub plan {ℓ} : {K : Type ℓ} → (K → K → Bool) → ℕ → List (Option K) → List (List ℕ)
unfolding partition chunk_groups
plan same_key size keys =
    let (groups, units) = partition same_key 0 keys [] [] in units ++ chunk_groups size groups

-- `zip(indices, chunk, strict=True)`, last pair first.
pub zip_reversed {ℓ} : {R : Type ℓ} → List ℕ → List R → List (ℕ × R)
zip_reversed [] results = []
zip_reversed (i ∷ indices) [] = []
zip_reversed (i ∷ indices) (r ∷ results) = zip_reversed indices results ++ (i, r) ∷ []

-- The dict over all units: an entry stands before those that it replaces.
unfoldable pub gather {ℓ} : {R : Type ℓ} → List (List ℕ) → List (List R) → List (ℕ × R)
unfolding zip_reversed
gather [] results = []
gather (unit ∷ units) [] = []
gather (unit ∷ units) (chunk ∷ results) = gather units results ++ zip_reversed unit chunk

-- The strict `zip` of the units with their results, and of each unit with its own.
abbrev pub same_lengths {ℓ} : {R : Type ℓ} → List (List ℕ) → List (List R) → Bool
same_lengths [] [] = true
same_lengths (unit ∷ units) (chunk ∷ chunks) =
    nat_eq (length chunk) (length unit) && same_lengths units chunks
same_lengths _ _ = false

-- What awaiting all units comes to: the first failure, or all results.
abbrev pub all_returned {ℓ} : {A : Type ℓ} → List (Option A) → Option (List A)
all_returned [] = some []
all_returned (none ∷ outcomes) = none
all_returned (some a ∷ outcomes) = elim (all_returned outcomes) [
  | none ↦ none
  | some results ↦ some (a ∷ results)
]

pub lookup {ℓ} : {R : Type ℓ} → ℕ → List (ℕ × R) → Option R
lookup index [] = none
lookup index ((i, r) ∷ ordered) = if nat_eq i index then some r else lookup index ordered

-- `[ordered[index] for index in range(count)]`; `none` is a `KeyError`.
unfoldable pub in_order {ℓ} : {R : Type ℓ} → ℕ → ℕ → List (ℕ × R) → Option (List R)
unfolding lookup
in_order zero index ordered = some []
in_order (suc count) index ordered = elim (lookup index ordered) [
  | none ↦ none
  | some r ↦ elim (in_order count (suc index) ordered) [ none ↦ none | some rs ↦ some (r ∷ rs) ]
]

-- What the requests of one platform call share.
abbrev pub BatchKey {ℓ} : Type ℓ → Type ℓ
BatchKey I = String × List (String × String) × List I

module _ {ℓ} {I : Type ℓ} where
  unfoldable pub batch_key : DecisionRequest I → Option (BatchKey I)
  batch_key request =
      if is_blocked request
      then none
      else some (request.state, request.private_data, request.images)

  -- `_native_batch`, where `unit` decides the requests of one unit in order; `none` is an exception,
  -- of a unit, of a strict `zip` or of a missing key.
  unfoldable pub native_batch {κ} :
      {R : Type κ}
      → (BatchKey I → BatchKey I → Bool)
      → ℕ
      → (List ℕ → Option (List R))
      → List (DecisionRequest I)
      → Option (List R)
  native_batch same_key size unit requests =
      let units = plan same_key size (map batch_key requests) in
      elim (all_returned (map unit units)) [
        | none ↦ none
        | some chunks ↦
            if same_lengths units chunks
            then in_order (length requests) 0 (gather units chunks)
            else none
      ]
