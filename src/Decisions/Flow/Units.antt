-- ===== src/Decisions/Flow/Units.antt =====
-- The units of a stage and their calls (`_stage_units` and the tasks of `run_stage`,
-- src/maivn/_internal/decisions/flow_execution.py).
pub mod Plan
pub mod Selection
use maivn.Prelude.{
  ℕ, zero, suc, Bool, true, false, ◌&&◌, Option, none, some, List, [], ◌∷◌, ◌++◌, if◌then◌else◌,
  map, length, nat_eq, Result, ok, err, demand, ◌>>=◌, ◌>>◌,
}
use maivn.Decisions.Model.{DecisionRequest, DecisionResult}
use maivn.Decisions.Batch.{gather, same_lengths, in_order}
use maivn.Decisions.Flow.{FlowError, mismatch, missing, raised, DecisionClient}

-- A unit with the key of its group, or `none` for a request by itself.
abbrev pub Unit_ {ℓ} : Type ℓ → Type ℓ
Unit_ K = Option K × List ℕ

module _ {ℓ} {K : Type ℓ} (same_key : K → K → Bool) where
  -- `groups[key].append(index)`, where a new group is the last unit.
  pub add_to_units : K → ℕ → List (Unit_ K) → List (Unit_ K)
  add_to_units key index [] = (some key, index ∷ []) ∷ []
  add_to_units key index ((none, indices) ∷ units) = (none, indices) ∷ add_to_units key index units
  add_to_units key index ((some k, indices) ∷ units) =
      if same_key k key
      then (some k, indices ++ index ∷ []) ∷ units
      else (some k, indices) ∷ add_to_units key index units

  pub group_units : ℕ → List (Option K) → List (Unit_ K) → List (Unit_ K)
  unfolding add_to_units
  group_units index [] units = units
  group_units index (none ∷ keys) units =
      group_units (suc index) keys (units ++ (none, index ∷ []) ∷ [])
  group_units index (some key ∷ keys) units =
      group_units (suc index) keys (add_to_units key index units)

-- `[[index] for index in range(len(requests))]`
unfoldable pub singles {ℓ} : {A : Type ℓ} → ℕ → List A → List (List ℕ)
singles index [] = []
singles index (x ∷ xs) = (index ∷ []) ∷ singles (suc index) xs

-- `_stage_units` of the requests' keys.
unfoldable pub stage_units {ℓ} :
    {K : Type ℓ} → (K → K → Bool) → Bool → List (Option K) → List (List ℕ)
unfolding group_units singles
stage_units same_key true keys = map (λ u. u.1) (group_units same_key 0 keys [])
stage_units same_key false keys = singles 0 keys

abbrev pub lifted {ℓ} : {E : Type 0} {A : Type ℓ} → Result E A → Result (FlowError E) A
lifted (ok a) = ok a
lifted (err e) = err (raised e)

module _ {I E : Type 0} where
  -- `requests[index]`
  unfoldable pub request_at :
      ℕ → List (DecisionRequest I) → Result (FlowError E) (DecisionRequest I)
  request_at index [] = err missing
  request_at zero (r ∷ requests) = ok r
  request_at (suc index) (r ∷ requests) = request_at index requests

  unfoldable pub select :
      List ℕ → List (DecisionRequest I) → Result (FlowError E) (List (DecisionRequest I))
  unfolding request_at
  select [] requests = ok []
  select (index ∷ indices) requests = do
    request ← request_at index requests
    rest ← select indices requests
    ok (request ∷ rest)

  -- The call of a unit: the batch, or the decision of its first request.
  unfoldable pub call_unit :
      DecisionClient I E
      → Bool
      → List (DecisionRequest I)
      → Result (FlowError E) (List DecisionResult)
  call_unit client true requests = lifted (client.abatch requests)
  call_unit client false [] = err missing
  call_unit client false (request ∷ requests) = do
    answer ← lifted (client.adecide request)
    ok (answer ∷ [])

  -- `dispatch` for each unit; the answers are gathered.
  unfoldable pub dispatch_units :
      DecisionClient I E
      → Bool
      → List (DecisionRequest I)
      → List (List ℕ)
      → Result (FlowError E) (List (List DecisionResult))
  unfolding select call_unit
  dispatch_units client native requests [] = ok []
  dispatch_units client native requests (unit ∷ units) = do
    asked ← select unit requests
    chunk ← call_unit client native asked
    chunks ← dispatch_units client native requests units
    ok (chunk ∷ chunks)

abbrev pub found {ℓ} : {E : Type 0} {A : Type ℓ} → Option A → Result (FlowError E) A
found none = err missing
found (some a) = ok a

-- The answers in the order of the requests.
unfoldable pub assemble :
    {E : Type 0}
    → ℕ
    → List (List ℕ)
    → List (List DecisionResult)
    → Result (FlowError E) (List DecisionResult)
assemble count units chunks = do
  demand (same_lengths units chunks) mismatch
  found (in_order count 0 (gather units chunks))
