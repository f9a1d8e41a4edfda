-- ===== src/Decisions/NativeUnit.antt =====
-- The results of one native unit (`_native_unit` of src/maivn/_internal/decisions/runtime.py). An
-- outcome that fails validation is `none`.
pub mod Results
use maivn.Prelude.{
  ℕ, Bool, true, false, Option, none, some, List, [], ◌∷◌, if◌then◌else◌, length, map, nat_eq,
}
use maivn.Decisions.Model.{
  DecisionRequest, DecisionConfig, decision, DecisionPrediction, DecisionStatus, timeout,
  unavailable, invalid, batch, DecisionAttempt, DecisionResult,
}
use maivn.Decisions.Routing.{
  ProviderError, Baselined, Decided, decided, invalid_baseline_answer, baseline_raised, judge,
  finish,
}

pub data UnitOutcome : Type 0 where
  predicted : DecisionPrediction → UnitOutcome
  failed : ProviderError → UnitOutcome
  malformed : UnitOutcome

-- What awaiting `predict_batch` under the deadline comes to.
pub data UnitCall : Type 0 where
  returned : List UnitOutcome → UnitCall
  timed_out : UnitCall
  refused : ProviderError → UnitCall
  crashed : UnitCall

abbrev pub bare : DecisionStatus → ProviderError
bare status = record { status = status; usage = none; model = none; provider = none }

-- The error itself for the first request, and its copies without the receipt for the others.
refusals {ℓ} : {I : Type ℓ} → ProviderError → List (DecisionRequest I) → List UnitOutcome
refusals e [] = failed e ∷ []
refusals e (first ∷ rest) =
    failed e
    ∷ map
        (λ _.
          failed
            (record { status = e.status; usage = none; model = e.model; provider = e.provider }))
        rest

-- One outcome for each request. A list of another length is answered as an `INVALID` error.
unfoldable pub outcomes_of {ℓ} :
    {I : Type ℓ} → UnitCall → List (DecisionRequest I) → List UnitOutcome
unfolding refusals
outcomes_of (returned outcomes) requests =
    if nat_eq (length outcomes) (length requests)
    then outcomes
    else refusals (bare invalid) requests
outcomes_of timed_out requests = map (λ _. failed (bare timeout)) requests
outcomes_of (refused e) requests = refusals e requests
outcomes_of crashed requests = map (λ _. failed (bare unavailable)) requests

module _ {ℓ} {I : Type ℓ} (config : DecisionConfig) (baseline : DecisionRequest I → Baselined) where
  unfoldable pub unit_attempt :
      ℕ → Bool → DecisionRequest I → UnitOutcome → DecisionAttempt × Option DecisionPrediction
  unit_attempt size owner request (predicted p) = (
    record {
      status = judge config request p;
      model = p.model;
      provider = some p.provider;
      confidence = some p.confidence;
      usage = p.usage;
      usage_scope = batch;
      usage_batch_size = some size;
      token_category = some decision;
      usage_owner = owner;
    },
    some p,
  )
  unit_attempt size owner request (failed e) = (
    record {
      status = e.status;
      model = e.model;
      provider = e.provider;
      confidence = none;
      usage = e.usage;
      usage_scope = batch;
      usage_batch_size = some size;
      token_category = some decision;
      usage_owner = owner;
    },
    none,
  )
  unit_attempt size owner request malformed = (
    record {
      status = invalid;
      model = none;
      provider = none;
      confidence = none;
      usage = none;
      usage_scope = batch;
      usage_batch_size = some size;
      token_category = some decision;
      usage_owner = owner;
    },
    none,
  )

  unfoldable pub finish_one : ℕ → Bool → DecisionRequest I → UnitOutcome → Decided
  unfolding unit_attempt
  finish_one size owner request outcome =
      let (first, kept) = unit_attempt size owner request outcome in
      (finish baseline request first kept).0

  -- The loop over requests and outcomes. It ends at the first baseline that fails; an index past
  -- 0 is no owner. `strict=True` makes lists of two lengths an error, also `none`.
  unfoldable pub finish_all :
      ℕ → Bool → List (DecisionRequest I) → List UnitOutcome → Option (List DecisionResult)
  finish_all size owner [] [] = some []
  finish_all size owner [] (outcome ∷ outcomes) = none
  finish_all size owner (request ∷ requests) [] = none
  finish_all size owner (request ∷ requests) (outcome ∷ outcomes) =
      let rest = finish_all size false requests outcomes in
      elim (finish_one size owner request outcome) [
        | decided r ↦ elim rest [ none ↦ none | some rs ↦ some (r ∷ rs) ]
        | invalid_baseline_answer ↦ none
        | baseline_raised ↦ none
      ]

  -- `none` is an exception of the baseline, which propagates.
  unfoldable pub native_unit : UnitCall → List (DecisionRequest I) → Option (List DecisionResult)
  unfolding finish_all
  native_unit call requests = finish_all (length requests) true requests (outcomes_of call requests)
