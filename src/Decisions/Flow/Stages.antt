-- ===== src/Decisions/Flow/Stages.antt =====
-- One stage: its requests, its gates, its answers (`run_stage` and `rejected` of
-- src/maivn/_internal/decisions/flow_execution.py).
pub mod Answering
pub mod Gating
pub mod Asking
use maivn.Prelude.{
  ℕ, String, Bool, true, false, not, ◌&&◌, none, some, List, [], ◌∷◌, ◌==◌, if◌then◌else◌, map,
  length, Result, ok, err, ◌>>=◌,
}
use maivn.Decisions.Model.{
  DecisionRequest, DecisionResult, DecisionStatus, accepted, Source, primary, fallback,
}
use maivn.Decisions.Batch.{BatchKey, batch_key}
use maivn.Decisions.Flow.{
  Answers, DecisionContext, FlowError, missing, DecisionStage, find, resolve,
}
use maivn.Decisions.Flow.Units.{stage_units, dispatch_units, assemble}

abbrev pub named : {A : Type 0} → List (String × A) → List DecisionResult → Answers
named [] answers = []
named (q ∷ questions) [] = []
named (q ∷ questions) (a ∷ answers) = (q.0, a) ∷ named questions answers

abbrev is_primary : Source → Bool
is_primary primary = true
is_primary fallback = false

abbrev is_accepted : DecisionStatus → Bool
is_accepted accepted = true
is_accepted _ = false

-- An accepted primary answer other than the required one.
abbrev refuses : DecisionResult → String → Bool
refuses answer value =
    is_primary answer.source && (is_accepted answer.primary.status && not (answer.value == value))

-- `rejected`, over the required values; a missing answer is a `KeyError`.
pub rejected_by : {E : Type 0} → List (String × String) → Answers → Result (FlowError E) Bool
rejected_by [] answers = ok false
rejected_by ((name, value) ∷ require) answers = elim (find name answers) [
  | none ↦ err missing
  | some answer ↦ if refuses answer value then ok true else rejected_by require answers
]

module _ {I X Y E : Type 0} (same_key : BatchKey I → BatchKey I → Bool) where
  -- The requests are asked in these units.
  pub units_of : DecisionStage I X Y E → List (DecisionRequest I) → List (List ℕ)
  unfolding stage_units batch_key
  units_of stage requests = stage_units same_key stage.native_batch (map batch_key requests)

  pub answer_requests :
      DecisionStage I X Y E → List (DecisionRequest I) → Result (FlowError E) Answers
  unfolding units_of dispatch_units assemble
  answer_requests stage requests = do
    chunks ← dispatch_units stage.client stage.native_batch requests (units_of stage requests)
    answers ← assemble (length requests) (units_of stage requests) chunks
    ok (named stage.questions answers)

  -- `run_stage`, with the requests that it dispatches.
  unfoldable pub run_stage :
      DecisionStage I X Y E
      → DecisionContext X Y
      → List (DecisionRequest I) × Result (FlowError E) Answers
  unfolding resolve answer_requests
  run_stage stage snapshot = elim (resolve stage.require snapshot stage.questions) [
    | err e ↦ ([], err e)
    | ok requests ↦ (requests, answer_requests stage requests)
  ]
