-- ===== src/Decisions/Flow/Execution.antt =====
-- A plan around one invocation (`execute` and `stream_execute` of
-- src/maivn/_internal/decisions/flow_execution.py). The invocation, the mapping of its input, the
-- reading of a response from stream events and its validation (`coerce_structured_response`, with the
-- thread id) are parameters; so is how a scope answers a stream. The consumer of a stream reads it
-- to its end. `P` is what a stream event carries besides.
pub mod Once
use maivn.Prelude.{
  ℕ, String, Bool, true, false, not, ◌&&◌, ◌||◌, Option, none, some, List, [], ◌∷◌, ◌==◌,
  if◌then◌else◌, contains, map, Result, ok,
}
use maivn.Decisions.Model.{DecisionRequest}
use maivn.Decisions.Batch.{BatchKey}
use maivn.Decisions.Flow.{
  Answers, Records, DecisionContext, FlowError, Placement, before, after, DecisionStage,
}
use maivn.Decisions.Flow.Units.{lifted}
use maivn.Decisions.Flow.Stages.{run_stage, rejected_by}
use maivn.Decisions.Flow.Traced.{Traced, ◌>>=◌, ◌>>◌, note, lift, pure}

pub data PlanStatus : Type 0 where
  completed skipped : PlanStatus

pub record DecisionInvocationResult (Y : Type 0) : Type 0 where
  pub status : PlanStatus
  pub response : Option Y
  pub decisions : Records
  pub skipped_by : Option String

-- `has_parent` is whether its data name a parent session.
pub record StreamEvent (P : Type 0) : Type 0 where
  pub event_type : String
  pub has_parent : Bool
  pub payload : P

-- What a plan does: it asks for a decision, invokes the scope, and yields to a stream's consumer.
pub data Effect (I X Y P : Type 0) : Type 0 where
  asked : String → DecisionRequest I → Effect I X Y P
  invoked : X → Effect I X Y P
  stage_started stage_completed : String → Placement → ℕ → Effect I X Y P
  forwarded : StreamEvent P → Effect I X Y P
  plan_completed : DecisionInvocationResult Y → Effect I X Y P

-- A scope: its answer to an input, the events of its stream with the exception that ends it if one
-- does, the response that events come to, and the validation of a response.
pub record Scope (X Y P E : Type 0) : Type 0 where
  pub ainvoke : X → Result E Y
  pub astream : X → List (StreamEvent P) × Option E
  pub response_from : List (StreamEvent P) → Result E Y
  pub coerce : Y → Result E Y

abbrev pub is_before : Placement → Bool
is_before before = true
is_before after = false

-- `records[name] = answers`
pub set_record : String → Answers → Records → Records
set_record name answers [] = (name, answers) ∷ []
set_record name answers ((n, a) ∷ records) =
    if n == name then (n, answers) ∷ records else (n, a) ∷ set_record name answers records

abbrev pub is_terminal : {P : Type 0} → StreamEvent P → Bool
is_terminal event =
    contains event.event_type ("final" ∷ "session.completed" ∷ "error" ∷ []) && not event.has_parent

abbrev pub any_terminal : {P : Type 0} → List (StreamEvent P) → Bool
any_terminal [] = false
any_terminal (event ∷ events) = is_terminal event || any_terminal events

abbrev pub context : {X Y : Type 0} → X → Option Y → Records → DecisionContext X Y
context original response records = record {
  input = original;
  output = response;
  decisions = records;
}

-- The input of the invocation.
abbrev pub mapped_input :
    {X Y E : Type 0}
    → Option (DecisionContext X Y → Result E X)
    → X
    → Records
    → Result (FlowError E) X
mapped_input none original records = ok original
mapped_input (some mapper) original records = lifted (mapper (context original none records))

abbrev pub skipped_by_stage : {Y : Type 0} → Records → String → DecisionInvocationResult Y
skipped_by_stage records name = record {
  status = skipped;
  response = none;
  decisions = records;
  skipped_by = some name;
}

abbrev pub completed_with : {Y : Type 0} → Y → Records → DecisionInvocationResult Y
completed_with response records = record {
  status = completed;
  response = some response;
  decisions = records;
  skipped_by = none;
}

-- The invocation and the validation of its response.
unfoldable pub invoke_scope :
    {I X Y P E : Type 0} → Scope X Y P E → X → Traced (Effect I X Y P) (FlowError E) Y
invoke_scope scope input = do
  note (invoked input)
  answer ← lift (lifted (scope.ainvoke input))
  lift (lifted (scope.coerce answer))

module _ {I X Y P E : Type 0} (same_key : BatchKey I → BatchKey I → Bool) where
  -- `run_stage`, with what it asks for.
  unfoldable pub stage_answers :
      DecisionStage I X Y E → DecisionContext X Y → Traced (Effect I X Y P) (FlowError E) Answers
  unfolding run_stage
  stage_answers stage snapshot =
      let (requests, answers) = run_stage same_key stage snapshot in
      (map (asked stage.name) requests, answers)

  -- The loop over the stages before the invocation: the records, and the stage that rejects it.
  unfoldable pub run_before :
      X
      → List (DecisionStage I X Y E)
      → Records
      → Traced (Effect I X Y P) (FlowError E) (Records × Option String)
  unfolding stage_answers
  run_before original [] records = pure (records, none)
  run_before original (stage ∷ stages) records =
      if is_before stage.at
      then (do
        answers ← stage_answers stage (context original none records)
        let next = set_record stage.name answers records
        refused ← lift (rejected_by stage.require answers)
        if refused then pure (next, some stage.name) else run_before original stages next)
      else run_before original stages records

  -- The loop over the stages after it.
  unfoldable pub run_after :
      X → Y → List (DecisionStage I X Y E) → Records → Traced (Effect I X Y P) (FlowError E) Records
  unfolding stage_answers
  run_after original response [] records = pure records
  run_after original response (stage ∷ stages) records =
      if is_before stage.at then run_after original response stages records else (do
        answers ← stage_answers stage (context original (some response) records)
        run_after original response stages (set_record stage.name answers records))

  -- What follows the loop over the stages before the invocation.
  unfoldable pub execute_rest :
      Scope X Y P E
      → List (DecisionStage I X Y E)
      → Option (DecisionContext X Y → Result E X)
      → X
      → Records × Option String
      → Traced (Effect I X Y P) (FlowError E) (DecisionInvocationResult Y)
  unfolding run_after invoke_scope
  execute_rest scope stages mapper messages (records, some name) =
      pure (skipped_by_stage records name)
  execute_rest scope stages mapper messages (records, none) = do
    input ← lift (mapped_input mapper messages records)
    response ← invoke_scope scope input
    annotated ← run_after messages response stages records
    pure (completed_with response annotated)

  -- `execute`
  unfoldable pub execute :
      Scope X Y P E
      → List (DecisionStage I X Y E)
      → Option (DecisionContext X Y → Result E X)
      → X
      → Traced (Effect I X Y P) (FlowError E) (DecisionInvocationResult Y)
  unfolding run_before execute_rest
  execute scope stages mapper messages =
      run_before messages stages [] >>= execute_rest scope stages mapper messages
