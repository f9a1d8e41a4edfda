-- ===== src/Decisions/Flow/Streams.antt =====
-- A plan as a stream of events (`stream_execute` of
-- src/maivn/_internal/decisions/flow_execution.py), read to its end.
pub mod Agreement
pub mod Equivalence
use maivn.Prelude.{
  String, Bool, true, false, Option, none, some, List, [], ◌∷◌, if◌then◌else◌, map, length, Result,
  ok, err,
}
use maivn.Decisions.Batch.{BatchKey}
use maivn.Decisions.Flow.{Records, DecisionContext, FlowError, no_terminal, raised, DecisionStage}
use maivn.Decisions.Flow.Units.{lifted}
use maivn.Decisions.Flow.Stages.{rejected_by}
use maivn.Decisions.Flow.Traced.{Traced, ◌>>=◌, ◌>>◌, note, lift, pure}
use maivn.Decisions.Flow.Execution.{
  Effect, invoked, stage_started, stage_completed, forwarded, plan_completed, Scope, is_before,
  context, any_terminal, set_record, stage_answers, mapped_input, skipped_by_stage, completed_with,
}

unfoldable pub ended : {E : Type 0} → Option E → Bool → Result (FlowError E) (Unit {0})
ended (some exc) has_terminal = err (raised exc)
ended none false = err no_terminal
ended none true = ok tt

module _ {I X Y P E : Type 0} where
  started : DecisionStage I X Y E → Effect I X Y P
  started stage = stage_started stage.name stage.at (length stage.questions)

  done : DecisionStage I X Y E → Effect I X Y P
  done stage = stage_completed stage.name stage.at (length stage.questions)

  -- The forwarded events, and the response that they come to.
  unfoldable pub forward : Scope X Y P E → X → Traced (Effect I X Y P) (FlowError E) Y
  unfolding ended
  forward scope input = do
    note (invoked input)
    let (events, ending) = scope.astream input
    _ ← (map forwarded events, ended ending (any_terminal events))
    answer ← lift (lifted (scope.response_from events))
    lift (lifted (scope.coerce answer))

module _ {I X Y P E : Type 0} (same_key : BatchKey I → BatchKey I → Bool) where
  unfoldable pub stream_before :
      X
      → List (DecisionStage I X Y E)
      → Records
      → Traced (Effect I X Y P) (FlowError E) (Records × Option String)
  unfolding started done
  stream_before original [] records = pure (records, none)
  stream_before original (stage ∷ stages) records =
      if is_before stage.at
      then (do
        note (started stage)
        answers ← stage_answers same_key stage (context original none records)
        let next = set_record stage.name answers records
        note (done stage)
        refused ← lift (rejected_by stage.require answers)
        if refused then pure (next, some stage.name) else stream_before original stages next)
      else stream_before original stages records

  unfoldable pub stream_after :
      X → Y → List (DecisionStage I X Y E) → Records → Traced (Effect I X Y P) (FlowError E) Records
  unfolding started done
  stream_after original response [] records = pure records
  stream_after original response (stage ∷ stages) records =
      if is_before stage.at then stream_after original response stages records else (do
        note (started stage)
        answers ← stage_answers same_key stage (context original (some response) records)
        note (done stage)
        stream_after original response stages (set_record stage.name answers records))

  unfoldable pub stream_rest :
      Scope X Y P E
      → List (DecisionStage I X Y E)
      → Option (DecisionContext X Y → Result E X)
      → X
      → Records × Option String
      → Traced (Effect I X Y P) (FlowError E) (Unit {0})
  unfolding stream_after forward
  stream_rest scope stages mapper messages (records, some name) =
      note (plan_completed (skipped_by_stage records name))
  stream_rest scope stages mapper messages (records, none) = do
    input ← lift (mapped_input mapper messages records)
    response ← forward scope input
    annotated ← stream_after messages response stages records
    note (plan_completed (completed_with response annotated))

  -- `stream_execute`
  unfoldable pub stream_execute :
      Scope X Y P E
      → List (DecisionStage I X Y E)
      → Option (DecisionContext X Y → Result E X)
      → X
      → Traced (Effect I X Y P) (FlowError E) (Unit {0})
  unfolding stream_before stream_rest
  stream_execute scope stages mapper messages =
      stream_before messages stages [] >>= stream_rest scope stages mapper messages
