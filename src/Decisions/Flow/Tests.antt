-- ===== src/Decisions/Flow/Tests.antt =====
-- A plan of two stages, of which the first one skips the invocation or not.
use maivn.Prelude.{
  ℕ, ◌≡◌, refl, ◌⊎◌, String, Bool, true, false, Option, none, some, List, [], ◌∷◌, map, Result, ok,
  err, inl, arith,
}
use maivn.Decisions.Model.{
  DecisionRequest, unique_choices, public, DecisionResult, accepted, primary, individual,
}
use maivn.Decisions.Batch.{in_order}
use maivn.Decisions.Batch.Plan.{count_units}
use maivn.Decisions.Flow.{
  Answers, DecisionContext, FlowError, DecisionStage, DecisionClient, before, fixed,
}
use maivn.Decisions.Flow.Units.{stage_units, lifted}
use maivn.Decisions.Flow.Units.Plan.{count-stage_units}
use maivn.Decisions.Flow.Stages.{answer_requests, rejected_by, run_stage}
use maivn.Decisions.Flow.Stages.Answering.{answer_requests-answers}
use maivn.Decisions.Flow.Stages.Gating.{run_stage-decided}
use maivn.Decisions.Flow.Stages.Asking.{Gated, run_stage-Gated}
use maivn.Decisions.Flow.Builder.{Given, given_request, DecisionInvocationBuilder, decide}
use maivn.Decisions.Flow.Builder.Plans.{ValidStage, IsPlan, decide-IsPlan}
use maivn.Decisions.Flow.Execution.{Scope, StreamEvent, execute}
use maivn.Decisions.Flow.Execution.Once.{Once, execute-Once}
use maivn.Decisions.Flow.Streams.{ended, stream_execute}
use maivn.Decisions.Flow.Streams.Agreement.{received}
use maivn.Decisions.Flow.Streams.Equivalence.{Streams, stream_execute-Streams}

abbrev a_question : DecisionRequest ℕ
a_question = record {
  name = "go";
  state = "a question";
  images = [];
  instructions = "";
  choices = record { key = "yes"; description = "" } ∷ record { key = "no"; description = "" } ∷ [];
  privacy = public;
  private_data = [];
}

abbrev says_no : DecisionRequest ℕ → DecisionResult
says_no request = record {
  value = "no";
  source = primary;
  primary = record {
    status = accepted;
    model = none;
    provider = none;
    confidence = none;
    usage = none;
    usage_scope = individual;
    usage_batch_size = none;
    token_category = none;
    usage_owner = false;
  };
  fallback = none;
}

-- An exception is a text, an input and a response are numbers.
abbrev a_client : DecisionClient ℕ String
a_client = record {
  adecide = λ request. ok (says_no request);
  abatch = λ requests. ok (map says_no requests);
}

abbrev a_stage : DecisionStage ℕ ℕ ℕ String
a_stage = record {
  name = "gate";
  client = a_client;
  questions = ("go", fixed a_question) ∷ ("again", fixed a_question) ∷ [];
  at = before;
  require = ("go", "yes") ∷ [];
  max_concurrency = 4;
  native_batch = true;
}

abbrev first_payload : List (StreamEvent ℕ) → Result String ℕ
first_payload [] = err "empty"
first_payload (event ∷ events) = ok event.payload

abbrev a_scope : Scope ℕ ℕ ℕ String
a_scope = record {
  ainvoke = λ x. ok x;
  astream = λ x. (record { event_type = "final"; has_parent = false; payload = x } ∷ [], none);
  response_from = first_payload;
  coerce = λ y. ok y;
}

abbrev a_snapshot : DecisionContext ℕ ℕ
a_snapshot = record { input = 3; output = none; decisions = [] }

abbrev some_answers : Answers
some_answers = ("go", says_no a_question) ∷ ("again", says_no a_question) ∷ []

abbrev keys : List (Option ℕ)
keys = some 1 ∷ none ∷ some 1 ∷ []

abbrev same : {K : Type 0} → K → K → Bool
same a b = true

count-stage_units_example : count_units 2 (stage_units same true keys) ≡ 1
count-stage_units_example = count-stage_units same true 2 keys

in_place : stage_units same true keys ≡ (0 ∷ 2 ∷ []) ∷ (1 ∷ []) ∷ []
unfolding stage_units
in_place = refl

answer_requests-answers_example :
    answer_requests same a_stage (a_question ∷ a_question ∷ []) ≡ ok some_answers
answer_requests-answers_example =
    answer_requests-answers same says_no a_stage (a_question ∷ a_question ∷ []) (λ _. refl)
      (λ _. refl)

run_stage-Gated_example :
    (((run_stage same a_stage a_snapshot).0 ≡ [])
      × ((e : FlowError String) × ((run_stage same a_stage a_snapshot).1 ≡ err e)))
    ⊎ Gated a_stage.require a_stage.questions (run_stage same a_stage a_snapshot).0
run_stage-Gated_example = run_stage-Gated same a_stage a_snapshot

valid_stage : ValidStage (λ _. true) a_stage
valid_stage = record {
  named_well = refl;
  limited = omega arith;
  asks_some = omega arith;
  asks_few = omega arith;
  gates = ((fixed a_question, refl, refl), tt);
  gates_before = inl refl;
}

answers_in : (run_stage same a_stage a_snapshot).1 ≡ ok some_answers
unfolding run_stage unique_choices in_order
answers_in = answer_requests-answers_example

run_stage-decided_example :
    (b : Bool) × (rejected_by {E = String} a_stage.require some_answers ≡ ok b)
run_stage-decided_example =
    run_stage-decided same (λ _. true) a_stage a_snapshot some_answers valid_stage answers_in

execute-Once_example : Once (execute same a_scope (a_stage ∷ []) none 3)
execute-Once_example = execute-Once same a_scope (a_stage ∷ []) none 3

answered : (x : ℕ) → received a_scope x ≡ lifted (a_scope.ainvoke x)
unfolding ended
answered x = refl

stream_execute-Streams_example :
    Streams
      (stream_execute same a_scope (a_stage ∷ []) none 3)
      (execute same a_scope (a_stage ∷ []) none 3)
stream_execute-Streams_example = stream_execute-Streams same a_scope (a_stage ∷ []) none 3 answered

abbrev no_stages : DecisionInvocationBuilder ℕ ℕ ℕ String
no_stages = record { client = a_client; stages = [] }

abbrev asked_once : List (String × Given ℕ ℕ ℕ String)
asked_once = ("go", given_request a_question) ∷ []

abbrev one_stage : DecisionInvocationBuilder ℕ ℕ ℕ String
one_stage = record {
  client = a_client;
  stages =
      record {
        name = "gate";
        client = a_client;
        questions = ("go", fixed a_question) ∷ [];
        at = before;
        require = ("go", "yes") ∷ [];
        max_concurrency = 4;
        native_batch = false;
      }
      ∷ [];
}

declares :
    decide (λ _. true) no_stages "gate" none asked_once "before" (("go", some "yes") ∷ []) 4 false
    ≡ ok one_stage
unfolding decide unique_choices
declares = refl

decide-IsPlan_example : IsPlan (λ _. true) one_stage.stages
decide-IsPlan_example =
    decide-IsPlan (λ _. true) no_stages one_stage "gate" none asked_once "before"
      (("go", some "yes") ∷ []) 4 false (record { valid = tt; distinct = tt }) declares
