-- ===== src/Decisions/Tests.antt =====
-- Concrete decisions: two routes, a batch of three requests, and a platform answer.
use maivn.Prelude.{
  suc, ap, ◌+◌, length, is_some, ℕ, ◌≡◌, refl, ◌⊎◌, Bool, true, false, Option, none, some, List, [],
  ◌∷◌, arith, All, contains, nat_eq,
}
use maivn.Decisions.Model.{
  public, private, Source, DecisionStatus, DecisionRequest, DecisionConfig, DecisionAnswer,
  DecisionUsage, llm, decision, DecisionPrediction, DecisionResult, choice_keys,
}
use maivn.Decisions.Routing.{
  Predicted, timed_out, prediction, Baselined, answer, finish, primary_attempt, attempt, judge,
  adecide, baseline_call,
}
use maivn.Decisions.Routing.Baseline.{
  is_decided, answering, adecide-decides, adecide-value-declared, adecide-calls,
}
use maivn.Decisions.Batch.{plan}
use maivn.Decisions.Batch.Plan.{count_units, count-plan}
use maivn.Decisions.Batch.Places.{Returns, units_of, InOrder, native_batch-InOrder}
use maivn.Decisions.Batch.Units.{IsUnit, key_at, plan-IsUnit}
use maivn.Decisions.Platform.{
  AnswerStatus, ResponseStatus, Response, post_failed, parse, predict_batch, request_body, key_of,
}
use maivn.Decisions.Platform.Answers.{Answers, parse-Answers}
use maivn.Decisions.Platform.Gate.{MaySend, predict_batch-posts}
use maivn.Decisions.NativeUnit.{
  UnitOutcome, UnitCall, native_unit, finish_all, unit_attempt, finish_one, outcomes_of,
}
use maivn.Decisions.NativeUnit.Results.{Answered, native_unit-Answered, native_unit-returns}
use maivn.Decisions.Usage.{UsageRecord, categorized_token_usage}
use maivn.Decisions.Usage.Totals.{Totals, categorized_token_usage-Totals}

abbrev a_request : DecisionRequest ℕ
a_request = record {
  name = "route";
  state = "a question";
  images = [];
  instructions = "";
  choices = record { key = "yes"; description = "" } ∷ record { key = "no"; description = "" } ∷ [];
  privacy = public;
  private_data = [];
}

abbrev a_private_request : DecisionRequest ℕ
a_private_request = record a_request { privacy = private }

abbrev a_config : DecisionConfig
a_config = record { min_confidence = 5; enabled = true; max_batch_questions = 2 }

abbrev a_usage : Option DecisionUsage
a_usage = some (record { input_tokens = some 11; output_tokens = none })

abbrev a_prediction : DecisionPrediction
a_prediction = record {
  value = "yes";
  provider = "maivn";
  model = some "m";
  usage = a_usage;
  confidence = 9;
}

abbrev a_baseline : DecisionRequest ℕ → Baselined
a_baseline request =
    answer (record {
      value = "no";
      provider = "local";
      model = none;
      usage = none;
      token_category = none;
    })

abbrev a_backend : DecisionRequest ℕ → Predicted
a_backend request = prediction a_prediction

abbrev a_result : DecisionResult
a_result = record {
  value = "yes";
  source = Source.primary;
  primary = primary_attempt DecisionStatus.accepted (some a_prediction) none;
  fallback = none;
}

adecide-value-declared_example : contains "yes" (choice_keys a_request) ≡ true
unfolding adecide finish attempt judge
adecide-value-declared_example =
    adecide-value-declared a_config a_backend a_baseline a_request a_result refl

adecide-calls_example :
    (adecide a_config a_backend a_baseline a_private_request).1 ≡ baseline_call ∷ []
adecide-calls_example = adecide-calls a_config a_backend a_baseline a_private_request

abbrev some_keys : List (Option ℕ)
some_keys = some 1 ∷ none ∷ some 2 ∷ some 1 ∷ some 1 ∷ []

count-plan_example : count_units 3 (plan nat_eq 2 some_keys) ≡ 1
count-plan_example = count-plan nat_eq 1 3 some_keys

plan-IsUnit_example : All (IsUnit nat_eq (key_at some_keys) 2) (plan nat_eq 2 some_keys)
plan-IsUnit_example = plan-IsUnit nat_eq (λ k. ground arith) 2 some_keys

-- A result that names its index, the size of its unit and its place there.
abbrev placed : ℕ → ℕ → List ℕ → List (ℕ × ℕ × ℕ)
placed size place [] = []
placed size place (i ∷ indices) = (i, size, place) ∷ placed size (place + 1) indices

abbrev a_unit : List ℕ → Option (List (ℕ × ℕ × ℕ))
a_unit indices = some (placed (length indices) 0 indices)

length-placed :
    (size place : ℕ) (indices : List ℕ) → length (placed size place indices) ≡ length indices
length-placed size place [] = refl
length-placed size place (i ∷ indices) = ap suc (length-placed size (place + 1) indices)

a_unit-Returns : (units : List (List ℕ)) → All (Returns a_unit) units
a_unit-Returns [] = tt
a_unit-Returns (indices ∷ units) = (
  (placed (length indices) 0 indices, refl, length-placed (length indices) 0 indices),
  a_unit-Returns units,
)

abbrev three_requests : List (DecisionRequest ℕ)
three_requests = a_request ∷ a_private_request ∷ a_request ∷ []

native_batch-InOrder_example : InOrder (λ _ _. true) 1 a_unit three_requests
native_batch-InOrder_example =
    native_batch-InOrder (λ _ _. true) 1 a_unit three_requests
      (a_unit-Returns (units_of (λ _ _. true) 1 a_unit three_requests))

abbrev a_response : Response
a_response = record {
  status = ResponseStatus.decided;
  model = some "m";
  answers =
      record {
        name = "q1";
        status = AnswerStatus.accepted;
        value = some "yes";
        confidence = some 9;
      }
      ∷ record { name = "q2"; status = AnswerStatus.refused; value = none; confidence = none }
      ∷ [];
  usage = a_usage;
}

parse-Answers_example :
    Answers a_usage
      (a_request ∷ a_request ∷ [])
      (parse (λ t _. some t) (some a_response) (a_request ∷ a_request ∷ []) ("q1" ∷ "q2" ∷ []))
parse-Answers_example =
    parse-Answers (λ t _. some t) a_response (a_request ∷ a_request ∷ []) ("q1" ∷ "q2" ∷ [])
      (omega arith)

predict_batch-posts_example :
    ((predict_batch
          (λ _ _. true)
          (λ _. "q")
          (λ t _. some t)
          (λ _. some true)
          none
          (λ _. post_failed)
          (a_request ∷ a_private_request ∷ [])).1
        ≡ [])
      × ¬ (
          All
            (MaySend (λ _ _. true) (λ _. some true) (key_of a_request))
            (a_request ∷ a_private_request ∷ []))
    ⊎ (All
          (MaySend (λ _ _. true) (λ _. some true) (key_of a_request))
          (a_request ∷ a_private_request ∷ [])
        × ((predict_batch
              (λ _ _. true)
              (λ _. "q")
              (λ t _. some t)
              (λ _. some true)
              none
              (λ _. post_failed)
              (a_request ∷ a_private_request ∷ [])).1
            ≡ request_body (λ _. "q") none a_request (a_private_request ∷ []) ∷ []))
predict_batch-posts_example =
    predict_batch-posts (λ _ _. true) (λ _. "q") (λ t _. some t) (λ _. some true) none
      (λ _. post_failed) a_request (a_private_request ∷ [])

abbrev a_call : UnitCall
a_call =
    UnitCall.returned (UnitOutcome.predicted a_prediction ∷ UnitOutcome.predicted a_prediction ∷ [])

abbrev unit_result : Bool → DecisionResult
unit_result owner = record {
  value = "yes";
  source = Source.primary;
  primary =
      (unit_attempt a_config a_baseline 2 owner a_request (UnitOutcome.predicted a_prediction)).0;
  fallback = none;
}

native_unit-Answered_example :
    Answered a_config a_baseline true
      (a_request ∷ a_request ∷ [])
      (unit_result true ∷ unit_result false ∷ [])
unfolding native_unit finish_all finish_one unit_attempt outcomes_of finish judge
native_unit-Answered_example =
    native_unit-Answered a_config a_baseline a_call a_request (a_request ∷ [])
      (unit_result true ∷ unit_result false ∷ []) refl

abbrev some_records : List UsageRecord
some_records =
    record { category = decision; input = some 3; output = none }
    ∷ record { category = llm; input = some 4; output = some 5 }
    ∷ record { category = decision; input = some 6; output = some 7 }
    ∷ []

categorized_token_usage-Totals_example :
    Totals llm (categorized_token_usage some_records).llm some_records
    × Totals decision (categorized_token_usage some_records).decision some_records
categorized_token_usage-Totals_example = categorized_token_usage-Totals some_records

abbrev an_answerer : DecisionRequest ℕ → DecisionAnswer
an_answerer request = record {
  value = "no";
  provider = "local";
  model = none;
  usage = none;
  token_category = none;
}

adecide-decides_example :
    is_decided (adecide a_config (λ _. timed_out) (answering a_config an_answerer) a_request).0
    ≡ true
adecide-decides_example = adecide-decides a_config an_answerer (λ _. timed_out) a_request refl

native_unit-returns_example :
    is_some (
      native_unit a_config
        (answering a_config an_answerer)
        UnitCall.crashed
        (a_request ∷ a_request ∷ []))
    ≡ true
native_unit-returns_example =
    native_unit-returns a_config an_answerer UnitCall.crashed a_request (a_request ∷ [])
      (refl, (refl, tt))
