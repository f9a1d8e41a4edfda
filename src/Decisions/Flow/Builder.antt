-- ===== src/Decisions/Flow/Builder.antt =====
-- The declaration of stages (`DecisionInvocationBuilder.decide` and its checks,
-- src/maivn/_internal/decisions/flow.py). The pattern of names is a parameter. An argument of a type
-- that the annotations rule out is left out, but for a question and a required value, which the
-- code tells apart.
pub mod Plans
use maivn.Prelude.{
  ℕ, String, Bool, true, false, not, ◌&&◌, ◌||◌, Option, none, some, List, [], ◌∷◌, ◌++◌, ◌==◌,
  if◌then◌else◌, contains, leb, length, Result, ok, err, demand, ◌>>=◌, ◌>>◌,
}
use maivn.Decisions.Model.{DecisionRequest, choice_keys, unique_choices}
use maivn.Decisions.Flow.{
  DecisionContext, Produced, DecisionQuestion, fixed, factory, DecisionClient, DecisionStage,
  Placement, before, after, find,
}

-- The `ValueError` or `TypeError` of a declaration.
pub data BuildError : Type 0 where
  bad_name bad_limit duplicate_stage bad_placement bad_count not_a_question invalid_question :
      BuildError
  gated_after unknown_gate undeclared_value : BuildError

-- A question as it is given.
pub data Given (I X Y E : Type 0) : Type 0 where
  given_request : DecisionRequest I → Given I X Y E
  given_factory : (DecisionContext X Y → Produced I E) → Given I X Y E
  neither : Given I X Y E

pub record DecisionInvocationBuilder (I X Y E : Type 0) : Type 0 where
  pub client : DecisionClient I E
  pub stages : List (DecisionStage I X Y E)

abbrev pub max_questions : ℕ
max_questions = 32

abbrev pub placement : String → Option Placement
placement at = if at == "before" then some before else if at == "after" then some after else none

abbrev pub allows_gates : Placement → List (String × Option String) → Bool
allows_gates before gates = true
allows_gates after [] = true
allows_gates after (g ∷ gates) = false

pub or_default {ℓ} : {A : Type ℓ} → Option A → A → A
or_default none a = a
or_default (some b) a = b

pub placed : String → Result BuildError Placement
placed at = elim (placement at) [ none ↦ err bad_placement | some p ↦ ok p ]

module _ {I X Y E : Type 0} where
  abbrev pub names_stage : String → List (DecisionStage I X Y E) → Bool
  names_stage name [] = false
  names_stage name (stage ∷ stages) = (stage.name == name) || names_stage name stages

  copied_question : Given I X Y E → Result BuildError (DecisionQuestion I X Y E)
  copied_question (given_request request) = do
    demand (unique_choices request) invalid_question
    ok (fixed request)
  copied_question (given_factory f) = ok (factory f)
  copied_question neither = err not_a_question

  -- The loop over the questions.
  pub copied_questions :
      (String → Bool)
      → List (String × Given I X Y E)
      → Result BuildError (List (String × DecisionQuestion I X Y E))
  unfolding copied_question
  copied_questions valid_name [] = ok []
  copied_questions valid_name ((key, question) ∷ questions) = do
    demand (valid_name key) bad_name
    copy ← copied_question question
    rest ← copied_questions valid_name questions
    ok ((key, copy) ∷ rest)

  -- Whether a question may answer the value; a factory's choices are seen when it runs.
  abbrev pub may_answer : DecisionQuestion I X Y E → String → Bool
  may_answer (fixed request) value = contains value (choice_keys request)
  may_answer (factory f) value = true

  checked_gate :
      String
      → Option String
      → Option (DecisionQuestion I X Y E)
      → Result BuildError (String × String)
  checked_gate key (some value) (some question) = do
    demand (may_answer question value) undeclared_value
    ok (key, value)
  checked_gate key _ _ = err unknown_gate

  -- The loop over the gates.
  pub checked_gates :
      List (String × DecisionQuestion I X Y E)
      → List (String × Option String)
      → Result BuildError (List (String × String))
  unfolding checked_gate
  checked_gates copied [] = ok []
  checked_gates copied ((key, value) ∷ gates) = do
    gate ← checked_gate key value (find key copied)
    rest ← checked_gates copied gates
    ok (gate ∷ rest)

  -- `decide`
  unfoldable pub decide :
      (String → Bool)
      → DecisionInvocationBuilder I X Y E
      → String
      → Option (DecisionClient I E)
      → List (String × Given I X Y E)
      → String
      → List (String × Option String)
      → ℕ
      → Bool
      → Result BuildError (DecisionInvocationBuilder I X Y E)
  unfolding copied_questions checked_gates or_default placed
  decide valid_name builder name client questions at require max_concurrency native_batch = do
    demand (valid_name name) bad_name
    demand (leb 1 max_concurrency) bad_limit
    demand (not (names_stage name builder.stages)) duplicate_stage
    side ← placed at
    demand (leb 1 (length questions) && leb (length questions) max_questions) bad_count
    copied ← copied_questions valid_name questions
    demand (allows_gates side require) gated_after
    gates ← checked_gates copied require
    let bound = or_default client builder.client
    ok (record {
      client = bound;
      stages =
          builder.stages
          ++ record {
            name = name;
            client = bound;
            questions = copied;
            at = side;
            require = gates;
            max_concurrency = max_concurrency;
            native_batch = native_batch;
          }
            ∷ [];
    })
