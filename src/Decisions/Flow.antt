-- ===== src/Decisions/Flow.antt =====
-- Decision stages and the plan that they make (`DecisionStage`, `run_stage`, `_stage_units` and
-- `rejected` of src/maivn/_internal/decisions/flow_execution.py, the records of flow_models.py).
-- `I`, `X` and `Y` are the types of images, of an invocation's input and of its response, and `E`
-- that of the exceptions that clients, factories and the invocation raise. All units of a stage are
-- dispatched here; where one fails, the code cancels those that have not ended, and of several
-- failures the first one is raised.
pub mod Traced
pub mod Execution
pub mod Units
pub mod Stages
pub mod Builder
pub mod Streams
mod Tests
use maivn.Prelude.{
  ℕ, String, Bool, true, Option, none, some, List, [], ◌∷◌, ◌==◌, if◌then◌else◌, contains, Result,
  ok, err, demand, ◌>>=◌, ◌>>◌,
}
use maivn.Decisions.Model.{DecisionRequest, DecisionResult, choice_keys, unique_choices}

-- The results of the stages so far, and of one stage: dicts, in order of insertion.
abbrev pub Answers : Type 0
Answers = List (String × DecisionResult)

abbrev pub Records : Type 0
Records = List (String × Answers)

pub record DecisionContext (X Y : Type 0) : Type 0 where
  pub input : X
  pub output : Option Y
  pub decisions : Records

pub data FlowError (E : Type 0) : Type 0 where
  not_a_request not_a_choice invalid_request mismatch missing no_terminal : FlowError E
  raised : E → FlowError E

-- What a factory comes to.
pub data Produced (I E : Type 0) : Type 0 where
  a_request : DecisionRequest I → Produced I E
  something_else : Produced I E
  factory_raised : E → Produced I E

pub data DecisionQuestion (I X Y E : Type 0) : Type 0 where
  fixed : DecisionRequest I → DecisionQuestion I X Y E
  factory : (DecisionContext X Y → Produced I E) → DecisionQuestion I X Y E

-- What a stage uses of its client.
pub record DecisionClient (I E : Type 0) : Type 0 where
  pub adecide : DecisionRequest I → Result E DecisionResult
  pub abatch : List (DecisionRequest I) → Result E (List DecisionResult)

pub data Placement : Type 0 where
  before after : Placement

pub record DecisionStage (I X Y E : Type 0) : Type 0 where
  pub name : String
  pub client : DecisionClient I E
  pub questions : List (String × DecisionQuestion I X Y E)
  pub at : Placement
  pub require : List (String × String)
  pub max_concurrency : ℕ
  pub native_batch : Bool

-- `mapping.get(name)`
abbrev pub find {ℓ} : {A : Type ℓ} → String → List (String × A) → Option A
find name [] = none
find name ((k, v) ∷ entries) = if k == name then some v else find name entries

abbrev pub allows {ℓ} : {I : Type ℓ} → Option String → DecisionRequest I → Bool
allows none request = true
allows (some value) request = contains value (choice_keys request)

pub validated :
    {I E : Type 0} → Option String → Produced I E → Result (FlowError E) (DecisionRequest I)
validated required (a_request request) = do
  demand (unique_choices request) invalid_request
  demand (allows required request) not_a_choice
  ok request
validated required something_else = err not_a_request
validated required (factory_raised e) = err (raised e)

module _ {I X Y E : Type 0} where
  pub produced : DecisionQuestion I X Y E → DecisionContext X Y → Produced I E
  produced (fixed request) snapshot = a_request request
  produced (factory f) snapshot = f snapshot

  -- The first loop of `run_stage`.
  pub resolve :
      List (String × String)
      → DecisionContext X Y
      → List (String × DecisionQuestion I X Y E)
      → Result (FlowError E) (List (DecisionRequest I))
  unfolding produced validated
  resolve require snapshot [] = ok []
  resolve require snapshot ((name, declaration) ∷ questions) = do
    request ← validated (find name require) (produced declaration snapshot)
    requests ← resolve require snapshot questions
    ok (request ∷ requests)
