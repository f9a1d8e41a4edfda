-- ===== src/Decisions/Model.antt =====
-- The contracts of src/maivn/_internal/decisions/models.py. A probability is a finite double in
-- [0, 1], and so a whole number of units of 2^-1074: it is kept as that number, and the comparison
-- is that of numbers. Latencies, which no code reads, are left out. `I` is the type of images,
-- which a package outside the repository declares.
use maivn.Prelude.{
  ℕ, String, Bool, true, ◌&&◌, not, Option, none, some, List, [], ◌∷◌, contains, map, is_some,
}

pub record DecisionChoice : Type 0 where
  pub key : String
  pub description : String

pub data Privacy : Type 0 where
  public private unknown : Privacy

pub record DecisionRequest {ℓ} (I : Type ℓ) : Type ℓ where
  pub name : String
  pub state : String
  pub images : List I
  pub instructions : String
  pub choices : List DecisionChoice
  pub privacy : Privacy
  pub private_data : List (String × String)

pub record DecisionConfig : Type 0 where
  pub min_confidence : ℕ
  pub enabled : Bool
  pub max_batch_questions : ℕ

pub record DecisionUsage : Type 0 where
  pub input_tokens : Option ℕ
  pub output_tokens : Option ℕ

pub data TokenCategory : Type 0 where
  llm decision : TokenCategory

pub record DecisionAnswer : Type 0 where
  pub value : String
  pub provider : String
  pub model : Option String
  pub usage : Option DecisionUsage
  pub token_category : Option TokenCategory

-- Its token category is `decision`, which the validator demands.
pub record DecisionPrediction : Type 0 where
  pub value : String
  pub provider : String
  pub model : Option String
  pub usage : Option DecisionUsage
  pub confidence : ℕ

pub data DecisionStatus : Type 0 where
  accepted blocked disabled timeout unavailable invalid low_confidence : DecisionStatus

pub data UsageScope : Type 0 where
  individual batch : UsageScope

pub record DecisionAttempt : Type 0 where
  pub status : DecisionStatus
  pub model : Option String
  pub provider : Option String
  pub confidence : Option ℕ
  pub usage : Option DecisionUsage
  pub usage_scope : UsageScope
  pub usage_batch_size : Option ℕ
  pub token_category : Option TokenCategory
  pub usage_owner : Bool

pub data Source : Type 0 where
  primary fallback : Source

pub record DecisionResult : Type 0 where
  pub value : String
  pub source : Source
  pub primary : DecisionAttempt
  pub fallback : Option DecisionAttempt

abbrev pub choice_keys {ℓ} : {I : Type ℓ} → DecisionRequest I → List String
choice_keys request = map (λ c. c.key) request.choices

abbrev distinct : List String → Bool
distinct [] = true
distinct (x ∷ xs) = not (contains x xs) && distinct xs

-- The validators of the class: `true` where they raise nothing.
unfoldable pub unique_choices {ℓ} : {I : Type ℓ} → DecisionRequest I → Bool
unique_choices request =
    distinct (choice_keys request) && distinct (map (λ p. p.0) request.private_data)

unfoldable pub local_answer_has_no_model_usage : DecisionAnswer → Bool
local_answer_has_no_model_usage answer = elim answer.token_category [
  | none ↦ not (is_some answer.usage)
  | some c ↦ true
]
