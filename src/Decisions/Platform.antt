-- ===== src/Decisions/Platform.antt =====
-- The platform backend (src/maivn/_internal/decisions/platform.py): the local gate, the one request
-- that it sends, and the reading of the answer. What the code takes from elsewhere is a parameter:
-- the equality of batch keys, the text of a wire name, the resolution of placeholders and the post.
pub mod Gate
pub mod Answers
use maivn.Prelude.{
  ℕ, suc, String, Bool, true, false, not, ◌&&◌, Option, none, some, List, [], ◌∷◌, ◌==◌,
  if◌then◌else◌, contains, map,
}
use maivn.Decisions.Model.{
  DecisionChoice, DecisionRequest, DecisionUsage, DecisionPrediction, DecisionStatus, blocked,
  timeout, unavailable, invalid, choice_keys,
}
use maivn.Decisions.Routing.{ProviderError, is_blocked}
use maivn.Decisions.Batch.{BatchKey}

pub data AnswerStatus : Type 0 where
  accepted invalid_answer refused : AnswerStatus

pub record Answer : Type 0 where
  pub name : String
  pub status : AnswerStatus
  pub value : Option String
  pub confidence : Option ℕ

pub data ResponseStatus : Type 0 where
  decided refused_all unavailable_all : ResponseStatus

pub record Response : Type 0 where
  pub status : ResponseStatus
  pub model : Option String
  pub answers : List Answer
  pub usage : Option DecisionUsage

pub data Outcome : Type 0 where
  predicted : DecisionPrediction → Outcome
  failed : ProviderError → Outcome

-- A call returns its outcomes or raises a `ProviderError`.
pub data BatchOutcome : Type 0 where
  returned : List Outcome → BatchOutcome
  raised : ProviderError → BatchOutcome

pub record Question : Type 0 where
  pub name : String
  pub instructions : String
  pub choices : List DecisionChoice

pub record Body {ℓ} (I : Type ℓ) : Type ℓ where
  pub state : String
  pub questions : List Question
  pub images : List I
  pub private_data : List (String × String)
  pub session_id : Option String

-- The post comes to a payload (`none` where it fails validation), a timeout, or another failure.
pub data Posted : Type 0 where
  payload : Option Response → Posted
  timed_out : Posted
  post_failed : Posted

abbrev pub platform_provider : Option String
platform_provider = some "maivn"

abbrev pub error : DecisionStatus → Option DecisionUsage → Option String → ProviderError
error status usage model = record {
  status = status;
  usage = usage;
  model = model;
  provider = platform_provider;
}

pub find_answer : String → List Answer → Option Answer
find_answer name [] = none
find_answer name (a ∷ answers) = if a.name == name then some a else find_answer name answers

abbrev unique_names : List String → Bool
unique_names [] = true
unique_names (x ∷ xs) = not (contains x xs) && unique_names xs

abbrev subset : List String → List String → Bool
subset [] ys = true
subset (x ∷ xs) ys = contains x ys && subset xs ys

-- `len(answers) == len(response.answers) and set(answers) == set(wire_names)`
pub answers_match : List Answer → List String → Bool
answers_match answers wire_names =
    let names = map (λ a. a.name) answers in
    unique_names names && (subset names wire_names && subset wire_names names)

module _ {ℓ} {I : Type ℓ} (resolve : String → List (String × String) → Option String) where
  -- `_resolved`: a verdict is resolved only where the request declares private values.
  unfoldable pub resolved : Option String → DecisionRequest I → Option String
  resolved none request = none
  resolved (some value) request = elim request.private_data [
    | [] ↦ some value
    | _ ∷ _ ↦ resolve value request.private_data
  ]

  judge_answer :
      Option DecisionUsage
      → String
      → DecisionRequest I
      → AnswerStatus
      → Option String
      → Option ℕ
      → Outcome
  judge_answer owned model request refused value confidence = failed (error blocked owned none)
  judge_answer owned model request accepted (some value) (some confidence) =
      if contains value (choice_keys request)
      then predicted (record {
        value = value;
        provider = "maivn";
        model = some model;
        usage = owned;
        confidence = confidence;
      })
      else failed (error invalid owned (some model))
  judge_answer owned model request _ value confidence = failed (error invalid owned (some model))

  unfoldable pub read_answer : Option DecisionUsage → String → DecisionRequest I → Answer → Outcome
  unfolding judge_answer resolved
  read_answer owned model request a =
      judge_answer owned model request a.status (resolved a.value request) a.confidence

  -- The loop over requests and wire names; `owned` is the receipt for the first of them. `none` is
  -- a `KeyError`, which the matching of names rules out.
  pub read_answers :
      Option DecisionUsage
      → String
      → List Answer
      → List (DecisionRequest I)
      → List String
      → Option (List Outcome)
  read_answers owned model answers [] names = some []
  read_answers owned model answers (request ∷ requests) [] = none
  read_answers owned model answers (request ∷ requests) (name ∷ names) =
      elim (find_answer name answers) [
        | none ↦ none
        | some a ↦ elim (read_answers none model answers requests names) [
          | none ↦ none
          | some outcomes ↦ some (read_answer owned model request a ∷ outcomes)
        ]
      ]

  parse_decided :
      Option String → Response → List (DecisionRequest I) → List String → Option BatchOutcome
  unfolding read_answers answers_match
  parse_decided none response requests wire_names =
      some (raised (error invalid response.usage none))
  parse_decided (some model) response requests wire_names =
      if answers_match response.answers wire_names
      then elim (read_answers response.usage model response.answers requests wire_names) [
        | none ↦ none
        | some outcomes ↦ some (returned outcomes)
      ]
      else some (raised (error invalid response.usage (some model)))

  parse_status :
      ResponseStatus → Response → List (DecisionRequest I) → List String → Option BatchOutcome
  unfolding parse_decided
  parse_status refused_all response requests wire_names = some (raised (error blocked none none))
  parse_status unavailable_all response requests wire_names =
      some (raised (error unavailable response.usage response.model))
  parse_status decided response requests wire_names =
      parse_decided response.model response requests wire_names

  -- `_parse`; `none` is the `KeyError`.
  unfoldable pub parse :
      Option Response → List (DecisionRequest I) → List String → Option BatchOutcome
  unfolding parse_status
  parse none requests wire_names = some (raised (error invalid none none))
  parse (some response) requests wire_names =
      parse_status response.status response requests wire_names

abbrev pub key_of {ℓ} : {I : Type ℓ} → DecisionRequest I → BatchKey I
key_of request = (request.state, request.private_data, request.images)

module _ {ℓ} {I : Type ℓ} (same_key : BatchKey I → BatchKey I → Bool) where
  -- Every request is public and asks of one and the same content.
  pub sendable : BatchKey I → List (DecisionRequest I) → Bool
  sendable key [] = true
  sendable key (request ∷ requests) =
      not (is_blocked request) && (same_key (key_of request) key && sendable key requests)

-- `all(self._authorize(request) is True ...)`; `none` is a callback that raised.
pub all_allowed {ℓ} :
    {I : Type ℓ} → (DecisionRequest I → Option Bool) → List (DecisionRequest I) → Bool
all_allowed authorize [] = true
all_allowed authorize (request ∷ requests) =
    elim (authorize request) [ none ↦ false | some b ↦ b ] && all_allowed authorize requests

pub wire_names_from {ℓ} : {A : Type ℓ} → (ℕ → String) → ℕ → List A → List String
wire_names_from wire_name index [] = []
wire_names_from wire_name index (x ∷ xs) =
    wire_name index ∷ wire_names_from wire_name (suc index) xs

pub questions_of {ℓ} : {I : Type ℓ} → List String → List (DecisionRequest I) → List Question
questions_of [] requests = []
questions_of (name ∷ names) [] = []
questions_of (name ∷ names) (request ∷ requests) =
    record { name = name; instructions = request.instructions; choices = request.choices }
    ∷ questions_of names requests

-- The body of the one request.
pub request_body {ℓ} :
    {I : Type ℓ}
    → (ℕ → String)
    → Option String
    → DecisionRequest I
    → List (DecisionRequest I)
    → Body I
unfolding wire_names_from questions_of
request_body wire_name session_id first rest = record {
  state = first.state;
  questions = questions_of (wire_names_from wire_name 0 (first ∷ rest)) (first ∷ rest);
  images = first.images;
  private_data = first.private_data;
  session_id = session_id;
}

module _ {ℓ} {I : Type ℓ} (same_key : BatchKey I → BatchKey I → Bool) (wire_name : ℕ → String)
    (resolve : String → List (String × String) → Option String)
    (authorize : DecisionRequest I → Option Bool) (session_id : Option String)
    (post : Body I → Posted) where
  read_posted : List (DecisionRequest I) → List String → Posted → Option BatchOutcome
  unfolding parse
  read_posted requests names (payload p) = parse resolve p requests names
  read_posted requests names timed_out = some (raised (error timeout none none))
  read_posted requests names post_failed = some (raised (error unavailable none none))

  -- `predict_batch` of validated requests, with the bodies that it posts.
  unfoldable pub predict_batch : List (DecisionRequest I) → Option BatchOutcome × List (Body I)
  unfolding read_posted sendable all_allowed wire_names_from request_body
  predict_batch [] = (some (returned []), [])
  predict_batch (first ∷ rest) =
      let requests = first ∷ rest in
      if not (sendable same_key (key_of first) requests)
      then (some (raised (error blocked none none)), [])
      else if not (all_allowed authorize requests)
      then (some (raised (error blocked none none)), [])
      else (
        read_posted requests (wire_names_from wire_name 0 requests)
            (post (request_body wire_name session_id first rest)),
        request_body wire_name session_id first rest ∷ [],
      )
