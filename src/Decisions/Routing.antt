-- ===== src/Decisions/Routing.antt =====
-- One decision (`adecide` and `_finish` of src/maivn/_internal/decisions/runtime.py). The backend and
-- the baseline are the caller's: each is a function from the request to what its call comes to.
-- The calls made are listed, in order, beside the outcome.
pub mod Baseline
use maivn.Prelude.{
  String, Bool, true, false, not, ◌&&◌, ◌||◌, Option, none, some, List, [], ◌∷◌, contains,
  if◌then◌else◌, leb,
}
use maivn.Decisions.Model.{
  Privacy, public, private, unknown, DecisionRequest, DecisionConfig, DecisionUsage, decision,
  DecisionAnswer, DecisionPrediction, DecisionStatus, accepted, blocked, disabled, timeout,
  unavailable, invalid, low_confidence, individual, DecisionAttempt, primary, fallback,
  DecisionResult, choice_keys,
}

pub record ProviderError : Type 0 where
  pub status : DecisionStatus
  pub usage : Option DecisionUsage
  pub model : Option String
  pub provider : Option String

-- What awaiting the backend under the deadline comes to: a prediction, a `TimeoutError`, a
-- `ProviderError`, an answer that fails validation, or any other exception.
pub data Predicted : Type 0 where
  prediction : DecisionPrediction → Predicted
  timed_out : Predicted
  failed : ProviderError → Predicted
  malformed : Predicted
  crashed : Predicted

-- What the baseline comes to.
pub data Baselined : Type 0 where
  answer : DecisionAnswer → Baselined
  malformed_answer : Baselined
  raised : Baselined

-- The error is the `ValueError` for an invalid baseline answer; a baseline's own exception
-- propagates.
pub data Decided : Type 0 where
  decided : DecisionResult → Decided
  invalid_baseline_answer : Decided
  baseline_raised : Decided

pub data Call : Type 0 where
  primary_call baseline_call : Call

abbrev pub is_public : Privacy → Bool
is_public public = true
is_public private = false
is_public unknown = false

unfoldable pub is_accepted : DecisionStatus → Bool
is_accepted accepted = true
is_accepted _ = false

-- The metadata of a primary attempt: from the prediction, else from the failure.
unfoldable pub primary_attempt :
    DecisionStatus → Option DecisionPrediction → Option ProviderError → DecisionAttempt
primary_attempt status (some p) failure = record {
  status = status;
  model = p.model;
  provider = some p.provider;
  confidence = some p.confidence;
  usage = p.usage;
  usage_scope = individual;
  usage_batch_size = none;
  token_category = some decision;
  usage_owner = true;
}
primary_attempt status none (some e) = record {
  status = status;
  model = e.model;
  provider = e.provider;
  confidence = none;
  usage = e.usage;
  usage_scope = individual;
  usage_batch_size = none;
  token_category = some decision;
  usage_owner = true;
}
primary_attempt status none none = record {
  status = status;
  model = none;
  provider = none;
  confidence = none;
  usage = none;
  usage_scope = individual;
  usage_batch_size = none;
  token_category = some decision;
  usage_owner = true;
}

fallback_attempt : DecisionAnswer → DecisionAttempt
fallback_attempt a = record {
  status = accepted;
  model = a.model;
  provider = some a.provider;
  confidence = none;
  usage = a.usage;
  usage_scope = individual;
  usage_batch_size = none;
  token_category = a.token_category;
  usage_owner = true;
}

-- The prediction's value, where the attempt is accepted and there is one.
settled : DecisionStatus → Option DecisionPrediction → Option String
unfolding is_accepted
settled status none = none
settled status (some p) = if is_accepted status then some p.value else none

module _ {ℓ} {I : Type ℓ} where
  abbrev pub has_images : DecisionRequest I → Bool
  has_images request = elim request.images [ [] ↦ false | _ ∷ _ ↦ true ]

  abbrev pub has_private_data : DecisionRequest I → Bool
  has_private_data request = elim request.private_data [ [] ↦ false | _ ∷ _ ↦ true ]

  -- `request.privacy != 'public' or (request.images and request.private_data)`
  abbrev pub is_blocked : DecisionRequest I → Bool
  is_blocked request =
      not (is_public request.privacy) || (has_images request && has_private_data request)

  -- The status of a prediction that passed validation.
  unfoldable pub judge : DecisionConfig → DecisionRequest I → DecisionPrediction → DecisionStatus
  judge config request p =
      if not (contains p.value (choice_keys request))
      then invalid
      else if leb config.min_confidence p.confidence
      then accepted
      else low_confidence

  -- The primary attempt, and the prediction that it keeps.
  unfoldable pub attempt :
      DecisionConfig
      → DecisionRequest I
      → Predicted
      → DecisionStatus × Option DecisionPrediction × Option ProviderError
  attempt config request (prediction p) = (judge config request p, some p, none)
  attempt config request timed_out = (timeout, none, none)
  attempt config request (failed e) = (e.status, none, some e)
  attempt config request malformed = (invalid, none, none)
  attempt config request crashed = (unavailable, none, none)

  finish_baseline : DecisionRequest I → DecisionAttempt → Baselined → Decided
  unfolding fallback_attempt
  finish_baseline request first (answer a) =
      if contains a.value (choice_keys request)
      then decided (record {
        value = a.value;
        source = fallback;
        primary = first;
        fallback = some (fallback_attempt a);
      })
      else invalid_baseline_answer
  finish_baseline request first malformed_answer = invalid_baseline_answer
  finish_baseline request first raised = baseline_raised

  -- `_finish`
  unfoldable pub finish :
      (DecisionRequest I → Baselined)
      → DecisionRequest I
      → DecisionAttempt
      → Option DecisionPrediction
      → Decided × List Call
  unfolding settled finish_baseline
  finish baseline request first kept = elim (settled first.status kept) [
    | some value ↦
        (decided (record { value = value; source = primary; primary = first; fallback = none }), [])
    | none ↦ (finish_baseline request first (baseline request), baseline_call ∷ [])
  ]

  finish_attempt :
      (DecisionRequest I → Baselined)
      → DecisionRequest I
      → DecisionStatus × Option DecisionPrediction × Option ProviderError
      → Decided × List Call
  finish_attempt baseline request (status, kept, failure) =
      finish baseline request (primary_attempt status kept failure) kept

  -- `adecide`, of a request that passed validation.
  unfoldable pub adecide :
      DecisionConfig
      → (DecisionRequest I → Predicted)
      → (DecisionRequest I → Baselined)
      → DecisionRequest I
      → Decided × List Call
  unfolding finish finish_attempt attempt primary_attempt
  adecide config predict baseline request =
      if is_blocked request
      then finish_attempt baseline request (blocked, none, none)
      else if not config.enabled
      then finish_attempt baseline request (disabled, none, none)
      else (let (outcome, calls) =
            finish_attempt baseline request (attempt config request (predict request)) in
          (outcome, primary_call ∷ calls))
