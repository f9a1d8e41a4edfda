-- ===== src/Decisions/Routing/Baseline.antt =====
-- What a caller may rely on for one decision.
use maivn.Prelude.{
  ◌≡◌, Option, none, List, if-case, Bool, true, false, not, [], ◌∷◌, arith, contains, leb, ◌&&◌,
  ◌||◌, if◌then◌else◌,
}
use maivn.Decisions.Model.{
  DecisionRequest, DecisionConfig, DecisionResult, DecisionAnswer, DecisionAttempt,
  DecisionPrediction, choice_keys, blocked, disabled,
}
use maivn.Decisions.Routing.{
  Predicted, Baselined, Decided, decided, invalid_baseline_answer, baseline_raised, answer, finish,
  finish_baseline, finish_attempt, Call, attempt, primary_attempt, primary_call, baseline_call,
  judge, is_blocked, adecide, prediction, timed_out, failed, malformed, crashed,
}

module _ {ℓ} {I : Type ℓ} (config : DecisionConfig) (predict : DecisionRequest I → Predicted)
    (baseline : DecisionRequest I → Baselined) where
  -- An answer that is declared and confident enough.
  pub spares_baseline : DecisionRequest I → Predicted → Bool
  spares_baseline request (prediction p) =
      contains p.value (choice_keys request) && leb config.min_confidence p.confidence
  spares_baseline request timed_out = false
  spares_baseline request (failed e) = false
  spares_baseline request malformed = false
  spares_baseline request crashed = false

  -- A decided value is always one of the declared choices, whatever the backend and the baseline
  -- answer.
  pub adecide-value-declared :
      (request : DecisionRequest I) (result : DecisionResult)
      → (adecide config predict baseline request).0 ≡ decided result
      → contains result.value (choice_keys request) ≡ true
  unfolding adecide judge
  adecide-value-declared request result h = ground arith

  -- The baseline is called at most once and after the backend; the backend is called exactly for
  -- an enabled public request whose content may leave the process, and the baseline is spared
  -- exactly by a prediction that is accepted.
  pub adecide-calls :
      (request : DecisionRequest I)
      → (adecide config predict baseline request).1 ≡ (
          if is_blocked request || not config.enabled
          then baseline_call ∷ []
          else if spares_baseline request (predict request)
          then primary_call ∷ []
          else primary_call ∷ baseline_call ∷ [])
  unfolding adecide judge spares_baseline
  adecide-calls request = ground arith

abbrev pub is_decided : Decided → Bool
is_decided (decided r) = true
is_decided invalid_baseline_answer = false
is_decided baseline_raised = false

module _ {ℓ} {I : Type ℓ} (config : DecisionConfig)
    (answerer : DecisionRequest I → DecisionAnswer) where
  -- A baseline that answers.
  abbrev pub answering : DecisionRequest I → Baselined
  answering request = answer (answerer request)

  pub finish-decides :
      (request : DecisionRequest I) (first : DecisionAttempt) (kept : Option DecisionPrediction)
      → contains (answerer request).value (choice_keys request) ≡ true
      → is_decided (finish answering request first kept).0 ≡ true
  unfolding finish finish_baseline
  finish-decides request first kept h = ground arith

  -- Where the baseline answers with a declared choice, a decision is always reached, whatever the
  -- backend does.
  pub adecide-decides :
      (predict : DecisionRequest I → Predicted) (request : DecisionRequest I)
      → contains (answerer request).value (choice_keys request) ≡ true
      → is_decided (adecide config predict answering request).0 ≡ true
  unfolding adecide finish_attempt
  adecide-decides predict request h =
      let P = λ (o : Decided × List Call). is_decided o.0 ≡ true in
      let o = attempt config request (predict request) in
      if-case P (is_blocked request)
        (λ _. finish-decides request (primary_attempt blocked none none) none h)
        (λ _.
          if-case P (not config.enabled)
            (λ _. finish-decides request (primary_attempt disabled none none) none h)
            (λ _. finish-decides request (primary_attempt o.0 o.1 o.2) o.1 h))
