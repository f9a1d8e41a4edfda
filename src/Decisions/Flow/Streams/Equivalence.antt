-- ===== src/Decisions/Flow/Streams/Equivalence.antt =====
-- A plan that streams comes to the same as one that does not.
use mathlib.Core.Path.{subst}
use maivn.Prelude.{◌≡◌, refl, ◌∙◌, String, Bool, Option, none, some, List, [], ◌∷◌, Result, ok, err}
use maivn.Decisions.Batch.{BatchKey}
use maivn.Decisions.Flow.{Records, DecisionContext, FlowError, DecisionStage}
use maivn.Decisions.Flow.Units.{lifted}
use maivn.Decisions.Flow.Stages.{run_stage, rejected_by}
use maivn.Decisions.Flow.Traced.{Traced, ◌>>=◌, note, lift}
use maivn.Decisions.Flow.Execution.{
  DecisionInvocationResult, Effect, Scope, is_before, context, set_record, stage_answers,
  mapped_input, invoke_scope, run_before, run_after, execute, execute_rest,
}
use maivn.Decisions.Flow.Streams.{
  started, done, forward, stream_before, stream_after, stream_execute, stream_rest,
}
use maivn.Decisions.Flow.Streams.Agreement.{
  quiet, yielded, quiet-append, yielded-append, asked_silent, Agrees, Agrees-bind, Agrees-if,
  silent_same, received, forward-Agrees,
}

abbrev pub forget :
    {E Y : Type 0}
    → Result (FlowError E) (DecisionInvocationResult Y)
    → Result (FlowError E) (Unit {0})
forget (ok outcome) = ok tt
forget (err e) = err e

abbrev pub outcomes_of :
    {E Y : Type 0}
    → Result (FlowError E) (DecisionInvocationResult Y)
    → List (DecisionInvocationResult Y)
outcomes_of (ok outcome) = outcome ∷ []
outcomes_of (err e) = []

module _ {I X Y P E : Type 0} where
  -- The same effects but for those it yields, the outcome yielded that is returned, the same
  -- exceptions.
  abbrev pub Streams :
      Traced (Effect I X Y P) (FlowError E) (Unit {0})
      → Traced (Effect I X Y P) (FlowError E) (DecisionInvocationResult Y)
      → Type 0
  Streams s e = (quiet s.0 ≡ e.0) × (yielded s.0 ≡ outcomes_of e.1) × (s.1 ≡ forget e.1)

  traced-Streams :
      {A : Type 0} (ts te : List (Effect I X Y P)) (r : Result (FlowError E) A)
      (f : A → Traced (Effect I X Y P) (FlowError E) (Unit {0}))
      (g : A → Traced (Effect I X Y P) (FlowError E) (DecisionInvocationResult Y))
      → quiet ts ≡ te
      → yielded ts ≡ []
      → ((a : A) → Streams (f a) (g a))
      → Streams ((ts, r) >>= f) ((te, r) >>= g)
  traced-Streams ts te (ok a) f g q y h =
      let (q', y', r') = h a in
      (
        quiet-append ts (f a).0 ∙ (rw (q, q') refl),
        yielded-append ts (f a).0 ∙ (rw (y, y') refl),
        r',
      )
  traced-Streams ts te (err e) f g q y h = (q, y, refl)

  Streams-bind :
      {A : Type 0} (s e : Traced (Effect I X Y P) (FlowError E) A)
      (f : A → Traced (Effect I X Y P) (FlowError E) (Unit {0}))
      (g : A → Traced (Effect I X Y P) (FlowError E) (DecisionInvocationResult Y))
      → Agrees s e
      → ((a : A) → Streams (f a) (g a))
      → Streams (s >>= f) (e >>= g)
  Streams-bind (ts, rs) (te, re) f g a h =
      subst (λ x. Streams ((ts, rs) >>= f) ((te, x) >>= g)) a.same_result
        (traced-Streams ts te rs f g a.same_effects a.no_outcome h)

  noted :
      {A : Type 0} (w : Effect I X Y P) (s e : Traced (Effect I X Y P) (FlowError E) A)
      → quiet (w ∷ []) ≡ []
      → yielded (w ∷ []) ≡ []
      → Agrees s e
      → Agrees (note w >>= λ _. s) e
  noted w (ts, r) e q y a = record {
    same_effects = quiet-append (w ∷ []) ts ∙ (rw (q, a.same_effects) refl);
    no_outcome = yielded-append (w ∷ []) ts ∙ (rw (y, a.no_outcome) refl);
    same_result = a.same_result;
  }

  module _ (same_key : BatchKey I → BatchKey I → Bool) where
    stage_answers-Agrees :
        (stage : DecisionStage I X Y E) (snapshot : DecisionContext X Y)
        → Agrees {I = I} {X = X} {Y = Y} {P = P}
            (stage_answers same_key stage snapshot)
            (stage_answers same_key stage snapshot)
    unfolding stage_answers
    stage_answers-Agrees stage snapshot =
        silent_same (asked_silent stage.name (run_stage same_key stage snapshot).0)

    before-Agrees :
        (original : X) (stages : List (DecisionStage I X Y E)) (records : Records)
        → Agrees {I = I} {X = X} {Y = Y} {P = P}
            (stream_before same_key original stages records)
            (run_before same_key original stages records)
    unfolding stream_before run_before started done
    before-Agrees original [] records = silent_same (refl, refl)
    before-Agrees original (stage ∷ stages) records =
        let snapshot = context original none records in
        Agrees-if (is_before stage.at) _ _ _ _
          (noted (started stage) _ _ refl refl (
            Agrees-bind (stage_answers same_key stage snapshot)
              (stage_answers same_key stage snapshot) _ _ (stage_answers-Agrees stage snapshot)
              (λ answers. noted (done stage) _ _ refl refl (
                Agrees-bind (lift (rejected_by stage.require answers))
                  (lift (rejected_by stage.require answers)) _ _ (silent_same (refl, refl))
                  (λ refused.
                    Agrees-if refused _ _ _ _ (silent_same (refl, refl))
                      (before-Agrees original stages (set_record stage.name answers records)))))))
          (before-Agrees original stages records)

    after-Agrees :
        (original : X) (response : Y) (stages : List (DecisionStage I X Y E)) (records : Records)
        → Agrees {I = I} {X = X} {Y = Y} {P = P}
            (stream_after same_key original response stages records)
            (run_after same_key original response stages records)
    unfolding stream_after run_after started done
    after-Agrees original response [] records = silent_same (refl, refl)
    after-Agrees original response (stage ∷ stages) records =
        let snapshot = context original (some response) records in
        Agrees-if (is_before stage.at) _ _ _ _ (after-Agrees original response stages records) (
          noted (started stage) _ _ refl refl (
            Agrees-bind (stage_answers same_key stage snapshot)
              (stage_answers same_key stage snapshot) _ _ (stage_answers-Agrees stage snapshot)
              (λ answers.
                noted (done stage) _ _ refl refl
                  (after-Agrees original response stages (set_record stage.name answers records)))))

    rest-Streams :
        (scope : Scope X Y P E) (stages : List (DecisionStage I X Y E))
        (mapper : Option (DecisionContext X Y → Result E X)) (messages : X)
        (o : Records × Option String)
        → ((input : X) → received scope input ≡ lifted (scope.ainvoke input))
        → Streams
            (stream_rest same_key scope stages mapper messages o)
            (execute_rest same_key scope stages mapper messages o)
    unfolding stream_rest execute_rest
    rest-Streams scope stages mapper messages (records, some name) h = (refl, refl, refl)
    rest-Streams scope stages mapper messages (records, none) h =
        Streams-bind (lift (mapped_input mapper messages records))
          (lift (mapped_input mapper messages records)) _ _ (silent_same (refl, refl))
          (λ input.
            Streams-bind (forward scope input) (invoke_scope scope input) _ _
              (forward-Agrees scope input (h input))
              (λ response.
                Streams-bind (stream_after same_key messages response stages records)
                  (run_after same_key messages response stages records) _ _
                  (after-Agrees messages response stages records)
                  (λ annotated. (refl, refl, refl))))

    -- If a scope's stream comes to what its invocation answers, a plan that streams asks and invokes
    -- as `execute` does, yields the outcome that `execute` returns and no other, and raises what it
    -- raises.
    pub stream_execute-Streams :
        (scope : Scope X Y P E) (stages : List (DecisionStage I X Y E))
        (mapper : Option (DecisionContext X Y → Result E X)) (messages : X)
        → ((input : X) → received scope input ≡ lifted (scope.ainvoke input))
        → Streams
            (stream_execute same_key scope stages mapper messages)
            (execute same_key scope stages mapper messages)
    unfolding stream_execute execute
    stream_execute-Streams scope stages mapper messages h =
        Streams-bind (stream_before same_key messages stages [])
          (run_before same_key messages stages []) _ _ (before-Agrees messages stages [])
          (λ o. rest-Streams scope stages mapper messages o h)
