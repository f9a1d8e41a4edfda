-- ===== src/Decisions/Flow/Execution/Once.antt =====
-- A plan invokes its scope once at most.
use maivn.Prelude.{
  ◌≡◌, refl, ap, ◌∙◌, ◌⊎◌, inl, inr, String, Bool, Option, none, some, List, [], ◌∷◌, ◌++◌, map,
  Result, ok, err, if-case,
}
use maivn.Decisions.Model.{DecisionRequest}
use maivn.Decisions.Batch.{BatchKey}
use maivn.Decisions.Flow.{Records, DecisionContext, DecisionStage}
use maivn.Decisions.Flow.Units.{lifted}
use maivn.Decisions.Flow.Stages.{rejected_by}
use maivn.Decisions.Flow.Traced.{Traced, ◌>>=◌, note, lift, pure}
use maivn.Decisions.Flow.Execution.{
  completed, skipped, DecisionInvocationResult, Effect, asked, invoked, stage_started,
  stage_completed, forwarded, plan_completed, Scope, is_before, context, set_record, stage_answers,
  mapped_input, completed_with, invoke_scope, run_before, run_after, execute_rest, execute,
}

-- The result is no completed plan, or no skipped one.
abbrev pub NotCompleted : {E Y : Type 0} → Result E (DecisionInvocationResult Y) → Type 0
NotCompleted (ok outcome) = outcome.status ≡ skipped
NotCompleted (err e) = Unit

abbrev pub NotSkipped : {E Y : Type 0} → Result E (DecisionInvocationResult Y) → Type 0
NotSkipped (ok outcome) = outcome.status ≡ completed
NotSkipped (err e) = Unit

module _ {I X Y P : Type 0} where
  -- The inputs of the invocations.
  abbrev pub invocations : List (Effect I X Y P) → List X
  invocations [] = []
  invocations (invoked input ∷ trace) = input ∷ invocations trace
  invocations (_ ∷ trace) = invocations trace

  invocations-append :
      (xs ys : List (Effect I X Y P)) → invocations (xs ++ ys) ≡ invocations xs ++ invocations ys
  invocations-append [] ys = refl
  invocations-append (asked n r ∷ xs) ys = invocations-append xs ys
  invocations-append (invoked i ∷ xs) ys = ap (λ l. i ∷ l) (invocations-append xs ys)
  invocations-append (stage_started n a c ∷ xs) ys = invocations-append xs ys
  invocations-append (stage_completed n a c ∷ xs) ys = invocations-append xs ys
  invocations-append (forwarded e ∷ xs) ys = invocations-append xs ys
  invocations-append (plan_completed o ∷ xs) ys = invocations-append xs ys

  -- It invokes nothing.
  record Idle {E A : Type 0} (t : Traced (Effect I X Y P) E A) : Type 0 where
    idle : invocations t.0 ≡ []

  abbrev asked_all : String → List (DecisionRequest I) → List (Effect I X Y P)
  asked_all name requests = map (asked name) requests

  Idle-asked :
      {E A : Type 0} (name : String) (requests : List (DecisionRequest I)) (r : Result E A)
      → Idle {E = E} {A = A} (asked_all name requests, r)
  Idle-asked name [] r = record { idle = refl }
  Idle-asked name (q ∷ requests) r = record { idle = (Idle-asked name requests r).idle }

  Idle-bind :
      {E A B : Type 0} (t : Traced (Effect I X Y P) E A) (f : A → Traced (Effect I X Y P) E B)
      → Idle t
      → ((a : A) → Idle (f a))
      → Idle (t >>= f)
  Idle-bind (trace, ok a) f h k = record {
    idle = invocations-append trace (f a).0 ∙ (rw (h.idle, (k a).idle) refl);
  }
  Idle-bind (trace, err e) f h k = record { idle = h.idle }

  abbrev pub Once : {E : Type 0} → Traced (Effect I X Y P) E (DecisionInvocationResult Y) → Type 0
  Once t =
      ((invocations t.0 ≡ []) × NotCompleted t.1)
      ⊎ ((input : X) × (invocations t.0 ≡ input ∷ []) × NotSkipped t.1)

  Once-lift :
      {E A : Type 0} (r : Result E A)
      (f : A → Traced (Effect I X Y P) E (DecisionInvocationResult Y))
      → ((a : A) → Once (f a))
      → Once (lift r >>= f)
  Once-lift (ok a) f h = h a
  Once-lift (err e) f h = inl (refl, tt)

  Idle-Once :
      {E A : Type 0} (t : Traced (Effect I X Y P) E A)
      (f : A → Traced (Effect I X Y P) E (DecisionInvocationResult Y))
      → Idle t
      → ((a : A) → Once (f a))
      → Once (t >>= f)
  Idle-Once (trace, err e) f i h = inl (i.idle, tt)
  Idle-Once (trace, ok a) f i h =
      let e : invocations (trace ++ (f a).0) ≡ invocations (f a).0 =
        invocations-append trace (f a).0 ∙ (rw (i.idle) refl) in
      elim (h a) [ inl (n, c) ↦ inl (e ∙ n, c) | inr (input, n, c) ↦ inr (input, e ∙ n, c) ]

  Once-invoked :
      {E A : Type 0} (input : X) (r : Result E A)
      (f : A → Traced (Effect I X Y P) E (DecisionInvocationResult Y))
      → ((a : A) → Idle (f a) × NotSkipped (f a).1)
      → Once ((invoked input ∷ [], r) >>= f)
  Once-invoked input (ok a) f h = inr (input, ap (λ l. input ∷ l) (h a).0.idle, (h a).1)
  Once-invoked input (err e) f h = inr (input, refl, tt)

  noted_only :
      {E : Type 0} (input : X) (a : Result E Y) (c : Y → Result E Y)
      (f : Y → Traced (Effect I X Y P) E (DecisionInvocationResult Y))
      → ((y : Y) → Idle (f y) × NotSkipped (f y).1)
      → Once ((note (invoked input) >>= λ _. lift a >>= λ y. lift (c y)) >>= f)
  noted_only input (ok y) c f h = Once-invoked input (c y) f h
  noted_only input (err e) c f h = inr (input, refl, tt)

  ends_completed :
      {E : Type 0} (t : Traced (Effect I X Y P) E Records) (response : Y)
      → NotSkipped (t >>= λ records. pure (completed_with response records)).1
  ends_completed (trace, ok records) response = refl
  ends_completed (trace, err e) response = tt

module _ {I X Y P E : Type 0} (same_key : BatchKey I → BatchKey I → Bool) where
  before-Idle :
      (original : X) (stages : List (DecisionStage I X Y E)) (records : Records)
      → Idle {I = I} {X = X} {Y = Y} {P = P} (run_before same_key original stages records)
  unfolding run_before stage_answers
  before-Idle original [] records = record { idle = refl }
  before-Idle original (stage ∷ stages) records =
      if-case Idle (is_before stage.at)
        (λ _.
          Idle-bind (stage_answers same_key stage (context original none records)) _
            (Idle-asked stage.name _ _)
            (λ answers.
              Idle-bind (lift (rejected_by stage.require answers)) _ (record { idle = refl })
                (λ refused.
                  if-case Idle refused (λ _. record { idle = refl })
                    (λ _. before-Idle original stages (set_record stage.name answers records)))))
        (λ _. before-Idle original stages records)

  after-Idle :
      (original : X) (response : Y) (stages : List (DecisionStage I X Y E)) (records : Records)
      → Idle {I = I} {X = X} {Y = Y} {P = P} (run_after same_key original response stages records)
  unfolding run_after stage_answers
  after-Idle original response [] records = record { idle = refl }
  after-Idle original response (stage ∷ stages) records =
      if-case Idle (is_before stage.at) (λ _. after-Idle original response stages records)
        (λ _.
          Idle-bind (stage_answers same_key stage (context original (some response) records)) _
            (Idle-asked stage.name _ _)
            (λ answers.
              after-Idle original response stages (set_record stage.name answers records)))

  rest-Once :
      (scope : Scope X Y P E) (stages : List (DecisionStage I X Y E))
      (mapper : Option (DecisionContext X Y → Result E X)) (messages : X)
      (o : Records × Option String)
      → Once (execute_rest same_key scope stages mapper messages o)
  unfolding execute_rest invoke_scope
  rest-Once scope stages mapper messages (records, some name) = inl (refl, refl)
  rest-Once scope stages mapper messages (records, none) =
      Once-lift (mapped_input mapper messages records) _ (λ input.
        noted_only input (lifted (scope.ainvoke input)) (λ answer. lifted (scope.coerce answer)) _
          (λ response. (
            Idle-bind (run_after same_key messages response stages records) _
                (after-Idle messages response stages records) (λ _. record { idle = refl }),
            ends_completed (run_after same_key messages response stages records) response,
          )))

  -- A plan invokes its scope at most once: once where it is completed, and not at all where a stage
  -- skips it.
  pub execute-Once :
      (scope : Scope X Y P E) (stages : List (DecisionStage I X Y E))
      (mapper : Option (DecisionContext X Y → Result E X)) (messages : X)
      → Once (execute same_key scope stages mapper messages)
  unfolding execute
  execute-Once scope stages mapper messages =
      Idle-Once (run_before same_key messages stages []) _ (before-Idle messages stages [])
        (rest-Once scope stages mapper messages)
