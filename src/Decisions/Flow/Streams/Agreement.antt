-- ===== src/Decisions/Flow/Streams/Agreement.antt =====
-- A plan that streams and one that does not ask, invoke, return and raise alike.
use mathlib.Core.Path.{subst}
use maivn.Prelude.{
  ◌≡◌, refl, ap, ◌∙◌, String, Bool, true, false, List, [], ◌∷◌, ◌++◌, if◌then◌else◌, map, Result,
  ok, err,
}
use maivn.Decisions.Model.{DecisionRequest}
use maivn.Decisions.Flow.{FlowError}
use maivn.Decisions.Flow.Units.{lifted}
use maivn.Decisions.Flow.Traced.{Traced, ◌>>=◌, lift}
use maivn.Decisions.Flow.Execution.{
  DecisionInvocationResult, StreamEvent, Effect, asked, invoked, stage_started, stage_completed,
  forwarded, plan_completed, Scope, any_terminal, invoke_scope,
}
use maivn.Decisions.Flow.Streams.{ended, forward}

module _ {I X Y P : Type 0} where
  -- What a plan does besides what it yields.
  abbrev pub quiet : List (Effect I X Y P) → List (Effect I X Y P)
  quiet [] = []
  quiet (asked name request ∷ trace) = asked name request ∷ quiet trace
  quiet (invoked input ∷ trace) = invoked input ∷ quiet trace
  quiet (_ ∷ trace) = quiet trace

  -- The outcomes that it yields.
  abbrev pub yielded : List (Effect I X Y P) → List (DecisionInvocationResult Y)
  yielded [] = []
  yielded (plan_completed outcome ∷ trace) = outcome ∷ yielded trace
  yielded (_ ∷ trace) = yielded trace

  pub quiet-append : (xs ys : List (Effect I X Y P)) → quiet (xs ++ ys) ≡ quiet xs ++ quiet ys
  quiet-append [] ys = refl
  quiet-append (asked n r ∷ xs) ys = ap (λ l. asked n r ∷ l) (quiet-append xs ys)
  quiet-append (invoked i ∷ xs) ys = ap (λ l. invoked i ∷ l) (quiet-append xs ys)
  quiet-append (stage_started n a c ∷ xs) ys = quiet-append xs ys
  quiet-append (stage_completed n a c ∷ xs) ys = quiet-append xs ys
  quiet-append (forwarded e ∷ xs) ys = quiet-append xs ys
  quiet-append (plan_completed o ∷ xs) ys = quiet-append xs ys

  pub yielded-append :
      (xs ys : List (Effect I X Y P)) → yielded (xs ++ ys) ≡ yielded xs ++ yielded ys
  yielded-append [] ys = refl
  yielded-append (asked n r ∷ xs) ys = yielded-append xs ys
  yielded-append (invoked i ∷ xs) ys = yielded-append xs ys
  yielded-append (stage_started n a c ∷ xs) ys = yielded-append xs ys
  yielded-append (stage_completed n a c ∷ xs) ys = yielded-append xs ys
  yielded-append (forwarded e ∷ xs) ys = yielded-append xs ys
  yielded-append (plan_completed o ∷ xs) ys = ap (λ l. o ∷ l) (yielded-append xs ys)

  abbrev pub asked_all : String → List (DecisionRequest I) → List (Effect I X Y P)
  asked_all name requests = map (asked name) requests

  abbrev forwarded_all : List (StreamEvent P) → List (Effect I X Y P)
  forwarded_all events = map forwarded events

  pub asked_silent :
      (name : String) (requests : List (DecisionRequest I))
      → (quiet (asked_all name requests) ≡ asked_all name requests)
        × (yielded (asked_all name requests) ≡ [])
  asked_silent name [] = (refl, refl)
  asked_silent name (r ∷ requests) =
      let (q, y) = asked_silent name requests in (ap (λ l. asked name r ∷ l) q, y)

  forwarded_silent :
      (events : List (StreamEvent P))
      → (quiet (forwarded_all events) ≡ []) × (yielded (forwarded_all events) ≡ [])
  forwarded_silent [] = (refl, refl)
  forwarded_silent (e ∷ events) = forwarded_silent events

  forwarded_then_none :
      (events : List (StreamEvent P))
      → (quiet (forwarded_all events ++ []) ≡ []) × (yielded (forwarded_all events ++ []) ≡ [])
  forwarded_then_none events =
      let (q, y) = forwarded_silent events in
      (
        quiet-append (forwarded_all events) [] ∙ (rw q refl),
        yielded-append (forwarded_all events) [] ∙ (rw y refl),
      )

  module _ {E : Type 0} where
    -- The same effects but for those it yields, no outcome yet, and the same result.
    pub record Agrees {A : Type 0} (s e : Traced (Effect I X Y P) E A) : Type 0 where
      pub same_effects : quiet s.0 ≡ e.0
      pub no_outcome : yielded s.0 ≡ []
      pub same_result : s.1 ≡ e.1

    bind_same :
        {A B : Type 0} (ts te : List (Effect I X Y P)) (r : Result E A)
        (f g : A → Traced (Effect I X Y P) E B)
        → quiet ts ≡ te
        → yielded ts ≡ []
        → ((a : A) → Agrees (f a) (g a))
        → Agrees ((ts, r) >>= f) ((te, r) >>= g)
    bind_same ts te (ok a) f g q y h = record {
      same_effects = quiet-append ts (f a).0 ∙ (rw (q, (h a).same_effects) refl);
      no_outcome = yielded-append ts (f a).0 ∙ (rw (y, (h a).no_outcome) refl);
      same_result = (h a).same_result;
    }
    bind_same ts te (err e) f g q y h = record {
      same_effects = q;
      no_outcome = y;
      same_result = refl;
    }

    pub Agrees-bind :
        {A B : Type 0} (s e : Traced (Effect I X Y P) E A) (f g : A → Traced (Effect I X Y P) E B)
        → Agrees s e
        → ((a : A) → Agrees (f a) (g a))
        → Agrees (s >>= f) (e >>= g)
    Agrees-bind (ts, rs) (te, re) f g a h =
        subst (λ x. Agrees ((ts, rs) >>= f) ((te, x) >>= g)) a.same_result
          (bind_same ts te rs f g a.same_effects a.no_outcome h)

    pub silent_same :
        {A : Type 0} {ts te : List (Effect I X Y P)} {r : Result E A}
        → (quiet ts ≡ te) × (yielded ts ≡ [])
        → Agrees (ts, r) (te, r)
    silent_same (q, y) = record { same_effects = q; no_outcome = y; same_result = refl }

    pub Agrees-if :
        {A : Type 0} (b : Bool) (s s' e e' : Traced (Effect I X Y P) E A)
        → Agrees s e
        → Agrees s' e'
        → Agrees (if b then s else s') (if b then e else e')
    Agrees-if true s s' e e' h k = h
    Agrees-if false s s' e e' h k = k

-- What a stream comes to, short of the validation.
abbrev pub then_response :
    {E Y : Type 0}
    → Result (FlowError E) (Unit {0})
    → Result (FlowError E) Y
    → Result (FlowError E) Y
then_response (ok _) answer = answer
then_response (err e) answer = err e

abbrev pub received : {X Y P E : Type 0} → Scope X Y P E → X → Result (FlowError E) Y
received scope input =
    let (events, ending) = scope.astream input in
    then_response (ended ending (any_terminal events)) (lifted (scope.response_from events))

module _ {I X Y P E : Type 0} where
  forward_same :
      (events : List (StreamEvent P)) (r : Result (FlowError E) (Unit {0}))
      (a : Result (FlowError E) Y) (c : Y → Result (FlowError E) Y)
      → Agrees {I = I} {X = X} {Y = Y}
          ((map forwarded events, r) >>= λ _. lift a >>= λ y. lift (c y))
          (lift (then_response r a) >>= λ y. lift (c y))
  forward_same events (err e) a c = silent_same (forwarded_silent events)
  forward_same events (ok _) (err e) c = silent_same (forwarded_then_none events)
  forward_same events (ok _) (ok y) c = silent_same (forwarded_then_none events)

  pub forward-Agrees :
      (scope : Scope X Y P E) (input : X)
      → received scope input ≡ lifted (scope.ainvoke input)
      → Agrees {I = I} (forward scope input) (invoke_scope scope input)
  unfolding forward invoke_scope
  forward-Agrees scope input e =
      let (events, ending) = scope.astream input in
      let h =
        subst
          (λ b.
            Agrees {I = I} {X = X} {Y = Y}
              ((map forwarded events, ended ending (any_terminal events)) >>= λ _.
                lift (lifted (scope.response_from events)) >>= λ answer.
                lift (lifted (scope.coerce answer)))
              (lift b >>= λ answer. lift (lifted (scope.coerce answer))))
          e
          (forward_same events (ended ending (any_terminal events))
            (lifted (scope.response_from events)) (λ answer. lifted (scope.coerce answer))) in
      record {
        same_effects = ap (λ l. invoked input ∷ l) h.same_effects;
        no_outcome = h.no_outcome;
        same_result = h.same_result;
      }
