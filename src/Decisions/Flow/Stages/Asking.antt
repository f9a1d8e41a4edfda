-- ===== src/Decisions/Flow/Stages/Asking.antt =====
-- What a stage asks has passed its gates.
use mathlib.Core.Path.{subst}
use maivn.Prelude.{
  ◌≡◌, refl, ◌⊎◌, inl, inr, String, Bool, true, Option, List, [], ◌∷◌, arith, ok, err, demand,
  >>=-ok, demand-eq-ok, ok_injective, Result-cases,
}
use maivn.Decisions.Model.{DecisionRequest, unique_choices}
use maivn.Decisions.Batch.{BatchKey}
use maivn.Decisions.Flow.{
  DecisionContext, FlowError, invalid_request, not_a_choice, Produced, a_request, something_else,
  factory_raised, DecisionQuestion, DecisionStage, find, resolve, validated, produced, allows,
}
use maivn.Decisions.Flow.Stages.{run_stage}

validated-allows :
    {I E : Type 0} (required : Option String) (p : Produced I E) (r : DecisionRequest I)
    → validated {E = E} required p ≡ ok r
    → (unique_choices r ≡ true) × (allows required r ≡ true)
unfolding validated
validated-allows required something_else r h = absurd (ground arith)
validated-allows required (factory_raised e) r h = absurd (ground arith)
validated-allows {E = E} required (a_request request) r h =
    let (_, e0, h0) =
      >>=-ok (demand {E = FlowError E} (unique_choices request) invalid_request) _ h in
    let (_, e1, h1) =
      >>=-ok (demand {E = FlowError E} (allows required request) not_a_choice) _ h0 in
    subst (λ x. (unique_choices x ≡ true) × (allows required x ≡ true)) (ok_injective refl h1)
      (demand-eq-ok _ invalid_request e0, demand-eq-ok _ not_a_choice e1)

module _ {I X Y E : Type 0} where
  -- One valid request for each question, that offers the value which its gate requires.
  abbrev pub Gated :
      List (String × String)
      → List (String × DecisionQuestion I X Y E)
      → List (DecisionRequest I)
      → Type 0
  Gated require [] [] = Unit
  Gated require [] (r ∷ requests) = ⊥
  Gated require (q ∷ questions) [] = ⊥
  Gated require (q ∷ questions) (r ∷ requests) =
      (unique_choices r ≡ true)
      × (allows (find q.0 require) r ≡ true)
      × Gated require questions requests

  resolve-Gated :
      (require : List (String × String)) (snapshot : DecisionContext X Y)
      (questions : List (String × DecisionQuestion I X Y E)) (requests : List (DecisionRequest I))
      → resolve require snapshot questions ≡ ok requests
      → Gated require questions requests
  unfolding resolve
  resolve-Gated require snapshot [] requests h = subst (Gated require []) (ok_injective refl h) tt
  resolve-Gated require snapshot ((name, declaration) ∷ questions) requests h =
      let (r, e0, h0) =
        >>=-ok (validated (find name require) (produced declaration snapshot)) _ h in
      let (rest, e1, h1) = >>=-ok (resolve require snapshot questions) _ h0 in
      let (u, a) = validated-allows (find name require) (produced declaration snapshot) r e0 in
      subst (Gated require ((name, declaration) ∷ questions)) (ok_injective refl h1)
        (u, a, resolve-Gated require snapshot questions rest e1)

  -- A stage asks nothing at all, and raises, unless every question came to a valid request that
  -- offers the value its gate requires.
  pub run_stage-Gated :
      (same_key : BatchKey I → BatchKey I → Bool) (stage : DecisionStage I X Y E)
      (snapshot : DecisionContext X Y)
      → (((run_stage same_key stage snapshot).0 ≡ [])
          × ((e : FlowError E) × ((run_stage same_key stage snapshot).1 ≡ err e)))
        ⊎ Gated stage.require stage.questions (run_stage same_key stage snapshot).0
  unfolding run_stage
  run_stage-Gated same_key stage snapshot =
      elim (Result-cases (resolve stage.require snapshot stage.questions)) [
        | inr (e, r) ↦ inl (rw (run_stage, r) refl, (e, rw (run_stage, r) refl))
        | inl (requests, r) ↦
            inr
              (rw (run_stage, r) (resolve-Gated stage.require snapshot stage.questions requests r))
      ]
