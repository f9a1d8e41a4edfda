-- ===== src/Decisions/Flow/Stages/Answering.antt =====
-- A stage answers each of its questions by the decision of its own request.
use maivn.Prelude.{ℕ, ◌≡◌, refl, Bool, true, false, List, [], ◌∷◌, map, length, arith, All, ok}
use maivn.Decisions.Model.{DecisionRequest, DecisionResult}
use maivn.Decisions.Batch.{BatchKey, batch_key, in_order}
use maivn.Decisions.Batch.Order.{length-map}
use maivn.Decisions.Flow.{DecisionClient, DecisionStage}
use maivn.Decisions.Flow.Units.{stage_units, dispatch_units, assemble}
use maivn.Decisions.Flow.Units.Selection.{
  InRange, at, every_unit-InRange, dispatch_native, dispatch_singles, assemble-map,
}
use maivn.Decisions.Flow.Units.Plan.{count-stage_units}
use maivn.Decisions.Flow.Stages.{named, units_of, answer_requests}

module _ {I E : Type 0} (same_key : BatchKey I → BatchKey I → Bool)
    (f : DecisionRequest I → DecisionResult) where
  dispatch_stage :
      (client : DecisionClient I E) (native : Bool) (r : DecisionRequest I)
      (requests : List (DecisionRequest I))
      → ((request : DecisionRequest I) → client.adecide request ≡ ok (f request))
      → ((rs : List (DecisionRequest I)) → client.abatch rs ≡ ok (map f rs))
      → All (All (InRange (length requests))) (stage_units same_key native (map batch_key requests))
      → dispatch_units client native requests (stage_units same_key native (map batch_key requests))
        ≡ ok (
            map
              (map (λ i. f (at r requests i)))
              (stage_units same_key native (map batch_key requests)))
  unfolding stage_units
  dispatch_stage client true r requests a b h = dispatch_native r client f requests _ b h
  dispatch_stage client false r requests a b h =
      dispatch_singles r client f requests (map batch_key requests) 0 a h

module _ {I X Y E : Type 0} (same_key : BatchKey I → BatchKey I → Bool)
    (f : DecisionRequest I → DecisionResult) where
  answer_some :
      (stage : DecisionStage I X Y E) (native : Bool) (r : DecisionRequest I)
      (rest : List (DecisionRequest I))
      → ((request : DecisionRequest I) → stage.client.adecide request ≡ ok (f request))
      → ((requests : List (DecisionRequest I)) → stage.client.abatch requests ≡ ok (map f requests))
      → stage.native_batch ≡ native
      → answer_requests same_key stage (r ∷ rest) ≡ ok (named stage.questions (map f (r ∷ rest)))
  unfolding answer_requests units_of
  answer_some stage native r rest a b e =
      let requests = r ∷ rest in
      let keys = map batch_key requests in
      let units = stage_units same_key native keys in
      let counts = λ (i : ℕ). count-stage_units same_key native i keys in
      let n = length-map batch_key requests in
      let below = every_unit-InRange (length requests) units (λ i c. ground (arith, counts i, n)) in
      let assembled =
        assemble-map {E = E} r stage.client f requests units (λ i c. ground (arith, counts i, n)) in
      rw
        (
          answer_requests,
          units_of,
          e,
          dispatch_stage same_key f stage.client native r requests a b below,
          assembled,
        )
        refl

  answer_none :
      (stage : DecisionStage I X Y E) (native : Bool)
      → stage.native_batch ≡ native
      → answer_requests same_key stage [] ≡ ok (named stage.questions [])
  unfolding answer_requests units_of stage_units assemble dispatch_units in_order
  answer_none stage true e = rw (answer_requests, units_of, e) refl
  answer_none stage false e = rw (answer_requests, units_of, e) refl

  -- If a client decides each request as `f` does, and a batch as its requests, a stage answers each
  -- of its questions by `f` of its own request, whether or not it is sent in native batches.
  pub answer_requests-answers :
      (stage : DecisionStage I X Y E) (requests : List (DecisionRequest I))
      → ((request : DecisionRequest I) → stage.client.adecide request ≡ ok (f request))
      → ((rs : List (DecisionRequest I)) → stage.client.abatch rs ≡ ok (map f rs))
      → answer_requests same_key stage requests ≡ ok (named stage.questions (map f requests))
  answer_requests-answers stage [] a b = answer_none stage stage.native_batch refl
  answer_requests-answers stage (r ∷ rest) a b =
      answer_some stage stage.native_batch r rest a b refl
