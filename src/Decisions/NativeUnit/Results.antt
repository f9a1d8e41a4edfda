-- ===== src/Decisions/NativeUnit/Results.antt =====
-- What the results of a unit are, whatever the platform answers.
use maivn.Prelude.{
  All, is_some, ℕ, suc, ◌≡◌, refl, Bool, true, false, none, some, List, [], ◌∷◌, arith, length,
  contains, map, ap, if-case, nat_eq,
}
use maivn.Decisions.Model.{
  DecisionRequest, DecisionConfig, DecisionAnswer, DecisionResult, choice_keys,
}
use mathlib.Core.Bool.{false≢true}
use maivn.Decisions.Routing.{
  Baselined, Decided, decided, invalid_baseline_answer, baseline_raised, finish, judge,
}
use maivn.Decisions.Routing.Baseline.{is_decided, answering, finish-decides}
use maivn.Decisions.NativeUnit.{
  UnitOutcome, failed, UnitCall, returned, timed_out, refused, crashed, bare, outcomes_of,
  unit_attempt, finish_one, finish_all, native_unit,
}
use maivn.Decisions.Model.{invalid, DecisionStatus}

length-map_unit {ℓ} :
    {I : Type ℓ} (o : UnitOutcome) (requests : List (DecisionRequest I))
    → length (map (λ _. o) requests) ≡ length requests
length-map_unit o [] = refl
length-map_unit o (r ∷ requests) = ap suc (length-map_unit o requests)

module _ {ℓ} {I : Type ℓ} (config : DecisionConfig) (baseline : DecisionRequest I → Baselined) where
  -- One result to a request: a declared choice, with the receipt owned by the first alone.
  abbrev pub Answered : Bool → List (DecisionRequest I) → List DecisionResult → Type 0
  Answered owner [] [] = Unit
  Answered owner (request ∷ requests) (result ∷ results) =
      (contains result.value (choice_keys request) ≡ true)
      × (result.primary.usage_owner ≡ owner)
      × Answered false requests results
  Answered owner _ _ = ⊥

  finish_one-Answered :
      (size : ℕ) (owner : Bool) (request : DecisionRequest I) (outcome : UnitOutcome)
      (result : DecisionResult)
      → finish_one config baseline size owner request outcome ≡ decided result
      → (contains result.value (choice_keys request) ≡ true) × (result.primary.usage_owner ≡ owner)
  unfolding finish_one finish judge
  finish_one-Answered size owner request outcome result h = ground arith

  length-outcomes_of :
      (call : UnitCall) (first : DecisionRequest I) (rest : List (DecisionRequest I))
      → length (outcomes_of call (first ∷ rest)) ≡ suc (length rest)
  unfolding outcomes_of
  length-outcomes_of (returned outcomes) first rest =
      if-case (λ (o : List UnitOutcome). length o ≡ suc (length rest))
        (nat_eq (length outcomes) (suc (length rest))) (λ fit. ground arith)
        (λ _. ap suc (length-map_unit (failed (bare invalid)) rest))
  length-outcomes_of timed_out first rest =
      ap suc (length-map_unit (failed (bare DecisionStatus.timeout)) rest)
  length-outcomes_of (refused e) first rest = ap suc (
      length-map_unit
        (failed
          (record { status = e.status; usage = none; model = e.model; provider = e.provider }))
        rest)
  length-outcomes_of crashed first rest =
      ap suc (length-map_unit (failed (bare DecisionStatus.unavailable)) rest)

  finish_all-Answered :
      (size : ℕ) (owner : Bool) (requests : List (DecisionRequest I)) (outcomes : List UnitOutcome)
      (results : List DecisionResult)
      → length outcomes ≡ length requests
      → finish_all config baseline size owner requests outcomes ≡ some results
      → Answered owner requests results
  unfolding finish_all
  finish_all-Answered size owner [] [] [] l h = tt
  finish_all-Answered size owner [] [] (r ∷ results) l h = absurd (ground arith)
  finish_all-Answered size owner [] (o ∷ outcomes) results l h = absurd (omega arith)
  finish_all-Answered size owner (request ∷ requests) [] results l h = absurd (omega arith)
  finish_all-Answered size owner (request ∷ requests) (o ∷ outcomes) [] l h = absurd (ground arith)
  finish_all-Answered size owner (request ∷ requests) (o ∷ outcomes) (r ∷ results) l h =
      let e : finish_one config baseline size owner request o ≡ decided r = ground arith in
      let (value, owned) = finish_one-Answered size owner request o r e in
      (
        value,
        owned,
        finish_all-Answered size false requests outcomes results (omega arith) (ground arith),
      )

  -- Whatever the platform answers to a unit: if no baseline fails, there is one result for each
  -- request, in order, each a declared choice of its own request, and the first alone owns the
  -- usage receipt.
  pub native_unit-Answered :
      (call : UnitCall) (first : DecisionRequest I) (rest : List (DecisionRequest I))
      (results : List DecisionResult)
      → native_unit config baseline call (first ∷ rest) ≡ some results
      → Answered true (first ∷ rest) results
  unfolding native_unit
  native_unit-Answered call first rest results h =
      finish_all-Answered (suc (length rest)) true (first ∷ rest) (outcomes_of call (first ∷ rest))
        results (length-outcomes_of call first rest) h

decided_of_is_decided : (d : Decided) → is_decided d ≡ true → (r : DecisionResult) × (d ≡ decided r)
decided_of_is_decided (decided r) h = (r, refl)
decided_of_is_decided invalid_baseline_answer h = absurd (false≢true h)
decided_of_is_decided baseline_raised h = absurd (false≢true h)

module _ {ℓ} {I : Type ℓ} (config : DecisionConfig)
    (answerer : DecisionRequest I → DecisionAnswer) where
  -- The answer of the baseline is a declared choice.
  abbrev pub AnswersWell : DecisionRequest I → Type 0
  AnswersWell request = contains (answerer request).value (choice_keys request) ≡ true

  finish_one-decides :
      (size : ℕ) (owner : Bool) (request : DecisionRequest I) (outcome : UnitOutcome)
      → AnswersWell request
      → is_decided (finish_one config (answering config answerer) size owner request outcome) ≡ true
  unfolding finish_one
  finish_one-decides size owner request outcome h =
      let o = unit_attempt config (answering config answerer) size owner request outcome in
      finish-decides config answerer request o.0 o.1 h

  finish_all-returns :
      (size : ℕ) (owner : Bool) (requests : List (DecisionRequest I)) (outcomes : List UnitOutcome)
      → length outcomes ≡ length requests
      → All AnswersWell requests
      → is_some (finish_all config (answering config answerer) size owner requests outcomes) ≡ true
  unfolding finish_all
  finish_all-returns size owner [] [] l h = refl
  finish_all-returns size owner [] (o ∷ outcomes) l h = absurd (omega arith)
  finish_all-returns size owner (request ∷ requests) [] l h = absurd (omega arith)
  finish_all-returns size owner (request ∷ requests) (o ∷ outcomes) l h =
      let (r, e) =
        decided_of_is_decided (finish_one config (answering config answerer) size owner request o)
          (finish_one-decides size owner request o h.0) in
      let k = finish_all-returns size false requests outcomes (omega arith) h.1 in
      ground (arith, e, k)

  -- Where the baseline answers each request with a declared choice, a unit always returns its
  -- results, whatever the platform answers.
  pub native_unit-returns :
      (call : UnitCall) (first : DecisionRequest I) (rest : List (DecisionRequest I))
      → All AnswersWell (first ∷ rest)
      → is_some (native_unit config (answering config answerer) call (first ∷ rest)) ≡ true
  unfolding native_unit
  native_unit-returns call first rest h =
      finish_all-returns (suc (length rest)) true (first ∷ rest) (outcomes_of call (first ∷ rest))
        (length-outcomes_of config (answering config answerer) call first rest) h
