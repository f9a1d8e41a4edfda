-- ===== src/Decisions/Flow/Stages/Gating.antt =====
-- The gates of a stage: each has its answer, and what a stage asks passed its gates.
use mathlib.Core.Path.{subst}
use maivn.Prelude.{
  ℕ, zero, suc, ◌≡◌, refl, sym, ap, ◌∙◌, inl, inr, String, Bool, true, false, Option, none, some,
  List, [], ◌∷◌, ◌==◌, length, arith, All, ok, demand, >>=-ok, ok_injective, Result-cases,
  Option-cases, Bool-cases,
}
use maivn.Decisions.Model.{DecisionRequest, DecisionResult}
use maivn.Decisions.Batch.{same_lengths, BatchKey, lookup, in_order, gather}
use maivn.Decisions.Flow.{
  Answers, DecisionContext, mismatch, DecisionQuestion, DecisionStage, find, resolve, validated,
  produced,
}
use maivn.Decisions.Flow.Units.{dispatch_units, assemble, found}
use maivn.Decisions.Flow.Stages.{named, refuses, rejected_by, units_of, answer_requests, run_stage}
use maivn.Decisions.Flow.Builder.Plans.{Answerable, ValidStage}

in_order-length {ℓ} :
    {R : Type ℓ} (n index : ℕ) (ordered : List (ℕ × R)) (rs : List R)
    → in_order n index ordered ≡ some rs
    → length rs ≡ n
unfolding in_order
in_order-length zero index ordered rs h = ground arith
in_order-length (suc n) index ordered rs h = elim (Option-cases (lookup index ordered)) [
  | inl e ↦ absurd (ground (arith, e))
  | inr (r, e) ↦ elim (Option-cases (in_order n (suc index) ordered)) [
    | inl e' ↦ absurd (ground (arith, e, e'))
    | inr (rest, e') ↦
        let s : in_order (suc n) index ordered ≡ some (r ∷ rest) = rw (in_order, e, e') refl in
        let l = in_order-length n (suc index) ordered rest e' in ground (arith, s, l)
  ]
]

find-named :
    {A : Type 0} (key : String) (questions : List (String × A)) (answers : List DecisionResult)
    (q : A)
    → find key questions ≡ some q
    → length answers ≡ length questions
    → (a : DecisionResult) × (find key (named questions answers) ≡ some a)
find-named key [] answers q h n = absurd (ground arith)
find-named key ((k, v) ∷ questions) [] q h n = absurd (omega (arith, n))
find-named key ((k, v) ∷ questions) (a ∷ answers) q h n = elim (Bool-cases (k == key)) [
  | inl e ↦ (a, rw e refl)
  | inr e ↦
      let (x, p) = find-named key questions answers q (ground (arith, e)) (omega (arith, n)) in
      (x, rw e p)
]

found-ok {ℓ} :
    {E : Type 0} {A : Type ℓ} (o : Option A) (a : A) → found {E = E} o ≡ ok a → o ≡ some a
found-ok none a h = absurd (ground arith)
found-ok (some b) a h = ap some (ok_injective refl h)

module _ {I X Y E : Type 0} where
  resolve-length :
      (require : List (String × String)) (snapshot : DecisionContext X Y)
      (questions : List (String × DecisionQuestion I X Y E)) (requests : List (DecisionRequest I))
      → resolve require snapshot questions ≡ ok requests
      → length requests ≡ length questions
  unfolding resolve
  resolve-length require snapshot [] requests h = ap length (sym (ok_injective refl h))
  resolve-length require snapshot ((name, declaration) ∷ questions) requests h =
      let (r, e0, h0) =
        >>=-ok (validated (find name require) (produced declaration snapshot)) _ h in
      let (rest, e1, h1) = >>=-ok (resolve require snapshot questions) _ h0 in
      omega
        (arith, resolve-length require snapshot questions rest e1, ap length (ok_injective refl h1))

  answer_requests-named :
      (same_key : BatchKey I → BatchKey I → Bool) (stage : DecisionStage I X Y E)
      (requests : List (DecisionRequest I)) (answers : Answers)
      → answer_requests same_key stage requests ≡ ok answers
      → (results : List DecisionResult) × (answers ≡ named stage.questions results)
        × (length results ≡ length requests)
  unfolding answer_requests assemble
  answer_requests-named same_key stage requests answers h =
      let units = units_of same_key stage requests in
      let (chunks, e0, h0) =
        >>=-ok (dispatch_units stage.client stage.native_batch requests units) _ h in
      let (results, e1, h1) = >>=-ok (assemble (length requests) units chunks) _ h0 in
      let (_, e2, h2) = >>=-ok (demand (same_lengths units chunks) mismatch) _ e1 in
      (
        results,
        ok_injective h1 refl,
        in_order-length (length requests) 0 (gather units chunks) results
            (found-ok (in_order (length requests) 0 (gather units chunks)) results h2),
      )

  rejected_by-decided :
      (questions : List (String × DecisionQuestion I X Y E)) (results : List DecisionResult)
      (require : List (String × String))
      → length results ≡ length questions
      → All (Answerable questions) require
      → (b : Bool) × (rejected_by {E = E} require (named questions results) ≡ ok b)
  unfolding rejected_by
  rejected_by-decided questions results [] n h = (false, refl)
  rejected_by-decided questions results ((key, value) ∷ require) n ((q, f, m), h) =
      let (a, e) = find-named key questions results q f n in
      let (b, r) = rejected_by-decided questions results require n h in
      elim (Bool-cases (refuses a value)) [
        | inl t ↦ (true, rw (rejected_by, e, t) refl)
        | inr t ↦ (b, rw (rejected_by, e, t) r)
      ]

  -- The stage of a plan that was declared: when its answers are in, its gates are decided, and no
  -- `KeyError` occurs.
  pub run_stage-decided :
      (same_key : BatchKey I → BatchKey I → Bool) (valid_name : String → Bool)
      (stage : DecisionStage I X Y E) (snapshot : DecisionContext X Y) (answers : Answers)
      → ValidStage valid_name stage
      → (run_stage same_key stage snapshot).1 ≡ ok answers
      → (b : Bool) × (rejected_by {E = E} stage.require answers ≡ ok b)
  unfolding run_stage
  run_stage-decided same_key valid_name stage snapshot answers v h =
      elim (Result-cases (resolve stage.require snapshot stage.questions)) [
        | inr (e, r) ↦ absurd (ground (arith, r))
        | inl (requests, r) ↦
            let e : (run_stage same_key stage snapshot).1
                ≡ answer_requests same_key stage requests =
              rw (run_stage, r) refl in
            let h' = sym e ∙ h in
            let (results, p, n) = answer_requests-named same_key stage requests answers h' in
            let m = resolve-length stage.require snapshot stage.questions requests r in
            subst (λ a. (b : Bool) × (rejected_by {E = E} stage.require a ≡ ok b)) (sym p)
              (rejected_by-decided stage.questions results stage.require (n ∙ m) v.gates)
      ]
