-- ===== src/Decisions/Platform/Answers.antt =====
-- What the outcomes of one platform call are.
use mathlib.Core.Bool.{false≢true}
use maivn.Prelude.{
  ◌≡◌, refl, String, true, Option, none, some, List, [], ◌∷◌, arith, contains, length, inl, inr,
  map, Bool-cases, ◌==◌,
}
use maivn.Decisions.Model.{DecisionRequest, DecisionUsage, choice_keys}
use maivn.Decisions.Platform.{
  Answer, Outcome, predicted, failed, BatchOutcome, returned, raised, Response, ResponseStatus,
  decided, refused_all, unavailable_all, find_answer, read_answer, read_answers, answers_match,
  parse_decided, parse_status, parse, subset,
}

abbrev pub usage_of : Outcome → Option DecisionUsage
usage_of (predicted p) = p.usage
usage_of (failed e) = e.usage

-- The first outcome has the receipt, and no other has any.
abbrev pub OwnsReceipt : Option DecisionUsage → List Outcome → Type 0
OwnsReceipt owned [] = Unit
OwnsReceipt owned (o ∷ outcomes) = (usage_of o ≡ owned) × OwnsReceipt none outcomes

-- A prediction answers its request with a declared choice, one outcome to a request.
abbrev pub Declared {ℓ} : {I : Type ℓ} → List (DecisionRequest I) → List Outcome → Type 0
Declared [] [] = Unit
Declared (request ∷ requests) (predicted p ∷ outcomes) =
    (contains p.value (choice_keys request) ≡ true) × Declared requests outcomes
Declared (request ∷ requests) (failed e ∷ outcomes) = Declared requests outcomes
Declared _ _ = ⊥

-- The result of a call is no `KeyError`: it is a `ProviderError` for all, or an outcome for each.
abbrev pub Answers {ℓ} :
    {I : Type ℓ} → Option DecisionUsage → List (DecisionRequest I) → Option BatchOutcome → Type 0
Answers owned requests none = ⊥
Answers owned requests (some (raised e)) = Unit
Answers owned requests (some (returned outcomes)) =
    Declared requests outcomes × OwnsReceipt owned outcomes

found_of_contains :
    (name : String) (answers : List Answer)
    → contains name (map (λ a. a.name) answers) ≡ true
    → (a : Answer) × (find_answer name answers ≡ some a)
unfolding find_answer
found_of_contains name [] h = absurd (false≢true h)
found_of_contains name (a ∷ answers) h = elim (Bool-cases (a.name == name)) [
  | inl same ↦ (a, ground arith)
  | inr other ↦ let (b, e) = found_of_contains name answers (ground arith) in (b, ground arith)
]

module _ {ℓ} {I : Type ℓ} (resolve : String → List (String × String) → Option String) where
  Declared-read_answer :
      (owned : Option DecisionUsage) (model : String) (request : DecisionRequest I) (a : Answer)
      (requests : List (DecisionRequest I)) (outcomes : List Outcome)
      → Declared requests outcomes
      → Declared (request ∷ requests) (read_answer resolve owned model request a ∷ outcomes)
  unfolding read_answer
  Declared-read_answer owned model request a requests outcomes h = ground arith

  usage-read_answer :
      (owned : Option DecisionUsage) (model : String) (request : DecisionRequest I) (a : Answer)
      → usage_of (read_answer resolve owned model request a) ≡ owned
  unfolding read_answer
  usage-read_answer owned model request a = ground arith

  read_answers_total :
      (owned : Option DecisionUsage) (model : String) (answers : List Answer)
      (requests : List (DecisionRequest I)) (names : List String)
      → length requests ≡ length names
      → subset names (map (λ a. a.name) answers) ≡ true
      → (outcomes : List Outcome) × (read_answers resolve owned model answers requests names
          ≡ some outcomes)
        × Declared requests outcomes
        × OwnsReceipt owned outcomes
  unfolding read_answers
  read_answers_total owned model answers [] names l s = ([], refl, tt, tt)
  read_answers_total owned model answers (request ∷ requests) [] l s = absurd (omega arith)
  read_answers_total owned model answers (request ∷ requests) (name ∷ names) l s =
      let (outcomes, e, d, o) =
        read_answers_total none model answers requests names (omega arith) (ground arith) in
      let (a, f) = found_of_contains name answers (ground arith) in
      (
        read_answer resolve owned model request a ∷ outcomes,
        ground arith,
        Declared-read_answer owned model request a requests outcomes d,
        (usage-read_answer owned model request a, o),
      )

  parse_decided-Answers :
      (model : Option String) (response : Response) (requests : List (DecisionRequest I))
      (names : List String)
      → length requests ≡ length names
      → Answers response.usage requests (parse_decided resolve model response requests names)
  unfolding parse_decided answers_match
  parse_decided-Answers none response requests names l = tt
  parse_decided-Answers (some model) response requests names l =
      elim (Bool-cases (answers_match response.answers names)) [
        | inl fit ↦
            let (outcomes, e, d, o) =
              read_answers_total response.usage model response.answers requests names l
                (ground arith) in
            rw (fit, e) (d, o)
        | inr unfit ↦ rw unfit tt
      ]

  parse_status-Answers :
      (status : ResponseStatus) (response : Response) (requests : List (DecisionRequest I))
      (names : List String)
      → length requests ≡ length names
      → Answers response.usage requests (parse_status resolve status response requests names)
  unfolding parse_status
  parse_status-Answers decided response requests names l =
      parse_decided-Answers response.model response requests names l
  parse_status-Answers refused_all response requests names l = tt
  parse_status-Answers unavailable_all response requests names l = tt

  -- Of any response to as many questions as requests: the reading never fails on a missing name;
  -- it gives one error for all, or an outcome for each request, where a prediction is a declared
  -- choice of its own request and the usage receipt stands at the first outcome alone.
  pub parse-Answers :
      (response : Response) (requests : List (DecisionRequest I)) (names : List String)
      → length requests ≡ length names
      → Answers response.usage requests (parse resolve (some response) requests names)
  unfolding parse
  parse-Answers response requests names l =
      parse_status-Answers response.status response requests names l
