-- ===== src/Decisions/Matching/Collection.antt =====
-- How the packets' decisions add up, and what is concluded of them.
use mathlib.Core.Path.{subst}
use mathlib.Core.List.{append_assoc, append-nil}
use maivn.Prelude.{
  ℕ, zero, suc, ◌≤◌, ◌≡◌, refl, sym, ap, ◌∙◌, ◌⊎◌, inl, inr, String, true, false, not, ◌&&◌, ◌||◌,
  List, [], ◌∷◌, ◌++◌, ◌==◌, arith, if◌then◌else◌, if-case, length, length-drop, map, take, drop,
  nat_eq, Bool-cases, eq_refl,
}
use maivn.Decisions.Model.{DecisionRequest, DecisionResult}
use maivn.Decisions.Batch.{chunks}
use maivn.Decisions.Matching.{
  MatchCandidate, MatchRequest, MatchResult, answered, Collected, returned, timed_out, raised,
  all_usable, candidate_keys, within, chosen, conclude_selected, conclude, collect,
}

within-cons :
    (x : String) (xs keys : List String) → within xs keys ≡ true → within xs (x ∷ keys) ≡ true
within-cons x [] keys h = refl
within-cons x (y ∷ xs) keys h = ground (arith, within-cons x xs keys)

within-chosen :
    (candidates : List MatchCandidate) (results : List DecisionResult)
    → within (chosen candidates results) (map (λ c. c.key) candidates) ≡ true
unfolding chosen
within-chosen [] results = refl
within-chosen (c ∷ candidates) [] = refl
within-chosen (c ∷ candidates) (r ∷ results) =
    let w =
      within-cons c.key (chosen candidates results) (map (λ c. c.key) candidates)
        (within-chosen candidates results) in
    if-case (λ keys. within keys (c.key ∷ map (λ c. c.key) candidates) ≡ true) (r.value == "yes")
      (λ _. ground (arith, w, eq_refl c.key)) (λ _. w)

within-take :
    (n : ℕ) (xs keys : List String) → within xs keys ≡ true → within (take n xs) keys ≡ true
within-take zero xs keys h = refl
within-take (suc n) [] keys h = refl
within-take (suc n) (x ∷ xs) keys h = ground (arith, within-take n xs keys)

all_usable-append :
    (xs ys : List DecisionResult) → all_usable (xs ++ ys) ≡ (all_usable xs && all_usable ys)
unfolding all_usable
all_usable-append [] ys = refl
all_usable-append (x ∷ xs) ys = ground (arith, all_usable-append xs ys)

module _ {ℓ} {A : Type ℓ} where
  take-drop : (n : ℕ) (xs : List A) → take n xs ++ drop n xs ≡ xs
  take-drop zero xs = refl
  take-drop (suc n) [] = refl
  take-drop (suc n) (x ∷ xs) = ap (λ l. x ∷ l) (take-drop n xs)

  map-append : (f : A → DecisionResult) (xs ys : List A) → map f (xs ++ ys) ≡ map f xs ++ map f ys
  map-append f [] ys = refl
  map-append f (x ∷ xs) ys = ap (λ l. f x ∷ l) (map-append f xs ys)

  length-map : (f : A → DecisionResult) (xs : List A) → length (map f xs) ≡ length xs
  length-map f [] = refl
  length-map f (x ∷ xs) = ap suc (length-map f xs)

  map-chunk :
      (f : A → DecisionResult) (n : ℕ) (xs : List A)
      → map f (take n xs) ++ map f (drop n xs) ≡ map f xs
  map-chunk f n xs = sym (map-append f (take n xs) (drop n xs)) ∙ ap (map f) (take-drop n xs)

-- What a selection comes to: the chosen candidates if every answer is usable and there is one, and
-- the baseline otherwise.
unfoldable pub or_baseline : List String → List String → List String
or_baseline baseline [] = baseline
or_baseline baseline (key ∷ keys) = key ∷ keys

unfoldable pub selection : MatchRequest → List DecisionResult → List String
unfolding or_baseline
selection request results =
    if all_usable results
    then or_baseline request.baseline_keys
        (take request.max_results (chosen request.candidates results))
    else request.baseline_keys

chosen-nil : (candidates : List MatchCandidate) → chosen candidates [] ≡ []
unfolding chosen
chosen-nil [] = refl
chosen-nil (c ∷ candidates) = refl

take-nil : (n : ℕ) → take {A = String} n [] ≡ []
take-nil zero = refl
take-nil (suc n) = refl

pub selection-nil : (request : MatchRequest) → selection request [] ≡ request.baseline_keys
unfolding selection all_usable or_baseline
selection-nil request = rw (chosen-nil request.candidates, take-nil request.max_results) refl

selected-conclude :
    (request : MatchRequest) (count : ℕ) (results : List DecisionResult)
    → length results ≡ count
    → (conclude request count returned results).selected_keys ≡ selection request results
unfolding conclude selection conclude_selected or_baseline
selected-conclude request count results l = ground arith

rejected-conclude :
    (request : MatchRequest) (count : ℕ) (results : List DecisionResult)
    → all_usable results ≡ false
    → (conclude request count returned results).selected_keys ≡ request.baseline_keys
unfolding conclude
rejected-conclude request count results h = ground arith

within-conclude_selected :
    (request : MatchRequest) (results : List DecisionResult) (keys : List String)
    → within request.baseline_keys (candidate_keys request) ≡ true
    → within keys (candidate_keys request) ≡ true
    → within (conclude_selected request results keys).selected_keys (candidate_keys request) ≡ true
unfolding conclude_selected
within-conclude_selected request results [] h w = h
within-conclude_selected request results (k ∷ keys) h w = w

pub within-conclude :
    (request : MatchRequest) (count : ℕ) (end : Collected) (results : List DecisionResult)
    → within request.baseline_keys (candidate_keys request) ≡ true
    → within (conclude request count end results).selected_keys (candidate_keys request) ≡ true
unfolding conclude
within-conclude request count timed_out results h = h
within-conclude request count raised results h = h
within-conclude request count returned results h =
    if-case (λ (r : MatchResult). within r.selected_keys (candidate_keys request) ≡ true)
      (not (nat_eq (length results) count) || not (all_usable results)) (λ _. h)
      (λ _.
        within-conclude_selected request results
          (take request.max_results (chosen request.candidates results)) h
          (within-take request.max_results (chosen request.candidates results)
            (candidate_keys request) (within-chosen request.candidates results)))

-- The decisions kept are all the answers, or some of both abstain.
abbrev pub Kept : List DecisionResult → List DecisionResult → List DecisionResult → Type 0
Kept before answers o =
    (o ≡ before ++ answers) ⊎ ((all_usable o ≡ false) × (all_usable answers ≡ false))

Kept-cons :
    (before a b c o : List DecisionResult) → a ++ b ≡ c → Kept (before ++ a) b o → Kept before c o
Kept-cons before a b c o e (inl p) = inl (p ∙ append_assoc before a b ∙ ap (λ l. before ++ l) e)
Kept-cons before a b c o e (inr (p, q)) =
    inr (p, subst (λ l. all_usable l ≡ false) e (ground (arith, all_usable-append a b)))

Kept-abstains :
    (before a b c : List DecisionResult)
    → a ++ b ≡ c
    → all_usable a ≡ false
    → Kept before c (before ++ a)
Kept-abstains before a b c e h = inr (
  ground (arith, all_usable-append before a),
  subst (λ l. all_usable l ≡ false) e (ground (arith, all_usable-append a b)),
)

module _ {ℓ} {I : Type ℓ} (f : DecisionRequest I → DecisionResult) where
  -- The end of a collection from a client that answers each question by `f`.
  pub record Gathers (questions : List (DecisionRequest I)) (before : List DecisionResult)
      (o : List (List (DecisionRequest I)) × List DecisionResult × Collected) : Type 0 where
    pub ended : o.2 ≡ returned
    pub kept : Kept before (map f questions) o.1

  pub collect-Gathers :
      (fuel size : ℕ) (questions : List (DecisionRequest I)) (before : List DecisionResult)
      → length questions ≤ fuel
      → Gathers questions before
          (collect (λ qs. answered (map f qs)) (chunks fuel (suc size) questions) before)
  unfolding collect chunks
  collect-Gathers fuel size [] before l = record {
    ended = refl;
    kept = inl (sym (append-nil before));
  }
  collect-Gathers zero size (q ∷ questions) before l = absurd (omega arith)
  collect-Gathers (suc fuel) size (q ∷ questions) before l =
      let first = take (suc size) (q ∷ questions) in
      let rest = drop (suc size) (q ∷ questions) in
      let fits : nat_eq (length (map f first)) (length first) ≡ true =
        ground (arith, length-map f first) in
      elim (Bool-cases (all_usable (map f first))) [
        | inl usable ↦
            rw (fits, usable)
              (let k =
                  collect-Gathers fuel size rest (before ++ map f first)
                    (omega (arith, length-drop size questions)) in
                record {
                  ended = k.ended;
                  kept =
                      Kept-cons before (map f first) (map f rest) (map f (q ∷ questions)) _
                        (map-chunk f (suc size) (q ∷ questions)) k.kept;
                })
        | inr abstains ↦
            rw (fits, abstains)
              (record {
                ended = refl;
                kept =
                    Kept-abstains before (map f first) (map f rest) (map f (q ∷ questions))
                      (map-chunk f (suc size) (q ∷ questions)) abstains;
              })
      ]

  pub conclude-Gathers :
      (request : MatchRequest) (questions : List (DecisionRequest I))
      (o : List (List (DecisionRequest I)) × List DecisionResult × Collected)
      → Gathers questions [] o
      → (conclude request (length questions) o.2 o.1).selected_keys
        ≡ selection request (map f questions)
  unfolding selection
  conclude-Gathers request questions o g = elim g.kept [
    | inl p ↦
        rw (g.ended, p)
          (selected-conclude request (length questions) (map f questions) (length-map f questions))
    | inr (p, q) ↦ rw (g.ended, q) (rejected-conclude request (length questions) o.1 p)
  ]
