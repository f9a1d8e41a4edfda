-- ===== src/Decisions/Matching/Selection.antt =====
-- What a matching sends and selects.
use mathlib.Core.Bool.{false≢true}
use maivn.Prelude.{
  ℕ, suc, ◌≤◌, ◌≡◌, refl, sym, ◌⊎◌, inl, inr, String, true, false, not, List, [], ◌∷◌, arith,
  if-case, length, map, Bool-cases, ltb,
}
use maivn.Decisions.Model.{DecisionRequest, DecisionResult}
use maivn.Decisions.Routing.{is_public}
use maivn.Decisions.Batch.{chunks}
use maivn.Decisions.Matching.{
  MatchCandidate, MatchRequest, MatchConfig, MatchResult, Reason, blocked, disabled, empty,
  oversized, Packet, answered, candidate_keys, within, valid_keys, keep_baseline, collect,
  collect_questions, questions_from, is_empty, amatch,
}
use maivn.Decisions.Matching.Collection.{
  selection, selection-nil, within-conclude, collect-Gathers, conclude-Gathers,
}

module _ (match_state : MatchRequest → String) (characters : String → ℕ) where
  -- What the gates ask of a request before anything is sent.
  pub record Sendable (config : MatchConfig) (request : MatchRequest) : Type 0 where
    pub shareable : is_public request.privacy ≡ true
    pub on : config.enabled ≡ true
    pub few : length request.candidates ≤ config.max_candidates
    pub short : characters (match_state request) ≤ config.max_state_characters

module _ {ℓ} {I : Type ℓ} (label instructions : ℕ → String) (match_state : MatchRequest → String)
    (characters : String → ℕ) where
  -- To prove a property of a matching, prove it of the baseline with nothing sent, and of a
  -- collection behind the gates.
  amatch-cases {κ} :
      (P : MatchResult × List (List (DecisionRequest I)) → Type κ)
      (abatch : List (DecisionRequest I) → Packet) (config : MatchConfig) (size : ℕ)
      (request : MatchRequest)
      → ((reason : Reason) → P (keep_baseline request reason [], []))
      → (Sendable match_state characters config request
          → P (
              collect_questions label instructions match_state characters abatch size request
                (questions_from label instructions 0 request.candidates (match_state request))))
      → P (amatch label instructions match_state characters abatch config size request)
  unfolding amatch
  amatch-cases P abatch config size request b k =
      if-case P (not (is_public request.privacy)) (λ _. b blocked)
        (λ s.
          if-case P (not config.enabled) (λ _. b disabled)
            (λ e.
              if-case P (is_empty request.candidates) (λ _. b empty)
                (λ _.
                  if-case P (ltb config.max_candidates (length request.candidates))
                    (λ _. b oversized)
                    (λ n.
                      if-case P (ltb config.max_state_characters (characters (match_state request)))
                        (λ _. b oversized)
                        (λ c. k (record {
                          shareable = ground arith;
                          on = ground arith;
                          few = ground arith;
                          short = ground arith;
                        }))))))

  -- Nothing is sent of a request that does not pass the gates: it is public, the matching is
  -- enabled, and the candidates and the state are within their limits.
  pub amatch-sends :
      (abatch : List (DecisionRequest I) → Packet) (config : MatchConfig) (size : ℕ)
      (request : MatchRequest)
      → ((amatch label instructions match_state characters abatch config size request).1 ≡ [])
        ⊎ Sendable match_state characters config request
  amatch-sends abatch config size request =
      amatch-cases (λ o. (o.1 ≡ []) ⊎ Sendable match_state characters config request) abatch config
        size request (λ _. inl refl) (λ s. inr s)

  -- Whatever the client answers, the selection of a valid request is among its candidates.
  pub amatch-selected_within :
      (abatch : List (DecisionRequest I) → Packet) (config : MatchConfig) (size : ℕ)
      (request : MatchRequest)
      → valid_keys request ≡ true
      → within
          (amatch label instructions match_state characters abatch config size
            request).0.selected_keys
          (candidate_keys request)
        ≡ true
  unfolding collect_questions valid_keys
  amatch-selected_within abatch config size request v =
      let b : within request.baseline_keys (candidate_keys request) ≡ true = ground arith in
      let questions =
        questions_from label instructions 0 request.candidates (match_state request) in
      let o = collect abatch (chunks (length questions) size questions) [] in
      amatch-cases (λ o. within o.0.selected_keys (candidate_keys request) ≡ true) abatch config
        size request (λ _. b) (λ _. within-conclude request (length questions) o.2 o.1 b)

  questions_from-empty :
      (f : DecisionRequest I → DecisionResult) (index : ℕ) (candidates : List MatchCandidate)
      (state : String)
      → is_empty candidates ≡ true
      → map f (questions_from label instructions index candidates state) ≡ []
  unfolding questions_from is_empty
  questions_from-empty f index [] state h = refl
  questions_from-empty f index (c ∷ candidates) state h = absurd (false≢true h)

  -- However the questions are packed: of a request that passes the gates, with a client that
  -- answers each question by `f`, the selection is the candidates that `f` answers with "yes", up
  -- to the maximum, if every answer is usable and there is one; and the baseline otherwise.
  pub amatch-selection :
      (f : DecisionRequest I → DecisionResult) (config : MatchConfig) (size : ℕ)
      (request : MatchRequest)
      → Sendable match_state characters config request
      → (amatch label instructions match_state characters
          (λ qs. answered (map f qs))
          config
          (suc size)
          request).0.selected_keys
        ≡ selection request
            (map f (questions_from label instructions 0 request.candidates (match_state request)))
  unfolding amatch collect_questions
  amatch-selection f config size request h =
      let questions : List (DecisionRequest I) =
        questions_from label instructions 0 request.candidates (match_state request) in
      let few : ltb config.max_candidates (length request.candidates) ≡ false = ground arith in
      let short : ltb config.max_state_characters (characters (match_state request)) ≡ false =
        ground arith in
      elim (Bool-cases (is_empty request.candidates)) [
        | inl e ↦
            rw
              (
                h.shareable,
                h.on,
                e,
                questions_from-empty f 0 request.candidates (match_state request) e,
              )
              (sym (selection-nil request))
        | inr e ↦
            rw (h.shareable, h.on, e, few, short)
              (conclude-Gathers f request questions
                (collect (λ qs. answered (map f qs))
                  (chunks (length questions) (suc size) questions) [])
                (collect-Gathers f (length questions) size questions [] (omega arith)))
      ]
