-- ===== src/Decisions/Matching/Tests.antt =====
-- A matching of two candidates, one question to a packet.
use maivn.Prelude.{
  ℕ, ◌≡◌, refl, ◌⊎◌, String, true, none, [], ◌∷◌, arith, map, if◌then◌else◌, ◌==◌, nat_eq,
}
use maivn.Decisions.Model.{public, DecisionRequest, DecisionResult, Source, DecisionStatus}
use maivn.Decisions.Routing.{is_accepted, primary_attempt}
use maivn.Decisions.Matching.{
  MatchRequest, MatchConfig, answered, deadline, all_usable, is_usable, chosen, questions_from,
  amatch,
}
use maivn.Decisions.Matching.Collection.{selection, or_baseline}
use maivn.Decisions.Matching.Selection.{Sendable, amatch-sends, amatch-selection}

abbrev a_match : MatchRequest
a_match = record {
  query = "refund";
  candidates = record { key = "a"; text = "one" } ∷ record { key = "b"; text = "two" } ∷ [];
  baseline_keys = "a" ∷ [];
  privacy = public;
  max_results = 5;
}

abbrev a_match_config : MatchConfig
a_match_config = record { enabled = true; max_candidates = 5; max_state_characters = 100 }

-- The second candidate is relevant, and no other.
abbrev a_verdict : DecisionRequest ℕ → DecisionResult
a_verdict request = record {
  value = if request.name == "c1" then "yes" else "no";
  source = Source.primary;
  primary = primary_attempt DecisionStatus.accepted none none;
  fallback = none;
}

amatch-sends_example :
    ((amatch {I = ℕ}
        (λ _. "c")
        (λ _. "i")
        (λ _. "s")
        (λ _. 1)
        (λ _. deadline)
        a_match_config
        1
        a_match).1
      ≡ [])
    ⊎ Sendable (λ _. "s") (λ _. 1) a_match_config a_match
amatch-sends_example =
    amatch-sends {I = ℕ} (λ _. "c") (λ _. "i") (λ _. "s") (λ _. 1) (λ _. deadline) a_match_config 1
      a_match

abbrev c_label : ℕ → String
c_label i = if nat_eq i 0 then "c0" else "c1"

amatch-selection_example :
    (amatch c_label
      (λ _. "i")
      (λ _. "s")
      (λ _. 1)
      (λ qs. answered (map a_verdict qs))
      a_match_config
      1
      a_match).0.selected_keys
    ≡ "b" ∷ []
unfolding selection or_baseline all_usable is_usable is_accepted chosen questions_from
    primary_attempt
amatch-selection_example =
    amatch-selection c_label (λ _. "i") (λ _. "s") (λ _. 1) a_verdict a_match_config 0 a_match
      (record { shareable = refl; on = refl; few = omega arith; short = omega arith })
