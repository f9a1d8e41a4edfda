-- ===== src/Decisions/Matching.antt =====
-- Optional selection among retrieved candidates (src/maivn/_internal/decisions/matching.py). The
-- texts of the code, `json.dumps` of the state, the label f'c{index}' and the instructions, are
-- parameters, and so is `len` of a text; `abatch` is the client with its local baseline.
pub mod Collection
mod Tests
pub mod Selection
use maivn.Prelude.{
  ℕ, suc, String, Bool, true, false, not, ◌&&◌, ◌||◌, List, [], ◌∷◌, ◌++◌, ◌==◌, if◌then◌else◌,
  contains, length, map, ltb, nat_eq, take,
}
use maivn.Decisions.Model.{
  Privacy, public, DecisionChoice, DecisionRequest, DecisionResult, Source, primary, fallback,
}
use maivn.Decisions.Routing.{is_public, is_accepted}
use maivn.Decisions.Batch.{chunks}

pub record MatchCandidate : Type 0 where
  pub key : String
  pub text : String

pub record MatchRequest : Type 0 where
  pub query : String
  pub candidates : List MatchCandidate
  pub baseline_keys : List String
  pub privacy : Privacy
  pub max_results : ℕ

pub record MatchConfig : Type 0 where
  pub enabled : Bool
  pub max_candidates : ℕ
  pub max_state_characters : ℕ

pub data Reason : Type 0 where
  accepted blocked disabled empty oversized rejected timeout unavailable no_match : Reason

-- The source is primary exactly for the reason `accepted`; latencies are left out.
pub record MatchResult : Type 0 where
  pub selected_keys : List String
  pub source : Source
  pub reason : Reason
  pub decisions : List DecisionResult

-- What awaiting one `client.abatch` comes to under the deadline of the whole collection.
pub data Packet : Type 0 where
  answered : List DecisionResult → Packet
  deadline : Packet
  broken : Packet

-- How the collection ends.
pub data Collected : Type 0 where
  returned timed_out raised : Collected

-- `_accepted`
unfoldable pub is_usable : DecisionResult → Bool
unfolding is_accepted
is_usable result =
    elim result.source [ primary ↦ true | fallback ↦ false ]
    && (is_accepted result.primary.status && (result.value == "yes" || result.value == "no"))

pub all_usable : List DecisionResult → Bool
unfolding is_usable
all_usable [] = true
all_usable (result ∷ results) = is_usable result && all_usable results

abbrev pub candidate_keys : MatchRequest → List String
candidate_keys request = map (λ c. c.key) request.candidates

abbrev distinct_keys : List String → Bool
distinct_keys [] = true
distinct_keys (x ∷ xs) = not (contains x xs) && distinct_keys xs

abbrev pub within : List String → List String → Bool
within [] keys = true
within (x ∷ xs) keys = contains x keys && within xs keys

-- `true` where the validator raises nothing.
unfoldable pub valid_keys : MatchRequest → Bool
valid_keys request =
    distinct_keys (candidate_keys request)
    && (distinct_keys request.baseline_keys
        && within request.baseline_keys (candidate_keys request))

abbrev pub match_choices : List DecisionChoice
match_choices =
    record { key = "yes"; description = "Relevant evidence" }
    ∷ record { key = "no"; description = "Not relevant" }
    ∷ record { key = "unknown"; description = "Insufficient evidence or uncertain" }
    ∷ []

-- The keys of the candidates answered "yes", from `zip(request.candidates, decisions)`.
pub chosen : List MatchCandidate → List DecisionResult → List String
chosen [] results = []
chosen (c ∷ candidates) [] = []
chosen (c ∷ candidates) (r ∷ results) =
    if r.value == "yes" then c.key ∷ chosen candidates results else chosen candidates results

abbrev pub keep_baseline : MatchRequest → Reason → List DecisionResult → MatchResult
keep_baseline request reason decisions = record {
  selected_keys = request.baseline_keys;
  source = fallback;
  reason = reason;
  decisions = decisions;
}

-- The end of `amatch`, with what is selected.
conclude_selected : MatchRequest → List DecisionResult → List String → MatchResult
conclude_selected request decisions [] = keep_baseline request no_match decisions
conclude_selected request decisions (key ∷ keys) = record {
  selected_keys = key ∷ keys;
  source = primary;
  reason = accepted;
  decisions = decisions;
}

pub conclude : MatchRequest → ℕ → Collected → List DecisionResult → MatchResult
unfolding conclude_selected all_usable chosen
conclude request count timed_out decisions = keep_baseline request timeout decisions
conclude request count raised decisions = keep_baseline request unavailable decisions
conclude request count returned decisions =
    if not (nat_eq (length decisions) count) || not (all_usable decisions)
    then keep_baseline request rejected decisions
    else conclude_selected request decisions
        (take request.max_results (chosen request.candidates decisions))

module _ {ℓ} {I : Type ℓ} (abatch : List (DecisionRequest I) → Packet) where
  -- `collect`, over the packets of the questions; with the packets sent, the decisions kept and how
  -- it ends.
  pub collect :
      List (List (DecisionRequest I))
      → List DecisionResult
      → List (List (DecisionRequest I)) × List DecisionResult × Collected
  unfolding all_usable
  collect [] decisions = ([], decisions, returned)
  collect (questions ∷ packets) decisions = elim (abatch questions) [
    | deadline ↦ (questions ∷ [], decisions, timed_out)
    | broken ↦ (questions ∷ [], decisions, raised)
    | answered packet ↦
        let (sent, kept, end) = collect packets (decisions ++ packet) in
        if not (nat_eq (length packet) (length questions)) || not (all_usable packet)
        then (questions ∷ [], decisions ++ packet, returned)
        else (questions ∷ sent, kept, end)
  ]

module _ {ℓ} {I : Type ℓ} (label instructions : ℕ → String) where
  -- `_questions`, from an index on.
  pub questions_from : ℕ → List MatchCandidate → String → List (DecisionRequest I)
  questions_from index [] state = []
  questions_from index (c ∷ candidates) state =
      record {
        name = label index;
        state = state;
        images = [];
        instructions = instructions index;
        choices = match_choices;
        privacy = public;
        private_data = [];
      }
      ∷ questions_from (suc index) candidates state

is_empty : List MatchCandidate → Bool
is_empty [] = true
is_empty (c ∷ candidates) = false

module _ {ℓ} {I : Type ℓ} (label instructions : ℕ → String) (match_state : MatchRequest → String)
    (characters : String → ℕ) (abatch : List (DecisionRequest I) → Packet) where
  collect_questions :
      ℕ → MatchRequest → List (DecisionRequest I) → MatchResult × List (List (DecisionRequest I))
  unfolding collect conclude
  collect_questions size request questions =
      let (sent, decisions, end) = collect abatch (chunks (length questions) size questions) [] in
      (conclude request (length questions) end decisions, sent)

  -- `amatch` of a validated request, for a client with this question limit, with the packets sent.
  unfoldable pub amatch :
      MatchConfig → ℕ → MatchRequest → MatchResult × List (List (DecisionRequest I))
  unfolding collect_questions questions_from is_empty
  amatch config size request =
      if not (is_public request.privacy)
      then (keep_baseline request blocked [], [])
      else if not config.enabled
      then (keep_baseline request disabled [], [])
      else if is_empty request.candidates
      then (keep_baseline request empty [], [])
      else if ltb config.max_candidates (length request.candidates)
      then (keep_baseline request oversized [], [])
      else if ltb config.max_state_characters (characters (match_state request))
      then (keep_baseline request oversized [], [])
      else collect_questions size request
          (questions_from label instructions 0 request.candidates (match_state request))
