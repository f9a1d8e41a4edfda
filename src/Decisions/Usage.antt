-- ===== src/Decisions/Usage.antt =====
-- Token counts by category (src/maivn/_internal/token_usage.py and decisions/usage.py).
pub mod Totals
use maivn.Prelude.{
  ℕ, ◌+◌, Bool, true, false, not, ◌||◌, Option, none, some, List, [], ◌∷◌, ◌++◌, if◌then◌else◌,
  nat_eq,
}
use maivn.Decisions.Model.{
  DecisionUsage, TokenCategory, llm, decision, DecisionStatus, blocked, disabled, DecisionAttempt,
  DecisionResult,
}

pub record TokenCategoryUsage : Type 0 where
  pub input_tokens : Option ℕ
  pub output_tokens : Option ℕ
  pub known_input_tokens : ℕ
  pub known_output_tokens : ℕ
  pub unknown_input_calls : ℕ
  pub unknown_output_calls : ℕ

pub record TokenUsageByCategory : Type 0 where
  pub llm : TokenCategoryUsage
  pub decision : TokenCategoryUsage

-- A count is `none` where the receipt has no whole, nonnegative number.
pub record UsageRecord : Type 0 where
  pub category : TokenCategory
  pub input : Option ℕ
  pub output : Option ℕ

-- The four counters of a category's bucket.
pub record Bucket : Type 0 where
  pub known_input : ℕ
  pub known_output : ℕ
  pub unknown_input : ℕ
  pub unknown_output : ℕ

abbrev pub known : Option ℕ → ℕ
known none = 0
known (some n) = n

abbrev pub missing : Option ℕ → ℕ
missing none = 1
missing (some n) = 0

pub add_record : Bucket → UsageRecord → Bucket
add_record b r = record {
  known_input = b.known_input + known r.input;
  known_output = b.known_output + known r.output;
  unknown_input = b.unknown_input + missing r.input;
  unknown_output = b.unknown_output + missing r.output;
}

-- The loop over the records, with the bucket of each category.
pub fill : Bucket → Bucket → List UsageRecord → Bucket × Bucket
unfolding add_record
fill l d [] = (l, d)
fill l d (r ∷ records) =
    fill (elim r.category [ TokenCategory.llm ↦ add_record l r | TokenCategory.decision ↦ l ])
      (elim r.category [ TokenCategory.llm ↦ d | TokenCategory.decision ↦ add_record d r ]) records

pub close_bucket : Bucket → TokenCategoryUsage
close_bucket b = record {
  input_tokens = if nat_eq b.unknown_input 0 then some b.known_input else none;
  output_tokens = if nat_eq b.unknown_output 0 then some b.known_output else none;
  known_input_tokens = b.known_input;
  known_output_tokens = b.known_output;
  unknown_input_calls = b.unknown_input;
  unknown_output_calls = b.unknown_output;
}

abbrev pub empty_bucket : Bucket
empty_bucket = record { known_input = 0; known_output = 0; unknown_input = 0; unknown_output = 0 }

unfoldable pub categorized_token_usage : List UsageRecord → TokenUsageByCategory
unfolding fill close_bucket
categorized_token_usage records =
    let (l, d) = fill empty_bucket empty_bucket records in
    record { llm = close_bucket l; decision = close_bucket d }

-- `total_tokens`
pub total_tokens : TokenCategoryUsage → Option ℕ
total_tokens u = elim u.input_tokens [
  | none ↦ none
  | some i ↦ elim u.output_tokens [ none ↦ none | some o ↦ some (i + o) ]
]

abbrev is_local : DecisionStatus → Bool
is_local blocked = true
is_local disabled = true
is_local _ = false

usage_input : Option DecisionUsage → Option ℕ
usage_input none = none
usage_input (some u) = u.input_tokens

usage_output : Option DecisionUsage → Option ℕ
usage_output none = none
usage_output (some u) = u.output_tokens

categorized : Option TokenCategory → DecisionAttempt → List UsageRecord
unfolding usage_input usage_output
categorized none attempt = []
categorized (some category) attempt =
    record {
      category = category;
      input = usage_input attempt.usage;
      output = usage_output attempt.usage;
    }
    ∷ []

-- The record of an attempt that owns a receipt, reached a model, and has a category.
unfoldable pub attempt_records : DecisionAttempt → List UsageRecord
unfolding categorized
attempt_records attempt =
    if not attempt.usage_owner || is_local attempt.status
    then []
    else categorized attempt.token_category attempt

unfoldable pub result_records : DecisionResult → List UsageRecord
unfolding attempt_records
result_records result =
    attempt_records result.primary
    ++ elim result.fallback [ none ↦ [] | some attempt ↦ attempt_records attempt ]

pub decision_records : List DecisionResult → List UsageRecord
unfolding result_records
decision_records [] = []
decision_records (result ∷ results) = result_records result ++ decision_records results

-- `llm_usage` is the caller's own model usage: `none` where it was not given.
pub llm_records : Bool → Option (Option ℕ × Option ℕ) → List UsageRecord
llm_records false none = []
llm_records true none = record { category = TokenCategory.llm; input = none; output = none } ∷ []
llm_records invoked (some (i, o)) =
    record { category = TokenCategory.llm; input = i; output = o } ∷ []

unfoldable pub summarize_decision_usage :
    List DecisionResult → Bool → Option (Option ℕ × Option ℕ) → TokenUsageByCategory
unfolding categorized_token_usage decision_records llm_records
summarize_decision_usage results llm_invoked llm_usage =
    categorized_token_usage (decision_records results ++ llm_records llm_invoked llm_usage)
