-- ===== src/Decisions/Usage/Totals.antt =====
-- What a summary reports: complete totals where every receipt is complete, and known subtotals
-- that neither category takes from the other.
use mathlib.Core.List.{append-nil}
use maivn.Prelude.{
  ℕ, ◌+◌, ◌≡◌, refl, Bool, true, false, none, some, List, [], ◌∷◌, arith, nat_eq, if◌then◌else◌,
  All,
}
use maivn.Decisions.Model.{TokenCategory, DecisionResult, DecisionRequest, DecisionConfig}
use maivn.Decisions.Routing.{Baselined}
use maivn.Decisions.NativeUnit.{UnitCall, native_unit}
use maivn.Decisions.NativeUnit.Results.{Answered, native_unit-Answered}
use maivn.Decisions.Usage.{
  TokenCategoryUsage, UsageRecord, Bucket, known, missing, add_record, fill, close_bucket,
  empty_bucket, categorized_token_usage, decision_records, result_records,
}

abbrev pub same_category : TokenCategory → TokenCategory → Bool
same_category TokenCategory.llm TokenCategory.llm = true
same_category TokenCategory.decision TokenCategory.decision = true
same_category _ _ = false

-- A sum over the records of one category.
abbrev pub sum_of : TokenCategory → (UsageRecord → ℕ) → List UsageRecord → ℕ
sum_of c f [] = 0
sum_of c f (r ∷ records) = (if same_category r.category c then f r else 0) + sum_of c f records

record Filled (c : TokenCategory) (before after : Bucket) (records : List UsageRecord)
    : Type 0 where
  input : after.known_input ≡ before.known_input + sum_of c (λ r. known r.input) records
  output : after.known_output ≡ before.known_output + sum_of c (λ r. known r.output) records
  no_input : after.unknown_input ≡ before.unknown_input + sum_of c (λ r. missing r.input) records
  no_output :
      after.unknown_output ≡ before.unknown_output + sum_of c (λ r. missing r.output) records

fill-Filled :
    (l d : Bucket) (records : List UsageRecord)
    → Filled TokenCategory.llm l (fill l d records).0 records
      × Filled TokenCategory.decision d (fill l d records).1 records
unfolding fill add_record
fill-Filled l d [] = ground arith
fill-Filled l d (r ∷ records) =
    ground (arith, fill-Filled (add_record l r) d records, fill-Filled l (add_record d r) records)

-- A category's report over these records.
pub record Totals (c : TokenCategory) (u : TokenCategoryUsage) (records : List UsageRecord)
    : Type 0 where
  pub known_input : u.known_input_tokens ≡ sum_of c (λ r. known r.input) records
  pub known_output : u.known_output_tokens ≡ sum_of c (λ r. known r.output) records
  pub unknown_input : u.unknown_input_calls ≡ sum_of c (λ r. missing r.input) records
  pub unknown_output : u.unknown_output_calls ≡ sum_of c (λ r. missing r.output) records
  pub input : u.input_tokens ≡ (
      if nat_eq (sum_of c (λ r. missing r.input) records) 0
      then some (sum_of c (λ r. known r.input) records)
      else none)
  pub output : u.output_tokens ≡ (
      if nat_eq (sum_of c (λ r. missing r.output) records) 0
      then some (sum_of c (λ r. known r.output) records)
      else none)

close_bucket-Totals :
    (c : TokenCategory) (b : Bucket) (records : List UsageRecord)
    → Filled c empty_bucket b records
    → Totals c (close_bucket b) records
unfolding close_bucket
close_bucket-Totals c b records h = ground arith

-- Each category reports the sums of its own records alone; its total is known exactly when every
-- one of its receipts has the count, and the known subtotal and the number of unknown calls are
-- reported in any case.
pub categorized_token_usage-Totals :
    (records : List UsageRecord)
    → Totals TokenCategory.llm (categorized_token_usage records).llm records
      × Totals TokenCategory.decision (categorized_token_usage records).decision records
unfolding categorized_token_usage
categorized_token_usage-Totals records =
    let (l, d) = fill-Filled empty_bucket empty_bucket records in
    (
      close_bucket-Totals TokenCategory.llm (fill empty_bucket empty_bucket records).0 records l,
      close_bucket-Totals TokenCategory.decision (fill empty_bucket empty_bucket records).1 records
          d,
    )

follower-no_records :
    (result : DecisionResult)
    → result.primary.usage_owner ≡ false
    → result.fallback ≡ none
    → result_records result ≡ []
unfolding result_records
follower-no_records result o f = ground arith

module _ {ℓ} {I : Type ℓ} (config : DecisionConfig) (baseline : DecisionRequest I → Baselined) where
  followers-no_records :
      (requests : List (DecisionRequest I)) (results : List DecisionResult)
      → Answered config baseline false requests results
      → All (λ r. r.fallback ≡ none) results
      → decision_records results ≡ []
  unfolding decision_records
  followers-no_records [] [] a f = refl
  followers-no_records [] (r ∷ results) a f = elim a [ ]
  followers-no_records (request ∷ requests) [] a f = refl
  followers-no_records (request ∷ requests) (r ∷ results) a f =
      rw (follower-no_records r a.1 f.0) (followers-no_records requests results a.2 f.1)

  -- The receipt that the results of a native unit share is counted once: where no request after
  -- the first needed its baseline, the summary has the records of the first result alone.
  pub native_unit-receipt_once :
      (call : UnitCall) (first : DecisionRequest I) (rest : List (DecisionRequest I))
      (result : DecisionResult) (results : List DecisionResult)
      → native_unit config baseline call (first ∷ rest) ≡ some (result ∷ results)
      → All (λ r. r.fallback ≡ none) results
      → decision_records (result ∷ results) ≡ result_records result
  unfolding decision_records
  native_unit-receipt_once call first rest result results h f =
      rw
        (followers-no_records rest results
          (native_unit-Answered config baseline call first rest (result ∷ results) h).2 f)
        (append-nil (result_records result))
