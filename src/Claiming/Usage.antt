-- ===== src/Claiming/Usage.antt =====
-- The token counts that a report carries (`usage_report` and `_token_count` of
-- src/maivn/_internal/claiming.py). A count that is dropped and one that is not there are the same.
pub mod Counts
use maivn.Prelude.{
  ℕ, String, Bool, true, false, ◌||◌, Option, none, some, List, [], ◌∷◌, ◌==◌, nat_eq, not,
  if◌then◌else◌, is_some, contains,
}
use maivn.Claiming.{
  ℤ, pos, negsuc, Json, null, boolean, whole, real, text, array, object, no_items, item, get,
  Fields, no_fields, field_of,
}

abbrev pub bucket_of : String → String
bucket_of key =
    if key == "cache_read_tokens"
    then "cache_read_input_tokens"
    else if key == "cache_creation_tokens"
    then "cache_creation_input_tokens"
    else key

abbrev pub usage_token_fields : List String
usage_token_fields =
    "input_tokens" ∷ "output_tokens" ∷ "cache_read_input_tokens" ∷ "cache_creation_input_tokens"
    ∷ []

-- `counts[bucket] = count`
pub put : String → ℕ → List (String × ℕ) → List (String × ℕ)
put bucket count [] = (bucket, count) ∷ []
put bucket count ((b, c) ∷ counts) =
    if b == bucket then (b, count) ∷ counts else (b, c) ∷ put bucket count counts

pub count_of : String → List (String × ℕ) → Option ℕ
count_of bucket [] = none
count_of bucket ((b, c) ∷ counts) = if b == bucket then some c else count_of bucket counts

not_negative : ℤ → Option ℕ
not_negative (pos n) = some n
not_negative (negsuc n) = none

pub put_count : String → Option ℕ → List (String × ℕ) → List (String × ℕ)
unfolding put
put_count bucket none counts = counts
put_count bucket (some count) counts = put bucket count counts

abbrev pub any_bucket : List String → List (String × ℕ) → Bool
any_bucket [] counts = false
any_bucket (b ∷ buckets) counts = is_some (count_of b counts) || any_bucket buckets counts

pub record UsageReport : Type 0 where
  pub counts : List (String × ℕ)
  pub model : Option String

-- `as_integer` is `int(value)` where `value.is_integer()`.
module _ {ℓ} {F : Type ℓ} (as_integer : F → Option ℤ) where
  abbrev count_of_real : Option ℤ → Option ℕ
  count_of_real none = none
  count_of_real (some n) = not_negative n

  unfoldable pub token_count : Json F → Option ℕ
  unfolding not_negative
  token_count (whole n) = not_negative n
  token_count (real x) = count_of_real (as_integer x)
  token_count _ = none

  -- The loop over the items of the mapping.
  pub usage_counts : Fields F → List (String × ℕ) → List (String × ℕ)
  unfolding put_count token_count
  usage_counts no_fields counts = counts
  usage_counts (field_of key value usage) counts =
      if contains (bucket_of key) usage_token_fields
      then usage_counts usage (put_count (bucket_of key) (token_count value) counts)
      else usage_counts usage counts

  is_zero : Option ℤ → Bool
  is_zero (some (pos n)) = nat_eq n 0
  is_zero _ = false

  -- Whether Python takes the value for true.
  pub truthy : Json F → Bool
  unfolding is_zero
  truthy null = false
  truthy (boolean b) = b
  truthy (whole n) = not (is_zero (some n))
  truthy (real x) = not (is_zero (as_integer x))
  truthy (text t) = not (t == "")
  truthy (array no_items) = false
  truthy (array (item _ _)) = true
  truthy (object no_fields) = false
  truthy (object (field_of _ _ _)) = true

  pub stripped : (String → String) → Json F → Option String
  stripped strip (text t) = if strip t == "" then none else some (strip t)
  stripped strip _ = none

  pub report_of : List (String × ℕ) → Option String → Option UsageReport
  report_of counts model =
      if any_bucket usage_token_fields counts
      then some (record { counts = counts; model = model })
      else none

  -- `usage_report` of a mapping; `none` is the report that is left out.
  unfoldable pub usage_report : (String → String) → Fields F → Option UsageReport
  unfolding usage_counts truthy stripped report_of
  usage_report strip usage =
      let model = get "model" usage in
      let named = if truthy model then model else get "model_id" usage in
      report_of (usage_counts usage []) (stripped strip named)
