-- ===== src/Claiming/Usage/Counts.antt =====
-- Which counts a report holds.
use maivn.Prelude.{
  ℕ, ◌≡◌, refl, sym, ap, ◌∙◌, ◌⊎◌, inl, inr, String, true, false, Option, none, some, List, [], ◌∷◌,
  ◌==◌, if◌then◌else◌, contains, arith, Bool-cases, Option-cases, eq_iff, All,
}
use maivn.Claiming.{ℤ, get, Fields, no_fields, field_of}
use maivn.Claiming.Usage.{
  bucket_of, usage_token_fields, put, put_count, count_of, any_bucket, token_count, usage_counts,
  usage_report, report_of, truthy, stripped, UsageReport,
}

module _ {ℓ} {F : Type ℓ} (as_integer : F → Option ℤ) where
  -- The last count of a bucket, under its own name or a short one, that a mapping gives.
  abbrev or_else : Option ℕ → Option ℕ → Option ℕ
  or_else none o = o
  or_else (some n) o = some n

  abbrev pub last_count : String → Fields F → Option ℕ
  last_count bucket no_fields = none
  last_count bucket (field_of key value usage) =
      or_else (last_count bucket usage)
        (if bucket_of key == bucket then token_count as_integer value else none)

  count_of-put :
      (b bucket : String) (count : ℕ) (counts : List (String × ℕ))
      → count_of b (put bucket count counts)
        ≡ (if bucket == b then some count else count_of b counts)
  unfolding count_of put
  count_of-put b bucket count [] = refl
  count_of-put b bucket count ((k, c) ∷ counts) =
      ground
        (arith, eq_iff k bucket, eq_iff k b, eq_iff bucket b, count_of-put b bucket count counts)

  count_of-put_count :
      (b bucket : String) (o : Option ℕ) (counts : List (String × ℕ))
      → count_of b (put_count bucket o counts)
        ≡ or_else (if bucket == b then o else none) (count_of b counts)
  unfolding put_count
  count_of-put_count b bucket none counts = ground arith
  count_of-put_count b bucket (some count) counts =
      ground (arith, count_of-put b bucket count counts)

  or_else_assoc : (x y z : Option ℕ) → or_else (or_else x y) z ≡ or_else x (or_else y z)
  or_else_assoc none y z = refl
  or_else_assoc (some n) y z = refl

  no_other :
      (b bucket : String)
      → contains b usage_token_fields ≡ true
      → contains bucket usage_token_fields ≡ false
      → (bucket == b) ≡ false
  no_other b bucket h k = elim (Bool-cases (bucket == b)) [
    | inr e ↦ e
    | inl e ↦
        let p : bucket ≡ b = (eq_iff bucket b).0 e in
        let q : contains bucket usage_token_fields ≡ contains b usage_token_fields =
          ap (λ t. contains t usage_token_fields) p in
        cc
  ]

  count_of-usage_counts :
      (b : String) (usage : Fields F) (counts : List (String × ℕ))
      → contains b usage_token_fields ≡ true
      → count_of b (usage_counts as_integer usage counts)
        ≡ or_else (last_count b usage) (count_of b counts)
  unfolding usage_counts
  count_of-usage_counts b no_fields counts h = refl
  count_of-usage_counts b (field_of key value usage) counts h =
      let bucket = bucket_of key in
      let o = token_count as_integer value in
      elim (Bool-cases (contains bucket usage_token_fields)) [
        | inl k ↦
            rw
              (
                k,
                count_of-usage_counts b usage (put_count bucket o counts) h,
                count_of-put_count b bucket o counts,
                or_else_assoc (last_count b usage) (if bucket == b then o else none)
                    (count_of b counts),
              )
              refl
        | inr k ↦
            rw (k, count_of-usage_counts b usage counts h, no_other b bucket h k)
              (sym (or_else_assoc (last_count b usage) none (count_of b counts)))
      ]

  or_else-none : (o : Option ℕ) → or_else o none ≡ o
  or_else-none none = refl
  or_else-none (some n) = refl

  reads :
      (usage : Fields F) (b : String)
      → contains b usage_token_fields ≡ true
      → count_of b (usage_counts as_integer usage []) ≡ last_count b usage
  unfolding count_of
  reads usage b h = count_of-usage_counts b usage [] h ∙ or_else-none (last_count b usage)

  reads_each :
      (usage : Fields F)
      → All
          (λ b. count_of b (usage_counts as_integer usage []) ≡ last_count b usage)
          usage_token_fields
  reads_each usage = (
    reads usage "input_tokens" refl,
    (
      reads usage "output_tokens" refl,
      (
        reads usage "cache_read_input_tokens" refl,
        (reads usage "cache_creation_input_tokens" refl, tt),
      ),
    ),
  )

  abbrev pub IsLast : List (String × ℕ) → Fields F → String → Type 0
  IsLast counts usage b = count_of b counts ≡ last_count b usage

  any_bucket-none :
      (usage : Fields F) (counts : List (String × ℕ)) (bs : List String)
      → All (IsLast counts usage) bs
      → any_bucket bs counts ≡ false
      → All (λ b. last_count b usage ≡ none) bs
  any_bucket-none usage counts [] h n = tt
  any_bucket-none usage counts (b ∷ bs) h n = elim (Option-cases (count_of b counts)) [
    | inl e ↦ (sym h.0 ∙ e, any_bucket-none usage counts bs h.1 (ground arith))
    | inr (c, e) ↦ absurd (ground arith)
  ]

  any_bucket-some :
      (usage : Fields F) (counts : List (String × ℕ)) (bs : List String)
      → All (IsLast counts usage) bs
      → any_bucket bs counts ≡ true
      → (b : String) × (n : ℕ) × (last_count b usage ≡ some n)
  any_bucket-some usage counts [] h n = absurd (ground arith)
  any_bucket-some usage counts (b ∷ bs) h n = elim (Option-cases (count_of b counts)) [
    | inl e ↦ any_bucket-some usage counts bs h.1 (ground arith)
    | inr (c, e) ↦ (b, c, sym h.0 ∙ e)
  ]

  -- Nothing is reported exactly where no bucket has a usable count; a report gives for each bucket
  -- the last usable count, under its own name or a short one, that the mapping has.
  pub usage_report-IsLast :
      (strip : String → String) (usage : Fields F)
      → ((usage_report as_integer strip usage ≡ none)
          × All (λ b. last_count b usage ≡ none) usage_token_fields)
        ⊎ ((r : UsageReport) × (usage_report as_integer strip usage ≡ some r)
            × All (IsLast r.counts usage) usage_token_fields
            × ((b : String) × (n : ℕ) × (last_count b usage ≡ some n)))
  unfolding usage_report report_of
  usage_report-IsLast strip usage =
      let counts = usage_counts as_integer usage [] in
      let model = get "model" usage in
      let named = if truthy as_integer model then model else get "model_id" usage in
      let report : UsageReport = record {
        counts = counts;
        model = stripped as_integer strip named;
      } in
      elim (Bool-cases (any_bucket usage_token_fields counts)) [
        | inr n ↦
            inl (rw n refl, any_bucket-none usage counts usage_token_fields (reads_each usage) n)
        | inl y ↦ inr (
          report,
          rw y refl,
          reads_each usage,
          any_bucket-some usage counts usage_token_fields (reads_each usage) y,
        )
      ]
