-- ===== src/Decisions/Batch/Places.antt =====
-- The results of a native batch come back in the order of the requests.
use maivn.Prelude.{
  ℕ, suc, ◌≡◌, refl, ap, ◌∙◌, Bool, true, Option, some, List, [], ◌∷◌, arith, length, if◌then◌else◌,
  ltb, map, All,
}
use maivn.Decisions.Model.{DecisionRequest}
use maivn.Decisions.Batch.{
  gather, lookup, in_order, plan, BatchKey, batch_key, native_batch, same_lengths, all_returned,
}
use maivn.Decisions.Batch.Plan.{count_units, count-plan}
use maivn.Decisions.Batch.Order.{length-map}
use maivn.Decisions.Batch.Reassembly.{
  get_elem?, Paired, Placed, Placed-agrees, gather-present, gather-Placed, in_order-Ordered,
}

module _ {ℓ} {R : Type ℓ} (unit : List ℕ → Option (List R)) where
  -- A unit that returns as many results as it has indices.
  abbrev pub Returns : List ℕ → Type ℓ
  Returns indices = (rs : List R) × (unit indices ≡ some rs) × (length rs ≡ length indices)

  -- Its results, in the results of the batch.
  abbrev pub InPlace : List R → List ℕ → Type ℓ
  InPlace results indices =
      (rs : List R) × (unit indices ≡ some rs) × (map (get_elem? results) indices ≡ map some rs)

  record Gathered (units : List (List ℕ)) : Type ℓ where
    chunks : List (List R)
    gathered : all_returned (map unit units) ≡ some chunks
    paired : Paired units chunks
    strict : same_lengths units chunks ≡ true
    in_place :
        (results : List R) → Placed (get_elem? results) units chunks → All (InPlace results) units

  Returns-Gathered : (units : List (List ℕ)) → All Returns units → Gathered units
  Returns-Gathered [] h = record {
    chunks = [];
    gathered = refl;
    paired = tt;
    strict = refl;
    in_place = λ results p. tt;
  }
  Returns-Gathered (indices ∷ units) ((rs, e, l), hs) =
      let g = Returns-Gathered units hs in
      record {
        chunks = rs ∷ g.chunks;
        gathered = rw (e, g.gathered) refl;
        paired = (l, g.paired);
        strict = ground (arith, l, g.strict);
        in_place = λ results p. ((rs, e, p.0), g.in_place results p.1);
      }

module _ {ℓ κ} {I : Type ℓ} {R : Type κ} (same_key : BatchKey I → BatchKey I → Bool) (size : ℕ)
    (unit : List ℕ → Option (List R)) (requests : List (DecisionRequest I)) where
  abbrev pub units_of : List (List ℕ)
  units_of = plan same_key (suc size) (map batch_key requests)

  pub record InOrder : Type κ where
    pub results : List R
    pub returned : native_batch same_key (suc size) unit requests ≡ some results
    pub one_each : length results ≡ length requests
    pub in_place : All (InPlace unit results) units_of

  counted : (i : ℕ) → count_units i units_of ≡ (if ltb i (length requests) then 1 else 0)
  counted i =
      count-plan same_key size i (map batch_key requests)
      ∙ (rw (length-map batch_key requests) refl)

  batch_returns :
      (chunks : List (List R)) (results : List R)
      → all_returned (map unit units_of) ≡ some chunks
      → same_lengths units_of chunks ≡ true
      → in_order (length requests) 0 (gather units_of chunks) ≡ some results
      → native_batch same_key (suc size) unit requests ≡ some results
  unfolding native_batch
  batch_returns chunks results e s o = rw (native_batch, e, s) o

  -- Whatever the keys, and with a positive limit: if each unit of the plan returns as many results
  -- as it has indices, by whatever way it comes to them, then the batch returns one result for each
  -- request, without an exception; and at the indices of each unit stand the results that this unit
  -- returned, in their order.
  pub native_batch-InOrder : All (Returns unit) units_of → InOrder
  native_batch-InOrder h =
      let g = Returns-Gathered unit units_of h in
      let ordered = gather units_of g.chunks in
      let o =
        in_order-Ordered (length requests) 0 ordered
          (λ i a b. gather-present i units_of g.chunks g.paired (ground (arith, counted i))) in
      record {
        results = o.results;
        returned = batch_returns g.chunks o.results g.gathered g.strict o.returned;
        one_each = o.count_kept;
        in_place = g.in_place o.results (
            Placed-agrees (get_elem? o.results) (λ i. lookup i ordered) units_of g.chunks
              (λ i c.
                o.each i (ground (arith, counted i)) ∙ ap (λ j. lookup j ordered) (omega arith))
              (gather-Placed units_of g.chunks (λ i. ground (arith, counted i)) g.paired));
      }
