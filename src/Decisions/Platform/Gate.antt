-- ===== src/Decisions/Platform/Gate.antt =====
-- What may leave the process.
use mathlib.Core.Bool.{false≢true}
use maivn.Prelude.{
  sym, ◌∙◌, ℕ, ◌≡◌, ◌⊎◌, inl, inr, refl, Bool-cases, String, Bool, true, false, Option, some, List,
  [], ◌∷◌, arith, All,
}
use maivn.Decisions.Model.{DecisionRequest}
use maivn.Decisions.Routing.{is_blocked}
use maivn.Decisions.Batch.{BatchKey}
use maivn.Decisions.Platform.{
  Body, Posted, key_of, sendable, all_allowed, request_body, predict_batch,
}

module _ {ℓ} {I : Type ℓ} (same_key : BatchKey I → BatchKey I → Bool) where
  -- Approved by the caller, public, and of one content with the first request.
  abbrev pub MaySend : (DecisionRequest I → Option Bool) → BatchKey I → DecisionRequest I → Type 0
  MaySend authorize key request =
      (authorize request ≡ some true)
      × (is_blocked request ≡ false)
      × (same_key (key_of request) key ≡ true)

  MaySend-All :
      (authorize : DecisionRequest I → Option Bool) (key : BatchKey I)
      (requests : List (DecisionRequest I))
      → sendable same_key key requests ≡ true
      → all_allowed authorize requests ≡ true
      → All (MaySend authorize key) requests
  unfolding sendable all_allowed
  MaySend-All authorize key [] s a = tt
  MaySend-All authorize key (request ∷ requests) s a = (
    (ground arith, ground arith, ground arith),
    MaySend-All authorize key requests (ground arith) (ground arith),
  )

  gates-MaySend :
      (authorize : DecisionRequest I → Option Bool) (key : BatchKey I)
      (requests : List (DecisionRequest I))
      → All (MaySend authorize key) requests
      → (sendable same_key key requests ≡ true) × (all_allowed authorize requests ≡ true)
  unfolding sendable all_allowed
  gates-MaySend authorize key [] h = (refl, refl)
  gates-MaySend authorize key (request ∷ requests) ((a, b, k), hs) =
      let (s, t) = gates-MaySend authorize key requests hs in (ground arith, ground arith)

module _ {ℓ} {I : Type ℓ} (same_key : BatchKey I → BatchKey I → Bool) (wire_name : ℕ → String)
    (resolve : String → List (String × String) → Option String)
    (authorize : DecisionRequest I → Option Bool) (session_id : Option String)
    (post : Body I → Posted) where
  -- Where every request of the batch is approved, public and of one content with the first, exactly
  -- one body leaves the process, that of these requests; where one of them is not, nothing does.
  pub predict_batch-posts :
      (first : DecisionRequest I) (rest : List (DecisionRequest I))
      → ((predict_batch same_key wire_name resolve authorize session_id post (first ∷ rest)).1 ≡ [])
          × ¬ (All (MaySend same_key authorize (key_of first)) (first ∷ rest))
        ⊎ (All (MaySend same_key authorize (key_of first)) (first ∷ rest)
            × ((predict_batch same_key wire_name resolve authorize session_id post (first ∷ rest)).1
                ≡ request_body wire_name session_id first rest ∷ []))
  unfolding predict_batch
  predict_batch-posts first rest =
      elim (Bool-cases (sendable same_key (key_of first) (first ∷ rest))) [
        | inr s ↦ inl (
          rw s refl,
          λ h.
              false≢true
                (sym s ∙ (gates-MaySend same_key authorize (key_of first) (first ∷ rest) h).0),
        )
        | inl s ↦ elim (Bool-cases (all_allowed authorize (first ∷ rest))) [
          | inr a ↦ inl (
            rw (s, a) refl,
            λ h.
                false≢true
                  (sym a ∙ (gates-MaySend same_key authorize (key_of first) (first ∷ rest) h).1),
          )
          | inl a ↦
              inr (MaySend-All same_key authorize (key_of first) (first ∷ rest) s a, rw (s, a) refl)
        ]
      ]
