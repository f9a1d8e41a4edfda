-- ===== src/Decisions/Flow/Builder/Plans.antt =====
-- What a plan that was declared satisfies.
use mathlib.Core.Path.{subst}
use maivn.Prelude.{
  ℕ, ◌≤◌, ◌≡◌, refl, sym, ap, ◌⊎◌, inl, inr, String, Bool, true, false, not, ◌&&◌, Option, none,
  some, List, [], ◌∷◌, ◌++◌, ◌==◌, length, leb, leb→le, arith, ok, demand, >>=-ok, demand-eq-ok,
  ok_injective, All, All-append,
}
use maivn.Decisions.Flow.{
  DecisionQuestion, DecisionClient, DecisionStage, Placement, before, after, find,
}
use maivn.Decisions.Flow.Builder.{
  bad_name, bad_limit, duplicate_stage, bad_count, gated_after, undeclared_value, Given,
  DecisionInvocationBuilder, max_questions, allows_gates, names_stage, or_default, copied_question,
  copied_questions, may_answer, checked_gate, checked_gates, placed, decide,
}

module _ {I X Y E : Type 0} where
  -- The gate names a question that may answer its value.
  abbrev pub Answerable : List (String × DecisionQuestion I X Y E) → String × String → Type 0
  Answerable questions (key, value) =
      (q : DecisionQuestion I X Y E) × (find key questions ≡ some q) × (may_answer q value ≡ true)

  pub record ValidStage (valid_name : String → Bool) (stage : DecisionStage I X Y E) : Type 0 where
    pub named_well : valid_name stage.name ≡ true
    pub limited : 1 ≤ stage.max_concurrency
    pub asks_some : 1 ≤ length stage.questions
    pub asks_few : length stage.questions ≤ max_questions
    pub gates : All (Answerable stage.questions) stage.require
    pub gates_before : (stage.at ≡ before) ⊎ (stage.require ≡ [])

  -- No two stages share a name.
  abbrev Distinct : List (DecisionStage I X Y E) → Type 0
  Distinct [] = Unit
  Distinct (stage ∷ stages) = All (λ s. (stage.name == s.name) ≡ false) stages × Distinct stages

  pub record IsPlan (valid_name : String → Bool) (stages : List (DecisionStage I X Y E))
      : Type 0 where
    pub valid : All (ValidStage valid_name) stages
    pub distinct : Distinct stages

  copied_questions-length :
      (valid_name : String → Bool) (questions : List (String × Given I X Y E))
      (copied : List (String × DecisionQuestion I X Y E))
      → copied_questions valid_name questions ≡ ok copied
      → length copied ≡ length questions
  unfolding copied_questions
  copied_questions-length valid_name [] copied h = ap length (sym (ok_injective refl h))
  copied_questions-length valid_name ((key, question) ∷ questions) copied h =
      let (u, e0, h0) = >>=-ok (demand (valid_name key) bad_name) _ h in
      let (copy, e1, h1) = >>=-ok (copied_question question) _ h0 in
      let (rest, e2, h2) = >>=-ok (copied_questions valid_name questions) _ h1 in
      let n = copied_questions-length valid_name questions rest e2 in
      omega (arith, n, ap length (ok_injective refl h2))

  checked_gate-Answerable :
      (copied : List (String × DecisionQuestion I X Y E)) (key : String) (value : Option String)
      (o : Option (DecisionQuestion I X Y E)) (gate : String × String)
      → find key copied ≡ o
      → checked_gate key value o ≡ ok gate
      → Answerable copied gate
  unfolding checked_gate
  checked_gate-Answerable copied key none o gate e h = absurd (ground arith)
  checked_gate-Answerable copied key (some value) none gate e h = absurd (ground arith)
  checked_gate-Answerable copied key (some value) (some question) gate e h =
      let (u, e0, h0) = >>=-ok (demand (may_answer question value) undeclared_value) _ h in
      subst (Answerable copied) (ok_injective refl h0)
        (question, e, demand-eq-ok (may_answer question value) undeclared_value e0)

  checked_gates-Answerable :
      (copied : List (String × DecisionQuestion I X Y E)) (require : List (String × Option String))
      (gates : List (String × String))
      → checked_gates copied require ≡ ok gates
      → All (Answerable copied) gates
  unfolding checked_gates
  checked_gates-Answerable copied [] gates h =
      subst (All (Answerable copied)) (ok_injective refl h) tt
  checked_gates-Answerable copied ((key, value) ∷ require) gates h =
      let (gate, e0, h0) = >>=-ok (checked_gate key value (find key copied)) _ h in
      let (rest, e1, h1) = >>=-ok (checked_gates copied require) _ h0 in
      subst (All (Answerable copied)) (ok_injective refl h1) (
        checked_gate-Answerable copied key value (find key copied) gate refl e0,
        checked_gates-Answerable copied require rest e1,
      )

  gates-before :
      (side : Placement) (require : List (String × Option String))
      (copied : List (String × DecisionQuestion I X Y E)) (gates : List (String × String))
      → allows_gates side require ≡ true
      → checked_gates copied require ≡ ok gates
      → (side ≡ before) ⊎ (gates ≡ [])
  unfolding checked_gates
  gates-before before require copied gates a g = inl refl
  gates-before after [] copied gates a g = inr (sym (ok_injective refl g))
  gates-before after (r ∷ require) copied gates a g = absurd (ground arith)

  -- The facts of a declaration that succeeds.
  added_stage :
      (valid_name : String → Bool) (name : String) (client : DecisionClient I E)
      (questions : List (String × Given I X Y E))
      (copied : List (String × DecisionQuestion I X Y E)) (side : Placement)
      (require : List (String × Option String)) (gates : List (String × String))
      (max_concurrency : ℕ) (native_batch : Bool)
      → valid_name name ≡ true
      → leb 1 max_concurrency ≡ true
      → (leb 1 (length questions) && leb (length questions) max_questions) ≡ true
      → copied_questions valid_name questions ≡ ok copied
      → allows_gates side require ≡ true
      → checked_gates copied require ≡ ok gates
      → ValidStage valid_name (record {
        name = name;
        client = client;
        questions = copied;
        at = side;
        require = gates;
        max_concurrency = max_concurrency;
        native_batch = native_batch;
      })
  added_stage valid_name name client questions copied side require gates max_concurrency
        native_batch v l c q a g =
      record {
        named_well = v;
        limited = leb→le 1 max_concurrency l;
        asks_some = ground (arith, copied_questions-length valid_name questions copied q);
        asks_few = ground (arith, copied_questions-length valid_name questions copied q);
        gates = checked_gates-Answerable copied require gates g;
        gates_before = gates-before side require copied gates a g;
      }

  names_stage-none :
      (name : String) (stages : List (DecisionStage I X Y E))
      → names_stage name stages ≡ false
      → All (λ s. (s.name == name) ≡ false) stages
  names_stage-none name [] h = tt
  names_stage-none name (stage ∷ stages) h =
      (ground arith, names_stage-none name stages (ground arith))

  Distinct-snoc :
      (stages : List (DecisionStage I X Y E)) (stage : DecisionStage I X Y E)
      → Distinct stages
      → All (λ s. (s.name == stage.name) ≡ false) stages
      → Distinct (stages ++ stage ∷ [])
  Distinct-snoc [] stage d h = (tt, tt)
  Distinct-snoc (s ∷ stages) stage d h = (
    All-append (λ t. (s.name == t.name) ≡ false) stages (stage ∷ []) d.0 (h.0, tt),
    Distinct-snoc stages stage d.1 h.1,
  )

  -- A declaration that succeeds keeps a plan one: its stages have distinct and valid names, 1 to 32
  -- questions and a positive limit, and gates only before the invocation, each on a question of its
  -- stage that may answer the required value.
  pub decide-IsPlan :
      (valid_name : String → Bool) (builder next : DecisionInvocationBuilder I X Y E)
      (name : String) (client : Option (DecisionClient I E))
      (questions : List (String × Given I X Y E)) (at : String)
      (require : List (String × Option String)) (max_concurrency : ℕ) (native_batch : Bool)
      → IsPlan valid_name builder.stages
      → decide valid_name builder name client questions at require max_concurrency native_batch
        ≡ ok next
      → IsPlan valid_name next.stages
  unfolding decide
  decide-IsPlan valid_name builder next name client questions at require max_concurrency
        native_batch p h =
      let (_, e0, h0) = >>=-ok (demand (valid_name name) bad_name) _ h in
      let (_, e1, h1) = >>=-ok (demand (leb 1 max_concurrency) bad_limit) _ h0 in
      let (_, e2, h2) =
        >>=-ok (demand (not (names_stage name builder.stages)) duplicate_stage) _ h1 in
      let (side, e3, h3) = >>=-ok (placed at) _ h2 in
      let (_, e4, h4) =
        >>=-ok (demand (leb 1 (length questions) && leb (length questions) max_questions) bad_count)
          _ h3 in
      let (copied, e5, h5) = >>=-ok (copied_questions valid_name questions) _ h4 in
      let (_, e6, h6) = >>=-ok (demand (allows_gates side require) gated_after) _ h5 in
      let (gates, e7, h7) = >>=-ok (checked_gates copied require) _ h6 in
      let stage =
        added_stage valid_name name (or_default client builder.client) questions copied side require
          gates max_concurrency native_batch (demand-eq-ok _ bad_name e0)
          (demand-eq-ok _ bad_limit e1) (demand-eq-ok _ bad_count e4) e5
          (demand-eq-ok _ gated_after e6) e7 in
      let fresh = demand-eq-ok (not (names_stage name builder.stages)) duplicate_stage e2 in
      subst (λ b. IsPlan valid_name b.stages) (ok_injective refl h7)
        (record {
          valid = All-append (ValidStage valid_name) builder.stages _ p.valid (stage, tt);
          distinct =
              Distinct-snoc builder.stages _ p.distinct
                (names_stage-none name builder.stages (ground arith));
        })
