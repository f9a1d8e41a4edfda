-- ===== src/Scheduling/Retry/Attempts.antt =====
-- The retry loop ends, and how.
use mathlib.Core.Path.{subst}
use native.Mathlib.Decide.{ℕ_discrete}
use maivn.Prelude.{
  All, ap, String, ℕ, zero, suc, ◌+◌, ◌≤◌, ◌<◌, ◌≡◌, refl, ◌⊎◌, inl, inr, Bool, true, false, Option,
  none, some, List, ◌∷◌, arith, sym, if-case, max,
}
use maivn.Scheduling.Retry.{
  Retry, delay_for_attempt, Waited, elapsed, stop_set, too_long, ended_with, overflowed,
  after_failure, Tried, value, exception, should_retry, succeeded, failed, cancelled, Ended,
  prepend_delay, retry_loop, run_with_retry,
}

delay_for_attempt-le_cap :
    (policy : Retry) (attempt cap delay : ℕ)
    → policy.max_delay ≡ some cap
    → delay_for_attempt policy attempt ≡ some delay
    → delay ≤ cap
unfolding delay_for_attempt
delay_for_attempt-le_cap policy attempt cap delay h e = ground arith

module _ {R : Type 0} (policy : Retry) (runner : ℕ → Tried R) (waited : ℕ → Waited) where
  -- How a run ends: with the value of its last attempt; with an exception that is no reason to
  -- retry, or came at the last allowed attempt; stopped in the wait after an exception; or with an
  -- `OverflowError` of the delay or of the wait after one.
  abbrev pub EndsWith : Tried R → Ended R → Type 0
  EndsWith (value r) e = e ≡ ended_with succeeded e.attempt (some r) none e.delays
  EndsWith (exception x matches) e =
      ((e ≡ ended_with failed e.attempt none (some x) e.delays)
        × (should_retry policy matches e.attempt ≡ false))
      ⊎ ((e ≡ ended_with cancelled e.attempt none (some x) e.delays)
          × (should_retry policy matches e.attempt ≡ true)
          × (waited (e.attempt + 1) ≡ stop_set))
      ⊎ ((e ≡ overflowed e.attempt e.delays)
          × (should_retry policy matches e.attempt ≡ true)
          × ((delay_for_attempt policy (e.attempt + 1) ≡ none)
              ⊎ (waited (e.attempt + 1) ≡ too_long)))

  -- An attempt that the loop goes on from.
  abbrev pub GoesOn : Tried R → ℕ → Type 0
  GoesOn (value r) attempt = ⊥
  GoesOn (exception x matches) attempt =
      (should_retry policy matches attempt ≡ true)
      × (waited (attempt + 1) ≡ elapsed)
      × ((delay : ℕ) × (delay_for_attempt policy (attempt + 1) ≡ some delay))

  pub record Ends (first last : ℕ) (o : Option (Ended R)) : Type 0 where
    pub ended : Ended R
    pub returned : o ≡ some ended
    pub outcome : EndsWith (runner ended.attempt) ended
    pub at_least : first ≤ ended.attempt
    pub at_most : ended.attempt ≤ last
    pub goes_on : (i : ℕ) → first ≤ i → i < ended.attempt → GoesOn (runner i) i

  Ends-here :
      (attempt last : ℕ) (e : Ended R)
      → e.attempt ≡ attempt
      → attempt ≤ last
      → EndsWith (runner attempt) e
      → Ends attempt last (some e)
  Ends-here attempt last e a l h = record {
    ended = e;
    returned = refl;
    outcome = subst (λ n. EndsWith (runner n) e) (sym a) h;
    at_least = omega arith;
    at_most = omega arith;
    goes_on = λ i x y. absurd (omega arith);
  }

  GoesOn-cons :
      (attempt : ℕ) (i : ℕ) {last : ℕ}
      → GoesOn (runner attempt) attempt
      → ((j : ℕ) → attempt + 1 ≤ j → j < last → GoesOn (runner j) j)
      → attempt ≤ i
      → i < last
      → GoesOn (runner i) i
  GoesOn-cons attempt i g h a b = elim (ℕ_discrete attempt i) [
    | yes e ↦ subst (λ j. GoesOn (runner j) j) e g
    | no n ↦ h i (omega arith) b
  ]

  Ends-later :
      (attempt last delay : ℕ) (o : Option (Ended R))
      → GoesOn (runner attempt) attempt
      → Ends (attempt + 1) last o
      → Ends attempt last (elim o [ none ↦ none | some e ↦ some (prepend_delay delay e) ])
  unfolding prepend_delay
  Ends-later attempt last delay o g k = rw k.returned (record {
    ended = record k.ended { delays = delay ∷ k.ended.delays };
    returned = refl;
    outcome = EndsWith-delays (runner k.ended.attempt) k.ended (delay ∷ k.ended.delays) k.outcome;
    at_least = omega (arith, k.at_least);
    at_most = k.at_most;
    goes_on = λ i a b. GoesOn-cons attempt i g k.goes_on a b;
  })
    where
      EndsWith-delays :
          (t : Tried R) (e : Ended R) (delays : List ℕ)
          → EndsWith t e
          → EndsWith t (record e { delays = delays })
      EndsWith-delays (value r) e delays h = ap (λ (t : Ended R). record t { delays = delays }) h
      EndsWith-delays (exception x m) e delays (inl (h, k)) =
          inl (ap (λ (t : Ended R). record t { delays = delays }) h, k)
      EndsWith-delays (exception x m) e delays (inr (inl (h, k, w))) =
          inr (inl (ap (λ (t : Ended R). record t { delays = delays }) h, k, w))
      EndsWith-delays (exception x m) e delays (inr (inr (h, k, w))) =
          inr (inr (ap (λ (t : Ended R). record t { delays = delays }) h, k, w))

  after_failure-Ends :
      (attempt last : ℕ) (x : String) (m : Bool) (d : Option ℕ) (w : Waited)
      (again : Option (Ended R))
      → runner attempt ≡ exception x m
      → should_retry policy m attempt ≡ true
      → delay_for_attempt policy (attempt + 1) ≡ d
      → waited (attempt + 1) ≡ w
      → attempt ≤ last
      → Ends (attempt + 1) last again
      → Ends attempt last (after_failure d w attempt x again)
  unfolding after_failure
  after_failure-Ends attempt last x m none w again e s d k l h =
      Ends-here attempt last _ refl l (rw e (inr (inr (refl, s, inl d))))
  after_failure-Ends attempt last x m (some delay) too_long again e s d k l h =
      Ends-here attempt last _ refl l (rw e (inr (inr (refl, s, inr k))))
  after_failure-Ends attempt last x m (some delay) stop_set again e s d k l h =
      Ends-here attempt last _ refl l (rw e (inr (inl (refl, s, k))))
  after_failure-Ends attempt last x m (some delay) elapsed again e s d k l h =
      Ends-later attempt last delay again (rw e (s, k, (delay, d))) h

  retry_loop-Ends :
      (fuel attempt last : ℕ) (t : Tried R)
      → runner attempt ≡ t
      → attempt ≤ last
      → policy.max_attempts ≤ attempt + fuel
      → (attempt < policy.max_attempts → policy.max_attempts ≤ last)
      → Ends attempt last (retry_loop policy runner waited fuel attempt t)
  unfolding retry_loop
  retry_loop-Ends fuel attempt last (value r) e l h b = Ends-here attempt last _ refl l (rw e refl)
  retry_loop-Ends zero attempt last (exception x m) e l h b =
      let stop : should_retry policy m attempt ≡ false = unfold should_retry in ground arith in
      rw stop (Ends-here attempt last _ refl l (rw e (inl (refl, stop))))
  retry_loop-Ends (suc fuel) attempt last (exception x m) e l h b =
      if-case (Ends attempt last) (should_retry policy m attempt)
        (λ again.
          let more : attempt < policy.max_attempts = unfold should_retry in ground arith in
          after_failure-Ends attempt last x m (delay_for_attempt policy (attempt + 1))
            (waited (attempt + 1)) _ e again refl refl l
            (retry_loop-Ends fuel (attempt + 1) last (runner (attempt + 1)) refl
              (omega (arith, b more)) (omega arith) (λ more. b (omega arith))))
        (λ stop. Ends-here attempt last _ refl l (rw e (inl (refl, stop))))

  -- For a callable that leaves the status of its record alone, the loop always ends. It makes one
  -- attempt at least, and no more than `max_attempts` unless that is 0. Every attempt before the
  -- last raised an exception to retry, with attempts left, and the wait after it went by. The record
  -- has the value of the last attempt; or its exception, as a failure that is not to be retried, or
  -- as cancelled by a stop in the wait after it; or an `OverflowError` leaves the loop, of the delay
  -- after it or of a wait that is too long, and the record is still running, with neither.
  pub run_with_retry-Ends : Ends 1 (max 1 policy.max_attempts) (run_with_retry policy runner waited)
  unfolding run_with_retry
  run_with_retry-Ends =
      retry_loop-Ends policy.max_attempts 1 (max 1 policy.max_attempts) (runner 1) refl
        (omega arith) (omega arith) (λ more. omega arith)

  abbrev Capped : ℕ → Option (Ended R) → Type 0
  Capped cap none = Unit
  Capped cap (some e) = All (λ d. d ≤ cap) e.delays

  Capped-later :
      (cap delay : ℕ) (o : Option (Ended R))
      → delay ≤ cap
      → Capped cap o
      → Capped cap (elim o [ none ↦ none | some e ↦ some (prepend_delay delay e) ])
  unfolding prepend_delay
  Capped-later cap delay none l c = tt
  Capped-later cap delay (some e) l c = (l, c)

  after_failure-Capped :
      (cap attempt : ℕ) (x : String) (d : Option ℕ) (w : Waited) (again : Option (Ended R))
      → policy.max_delay ≡ some cap
      → delay_for_attempt policy (attempt + 1) ≡ d
      → Capped cap again
      → Capped cap (after_failure d w attempt x again)
  unfolding after_failure
  after_failure-Capped cap attempt x none w again h e k = tt
  after_failure-Capped cap attempt x (some delay) too_long again h e k =
      (delay_for_attempt-le_cap policy (attempt + 1) cap delay h e, tt)
  after_failure-Capped cap attempt x (some delay) stop_set again h e k =
      (delay_for_attempt-le_cap policy (attempt + 1) cap delay h e, tt)
  after_failure-Capped cap attempt x (some delay) elapsed again h e k =
      Capped-later cap delay again (delay_for_attempt-le_cap policy (attempt + 1) cap delay h e) k

  retry_loop-Capped :
      (cap fuel attempt : ℕ) (t : Tried R)
      → policy.max_delay ≡ some cap
      → Capped cap (retry_loop policy runner waited fuel attempt t)
  unfolding retry_loop
  retry_loop-Capped cap fuel attempt (value r) h = tt
  retry_loop-Capped cap zero attempt (exception x m) h =
      if-case (Capped cap) (should_retry policy m attempt) (λ _. tt) (λ _. tt)
  retry_loop-Capped cap (suc fuel) attempt (exception x m) h =
      if-case (Capped cap) (should_retry policy m attempt)
        (λ _.
          after_failure-Capped cap attempt x (delay_for_attempt policy (attempt + 1))
            (waited (attempt + 1)) _ h refl
            (retry_loop-Capped cap fuel (attempt + 1) (runner (attempt + 1)) h))
        (λ _. tt)

  -- With a maximum delay, no wait of a run passes it, however many attempts fail.
  pub run_with_retry-delays :
      (cap : ℕ) (ended : Ended R)
      → policy.max_delay ≡ some cap
      → run_with_retry policy runner waited ≡ some ended
      → All (λ d. d ≤ cap) ended.delays
  unfolding run_with_retry
  run_with_retry-delays cap ended h e =
      subst (Capped cap) e (retry_loop-Capped cap policy.max_attempts 1 (runner 1) h)
