-- ===== src/Claiming/Reports/Backoff.antt =====
-- How often a report is sent, what it waits for, and what leaves it.
use maivn.Prelude.{
  ℕ, zero, suc, ◌*◌, ◌<◌, ◌∙◌, ◌⊎◌, inl, inr, some, false, if◌then◌else◌, ◌≤◌, min, ◌≡◌, refl, Bool,
  true, not, ◌||◌, none, List, [], ◌∷◌, ◌++◌, ap, nat_eq, ok, err, arith, take, length, if-case,
  All,
}
use maivn.Claiming.Reports.{
  Raised, http_error, transport_error, protocol_error, claim_lost, cancelled, other_error,
  is_transient, Report, Effect, posted, slept, emitted, Answer, report_call, max_retry_backoff,
  max_report_attempts, initial_retry_backoff, Ran, failed_attempt, attempt_report, report_loop,
  report_outcome,
}

abbrev pub replicate {ℓ} : {A : Type ℓ} → ℕ → A → List A
replicate zero x = []
replicate (suc n) x = x ∷ replicate n x

abbrev pub posts : List Effect → List Report
posts [] = []
posts (posted r ∷ trace) = r ∷ posts trace
posts (_ ∷ trace) = posts trace

-- The posts and waits of a trace, in their order.
abbrev pub calls : List Effect → List Effect
calls [] = []
calls (emitted fire_id event ∷ trace) = calls trace
calls (posted r ∷ trace) = posted r ∷ calls trace
calls (slept d ∷ trace) = slept d ∷ calls trace

-- A report that is sent again so many times, with a wait before each, twice the one before up to
-- the limit; and, where the last wait is cut, with the wait that nothing follows.
abbrev pub sends : Report → Bool → ℕ → ℕ → List Effect
sends report cut zero delay = posted report ∷ (if cut then slept delay ∷ [] else [])
sends report cut (suc n) delay =
    posted report ∷ slept delay ∷ sends report cut n (min (delay * 2) max_retry_backoff)

posts-calls : (trace : List Effect) → posts trace ≡ posts (calls trace)
posts-calls [] = refl
posts-calls (emitted fire_id event ∷ trace) = posts-calls trace
posts-calls (posted r ∷ trace) = ap (λ l. r ∷ l) (posts-calls trace)
posts-calls (slept d ∷ trace) = posts-calls trace

posts-sends :
    (report : Report) (cut : Bool) (n delay : ℕ)
    → posts (sends report cut n delay) ≡ replicate (suc n) report
posts-sends report true zero delay = refl
posts-sends report false zero delay = refl
posts-sends report cut (suc n) delay =
    ap (λ l. report ∷ l) (posts-sends report cut n (min (delay * 2) max_retry_backoff))

module _ (answers : ℕ → Answer) (interrupted : ℕ → Bool) where
  -- The failure of an attempt is one that another attempt may mend.
  abbrev pub Mends : ℕ → Type 0
  Mends attempt =
      (exc : Raised) × (report_call (answers attempt) ≡ err exc) × (is_transient exc ≡ true)

  -- How the sending ends: with a last post, or cancelled in the wait behind one that another
  -- attempt might have mended.
  abbrev pub Stops : Report → List ℕ → ℕ → ℕ → Ran → Type 0
  Stops report attempts delay n r =
      (calls r.0 ≡ sends report false n delay)
      ⊎ ((calls r.0 ≡ sends report true n delay)
          × (n < length attempts)
          × All Mends (take (suc n) attempts)
          × (r.1 ≡ some cancelled))

  -- The same report to each attempt of a prefix and to one more, each but the last having failed in
  -- a way that another may mend, with the waits of a backoff between.
  pub record Backed (report : Report) (attempts : List ℕ) (delay : ℕ) (r : Ran) : Type 0 where
    pub again : ℕ
    pub few : again ≤ length attempts
    pub mended : All Mends (take again attempts)
    pub stops : Stops report attempts delay again r

  once :
      (report : Report) (attempts : List ℕ) (delay : ℕ) (r : Ran)
      → calls r.0 ≡ posted report ∷ []
      → Backed report attempts delay r
  once report attempts delay r e = record {
    again = 0;
    few = omega arith;
    mended = tt;
    stops = inl e;
  }

  later-Stops :
      (report : Report) (attempt : ℕ) (attempts : List ℕ) (delay n : ℕ) (rest : Ran)
      → Mends attempt
      → Stops report attempts (min (delay * 2) max_retry_backoff) n rest
      → Stops report
          (attempt ∷ attempts)
          delay
          (suc n)
          (posted report ∷ slept delay ∷ rest.0, rest.1)
  later-Stops report attempt attempts delay n rest m (inl e) =
      inl (ap (λ l. posted report ∷ slept delay ∷ l) e)
  later-Stops report attempt attempts delay n rest m (inr (e, l, h, c)) =
      inr (ap (λ l. posted report ∷ slept delay ∷ l) e, omega (arith, l), (m, h), c)

  pub Backed-posts :
      {report : Report} {attempts : List ℕ} {delay : ℕ} {r : Ran}
      (h : Backed report attempts delay r)
      → posts r.0 ≡ replicate (suc h.again) report
  Backed-posts {report} {attempts} {delay} {r} h = posts-calls r.0 ∙ (elim h.stops [
    | inl e ↦ ap posts e ∙ posts-sends report false h.again delay
    | inr (e, l, m, c) ↦ ap posts e ∙ posts-sends report true h.again delay
  ])

  failed_attempt-Backed :
      (report : Report) (attempt delay : ℕ) (attempts : List ℕ) (rest : Ran) (exc : Raised)
      → report_call (answers attempt) ≡ err exc
      → Backed report attempts (min (delay * 2) max_retry_backoff) rest
      → Backed report
          (attempt ∷ attempts)
          delay
          (failed_attempt answers interrupted report attempt delay rest exc)
  unfolding failed_attempt
  failed_attempt-Backed report attempt delay attempts rest exc e h =
      let P = Backed report (attempt ∷ attempts) delay in
      if-case P (nat_eq attempt max_report_attempts || not (is_transient exc))
        (λ _. once report (attempt ∷ attempts) delay _ refl)
        (λ t.
          let m : Mends attempt = (exc, e, ground arith) in
          if-case P (interrupted attempt)
            (λ _. record {
              again = 0;
              few = omega arith;
              mended = tt;
              stops = inr (refl, omega arith, (m, tt), refl);
            })
            (λ _. record {
              again = suc h.again;
              few = omega (arith, h.few);
              mended = (m, h.mended);
              stops = later-Stops report attempt attempts delay h.again rest m h.stops;
            }))

  attempt_report-Backed :
      (report : Report) (attempt delay : ℕ) (attempts : List ℕ) (rest : Ran) (a : Answer)
      → report_call (answers attempt) ≡ a
      → Backed report attempts (min (delay * 2) max_retry_backoff) rest
      → Backed report
          (attempt ∷ attempts)
          delay
          (attempt_report answers interrupted report attempt delay rest a)
  unfolding attempt_report
  attempt_report-Backed report attempt delay attempts rest (ok _) e h = once report _ delay _ refl
  attempt_report-Backed report attempt delay attempts rest (err claim_lost) e h =
      once report _ delay _ refl
  attempt_report-Backed report attempt delay attempts rest (err cancelled) e h =
      once report _ delay _ refl
  attempt_report-Backed report attempt delay attempts rest (err other_error) e h =
      once report _ delay _ refl
  attempt_report-Backed report attempt delay attempts rest (err (http_error p s c)) e h =
      failed_attempt-Backed report attempt delay attempts rest (http_error p s c) e h
  attempt_report-Backed report attempt delay attempts rest (err transport_error) e h =
      failed_attempt-Backed report attempt delay attempts rest transport_error e h
  attempt_report-Backed report attempt delay attempts rest (err protocol_error) e h =
      failed_attempt-Backed report attempt delay attempts rest protocol_error e h

  last_attempt-Backed :
      (report : Report) (delay : ℕ) (a : Answer)
      → Backed report [] delay
          (attempt_report answers interrupted report max_report_attempts delay ([], none) a)
  unfolding attempt_report failed_attempt
  last_attempt-Backed report delay (ok _) = once report [] delay _ refl
  last_attempt-Backed report delay (err (http_error p s c)) = once report [] delay _ refl
  last_attempt-Backed report delay (err transport_error) = once report [] delay _ refl
  last_attempt-Backed report delay (err protocol_error) = once report [] delay _ refl
  last_attempt-Backed report delay (err claim_lost) = once report [] delay _ refl
  last_attempt-Backed report delay (err cancelled) = once report [] delay _ refl
  last_attempt-Backed report delay (err other_error) = once report [] delay _ refl

  report_loop-Backed :
      (report : Report) (attempts : List ℕ) (delay : ℕ)
      → Backed report attempts delay
          (report_loop answers interrupted report (attempts ++ max_report_attempts ∷ []) delay)
  unfolding report_loop
  report_loop-Backed report [] delay =
      last_attempt-Backed report delay (report_call (answers max_report_attempts))
  report_loop-Backed report (attempt ∷ attempts) delay =
      attempt_report-Backed report attempt delay attempts _ (report_call (answers attempt)) refl
        (report_loop-Backed report attempts (min (delay * 2) max_retry_backoff))

  -- A report is sent one to five times and always the same. It is sent again only after a failure
  -- that another attempt may mend, and each time behind one wait: 0.5, 1, 2 and 4 seconds, in this
  -- order. The last post ends it, or a cancellation in the wait behind a failure of this kind.
  pub report_outcome-Backed :
      (report : Report)
      → Backed report (1 ∷ 2 ∷ 3 ∷ 4 ∷ []) 500 (report_outcome answers interrupted report)
  unfolding report_outcome
  report_outcome-Backed report =
      report_loop-Backed report (1 ∷ 2 ∷ 3 ∷ 4 ∷ []) initial_retry_backoff
