-- ===== src/Claiming/Reports/Endings.antt =====
-- What a report comes to: the ways for it to end, what leaves it, and which events it has.
use maivn.Prelude.{
  ℕ, ◌*◌, min, ◌≡◌, refl, ◌⊎◌, inl, inr, String, Bool, true, false, not, ◌||◌, Option, none, some,
  List, [], ◌∷◌, nat_eq, if◌then◌else◌, ok, err, if-case,
}
use maivn.Claiming.Reports.{
  Raised, http_error, transport_error, protocol_error, claim_lost, cancelled, other_error,
  is_transient, ClaimEvent, claimed, released, unreachable, Report, Effect, posted, slept, emitted,
  Answer, report_call, max_retry_backoff, max_report_attempts, report_attempts,
  initial_retry_backoff, Ran, failed_attempt, attempt_report, report_loop, report_outcome,
}

module _ (answers : ℕ → Answer) (interrupted : ℕ → Bool) where
  -- The last attempt of a report, with what leaves it and why.
  pub data Ending (report : Report) : Ran → Type 0 where
    delivered : Ending report (posted report ∷ [], none)
    lost : Ending report (posted report ∷ emitted report.fire_id released ∷ [], none)
    given_up : Ending report (posted report ∷ emitted report.fire_id unreachable ∷ [], none)
    left_cancelled :
        (attempt : ℕ)
        → report_call (answers attempt) ≡ err cancelled
        → Ending report (posted report ∷ [], some cancelled)
    left_other :
        (attempt : ℕ)
        → report_call (answers attempt) ≡ err other_error
        → Ending report (posted report ∷ [], some other_error)
    cut :
        (delay attempt : ℕ)
        → interrupted attempt ≡ true
        → Ending report (posted report ∷ slept delay ∷ [], some cancelled)

-- What holds of each ending, and goes on to hold with an attempt and a wait before, holds of a report.
module _ (answers : ℕ → Answer) (interrupted : ℕ → Bool) (report : Report) (P : Ran → Type 0)
    (ends : (r : Ran) → Ending answers interrupted report r → P r)
    (goes_on : (delay : ℕ) (r : Ran) → P r → P (posted report ∷ slept delay ∷ r.0, r.1)) where
  failed_attempt-Holds :
      (attempt delay : ℕ) (rest : Ran) (exc : Raised)
      → P rest
      → P (failed_attempt answers interrupted report attempt delay rest exc)
  unfolding failed_attempt
  failed_attempt-Holds attempt delay rest exc h =
      if-case P (nat_eq attempt max_report_attempts || not (is_transient exc))
        (λ _. ends _ given_up)
        (λ _.
          if-case P (interrupted attempt) (λ c. ends _ (cut delay attempt c))
            (λ _. goes_on delay rest h))

  attempt_report-Holds :
      (attempt delay : ℕ) (rest : Ran) (a : Answer)
      → report_call (answers attempt) ≡ a
      → P rest
      → P (attempt_report answers interrupted report attempt delay rest a)
  unfolding attempt_report
  attempt_report-Holds attempt delay rest (ok _) e h = ends _ delivered
  attempt_report-Holds attempt delay rest (err claim_lost) e h = ends _ lost
  attempt_report-Holds attempt delay rest (err cancelled) e h = ends _ (left_cancelled attempt e)
  attempt_report-Holds attempt delay rest (err other_error) e h = ends _ (left_other attempt e)
  attempt_report-Holds attempt delay rest (err (http_error p s c)) e h =
      failed_attempt-Holds attempt delay rest (http_error p s c) h
  attempt_report-Holds attempt delay rest (err transport_error) e h =
      failed_attempt-Holds attempt delay rest transport_error h
  attempt_report-Holds attempt delay rest (err protocol_error) e h =
      failed_attempt-Holds attempt delay rest protocol_error h

  report_loop-Holds :
      (attempts : List ℕ) (delay : ℕ)
      → P ([], none)
      → P (report_loop answers interrupted report attempts delay)
  unfolding report_loop
  report_loop-Holds [] delay h = h
  report_loop-Holds (attempt ∷ attempts) delay h =
      attempt_report-Holds attempt delay _ (report_call (answers attempt)) refl
        (report_loop-Holds attempts (min (delay * 2) max_retry_backoff) h)

-- What leaves a report: nothing; the task's cancellation, where a call or a wait was cancelled; or
-- an exception that is none of the platform's, where a call raised it.
abbrev pub LeavesReport : (ℕ → Answer) → (ℕ → Bool) → Option Raised → Type 0
LeavesReport answers interrupted o =
    (o ≡ none)
    ⊎ ((o ≡ some cancelled)
        × ((attempt : ℕ) × ((report_call (answers attempt) ≡ err cancelled)
              ⊎ (interrupted attempt ≡ true))))
    ⊎ ((o ≡ some other_error) × ((attempt : ℕ) × (report_call (answers attempt) ≡ err other_error)))

Ending-LeavesReport :
    {answers : ℕ → Answer} {interrupted : ℕ → Bool} {report : Report} (r : Ran)
    → Ending answers interrupted report r
    → LeavesReport answers interrupted r.1
Ending-LeavesReport _ delivered = inl refl
Ending-LeavesReport _ lost = inl refl
Ending-LeavesReport _ given_up = inl refl
Ending-LeavesReport _ (left_cancelled attempt e) = inr (inl (refl, (attempt, inl e)))
Ending-LeavesReport _ (left_other attempt e) = inr (inr (refl, (attempt, e)))
Ending-LeavesReport _ (cut delay attempt c) = inr (inl (refl, (attempt, inr c)))

-- No HTTP status that the platform answers, no failure of the transport, no other error of httpx
-- and no lost claim leaves a report. What leaves it is the task's cancellation, and only where a
-- call or a wait was cancelled, or an exception of another kind, and only where a call raised it.
pub report_outcome-LeavesReport :
    (answers : ℕ → Answer) (interrupted : ℕ → Bool) (report : Report)
    → LeavesReport answers interrupted (report_outcome answers interrupted report).1
unfolding report_outcome
report_outcome-LeavesReport answers interrupted report =
    report_loop-Holds answers interrupted report (λ r. LeavesReport answers interrupted r.1)
      Ending-LeavesReport (λ _ r h. h) report_attempts initial_retry_backoff (inl refl)

abbrev pub is_claimed : ClaimEvent → Bool
is_claimed claimed = true
is_claimed _ = false

-- The claims that the loop takes up.
abbrev pub taken_up : List Effect → List String
taken_up [] = []
taken_up (emitted fire_id event ∷ trace) =
    if is_claimed event then fire_id ∷ taken_up trace else taken_up trace
taken_up (_ ∷ trace) = taken_up trace

Ending-taken_up :
    {answers : ℕ → Answer} {interrupted : ℕ → Bool} {report : Report} (r : Ran)
    → Ending answers interrupted report r
    → taken_up r.0 ≡ []
Ending-taken_up _ delivered = refl
Ending-taken_up _ lost = refl
Ending-taken_up _ given_up = refl
Ending-taken_up _ (left_cancelled attempt e) = refl
Ending-taken_up _ (left_other attempt e) = refl
Ending-taken_up _ (cut delay attempt c) = refl

-- No report takes a claim up.
pub report_outcome-taken_up :
    (answers : ℕ → Answer) (interrupted : ℕ → Bool) (report : Report)
    → taken_up (report_outcome answers interrupted report).0 ≡ []
unfolding report_outcome
report_outcome-taken_up answers interrupted report =
    report_loop-Holds answers interrupted report (λ r. taken_up r.0 ≡ []) Ending-taken_up
      (λ _ r h. h) report_attempts initial_retry_backoff refl
