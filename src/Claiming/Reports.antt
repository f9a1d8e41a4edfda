-- ===== src/Claiming/Reports.antt =====
-- What a call of the platform raises and which of it is tried again (retry_policy.py and
-- `is_plan_limit_error` of plan_limits.py, src/maivn/_internal), and the reports of a claim
-- (`WorkClaimer.report` and `WorkLoop._report` of claiming.py). Durations are milliseconds. The texts
-- that go with an event, and the process that a report names, are left out.
pub mod Backoff
pub mod Endings
use maivn.Prelude.{
  ℕ, ◌*◌, min, String, Bool, true, false, not, ◌||◌, Option, none, some, List, [], ◌∷◌, ◌==◌,
  nat_eq, leb, if◌then◌else◌, Result, ok, err,
}
use maivn.Claiming.{ℤ}
use maivn.Claiming.Usage.{UsageReport}

-- An exception, as the code tells them apart: a `MaivnHTTPError`, with whether it is a
-- `PlanLimitExceededError`, its status and its code; a `TransportError` of httpx, and another
-- `HTTPError` of it; a `ClaimLostError`; the task's cancellation; and the rest.
pub data Raised : Type 0 where
  http_error : Bool → ℕ → Option String → Raised
  transport_error protocol_error claim_lost cancelled other_error : Raised

unfoldable pub is_plan_limit_error : Raised → Bool
is_plan_limit_error (http_error plan_limit status (some code)) =
    plan_limit || (code == "plan_limit_exceeded")
is_plan_limit_error (http_error plan_limit status none) = plan_limit
is_plan_limit_error _ = false

retryable : Raised → Bool
retryable (http_error plan_limit status code) =
    leb 500 status || (nat_eq status 408 || nat_eq status 429)
retryable transport_error = true
retryable _ = false

unfoldable pub is_transient : Raised → Bool
unfolding is_plan_limit_error retryable
is_transient exc = if is_plan_limit_error exc then false else retryable exc

unfoldable pub is_terminal : ℕ → Bool
is_terminal status = nat_eq status 401 || nat_eq status 403

pub data ReportStatus : Type 0 where
  working completed failed abandoned : ReportStatus

pub data ClaimEvent : Type 0 where
  claimed completed_event failed_event released idle unreachable : ClaimEvent

-- The body of a report, and the claim in its path.
pub record Report : Type 0 where
  pub fire_id : String
  pub claim_token : ℤ
  pub status : ReportStatus
  pub output : String
  pub reason : String
  pub usage : Option UsageReport

-- What the loop does to the outside, in order.
pub data Effect : Type 0 where
  posted : Report → Effect
  slept : ℕ → Effect
  emitted : String → ClaimEvent → Effect

-- A post comes back, or raises.
abbrev pub Answer : Type 0
Answer = Result Raised (Unit {0})

-- `WorkClaimer.report`: a conflict is a lost claim.
unfoldable pub report_call : Answer → Answer
report_call (err (http_error plan_limit status code)) =
    if nat_eq status 409 then err claim_lost else err (http_error plan_limit status code)
report_call (err exc) = err exc
report_call (ok _) = ok tt

abbrev pub initial_retry_backoff : ℕ
initial_retry_backoff = 500

abbrev pub max_retry_backoff : ℕ
max_retry_backoff = 8000

abbrev pub max_report_attempts : ℕ
max_report_attempts = 5

-- `range(1, _MAX_REPORT_ATTEMPTS + 1)`
abbrev pub report_attempts : List ℕ
report_attempts = 1 ∷ 2 ∷ 3 ∷ 4 ∷ 5 ∷ []

-- The effects of a call, and the exception that leaves it.
abbrev pub Ran : Type 0
Ran = List Effect × Option Raised

-- `answers` are those to each attempt; `interrupted` says whether the wait after an attempt is
-- cancelled.
module _ (answers : ℕ → Answer) (interrupted : ℕ → Bool) where
  -- One attempt, with what the rest of the loop comes to.
  failed_attempt : Report → ℕ → ℕ → Ran → Raised → Ran
  failed_attempt report attempt delay rest exc =
      if nat_eq attempt max_report_attempts || not (is_transient exc)
      then (posted report ∷ emitted report.fire_id unreachable ∷ [], none)
      else if interrupted attempt
      then (posted report ∷ slept delay ∷ [], some cancelled)
      else (posted report ∷ slept delay ∷ rest.0, rest.1)

  attempt_report : Report → ℕ → ℕ → Ran → Answer → Ran
  unfolding failed_attempt
  attempt_report report attempt delay rest (ok _) = (posted report ∷ [], none)
  attempt_report report attempt delay rest (err claim_lost) =
      (posted report ∷ emitted report.fire_id released ∷ [], none)
  attempt_report report attempt delay rest (err cancelled) = (posted report ∷ [], some cancelled)
  attempt_report report attempt delay rest (err other_error) =
      (posted report ∷ [], some other_error)
  attempt_report report attempt delay rest (err exc) = failed_attempt report attempt delay rest exc

  pub report_loop : Report → List ℕ → ℕ → Ran
  unfolding attempt_report
  report_loop report [] delay = ([], none)
  report_loop report (attempt ∷ attempts) delay =
      let rest = report_loop report attempts (min (delay * 2) max_retry_backoff) in
      attempt_report report attempt delay rest (report_call (answers attempt))

  -- `WorkLoop._report`
  unfoldable pub report_outcome : Report → Ran
  unfolding report_loop
  report_outcome report = report_loop report report_attempts initial_retry_backoff
