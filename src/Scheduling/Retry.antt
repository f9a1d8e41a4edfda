-- ===== src/Scheduling/Retry.antt =====
-- The retry policy and its loop (`Retry` and `_run_with_retry` of
-- src/maivn/_internal/compat/scheduling.py). Delays are microseconds. An exponential delay is the
-- product of a `timedelta` and a power of a float: it is a function of the attempt here, which is
-- `none` where the power or the product raises `OverflowError`.
pub mod Attempts
use maivn.Prelude.{
  ℕ, zero, suc, ◌+◌, ◌-◌, ◌*◌, Bool, true, false, ◌&&◌, Option, none, some, List, [], ◌∷◌,
  if◌then◌else◌, leb, ltb, String,
}

pub data RetryBackoff : Type 0 where
  constant linear exponential : RetryBackoff

pub record Retry : Type 0 where
  pub max_attempts : ℕ
  pub backoff : RetryBackoff
  pub base : ℕ
  pub exponential_delay : ℕ → Option ℕ
  pub max_delay : Option ℕ

cap_delay : Option ℕ → ℕ → ℕ
cap_delay none delay = delay
cap_delay (some limit) delay = if ltb limit delay then limit else delay

-- `timedelta.max`
abbrev pub max_timedelta : ℕ
max_timedelta = 86399999999999999999

-- A `timedelta` times a number; `none` is an `OverflowError`.
scaled : ℕ → ℕ → Option ℕ
scaled base n = if ltb max_timedelta (base * n) then none else some (base * n)

raw_delay : RetryBackoff → Retry → ℕ → Option ℕ
unfolding scaled
raw_delay constant policy attempt = some policy.base
raw_delay linear policy attempt = scaled policy.base (attempt - 1)
raw_delay exponential policy attempt = policy.exponential_delay attempt

-- The delay is capped behind its computation, which may raise.
unfoldable pub delay_for_attempt : Retry → ℕ → Option ℕ
unfolding cap_delay raw_delay
delay_for_attempt policy attempt =
    if leb attempt 1 then some 0 else elim (raw_delay policy.backoff policy attempt) [
      | none ↦ none
      | some delay ↦ some (cap_delay policy.max_delay delay)
    ]

-- What the callable does: a result, or an exception with whether it is an instance of `retry_on`.
pub data Tried (R : Type 0) : Type 0 where
  value : R → Tried R
  exception : String → Bool → Tried R

unfoldable pub should_retry : Retry → Bool → ℕ → Bool
should_retry policy matches attempt = ltb attempt policy.max_attempts && matches

pub data RunStatus : Type 0 where
  pending running succeeded failed skipped_misfire skipped_jitter skipped_overlap cancelled :
      RunStatus

-- What `_stop_event.wait` comes to: the time passes, the job is stopped, or the time is too long for
-- the platform and `OverflowError` is raised.
pub data Waited : Type 0 where
  elapsed stop_set too_long : Waited

-- What the loop leaves in the record: the status, the attempt, the result and the error. Where
-- `overflow` is set, an `OverflowError` left the loop instead of its end.
pub record Ended (R : Type 0) : Type 0 where
  pub status : RunStatus
  pub attempt : ℕ
  pub result : Option R
  pub error : Option String
  pub delays : List ℕ
  pub overflow : Bool

module _ {R : Type 0} where
  prepend_delay : ℕ → Ended R → Ended R
  prepend_delay d e = record e { delays = d ∷ e.delays }

  abbrev pub ended_with : RunStatus → ℕ → Option R → Option String → List ℕ → Ended R
  ended_with status attempt result error delays = record {
    status = status;
    attempt = attempt;
    result = result;
    error = error;
    delays = delays;
    overflow = false;
  }

  -- The record as the exception finds it.
  abbrev pub overflowed : ℕ → List ℕ → Ended R
  overflowed attempt delays = record (ended_with running attempt none none delays) {
    overflow = true;
  }

  -- The delay and the wait behind a failed attempt, and what the loop then comes to.
  after_failure : Option ℕ → Waited → ℕ → String → Option (Ended R) → Option (Ended R)
  unfolding prepend_delay
  after_failure none waited attempt e again = some (overflowed attempt [])
  after_failure (some delay) too_long attempt e again = some (overflowed attempt (delay ∷ []))
  after_failure (some delay) stop_set attempt e again =
      some (ended_with cancelled attempt none (some e) (delay ∷ []))
  after_failure (some delay) elapsed attempt e again = elim again [
    | none ↦ none
    | some ended ↦ some (prepend_delay delay ended)
  ]

  -- `runner` gives the outcome of each attempt, and `waited` what the wait before an attempt comes
  -- to. The callable leaves the record's status alone. The fuel is the attempts that may still
  -- follow.
  unfoldable pub retry_loop :
      Retry → (ℕ → Tried R) → (ℕ → Waited) → ℕ → ℕ → Tried R → Option (Ended R)
  unfolding after_failure
  retry_loop policy runner waited fuel attempt (value r) =
      some (ended_with succeeded attempt (some r) none [])
  retry_loop policy runner waited zero attempt (exception e matches) =
      if should_retry policy matches attempt
      then none
      else some (ended_with failed attempt none (some e) [])
  retry_loop policy runner waited (suc fuel) attempt (exception e matches) =
      let again = retry_loop policy runner waited fuel (attempt + 1) (runner (attempt + 1)) in
      if should_retry policy matches attempt
      then after_failure (delay_for_attempt policy (attempt + 1)) (waited (attempt + 1)) attempt e
          again
      else some (ended_with failed attempt none (some e) [])

  unfoldable pub run_with_retry : Retry → (ℕ → Tried R) → (ℕ → Waited) → Option (Ended R)
  unfolding retry_loop
  run_with_retry policy runner waited =
      retry_loop policy runner waited policy.max_attempts 1 (runner 1)
