-- ===== src/Scheduling/Tests.antt =====
-- Concrete policies, schedules and jobs.
use maivn.Prelude.{
  inl, ℕ, zero, suc, ◌/◌, ◌≤◌, ◌<◌, refl, ◌↔◌, true, false, none, some, [], ◌∷◌, arith, ◌≡◌,
}
use maivn.Scheduling.Retry.{Retry, linear, Tried, value, exception, elapsed, run_with_retry}
use maivn.Scheduling.Retry.Attempts.{Ends, run_with_retry-Ends}
use maivn.Scheduling.Times.{next_after}
use maivn.Scheduling.Times.Progress.{next_after-interval_iff}
use maivn.Scheduling.Record.{Job, OverlapPolicy, MisfirePolicy, RunRecord, new_record}
use maivn.Scheduling.Job.{history_of, claim_slot}
use maivn.Scheduling.Job.History.{history_of-newest}
use maivn.Scheduling.System.{System, here, next, fire, claim}
use maivn.Scheduling.System.Accounting.{Inv, Reach-accounts}

abbrev a_policy : Retry
a_policy = record {
  max_attempts = 3;
  backoff = linear;
  base = 100;
  exponential_delay = λ _. none;
  max_delay = some 150;
}

-- It fails once with an exception to retry, and then returns.
abbrev a_runner : ℕ → Tried ℕ
a_runner zero = value 0
a_runner (suc zero) = exception "busy" true
a_runner (suc (suc n)) = value 7

run_with_retry-Ends_example :
    Ends a_policy a_runner (λ _. elapsed) 1 3 (run_with_retry a_policy a_runner (λ _. elapsed))
run_with_retry-Ends_example = run_with_retry-Ends a_policy a_runner (λ _. elapsed)

next_after-interval_iff_example : (25 < 30) ↔ (25 / 10 ≤ 25 / 10)
unfolding next_after
next_after-interval_iff_example =
    next_after-interval_iff (λ a b. a / b) 10 0 25 30 (omega arith) (omega arith) refl

abbrev a_job : Job
a_job = record {
  max_runs = none;
  max_overlap = 1;
  overlap_policy = OverlapPolicy.queue;
  misfire = MisfirePolicy.skip;
  is_running = true;
  is_done = false;
  stop_event = false;
  fire_count = 0;
  success_count = 0;
  failure_count = 0;
  skip_count = 0;
  cancelled_count = 0;
  history = [];
  active_records = [];
  queued_records = [];
}

abbrev a_record : RunRecord
a_record = (new_record a_job "f1" 5 false).1

abbrev fired : System
fired = record { job = record a_job { fire_count = 1 }; fresh = a_record ∷ []; lost = 0 }

abbrev claimed_job : Job
claimed_job = record a_job { fire_count = 1; active_records = a_record ∷ [] }

abbrev held : System
held = record { job = claimed_job; fresh = []; lost = 0 }

-- One fire that takes the one slot.
Reach-accounts_example : Inv held
unfolding new_record claim_slot
Reach-accounts_example =
    Reach-accounts a_job held
      (record { fires = refl; settled = refl; waiting = refl; active = refl; history = refl })
      (next
        (next here (
          fire (record { job = a_job; fresh = []; lost = 0 }) "f1" 5 false
            (record a_job { fire_count = 1 }) a_record refl))
        (claim fired 6 [] [] a_record a_record claimed_job refl refl))

-- Two ended runs; the limit 1 shows the newest.
abbrev past_job : Job
past_job = record a_job { history = a_record ∷ record a_record { fire_id = "f2" } ∷ [] }

history_of-newest_example :
    (history_of (some 1) past_job ≡ record a_record { fire_id = "f2" } ∷ [])
    × (history_of (some 0) past_job ≡ past_job.history)
unfolding new_record
history_of-newest_example =
    history_of-newest 0 past_job (a_record ∷ []) (record a_record { fire_id = "f2" } ∷ []) refl
      (inl refl)
