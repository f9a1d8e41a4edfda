-- ===== src/Claiming/Loop.antt =====
-- The work loop (`WorkClaimer.claim` and `WorkLoop` of src/maivn/_internal/claiming.py). What the
-- platform, the runner and the clock do is a script; `F` is the type of Python's floats. A new
-- identity of the process (`rebind`) is left out with the identity.
pub mod Passes
pub mod Effects
pub mod Settling
pub mod Rounds
pub mod Run
use maivn.Prelude.{
  ℕ, suc, String, Bool, true, false, Option, none, some, List, [], ◌∷◌, ◌++◌, if◌then◌else◌, ok,
  err,
}
use maivn.Claiming.{ℤ, Fields, ClaimedWork}
use maivn.Claiming.Usage.{UsageReport, usage_report}
use maivn.Claiming.Reports.{
  Raised, http_error, transport_error, protocol_error, cancelled, ReportStatus, working, completed,
  failed, abandoned, ClaimEvent, claimed, completed_event, failed_event, unreachable, Report,
  Effect, posted, slept, emitted, Answer, report_call, Ran, report_outcome,
}

-- What the runner does with the work: a `RunReport`, a text, `None`, an exception, by the text that
-- it has, or the task is cancelled before the keep-alive task has ended.
pub data RunnerOutcome {ℓ} (F : Type ℓ) : Type ℓ where
  run_report : String → Option (Fields F) → RunnerOutcome F
  plain : String → RunnerOutcome F
  nothing : RunnerOutcome F
  raised : String → RunnerOutcome F
  stopped : RunnerOutcome F

-- One piece of work: its run, the answers to the keep-alive reports meanwhile, and those to the
-- attempts of its report, with the waits between that are cancelled.
pub record RunScript {ℓ} (F : Type ℓ) : Type ℓ where
  pub outcome : RunnerOutcome F
  pub ticks : List Answer
  pub answers : ℕ → Answer
  pub interrupted : ℕ → Bool

-- The loop between two effects: the exception that leaves, and the claim that it holds.
pub record Passed {ℓ} (F : Type ℓ) : Type ℓ where
  pub trace : List Effect
  pub held : Option (ClaimedWork F)
  pub leaves : Option Raised

abbrev pub keepalive_interval : ℕ
keepalive_interval = 40000

abbrev pub working_report {ℓ} : {F : Type ℓ} → ClaimedWork F → Report
working_report work = record {
  fire_id = work.fire_id;
  claim_token = work.claim_token;
  status = working;
  output = "";
  reason = "";
  usage = none;
}

module _ {ℓ} {F : Type ℓ} where
  after_tick : ClaimedWork F → List Effect → Answer → List Effect
  after_tick work rest (ok _) = rest
  after_tick work rest (err (http_error _ _ _)) = emitted work.fire_id unreachable ∷ rest
  after_tick work rest (err transport_error) = emitted work.fire_id unreachable ∷ rest
  after_tick work rest (err protocol_error) = emitted work.fire_id unreachable ∷ rest
  after_tick work rest (err _) = []

  -- `_keep_alive`, up to the end of the run.
  pub keep_alive : ClaimedWork F → List Answer → List Effect
  unfolding after_tick
  keep_alive work [] = []
  keep_alive work (answer ∷ ticks) =
      slept keepalive_interval
      ∷ posted (working_report work)
      ∷ after_tick work (keep_alive work ticks) (report_call answer)

-- The event after a report that no exception leaves.
pub then_emit : String → ClaimEvent → Ran → Ran
then_emit fire_id event (trace, none) = (trace ++ emitted fire_id event ∷ [], none)
then_emit fire_id event (trace, some exc) = (trace, some exc)

module _ {ℓ} {F : Type ℓ} where
  abbrev pub outcome_report :
      ClaimedWork F → ReportStatus → String → String → Option UsageReport → Report
  outcome_report work status output reason usage = record {
    fire_id = work.fire_id;
    claim_token = work.claim_token;
    status = status;
    output = output;
    reason = reason;
    usage = usage;
  }

  abbrev pub settled_event : RunnerOutcome F → ClaimEvent
  settled_event (raised reason) = failed_event
  settled_event _ = completed_event

  is_stopped : RunnerOutcome F → Bool
  is_stopped stopped = true
  is_stopped _ = false

  abbrev pub followed : Passed F → Passed F → Passed F
  followed first next = elim first.leaves [
    | none ↦ record next { trace = first.trace ++ next.trace }
    | some exc ↦ first
  ]

  abbrev pub pair_with :
      List (ClaimedWork F) → ℕ → (ℕ → RunScript F) → List (ClaimedWork F × RunScript F)
  pair_with [] n scripts = []
  pair_with (work ∷ works) n scripts = (work, scripts n) ∷ pair_with works (suc n) scripts

module _ {ℓ} {F : Type ℓ} (as_integer : F → Option ℤ) (strip : String → String) where
  reported_usage : Option (Fields F) → Option UsageReport
  reported_usage none = none
  reported_usage (some usage) = usage_report as_integer strip usage

  -- The report that the outcome calls for; that of a run that is cancelled is `_release_held`'s.
  pub due_report : ClaimedWork F → RunnerOutcome F → Report
  unfolding reported_usage
  due_report work (run_report output usage) =
      outcome_report work completed output "" (reported_usage usage)
  due_report work (plain output) = outcome_report work completed output "" none
  due_report work nothing = outcome_report work completed "" "" none
  due_report work (raised reason) = outcome_report work failed "" reason none
  due_report work stopped = outcome_report work abandoned "" "serving process stopped" none

  abbrev settle : ClaimedWork F → RunScript F → Ran
  settle work script =
      then_emit work.fire_id (settled_event script.outcome)
        (report_outcome script.answers script.interrupted (due_report work script.outcome))

  -- `_perform`
  pub perform : ClaimedWork F → RunScript F → Passed F
  unfolding keep_alive due_report then_emit is_stopped
  perform work script =
      let begun = emitted work.fire_id claimed ∷ keep_alive work script.ticks in
      if is_stopped script.outcome
      then record { trace = begun; held = some work; leaves = some cancelled }
      else let (trace, leaves) = settle work script in
        record { trace = begun ++ trace; held = none; leaves = leaves }

  -- The work of one claim in order, each with its script.
  pub perform_all : List (ClaimedWork F × RunScript F) → Passed F
  unfolding perform
  perform_all [] = record { trace = []; held = none; leaves = none }
  perform_all ((work, script) ∷ works) = followed (perform work script) (perform_all works)
