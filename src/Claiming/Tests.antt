-- ===== src/Claiming/Tests.antt =====
-- A claim of one piece of work, a platform that fails once, and the loop on them. A float is a
-- natural number here.
use maivn.Prelude.{
  ℕ, zero, suc, ◌≡◌, refl, ◌⊎◌, String, Bool, false, Option, none, some, List, [], ◌∷◌, ◌++◌, ok,
  err, All,
}
use maivn.Claiming.{
  ℤ, pos, negsuc, whole, real, array, Fields, no_fields, field_of, ClaimedWork, claimed_all,
  messages,
}
use maivn.Claiming.Handover.{entries_from, claimed_all-entries_from}
use maivn.Claiming.Usage.{UsageReport, usage_report, usage_token_fields}
use maivn.Claiming.Usage.Counts.{last_count, IsLast, usage_report-IsLast}
use maivn.Claiming.Reports.{
  transport_error, Report, completed, Answer, report_outcome, report_call, is_transient, Effect,
  posted, slept,
}
use maivn.Claiming.Reports.Backoff.{Backed, report_outcome-Backed}
use maivn.Claiming.Reports.Endings.{LeavesReport, report_outcome-LeavesReport, taken_up}
use maivn.Claiming.Loop.{RunScript, plain}
use maivn.Claiming.Loop.Passes.{PassScript, run}
use maivn.Claiming.Loop.Effects.{outcomes}
use maivn.Claiming.Loop.Settling.{Work, fires, dues, Repeated}
use maivn.Claiming.Loop.Run.{offered, run-settles}

abbrev a_work : ClaimedWork ℕ
a_work = record {
  fire_id = "fire-1";
  claim_token = pos 7;
  invocation_id = "inv-1";
  trigger_id = "trig-1";
  agent_id = "agent-1";
  agent_version = pos 2;
  session_id = "session-1";
  root_event_id = "root-1";
  payload = no_fields;
  binding = none;
  claim_until = some "2026-01-01";
}

claimed_all-entries_from_example :
    claimed_all (entries_from (a_work ∷ a_work ∷ [])) ≡ ok (a_work ∷ a_work ∷ [])
claimed_all-entries_from_example =
    claimed_all-entries_from (a_work ∷ a_work ∷ [])
      ((refl, refl, refl, refl, refl, refl), ((refl, refl, refl, refl, refl, refl), tt))

abbrev whole_float : ℕ → Option ℤ
whole_float x = some (pos x)

abbrev some_usage : Fields ℕ
some_usage =
    field_of "cache_read_tokens" (whole (pos 3))
      (field_of "input_tokens" (whole (negsuc 0)) (field_of "input_tokens" (real 5) no_fields))

usage_report-IsLast_example :
    ((usage_report whole_float (λ t. t) some_usage ≡ none)
      × All (λ b. last_count whole_float b some_usage ≡ none) usage_token_fields)
    ⊎ ((r : UsageReport) × (usage_report whole_float (λ t. t) some_usage ≡ some r)
        × All (IsLast whole_float r.counts some_usage) usage_token_fields
        × ((b : String) × (n : ℕ) × (last_count whole_float b some_usage ≡ some n)))
usage_report-IsLast_example = usage_report-IsLast whole_float (λ t. t) some_usage

-- The first attempt does not reach the platform, and the second one does.
abbrev second_answers : ℕ → Answer
second_answers zero = err transport_error
second_answers (suc zero) = err transport_error
second_answers (suc (suc n)) = ok tt

abbrev never : ℕ → Bool
never n = false

abbrev a_report : Report
a_report = record {
  fire_id = "fire-1";
  claim_token = pos 7;
  status = completed;
  output = "done";
  reason = "";
  usage = none;
}

report_outcome-Backed_example :
    Backed second_answers never a_report
      (1 ∷ 2 ∷ 3 ∷ 4 ∷ [])
      500
      (report_outcome second_answers never a_report)
report_outcome-Backed_example = report_outcome-Backed second_answers never a_report

report_outcome-LeavesReport_example :
    LeavesReport second_answers never (report_outcome second_answers never a_report).1
report_outcome-LeavesReport_example = report_outcome-LeavesReport second_answers never a_report

abbrev a_script : RunScript ℕ
a_script = record {
  outcome = plain "done";
  ticks = err transport_error ∷ ok tt ∷ [];
  answers = second_answers;
  interrupted = never;
}

abbrev a_pass : PassScript ℕ
a_pass = record {
  answer = ok (field_of "claims" (array (entries_from (a_work ∷ []))) no_fields);
  scripts = λ _. a_script;
}

abbrev any_float : ℤ → Option ℕ
any_float (pos n) = some n
any_float (negsuc n) = none

abbrev a_run : List Effect
a_run = run whole_float (λ t. t) any_float 2 2 0 (a_pass ∷ a_pass ∷ []) second_answers never

run-settles_example :
    (taken : Work ℕ) × (left : Work ℕ) × (offered any_float 2 (a_pass ∷ a_pass ∷ [])
      ≡ taken ++ left)
    × (taken_up a_run ≡ fires taken)
    × Repeated (dues whole_float (λ t. t) taken) (outcomes a_run)
run-settles_example =
    run-settles whole_float (λ t. t) any_float 2 2 0 (a_pass ∷ a_pass ∷ []) second_answers never

backs_off_once :
    report_outcome second_answers never a_report
    ≡ (posted a_report ∷ slept 500 ∷ posted a_report ∷ [], none)
unfolding report_outcome report_call is_transient
backs_off_once = refl

no_template : messages (λ _. "{}") (λ _. "") (λ _ _. "") a_work ≡ "{}" ∷ []
unfolding messages
no_template = refl
