-- ===== src/Scheduling/Record.antt =====
-- The state of a scheduled job, what prepares a record and what finishes one (`ScheduledJob` of
-- src/maivn/_internal/compat/scheduling.py). The code takes the job's lock in each operation;
-- `_finish_record`, which takes it once for each of its parts, is one step here. A record that waits
-- is in the queue, one that runs is in the active list, and one that has ended is in the history;
-- `fire_id`, a fresh UUID, names it. Threads, events and callbacks are left out.
use maivn.Prelude.{
  ℕ, ◌+◌, ◌-◌, String, Bool, true, false, ◌&&◌, Option, none, some, List, [], ◌∷◌, ◌++◌,
  if◌then◌else◌, leb, ltb, nat_eq, length, drop,
}
use maivn.Scheduling.Retry.{
  RunStatus, pending, running, succeeded, failed, skipped_misfire, skipped_jitter, skipped_overlap,
  cancelled,
}

pub data MisfirePolicy : Type 0 where
  skip fire_now coalesce : MisfirePolicy

pub data OverlapPolicy : Type 0 where
  skip queue replace : OverlapPolicy

-- The entries of `metadata` that the job itself writes are fields here.
pub record RunRecord : Type 0 where
  pub scheduled_at : ℕ
  pub fire_id : String
  pub fired_at : Option ℕ
  pub finished_at : Option ℕ
  pub status : RunStatus
  pub manual : Bool
  pub misfire_drift : Option ℕ
  pub coalesced_drift : Option ℕ
  pub cancellation_requested : Bool
  pub replaces_active_run : Bool
  pub replaced_by : Option String

-- A `max_overlap` of 0 stands for every bound that is not positive: no limit.
pub record Job : Type 0 where
  pub max_runs : Option ℕ
  pub max_overlap : ℕ
  pub overlap_policy : OverlapPolicy
  pub misfire : MisfirePolicy
  pub is_running : Bool
  pub is_done : Bool
  pub stop_event : Bool
  pub fire_count : ℕ
  pub success_count : ℕ
  pub failure_count : ℕ
  pub skip_count : ℕ
  pub cancelled_count : ℕ
  pub history : List RunRecord
  pub active_records : List RunRecord
  pub queued_records : List RunRecord

abbrev pub history_limit : ℕ
history_limit = 1000

abbrev pub misfire_grace : ℕ
misfire_grace = 30_000_000

-- `_new_record`
unfoldable pub new_record : Job → String → ℕ → Bool → Job × RunRecord
new_record j fire_id scheduled_at manual = (
  record j { fire_count = j.fire_count + 1 },
  record {
    scheduled_at = scheduled_at;
    fire_id = fire_id;
    fired_at = none;
    finished_at = none;
    status = pending;
    manual = manual;
    misfire_drift = none;
    coalesced_drift = none;
    cancellation_requested = false;
    replaces_active_run = false;
    replaced_by = none;
  },
)

unfoldable pub apply_misfire : MisfirePolicy → ℕ → RunRecord → Bool × RunRecord
apply_misfire MisfirePolicy.skip drift r =
    (false, record r { status = skipped_misfire; misfire_drift = some drift })
apply_misfire coalesce drift r = (true, record r { coalesced_drift = some drift })
apply_misfire fire_now drift r = (true, r)

-- `_prepare_misfire`; a record that is early has the drift 0 here, within the grace as well.
unfoldable pub prepare_misfire : Job → ℕ → RunRecord → Bool × RunRecord
unfolding apply_misfire
prepare_misfire j now r =
    let drift = now - r.scheduled_at in
    if leb drift misfire_grace then (true, r) else apply_misfire j.misfire drift r

-- `_prepare_jitter`, where the jitter has given whether it overran, and the wait whether the job was
-- stopped in it.
unfoldable pub prepare_jitter : Bool → Bool → RunRecord → Bool × RunRecord
prepare_jitter skipped stopped r =
    if skipped
    then (false, record r { status = skipped_jitter })
    else if stopped
    then (false, record r { status = cancelled })
    else (true, r)

unfoldable pub count_status : RunStatus → Job → Job
count_status succeeded j = record j { success_count = j.success_count + 1 }
count_status failed j = record j { failure_count = j.failure_count + 1 }
count_status skipped_misfire j = record j { skip_count = j.skip_count + 1 }
count_status skipped_jitter j = record j { skip_count = j.skip_count + 1 }
count_status skipped_overlap j = record j { skip_count = j.skip_count + 1 }
count_status cancelled j = record j { cancelled_count = j.cancelled_count + 1 }
count_status pending j = j
count_status running j = j

-- `_record_terminal`; the callbacks are the user's, and their exceptions are suppressed.
unfoldable pub record_terminal : Job → RunRecord → Job
unfolding count_status
record_terminal j r = count_status r.status j

unfoldable pub record_history : Job → RunRecord → Job
record_history j r =
    let grown = j.history ++ r ∷ [] in
    record j {
      history =
          if ltb history_limit (length grown)
          then drop (length grown - history_limit) grown
          else grown;
    }

abbrev pub settled_count : Job → ℕ
settled_count j = j.success_count + j.failure_count + j.skip_count + j.cancelled_count

-- `_max_runs_reached`
unfoldable pub max_runs_reached : Job → Bool
max_runs_reached j = elim j.max_runs [ none ↦ false | some n ↦ leb n j.fire_count ]

end_if_exhausted : Job → Job
unfolding max_runs_reached
end_if_exhausted j =
    if max_runs_reached j && nat_eq (settled_count j) j.fire_count
    then record j { is_done = true; is_running = false; stop_event = true }
    else j

-- `_finish_record`
unfoldable pub finish_record : Job → RunRecord → Job
unfolding record_terminal record_history end_if_exhausted
finish_record j r = end_if_exhausted (record_history (record_terminal j r) r)
