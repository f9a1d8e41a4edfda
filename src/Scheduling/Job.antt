-- ===== src/Scheduling/Job.antt =====
-- The slots and the queue of a scheduled job (`ScheduledJob` of
-- src/maivn/_internal/compat/scheduling.py): the claim of a slot under each overlap policy, a run's
-- start, end and release, and the cancellation of the queue, which the code does under the lock and
-- whose records it finishes behind it, in one step here.
pub mod Slots
pub mod Balance
pub mod Preparation
pub mod History
use maivn.Prelude.{
  ℕ, zero, suc, ◌+◌, ◌-◌, String, Bool, true, false, not, ◌&&◌, ◌||◌, Option, none, some, List, [],
  ◌∷◌, ◌++◌, ◌==◌, if◌then◌else◌, ltb, nat_eq, length, drop,
}
use maivn.Scheduling.Retry.{RunStatus, running, skipped_overlap, cancelled}
use maivn.Scheduling.Record.{OverlapPolicy, RunRecord, Job, finish_record, queue, replace}

unfoldable pub has_available_slot : Job → Bool
has_available_slot j = nat_eq j.max_overlap 0 || ltb (length j.active_records) j.max_overlap

pub request_cancellation : List RunRecord → List RunRecord
request_cancellation [] = []
request_cancellation (r ∷ active) =
    record r { cancellation_requested = true } ∷ request_cancellation active

abbrev pub superseded : ℕ → String → RunRecord → RunRecord
superseded now replaced_by r = record r {
  status = cancelled;
  replaced_by = some replaced_by;
  finished_at = some now;
}

-- The loop that empties the queue, each record finished as it leaves.
pub supersede_all : ℕ → String → List RunRecord → Job → Job
supersede_all now replaced_by [] j = record j { queued_records = [] }
supersede_all now replaced_by (r ∷ queued) j =
    supersede_all now replaced_by queued
      (finish_record (record j { queued_records = queued }) (superseded now replaced_by r))

is_nonempty {ℓ} : {A : Type ℓ} → List A → Bool
is_nonempty [] = false
is_nonempty (x ∷ xs) = true

-- `_request_replacement`
unfoldable pub request_replacement : ℕ → Job → RunRecord → Job × RunRecord
unfolding supersede_all is_nonempty
request_replacement now j r =
    let j' = record j { active_records = request_cancellation j.active_records } in
    (
      supersede_all now r.fire_id j.queued_records j',
      record r { replaces_active_run = is_nonempty j.active_records },
    )

-- How a thread leaves the lock of `_claim_slot`.
pub data Claim : Type 0 where
  claimed refused waits : Claim

-- One round of the waiting loop, for the record of the given id: it goes ahead once it heads the
-- queue and a slot is free; a record that has left the queue was cancelled.
poll_head : String → List RunRecord → Job → Claim × Job
poll_head fire_id [] j = (refused, j)
poll_head fire_id (r ∷ queued) j =
    if r.fire_id == fire_id
    then if has_available_slot j
      then (
        claimed,
        record j { queued_records = queued; active_records = j.active_records ++ r ∷ [] },
      )
      else (waits, j)
    else (waits, j)

pub is_queued : String → List RunRecord → Bool
is_queued fire_id [] = false
is_queued fire_id (r ∷ queued) = r.fire_id == fire_id || is_queued fire_id queued

unfoldable pub poll_slot : Job → String → Claim × Job
unfolding poll_head is_queued has_available_slot
poll_slot j fire_id =
    if is_queued fire_id j.queued_records
    then poll_head fire_id j.queued_records j
    else (refused, j)

enqueue_record : Job → RunRecord → Job
enqueue_record j r = record j { queued_records = j.queued_records ++ r ∷ [] }

claim_by : OverlapPolicy → ℕ → Job → RunRecord → Claim × Job × RunRecord
unfolding enqueue_record poll_slot request_replacement
claim_by OverlapPolicy.skip now j r = (refused, j, record r { status = skipped_overlap })
claim_by queue now j r = let (c, j') = poll_slot (enqueue_record j r) r.fire_id in (c, j', r)
claim_by replace now j r =
    let (j', r') = request_replacement now j r in
    let (c, j'') = poll_slot (enqueue_record j' r') r'.fire_id in (c, j'', r')

-- `_claim_slot`, up to the first wait.
unfoldable pub claim_slot : ℕ → Job → RunRecord → Claim × Job × RunRecord
unfolding claim_by has_available_slot is_nonempty
claim_slot now j r =
    if has_available_slot j && not (is_nonempty j.queued_records)
    then (claimed, record j { active_records = j.active_records ++ r ∷ [] }, r)
    else claim_by j.overlap_policy now j r

pub without_record : String → List RunRecord → List RunRecord
without_record fire_id [] = []
without_record fire_id (r ∷ records) =
    if r.fire_id == fire_id then records else r ∷ without_record fire_id records

-- `_release_slot`
unfoldable pub release_slot : Job → String → Job
unfolding without_record
release_slot j fire_id = record j { active_records = without_record fire_id j.active_records }

-- A change to the record of the given id, which the job holds while it runs.
pub update_active : String → (RunRecord → RunRecord) → List RunRecord → List RunRecord
update_active fire_id change [] = []
update_active fire_id change (r ∷ records) =
    if r.fire_id == fire_id then change r ∷ records else r ∷ update_active fire_id change records

pub find_record : String → List RunRecord → Option RunRecord
find_record fire_id [] = none
find_record fire_id (r ∷ records) =
    if r.fire_id == fire_id then some r else find_record fire_id records

-- The start of a run in `_execute_record`, behind the claim of its slot.
unfoldable pub begin_record : ℕ → String → Job → Job
unfolding update_active
begin_record now fire_id j = record j {
  active_records =
      update_active fire_id (λ r. record r { status = running; fired_at = some now })
        j.active_records;
}

abbrev pub settled_at : ℕ → RunStatus → RunRecord → RunRecord
settled_at now status r = record r { status = status; finished_at = some now }

-- The end of a run in `_execute_record`: the retry loop has left a status, and the record is finished
-- while it still holds its slot.
unfoldable pub complete_record : ℕ → RunStatus → String → Job → Job
unfolding update_active find_record
complete_record now status fire_id j = elim (find_record fire_id j.active_records) [
  | none ↦ j
  | some r ↦
      finish_record
        (record j {
          active_records = update_active fire_id (settled_at now status) j.active_records;
        })
        (settled_at now status r)
]

abbrev pub cancelled_at : ℕ → RunRecord → RunRecord
cancelled_at now r = record r { status = cancelled; finished_at = some now }

pub finish_all : ℕ → List RunRecord → Job → Job
finish_all now [] j = j
finish_all now (r ∷ records) j = finish_all now records (finish_record j (cancelled_at now r))

-- `_cancel_queued_runs`: the queue is emptied first, and its records are finished behind the lock.
unfoldable pub cancel_queued_runs : ℕ → Job → Job
unfolding finish_all
cancel_queued_runs now j = finish_all now j.queued_records (record j { queued_records = [] })

-- An index of a Python list, from its start or from its end.
pub data Index : Type 0 where
  from_start from_end : ℕ → Index

-- `-limit` as an index: -0 is 0.
negated : ℕ → Index
negated zero = from_start 0
negated (suc n) = from_end (suc n)

-- `xs[index:]`
pub slice_from : Index → List RunRecord → List RunRecord
slice_from (from_start n) xs = drop n xs
slice_from (from_end n) xs = drop (length xs - n) xs

-- `history(limit=...)`
unfoldable pub history_of : Option ℕ → Job → List RunRecord
unfolding negated slice_from
history_of none j = j.history
history_of (some limit) j = slice_from (negated limit) j.history
