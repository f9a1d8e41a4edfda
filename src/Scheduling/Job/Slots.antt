-- ===== src/Scheduling/Job/Slots.antt =====
-- What each operation of the job does to its counters and lists.
use maivn.Prelude.{
  ℕ, ◌+◌, ◌-◌, ◌≤◌, ◌≡◌, refl, String, Bool, true, false, List, [], ◌∷◌, ◌++◌, arith, length,
  length-append, length-drop, is_some, if◌then◌else◌, if-case, nat_eq, ◌&&◌, ◌∙◌, Option, none,
  some,
}
use maivn.Scheduling.Retry.{RunStatus, pending, running}
use maivn.Scheduling.Record.{
  RunRecord, Job, history_limit, settled_count, finish_record, count_status, record_history,
  record_terminal, max_runs_reached,
}
use maivn.Scheduling.Job.{superseded, supersede_all, cancelled_at, finish_all, request_cancellation}

abbrev pub is_terminal : RunStatus → Bool
is_terminal pending = false
is_terminal running = false
is_terminal _ = true

-- A run that holds a slot and has not ended.
abbrev pub is_live : Option RunRecord → Bool
is_live none = false
is_live (some r) = elim (is_some r.finished_at) [ true ↦ false | false ↦ true ]

-- A run that has not ended, as a number.
abbrev pub live_one : Option RunRecord → ℕ
live_one o = if is_live o then 1 else 0

-- The runs of a list that have not ended.
abbrev pub live : List RunRecord → ℕ
live [] = 0
live (r ∷ records) = (if is_some r.finished_at then 0 else 1) + live records

-- `after` is `before` with `n` more runs settled, and the same slots and fires.
pub record Settles (n : ℕ) (before after : Job) : Type 0 where
  pub settled : settled_count after ≡ settled_count before + n
  pub fires : after.fire_count ≡ before.fire_count
  pub overlap : after.max_overlap ≡ before.max_overlap
  pub active : after.active_records ≡ before.active_records

count_status-Settles :
    (j : Job) (status : RunStatus) → is_terminal status ≡ true → Settles 1 j (count_status status j)
unfolding count_status
count_status-Settles j status h = ground arith

history-bounded : (j : Job) (r : RunRecord) → length (record_history j r).history ≤ history_limit
unfolding record_history
history-bounded j r = ground (
  arith,
  length-append j.history (r ∷ []),
  length-drop (length (j.history ++ r ∷ []) - history_limit) (j.history ++ r ∷ []),
)

pub finish_record-queue :
    (j : Job) (r : RunRecord) → (finish_record j r).queued_records ≡ j.queued_records
unfolding finish_record
finish_record-queue j r = ground arith

pub finish_record-Settles :
    (j : Job) (r : RunRecord) → is_terminal r.status ≡ true → Settles 1 j (finish_record j r)
unfolding finish_record
finish_record-Settles j r h = ground arith

-- A finished record leaves a history within its limit.
pub finish_record-bounded :
    (j : Job) (r : RunRecord) → length (finish_record j r).history ≤ history_limit
unfolding finish_record
finish_record-bounded j r =
    if-case (λ (j' : Job). length j'.history ≤ history_limit)
      (max_runs_reached after && nat_eq (settled_count after) after.fire_count)
      (λ _. history-bounded (record_terminal j r) r) (λ _. history-bounded (record_terminal j r) r)
  where
    after : Job
    after = record_history (record_terminal j r) r

pub supersede_all-Settles :
    (now : ℕ) (id : String) (queued : List RunRecord) (j : Job)
    → Settles (length queued) j (supersede_all now id queued j)
unfolding supersede_all
supersede_all-Settles now id [] j = record {
  settled = omega arith;
  fires = refl;
  overlap = refl;
  active = refl;
}
supersede_all-Settles now id (r ∷ queued) j =
    let j' = finish_record (record j { queued_records = queued }) (superseded now id r) in
    let k = supersede_all-Settles now id queued j' in
    let f =
      finish_record-Settles (record j { queued_records = queued }) (superseded now id r) refl in
    record {
      settled = omega (arith, k.settled, f.settled);
      fires = k.fires ∙ f.fires;
      overlap = k.overlap ∙ f.overlap;
      active = k.active ∙ f.active;
    }

pub supersede_all-bounded :
    (now : ℕ) (id : String) (queued : List RunRecord) (j : Job)
    → length j.history ≤ history_limit
    → length (supersede_all now id queued j).history ≤ history_limit
unfolding supersede_all
supersede_all-bounded now id [] j h = h
supersede_all-bounded now id (r ∷ queued) j h =
    supersede_all-bounded now id queued _
      (finish_record-bounded (record j { queued_records = queued }) (superseded now id r))

pub supersede_all-empty :
    (now : ℕ) (id : String) (queued : List RunRecord) (j : Job)
    → (supersede_all now id queued j).queued_records ≡ []
unfolding supersede_all
supersede_all-empty now id [] j = refl
supersede_all-empty now id (r ∷ queued) j = supersede_all-empty now id queued _

pub finish_all-Settles :
    (now : ℕ) (records : List RunRecord) (j : Job)
    → Settles (length records) j (finish_all now records j)
unfolding finish_all
finish_all-Settles now [] j = record {
  settled = omega arith;
  fires = refl;
  overlap = refl;
  active = refl;
}
finish_all-Settles now (r ∷ records) j =
    let k = finish_all-Settles now records (finish_record j (cancelled_at now r)) in
    let f = finish_record-Settles j (cancelled_at now r) refl in
    record {
      settled = omega (arith, k.settled, f.settled);
      fires = k.fires ∙ f.fires;
      overlap = k.overlap ∙ f.overlap;
      active = k.active ∙ f.active;
    }

pub finish_all-bounded :
    (now : ℕ) (records : List RunRecord) (j : Job)
    → length j.history ≤ history_limit
    → length (finish_all now records j).history ≤ history_limit
unfolding finish_all
finish_all-bounded now [] j h = h
finish_all-bounded now (r ∷ records) j h =
    finish_all-bounded now records _ (finish_record-bounded j (cancelled_at now r))

pub finish_all-queue :
    (now : ℕ) (records : List RunRecord) (j : Job)
    → (finish_all now records j).queued_records ≡ j.queued_records
unfolding finish_all
finish_all-queue now [] j = refl
finish_all-queue now (r ∷ records) j =
    finish_all-queue now records _ ∙ finish_record-queue j (cancelled_at now r)

pub live-append : (xs ys : List RunRecord) → live (xs ++ ys) ≡ live xs + live ys
live-append [] ys = omega arith
live-append (x ∷ xs) ys = omega (arith, live-append xs ys)

pub length-request_cancellation :
    (xs : List RunRecord) → length (request_cancellation xs) ≡ length xs
unfolding request_cancellation
length-request_cancellation [] = refl
length-request_cancellation (x ∷ xs) = omega (arith, length-request_cancellation xs)

pub live-request_cancellation : (xs : List RunRecord) → live (request_cancellation xs) ≡ live xs
unfolding request_cancellation
live-request_cancellation [] = refl
live-request_cancellation (x ∷ xs) = omega (arith, live-request_cancellation xs)
