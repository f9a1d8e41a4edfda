-- ===== src/Scheduling/Job/Balance.antt =====
-- Every operation of the job keeps its bounds, and moves runs between queue, slots and counters
-- without losing one.
pub mod Active
pub mod Claims
use maivn.Prelude.{
  ℕ, ◌+◌, ◌-◌, ◌≤◌, ◌≡◌, refl, ◌⊎◌, inl, inr, true, none, List, [], arith, length, All,
}
use maivn.Scheduling.Record.{RunRecord, Job, history_limit, settled_count, finish_record}
use maivn.Scheduling.Job.{cancel_queued_runs}
use maivn.Scheduling.Job.Slots.{
  is_terminal, live, finish_record-Settles, finish_record-bounded, finish_record-queue,
  finish_all-Settles, finish_all-bounded, finish_all-queue,
}

abbrev pub IsLive : RunRecord → Type 0
IsLive r = r.finished_at ≡ none

-- The active runs are within the overlap bound, the history within its limit, and no waiting run
-- has ended.
pub record IsSound (j : Job) : Type 0 where
  pub slots : (j.max_overlap ≡ 0) ⊎ (length j.active_records ≤ j.max_overlap)
  pub bounded : length j.history ≤ history_limit
  pub waiting : All IsLive j.queued_records

-- The runs that the job accounts for: settled, waiting and running.
abbrev pub balance : Job → ℕ
balance j = settled_count j + length j.queued_records + live j.active_records

pub record Moves (n : ℕ) (before after : Job) : Type 0 where
  pub sound : IsSound after
  pub balanced : balance after ≡ balance before + n
  pub fires : after.fire_count ≡ before.fire_count

-- A finished record is one more settled run.
pub finish_record-Moves :
    (j : Job) (r : RunRecord)
    → is_terminal r.status ≡ true
    → IsSound j
    → Moves 1 j (finish_record j r)
finish_record-Moves j r t s =
    let k = finish_record-Settles j r t in
    let q = finish_record-queue j r in
    record {
      sound = record {
        slots = rw (k.overlap, k.active) s.slots;
        bounded = finish_record-bounded j r;
        waiting = rw q s.waiting;
      };
      balanced = rw (q, k.active) (omega (arith, k.settled));
      fires = k.fires;
    }

pub cancel_queued_runs-Moves :
    (now : ℕ) (j : Job) → IsSound j → Moves 0 j (cancel_queued_runs now j)
unfolding cancel_queued_runs
cancel_queued_runs-Moves now j s =
    let j' = record j { queued_records = [] } in
    let k = finish_all-Settles now j.queued_records j' in
    let q = finish_all-queue now j.queued_records j' in
    record {
      sound = record {
        slots = rw (k.overlap, k.active) s.slots;
        bounded = finish_all-bounded now j.queued_records j' s.bounded;
        waiting = rw q tt;
      };
      balanced = rw (q, k.active) (omega (arith, k.settled));
      fires = k.fires;
    }

-- Another list of active runs, no longer.
pub set_active-IsSound :
    (j : Job) (xs : List RunRecord)
    → length xs ≤ length j.active_records
    → IsSound j
    → IsSound (record j { active_records = xs })
set_active-IsSound j xs l s = record {
  slots = elim s.slots [ inl free ↦ inl free | inr b ↦ inr (omega arith) ];
  bounded = s.bounded;
  waiting = s.waiting;
}

-- One with as many that have not ended.
pub set_active-Moves :
    (j : Job) (xs : List RunRecord)
    → length xs ≤ length j.active_records
    → live xs ≡ live j.active_records
    → IsSound j
    → Moves 0 j (record j { active_records = xs })
set_active-Moves j xs l e s = record {
  sound = set_active-IsSound j xs l s;
  balanced = omega arith;
  fires = refl;
}
