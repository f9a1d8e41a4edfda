-- ===== src/Scheduling/System.antt =====
-- The threads of a job as interleaved steps. A fire is created by the timer or by `trigger_now`; its
-- thread prepares it, claims a slot or waits for one, runs, finishes and releases the slot
-- (`_execute_record`), and other threads may act between any two of these. `fresh` holds the records
-- that have not come to the claim yet; a step takes any of them, so that this relation allows every
-- order of the code, and more. An exception may leave a thread that prepares its fire, as of the
-- schedule or the jitter, and one that runs, as of the delay before an attempt: then the slot is
-- released without an end of the run, and `lost` counts it.
pub mod Accounting
use maivn.Prelude.{ℕ, ◌+◌, ◌≡◌, String, Bool, true, false, some, List, [], ◌∷◌, ◌++◌}
use maivn.Scheduling.Retry.{RunStatus}
use maivn.Scheduling.Record.{
  RunRecord, Job, new_record, prepare_misfire, prepare_jitter, finish_record,
}
use maivn.Scheduling.Job.{
  Claim, claimed, refused, waits, claim_slot, poll_slot, begin_record, find_record, complete_record,
  release_slot, cancel_queued_runs,
}
use maivn.Scheduling.Job.Slots.{is_terminal, is_live, live_one}

pub record System : Type 0 where
  pub job : Job
  pub fresh : List RunRecord
  pub lost : ℕ

abbrev pub finished_now : ℕ → RunRecord → RunRecord
finished_now now r = record r { finished_at = some now }

pub data Step : System → System → Type 0 where
  fire :
      (s : System) (id : String) (at : ℕ) (manual : Bool) (j : Job) (r : RunRecord)
      → new_record s.job id at manual ≡ (j, r)
      → Step s (record { job = j; fresh = s.fresh ++ r ∷ []; lost = s.lost })
  prepare :
      (s : System) (now : ℕ) (xs ys : List RunRecord) (r r' : RunRecord)
      → s.fresh ≡ xs ++ r ∷ ys
      → r.manual ≡ false
      → prepare_misfire s.job now r ≡ (true, r')
      → Step s (record { job = s.job; fresh = xs ++ r' ∷ ys; lost = s.lost })
  skip_misfire :
      (s : System) (now : ℕ) (xs ys : List RunRecord) (r r' : RunRecord)
      → s.fresh ≡ xs ++ r ∷ ys
      → r.manual ≡ false
      → prepare_misfire s.job now r ≡ (false, r')
      → Step s (record {
        job = finish_record s.job (finished_now now r');
        fresh = xs ++ ys;
        lost = s.lost;
      })
  skip_jitter :
      (s : System) (now : ℕ) (skipped stopped : Bool) (xs ys : List RunRecord) (r r' : RunRecord)
      → s.fresh ≡ xs ++ r ∷ ys
      → r.manual ≡ false
      → prepare_jitter skipped stopped r ≡ (false, r')
      → Step s (record {
        job = finish_record s.job (finished_now now r');
        fresh = xs ++ ys;
        lost = s.lost;
      })
  claim :
      (s : System) (now : ℕ) (xs ys : List RunRecord) (r r' : RunRecord) (j : Job)
      → s.fresh ≡ xs ++ r ∷ ys
      → claim_slot now s.job r ≡ (claimed, j, r')
      → Step s (record { job = j; fresh = xs ++ ys; lost = s.lost })
  refuse :
      (s : System) (now : ℕ) (xs ys : List RunRecord) (r r' : RunRecord) (j : Job)
      → s.fresh ≡ xs ++ r ∷ ys
      → claim_slot now s.job r ≡ (refused, j, r')
      → Step s
          (record { job = finish_record j (finished_now now r'); fresh = xs ++ ys; lost = s.lost })
  wait :
      (s : System) (now : ℕ) (xs ys : List RunRecord) (r r' : RunRecord) (j : Job)
      → s.fresh ≡ xs ++ r ∷ ys
      → claim_slot now s.job r ≡ (waits, j, r')
      → Step s (record { job = j; fresh = xs ++ ys; lost = s.lost })
  wake :
      (s : System) (id : String) (c : Claim) (j : Job)
      → poll_slot s.job id ≡ (c, j)
      → Step s (record { job = j; fresh = s.fresh; lost = s.lost })
  begin :
      (s : System) (now : ℕ) (id : String)
      → Step s (record { job = begin_record now id s.job; fresh = s.fresh; lost = s.lost })
  complete :
      (s : System) (now : ℕ) (status : RunStatus) (id : String)
      → is_terminal status ≡ true
      → is_live (find_record id s.job.active_records) ≡ true
      → Step s
          (record { job = complete_record now status id s.job; fresh = s.fresh; lost = s.lost })
  abandon :
      (s : System) (xs ys : List RunRecord) (r : RunRecord)
      → s.fresh ≡ xs ++ r ∷ ys
      → Step s (record { job = s.job; fresh = xs ++ ys; lost = s.lost + 1 })
  release :
      (s : System) (id : String)
      → Step s (record {
        job = release_slot s.job id;
        fresh = s.fresh;
        lost = s.lost + live_one (find_record id s.job.active_records);
      })
  cancel :
      (s : System) (now : ℕ)
      → Step s (record { job = cancel_queued_runs now s.job; fresh = s.fresh; lost = s.lost })

pub data Reach (s : System) : System → Type 0 where
  here : Reach s s
  next : {t u : System} → Reach s t → Step t u → Reach s u
