-- ===== src/Scheduling/Job/Preparation.antt =====
-- What the misfire and jitter checks leave of a record.
use mathlib.Core.Bool.{false≢true}
use maivn.Prelude.{ℕ, ◌-◌, ◌≡◌, refl, Bool, true, false, leb, if-case, sym}
use maivn.Scheduling.Record.{
  RunRecord, Job, prepare_misfire, apply_misfire, prepare_jitter, MisfirePolicy, fire_now, coalesce,
  misfire_grace,
}
use maivn.Scheduling.Job.Slots.{is_terminal}
use maivn.Scheduling.Job.Balance.{IsLive}

-- A record behind a check: it has not ended, and where the check has stopped it, its status is one
-- that it is finished with.
pub record Prepared (o : Bool × RunRecord) : Type 0 where
  pub alive : IsLive o.1
  pub stopped : o.0 ≡ false → is_terminal o.1.status ≡ true

going : (r : RunRecord) → IsLive r → Prepared (true, r)
going r h = record { alive = h; stopped = λ e. absurd (false≢true (sym e)) }

apply_misfire-Prepared :
    (p : MisfirePolicy) (drift : ℕ) (r : RunRecord) → IsLive r → Prepared (apply_misfire p drift r)
unfolding apply_misfire
apply_misfire-Prepared MisfirePolicy.skip drift r h = record { alive = h; stopped = λ e. refl }
apply_misfire-Prepared coalesce drift r h = going _ h
apply_misfire-Prepared fire_now drift r h = going _ h

pub prepare_misfire-Prepared :
    (j : Job) (now : ℕ) (r : RunRecord) → IsLive r → Prepared (prepare_misfire j now r)
unfolding prepare_misfire
prepare_misfire-Prepared j now r h =
    if-case Prepared (leb (now - r.scheduled_at) misfire_grace) (λ _. going r h)
      (λ _. apply_misfire-Prepared j.misfire (now - r.scheduled_at) r h)

pub prepare_jitter-Prepared :
    (skipped stopped : Bool) (r : RunRecord)
    → IsLive r
    → Prepared (prepare_jitter skipped stopped r)
unfolding prepare_jitter
prepare_jitter-Prepared true stopped r h = record { alive = h; stopped = λ e. refl }
prepare_jitter-Prepared false true r h = record { alive = h; stopped = λ e. refl }
prepare_jitter-Prepared false false r h = going r h
