-- ===== src/Scheduling/System/Accounting.antt =====
-- Every fire is accounted for, whatever the threads do.
use mathlib.Core.Path.{subst}
use maivn.Prelude.{
  ℕ, ◌+◌, ◌≡◌, refl, inr, String, Bool, true, List, [], ◌∷◌, ◌++◌, arith, length, length-append,
  All, All-append, ap, ◌∙◌,
}
use maivn.Scheduling.Record.{RunRecord, Job, settled_count, new_record, finish_record}
use maivn.Scheduling.Job.{Claim, claimed, refused, waits, claim_slot}
use maivn.Scheduling.Job.Slots.{is_terminal}
use maivn.Scheduling.Job.Balance.{
  IsLive, IsSound, balance, Moves, finish_record-Moves, cancel_queued_runs-Moves,
}
use maivn.Scheduling.Job.Preparation.{Prepared, prepare_misfire-Prepared, prepare_jitter-Prepared}
use maivn.Scheduling.Job.Balance.Active.{
  begin_record-Moves, complete_record-Moves, release_slot-Releases,
}
use maivn.Scheduling.Job.Balance.Claims.{
  ClaimMoves, claim_slot-Moves, poll_slot-Moves, Moves-trans, stays,
}
use maivn.Scheduling.System.{
  System, Step, fire, prepare, skip_misfire, skip_jitter, claim, refuse, wait, wake, begin,
  complete, abandon, release, cancel, Reach, here, next, finished_now,
}

-- The job keeps its bounds, no record ahead of its claim has ended, and the fires are the runs that
-- are settled, waiting, running, ahead of their claim or lost to an exception.
pub record Inv (s : System) : Type 0 where
  pub sound : IsSound s.job
  pub ahead : All IsLive s.fresh
  pub counted : s.job.fire_count ≡ balance s.job + length s.fresh + s.lost

All-remove :
    (xs ys : List RunRecord) (r : RunRecord)
    → All IsLive (xs ++ r ∷ ys)
    → IsLive r × All IsLive (xs ++ ys)
All-remove [] ys r h = h
All-remove (x ∷ xs) ys r h = let (l, k) = All-remove xs ys r h.1 in (l, (h.0, k))

All-insert :
    (xs ys : List RunRecord) (r : RunRecord)
    → All IsLive (xs ++ ys)
    → IsLive r
    → All IsLive (xs ++ r ∷ ys)
All-insert [] ys r h l = (l, h)
All-insert (x ∷ xs) ys r h l = (h.0, All-insert xs ys r h.1 l)

length-remove :
    (xs ys : List RunRecord) (r : RunRecord) → length (xs ++ r ∷ ys) ≡ length (xs ++ ys) + 1
length-remove [] ys r = omega arith
length-remove (x ∷ xs) ys r = omega (arith, length-remove xs ys r)

-- A fresh record put aside, with the rest of the fresh ones.
record Taken (s : System) (xs ys : List RunRecord) (r : RunRecord) : Type 0 where
  alive : IsLive r
  rest : All IsLive (xs ++ ys)
  count : length s.fresh ≡ length (xs ++ ys) + 1

take_fresh :
    (s : System) (xs ys : List RunRecord) (r : RunRecord)
    → s.fresh ≡ xs ++ r ∷ ys
    → Inv s
    → Taken s xs ys r
take_fresh s xs ys r e i =
    let (l, k) = All-remove xs ys r (subst (All IsLive) e i.ahead) in
    record { alive = l; rest = k; count = ap length e ∙ length-remove xs ys r }

Inv-Moves :
    {n : ℕ} (s : System) (j : Job) (fresh : List RunRecord)
    → Inv s
    → Moves n s.job j
    → All IsLive fresh
    → length s.fresh ≡ length fresh + n
    → Inv (record { job = j; fresh = fresh; lost = s.lost })
Inv-Moves s j fresh i m a l = record {
  sound = m.sound;
  ahead = a;
  counted = m.fires ∙ omega (arith, i.counted, m.balanced);
}

-- A record that is not to go on, finished.
finishes :
    (s : System) (now : ℕ) (xs ys : List RunRecord) (r r' : RunRecord)
    → s.fresh ≡ xs ++ r ∷ ys
    → is_terminal r'.status ≡ true
    → Inv s
    → Inv (record {
      job = finish_record s.job (finished_now now r');
      fresh = xs ++ ys;
      lost = s.lost;
    })
finishes s now xs ys r r' e t i =
    let k = take_fresh s xs ys r e i in
    Inv-Moves s (finish_record s.job (finished_now now r')) (xs ++ ys) i
      (finish_record-Moves s.job (finished_now now r') t i.sound) k.rest k.count

-- A system whose job has made no fire.
pub record IsIdle (j : Job) : Type 0 where
  pub fires : j.fire_count ≡ 0
  pub settled : settled_count j ≡ 0
  pub waiting : j.queued_records ≡ []
  pub active : j.active_records ≡ []
  pub history : j.history ≡ []

IsIdle-Inv : (j : Job) → IsIdle j → Inv (record { job = j; fresh = []; lost = 0 })
IsIdle-Inv j h = record {
  sound = record {
    slots = rw h.active (inr (omega arith));
    bounded = rw h.history (omega arith);
    waiting = rw h.waiting tt;
  };
  ahead = tt;
  counted = rw (h.waiting, h.active) (omega (arith, h.fires, h.settled));
}

-- The step of a fresh record that leaves a claim behind it.
claims :
    (s : System) (now : ℕ) (xs ys : List RunRecord) (r : RunRecord) (o : Claim × Job × RunRecord)
    → s.fresh ≡ xs ++ r ∷ ys
    → claim_slot now s.job r ≡ o
    → Inv s
    → ClaimMoves o.0 s.job o.1 o.2
claims s now xs ys r o e c i =
    subst (λ (o : Claim × Job × RunRecord). ClaimMoves o.0 s.job o.1 o.2) c
      (claim_slot-Moves now s.job r (take_fresh s xs ys r e i).alive i.sound)

new_record-Inv :
    (s : System) (id : String) (at : ℕ) (manual : Bool)
    → Inv s
    → let o = new_record s.job id at manual in
      Inv (record { job = o.0; fresh = s.fresh ++ o.1 ∷ []; lost = s.lost })
unfolding new_record
new_record-Inv s id at manual i =
    let r = (new_record s.job id at manual).1 in
    record {
      sound = record {
        slots = i.sound.slots;
        bounded = i.sound.bounded;
        waiting = i.sound.waiting;
      };
      ahead = All-append IsLive s.fresh (r ∷ []) i.ahead (refl, tt);
      counted = omega (arith, i.counted, length-append s.fresh (r ∷ []));
    }

Step-Inv : {s t : System} → Inv s → Step s t → Inv t
Step-Inv i (fire s id at manual j r e) =
    subst
      (λ (o : Job × RunRecord).
        Inv (record { job = o.0; fresh = s.fresh ++ o.1 ∷ []; lost = s.lost }))
      e (new_record-Inv s id at manual i)
Step-Inv i (prepare s now xs ys r r' e m p) =
    let k = take_fresh s xs ys r e i in
    let o = subst Prepared p (prepare_misfire-Prepared s.job now r k.alive) in
    Inv-Moves s s.job (xs ++ r' ∷ ys) i (stays s.job i.sound) (All-insert xs ys r' k.rest o.alive)
      (omega (arith, k.count, length-remove xs ys r'))
Step-Inv i (skip_misfire s now xs ys r r' e m p) =
    let k = take_fresh s xs ys r e i in
    let o = subst Prepared p (prepare_misfire-Prepared s.job now r k.alive) in
    finishes s now xs ys r r' e (o.stopped refl) i
Step-Inv i (skip_jitter s now skipped stopped xs ys r r' e m p) =
    let k = take_fresh s xs ys r e i in
    let o = subst Prepared p (prepare_jitter-Prepared skipped stopped r k.alive) in
    finishes s now xs ys r r' e (o.stopped refl) i
Step-Inv i (claim s now xs ys r r' j e c) =
    let k = take_fresh s xs ys r e i in
    Inv-Moves s j (xs ++ ys) i (claims s now xs ys r (claimed, j, r') e c i) k.rest k.count
Step-Inv i (refuse s now xs ys r r' j e c) =
    let k = take_fresh s xs ys r e i in
    let m = claims s now xs ys r (refused, j, r') e c i in
    Inv-Moves s (finish_record j (finished_now now r')) (xs ++ ys) i
      (Moves-trans m.0 (finish_record-Moves j (finished_now now r') (ap is_terminal m.1) m.0.sound))
      k.rest k.count
Step-Inv i (wait s now xs ys r r' j e c) =
    let k = take_fresh s xs ys r e i in
    Inv-Moves s j (xs ++ ys) i (claims s now xs ys r (waits, j, r') e c i) k.rest k.count
Step-Inv i (wake s id c j e) =
    Inv-Moves s j s.fresh i
      (subst (λ (o : Claim × Job). Moves 0 s.job o.1) e (poll_slot-Moves s.job id i.sound)) i.ahead
      (omega arith)
Step-Inv i (begin s now id) =
    Inv-Moves s _ s.fresh i (begin_record-Moves now id s.job i.sound) i.ahead (omega arith)
Step-Inv i (complete s now status id t h) =
    Inv-Moves s _ s.fresh i (complete_record-Moves now status id s.job t h i.sound) i.ahead
      (omega arith)
Step-Inv i (abandon s xs ys r e) =
    let k = take_fresh s xs ys r e i in
    record { sound = i.sound; ahead = k.rest; counted = omega (arith, i.counted, k.count) }
Step-Inv i (release s id) =
    let m = release_slot-Releases id s.job i.sound in
    record {
      sound = m.sound;
      ahead = i.ahead;
      counted = m.fires ∙ omega (arith, i.counted, m.balanced);
    }
Step-Inv i (cancel s now) =
    Inv-Moves s _ s.fresh i (cancel_queued_runs-Moves now s.job i.sound) i.ahead (omega arith)

Reach-Inv : {s t : System} → Inv s → Reach s t → Inv t
Reach-Inv i here = i
Reach-Inv i (next steps step) = Step-Inv (Reach-Inv i steps) step

-- From a job that has made no fire, whatever the timer, `trigger_now` and the threads of its runs
-- do: with an overlap bound that is positive, the runs that hold a slot never outnumber it; the
-- history never passes 1000 entries; no waiting run has ended; and the fires are exactly the runs
-- that have been counted as succeeded, failed, skipped or cancelled, that wait in the queue, that
-- hold a slot and have not ended, that have not come to their claim, or that an exception took out
-- of their preparation or of their slot before their end.
pub Reach-accounts :
    (j : Job) (t : System) → IsIdle j → Reach (record { job = j; fresh = []; lost = 0 }) t → Inv t
Reach-accounts j t h steps = Reach-Inv (IsIdle-Inv j h) steps
