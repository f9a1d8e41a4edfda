-- ===== src/Scheduling/Job/Balance/Active.antt =====
-- The operations on the runs that hold a slot.
use mathlib.Core.Path.{subst}
use mathlib.Core.Bool.{false≢true}
use maivn.Prelude.{
  ℕ, ◌+◌, ◌≤◌, ◌≡◌, refl, inl, inr, String, true, some, List, [], ◌∷◌, arith, length, Option-cases,
}
use maivn.Scheduling.Retry.{RunStatus, running}
use maivn.Scheduling.Record.{RunRecord, Job, finish_record}
use maivn.Scheduling.Job.{
  without_record, release_slot, update_active, find_record, begin_record, complete_record,
  settled_at,
}
use maivn.Scheduling.Job.Slots.{
  is_terminal, live, finish_record-Settles, finish_record-bounded, finish_record-queue,
}
use maivn.Scheduling.Job.Slots.{is_live, live_one}
use maivn.Scheduling.Job.Balance.{IsSound, Moves, balance, set_active-IsSound, set_active-Moves}

length-update_active :
    (id : String) (f : RunRecord → RunRecord) (xs : List RunRecord)
    → length (update_active id f xs) ≡ length xs
unfolding update_active
length-update_active id f [] = refl
length-update_active id f (x ∷ xs) = ground (arith, length-update_active id f xs)

abbrev started : ℕ → RunRecord → RunRecord
started now r = record r { status = running; fired_at = some now }

live-started :
    (now : ℕ) (id : String) (xs : List RunRecord)
    → live (update_active id (started now) xs) ≡ live xs
unfolding update_active
live-started now id [] = refl
live-started now id (x ∷ xs) = ground (arith, live-started now id xs)

live-settled :
    (now : ℕ) (status : RunStatus) (id : String) (xs : List RunRecord)
    → is_live (find_record id xs) ≡ true
    → live (update_active id (settled_at now status) xs) + 1 ≡ live xs
unfolding update_active find_record
live-settled now status id [] h = absurd (false≢true h)
live-settled now status id (x ∷ xs) h = ground (arith, live-settled now status id xs)

length-without_record :
    (id : String) (xs : List RunRecord) → length (without_record id xs) ≤ length xs
unfolding without_record
length-without_record id [] = omega arith
length-without_record id (x ∷ xs) = ground (arith, length-without_record id xs)

live-without_record :
    (id : String) (xs : List RunRecord)
    → live (without_record id xs) + live_one (find_record id xs) ≡ live xs
unfolding without_record find_record
live-without_record id [] = refl
live-without_record id (x ∷ xs) = ground (arith, live-without_record id xs)

pub begin_record-Moves :
    (now : ℕ) (id : String) (j : Job) → IsSound j → Moves 0 j (begin_record now id j)
unfolding begin_record
begin_record-Moves now id j s =
    set_active-Moves j (update_active id (started now) j.active_records)
      (omega (arith, length-update_active id (started now) j.active_records))
      (live-started now id j.active_records) s

-- A release takes a run out of the balance if it has not ended, and no other.
pub record Releases (id : String) (before after : Job) : Type 0 where
  pub sound : IsSound after
  pub balanced : balance after + live_one (find_record id before.active_records) ≡ balance before
  pub fires : after.fire_count ≡ before.fire_count

pub release_slot-Releases : (id : String) (j : Job) → IsSound j → Releases id j (release_slot j id)
unfolding release_slot
release_slot-Releases id j s = record {
  sound =
      set_active-IsSound j (without_record id j.active_records)
        (length-without_record id j.active_records) s;
  balanced = omega (arith, live-without_record id j.active_records);
  fires = refl;
}

settle-Moves :
    (j : Job) (xs : List RunRecord) (r : RunRecord)
    → is_terminal r.status ≡ true
    → length xs ≡ length j.active_records
    → live xs + 1 ≡ live j.active_records
    → IsSound j
    → Moves 0 j (finish_record (record j { active_records = xs }) r)
settle-Moves j xs r t l v s =
    let j' : Job = record j { active_records = xs } in
    let m = finish_record-Settles j' r t in
    let q = finish_record-queue j' r in
    record {
      sound = record {
        slots = rw (m.overlap, m.active, l) s.slots;
        bounded = finish_record-bounded j' r;
        waiting = rw q s.waiting;
      };
      balanced = rw (q, m.active) (omega (arith, m.settled, v));
      fires = m.fires;
    }

pub complete_record-Moves :
    (now : ℕ) (status : RunStatus) (id : String) (j : Job)
    → is_terminal status ≡ true
    → is_live (find_record id j.active_records) ≡ true
    → IsSound j
    → Moves 0 j (complete_record now status id j)
unfolding complete_record
complete_record-Moves now status id j t h s =
    elim (Option-cases (find_record id j.active_records)) [
      | inl gone ↦ absurd (false≢true (subst (λ o. is_live o ≡ true) gone h))
      | inr (r, found) ↦
          rw (complete_record, found)
            (settle-Moves j (update_active id (settled_at now status) j.active_records)
              (settled_at now status r) t
              (length-update_active id (settled_at now status) j.active_records)
              (live-settled now status id j.active_records h) s)
    ]
