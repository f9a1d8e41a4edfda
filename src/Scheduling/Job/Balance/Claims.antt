-- ===== src/Scheduling/Job/Balance/Claims.antt =====
-- The claim of a slot: at once, in the queue, by replacement, or refused.
use mathlib.Core.Path.{subst}
use mathlib.Core.Bool.{false≢true}
use maivn.Prelude.{
  ℕ, ◌+◌, ◌≤◌, ◌≡◌, refl, sym, ◌⊎◌, inl, inr, String, true, not, ◌&&◌, List, [], ◌∷◌, ◌++◌, ◌==◌,
  arith, length, length-append, eq_refl, All, All-append, if-case, ap, ◌∙◌,
}
use maivn.Scheduling.Retry.{skipped_overlap}
use maivn.Scheduling.Record.{RunRecord, Job, OverlapPolicy, queue, replace}
use maivn.Scheduling.Job.{
  request_cancellation, request_replacement, Claim, claimed, refused, waits, poll_head, is_queued,
  poll_slot, enqueue_record, claim_by, claim_slot, has_available_slot, is_nonempty, supersede_all,
}
use maivn.Scheduling.Job.Slots.{
  live, live-append, supersede_all-Settles, supersede_all-bounded, supersede_all-empty,
  length-request_cancellation, live-request_cancellation,
}
use maivn.Scheduling.Job.Balance.{IsLive, IsSound, balance, Moves, set_active-Moves}

live-IsLive : (r : RunRecord) → IsLive r → live (r ∷ []) ≡ 1
live-IsLive r h = ground arith

slots-take :
    (j : Job) (n : ℕ)
    → has_available_slot j ≡ true
    → n ≡ length j.active_records + 1
    → (j.max_overlap ≡ 0) ⊎ (n ≤ j.max_overlap)
unfolding has_available_slot
slots-take j n h e = ground arith

-- A free slot is taken, and the queue becomes `q`.
take_slot-IsSound :
    (j : Job) (q : List RunRecord) (r : RunRecord)
    → has_available_slot j ≡ true
    → All IsLive q
    → IsSound j
    → IsSound (record j { queued_records = q; active_records = j.active_records ++ r ∷ [] })
take_slot-IsSound j q r h w s = record {
  slots =
      slots-take j (length (j.active_records ++ r ∷ [])) h
        (length-append j.active_records (r ∷ []));
  bounded = s.bounded;
  waiting = w;
}

take_slot-balance :
    (j : Job) (q : List RunRecord) (r : RunRecord)
    → IsLive r
    → balance (record j { queued_records = q; active_records = j.active_records ++ r ∷ [] })
        + length j.queued_records
      ≡ balance j + length q + 1
take_slot-balance j q r h = omega (arith, live-append j.active_records (r ∷ []), live-IsLive r h)

enqueue_record-Moves :
    (j : Job) (r : RunRecord) → IsLive r → IsSound j → Moves 1 j (enqueue_record j r)
unfolding enqueue_record
enqueue_record-Moves j r h s = record {
  sound = record {
    slots = s.slots;
    bounded = s.bounded;
    waiting = All-append IsLive j.queued_records (r ∷ []) s.waiting (h, tt);
  };
  balanced = omega (arith, length-append j.queued_records (r ∷ []));
  fires = refl;
}

-- A round of the waiting loop moves no run but from the queue into a slot.
pub stays : (j : Job) → IsSound j → Moves 0 j j
stays j s = record { sound = s; balanced = omega arith; fires = refl }

poll_head-Moves :
    (id : String) (q : List RunRecord) (j : Job)
    → j.queued_records ≡ q
    → IsSound j
    → Moves 0 j (poll_head id q j).1
unfolding poll_head
poll_head-Moves id [] j e s = stays j s
poll_head-Moves id (r ∷ q) j e s =
    if-case (λ (o : Claim × Job). Moves 0 j o.1) (r.fire_id == id)
      (λ _.
        if-case (λ (o : Claim × Job). Moves 0 j o.1) (has_available_slot j)
          (λ h.
            let w = subst (All IsLive) e s.waiting in
            record {
              sound = take_slot-IsSound j q r h w.1 s;
              balanced = omega (arith, take_slot-balance j q r w.0, ap length e);
              fires = refl;
            })
          (λ _. stays j s))
      (λ _. stays j s)

pub poll_slot-Moves : (j : Job) (id : String) → IsSound j → Moves 0 j (poll_slot j id).1
unfolding poll_slot
poll_slot-Moves j id s =
    if-case (λ (o : Claim × Job). Moves 0 j o.1) (is_queued id j.queued_records)
      (λ _. poll_head-Moves id j.queued_records j refl s) (λ _. stays j s)

is_queued-append :
    (id : String) (q : List RunRecord) (r : RunRecord)
    → r.fire_id ≡ id
    → is_queued id (q ++ r ∷ []) ≡ true
unfolding is_queued
is_queued-append id [] r h = ground (arith, ap (λ i. i == id) h, eq_refl id)
is_queued-append id (x ∷ q) r h = ground (arith, is_queued-append id q r h)

-- The record that has just joined the queue is not turned away.
poll_head-not_refused :
    (id : String) (q : List RunRecord) (j : Job)
    → is_queued id q ≡ true
    → ((poll_head id q j).0 ≡ claimed) ⊎ ((poll_head id q j).0 ≡ waits)
unfolding poll_head is_queued
poll_head-not_refused id [] j h = absurd (false≢true h)
poll_head-not_refused id (r ∷ q) j h =
    if-case (λ (o : Claim × Job). (o.0 ≡ claimed) ⊎ (o.0 ≡ waits)) (r.fire_id == id)
      (λ _.
        if-case (λ (o : Claim × Job). (o.0 ≡ claimed) ⊎ (o.0 ≡ waits)) (has_available_slot j)
          (λ _. inl refl) (λ _. inr refl))
      (λ _. inr refl)

poll_slot-not_refused :
    (id : String) (j : Job)
    → is_queued id j.queued_records ≡ true
    → ((poll_slot j id).0 ≡ claimed) ⊎ ((poll_slot j id).0 ≡ waits)
unfolding poll_slot
poll_slot-not_refused id j h = rw h (poll_head-not_refused id j.queued_records j h)

supersede_all-Moves :
    (now : ℕ) (id : String) (j : Job)
    → IsSound j
    → Moves 0 j (supersede_all now id j.queued_records j)
supersede_all-Moves now id j s =
    let k = supersede_all-Settles now id j.queued_records j in
    let q = supersede_all-empty now id j.queued_records j in
    record {
      sound = record {
        slots = rw (k.overlap, k.active) s.slots;
        bounded = supersede_all-bounded now id j.queued_records j s.bounded;
        waiting = rw q tt;
      };
      balanced = rw (q, k.active) (omega (arith, k.settled));
      fires = k.fires;
    }

pub Moves-trans : {m n : ℕ} {a b c : Job} → Moves m a b → Moves n b c → Moves (m + n) a c
Moves-trans f g = record {
  sound = g.sound;
  balanced = omega (arith, f.balanced, g.balanced);
  fires = g.fires ∙ f.fires;
}

request_replacement-Moves :
    (now : ℕ) (j : Job) (r : RunRecord) → IsSound j → Moves 0 j (request_replacement now j r).0
unfolding request_replacement
request_replacement-Moves now j r s =
    let xs = request_cancellation j.active_records in
    let m =
      set_active-Moves j xs (omega (arith, length-request_cancellation j.active_records))
        (live-request_cancellation j.active_records) s in
    Moves-trans m (supersede_all-Moves now r.fire_id (record j { active_records = xs }) m.sound)

replacement-IsLive :
    (now : ℕ) (j : Job) (r : RunRecord) → IsLive r → IsLive (request_replacement now j r).1
unfolding request_replacement
replacement-IsLive now j r h = h

-- A run that has claimed a slot or waits for one is one more that the job accounts for; a refused
-- one stays outside, with the status it is to be finished with.
abbrev pub ClaimMoves : Claim → Job → Job → RunRecord → Type 0
ClaimMoves claimed j j' r = Moves 1 j j'
ClaimMoves waits j j' r = Moves 1 j j'
ClaimMoves refused j j' r = Moves 0 j j' × (r.status ≡ skipped_overlap)

admitted :
    (c : Claim) (j j' : Job) (r : RunRecord)
    → (c ≡ claimed) ⊎ (c ≡ waits)
    → Moves 1 j j'
    → ClaimMoves c j j' r
admitted c j j' r (inl e) m = subst (λ d. ClaimMoves d j j' r) (sym e) m
admitted c j j' r (inr e) m = subst (λ d. ClaimMoves d j j' r) (sym e) m

queued-enqueue_record :
    (j : Job) (r : RunRecord) → is_queued r.fire_id (enqueue_record j r).queued_records ≡ true
unfolding enqueue_record
queued-enqueue_record j r = is_queued-append r.fire_id j.queued_records r refl

-- To join the queue and poll it once, behind what moved no run.
joins :
    (a j : Job) (r r' : RunRecord)
    → IsLive r
    → Moves 0 a j
    → let o = poll_slot (enqueue_record j r) r.fire_id in ClaimMoves o.0 a o.1 r'
joins a j r r' h f =
    let m = enqueue_record-Moves j r h f.sound in
    let o = poll_slot (enqueue_record j r) r.fire_id in
    admitted o.0 a o.1 r'
      (poll_slot-not_refused r.fire_id (enqueue_record j r) (queued-enqueue_record j r))
      (Moves-trans f (Moves-trans m (poll_slot-Moves (enqueue_record j r) r.fire_id m.sound)))

claim_by-Moves :
    (p : OverlapPolicy) (now : ℕ) (j : Job) (r : RunRecord)
    → IsLive r
    → IsSound j
    → let o = claim_by p now j r in ClaimMoves o.0 j o.1 o.2
unfolding claim_by request_replacement
claim_by-Moves OverlapPolicy.skip now j r h s = (stays j s, refl)
claim_by-Moves queue now j r h s = joins j j r r h (stays j s)
claim_by-Moves replace now j r h s =
    let o = request_replacement now j r in
    joins j o.0 o.1 o.1 (replacement-IsLive now j r h) (request_replacement-Moves now j r s)

pub claim_slot-Moves :
    (now : ℕ) (j : Job) (r : RunRecord)
    → IsLive r
    → IsSound j
    → let o = claim_slot now j r in ClaimMoves o.0 j o.1 o.2
unfolding claim_slot
claim_slot-Moves now j r h s =
    if-case (λ (o : Claim × Job × RunRecord). ClaimMoves o.0 j o.1 o.2)
      (has_available_slot j && not (is_nonempty j.queued_records))
      (λ free. record {
        sound = take_slot-IsSound j j.queued_records r (ground arith) s.waiting s;
        balanced = omega (arith, take_slot-balance j j.queued_records r h);
        fires = refl;
      })
      (λ _. claim_by-Moves j.overlap_policy now j r h s)
