-- ===== src/FileWatch/Sending.antt =====
-- What `deliver_pending` of src/maivn/_internal/local_file_watch.py sends and settles.
use mathlib.Core.Path.{subst}
use mathlib.Core.List.{append-nil, append_assoc}
use maivn.Prelude.{
  ℕ, zero, suc, ◌+◌, ◌≡◌, refl, sym, ap, ◌∙◌, inl, inr, String, true, false, not, Option, none,
  List, [], ◌∷◌, ◌++◌, ◌==◌, if◌then◌else◌, contains, keep, length, arith, Bool-cases, eq_refl,
}
use maivn.FileWatch.{LocalFileEvent, FileJournal, ids, first, settle}
use maivn.FileWatch.Watcher.{Delivery, is_accepted, deliver_loop, deliver_pending}
use maivn.FileWatch.Queue.{UniqueIds}

-- The platform accepted each of these, from the request with this number on.
abbrev pub AllAccepted : (ℕ → Option ℕ) → ℕ → List LocalFileEvent → Type 0
AllAccepted answers n [] = Unit
AllAccepted answers n (e ∷ events) =
    (is_accepted (answers n) ≡ true) × AllAccepted answers (suc n) events

-- Why a delivery ended: its batch is full, nothing is pending, or the platform did not accept the
-- event that is now the oldest.
pub data Ending (answers : ℕ → Option ℕ) (n : ℕ) (settled : List LocalFileEvent) (after : Delivery)
    : List LocalFileEvent → Type 0 where
  batch_full : length settled ≡ n → Ending answers n settled after []
  drained : after.journal.pending ≡ [] → Ending answers n settled after []
  refused :
      (event : LocalFileEvent) (events : List LocalFileEvent)
      → after.journal.pending ≡ event ∷ events
      → is_accepted (answers after.accepted) ≡ false
      → after.status ≡ answers after.accepted
      → Ending answers n settled after (event ∷ [])

pub record Delivers (answers : ℕ → Option ℕ) (n : ℕ) (before after : Delivery) : Type 0 where
  pub settled : List LocalFileEvent
  pub last : List LocalFileEvent
  pub all : AllAccepted answers before.accepted settled
  pub queue : before.journal.pending ≡ settled ++ after.journal.pending
  pub count : after.accepted ≡ before.accepted + length settled
  pub sent : after.sent ≡ before.sent ++ (settled ++ last)
  pub files : after.journal.files ≡ before.journal.files
  pub ending : Ending answers n settled after last

keep-absent :
    (x : String) (events : List LocalFileEvent)
    → contains x (ids events) ≡ false
    → keep (λ e. not (e.event_id == x)) events ≡ events
keep-absent x [] h = refl
keep-absent x (e ∷ events) h = ground (arith, keep-absent x events)

settle-first :
    (event : LocalFileEvent) (events : List LocalFileEvent)
    → UniqueIds (event ∷ events)
    → keep (λ e. not (e.event_id == event.event_id)) (event ∷ events) ≡ events
settle-first event events (h, u) =
    ground (arith, eq_refl event.event_id, keep-absent event.event_id events h)

abbrev tried : (ℕ → Option ℕ) → LocalFileEvent → Delivery → Delivery
tried answers event d = record d { status = answers d.accepted; sent = d.sent ++ event ∷ [] }

abbrev accepted_one : (ℕ → Option ℕ) → LocalFileEvent → Delivery → Delivery
unfolding settle
accepted_one answers event d = record (tried answers event d) {
  journal = settle event.event_id d.journal;
  accepted = d.accepted + 1;
}

deliver-drained :
    (answers : ℕ → Option ℕ) (n : ℕ) (d : Delivery)
    → d.journal.pending ≡ []
    → deliver_loop answers (suc n) d ≡ d
unfolding deliver_loop first
deliver-drained answers n d h = rw h refl

deliver-pending :
    (answers : ℕ → Option ℕ) (n : ℕ) (d : Delivery) (event : LocalFileEvent)
    (events : List LocalFileEvent)
    → d.journal.pending ≡ event ∷ events
    → deliver_loop answers (suc n) d ≡ (
        if not (is_accepted (answers d.accepted))
        then tried answers event d
        else deliver_loop answers n (accepted_one answers event d))
unfolding deliver_loop first settle
deliver-pending answers n d event events h = rw h refl

accepted_one-pending :
    (answers : ℕ → Option ℕ) (d : Delivery) (event : LocalFileEvent) (events : List LocalFileEvent)
    → d.journal.pending ≡ event ∷ events
    → UniqueIds (event ∷ events)
    → (accepted_one answers event d).journal.pending ≡ events
unfolding settle
accepted_one-pending answers d event events h u =
    ap (keep (λ e. not (e.event_id == event.event_id))) h ∙ settle-first event events u

nothing :
    (answers : ℕ → Option ℕ) (n : ℕ) (d : Delivery)
    → Ending answers n [] d []
    → Delivers answers n d d
nothing answers n d ending = record {
  settled = [];
  last = [];
  all = tt;
  queue = refl;
  count = omega arith;
  sent = sym (append-nil d.sent);
  files = refl;
  ending = ending;
}

refusal :
    (answers : ℕ → Option ℕ) (n : ℕ) (d : Delivery) (event : LocalFileEvent)
    (events : List LocalFileEvent)
    → d.journal.pending ≡ event ∷ events
    → is_accepted (answers d.accepted) ≡ false
    → Delivers answers n d (tried answers event d)
refusal answers n d event events h r = record {
  settled = [];
  last = event ∷ [];
  all = tt;
  queue = refl;
  count = omega arith;
  sent = refl;
  files = refl;
  ending = refused event events h r refl;
}

Ending-suc :
    (answers : ℕ → Option ℕ) (n : ℕ) (event : LocalFileEvent) (settled last : List LocalFileEvent)
    (after : Delivery)
    → Ending answers n settled after last
    → Ending answers (suc n) (event ∷ settled) after last
Ending-suc answers n event settled _ after (batch_full e) = batch_full (ground arith)
Ending-suc answers n event settled _ after (drained e) = drained e
Ending-suc answers n event settled _ after (refused e es p r s) = refused e es p r s

Delivers-one :
    (answers : ℕ → Option ℕ) (n : ℕ) (d after : Delivery) (event : LocalFileEvent)
    (events : List LocalFileEvent)
    → d.journal.pending ≡ event ∷ events
    → UniqueIds (event ∷ events)
    → is_accepted (answers d.accepted) ≡ true
    → Delivers answers n (accepted_one answers event d) after
    → Delivers answers (suc n) d after
unfolding settle
Delivers-one answers n d after event events h u a k = record {
  settled = event ∷ k.settled;
  last = k.last;
  all = (a, subst (λ i. AllAccepted answers i k.settled) (omega arith) k.all);
  queue = h ∙ ap (λ l. event ∷ l) (sym (accepted_one-pending answers d event events h u) ∙ k.queue);
  count = omega (arith, k.count);
  sent = k.sent ∙ append_assoc d.sent (event ∷ []) (k.settled ++ k.last);
  files = k.files;
  ending = Ending-suc answers n event k.settled k.last after k.ending;
}

deliver_loop-Delivers :
    (answers : ℕ → Option ℕ) (n : ℕ) (d : Delivery) (events : List LocalFileEvent)
    → d.journal.pending ≡ events
    → UniqueIds events
    → Delivers answers n d (deliver_loop answers n d)
unfolding deliver_loop
deliver_loop-Delivers answers zero d events h u = nothing answers zero d (batch_full refl)
deliver_loop-Delivers answers (suc n) d [] h u =
    subst (Delivers answers (suc n) d) (sym (deliver-drained answers n d h))
      (nothing answers (suc n) d (drained h))
deliver_loop-Delivers answers (suc n) d (event ∷ events) h u =
    subst (Delivers answers (suc n) d) (sym (deliver-pending answers n d event events h))
      (elim (Bool-cases (is_accepted (answers d.accepted))) [
        | inl a ↦ rw a (
            Delivers-one answers n d _ event events h u a (
              deliver_loop-Delivers answers n (accepted_one answers event d) events
                (accepted_one-pending answers d event events h u) u.1))
        | inr a ↦ rw a (refusal answers (suc n) d event events h a)
      ])

-- The start of `deliver_pending`.
abbrev pub delivery_start : FileJournal → Delivery
delivery_start journal = record { journal = journal; accepted = 0; status = none; sent = [] }

-- If the ids of the pending events differ: a delivery settles the oldest of them, in order, each
-- answered with 202; what was pending is what it settled and then what still is; what it sent is
-- what it settled and at most the oldest that still is pending; the cursor stays; and it ends only
-- with a full batch, with nothing pending, or at an event that was sent and not accepted.
pub deliver_pending-Delivers :
    (answers : ℕ → Option ℕ) (max_events : ℕ) (journal : FileJournal)
    → UniqueIds journal.pending
    → Delivers answers max_events
        (delivery_start journal)
        (deliver_pending answers max_events journal)
unfolding deliver_pending
deliver_pending-Delivers answers max_events journal u =
    deliver_loop-Delivers answers max_events (delivery_start journal) journal.pending refl u
