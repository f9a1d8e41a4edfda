-- ===== src/FileWatch/Runs.antt =====
-- The loop of a watcher (`LocalFileWatcher.run`, src/maivn/_internal/local_file_watch.py), and what
-- becomes of the events over all its turns. Each turn takes what the file system shows, the clock,
-- the ids of events and what its requests come to; the turns end where the stop event is set.
use mathlib.Core.Path.{subst}
use mathlib.Core.List.{append-nil, append_assoc}
use maivn.Prelude.{
  ℕ, ◌+◌, ◌≡◌, sym, ap, ◌∙◌, String, Bool, Option, List, [], ◌∷◌, ◌++◌, if◌then◌else◌, length,
  length-append, arith, if-case,
}
use maivn.FileWatch.{LocalFileEvent, Files, FileJournal}
use maivn.FileWatch.Watcher.{WatcherConfig, Candidates, Scan, Delivery, scan, deliver_pending}
use maivn.FileWatch.Queue.{UniqueIds, Sound, scan_start-pending, scan-Sound}
use maivn.FileWatch.Cursor.{events_of, length-events_of, scan-Advances}
use maivn.FileWatch.Sending.{deliver_pending-Delivers}

pub record Turn : Type 0 where
  pub found : Files
  pub now : ℕ
  pub uuids : ℕ → String
  pub answers : ℕ → Option ℕ

-- The watcher, how many events it queued and settled, and whether a scan raised.
pub record LocalFileWatcher : Type 0 where
  pub journal : FileJournal
  pub candidates : Candidates
  pub queued : ℕ
  pub accepted : ℕ
  pub raised : Bool

abbrev pub scan_of : WatcherConfig → Turn → LocalFileWatcher → Scan
scan_of config turn w = scan config turn.found turn.now turn.uuids w.journal w.candidates

abbrev pub observed : Scan → LocalFileWatcher → LocalFileWatcher
observed s w = record w {
  journal = s.journal;
  candidates = s.candidates;
  queued = w.queued + s.queued;
  raised = s.raised;
}

abbrev pub delivered : Delivery → LocalFileWatcher → LocalFileWatcher
delivered d w = record w { journal = d.journal; accepted = w.accepted + d.accepted }

-- The delivery has the batch size that `deliver_pending` has by default.
unfoldable pub run_turn : WatcherConfig → Turn → LocalFileWatcher → LocalFileWatcher
run_turn config turn w =
    let s = scan_of config turn w in
    if s.raised
    then observed s w
    else delivered (deliver_pending turn.answers 100 s.journal) (observed s w)

-- `run`
unfoldable pub run : WatcherConfig → List Turn → LocalFileWatcher → LocalFileWatcher
unfolding run_turn
run config [] w = w
run config (turn ∷ turns) w = if w.raised then w else run config turns (run_turn config turn w)

-- A queue: what was pending, then what was queued, is what was settled, then what still is pending.
pub record Handled (before after : LocalFileWatcher) : Type 0 where
  pub queued : List LocalFileEvent
  pub settled : List LocalFileEvent
  pub queue : before.journal.pending ++ queued ≡ settled ++ after.journal.pending
  pub queued_count : after.queued ≡ before.queued + length queued
  pub accepted_count : after.accepted ≡ before.accepted + length settled

Handled-trans : (a b c : LocalFileWatcher) → Handled a b → Handled b c → Handled a c
Handled-trans a b c h k = record {
  queued = h.queued ++ k.queued;
  settled = h.settled ++ k.settled;
  queue =
      sym (append_assoc a.journal.pending h.queued k.queued)
      ∙ ap (λ l. l ++ k.queued) h.queue
      ∙ append_assoc h.settled b.journal.pending k.queued
      ∙ ap (λ l. h.settled ++ l) k.queue
      ∙ sym (append_assoc h.settled k.settled c.journal.pending);
  queued_count = omega (arith, h.queued_count, k.queued_count, length-append h.queued k.queued);
  accepted_count =
      omega (arith, h.accepted_count, k.accepted_count, length-append h.settled k.settled);
}

observed-Handled :
    (config : WatcherConfig) (turn : Turn) (w : LocalFileWatcher)
    → Handled w (observed (scan_of config turn w) w)
observed-Handled config turn w =
    let h = scan-Advances config turn.found turn.now turn.uuids w.journal w.candidates in
    record {
      queued = events_of h.changes;
      settled = [];
      queue = sym (
          h.queue
          ∙ ap (λ l. l ++ events_of h.changes)
              (scan_start-pending config turn.found w.journal w.candidates));
      queued_count = omega (arith, h.count, length-events_of h.changes);
      accepted_count = omega arith;
    }

delivered-Handled :
    (turn : Turn) (w : LocalFileWatcher)
    → UniqueIds w.journal.pending
    → Handled w (delivered (deliver_pending turn.answers 100 w.journal) w)
delivered-Handled turn w u =
    let h = deliver_pending-Delivers turn.answers 100 w.journal u in
    record {
      queued = [];
      settled = h.settled;
      queue = append-nil w.journal.pending ∙ h.queue;
      queued_count = omega arith;
      accepted_count = omega (arith, h.count);
    }

UniqueIds-suffix : (xs ys : List LocalFileEvent) → UniqueIds (xs ++ ys) → UniqueIds ys
UniqueIds-suffix [] ys u = u
UniqueIds-suffix (x ∷ xs) ys u = UniqueIds-suffix xs ys u.1

Sound-suffix :
    (config : WatcherConfig) (xs ys zs : List LocalFileEvent)
    → zs ≡ xs ++ ys
    → Sound config zs
    → Sound config ys
Sound-suffix config xs ys zs e h = record {
  unique = UniqueIds-suffix xs ys (subst UniqueIds e h.unique);
  bounded = omega (arith, h.bounded, ap length e, length-append xs ys);
}

-- The events are handled as a queue, which stays sound.
abbrev pub Kept : WatcherConfig → LocalFileWatcher → LocalFileWatcher → Type 0
Kept config before after = Handled before after × Sound config after.journal.pending

run_turn-Kept :
    (config : WatcherConfig) (turn : Turn) (w : LocalFileWatcher)
    → Sound config w.journal.pending
    → Kept config w (run_turn config turn w)
unfolding run_turn
run_turn-Kept config turn w h =
    let s = scan_of config turn w in
    let o = observed s w in
    let d = deliver_pending turn.answers 100 s.journal in
    let sound = scan-Sound config turn.found turn.now turn.uuids w.journal w.candidates h in
    let k = deliver_pending-Delivers turn.answers 100 s.journal sound.unique in
    if-case (Kept config w) s.raised (λ _. (observed-Handled config turn w, sound))
      (λ _. (
        Handled-trans w o _ (observed-Handled config turn w)
            (delivered-Handled turn o sound.unique),
        Sound-suffix config k.settled d.journal.pending s.journal.pending k.queue sound,
      ))

unchanged : (w : LocalFileWatcher) → Handled w w
unchanged w = record {
  queued = [];
  settled = [];
  queue = append-nil w.journal.pending;
  queued_count = omega arith;
  accepted_count = omega arith;
}

-- If the ids of the pending events differ and their number is within the bound, this stays so over
-- any number of turns, also if a scan ends the run by raising; and the pending events are a queue:
-- what was pending at first, then all that the scans queued, is all that the deliveries settled,
-- then what is pending at the end. The counts of both, summed over the turns, are the numbers of
-- these.
pub run-Kept :
    (config : WatcherConfig) (turns : List Turn) (w : LocalFileWatcher)
    → Sound config w.journal.pending
    → Kept config w (run config turns w)
unfolding run
run-Kept config [] w h = (unchanged w, h)
run-Kept config (turn ∷ turns) w h =
    let (k, sound) = run_turn-Kept config turn w h in
    let (ks, sounds) = run-Kept config turns (run_turn config turn w) sound in
    if-case (Kept config w) w.raised (λ _. (unchanged w, h))
      (λ _. (Handled-trans w _ _ k ks, sounds))
