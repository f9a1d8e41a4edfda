-- ===== src/FileWatch/Queue.antt =====
-- The pending events: their ids differ, their number is bounded, and they are delivered in order.
use mathlib.Core.Path.{subst}
use maivn.Prelude.{
  ℕ, suc, ◌≤◌, ◌≡◌, refl, sym, inl, inr, String, false, not, ◌||◌, Option, none, some, List, [],
  ◌∷◌, ◌++◌, ◌==◌, contains, leb, length, length-append, arith, if-case, Bool-cases, eq_iff,
}
use maivn.FileWatch.{
  FileIdentity, LocalFileEvent, Files, FileJournal, find_file, append, ids, baseline, forget,
}
use maivn.FileWatch.Watcher.{
  WatcherConfig, Candidates, Scan, ready, event_of, appended, scan_one, scan_loop, scan, opened,
  scan_start,
}

abbrev pub UniqueIds : List LocalFileEvent → Type 0
UniqueIds [] = Unit
UniqueIds (e ∷ events) = (contains e.event_id (ids events) ≡ false) × UniqueIds events

-- What a watcher keeps of its queue.
pub record Sound (config : WatcherConfig) (pending : List LocalFileEvent) : Type 0 where
  pub unique : UniqueIds pending
  pub bounded : length pending ≤ config.max_pending

contains-snoc :
    (x : String) (events : List LocalFileEvent) (event : LocalFileEvent)
    → contains x (ids (events ++ event ∷ [])) ≡ (contains x (ids events) || (event.event_id == x))
contains-snoc x [] event = ground arith
contains-snoc x (e ∷ events) event = ground (arith, contains-snoc x events event)

UniqueIds-snoc :
    (events : List LocalFileEvent) (event : LocalFileEvent)
    → UniqueIds events
    → contains event.event_id (ids events) ≡ false
    → UniqueIds (events ++ event ∷ [])
UniqueIds-snoc [] event u h = (refl, tt)
UniqueIds-snoc (e ∷ events) event u h = (
  ground (
    arith,
    contains-snoc e.event_id events event,
    u.0,
    eq_iff event.event_id e.event_id,
    eq_iff e.event_id event.event_id,
  ),
  UniqueIds-snoc events event u.1 (ground arith),
)

append_unique :
    (path : String) (identity : FileIdentity) (event : LocalFileEvent) (journal next : FileJournal)
    → append path identity event journal ≡ some next
    → (contains event.event_id (ids journal.pending) ≡ false)
      × (next.pending ≡ journal.pending ++ event ∷ [])
unfolding append
append_unique path identity event journal next h =
    elim (Bool-cases (contains event.event_id (ids journal.pending))) [
      | inl e ↦ absurd (ground (arith, e))
      | inr e ↦ (e, ground (arith, e))
    ]

appended-Sound :
    (config : WatcherConfig) (path : String) (identity : FileIdentity) (event : LocalFileEvent)
    (o : Option FileJournal) (s : Scan)
    → append path identity event s.journal ≡ o
    → leb config.max_pending (length s.journal.pending) ≡ false
    → Sound config s.journal.pending
    → Sound config (appended path o s).journal.pending
appended-Sound config path identity event none s e l h = h
appended-Sound config path identity event (some next) s e l h =
    let (c, q) = append_unique path identity event s.journal next e in
    subst (Sound config) (sym q) (record {
      unique = UniqueIds-snoc s.journal.pending event h.unique c;
      bounded = ground (arith, length-append s.journal.pending (event ∷ []));
    })

scan_one-Sound :
    (config : WatcherConfig) (prior : Files) (now : ℕ) (event_id path : String)
    (identity : FileIdentity) (s : Scan)
    → Sound config s.journal.pending
    → Sound config (scan_one config prior now event_id path identity s).journal.pending
unfolding scan_one
scan_one-Sound config prior now event_id path identity s h =
    let previous = find_file path prior in
    let r = ready config path identity previous now s.candidates in
    let event = event_of event_id path identity previous in
    let P = λ (t : Scan). Sound config t.journal.pending in
    if-case P (not r.0) (λ _. h)
      (λ _.
        if-case P (leb config.max_pending (length s.journal.pending)) (λ _. h)
          (λ l.
            appended-Sound config path identity event (append path identity event s.journal)
              (record s { candidates = r.1 }) refl l h))

scan_loop-Sound :
    (config : WatcherConfig) (prior : Files) (now : ℕ) (uuids : ℕ → String) (n : ℕ) (found : Files)
    (s : Scan)
    → Sound config s.journal.pending
    → Sound config (scan_loop config prior now uuids n found s).journal.pending
unfolding scan_loop
scan_loop-Sound config prior now uuids n [] s h = h
scan_loop-Sound config prior now uuids n ((path, identity) ∷ found) s h =
    if-case (λ (t : Scan). Sound config t.journal.pending) s.raised (λ _. h)
      (λ _.
        scan_loop-Sound config prior now uuids (suc n) found
          (scan_one config prior now (uuids n) path identity s)
          (scan_one-Sound config prior now (uuids n) path identity s h))

pub scan_start-pending :
    (config : WatcherConfig) (found : Files) (journal : FileJournal) (candidates : Candidates)
    → (scan_start config found journal candidates).journal.pending ≡ journal.pending
unfolding baseline forget
scan_start-pending config found journal candidates = ground arith

-- A scan keeps the ids of the pending events different, and their number within the bound.
pub scan-Sound :
    (config : WatcherConfig) (found : Files) (now : ℕ) (uuids : ℕ → String) (journal : FileJournal)
    (candidates : Candidates)
    → Sound config journal.pending
    → Sound config (scan config found now uuids journal candidates).journal.pending
unfolding scan forget
scan-Sound config found now uuids journal candidates h =
    scan_loop-Sound config (opened config found journal).files now uuids 0 found
      (scan_start config found journal candidates)
      (subst (Sound config) (sym (scan_start-pending config found journal candidates)) h)
