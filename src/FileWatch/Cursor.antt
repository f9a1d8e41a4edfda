-- ===== src/FileWatch/Cursor.antt =====
-- The queue and the cursor advance together, by what was found.
use mathlib.Core.List.{append-nil, append_assoc}
use maivn.Prelude.{
  ℕ, suc, ◌+◌, ◌≡◌, refl, sym, ap, ◌∙◌, inl, inr, String, Bool, true, not, Option, is_some,
  if◌then◌else◌, none, some, List, [], ◌∷◌, ◌++◌, contains, leb, length, length-append, arith,
  if-case, Bool-cases,
}
use maivn.FileWatch.{
  FileIdentity, Operation, created, modified, LocalFileEvent, Files, FileJournal, find_file, cursor,
  append, ids,
}
use maivn.FileWatch.Watcher.{
  WatcherConfig, Candidates, Scan, ready, event_of, appended, scan_one, scan_loop, scan, opened,
  scan_start,
}

-- What a scan adds: an event and the observation that it is of.
pub record Change : Type 0 where
  pub event : LocalFileEvent
  pub identity : FileIdentity

-- What the journal knew of a path says whether its file is created or modified.
abbrev pub operation_of : Files → String → Operation
operation_of prior path = if is_some (find_file path prior) then modified else created

-- The event says what was observed of this path.
pub record Tells (prior : Files) (path : String) (identity : FileIdentity) (c : Change)
    : Type 0 where
  pub of_path : c.event.relative_path ≡ path
  pub of_identity : c.identity ≡ identity
  pub of_size : c.event.size_bytes ≡ identity.size
  pub of_time : c.event.mtime_ns ≡ identity.mtime_ns
  pub of_operation : c.event.operation ≡ operation_of prior path

-- The changes tell of some of the files found, of each at most once and in their order.
pub data Picked (prior : Files) : Files → List Change → Type 0 where
  none_left : Picked prior [] []
  passed :
      {path : String} {identity : FileIdentity} {found : Files} {changes : List Change}
      → Picked prior found changes
      → Picked prior ((path, identity) ∷ found) changes
  picked :
      {path : String} {identity : FileIdentity} {found : Files} {c : Change} {changes : List Change}
      → Tells prior path identity c
      → Picked prior found changes
      → Picked prior ((path, identity) ∷ found) (c ∷ changes)

abbrev pub events_of : List Change → List LocalFileEvent
events_of [] = []
events_of (c ∷ changes) = c.event ∷ events_of changes

pub length-events_of : (changes : List Change) → length (events_of changes) ≡ length changes
length-events_of [] = refl
length-events_of (c ∷ changes) = ap suc (length-events_of changes)

-- The cursor after the changes.
abbrev pub replay : List Change → Files → Files
replay [] files = files
replay (c ∷ changes) files = replay changes (cursor c.event.relative_path c.identity files)

-- From one state of a scan to a later one, over the files found: the events queued are those that
-- moved the cursor, and tell of these files.
pub record Advances (prior found : Files) (before after : Scan) : Type 0 where
  pub changes : List Change
  pub tell : Picked prior found changes
  pub queue : after.journal.pending ≡ before.journal.pending ++ events_of changes
  pub files : after.journal.files ≡ replay changes before.journal.files
  pub count : after.queued ≡ before.queued + length changes

Picked-none : (prior found : Files) → Picked prior found []
Picked-none prior [] = none_left
Picked-none prior ((path, identity) ∷ found) = passed (Picked-none prior found)

stays :
    (prior found : Files) (s : Scan) (candidates : Candidates) (full raised : Bool)
    → Advances prior found s
        (record s { candidates = candidates; queue_full = full; raised = raised })
stays prior found s candidates full raised = record {
  changes = [];
  tell = Picked-none prior found;
  queue = sym (append-nil s.journal.pending);
  files = refl;
  count = omega arith;
}

events_of-append : (xs ys : List Change) → events_of (xs ++ ys) ≡ events_of xs ++ events_of ys
events_of-append [] ys = refl
events_of-append (x ∷ xs) ys = ap (λ l. x.event ∷ l) (events_of-append xs ys)

replay-append :
    (xs ys : List Change) (files : Files) → replay (xs ++ ys) files ≡ replay ys (replay xs files)
replay-append [] ys files = refl
replay-append (x ∷ xs) ys files = replay-append xs ys _

Picked-append :
    (prior : Files) (path : String) (identity : FileIdentity) (found : Files) (xs ys : List Change)
    → Picked prior ((path, identity) ∷ []) xs
    → Picked prior found ys
    → Picked prior ((path, identity) ∷ found) (xs ++ ys)
Picked-append prior path identity found _ ys (passed none_left) k = passed k
Picked-append prior path identity found _ ys (picked t none_left) k = picked t k

Advances-trans :
    (prior : Files) (path : String) (identity : FileIdentity) (found : Files) (a b c : Scan)
    → Advances prior ((path, identity) ∷ []) a b
    → Advances prior found b c
    → Advances prior ((path, identity) ∷ found) a c
Advances-trans prior path identity found a b c h k = record {
  changes = h.changes ++ k.changes;
  tell = Picked-append prior path identity found h.changes k.changes h.tell k.tell;
  queue =
      k.queue
      ∙ (rw (h.queue, events_of-append h.changes k.changes)
          (append_assoc a.journal.pending (events_of h.changes) (events_of k.changes)));
  files =
      k.files
      ∙ ap (replay k.changes) h.files
      ∙ sym (replay-append h.changes k.changes a.journal.files);
  count = omega (arith, h.count, k.count, length-append h.changes k.changes);
}

append-some :
    (path : String) (identity : FileIdentity) (event : LocalFileEvent) (journal next : FileJournal)
    → append path identity event journal ≡ some next
    → (next.pending ≡ journal.pending ++ event ∷ [])
      × (next.files ≡ cursor path identity journal.files)
unfolding append
append-some path identity event journal next h =
    elim (Bool-cases (contains event.event_id (ids journal.pending))) [
      | inl e ↦ absurd (ground (arith, e))
      | inr e ↦ (ground (arith, e), ground (arith, e))
    ]

appended-Advances :
    (prior : Files) (event_id path : String) (identity : FileIdentity) (o : Option FileJournal)
    (s : Scan)
    → append path identity (event_of event_id path identity (find_file path prior)) s.journal ≡ o
    → Advances prior ((path, identity) ∷ []) s (appended path o s)
appended-Advances prior event_id path identity none s e =
    stays prior ((path, identity) ∷ []) s s.candidates s.queue_full true
appended-Advances prior event_id path identity (some next) s e =
    let event = event_of event_id path identity (find_file path prior) in
    let (q, f) = append-some path identity event s.journal next e in
    record {
      changes = record { event = event; identity = identity } ∷ [];
      tell =
          picked
            (record {
              of_path = refl;
              of_identity = refl;
              of_size = refl;
              of_time = refl;
              of_operation = refl;
            })
            none_left;
      queue = q;
      files = f;
      count = omega arith;
    }

scan_one-Advances :
    (config : WatcherConfig) (prior : Files) (now : ℕ) (event_id path : String)
    (identity : FileIdentity) (s : Scan)
    → Advances prior ((path, identity) ∷ []) s (scan_one config prior now event_id path identity s)
unfolding scan_one
scan_one-Advances config prior now event_id path identity s =
    let here = (path, identity) ∷ [] in
    let r = ready config path identity (find_file path prior) now s.candidates in
    let t = record s { candidates = r.1 } in
    let event = event_of event_id path identity (find_file path prior) in
    if-case (Advances prior here s) (not r.0) (λ _. stays prior here s r.1 s.queue_full s.raised)
      (λ _.
        if-case (Advances prior here s) (leb config.max_pending (length s.journal.pending))
          (λ _. stays prior here s r.1 true s.raised)
          (λ _.
            let a =
              appended-Advances prior event_id path identity (append path identity event s.journal)
                t refl in
            record {
              changes = a.changes;
              tell = a.tell;
              queue = a.queue;
              files = a.files;
              count = a.count;
            }))

scan_loop-Advances :
    (config : WatcherConfig) (prior : Files) (now : ℕ) (uuids : ℕ → String) (n : ℕ) (found : Files)
    (s : Scan)
    → Advances prior found s (scan_loop config prior now uuids n found s)
unfolding scan_loop
scan_loop-Advances config prior now uuids n [] s =
    stays prior [] s s.candidates s.queue_full s.raised
scan_loop-Advances config prior now uuids n ((path, identity) ∷ found) s =
    let next = scan_one config prior now (uuids n) path identity s in
    if-case (Advances prior ((path, identity) ∷ found) s) s.raised
      (λ _. stays prior ((path, identity) ∷ found) s s.candidates s.queue_full s.raised)
      (λ _.
        Advances-trans prior path identity found s next _
          (scan_one-Advances config prior now (uuids n) path identity s)
          (scan_loop-Advances config prior now uuids (suc n) found next))

-- After a scan, also one that an exception ended: what was queued, behind what was pending, is an
-- event for some of the files found, in their order and each at most once, with the path, the size
-- and the time that were found, as created where the journal did not know the path and as modified
-- where it did; and the cursor is that of the files still there with exactly these findings put in.
pub scan-Advances :
    (config : WatcherConfig) (found : Files) (now : ℕ) (uuids : ℕ → String) (journal : FileJournal)
    (candidates : Candidates)
    → Advances
        (opened config found journal).files
        found
        (scan_start config found journal candidates)
        (scan config found now uuids journal candidates)
unfolding scan
scan-Advances config found now uuids journal candidates =
    scan_loop-Advances config (opened config found journal).files now uuids 0 found
      (scan_start config found journal candidates)
