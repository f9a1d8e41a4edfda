-- ===== src/FileWatch/Watcher.antt =====
-- The scan and the delivery of a watcher (`LocalFileWatcher`, src/maivn/_internal/local_file_watch.py).
-- What the file system shows is an argument, in the order of its paths; so are the clock, the
-- unique ids of events, and what a request comes to: a status, or an exception that is caught.
use maivn.Prelude.{
  ℕ, zero, suc, ◌+◌, String, Bool, true, false, not, ◌&&◌, ◌||◌, Option, none, some, List, [], ◌∷◌,
  ◌++◌, ◌==◌, if◌then◌else◌, contains, keep, leb, nat_eq, length, map, is_some,
}
use maivn.FileWatch.{
  FileIdentity, created, modified, LocalFileEvent, Files, FileJournal, find_file, baseline, forget,
  append, first, settle,
}

pub record WatcherConfig : Type 0 where
  pub quiet : ℕ
  pub has_suffix : Bool
  pub emit_existing : Bool
  pub max_pending : ℕ

abbrev pub Candidates : Type 0
Candidates = List (String × (FileIdentity × ℕ))

-- The state of a scan: the journal, the quiet candidates, what was queued and whether an event
-- found the queue full; `raised` is an exception out of the journal.
pub record Scan : Type 0 where
  pub journal : FileJournal
  pub candidates : Candidates
  pub queued : ℕ
  pub queue_full : Bool
  pub raised : Bool

find_candidate : String → Candidates → Option (FileIdentity × ℕ)
find_candidate path [] = none
find_candidate path ((p, c) ∷ candidates) =
    if p == path then some c else find_candidate path candidates

pub pop : String → Candidates → Candidates
pop path candidates = keep (λ c. not (c.0 == path)) candidates

set_candidate : String → FileIdentity × ℕ → Candidates → Candidates
set_candidate path c [] = (path, c) ∷ []
set_candidate path c ((p, d) ∷ candidates) =
    if p == path then (p, c) ∷ candidates else (p, d) ∷ set_candidate path c candidates

abbrev same_content : FileIdentity → Option FileIdentity → Bool
same_content identity none = false
same_content identity (some previous) =
    nat_eq previous.size identity.size && nat_eq previous.mtime_ns identity.mtime_ns

abbrev same_marker : FileIdentity → Option FileIdentity → Bool
same_marker identity none = false
same_marker identity (some previous) = identity.marker == previous.marker

abbrev same_identity : FileIdentity → FileIdentity → Bool
same_identity a b = nat_eq a.size b.size && (nat_eq a.mtime_ns b.mtime_ns && (a.marker == b.marker))

observe : ℕ → String → FileIdentity → ℕ → Candidates → Option (FileIdentity × ℕ) → Bool × Candidates
unfolding set_candidate
observe quiet path identity now candidates none =
    (false, set_candidate path (identity, now) candidates)
observe quiet path identity now candidates (some (seen, since)) =
    if not (same_identity seen identity)
    then (false, set_candidate path (identity, now) candidates)
    else (leb (since + quiet) now, candidates)

-- `_ready`, with the candidates that it leaves.
pub ready :
    WatcherConfig → String → FileIdentity → Option FileIdentity → ℕ → Candidates → Bool × Candidates
unfolding pop observe find_candidate
ready config path identity previous now candidates =
    if same_content identity previous
    then (false, pop path candidates)
    else if config.has_suffix && ((identity.marker == "") || same_marker identity previous)
    then (false, pop path candidates)
    else observe config.quiet path identity now candidates (find_candidate path candidates)

abbrev pub event_of : String → String → FileIdentity → Option FileIdentity → LocalFileEvent
event_of event_id path identity previous = record {
  event_id = event_id;
  operation = if is_some previous then modified else created;
  relative_path = path;
  size_bytes = identity.size;
  mtime_ns = identity.mtime_ns;
}

abbrev pub appended : String → Option FileJournal → Scan → Scan
appended path none s = record s { raised = true }
appended path (some journal) s = record s {
  journal = journal;
  candidates = pop path s.candidates;
  queued = s.queued + 1;
}

-- One turn of the loop; after an exception there is none.
unfoldable pub scan_one : WatcherConfig → Files → ℕ → String → String → FileIdentity → Scan → Scan
unfolding ready pop
scan_one config prior now event_id path identity s =
    let previous = find_file path prior in
    let (is_ready, candidates) = ready config path identity previous now s.candidates in
    let t = record s { candidates = candidates } in
    if not is_ready
    then t
    else if leb config.max_pending (length s.journal.pending)
    then record t { queue_full = true }
    else appended path (append path identity (event_of event_id path identity previous) s.journal) t

-- The loop over what was found; `uuids` gives the id of an event by its place.
unfoldable pub scan_loop : WatcherConfig → Files → ℕ → (ℕ → String) → ℕ → Files → Scan → Scan
unfolding scan_one
scan_loop config prior now uuids n [] s = s
scan_loop config prior now uuids n ((path, identity) ∷ found) s =
    if s.raised
    then s
    else scan_loop config prior now uuids (suc n) found
        (scan_one config prior now (uuids n) path identity s)

abbrev pub paths_of : Files → List String
paths_of found = map (λ f. f.0) found

abbrev pub missing_paths : Files → Files → List String
missing_paths prior found = map (λ f. f.0) (keep (λ f. not (contains f.0 (paths_of found))) prior)

-- What precedes the loop.
abbrev pub opened : WatcherConfig → Files → FileJournal → FileJournal
opened config found journal =
    if journal.initialized
    then journal
    else baseline (if config.emit_existing then [] else found) journal

-- Files that are gone leave the cursor and the candidates.
abbrev pub scan_start : WatcherConfig → Files → FileJournal → Candidates → Scan
scan_start config found journal candidates = record {
  journal =
      forget (missing_paths (opened config found journal).files found)
        (opened config found journal);
  candidates = keep (λ c. contains c.0 (paths_of found)) candidates;
  queued = 0;
  queue_full = false;
  raised = false;
}

-- `scan`
unfoldable pub scan : WatcherConfig → Files → ℕ → (ℕ → String) → FileJournal → Candidates → Scan
unfolding scan_loop
scan config found now uuids journal candidates =
    scan_loop config (opened config found journal).files now uuids 0 found
      (scan_start config found journal candidates)

-- What a delivery comes to, with the bodies that it sent.
pub record Delivery : Type 0 where
  pub journal : FileJournal
  pub accepted : ℕ
  pub status : Option ℕ
  pub sent : List LocalFileEvent

abbrev pub is_accepted : Option ℕ → Bool
is_accepted none = false
is_accepted (some status) = nat_eq status 202

-- The loop of `deliver_pending`; `answers` gives what each request comes to.
unfoldable pub deliver_loop : (ℕ → Option ℕ) → ℕ → Delivery → Delivery
unfolding first settle
deliver_loop answers zero d = d
deliver_loop answers (suc rounds) d = elim (first d.journal) [
  | none ↦ d
  | some event ↦
      let status = answers d.accepted in
      let tried = record d { status = status; sent = d.sent ++ event ∷ [] } in
      if not (is_accepted status)
      then tried
      else deliver_loop answers rounds
          (record tried { journal = settle event.event_id d.journal; accepted = d.accepted + 1 })
]

-- `deliver_pending` of a valid batch size.
unfoldable pub deliver_pending : (ℕ → Option ℕ) → ℕ → FileJournal → Delivery
unfolding deliver_loop
deliver_pending answers max_events journal =
    deliver_loop answers max_events
      (record { journal = journal; accepted = 0; status = none; sent = [] })
