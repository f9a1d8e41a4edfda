-- ===== src/FileWatch/Tests.antt =====
-- Runs of the watcher on small inputs, and the theorems about them.
use maivn.Prelude.{
  zero, suc, ℕ, String, true, false, ◌≡◌, refl, Option, some, [], ◌∷◌, length, arith,
}
use maivn.FileWatch.{
  FileIdentity, modified, LocalFileEvent, Files, FileJournal, forget, append, first, settle,
  find_file,
}
use maivn.FileWatch.Watcher.{
  WatcherConfig, Candidates, scan, scan_start, scan_loop, scan_one, opened, deliver_pending,
  deliver_loop,
}
use maivn.FileWatch.Queue.{Sound}
use maivn.FileWatch.Cursor.{Advances, scan-Advances}
use maivn.FileWatch.Sending.{Delivers, delivery_start, deliver_pending-Delivers}
use maivn.FileWatch.Runs.{Turn, LocalFileWatcher, run, Kept, run-Kept}

abbrev config : WatcherConfig
config = record { quiet = 5; has_suffix = false; emit_existing = false; max_pending = 2 }

abbrev report : FileIdentity
report = record { size = 7; mtime_ns = 90; marker = "" }

abbrev found : Files
found = ("a.csv", report) ∷ ("b.csv", report) ∷ []

abbrev old_event : LocalFileEvent
old_event = record {
  event_id = "old";
  operation = modified;
  relative_path = "b.csv";
  size_bytes = 3;
  mtime_ns = 20;
}

abbrev journal : FileJournal
journal = record {
  initialized = true;
  files = ("b.csv", record { size = 3; mtime_ns = 20; marker = "" }) ∷ ("gone.csv", report) ∷ [];
  pending = old_event ∷ [];
}

-- Both files have been quiet since instant 1.
abbrev candidates : Candidates
candidates = ("a.csv", (report, 1)) ∷ ("b.csv", (report, 1)) ∷ []

abbrev uuids : ℕ → String
uuids _ = "new"

-- The platform accepts the first request only.
abbrev answers : ℕ → Option ℕ
answers zero = some 202
answers (suc _) = some 500

abbrev watcher : LocalFileWatcher
watcher = record {
  journal = journal;
  candidates = candidates;
  queued = 0;
  accepted = 0;
  raised = false;
}

abbrev turn : Turn
turn = record { found = found; now = 10; uuids = uuids; answers = answers }

journal-Sound : Sound config journal.pending
journal-Sound = record { unique = (refl, tt); bounded = omega arith }

-- The queue has room for one of the two files.
scan-full : (scan config found 10 uuids journal candidates).queue_full ≡ true
unfolding scan scan_loop scan_one forget append find_file
scan-full = refl

scan-queued : length (scan config found 10 uuids journal candidates).journal.pending ≡ 2
unfolding scan scan_loop scan_one forget append find_file
scan-queued = refl

-- A file that changed a moment ago waits.
scan-unsettled : (scan config found 5 uuids journal candidates).queued ≡ 0
unfolding scan scan_loop scan_one forget append find_file
scan-unsettled = refl

deliver_pending-accepted : (deliver_pending answers 3 journal).accepted ≡ 1
unfolding deliver_pending deliver_loop first settle
deliver_pending-accepted = refl

scan-Advances_example :
    Advances
      (opened config found journal).files
      found
      (scan_start config found journal candidates)
      (scan config found 10 uuids journal candidates)
scan-Advances_example = scan-Advances config found 10 uuids journal candidates

deliver_pending-Delivers_example :
    Delivers answers 3 (delivery_start journal) (deliver_pending answers 3 journal)
deliver_pending-Delivers_example = deliver_pending-Delivers answers 3 journal journal-Sound.unique

run-Kept_example : Kept config watcher (run config (turn ∷ turn ∷ []) watcher)
run-Kept_example = run-Kept config (turn ∷ turn ∷ []) watcher journal-Sound
