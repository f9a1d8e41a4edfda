-- ===== src/FileWatch.antt =====
-- The journal of one local watcher (`FileJournal`, src/maivn/_internal/local_file_state.py). A method
-- is one transaction: it returns the journal that it commits, or leaves it as it was and raises. The
-- database, the lock and the private directory are left out.
pub mod Watcher
pub mod Queue
pub mod Cursor
pub mod Sending
pub mod Runs
mod Tests
use maivn.Prelude.{
  ℕ, String, Bool, true, false, not, Option, none, some, List, [], ◌∷◌, ◌++◌, ◌==◌, if◌then◌else◌,
  contains, keep, length, map, is_some,
}

pub record FileIdentity : Type 0 where
  pub size : ℕ
  pub mtime_ns : ℕ
  pub marker : String

pub data Operation : Type 0 where
  created modified : Operation

-- The body of a delivery is the JSON of this record, with the watch and the time of observation.
pub record LocalFileEvent : Type 0 where
  pub event_id : String
  pub operation : Operation
  pub relative_path : String
  pub size_bytes : ℕ
  pub mtime_ns : ℕ

abbrev pub Files : Type 0
Files = List (String × FileIdentity)

-- The tables; `pending` is in the order of its sequence numbers.
pub record FileJournal : Type 0 where
  pub initialized : Bool
  pub files : Files
  pub pending : List LocalFileEvent

-- `files().get(path)`
unfoldable pub find_file : String → Files → Option FileIdentity
find_file path [] = none
find_file path ((p, identity) ∷ files) = if p == path then some identity else find_file path files

-- `_cursor`: an upsert.
pub cursor : String → FileIdentity → Files → Files
cursor path identity [] = (path, identity) ∷ []
cursor path identity ((p, i) ∷ files) =
    if p == path then (p, identity) ∷ files else (p, i) ∷ cursor path identity files

cursor_all : Files → Files → Files
unfolding cursor
cursor_all [] files = files
cursor_all ((path, identity) ∷ found) files = cursor_all found (cursor path identity files)

unfoldable pub baseline : Files → FileJournal → FileJournal
unfolding cursor_all
baseline found journal = record journal {
  initialized = true;
  files = cursor_all found journal.files;
}

unfoldable pub forget : List String → FileJournal → FileJournal
forget paths journal = record journal { files = keep (λ f. not (contains f.0 paths)) journal.files }

abbrev pub ids : List LocalFileEvent → List String
ids events = map (λ e. e.event_id) events

-- The event and the cursor in one transaction; `none` is the violation of a unique event id.
unfoldable pub append : String → FileIdentity → LocalFileEvent → FileJournal → Option FileJournal
unfolding cursor
append path identity event journal =
    if contains event.event_id (ids journal.pending)
    then none
    else some (record journal {
      files = cursor path identity journal.files;
      pending = journal.pending ++ event ∷ [];
    })

unfoldable pub first : FileJournal → Option LocalFileEvent
first journal = elim journal.pending [ [] ↦ none | event ∷ events ↦ some event ]

unfoldable pub settle : String → FileJournal → FileJournal
settle event_id journal = record journal {
  pending = keep (λ e. not (e.event_id == event_id)) journal.pending;
}
