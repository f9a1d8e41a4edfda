-- ===== src/Lib.antt =====
-- A verification of the core logic of the maivn SDK for Python: how a running agent's events reach
-- a frontend, how categorical decisions are routed and paid for and gate an invocation, how scheduled
-- invocations fire, how a serving process claims its work and reports it, how a watcher of local
-- files queues and delivers what it saw, how clients share a connection pool, and how private
-- values come back into a payload. The modules follow the packages of src/maivn; each file opens
-- with the code it is about.
--
-- * Bridge (src/maivn/events/_bridge). Event is `UIEvent` (ui_event.py). History is
--   `_evict_from_history` and the capped append of `_emit_packet`, Queue is `enqueue_event` of
--   queueing.py, Dedup the fingerprints of dedup.py, and State the class `EventBridge` of bridge.py:
--   a record of its fields, and its methods as functions from bridge to bridge. Stream is the
--   generator `generate_sse_events` of streaming.py as a state machine: `resume` runs it from one
--   `yield` to the next, and a schedule of emissions and requests is a list of actions. An event's
--   payload is of any type.
-- * Decisions (src/maivn/_internal/decisions). Model holds the contracts of models.py, Routing is
--   `adecide` and `_finish` of runtime.py, Batch the plan and the reassembly of `_native_batch`,
--   NativeUnit the method `_native_unit`, Platform the backend of platform.py with its gate and its
--   reading of answers, Matching the candidate selection of matching.py, and Usage is
--   token_usage.py with decisions/usage.py. Backends, baselines, the authorization callback and the
--   post are functions that the caller gives; what a call of them comes to is a data type with a
--   constructor for each way that the code tells apart.
--   Flow is a plan of stages around one invocation: the declaration of a stage (flow.py) in Builder,
--   its units, answers and gates (flow_execution.py) in Units and Stages, and `execute` and
--   `stream_execute` in Execution and Streams, as code that does things in order and returns or
--   raises.
-- * Claiming (src/maivn/_internal/claiming.py) is the work loop of a serving process: the reading of a
--   claim, the usage that a report carries, the reports with their retries (and retry_policy.py)
--   and, in Loop, the loop from its first claim to the release of what it holds. What the
--   platform, the runner and the clock do is a script.
-- * FileWatch (src/maivn/_internal) is the journal of local_file_state.py, in Watcher `scan` and
--   `deliver_pending` of local_file_watch.py, and in Runs its `run`. What the file system shows,
--   the clock, the unique ids and what a request comes to are arguments.
-- * Leases (src/maivn/_internal/transport/leases.py) is the connection pool that transient clients
--   share: what `acquire`, `release` and `_close` do under its lock, as functions, and the
--   interleaving of their tasks as a step relation.
-- * Scheduling (src/maivn/_internal/compat/scheduling.py). Retry is `Retry` and `_run_with_retry`,
--   Times the schedules, the windows and `JitterSpec.apply`, Record the state, the preparation
--   and the end of a run of `ScheduledJob`, Job its slots and its queue, and System the
--   interleaving of a job's threads as a step relation.
-- * PrivateData (src/maivn/_internal/private_placeholders.py) is the resolution of placeholders in a
--   payload, with the spans of what was put in, and without.
-- * Prelude holds what they share: Boolean tests, and lists measured by native numbers.
--
-- Numbers: Python's integers here are counts and never negative. A probability is a whole number of
-- units of 2^-1074, and an instant or a duration a whole number of microseconds. Division of floats
-- stays a parameter (`floor_ratio`), with what is asked of it as a hypothesis.
--
-- Fuel: `chunks` has the number of indices, of which each round takes one at least; `retry_loop` has
-- `max_attempts`, and a loop that makes an attempt past it has stopped.
--
-- Not modelled: `abatch` and its cancellation, the `emit_*` wrappers with their validation and
-- redaction, a job's `start`, `stop`, `pause` and waits, the walk of watched files and the database
-- of their journal, the wait for a pool's cleanup, and the packages' other parts, such as the
-- private store, tools, scopes and the HTTP client. The units of a stage are dispatched one after
-- the other: their semaphores, their cancellation and which of several failures is raised are left
-- out. An exception is what the code tells it apart by, without its text.
--
-- `str.strip`, `str.lower` and `json.dumps`, cron expressions, the placeholder pattern and the names
-- of its keys, and the equality of batch keys come from outside and are parameters. What holds of
-- the platform's verdicts holds for any way to resolve their placeholders.
pub mod Prelude
pub mod Bridge
pub mod Decisions
pub mod Scheduling
pub mod PrivateData
pub mod Claiming
pub mod FileWatch
pub mod Leases
