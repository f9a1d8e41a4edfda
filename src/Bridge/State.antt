-- ===== src/Bridge/State.antt =====
-- `EventBridge` of src/maivn/events/_bridge/bridge.py: its state, the emission of events, the
-- duplicate checks, and the lifecycle. The payload is of any type `D`.
pub mod Emission
pub mod Interrupts
use maivn.Prelude.{
  ℕ, ◌+◌, ◌-◌, String, Bool, true, false, not, ◌||◌, Option, none, some, List, [], ◌∷◌,
  if◌then◌else◌, nat_eq,
}
use maivn.Bridge.Event.{UiEvent}
use maivn.Bridge.History.{append_event}
use maivn.Bridge.Queue.{BackpressurePolicy, Enqueued, returned, suspended, enqueue_event}
use maivn.Bridge.Dedup.{
  TextOps, build_interrupt_fingerprint, build_status_fingerprint, same_fingerprint,
}

pub record Bridge {ℓ} (D : Type ℓ) : Type ℓ where
  pub max_history : ℕ
  pub queue_maxsize : ℕ
  pub backpressure : BackpressurePolicy
  pub dedupe_interrupts : Bool
  pub dedupe_status_messages : Bool
  pub reset_on_session_start : Bool
  pub queue : List (UiEvent D)
  pub subscriber_connected : Bool
  pub subscriber_count : ℕ
  pub closed : Bool
  pub event_history : List (UiEvent D)
  pub history_evictions : ℕ
  pub interrupt_fingerprints : List (String × String)
  pub last_status_fingerprint : Option (String × String)

-- How a call of `_emit_packet` ends. `waiting` is a producer held back by the full queue: the event
-- is in the history and not yet in the queue.
pub data Emitted {ℓ} (D : Type ℓ) : Type ℓ where
  refused_closed : Bridge D → Emitted D
  emitted : Bridge D → Emitted D
  waiting : Bridge D → Emitted D
  observer_raised : Bridge D → Emitted D

pub seen_fingerprint : String × String → List (String × String) → Bool
seen_fingerprint fingerprint [] = false
seen_fingerprint fingerprint (f ∷ fs) =
    same_fingerprint f fingerprint || seen_fingerprint fingerprint fs

is_last : Option (String × String) → String × String → Bool
is_last none fingerprint = false
is_last (some last) fingerprint = same_fingerprint fingerprint last

module _ {ℓ} {D : Type ℓ} where
  record_event : Bridge D → UiEvent D → Bridge D
  record_event b event =
      let (history, evicted) = append_event b.max_history b.event_history event in
      record b { event_history = history; history_evictions = b.history_evictions + evicted }

  deliver : Bridge D → Enqueued (UiEvent D) → Emitted D
  deliver b (returned queue) = emitted (record b { queue = queue })
  deliver b suspended = waiting b

  -- `observe` is the packet observer of the caller: false if it raises.
  unfoldable pub emit_packet : (UiEvent D → Bool) → Bridge D → UiEvent D → Emitted D
  unfolding record_event deliver
  emit_packet observe b event =
      if b.closed
      then refused_closed b
      else (let b' = record_event b event in
          if observe event
          then deliver b' (enqueue_event b'.queue_maxsize b'.backpressure b'.queue event)
          else observer_raised b')

  unfoldable pub should_drop_interrupt :
      TextOps → Bridge D → String → String → Option String → Bool × Bridge D
  unfolding seen_fingerprint
  should_drop_interrupt ops b prompt data_key arg_name =
      let fingerprint = build_interrupt_fingerprint ops prompt data_key arg_name in
      if not b.dedupe_interrupts
      then (false, b)
      else if seen_fingerprint fingerprint b.interrupt_fingerprints
      then (true, b)
      else (false, record b { interrupt_fingerprints = fingerprint ∷ b.interrupt_fingerprints })

  drop_status : Bridge D → Option (String × String) → Bool × Bridge D
  unfolding is_last
  drop_status b none = (false, b)
  drop_status b (some fingerprint) =
      if is_last b.last_status_fingerprint fingerprint
      then (true, b)
      else (false, record b { last_status_fingerprint = some fingerprint })

  -- The payload enters by its `message` and `assistant_id`, `none` where they are no texts.
  unfoldable pub should_drop_status_message :
      TextOps → Bridge D → Option String → Option String → Bool × Bridge D
  unfolding drop_status
  should_drop_status_message ops b message assistant_id =
      if not b.dedupe_status_messages
      then (false, b)
      else drop_status b (build_status_fingerprint ops message assistant_id)

  unfoldable pub reset_dedup_state : Bridge D → Bridge D
  reset_dedup_state b = record b { interrupt_fingerprints = []; last_status_fingerprint = none }

  unfoldable pub stream_subscriber_attached : Bridge D → Bridge D
  stream_subscriber_attached b = record b {
    subscriber_count = b.subscriber_count + 1;
    subscriber_connected = true;
  }

  -- `max(0, count - 1)` is the subtraction of natural numbers.
  unfoldable pub stream_subscriber_detached : Bridge D → Bridge D
  stream_subscriber_detached b =
      let count = b.subscriber_count - 1 in
      record b {
        subscriber_count = count;
        subscriber_connected = if nat_eq count 0 then false else b.subscriber_connected;
      }

  unfoldable pub stream_reset_state : Bridge D → Bridge D
  stream_reset_state b = record b {
    closed = false;
    subscriber_connected = false;
    subscriber_count = 0;
    event_history = [];
    queue = [];
  }

  unfoldable pub close : Bridge D → Bridge D
  close b = record b { closed = true }

  -- The identity aliases that it clears as well are not part of this state.
  unfoldable pub reopen : Bridge D → Bridge D
  unfolding stream_reset_state reset_dedup_state
  reopen b = record (reset_dedup_state (stream_reset_state b)) { history_evictions = 0 }
