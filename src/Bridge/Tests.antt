-- ===== src/Bridge/Tests.antt =====
-- Concrete runs of the history, the queue and the emission.
use maivn.Prelude.{ℕ, ◌+◌, ◌≤◌, ◌≡◌, String, true, none, List, [], ◌∷◌, arith, length, keep, false}
use maivn.Bridge.Event.{UiEvent, is_evictable}
use maivn.Bridge.History.{evict_from_history, append_event}
use maivn.Bridge.History.Eviction.{structural, evict-keeps-structural, append_event-bounded}
use maivn.Bridge.Queue.{drop_oldest}
use maivn.Bridge.State.{Bridge}
use maivn.Bridge.Dedup.{TextOps}
use maivn.Bridge.State.Interrupts.{Interrupt}

abbrev pub an_event : String → String → UiEvent ℕ
an_event type id = record { type = type; payload = 0; id = id; timestamp = "t" }

abbrev pub a_history : List (UiEvent ℕ)
a_history =
    an_event "tool_event" "1"
    ∷ an_event "assistant_chunk" "2"
    ∷ an_event "heartbeat" "3"
    ∷ an_event "final" "4"
    ∷ []

abbrev pub a_bridge : Bridge ℕ
a_bridge = record {
  max_history = 4;
  queue_maxsize = 0;
  backpressure = drop_oldest;
  dedupe_interrupts = true;
  dedupe_status_messages = true;
  reset_on_session_start = true;
  queue = [];
  subscriber_connected = false;
  subscriber_count = 0;
  closed = false;
  event_history = an_event "tool_event" "1" ∷ [];
  history_evictions = 0;
  interrupt_fingerprints = [];
  last_status_fingerprint = none;
}

evict-keeps-structural_example :
    keep structural (evict_from_history a_history 1) ≡ keep structural a_history
unfolding is_evictable
evict-keeps-structural_example = evict-keeps-structural a_history 1 (omega arith)

append_event-bounded_example :
    (length (append_event 4 a_history (an_event "heartbeat" "5")).0 ≤ 4)
    × (length (append_event 4 a_history (an_event "heartbeat" "5")).0
          + (append_event 4 a_history (an_event "heartbeat" "5")).1
        ≡ 5)
append_event-bounded_example =
    append_event-bounded 4 a_history (an_event "heartbeat" "5") (omega arith)

abbrev plain_text : TextOps
plain_text = record { strip = λ t. t; lower = λ t. t }

abbrev an_interrupt : Interrupt
an_interrupt = record { prompt = "Name?"; data_key = "name"; arg_name = none }
