-- ===== src/Bridge/Event.antt =====
-- The event that the bridge delivers (src/maivn/events/_bridge/ui_event.py). The payload is of any
-- type: the bridge never looks into it after the event is built.
use maivn.Prelude.{String, Bool, ◌||◌, ◌==◌}

pub record UiEvent {ℓ} (D : Type ℓ) : Type ℓ where
  pub type : String
  pub payload : D
  pub id : String
  pub timestamp : String

-- `_EVICTABLE_EVENT_TYPES`
unfoldable pub is_evictable {ℓ} : {D : Type ℓ} → UiEvent D → Bool
is_evictable e =
    e.type == "assistant_chunk" || e.type == "system_tool_chunk" || e.type == "heartbeat"

-- `EventBridge.TERMINAL_EVENTS`
unfoldable pub is_terminal {ℓ} : {D : Type ℓ} → UiEvent D → Bool
is_terminal e = e.type == "final" || e.type == "error" || e.type == "session_end"
