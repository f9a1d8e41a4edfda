-- ===== src/Bridge/Stream/Delivery/Tests.antt =====
-- A client that replays one event and then waits, while the producer emits another.
use maivn.Prelude.{ℕ, ◌+◌, ◌≡◌, refl, none, List, [], ◌∷◌, ◌++◌}
use maivn.Bridge.Event.{UiEvent, is_terminal}
use maivn.Bridge.History.{append_event}
use maivn.Bridge.Queue.{enqueue_event}
use maivn.Bridge.State.{emit_packet, stream_subscriber_attached}
use maivn.Bridge.Stream.{
  replay_start, resume, resume_phase, open_stream, replay_next, end_replay, drain_replayed_events,
  live_loop, take_live, last_is_terminal,
}
use maivn.Bridge.Stream.Delivery.{
  Action, emit, next, act, note_emitted, note_frame, run, connected, due, received-IsPrefix,
  received_complete,
}
use maivn.Bridge.Stream.{disconnect}
use maivn.Bridge.Stream.Delivery.{connecting}
use maivn.Bridge.Stream.Delivery.Subscribers.{occupancy, run-subscribers}
use maivn.Bridge.Tests.{an_event, a_bridge}

abbrev a_schedule : List (Action ℕ)
a_schedule = emit (an_event "heartbeat" "2") ∷ next ∷ next ∷ []

received-IsPrefix_example :
    (rest : List (UiEvent ℕ)) × ((run (connected a_bridge none) a_schedule).received ++ rest
      ≡ due a_bridge none (run (connected a_bridge none) a_schedule).accepted)
received-IsPrefix_example = received-IsPrefix a_bridge none a_schedule refl

received_complete_example :
    (run (connected a_bridge none) a_schedule).received
    ≡ due a_bridge none (run (connected a_bridge none) a_schedule).accepted
unfolding run act note_emitted note_frame resume resume_phase open_stream replay_next end_replay
    drain_replayed_events live_loop take_live last_is_terminal emit_packet enqueue_event
    append_event replay_start is_terminal stream_subscriber_attached
received_complete_example = received_complete a_bridge none a_schedule refl refl refl

run-subscribers_example :
    ((run (connecting a_bridge none) a_schedule).bridge.subscriber_count
      ≡ 0 + occupancy (run (connecting a_bridge none) a_schedule).stream.phase)
    × ((disconnect
          (run (connecting a_bridge none) a_schedule).bridge
          (run (connecting a_bridge none) a_schedule).stream).0.subscriber_count
        ≡ 0)
run-subscribers_example = run-subscribers a_bridge none a_schedule
