-- ===== src/Bridge/Stream/Delivery/Subscribers.antt =====
-- The subscriber count while a client connects, reads and leaves.
use maivn.Prelude.{
  ℕ, ◌+◌, ◌≡◌, ◌∙◌, String, true, Option, List, [], ◌∷◌, arith, if-case, contains, leb, length,
  ◌&&◌,
}
use maivn.Bridge.Event.{UiEvent, is_terminal}
use maivn.Bridge.State.{
  Bridge, Emitted, refused_closed, emitted, waiting, observer_raised, emit_packet,
  stream_subscriber_attached, stream_subscriber_detached,
}
use maivn.Bridge.State.Emission.{bridge_of, emit_packet-subscribers}
use maivn.Bridge.Stream.{
  Phase, opening, replaying, live_sent, live_waiting, finished, Resumed, finish, mark_closed,
  take_live, live_loop, drain_replayed_events, end_replay, replay_next, open_stream, resume_phase,
  resume, last_is_terminal, ids, replay_start, disconnect_phase, disconnect,
}
use maivn.Bridge.Stream.Delivery.{
  Action, emit, next, Run, note_emitted, note_frame, act, run, connecting,
}

module _ {ℓ} {D : Type ℓ} where
  -- A client counts from its first request until its stream has ended.
  abbrev pub occupancy : Phase D → ℕ
  occupancy (opening c) = 0
  occupancy (replaying e rest start history) = 1
  occupancy (live_sent e) = 1
  occupancy live_waiting = 1
  occupancy finished = 0

  abbrev Counted : ℕ → Resumed D → Type 0
  Counted base o = o.0.subscriber_count ≡ base + occupancy o.1.phase

  finish-Counted :
      (base : ℕ) (b : Bridge D) (replayed : List String)
      → b.subscriber_count ≡ base + 1
      → Counted base (finish b replayed)
  unfolding finish stream_subscriber_detached
  finish-Counted base b replayed h = omega arith

  take_live-Counted :
      (base : ℕ) (b : Bridge D) (replayed : List String) (queue : List (UiEvent D))
      → b.subscriber_count ≡ base + 1
      → Counted base (take_live b replayed queue)
  unfolding take_live
  take_live-Counted base b replayed [] h = h
  take_live-Counted base b replayed (e ∷ queue) h =
      if-case (Counted base) (contains e.id replayed)
        (λ _. take_live-Counted base b replayed queue h) (λ _. h)

  live_loop-Counted :
      (base : ℕ) (b : Bridge D) (replayed : List String)
      → b.subscriber_count ≡ base + 1
      → Counted base (live_loop b replayed)
  unfolding live_loop
  live_loop-Counted base b replayed h =
      if-case (Counted base) b.closed (λ _. finish-Counted base b replayed h)
        (λ _. take_live-Counted base b replayed b.queue h)

  replay_next-Counted :
      (base : ℕ) (b : Bridge D) (replayed : List String) (rest : List (UiEvent D)) (start : ℕ)
      (history : List (UiEvent D))
      → b.subscriber_count ≡ base + 1
      → Counted base (replay_next b replayed rest start history)
  unfolding replay_next end_replay mark_closed drain_replayed_events
  replay_next-Counted base b replayed [] start history h =
      if-case (Counted base) (leb (length history) start && last_is_terminal history)
        (λ _. live_loop-Counted base (mark_closed b) replayed h)
        (λ _. live_loop-Counted base (drain_replayed_events b replayed) replayed h)
  replay_next-Counted base b replayed (e ∷ rest) start history h = h

  open_stream-Counted :
      (base : ℕ) (b : Bridge D) (history : List (UiEvent D)) (c : Option String)
      → b.subscriber_count ≡ base + 1
      → Counted base (open_stream b history c)
  unfolding open_stream
  open_stream-Counted base b [] c h = live_loop-Counted base b [] h
  open_stream-Counted base b (e ∷ history) c h =
      replay_next-Counted base b (ids (e ∷ history)) _ (replay_start c (e ∷ history)) (e ∷ history)
        h

  resume_phase-Counted :
      (base : ℕ) (phase : Phase D) (replayed : List String) (b : Bridge D)
      → b.subscriber_count ≡ base + occupancy phase
      → Counted base (resume_phase phase replayed b)
  unfolding resume_phase mark_closed stream_subscriber_attached
  resume_phase-Counted base (opening c) replayed b h =
      open_stream-Counted base (stream_subscriber_attached b) b.event_history c (omega arith)
  resume_phase-Counted base (replaying e rest start history) replayed b h =
      if-case (Counted base) b.closed (λ _. finish-Counted base b replayed h)
        (λ _.
          if-case (Counted base) (is_terminal e)
            (λ _. live_loop-Counted base (mark_closed b) replayed h)
            (λ _. replay_next-Counted base b replayed rest start history h))
  resume_phase-Counted base (live_sent e) replayed b h =
      if-case (Counted base) (is_terminal e) (λ _. finish-Counted base (mark_closed b) replayed h)
        (λ _. live_loop-Counted base b replayed h)
  resume_phase-Counted base live_waiting replayed b h = live_loop-Counted base b replayed h
  resume_phase-Counted base finished replayed b h = h

  note_emitted-Counted :
      (base : ℕ) (r : Run D) (e : UiEvent D) (o : Emitted D)
      → (bridge_of o).subscriber_count ≡ base + occupancy r.stream.phase
      → (note_emitted r e o).bridge.subscriber_count
        ≡ base + occupancy (note_emitted r e o).stream.phase
  unfolding note_emitted
  note_emitted-Counted base r e (refused_closed b) h = h
  note_emitted-Counted base r e (emitted b) h = h
  note_emitted-Counted base r e (waiting b) h = h
  note_emitted-Counted base r e (observer_raised b) h = h

  run-Counted :
      (base : ℕ) (r : Run D) (schedule : List (Action D))
      → r.bridge.subscriber_count ≡ base + occupancy r.stream.phase
      → (run r schedule).bridge.subscriber_count ≡ base + occupancy (run r schedule).stream.phase
  unfolding run act note_frame resume
  run-Counted base r [] h = h
  run-Counted base r (emit e ∷ schedule) h = run-Counted base (act r (emit e)) schedule (
      note_emitted-Counted base r e (emit_packet (λ _. true) r.bridge e)
        (emit_packet-subscribers (λ _. true) r.bridge e ∙ h))
  run-Counted base r (next ∷ schedule) h =
      run-Counted base (act r next) schedule
        (resume_phase-Counted base r.stream.phase r.stream.replayed_ids r.bridge h)

  disconnect_phase-Counted :
      (base : ℕ) (phase : Phase D) (replayed : List String) (b : Bridge D)
      → b.subscriber_count ≡ base + occupancy phase
      → (disconnect_phase phase replayed b).0.subscriber_count ≡ base
  unfolding disconnect_phase stream_subscriber_detached
  disconnect_phase-Counted base (opening c) replayed b h = omega arith
  disconnect_phase-Counted base (replaying e rest start history) replayed b h = omega arith
  disconnect_phase-Counted base (live_sent e) replayed b h = omega arith
  disconnect_phase-Counted base live_waiting replayed b h = omega arith
  disconnect_phase-Counted base finished replayed b h = omega arith

  -- Under every queue bound and policy, and however emissions and requests interleave: a client
  -- counts as one subscriber from its first request until its stream has ended, and when it
  -- disconnects, at any point, the count is again what it was before it came.
  pub run-subscribers :
      (b : Bridge D) (last_event_id : Option String) (schedule : List (Action D))
      → ((run (connecting b last_event_id) schedule).bridge.subscriber_count
          ≡ b.subscriber_count + occupancy (run (connecting b last_event_id) schedule).stream.phase)
        × ((disconnect
              (run (connecting b last_event_id) schedule).bridge
              (run (connecting b last_event_id) schedule).stream).0.subscriber_count
            ≡ b.subscriber_count)
  unfolding disconnect
  run-subscribers b c schedule =
      let r = run (connecting b c) schedule in
      let k = run-Counted b.subscriber_count (connecting b c) schedule (omega arith) in
      (
        k,
        disconnect_phase-Counted b.subscriber_count r.stream.phase r.stream.replayed_ids r.bridge k,
      )
