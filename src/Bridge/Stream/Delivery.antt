-- ===== src/Bridge/Stream/Delivery.antt =====
-- What one client receives while the agent goes on emitting: the events behind its cursor and then
-- those of the queue, however the two interleave. The runs below are of a bridge with an unbounded
-- queue, which is the default, with this client alone, and with observers that neither raise nor
-- wait. An event that the history has dropped and that still is in the queue when the client
-- connects comes behind the history.
mod Progress
mod Subscribers
mod Tests
use Progress.{frame_events, Owed, Continues, resume_phase-Continues, open_stream-Continues}
use maivn.Bridge.State.Emission.{emit_packet-unbounded}
use mathlib.Core.Path.{subst}
use mathlib.Core.List.{append_assoc, append-nil}
use maivn.Prelude.{
  ℕ, ◌≡◌, Bool, true, List, [], ◌∷◌, sym, ap, ◌∙◌, keep-append, refl, inl, inr, ◌++◌, drop, Option,
  some, none, String,
}
use maivn.Bridge.Event.{UiEvent}
use maivn.Bridge.State.{
  Bridge, Emitted, refused_closed, emitted, waiting, observer_raised, emit_packet,
  stream_subscriber_attached,
}
use maivn.Bridge.Stream.{
  Phase, opening, replaying, live_sent, live_waiting, finished, Frame, event, keepalive, stop,
  Stream, Resumed, ids, unseen, replay_start, resume, open_stream,
}

-- A producer's emission, or a request of the client for its next frame.
pub data Action {ℓ} (D : Type ℓ) : Type ℓ where
  emit : UiEvent D → Action D
  next : Action D

pub record Run {ℓ} (D : Type ℓ) : Type ℓ where
  pub bridge : Bridge D
  pub stream : Stream D
  pub received : List (UiEvent D)
  pub accepted : List (UiEvent D)

module _ {ℓ} {D : Type ℓ} where
  note_emitted : Run D → UiEvent D → Emitted D → Run D
  note_emitted r e (refused_closed b) = record r { bridge = b }
  note_emitted r e (emitted b) = record r { bridge = b; accepted = r.accepted ++ e ∷ [] }
  note_emitted r e (waiting b) = record r { bridge = b }
  note_emitted r e (observer_raised b) = record r { bridge = b }

  note_frame : Run D → Resumed D → Run D
  note_frame r (b, s, f) = record r {
    bridge = b;
    stream = s;
    received = r.received ++ frame_events f;
  }

  pub act : Run D → Action D → Run D
  unfolding note_emitted note_frame
  act r (emit e) = note_emitted r e (emit_packet (λ _. true) r.bridge e)
  act r next = note_frame r (resume r.bridge r.stream)

  pub run : Run D → List (Action D) → Run D
  unfolding act
  run r [] = r
  run r (a ∷ schedule) = run (act r a) schedule

  -- A client with its cursor, before its first request and behind it.
  abbrev pub connecting : Bridge D → Option String → Run D
  connecting b last_event_id = record {
    bridge = b;
    stream = record { phase = opening last_event_id; replayed_ids = [] };
    received = [];
    accepted = [];
  }

  abbrev pub connected : Bridge D → Option String → Run D
  connected b last_event_id = act (connecting b last_event_id) next

  -- The events that this client is to see: behind its cursor, and then those of the queue, as it is
  -- and as it grows, that the history does not have.
  abbrev pub due : Bridge D → Option String → List (UiEvent D) → List (UiEvent D)
  due b last_event_id accepted =
      drop (replay_start last_event_id b.event_history) b.event_history
      ++ unseen (ids b.event_history) (b.queue ++ accepted)

  record OnTrack (b : Bridge D) (c : Option String) (r : Run D) : Type ℓ where
    rest : List (UiEvent D)
    split : r.received ++ rest ≡ due b c r.accepted
    owes : Owed r.stream.phase (ids b.event_history) r.bridge.queue rest
    seen_kept : r.stream.replayed_ids ≡ ids b.event_history
    unbounded : r.bridge.queue_maxsize ≡ 0

  note_frame-OnTrack :
      {b : Bridge D} {c : Option String} {m : ℕ} {seen : List String} {owed : List (UiEvent D)}
      (r : Run D) (res : Resumed D)
      → m ≡ 0
      → seen ≡ ids b.event_history
      → r.received ++ owed ≡ due b c r.accepted
      → Continues m seen owed res
      → OnTrack b c (note_frame r res)
  unfolding note_frame
  note_frame-OnTrack {b} r (b', s, f) z e d k = record {
    rest = k.rest;
    split = append_assoc r.received (frame_events f) k.rest ∙ ap (λ l. r.received ++ l) k.split ∙ d;
    owes = subst (λ l. Owed s.phase l b'.queue k.rest) e k.owes;
    seen_kept = k.seen_kept ∙ e;
    unbounded = k.bound_kept ∙ z;
  }

  next-OnTrack :
      {b : Bridge D} {c : Option String} (r : Run D) → OnTrack b c r → OnTrack b c (act r next)
  unfolding act resume
  next-OnTrack r t =
      note_frame-OnTrack r (resume r.bridge r.stream) t.unbounded t.seen_kept t.split (
        resume_phase-Continues r.stream.phase r.stream.replayed_ids r.bridge t.rest
          (subst (λ l. Owed r.stream.phase l r.bridge.queue t.rest) (sym t.seen_kept) t.owes))

  Owed-append :
      (phase : Phase D) (seen : List String) (queue rest : List (UiEvent D)) (e : UiEvent D)
      → Owed phase seen queue rest
      → Owed phase seen (queue ++ e ∷ []) (rest ++ unseen seen (e ∷ []))
  Owed-append (opening c) seen queue rest e h = elim h [ ]
  Owed-append (replaying sent tail start history) seen queue rest e h =
      rw (h, keep-append) (append_assoc tail (unseen seen queue) (unseen seen (e ∷ [])))
  Owed-append (live_sent sent) seen queue rest e h = rw (h, keep-append)
  Owed-append live_waiting seen queue rest e h = rw (h, keep-append)
  Owed-append finished seen queue rest e h = tt

  due-append :
      (b : Bridge D) (c : Option String) (accepted : List (UiEvent D)) (e : UiEvent D)
      → due b c (accepted ++ e ∷ []) ≡ due b c accepted ++ unseen (ids b.event_history) (e ∷ [])
  due-append b c accepted e = simp (append_assoc, keep-append)

  emit-OnTrack :
      {b : Bridge D} {c : Option String} (r : Run D) (e : UiEvent D)
      → OnTrack b c r
      → OnTrack b c (act r (emit e))
  unfolding act
  emit-OnTrack {b} {c} r e t = elim (emit_packet-unbounded r.bridge e t.unbounded) [
    | inl refused ↦ rw refused (
        unfold note_emitted in
        record {
          rest = t.rest;
          split = t.split;
          owes = t.owes;
          seen_kept = t.seen_kept;
          unbounded = t.unbounded;
        })
    | inr (b', sent, queued, bound) ↦ rw sent (
        unfold note_emitted in
        record {
          rest = t.rest ++ unseen (ids b.event_history) (e ∷ []);
          split =
              sym (append_assoc r.received t.rest (unseen (ids b.event_history) (e ∷ [])))
              ∙ ap (λ l. l ++ unseen (ids b.event_history) (e ∷ [])) t.split
              ∙ sym (due-append b c r.accepted e);
          owes =
              subst
                (λ q.
                  Owed r.stream.phase (ids b.event_history) q
                    (t.rest ++ unseen (ids b.event_history) (e ∷ [])))
                (sym queued)
                (Owed-append r.stream.phase (ids b.event_history) r.bridge.queue t.rest e t.owes);
          seen_kept = t.seen_kept;
          unbounded = bound;
        })
  ]

  run-OnTrack :
      {b : Bridge D} {c : Option String} (r : Run D) (schedule : List (Action D))
      → OnTrack b c r
      → OnTrack b c (run r schedule)
  unfolding run
  run-OnTrack r [] t = t
  run-OnTrack r (emit e ∷ schedule) t = run-OnTrack (act r (emit e)) schedule (emit-OnTrack r e t)
  run-OnTrack r (next ∷ schedule) t = run-OnTrack (act r next) schedule (next-OnTrack r t)

  connected-OnTrack :
      (b : Bridge D) (c : Option String) → b.queue_maxsize ≡ 0 → OnTrack b c (connected b c)
  unfolding act resume
  connected-OnTrack b c u =
      note_frame-OnTrack (connecting b c)
        (open_stream (stream_subscriber_attached b) b.event_history c) u refl (rw append-nil refl)
        (open_stream-Continues (stream_subscriber_attached b) b.event_history c)

  -- On a bridge with an unbounded queue, one client, and observers that return at once, whatever its
  -- cursor and however emissions and requests interleave: what the client has received is a prefix
  -- of what is due to it: the history behind its cursor, followed, in their order, by the events
  -- that were in the queue when it connected or have been accepted since and whose ids are not in
  -- the history it connected to.
  pub received-IsPrefix :
      (b : Bridge D) (last_event_id : Option String) (schedule : List (Action D))
      → b.queue_maxsize ≡ 0
      → (rest : List (UiEvent D)) × ((run (connected b last_event_id) schedule).received ++ rest
          ≡ due b last_event_id (run (connected b last_event_id) schedule).accepted)
  received-IsPrefix b c schedule u =
      let t = run-OnTrack (connected b c) schedule (connected-OnTrack b c u) in (t.rest, t.split)

  complete_of_OnTrack :
      {b : Bridge D} {c : Option String} (r : Run D)
      → OnTrack b c r
      → r.stream.phase ≡ live_waiting
      → r.bridge.queue ≡ []
      → r.received ≡ due b c r.accepted
  complete_of_OnTrack {b} r t w q =
      let owes : Owed live_waiting (ids b.event_history) [] t.rest =
        subst (λ l. Owed live_waiting (ids b.event_history) l t.rest) q
          (subst (λ p. Owed p (ids b.event_history) r.bridge.queue t.rest) w t.owes) in
      sym (append-nil r.received) ∙ ap (λ l. r.received ++ l) (sym owes) ∙ t.split

  -- On a bridge with an unbounded queue, one client, and observers that return at once: whenever the
  -- client waits and the queue is empty, it has received all that is due to it: the history behind
  -- its cursor, and then the events that were in the queue when it connected or have been accepted
  -- since and whose ids are not in the history it connected to.
  pub received_complete :
      (b : Bridge D) (last_event_id : Option String) (schedule : List (Action D))
      → b.queue_maxsize ≡ 0
      → (run (connected b last_event_id) schedule).stream.phase ≡ live_waiting
      → (run (connected b last_event_id) schedule).bridge.queue ≡ []
      → (run (connected b last_event_id) schedule).received
        ≡ due b last_event_id (run (connected b last_event_id) schedule).accepted
  received_complete b c schedule u w q =
      complete_of_OnTrack (run (connected b c) schedule)
        (run-OnTrack (connected b c) schedule (connected-OnTrack b c u)) w q
