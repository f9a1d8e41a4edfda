-- ===== src/Bridge/Stream.antt =====
-- One client's server-sent-event generator (src/maivn/events/_bridge/streaming.py) as a state
-- machine: each `resume` runs it from one `yield` to the next, and other coroutines may act on the
-- bridge between two of them. The heartbeat interval is positive, as the code checks first.
pub mod Delivery
use maivn.Prelude.{
  ℕ, suc, String, Bool, true, false, not, ◌&&◌, Option, none, some, List, [], ◌∷◌, ◌==◌,
  if◌then◌else◌, leb, length, drop, keep, contains, map,
}
use maivn.Bridge.Event.{UiEvent, is_terminal}
use maivn.Bridge.State.{Bridge, stream_subscriber_attached, stream_subscriber_detached}

-- Where the generator stands. `replaying` is held at the `yield` of a replayed event, with the
-- events still to replay, the start index and the snapshot.
pub data Phase {ℓ} (D : Type ℓ) : Type ℓ where
  opening : Option String → Phase D
  replaying : UiEvent D → List (UiEvent D) → ℕ → List (UiEvent D) → Phase D
  live_sent : UiEvent D → Phase D
  live_waiting : Phase D
  finished : Phase D

-- What the client receives.
pub data Frame {ℓ} (D : Type ℓ) : Type ℓ where
  event : UiEvent D → Frame D
  keepalive : Frame D
  stop : Frame D

pub record Stream {ℓ} (D : Type ℓ) : Type ℓ where
  pub phase : Phase D
  pub replayed_ids : List String

abbrev pub Resumed {ℓ} : Type ℓ → Type ℓ
Resumed D = Bridge D × Stream D × Frame D

module _ {ℓ} {D : Type ℓ} where
  abbrev pub ids : List (UiEvent D) → List String
  ids = map (λ e. e.id)

  -- The events that no replay has shown.
  abbrev pub unseen : List String → List (UiEvent D) → List (UiEvent D)
  unseen replayed_ids = keep (λ e. not (contains e.id replayed_ids))

  pub last_is_terminal : List (UiEvent D) → Bool
  last_is_terminal [] = false
  last_is_terminal (e ∷ []) = is_terminal e
  last_is_terminal (e ∷ f ∷ rest) = last_is_terminal (f ∷ rest)

  -- The index behind the cursor's event.
  pub find_cursor : String → List (UiEvent D) → Option ℕ
  find_cursor last_event_id [] = none
  find_cursor last_event_id (e ∷ history) =
      if e.id == last_event_id
      then some 1
      else elim (find_cursor last_event_id history) [ none ↦ none | some n ↦ some (suc n) ]

  -- A missing cursor, or one that has aged out, replays the whole buffer.
  unfoldable pub replay_start : Option String → List (UiEvent D) → ℕ
  unfolding find_cursor
  replay_start none history = 0
  replay_start (some last_event_id) history = elim (find_cursor last_event_id history) [
    | none ↦ 0
    | some n ↦ n
  ]

  -- The `finally` of the generator.
  pub finish : Bridge D → List String → Resumed D
  unfolding stream_subscriber_detached
  finish b replayed =
      (stream_subscriber_detached b, record { phase = finished; replayed_ids = replayed }, stop)

  pub mark_closed : Bridge D → Bridge D
  mark_closed b = record b { closed = true }

  -- The wait for the queue: replayed events are skipped; a wait past the interval is a keep-alive.
  pub take_live : Bridge D → List String → List (UiEvent D) → Resumed D
  take_live b replayed [] =
      (record b { queue = [] }, record { phase = live_waiting; replayed_ids = replayed }, keepalive)
  take_live b replayed (e ∷ queue) =
      let skipped = take_live b replayed queue in
      if contains e.id replayed then skipped else (
        record b { queue = queue },
        record { phase = live_sent e; replayed_ids = replayed },
        event e,
      )

  -- The head of `while not bridge.stream_is_closed`.
  pub live_loop : Bridge D → List String → Resumed D
  unfolding take_live finish
  live_loop b replayed = if b.closed then finish b replayed else take_live b replayed b.queue

  pub drain_replayed_events : Bridge D → List String → Bridge D
  drain_replayed_events b replayed = record b { queue = unseen replayed b.queue }

  -- Behind the replay loop of `_replay_history`.
  pub end_replay : Bridge D → List String → ℕ → List (UiEvent D) → Resumed D
  unfolding live_loop mark_closed drain_replayed_events last_is_terminal
  end_replay b replayed start history =
      if leb (length history) start && last_is_terminal history
      then live_loop (mark_closed b) replayed
      else live_loop (drain_replayed_events b replayed) replayed

  pub replay_next : Bridge D → List String → List (UiEvent D) → ℕ → List (UiEvent D) → Resumed D
  unfolding end_replay
  replay_next b replayed [] start history = end_replay b replayed start history
  replay_next b replayed (e ∷ rest) start history =
      (b, record { phase = replaying e rest start history; replayed_ids = replayed }, event e)

  -- The snapshot and the cursor.
  pub open_stream : Bridge D → List (UiEvent D) → Option String → Resumed D
  unfolding replay_next live_loop replay_start
  open_stream b [] last_event_id = live_loop b []
  open_stream b (e ∷ history) last_event_id =
      let start = replay_start last_event_id (e ∷ history) in
      replay_next b (ids (e ∷ history)) (drop start (e ∷ history)) start (e ∷ history)

  pub resume_phase : Phase D → List String → Bridge D → Resumed D
  unfolding open_stream replay_next live_loop finish mark_closed stream_subscriber_attached
  resume_phase (opening last_event_id) replayed b =
      let b' = stream_subscriber_attached b in open_stream b' b'.event_history last_event_id
  resume_phase (replaying sent rest start history) replayed b =
      if b.closed
      then finish b replayed
      else if is_terminal sent
      then live_loop (mark_closed b) replayed
      else replay_next b replayed rest start history
  resume_phase (live_sent sent) replayed b =
      if is_terminal sent then finish (mark_closed b) replayed else live_loop b replayed
  resume_phase live_waiting replayed b = live_loop b replayed
  resume_phase finished replayed b = (b, record { phase = finished; replayed_ids = replayed }, stop)

  unfoldable pub resume : Bridge D → Stream D → Resumed D
  unfolding resume_phase
  resume b s = resume_phase s.phase s.replayed_ids b

  -- `GeneratorExit` or `CancelledError` at a `yield`: only a started generator has a `finally`.
  disconnect_phase : Phase D → List String → Bridge D → Bridge D × Stream D
  unfolding finish
  disconnect_phase (opening last_event_id) replayed b =
      (b, record { phase = finished; replayed_ids = replayed })
  disconnect_phase finished replayed b = (b, record { phase = finished; replayed_ids = replayed })
  disconnect_phase _ replayed b =
      (stream_subscriber_detached b, record { phase = finished; replayed_ids = replayed })

  unfoldable pub disconnect : Bridge D → Stream D → Bridge D × Stream D
  unfolding disconnect_phase
  disconnect b s = disconnect_phase s.phase s.replayed_ids b
