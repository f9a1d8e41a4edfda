-- ===== src/Bridge/Stream/Delivery/Progress.antt =====
-- One resumption of the generator passes on the head of what it owes, and still owes the rest.
use maivn.Prelude.{
  Option, none, some, drop, ℕ, ◌≡◌, refl, true, List, [], ◌∷◌, ◌++◌, arith, String, contains,
  Bool-cases, if-case, inl, inr, leb, length, ◌&&◌,
}
use maivn.Bridge.Event.{UiEvent, is_terminal}
use maivn.Bridge.State.{Bridge}
use maivn.Bridge.Stream.{
  ids, open_stream, replay_start, Phase, opening, replaying, live_sent, live_waiting, finished,
  Frame, event, keepalive, stop, Resumed, unseen, take_live, live_loop, finish, mark_closed,
  drain_replayed_events, end_replay, replay_next, resume_phase, last_is_terminal,
}

-- A phase that no running client is in.
pub data Never {ℓ} : Type ℓ where

module _ {ℓ} {D : Type ℓ} where
  abbrev pub frame_events : Frame D → List (UiEvent D)
  frame_events (event e) = e ∷ []
  frame_events keepalive = []
  frame_events stop = []

  -- What is still to come, by phase: nothing is promised once the generator has finished.
  abbrev pub Owed : Phase D → List String → List (UiEvent D) → List (UiEvent D) → Type ℓ
  Owed (opening c) seen queue rest = Never
  Owed (replaying sent tail start history) seen queue rest = rest ≡ tail ++ unseen seen queue
  Owed (live_sent sent) seen queue rest = rest ≡ unseen seen queue
  Owed live_waiting seen queue rest = rest ≡ unseen seen queue
  Owed finished seen queue rest = Unit

  pub record Continues (bound : ℕ) (seen : List String) (owed : List (UiEvent D)) (r : Resumed D)
      : Type ℓ where
    pub rest : List (UiEvent D)
    pub split : frame_events r.2 ++ rest ≡ owed
    pub owes : Owed r.1.phase seen r.0.queue rest
    pub seen_kept : r.1.replayed_ids ≡ seen
    pub bound_kept : r.0.queue_maxsize ≡ bound

  finish-Continues :
      (b : Bridge D) (seen : List String) (owed : List (UiEvent D))
      → Continues b.queue_maxsize seen owed (finish b seen)
  unfolding finish
  finish-Continues b seen owed = record {
    rest = owed;
    split = refl;
    owes = tt;
    seen_kept = refl;
    bound_kept = refl;
  }

  take_live-Continues :
      (b : Bridge D) (seen : List String) (queue : List (UiEvent D))
      → Continues b.queue_maxsize seen (unseen seen queue) (take_live b seen queue)
  unfolding take_live
  take_live-Continues b seen [] = record {
    rest = [];
    split = refl;
    owes = refl;
    seen_kept = refl;
    bound_kept = refl;
  }
  take_live-Continues b seen (e ∷ queue) = elim (Bool-cases (contains e.id seen)) [
    | inl old ↦ rw old (take_live-Continues b seen queue)
    | inr new ↦ rw new (record {
      rest = unseen seen queue;
      split = refl;
      owes = refl;
      seen_kept = refl;
      bound_kept = refl;
    })
  ]

  live_loop-Continues :
      (b : Bridge D) (seen : List String)
      → Continues b.queue_maxsize seen (unseen seen b.queue) (live_loop b seen)
  unfolding live_loop
  live_loop-Continues b seen =
      if-case (Continues b.queue_maxsize seen (unseen seen b.queue)) b.closed
        (λ _. finish-Continues b seen (unseen seen b.queue))
        (λ _. take_live-Continues b seen b.queue)

  closed-Continues :
      (b : Bridge D) (seen : List String) (owed : List (UiEvent D))
      → Continues b.queue_maxsize seen owed (live_loop (mark_closed b) seen)
  unfolding live_loop mark_closed
  closed-Continues b seen owed = finish-Continues (record b { closed = true }) seen owed

  unseen-unseen :
      (seen : List String) (queue : List (UiEvent D))
      → unseen seen (unseen seen queue) ≡ unseen seen queue
  unseen-unseen seen [] = refl
  unseen-unseen seen (e ∷ queue) = ground (arith, unseen-unseen seen queue)

  end_replay-Continues :
      (b : Bridge D) (seen : List String) (start : ℕ) (history : List (UiEvent D))
      → Continues b.queue_maxsize seen (unseen seen b.queue) (end_replay b seen start history)
  unfolding end_replay
  end_replay-Continues b seen start history =
      if-case (Continues b.queue_maxsize seen (unseen seen b.queue))
        (leb (length history) start && last_is_terminal history)
        (λ _. closed-Continues b seen (unseen seen b.queue))
        (λ _.
          rw (unseen-unseen seen b.queue) at
            (live_loop-Continues (drain_replayed_events b seen) seen))

  replay_next-Continues :
      (b : Bridge D) (seen : List String) (tail : List (UiEvent D)) (start : ℕ)
      (history : List (UiEvent D))
      → Continues b.queue_maxsize seen
          (tail ++ unseen seen b.queue)
          (replay_next b seen tail start history)
  unfolding replay_next
  replay_next-Continues b seen [] start history = end_replay-Continues b seen start history
  replay_next-Continues b seen (e ∷ tail) start history = record {
    rest = tail ++ unseen seen b.queue;
    split = refl;
    owes = refl;
    seen_kept = refl;
    bound_kept = refl;
  }

  pub resume_phase-Continues :
      (phase : Phase D) (seen : List String) (b : Bridge D) (owed : List (UiEvent D))
      → Owed phase seen b.queue owed
      → Continues b.queue_maxsize seen owed (resume_phase phase seen b)
  unfolding resume_phase
  resume_phase-Continues (opening c) seen b owed h = elim h [ ]
  resume_phase-Continues (replaying sent tail start history) seen b owed h =
      if-case (Continues b.queue_maxsize seen owed) b.closed (λ _. finish-Continues b seen owed)
        (λ _.
          if-case (Continues b.queue_maxsize seen owed) (is_terminal sent)
            (λ _. closed-Continues b seen owed)
            (λ _. rw h (replay_next-Continues b seen tail start history)))
  resume_phase-Continues (live_sent sent) seen b owed h =
      if-case (Continues b.queue_maxsize seen owed) (is_terminal sent)
        (λ _. finish-Continues (mark_closed b) seen owed) (λ _. rw h (live_loop-Continues b seen))
  resume_phase-Continues live_waiting seen b owed h = rw h (live_loop-Continues b seen)
  resume_phase-Continues finished seen b owed h = record {
    rest = owed;
    split = refl;
    owes = tt;
    seen_kept = refl;
    bound_kept = refl;
  }

  pub open_stream-Continues :
      (b : Bridge D) (history : List (UiEvent D)) (c : Option String)
      → Continues b.queue_maxsize
          (ids history)
          (drop (replay_start c history) history ++ unseen (ids history) b.queue)
          (open_stream b history c)
  unfolding open_stream
  open_stream-Continues b [] none = live_loop-Continues b []
  open_stream-Continues b [] (some c) = live_loop-Continues b []
  open_stream-Continues b (e ∷ history) c =
      replay_next-Continues b (ids (e ∷ history))
        (drop (replay_start c (e ∷ history)) (e ∷ history)) (replay_start c (e ∷ history))
        (e ∷ history)
