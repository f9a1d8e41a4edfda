-- ===== src/Bridge/Queue.antt =====
-- The live queue and its backpressure policies (src/maivn/events/_bridge/queueing.py). The queue is
-- `asyncio.Queue` of Python's library: oldest first, with no bound if its `maxsize` is 0.
pub mod Policies
use maivn.Prelude.{
  ℕ, zero, suc, Bool, List, [], ◌∷◌, ◌++◌, Option, none, some, if◌then◌else◌, length, leb, ◌&&◌,
  ltb,
}

pub data BackpressurePolicy : Type 0 where
  block drop_oldest drop_newest : BackpressurePolicy

-- What `await enqueue_event(...)` comes to: the queue afterwards, or the caller suspended in
-- `queue.put` until a reader makes room.
pub data Enqueued {ℓ} (A : Type ℓ) : Type ℓ where
  returned : List A → Enqueued A
  suspended : Enqueued A

module _ {ℓ} {A : Type ℓ} where
  -- `queue.full()`
  abbrev pub is_full : ℕ → List A → Bool
  is_full maxsize queue = ltb 0 maxsize && leb maxsize (length queue)

  -- `queue.put_nowait`; `none` is `QueueFull`.
  unfoldable pub put_nowait : ℕ → List A → A → Option (List A)
  put_nowait maxsize queue event =
      if is_full maxsize queue then none else some (queue ++ event ∷ [])

  -- The `while True` loop: each round that finds the queue full takes its oldest event out.
  pub drop_oldest_loop : ℕ → List A → A → List A
  unfolding put_nowait
  drop_oldest_loop maxsize [] event = elim (put_nowait maxsize [] event) [ some q ↦ q | none ↦ [] ]
  drop_oldest_loop maxsize (oldest ∷ queue) event =
      elim (put_nowait maxsize (oldest ∷ queue) event) [
        | some q ↦ q
        | none ↦ drop_oldest_loop maxsize queue event
      ]

  unfoldable pub enqueue_event : ℕ → BackpressurePolicy → List A → A → Enqueued A
  unfolding put_nowait drop_oldest_loop
  enqueue_event zero policy queue event = returned (queue ++ event ∷ [])
  enqueue_event (suc m) block queue event = elim (put_nowait (suc m) queue event) [
    | some q ↦ returned q
    | none ↦ suspended
  ]
  enqueue_event (suc m) drop_newest queue event = elim (put_nowait (suc m) queue event) [
    | some q ↦ returned q
    | none ↦ returned queue
  ]
  enqueue_event (suc m) drop_oldest queue event = returned (drop_oldest_loop (suc m) queue event)
