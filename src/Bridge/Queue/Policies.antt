-- ===== src/Bridge/Queue/Policies.antt =====
-- What each backpressure policy does with the queue and the new event.
use native.Mathlib.Decide.{dec_le}
use maivn.Prelude.{
  ℕ, zero, suc, ◌-◌, ◌≤◌, ◌≡◌, List, [], ◌∷◌, ◌++◌, arith, length, length-append, length-drop, drop,
  refl, ap,
}
use maivn.Bridge.Queue.{
  BackpressurePolicy, block, drop_oldest, drop_newest, returned, drop_oldest_loop, enqueue_event,
}

module _ {ℓ} {A : Type ℓ} where
  drop-cons_fits : (k m : ℕ) (x : A) (queue : List A) → k ≤ m → drop (k - m) (x ∷ queue) ≡ x ∷ queue
  drop-cons_fits k m x queue h = let e : k - m ≡ 0 = omega arith in rw e refl

  drop-cons_full :
      (k m : ℕ) (x : A) (queue : List A) → m ≤ k → drop (suc k - m) (x ∷ queue) ≡ drop (k - m) queue
  drop-cons_full k m x queue h = let e : suc k - m ≡ suc (k - m) = omega arith in rw e refl

  drop_oldest_loop-eq-drop :
      (m : ℕ) (queue : List A) (event : A)
      → drop_oldest_loop (suc m) queue event ≡ drop (length queue - m) queue ++ event ∷ []
  unfolding drop_oldest_loop
  drop_oldest_loop-eq-drop zero [] event = refl
  drop_oldest_loop-eq-drop (suc m) [] event = ground arith
  drop_oldest_loop-eq-drop m (x ∷ queue) event = elim (dec_le m (length queue)) [
    | yes full ↦
        rw (drop-cons_full (length queue) m x queue full)
          (ground (arith, drop_oldest_loop-eq-drop m queue event))
    | no room ↦ rw (drop-cons_fits (suc (length queue)) m x queue (omega arith)) (ground arith)
  ]

  -- With a bound, "drop oldest" keeps the newest events that leave room for one more, and puts the
  -- new event behind them, whatever the queue held.
  pub enqueue_event-drop_oldest :
      (m : ℕ) (queue : List A) (event : A)
      → enqueue_event (suc m) drop_oldest queue event
        ≡ returned (drop (length queue - m) queue ++ event ∷ [])
  unfolding enqueue_event
  enqueue_event-drop_oldest m queue event = ap returned (drop_oldest_loop-eq-drop m queue event)

  length-drop_oldest :
      (m : ℕ) (queue : List A) (event : A) → length (drop_oldest_loop (suc m) queue event) ≤ suc m
  length-drop_oldest m queue event = rw (drop_oldest_loop-eq-drop m queue event) (
      omega (
        arith,
        length-append (drop (length queue - m) queue) (event ∷ []),
        length-drop (length queue - m) queue,
      ))

  -- No policy lets a bounded queue grow past its bound.
  pub enqueue_event-bounded :
      (m : ℕ) (policy : BackpressurePolicy) (queue queue' : List A) (event : A)
      → length queue ≤ suc m
      → enqueue_event (suc m) policy queue event ≡ returned queue'
      → length queue' ≤ suc m
  unfolding enqueue_event
  enqueue_event-bounded m block queue queue' event fits done =
      ground (arith, length-append queue (event ∷ []))
  enqueue_event-bounded m drop_newest queue queue' event fits done =
      ground (arith, length-append queue (event ∷ []))
  enqueue_event-bounded m drop_oldest queue queue' event fits done =
      ground (arith, length-drop_oldest m queue event)
