-- ===== src/Bridge/State/Emission.antt =====
-- What an emission does to the bridge.
use maivn.Prelude.{◌≡◌, refl, ◌⊎◌, inl, inr, true, [], ◌∷◌, ◌++◌, arith, Bool, if-case, Bool-cases}
use maivn.Bridge.Event.{UiEvent}
use maivn.Bridge.Queue.{Enqueued, returned, suspended, enqueue_event}
use maivn.Bridge.State.{
  Bridge, Emitted, refused_closed, emitted, waiting, observer_raised, record_event, deliver,
  emit_packet,
}

module _ {ℓ} {D : Type ℓ} where
  -- Without a bound on the queue and without an observer that raises, an emission to an open bridge
  -- puts the event behind the queue, and one to a closed bridge changes nothing.
  pub emit_packet-unbounded :
      (b : Bridge D) (e : UiEvent D)
      → b.queue_maxsize ≡ 0
      → (emit_packet (λ _. true) b e ≡ refused_closed b)
        ⊎ ((b' : Bridge D) × (emit_packet (λ _. true) b e ≡ emitted b')
            × (b'.queue ≡ b.queue ++ e ∷ [])
            × (b'.queue_maxsize ≡ 0))
  unfolding emit_packet enqueue_event record_event
  emit_packet-unbounded b e z = elim (Bool-cases b.closed) [
    | inl gone ↦ inl (ground arith)
    | inr open_ ↦
        inr (record (record_event b e) { queue = b.queue ++ e ∷ [] }, ground arith, refl, z)
  ]

  -- The bridge that an emission leaves.
  abbrev pub bridge_of : Emitted D → Bridge D
  bridge_of (refused_closed b) = b
  bridge_of (emitted b) = b
  bridge_of (waiting b) = b
  bridge_of (observer_raised b) = b

  deliver-subscribers :
      (b : Bridge D) (o : Enqueued (UiEvent D))
      → (bridge_of (deliver b o)).subscriber_count ≡ b.subscriber_count
  unfolding deliver
  deliver-subscribers b (returned queue) = refl
  deliver-subscribers b suspended = refl

  -- An emission leaves the subscribers alone.
  pub emit_packet-subscribers :
      (observe : UiEvent D → Bool) (b : Bridge D) (e : UiEvent D)
      → (bridge_of (emit_packet observe b e)).subscriber_count ≡ b.subscriber_count
  unfolding emit_packet record_event
  emit_packet-subscribers observe b e =
      let P = λ (o : Emitted D). (bridge_of o).subscriber_count ≡ b.subscriber_count in
      if-case P b.closed (λ _. refl)
        (λ _. if-case P (observe e) (λ _. deliver-subscribers (record_event b e) _) (λ _. refl))
