-- ===== src/Nats/Publisher/Progress.antt =====
-- That the publisher gets its events out: internal/nats/publisher.go with a broker that recovers.
use excalibase_watcher.Base.{
  none, some, List, [], ◌∷◌, ◌++◌, ◌≡◌, refl, sym, ◌∙◌, append-nil, append_assoc, inl, inr,
  Bool-cases, All, arith, length,
}
use excalibase_watcher.Cdc.Event.{Event, is_publishable}
use excalibase_watcher.Nats.Publisher.{
  Attempt, acked, Publisher, default_retry_base_delay, send, send_event, record_ack, publish,
  deliver, publish_loop, is_too_large, is_closed,
}
use excalibase_watcher.Nats.Publisher.Delivery.{IsTransient, publish_with_retry-acked, publishables}

-- What the attempts meet: for each event some failures, and then the ack.
abbrev pub recovering : List (List Attempt) → List Attempt
recovering [] = []
recovering (fails ∷ rest) = fails ++ acked ∷ recovering rest

-- The publisher after it published these events, each as it came.
pub record Out (p : Publisher) (events : List Event) (p' : Publisher) : Type 0 where
  observed : p'.observed ≡ p.observed ++ events
  stored : p'.stored ≡ p.stored ++ events

module _ (truncated : Event → Event) where
  publish-acked :
      (p : Publisher) (event : Event) (fails more : List Attempt)
      → All IsTransient fails
      → publish truncated p event (fails ++ acked ∷ more)
        ≡ some
            (record_ack p event (record { result = none; form = event; left = more }), none, more)
  unfolding publish send_event send record_ack is_too_large
  publish-acked p event fails more h =
      rw (publish_with_retry-acked default_retry_base_delay fails more h) refl

  -- The publisher after the ack of one event.
  abbrev past : Publisher → Event → List Attempt → Publisher
  past p event more = record_ack p event (record { result = none; form = event; left = more })

  Out-past :
      (p p' : Publisher) (event : Event) (events : List Event) (more : List Attempt)
      → Out (past p event more) events p'
      → Out p (event ∷ events) p'
  unfolding record_ack
  Out-past p p' event events more o = record {
    observed = o.observed ∙ append_assoc p.observed (event ∷ []) events;
    stored = o.stored ∙ append_assoc p.stored (event ∷ []) events;
  }

  -- A broker that recovers from every failure gets everything: the loop publishes all publishable
  -- events, in order and each as it came, and passes each to the observers.
  pub publish_loop-Out :
      (events : List Event) (p : Publisher) (fails : List (List Attempt))
      → All (All IsTransient) fails
      → length fails ≡ length (publishables events)
      → Out p (publishables events) (publish_loop truncated p events (recovering fails))
  unfolding publish_loop deliver is_closed
  publish_loop-Out [] p fails h n = record {
    observed = sym (append-nil p.observed);
    stored = sym (append-nil p.stored);
  }
  publish_loop-Out (event ∷ events) p [] h n = elim (Bool-cases (is_publishable event.type)) [
    | inr passes ↦ rw passes (publish_loop-Out events p [] h (ground (arith, n)))
    | inl goes ↦ absurd (ground (arith, n))
  ]
  publish_loop-Out (event ∷ events) p (f ∷ fails) h n =
      elim (Bool-cases (is_publishable event.type)) [
        | inr passes ↦ rw passes (publish_loop-Out events p (f ∷ fails) h (ground (arith, n)))
        | inl goes ↦
            rw (goes, publish-acked p event f (recovering fails) h.0)
              (Out-past p _ event (publishables events) (recovering fails) (
                publish_loop-Out events (past p event (recovering fails)) fails h.1
                  (ground (arith, n))))
      ]
