-- ===== src/Postgres/Pipeline/ServiceBus.antt =====
-- internal/cdc/service.go as the bus of the pipeline: the publisher is the first subscriber to all
-- events (main.go starts it before any listener), and a caller that finds a channel full waits.
use excalibase_watcher.Base.{
  ℕ, ◌≡◌, refl, inl, inr, Bool, Option, none, some, List, [], ◌∷◌, ◌++◌, arith, ltb, Bool-cases,
  length, Bytes, IfSome,
}
use excalibase_watcher.Cdc.Event.{Event}
use excalibase_watcher.Cdc.Service.{
  Service, Subscriber, Subs, Wake, handle_event, deliver_all, deliver_table, deliver,
  deliver_blocked, accepts, after_sends, cons_sent, receive, default_chan_buffer,
}
use excalibase_watcher.Postgres.Pipeline.{Bus, Queued, rest_of}

-- The service with the publisher's subscription apart from the others.
pub record Wired : Type 0 where
  pub publisher : Subscriber
  pub base : Service

abbrev joined : Wired → Service
joined w = record w.base { global_subs = w.publisher ∷ w.base.global_subs }

abbrev rejoin : Wired → Service → List Subscriber → Wired
rejoin w s [] = w
rejoin w s (p ∷ ps) = record { publisher = p; base = record s { global_subs = ps } }

abbrev rewire : Wired → Option (Service × Bool) → Option (Wired × Bool)
rewire w none = none
rewire w (some (s, accepted)) = some (rejoin w s s.global_subs, accepted)

-- A caller that would block comes back when there is room.
abbrev never : ℕ → List Wake
never _ = []

module _ (valid_json : Bytes → Bool) where
  abbrev pub bus_handle : Wired → Event → Option (Wired × Bool)
  bus_handle w event = rewire w (handle_event valid_json never (joined w) event)

  deliver_last :
      (sub : Subscriber) (event : Event)
      → IfSome (λ p. p.queue ≡ sub.queue ++ event ∷ []) (deliver never sub event)
  unfolding deliver deliver_blocked
  deliver_last sub event = elim (Bool-cases (ltb (length sub.queue) default_chan_buffer)) [
    | inl room ↦ rw room refl
    | inr full ↦ rw full tt
  ]

  pub bus_handle_queue :
      (w : Wired) (event : Event)
      → IfSome (λ r. Queued w.publisher.queue event r.0.publisher.queue r.1) (bus_handle w event)
  unfolding handle_event deliver_all
  bus_handle_queue w event = elim (Bool-cases (accepts valid_json (joined w) event)) [
    | inr refused ↦ rw refused refl
    | inl accepted ↦ rw accepted (
        sends (deliver never w.publisher event) (deliver_all never w.base.global_subs event)
          (deliver_table never w.base.table_subs event) (deliver_last w.publisher event))
  ]
    where
      sends :
          (o : Option Subscriber) (os : Option (List Subscriber)) (ts : Option Subs)
          → IfSome (λ p. p.queue ≡ w.publisher.queue ++ event ∷ []) o
          → IfSome
              (λ r. Queued w.publisher.queue event r.0.publisher.queue r.1)
              (rewire w (after_sends (joined w) (cons_sent o os) ts))
      sends none os ts h = tt
      sends (some p) none ts h = tt
      sends (some p) (some ps) none h = tt
      sends (some p) (some ps) (some ms) h = h

  pub bus_receive_queue : (w : Wired) → (receive w.publisher).queue ≡ rest_of w.publisher.queue
  unfolding receive
  bus_receive_queue w = ground arith

  abbrev pub service_bus : Bus
  service_bus = record {
    State = Wired;
    queue = λ w. w.publisher.queue;
    handle = bus_handle;
    receive = λ w. record w { publisher = receive w.publisher };
    handle_queue = bus_handle_queue;
    receive_queue = bus_receive_queue;
  }
