-- ===== src/Postgres/Pipeline.antt =====
-- How the listener, the bus and the NATS publisher work together: internal/postgres/listener.go,
-- internal/cdc/service.go and the loop of internal/nats/publisher.go, as interleaved steps.
-- A step `publishes` stands for a call of `Publisher.publish` that the broker acks, a step `gives_up`
-- for one that fails while the loop goes on (`giving up on event`: no observer is called). The
-- publisher stays subscribed, and the bus is not shut down.
pub mod Order
pub mod Core
pub mod Emit
pub mod AtLeastOnce
pub mod ServiceBus
use excalibase_watcher.Base.{
  ℕ, ◌+◌, ◌≤◌, ◌<◌, max, ◌≡◌, ◌≢◌, Bool, true, false, Option, some, List, [], ◌∷◌, ◌++◌, u64_mod,
  Bytes, IfSome,
}
use excalibase_watcher.Cdc.Event.{Event, commit, is_publishable}
use excalibase_watcher.Postgres.AckGate.{
  AckGate, PendingCommit, idle, flush, new_session, observe_published, new_ack_gate, enable,
}
use excalibase_watcher.Postgres.Parser.{Parser}
use excalibase_watcher.Postgres.Listener.{Listener, emit}

abbrev pub Queued : List Event → Event → List Event → Bool → Type 0
Queued q event q' true = q' ≡ q ++ event ∷ []
Queued q event q' false = q' ≡ q

abbrev pub rest_of : List Event → List Event
rest_of [] = []
rest_of (_ ∷ es) = es

-- What the pipeline needs of the bus: the publisher's subscription is a queue.
pub record Bus : Type 1 where
  pub State : Type 0
  pub queue : State → List Event
  pub handle : State → Event → Option (State × Bool)
  pub receive : State → State
  pub handle_queue :
      (s : State) (event : Event)
      → IfSome (λ r. Queued (queue s) event (queue r.0) r.1) (handle s event)
  pub receive_queue : (s : State) → queue (receive s) ≡ rest_of (queue s)

module _ (bus : Bus) (lsn_string : ℕ → Bytes) where
  open bus use {State, queue, handle, receive}

  -- `published`, `log` and `high` record the history: the events that the broker acked, the commits
  -- of transactions with the number of the last event handed before each, the furthest position, and
  -- whether the publisher gave up on an event.
  pub record System : Type 0 where
    pub listener : Listener
    pub state : State
    pub published : List Event
    pub log : List PendingCommit
    pub high : ℕ
    pub given_up : Bool

  abbrev pub gate : System → AckGate
  gate s = s.listener.ack

  abbrev pub with_gate : System → AckGate → System
  with_gate s g = record s { listener = record s.listener { ack = g } }

  -- PostgreSQL streams transactions in commit order, and a keepalive names a position behind all
  -- that was streamed: so the commit of a transaction that was not streamed before lies beyond
  -- `high`, and one that is streamed again after a reconnect does not.
  pub data Step : System → System → Type 0 where
    parses :
        (s : System) (p : Parser)
        → Step s (record s { listener = record s.listener { parser = p } })
    emits :
        (s : System) (event : Event) (l : Listener) (t : State)
        → event.type ≢ commit
        → event.sequence ≡ 0
        → (gate s).handed + 1 < u64_mod
        → emit lsn_string handle s.listener s.state event ≡ some (l, t)
        → Step s (record s { listener = l; state = t })
    commits :
        (s : System) (event : Event) (l : Listener) (t : State)
        → event.type ≡ commit
        → event.sequence ≡ 0
        → s.high < s.listener.parser.txn_end_lsn
        → emit lsn_string handle s.listener s.state event ≡ some (l, t)
        → Step s (record s {
          listener = l;
          state = t;
          log =
              record { last_sequence = (gate s).handed; end = s.listener.parser.txn_end_lsn }
              ∷ s.log;
          high = s.listener.parser.txn_end_lsn;
        })
    commits_again :
        (s : System) (event : Event) (l : Listener) (t : State)
        → event.type ≡ commit
        → event.sequence ≡ 0
        → s.listener.parser.txn_end_lsn ≤ s.high
        → emit lsn_string handle s.listener s.state event ≡ some (l, t)
        → Step s (record s { listener = l; state = t })
    other :
        (s : System) (event : Event) (t : State) (accepted : Bool)
        → event.sequence ≡ 0
        → handle s.state event ≡ some (t, accepted)
        → Step s (record s { state = t })
    publishes :
        (s : System) (event : Event) (rest : List Event)
        → queue s.state ≡ event ∷ rest
        → is_publishable event.type ≡ true
        → Step s (record (with_gate s (observe_published (gate s) event)) {
          state = receive s.state;
          published = s.published ++ event ∷ [];
        })
    skips :
        (s : System) (event : Event) (rest : List Event)
        → queue s.state ≡ event ∷ rest
        → is_publishable event.type ≡ false
        → Step s (record s { state = receive s.state })
    gives_up :
        (s : System) (event : Event) (rest : List Event)
        → queue s.state ≡ event ∷ rest
        → is_publishable event.type ≡ true
        → Step s (record s { state = receive s.state; given_up = true })
    keepalive :
        (s : System) (position : ℕ)
        → Step s (record (with_gate s (idle (gate s) position)) { high = max s.high position })
    flushes : (s : System) → Step s (with_gate s (flush (gate s)).0)
    reconnects : (s : System) → Step s (with_gate s (new_session (gate s)))

  pub data Reach (s : System) : System → Type 0 where
    here : Reach s s
    next : {t u : System} → Reach s t → Step t u → Reach s u

  -- A listener with gating enabled, before anything is streamed.
  pub record IsStart (s : System) : Type 0 where
    pub empty_queue : queue s.state ≡ []
    pub nothing_published : s.published ≡ []
    pub nothing_logged : s.log ≡ []
    pub at_origin : s.high ≡ 0
    pub nothing_given_up : s.given_up ≡ false
    pub fresh_gate : gate s ≡ enable new_ack_gate
