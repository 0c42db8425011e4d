-- ===== src/Postgres/Reconnect.antt =====
-- internal/postgres/listener.go: a replication connection, and the loop that opens the next one.
-- `Round` is what one turn of the receive loop meets, `Connection` what one attempt to connect and
-- stream meets; a list of them that is used up leaves the loop waiting. Times are milliseconds.
pub mod Monotone
use excalibase_watcher.Cdc.Event.{Event}
use excalibase_watcher.Postgres.AckGate.{new_session}
use excalibase_watcher.Postgres.Snapshot.{validate_identifier}
use excalibase_watcher.Postgres.Streaming.{
  Keepalive, XLogData, Message, Session, handle_message, maintain_heartbeat_and_status,
}
use excalibase_watcher.Base.{
  ◌>>=◌, ℕ, ◌*◌, min, Bool, true, false, not, ◌&&◌, ◌||◌, Option, none, some, List, [], ◌∷◌,
  if◌then◌else◌, Bytes,
}

-- `running` and `cancelled` are `l.running` and `ctx.Err() != nil` before the message is received,
-- `cancelled_after` the latter after it; a message of none is an error of the connection. `sends`
-- says whether the connection takes the status updates of this round.
pub record Round : Type 0 where
  pub running : Bool
  pub cancelled : Bool
  pub received : Option Message
  pub cancelled_after : Bool
  pub sends : Bool
  pub now : ℕ

-- How `connectAndStream` ends: nil or an error, if it ends.
pub data StreamEnd : Type 0 where
  streaming ended broken : StreamEnd

-- `opens` says whether the connection opens with `startReplication` after it; what follows a
-- failure of the latter is the slot's recreation. `cancelled` is `ctx.Err() != nil` after an error
-- and `wakes` is false where the context ends the pause.
pub record Connection : Type 0 where
  pub running : Bool
  pub opens : Bool
  pub replicates : Bool
  pub started_at : ℕ
  pub rounds : List Round
  pub cancelled : Bool
  pub wakes : Bool

abbrev pub first_delay : ℕ
first_delay = 1000

abbrev pub max_reconnect_delay : ℕ
max_reconnect_delay = 30000

-- What keeps `connectAndStream` from its receive loop.
unfoldable pub cannot_stream : Bytes → Bytes → Connection → Bool
unfolding validate_identifier
cannot_stream publication_name slot_name c =
    not (validate_identifier publication_name && validate_identifier slot_name)
    || (not c.opens || not c.replicates)

module _ {S : Type 0} (lsn_string : ℕ → Bytes) (handle : S → Event → Option (S × Bool))
    (parse_keepalive : Bytes → Option Keepalive) (parse_xlog : Bytes → Option XLogData)
    (valid_json : Bytes → Bool) where
  -- One round with a message; none while the bus blocks it, false for an error.
  unfoldable pub round : Round → Message → Session S → Option (Session S × Bool)
  unfolding handle_message maintain_heartbeat_and_status
  round r m s =
      handle_message lsn_string handle parse_keepalive parse_xlog valid_json r.sends r.now s m
      >>= λ t. elim t.1 [
        | true ↦
            maintain_heartbeat_and_status lsn_string handle parse_keepalive parse_xlog valid_json
              r.sends r.now t.0
        | false ↦ some (t.0, false)
      ]

  -- An error of a round ends the loop.
  abbrev pub go_on :
      (Session S → Option (Session S × StreamEnd))
      → Session S × Bool
      → Option (Session S × StreamEnd)
  go_on next (s, true) = next s
  go_on next (s, false) = some (s, broken)

  -- The receive loop of `connectAndStream`.
  unfoldable pub receive_loop : List Round → Session S → Option (Session S × StreamEnd)
  unfolding round
  receive_loop [] s = some (s, streaming)
  receive_loop (r ∷ rounds) s =
      if not r.running || r.cancelled then some (s, ended) else elim r.received [
        | none ↦ some (s, if r.cancelled_after then ended else broken)
        | some m ↦ round r m s >>= λ t. elim t.1 [
          | true ↦ receive_loop rounds t.0
          | false ↦ some (t.0, broken)
        ]
      ]

  -- A new `replicationState`; the gate forgets an open transaction.
  abbrev pub new_state : ℕ → Session S → Session S
  new_state now s = record s {
    listener = record s.listener { ack = new_session s.listener.ack };
    received_lsn = 0;
    last_flush_sent = 0;
    last_status = now;
    last_message = now;
  }

  unfoldable pub connect_and_stream :
      Bytes → Bytes → Connection → Session S → Option (Session S × StreamEnd)
  unfolding receive_loop new_session cannot_stream
  connect_and_stream publication_name slot_name c s =
      if cannot_stream publication_name slot_name c
      then some (s, broken)
      else receive_loop c.rounds (new_state c.started_at s)

  -- What `listenLoop` leaves: the session, and the pauses between its connections in order.
  pub record Listened : Type 0 where
    pub session : Session S
    pub delays : List ℕ

  abbrev pub slept : ℕ → Option Listened → Option Listened
  slept delay none = none
  slept delay (some l) = some (record l { delays = delay ∷ l.delays })

  -- What `listenLoop` does after a connection, with the loop on the next ones for each delay.
  abbrev pub after_connection :
      Connection → ℕ → (ℕ → Session S → Option Listened) → Session S × StreamEnd → Option Listened
  after_connection c delay next (s, streaming) = some (record { session = s; delays = [] })
  after_connection c delay next (s, ended) = next first_delay s
  after_connection c delay next (s, broken) =
      if c.cancelled
      then some (record { session = s; delays = [] })
      else if not c.wakes
      then some (record { session = s; delays = delay ∷ [] })
      else slept delay (next (min (delay * 2) max_reconnect_delay) s)

  unfoldable pub listen_loop : Bytes → Bytes → ℕ → List Connection → Session S → Option Listened
  unfolding connect_and_stream
  listen_loop publication_name slot_name delay [] s = some (record { session = s; delays = [] })
  listen_loop publication_name slot_name delay (c ∷ cs) s =
      if not c.running
      then some (record { session = s; delays = [] })
      else connect_and_stream publication_name slot_name c s
        >>= after_connection c delay (λ d t. listen_loop publication_name slot_name d cs t)
