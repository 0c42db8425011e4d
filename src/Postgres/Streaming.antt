-- ===== src/Postgres/Streaming.antt =====
-- internal/postgres/listener.go: what the listener does with each message of the replication
-- connection, and the status updates that it sends.
-- `pglogrepl` decodes the messages: the parameters `parse_keepalive` and `parse_xlog`, `none` where
-- it returns an error. `sends` says whether the connection takes a status update. Times are
-- milliseconds, and one reading `now` of the clock serves a whole call. A call returns `none` while
-- the bus blocks it, and else the session with `false` where it returns an error. An empty CopyData
-- message, which makes the program panic, is not modelled; PostgreSQL sends none.
pub mod Confirmed
use excalibase_watcher.Base.{
  ◌>>=◌, ℕ, ◌+◌, ◌%◌, max, Bool, true, false, ◌&&◌, Option, none, some, List, [], ◌∷◌, ltb, ◌==◌,
  if◌then◌else◌, u64_mod, length, Bytes, codes,
}
use excalibase_watcher.Cdc.Event.{EventType, Event, commit, heartbeat, new_event}
use excalibase_watcher.Postgres.AckGate.{pending, idle, flush}
use excalibase_watcher.Postgres.Lag.{LagTracker, observe_commit, observe_caught_up}
use excalibase_watcher.Postgres.Listener.{Listener, emit}
use excalibase_watcher.Postgres.Parser.Messages.{Parsed, parse}

pub record Keepalive : Type 0 where
  pub server_wal_end : ℕ
  pub reply_requested : Bool

pub record XLogData : Type 0 where
  pub wal_start : ℕ
  pub wal_data : Bytes

pub data Message : Type 0 where
  copy_data : ℕ → Bytes → Message
  other_message : Message

-- The listener, the bus, and `replicationState`; `sent` holds the positions that were confirmed to
-- the primary, the newest one first.
pub record Session (S : Type 0) : Type 0 where
  pub listener : Listener
  pub bus : S
  pub lag_tracker : LagTracker
  pub received_lsn : ℕ
  pub last_flush_sent : ℕ
  pub last_status : ℕ
  pub last_message : ℕ
  pub sent : List ℕ

abbrev pub keepalive_byte : ℕ
keepalive_byte = b'k'

abbrev pub xlog_data_byte : ℕ
xlog_data_byte = b'w'

abbrev pub status_interval : ℕ
status_interval = 10000

abbrev pub heartbeat_interval : ℕ
heartbeat_interval = 30000

abbrev pub is_commit : EventType → Bool
is_commit commit = true
is_commit _ = false

module _ {S : Type 0} (lsn_string : ℕ → Bytes) (handle : S → Event → Option (S × Bool))
    (parse_keepalive : Bytes → Option Keepalive) (parse_xlog : Bytes → Option XLogData)
    (valid_json : Bytes → Bool) (sends : Bool) (now : ℕ) where
  unfoldable pub send_status : Session S → Session S × Bool
  unfolding flush
  send_status s =
      let (ack, position) = flush s.listener.ack in
      let flushed = record s { listener = record s.listener { ack = ack } } in
      if sends
      then (
        record flushed { last_flush_sent = position; last_status = now; sent = position ∷ s.sent },
        true,
      )
      else (flushed, false)

  -- The end of `handleKeepalive`: whether a status is due.
  unfoldable pub answer : Session S → Bool → Session S × Bool
  unfolding send_status
  answer s reply_requested =
      let (ack, position) = flush s.listener.ack in
      let flushed = record s { listener = record s.listener { ack = ack } } in
      if reply_requested
      then send_status s
      else if position == s.last_flush_sent
      then (flushed, true)
      else send_status flushed

  -- `handleKeepalive` once its message is decoded.
  unfoldable pub keepalive : Session S → Keepalive → Session S × Bool
  unfolding answer pending idle observe_caught_up
  keepalive s pkm =
      answer
        (record s {
          received_lsn = max s.received_lsn pkm.server_wal_end;
          lag_tracker =
              if pending s.listener.ack then s.lag_tracker else observe_caught_up s.lag_tracker;
          listener = record s.listener { ack = idle s.listener.ack pkm.server_wal_end };
        })
        pkm.reply_requested

  unfoldable pub handle_keepalive : Session S → Bytes → Session S × Bool
  unfolding keepalive
  handle_keepalive s body = elim (parse_keepalive body) [
    | none ↦ (s, false)
    | some pkm ↦ keepalive s pkm
  ]

  -- `emit` on each event of the event handler, in order.
  pub emit_each : Listener → S → List Event → Option (Listener × S)
  unfolding emit
  emit_each l bus [] = some (l, bus)
  emit_each l bus (event ∷ events) = do
    (l2, bus2) ← emit lsn_string handle l bus event
    emit_each l2 bus2 events

  -- The end of `handleXLogData`: the event that `Parse` returned.
  unfoldable pub finish : Session S → Option Event → Option (Session S)
  unfolding emit observe_commit
  finish s none = some s
  finish s (some event) = do
    (l, bus) ← emit lsn_string handle s.listener s.bus event
    some (record s {
      listener = l;
      bus = bus;
      lag_tracker =
          if is_commit event.type && ltb 0 event.source_timestamp
          then observe_commit event.source_timestamp s.lag_tracker
          else s.lag_tracker;
    })

  -- `WALStart` and the length of the data, in uint64.
  abbrev pub received_to : XLogData → ℕ
  received_to xld = (xld.wal_start + length xld.wal_data) % u64_mod

  -- The call of `Parse`; the LSN provider returns the position just received.
  abbrev pub parsed : Session S → XLogData → Parsed
  parsed s xld =
      parse valid_json now true
        (record s.listener.parser { lsn_provider = some (lsn_string (received_to xld)) })
        xld.wal_data (lsn_string (received_to xld))

  -- `handleXLogData` once its message is decoded; the events of the event handler are emitted while
  -- `Parse` runs.
  unfoldable pub xlog_data : Session S → XLogData → Option (Session S)
  unfolding parse emit_each finish
  xlog_data s xld = do
    (l, bus) ←
        emit_each (record s.listener { parser = (parsed s xld).parser }) s.bus
          (parsed s xld).handled
    finish
        (record s { listener = l; bus = bus; received_lsn = received_to xld; last_message = now })
        (parsed s xld).event

  abbrev pub fine : Option (Session S) → Option (Session S × Bool)
  fine none = none
  fine (some s) = some (s, true)

  unfoldable pub handle_xlog_data : Session S → Bytes → Option (Session S × Bool)
  unfolding xlog_data
  handle_xlog_data s body = elim (parse_xlog body) [
    | none ↦ some (s, false)
    | some xld ↦ fine (xlog_data s xld)
  ]

  unfoldable pub handle_message : Session S → Message → Option (Session S × Bool)
  unfolding handle_keepalive handle_xlog_data
  handle_message s other_message = some (s, true)
  handle_message s (copy_data kind body) =
      if kind == keepalive_byte
      then some (handle_keepalive s body)
      else if kind == xlog_data_byte
      then handle_xlog_data s body
      else some (s, true)

  -- The second half of `maintainHeartbeatAndStatus`.
  unfoldable pub maintain_heartbeat : Session S → Option (Session S × Bool)
  unfolding send_status
  maintain_heartbeat s =
      if ltb now (s.last_message + heartbeat_interval) then some (s, true) else do
        (bus, accepted) ←
            handle s.bus
              (new_event now heartbeat [] [] [] (codes "HEARTBEAT") (lsn_string s.received_lsn))
        some (send_status (record s { bus = bus; last_message = now }))

  unfoldable pub maintain_heartbeat_and_status : Session S → Option (Session S × Bool)
  unfolding maintain_heartbeat send_status
  maintain_heartbeat_and_status s =
      let (after, ok) = send_status s in
      if ltb now (s.last_status + status_interval)
      then maintain_heartbeat s
      else if ok
      then maintain_heartbeat after
      else some (after, false)
