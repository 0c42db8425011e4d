-- ===== src/Postgres/Listener.antt =====
-- internal/postgres/listener.go: `emit`, which hands events to the bus.
-- The bus is the parameter `handle`, `Service.HandleEvent` with `none` while the caller is blocked;
-- `lsn_string` is `pglogrepl.LSN.String`.
use excalibase_watcher.Base.{
  ℕ, ◌+◌, Bool, true, false, Option, none, some, ◌∷◌, ◌++◌, if◌then◌else◌, Bytes, codes, decimal,
}
use excalibase_watcher.Cdc.Event.{Event, EventType, begin, commit, is_publishable}
use excalibase_watcher.Postgres.AckGate.{AckGate, begin_txn, committed, hand, unhand}
use excalibase_watcher.Postgres.Parser.{Parser}

pub record Listener : Type 0 where
  pub parser : Parser
  pub ack : AckGate
  pub txn_index : ℕ

-- `fmt.Sprintf("pg:%s:%d", …)`.
pub source_id : (ℕ → Bytes) → ℕ → ℕ → Bytes
unfolding decimal
source_id lsn_string lsn index = codes "pg:" ++ (lsn_string lsn ++ b':' ∷ decimal index)

-- The event with the name that it has on every re-stream, and its place in the hand-off order.
abbrev pub named : (ℕ → Bytes) → Listener → Event → Event
named lsn_string l event = record event {
  source_id = source_id lsn_string l.parser.txn_final_lsn l.txn_index;
}

-- What is left after the bus answered, with the listener as it was before the call.
abbrev pub passed : {S : Type 0} → Listener → Option (S × Bool) → Option (Listener × S)
passed l none = none
passed l (some (s, _)) = some (l, s)

-- A refused event is taken back.
abbrev pub hand_back : {S : Type 0} → Listener → Option (S × Bool) → Option (Listener × S)
hand_back l none = none
hand_back l (some (s, true)) = some (l, s)
hand_back l (some (s, false)) = some (record l { ack = unhand l.ack }, s)

module _ {S : Type 0} (lsn_string : ℕ → Bytes) (handle : S → Event → Option (S × Bool)) where
  -- The branch of a publishable event.
  unfoldable pub emit_publishable : Listener → S → Event → Option (Listener × S)
  unfolding source_id hand unhand
  emit_publishable l s event =
      let handed = hand l.ack (named lsn_string l event) in
      hand_back (record l { txn_index = l.txn_index + 1; ack = handed.0 }) (handle s handed.1)

  unfoldable pub emit_as : EventType → Listener → S → Event → Option (Listener × S)
  unfolding emit_publishable
  emit_as begin l s event =
      passed (record l { txn_index = 0; ack = begin_txn l.ack }) (handle s event)
  emit_as commit l s event =
      passed (record l { ack = committed l.ack l.parser.txn_end_lsn }) (handle s event)
  emit_as type l s event =
      if is_publishable type then emit_publishable l s event else passed l (handle s event)

  unfoldable pub emit : Listener → S → Event → Option (Listener × S)
  unfolding emit_as begin_txn committed is_publishable
  emit l s event = emit_as event.type l s event
