-- ===== src/Tests/Sessions.antt =====
-- Connections that come and go, the slot's recreation, the publisher's start and the schema history.
use excalibase_watcher.Cdc.Event.{Event}
use excalibase_watcher.Postgres.AckGate.{new_ack_gate, enable}
use excalibase_watcher.Postgres.Lag.{new_lag_tracker}
use excalibase_watcher.Postgres.Parser.{Parser}
use excalibase_watcher.Postgres.Slots.{slot_missing}
use excalibase_watcher.Postgres.Snapshot.{validate_identifier}
use excalibase_watcher.Postgres.Streaming.{Session, Keepalive, XLogData, copy_data}
use excalibase_watcher.Postgres.Streaming.Confirmed.{IsOrderly}
use excalibase_watcher.Postgres.Reconnect.{Connection, listen_loop}
use excalibase_watcher.Postgres.Reconnect.Monotone.{IsBounded, listen_loop-Fine}
use excalibase_watcher.Postgres.Setup.{recreate_unusable_slot}
use excalibase_watcher.Postgres.Setup.Recreate.{
  any, drops_slot, creates_slot, is_lost, is_missing, absent, recreate_unusable_slot_lem,
}
use excalibase_watcher.Nats.Stream.{
  verify_stream_if_connected, Attempt, stream_found, lookup_failed, up, down, start, await_stream,
  wait_connected,
}
use excalibase_watcher.Nats.Stream.Awaits.{outcome, pauses_of, start-decides}
use excalibase_watcher.Schema.{HistoryEntry}
use excalibase_watcher.Schema.Store.{
  find, stamped, FileHistoryStore, new_file_history_store, save, get_history,
}
use excalibase_watcher.Schema.Store.History.{appended, get_history-restart}
use excalibase_watcher.Base.{
  ℕ, ◌≤◌, ◌≡◌, refl, inl, Bool, true, false, ◌&&◌, ◌||◌, Option, none, some, List, [], ◌∷◌, arith,
  All, Bytes, codes, decimal, IfSome,
}

abbrev valid : Bytes → Bool
valid _ = true

abbrev parser : Parser
parser = record {
  table_filter = [];
  capture_ddl = false;
  schema_store = none;
  relation_map = [];
  lsn_provider = none;
  txn_final_lsn = 90;
  txn_end_lsn = 100;
}

-- A bus that takes every event.
abbrev takes : Unit {0} → Event → Option (Unit {0} × Bool)
takes bus _ = some (bus, true)

abbrev no_xlog : Bytes → Option XLogData
no_xlog _ = none

abbrev to_200 : Bytes → Option Keepalive
to_200 _ = some (record { server_wal_end = 200; reply_requested = true })

abbrev session : Session (Unit {0})
session = record {
  listener = record {
    parser = parser;
    ack = record (enable new_ack_gate) { confirmable = 150 };
    txn_index = 0;
  };
  bus = tt;
  lag_tracker = new_lag_tracker;
  received_lsn = 180;
  last_flush_sent = 150;
  last_status = 0;
  last_message = 0;
  sent = 150 ∷ 100 ∷ [];
}

-- A connection with one keepalive that then breaks, and one that does not open.
abbrev breaks : Connection
breaks = record {
  running = true;
  opens = true;
  replicates = true;
  started_at = 5;
  rounds =
      record {
        running = true;
        cancelled = false;
        received = some (copy_data b'k' []);
        cancelled_after = false;
        sends = true;
        now = 6;
      }
      ∷ record {
        running = true;
        cancelled = false;
        received = none;
        cancelled_after = false;
        sends = true;
        now = 7;
      }
      ∷ [];
  cancelled = false;
  wakes = true;
}

abbrev connections : List Connection
connections = breaks ∷ record breaks { opens = false } ∷ []

listen_loop-Fine_example :
    IfSome
      (λ l. IsOrderly l.session × All (IsBounded decimal takes to_200 no_xlog valid) l.delays)
      (listen_loop decimal takes to_200 no_xlog valid
        (codes "cdc_publication")
        (codes "cdc_slot")
        1000
        connections
        session)
unfolding enable
listen_loop-Fine_example =
    listen_loop-Fine decimal takes to_200 no_xlog valid (codes "cdc_publication") (codes "cdc_slot")
      1000 connections session (omega arith, omega arith) (omega arith, (omega arith, tt))

recreate_unusable_slot_lem_example :
    (any drops_slot
        (recreate_unusable_slot true
          (codes "cdc_slot")
          slot_missing
          true
          (some false)
          true).statements
      ≡ (true && is_lost slot_missing))
    × (any creates_slot
          (recreate_unusable_slot true
            (codes "cdc_slot")
            slot_missing
            true
            (some false)
            true).statements
        ≡ (true
            && ((is_missing slot_missing || (is_lost slot_missing && true))
                && (validate_identifier (codes "cdc_slot") && absent (some false)))))
recreate_unusable_slot_lem_example =
    recreate_unusable_slot_lem true (codes "cdc_slot") slot_missing true (some false) true

-- The server cannot be reached for a while, then the lookup times out once.
abbrev slow : Attempt
slow = record {
  polls = down ∷ down ∷ up ∷ [];
  lookup = lookup_failed;
  cancelled_after = false;
  sleeps = true;
}

abbrev answers : Attempt
answers = record slow { lookup = stream_found }

abbrev no_jitter : ℕ → ℕ
no_jitter n = 0

start-decides_example :
    (start no_jitter true true false lookup_failed (slow ∷ answers ∷ []) false
      ≡ some (outcome no_jitter stream_found))
    × ((await_stream no_jitter 1 (slow ∷ answers ∷ [])).delays ≡ pauses_of no_jitter 1 (slow ∷ []))
    × All (λ d. d ≤ 30000) (pauses_of no_jitter 1 (slow ∷ []))
unfolding wait_connected verify_stream_if_connected
start-decides_example =
    start-decides no_jitter false lookup_failed (slow ∷ []) answers [] refl
      (record { connects = refl; fails = refl; stays = refl; pauses = refl }, tt) refl (inl refl)
      (λ n h. h)

abbrev users_entry : HistoryEntry
users_entry = record {
  position = codes "0/1";
  schema = codes "public";
  table = codes "users";
  columns = [];
  timestamp = 5;
}

-- A codec that knows one list.
abbrev marshal : List HistoryEntry → Bytes
marshal _ = codes "[users]"

abbrev unmarshal : Bytes → Option (List HistoryEntry)
unmarshal _ = some (users_entry ∷ [])

-- The file holds the history of an earlier run.
abbrev reopened : FileHistoryStore
reopened = new_file_history_store ((codes "public.users", codes "[old]") ∷ [])

get_history-restart_example :
    (get_history marshal unmarshal true
      (codes "public")
      (codes "users")
      (new_file_history_store (save marshal unmarshal 9 true users_entry reopened).0.files)).1
    ≡ some (appended marshal unmarshal 9 users_entry reopened)
unfolding stamped find
get_history-restart_example = get_history-restart marshal unmarshal 9 users_entry reopened refl
