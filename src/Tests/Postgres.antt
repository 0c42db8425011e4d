-- ===== src/Tests/Postgres.antt =====
-- The PostgreSQL side at concrete inputs.
use excalibase_watcher.Postgres.Slots.Sampler.{IsUnusable, sampler_run-last}
use excalibase_watcher.Postgres.Parser.Filter.{Passes, parse-Passes}
use excalibase_watcher.Base.{
  refl, ◌↔◌, ◌≤◌, ◌≡◌, Bool, true, false, Option, none, some, List, [], ◌∷◌, arith, length, All,
  Bytes, codes, decimal, IfSome,
}
use excalibase_watcher.Cdc.Event.{Event}
use excalibase_watcher.Postgres.AckGate.{new_ack_gate, enable}
use excalibase_watcher.Postgres.Lag.{new_lag_tracker}
use excalibase_watcher.Postgres.Parser.{Parser, RelationInfo}
use excalibase_watcher.Postgres.Parser.Reader.{Reader, remaining}
use excalibase_watcher.Postgres.Parser.Tuple.{parse_tuple_data}
use excalibase_watcher.Postgres.Parser.Messages.{parse, relation_columns}
use excalibase_watcher.Postgres.Parser.Bounds.{
  Follows, parse_tuple_data-Follows, relation_columns-Follows,
}
use excalibase_watcher.Postgres.Parser.Reads.{Reads}
use excalibase_watcher.Postgres.Parser.Image.{Cell, null, text}
use excalibase_watcher.Postgres.Parser.Truncates.{outputs}
use excalibase_watcher.Postgres.Slots.{
  sampler_run, failed, slot_missing, SlotCleaner, Round, cleanup_once, SlotCandidate, OrphanRules,
  decide_orphan,
}
use excalibase_watcher.Postgres.Slots.Cleanup.{
  Justified, cleanup_once-Justified, IsOrphan, decide_orphan_iff,
}
use excalibase_watcher.Postgres.Startup.{
  Waited, StartupBackoff, Attempt, answered, rejected, no_answer, wait_for_database,
  wait_for_database_lem,
}
use excalibase_watcher.Postgres.Streaming.{
  Session, copy_data, Keepalive, XLogData, handle_message, maintain_heartbeat_and_status,
}
use excalibase_watcher.Postgres.Streaming.Confirmed.{
  IsOrderly, handle_message-Orderly, maintain_heartbeat_and_status-Orderly,
}

abbrev valid : Bytes → Bool
valid _ = true

abbrev rel : RelationInfo
rel = record {
  namespace = codes "public";
  name = codes "users";
  columns = codes "id" ∷ codes "name" ∷ [];
  type_oids = 23 ∷ 25 ∷ [];
  key_columns = codes "id" ∷ [];
}

-- Two columns: the text `7`, and NULL.
abbrev image : Reader
image = record { bytes = 0 ∷ 2 ∷ b't' ∷ 0 ∷ 0 ∷ 0 ∷ 1 ∷ b'7' ∷ b'n' ∷ []; pos = 0; err = false }

image_size : 2 ≤ remaining image
unfolding remaining
image_size = ground arith

-- The same image as cells.
abbrev cells : List Cell
cells = text 0 0 0 1 (codes "7") ∷ null ∷ []

parse_tuple_data-Follows_example : Follows image (parse_tuple_data valid rel true image).1
parse_tuple_data-Follows_example = parse_tuple_data-Follows valid rel true image (omega arith)

-- One column, the key `a` of type 23.
abbrev columns : Reader
columns = record {
  bytes = 1 ∷ b'a' ∷ 0 ∷ 0 ∷ 0 ∷ 0 ∷ 23 ∷ 0 ∷ 0 ∷ 0 ∷ 0 ∷ [];
  pos = 0;
  err = false;
}

relation_columns-Follows_example :
    Follows columns (relation_columns 1 columns).reader
    × (length (relation_columns 1 columns).names ≡ 1)
    × (length (relation_columns 1 columns).oids ≡ 1)
relation_columns-Follows_example = relation_columns-Follows 1 columns (omega arith)

abbrev parser : Parser
parser = record {
  table_filter = [];
  capture_ddl = false;
  schema_store = none;
  relation_map = (16384, rel) ∷ [];
  lsn_provider = none;
  txn_final_lsn = 90;
  txn_end_lsn = 100;
}

-- Two relations, of which the parser knows one.
abbrev truncated_users : Reader
truncated_users = record {
  bytes = 0 ∷ 0 ∷ 0 ∷ 2 ∷ 1 ∷ 0 ∷ 0 ∷ 64 ∷ 0 ∷ 0 ∷ 0 ∷ 64 ∷ 1 ∷ [];
  pos = 0;
  err = false;
}

parse-Passes_example :
    All
      (Passes parser)
      (outputs (parse valid 5 true parser (b'T' ∷ truncated_users.bytes) (codes "90")))
parse-Passes_example = parse-Passes valid 5 parser (b'T' ∷ truncated_users.bytes) (codes "90")

abbrev rules : OrphanRules
rules = record {
  own_slot = codes "mine";
  pattern = valid;
  stale_after = 1000;
  retained_threshold = 0;
}

abbrev slot : SlotCandidate
slot = record { name = codes "theirs"; active = false; retained_wal_bytes = 5; owner = none }

decide_orphan_iff_example :
    ((decide_orphan rules 5000 slot 4000).drop ≡ true) ↔ IsOrphan rules 5000 slot 4000
decide_orphan_iff_example = decide_orphan_iff rules 5000 slot 4000

abbrev cleaner : SlotCleaner
cleaner = record { rules = rules; dry_run = false; inactive_since = (codes "theirs", 1000) ∷ [] }

cleanup_once-Justified_example :
    (r : Round) × (cleanup_once valid 5000 cleaner (some (slot ∷ [])) ≡ some r)
    × All (Justified cleaner 5000 (slot ∷ [])) r.asked
    × (cleaner.dry_run ≡ true → r.asked ≡ [])
cleanup_once-Justified_example = cleanup_once-Justified valid 5000 cleaner (slot ∷ [])

sampler_run-last_example :
    (sampler_run false (failed ∷ slot_missing ∷ failed ∷ []) ≡ true) ↔ IsUnusable slot_missing
sampler_run-last_example =
    sampler_run-last false (failed ∷ []) slot_missing (failed ∷ []) (λ e. cc) (refl, tt)

abbrev backoff : StartupBackoff
backoff = record { next_delay = 1000; max_delay = 30000 }

abbrev late_start : List Attempt
late_start = rejected no_answer false false ∷ answered ∷ []

wait_for_database_lem_example :
    Waited backoff late_start
      (wait_for_database backoff late_start).0
      (wait_for_database backoff late_start).1
wait_for_database_lem_example = wait_for_database_lem backoff late_start

-- A bus that takes every event.
abbrev takes : Unit {0} → Event → Option (Unit {0} × Bool)
takes bus _ = some (bus, true)

abbrev no_xlog : Bytes → Option XLogData
no_xlog _ = none

abbrev to_200 : Bytes → Option Keepalive
to_200 _ = some (record { server_wal_end = 200; reply_requested = true })

abbrev session : Session (Unit {0})
session = record {
  listener = record {
    parser = parser;
    ack = record (enable new_ack_gate) { confirmable = 150 };
    txn_index = 0;
  };
  bus = tt;
  lag_tracker = new_lag_tracker;
  received_lsn = 180;
  last_flush_sent = 150;
  last_status = 0;
  last_message = 0;
  sent = 150 ∷ 100 ∷ [];
}

session-IsOrderly : IsOrderly session
unfolding enable
session-IsOrderly = (omega arith, (omega arith, tt))

handle_message-Orderly_example :
    IfSome
      (λ x. IsOrderly x.0)
      (handle_message decimal takes to_200 no_xlog valid true 5 session (copy_data b'k' []))
handle_message-Orderly_example =
    handle_message-Orderly decimal takes to_200 no_xlog valid true 5 session (copy_data b'k' [])
      session-IsOrderly

maintain_heartbeat_and_status-Orderly_example :
    IfSome
      (λ x. IsOrderly x.0)
      (maintain_heartbeat_and_status decimal takes to_200 no_xlog valid true 50000 session)
maintain_heartbeat_and_status-Orderly_example =
    maintain_heartbeat_and_status-Orderly decimal takes to_200 no_xlog valid true 50000 session
      session-IsOrderly
